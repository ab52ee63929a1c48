-- ===== src/Cloud/Repository/Jobs/Dispatch.antt =====
-- What `claim_next_job` hands out.
use os_scanner.Prelude.{
  ℕ, ◌≤◌, ◌<◌, String, ◌⊎◌, ◌≡◌, refl, true, Option, some, List, [], ◌∷◌, arith, ok, Bool-cases,
  Option-cases, inl, inr, sort_by, map, subst, eq_iff,
}
use os_scanner.Json.{Items, Fields, lookup, get, as_object, as_list, is_true}
use os_scanner.Cloud.Repository.{DevicePrincipal, ScanRecord, Repository}
use os_scanner.Cloud.Repository.Jobs.{
  Eligibility, eligible, active, waiting, expired, timestamp, is_listed, window_eligibility,
  job_dispatch_eligibility, is_open_for, dispatch_first, dispatch_scan, expire_scan, see_endpoint,
  scan_of, claim_next_job,
}

pub Eligibility-cases :
    (v : Eligibility) → (v ≡ eligible) ⊎ ((v ≡ expired) ⊎ ((v ≡ active) ⊎ (v ≡ waiting)))
Eligibility-cases eligible = inl refl
Eligibility-cases expired = inr (inl refl)
Eligibility-cases active = inr (inr (inl refl))
Eligibility-cases waiting = inr (inr (inr refl))

module _ (fromisoformat : String → Option (Option ℕ)) where
  -- The job's authorization names the endpoint and is in force at the given time.
  pub record IsAuthorized (job : Fields) (endpoint_id : String) (now : ℕ) : Type 0 where
    pub authorization : Fields
    pub deadline : ℕ
    pub valid_from : ℕ
    pub expires_at : ℕ
    pub allowed : Items
    pub present : as_object (get "authorization" job) ≡ some authorization
    pub due : timestamp fromisoformat (get "deadline" job) ≡ some deadline
    pub starts : timestamp fromisoformat (get "valid_from" authorization) ≡ some valid_from
    pub ends : timestamp fromisoformat (get "expires_at" authorization) ≡ some expires_at
    pub names : as_list (get "allowed_endpoint_ids" authorization) ≡ some allowed
    pub granted : is_true (get "authorized" authorization) ≡ true
    pub listed : is_listed endpoint_id allowed ≡ true
    pub before_deadline : now < deadline
    pub before_end : now < expires_at
    pub after_start : valid_from ≤ now

  window_eligibility-IsAuthorized :
      (authorization : Fields) (deadline : ℕ) (r : ScanRecord) (endpoint_id : String) (now : ℕ)
      → as_object (get "authorization" r.job_document) ≡ some authorization
      → timestamp fromisoformat (get "deadline" r.job_document) ≡ some deadline
      → window_eligibility fromisoformat authorization deadline r endpoint_id now ≡ eligible
      → IsAuthorized r.job_document endpoint_id now
  unfolding window_eligibility
  window_eligibility-IsAuthorized authorization deadline r endpoint_id now present due e =
      elim (Option-cases (timestamp fromisoformat (get "valid_from" authorization))) [
        | inl no_start ↦ absurd (ground (arith, no_start, e))
        | inr (valid_from, starts) ↦
            elim (Option-cases (timestamp fromisoformat (get "expires_at" authorization))) [
              | inl no_end ↦ absurd (ground (arith, starts, no_end, e))
              | inr (expires_at, ends) ↦
                  elim (Option-cases (as_list (get "allowed_endpoint_ids" authorization))) [
                    | inl no_list ↦ absurd (ground (arith, starts, ends, no_list, e))
                    | inr (allowed, names) ↦ record {
                      authorization = authorization;
                      deadline = deadline;
                      valid_from = valid_from;
                      expires_at = expires_at;
                      allowed = allowed;
                      present = present;
                      due = due;
                      starts = starts;
                      ends = ends;
                      names = names;
                      granted = ground (arith, starts, ends, names, e);
                      listed = ground (arith, starts, ends, names, e);
                      before_deadline = ground (arith, starts, ends, names, e);
                      before_end = ground (arith, starts, ends, names, e);
                      after_start = ground (arith, starts, ends, names, e);
                    }
                  ]
            ]
      ]

  job_dispatch_eligibility-IsAuthorized :
      (r : ScanRecord) (endpoint_id : String) (now : ℕ)
      → job_dispatch_eligibility fromisoformat r endpoint_id now ≡ eligible
      → IsAuthorized r.job_document endpoint_id now
  unfolding job_dispatch_eligibility
  job_dispatch_eligibility-IsAuthorized r endpoint_id now e =
      elim (Option-cases (as_object (get "authorization" r.job_document))) [
        | inl no_authorization ↦ absurd (ground (arith, no_authorization, e))
        | inr (authorization, present) ↦
            elim (Option-cases (timestamp fromisoformat (get "deadline" r.job_document))) [
              | inl no_deadline ↦ absurd (ground (arith, present, no_deadline, e))
              | inr (deadline, due) ↦
                  window_eligibility-IsAuthorized authorization deadline r endpoint_id now present
                    due (ground (arith, present, due, e))
            ]
      ]

  -- A claimed scan is the caller's, was authorized for it at that time, and is now dispatched.
  abbrev pub IsHanded : DevicePrincipal → ℕ → ScanRecord → Type 0
  IsHanded p now r =
      (r.tenant_id ≡ p.tenant_id)
      × (r.endpoint_id ≡ p.endpoint_id)
      × (r.state ≡ "DISPATCHED")
      × (r.updated_at ≡ now)
      × IsAuthorized r.job_document p.endpoint_id now

  dispatch_scan-IsHanded :
      (p : DevicePrincipal) (x : ScanRecord) (now at : ℕ) (s : Repository) {r : ScanRecord}
      → is_open_for fromisoformat p x ≡ true
      → IsAuthorized x.job_document p.endpoint_id now
      → (dispatch_scan fromisoformat p x now at s).0 ≡ ok (some r)
      → IsHanded p now r
  unfolding dispatch_scan
  dispatch_scan-IsHanded p x now at s {r} open_ authorized e =
      elim (Option-cases (lookup "timeout_seconds" x.job_document)) [
        | inl missing ↦ absurd (ground (arith, missing, e))
        | inr (timeout, found) ↦
            let same : record x { state = "DISPATCHED"; updated_at = now } ≡ r =
              ground (arith, found, e) in
            subst (IsHanded p now) same (
              ground (arith, open_, eq_iff x.tenant_id p.tenant_id),
              ground (arith, open_, eq_iff x.endpoint_id p.endpoint_id),
              refl,
              refl,
              authorized,
            )
      ]

  dispatch_first-IsHanded :
      (p : DevicePrincipal) (now at : ℕ) (rs : List ScanRecord) (s : Repository) {r : ScanRecord}
      → (dispatch_first fromisoformat p now at rs s).0 ≡ ok (some r)
      → IsHanded p now r
  unfolding dispatch_first
  dispatch_first-IsHanded p now at [] s e = absurd (ground (arith, e))
  dispatch_first-IsHanded p now at (x ∷ rest) s {r} e =
      elim (Bool-cases (is_open_for fromisoformat p x)) [
        | inr skipped ↦ dispatch_first-IsHanded p now at rest s {r = r} (ground (arith, skipped, e))
        | inl open_ ↦
            elim (Eligibility-cases (job_dispatch_eligibility fromisoformat x p.endpoint_id now)) [
              | inl h ↦
                  dispatch_scan-IsHanded p x now at s {r = r} open_
                    (job_dispatch_eligibility-IsAuthorized x p.endpoint_id now h)
                    (ground (arith, h, open_, e))
              | inr (inl h) ↦
                  dispatch_first-IsHanded p now at rest (expire_scan fromisoformat p x now at s)
                    {r = r} (ground (arith, h, open_, e))
              | inr (inr h) ↦
                  dispatch_first-IsHanded p now at rest s {r = r} (ground (arith, h, open_, e))
            ]
      ]

  -- A scan that `claim_next_job` hands to an endpoint belongs to its tenant and to it, is marked as
  -- dispatched at that time, and carries an authorization that is granted, names the endpoint, has
  -- started, and has reached neither its end nor the job's deadline.
  pub claim_next_job-IsHanded :
      (p : DevicePrincipal) (now at : ℕ) (s : Repository) {r : ScanRecord}
      → (claim_next_job fromisoformat p now at s).0 ≡ ok (some r)
      → IsHanded p now r
  unfolding claim_next_job
  claim_next_job-IsHanded p now at s e =
      dispatch_first-IsHanded p now at
        (sort_by (λ r. r.created_at)
          (map (scan_of fromisoformat) (see_endpoint fromisoformat p now s).scans))
        (see_endpoint fromisoformat p now s) e
