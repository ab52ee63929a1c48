-- ===== src/Cloud/Service/Others.antt =====
-- The tables that the calls on jobs, scans and refusals do not write.
use os_scanner.Prelude.{
  ℕ, String, ◌≡◌, refl, ◌∙◌, Bool, Option, none, some, List, [], ◌∷◌, arith, ok, guard,
  ownership_error, Option-cases, Result-cases, Bool-cases, inl, inr, str_eq, sort_by, map,
}
use os_scanner.Json.{Json, Fields}
use os_scanner.Cloud.Dict.{at_key}
use os_scanner.Cloud.Inventory.{InventoryState}
use os_scanner.Cloud.Repository.{
  Answer, AnalysisTask, EnrollmentGrantRecord, DevicePrincipal, ScanRecord, Repository, ReplayKey,
  replay_or, remember, audit, after_checks,
}
use os_scanner.Cloud.Repository.Scans.{
  create_new_scan, check_new_scan, accept_scan_status, validate_scan_status, owned_scan,
  finalize_scan_report,
}
use os_scanner.Cloud.Repository.Jobs.{
  claim_next_job, dispatch_first, dispatch_scan, expire_scan, see_endpoint, scan_of, is_open_for,
  job_dispatch_eligibility,
}
use os_scanner.Cloud.Repository.Jobs.Dispatch.{Eligibility-cases}
use os_scanner.Cloud.Repository.Refusals.{
  Rejection, reject_new, rejected_scan, mark_rejected, is_owner, finalize_scan_report_failure,
}

-- The tables of inventory states, of grants and of tasks.
abbrev other_tables :
    Repository
    → List ((String × String) × InventoryState)
      × List (String × EnrollmentGrantRecord)
      × List (String × AnalysisTask)
other_tables s = (s.inventory_states, s.enrollment_grants, s.tasks)

-- A step after which these tables are the same.
abbrev pub Keeps : Repository → Repository → Type 0
Keeps s s' = other_tables s' ≡ other_tables s

pub replay_or-Keeps :
    (key : ReplayKey) (digest : String) (body : Repository → Answer) (s : Repository)
    → Keeps s (body s).1
    → Keeps s (replay_or key digest body s).1
unfolding replay_or
replay_or-Keeps key digest body s kept = ground (arith, kept)

pub create_new_scan-Keeps :
    (at : ℕ) (tenant_id : String) (new : ScanRecord) (replay : ReplayKey) (digest : String)
    (s : Repository)
    → Keeps s (create_new_scan at tenant_id new replay digest s).1
unfolding create_new_scan after_checks remember audit
create_new_scan-Keeps at tenant_id new replay digest s =
    elim (Result-cases (check_new_scan tenant_id new s)) [
      | inr (error, refused) ↦ ground (arith, refused)
      | inl (done, checked) ↦ ground (arith, checked)
    ]

mark_rejected-Keeps :
    (now : ℕ) (id : Option String) (r : Option ScanRecord) (s : Repository)
    → Keeps s (mark_rejected now id r s)
unfolding mark_rejected
mark_rejected-Keeps now none r s = refl
mark_rejected-Keeps now (some id) none s = refl
mark_rejected-Keeps now (some id) (some r) s = refl

pub reject_new-Keeps :
    (now at : ℕ) (p : DevicePrincipal) (rejection : Rejection) (replay : ReplayKey)
    (digest : String) (s : Repository)
    → Keeps s (reject_new now at p rejection replay digest s).1
unfolding reject_new after_checks remember audit
reject_new-Keeps now at p rejection replay digest s =
    elim (Result-cases (guard (is_owner p (rejected_scan rejection.scan_id s)) ownership_error)) [
      | inr (error, refused) ↦ rw (refused, after_checks) refl
      | inl (done, passed) ↦
          rw (passed, after_checks)
            (mark_rejected-Keeps now rejection.scan_id (rejected_scan rejection.scan_id s) s)
    ]

pub finalize_scan_report_failure-Keeps :
    (isoformat : ℕ → String) (completed now at : ℕ) (scan_id error : String) (s : Repository)
    {s' : Repository}
    → finalize_scan_report_failure isoformat completed now at scan_id error s ≡ ok s'
    → Keeps s s'
unfolding finalize_scan_report_failure audit
finalize_scan_report_failure-Keeps isoformat completed now at scan_id error s e =
    elim (Option-cases (at_key str_eq scan_id s.scans)) [
      | inl missing ↦ absurd (ground (arith, missing, e))
      | inr (old, own) ↦ ground (arith, own, e)
    ]

module _ (fromisoformat : String → Option (Option ℕ)) where
  dispatch_scan-Keeps :
      (p : DevicePrincipal) (r : ScanRecord) (now at : ℕ) (s : Repository)
      → Keeps s (dispatch_scan fromisoformat p r now at s).1
  unfolding dispatch_scan audit
  dispatch_scan-Keeps p r now at s = ground (arith)

  expire_scan-Keeps :
      (p : DevicePrincipal) (r : ScanRecord) (now at : ℕ) (s : Repository)
      → Keeps s (expire_scan fromisoformat p r now at s)
  unfolding expire_scan audit
  expire_scan-Keeps p r now at s = refl

  dispatch_first-Keeps :
      (p : DevicePrincipal) (now at : ℕ) (rs : List ScanRecord) (s : Repository)
      → Keeps s (dispatch_first fromisoformat p now at rs s).1
  unfolding dispatch_first
  dispatch_first-Keeps p now at [] s = refl
  dispatch_first-Keeps p now at (r ∷ rest) s = elim (Bool-cases (is_open_for fromisoformat p r)) [
    | inr skipped ↦ rw (skipped) (dispatch_first-Keeps p now at rest s)
    | inl open_ ↦
        elim (Eligibility-cases (job_dispatch_eligibility fromisoformat r p.endpoint_id now)) [
          | inl h ↦ rw (open_, h) (dispatch_scan-Keeps p r now at s)
          | inr (inl h) ↦
              rw (open_, h)
                (dispatch_first-Keeps p now at rest (expire_scan fromisoformat p r now at s)
                  ∙ expire_scan-Keeps p r now at s)
          | inr (inr (inl h)) ↦ rw (open_, h) (dispatch_first-Keeps p now at rest s)
          | inr (inr (inr h)) ↦ rw (open_, h) (dispatch_first-Keeps p now at rest s)
        ]
  ]

  pub claim_next_job-Keeps :
      (p : DevicePrincipal) (now at : ℕ) (s : Repository)
      → Keeps s (claim_next_job fromisoformat p now at s).1
  unfolding claim_next_job
  claim_next_job-Keeps p now at s =
      let seen : Repository = see_endpoint fromisoformat p now s in
      let kept : Keeps s seen = ground (arith) in
      dispatch_first-Keeps p now at
        (sort_by (λ (r : ScanRecord). r.created_at) (map (scan_of fromisoformat) seen.scans)) seen
      ∙ kept

module _ (same_number : Json → Json → Bool) where
  pub accept_scan_status-Keeps :
      (now at : ℕ) (p : DevicePrincipal) (scan_id : String) (document : Fields) (replay : ReplayKey)
      (digest : String) (s : Repository)
      → Keeps s (accept_scan_status same_number now at p scan_id document replay digest s).1
  unfolding accept_scan_status after_checks remember audit
  accept_scan_status-Keeps now at p scan_id document replay digest s =
      elim (Result-cases (owned_scan p scan_id s)) [
        | inr (error, refused) ↦ ground (arith, refused)
        | inl (old, owned) ↦ elim (Result-cases (validate_scan_status same_number old document)) [
          | inr (error, refused) ↦ ground (arith, owned, refused)
          | inl (done, valid) ↦ ground (arith, owned, valid)
        ]
      ]

  pub finalize_scan_report-Keeps :
      (now at : ℕ) (scan_id : String) (report : Fields) (s : Repository) {s' : Repository}
      → finalize_scan_report same_number now at scan_id report s ≡ ok s'
      → Keeps s s'
  unfolding finalize_scan_report audit
  finalize_scan_report-Keeps now at scan_id report s e =
      elim (Option-cases (at_key str_eq scan_id s.scans)) [
        | inl missing ↦ absurd (ground (arith, missing, e))
        | inr (old, own) ↦ ground (arith, own, e)
      ]
