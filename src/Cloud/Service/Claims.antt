-- ===== src/Cloud/Service/Claims.antt =====
-- claim_next_job and the table of scans.
use os_scanner.Prelude.{
  ℕ, String, ◌≡◌, refl, sym, ◌∙◌, false, Option, some, List, [], ◌∷◌, arith, str_eq, Bool-cases,
  inl, inr, subst, All, All-imp, All-and, All-sort_by, sort_by, map,
}
use os_scanner.Cloud.Dict.{at_key-put_other_text}
use os_scanner.Cloud.Filed
use os_scanner.Cloud.Filed.{
  AreDistinct, IsFiled-AreDistinct, IsFiled-values, sort_by-AreDistinct, values,
}
use os_scanner.Cloud.Repository.{DevicePrincipal, ScanRecord, Repository, audit}
use os_scanner.Cloud.Repository.Jobs.{
  job_dispatch_eligibility, is_open_for, dispatch_first, dispatch_scan, expire_scan, see_endpoint,
  scan_of, claim_next_job,
}
use os_scanner.Cloud.Repository.Jobs.Dispatch.{Eligibility-cases}
use os_scanner.Cloud.Repository.Scans.Changes.{
  scan_at, IsFiled, id_of, ScanChange, untouched, replaced, ScanChanges, no_change, then_change,
  once,
}
use os_scanner.Cloud.Service.Writes.{marked-IsLater}

-- The scans of a list are those that the tables hold under their identifiers.
abbrev AreHeld : Repository → List ScanRecord → Type 0
AreHeld s rs = All (λ (r : ScanRecord). scan_at r.scan_id s ≡ some r) rs

-- Changes after a change.
first_change : {s t u : Repository} → ScanChange s t → ScanChanges t u → ScanChanges s u
first_change c no_change = once c
first_change c (then_change before d) = then_change (first_change c before) d

module _ (fromisoformat : String → Option (Option ℕ)) where
  expire_scan-ScanChange :
      (p : DevicePrincipal) (r : ScanRecord) (now at : ℕ) (s : Repository)
      → scan_at r.scan_id s ≡ some r
      → ScanChange s (expire_scan fromisoformat p r now at s)
  unfolding expire_scan audit
  expire_scan-ScanChange p r now at s held =
      replaced r.scan_id r (record r { state = "EXPIRED"; updated_at = now }) held
        (marked-IsLater r "EXPIRED" now) refl

  dispatch_scan-ScanChange :
      (p : DevicePrincipal) (r : ScanRecord) (now at : ℕ) (s : Repository)
      → scan_at r.scan_id s ≡ some r
      → ScanChange s (dispatch_scan fromisoformat p r now at s).1
  unfolding dispatch_scan audit
  dispatch_scan-ScanChange p r now at s held =
      replaced r.scan_id r (record r { state = "DISPATCHED"; updated_at = now }) held
        (marked-IsLater r "DISPATCHED" now) (ground (arith))

  -- The other scans are held as before.
  expire_scan-AreHeld :
      (p : DevicePrincipal) (r : ScanRecord) (now at : ℕ) (s : Repository) (rest : List ScanRecord)
      → All (λ (q : ScanRecord). str_eq r.scan_id q.scan_id ≡ false) rest
      → AreHeld s rest
      → AreHeld (expire_scan fromisoformat p r now at s) rest
  unfolding expire_scan audit
  expire_scan-AreHeld p r now at s rest differ held =
      All-imp _
        (λ (q : ScanRecord). scan_at q.scan_id (expire_scan fromisoformat p r now at s) ≡ some q)
        rest
        (λ q both.
          at_key-put_other_text r.scan_id q.scan_id
            (record r { state = "EXPIRED"; updated_at = now }) s.scans both.0
          ∙ both.1)
        (All-and _ _ rest differ held)

  dispatch_first-ScanChanges :
      (p : DevicePrincipal) (now at : ℕ) (rs : List ScanRecord) (s : Repository)
      → AreDistinct id_of rs
      → AreHeld s rs
      → ScanChanges s (dispatch_first fromisoformat p now at rs s).1
  unfolding dispatch_first
  dispatch_first-ScanChanges p now at [] s distinct held = no_change
  dispatch_first-ScanChanges p now at (r ∷ rest) s distinct held =
      let later = dispatch_first-ScanChanges p now at rest s distinct.1 held.1 in
      elim (Bool-cases (is_open_for fromisoformat p r)) [
        | inr skipped ↦ rw (skipped) later
        | inl open_ ↦
            elim (Eligibility-cases (job_dispatch_eligibility fromisoformat r p.endpoint_id now)) [
              | inl h ↦ rw (open_, h) (once (dispatch_scan-ScanChange p r now at s held.0))
              | inr (inl h) ↦
                  rw (open_, h)
                    (first_change (expire_scan-ScanChange p r now at s held.0) (
                      dispatch_first-ScanChanges p now at rest
                        (expire_scan fromisoformat p r now at s) distinct.1
                        (expire_scan-AreHeld p r now at s rest distinct.0 held.1)))
              | inr (inr (inl h)) ↦ rw (open_, h) later
              | inr (inr (inr h)) ↦ rw (open_, h) later
            ]
      ]

  see_endpoint-scans :
      (p : DevicePrincipal) (now : ℕ) (s : Repository)
      → (see_endpoint fromisoformat p now s).scans ≡ s.scans
  see_endpoint-scans p now s = ground (arith)

  pub claim_next_job-ScanChanges :
      (p : DevicePrincipal) (now at : ℕ) (s : Repository)
      → IsFiled s
      → ScanChanges s (claim_next_job fromisoformat p now at s).1
  unfolding claim_next_job
  claim_next_job-ScanChanges p now at s filed =
      let seen : Repository = see_endpoint fromisoformat p now s in
      let same : seen.scans ≡ s.scans = see_endpoint-scans p now s in
      let filed' : IsFiled seen = subst (Filed.IsFiled id_of) (sym same) filed in
      first_change (untouched same) (
        dispatch_first-ScanChanges p now at
          (sort_by (λ (r : ScanRecord). r.created_at) (map (scan_of fromisoformat) seen.scans)) seen
          (sort_by-AreDistinct id_of (λ (r : ScanRecord). r.created_at) (values id_of seen.scans)
            (IsFiled-AreDistinct id_of seen.scans filed'))
          (All-sort_by (λ (r : ScanRecord). scan_at r.scan_id seen ≡ some r)
            (λ (r : ScanRecord). r.created_at) (values id_of seen.scans)
            (IsFiled-values id_of seen.scans filed')))
