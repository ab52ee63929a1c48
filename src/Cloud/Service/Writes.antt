-- ===== src/Cloud/Service/Writes.antt =====
-- How the calls that name one scan change the table of scans.
use os_scanner.Prelude.{
  ℕ, String, ◌≡◌, refl, ◌∙◌, Bool, Option, none, some, List, arith, str_eq, ok, guard, Option-cases,
  Result-cases, inl, inr, ownership_error,
}
use os_scanner.Json.{Json, Fields}
use os_scanner.Storage.Runtime.{Runtime}
use os_scanner.Cloud.Dict.{at_key}
use os_scanner.Cloud.Repository.{
  DevicePrincipal, ScanRecord, AnalysisTask, Repository, ReplayKey, remember, audit, after_checks,
}
use os_scanner.Cloud.Repository.Scans.{
  create_new_scan, check_new_scan, accept_scan_status, validate_scan_status, owned_scan,
  finalize_scan_report,
}
use os_scanner.Cloud.Repository.Scans.Changes.{
  scan_at, IsLater, ScanChange, untouched, added, replaced,
}
use os_scanner.Cloud.Repository.Ingestion.{check_upload, store_upload, ingest_new, accepted_scan}
use os_scanner.Cloud.Repository.Ingestion.States.{check_upload-reconstruction}
use os_scanner.Cloud.Repository.Refusals.{
  Rejection, reject_new, rejected_scan, mark_rejected, is_owner, finalize_scan_report_failure,
  failed_normalization_report,
}

checked-fresh :
    (tenant_id : String) (r : ScanRecord) (s : Repository)
    → check_new_scan tenant_id r s ≡ ok tt
    → scan_at r.scan_id s ≡ none
unfolding check_new_scan
checked-fresh tenant_id r s e = elim (Option-cases (at_key str_eq r.endpoint_id s.endpoints)) [
  | inl missing ↦ absurd (ground (arith, missing, e))
  | inr (endpoint, there) ↦ ground (arith, there, e)
]

pub create_new_scan-ScanChange :
    (at : ℕ) (tenant_id : String) (new : ScanRecord) (replay : ReplayKey) (digest : String)
    (s : Repository)
    → ScanChange s (create_new_scan at tenant_id new replay digest s).1
unfolding create_new_scan after_checks remember audit
create_new_scan-ScanChange at tenant_id new replay digest s =
    elim (Result-cases (check_new_scan tenant_id new s)) [
      | inr (error, refused) ↦ untouched (ground (arith, refused))
      | inl (done, checked) ↦
          added new (checked-fresh tenant_id new s checked) (ground (arith, checked))
    ]

owned_scan-found :
    (p : DevicePrincipal) (scan_id : String) (s : Repository) (old : ScanRecord)
    → owned_scan p scan_id s ≡ ok old
    → scan_at scan_id s ≡ some old
unfolding owned_scan
owned_scan-found p scan_id s old owned = ground (arith, owned)

-- A scan of which only the state and the time of the change are new.
pub marked-IsLater :
    (r : ScanRecord) (state : String) (now : ℕ)
    → IsLater r (record r { state = state; updated_at = now })
marked-IsLater r state now = record {
  identifier = refl;
  tenant = refl;
  endpoint = refl;
  job = refl;
  evidence = λ v e. e;
  status = λ v e. e;
  report = λ v e. e;
}

-- A report is written on a scan without one.
reported-IsLater :
    (r : ScanRecord) (state : String) (report : Fields) (now : ℕ)
    → r.final_report ≡ none
    → IsLater r (record r { state = state; final_report = some report; updated_at = now })
reported-IsLater r state report now unreported = record {
  identifier = refl;
  tenant = refl;
  endpoint = refl;
  job = refl;
  evidence = λ v e. e;
  status = λ v e. e;
  report = λ v e. absurd (ground (arith, unreported, e));
}

module _ (same_number : Json → Json → Bool) where
  validated-fresh :
      (old : ScanRecord) (document v : Fields)
      → validate_scan_status same_number old document ≡ ok tt
      → old.terminal_status ≡ some v
      → ⊥
  unfolding validate_scan_status
  validated-fresh old document v valid e = elim (Option-cases old.upload) [
    | inl no_upload ↦ ground (arith, no_upload, valid, e)
    | inr (upload, there) ↦ ground (arith, there, valid, e)
  ]

  -- An accepted status changes the scan by that status alone.
  pub accept_scan_status-ScanChange :
      (now at : ℕ) (p : DevicePrincipal) (scan_id : String) (document : Fields) (replay : ReplayKey)
      (digest : String) (s : Repository)
      → ScanChange s (accept_scan_status same_number now at p scan_id document replay digest s).1
  unfolding accept_scan_status after_checks remember audit
  accept_scan_status-ScanChange now at p scan_id document replay digest s =
      elim (Result-cases (owned_scan p scan_id s)) [
        | inr (error, refused) ↦ untouched (ground (arith, refused))
        | inl (old, owned) ↦ elim (Result-cases (validate_scan_status same_number old document)) [
          | inr (error, refused) ↦ untouched (ground (arith, owned, refused))
          | inl (done, valid) ↦
              replaced scan_id old
                (record old { terminal_status = some document; updated_at = now })
                (owned_scan-found p scan_id s old owned)
                (record {
                  identifier = refl;
                  tenant = refl;
                  endpoint = refl;
                  job = refl;
                  evidence = λ v e. e;
                  status = λ v e. absurd (validated-fresh old document v valid e);
                  report = λ v e. e;
                })
                (ground (arith, owned, valid))
        ]
      ]

  pub finalize_scan_report-ScanChange :
      (now at : ℕ) (scan_id : String) (report : Fields) (s : Repository) {s' : Repository}
      → finalize_scan_report same_number now at scan_id report s ≡ ok s'
      → ScanChange s s'
  unfolding finalize_scan_report audit
  finalize_scan_report-ScanChange now at scan_id report s e =
      elim (Option-cases (scan_at scan_id s)) [
        | inl missing ↦ absurd (ground (arith, missing, e))
        | inr (old, own) ↦ elim (Option-cases old.final_report) [
          | inr (existing, has) ↦ untouched (ground (arith, own, has, e))
          | inl unreported ↦
              replaced scan_id old
                (record old { state = "COMPLETE"; final_report = some report; updated_at = now })
                own (reported-IsLater old "COMPLETE" report now unreported)
                (ground (arith, own, unreported, e))
        ]
      ]

  module _ (fromisoformat : String → Option (Option ℕ)) (lib : Runtime)
      (finite : String → Bool) where
    pub ingest_new-ScanChange :
        (now at : ℕ) (p : DevicePrincipal) (scan_id : String) (upload : Fields)
        (tasks : List AnalysisTask) (replay : ReplayKey) (digest : String) (s : Repository)
        → ScanChange s
            (ingest_new same_number fromisoformat lib finite now at p scan_id upload tasks replay
              digest s).1
    unfolding ingest_new after_checks store_upload remember audit
    ingest_new-ScanChange now at p scan_id upload tasks replay digest s =
        elim (Result-cases
          (check_upload same_number fromisoformat lib finite now p scan_id upload tasks s)) [
            | inr (error, refused) ↦ untouched (ground (arith, refused))
            | inl (a, passed) ↦
                let (owned, fresh, _, _) =
                  check_upload-reconstruction same_number fromisoformat lib finite now p scan_id
                    upload tasks s passed in
                replaced scan_id a.record_before
                  (accepted_scan same_number fromisoformat lib finite a upload now)
                  (owned_scan-found p scan_id s a.record_before owned)
                  (record {
                    identifier = refl;
                    tenant = refl;
                    endpoint = refl;
                    job = refl;
                    evidence = λ v e. absurd (ground (arith, fresh, e));
                    status = λ v e. e;
                    report = λ v e. e;
                  })
                  (ground (arith, passed))
          ]

pub finalize_scan_report_failure-ScanChange :
    (isoformat : ℕ → String) (completed now at : ℕ) (scan_id error : String) (s : Repository)
    {s' : Repository}
    → finalize_scan_report_failure isoformat completed now at scan_id error s ≡ ok s'
    → ScanChange s s'
unfolding finalize_scan_report_failure audit
finalize_scan_report_failure-ScanChange isoformat completed now at scan_id error s e =
    elim (Option-cases (scan_at scan_id s)) [
      | inl missing ↦ absurd (ground (arith, missing, e))
      | inr (old, own) ↦ elim (Option-cases old.final_report) [
        | inr (existing, has) ↦ untouched (ground (arith, own, has, e))
        | inl unreported ↦
            let report = failed_normalization_report old error (isoformat completed) in
            replaced scan_id old
              (record old { state = "COMPLETE"; final_report = some report; updated_at = now }) own
              (reported-IsLater old "COMPLETE" report now unreported)
              (ground (arith, own, unreported, e))
      ]
    ]

mark_rejected-ScanChange :
    (now : ℕ) (id : Option String) (s : Repository)
    → ScanChange s (mark_rejected now id (rejected_scan id s) s)
unfolding mark_rejected rejected_scan
mark_rejected-ScanChange now none s = untouched refl
mark_rejected-ScanChange now (some id) s = elim (Option-cases (rejected_scan (some id) s)) [
  | inl missing ↦ untouched (rw (missing, mark_rejected) refl)
  | inr (r, found) ↦
      replaced id r (record r { state = "REJECTED"; updated_at = now }) (ground (arith, found))
        (marked-IsLater r "REJECTED" now) (rw (found, mark_rejected) refl)
]

-- Other tables than that of the scans do not matter to a change.
pub ScanChange-same : {s t u : Repository} → ScanChange s t → u.scans ≡ t.scans → ScanChange s u
ScanChange-same (untouched e) same = untouched (same ∙ e)
ScanChange-same (added r fresh e) same = added r fresh (same ∙ e)
ScanChange-same (replaced id old new found later e) same =
    replaced id old new found later (same ∙ e)

pub reject_new-ScanChange :
    (now at : ℕ) (p : DevicePrincipal) (rejection : Rejection) (replay : ReplayKey)
    (digest : String) (s : Repository)
    → ScanChange s (reject_new now at p rejection replay digest s).1
unfolding reject_new after_checks remember audit
reject_new-ScanChange now at p rejection replay digest s =
    elim (Result-cases (guard (is_owner p (rejected_scan rejection.scan_id s)) ownership_error)) [
      | inr (error, refused) ↦ untouched (rw (refused, after_checks) refl)
      | inl (done, passed) ↦
          ScanChange-same (mark_rejected-ScanChange now rejection.scan_id s)
            (rw (passed, after_checks) refl)
    ]
