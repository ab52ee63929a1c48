-- ===== src/Cloud/Service/History.antt =====
-- Histories of calls on the repository.
use os_scanner.Prelude.{ℕ, String, ◌≡◌, Bool, Option, some, List, ok, subst, ap}
use os_scanner.Json.{Json, Fields}
use os_scanner.Storage.Runtime.{Runtime}
use os_scanner.Cloud.Repository.{DevicePrincipal, ScanRecord, AnalysisTask, Repository, ReplayKey}
use os_scanner.Cloud.Repository.Enrollment.Grants.{Call}
use os_scanner.Cloud.Repository.Tasks.Calls.{TaskCall}
use os_scanner.Cloud.Repository.Scans.{
  create_scan_job, create_new_scan, create_scan_key, record_scan_status, scan_status_key,
  accept_scan_status, finalize_scan_report,
}
use os_scanner.Cloud.Repository.Jobs.{claim_next_job}
use os_scanner.Cloud.Repository.Ingestion.{ingest_scan, ingest_new, ingest_key}
use os_scanner.Cloud.Repository.Refusals.{
  Rejection, record_rejection, rejection_key, reject_new, finalize_scan_report_failure,
}
use os_scanner.Cloud.Repository.Scans.Changes.{
  scan_at, IsFiled, ScanChanges, once, untouched, replay_or-ScanChange, ScanChanges-IsFiled,
  ScanChanges-Holds, Holds, IsLater-trans, IsLater-refl,
}
use os_scanner.Cloud.Service.Writes.{
  create_new_scan-ScanChange, accept_scan_status-ScanChange, finalize_scan_report-ScanChange,
  ingest_new-ScanChange, finalize_scan_report_failure-ScanChange, reject_new-ScanChange,
}
use os_scanner.Cloud.Service.Claims.{claim_next_job-ScanChanges}
use os_scanner.Cloud.Service.Untouched.{TaskCall-IsWorking, EnrollmentCall-IsEnrolling}

module _ (same_number : Json → Json → Bool) (fromisoformat : String → Option (Option ℕ))
    (lib : Runtime) (finite : String → Bool) (isoformat : ℕ → String) where
  -- One call that changes the tables, with the tables that it leaves; where an exception undoes nothing,
  -- they are those after the exception too.
  pub data ServiceCall (s s' : Repository) : Type 0 where
    enrollment : Call isoformat s s' → ServiceCall s s'
    task : TaskCall s s' → ServiceCall s s'
    authorize :
        (at : ℕ) (tenant_id : String) (r : ScanRecord) (key digest : String)
        → (create_scan_job at tenant_id r key digest s).1 ≡ s'
        → ServiceCall s s'
    dispatch :
        (p : DevicePrincipal) (now at : ℕ)
        → (claim_next_job fromisoformat p now at s).1 ≡ s'
        → ServiceCall s s'
    ingest :
        (now at : ℕ) (p : DevicePrincipal) (scan_id : String) (upload : Fields)
        (tasks : List AnalysisTask) (key digest : String)
        → (ingest_scan same_number fromisoformat lib finite now at p scan_id upload tasks key digest
            s).1
          ≡ s'
        → ServiceCall s s'
    status :
        (now at : ℕ) (p : DevicePrincipal) (scan_id : String) (document : Fields)
        (key digest : String)
        → (record_scan_status same_number now at p scan_id document key digest s).1 ≡ s'
        → ServiceCall s s'
    reject :
        (now at : ℕ) (p : DevicePrincipal) (rejection : Rejection) (key digest : String)
        → (record_rejection now at p rejection key digest s).1 ≡ s'
        → ServiceCall s s'
    finalize :
        (now at : ℕ) (scan_id : String) (report : Fields)
        → finalize_scan_report same_number now at scan_id report s ≡ ok s'
        → ServiceCall s s'
    give_up :
        (completed now at : ℕ) (scan_id error : String)
        → finalize_scan_report_failure isoformat completed now at scan_id error s ≡ ok s'
        → ServiceCall s s'

  pub data ServiceCalls (first : Repository) : Repository → Type 0 where
    no_call : ServiceCalls first first
    then_call :
        {s s' : Repository} → ServiceCalls first s → ServiceCall s s' → ServiceCalls first s'

  ServiceCall-ScanChanges : {s s' : Repository} → IsFiled s → ServiceCall s s' → ScanChanges s s'
  unfolding create_scan_job record_scan_status ingest_scan record_rejection
  ServiceCall-ScanChanges h (enrollment c) =
      once (untouched (ap (λ x. x.0) (EnrollmentCall-IsEnrolling isoformat c)))
  ServiceCall-ScanChanges h (task c) = once (untouched (ap (λ x. x.0) (TaskCall-IsWorking c)))
  ServiceCall-ScanChanges {s} h (authorize at tenant_id r key digest e) = subst (ScanChanges s) e (
      once (
        replay_or-ScanChange (create_scan_key tenant_id key) digest
          (create_new_scan at tenant_id r (create_scan_key tenant_id key) digest) s
          (create_new_scan-ScanChange at tenant_id r (create_scan_key tenant_id key) digest s)))
  ServiceCall-ScanChanges {s} h (dispatch p now at e) =
      subst (ScanChanges s) e (claim_next_job-ScanChanges fromisoformat p now at s h)
  ServiceCall-ScanChanges {s} h (ingest now at p scan_id upload tasks key digest e) =
      let replay : ReplayKey = ingest_key same_number fromisoformat lib finite p scan_id key in
      subst (ScanChanges s) e (
        once (
          replay_or-ScanChange replay digest
            (ingest_new same_number fromisoformat lib finite now at p scan_id upload tasks replay
              digest)
            s
            (ingest_new-ScanChange same_number fromisoformat lib finite now at p scan_id upload
              tasks replay digest s)))
  ServiceCall-ScanChanges {s} h (status now at p scan_id document key digest e) =
      subst (ScanChanges s) e (
        once (
          replay_or-ScanChange (scan_status_key p scan_id key) digest
            (accept_scan_status same_number now at p scan_id document
              (scan_status_key p scan_id key) digest)
            s
            (accept_scan_status-ScanChange same_number now at p scan_id document
              (scan_status_key p scan_id key) digest s)))
  ServiceCall-ScanChanges {s} h (reject now at p rejection key digest e) = subst (ScanChanges s) e (
      once (
        replay_or-ScanChange (rejection_key p rejection key) digest
          (reject_new now at p rejection (rejection_key p rejection key) digest) s
          (reject_new-ScanChange now at p rejection (rejection_key p rejection key) digest s)))
  ServiceCall-ScanChanges {s} h (finalize now at scan_id report e) =
      once (finalize_scan_report-ScanChange same_number now at scan_id report s e)
  ServiceCall-ScanChanges {s} h (give_up completed now at scan_id error e) =
      once (finalize_scan_report_failure-ScanChange isoformat completed now at scan_id error s e)

  pub ServiceCalls-IsFiled : {s s' : Repository} → IsFiled s → ServiceCalls s s' → IsFiled s'
  ServiceCalls-IsFiled h no_call = h
  ServiceCalls-IsFiled h (then_call before c) =
      let k = ServiceCalls-IsFiled h before in ScanChanges-IsFiled k (ServiceCall-ScanChanges k c)

  -- Through any later calls on the service, whether they answer or raise, a scan keeps its identifier,
  -- tenant, endpoint and job, and it keeps its evidence, its terminal status and its final report as soon
  -- as it has them. The tables hold each scan once, under its identifier, when the calls begin.
  pub scan_record_kept :
      (id : String) (r : ScanRecord) {s s' : Repository}
      → IsFiled s
      → ServiceCalls s s'
      → scan_at id s ≡ some r
      → Holds id r s'
  scan_record_kept id r h no_call found = (r, found, IsLater-refl r)
  scan_record_kept id r h (then_call before c) found =
      let (r1, found1, later1) = scan_record_kept id r h before found in
      let (r2, found2, later2) =
        ScanChanges-Holds id r1 (ServiceCall-ScanChanges (ServiceCalls-IsFiled h before) c)
          found1 in
      (r2, found2, IsLater-trans later1 later2)
