-- ===== src/Cloud/Service/Cases.antt =====
-- What one call on the service leaves alone, of the inventory states, the grants and the tasks.
use os_scanner.Prelude.{ℕ, ◌⊎◌, String, Bool, Option, inl, inr, subst}
use os_scanner.Json.{Json}
use os_scanner.Storage.Runtime.{Runtime}
use os_scanner.Cloud.Repository.{Repository}
use os_scanner.Cloud.Repository.Scans.{
  create_scan_job, create_new_scan, create_scan_key, record_scan_status, scan_status_key,
  accept_scan_status,
}
use os_scanner.Cloud.Repository.Refusals.{record_rejection, rejection_key, reject_new}
use os_scanner.Cloud.Repository.Enrollment.Grants.{Call}
use os_scanner.Cloud.Repository.Tasks.Calls.{TaskCall}
use os_scanner.Cloud.Service.Ingested.{Ingestion, ingestion}
use os_scanner.Cloud.Service.Others.{
  Keeps, replay_or-Keeps, create_new_scan-Keeps, claim_next_job-Keeps, accept_scan_status-Keeps,
  reject_new-Keeps, finalize_scan_report-Keeps, finalize_scan_report_failure-Keeps,
}
use os_scanner.Cloud.Service.History.{
  ServiceCall, enrollment, task, authorize, dispatch, ingest, status, reject, finalize, give_up,
}

module _ (same_number : Json → Json → Bool) (fromisoformat : String → Option (Option ℕ))
    (lib : Runtime) (finite : String → Bool) (isoformat : ℕ → String) where
  -- A call works on grants, endpoints and credentials, or on tasks, or it ingests evidence, or it keeps
  -- the inventory states, the grants and the tasks.
  pub ServiceCall-cases :
      {s s' : Repository}
      → ServiceCall same_number fromisoformat lib finite isoformat s s'
      → Call isoformat s s'
        ⊎ (TaskCall s s' ⊎ (Ingestion same_number fromisoformat lib finite s s' ⊎ Keeps s s'))
  unfolding create_scan_job record_scan_status record_rejection
  ServiceCall-cases (enrollment c) = inl c
  ServiceCall-cases (task c) = inr (inl c)
  ServiceCall-cases (ingest now at p scan_id upload tasks key digest e) =
      inr (inr (inl (ingestion now at p scan_id upload tasks key digest e)))
  ServiceCall-cases {s} (authorize at tenant_id r key digest e) = inr (
      inr (
        inr (
          subst (Keeps s) e (
            replay_or-Keeps (create_scan_key tenant_id key) digest
              (create_new_scan at tenant_id r (create_scan_key tenant_id key) digest) s
              (create_new_scan-Keeps at tenant_id r (create_scan_key tenant_id key) digest s)))))
  ServiceCall-cases {s} (dispatch p now at e) =
      inr (inr (inr (subst (Keeps s) e (claim_next_job-Keeps fromisoformat p now at s))))
  ServiceCall-cases {s} (status now at p scan_id document key digest e) = inr (
      inr (
        inr (
          subst (Keeps s) e (
            replay_or-Keeps (scan_status_key p scan_id key) digest
              (accept_scan_status same_number now at p scan_id document
                (scan_status_key p scan_id key) digest)
              s
              (accept_scan_status-Keeps same_number now at p scan_id document
                (scan_status_key p scan_id key) digest s)))))
  ServiceCall-cases {s} (reject now at p rejection key digest e) = inr (
      inr (
        inr (
          subst (Keeps s) e (
            replay_or-Keeps (rejection_key p rejection key) digest
              (reject_new now at p rejection (rejection_key p rejection key) digest) s
              (reject_new-Keeps now at p rejection (rejection_key p rejection key) digest s)))))
  ServiceCall-cases {s} (finalize now at scan_id report e) =
      inr (inr (inr (finalize_scan_report-Keeps same_number now at scan_id report s e)))
  ServiceCall-cases {s} (give_up completed now at scan_id error e) =
      inr (
        inr (inr (finalize_scan_report_failure-Keeps isoformat completed now at scan_id error s e)))
