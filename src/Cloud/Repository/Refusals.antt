-- ===== src/Cloud/Repository/Refusals.antt =====
-- InMemoryRepository: record_rejection and finalize_scan_report_failure, and
-- _failed_normalization_report. `isoformat` writes an instant.
use Prim.Native.String.{◌++◌ as append}
use os_scanner.Prelude.{
  ℕ, String, Bool, true, false, ◌&&◌, Option, none, some, [], ◌∷◌, ◌++◌, str_eq, if◌then◌else◌,
  Result, ok, guard, or_raise, ◌>>=◌, not_found, ownership_error,
}
use os_scanner.Prelude.Text.{is_empty}
use os_scanner.Json.{Json, Fields, nil, cons, bool, int, text, list, object, field, end}
use os_scanner.Cloud.Dict.{at_key, put}
use os_scanner.Cloud.Repository.{
  DevicePrincipal, ScanRecord, Repository, ReplayKey, Answer, accepted, replay_or, remember, audit,
  after_checks,
}
use os_scanner.Cloud.Repository.Tasks.{sanitize_error}

-- The fields of a rejection that the operation reads; its schema makes them texts.
pub record Rejection : Type 0 where
  pub document_sha256 : String
  pub scan_id : Option String
  pub reason : String
  pub payload : Fields

-- `if scan_id`, then `self.scans.get(scan_id)`
unfoldable pub rejected_scan : Option String → Repository → Option ScanRecord
unfolding at_key
rejected_scan none s = none
rejected_scan (some id) s = if is_empty id then none else at_key str_eq id s.scans

abbrev pub is_owner : DevicePrincipal → Option ScanRecord → Bool
is_owner p none = true
is_owner p (some r) = str_eq r.tenant_id p.tenant_id && str_eq r.endpoint_id p.endpoint_id

-- `if record: self.scans[scan_id] = replace(record, state="REJECTED", …)`
unfoldable pub mark_rejected : ℕ → Option String → Option ScanRecord → Repository → Repository
unfolding put
mark_rejected now (some id) (some r) s = record s {
  scans = put str_eq id (record r { state = "REJECTED"; updated_at = now }) s.scans;
}
mark_rejected now none r s = s
mark_rejected now (some id) none s = s

-- `scan_id or payload["document_sha256"]`
abbrev resource : Rejection → String
resource rejection = elim rejection.scan_id [
  | none ↦ rejection.document_sha256
  | some id ↦ if is_empty id then rejection.document_sha256 else id
]

unfoldable pub reject_new :
    ℕ → ℕ → DevicePrincipal → Rejection → ReplayKey → String → Repository → Answer
unfolding after_checks rejected_scan mark_rejected remember audit
reject_new now at p rejection replay request_hash s =
    after_checks (guard (is_owner p (rejected_scan rejection.scan_id s)) ownership_error) s
      (λ checked.
        let marked = mark_rejected now rejection.scan_id (rejected_scan rejection.scan_id s) s in
        (
          ok accepted,
          audit p.tenant_id "SCAN_JOB_REJECTED" "endpoint" (text p.endpoint_id) "scan"
              (resource rejection) at (field "reason" (text rejection.reason) end)
              (remember replay request_hash accepted
                (record marked { rejections = s.rejections ++ rejection.payload ∷ [] })),
        ))

abbrev pub rejection_key : DevicePrincipal → Rejection → String → ReplayKey
rejection_key p rejection key = record {
  tenant = p.tenant_id;
  operation = append "rejection:" rejection.document_sha256;
  key = key;
}

unfoldable pub record_rejection :
    ℕ → ℕ → DevicePrincipal → Rejection → String → String → Repository → Answer
unfolding replay_or reject_new
record_rejection now at p rejection idempotency_key request_hash =
    replay_or (rejection_key p rejection idempotency_key) request_hash
      (reject_new now at p rejection (rejection_key p rejection idempotency_key) request_hash)

abbrev no_list : Json
no_list = list nil

-- _failed_normalization_report
unfoldable pub failed_normalization_report : ScanRecord → String → String → Fields
unfolding sanitize_error
failed_normalization_report r error completed_at = field "schema_version" (text "1.0") (
    field "report_type" (text "CLOUD_ENDPOINT_SECURITY_REPORT") (
      field "report_id" (text (append "cloud-report:" r.scan_id)) (
        field "tenant_id" (text r.tenant_id) (
          field "endpoint_id" (text r.endpoint_id) (
            field "scan_id" (text r.scan_id) (
              field "status" (text "FAILED") (
                field "analysis_completed_at" (text completed_at) (
                  field "endpoint_evidence" (object end) (
                    field "cloud_analysis"
                      (object (field "vulnerabilities" no_list (field "tools" (object end) end)))
                      (field "summary"
                        (object (
                          field "status" (text "FAILED") (
                            field "vulnerability_count" (int 0) (
                              field "vulnerabilities_by_severity" (object end) (
                                field "successful_tools" no_list (
                                  field "degraded_tools"
                                    (list (cons (text "REPORT_NORMALIZATION") nil)) end))))))
                        (field "completeness"
                          (object (
                            field "complete" (bool false) (
                              field "fixture_mode" (bool false) (
                                field "gaps"
                                  (list (cons (text "cloud report normalization failed") nil))
                                  end))))
                          (field "errors"
                            (list (
                              cons
                                (object (
                                  field "code" (text "REPORT_NORMALIZATION_FAILED")
                                    (field "message" (text (sanitize_error error)) end)))
                                nil))
                            (field "provenance"
                              (object
                                (field "normalization_failure_recorded_at" (text completed_at) end))
                              end)))))))))))))

unfoldable pub finalize_scan_report_failure :
    (ℕ → String) → ℕ → ℕ → ℕ → String → String → Repository → Result Repository
unfolding at_key put audit failed_normalization_report sanitize_error
finalize_scan_report_failure isoformat completed now at scan_id error s = do
  r ← or_raise (at_key str_eq scan_id s.scans) not_found
  elim r.final_report [
    | some report ↦ ok s
    | none ↦ ok (
        audit r.tenant_id "SCAN_REPORT_NORMALIZATION_FAILED" "worker" (text "normalizer") "scan"
          scan_id at (field "error" (text (sanitize_error error)) end)
          (record s {
            scans =
                put str_eq scan_id
                  (record r {
                    state = "COMPLETE";
                    final_report = some (failed_normalization_report r error (isoformat completed));
                    updated_at = now;
                  })
                  s.scans;
          }))
  ]
