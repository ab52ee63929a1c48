-- ===== src/Cloud/Repository/Scans.antt =====
-- validate_scan_status, and InMemoryRepository's create_scan_job, record_scan_status and
-- finalize_scan_report: the life of a scan outside its dispatch and the ingestion of its evidence.
pub mod Changes
use Prim.Native.String.{◌++◌ as append}
use os_scanner.Prelude.{
  ℕ, String, Bool, true, false, not, ◌&&◌, ◌||◌, Option, none, some, List, [], ◌∷◌, str_eq, is_none,
  if◌then◌else◌, Result, ok, err, guard, or_raise, ◌>>=◌, ◌>>◌, key_error, type_error, not_found,
  state_conflict, ownership_error,
}
use os_scanner.Json.{
  Json, Fields, null, text, object, field, end, as_object, lookup, get, assign, same_json,
}
use os_scanner.Cloud.Dict.{at_key, put}
use os_scanner.Cloud.Repository.{
  DevicePrincipal, EndpointRecord, ScanRecord, AnalysisTask, TaskKind, TaskState, osv, depscan,
  pending, running, succeeded, retry, failed, Repository, ReplayKey, Response, Answer, scan,
  replay_or, remember, audit, after_checks,
}
use os_scanner.Cloud.Repository.Enrollment.{is_set}
use os_scanner.Cloud.Repository.Tasks.{Tasks}

-- record.job_document["authorization"]["authorization_reference"]
unfoldable pub authorization_reference : Fields → Result Json
unfolding lookup
authorization_reference job = do
  authorization ← or_raise (lookup "authorization" job) key_error
  fields ← or_raise (as_object authorization) type_error
  or_raise (lookup "authorization_reference" fields) key_error

-- job_document.get("initiated_by", "platform")
unfoldable pub initiated_by : Fields → Json
unfolding lookup
initiated_by job = elim (lookup "initiated_by" job) [ none ↦ text "platform" | some value ↦ value ]

unfoldable pub check_new_scan : String → ScanRecord → Repository → Result (Unit {0})
unfolding at_key
check_new_scan tenant_id r s = do
  endpoint ← or_raise (at_key str_eq r.endpoint_id s.endpoints) not_found
  guard (str_eq endpoint.tenant_id tenant_id) not_found
  guard (is_none (at_key str_eq r.scan_id s.scans)) state_conflict

abbrev pub create_scan_key : String → String → ReplayKey
create_scan_key tenant_id key = record { tenant = tenant_id; operation = "create-scan"; key = key }

-- The audit record reads the document after the scan was stored and the answer remembered.
unfoldable pub create_new_scan : ℕ → String → ScanRecord → ReplayKey → String → Repository → Answer
unfolding after_checks check_new_scan remember audit authorization_reference initiated_by put
create_new_scan at tenant_id r replay request_hash s =
    after_checks (check_new_scan tenant_id r s) s (λ checked.
      let stored =
        remember replay request_hash (scan r)
          (record s { scans = put str_eq r.scan_id r s.scans }) in
      elim (authorization_reference r.job_document) [
        | err error ↦ (err error, stored)
        | ok reference ↦ (
          ok (scan r),
          audit tenant_id "SCAN_AUTHORIZED" "platform" (initiated_by r.job_document) "scan"
              r.scan_id at
              (field "endpoint_id" (text r.endpoint_id)
                (field "authorization_reference" reference end))
              stored,
        )
      ])

unfoldable pub create_scan_job : ℕ → String → ScanRecord → String → String → Repository → Answer
unfolding replay_or create_new_scan
create_scan_job at tenant_id r idempotency_key request_hash =
    replay_or (create_scan_key tenant_id idempotency_key) request_hash
      (create_new_scan at tenant_id r (create_scan_key tenant_id idempotency_key) request_hash)

-- record is None or record.tenant_id != … or record.endpoint_id != …
unfoldable pub owned_scan : DevicePrincipal → String → Repository → Result ScanRecord
unfolding at_key
owned_scan p scan_id s = do
  r ← or_raise (at_key str_eq scan_id s.scans) ownership_error
  guard (str_eq r.tenant_id p.tenant_id && str_eq r.endpoint_id p.endpoint_id) ownership_error
  ok r

abbrev status_fields : List String
status_fields =
    "scan_id" ∷ "endpoint_id" ∷ "schema_version" ∷ "scanner_version" ∷ "authorization_scope_id"
    ∷ "policy_id" ∷ "policy_version" ∷ "status" ∷ []

abbrev pub scan_status_key : DevicePrincipal → String → String → ReplayKey
scan_status_key p scan_id key = record {
  tenant = p.tenant_id;
  operation = append "scan-status:" scan_id;
  key = key;
}

abbrev pub kind_text : TaskKind → String
kind_text osv = "OSV"
kind_text depscan = "DEPSCAN"

abbrev state_text : TaskState → String
state_text pending = "PENDING"
state_text running = "RUNNING"
state_text succeeded = "SUCCEEDED"
state_text retry = "RETRY"
state_text failed = "FAILED"

-- {task.kind: task.state for task in tasks if task.scan_id == scan_id}, after the entries so far
unfoldable pub task_states : String → Tasks → Fields → Fields
unfolding assign
task_states scan_id [] states = states
task_states scan_id ((key, t) ∷ rest) states = task_states scan_id rest (
    if str_eq t.scan_id scan_id
    then assign (kind_text t.kind) (text (state_text t.state)) states
    else states)

-- The kind has a task, in a terminal state.
abbrev is_terminal_state : Option Json → Bool
is_terminal_state (some (text state)) = str_eq state "SUCCEEDED" || str_eq state "FAILED"
is_terminal_state _ = false

-- set(task_states) == {"OSV", "DEPSCAN"} and every state is terminal
unfoldable pub is_analysed : Fields → Bool
unfolding lookup
is_analysed states =
    is_terminal_state (lookup "OSV" states) && is_terminal_state (lookup "DEPSCAN" states)

module _ (same_number : Json → Json → Bool) where
  unfoldable pub agree_on : List String → Fields → Fields → Bool
  unfolding get
  agree_on [] status result = true
  agree_on (name ∷ names) status result =
      same_json same_number (get name status) (get name result) && agree_on names status result

  -- validate_scan_status
  unfoldable pub validate_scan_status : ScanRecord → Fields → Result (Unit {0})
  unfolding agree_on get
  validate_scan_status r status = do
    upload ← or_raise r.upload state_conflict
    guard (is_none r.terminal_status) state_conflict
    result ← or_raise (as_object (get "result" upload)) state_conflict
    guard (agree_on status_fields status result) state_conflict

  unfoldable pub accept_scan_status :
      ℕ → ℕ → DevicePrincipal → String → Fields → ReplayKey → String → Repository → Answer
  unfolding after_checks owned_scan validate_scan_status remember audit put lookup
  accept_scan_status now at p scan_id status replay request_hash s =
      after_checks (do r ← owned_scan p scan_id s; validate_scan_status r status; ok r) s
        (λ r.
          let updated : ScanRecord = record r { terminal_status = some status; updated_at = now } in
          let stored =
            remember replay request_hash (scan updated)
              (record s { scans = put str_eq scan_id updated s.scans }) in
          elim (lookup "status" status) [
            | none ↦ (err key_error, stored)
            | some value ↦ (
              ok (scan updated),
              audit p.tenant_id "SCAN_ENDPOINT_STATUS_ACCEPTED" "endpoint" (text p.endpoint_id)
                  "scan" scan_id at (field "status" value end) stored,
            )
          ])

  unfoldable pub record_scan_status :
      ℕ → ℕ → DevicePrincipal → String → Fields → String → String → Repository → Answer
  unfolding replay_or accept_scan_status
  record_scan_status now at p scan_id status idempotency_key request_hash =
      replay_or (scan_status_key p scan_id idempotency_key) request_hash (
        accept_scan_status now at p scan_id status (scan_status_key p scan_id idempotency_key)
          request_hash)

  unfoldable pub finalize_scan_report : ℕ → ℕ → String → Fields → Repository → Result Repository
  unfolding at_key put audit task_states is_analysed
  finalize_scan_report now at scan_id report s = do
    r ← or_raise (at_key str_eq scan_id s.scans) not_found
    elim r.final_report [
      | some existing ↦
          if same_json same_number (object existing) (object report)
          then ok s
          else err state_conflict
      | none ↦
          let states = task_states scan_id s.tasks end in
          if is_analysed states
          then ok (
              audit r.tenant_id "SCAN_REPORT_FINALIZED" "worker" (text "normalizer") "scan" scan_id
                at (field "analysis_states" (object states) end)
                (record s {
                  scans =
                      put str_eq scan_id
                        (record r {
                          state = "COMPLETE";
                          final_report = some report;
                          updated_at = now;
                        })
                        s.scans;
                }))
          else err state_conflict
    ]
