-- ===== src/Cloud/Repository/Ingestion.antt =====
-- validate_scan_upload, and InMemoryRepository: ingest_scan.
pub mod States
pub mod Atomic
use Prim.Native.String.{◌++◌ as append}
use os_scanner.Prelude.{
  ℕ, ◌+◌, ◌*◌, String, Bool, true, false, not, ◌&&◌, ◌||◌, Option, none, some, List, [], ◌∷◌, ◌++◌,
  str_eq, ltb, is_none, if◌then◌else◌, Result, ok, err, Error, guard, or_raise, ◌>>=◌, ◌>>◌,
  type_error, key_error, ownership_error, state_conflict, not_found,
}
use os_scanner.Prelude.Text.{is_empty}
use os_scanner.Json.{
  Json, Fields, Items, nil, cons, null, bool, int, text, list, object, field, end, as_object,
  lookup, get, assign, truthy, same_json,
}
use os_scanner.Storage.Runtime.{Runtime}
use os_scanner.Storage.Snapshots.{among}
use os_scanner.Cloud.Dict.{at_key, put}
use os_scanner.Cloud.Inventory.{InventoryState, InventoryReconstruction, reconstruct_inventory}
use os_scanner.Cloud.Repository.{
  DevicePrincipal, ScanRecord, AnalysisTask, TaskKind, osv, depscan, Repository, ReplayKey, Answer,
  scan, accepted, replay_or, remember, audit, after_checks,
}
use os_scanner.Cloud.Repository.Scans.{owned_scan, kind_text}
use os_scanner.Cloud.Repository.Jobs.{timestamp}
use os_scanner.Cloud.Repository.Tasks.{Tasks, sanitize_error}

abbrev pub same_pair : (String × String) → (String × String) → Bool
same_pair (a, b) (c, d) = str_eq a c && str_eq b d

-- SCAN_UPLOAD_GRACE_SECONDS, in microseconds
abbrev pub upload_grace : ℕ
upload_grace = 7 * 24 * 60 * 60 * 1_000_000

-- `status not in {…}`, which cannot look up a list or a dictionary
abbrev pub check_status : Json → Result (Unit {0})
check_status (text s) = guard (among s ("SUCCESS" ∷ "PARTIAL" ∷ "FAILED" ∷ [])) state_conflict
check_status (list items) = err type_error
check_status (object fields) = err type_error
check_status _ = err state_conflict

module _ (same_number : Json → Json → Bool) (fromisoformat : String → Option (Option ℕ)) where
  -- Neither document names another scan or endpoint.
  unfoldable pub names_scan : ScanRecord → Fields → Bool
  unfolding get same_json
  names_scan r document =
      same_json same_number (get "scan_id" document) (text r.scan_id)
      && same_json same_number (get "endpoint_id" document) (text r.endpoint_id)

  -- `expected is not None and result.get(name) == expected`
  unfoldable pub provides : String → Json → Fields → Bool
  unfolding get same_json
  provides name null result = false
  provides name expected result = same_json same_number (get name result) expected

  -- `expected is None or result.get(name) == expected`
  unfoldable pub provides_optional : String → Json → Fields → Bool
  unfolding get same_json
  provides_optional name null result = true
  provides_optional name expected result = same_json same_number (get name result) expected

  -- `deadline is not None and now <= deadline + grace`
  abbrev pub is_in_time : Option ℕ → ℕ → Bool
  is_in_time none now = false
  is_in_time (some deadline) now = not (ltb (deadline + upload_grace) now)

  unfoldable pub validate_scan_upload : ScanRecord → Fields → ℕ → Result (Unit {0})
  unfolding names_scan provides provides_optional get timestamp among
  validate_scan_upload r upload now = do
    guard (str_eq r.state "DISPATCHED") state_conflict
    result ← or_raise (as_object (get "result" upload)) state_conflict
    inventory_sync ← or_raise (as_object (get "inventory_sync" upload)) state_conflict
    authorization ← or_raise (as_object (get "authorization" r.job_document)) state_conflict
    guard (is_in_time (timestamp fromisoformat (get "deadline" r.job_document)) now) state_conflict
    guard (names_scan r result && names_scan r inventory_sync) state_conflict
    guard
        (provides "scan_type" (get "scan_type" r.job_document) result
          && provides "authorization_scope_id" (get "scope_id" authorization) result
          && provides "policy_id" (get "policy_id" r.job_document) result)
        state_conflict
    guard (provides_optional "policy_version" (get "policy_version" r.job_document) result)
        state_conflict
    check_status (get "status" result)

  -- The loop that checks the tasks of the upload.
  unfoldable pub check_tasks :
      DevicePrincipal → String → List AnalysisTask → Tasks → Result (Unit {0})
  unfolding at_key
  check_tasks p scan_id [] known = ok tt
  check_tasks p scan_id (t ∷ rest) known = do
    guard
        (str_eq t.scan_id scan_id
          && str_eq t.tenant_id p.tenant_id
          && str_eq t.endpoint_id p.endpoint_id)
        state_conflict
    guard (is_none (at_key str_eq t.task_id known)) state_conflict
    check_tasks p scan_id rest known

  unfoldable pub put_tasks : List AnalysisTask → Tasks → Tasks
  unfolding put
  put_tasks [] known = known
  put_tasks (t ∷ rest) known = put_tasks rest (put str_eq t.task_id t known)

  unfoldable pub task_kinds : List AnalysisTask → Items
  task_kinds [] = nil
  task_kinds (t ∷ rest) = cons (text (kind_text t.kind)) (task_kinds rest)

  abbrev pub state_key : DevicePrincipal → String × String
  state_key p = (p.tenant_id, p.endpoint_id)

  -- What an accepted upload becomes.
  pub record Accepted : Type 0 where
    pub record_before : ScanRecord
    pub reconstruction : InventoryReconstruction

  module _ (lib : Runtime) (finite : String → Bool) where
    -- Every check of the ingestion, before it changes anything.
    unfoldable pub check_upload :
        ℕ → DevicePrincipal → String → Fields → List AnalysisTask → Repository → Result Accepted
    unfolding owned_scan validate_scan_upload reconstruct_inventory check_tasks get at_key
    check_upload now p scan_id upload tasks s = do
      r ← owned_scan p scan_id s
      guard (is_none r.upload) state_conflict
      validate_scan_upload r upload now
      reconstruction ←
          reconstruct_inventory lib finite p.tenant_id p.endpoint_id scan_id
            (get "inventory_sync" upload) (at_key same_pair (state_key p) s.inventory_states) now
      check_tasks p scan_id tasks s.tasks
      ok (record { record_before = r; reconstruction = reconstruction })

    abbrev pub accepted_scan : Accepted → Fields → ℕ → ScanRecord
    accepted_scan a upload now = record a.record_before {
      state = "ANALYZING";
      upload = some (assign "inventory_sync" (object a.reconstruction.inventory_sync) upload);
      updated_at = now;
    }

    -- The writes, the replay and the audit record of an accepted upload.
    unfoldable pub store_upload :
        ℕ
        → ℕ
        → DevicePrincipal
        → String
        → Fields
        → List AnalysisTask
        → ReplayKey
        → String
        → Accepted
        → Repository
        → Answer
    unfolding put_tasks put remember audit task_kinds get assign
    store_upload now at p scan_id upload tasks replay request_hash a s =
        let r : ScanRecord = accepted_scan a upload now in
        (
          ok (scan r),
          audit p.tenant_id "SCAN_EVIDENCE_ACCEPTED" "endpoint" (text p.endpoint_id) "scan" scan_id
              at
              (field "analysis_tasks" (list (task_kinds tasks)) (
                field "inventory_mode" (get "mode" a.reconstruction.inventory_sync)
                  (field "snapshot_hash" (text a.reconstruction.state.snapshot_hash) end)))
              (remember replay request_hash (scan r) (record s {
                scans = put str_eq scan_id r s.scans;
                inventory_states =
                    put same_pair (state_key p) a.reconstruction.state s.inventory_states;
                tasks = put_tasks tasks s.tasks;
              })),
        )

    abbrev pub ingest_key : DevicePrincipal → String → String → ReplayKey
    ingest_key p scan_id key = record {
      tenant = p.tenant_id;
      operation = append "ingest:" scan_id;
      key = key;
    }

    unfoldable pub ingest_new :
        ℕ
        → ℕ
        → DevicePrincipal
        → String
        → Fields
        → List AnalysisTask
        → ReplayKey
        → String
        → Repository
        → Answer
    unfolding after_checks check_upload store_upload
    ingest_new now at p scan_id upload tasks replay request_hash s =
        after_checks (check_upload now p scan_id upload tasks s) s
          (λ a. store_upload now at p scan_id upload tasks replay request_hash a s)

    unfoldable pub ingest_scan :
        ℕ
        → ℕ
        → DevicePrincipal
        → String
        → Fields
        → List AnalysisTask
        → String
        → String
        → Repository
        → Answer
    unfolding replay_or ingest_new
    ingest_scan now at p scan_id upload tasks idempotency_key request_hash =
        replay_or (ingest_key p scan_id idempotency_key) request_hash (
          ingest_new now at p scan_id upload tasks (ingest_key p scan_id idempotency_key)
            request_hash)
