-- ===== src/Storage/Uploads/Requeue.antt =====
-- `requeue_dead_upload`: an operator's repair of a dead letter, with its audit event.
use os_scanner.Prelude.{
  ℕ, String, Bool, true, false, ◌&&◌, not, Option, none, some, leb, is_none, any, update, Result,
  ok, err, guard, value_error, storage_error, or_raise, ◌>>=◌, ◌>>◌,
}
use os_scanner.Prelude.Text.{strip, is_empty, show}
use os_scanner.Json.{Json, Fields, null, int, text, object, end, field, get, assign, as_object}
use os_scanner.Storage.Runtime.{Runtime, parse_json, hash_text, clean_error}
use os_scanner.Storage.Identifier.{clean_text, clean_identifier}
use os_scanner.Storage.Audit.{Content, record_audit_event}
use os_scanner.Storage.Uploads.{Upload, Storage, pending, is_dead, has_id, find_upload}

pub record RequeueResult : Type 0 where
  pub upload_id : ℕ
  pub max_attempts : ℕ
  pub audit_event_id : String
  pub audit_event_hash : String

abbrev pub in_limits : Option ℕ → Bool
in_limits none = true
in_limits (some n) = leb 1 n && leb n 100

abbrev pub limit_of : Option ℕ → Upload → ℕ
limit_of none row = row.max_attempts
limit_of (some n) row = n

-- _optional_metadata_identifier
unfoldable pub optional_identifier : Fields → String → Option String
optional_identifier metadata name = elim (clean_identifier (get name metadata) 256) [
  | ok s ↦ some s
  | err e ↦ none
]

unfoldable pub operator_recovery : String → String → String → String → Json
operator_recovery operator event_id reason recorded_at = object (
    field "action" (text "requeue") (
      field "actor" (text operator) (
        field "audit_event_id" (text event_id)
          (field "reason" (text reason) (field "recorded_at" (text recorded_at) end)))))

unfoldable pub requeue_row : ℕ → ℕ → String → String → Upload → Upload
requeue_row retry_limit now metadata recorded_at r = record r {
  status = pending;
  attempt_count = 0;
  max_attempts = retry_limit;
  next_attempt_at = now;
  leased_until = none;
  lease_token = none;
  last_error = none;
  delivered_at = none;
  metadata_json = metadata;
  updated_at = recorded_at;
}

-- WHERE upload_id = ? AND status = 'DEAD' AND superseded_by_upload_id IS NULL
abbrev pub is_requeueable : ℕ → Upload → Bool
is_requeueable id r = has_id id r && is_dead r.status && is_none r.superseded_by

module _ (lib : Runtime) (now : ℕ) (recorded_at event_id : String) where
  abbrev error_hash : Option String → Json
  error_hash none = null
  error_hash (some error) = text (hash_text lib error)

  unfoldable pub requeue_event : Upload → Fields → String → String → ℕ → Content
  unfolding optional_identifier hash_text
  requeue_event row metadata operator reason retry_limit = record {
    event_id = event_id;
    event_type = "upload.dead_letter_requeued";
    actor = some operator;
    resource_type = some "upload_queue";
    resource_id = some (show row.upload_id);
    scan_id = optional_identifier metadata "scan_id";
    endpoint_id = optional_identifier metadata "endpoint_id";
    authorization_scope_id = none;
    outcome = "SUCCESS";
    details_json = lib.canonical_json (
        object (
          field "action" (text "requeue") (
            field "kind" (text row.kind) (
              field "previous_attempt_count" (int row.attempt_count) (
                field "previous_error_sha256" (error_hash row.last_error)
                  (field "reason" (text reason) (field "retry_limit" (int retry_limit) end)))))));
    created_at = recorded_at;
  }

  -- The transaction, for an operator and a reason that passed the checks.
  unfoldable pub requeue_checked :
      ℕ → String → String → Option ℕ → Storage → Result (RequeueResult × Storage)
  unfolding requeue_event operator_recovery requeue_row find_upload
  requeue_checked id operator reason max_attempts s = do
    row ← or_raise (find_upload id s.uploads) storage_error
    guard (is_dead row.status) storage_error
    guard (is_none row.superseded_by) storage_error
    metadata_value ← parse_json lib row.metadata_json
    fields ← or_raise (as_object metadata_value) storage_error
    let retry_limit = limit_of max_attempts row
    let metadata =
        assign "operator_recovery" (operator_recovery operator event_id reason recorded_at) fields
    guard (any (is_requeueable id) s.uploads) storage_error
    logged ←
        record_audit_event (λ d. hash_text lib (lib.canonical_json d)) s.audit
          (requeue_event row metadata operator reason retry_limit) false
    ok (
      record {
        upload_id = id;
        max_attempts = retry_limit;
        audit_event_id = event_id;
        audit_event_hash = logged.0;
      },
      record s {
        uploads =
            update (is_requeueable id)
              (requeue_row retry_limit now (lib.canonical_json (object metadata)) recorded_at)
              s.uploads;
        audit = logged.1;
      },
    )

  unfoldable pub requeue_dead_upload :
      ℕ → String → String → Option ℕ → Storage → Result (RequeueResult × Storage)
  unfolding requeue_checked clean_error
  requeue_dead_upload id actor reason max_attempts s = do
    operator ← clean_text actor 256
    requested ← clean_text reason 512
    let safe_reason = strip (clean_error lib requested 512)
    guard (not (is_empty safe_reason)) value_error
    guard (in_limits max_attempts) value_error
    requeue_checked id operator safe_reason max_attempts s
