-- ===== src/Storage/Uploads/Resync.antt =====
-- `schedule_full_resync`: a rejected differential upload is replaced by its full snapshot.
use Prim.Native.String.{◌++◌ as append}
use os_scanner.Prelude.{
  ℕ, String, Bool, true, false, not, ◌&&◌, Option, none, some, List, str_eq, is_id, if◌then◌else◌,
  find, any, update, Result, ok, err, guard, storage_error, idempotency_conflict, integrity_error,
  or_raise, ◌>>=◌, ◌>>◌,
}
use os_scanner.Json.{
  Json, Fields, null, bool, int, text, object, end, field, get, lookup, assign, truthy, as_object,
}
use os_scanner.Storage.Runtime.{Runtime, parse_json, parse_bytes, hash_text, clean_error}
use os_scanner.Storage.Identifier.{clean_text, clean_identifier}
use os_scanner.Storage.Audit.{optional}
use os_scanner.Storage.Uploads.{
  Upload, Snapshot, Storage, EnqueueResult, pending, dead, is_leased_by, insert_row,
}

abbrev is_missing : Option Json → Bool
is_missing none = true
is_missing (some value) = false

abbrev is_null : Json → Bool
is_null null = true
is_null _ = false

-- The differential state of the rejected payload, or the payload itself if it is one.
unfoldable pub differential : Fields → Json
differential payload =
    let nested = get "inventory_sync" payload in
    if is_null nested && not (is_missing (lookup "mode" payload)) then object payload else nested

-- `metadata.get("scan_id") or inventory_sync.get("scan_id")`
unfoldable pub scan_id_value : Fields → Fields → Json
scan_id_value metadata sync =
    let own = get "scan_id" metadata in if truthy own then own else get "scan_id" sync

-- An error of `clean_identifier`, raised again as a StorageError.
abbrev pub as_storage_error {ℓ} : {A : Type ℓ} → Result A → Result A
as_storage_error (ok a) = ok a
as_storage_error (err e) = err storage_error

unfoldable pub full_sync : Snapshot → Json → Fields
full_sync snapshot content = field "endpoint_id" (text snapshot.endpoint_id) (
    field "scan_id" (text snapshot.scan_id) (
      field "schema_version" (text snapshot.schema_version) (
        field "policy_version" (optional snapshot.policy_version) (
          field "scanner_version" (optional snapshot.scanner_version) (
            field "snapshot_hash" (text snapshot.payload_hash) (
              field "previous_hash" null
                (field "mode" (text "full") (field "snapshot" content end))))))))

unfoldable pub recovery_payload : Fields → Fields → Fields
recovery_payload original sync =
    if is_missing (lookup "inventory_sync" original)
    then sync
    else assign "inventory_sync" (object sync) original

unfoldable pub recovery_metadata : Fields → ℕ → Snapshot → Fields
recovery_metadata metadata id snapshot =
    assign "snapshot_hash" (text snapshot.payload_hash)
      (assign "resync_for_upload_id" (int id) (assign "causal_recovery" (bool true) metadata))

-- The final UPDATE of the rejected row.
unfoldable pub supersede : ℕ → String → String → ℕ → Upload → Upload
supersede now error at recovery_id r = record r {
  status = dead;
  next_attempt_at = now;
  lease_token = none;
  leased_until = none;
  last_error = some error;
  updated_at = at;
  superseded_by = some recovery_id;
}

-- What the checks of the rejected row establish.
pub record Recovery : Type 0 where
  pub metadata : Fields
  pub body : List ℕ
  pub idempotency_key : String

module _ (lib : Runtime) (now : ℕ) (at uuid : String) where
  -- The part of the transaction that only reads.
  unfoldable pub prepare : ℕ → Upload → List Snapshot → Result Recovery
  unfolding differential scan_id_value full_sync recovery_payload recovery_metadata hash_text
  prepare id row snapshots = do
    metadata_value ← parse_json lib row.metadata_json
    metadata ← or_raise (as_object metadata_value) storage_error
    guard (not (truthy (get "causal_recovery" metadata))) storage_error
    payload_value ← parse_bytes lib row.payload
    payload ← or_raise (as_object payload_value) storage_error
    sync ← or_raise (as_object (differential payload)) storage_error
    scan_id ← as_storage_error (clean_identifier (scan_id_value metadata sync) 256)
    snapshot ← or_raise (find (λ (r : Snapshot). str_eq r.scan_id scan_id) snapshots) storage_error
    content ← parse_json lib snapshot.payload_json
    ok (record {
      metadata = recovery_metadata metadata id snapshot;
      body =
          lib.encode
            (lib.canonical_json (object (recovery_payload payload (full_sync snapshot content))));
      idempotency_key = append "full-resync:" (
          hash_text lib (
            append snapshot.endpoint_id
              (append ":" (append scan_id (append ":" snapshot.payload_hash)))));
    })

  unfoldable pub recovery_upload : ℕ → Upload → Recovery → ℕ → Upload
  recovery_upload id row recovery new_id = record {
    upload_id = new_id;
    kind = "inventory_full_resync";
    method = row.method;
    endpoint = row.endpoint;
    payload = recovery.body;
    payload_hash = lib.sha256 recovery.body;
    content_type = row.content_type;
    idempotency_key = recovery.idempotency_key;
    request_id = uuid;
    status = pending;
    attempt_count = 0;
    max_attempts = row.max_attempts;
    next_attempt_at = now;
    leased_until = none;
    lease_token = none;
    last_error = none;
    metadata_json = lib.canonical_json (object recovery.metadata);
    created_at = at;
    updated_at = at;
    delivered_at = none;
    causal_group = row.causal_group;
    predecessor = row.predecessor;
    superseded_by = none;
    resync_for = some id;
  }

  -- Finds or inserts the recovery upload.
  unfoldable pub insert_recovery :
      ℕ → Upload → Recovery → Storage → Result (EnqueueResult × Storage)
  unfolding recovery_upload insert_row
  insert_recovery id row recovery s =
      elim (find (λ r. str_eq r.idempotency_key recovery.idempotency_key) s.uploads) [
        | some existing ↦
            if str_eq existing.endpoint row.endpoint
              && str_eq existing.payload_hash (lib.sha256 recovery.body)
              && str_eq existing.content_type row.content_type
            then ok (record { upload_id = existing.upload_id; created = false }, s)
            else err idempotency_conflict
        | none ↦
            -- the unique index idx_upload_resync_once
            if any (λ r. is_id id r.resync_for) s.uploads
            then err integrity_error
            else ok (
              record { upload_id = s.next_upload_id; created = true },
              insert_row s (recovery_upload id row recovery s.next_upload_id),
            )
      ]

  unfoldable pub schedule_full_resync :
      ℕ → String → String → Storage → Result (EnqueueResult × Storage)
  unfolding prepare insert_recovery supersede clean_error
  schedule_full_resync id lease_token error s = do
    token ← clean_text lease_token 256
    row ← or_raise (find (is_leased_by id token) s.uploads) storage_error
    recovery ← prepare id row s.snapshots
    inserted ← insert_recovery id row recovery s
    let s' = inserted.1
    guard (any (is_leased_by id token) s'.uploads) storage_error
    ok (
      inserted.0,
      record s' {
        uploads =
            update (is_leased_by id token)
              (supersede now (clean_error lib error 1024) at (inserted.0).upload_id) s'.uploads;
      },
    )
