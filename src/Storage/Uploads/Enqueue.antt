-- ===== src/Storage/Uploads/Enqueue.antt =====
-- `enqueue_upload`.
use text.Mathlib.Text.{starts_with}
use os_scanner.Prelude.{
  ℕ, String, Bool, true, false, not, ◌&&◌, ◌||◌, Option, none, some, List, leb, str_eq,
  if◌then◌else◌, find, Result, ok, err, guard, value_error, idempotency_conflict, ◌>>=◌, ◌>>◌,
}
use os_scanner.Prelude.Text.{is_empty}
use os_scanner.Json.{Fields, object}
use os_scanner.Storage.Runtime.{Runtime}
use os_scanner.Storage.Identifier.{clean_text}
use os_scanner.Storage.Uploads.{Upload, Storage, EnqueueResult, pending, insert_row}
use os_scanner.Storage.Uploads.Causal.{causal_group, predecessor_in, backfill_causal_links}

-- WHERE idempotency_key = ?
abbrev pub same_key : String → Upload → Bool
same_key key r = str_eq r.idempotency_key key

-- `payload: Mapping | bytes`
pub data Payload : Type 0 where
  bytes : List ℕ → Payload
  mapping : Fields → Payload

-- The arguments of `enqueue_upload`.
pub record Request : Type 0 where
  pub kind : String
  pub payload : Payload
  pub idempotency_key : String
  pub endpoint : String
  pub method : String
  pub content_type : String
  pub request_id : Option String
  pub metadata : Fields
  pub max_attempts : ℕ
  pub not_before : Option ℕ

-- What the call reads from its surroundings: uuid4, time.time and utc_now_iso.
pub record Moment : Type 0 where
  pub uuid : String
  pub epoch : ℕ
  pub text : String

-- The values that the checks before the transaction leave.
pub record Checked : Type 0 where
  pub kind : String
  pub idempotency_key : String
  pub endpoint : String
  pub method : String
  pub request_id : String
  pub body : List ℕ

-- `request_id or str(uuid4())`
abbrev or_uuid : Option String → String → String
or_uuid none uuid = uuid
or_uuid (some s) uuid = if is_empty s then uuid else s

abbrev is_method : String → Bool
is_method m = str_eq m "POST" || str_eq m "PUT" || str_eq m "PATCH" || str_eq m "DELETE"

abbrev is_api_path : String → Bool
is_api_path s = starts_with s "/" && not (starts_with s "//")

abbrev pub next_attempt : Option ℕ → ℕ → ℕ
next_attempt none epoch = epoch
next_attempt (some t) epoch = t

module _ (lib : Runtime) where
  abbrev body_of : Payload → List ℕ
  body_of (bytes b) = b
  body_of (mapping fields) = lib.encode (lib.canonical_json (object fields))

  unfoldable pub check_request : Request → Moment → Result Checked
  check_request q m = do
    kind ← clean_text q.kind 128
    idempotency_key ← clean_text q.idempotency_key 256
    endpoint ← clean_text q.endpoint 2048
    guard (is_api_path endpoint) value_error
    method ← clean_text (lib.upper q.method) 16
    guard (is_method method) value_error
    guard (leb 1 q.max_attempts && leb q.max_attempts 100) value_error
    request_id ← clean_text (or_uuid q.request_id m.uuid) 256
    ok (record {
      kind = kind;
      idempotency_key = idempotency_key;
      endpoint = endpoint;
      method = method;
      request_id = request_id;
      body = body_of q.payload;
    })

  -- The content that must agree when an idempotency key is used again.
  abbrev pub same_content : Upload → Checked → String → Bool
  same_content r c content_type =
      str_eq r.kind c.kind
      && str_eq r.method c.method
      && str_eq r.endpoint c.endpoint
      && str_eq r.payload_hash (lib.sha256 c.body)
      && str_eq r.content_type content_type

  unfoldable pub new_upload : Request → Checked → Moment → ℕ → List Upload → Upload
  unfolding causal_group predecessor_in
  new_upload q c m id rows =
      let group = causal_group lib c.kind q.metadata c.body in
      record {
        upload_id = id;
        kind = c.kind;
        method = c.method;
        endpoint = c.endpoint;
        payload = c.body;
        payload_hash = lib.sha256 c.body;
        content_type = q.content_type;
        idempotency_key = c.idempotency_key;
        request_id = c.request_id;
        status = pending;
        attempt_count = 0;
        max_attempts = q.max_attempts;
        next_attempt_at = next_attempt q.not_before m.epoch;
        leased_until = none;
        lease_token = none;
        last_error = none;
        metadata_json = lib.canonical_json (object q.metadata);
        created_at = m.text;
        updated_at = m.text;
        delivered_at = none;
        causal_group = group;
        predecessor = predecessor_in group rows;
        superseded_by = none;
        resync_for = none;
      }

  -- The transaction after the backfill.
  unfoldable pub insert_upload :
      Request → Checked → Moment → Storage → Result (EnqueueResult × Storage)
  unfolding new_upload insert_row
  insert_upload q c m s = elim (find (same_key c.idempotency_key) s.uploads) [
    | some existing ↦
        if same_content existing c q.content_type
        then ok (record { upload_id = existing.upload_id; created = false }, s)
        else err idempotency_conflict
    | none ↦ ok (
      record { upload_id = s.next_upload_id; created = true },
      insert_row s (new_upload q c m s.next_upload_id s.uploads),
    )
  ]

  unfoldable pub enqueue_upload : Request → Moment → Storage → Result (EnqueueResult × Storage)
  unfolding check_request backfill_causal_links insert_upload
  enqueue_upload q m s = do
    checked ← check_request q m
    linked ← backfill_causal_links lib s.uploads
    insert_upload q checked m (record s { uploads = linked })
