-- ===== src/Storage/Uploads.antt =====
-- app/storage/upload_queue.py, app/storage/queue.py and the table of migrations 2 and 8: the durable
-- upload queue. A table is the list of its rows in the order of their ids; times are whole
-- microseconds. The operations are in the modules below.
pub mod Causal
pub mod Enqueue
pub mod Claim
pub mod Settle
pub mod Resync
pub mod Requeue
pub mod Purge
pub mod LeaseRun
pub mod Table
pub mod Invariant
pub mod Leasing
pub mod Exclusion
pub mod Staleness
pub mod Failing
pub mod Examples
use os_scanner.Prelude.{
  ℕ, ◌+◌, [], ◌∷◌, ◌++◌, String, Bool, true, false, ◌&&◌, ◌||◌, Option, none, some, List, ◌==◌,
  str_eq, is_text, if◌then◌else◌, find,
}
use os_scanner.Storage.Audit.{AuditRow}

-- UploadStatus
pub data Status : Type 0 where
  pending in_flight succeeded dead : Status

abbrev pub is_pending : Status → Bool
is_pending pending = true
is_pending _ = false

abbrev pub is_in_flight : Status → Bool
is_in_flight in_flight = true
is_in_flight _ = false

abbrev pub is_succeeded : Status → Bool
is_succeeded succeeded = true
is_succeeded _ = false

abbrev pub is_dead : Status → Bool
is_dead dead = true
is_dead _ = false

-- A row of `upload_queue`.
pub record Upload : Type 0 where
  pub upload_id : ℕ
  pub kind : String
  pub method : String
  pub endpoint : String
  pub payload : List ℕ
  pub payload_hash : String
  pub content_type : String
  pub idempotency_key : String
  pub request_id : String
  pub status : Status
  pub attempt_count : ℕ
  pub max_attempts : ℕ
  pub next_attempt_at : ℕ
  pub leased_until : Option ℕ
  pub lease_token : Option String
  pub last_error : Option String
  pub metadata_json : String
  pub created_at : String
  pub updated_at : String
  pub delivered_at : Option String
  pub causal_group : Option String
  pub predecessor : Option ℕ
  pub superseded_by : Option ℕ
  pub resync_for : Option ℕ

-- A row of `inventory_snapshots` joined with its `inventory_payloads` row.
pub record Snapshot : Type 0 where
  pub scan_id : String
  pub endpoint_id : String
  pub schema_version : String
  pub policy_version : Option String
  pub scanner_version : Option String
  pub payload_hash : String
  pub payload_json : String

-- The tables that the queue reads and writes, with the next value of AUTOINCREMENT.
pub record Storage : Type 0 where
  pub uploads : List Upload
  pub next_upload_id : ℕ
  pub audit : List AuditRow
  pub snapshots : List Snapshot

-- EnqueueResult
pub record EnqueueResult : Type 0 where
  pub upload_id : ℕ
  pub created : Bool

-- WHERE upload_id = ?
abbrev pub has_id : ℕ → Upload → Bool
has_id id r = r.upload_id == id

unfoldable pub find_upload : ℕ → List Upload → Option Upload
unfolding find
find_upload id = find (has_id id)

-- WHERE upload_id = ? AND status = 'IN_FLIGHT' AND lease_token = ?
abbrev pub is_leased_by : ℕ → String → Upload → Bool
is_leased_by id token r = r.upload_id == id && is_in_flight r.status && is_text token r.lease_token

-- INSERT: the row takes the next id of AUTOINCREMENT.
unfoldable pub insert_row : Storage → Upload → Storage
insert_row s row = record s {
  uploads = s.uploads ++ row ∷ [];
  next_upload_id = s.next_upload_id + 1;
}
