-- ===== src/Storage/Scans.antt =====
-- The tables of app/storage/migrations.py that hold endpoints, scan jobs, their history, findings,
-- collector states and inventory snapshots, and what app/storage/base.py does to them. A table is
-- the list of its rows in the order of insertion; a transaction that raises keeps the old tables.
-- What SQLite stores in a TEXT column for a bound value, and `str` of a value that is not a text,
-- are parameters.
pub mod Jobs
pub mod Records
pub mod Findings
pub mod Laws
use os_scanner.Prelude.{
  ℕ, ◌+◌, String, Bool, true, false, Option, none, some, List, [], ◌∷◌, ◌++◌, str_eq, is_text,
  if◌then◌else◌, find, any, update, Result, ok, err, is_none,
}
use os_scanner.Json.{Json, null, bool, int, negative, real, text, list, object, Fields, end, field}
use os_scanner.Storage.Runtime.{Runtime, hash_text}

pub record Endpoint : Type 0 where
  pub endpoint_id : String
  pub state_json : String
  pub state_hash : String
  pub enrolled_at : Option String
  pub last_seen_at : Option String
  pub created_at : String
  pub updated_at : String

pub record Job : Type 0 where
  pub scan_id : String
  pub endpoint_id : Option String
  pub scan_type : String
  pub policy_id : Option String
  pub status : String
  pub authorization_json : String
  pub initiator : Option String
  pub target : Option String
  pub requested_at : String
  pub started_at : Option String
  pub completed_at : Option String
  pub result_status : Option String
  pub failure : Option String
  pub job_json : String
  pub job_hash : String
  pub updated_at : String

pub record History : Type 0 where
  pub history_id : ℕ
  pub scan_id : String
  pub event : String
  pub status : Option String
  pub details_json : String
  pub idempotency_key : Option String
  pub created_at : String

pub record Finding : Type 0 where
  pub finding_id : String
  pub scan_id : String
  pub endpoint_id : Option String
  pub rule_id : String
  pub severity : String
  pub status : String
  pub detected_at : String
  pub payload_json : String
  pub payload_hash : String
  pub updated_at : String

pub record CollectorState : Type 0 where
  pub scan_id : String
  pub collector : String
  pub status : String
  pub tool_version : Option String
  pub started_at : Option String
  pub completed_at : Option String
  pub duration_micros : Option ℕ
  pub details_json : String

-- inventory_payloads
pub record Payload : Type 0 where
  pub payload_hash : String
  pub payload_json : String
  pub size_bytes : ℕ
  pub created_at : String

-- inventory_snapshots
pub record SnapshotRow : Type 0 where
  pub snapshot_id : ℕ
  pub endpoint_id : String
  pub scan_id : String
  pub payload_hash : String
  pub previous_snapshot_id : Option ℕ
  pub schema_version : String
  pub policy_version : Option String
  pub scanner_version : Option String
  pub changed : Bool
  pub diff_json : String
  pub created_at : String

-- The tables, with the next values of AUTOINCREMENT.
pub record Tables : Type 0 where
  pub endpoints : List Endpoint
  pub jobs : List Job
  pub history : List History
  pub next_history_id : ℕ
  pub findings : List Finding
  pub collectors : List CollectorState
  pub payloads : List Payload
  pub snapshots : List SnapshotRow
  pub next_snapshot_id : ℕ

-- What the database and the language do with values that are not texts.
pub record Values : Type 0 where
  pub bind : Json → Result (Option String)
  pub str : Json → String

-- str(value)
abbrev pub str_of : Values → Json → String
str_of values (text s) = s
str_of values value = values.str value

-- COALESCE(first, second)
abbrev pub coalesce {ℓ} : {A : Type ℓ} → Option A → Option A → Option A
coalesce none second = second
coalesce (some a) second = some a

abbrev pub is_endpoint : String → Endpoint → Bool
is_endpoint id e = str_eq e.endpoint_id id

abbrev pub is_job : String → Job → Bool
is_job id j = str_eq j.scan_id id

-- SELECT * FROM scan_jobs WHERE scan_id=?
unfoldable pub find_job : String → Tables → Option Job
unfolding find
find_job id t = find (is_job id) t.jobs

unfoldable pub find_endpoint : String → Tables → Option Endpoint
unfolding find
find_endpoint id t = find (is_endpoint id) t.endpoints

module _ (lib : Runtime) where
  -- The row that an endpoint gets when it is first named.
  abbrev pub bare_endpoint : String → String → Endpoint
  bare_endpoint id now =
      let empty = lib.canonical_json (object end) in
      record {
        endpoint_id = id;
        state_json = empty;
        state_hash = hash_text lib empty;
        enrolled_at = none;
        last_seen_at = none;
        created_at = now;
        updated_at = now;
      }

  unfoldable pub ensure_endpoint : String → String → Tables → Tables
  unfolding any
  ensure_endpoint id now t =
      if any (is_endpoint id) t.endpoints
      then t
      else record t { endpoints = t.endpoints ++ bare_endpoint id now ∷ [] }

  abbrev pub optional_text : Option String → Json
  optional_text none = null
  optional_text (some s) = text s

  abbrev pub placeholder : String → Option String → Json
  placeholder scan_id endpoint_id = object (
      field "scan_id" (text scan_id)
        (field "endpoint_id" (optional_text endpoint_id) (field "scan_type" (text "UNKNOWN") end)))

  abbrev pub placeholder_job : String → Option String → String → Job
  placeholder_job scan_id endpoint_id now =
      let serialized = lib.canonical_json (placeholder scan_id endpoint_id) in
      record {
        scan_id = scan_id;
        endpoint_id = endpoint_id;
        scan_type = "UNKNOWN";
        policy_id = none;
        status = "PENDING";
        authorization_json = "{}";
        initiator = none;
        target = none;
        requested_at = now;
        started_at = none;
        completed_at = none;
        result_status = none;
        failure = none;
        job_json = serialized;
        job_hash = hash_text lib serialized;
        updated_at = now;
      }

  -- `if endpoint_id: self._ensure_endpoint(…)`, for a cleaned identifier, which is not empty
  abbrev pub ensure_owner : Option String → String → Tables → Tables
  ensure_owner none now t = t
  ensure_owner (some id) now t = ensure_endpoint id now t

  abbrev adopt : Option String → Job → Job
  adopt endpoint_id j = record j { endpoint_id = coalesce j.endpoint_id endpoint_id }

  unfoldable pub ensure_scan : String → Option String → String → Tables → Tables
  unfolding ensure_endpoint any update
  ensure_scan scan_id endpoint_id now t0 =
      let t = ensure_owner endpoint_id now t0 in
      if any (is_job scan_id) t.jobs
      then record t { jobs = update (is_job scan_id) (adopt endpoint_id) t.jobs }
      else record t { jobs = t.jobs ++ placeholder_job scan_id endpoint_id now ∷ [] }
