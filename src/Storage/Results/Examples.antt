-- ===== src/Storage/Results/Examples.antt =====
-- A scan job and its snapshot at concrete values.
use os_scanner.Prelude.{
  String, ◌≡◌, refl, Bool, true, false, Option, none, some, [], ◌∷◌, str_eq, if◌then◌else◌, ok, err,
  Result, value_error, idempotency_conflict,
}
use os_scanner.Json.{Json, null, text, object, Fields, end, field}
use os_scanner.Storage.Runtime.{Runtime, hash_text}
use os_scanner.Storage.Scans.{Tables, Values}
use os_scanner.Storage.Scans.Jobs.{JobColumns, read_job, create_scan_job}
use os_scanner.Storage.Scans.Laws.{create_scan_job_once}
use os_scanner.Storage.Results.{SnapshotChange}
use os_scanner.Storage.Results.Store.{Versions, store_snapshot}
use os_scanner.Storage.Results.Kept.{TablesAreKept, store_snapshot-kept}

abbrev written : Json → String
written (text s) = s
written (object end) = "{}"
written (object (field k v r)) = k
written value = "value"

abbrev lib : Runtime
lib = record {
  canonical_json = written;
  loads = λ s. some null;
  loads_bytes = λ b. some null;
  encode = λ s. 1 ∷ [];
  sha256 = λ b. "digest";
  casefold = λ s. s;
  upper = λ s. s;
  redact = λ s. s;
}

abbrev bound : Json → Result (Option String)
bound null = ok none
bound (text s) = ok (some s)
bound value = err value_error

abbrev values : Values
values = record { bind = bound; str = λ j. "value" }

abbrev tables : Tables
tables = record {
  endpoints = [];
  jobs = [];
  history = [];
  next_history_id = 1;
  findings = [];
  collectors = [];
  payloads = [];
  snapshots = [];
  next_snapshot_id = 1;
}

abbrev job : Fields
job =
    field "scan_id" (text " s1 ")
      (field "endpoint_id" (text "e") (field "scan_type" (text "FULL") end))

abbrev columns : JobColumns lib values
columns = record {
  scan_id = "s1";
  endpoint_id = some "e";
  scan_type = "FULL";
  status = "PENDING";
  authorization_json = "{}";
  requested_at = "now";
  job_json = "scan_id";
  policy = null;
  initiator = null;
  target = null;
}

read : read_job lib values job "now" ≡ ok columns
unfolding read_job
read = refl

read_later : read_job lib values job "later" ≡ ok (record columns { requested_at = "later" })
unfolding read_job
read_later = refl

abbrev after_create : Result (Bool × Tables) → Tables
after_create (ok (created, t)) = t
after_create (err error) = tables

abbrev with_job : Tables
with_job = after_create (create_scan_job lib values (object job) "now" tables)

created : create_scan_job lib values (object job) "now" tables ≡ ok (true, with_job)
unfolding create_scan_job
created = refl

create_scan_job_once_example : create_scan_job lib values (object job) "later" with_job ≡ (
    if str_eq (hash_text lib "scan_id") (hash_text lib "scan_id")
    then ok (false, with_job)
    else err idempotency_conflict)
create_scan_job_once_example =
    create_scan_job_once lib values job job "now" "later" columns
      (record columns { requested_at = "later" }) tables read created refl read_later refl refl

abbrev same_number : Json → Json → Bool
same_number a b = false

abbrev versions : Versions
versions = record { schema_version = "1.0"; policy_version = none; scanner_version = none }

abbrev snapshot : Json
snapshot = object (field "os" (text "linux") end)

abbrev after_store : Result (SnapshotChange × Tables) → Tables
after_store (ok (change, t)) = t
after_store (err error) = tables

abbrev with_snapshot : Tables
with_snapshot =
    after_store (store_snapshot lib same_number "e" "s1" snapshot versions "now" with_job)

abbrev first_change : SnapshotChange
first_change = record {
  snapshot_id = 1;
  endpoint_id = "e";
  scan_id = "s1";
  snapshot_hash = "digest";
  previous_hash = none;
  initial = true;
  changed = true;
  changes = [];
}

stored :
    store_snapshot lib same_number "e" "s1" snapshot versions "now" with_job
    ≡ ok (first_change, with_snapshot)
unfolding store_snapshot create_scan_job
stored = refl

kept : TablesAreKept lib with_job
unfolding create_scan_job
kept = record { hashed = tt; stored = tt; numbered = tt }

store_snapshot-kept_example : TablesAreKept lib with_snapshot
store_snapshot-kept_example =
    store_snapshot-kept lib same_number "e" "s1" snapshot versions "now" with_job kept stored
