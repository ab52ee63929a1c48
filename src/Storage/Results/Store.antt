-- ===== src/Storage/Results/Store.antt =====
-- `store_snapshot`, `get_latest_snapshot` and `snapshot_upload_payload` of app/storage/results.py.
use os_scanner.Prelude.{
  ℕ, ◌+◌, String, Bool, true, false, not, ◌&&◌, ◌||◌, Option, none, some, List, [], ◌∷◌, ◌++◌,
  str_eq, length, is_none, if◌then◌else◌, any, find, find_last, Result, ok, err, ◌>>=◌,
  idempotency_conflict,
}
use os_scanner.Json.{Json, object, Fields}
use os_scanner.Storage.Runtime.{Runtime, hash_text, parse_json}
use os_scanner.Storage.Identifier.{clean_text}
use os_scanner.Storage.Snapshots.{normalize_snapshot}
use os_scanner.Storage.Snapshots.Changes.{SectionChange, compare_snapshots}
use os_scanner.Storage.Scans.{Payload, SnapshotRow, Tables, ensure_endpoint, ensure_scan}
use os_scanner.Storage.Results.{
  SnapshotChange, diff_document, deserialize_change, is_of_scan, is_of_endpoint, has_hash,
  object_of,
}

-- The latest snapshot of an endpoint with its parsed payload.
pub record Captured : Type 0 where
  pub row : SnapshotRow
  pub payload : Json

abbrev pub has_none : List SectionChange → Bool
has_none [] = true
has_none (c ∷ cs) = false

-- The base that `compare_snapshots` takes from a parsed payload.
abbrev pub base_of : Option Captured → Result (Option Fields)
base_of none = ok none
base_of (some c) = object_of c.payload >>= λ fields. ok (some fields)

-- INSERT INTO inventory_payloads … ON CONFLICT(payload_hash) DO NOTHING
unfoldable pub keep_payload : Payload → Tables → Tables
unfolding any
keep_payload p t =
    if any (has_hash p.payload_hash) t.payloads
    then t
    else record t { payloads = t.payloads ++ p ∷ [] }

-- The arguments of `store_snapshot` after the identifiers and the document.
pub record Versions : Type 0 where
  pub schema_version : String
  pub policy_version : Option String
  pub scanner_version : Option String

module _ (lib : Runtime) (same_number : Json → Json → Bool) where
  -- SELECT … WHERE s.endpoint_id=? ORDER BY s.snapshot_id DESC LIMIT 1, joined with its payload
  unfoldable pub latest_snapshot : String → Tables → Result (Option Captured)
  unfolding find find_last
  latest_snapshot id t = elim (find_last (is_of_endpoint id) t.snapshots) [
    | none ↦ ok none
    | some row ↦ elim (find (has_hash row.payload_hash) t.payloads) [
      | none ↦ ok none
      | some p ↦ parse_json lib p.payload_json >>= λ payload.
          ok (some (record { row = row; payload = payload }))
    ]
  ]

  abbrev row_hash : Option Captured → Option String
  row_hash none = none
  row_hash (some c) = some c.row.payload_hash

  abbrev row_id : Option Captured → Option ℕ
  row_id none = none
  row_id (some c) = some c.row.snapshot_id

  -- The insertion of a snapshot after the latest one of its endpoint.
  unfoldable pub insert_snapshot :
      String → String → Fields → Versions → String → Tables → Result (SnapshotChange × Tables)
  unfolding latest_snapshot compare_snapshots keep_payload hash_text
  insert_snapshot endpoint_id scan_id normalized versions now t =
      latest_snapshot endpoint_id t >>= λ previous. base_of previous >>= λ base.
      let serialized = lib.canonical_json (object normalized) in
      let changes : List SectionChange = compare_snapshots lib same_number base normalized in
      let initial : Bool = is_none previous in
      let changed : Bool = initial || not (has_none changes) in
      let kept : Tables =
        keep_payload
          (record {
            payload_hash = hash_text lib serialized;
            payload_json = serialized;
            size_bytes = length (lib.encode serialized);
            created_at = now;
          })
          t in
      ok (
        record {
          snapshot_id = t.next_snapshot_id;
          endpoint_id = endpoint_id;
          scan_id = scan_id;
          snapshot_hash = hash_text lib serialized;
          previous_hash = row_hash previous;
          initial = initial;
          changed = changed;
          changes = changes;
        },
        record kept {
          snapshots =
              t.snapshots
              ++ record {
                snapshot_id = t.next_snapshot_id;
                endpoint_id = endpoint_id;
                scan_id = scan_id;
                payload_hash = hash_text lib serialized;
                previous_snapshot_id = row_id previous;
                schema_version = versions.schema_version;
                policy_version = versions.policy_version;
                scanner_version = versions.scanner_version;
                changed = changed;
                diff_json = lib.canonical_json (diff_document initial changed changes);
                created_at = now;
              }
                ∷ [];
          next_snapshot_id = t.next_snapshot_id + 1;
        },
      )

  -- The transaction: a scan has one snapshot, and storing it again gives back the recorded change.
  unfoldable pub write_snapshot :
      String → String → Fields → Versions → String → Tables → Result (SnapshotChange × Tables)
  unfolding ensure_endpoint ensure_scan find deserialize_change insert_snapshot hash_text
  write_snapshot endpoint_id scan_id normalized versions now t0 =
      let t : Tables =
        ensure_scan lib scan_id (some endpoint_id) now (ensure_endpoint lib endpoint_id now t0) in
      elim (find (is_of_scan scan_id) t.snapshots) [
        | none ↦ insert_snapshot endpoint_id scan_id normalized versions now t
        | some row ↦
            if str_eq row.endpoint_id endpoint_id
              && str_eq row.payload_hash (hash_text lib (lib.canonical_json (object normalized)))
            then (deserialize_change lib row t endpoint_id scan_id >>= λ change. ok (change, t))
            else err idempotency_conflict
      ]

  unfoldable pub store_snapshot :
      String → String → Json → Versions → String → Tables → Result (SnapshotChange × Tables)
  unfolding clean_text normalize_snapshot write_snapshot
  store_snapshot endpoint_id scan_id snapshot versions now t =
      clean_text endpoint_id 256 >>= λ owner. clean_text scan_id 256 >>= λ scan.
      clean_text versions.schema_version 64 >>= λ schema.
      normalize_snapshot lib snapshot >>= λ normalized.
      write_snapshot owner scan normalized (record versions { schema_version = schema }) now t

  unfoldable pub get_latest_snapshot : String → Tables → Result (Option Captured)
  unfolding clean_text latest_snapshot
  get_latest_snapshot endpoint_id t = clean_text endpoint_id 256 >>= λ id. latest_snapshot id t
