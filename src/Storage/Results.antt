-- ===== src/Storage/Results.antt =====
-- Content-addressed snapshots: app/storage/results.py, from `_deserialize_change` to
-- `get_snapshot_change_for_scan`. The stored difference is JSON text, written and parsed by the
-- library; reading it back can raise where it is not what the code wrote.
pub mod Store
pub mod Envelope
pub mod Kept
pub mod Pruning
pub mod Examples
use os_scanner.Prelude.{
  ℕ, ◌+◌, String, Bool, true, false, not, ◌&&◌, ◌||◌, ◌>>◌, guard, Option, none, some, List, [],
  ◌∷◌, str_eq, is_none, if◌then◌else◌, ◌==◌, is_id, find, find_last, map, Result, ok, err, ◌>>=◌,
  type_error, key_error, storage_error, attribute_error, or_raise,
}
use os_scanner.Json.{
  Json, null, bool, int, negative, real, text, list, object, Items, nil, cons, Fields, end, field,
  lookup, get, truthy,
}
use os_scanner.Storage.Runtime.{Runtime, parse_json}
use os_scanner.Storage.Identifier.{clean_text}
use os_scanner.Storage.Snapshots.Changes.{SectionChange, has}
use os_scanner.Storage.Scans.{Payload, SnapshotRow, Tables}

pub record SnapshotChange : Type 0 where
  pub snapshot_id : ℕ
  pub endpoint_id : String
  pub scan_id : String
  pub snapshot_hash : String
  pub previous_hash : Option String
  pub initial : Bool
  pub changed : Bool
  pub changes : List SectionChange

abbrev pub optional : Option String → Json
optional none = null
optional (some s) = text s

-- SectionChange.as_dict
abbrev pub change_dict : SectionChange → Json
change_dict c = object (
    field "section" (text c.section) (
      field "event" (text c.event) (
        field "before_hash" (optional c.before_hash) (
          field "after_hash" (optional c.after_hash) (
            field "added_count" (int c.added_count) (
              field "removed_count" (int c.removed_count)
                (field "modified_count" (int c.modified_count) end)))))))

unfoldable pub change_dicts : List SectionChange → Items
change_dicts [] = nil
change_dicts (c ∷ cs) = cons (change_dict c) (change_dicts cs)

-- SnapshotChange.events
unfoldable pub events : SnapshotChange → List String
events c =
    if c.initial then "INITIAL_SNAPSHOT" ∷ [] else map (λ (s : SectionChange). s.event) c.changes

-- The document of the column `diff_json`.
abbrev pub diff_document : Bool → Bool → List SectionChange → Json
diff_document initial changed changes = object (
    field "initial" (bool initial)
      (field "changed" (bool changed) (field "changes" (list (change_dicts changes)) end)))

-- Arguments without a default: a missing one is a TypeError.
abbrev text_at : String → Fields → Result String
text_at name fields = elim (lookup name fields) [
  | none ↦ err type_error
  | some value ↦ elim value [ text s ↦ ok s | _ ↦ err type_error ]
]

abbrev optional_at : String → Fields → Result (Option String)
optional_at name fields = elim (lookup name fields) [
  | none ↦ err type_error
  | some value ↦ elim value [ text s ↦ ok (some s) | null ↦ ok none | _ ↦ err type_error ]
]

-- A count, which has the default 0.
abbrev count_at : String → Fields → Result ℕ
count_at name fields = elim (lookup name fields) [
  | none ↦ ok 0
  | some value ↦ elim value [ int n ↦ ok n | _ ↦ err type_error ]
]

-- Every key is the name of a field: another keyword argument is a TypeError.
unfoldable pub are_arguments : Fields → Bool
are_arguments end = true
are_arguments (field name value rest) =
    (str_eq name "section"
      || str_eq name "event"
      || str_eq name "before_hash"
      || str_eq name "after_hash"
      || str_eq name "added_count"
      || str_eq name "removed_count"
      || str_eq name "modified_count")
    && are_arguments rest

-- SectionChange(**item), for an item whose values have the types that `as_dict` writes
unfoldable pub section_change_of : Json → Result SectionChange
unfolding lookup are_arguments
section_change_of (object item) = do
  guard (are_arguments item) type_error
  section ← text_at "section" item
  event ← text_at "event" item
  before_hash ← optional_at "before_hash" item
  after_hash ← optional_at "after_hash" item
  added ← count_at "added_count" item
  removed ← count_at "removed_count" item
  modified ← count_at "modified_count" item
  ok (record {
    section = section;
    event = event;
    before_hash = before_hash;
    after_hash = after_hash;
    added_count = added;
    removed_count = removed;
    modified_count = modified;
  })
section_change_of _ = err type_error

unfoldable pub section_changes_of : Items → Result (List SectionChange)
unfolding section_change_of
section_changes_of nil = ok []
section_changes_of (cons item items) =
    section_change_of item >>= λ c. section_changes_of items >>= λ cs. ok (c ∷ cs)

-- diff.get("changes", [])
abbrev pub changes_of : Fields → Result (List SectionChange)
changes_of diff = elim (lookup "changes" diff) [
  | none ↦ ok []
  | some value ↦ elim value [ list items ↦ section_changes_of items | _ ↦ err type_error ]
]

abbrev pub object_of : Json → Result Fields
object_of (object fields) = ok fields
object_of _ = err attribute_error

-- WHERE snapshot_id = ?, WHERE scan_id = ?, and the latest row of an endpoint
abbrev pub has_snapshot_id : ℕ → SnapshotRow → Bool
has_snapshot_id id r = r.snapshot_id == id

abbrev pub is_of_scan : String → SnapshotRow → Bool
is_of_scan id r = str_eq r.scan_id id

abbrev pub is_of_endpoint : String → SnapshotRow → Bool
is_of_endpoint id r = str_eq r.endpoint_id id

abbrev pub has_hash : String → Payload → Bool
has_hash hash p = str_eq p.payload_hash hash

-- LEFT JOIN inventory_snapshots p ON p.snapshot_id=s.previous_snapshot_id, p.payload_hash
unfoldable pub previous_hash_of : Option ℕ → Tables → Option String
unfolding find
previous_hash_of none t = none
previous_hash_of (some id) t = elim (find (has_snapshot_id id) t.snapshots) [
  | none ↦ none
  | some previous ↦ some previous.payload_hash
]

module _ (lib : Runtime) where
  unfoldable pub deserialize_change : SnapshotRow → Tables → String → String → Result SnapshotChange
  unfolding section_changes_of previous_hash_of truthy get lookup
  deserialize_change row t endpoint_id scan_id = parse_json lib row.diff_json >>= λ document.
      object_of document >>= λ diff. changes_of diff >>= λ changes. ok (record {
        snapshot_id = row.snapshot_id;
        endpoint_id = endpoint_id;
        scan_id = scan_id;
        snapshot_hash = row.payload_hash;
        previous_hash = previous_hash_of row.previous_snapshot_id t;
        initial = truthy (get "initial" diff);
        changed = row.changed;
        changes = changes;
      })

  unfoldable pub get_snapshot_change_for_scan : String → Tables → Result (Option SnapshotChange)
  unfolding clean_text find deserialize_change
  get_snapshot_change_for_scan scan_id t = clean_text scan_id 256 >>= λ id.
      elim (find (is_of_scan id) t.snapshots) [
        | none ↦ ok none
        | some row ↦ deserialize_change row t row.endpoint_id id >>= λ change. ok (some change)
      ]
