-- ===== src/Storage/Results/Envelope.antt =====
-- `snapshot_upload_payload` of app/storage/results.py: what the endpoint sends for a stored snapshot.
use os_scanner.Prelude.{
  ℕ, String, Option, none, some, List, [], ◌∷◌, if◌then◌else◌, find, Result, ok, err, ◌>>=◌,
  storage_error, key_error, type_error, or_raise,
}
use os_scanner.Json.{Json, text, list, object, Items, nil, cons, Fields, end, field, lookup, truthy}
use os_scanner.Storage.Runtime.{Runtime, parse_json}
use os_scanner.Storage.Snapshots.Changes.{has}
use os_scanner.Storage.Scans.{SnapshotRow, Tables}
use os_scanner.Storage.Results.{has_snapshot_id, has_hash, previous_hash_of, object_of, optional}

-- {section: snapshot[section] for section in changed if section in snapshot}
unfoldable pub delta_sections : List String → Fields → Fields
unfolding lookup
delta_sections [] snapshot = end
delta_sections (section ∷ rest) snapshot =
    let others = delta_sections rest snapshot in
    elim (lookup section snapshot) [ none ↦ others | some value ↦ field section value others ]

-- [section for section in changed if section not in snapshot]
unfoldable pub removed_sections : List String → Fields → List String
unfolding has
removed_sections [] snapshot = []
removed_sections (section ∷ rest) snapshot =
    let others = removed_sections rest snapshot in
    if has section snapshot then others else section ∷ others

unfoldable pub texts : List String → Items
texts [] = nil
texts (s ∷ ss) = cons (text s) (texts ss)

abbrev name_of : Json → Result String
name_of (text s) = ok s
name_of _ = err type_error

-- item["section"]
abbrev section_of : Json → Result String
section_of (object item) = or_raise (lookup "section" item) key_error >>= name_of
section_of _ = err type_error

unfoldable pub section_names : Items → Result (List String)
unfolding lookup
section_names nil = ok []
section_names (cons item items) =
    section_of item >>= λ name. section_names items >>= λ names. ok (name ∷ names)

abbrev items_of : Json → Result Items
items_of (list items) = ok items
items_of _ = err type_error

-- The fields that every envelope ends with here stand after its mode.
abbrev pub with_envelope : SnapshotRow → Option String → Fields → Fields
with_envelope row previous rest = field "endpoint_id" (text row.endpoint_id) (
    field "scan_id" (text row.scan_id) (
      field "schema_version" (text row.schema_version) (
        field "policy_version" (optional row.policy_version) (
          field "scanner_version" (optional row.scanner_version) (
            field "snapshot_hash" (text row.payload_hash)
              (field "previous_hash" (optional previous) rest))))))

-- The part of the envelope that the mode decides.
abbrev pub delta_part : Json → List String → Fields → Fields
delta_part changes names snapshot = field "mode" (text "delta") (
    field "changes" changes (
      field "sections" (object (delta_sections names snapshot))
        (field "removed_sections" (list (texts (removed_sections names snapshot))) end)))

-- What follows the envelope's common fields, from the parsed difference and the parsed payload.
unfoldable pub mode_part : Fields → Json → Result Fields
unfolding lookup truthy section_names delta_sections removed_sections texts
mode_part diff snapshot = or_raise (lookup "initial" diff) key_error >>= λ initial.
    if truthy initial
    then ok (field "mode" (text "full") (field "snapshot" snapshot end))
    else (or_raise (lookup "changed" diff) key_error >>= λ changed.
        if truthy changed
        then (or_raise (lookup "changes" diff) key_error >>= λ changes.
            items_of changes >>= λ items. section_names items >>= λ names.
            object_of snapshot >>= λ fields. ok (delta_part changes names fields))
        else ok (field "mode" (text "unchanged") end))

module _ (lib : Runtime) where
  unfoldable pub snapshot_upload_payload : ℕ → Tables → Result Fields
  unfolding find mode_part previous_hash_of
  snapshot_upload_payload id t =
      or_raise (find (has_snapshot_id id) t.snapshots) storage_error >>= λ row.
      or_raise (find (has_hash row.payload_hash) t.payloads) storage_error >>= λ payload.
      parse_json lib payload.payload_json >>= λ snapshot.
      parse_json lib row.diff_json >>= λ document. object_of document >>= λ diff.
      mode_part diff snapshot >>= λ part.
      ok (with_envelope row (previous_hash_of row.previous_snapshot_id t) part)
