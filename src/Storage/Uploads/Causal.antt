-- ===== src/Storage/Uploads/Causal.antt =====
-- `_causal_group` and `_backfill_causal_links`: the per-endpoint stream of an upload, and the link to
-- the upload before it in that stream.
use os_scanner.Prelude.{
  ℕ, String, Bool, ◌&&◌, ◌||◌, Option, none, some, List, [], ◌∷◌, ◌++◌, ltb, str_eq, is_none,
  is_text, if◌then◌else◌, find_last, select, update, Result, ok, err, ◌>>=◌,
}
use Prim.Native.String.{◌++◌ as append}
use os_scanner.Prelude.Text.{strip, dashed, sql_folds_to}
use os_scanner.Json.{Json, Fields, text, end, get, as_object}
use os_scanner.Storage.Runtime.{Runtime, parse_json}
use os_scanner.Storage.Identifier.{clean_identifier}
use os_scanner.Storage.Uploads.{Upload, has_id}

-- Any text of _CAUSAL_UPLOAD_KINDS.
abbrev pub is_causal : String → Bool
is_causal s = str_eq s "inventory-snapshot" || str_eq s "scan-result" || str_eq s "scan-status"

-- The same set as the backfill's SQL writes it.
abbrev pub is_causal_in_sql : String → Bool
is_causal_in_sql kind =
    sql_folds_to kind "inventory-snapshot"
    || sql_folds_to kind "scan-result"
    || sql_folds_to kind "scan-status"

abbrev pub unscoped_group : String
unscoped_group = "endpoint:unscoped"

-- `section.get("endpoint_id")` if the section is a mapping
abbrev endpoint_of : Json → List Json
endpoint_of section = elim (as_object section) [
  | none ↦ []
  | some fields ↦ get "endpoint_id" fields ∷ []
]

-- The candidates that a decoded body adds.
abbrev body_candidates : Option Json → List Json
body_candidates none = []
body_candidates (some decoded) = elim (as_object decoded) [
  | none ↦ []
  | some fields ↦
      get "endpoint_id" fields
      ∷ (endpoint_of (get "result" fields) ++ endpoint_of (get "inventory_sync" fields))
]

module _ (lib : Runtime) where
  -- The loop over the candidates: the first text that is a valid identifier.
  unfoldable pub first_endpoint : List Json → Option String
  first_endpoint [] = none
  first_endpoint (text s ∷ rest) =
      let others = first_endpoint rest in
      elim (clean_identifier (text s) 256) [ ok endpoint_id ↦ some endpoint_id | err e ↦ others ]
  first_endpoint (_ ∷ rest) = first_endpoint rest

  unfoldable pub causal_group : String → Fields → List ℕ → Option String
  unfolding first_endpoint
  causal_group kind metadata body =
      if is_causal (dashed (lib.casefold (strip kind)))
      then elim (first_endpoint
          (get "endpoint_id" metadata ∷ body_candidates (lib.loads_bytes body))) [
            | some endpoint_id ↦ some (append "endpoint:" (lib.sha256 (lib.encode endpoint_id)))
            | none ↦ some unscoped_group
          ]
      else none

-- WHERE causal_group = ? ORDER BY upload_id DESC LIMIT 1
unfoldable pub latest_in_group : String → List Upload → Option Upload
unfolding find_last
latest_in_group group = find_last (λ r. is_text group r.causal_group)

-- The same with AND upload_id < ?
unfoldable pub latest_before : String → ℕ → List Upload → Option Upload
unfolding find_last
latest_before group id = find_last (λ r. is_text group r.causal_group && ltb r.upload_id id)

abbrev pub id_of : Option Upload → Option ℕ
id_of none = none
id_of (some r) = some r.upload_id

-- COALESCE(a, b)
abbrev pub coalesce {ℓ} : {A : Type ℓ} → Option A → Option A → Option A
coalesce none b = b
coalesce (some a) b = some a

-- `value if isinstance(value, Mapping) else {}`
abbrev pub fields_or_empty : Json → Fields
fields_or_empty value = elim (as_object value) [ some fields ↦ fields | none ↦ end ]

-- The predecessor that the query finds for a group, if there is one.
unfoldable pub predecessor_in : Option String → List Upload → Option ℕ
unfolding latest_in_group
predecessor_in none rows = none
predecessor_in (some group) rows = id_of (latest_in_group group rows)

-- The rows that the backfill selects.
abbrev pub is_unlinked : Upload → Bool
is_unlinked r = is_none r.causal_group && is_causal_in_sql r.kind

-- The UPDATE of one row.
abbrev pub link_row : String → Option ℕ → Upload → Upload
link_row group predecessor r = record r {
  causal_group = some group;
  predecessor = coalesce r.predecessor predecessor;
}

-- What one round does for a row whose group is known.
unfoldable pub link_in : Option String → Upload → List Upload → List Upload
unfolding latest_before
link_in none row rows = rows
link_in (some group) row rows =
    let predecessor =
      if is_none row.resync_for then latest_before group row.upload_id rows else none in
    update (λ r. has_id row.upload_id r && is_none r.causal_group)
      (link_row group (id_of predecessor)) rows

module _ (lib : Runtime) where
  -- One round of the loop: `row` as it was selected, `rows` as the rounds before it left them.
  unfoldable pub link_upload : List Upload → Upload → Result (List Upload)
  unfolding causal_group link_in
  link_upload rows row = do
    raw_metadata ← parse_json lib row.metadata_json
    ok (link_in (causal_group lib row.kind (fields_or_empty raw_metadata) row.payload) row rows)

  unfoldable pub link_all : List Upload → List Upload → Result (List Upload)
  unfolding link_upload
  link_all rows [] = ok rows
  link_all rows (row ∷ rest) = do linked ← link_upload rows row; link_all linked rest

  unfoldable pub backfill_causal_links : List Upload → Result (List Upload)
  unfolding link_all
  backfill_causal_links rows = link_all rows (select is_unlinked rows)
