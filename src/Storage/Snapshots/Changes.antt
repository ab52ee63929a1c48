-- ===== src/Storage/Snapshots/Changes.antt =====
-- The differences between two snapshots: `_identity`, `_collection_counts` and `compare_snapshots`
-- of app/storage/snapshots.py. `same_number` is Python's `==` on numbers.
use os_scanner.Prelude.{
  ℕ, suc, String, Bool, not, ◌&&◌, Option, none, some, List, [], ◌∷◌, ◌++◌, if◌then◌else◌, select,
  is_none,
}
use Prim.Native.String.{◌++◌ as joined}
use os_scanner.Prelude.Text.{text_lt}
use os_scanner.Json.{
  Json, null, text, list, object, Items, nil, cons, Fields, end, field, lookup, assign, get,
  same_json,
}
use os_scanner.Storage.Runtime.{Runtime}
use os_scanner.Storage.Snapshots.{digest, table_get, event_names, identity_fields}

pub record SectionChange : Type 0 where
  pub section : String
  pub event : String
  pub before_hash : Option String
  pub after_hash : Option String
  pub added_count : ℕ
  pub removed_count : ℕ
  pub modified_count : ℕ

-- The pairs (name, item.get(name)) of the names whose value is not None, as the serializer writes
-- them: a tuple is an array.
unfoldable pub selected_fields : List String → Fields → Items
unfolding get
selected_fields [] item = nil
selected_fields (name ∷ names) item =
    let rest = selected_fields names item in
    elim (get name item) [
      | null ↦ rest
      | value ↦ cons (list (cons (text name) (cons value nil))) rest
    ]

-- `value if value else other`, for a list
abbrev pub or_else : Items → Json → Json
or_else nil other = other
or_else (cons x xs) other = list (cons x xs)

abbrev pub identity_names : Option (List String) → List String
identity_names none = []
identity_names (some names) = names

-- dict.keys()
unfoldable pub keys : Fields → List String
keys end = []
keys (field key value rest) = key ∷ keys rest

-- `key in mapping`
unfoldable pub has : String → Fields → Bool
unfolding lookup
has key fields = not (is_none (lookup key fields))

-- sorted(names)
unfoldable pub insert_name : String → List String → List String
insert_name x [] = x ∷ []
insert_name x (y ∷ ys) = if text_lt y x then y ∷ insert_name x ys else x ∷ y ∷ ys

unfoldable pub sort_names : List String → List String
unfolding insert_name
sort_names [] = []
sort_names (x ∷ xs) = insert_name x (sort_names xs)

-- sorted(before.keys() | after.keys())
unfoldable pub sections_of : Fields → Fields → List String
unfolding keys sort_names select has
sections_of before after =
    sort_names (keys before ++ select (λ (k : String). not (has k before)) (keys after))

-- len(first.keys() - second.keys())
unfoldable pub count_missing : Fields → Fields → ℕ
unfolding has
count_missing end second = 0
count_missing (field key value rest) second =
    if has key second then count_missing rest second else suc (count_missing rest second)

module _ (lib : Runtime) (same_number : Json → Json → Bool) where
  unfoldable pub identity : String → Json → String
  unfolding selected_fields table_get
  identity section (object item) =
      let names : List String = identity_names (table_get section identity_fields) in
      lib.canonical_json (or_else (selected_fields names item) (object item))
  identity section item = lib.canonical_json item

  -- {_identity(section, item): item for item in items}, where a later item replaces an earlier one
  unfoldable pub index_from : String → Items → Fields → Fields
  unfolding identity assign
  index_from section nil index = index
  index_from section (cons item rest) index =
      index_from section rest (assign (identity section item) item index)

  -- The common identities whose items differ.
  unfoldable pub count_modified : Fields → Fields → ℕ
  unfolding lookup same_json
  count_modified end second = 0
  count_modified (field key value rest) second =
      let others = count_modified rest second in
      elim (lookup key second) [
        | none ↦ others
        | some other ↦ if same_json same_number value other then others else suc others
      ]

  -- The numbers of items added, removed and modified.
  unfoldable pub collection_counts : String → Json → Json → ℕ × ℕ × ℕ
  unfolding index_from count_modified count_missing
  collection_counts section (list before) (list after) =
      let before_index : Fields = index_from section before end in
      let after_index : Fields = index_from section after end in
      (
        count_missing after_index before_index,
        count_missing before_index after_index,
        count_modified before_index after_index,
      )
  collection_counts section before after = (0, 0, 1)

  unfoldable pub event_of : String → String
  unfolding table_get
  event_of section = elim (table_get section event_names) [
    | some event ↦ event
    | none ↦ joined (lib.upper section) "_CHANGED"
  ]

  -- _digest(mapping.get(section)) if section in mapping else None
  unfoldable pub digest_at : String → Fields → Option String
  unfolding lookup digest
  digest_at section fields = elim (lookup section fields) [
    | some value ↦ some (digest lib value)
    | none ↦ none
  ]

  unfoldable pub section_change : String → Fields → Fields → SectionChange
  unfolding collection_counts event_of digest_at get
  section_change section before after =
      let counts = collection_counts section (get section before) (get section after) in
      record {
        section = section;
        event = event_of section;
        before_hash = digest_at section before;
        after_hash = digest_at section after;
        added_count = counts.0;
        removed_count = counts.1;
        modified_count = counts.2;
      }

  -- `old_value == new_value and section in before and section in after`
  unfoldable pub is_unchanged : String → Fields → Fields → Bool
  unfolding get same_json has
  is_unchanged section before after =
      same_json same_number (get section before) (get section after)
      && has section before
      && has section after

  unfoldable pub changes_at : List String → Fields → Fields → List SectionChange
  unfolding is_unchanged section_change
  changes_at [] before after = []
  changes_at (section ∷ sections) before after =
      let rest = changes_at sections before after in
      if is_unchanged section before after then rest else section_change section before after ∷ rest

  unfoldable pub compare_snapshots : Option Fields → Fields → List SectionChange
  unfolding changes_at sections_of
  compare_snapshots none after = []
  compare_snapshots (some before) after = changes_at (sections_of before after) before after
