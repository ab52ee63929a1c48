-- ===== src/Cloud/Inventory/Checks.antt =====
-- The fields of an inventory envelope, as reconstruct_inventory and _inventory_digest of
-- cloud_service/repository.py read them.
use Prim.Native.Char.{code}
use Prim.Native.String.{String}
use os_scanner.Prelude.{
  ℕ, suc, ◌==◌, Bool, true, not, ◌&&◌, ◌||◌, Option, none, some, List, [], ◌∷◌, str_eq, leb, any,
  if◌then◌else◌, Result, ok, err, ◌>>=◌, sync_error, type_error,
}
use os_scanner.Prelude.Text.{len, is_empty}
use os_scanner.Json.{
  Json, null, text, list, object, Items, nil, cons, Fields, end, field, lookup, assign, remove,
}
use os_scanner.Storage.Snapshots.{among}
use os_scanner.Storage.Snapshots.Changes.{has}

unfoldable pub all_hex : String → Bool
all_hex String.[] = true
all_hex (String.◌∷◌ c s) =
    ((leb b'0' (code c) && leb (code c) b'9') || (leb b'a' (code c) && leb (code c) b'f'))
    && all_hex s

-- ^[0-9a-f]{64}$
unfoldable pub is_digest : String → Bool
unfolding all_hex
is_digest s = len s == 64 && all_hex s

-- _inventory_digest, without and with `nullable`
abbrev pub inventory_digest : Json → Result String
inventory_digest (text s) = if is_digest s then ok s else err sync_error
inventory_digest _ = err sync_error

abbrev pub nullable_digest : Json → Result (Option String)
nullable_digest null = ok none
nullable_digest value = inventory_digest value >>= λ s. ok (some s)

-- `mode not in {…}`, which cannot look up a list or a dictionary
unfoldable pub checked_mode : Json → Result String
checked_mode (text s) =
    if str_eq s "full" || str_eq s "delta" || str_eq s "unchanged" then ok s else err sync_error
checked_mode (list items) = err type_error
checked_mode (object fields) = err type_error
checked_mode _ = err sync_error

abbrev pub as_fields : Json → Result Fields
as_fields (object fields) = ok fields
as_fields _ = err sync_error

-- The names in a list; `none` if a member is no valid section name.
abbrev pub valid_name : String → Bool
valid_name name = not (is_empty name) && leb (len name) 256

unfoldable pub names_in : Items → Option (List String)
names_in nil = some []
names_in (cons (text s) rest) = elim (names_in rest) [
  | none ↦ none
  | some names ↦ if valid_name s then some (s ∷ names) else none
]
names_in (cons _ rest) = none

unfoldable pub names_valid : Fields → Bool
names_valid end = true
names_valid (field key value rest) = valid_name key && names_valid rest

-- len(set(names)) == len(names)
unfoldable pub all_different : List String → Bool
unfolding among
all_different [] = true
all_different (x ∷ xs) = not (among x xs) && all_different xs

-- set(sections).intersection(names)
unfoldable pub overlaps : Fields → List String → Bool
unfolding has any
overlaps sections names = any (λ (name : String). has name sections) names

unfoldable pub item_count : Items → ℕ
item_count nil = 0
item_count (cons x xs) = suc (item_count xs)

unfoldable pub field_count : Fields → ℕ
field_count end = 0
field_count (field key value rest) = suc (field_count rest)

-- reconstructed.update(sections)
unfoldable pub update_with : Fields → Fields → Fields
unfolding assign
update_with end held = held
update_with (field key value rest) held = update_with rest (assign key value held)

-- for section in removed: reconstructed.pop(section, None)
unfoldable pub remove_all : List String → Fields → Fields
unfolding remove
remove_all [] held = held
remove_all (name ∷ names) held = remove_all names (remove name held)

abbrev pub has_any : List String → Fields → Bool
has_any names fields = any (λ (name : String). has name fields) names

-- The checks of the sections of a delta, and the two lists.
abbrev pub delta_fields : Json → Json → Result (Fields × Items)
delta_fields (object sections) (list removed) = ok (sections, removed)
delta_fields _ _ = err sync_error

abbrev pub or_names : Option (List String) → Result (List String)
or_names none = err sync_error
or_names (some names) = ok names

-- mapping.get(name, default)
abbrev pub get_default : String → Json → Fields → Json
get_default name default fields = elim (lookup name fields) [ none ↦ default | some value ↦ value ]
