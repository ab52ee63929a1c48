-- ===== src/Json.antt =====
-- JSON documents as the standard library's `json` module reads them, and the access to them that
-- the modelled code makes. Numbers with a fraction or an exponent are kept as their text.
use os_scanner.Prelude.{
  ℕ, suc, ◌&&◌, String, Bool, true, false, Option, none, some, str_eq, ◌==◌, if◌then◌else◌,
}

mutual
  pub data Json : Type 0 where
    null : Json
    bool : Bool → Json
    int : ℕ → Json
    negative : ℕ → Json
    real : String → Json
    text : String → Json
    list : Items → Json
    object : Fields → Json

  pub data Items : Type 0 where
    nil : Items
    cons : Json → Items → Items

  pub data Fields : Type 0 where
    end : Fields
    field : String → Json → Fields → Fields

-- d.get(name), where a missing key is `none`
unfoldable pub lookup : String → Fields → Option Json
lookup name end = none
lookup name (field key value rest) = if str_eq key name then some value else lookup name rest

-- d[name] = value, in the place of an earlier value of that key
unfoldable pub assign : String → Json → Fields → Fields
assign name value end = field name value end
assign name value (field key old rest) =
    if str_eq key name then field key value rest else field key old (assign name value rest)

-- d.pop(name, None)
unfoldable pub remove : String → Fields → Fields
remove name end = end
remove name (field key value rest) =
    let others = remove name rest in if str_eq key name then others else field key value others

-- `value if isinstance(value, Mapping) else none`
abbrev pub as_object : Json → Option Fields
as_object (object fields) = some fields
as_object _ = none

-- `value if isinstance(value, list) else none`
abbrev pub as_list : Json → Option Items
as_list (list items) = some items
as_list _ = none

-- `value is True`
abbrev pub is_true : Json → Bool
is_true (bool b) = b
is_true _ = false

-- `mapping.get(name)` with Python's `None` for a missing key
unfoldable pub get : String → Fields → Json
unfolding lookup
get name fields = elim (lookup name fields) [ none ↦ null | some value ↦ value ]

-- bool(value)
unfoldable pub truthy : Json → Bool
truthy null = false
truthy (bool b) = b
truthy (int n) = if n == 0 then false else true
truthy (negative n) = true
truthy (real s) = if str_eq s "0.0" then false else if str_eq s "-0.0" then false else true
truthy (text s) = if str_eq s "" then false else true
truthy (list nil) = false
truthy (list (cons x xs)) = true
truthy (object end) = false
truthy (object (field k v r)) = true

abbrev is_number : Json → Bool
is_number (bool b) = true
is_number (int n) = true
is_number (negative n) = true
is_number (real s) = true
is_number _ = false

abbrev size : Fields → ℕ
size end = 0
size (field key value rest) = suc (size rest)

-- Python's `==` on documents. Dictionaries are equal in any order of their keys; `same_number` is `==`
-- on numbers, of which the Booleans are two.
module _ (same_number : Json → Json → Bool) where
  unfoldable mutual
    pub same_json : Json → Json → Bool
    same_json null null = true
    same_json (text a) (text b) = str_eq a b
    same_json (list a) (list b) = same_items a b
    same_json (object a) (object b) = size a == size b && is_within a b
    same_json a b = is_number a && is_number b && same_number a b

    pub same_items : Items → Items → Bool
    same_items nil nil = true
    same_items (cons a xs) (cons b ys) = same_json a b && same_items xs ys
    same_items _ _ = false

    -- Every entry of the first is in the second.
    pub is_within : Fields → Fields → Bool
    is_within end b = true
    is_within (field key value rest) b =
        (elim (lookup key b) [ none ↦ false | some other ↦ same_json value other ])
        && is_within rest b
