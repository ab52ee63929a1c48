-- ===== src/Policies/Conditions.antt =====
-- The conditions of a policy, and the tests of one value: app/policies/models.py and the functions
-- after the engine in app/policies/engine.py. A condition has one of the shapes that `validate_shape`
-- admits. The data are JSON documents, in which no datetime and no enumeration member occurs.
use Prim.Native.Char.{code}
use Prim.Native.String.{String}
use os_scanner.Prelude.{
  Bool, true, false, ◌&&◌, ◌||◌, List, [], ◌∷◌, ◌==◌, if◌then◌else◌, Result, ok, err, type_error,
  ◌>>=◌,
}
use os_scanner.Json.{
  Json, null, bool, int, negative, real, text, list, object, Items, nil, cons, Fields, same_json,
}
use os_scanner.Storage.Snapshots.Changes.{has}

-- The operators of a leaf with a value.
pub data Comparison : Type 0 where
  equals not_equals contains not_contains greater_than less_than : Comparison

mutual
  pub data Condition : Type 0 where
    leaf : Comparison → String → Json → Condition
    exists not_exists : String → Condition
    all_of any_of : Conditions → Condition
    any_item : String → Conditions → Condition

  pub data Conditions : Type 0 where
    none_left : Conditions
    also : Condition → Conditions → Conditions

-- field.split(".")
unfoldable pub split_dots : String → List String
split_dots String.[] = String.[] ∷ []
split_dots (String.◌∷◌ c s) = elim (split_dots s) [
  | [] ↦ []
  | first ∷ others ↦
      if code c == b'.' then String.[] ∷ first ∷ others else String.◌∷◌ c first ∷ others
]

abbrev is_bool : Json → Bool
is_bool (bool b) = true
is_bool _ = false

abbrev is_numeric : Json → Bool
is_numeric (int n) = true
is_numeric (negative n) = true
is_numeric (real s) = true
is_numeric _ = false

abbrev same_bool : Json → Json → Bool
same_bool (bool true) (bool true) = true
same_bool (bool false) (bool false) = true
same_bool _ _ = false

unfoldable pub has_prefix : String → String → Bool
has_prefix String.[] s = true
has_prefix (String.◌∷◌ c p) String.[] = false
has_prefix (String.◌∷◌ c p) (String.◌∷◌ d s) = code c == code d && has_prefix p s

-- part in whole, on texts
unfoldable pub contains_text : String → String → Bool
unfolding has_prefix
contains_text part String.[] = has_prefix part String.[]
contains_text part (String.◌∷◌ c s) = has_prefix part (String.◌∷◌ c s) || contains_text part s

-- any(test(value) for value in values)
unfoldable pub any_value : (Json → Result Bool) → List Json → Result Bool
any_value test [] = ok false
any_value test (v ∷ vs) =
    let rest = any_value test vs in test v >>= λ hit. if hit then ok true else rest

-- all(not test(value) for value in values)
unfoldable pub no_value : (Json → Result Bool) → List Json → Result Bool
no_value test [] = ok true
no_value test (v ∷ vs) =
    let rest = no_value test vs in test v >>= λ hit. if hit then ok false else rest

abbrev is_null : Json → Bool
is_null null = true
is_null _ = false

-- [value for value in values if value is not None]
unfoldable pub concrete : List Json → List Json
concrete [] = []
concrete (v ∷ vs) = let rest = concrete vs in if is_null v then rest else v ∷ rest

abbrev pub has_any_value : List Json → Bool
has_any_value [] = false
has_any_value (v ∷ vs) = true

-- `decimal` is the equality of Decimal(str(…)) on numbers, `decimal_order` the order of Decimal(str(…))
-- (true for greater), false where that raises, and `same_number` Python's `==` on numbers.
module _ (decimal same_number : Json → Json → Bool)
    (decimal_order : Bool → Json → Json → Bool) where
  unfoldable pub equivalent : Json → Json → Bool
  unfolding same_json
  equivalent actual expected =
      if is_bool actual || is_bool expected
      then same_bool actual expected
      else if is_numeric actual && is_numeric expected
      then decimal actual expected
      else same_json same_number actual expected

  unfoldable pub any_equivalent : Items → Json → Bool
  unfolding equivalent
  any_equivalent nil expected = false
  any_equivalent (cons item items) expected =
      equivalent item expected || any_equivalent items expected

  -- `expected in actual`, on a dictionary: a list or a dictionary cannot be looked up.
  abbrev key_in : Json → Fields → Result Bool
  key_in (text key) fields = ok (has key fields)
  key_in (list items) fields = err type_error
  key_in (object other) fields = err type_error
  key_in expected fields = ok false

  abbrev text_in : Json → String → Bool
  text_in (text part) whole = contains_text part whole
  text_in _ whole = false

  unfoldable pub contains_value : Json → Json → Result Bool
  unfolding contains_text has any_equivalent
  contains_value (text whole) expected = ok (text_in expected whole)
  contains_value (object fields) expected = key_in expected fields
  contains_value (list items) expected = ok (any_equivalent items expected)
  contains_value _ expected = ok false

  unfoldable pub ordered_compare : Bool → Json → Json → Bool
  ordered_compare greater actual expected =
      if is_bool actual || is_bool expected then false else decimal_order greater actual expected

  -- The tests of a leaf on the values that are not None, of which there is one at least.
  unfoldable pub compare_values : Comparison → Json → List Json → Result Bool
  unfolding any_value no_value equivalent contains_value ordered_compare
  compare_values equals expected vs = any_value (λ v. ok (equivalent v expected)) vs
  compare_values not_equals expected vs = no_value (λ v. ok (equivalent v expected)) vs
  compare_values contains expected vs = any_value (λ v. contains_value v expected) vs
  compare_values not_contains expected vs = no_value (λ v. contains_value v expected) vs
  compare_values greater_than expected vs = any_value (λ v. ok (ordered_compare true v expected)) vs
  compare_values less_than expected vs = any_value (λ v. ok (ordered_compare false v expected)) vs

  -- A leaf on the resolved values: missing telemetry satisfies no comparison.
  unfoldable pub leaf_holds : Comparison → Json → List Json → Result Bool
  unfolding concrete compare_values
  leaf_holds op expected values =
      if has_any_value (concrete values)
      then compare_values op expected (concrete values)
      else ok false
