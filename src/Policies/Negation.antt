-- ===== src/Policies/Negation.antt =====
-- The negative operators against the positive ones, and missing telemetry.
use os_scanner.Prelude.{
  String, ◌≡◌, refl, Bool, true, false, not, List, [], ◌∷◌, if◌then◌else◌, Result, ok, ◌>>=◌,
  Result-cases, Bool-cases, inl, inr,
}
use os_scanner.Json.{Json}
use os_scanner.Policies.Conditions.{
  equals, not_equals, contains, not_contains, leaf, exists, not_exists, equivalent, contains_value,
  any_value, no_value, concrete, has_any_value, compare_values, leaf_holds,
}
use os_scanner.Policies.Meaning.{values_of, holds}

no_value-any_value :
    (test : Json → Result Bool) (vs : List Json)
    → no_value test vs ≡ (any_value test vs >>= λ v. ok (not v))
unfolding no_value any_value
no_value-any_value test [] = refl
no_value-any_value test (v ∷ vs) = elim (Result-cases (test v)) [
  | inr (error, e) ↦ rw (e) refl
  | inl (true, e) ↦ rw (e) refl
  | inl (false, e) ↦ rw (e) (no_value-any_value test vs)
]

module _ (decimal same_number : Json → Json → Bool)
    (decimal_order : Bool → Json → Json → Bool) where
  -- The negation of an answer, an exception staying one.
  abbrev pub denied : Result Bool → Result Bool
  denied answer = answer >>= λ v. ok (not v)

  abbrev pub has_telemetry : String → Json → Bool
  has_telemetry name document = has_any_value (concrete (values_of name document))

  -- On a document with a value other than null at the path, not_equals is the negation of equals, and
  -- not_contains that of contains; on one without, all four are false. not_exists is the negation of
  -- exists on every document.
  pub negations :
      (name : String) (expected document : Json)
      → (holds decimal same_number decimal_order (leaf not_equals name expected) document ≡ (
          if has_telemetry name document
          then denied (holds decimal same_number decimal_order (leaf equals name expected) document)
          else ok false))
        × (holds decimal same_number decimal_order (leaf not_contains name expected) document ≡ (
            if has_telemetry name document
            then denied
                (holds decimal same_number decimal_order (leaf contains name expected) document)
            else ok false))
        × (holds decimal same_number decimal_order (leaf equals name expected) document ≡ (
            if has_telemetry name document
            then holds decimal same_number decimal_order (leaf equals name expected) document
            else ok false))
        × (holds decimal same_number decimal_order (leaf contains name expected) document ≡ (
            if has_telemetry name document
            then holds decimal same_number decimal_order (leaf contains name expected) document
            else ok false))
        × (holds decimal same_number decimal_order (not_exists name) document
            ≡ denied (holds decimal same_number decimal_order (exists name) document))
  unfolding holds leaf_holds compare_values
  negations name expected document = elim (Bool-cases (has_telemetry name document)) [
    | inl h ↦ rw (h) (
      no_value-any_value (λ v. ok (equivalent decimal same_number decimal_order v expected))
          (concrete (values_of name document)),
      no_value-any_value (λ v. contains_value decimal same_number decimal_order v expected)
          (concrete (values_of name document)),
      refl,
      refl,
      refl,
    )
    | inr h ↦ rw (h) (refl, refl, refl, refl, refl)
  ]
