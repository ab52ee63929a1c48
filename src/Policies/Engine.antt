-- ===== src/Policies/Engine.antt =====
-- PolicyEngine._matches and _resolve_values of app/policies/engine.py, with the budget of operations.
-- `late r` tells whether the clock, read when r operations remain, is past the deadline.
use os_scanner.Prelude.{
  ℕ, zero, suc, String, Bool, true, false, not, List, [], ◌∷◌, ◌++◌, str_eq, if◌then◌else◌, Result,
  ok, err, runtime_error, timeout_error, ◌>>=◌,
}
use os_scanner.Json.{
  Json, null, bool, int, negative, real, text, list, object, Items, nil, cons, Fields, end, field,
}
use os_scanner.Policies.Conditions.{
  Condition, Conditions, leaf, exists, not_exists, all_of, any_of, any_item, none_left, also,
  split_dots, leaf_holds, concrete, has_any_value,
}

-- The elements of a list, and a value that is none as one.
unfoldable pub elements : Items → List Json
elements nil = []
elements (cons x xs) = x ∷ elements xs

-- The items of the resolved values, flattened once.
unfoldable pub flattened : List Json → List Json
unfolding elements
flattened [] = []
flattened (list items ∷ vs) = elements items ++ flattened vs
flattened (object f ∷ vs) = object f ∷ flattened vs
flattened (text s ∷ vs) = text s ∷ flattened vs
flattened (null ∷ vs) = null ∷ flattened vs
flattened (bool b ∷ vs) = bool b ∷ flattened vs
flattened (int n ∷ vs) = int n ∷ flattened vs
flattened (negative n ∷ vs) = negative n ∷ flattened vs
flattened (real s ∷ vs) = real s ∷ flattened vs

-- A value without children ends the walk: it is a result at the end of the path.
abbrev pub scalar : Json → List String → List Json
scalar value [] = value ∷ []
scalar value (s ∷ path) = []

-- A step of the evaluation: its result and what remains of the budget.
abbrev pub Step {ℓ} : Type ℓ → Type ℓ
Step A = ℕ → Result (A × ℕ)

module _ (late : ℕ → Bool) where
  -- _EvaluationBudget.consume
  unfoldable pub consume : ℕ → Result ℕ
  consume zero = err runtime_error
  consume (suc r) = if late r then err timeout_error else ok r

  unfoldable mutual
    unfolding consume

    pub walk : Json → List String → Step (List Json)
    walk (object f) [] b = consume b >>= λ r. ok (object f ∷ [], r)
    walk (object f) (s ∷ path) b =
        consume b >>= λ r. if str_eq s "*" then walk_all f path r else walk_at s f path r
    walk (list xs) [] b = consume b >>= λ r. ok (list xs ∷ [], r)
    walk (list xs) (s ∷ path) b = consume b >>= λ r. walk_in xs (s ∷ path) r
    walk (text t) path b = consume b >>= λ r. ok (scalar (text t) path, r)
    walk null path b = consume b >>= λ r. ok (scalar null path, r)
    walk (bool c) path b = consume b >>= λ r. ok (scalar (bool c) path, r)
    walk (int n) path b = consume b >>= λ r. ok (scalar (int n) path, r)
    walk (negative n) path b = consume b >>= λ r. ok (scalar (negative n) path, r)
    walk (real t) path b = consume b >>= λ r. ok (scalar (real t) path, r)

    -- for child in current.values()
    pub walk_all : Fields → List String → Step (List Json)
    walk_all end path b = ok ([], b)
    walk_all (field k v rest) path b = walk v path b >>= λ first.
        walk_all rest path first.1 >>= λ others. ok (first.0 ++ others.0, others.1)

    -- walk(current[segment], …), or nothing where the segment is missing
    pub walk_at : String → Fields → List String → Step (List Json)
    walk_at s end path b = ok ([], b)
    walk_at s (field k v rest) path b = elim (str_eq k s) [
      | true ↦ walk v path b
      | false ↦ walk_at s rest path b
    ]

    -- for child in current
    pub walk_in : Items → List String → Step (List Json)
    walk_in nil path b = ok ([], b)
    walk_in (cons x xs) path b = walk x path b >>= λ first.
        walk_in xs path first.1 >>= λ others. ok (first.0 ++ others.0, others.1)

  unfoldable pub resolve_values : Json → String → Step (List Json)
  unfolding walk split_dots
  resolve_values document name = walk document (split_dots name)

  abbrev pub spent : Result Bool → ℕ → Result (Bool × ℕ)
  spent answer r = answer >>= λ v. ok (v, r)

  -- any(isinstance(item, Mapping) and test(item) for item in items)
  unfoldable pub any_over : (Json → Step Bool) → List Json → Step Bool
  any_over test [] b = ok (false, b)
  any_over test (object f ∷ vs) b = test (object f) b >>= λ hit. elim hit.0 [
    | true ↦ ok (true, hit.1)
    | false ↦ any_over test vs hit.1
  ]
  any_over test (list xs ∷ vs) b = any_over test vs b
  any_over test (text s ∷ vs) b = any_over test vs b
  any_over test (null ∷ vs) b = any_over test vs b
  any_over test (bool c ∷ vs) b = any_over test vs b
  any_over test (int n ∷ vs) b = any_over test vs b
  any_over test (negative n ∷ vs) b = any_over test vs b
  any_over test (real s ∷ vs) b = any_over test vs b

  module _ (decimal same_number : Json → Json → Bool)
      (decimal_order : Bool → Json → Json → Bool) where
    unfoldable mutual
      unfolding consume resolve_values leaf_holds concrete any_over flattened

      pub matches : Condition → Json → Step Bool
      matches (leaf op name expected) document b = consume b >>= λ r.
          resolve_values document name r >>= λ found.
          spent (leaf_holds decimal same_number decimal_order op expected found.0) found.1
      matches (exists name) document b = consume b >>= λ r.
          resolve_values document name r >>= λ found. ok (has_any_value (concrete found.0), found.1)
      matches (not_exists name) document b = consume b >>= λ r.
          resolve_values document name r >>= λ found.
          ok (not (has_any_value (concrete found.0)), found.1)
      matches (all_of cs) document b = consume b >>= λ r. all_match cs document r
      matches (any_of cs) document b = consume b >>= λ r. any_match cs document r
      matches (any_item name cs) document b = consume b >>= λ r.
          resolve_values document name r >>= λ found.
          any_over (λ item. all_match cs item) (flattened found.0) found.1

      -- all(self._matches(child, data, budget) for child in conditions)
      pub all_match : Conditions → Json → Step Bool
      all_match none_left document b = ok (true, b)
      all_match (also c cs) document b = matches c document b >>= λ hit. elim hit.0 [
        | true ↦ all_match cs document hit.1
        | false ↦ ok (false, hit.1)
      ]

      -- any(self._matches(child, data, budget) for child in conditions)
      pub any_match : Conditions → Json → Step Bool
      any_match none_left document b = ok (false, b)
      any_match (also c cs) document b = matches c document b >>= λ hit. elim hit.0 [
        | true ↦ ok (true, hit.1)
        | false ↦ any_match cs document hit.1
      ]
