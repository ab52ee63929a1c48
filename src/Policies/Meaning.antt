-- ===== src/Policies/Meaning.antt =====
-- What a condition means without a budget, and how many operations suffice to find it.
use os_scanner.Prelude.{
  ℕ, suc, ◌+◌, String, Bool, true, false, not, List, [], ◌∷◌, Result, ok, ◌>>=◌,
}
use os_scanner.Json.{Json, null, bool, int, negative, real, text, list, object}
use os_scanner.Policies.Conditions.{
  Condition, Conditions, leaf, exists, not_exists, all_of, any_of, any_item, none_left, also,
  split_dots, leaf_holds, concrete, has_any_value,
}
use os_scanner.Policies.Engine.{flattened}
use os_scanner.Policies.Budget.{values_at, walk_cost}

-- The values at a path of names.
abbrev pub values_of : String → Json → List Json
values_of name document = values_at document (split_dots name)

unfoldable pub any_holding : (Json → Result Bool) → List Json → Result Bool
any_holding test [] = ok false
any_holding test (object f ∷ vs) =
    test (object f) >>= λ hit. elim hit [ true ↦ ok true | false ↦ any_holding test vs ]
any_holding test (list xs ∷ vs) = any_holding test vs
any_holding test (text s ∷ vs) = any_holding test vs
any_holding test (null ∷ vs) = any_holding test vs
any_holding test (bool c ∷ vs) = any_holding test vs
any_holding test (int n ∷ vs) = any_holding test vs
any_holding test (negative n ∷ vs) = any_holding test vs
any_holding test (real s ∷ vs) = any_holding test vs

unfoldable pub sum_over : (Json → ℕ) → List Json → ℕ
sum_over cost [] = 0
sum_over cost (v ∷ vs) = cost v + sum_over cost vs

-- The operations that suffice for a condition.
unfoldable mutual
  pub cost : Condition → Json → ℕ
  cost (leaf op name expected) d = suc (walk_cost d (split_dots name))
  cost (exists name) d = suc (walk_cost d (split_dots name))
  cost (not_exists name) d = suc (walk_cost d (split_dots name))
  cost (all_of cs) d = suc (costs cs d)
  cost (any_of cs) d = suc (costs cs d)
  cost (any_item name cs) d = suc (
      walk_cost d (split_dots name)
      + sum_over (λ item. costs cs item) (flattened (values_at d (split_dots name))))

  pub costs : Conditions → Json → ℕ
  costs none_left d = 0
  costs (also c cs) d = cost c d + costs cs d

module _ (decimal same_number : Json → Json → Bool)
    (decimal_order : Bool → Json → Json → Bool) where
  unfoldable mutual
    pub holds : Condition → Json → Result Bool
    holds (leaf op name expected) d =
        leaf_holds decimal same_number decimal_order op expected (values_at d (split_dots name))
    holds (exists name) d = ok (has_any_value (concrete (values_at d (split_dots name))))
    holds (not_exists name) d = ok (not (has_any_value (concrete (values_at d (split_dots name)))))
    holds (all_of cs) d = all_hold cs d
    holds (any_of cs) d = any_hold cs d
    holds (any_item name cs) d =
        any_holding (λ item. all_hold cs item) (flattened (values_at d (split_dots name)))

    pub all_hold : Conditions → Json → Result Bool
    all_hold none_left d = ok true
    all_hold (also c cs) d =
        holds c d >>= λ hit. elim hit [ true ↦ all_hold cs d | false ↦ ok false ]

    pub any_hold : Conditions → Json → Result Bool
    any_hold none_left d = ok false
    any_hold (also c cs) d =
        holds c d >>= λ hit. elim hit [ true ↦ ok true | false ↦ any_hold cs d ]
