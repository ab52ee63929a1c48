-- ===== src/Policies/Decided.antt =====
-- The engine with its budget against the meaning of a condition.
use os_scanner.Prelude.{ℕ, ◌+◌, ◌≤◌, ◌≡◌, refl, Bool, false, not, List, arith, ok}
use os_scanner.Json.{Json}
use os_scanner.Policies.Conditions.{
  Condition, Conditions, leaf, exists, not_exists, all_of, any_of, any_item, none_left, also,
  split_dots, leaf_holds, concrete, has_any_value,
}
use os_scanner.Policies.Engine.{flattened, spent, any_over, matches, all_match, any_match}
use os_scanner.Policies.Budget.{values_at}
use os_scanner.Policies.Meaning.{sum_over, cost, costs, holds, all_hold, any_hold}
use os_scanner.Policies.Answers.{
  Answers, first_decides, first_suffices, any_over_lem, resolved, charged, leaf_resolved,
}

module _ (decimal same_number : Json → Json → Bool)
    (decimal_order : Bool → Json → Json → Bool) where
  module _ (late : ℕ → Bool) (in_time : (r : ℕ) → late r ≡ false) where
    mutual
      unfolding matches holds cost

      matches_lem :
          (c : Condition) (document : Json) (b : ℕ)
          → cost c document ≤ b
          → Answers late in_time
              (matches late decimal same_number decimal_order c document b)
              (holds decimal same_number decimal_order c document)
              (cost c document)
              b
      matches_lem (leaf op name expected) document b h =
          leaf_resolved late in_time document name
            (λ vs r. spent late (leaf_holds decimal same_number decimal_order op expected vs) r)
            (holds decimal same_number decimal_order (leaf op name expected) document) b h
            (λ r. refl)
      matches_lem (exists name) document b h =
          leaf_resolved late in_time document name (λ vs r. ok (has_any_value (concrete vs), r))
            (holds decimal same_number decimal_order (exists name) document) b h (λ r. refl)
      matches_lem (not_exists name) document b h =
          leaf_resolved late in_time document name
            (λ vs r. ok (not (has_any_value (concrete vs)), r))
            (holds decimal same_number decimal_order (not_exists name) document) b h (λ r. refl)
      matches_lem (all_of cs) document b h =
          charged late in_time (all_match late decimal same_number decimal_order cs document)
            (all_hold decimal same_number decimal_order cs document) (costs cs document) b h
            (λ r k. all_match_lem cs document r k)
      matches_lem (any_of cs) document b h =
          charged late in_time (any_match late decimal same_number decimal_order cs document)
            (any_hold decimal same_number decimal_order cs document) (costs cs document) b h
            (λ r k. any_match_lem cs document r k)
      matches_lem (any_item name cs) document b h =
          let items : List Json = flattened (values_at document (split_dots name)) in
          let each : (v : Json) (r : ℕ)
              → costs cs v ≤ r
              → Answers late in_time (all_match late decimal same_number decimal_order cs v r)
                  (all_hold decimal same_number decimal_order cs v) (costs cs v) r =
            λ v r k. all_match_lem cs v r k in
          resolved late in_time document name
            (λ vs r.
              any_over late (λ item. all_match late decimal same_number decimal_order cs item)
                (flattened vs) r)
            (holds decimal same_number decimal_order (any_item name cs) document)
            (sum_over (λ item. costs cs item) items) b h
            (λ r k.
              any_over_lem late in_time
                (λ item. all_match late decimal same_number decimal_order cs item)
                (λ item. all_hold decimal same_number decimal_order cs item) (λ item. costs cs item)
                items r each k)

      all_match_lem :
          (cs : Conditions) (document : Json) (b : ℕ)
          → costs cs document ≤ b
          → Answers late in_time
              (all_match late decimal same_number decimal_order cs document b)
              (all_hold decimal same_number decimal_order cs document)
              (costs cs document)
              b
      all_match_lem none_left document b h = (b, refl, omega arith)
      all_match_lem (also c cs) document b h =
          first_decides late in_time (matches late decimal same_number decimal_order c document b)
            (holds decimal same_number decimal_order c document)
            (all_match late decimal same_number decimal_order cs document)
            (all_hold decimal same_number decimal_order cs document) (cost c document)
            (costs cs document) b h (matches_lem c document b (omega (arith, h)))
            (λ r k. all_match_lem cs document r k)

      any_match_lem :
          (cs : Conditions) (document : Json) (b : ℕ)
          → costs cs document ≤ b
          → Answers late in_time
              (any_match late decimal same_number decimal_order cs document b)
              (any_hold decimal same_number decimal_order cs document)
              (costs cs document)
              b
      any_match_lem none_left document b h = (b, refl, omega arith)
      any_match_lem (also c cs) document b h =
          first_suffices late in_time (matches late decimal same_number decimal_order c document b)
            (holds decimal same_number decimal_order c document)
            (any_match late decimal same_number decimal_order cs document)
            (any_hold decimal same_number decimal_order cs document) (cost c document)
            (costs cs document) b h (matches_lem c document b (omega (arith, h)))
            (λ r k. any_match_lem cs document r k)

    -- Given a budget of at least the operations that a condition can take, and time, the engine returns
    -- what the condition means on the document, or raises the TypeError that it means, and spends no
    -- more than those operations. In particular the budget runs out only where it is smaller.
    pub matches-spent :
        (c : Condition) (document : Json) (b : ℕ)
        → cost c document ≤ b
        → (r : ℕ) × (matches late decimal same_number decimal_order c document b
            ≡ spent late (holds decimal same_number decimal_order c document) r)
          × (b ≤ r + cost c document)
    matches-spent c document b h = matches_lem c document b h
