-- ===== src/Policies/Examples.antt =====
-- A policy condition on a small inventory.
use os_scanner.Prelude.{ℕ, ◌+◌, ◌≤◌, ◌≡◌, refl, Bool, true, false, arith, if◌then◌else◌, ok}
use os_scanner.Json.{Json, null, bool, text, list, object, nil, cons, end, field}
use os_scanner.Policies.Conditions.{
  Condition, Conditions, leaf, equals, not_equals, contains, not_contains, exists, not_exists,
  all_of, any_item, none_left, also,
}
use os_scanner.Policies.Engine.{matches, spent}
use os_scanner.Policies.Meaning.{cost, holds}
use os_scanner.Policies.Decided.{matches-spent}
use os_scanner.Policies.Negation.{denied, has_telemetry, negations}

abbrev decimal : Json → Json → Bool
decimal a b = false

abbrev decimal_order : Bool → Json → Json → Bool
decimal_order greater a b = false

abbrev late : ℕ → Bool
late r = false

abbrev inventory : Json
inventory = object (
    field "users"
      (list (
        cons (object (field "name" (text "root") (field "admin" (bool true) end)))
          (cons (text "stray") nil)))
      (field "os" (object (field "family" null end)) end))

-- Some user is root and an administrator, and the family of the system is not told.
abbrev condition : Condition
condition = all_of (
    also
      (any_item "users" (
        also (leaf equals "name" (text "root")) (also (leaf equals "admin" (bool true)) none_left)))
      (also (not_exists "os.family") none_left))

met : holds decimal decimal decimal_order condition inventory ≡ ok true
unfolding holds os_scanner.Policies.Meaning.any_holding os_scanner.Policies.Engine.flattened
    os_scanner.Policies.Budget.values_at os_scanner.Policies.Conditions.split_dots
    os_scanner.Policies.Conditions.leaf_holds
met = refl

matches-spent_example :
    (r : ℕ) × (matches late decimal decimal decimal_order condition inventory 20
      ≡ spent late (holds decimal decimal decimal_order condition inventory) r)
    × (20 ≤ r + cost condition inventory)
unfolding cost os_scanner.Policies.Budget.walk_cost os_scanner.Policies.Conditions.split_dots
    os_scanner.Policies.Meaning.sum_over os_scanner.Policies.Engine.flattened
    os_scanner.Policies.Budget.values_at
matches-spent_example =
    matches-spent decimal decimal decimal_order late (λ r. refl) condition inventory 20
      (omega arith)

negations_example :
    (holds decimal decimal decimal_order (leaf not_equals "os.family" (text "linux")) inventory ≡ (
      if has_telemetry decimal decimal decimal_order "os.family" inventory
      then denied decimal decimal decimal_order
          (holds decimal decimal decimal_order (leaf equals "os.family" (text "linux")) inventory)
      else ok false))
    × (holds decimal decimal decimal_order (leaf not_contains "os.family" (text "linux")) inventory
        ≡ (if has_telemetry decimal decimal decimal_order "os.family" inventory
            then denied decimal decimal decimal_order (
                holds decimal decimal decimal_order
                  (leaf contains "os.family" (text "linux"))
                  inventory)
            else ok false))
    × (holds decimal decimal decimal_order (leaf equals "os.family" (text "linux")) inventory ≡ (
        if has_telemetry decimal decimal decimal_order "os.family" inventory
        then holds decimal decimal decimal_order (leaf equals "os.family" (text "linux")) inventory
        else ok false))
    × (holds decimal decimal decimal_order (leaf contains "os.family" (text "linux")) inventory ≡ (
        if has_telemetry decimal decimal decimal_order "os.family" inventory
        then holds decimal decimal decimal_order
            (leaf contains "os.family" (text "linux"))
            inventory
        else ok false))
    × (holds decimal decimal decimal_order (not_exists "os.family") inventory
        ≡ denied decimal decimal decimal_order
            (holds decimal decimal decimal_order (exists "os.family") inventory))
negations_example = negations decimal decimal decimal_order "os.family" (text "linux") inventory
