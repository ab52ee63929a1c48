-- ===== src/Cloud/Bounded.antt =====
-- bounded_json of cloud_service/models.py: the structural limits on a document, by a loop over an
-- explicit stack whose last entry is taken first. Every refusal is the same exception, so the loop
-- answers whether the document passes; its fuel is what is left of `max_nodes`, which the loop checks
-- before anything else. `finite` tells whether the text of a number is a finite float.
pub mod Limits
use os_scanner.Prelude.{
  ℕ, zero, suc, ◌+◌, String, ◌≡◌, refl, Bool, true, false, not, ◌&&◌, List, [], ◌∷◌, arith, leb,
  ltb, if◌then◌else◌,
}
use os_scanner.Prelude.Text.{len}
use os_scanner.Json.{
  Json, null, bool, int, negative, real, text, list, object, Items, nil, cons, Fields, end, field,
}

-- Every key has at most 256 characters.
unfoldable pub keys_short : Fields → Bool
keys_short end = true
keys_short (field key value rest) = leb (len key) 256 && keys_short rest

unfoldable pub push_items : Items → ℕ → List (Json × ℕ) → List (Json × ℕ)
push_items nil depth stack = stack
push_items (cons item rest) depth stack = push_items rest depth ((item, depth) ∷ stack)

unfoldable pub push_values : Fields → ℕ → List (Json × ℕ) → List (Json × ℕ)
push_values end depth stack = stack
push_values (field key value rest) depth stack = push_values rest depth ((value, depth) ∷ stack)

module _ (finite : String → Bool) where
  -- The test of one entry but for its children.
  unfoldable pub is_valid_item : Json → Bool
  unfolding keys_short
  is_valid_item (text s) = leb (len s) 1000000
  is_valid_item (real s) = finite s
  is_valid_item (object fields) = keys_short fields
  is_valid_item null = true
  is_valid_item (bool b) = true
  is_valid_item (int n) = true
  is_valid_item (negative n) = true
  is_valid_item (list items) = true

  abbrev pub push_children : Json → ℕ → List (Json × ℕ) → List (Json × ℕ)
  push_children (list items) depth stack = push_items items depth stack
  push_children (object fields) depth stack = push_values fields depth stack
  push_children item depth stack = stack

  unfoldable pub bounded_loop : ℕ → ℕ → List (Json × ℕ) → Bool
  unfolding is_valid_item push_items push_values
  bounded_loop max_depth left [] = true
  bounded_loop max_depth zero ((item, depth) ∷ stack) = false
  bounded_loop max_depth (suc left) ((item, depth) ∷ stack) =
      let rest = bounded_loop max_depth left (push_children item (suc depth) stack) in
      if leb depth max_depth && is_valid_item item then rest else false

  unfoldable pub bounded_json : ℕ → ℕ → Json → Bool
  unfolding bounded_loop
  bounded_json max_depth max_nodes value = bounded_loop max_depth max_nodes ((value, 0) ∷ [])
