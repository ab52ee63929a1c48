-- ===== src/Cloud/Bounded/Limits.antt =====
-- What the loop of `bounded_json` decides, by a structural recursion without stack and fuel.
use os_scanner.Prelude.{
  ℕ, zero, suc, ◌+◌, String, ◌≡◌, refl, Bool, true, false, ◌&&◌, List, [], ◌∷◌, arith, leb,
  if◌then◌else◌,
}
use os_scanner.Prelude.Text.{len}
use os_scanner.Json.{
  Json, null, bool, int, negative, real, text, list, object, Items, nil, cons, Fields, end, field,
}
use os_scanner.Cloud.Bounded.{
  keys_short, is_valid_item, push_items, push_values, bounded_loop, bounded_json,
}

-- The number of values in a document, itself included.
unfoldable mutual
  pub nodes : Json → ℕ
  nodes (list items) = suc (nodes_in items)
  nodes (object fields) = suc (nodes_under fields)
  nodes null = 1
  nodes (bool b) = 1
  nodes (int n) = 1
  nodes (negative n) = 1
  nodes (real s) = 1
  nodes (text s) = 1

  pub nodes_in : Items → ℕ
  nodes_in nil = 0
  nodes_in (cons item rest) = nodes item + nodes_in rest

  pub nodes_under : Fields → ℕ
  nodes_under end = 0
  nodes_under (field key value rest) = nodes value + nodes_under rest

module _ (finite : String → Bool) (max_depth : ℕ) where
  -- Every value, at its depth, is one that the limits allow.
  unfoldable mutual
    pub fits : ℕ → Json → Bool
    fits depth (list items) = leb depth max_depth && fits_in (suc depth) items
    fits depth (object fields) =
        leb depth max_depth && is_valid_item finite (object fields) && fits_under (suc depth) fields
    fits depth null = leb depth max_depth
    fits depth (bool b) = leb depth max_depth
    fits depth (int n) = leb depth max_depth
    fits depth (negative n) = leb depth max_depth
    fits depth (real s) = leb depth max_depth && is_valid_item finite (real s)
    fits depth (text s) = leb depth max_depth && is_valid_item finite (text s)

    pub fits_in : ℕ → Items → Bool
    fits_in depth nil = true
    fits_in depth (cons item rest) = fits depth item && fits_in depth rest

    pub fits_under : ℕ → Fields → Bool
    fits_under depth end = true
    fits_under depth (field key value rest) = fits depth value && fits_under depth rest

  -- The same for the entries of a stack.
  unfoldable total : List (Json × ℕ) → ℕ
  total [] = 0
  total ((item, depth) ∷ stack) = nodes item + total stack

  unfoldable all_fit : List (Json × ℕ) → Bool
  unfolding fits
  all_fit [] = true
  all_fit ((item, depth) ∷ stack) = fits depth item && all_fit stack

  total-push_items :
      (xs : Items) (d : ℕ) (st : List (Json × ℕ))
      → total (push_items xs d st) ≡ nodes_in xs + total st
  unfolding total push_items nodes
  total-push_items nil d st = ground arith
  total-push_items (cons x xs) d st = ground (arith, total-push_items xs d ((x, d) ∷ st))

  total-push_values :
      (f : Fields) (d : ℕ) (st : List (Json × ℕ))
      → total (push_values f d st) ≡ nodes_under f + total st
  unfolding total push_values nodes
  total-push_values end d st = ground arith
  total-push_values (field k v r) d st = ground (arith, total-push_values r d ((v, d) ∷ st))

  all_fit-push_items :
      (xs : Items) (d : ℕ) (st : List (Json × ℕ))
      → all_fit (push_items xs d st) ≡ (fits_in d xs && all_fit st)
  unfolding all_fit push_items fits
  all_fit-push_items nil d st = refl
  all_fit-push_items (cons x xs) d st = ground (arith, all_fit-push_items xs d ((x, d) ∷ st))

  all_fit-push_values :
      (f : Fields) (d : ℕ) (st : List (Json × ℕ))
      → all_fit (push_values f d st) ≡ (fits_under d f && all_fit st)
  unfolding all_fit push_values fits
  all_fit-push_values end d st = refl
  all_fit-push_values (field k v r) d st = ground (arith, all_fit-push_values r d ((v, d) ∷ st))

  nodes-pos : (j : Json) → leb 1 (nodes j) ≡ true
  unfolding nodes
  nodes-pos (list xs) = ground arith
  nodes-pos (object f) = ground arith
  nodes-pos null = refl
  nodes-pos (bool b) = refl
  nodes-pos (int n) = refl
  nodes-pos (negative n) = refl
  nodes-pos (real s) = refl
  nodes-pos (text s) = refl

  -- One round, with the test of the entry and what the rest of the loop answers.
  round :
      (b f s : Bool) (n t left : ℕ)
      → (if b then (leb (n + t) left && (f && s)) else false)
        ≡ (leb (suc n + t) (suc left) && ((b && f) && s))
  round true true true n t left = ground arith
  round true true false n t left = ground arith
  round true false s n t left = ground arith
  round false f s n t left = ground arith

  and_assoc : (a b c : Bool) → (a && b && c) ≡ ((a && b) && c)
  and_assoc true b c = refl
  and_assoc false b c = refl

  -- The same for an entry without children.
  leaf_round :
      (b s : Bool) (t left : ℕ)
      → (if b then (leb t left && s) else false) ≡ (leb (1 + t) (suc left) && (b && s))
  leaf_round true true t left = ground arith
  leaf_round true false t left = ground arith
  leaf_round false s t left = ground arith

  and-true : (b : Bool) → (b && true) ≡ b
  and-true true = refl
  and-true false = refl

  bounded_loop_lem :
      (left : ℕ) (st : List (Json × ℕ))
      → bounded_loop finite max_depth left st ≡ (leb (total st) left && all_fit st)
  unfolding bounded_loop total all_fit nodes fits is_valid_item
  bounded_loop_lem zero [] = refl
  bounded_loop_lem (suc left) [] = ground arith
  bounded_loop_lem zero ((j, d) ∷ st) = ground (arith, nodes-pos j)
  bounded_loop_lem (suc left) ((list xs, d) ∷ st) =
      rw
        (
          bounded_loop_lem left (push_items xs (suc d) st),
          total-push_items xs (suc d) st,
          all_fit-push_items xs (suc d) st,
          and-true (leb d max_depth),
        )
        (round (leb d max_depth) (fits_in (suc d) xs) (all_fit st) (nodes_in xs) (total st) left)
  bounded_loop_lem (suc left) ((object f, d) ∷ st) =
      rw
        (
          bounded_loop_lem left (push_values f (suc d) st),
          total-push_values f (suc d) st,
          all_fit-push_values f (suc d) st,
          and_assoc (leb d max_depth) (keys_short f) (fits_under (suc d) f),
        )
        (round (leb d max_depth && keys_short f) (fits_under (suc d) f) (all_fit st) (nodes_under f)
          (total st) left)
  bounded_loop_lem (suc left) ((null, d) ∷ st) =
      rw (bounded_loop_lem left st, and-true (leb d max_depth))
        (leaf_round (leb d max_depth) (all_fit st) (total st) left)
  bounded_loop_lem (suc left) ((bool b, d) ∷ st) =
      rw (bounded_loop_lem left st, and-true (leb d max_depth))
        (leaf_round (leb d max_depth) (all_fit st) (total st) left)
  bounded_loop_lem (suc left) ((int n, d) ∷ st) =
      rw (bounded_loop_lem left st, and-true (leb d max_depth))
        (leaf_round (leb d max_depth) (all_fit st) (total st) left)
  bounded_loop_lem (suc left) ((negative n, d) ∷ st) =
      rw (bounded_loop_lem left st, and-true (leb d max_depth))
        (leaf_round (leb d max_depth) (all_fit st) (total st) left)
  bounded_loop_lem (suc left) ((real s, d) ∷ st) =
      rw (bounded_loop_lem left st)
        (leaf_round (leb d max_depth && finite s) (all_fit st) (total st) left)
  bounded_loop_lem (suc left) ((text s, d) ∷ st) =
      rw (bounded_loop_lem left st)
        (leaf_round (leb d max_depth && leb (len s) 1000000) (all_fit st) (total st) left)

  -- The loop accepts exactly the documents with at most `max_nodes` values, the document itself
  -- included, whose every value lies at most `max_depth` deep, every text has at most 1,000,000
  -- characters, every key at most 256, and every float is finite; in particular it needs no more rounds.
  pub bounded_json_lem :
      (max_nodes : ℕ) (j : Json)
      → bounded_json finite max_depth max_nodes j ≡ (leb (nodes j) max_nodes && fits 0 j)
  unfolding bounded_json total all_fit
  bounded_json_lem max_nodes j = ground (arith, bounded_loop_lem max_nodes ((j, 0) ∷ []))
