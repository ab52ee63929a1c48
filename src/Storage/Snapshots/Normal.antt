-- ===== src/Storage/Snapshots/Normal.antt =====
-- Normalization of a normalized snapshot, and its hash.
use os_scanner.Prelude.{
  String, ◌≡◌, refl, true, false, List, [], ◌∷◌, ok, ap, arith, Bool-cases, inl, inr, str_eq,
}
use os_scanner.Prelude.Text.{text_lt}
use os_scanner.Prelude.TextOrder.{text_lt-asymmetric}
use os_scanner.Json.{
  Json, null, bool, int, negative, real, text, list, object, Items, nil, cons, Fields, end, field,
}
use os_scanner.Storage.Runtime.{Runtime}
use os_scanner.Storage.Snapshots.{
  among, without, stable, stable_item, stable_items, digest, insert_item, sort_items, sorted_list,
  normal_section, normal_fields, normalize_snapshot, snapshot_hash, volatile_fields,
  is_collection_section,
}

without-without : (v : List String) (f : Fields) → without v (without v f) ≡ without v f
unfolding without
without-without v end = refl
without-without v (field k x r) = elim (Bool-cases (among k v)) [
  | inl h ↦ rw (h) (without-without v r)
  | inr h ↦ rw (h, h) (ap (field k x) (without-without v r))
]

stable_item-stable_item :
    (v : List String) (j : Json) → stable_item v (stable_item v j) ≡ stable_item v j
stable_item-stable_item v (object f) = ap object (without-without v f)
stable_item-stable_item v null = refl
stable_item-stable_item v (bool b) = refl
stable_item-stable_item v (int n) = refl
stable_item-stable_item v (negative n) = refl
stable_item-stable_item v (real s) = refl
stable_item-stable_item v (text s) = refl
stable_item-stable_item v (list xs) = refl

stable_items-stable_items :
    (v : List String) (xs : Items) → stable_items v (stable_items v xs) ≡ stable_items v xs
unfolding stable_items
stable_items-stable_items v nil = refl
stable_items-stable_items v (cons x xs) =
    rw (stable_item-stable_item v x, stable_items-stable_items v xs) refl

-- Stripping an item, then inserting it, is no other than inserting it.
stable_items-insert_item :
    (lib : Runtime) (v : List String) (x : Json) (xs : Items)
    → stable_item v x ≡ x
    → stable_items v xs ≡ xs
    → stable_items v (insert_item lib x xs) ≡ insert_item lib x xs
unfolding stable_items insert_item
stable_items-insert_item lib v x nil e h = ground arith
stable_items-insert_item lib v x (cons y ys) e h =
    ground (arith, stable_items-insert_item lib v x ys e)

stable_items-sort_items :
    (lib : Runtime) (v : List String) (xs : Items)
    → stable_items v xs ≡ xs
    → stable_items v (sort_items lib xs) ≡ sort_items lib xs
unfolding stable_items sort_items
stable_items-sort_items lib v nil h = refl
stable_items-sort_items lib v (cons x xs) h =
    stable_items-insert_item lib v x (sort_items lib xs) (cc)
      (stable_items-sort_items lib v xs (cc))

module _ (lib : Runtime) where
  -- No item is before the one on its left.
  abbrev Follows : Json → Items → Type 0
  Follows x nil = Unit
  Follows x (cons y ys) = text_lt (lib.canonical_json y) (lib.canonical_json x) ≡ false

  abbrev IsSorted : Items → Type 0
  IsSorted nil = Unit
  IsSorted (cons x xs) = Follows x xs × IsSorted xs

  Follows-insert_item :
      (y x : Json) (ys : Items)
      → text_lt (lib.canonical_json y) (lib.canonical_json x) ≡ true
      → Follows y ys
      → Follows y (insert_item lib x ys)
  unfolding insert_item
  Follows-insert_item y x nil b h =
      text_lt-asymmetric (lib.canonical_json y) (lib.canonical_json x) b
  Follows-insert_item y x (cons z zs) b h =
      elim (Bool-cases (text_lt (lib.canonical_json z) (lib.canonical_json x))) [
        | inl e ↦ rw (e) h
        | inr e ↦ rw (e) (text_lt-asymmetric (lib.canonical_json y) (lib.canonical_json x) b)
      ]

  insert_item-IsSorted : (x : Json) (xs : Items) → IsSorted xs → IsSorted (insert_item lib x xs)
  unfolding insert_item
  insert_item-IsSorted x nil h = (tt, tt)
  insert_item-IsSorted x (cons y ys) h =
      elim (Bool-cases (text_lt (lib.canonical_json y) (lib.canonical_json x))) [
        | inl e ↦ rw (e) (Follows-insert_item y x ys e h.0, insert_item-IsSorted x ys h.1)
        | inr e ↦ rw (e) (e, h)
      ]

  sort_items-IsSorted : (xs : Items) → IsSorted (sort_items lib xs)
  unfolding sort_items
  sort_items-IsSorted nil = tt
  sort_items-IsSorted (cons x xs) =
      insert_item-IsSorted x (sort_items lib xs) (sort_items-IsSorted xs)

  insert_item-first : (x : Json) (xs : Items) → Follows x xs → insert_item lib x xs ≡ cons x xs
  unfolding insert_item
  insert_item-first x nil h = refl
  insert_item-first x (cons y ys) h = rw (h) refl

  sort_items-eq : (xs : Items) → IsSorted xs → sort_items lib xs ≡ xs
  unfolding sort_items
  sort_items-eq nil h = refl
  sort_items-eq (cons x xs) h = rw (sort_items-eq xs h.1) (insert_item-first x xs h.0)

  sorted_list-sorted_list : (j : Json) → sorted_list lib (sorted_list lib j) ≡ sorted_list lib j
  sorted_list-sorted_list (list xs) =
      ap list (sort_items-eq (sort_items lib xs) (sort_items-IsSorted xs))
  sorted_list-sorted_list null = refl
  sorted_list-sorted_list (bool b) = refl
  sorted_list-sorted_list (int n) = refl
  sorted_list-sorted_list (negative n) = refl
  sorted_list-sorted_list (real s) = refl
  sorted_list-sorted_list (text s) = refl
  sorted_list-sorted_list (object f) = refl

  stable-stable : (v : List String) (j : Json) → stable v (stable v j) ≡ stable v j
  stable-stable [] j = refl
  stable-stable (n ∷ ns) (list xs) = ap list (stable_items-stable_items (n ∷ ns) xs)
  stable-stable (n ∷ ns) (object f) = ap object (without-without (n ∷ ns) f)
  stable-stable (n ∷ ns) null = refl
  stable-stable (n ∷ ns) (bool b) = refl
  stable-stable (n ∷ ns) (int m) = refl
  stable-stable (n ∷ ns) (negative m) = refl
  stable-stable (n ∷ ns) (real s) = refl
  stable-stable (n ∷ ns) (text s) = refl

  -- Sorting keeps a section free of its volatile fields.
  stable-sorted_list :
      (v : List String) (j : Json)
      → stable v (sorted_list lib (stable v j)) ≡ sorted_list lib (stable v j)
  stable-sorted_list [] j = refl
  stable-sorted_list (n ∷ ns) (list xs) = ap list (
      stable_items-sort_items lib (n ∷ ns) (stable_items (n ∷ ns) xs)
        (stable_items-stable_items (n ∷ ns) xs))
  stable-sorted_list (n ∷ ns) (object f) = ap object (without-without (n ∷ ns) f)
  stable-sorted_list (n ∷ ns) null = refl
  stable-sorted_list (n ∷ ns) (bool b) = refl
  stable-sorted_list (n ∷ ns) (int m) = refl
  stable-sorted_list (n ∷ ns) (negative m) = refl
  stable-sorted_list (n ∷ ns) (real s) = refl
  stable-sorted_list (n ∷ ns) (text s) = refl

  pub normal_section-again :
      (name : String) (j : Json)
      → normal_section lib name (normal_section lib name j) ≡ normal_section lib name j
  unfolding normal_section
  normal_section-again name j = elim (Bool-cases (is_collection_section name)) [
    | inl h ↦
        rw
          (
            h,
            stable-sorted_list (volatile_fields name) j,
            sorted_list-sorted_list (stable (volatile_fields name) j),
          )
          refl
    | inr h ↦ rw (h) (stable-stable (volatile_fields name) j)
  ]

  pub normal_fields-again :
      (f : Fields) → normal_fields lib (normal_fields lib f) ≡ normal_fields lib f
  unfolding normal_fields
  normal_fields-again end = refl
  normal_fields-again (field k v r) = elim (Bool-cases (str_eq k "processes")) [
    | inl h ↦ rw (h) (normal_fields-again r)
    | inr h ↦ rw (h, h, normal_section-again k v, normal_fields-again r) refl
  ]

  -- Normalizing a normalized snapshot gives it back, item for item and in the same order, and its
  -- hash is that of the snapshot that it came from.
  pub normalize_snapshot-again :
      (s : Json) {n : Fields}
      → normalize_snapshot lib s ≡ ok n
      → (normalize_snapshot lib (object n) ≡ ok n)
        × (snapshot_hash lib (object n) ≡ snapshot_hash lib s)
        × (snapshot_hash lib s ≡ ok (digest lib (object n)))
  unfolding normalize_snapshot snapshot_hash
  normalize_snapshot-again (object f) e = ground (arith, normal_fields-again f)
  normalize_snapshot-again null e = cc
  normalize_snapshot-again (bool b) e = cc
  normalize_snapshot-again (int n) e = cc
  normalize_snapshot-again (negative n) e = cc
  normalize_snapshot-again (real s) e = cc
  normalize_snapshot-again (text s) e = cc
  normalize_snapshot-again (list s) e = cc
