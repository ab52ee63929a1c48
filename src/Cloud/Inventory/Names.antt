-- ===== src/Cloud/Inventory/Names.antt =====
-- The names in a delta that the endpoint computes, against the checks of the service.
use os_scanner.Prelude.{
  ◌+◌, String, ◌≡◌, refl, Bool, true, false, not, ◌&&◌, some, List, [], ◌∷◌, ◌++◌, arith, subst,
  ◌∙◌, str_eq, eq_iff, str_eq_refl, Bool-cases, Option-cases, inl, inr, any, select, length, map,
  All,
}
use os_scanner.Json.{Json, Fields, field, lookup}
use os_scanner.Storage.Runtime.{Runtime}
use os_scanner.Storage.Snapshots.{among}
use os_scanner.Storage.Snapshots.Changes.{
  SectionChange, has, keys, insert_name, sort_names, sections_of, is_unchanged, section_change,
  changes_at, compare_snapshots,
}
use os_scanner.Storage.Snapshots.Listing.{
  is_listed, among-keys, among-append, among-select, among-insert_name, among-sort_names,
}
use os_scanner.Storage.Results.Envelope.{delta_sections, removed_sections, texts}
use os_scanner.Cloud.Inventory.Delta.{among-removed_sections}
use os_scanner.Cloud.Inventory.Checks.{
  all_different, overlaps, item_count, field_count, names_in, names_valid, valid_name,
}

all_different-insert_name :
    (x : String) (xs : List String)
    → all_different (insert_name x xs) ≡ (not (among x xs) && all_different xs)
unfolding all_different insert_name among any
all_different-insert_name x [] = refl
all_different-insert_name x (y ∷ ys) = elim (Bool-cases (str_eq x y)) [
  | inl e ↦
      let same : x ≡ y = (eq_iff x y).0 e in
      ground
        (arith, all_different-insert_name x ys, among-insert_name y x ys, eq_iff y x, eq_iff x y)
  | inr e ↦
      ground
        (arith, all_different-insert_name x ys, among-insert_name y x ys, eq_iff y x, eq_iff x y)
]

all_different-sort_names : (xs : List String) → all_different (sort_names xs) ≡ all_different xs
unfolding all_different sort_names
all_different-sort_names [] = refl
all_different-sort_names (x ∷ xs) = ground (
  arith,
  all_different-insert_name x (sort_names xs),
  all_different-sort_names xs,
  among-sort_names x xs,
)

all_different-select :
    (p : String → Bool) (xs : List String)
    → all_different xs ≡ true
    → all_different (select p xs) ≡ true
unfolding all_different select
all_different-select p [] h = refl
all_different-select p (x ∷ xs) h =
    ground (arith, all_different-select p xs (ground arith), among-select p x xs)

all_different-append :
    (xs ys : List String)
    → all_different xs ≡ true
    → all_different ys ≡ true
    → ((n : String) → among n xs ≡ true → among n ys ≡ false)
    → all_different (xs ++ ys) ≡ true
unfolding all_different among any
all_different-append [] ys g h apart = h
all_different-append (x ∷ xs) ys g h apart = ground (
  arith,
  all_different-append xs ys (ground arith) h (λ n m. apart n (ground (arith, eq_iff x n))),
  among-append x xs ys,
  apart x (ground (arith, str_eq_refl x)),
)

-- The union of the keys of two dictionaries has no key twice.
all_different-sections_of :
    (before after : Fields)
    → all_different (keys before) ≡ true
    → all_different (keys after) ≡ true
    → all_different (sections_of before after) ≡ true
unfolding sections_of
all_different-sections_of before after b a =
    let fresh : List String = select (λ (k : String). not (has k before)) (keys after) in
    all_different-sort_names (keys before ++ fresh)
    ∙ all_different-append (keys before) fresh b
        (all_different-select (λ (k : String). not (has k before)) (keys after) a)
        (λ n m. ground (
          arith,
          among-select (λ (k : String). not (has k before)) n (keys after),
          among-keys n before,
        ))

-- [item["section"] for item in changes]
abbrev pub changed_names : List SectionChange → List String
changed_names changes = map (λ (c : SectionChange). c.section) changes

module _ (lib : Runtime) (same_number : Json → Json → Bool) where
  pub among-changed_names :
      (name : String) (cs : List SectionChange)
      → among name (changed_names cs) ≡ is_listed lib same_number name cs
  unfolding among any
  among-changed_names name [] = refl
  among-changed_names name (c ∷ cs) = ground (arith, among-changed_names name cs)

  changed_names-changes_at :
      (ss : List String) (before after : Fields)
      → changed_names (changes_at lib same_number ss before after)
        ≡ select (λ (s : String). not (is_unchanged lib same_number s before after)) ss
  unfolding changes_at select section_change
  changed_names-changes_at [] before after = refl
  changed_names-changes_at (s ∷ ss) before after =
      ground (arith, changed_names-changes_at ss before after)

  pub all_different-changed_names :
      (before after : Fields)
      → all_different (keys before) ≡ true
      → all_different (keys after) ≡ true
      → all_different (changed_names (compare_snapshots lib same_number (some before) after)) ≡ true
  unfolding compare_snapshots
  all_different-changed_names before after b a =
      rw (changed_names-changes_at (sections_of before after) before after) (
        all_different-select (λ (s : String). not (is_unchanged lib same_number s before after))
          (sections_of before after) (all_different-sections_of before after b a))

pub all_different-removed_sections :
    (names : List String) (after : Fields)
    → all_different names ≡ true
    → all_different (removed_sections names after) ≡ true
unfolding all_different removed_sections
all_different-removed_sections [] after h = refl
all_different-removed_sections (k ∷ ks) after h = ground (
  arith,
  all_different-removed_sections ks after (ground arith),
  among-removed_sections k ks after,
)

-- A section that a delta replaces is in the new snapshot, so it is not one that it removes.
has-delta_sections :
    (name : String) (names : List String) (after : Fields)
    → has name (delta_sections names after) ≡ true
    → has name after ≡ true
unfolding has delta_sections lookup
has-delta_sections name [] after h = cc
has-delta_sections name (k ∷ ks) after h = elim (Option-cases (lookup k after)) [
  | inl e ↦ has-delta_sections name ks after (rw (e, delta_sections) at h)
  | inr (v, e) ↦
      let h1 : has name (field k v (delta_sections ks after)) ≡ true =
        rw (e, delta_sections) at h in
      elim (Bool-cases (str_eq k name)) [
        | inl g ↦
            let same : k ≡ name = (eq_iff k name).0 g in
            subst (λ n. has n after ≡ true) same (rw (e) refl)
        | inr g ↦ has-delta_sections name ks after (ground arith)
      ]
]

pub overlaps-removed_sections :
    (names rest : List String) (after : Fields)
    → overlaps (delta_sections names after) (removed_sections rest after) ≡ false
unfolding overlaps any removed_sections
overlaps-removed_sections names [] after = refl
overlaps-removed_sections names (k ∷ ks) after = elim (Bool-cases (has k after)) [
  | inl h ↦ rw (h) (overlaps-removed_sections names ks after)
  | inr h ↦ elim (Bool-cases (has k (delta_sections names after))) [
    | inl g ↦ absurd (ground (arith, has-delta_sections k names after g))
    | inr g ↦ rw (h, g) (overlaps-removed_sections names ks after)
  ]
]

pub field_count-delta_sections :
    (names : List String) (after : Fields)
    → field_count (delta_sections names after) + length (removed_sections names after)
      ≡ length names
unfolding field_count delta_sections removed_sections has
field_count-delta_sections [] after = omega arith
field_count-delta_sections (k ∷ ks) after = elim (Option-cases (lookup k after)) [
  | inl e ↦ rw (e, delta_sections) (ground (arith, field_count-delta_sections ks after))
  | inr (v, e) ↦ rw (e, delta_sections) (ground (arith, field_count-delta_sections ks after))
]

pub item_count-texts : (names : List String) → item_count (texts names) ≡ length names
unfolding item_count texts
item_count-texts [] = refl
item_count-texts (n ∷ ns) = ground (arith, item_count-texts ns)

abbrev pub IsValidName : String → Type 0
IsValidName n = valid_name n ≡ true

pub names_in-texts :
    (names : List String) → All IsValidName names → names_in (texts names) ≡ some names
unfolding names_in texts
names_in-texts [] h = refl
names_in-texts (n ∷ ns) h = rw (names_in-texts ns h.1, h.0) refl

pub removed_sections-All :
    (names : List String) (after : Fields)
    → All IsValidName names
    → All IsValidName (removed_sections names after)
unfolding removed_sections
removed_sections-All [] after h = tt
removed_sections-All (k ∷ ks) after h = elim (Bool-cases (has k after)) [
  | inl e ↦ rw (e) (removed_sections-All ks after h.1)
  | inr e ↦ rw (e) (h.0, removed_sections-All ks after h.1)
]

pub names_valid-delta_sections :
    (names : List String) (after : Fields)
    → All IsValidName names
    → names_valid (delta_sections names after) ≡ true
unfolding names_valid delta_sections
names_valid-delta_sections [] after h = refl
names_valid-delta_sections (k ∷ ks) after h = elim (Option-cases (lookup k after)) [
  | inl e ↦ rw (e, delta_sections) (names_valid-delta_sections ks after h.1)
  | inr (v, e) ↦ rw (e, delta_sections) (rw (h.0, names_valid-delta_sections ks after h.1) refl)
]
