-- ===== src/Storage/Snapshots/Listing.antt =====
-- Which sections `compare_snapshots` lists.
use os_scanner.Prelude.{
  String, ◌≡◌, refl, Bool, true, false, not, ◌&&◌, ◌||◌, Option, none, some, List, [], ◌∷◌, ◌++◌,
  ap, arith, Bool-cases, inl, inr, str_eq, eq_iff, select, any, Option-cases,
}
use os_scanner.Json.{Json, null, Fields, end, field, lookup, get, same_json}
use os_scanner.Storage.Runtime.{Runtime}
use os_scanner.Storage.Snapshots.{among}
use os_scanner.Storage.Snapshots.Changes.{
  SectionChange, keys, has, insert_name, sort_names, sections_of, section_change, is_unchanged,
  changes_at, compare_snapshots,
}

pub among-keys : (name : String) (f : Fields) → among name (keys f) ≡ has name f
unfolding among any keys has lookup
among-keys name end = refl
among-keys name (field k v r) = ground (arith, among-keys name r)

pub among-append :
    (name : String) (xs ys : List String) → among name (xs ++ ys) ≡ (among name xs || among name ys)
unfolding among any
among-append name [] ys = refl
among-append name (x ∷ xs) ys = ground (arith, among-append name xs ys)

pub among-insert_name :
    (name x : String) (xs : List String)
    → among name (insert_name x xs) ≡ (str_eq x name || among name xs)
unfolding among any insert_name
among-insert_name name x [] = refl
among-insert_name name x (y ∷ ys) = ground (arith, among-insert_name name x ys)

pub among-sort_names :
    (name : String) (xs : List String) → among name (sort_names xs) ≡ among name xs
unfolding among any sort_names
among-sort_names name [] = refl
among-sort_names name (x ∷ xs) =
    ground (arith, among-insert_name name x (sort_names xs), among-sort_names name xs)

-- A test of a name that is in the list is the test of that name.
pub among-select :
    (p : String → Bool) (name : String) (xs : List String)
    → among name (select p xs) ≡ (among name xs && p name)
unfolding among any select
among-select p name [] = refl
among-select p name (x ∷ xs) = elim (Bool-cases (str_eq x name)) [
  | inl e ↦
      let same : x ≡ name = (eq_iff x name).0 e in ground (arith, among-select p name xs, ap p same)
  | inr e ↦ ground (arith, among-select p name xs)
]

pub among-sections_of :
    (name : String) (before after : Fields)
    → among name (sections_of before after) ≡ (has name before || has name after)
unfolding sections_of
among-sections_of name before after = ground (
  arith,
  among-sort_names name (keys before ++ select (λ (k : String). not (has k before)) (keys after)),
  among-append name (keys before) (select (λ (k : String). not (has k before)) (keys after)),
  among-select (λ (k : String). not (has k before)) name (keys after),
  among-keys name before,
  among-keys name after,
)

and-false : (b : Bool) → (b && false) ≡ false
and-false true = refl
and-false false = refl

and-true : (b : Bool) → (b && true) ≡ b
and-true true = refl
and-true false = refl

module _ (lib : Runtime) (same_number : Json → Json → Bool) where
  -- A section is among the changes.
  abbrev pub is_listed : String → List SectionChange → Bool
  is_listed name changes = any (λ (c : SectionChange). str_eq c.section name) changes

  -- What a change is: the section is in one of the snapshots only, or its values differ.
  abbrev pub differs : Option Json → Option Json → Bool
  differs none none = false
  differs none (some new) = true
  differs (some old) none = true
  differs (some old) (some new) = not (same_json same_number old new)

  is_listed-changes_at :
      (name : String) (sections : List String) (before after : Fields)
      → is_listed name (changes_at lib same_number sections before after)
        ≡ (among name sections && not (is_unchanged lib same_number name before after))
  unfolding among any changes_at section_change
  is_listed-changes_at name [] before after = refl
  is_listed-changes_at name (s ∷ ss) before after = elim (Bool-cases (str_eq s name)) [
    | inl e ↦
        let same : s ≡ name = (eq_iff s name).0 e in
        ground (
          arith,
          is_listed-changes_at name ss before after,
          ap (λ (x : String). is_unchanged lib same_number x before after) same,
        )
    | inr e ↦ ground (arith, is_listed-changes_at name ss before after)
  ]

  is_unchanged-differs :
      (name : String) (before after : Fields)
      → ((has name before || has name after)
          && not (is_unchanged lib same_number name before after))
        ≡ differs (lookup name before) (lookup name after)
  unfolding is_unchanged has get
  is_unchanged-differs name before after = elim (Option-cases (lookup name before)) [
    | inl e ↦ elim (Option-cases (lookup name after)) [
      | inl f ↦ rw (e, f) (ground arith)
      | inr (w, f) ↦ rw (e, f) (ground (arith, and-false (same_json same_number null w)))
    ]
    | inr (v, e) ↦ elim (Option-cases (lookup name after)) [
      | inl f ↦ rw (e, f) (ground (arith, and-false (same_json same_number v null)))
      | inr (w, f) ↦ rw (e, f) (ground (arith, and-true (same_json same_number v w)))
    ]
  ]

  -- A comparison lists a section exactly when it is in one of the two snapshots only, or is in both
  -- with values that Python's `==` tells apart.
  pub compare_snapshots-is_listed :
      (name : String) (before after : Fields)
      → is_listed name (compare_snapshots lib same_number (some before) after)
        ≡ differs (lookup name before) (lookup name after)
  unfolding compare_snapshots
  compare_snapshots-is_listed name before after = ground (
    arith,
    is_listed-changes_at name (sections_of before after) before after,
    among-sections_of name before after,
    is_unchanged-differs name before after,
  )
