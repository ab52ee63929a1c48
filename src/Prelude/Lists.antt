-- ===== src/Prelude/Lists.antt =====
-- Lists measured by native numbers, under the library's names; predicates on all entries.
use Prim.Native.Nat.{ℕ, zero, suc, ◌+◌, ◌≤◌}
use mathlib.Core.Path.{◌≡◌, subst}
use mathlib.Core.Bool.{Bool, true, false, ◌||◌}
use mathlib.Core.List.{List, [], ◌∷◌, ◌++◌}
use mathlib.Core.Option.{Option, none, some}
use native.Mathlib.Omega.{arith}
use os_scanner.Prelude.Tests.{if◌then◌else◌, leb, Bool-cases}
use mathlib.Core.Logic.{inl, inr}

module _ {ℓ} {A : Type ℓ} where
  abbrev pub length : List A → ℕ
  length [] = 0
  length (x ∷ xs) = suc (length xs)

  abbrev pub take : ℕ → List A → List A
  take zero xs = []
  take (suc n) [] = []
  take (suc n) (x ∷ xs) = x ∷ take n xs

  -- The entries that pass a Boolean test, in order.
  unfoldable pub select : (A → Bool) → List A → List A
  select p [] = []
  select p (x ∷ xs) = let rest = select p xs in if p x then x ∷ rest else rest

  unfoldable pub find : (A → Bool) → List A → Option A
  find p [] = none
  find p (x ∷ xs) = if p x then some x else find p xs

  unfoldable pub any : (A → Bool) → List A → Bool
  any p [] = false
  any p (x ∷ xs) = p x || any p xs

  unfoldable pub count : (A → Bool) → List A → ℕ
  count p [] = 0
  count p (x ∷ xs) = if p x then suc (count p xs) else count p xs

  -- UPDATE … SET f WHERE p.
  unfoldable pub update : (A → Bool) → (A → A) → List A → List A
  update p f [] = []
  update p f (x ∷ xs) = (if p x then f x else x) ∷ update p f xs

  pub length-append : (xs ys : List A) → length (xs ++ ys) ≡ length xs + length ys
  length-append [] ys = omega arith
  length-append (x ∷ xs) ys = omega (arith, length-append xs ys)

  pub length-take-le : (n : ℕ) (xs : List A) → length (take n xs) ≤ n
  length-take-le zero xs = omega arith
  length-take-le (suc n) [] = omega arith
  length-take-le (suc n) (x ∷ xs) = omega (arith, length-take-le n xs)

  -- The last entry that passes a test: `ORDER BY id DESC LIMIT 1` on a table in the order of ids.
  unfoldable pub find_last : (A → Bool) → List A → Option A
  find_last p [] = none
  find_last p (x ∷ xs) =
      let later = find_last p xs in
      elim later [ some y ↦ some y | none ↦ if p x then some x else none ]

  -- A stable insertion sort by a number: `ORDER BY key, id` on a table in the order of ids.
  unfoldable pub insert_by : (A → ℕ) → A → List A → List A
  insert_by key x [] = x ∷ []
  insert_by key x (y ∷ ys) = if leb (key x) (key y) then x ∷ y ∷ ys else y ∷ insert_by key x ys

  unfoldable pub sort_by : (A → ℕ) → List A → List A
  unfolding insert_by
  sort_by key [] = []
  sort_by key (x ∷ xs) = insert_by key x (sort_by key xs)

-- A predicate by recursion, which the tactics read and build.
abbrev pub All {ℓ κ} : {A : Type ℓ} (holds : A → Type κ) → List A → Type κ
All holds (first ∷ others) = holds first × All holds others
All holds [] = Unit

module _ {ℓ κ} {A : Type ℓ} (P : A → Type κ) where
  pub All-take : (n : ℕ) (xs : List A) → All P xs → All P (take n xs)
  All-take zero xs h = tt
  All-take (suc n) [] h = tt
  All-take (suc n) (x ∷ xs) h = (h.0, All-take n xs h.1)

  pub All-insert_by :
      (key : A → ℕ) (x : A) (xs : List A) → P x → All P xs → All P (insert_by key x xs)
  unfolding insert_by
  All-insert_by key x [] px h = (px, tt)
  All-insert_by key x (y ∷ ys) px h = ground (arith, All-insert_by key x ys px h.1)

  pub All-sort_by : (key : A → ℕ) (xs : List A) → All P xs → All P (sort_by key xs)
  unfolding sort_by
  All-sort_by key [] h = tt
  All-sort_by key (x ∷ xs) h = All-insert_by key x (sort_by key xs) h.0 (All-sort_by key xs h.1)

-- The selected entries pass the test, and keep what held of all.
pub All-select {ℓ κ μ} :
    {A : Type ℓ} (Q : A → Type μ) (P : A → Type κ) (p : A → Bool) (xs : List A)
    → ((x : A) → Q x → p x ≡ true → P x)
    → All Q xs
    → All P (select p xs)
unfolding select
All-select Q P p [] f h = tt
All-select Q P p (x ∷ xs) f h = elim (Bool-cases (p x)) [
  | inl hit ↦ rw hit (f x h.0 hit, All-select Q P p xs f h.1)
  | inr miss ↦ rw miss (All-select Q P p xs f h.1)
]

-- Two facts about all entries are one.
pub All-and {ℓ κ μ} :
    {A : Type ℓ} (P : A → Type κ) (Q : A → Type μ) (xs : List A)
    → All P xs
    → All Q xs
    → All (λ x. P x × Q x) xs
All-and P Q [] g h = tt
All-and P Q (x ∷ xs) g h = ((g.0, h.0), All-and P Q xs g.1 h.1)

-- What holds of all entries holds of the one that a search finds, and it passes the test.
pub find-All {ℓ κ} :
    {A : Type ℓ} (P : A → Type κ) (p : A → Bool) (xs : List A) (a : A)
    → All P xs
    → find p xs ≡ some a
    → P a × (p a ≡ true)
unfolding find
find-All P p [] a h e = absurd (cc)
find-All P p (x ∷ xs) a h e = elim (Bool-cases (p x)) [
  | inl hit ↦
      let same : x ≡ a = ground (arith, hit) in subst (λ y. P y × (p y ≡ true)) same (h.0, hit)
  | inr miss ↦ find-All P p xs a h.1 (ground (arith, miss))
]

pub All-imp {ℓ κ μ} :
    {A : Type ℓ} (P : A → Type κ) (Q : A → Type μ) (xs : List A)
    → ((x : A) → P x → Q x)
    → All P xs
    → All Q xs
All-imp P Q [] f h = tt
All-imp P Q (x ∷ xs) f h = (f x h.0, All-imp P Q xs f h.1)

-- An entry that passes the test, with what is known of it.
pub any-All {ℓ κ} :
    {A : Type ℓ} (P : A → Type κ) (p : A → Bool) (xs : List A)
    → All P xs
    → any p xs ≡ true
    → (a : A) × P a × (p a ≡ true)
unfolding any
any-All P p [] h e = absurd (cc)
any-All P p (x ∷ xs) h e = elim (Bool-cases (p x)) [
  | inl hit ↦ (x, h.0, hit)
  | inr miss ↦ any-All P p xs h.1 (ground (arith, miss))
]
