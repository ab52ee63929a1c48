-- ===== src/Storage/Results/Pruning/Sublists.antt =====
-- Searches in the rows that a deletion leaves, and what holds of the rows that a query selects.
use os_scanner.Prelude.{
  ℕ, zero, suc, String, ◌≡◌, refl, Bool, true, false, not, none, List, [], ◌∷◌, ◌++◌, str_eq, arith,
  select, any, find, All, Bool-cases, inl, inr,
}
use os_scanner.Storage.Scans.Jobs.{order_by, insert_row}
use os_scanner.Storage.Results.Pruning.{drop, unique}

module _ {ℓ} {A : Type ℓ} where
  -- A search is not disturbed by the removal of rows that it does not find.
  pub find-select :
      (q keep : A → Bool) (xs : List A)
      → ((x : A) → q x ≡ true → keep x ≡ true)
      → find q (select keep xs) ≡ find q xs
  unfolding find select
  find-select q keep [] h = refl
  find-select q keep (x ∷ xs) h = ground (arith, h x, find-select q keep xs h)

  pub find-select-none :
      (q keep : A → Bool) (xs : List A)
      → ((x : A) → q x ≡ true → keep x ≡ false)
      → find q (select keep xs) ≡ none
  unfolding find select
  find-select-none q keep [] h = refl
  find-select-none q keep (x ∷ xs) h = ground (arith, h x, find-select-none q keep xs h)

  pub any-select :
      (q keep : A → Bool) (xs : List A)
      → ((x : A) → q x ≡ true → keep x ≡ true)
      → any q xs ≡ true
      → any q (select keep xs) ≡ true
  unfolding any select
  any-select q keep [] h e = e
  any-select q keep (x ∷ xs) h e = ground (arith, h x, any-select q keep xs h)

  module _ {κ} (P : A → Type κ) where
    All-insert_row :
        (before : A → A → Bool) (x : A) (xs : List A)
        → P x
        → All P xs
        → All P (insert_row before x xs)
    unfolding insert_row
    All-insert_row before x [] px h = (px, tt)
    All-insert_row before x (y ∷ ys) px h = elim (Bool-cases (before y x)) [
      | inl yes_ ↦ rw yes_ (h.0, All-insert_row before x ys px h.1)
      | inr no_ ↦ rw no_ (px, h)
    ]

    pub All-order_by : (before : A → A → Bool) (xs : List A) → All P xs → All P (order_by before xs)
    unfolding order_by
    All-order_by before [] h = tt
    All-order_by before (x ∷ xs) h =
        All-insert_row before x (order_by before xs) h.0 (All-order_by before xs h.1)

    pub All-drop : (n : ℕ) (xs : List A) → All P xs → All P (drop n xs)
    unfolding drop
    All-drop zero xs h = h
    All-drop (suc n) [] h = tt
    All-drop (suc n) (x ∷ xs) h = All-drop n xs h.1

    pub All-append : (xs ys : List A) → All P xs → All P ys → All P (xs ++ ys)
    All-append [] ys h k = k
    All-append (x ∷ xs) ys h k = (h.0, All-append xs ys h.1 k)

    pub All-some_of : (keep : A → Bool) (xs : List A) → All P xs → All P (select keep xs)
    unfolding select
    All-some_of keep [] h = tt
    All-some_of keep (x ∷ xs) h = elim (Bool-cases (keep x)) [
      | inl hit ↦ rw hit (h.0, All-some_of keep xs h.1)
      | inr miss ↦ rw miss (All-some_of keep xs h.1)
    ]

pub All-unique {κ} : (P : String → Type κ) (xs : List String) → All P xs → All P (unique xs)
unfolding unique
All-unique P [] h = tt
All-unique P (x ∷ xs) h =
    (h.0, All-some_of P (λ y. not (str_eq x y)) (unique xs) (All-unique P xs h.1))
