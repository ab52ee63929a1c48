-- ===== src/Cloud/Filed.antt =====
-- A table of the repository, as a dict from ids: each entry is filed once, under its own id.
use os_scanner.Prelude.{
  String, ◌≡◌, false, some, List, [], ◌∷◌, arith, str_eq, eq_iff, map, All, All-and, All-imp,
  Bool-cases, inl, inr, subst, sym, ℕ, leb, insert_by, sort_by, All-insert_by, All-sort_by,
}
use os_scanner.Cloud.Dict.{at_key, put}

module _ {A : Type 0} (id_of : A → String) where
  -- No entry has the key.
  abbrev pub Apart : String → List (String × A) → Type 0
  Apart key table = All (λ item. str_eq key item.0 ≡ false) table

  abbrev pub IsFiled : List (String × A) → Type 0
  IsFiled [] = Unit {0}
  IsFiled ((key, t) ∷ rest) = (id_of t ≡ key) × Apart key rest × IsFiled rest

  put-Apart :
      (k key : String) (t : A) (table : List (String × A))
      → str_eq k key ≡ false
      → Apart k table
      → Apart k (put str_eq key t table)
  unfolding put
  put-Apart k key t [] differ h = (differ, tt)
  put-Apart k key t ((first, u) ∷ rest) differ h = elim (Bool-cases (str_eq first key)) [
    | inl hit ↦ rw hit h
    | inr miss ↦ rw miss (h.0, put-Apart k key t rest differ h.1)
  ]

  pub put-IsFiled :
      (key : String) (t : A) (table : List (String × A))
      → id_of t ≡ key
      → IsFiled table
      → IsFiled (put str_eq key t table)
  unfolding put
  put-IsFiled key t [] own h = (own, tt, tt)
  put-IsFiled key t ((first, u) ∷ rest) own h = elim (Bool-cases (str_eq first key)) [
    | inl hit ↦ rw hit (ground (arith, eq_iff first key, own, hit), h.1, h.2)
    | inr miss ↦ rw miss (h.0, put-Apart first key t rest miss h.1, put-IsFiled key t rest own h.2)
  ]

  pub at_key-own :
      (id : String) (table : List (String × A)) (t : A)
      → IsFiled table
      → at_key str_eq id table ≡ some t
      → id_of t ≡ id
  unfolding at_key
  at_key-own id [] t h e = absurd (cc)
  at_key-own id ((key, u) ∷ rest) t h e = elim (Bool-cases (str_eq key id)) [
    | inl hit ↦ ground (arith, hit, h.0, eq_iff key id)
    | inr miss ↦ at_key-own id rest t h.2 (ground (arith, miss))
  ]

  -- An entry of a table is what the lookup of its own id finds.
  abbrev Found : List (String × A) → String × A → Type 0
  Found table item = at_key str_eq (id_of item.1) table ≡ some item.1

  -- The ids of the entries behind a key differ from it.
  pub Apart-own :
      (key : String) (table : List (String × A))
      → Apart key table
      → IsFiled table
      → All (λ item. str_eq key (id_of item.1) ≡ false) table
  Apart-own key [] h f = tt
  Apart-own key ((first, t) ∷ rest) h f = (ground (arith, h.0, f.0), Apart-own key rest h.1 f.2)

  IsFiled-Found : (table : List (String × A)) → IsFiled table → All (Found table) table
  unfolding at_key
  IsFiled-Found [] h = tt
  IsFiled-Found ((key, t) ∷ rest) h = (
    ground (arith, h.0, eq_iff key (id_of t)),
    All-imp _ (Found ((key, t) ∷ rest)) rest (λ x both. ground (arith, both.0, both.1))
        (All-and _ _ rest (Apart-own key rest h.1 h.2) (IsFiled-Found rest h.2)),
  )

  abbrev pub values : List (String × A) → List A
  values table = map (λ (item : String × A). item.1) table

  pub All-values :
      (P : A → Type 0) (table : List (String × A))
      → All (λ item. P item.1) table
      → All P (values table)
  All-values P [] h = tt
  All-values P (item ∷ rest) h = (h.0, All-values P rest h.1)

  -- What the values of a filed table are.
  pub IsFiled-values :
      (table : List (String × A))
      → IsFiled table
      → All (λ t. at_key str_eq (id_of t) table ≡ some t) (values table)
  IsFiled-values table h =
      All-values (λ t. at_key str_eq (id_of t) table ≡ some t) table (IsFiled-Found table h)

  -- No two of some records have the same id.
  abbrev pub AreDistinct : List A → Type 0
  AreDistinct [] = Unit {0}
  AreDistinct (t ∷ rest) = All (λ u. str_eq (id_of t) (id_of u) ≡ false) rest × AreDistinct rest

  pub IsFiled-AreDistinct : (table : List (String × A)) → IsFiled table → AreDistinct (values table)
  IsFiled-AreDistinct [] h = tt
  IsFiled-AreDistinct ((key, t) ∷ rest) h = (
    subst (λ k. All (λ u. str_eq k (id_of u) ≡ false) (values rest)) (sym h.0)
        (All-values (λ u. str_eq key (id_of u) ≡ false) rest (Apart-own key rest h.1 h.2)),
    IsFiled-AreDistinct rest h.2,
  )

  insert_by-AreDistinct :
      (key : A → ℕ) (t : A) (rest : List A)
      → AreDistinct (t ∷ rest)
      → AreDistinct (insert_by key t rest)
  unfolding insert_by
  insert_by-AreDistinct key t [] h = h
  insert_by-AreDistinct key t (u ∷ rest) h = elim (Bool-cases (leb (key t) (key u))) [
    | inl first ↦ rw first h
    | inr later ↦ rw later (
      All-insert_by (λ v. str_eq (id_of u) (id_of v) ≡ false) key t rest
          (ground (arith, eq_iff (id_of t) (id_of u), eq_iff (id_of u) (id_of t), (h.0).0)) (h.1).0,
      insert_by-AreDistinct key t rest ((h.0).1, (h.1).1),
    )
  ]

  pub sort_by-AreDistinct :
      (key : A → ℕ) (ts : List A) → AreDistinct ts → AreDistinct (sort_by key ts)
  unfolding sort_by
  sort_by-AreDistinct key [] h = tt
  sort_by-AreDistinct key (t ∷ rest) h = insert_by-AreDistinct key t (sort_by key rest) (
    All-sort_by (λ u. str_eq (id_of t) (id_of u) ≡ false) key rest h.0,
    sort_by-AreDistinct key rest h.1,
  )
