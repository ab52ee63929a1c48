-- ===== src/Cloud/Dict.antt =====
-- Python's dict as the list of its items in insertion order: an assignment to a known key keeps the
-- key's place, and one to a new key goes to the end.
use os_scanner.Prelude.{
  ◌≡◌, Bool, true, false, Option, none, some, List, [], ◌∷◌, arith, if◌then◌else◌, String, str_eq,
  str_eq_refl, eq_iff, String, str_eq, str_eq_refl, eq_iff,
}

module _ {ℓ κ} {K : Type ℓ} {V : Type κ} (eq : K → K → Bool) where
  -- d.get(key)
  unfoldable pub at_key : K → List (K × V) → Option V
  at_key k [] = none
  at_key k ((key, value) ∷ items) = if eq key k then some value else at_key k items

  -- d[key] = value
  unfoldable pub put : K → V → List (K × V) → List (K × V)
  put k v [] = (k, v) ∷ []
  put k v ((key, value) ∷ items) =
      let others = put k v items in if eq key k then (key, v) ∷ items else (key, value) ∷ others

  pub at_key-put_same :
      (k : K) (v : V) (items : List (K × V)) → eq k k ≡ true → at_key k (put k v items) ≡ some v
  unfolding at_key put
  at_key-put_same k v [] h = ground (arith, h)
  at_key-put_same k v ((key, value) ∷ items) h = ground (arith, h, at_key-put_same k v items h)

  -- Another key keeps its value, where `eq` decides equality.
  pub at_key-put_other :
      (k l : K) (v : V) (items : List (K × V))
      → eq k k ≡ true
      → ((x : K) → eq x k ≡ true → eq x l ≡ false)
      → at_key l (put k v items) ≡ at_key l items
  unfolding at_key put
  at_key-put_other k l v [] r h = ground (arith, h k r)
  at_key-put_other k l v ((key, value) ∷ items) r h =
      ground (arith, h key, at_key-put_other k l v items r h)

pub at_key-put_other_text {ℓ} :
    {V : Type ℓ} (k l : String) (v : V) (items : List (String × V))
    → str_eq k l ≡ false
    → at_key str_eq l (put str_eq k v items) ≡ at_key str_eq l items
at_key-put_other_text k l v items h =
    at_key-put_other str_eq k l v items (str_eq_refl k)
      (λ x same. ground (arith, eq_iff x k, eq_iff x l, eq_iff k l, h))

pub at_key-put_same_text {ℓ} :
    {V : Type ℓ} (k : String) (v : V) (items : List (String × V))
    → at_key str_eq k (put str_eq k v items) ≡ some v
at_key-put_same_text k v items = at_key-put_same str_eq k v items (str_eq_refl k)
