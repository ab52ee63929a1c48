-- ===== src/Policies/Budget.antt =====
-- Evaluation with a budget of operations against evaluation without one.
use os_scanner.Prelude.{
  ℕ, zero, suc, ◌+◌, ◌≤◌, String, ◌≡◌, refl, Bool, false, List, [], ◌∷◌, ◌++◌, arith, str_eq,
  if◌then◌else◌, Result, ok, ◌>>=◌, Bool-cases, inl, inr,
}
use os_scanner.Json.{
  Json, null, bool, int, negative, real, text, list, object, Items, nil, cons, Fields, end, field,
}
use os_scanner.Policies.Engine.{scalar, Step, consume, walk, walk_all, walk_at, walk_in}

-- The values at a path.
unfoldable mutual
  pub values_at : Json → List String → List Json
  values_at (object f) [] = object f ∷ []
  values_at (object f) (s ∷ path) = if str_eq s "*" then values_all f path else values_key s f path
  values_at (list xs) [] = list xs ∷ []
  values_at (list xs) (s ∷ path) = values_in xs (s ∷ path)
  values_at (text t) path = scalar (text t) path
  values_at null path = scalar null path
  values_at (bool c) path = scalar (bool c) path
  values_at (int n) path = scalar (int n) path
  values_at (negative n) path = scalar (negative n) path
  values_at (real t) path = scalar (real t) path

  pub values_all : Fields → List String → List Json
  values_all end path = []
  values_all (field k v rest) path = values_at v path ++ values_all rest path

  pub values_key : String → Fields → List String → List Json
  values_key s end path = []
  values_key s (field k v rest) path =
      if str_eq k s then values_at v path else values_key s rest path

  pub values_in : Items → List String → List Json
  values_in nil path = []
  values_in (cons x xs) path = values_at x path ++ values_in xs path

-- The operations that a walk takes.
unfoldable mutual
  pub walk_cost : Json → List String → ℕ
  walk_cost (object f) [] = 1
  walk_cost (object f) (s ∷ path) =
      suc (if str_eq s "*" then cost_all f path else cost_key s f path)
  walk_cost (list xs) [] = 1
  walk_cost (list xs) (s ∷ path) = suc (cost_in xs (s ∷ path))
  walk_cost (text t) path = 1
  walk_cost null path = 1
  walk_cost (bool c) path = 1
  walk_cost (int n) path = 1
  walk_cost (negative n) path = 1
  walk_cost (real t) path = 1

  pub cost_all : Fields → List String → ℕ
  cost_all end path = 0
  cost_all (field k v rest) path = walk_cost v path + cost_all rest path

  pub cost_key : String → Fields → List String → ℕ
  cost_key s end path = 0
  cost_key s (field k v rest) path = if str_eq k s then walk_cost v path else cost_key s rest path

  pub cost_in : Items → List String → ℕ
  cost_in nil path = 0
  cost_in (cons x xs) path = walk_cost x path + cost_in xs path

module _ (late : ℕ → Bool) (in_time : (r : ℕ) → late r ≡ false) where
  pub consume_lem : (n b : ℕ) → suc n ≤ b → (r : ℕ) × (consume late b ≡ ok r) × (b ≡ suc r)
  unfolding consume
  consume_lem n zero h = absurd (omega (arith, h))
  consume_lem n (suc r) h = (r, rw (in_time r) refl, refl)

  -- A step that gives its value and spends exactly its cost.
  abbrev pub Spends {ℓ} : {A : Type ℓ} → Result (A × ℕ) → A → ℕ → ℕ → Type ℓ
  Spends call value cost b = (r : ℕ) × (call ≡ ok (value, r)) × (b ≡ r + cost)

  after_one :
      (value : List Json) (b : ℕ) → 1 ≤ b → Spends (consume late b >>= λ r. ok (value, r)) value 1 b
  after_one value b h = let (r, e, k) = consume_lem 0 b h in (r, rw (e) refl, omega (arith, k))

  both :
      (call : Result (List Json × ℕ)) (rest : Step (List Json)) (v w : List Json) (c d b : ℕ)
      → Spends call v c b
      → ((r : ℕ) → b ≡ r + c → Spends (rest r) w d r)
      → Spends
          (call >>= λ first. rest first.1 >>= λ others. ok (first.0 ++ others.0, others.1))
          (v ++ w)
          (c + d)
          b
  both call rest v w c d b (r, e, k) next =
      let (q, f, l) = next r k in (q, rw (e, f) refl, omega (arith, k, l))

  -- One operation and then the rest.
  then_rest :
      (rest : Step (List Json)) (v : List Json) (c b : ℕ)
      → suc c ≤ b
      → ((r : ℕ) → c ≤ r → Spends (rest r) v c r)
      → Spends (consume late b >>= λ r. rest r) v (suc c) b
  then_rest rest v c b h next =
      let (r, e, k) = consume_lem c b h in
      let (q, f, l) = next r (omega (arith, h, k)) in (q, rw (e, f) refl, omega (arith, k, l))

  mutual
    unfolding walk values_at walk_cost

    pub walk_lem :
        (j : Json) (path : List String) (b : ℕ)
        → walk_cost j path ≤ b
        → Spends (walk late j path b) (values_at j path) (walk_cost j path) b
    walk_lem (object f) [] b h = after_one (object f ∷ []) b h
    walk_lem (object f) (s ∷ path) b h = elim (Bool-cases (str_eq s "*")) [
      | inl e ↦ rw (e) (
          then_rest (walk_all late f path) (values_all f path) (cost_all f path) b (rw (e) at h)
            (λ r k. walk_all_lem f path r k))
      | inr e ↦ rw (e) (
          then_rest (walk_at late s f path) (values_key s f path) (cost_key s f path) b
            (rw (e) at h) (λ r k. walk_at_lem s f path r k))
    ]
    walk_lem (list xs) [] b h = after_one (list xs ∷ []) b h
    walk_lem (list xs) (s ∷ path) b h =
        then_rest (walk_in late xs (s ∷ path)) (values_in xs (s ∷ path)) (cost_in xs (s ∷ path)) b h
          (λ r k. walk_in_lem xs (s ∷ path) r k)
    walk_lem (text t) path b h = after_one (scalar (text t) path) b h
    walk_lem null path b h = after_one (scalar null path) b h
    walk_lem (bool c) path b h = after_one (scalar (bool c) path) b h
    walk_lem (int n) path b h = after_one (scalar (int n) path) b h
    walk_lem (negative n) path b h = after_one (scalar (negative n) path) b h
    walk_lem (real t) path b h = after_one (scalar (real t) path) b h

    walk_all_lem :
        (f : Fields) (path : List String) (b : ℕ)
        → cost_all f path ≤ b
        → Spends (walk_all late f path b) (values_all f path) (cost_all f path) b
    walk_all_lem end path b h = (b, refl, omega arith)
    walk_all_lem (field k v rest) path b h =
        both (walk late v path b) (walk_all late rest path) (values_at v path)
          (values_all rest path) (walk_cost v path) (cost_all rest path) b
          (walk_lem v path b (omega (arith, h)))
          (λ r e. walk_all_lem rest path r (omega (arith, h, e)))

    walk_at_lem :
        (s : String) (f : Fields) (path : List String) (b : ℕ)
        → cost_key s f path ≤ b
        → Spends (walk_at late s f path b) (values_key s f path) (cost_key s f path) b
    walk_at_lem s end path b h = (b, refl, omega arith)
    walk_at_lem s (field k v rest) path b h = elim (Bool-cases (str_eq k s)) [
      | inl e ↦ rw (e, walk_at) (walk_lem v path b (rw (e) at h))
      | inr e ↦ rw (e, walk_at) (walk_at_lem s rest path b (rw (e) at h))
    ]

    walk_in_lem :
        (xs : Items) (path : List String) (b : ℕ)
        → cost_in xs path ≤ b
        → Spends (walk_in late xs path b) (values_in xs path) (cost_in xs path) b
    walk_in_lem nil path b h = (b, refl, omega arith)
    walk_in_lem (cons x xs) path b h =
        both (walk late x path b) (walk_in late xs path) (values_at x path) (values_in xs path)
          (walk_cost x path) (cost_in xs path) b (walk_lem x path b (omega (arith, h)))
          (λ r e. walk_in_lem xs path r (omega (arith, h, e)))
