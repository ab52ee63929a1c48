-- ===== src/Policies/Answers.antt =====
-- Steps that give an answer within a number of operations, and how they compose.
use os_scanner.Prelude.{
  ℕ, suc, ◌+◌, ◌≤◌, String, ◌≡◌, refl, Bool, true, false, List, [], ◌∷◌, arith, Result, ok, err,
  ◌>>=◌,
}
use os_scanner.Json.{Json, null, bool, int, negative, real, text, list, object}
use os_scanner.Policies.Conditions.{split_dots}
use os_scanner.Policies.Engine.{Step, consume, resolve_values, spent, any_over}
use os_scanner.Policies.Budget.{values_at, walk_cost, consume_lem, walk_lem}
use os_scanner.Policies.Meaning.{any_holding, sum_over}

module _ (late : ℕ → Bool) (in_time : (r : ℕ) → late r ≡ false) where
  -- A step that gives the answer and spends at most the cost.
  abbrev pub Answers : Result (Bool × ℕ) → Result Bool → ℕ → ℕ → Type 0
  Answers call answer most b = (r : ℕ) × (call ≡ spent late answer r) × (b ≤ r + most)

  -- The first of some conditions decides, or the others do.
  pub first_decides :
      (call : Result (Bool × ℕ)) (answer : Result Bool) (rest : Step Bool) (others : Result Bool)
      (c d b : ℕ)
      → c + d ≤ b
      → Answers call answer c b
      → ((r : ℕ) → d ≤ r → Answers (rest r) others d r)
      → Answers
          (call >>= λ hit. elim hit.0 [ true ↦ rest hit.1 | false ↦ ok (false, hit.1) ])
          (answer >>= λ hit. elim hit [ true ↦ others | false ↦ ok false ])
          (c + d)
          b
  first_decides call (err error) rest others c d b h (r, e, k) next =
      (r, rw (e) refl, omega (arith, k))
  first_decides call (ok false) rest others c d b h (r, e, k) next =
      (r, rw (e) refl, omega (arith, k))
  first_decides call (ok true) rest others c d b h (r, e, k) next =
      let (q, f, l) = next r (omega (arith, h, k)) in (q, rw (e) f, omega (arith, k, l))

  pub first_suffices :
      (call : Result (Bool × ℕ)) (answer : Result Bool) (rest : Step Bool) (others : Result Bool)
      (c d b : ℕ)
      → c + d ≤ b
      → Answers call answer c b
      → ((r : ℕ) → d ≤ r → Answers (rest r) others d r)
      → Answers
          (call >>= λ hit. elim hit.0 [ true ↦ ok (true, hit.1) | false ↦ rest hit.1 ])
          (answer >>= λ hit. elim hit [ true ↦ ok true | false ↦ others ])
          (c + d)
          b
  first_suffices call (err error) rest others c d b h (r, e, k) next =
      (r, rw (e) refl, omega (arith, k))
  first_suffices call (ok true) rest others c d b h (r, e, k) next =
      (r, rw (e) refl, omega (arith, k))
  first_suffices call (ok false) rest others c d b h (r, e, k) next =
      let (q, f, l) = next r (omega (arith, h, k)) in (q, rw (e) f, omega (arith, k, l))

  passed_over :
      (test : Json → Step Bool) (answer : Json → Result Bool) (most : Json → ℕ) (v : Json)
      (vs : List Json) (b : ℕ)
      → Answers (any_over late test vs b) (any_holding answer vs) (sum_over most vs) b
      → Answers (any_over late test vs b) (any_holding answer vs) (most v + sum_over most vs) b
  passed_over test answer most v vs b (r, e, k) = (r, e, omega (arith, k))

  -- Items that are no mappings are passed over.
  pub any_over_lem :
      (test : Json → Step Bool) (answer : Json → Result Bool) (most : Json → ℕ) (vs : List Json)
      (b : ℕ)
      → ((v : Json) (r : ℕ) → most v ≤ r → Answers (test v r) (answer v) (most v) r)
      → sum_over most vs ≤ b
      → Answers (any_over late test vs b) (any_holding answer vs) (sum_over most vs) b
  unfolding any_over any_holding sum_over
  any_over_lem test answer most [] b each h = (b, refl, omega arith)
  any_over_lem test answer most (object f ∷ vs) b each h =
      first_suffices (test (object f) b) (answer (object f)) (any_over late test vs)
        (any_holding answer vs) (most (object f)) (sum_over most vs) b h
        (each (object f) b (omega (arith, h))) (λ r k. any_over_lem test answer most vs r each k)
  any_over_lem test answer most (list xs ∷ vs) b each h =
      passed_over test answer most (list xs) vs b
        (any_over_lem test answer most vs b each (omega (arith, h)))
  any_over_lem test answer most (text s ∷ vs) b each h =
      passed_over test answer most (text s) vs b
        (any_over_lem test answer most vs b each (omega (arith, h)))
  any_over_lem test answer most (null ∷ vs) b each h =
      passed_over test answer most (null) vs b
        (any_over_lem test answer most vs b each (omega (arith, h)))
  any_over_lem test answer most (bool c ∷ vs) b each h =
      passed_over test answer most (bool c) vs b
        (any_over_lem test answer most vs b each (omega (arith, h)))
  any_over_lem test answer most (int n ∷ vs) b each h =
      passed_over test answer most (int n) vs b
        (any_over_lem test answer most vs b each (omega (arith, h)))
  any_over_lem test answer most (negative n ∷ vs) b each h =
      passed_over test answer most (negative n) vs b
        (any_over_lem test answer most vs b each (omega (arith, h)))
  any_over_lem test answer most (real s ∷ vs) b each h =
      passed_over test answer most (real s) vs b
        (any_over_lem test answer most vs b each (omega (arith, h)))

  -- One operation, a walk, and then the rest.
  pub resolved :
      (document : Json) (name : String) (rest : List Json → Step Bool) (answer : Result Bool)
      (c b : ℕ)
      → suc (walk_cost document (split_dots name) + c) ≤ b
      → ((r : ℕ) → c ≤ r → Answers (rest (values_at document (split_dots name)) r) answer c r)
      → Answers
          (consume late b >>= λ r.
            resolve_values late document name r >>= λ found. rest found.0 found.1)
          answer
          (suc (walk_cost document (split_dots name) + c))
          b
  unfolding resolve_values
  resolved document name rest answer c b h next =
      let (r, e, k) = consume_lem late in_time (walk_cost document (split_dots name) + c) b h in
      let (q, f, l) = walk_lem late in_time document (split_dots name) r (omega (arith, h, k)) in
      let (p, g, m) = next q (omega (arith, h, k, l)) in (p, rw (e, f) g, omega (arith, k, l, m))

  pub charged :
      (rest : Step Bool) (answer : Result Bool) (c b : ℕ)
      → suc c ≤ b
      → ((r : ℕ) → c ≤ r → Answers (rest r) answer c r)
      → Answers (consume late b >>= λ r. rest r) answer (suc c) b
  charged rest answer c b h next =
      let (r, e, k) = consume_lem late in_time c b h in
      let (q, f, l) = next r (omega (arith, h, k)) in (q, rw (e) f, omega (arith, k, l))

  -- The same for a leaf, which does nothing after its walk.
  pub leaf_resolved :
      (document : Json) (name : String) (rest : List Json → Step Bool) (answer : Result Bool)
      (b : ℕ)
      → suc (walk_cost document (split_dots name)) ≤ b
      → ((r : ℕ) → rest (values_at document (split_dots name)) r ≡ spent late answer r)
      → Answers
          (consume late b >>= λ r.
            resolve_values late document name r >>= λ found. rest found.0 found.1)
          answer
          (suc (walk_cost document (split_dots name)))
          b
  leaf_resolved document name rest answer b h next =
      let (r, e, k) =
        resolved document name rest answer 0 b (omega (arith, h))
          (λ r z. (r, next r, omega arith)) in
      (r, e, omega (arith, k))
