-- ===== src/Orchestrator/Order.antt =====
-- The overall status against the numbers of collectors in each group of states.
use os_scanner.Prelude.{
  ℕ, zero, suc, ◌≡◌, refl, sym, ◌∙◌, Bool, true, false, not, List, [], ◌∷◌, ◌&&◌, arith,
  if◌then◌else◌, count, any,
}
use mathlib.Core.List.{Permᴰ}
use os_scanner.Orchestrator.Status.{
  CollectorState, unavailable, timeout, skipped, OverallStatus, CollectorStatus, is_success,
  is_skipped, is_usable, is_empty, all_success, materialized, overall_status,
}

abbrev is_partial : CollectorState → Bool
is_partial CollectorState.partial = true
is_partial _ = false

abbrev is_lost : CollectorState → Bool
is_lost CollectorState.failed = true
is_lost unavailable = true
is_lost timeout = true
is_lost _ = false

-- The verdict on so many successes, partial results and losses.
abbrev pub verdict : ℕ → ℕ → ℕ → OverallStatus
verdict zero zero c = OverallStatus.failed
verdict (suc a) zero zero = OverallStatus.success
verdict (suc a) zero (suc c) = OverallStatus.partial
verdict a (suc b) c = OverallStatus.partial

abbrev pub successes : List CollectorStatus → ℕ
successes statuses = count (λ s. is_success s.status) statuses

abbrev pub partials : List CollectorStatus → ℕ
partials statuses = count (λ s. is_partial s.status) statuses

abbrev pub losses : List CollectorStatus → ℕ
losses statuses = count (λ s. is_lost s.status) statuses

swap_counts :
    (h k : Bool) (n : ℕ)
    → (if h then suc (if k then suc n else n) else (if k then suc n else n))
      ≡ (if k then suc (if h then suc n else n) else (if h then suc n else n))
swap_counts true true n = refl
swap_counts true false n = refl
swap_counts false true n = refl
swap_counts false false n = refl

count-Permᴰ {ℓ} :
    {A : Type ℓ} (p : A → Bool) {xs ys : List A} → Permᴰ xs ys → count p xs ≡ count p ys
unfolding count
count-Permᴰ p Permᴰ.nil = refl
count-Permᴰ p (Permᴰ.cons {b = b} e d) = rw (e, count-Permᴰ p d) refl
count-Permᴰ p (Permᴰ.swap {a' = a} {b' = b} {l = l} e f) =
    rw (e, f) (swap_counts (p b) (p a) (count p l))
count-Permᴰ p (Permᴰ.trans d e) = count-Permᴰ p d ∙ count-Permᴰ p e

abbrev is_zero : ℕ → Bool
is_zero zero = true
is_zero (suc n) = false

abbrev Counted : List CollectorState → ℕ → ℕ → ℕ → Type 0
Counted ms a b c =
    (is_empty ms ≡ (is_zero a && is_zero b && is_zero c))
    × (all_success ms ≡ (is_zero b && is_zero c))
    × (any is_usable ms ≡ not (is_zero a && is_zero b))

-- One more collector counts in its group, and a skipped one in none.
Counted-next :
    (s : CollectorState) (ms : List CollectorState) (a b c : ℕ)
    → Counted ms a b c
    → Counted
        (if is_skipped s then ms else s ∷ ms)
        (if is_success s then suc a else a)
        (if is_partial s then suc b else b)
        (if is_lost s then suc c else c)
unfolding all_success any
Counted-next CollectorState.success ms a b c (e, f, g) = (refl, f, refl)
Counted-next CollectorState.partial ms a b c (e, f, g) = ground (arith)
Counted-next CollectorState.failed ms a b c (e, f, g) = ground (arith, g)
Counted-next unavailable ms a b c (e, f, g) = ground (arith, g)
Counted-next timeout ms a b c (e, f, g) = ground (arith, g)
Counted-next skipped ms a b c h = h

materialized-Counted :
    (xs : List CollectorStatus) → Counted (materialized xs) (successes xs) (partials xs) (losses xs)
unfolding materialized all_success any count
materialized-Counted [] = (refl, refl, refl)
materialized-Counted (x ∷ xs) =
    Counted-next (x.status) (materialized xs) (successes xs) (partials xs) (losses xs)
      (materialized-Counted xs)

judged :
    (ms : List CollectorState) (a b c : ℕ)
    → Counted ms a b c
    → (if is_empty ms
        then OverallStatus.failed
        else if all_success ms
        then OverallStatus.success
        else if any is_usable ms
        then OverallStatus.partial
        else OverallStatus.failed)
      ≡ verdict a b c
judged ms zero zero zero (e, f, g) = rw (e) refl
judged ms zero zero (suc c) (e, f, g) = rw (e, f, g) refl
judged ms zero (suc b) c (e, f, g) = rw (e, f, g) refl
judged ms (suc a) zero zero (e, f, g) = rw (e, f) refl
judged ms (suc a) zero (suc c) (e, f, g) = rw (e, f, g) refl
judged ms (suc a) (suc b) c (e, f, g) = rw (e, f, g) refl

-- The overall status is the verdict on the numbers of successes, partial results and losses (failures,
-- timeouts and unavailable collectors) among the collectors, and it is the same in any order of them.
pub overall_status-verdict :
    (xs ys : List CollectorStatus)
    → Permᴰ xs ys
    → (overall_status xs ≡ verdict (successes xs) (partials xs) (losses xs))
      × (overall_status ys ≡ overall_status xs)
unfolding overall_status
overall_status-verdict xs ys d =
    let one =
      judged (materialized xs) (successes xs) (partials xs) (losses xs) (materialized-Counted xs) in
    let other =
      judged (materialized ys) (successes ys) (partials ys) (losses ys) (materialized-Counted ys) in
    let same : verdict (successes ys) (partials ys) (losses ys)
        ≡ verdict (successes xs) (partials xs) (losses xs) =
      rw
        (
          count-Permᴰ (λ s. is_success s.status) d,
          count-Permᴰ (λ s. is_partial s.status) d,
          count-Permᴰ (λ s. is_lost s.status) d,
        )
        refl in
    (one, other ∙ same ∙ sym one)
