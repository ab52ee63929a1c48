-- ===== src/Storage/Retry.antt =====
-- app/storage/retry.py: exponential backoff with jitter. Delays are whole microseconds, and the
-- multiplier and the jitter ratio are hundredths.
use os_scanner.Prelude.{
  ℕ, suc, ap, ◌>>=◌, overflow_error, ◌⊎◌, inl, inr, false, ◌<◌, Bool-cases, ◌+◌, ◌-◌, ◌*◌, ◌/◌, ◌^◌,
  ◌≤◌, min, ◌≡◌, Bool, true, ◌&&◌, arith, ltb, leb, if◌then◌else◌, Result, ok, err, value_error,
}

pub record RetryPolicy : Type 0 where
  pub max_attempts : ℕ
  pub base_delay : ℕ
  pub multiplier : ℕ
  pub max_delay : ℕ
  pub jitter_ratio : ℕ

-- __post_init__
unfoldable pub is_valid : RetryPolicy → Bool
is_valid p =
    leb 1 p.max_attempts
    && leb p.max_attempts 100
    && ltb 0 p.base_delay
    && leb 100 p.multiplier
    && leb p.base_delay p.max_delay
    && leb p.jitter_ratio 100

-- The defaults of the dataclass, at the given number of attempts.
unfoldable pub default_policy : ℕ → RetryPolicy
default_policy max_attempts = record {
  max_attempts = max_attempts;
  base_delay = 1_000_000;
  multiplier = 200;
  max_delay = 3_600_000_000;
  jitter_ratio = 20;
}

-- Half a step above the largest float.
abbrev pub largest : ℕ
largest = 2 ^ 1024 - 2 ^ 970

-- `multiplier**exponent` raises OverflowError where the float power is not finite, counted in
-- hundredths.
unfoldable pub overflows : RetryPolicy → ℕ → Bool
overflows p exponent = leb (largest * 100 ^ exponent) (p.multiplier ^ exponent)

-- The delay before jitter.
unfoldable pub base_for_attempt : RetryPolicy → ℕ → Result ℕ
unfolding overflows
base_for_attempt p attempt =
    let exponent = min (attempt - 1) 63 in
    if overflows p exponent
    then err overflow_error
    else ok (min p.max_delay (p.base_delay * p.multiplier ^ exponent / 100 ^ exponent))

-- `draw j` is the random source's `uniform(-j, j)`, counted from -j.
unfoldable pub delay_for_attempt : RetryPolicy → ℕ → (ℕ → ℕ) → Result ℕ
unfolding base_for_attempt
delay_for_attempt p attempt draw =
    if ltb attempt 1
    then err value_error
    else base_for_attempt p attempt >>= λ delay.
        let jitter = delay * p.jitter_ratio / 100 in
        ok (min p.max_delay (delay + draw jitter - jitter))

-- The backoff after n retries, as a float is read: base_delay * (multiplier / 100) ^ n, and no more than
-- the limit.
abbrev pub backoff : RetryPolicy → ℕ → ℕ
backoff p n = min p.max_delay (p.base_delay * p.multiplier ^ n / 100 ^ n)

-- The base at an exponent.
abbrev pub base_at : RetryPolicy → ℕ → Result ℕ
base_at p e = if overflows p e then err overflow_error else ok (backoff p e)

pub base_for_attempt-at :
    (p : RetryPolicy) (attempt e : ℕ)
    → min (attempt - 1) 63 ≡ e
    → base_for_attempt p attempt ≡ base_at p e
unfolding base_for_attempt
base_for_attempt-at p attempt e at = ap (base_at p) at

leb-le : (a b : ℕ) → leb a b ≡ true → a ≤ b
leb-le a b h = ground arith

pub above : (p : RetryPolicy) (n : ℕ) → overflows p n ≡ true → largest * 100 ^ n ≤ p.multiplier ^ n
unfolding overflows
above p n h = leb-le (largest * 100 ^ n) (p.multiplier ^ n) h

gt-leb : (a b : ℕ) → leb a b ≡ false → b < a
gt-leb a b h = ground arith

below : (p : RetryPolicy) (n : ℕ) → overflows p n ≡ false → p.multiplier ^ n < largest * 100 ^ n
unfolding overflows
below p n h = gt-leb (largest * 100 ^ n) (p.multiplier ^ n) h

-- A delay within the jitter of the backoff, and below the limit.
abbrev pub IsWithin : RetryPolicy → ℕ → ℕ → Type 0
IsWithin p n d =
    (d ≤ p.max_delay)
    × (backoff p n ≤ d + backoff p n * p.jitter_ratio / 100)
    × (d ≤ backoff p n + backoff p n * p.jitter_ratio / 100)

-- The attempt after n failures, for n up to 63, has a delay within the jitter of the backoff after n
-- retries and below the limit, when the random source draws from the range that it is asked for; but it
-- raises OverflowError if the power of the multiplier is too large for a float. Later attempts wait as
-- the 64th does.
pub delay_for_attempt-window :
    (p : RetryPolicy) (n : ℕ) (draw : ℕ → ℕ)
    → n ≤ 63
    → ((j : ℕ) → draw j ≤ 2 * j)
    → (((largest * 100 ^ n ≤ p.multiplier ^ n)
          × (delay_for_attempt p (suc n) draw ≡ err overflow_error))
        ⊎ ((p.multiplier ^ n < largest * 100 ^ n)
            × (d : ℕ) × (delay_for_attempt p (suc n) draw ≡ ok d)
            × IsWithin p n d))
      × ((m : ℕ) → delay_for_attempt p (64 + m) draw ≡ delay_for_attempt p 64 draw)
unfolding delay_for_attempt
delay_for_attempt-window p n draw few drawn =
    let base = base_for_attempt-at p (suc n) n (omega arith) in
    let b = backoff p n in
    let jitter = b * p.jitter_ratio / 100 in
    (
      elim (Bool-cases (overflows p n)) [
        | inl big ↦ inl (above p n big, ground (arith, base, big))
        | inr fits ↦ inr (
          below p n fits,
          min p.max_delay (b + draw jitter - jitter),
          ground (arith, base, fits),
          (omega arith, omega (arith, drawn jitter), omega (arith, drawn jitter)),
        )
      ],
      λ m. ground (
        arith,
        base_for_attempt-at p (64 + m) 63 (omega arith),
        base_for_attempt-at p 64 63 (omega arith),
      ),
    )
