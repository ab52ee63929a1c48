-- ===== src/Storage/Examples.antt =====
-- The default retry policy, an identifier and a number at concrete values.
use os_scanner.Prelude.{
  err, overflow_error, ◌⊎◌, ◌<◌, ◌^◌, ℕ, ◌+◌, ◌*◌, ◌≤◌, ◌≡◌, refl, arith, ok, true,
}
use os_scanner.Prelude.Text.{show}
use os_scanner.Storage.Retry.{
  RetryPolicy, is_valid, default_policy, largest, IsWithin, delay_for_attempt,
  delay_for_attempt-window,
}
use os_scanner.Storage.Identifier.{clean_text}

show_example : show 1207 ≡ "1207"
unfolding show
show_example = refl

abbrev policy : RetryPolicy
policy = default_policy 8

policy_valid : is_valid policy ≡ true
unfolding is_valid default_policy
policy_valid = refl

-- The random source answers the middle of the range.
delay_for_attempt-window_example :
    (((largest * 100 ^ 2 ≤ policy.multiplier ^ 2)
        × (delay_for_attempt policy 3 (λ j. j) ≡ err overflow_error))
      ⊎ ((policy.multiplier ^ 2 < largest * 100 ^ 2)
          × (d : ℕ) × (delay_for_attempt policy 3 (λ j. j) ≡ ok d)
          × IsWithin policy 2 d))
    × ((m : ℕ) → delay_for_attempt policy (64 + m) (λ j. j) ≡ delay_for_attempt policy 64 (λ j. j))
delay_for_attempt-window_example =
    delay_for_attempt-window policy 2 (λ j. j) (omega arith) (λ j. omega arith)

-- A policy that its checks admit raises OverflowError at the 64th attempt.
abbrev steep : RetryPolicy
steep = record policy { max_attempts = 100; multiplier = 10_000_000 }

steep_valid : is_valid steep ≡ true
unfolding is_valid default_policy
steep_valid = refl

steep_overflows : delay_for_attempt steep 64 (λ j. j) ≡ err overflow_error
unfolding delay_for_attempt default_policy
steep_overflows = refl

cleaned : clean_text " scan-1 " 16 ≡ ok "scan-1"
unfolding clean_text
cleaned = refl
