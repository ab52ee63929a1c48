-- ===== src/Prelude/TextOrder.antt =====
-- The order of texts by code points, and sorting by it.
use Prim.Native.Nat.{ℕ, zero, suc, Ordering, compare as compare_ℕ}
use Prim.Native.Nat.compare as compare_ℕ
use Prim.Native.Char.{code}
use Prim.Native.String.{String, [], ◌∷◌, compare, then}
use Prim.Native.String.compare
use mathlib.Core.Path.{◌≡◌, refl}
use mathlib.Core.Bool.{true, false}
use native.Mathlib.Omega.{arith}
use os_scanner.Prelude.Text.{text_lt}

abbrev flip : Ordering → Ordering
flip Ordering.lt = Ordering.gt
flip Ordering.eq = Ordering.eq
flip Ordering.gt = Ordering.lt

flip-then : (a b : Ordering) → flip (then a b) ≡ then (flip a) (flip b)
flip-then Ordering.lt b = refl
flip-then Ordering.eq b = refl
flip-then Ordering.gt b = refl

flip-compare_ℕ : (m n : ℕ) → compare_ℕ n m ≡ flip (compare_ℕ m n)
flip-compare_ℕ zero zero = rw (compare_ℕ.zero-zero) refl
flip-compare_ℕ zero (suc n) = rw (compare_ℕ.zero-suc n, compare_ℕ.suc-zero n) refl
flip-compare_ℕ (suc m) zero = rw (compare_ℕ.zero-suc m, compare_ℕ.suc-zero m) refl
flip-compare_ℕ (suc m) (suc n) =
    rw (compare_ℕ.suc-suc m n, compare_ℕ.suc-suc n m) (flip-compare_ℕ m n)

flip-compare : (s t : String) → compare t s ≡ flip (compare s t)
flip-compare [] [] = rw (compare.nil-nil) refl
flip-compare [] (d ∷ t) = rw (compare.nil-cons d t, compare.cons-nil d t) refl
flip-compare (c ∷ s) [] = rw (compare.nil-cons c s, compare.cons-nil c s) refl
flip-compare (c ∷ s) (d ∷ t) =
    rw
      (
        compare.cons-cons c d s t,
        compare.cons-cons d c t s,
        flip-then (compare_ℕ (code c) (code d)) (compare s t),
        flip-compare_ℕ (code c) (code d),
        flip-compare s t,
      )
      refl

pub text_lt-asymmetric : (s t : String) → text_lt s t ≡ true → text_lt t s ≡ false
text_lt-asymmetric s t h = ground (arith, flip-compare s t)
