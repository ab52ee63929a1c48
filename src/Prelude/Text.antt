-- ===== src/Prelude/Text.antt =====
-- The methods of Python's `str` that the modelled code calls, on texts as lists of characters.
use Prim.Native.Nat.{ℕ, zero, suc, ◌+◌, ◌/◌, ◌%◌, ◌≤◌, Ordering}
use Prim.Native.Char.{Char, code}
use Prim.Native.String.{String, compare}
use native.Mathlib.Omega.{arith}
use mathlib.Core.Bool.{Bool, true, false, ◌&&◌, ◌||◌}
use os_scanner.Prelude.Tests.{ltb, leb, ◌==◌, if◌then◌else◌}

abbrev pub is_empty : String → Bool
is_empty String.[] = true
is_empty (String.◌∷◌ c s) = false

-- len(s)
abbrev pub len : String → ℕ
len String.[] = 0
len (String.◌∷◌ c s) = suc (len s)

-- The characters for which `str.isspace` holds, which `str.strip` removes.
unfoldable pub is_space : ℕ → Bool
is_space c =
    (leb 9 c && leb c 13)
    || (leb 28 c && leb c 32)
    || c == 0x85
    || c == 0xa0
    || c == 0x1680
    || (leb 0x2000 c && leb c 0x200a)
    || (leb 0x2028 c && leb c 0x2029)
    || c == 0x202f
    || c == 0x205f
    || c == 0x3000

unfoldable pub lstrip : String → String
unfolding is_space
lstrip String.[] = String.[]
lstrip (String.◌∷◌ c s) = let rest = lstrip s in if is_space (code c) then rest else String.◌∷◌ c s

unfoldable pub rstrip : String → String
unfolding is_space
rstrip String.[] = String.[]
rstrip (String.◌∷◌ c s) =
    let rest = rstrip s in
    if is_empty rest && is_space (code c) then String.[] else String.◌∷◌ c rest

unfoldable pub strip : String → String
unfolding lstrip rstrip
strip s = rstrip (lstrip s)

-- ord(c) < 32 or ord(c) == 127
unfoldable pub has_control : String → Bool
has_control String.[] = false
has_control (String.◌∷◌ c s) = ltb (code c) 32 || code c == 127 || has_control s

-- `s < t` on texts: by code points, as Python and SQLite's BINARY collation order them.
abbrev pub text_lt : String → String → Bool
text_lt s t = elim (compare s t) [ Ordering.lt ↦ true | _ ↦ false ]

-- s[:n]
abbrev pub slice_to : ℕ → String → String
slice_to zero s = String.[]
slice_to (suc n) String.[] = String.[]
slice_to (suc n) (String.◌∷◌ c s) = String.◌∷◌ c (slice_to n s)

-- Replaces each control character below 32 by a blank.
unfoldable pub blank_controls : String → String
blank_controls String.[] = String.[]
blank_controls (String.◌∷◌ c s) = String.◌∷◌ (if ltb (code c) 32 then " " else c) (blank_controls s)

-- s.replace("_", "-")
unfoldable pub dashed : String → String
dashed String.[] = String.[]
dashed (String.◌∷◌ c s) = String.◌∷◌ (if code c == b'_' then "-" else c) (dashed s)

-- One character of SQLite's lower(replace(s, '_', '-')), which folds ASCII letters only.
unfoldable pub sql_fold : ℕ → ℕ
sql_fold c = if c == b'_' then b'-' else if leb b'A' c && leb c b'Z' then c + 32 else c

-- lower(replace(s, '_', '-')) = t
unfoldable pub sql_folds_to : String → String → Bool
unfolding sql_fold
sql_folds_to String.[] String.[] = true
sql_folds_to String.[] (String.◌∷◌ d t) = false
sql_folds_to (String.◌∷◌ c s) String.[] = false
sql_folds_to (String.◌∷◌ c s) (String.◌∷◌ d t) = sql_fold (code c) == code d && sql_folds_to s t

pub length-slice_to : (n : ℕ) (s : String) → len (slice_to n s) ≤ n
length-slice_to zero s = omega arith
length-slice_to (suc n) String.[] = omega arith
length-slice_to (suc n) (String.◌∷◌ c s) = omega (arith, length-slice_to n s)

digit : ℕ → Char
digit n =
    if n == 0
    then "0"
    else if n == 1
    then "1"
    else if n == 2
    then "2"
    else if n == 3
    then "3"
    else if n == 4
    then "4"
    else if n == 5
    then "5"
    else if n == 6
    then "6"
    else if n == 7
    then "7"
    else if n == 8
    then "8"
    else "9"

-- The decimal digits of `n` before `rest`. Each round divides by ten, so `suc n` rounds are enough.
show_fuel : ℕ → ℕ → String → String
unfolding digit
show_fuel zero n rest = rest
show_fuel (suc f) n rest =
    let written = String.◌∷◌ (digit (n % 10)) rest in
    let more = show_fuel f (n / 10) written in if ltb n 10 then written else more

-- str(n) for an integer that is not negative
unfoldable pub show : ℕ → String
unfolding show_fuel
show n = show_fuel (suc n) n String.[]
