-- ===== src/Storage/Identifier.antt =====
-- app/storage/serialization.py: the validation of identifiers.
use os_scanner.Prelude.{
  ℕ, ◌≤◌, String, ◌≡◌, false, arith, ltb, if◌then◌else◌, Result, ok, err, type_error, value_error,
}
use os_scanner.Prelude.Text.{is_empty, len, strip, has_control}
use os_scanner.Json.{Json, text}

-- What remains of `clean_identifier` for a string.
unfoldable pub clean_text : String → ℕ → Result String
unfolding strip has_control
clean_text value max_length =
    let candidate = strip value in
    if is_empty candidate
    then err value_error
    else if ltb max_length (len candidate)
    then err value_error
    else if has_control candidate
    then err value_error
    else ok candidate

-- A value of any JSON type, as the callers that read a document pass it.
unfoldable pub clean_identifier : Json → ℕ → Result String
unfolding clean_text
clean_identifier (text value) max_length = clean_text value max_length
clean_identifier _ max_length = err type_error

-- Not empty, no longer than the limit, and without control characters.
pub record IsClean (max_length : ℕ) (s : String) : Type 0 where
  pub filled : is_empty s ≡ false
  pub short : len s ≤ max_length
  pub printable : has_control s ≡ false

-- A text that `clean_identifier` accepts is, after the cleaning, not empty, no longer than the limit
-- and without control characters.
pub clean_text-IsClean :
    (value : String) (max_length : ℕ) {s : String}
    → clean_text value max_length ≡ ok s
    → IsClean max_length s
unfolding clean_text
clean_text-IsClean value max_length h = record {
  filled = ground arith;
  short = ground arith;
  printable = ground arith;
}
