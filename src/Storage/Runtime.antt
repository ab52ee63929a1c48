-- ===== src/Storage/Runtime.antt =====
-- What the storage code takes from Python's standard library and does not implement: the JSON text
-- format, UTF-8, SHA-256, the Unicode case tables and regular expressions.
use os_scanner.Prelude.{ℕ, String, Option, List, Result, or_raise, value_error}
use os_scanner.Prelude.Text.{slice_to, blank_controls}
use os_scanner.Json.{Json}

pub record Runtime : Type 0 where
  -- json.dumps with the options of `canonical_json`
  pub canonical_json : Json → String
  -- json.loads of a text and of bytes, `none` where it raises
  pub loads : String → Option Json
  pub loads_bytes : List ℕ → Option Json
  -- str.encode("utf-8")
  pub encode : String → List ℕ
  -- hashlib.sha256(data).hexdigest()
  pub sha256 : List ℕ → String
  -- str.casefold and str.upper
  pub casefold : String → String
  pub upper : String → String
  -- the three substitutions of secrets in `clean_error`
  pub redact : String → String

module _ (lib : Runtime) where
  -- StorageBase._hash_text
  unfoldable pub hash_text : String → String
  hash_text s = lib.sha256 (lib.encode s)

  -- parse_json, whose failure is a ValueError
  abbrev pub parse_json : String → Result Json
  parse_json s = or_raise (lib.loads s) value_error

  abbrev pub parse_bytes : List ℕ → Result Json
  parse_bytes b = or_raise (lib.loads_bytes b) value_error

  -- clean_error: redacted, on one line, and bounded
  unfoldable pub clean_error : String → ℕ → String
  clean_error value max_length = slice_to max_length (blank_controls (lib.redact value))
