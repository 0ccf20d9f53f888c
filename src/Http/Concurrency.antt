-- ===== src/Http/Concurrency.antt =====
-- app/core/http/concurrency.py. Python's str and int of a number are arguments, and what white space
-- is.
pub mod Tags
use fastapi_template.Prelude.{
  ℕ, ◌*◌, ◌≡◌, Bool, true, false, not, ◌&&◌, Option, none, some, str_eq, ◌==◌, if◌then◌else◌,
  is_empty, stripped, followed,
}
use fastapi_template.Errors.{
  precondition_required_error, precondition_failed_error, plain_error, Exception, value, Result, ok,
  err,
}
use fastapi_template.Exec.{read}
use Prim.Native.Char.{Char, code}
use Prim.Native.String.{[], String}

abbrev pub is_quote : Char → Bool
is_quote c = code c == 34

abbrev pub is_unquoted : String → Bool
is_unquoted String.[] = true
is_unquoted (String.◌∷◌ c s) = not (is_quote c) && is_unquoted s

-- str of a number is a text without quotes, which int reads back.
pub record Decimal : Type 0 where
  pub str : ℕ → String
  pub int : String → Option ℕ
  pub is_space : Char → Bool
  pub int-str : (n : ℕ) → int (str n) ≡ some n
  pub str_unquoted : (n : ℕ) → is_unquoted (str n) ≡ true
  pub str_nonempty : (n : ℕ) → is_empty (str n) ≡ false
  pub tag_is_bare : (is_space "W" ≡ false) × (is_space "\"" ≡ false)

abbrev pub any_version : String
any_version = "*"

-- A candidate without its WEAK_PREFIX
abbrev pub without_weak : String → String
without_weak String.[] = String.[]
without_weak (String.◌∷◌ c String.[]) = String.◌∷◌ c String.[]
without_weak (String.◌∷◌ c (String.◌∷◌ d s)) =
    if code c == b'W' && code d == b'/' then s else String.◌∷◌ c (String.◌∷◌ d s)

abbrev pub missing_if_match : Exception
missing_if_match =
    plain_error precondition_required_error
      "This write needs an If-Match header carrying the ETag you last read"

abbrev pub unreadable_if_match : Exception
unreadable_if_match =
    plain_error precondition_failed_error "If-Match does not carry an ETag this API issued"

abbrev pub read_or_refused : Option ℕ → Result (Option ℕ)
read_or_refused none = err unreadable_if_match
read_or_refused (some version) = ok (some version)

module _ (d : Decimal) where
  unfoldable pub etag_for : ℕ → String
  etag_for version = followed "W/\"" (followed (d.str version) "\"")

  unfoldable pub parse_etag : String → Option ℕ
  parse_etag value = d.int (stripped is_quote (without_weak (stripped d.is_space value)))

  unfoldable pub require_if_match : Option String → Result (Option ℕ)
  unfolding parse_etag
  require_if_match none = err missing_if_match
  require_if_match (some if_match) =
      if str_eq (stripped d.is_space if_match) any_version
      then ok none
      else read_or_refused (parse_etag if_match)
