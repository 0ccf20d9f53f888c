-- ===== src/Services/AttachmentService/Naming.antt =====
-- The texts of app/services/attachment_service.py: safe_filename and str methods that it calls.
use fastapi_template.Prelude.{
  ℕ, zero, suc, Bool, not, ◌&&◌, ◌||◌, Option, none, some, List, [], ◌∷◌, str_eq, ◌==◌,
  if◌then◌else◌, split_on, is_empty, stripped,
}
use Prim.Native.Char.{Char, code}
use Prim.Native.String.{String}

abbrev pub fallback_filename : String
fallback_filename = "file"

abbrev pub max_filename_length : ℕ
max_filename_length = 255

abbrev pub or_empty : Option String → String
or_empty none = ""
or_empty (some s) = s

abbrev pub filtered : (Char → Bool) → String → String
filtered p String.[] = String.[]
filtered p (String.◌∷◌ c s) = let rest = filtered p s in if p c then String.◌∷◌ c rest else rest

abbrev pub taken : ℕ → String → String
taken zero s = String.[]
taken (suc n) String.[] = String.[]
taken (suc n) (String.◌∷◌ c s) = String.◌∷◌ c (taken n s)

abbrev pub replaced : ℕ → Char → String → String
replaced old new String.[] = String.[]
replaced old new (String.◌∷◌ c s) =
    let rest = replaced old new s in
    if code c == old then String.◌∷◌ new rest else String.◌∷◌ c rest

abbrev pub first_of : List String → String
first_of [] = ""
first_of (s ∷ rest) = s

-- The last component of a path that is neither empty nor a dot, or nothing.
abbrev pub last_name : List String → String
last_name [] = String.[]
last_name (s ∷ rest) =
    let later = last_name rest in
    if not (is_empty later) then later else if str_eq s "." then String.[] else s

-- What Unicode decides of a character: parameters of the model.
pub record Characters : Type 0 where
  pub is_printable : Char → Bool
  pub is_space : Char → Bool

-- The characters of REFUSED_IN_FILENAME: a quote, a backslash, a semicolon, CR and LF
abbrev pub is_refused : Char → Bool
is_refused c = code c == 34 || code c == 92 || code c == b';' || code c == 13 || code c == 10

abbrev pub or_fallback : String → String
or_fallback s = if is_empty s then fallback_filename else s

-- PurePosixPath(…).name is the last component.
unfoldable pub safe_filename : Characters → Option String → String
safe_filename chars name =
    let candidate = last_name (split_on b'/' (replaced 92 "/" (or_empty name))) in
    taken max_filename_length (
      or_fallback (
        stripped chars.is_space
          (filtered (λ c. chars.is_printable c && not (is_refused c)) candidate)))
