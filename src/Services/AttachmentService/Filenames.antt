-- ===== src/Services/AttachmentService/Filenames.antt =====
-- What `safe_filename` of app/services/attachment_service.py lets through.
use fastapi_template.Prelude.{
  ℕ, zero, suc, ◌≤◌, ◌≡◌, refl, inl, inr, Bool, true, false, not, ◌&&◌, Option, List, [], ◌∷◌,
  arith, ◌==◌, Bool-cases, length, All, codes, with_first, split_on, is_empty, lstrip, rstrip,
  stripped,
}
use fastapi_template.Services.AttachmentService.{
  fallback_filename, or_empty, filtered, taken, replaced, last_name, Characters, is_refused,
  or_fallback, safe_filename,
}
use Prim.Native.Char.{Char, code}
use Prim.Native.String.{String}

abbrev pub every : (Char → Bool) → String → Bool
every p String.[] = true
every p (String.◌∷◌ c s) = p c && every p s

abbrev pub is_slash : Char → Bool
is_slash c = code c == b'/'

module _ (p : Char → Bool) where
  every-filtered_self : (s : String) → every p (filtered p s) ≡ true
  every-filtered_self String.[] = refl
  every-filtered_self (String.◌∷◌ c s) = ground (arith, every-filtered_self s)

  every-taken : (n : ℕ) (s : String) → every p s ≡ true → every p (taken n s) ≡ true
  every-taken zero s h = refl
  every-taken (suc n) String.[] h = refl
  every-taken (suc n) (String.◌∷◌ c s) h = ground (arith, every-taken n s)

  every-lstrip : (sp : Char → Bool) (s : String) → every p s ≡ true → every p (lstrip sp s) ≡ true
  every-lstrip sp String.[] h = refl
  every-lstrip sp (String.◌∷◌ c s) h = ground (arith, every-lstrip sp s)

  every-rstrip : (sp : Char → Bool) (s : String) → every p s ≡ true → every p (rstrip sp s) ≡ true
  every-rstrip sp String.[] h = refl
  every-rstrip sp (String.◌∷◌ c s) h = ground (arith, every-rstrip sp s)

  every-filtered : (q : Char → Bool) (s : String) → every p s ≡ true → every p (filtered q s) ≡ true
  every-filtered q String.[] h = refl
  every-filtered q (String.◌∷◌ c s) h = ground (arith, every-filtered q s)

  every-fallback :
      (s : String)
      → every p s ≡ true
      → every p fallback_filename ≡ true
      → every p (or_fallback s) ≡ true
  every-fallback s h k = elim (Bool-cases (is_empty s)) [
    | inl empty ↦ rw empty k
    | inr named ↦ rw named h
  ]

every-and :
    (p q : Char → Bool) (s : String)
    → every p s ≡ true
    → every q s ≡ true
    → every (λ c. p c && q c) s ≡ true
every-and p q String.[] h k = refl
every-and p q (String.◌∷◌ c s) h k = ground (arith, every-and p q s)

-- No component of a split has the separator.
abbrev NoSlash : String → Type 0
NoSlash s = every (λ c. not (is_slash c)) s ≡ true

with_first-slash :
    (c : Char) (parts : List String)
    → is_slash c ≡ false
    → All NoSlash parts
    → All NoSlash (with_first c parts)
with_first-slash c [] other h = (ground arith, tt)
with_first-slash c (s ∷ parts) other h = (ground (arith, h.0), h.1)

split_on-slash : (s : String) → All NoSlash (split_on b'/' s)
split_on-slash String.[] = (refl, tt)
split_on-slash (String.◌∷◌ c s) = elim (Bool-cases (is_slash c)) [
  | inl slash ↦ rw slash (refl, split_on-slash s)
  | inr other ↦ rw other (with_first-slash c (split_on b'/' s) other (split_on-slash s))
]

last_name-slash : (parts : List String) → All NoSlash parts → NoSlash (last_name parts)
last_name-slash [] h = refl
last_name-slash (s ∷ parts) h = ground (arith, last_name-slash parts h.1, h.0)

length-taken : (n : ℕ) (s : String) → length (codes (taken n s)) ≤ n
length-taken zero s = omega arith
length-taken (suc n) String.[] = omega arith
length-taken (suc n) (String.◌∷◌ c s) = omega (arith, length-taken n s)

taken_nonempty : (n : ℕ) (s : String) → is_empty s ≡ false → is_empty (taken (suc n) s) ≡ false
taken_nonempty n String.[] h = cc
taken_nonempty n (String.◌∷◌ c s) h = refl

-- A character that a file name may have.
abbrev pub is_safe : Characters → Char → Bool
is_safe chars c = (chars.is_printable c && not (is_refused c)) && not (is_slash c)

abbrev pub IsSafeName : Characters → String → Type 0
IsSafeName chars s =
    (length (codes s) ≤ 255) × (is_empty s ≡ false) × (every (is_safe chars) s ≡ true)

or_fallback_nonempty : (s : String) → is_empty (or_fallback s) ≡ false
or_fallback_nonempty s = elim (Bool-cases (is_empty s)) [
  | inl empty ↦ rw empty refl
  | inr named ↦ rw named named
]

kept_safe :
    (chars : Characters) (candidate : String)
    → NoSlash candidate
    → every (is_safe chars) (
        stripped chars.is_space
          (filtered (λ c. chars.is_printable c && not (is_refused c)) candidate))
      ≡ true
kept_safe chars candidate h =
    let wanted : Char → Bool = λ c. chars.is_printable c && not (is_refused c) in
    every-rstrip (is_safe chars) chars.is_space _ (
      every-lstrip (is_safe chars) chars.is_space (filtered wanted candidate) (
        every-and wanted (λ c. not (is_slash c)) (filtered wanted candidate)
          (every-filtered_self wanted candidate)
          (every-filtered (λ c. not (is_slash c)) wanted candidate h)))

fallback_safe :
    (chars : Characters)
    → every chars.is_printable fallback_filename ≡ true
    → every (is_safe chars) fallback_filename ≡ true
fallback_safe chars plain = ground arith

-- safe
pub safe_filename-IsSafeName :
    (chars : Characters) (name : Option String)
    → every chars.is_printable fallback_filename ≡ true
    → IsSafeName chars (safe_filename chars name)
unfolding safe_filename
safe_filename-IsSafeName chars name plain = (
  length-taken 255 _,
  taken_nonempty 254 _ (or_fallback_nonempty _),
  every-taken (is_safe chars) 255 _ (
      every-fallback (is_safe chars) _
        (kept_safe chars _ (last_name-slash _ (split_on-slash (replaced 92 "/" (or_empty name)))))
        (fallback_safe chars plain)),
)
