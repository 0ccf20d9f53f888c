-- ===== src/Routes/Attachments/Header.antt =====
-- What `_disposition` of app/api/v1/routes/attachments.py makes of the name of a file.
use fastapi_template.Prelude.{
  ℕ, ◌+◌, ◌-◌, ◌*◌, ◌/◌, ◌≤◌, ◌<◌, String, ◌≡◌, refl, ap, ◌∙◌, ◌≢◌, inl, inr, Bool, true, false,
  ◌&&◌, List, [], ◌∷◌, ◌++◌, map, arith, ltb, leb, ◌==◌, if◌then◌else◌, Bool-cases, All, All-append,
  codes,
}
use fastapi_template.Routes.Attachments.{
  utf8, flat_map, is_unreserved, hex_digit, quote_byte, quoted_utf8, ascii_char, ascii_name,
  disposition,
}
use Prim.Native.Nat.{◌%◌}

-- A code point that is no control character, and as small as all are.
abbrev pub IsShown : ℕ → Type 0
IsShown c = (32 ≤ c) × (c ≢ 127) × (c < 1114112)

-- A character that a header may hold.
abbrev pub IsHeaderChar : ℕ → Type 0
IsHeaderChar c = (32 ≤ c) × (c < 127)

abbrev pub unhex : ℕ → ℕ
unhex c = if ltb c b'A' then c - b'0' else c - 55

-- How a client reads a quoted text.
abbrev pub unquote : List ℕ → List ℕ
unquote [] = []
unquote (c ∷ []) = c ∷ []
unquote (c ∷ d ∷ []) = c ∷ d ∷ []
unquote (c ∷ d ∷ e ∷ cs) =
    let rest = unquote cs in
    let later = unquote (d ∷ e ∷ cs) in
    if c == b'%' then (16 * unhex d + unhex e) ∷ rest else c ∷ later

utf8-bytes : (c : ℕ) → c < 1114112 → All (λ b. b < 256) (utf8 c)
utf8-bytes c h = ground arith

unhex-hex_digit : (d : ℕ) → d < 16 → unhex (hex_digit d) ≡ d
unhex-hex_digit d h = ground arith

unquote-plain : (c : ℕ) (cs : List ℕ) → (c == b'%') ≡ false → unquote (c ∷ cs) ≡ c ∷ unquote cs
unquote-plain c [] h = refl
unquote-plain c (d ∷ []) h = refl
unquote-plain c (d ∷ e ∷ cs) h = rw h refl

quote_byte-unquote : (b : ℕ) (cs : List ℕ) → b < 256 → unquote (quote_byte b ++ cs) ≡ b ∷ unquote cs
quote_byte-unquote b cs h = elim (Bool-cases (is_unreserved b)) [
  | inl plain ↦ rw plain (unquote-plain b cs (ground arith))
  | inr quoted ↦ rw quoted (
      ap (λ d. d ∷ unquote cs)
        (rw (unhex-hex_digit (b / 16) (ground arith), unhex-hex_digit (b % 16) (ground arith))
          (ground arith)))
]

quote_byte-chars : (b : ℕ) → b < 256 → All IsHeaderChar (quote_byte b)
quote_byte-chars b h = ground arith

ascii_char-chars :
    (c : ℕ) → IsShown c → IsHeaderChar (ascii_char c) × (ascii_char c ≢ 34) × (ascii_char c ≢ 92)
ascii_char-chars c h = ground arith

ascii_char-chars_all :
    (cs : List ℕ)
    → All IsShown cs
    → All IsHeaderChar (map ascii_char cs) × All (λ c. (c ≢ 34) × (c ≢ 92)) (map ascii_char cs)
ascii_char-chars_all [] h = (tt, tt)
ascii_char-chars_all (c ∷ cs) (h, hs) =
    let one : IsHeaderChar (ascii_char c) × (ascii_char c ≢ 34) × (ascii_char c ≢ 92) =
      ascii_char-chars c h in
    let rest : All IsHeaderChar (map ascii_char cs)
        × All (λ c. (c ≢ 34) × (c ≢ 92)) (map ascii_char cs) =
      ascii_char-chars_all cs hs in
    ((one.0, rest.0), ((one.1, one.2), rest.1))

flat_map-All :
    (P Q : ℕ → Type 0) (f : ℕ → List ℕ)
    → ((x : ℕ) → P x → All Q (f x))
    → (xs : List ℕ) → All P xs
    → All Q (flat_map f xs)
flat_map-All P Q f k [] h = tt
flat_map-All P Q f k (x ∷ xs) (p, h) =
    All-append Q (f x) (flat_map f xs) (k x p) (flat_map-All P Q f k xs h)

unquote-quoted : (bs : List ℕ) → All (λ b. b < 256) bs → unquote (flat_map quote_byte bs) ≡ bs
unquote-quoted [] h = refl
unquote-quoted (b ∷ bs) (h, hs) =
    quote_byte-unquote b (flat_map quote_byte bs) h ∙ ap (λ cs. b ∷ cs) (unquote-quoted bs hs)

abbrev are_header_chars : List ℕ → Bool
are_header_chars [] = true
are_header_chars (c ∷ cs) = leb 32 c && ltb c 127 && are_header_chars cs

are_header_chars-All : (cs : List ℕ) → are_header_chars cs ≡ true → All IsHeaderChar cs
are_header_chars-All [] h = tt
are_header_chars-All (c ∷ cs) h = ground (arith, are_header_chars-All cs)

-- A fixed text before another.
fixed-All :
    (cs rest : List ℕ)
    → are_header_chars cs ≡ true
    → All IsHeaderChar rest
    → All IsHeaderChar (cs ++ rest)
fixed-All cs rest h k = All-append IsHeaderChar cs rest (are_header_chars-All cs h) k

module _ (filename : String) (shown : All IsShown (codes filename)) where
  bytes_of : All (λ b. b < 256) (flat_map utf8 (codes filename))
  bytes_of =
      flat_map-All IsShown (λ b. b < 256) utf8 (λ c h. utf8-bytes c h.2) (codes filename) shown

  -- For a file name without control characters, the header Content-Disposition of a download holds
  -- only characters that a header may hold, its ASCII name has neither a quote nor a backslash,
  -- and a client that unquotes the other name reads the file name in UTF-8.
  pub disposition_lem :
      All IsHeaderChar (disposition filename)
      × All (λ c. (c ≢ 34) × (c ≢ 92)) (ascii_name filename)
      × (unquote (quoted_utf8 filename) ≡ flat_map utf8 (codes filename))
  unfolding disposition ascii_name quoted_utf8
  disposition_lem =
      let ascii : All IsHeaderChar (map ascii_char (codes filename))
          × All (λ c. (c ≢ 34) × (c ≢ 92)) (map ascii_char (codes filename)) =
        ascii_char-chars_all (codes filename) shown in
      let start : String = "attachment; filename=\"" in
      let middle : String = "\"; filename*=UTF-8''" in
      let quoted : All IsHeaderChar (flat_map quote_byte (flat_map utf8 (codes filename))) =
        flat_map-All (λ b. b < 256) IsHeaderChar quote_byte quote_byte-chars
          (flat_map utf8 (codes filename)) bytes_of in
      (
        fixed-All (codes start) _ refl (
            All-append IsHeaderChar (map ascii_char (codes filename)) _ ascii.0
              (fixed-All (codes middle) _ refl quoted)),
        ascii.1,
        unquote-quoted (flat_map utf8 (codes filename)) bytes_of,
      )
