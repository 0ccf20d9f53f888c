-- ===== src/Prelude/Text.antt =====
-- Texts as code points, and bytes as numbers.
use Prim.Native.Nat.{ℕ, ◌+◌}
use Prim.Native.Char.{Char, code}
use Prim.Native.String.{String}
use mathlib.Core.Path.{◌≡◌, refl}
use native.Mathlib.Omega.{arith}
use mathlib.Core.Bool.{Bool, true, false, ◌&&◌}
use mathlib.Core.List.{List, [], ◌∷◌, map}
use fastapi_template.Prelude.Tests.{◌==◌, leb, if◌then◌else◌}

abbrev pub Bytes : Type 0
Bytes = List ℕ

abbrev pub codes : String → List ℕ
codes String.[] = []
codes (String.◌∷◌ c s) = code c ∷ codes s

-- str.lower and bytes.lower, on ASCII
abbrev pub lower_code : ℕ → ℕ
lower_code c = if leb b'A' c && leb c b'Z' then c + 32 else c

abbrev pub lower : List ℕ → List ℕ
lower cs = map lower_code cs

abbrev pub codes_eq : List ℕ → List ℕ → Bool
codes_eq [] [] = true
codes_eq (a ∷ cs) (b ∷ bs) = a == b && codes_eq cs bs
codes_eq _ _ = false

pub codes_eq-eq : (a b : List ℕ) → codes_eq a b ≡ true → a ≡ b
codes_eq-eq [] [] h = refl
codes_eq-eq [] (d ∷ b) h = cc
codes_eq-eq (c ∷ a) [] h = cc
codes_eq-eq (c ∷ a) (d ∷ b) h = ground (arith, codes_eq-eq a b)

pub codes_eq_refl : (a : List ℕ) → codes_eq a a ≡ true
codes_eq_refl [] = refl
codes_eq_refl (c ∷ a) = ground (arith, codes_eq_refl a)

abbrev pub with_first : Char → List String → List String
with_first c [] = String.◌∷◌ c String.[] ∷ []
with_first c (s ∷ rest) = String.◌∷◌ c s ∷ rest

-- text.split(separator)
abbrev pub split_on : ℕ → String → List String
split_on separator String.[] = String.[] ∷ []
split_on separator (String.◌∷◌ c s) =
    let rest = split_on separator s in
    if code c == separator then String.[] ∷ rest else with_first c rest

abbrev pub is_empty : String → Bool
is_empty String.[] = true
is_empty (String.◌∷◌ c s) = false

-- text.strip(…), of the characters that `is_space` names
module _ (is_space : Char → Bool) where
  abbrev pub lstrip : String → String
  lstrip String.[] = String.[]
  lstrip (String.◌∷◌ c s) = let rest = lstrip s in if is_space c then rest else String.◌∷◌ c s

  abbrev pub rstrip : String → String
  rstrip String.[] = String.[]
  rstrip (String.◌∷◌ c s) =
      let rest = rstrip s in if is_space c && is_empty rest then String.[] else String.◌∷◌ c rest

  abbrev pub stripped : String → String
  stripped s = rstrip (lstrip s)

-- The one text followed by the other
abbrev pub followed : String → String → String
followed String.[] t = t
followed (String.◌∷◌ c s) t = String.◌∷◌ c (followed s t)
