-- ===== src/Prelude/Sorted.antt =====
-- Sorting by a Boolean order, and the order of texts by their code points.
use Prim.Native.Char.{code}
use Prim.Native.String.{String}
use mathlib.Core.Bool.{Bool, true, false, ◌&&◌, ◌||◌}
use mathlib.Core.List.{List, [], ◌∷◌}
use fastapi_template.Prelude.Tests.{◌==◌, ltb, if◌then◌else◌}

abbrev pub str_le : String → String → Bool
str_le String.[] t = true
str_le (String.◌∷◌ c s) String.[] = false
str_le (String.◌∷◌ c s) (String.◌∷◌ d t) = ltb (code c) (code d) || (code c == code d && str_le s t)

module _ {ℓ} {A : Type ℓ} where
  abbrev pub insert_sorted : (A → A → Bool) → A → List A → List A
  insert_sorted le a [] = a ∷ []
  insert_sorted le a (b ∷ bs) =
      let rest = insert_sorted le a bs in if le a b then a ∷ b ∷ bs else b ∷ rest

  abbrev pub sort_by : (A → A → Bool) → List A → List A
  sort_by le [] = []
  sort_by le (a ∷ rest) = insert_sorted le a (sort_by le rest)
