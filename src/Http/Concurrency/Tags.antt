-- ===== src/Http/Concurrency/Tags.antt =====
-- The tag of a version, read back by app/core/http/concurrency.py.
use fastapi_template.Prelude.{
  lstrip, ℕ, ◌≡◌, refl, ◌∙◌, inl, inr, Bool, true, false, some, arith, str_eq, Bool-cases, is_empty,
  rstrip, stripped, followed,
}
use fastapi_template.Errors.{ok}
use fastapi_template.Http.Concurrency.{
  Decimal, is_quote, is_unquoted, any_version, without_weak, etag_for, parse_etag, require_if_match,
}
use mathlib.Core.Path.{ap}
use text.Mathlib.TextEquality.{eq_iff}
use Prim.Native.Char.{Char, code}
use Prim.Native.String.{String}

abbrev head_code : String → ℕ
head_code String.[] = 0
head_code (String.◌∷◌ c s) = code c

rstrip-followed :
    (sp : Char → Bool) (s : String) (c : Char)
    → sp c ≡ false
    → (rstrip sp (followed s (String.◌∷◌ c String.[])) ≡ followed s (String.◌∷◌ c String.[]))
      × (is_empty (followed s (String.◌∷◌ c String.[])) ≡ false)
rstrip-followed sp String.[] c h = (rw h refl, refl)
rstrip-followed sp (String.◌∷◌ d s) c h =
    let (same, full) = rstrip-followed sp s c h in (ground (arith, same, full), refl)

rstrip-quote : (s : String) → is_unquoted s ≡ true → rstrip is_quote (followed s "\"") ≡ s
rstrip-quote String.[] h = refl
rstrip-quote (String.◌∷◌ c s) h = ground (arith, rstrip-quote s, h)

lstrip-unquoted :
    (s : String)
    → is_empty s ≡ false
    → is_unquoted s ≡ true
    → lstrip is_quote (followed s "\"") ≡ followed s "\""
lstrip-unquoted String.[] h k = absurd (cc)
lstrip-unquoted (String.◌∷◌ c s) h k = ground (arith, k)

module _ (d : Decimal) where
  stripped_tag : (version : ℕ) → stripped d.is_space (etag_for d version) ≡ etag_for d version
  unfolding etag_for
  stripped_tag version =
      rw d.tag_is_bare.0
        ((rstrip-followed d.is_space (followed "W/\"" (d.str version)) "\"" d.tag_is_bare.1).0)

  bare_tag : (version : ℕ) → stripped is_quote (without_weak (etag_for d version)) ≡ d.str version
  unfolding etag_for
  bare_tag version =
      rw (lstrip-unquoted (d.str version) (d.str_nonempty version) (d.str_unquoted version))
        (rstrip-quote (d.str version) (d.str_unquoted version))

  pub parse_etag-etag_for : (version : ℕ) → parse_etag d (etag_for d version) ≡ some version
  unfolding parse_etag
  parse_etag-etag_for version =
      ap (λ s. d.int (stripped is_quote (without_weak s))) (stripped_tag version)
      ∙ ap d.int (bare_tag version)
      ∙ d.int-str version

  not_any : (version : ℕ) → str_eq (etag_for d version) any_version ≡ false
  unfolding etag_for
  not_any version = elim (Bool-cases (str_eq (etag_for d version) any_version)) [
    | inr differs ↦ differs
    | inl same ↦
        absurd (omega (arith, ap head_code ((eq_iff (etag_for d version) any_version).0 same)))
  ]

  -- sent back
  pub require_if_match-etag_for :
      (version : ℕ) → require_if_match d (some (etag_for d version)) ≡ ok (some version)
  unfolding require_if_match
  require_if_match-etag_for version =
      rw (stripped_tag version, not_any version, parse_etag-etag_for version) refl
