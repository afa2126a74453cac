-- ===== src/Geo/Canonical.antt =====
-- pkg/geo/identify.go: canonical spellings stay as they are, and each has a code.
use museumscraper.Prelude.{String, ◌≡◌, refl, sym, ap, ◌∙◌, true, Option, none, some, arith, All}
use mathlib.Core.Path.{ap₂}
use text.Mathlib.TextEquality.{eq_iff}
use museumscraper.Text.{trim_prefix}
use museumscraper.Geo.Tables.{countries, country_iso, country_aliases}
use museumscraper.Geo.{
  entry, index_of, or_else, or_self, map_some, through_alias, code_of, find_candidate, canonical,
  iso_code,
}
use museumscraper.Geo.Spellings.{
  ascii_lower, trim, is_found, is_some, is_fixed, Agrees, countries-all_settled, canonical-IsFixed,
  index_of-IsListed, index_of-ascii_lower,
}

module _ (lower : String → String) where
  map_some-ap :
      (f g : String → String) (o : Option String)
      → ((x : String) → o ≡ some x → f x ≡ g x)
      → map_some f o ≡ map_some g o
  map_some-ap f g none h = refl
  map_some-ap f g (some x) h = ap some (h x refl)

  find_candidate-ascii_lower :
      (k : String)
      → All (Agrees lower) countries
      → find_candidate lower k ≡ find_candidate ascii_lower k
  unfolding find_candidate
  find_candidate-ascii_lower k h = ap (or_else (entry country_aliases k)) (
      map_some-ap (through_alias lower) (through_alias ascii_lower) (index_of lower countries k)
        (λ c r.
          ap (λ l. or_self c (entry country_aliases l))
            (index_of-IsListed lower countries k c h countries-all_settled r).1)
      ∙ ap (map_some (through_alias ascii_lower)) (index_of-ascii_lower lower countries k h))

  canonical-ascii_lower :
      (c : String)
      → All (Agrees lower) countries
      → Agrees lower c
      → trim c ≡ c
      → canonical lower c ≡ canonical ascii_lower c
  unfolding canonical
  canonical-ascii_lower c h p t =
      let k = ap lower t ∙ p ∙ ap ascii_lower (sym t) in
      let same = λ (s : String). find_candidate-ascii_lower s h in
      let n = ascii_lower (trim c) in
      ap (λ l. or_else (find_candidate lower l) (find_candidate lower (trim_prefix l "the "))) k
      ∙ ap₂ or_else (same n) (same (trim_prefix n "the "))

is_found-some : (o : Option String) (c : String) → is_found o c ≡ true → o ≡ some c
is_found-some none c h = absurd (ground (arith, h))
is_found-some (some d) c h = ap some ((eq_iff d c).0 h)

-- The canonical spelling of a country, whatever it was found by, is its own canonical spelling, where
-- the lower case of the names of countries is that of their ASCII letters.
pub canonical-canonical :
    (lower : String → String) (place c : String)
    → All (λ n. lower n ≡ ascii_lower n) countries
    → canonical lower place ≡ some c
    → canonical lower c ≡ some c
unfolding is_fixed
canonical-canonical lower place c h e =
    let (fixed, agrees) = canonical-IsFixed lower place c h e in
    let trimmed = (eq_iff (trim c) c).0 (ground (arith, fixed)) in
    canonical-ascii_lower lower c h agrees trimmed
    ∙ is_found-some (canonical ascii_lower c) c (ground (arith, fixed))

is_some-some : (o : Option String) → is_some o ≡ true → (v : String) × (o ≡ some v)
is_some-some none h = absurd (ground (arith, h))
is_some-some (some v) h = (v, refl)

-- Every place that names a country has an ISO code, where the lower case of the names of countries is
-- that of their ASCII letters.
pub iso_code-canonical :
    (lower : String → String) (place c : String)
    → All (λ n. lower n ≡ ascii_lower n) countries
    → canonical lower place ≡ some c
    → (code : String) × (iso_code lower place ≡ some code)
unfolding is_fixed iso_code
iso_code-canonical lower place c h e =
    let (fixed, _) = canonical-IsFixed lower place c h e in
    let (v, found) = is_some-some (entry country_iso c) (ground (arith, fixed)) in
    (v, ap code_of e ∙ found)
