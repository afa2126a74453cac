-- ===== src/Geo.antt =====
-- pkg/geo/identify.go: the country that a name means. The lower case of a text is an argument.
pub mod Tables
pub mod Spellings
pub mod Canonical
use museumscraper.Prelude.{
  ℕ, zero, suc, ◌+◌, ◌-◌, ◌*◌, ◌/◌, ◌%◌, ◌^◌, ◌≤◌, ◌<◌, min, max, String, ◌≡◌, refl, sym, ap, ◌∙◌,
  ◌≢◌, ◌↔◌, ◌⊎◌, inl, inr, Bool, true, false, not, ◌&&◌, ◌||◌, Option, none, some, List, [], ◌∷◌,
  ◌++◌, map, arith, ltb, leb, ◌==◌, if◌then◌else◌, ltb→lt, lt→ltb, leb→le, ==_iff, Bool-cases,
  Option-cases, length, get_elem?, set, length-append, length-set, get_elem?-set_self,
  get_elem?-set_ne, All, take, drop, dec_lt, ℕ_discrete,
}
use text.Mathlib.Text.{◌==◌ as str_eq}
use museumscraper.Collect.{trim_left, trim_right, contains}
use museumscraper.Text.{trim_prefix}
use museumscraper.Geo.Tables.{countries, country_iso, country_aliases}

-- A lookup in a map, given by its entries.
unfoldable pub entry : List (String × String) → String → Option String
entry [] k = none
entry (e ∷ es) k = elim (str_eq e.0 k) [ true ↦ some e.1 | false ↦ entry es k ]

abbrev pub or_else : Option String → Option String → Option String
or_else (some a) o = some a
or_else none o = o

-- countryIndex, whose later entries replace the earlier ones.
unfoldable pub index_of : (String → String) → List String → String → Option String
index_of lower [] k = none
index_of lower (c ∷ cs) k =
    or_else (index_of lower cs k) (if str_eq (lower c) k then some c else none)

abbrev pub or_self : String → Option String → String
or_self c (some alias) = alias
or_self c none = c

abbrev pub map_some : (String → String) → Option String → Option String
map_some f none = none
map_some f (some c) = some (f c)

abbrev pub code_of : Option String → Option String
code_of none = none
code_of (some canonical_name) = entry country_iso canonical_name

module _ (lower : String → String) where
  -- A spelling of the index may itself be another spelling of a country.
  abbrev pub through_alias : String → String
  through_alias c = or_self c (entry country_aliases (lower c))

  -- The body of the loop over the two candidates.
  unfoldable pub find_candidate : String → Option String
  find_candidate candidate =
      or_else (entry country_aliases candidate)
        (map_some through_alias (index_of lower countries candidate))

  unfoldable pub canonical : String → Option String
  canonical place =
      let normalized = lower (trim_right (trim_left place)) in
      or_else (find_candidate normalized) (find_candidate (trim_prefix normalized "the "))

  abbrev pub is_country : String → Bool
  is_country place = elim (canonical place) [ some c ↦ true | none ↦ false ]

  abbrev pub identify_place : String → String
  identify_place place = if is_country place then "country" else "city"

  unfoldable pub iso_code : String → Option String
  iso_code country = code_of (canonical country)
