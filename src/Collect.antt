-- ===== src/Collect.antt =====
-- internal/models/museum.go and internal/collect/merge.go: a museum as a catalogue gives it, its names
-- and the keys that they match under. What Go's html, unicode and strings packages say of characters
-- and texts is an argument.
pub mod Clean
pub mod Merge
pub mod Merger
use museumscraper.Prelude.{
  ℕ, zero, suc, ◌+◌, ◌-◌, ◌*◌, ◌/◌, ◌%◌, ◌^◌, ◌≤◌, ◌<◌, min, max, String, ◌≡◌, refl, sym, ap, ◌∙◌,
  ◌≢◌, ◌↔◌, ◌⊎◌, inl, inr, Bool, true, false, not, ◌&&◌, ◌||◌, Option, none, some, List, [], ◌∷◌,
  ◌++◌, map, arith, ltb, leb, ◌==◌, if◌then◌else◌, ltb→lt, lt→ltb, leb→le, ==_iff, Bool-cases,
  Option-cases, length, get_elem?, set, length-append, length-set, get_elem?-set_self,
  get_elem?-set_ne, All, take, drop, dec_lt, ℕ_discrete,
}
use Prim.Native.Char.{Char, char, code}
use Prim.Native.String.{[] as empty, ◌∷◌ as cons, ◌++◌ as append}
use text.Mathlib.Text.{◌==◌ as str_eq}
use museumscraper.Text.{is_space, is_blank}
use museumscraper.Prelude.Int.{ℤ, pos, negsuc}

-- The fields that the merger reads or writes. The two degrees of a position are integers, of any unit.
pub record Museum : Type 0 where
  pub name : String
  pub country : String
  pub locality : String
  pub description : String
  pub wikipedia_url : String
  pub wikidata_id : String
  pub page_id : ℕ
  pub website : String
  pub sitelinks : ℕ
  pub latitude : ℤ
  pub longitude : ℤ
  pub source_page : String
  pub verified : Bool
  pub also_known_as : List String
  pub sources : List String
  pub classes : List String

abbrev pub is_zero : ℤ → Bool
is_zero (pos n) = n == 0
is_zero (negsuc n) = false

abbrev pub has_coordinates : Museum → Bool
has_coordinates m = not (is_zero m.latitude) || not (is_zero m.longitude)

-- html.UnescapeString, unicode.Is(unicode.Cf, r), IsControl, IsLetter, IsDigit, strings.ToLower and
-- strings.EqualFold.
pub record Unicode : Type 0 where
  pub unescape : String → String
  pub is_format : Char → Bool
  pub is_control : Char → Bool
  pub is_letter : Char → Bool
  pub is_digit : Char → Bool
  pub to_lower : String → String
  pub equal_fold : String → String → Bool

abbrev pub space : Char
space = char 32 tt

-- The line and the paragraph separator.
abbrev pub is_separator : Char → Bool
is_separator c = code c == 8232 || code c == 8233

-- What the regular expression \s matches.
abbrev pub is_ascii_space : Char → Bool
is_ascii_space c = let n = code c in n == 9 || n == 10 || n == 12 || n == 13 || n == 32

-- spacesRe.ReplaceAllString(s, " "), where `within` says that a run of spaces has been replaced.
unfoldable pub collapse : Bool → String → String
collapse within empty = empty
collapse within (cons c s) =
    let run = collapse true s in
    let rest = collapse false s in
    if is_ascii_space c then (if within then run else cons space run) else cons c rest

unfoldable pub trim_left : String → String
trim_left empty = empty
trim_left (cons c s) = let rest = trim_left s in if is_space c then rest else cons c s

unfoldable pub trim_right : String → String
unfolding is_blank
trim_right empty = empty
trim_right (cons c s) =
    let rest = trim_right s in if is_blank (cons c s) then empty else cons c rest

unfoldable pub contains : List String → String → Bool
contains [] a = false
contains (b ∷ bs) a = str_eq b a || contains bs a

module _ (u : Unicode) where
  -- The loop of CleanName.
  unfoldable pub strip : String → String
  strip empty = empty
  strip (cons c s) =
      let rest = strip s in
      if u.is_format c
      then rest
      else if is_separator c
      then cons space rest
      else if u.is_control c
      then cons space rest
      else cons c rest

  unfoldable pub clean_name : String → String
  unfolding strip collapse trim_left trim_right
  clean_name name = trim_right (trim_left (collapse false (strip (u.unescape name))))

  -- The loop of normalizeForMatch.
  unfoldable pub keep_letters : String → String
  keep_letters empty = empty
  keep_letters (cons c s) =
      let rest = keep_letters s in if u.is_letter c || u.is_digit c then cons c rest else rest

  unfoldable pub normalize_for_match : String → String
  unfolding keep_letters
  normalize_for_match s = keep_letters (u.to_lower s)

  unfoldable pub known : String → Bool
  known country = not (str_eq country "") && not (u.equal_fold country "unknown")

  abbrev pub key_of : String → String → String
  key_of normalized country = append normalized (cons (char 0 tt) country)

  -- The loop of nameKeys, over the names that are left, with the keys that it has seen.
  unfoldable pub keys_from : String → List String → List String → List String
  unfolding normalize_for_match contains
  keys_from country seen [] = []
  keys_from country seen (name ∷ names) =
      let normalized = normalize_for_match name in
      let key = key_of normalized country in
      let without = keys_from country seen names in
      let rest = keys_from country (key ∷ seen) names in
      if str_eq normalized "" then without else if contains seen key then without else key ∷ rest

  unfoldable pub name_keys : Museum → List String
  unfolding known keys_from
  name_keys m =
      if not (known m.country)
      then []
      else keys_from (normalize_for_match m.country) [] (m.name ∷ m.also_known_as)
