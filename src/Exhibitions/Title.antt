-- ===== src/Exhibitions/Title.antt =====
-- pkg/exhibitions/extract.go: cleanTitle, which takes labels, dates and buttons off the text of a
-- card. A position counts characters; a length that the source takes in bytes is in bytes here too.
pub mod Slug
pub mod Untagged
pub mod Plain
use museumscraper.Prelude.{
  ℕ, zero, suc, ◌+◌, ◌-◌, ◌*◌, ◌/◌, ◌%◌, ◌^◌, ◌≤◌, ◌<◌, min, max, String, ◌≡◌, refl, sym, ap, ◌∙◌,
  ◌≢◌, ◌↔◌, ◌⊎◌, inl, inr, Bool, true, false, not, ◌&&◌, ◌||◌, Option, none, some, List, [], ◌∷◌,
  ◌++◌, map, arith, ltb, leb, ◌>>=◌, ◌==◌, if◌then◌else◌, ltb→lt, lt→ltb, leb→le, ==_iff,
  Bool-cases, Option-cases, length, get_elem?, set, length-append, length-set, get_elem?-set_self,
  get_elem?-set_ne, All, take, drop, dec_lt, ℕ_discrete,
}
use museumscraper.Text.Bytes.{Bytes, codes, trim, has_prefix}
use museumscraper.Exhibitions.Dates.{Patterns, NumericMatch, NamedMatch, DayMonthMatch}
use museumscraper.Exhibitions.Words.{is_in}
use museumscraper.Exhibitions.Words.Cards.{
  link_affordances, type_labels, permanence_adjectives, title_tails,
}
use mathlib.Core.Option
use museumscraper.Exhibitions.Page.{collapse, byte_length}

-- What the source uses of the packages regexp, strings and unicode: the patterns of dates.go,
-- ToUpper, EqualFold and IsDigit.
pub record Alphabet : Type 0 where
  pub patterns : Patterns
  pub upper : Bytes → Bytes
  pub equal_fold : Bytes → Bytes → Bool
  pub is_digit : ℕ → Bool

-- markupRe.ReplaceAllString(s, " ")
unfoldable pub strip_markup : (inside : Bool) → Bytes → Bytes
strip_markup inside [] = []
strip_markup false (c ∷ s) = elim (c == b'<') [
  | true ↦ 32 ∷ strip_markup true s
  | false ↦ c ∷ strip_markup false s
]
strip_markup true (c ∷ s) = elim (c == b'>') [
  | true ↦ strip_markup false s
  | false ↦ strip_markup true s
]

-- strings.TrimLeft and TrimRight, with the set as a test.
unfoldable pub trim_left_if : (ℕ → Bool) → Bytes → Bytes
trim_left_if p [] = []
trim_left_if p (c ∷ s) = let rest = trim_left_if p s in if p c then rest else c ∷ s

unfoldable pub trim_right_if : (ℕ → Bool) → Bytes → Bytes
trim_right_if p [] = []
trim_right_if p (c ∷ s) = elim (trim_right_if p s) [
  | [] ↦ if p c then [] else c ∷ []
  | d ∷ r ↦ c ∷ d ∷ r
]

-- " :–—-"
abbrev pub is_label_gap : ℕ → Bool
is_label_gap c = c == 32 || c == b':' || c == 8211 || c == 8212 || c == b'-'

-- " ,;:–—-"
abbrev pub is_title_edge : ℕ → Bool
is_title_edge c = is_label_gap c || c == b',' || c == b';'

-- strings.Index and LastIndex
unfoldable pub index : Bytes → Bytes → Option ℕ
unfolding has_prefix
index [] sub = if has_prefix [] sub then some 0 else none
index (c ∷ s) sub =
    let rest = index s sub in if has_prefix (c ∷ s) sub then some 0 else Option.map suc rest

unfoldable pub last_index : Bytes → Bytes → Option ℕ
unfolding has_prefix
last_index [] sub = if has_prefix [] sub then some 0 else none
last_index (c ∷ s) sub = elim (last_index s sub) [
  | some i ↦ some (suc i)
  | none ↦ if has_prefix (c ∷ s) sub then some 0 else none
]

-- A byte that goes on with the word before it.
abbrev pub goes_on : Bytes → Bool
goes_on [] = false
goes_on (c ∷ s) = c == 39 || (leb b'A' c && leb c b'Z') || (leb b'a' c && leb c b'z') || leb 128 c

abbrev pub later : Option ℕ → ℕ → Option ℕ
later none e = some e
later (some best) e = if ltb best e then some e else some best

-- One round of lastTypeLabel, which found the label or not.
unfoldable pub note_label : Bytes → Bytes → Option ℕ → Option ℕ → Option ℕ
note_label title label none best = best
note_label title label (some i) best =
    let e = i + length label in if goes_on (drop e title) then best else later best e

unfoldable pub last_type_label : Bytes → List String → Option ℕ → Option ℕ
last_type_label title [] best = best
last_type_label title (label ∷ labels) best =
    last_type_label title labels
      (note_label title (codes label) (last_index title (codes label)) best)

abbrev pub if_long : Bytes → Bytes → Bytes
if_long rest title = if leb 4 (length rest) then rest else title

-- What stands after the last type label, if it can be a title.
unfoldable pub after_label : Bytes → Option ℕ → Bytes
after_label title none = title
after_label title (some i) = if_long (trim_left_if is_label_gap (drop i title)) title

-- strings.Cut(s, " ")
unfoldable pub cut_space : Bytes → Option (Bytes × Bytes)
cut_space [] = none
cut_space (c ∷ s) = elim (c == 32) [
  | true ↦ some ([], s)
  | false ↦ Option.map (λ (p : Bytes × Bytes). (c ∷ p.0, p.1)) (cut_space s)
]

-- title[:n] and title[n:] for a number of bytes; none if n is past the end or inside a character.
unfoldable pub cut_bytes : ℕ → Bytes → Option (Bytes × Bytes)
unfolding byte_length
cut_bytes zero s = some ([], s)
cut_bytes (suc n) [] = none
cut_bytes (suc n) (c ∷ s) = elim (ltb (suc n) (byte_length (c ∷ []))) [
  | true ↦ none
  | false ↦
      Option.map (λ (p : Bytes × Bytes). (c ∷ p.0, p.1))
        (cut_bytes (suc n - byte_length (c ∷ [])) s)
]

-- title[:i], where i is past the third byte.
unfoldable pub cut_at : Bytes → Option ℕ → Bytes
cut_at title none = title
cut_at title (some i) = if ltb 3 (byte_length (take i title)) then take i title else title

unfoldable pub cut_tails : List String → Bytes → Bytes
cut_tails [] title = title
cut_tails (tail ∷ tails) title = cut_tails tails (cut_at title (index title (codes tail)))

abbrev pub sooner : Option ℕ → Option ℕ → Option ℕ
sooner none b = b
sooner (some a) none = some a
sooner (some a) (some b) = if ltb b a then some b else some a

-- FindStringIndex gives the first match.
abbrev pub first_numeric : List NumericMatch → Option ℕ
first_numeric [] = none
first_numeric (m ∷ ms) = some m.from

abbrev pub first_named : List NamedMatch → Option ℕ
first_named [] = none
first_named (m ∷ ms) = some m.from

abbrev pub first_day_month : List DayMonthMatch → Option ℕ
first_day_month [] = none
first_day_month (m ∷ ms) = some m.from

unfoldable pub first_date_index : Patterns → Bytes → Option ℕ
first_date_index p s =
    sooner
      (sooner
        (sooner (sooner (first_numeric (p.iso_date s)) (first_numeric (p.numeric_date s)))
          (first_named (p.day_month_year s)))
        (first_named (p.month_day_year s)))
      (first_day_month (p.day_month s))

module _ (a : Alphabet) where
  -- trimLeadingWord, after the cut at the first space.
  unfoldable pub without_word : List String → Bytes → Option (Bytes × Bytes) → Bytes
  without_word words title none = title
  without_word words title (some (first, rest)) =
      if is_in words (a.patterns.lower first)
      then if_long (trim_left_if is_label_gap rest) title
      else title

  unfoldable pub trim_leading_word : Bytes → List String → Bytes
  trim_leading_word title words = without_word words title (cut_space (trim title))

  -- title[len(prefix):], if the title is longer than the prefix and starts with it.
  unfoldable pub after_prefix : Bytes → Bytes → Option (Bytes × Bytes) → Option Bytes
  after_prefix title prefix none = none
  after_prefix title prefix (some (start, rest)) =
      if ltb (byte_length prefix) (byte_length title) && a.equal_fold start prefix
      then some rest
      else none

  unfoldable pub trim_affordance : List String → Bytes → Bytes
  trim_affordance [] title = title
  trim_affordance (prefix ∷ prefixes) title =
      let p = codes prefix in
      elim (after_prefix title p (cut_bytes (byte_length p) title)) [
        | some rest ↦ if_long (trim rest) title
        | none ↦ trim_affordance prefixes title
      ]

  -- The title up to the cut at the first date.
  unfoldable pub name_of : Bytes → Bytes
  name_of text =
      let s₁ = collapse (trim (strip_markup false text)) in
      let s₂ = after_label s₁ (last_type_label s₁ type_labels none) in
      trim_affordance link_affordances (trim_leading_word s₂ permanence_adjectives)

  unfoldable pub clean_title : Bytes → Bytes
  clean_title text =
      let s₃ = name_of text in
      let s₄ = cut_tails title_tails (cut_at s₃ (first_date_index a.patterns s₃)) in
      trim_right_if is_title_edge (trim_left_if is_title_edge (trim s₄))
