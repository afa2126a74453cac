-- ===== src/Search.antt =====
-- internal/search/normalize.go: the comparable form of a text, and its terms. What x/text folds and
-- Go's unicode and strings packages say of characters are arguments.
pub mod Words
use museumscraper.Prelude.{
  ℕ, zero, suc, ◌+◌, ◌-◌, ◌*◌, ◌/◌, ◌%◌, ◌^◌, ◌≤◌, ◌<◌, min, max, String, ◌≡◌, refl, sym, ap, ◌∙◌,
  ◌≢◌, ◌↔◌, ◌⊎◌, inl, inr, Bool, true, false, not, ◌&&◌, ◌||◌, Option, none, some, List, [], ◌∷◌,
  ◌++◌, map, arith, ltb, leb, ◌==◌, if◌then◌else◌, ltb→lt, lt→ltb, leb→le, ==_iff, Bool-cases,
  Option-cases, length, get_elem?, set, length-append, length-set, get_elem?-set_self,
  get_elem?-set_ne, All, take, drop, dec_lt, ℕ_discrete,
}
use museumscraper.Text.Bytes.{Bytes, codes, fields, join, among}

-- `fold` is transform.String with the source's transformer, or the text itself where that fails.
pub record Letters : Type 0 where
  pub fold : Bytes → Bytes
  pub lower : Bytes → Bytes
  pub is_letter : ℕ → Bool
  pub is_digit : ℕ → Bool

-- ħ ł ø æ œ ß đ ð þ ı ŧ ĸ ŋ ə
abbrev pub transliterations : List (ℕ × Bytes)
transliterations =
    (295, codes "h")
    ∷ (322, codes "l")
    ∷ (248, codes "o")
    ∷ (230, codes "ae")
    ∷ (339, codes "oe")
    ∷ (223, codes "ss")
    ∷ (273, codes "d")
    ∷ (240, codes "d")
    ∷ (254, codes "th")
    ∷ (305, codes "i")
    ∷ (359, codes "t")
    ∷ (312, codes "k")
    ∷ (331, codes "n")
    ∷ (601, codes "e")
    ∷ []

abbrev pub transliteration_in : List (ℕ × Bytes) → ℕ → Option Bytes
transliteration_in [] r = none
transliteration_in (p ∷ ps) r =
    let rest = transliteration_in ps r in if p.0 == r then some p.1 else rest

unfoldable pub transliteration : ℕ → Option Bytes
transliteration r = transliteration_in transliterations r

module _ (l : Letters) where
  -- The loop over the folded text.
  unfoldable pub separate : Bytes → Bytes
  separate [] = []
  separate (r ∷ s) =
      let rest = separate s in
      if l.is_letter r || l.is_digit r
      then elim (transliteration r) [ some replacement ↦ replacement ++ rest | none ↦ r ∷ rest ]
      else b' ' ∷ rest

  unfoldable pub normalize : Bytes → Bytes
  unfolding separate
  normalize s = join (b' ' ∷ []) (fields (separate (l.lower (l.fold s))))

  -- The loop over the fields, with the terms so far.
  unfoldable pub distinct : List Bytes → List Bytes → List Bytes
  distinct tokens [] = tokens
  distinct tokens (field ∷ rest) = elim (among tokens field) [
    | true ↦ distinct tokens rest
    | false ↦ distinct (tokens ++ field ∷ []) rest
  ]

  unfoldable pub tokens : Bytes → List Bytes
  unfolding normalize distinct
  tokens s = distinct [] (fields (normalize s))
