-- ===== src/Exhibitions/Title/Plain.antt =====
-- pkg/exhibitions/extract.go: what a clean title is free of.
use museumscraper.Prelude.{
  String, ◌≡◌, inl, inr, true, false, ◌&&◌, Option, none, some, List, [], ◌∷◌, ltb, Held,
  Option-cases,
}
use museumscraper.Prelude.{if-keeps}
use mathlib.Core.Path.{subst}
use museumscraper.Text.Bytes.{Bytes, codes, trim}
use museumscraper.Exhibitions.Words.{is_in}
use museumscraper.Exhibitions.Words.Cards.{
  link_affordances, type_labels, permanence_adjectives, title_tails,
}
use museumscraper.Exhibitions.Page.{collapse, byte_length}
use museumscraper.Exhibitions.Title.{
  Alphabet, strip_markup, trim_left_if, is_label_gap, is_title_edge, last_type_label, if_long,
  after_label, cut_space, cut_bytes, cut_at, cut_tails, first_date_index, without_word,
  trim_leading_word, after_prefix, trim_affordance, name_of, clean_title,
}
use museumscraper.Exhibitions.Title.Untagged.{
  is_untagged, strip_markup-untagged, collapse_from-untagged, trim-untagged, trim_left_if-untagged,
  trim_right_if-untagged, if_long-untagged, after_label-untagged, IsUntagged, cut_space-IsUntagged,
  cut_bytes-IsUntagged, cut_at-untagged, cut_tails-untagged, starts_apart, ends_apart,
  trim_left_if-apart, trim_right_if-apart, trim_right_if-start,
}

module _ (a : Alphabet) where
  without_word-untagged :
      (words : List String) (title : Bytes) (o : Option (Bytes × Bytes))
      → is_untagged title ≡ true
      → Held IsUntagged o
      → is_untagged (without_word a words title o) ≡ true
  unfolding without_word
  without_word-untagged words title none h k = h
  without_word-untagged words title (some (first, rest)) h k =
      if-keeps (λ (t : Bytes). is_untagged t ≡ true) (is_in words (a.patterns.lower first))
        (if_long (trim_left_if is_label_gap rest) title) title
        (if_long-untagged (trim_left_if is_label_gap rest) title
          (trim_left_if-untagged is_label_gap rest k) h)
        h

  trim_leading_word-untagged :
      (title : Bytes) (words : List String)
      → is_untagged title ≡ true
      → is_untagged (trim_leading_word a title words) ≡ true
  unfolding trim_leading_word
  trim_leading_word-untagged title words h =
      without_word-untagged words title (cut_space (trim title)) h
        (cut_space-IsUntagged (trim title) (trim-untagged title h))

  abbrev IsFree : Bytes → Type 0
  IsFree s = is_untagged s ≡ true

  after_prefix-untagged :
      (title prefix : Bytes) (o : Option (Bytes × Bytes))
      → Held IsUntagged o
      → Held IsFree (after_prefix a title prefix o)
  unfolding after_prefix
  after_prefix-untagged title prefix none h = tt
  after_prefix-untagged title prefix (some (start, rest)) h =
      if-keeps (Held IsFree)
        (ltb (byte_length prefix) (byte_length title) && a.equal_fold start prefix) (some rest) none
        h tt

  trim_affordance-untagged :
      (prefixes : List String) (title : Bytes)
      → IsFree title
      → IsFree (trim_affordance a prefixes title)
  unfolding trim_affordance
  trim_affordance-untagged [] title h = h
  trim_affordance-untagged (prefix ∷ prefixes) title h =
      let p = codes prefix in
      let o = after_prefix a title p (cut_bytes (byte_length p) title) in
      let held =
        after_prefix-untagged title p (cut_bytes (byte_length p) title)
          (cut_bytes-IsUntagged (byte_length p) title h) in
      elim (Option-cases o) [
        | inl e ↦ rw (trim_affordance, e) (trim_affordance-untagged prefixes title h)
        | inr (rest, e) ↦
            let free = subst (λ (x : Option Bytes). Held IsFree x) e held in
            rw (trim_affordance, e) (if_long-untagged (trim rest) title (trim-untagged rest free) h)
      ]

  name_of-untagged : (text : Bytes) → IsFree (name_of a text)
  unfolding name_of collapse
  name_of-untagged text =
      let s₁ = collapse (trim (strip_markup false text)) in
      let s₂ = after_label s₁ (last_type_label s₁ type_labels none) in
      let free₁ =
        collapse_from-untagged false (trim (strip_markup false text))
          (trim-untagged (strip_markup false text) (strip_markup-untagged false text)) in
      trim_affordance-untagged link_affordances (trim_leading_word a s₂ permanence_adjectives) (
        trim_leading_word-untagged s₂ permanence_adjectives
          (after_label-untagged s₁ (last_type_label s₁ type_labels none) free₁))

  -- Whatever the text of a card, no tag opens in the title that is made of it, and the title neither
  -- starts nor ends with a space, a dash, a comma, a colon or a semicolon.
  pub clean_title-untagged :
      (text : Bytes)
      → (is_untagged (clean_title a text) ≡ true)
        × (starts_apart is_title_edge (clean_title a text) ≡ true)
        × (ends_apart is_title_edge (clean_title a text) ≡ true)
  unfolding clean_title
  clean_title-untagged text =
      let s₃ = name_of a text in
      let cut = cut_at s₃ (first_date_index a.patterns s₃) in
      let s₄ = cut_tails title_tails cut in
      let s₅ = trim_left_if is_title_edge (trim s₄) in
      let free =
        cut_tails-untagged title_tails cut
          (cut_at-untagged s₃ (first_date_index a.patterns s₃) (name_of-untagged text)) in
      (
        trim_right_if-untagged is_title_edge s₅
            (trim_left_if-untagged is_title_edge (trim s₄) (trim-untagged s₄ free)),
        trim_right_if-start is_title_edge s₅ (trim_left_if-apart is_title_edge (trim s₄)),
        trim_right_if-apart is_title_edge s₅,
      )
