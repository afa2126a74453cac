-- ===== src/Exhibitions/Title/Slug/Counter.antt =====
-- pkg/exhibitions/extract.go: trimOccurrenceSuffix on the slugs of one event.
use museumscraper.Prelude.{
  ◌≡◌, refl, Bool, true, ◌&&◌, none, some, [], ◌∷◌, ◌++◌, arith, ltb, leb, length,
}
use museumscraper.Prelude.{take-length, drop-length}
use museumscraper.Text.Bytes.{Bytes, has_prefix}
use museumscraper.Exhibitions.Title.{last_index}
use museumscraper.Exhibitions.Page.Stamps.{is_ascii_digit, number_from}
use museumscraper.Exhibitions.Title.Slug.{count_dashes, is_int, trim_occurrence_suffix}

abbrev pub are_digits : Bytes → Bool
are_digits [] = true
are_digits (c ∷ s) = is_ascii_digit c && are_digits s

last_index-digits : (s : Bytes) → are_digits s ≡ true → last_index s (b'-' ∷ []) ≡ none
unfolding last_index has_prefix
last_index-digits [] h = refl
last_index-digits (c ∷ s) h =
    rw (last_index, last_index-digits s (ground (arith, h))) (ground (arith, h))

last_index-dash :
    (name d : Bytes)
    → are_digits d ≡ true
    → last_index (name ++ b'-' ∷ d) (b'-' ∷ []) ≡ some (length name)
unfolding last_index has_prefix
last_index-dash [] d h = rw (last_index, last_index-digits d h) refl
last_index-dash (c ∷ name) d h = rw (last_index, last_index-dash name d h) refl

is_int-digits :
    (d : Bytes)
    → are_digits d ≡ true
    → ltb 0 (length d) ≡ true
    → leb (length d) 2 ≡ true
    → is_int d ≡ true
unfolding is_int number_from
is_int-digits [] h k l = absurd (ground (arith, k))
is_int-digits (a ∷ []) h k l = ground (arith, h)
is_int-digits (a ∷ b ∷ []) h k l = ground (arith, h)
is_int-digits (a ∷ b ∷ c ∷ d) h k l = absurd (ground (arith, l))

length-dashes : (name : Bytes) → leb 2 (count_dashes name) ≡ true → ltb 0 (length name) ≡ true
unfolding count_dashes
length-dashes [] h = absurd (ground (arith, h))
length-dashes (c ∷ name) h = ground arith

-- The counter that a site appends to the slug of an event, one or two digits after a dash, is taken
-- off again where the name has two dashes of its own, so that every occurrence has the same slug.
pub trim_occurrence_suffix_lem :
    (name d : Bytes)
    → are_digits d ≡ true
    → ltb 0 (length d) ≡ true
    → leb (length d) 2 ≡ true
    → leb 2 (count_dashes name) ≡ true
    → trim_occurrence_suffix (name ++ b'-' ∷ d) ≡ name
unfolding trim_occurrence_suffix
trim_occurrence_suffix_lem name d h k l n =
    rw
      (
        last_index-dash name d h,
        take-length name (b'-' ∷ d),
        drop-length name b'-' d,
        length-dashes name n,
        k,
        l,
        is_int-digits d h k l,
        n,
      )
      refl
