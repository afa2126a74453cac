-- ===== src/Exhibitions/Title/Slug.antt =====
-- pkg/exhibitions/extract.go: titleFromSlug, which reads a title off the last segment of a path. The
-- pattern of publishDateRe is written out.
pub mod Counter
use museumscraper.Prelude.{
  ℕ, zero, suc, ◌+◌, ◌-◌, ◌*◌, ◌/◌, ◌%◌, ◌^◌, ◌≤◌, ◌<◌, min, max, String, ◌≡◌, refl, sym, ap, ◌∙◌,
  ◌≢◌, ◌↔◌, ◌⊎◌, inl, inr, Bool, true, false, not, ◌&&◌, ◌||◌, Option, none, some, List, [], ◌∷◌,
  ◌++◌, map, arith, ltb, leb, ◌>>=◌, ◌==◌, if◌then◌else◌, ltb→lt, lt→ltb, leb→le, ==_iff,
  Bool-cases, Option-cases, length, get_elem?, set, length-append, length-set, get_elem?-set_self,
  get_elem?-set_ne, All, take, drop, dec_lt, ℕ_discrete,
}
use museumscraper.Text.Bytes.{Bytes, codes, trim, fields, join}
use museumscraper.Exhibitions.Page.{collapse}
use museumscraper.Exhibitions.Page.Stamps.{is_ascii_digit, number_from}
use museumscraper.Exhibitions.Title.{Alphabet, trim_left_if, trim_right_if, last_index}

abbrev pub is_slash : ℕ → Bool
is_slash c = c == b'/'

-- strings.Trim(path, "/")
unfoldable pub trim_slashes : Bytes → Bytes
trim_slashes s = trim_right_if is_slash (trim_left_if is_slash s)

-- s[strings.LastIndex(s, "/")+1:]
unfoldable pub last_segment : Bytes → Bytes
last_segment s = elim (last_index s (b'/' ∷ [])) [ none ↦ s | some i ↦ drop (suc i) s ]

-- The value of decimal digits is at most the bound.
abbrev pub is_up_to : ℕ → Option ℕ → Bool
is_up_to bound none = false
is_up_to bound (some n) = leb n bound

abbrev pub is_digits : (bound : ℕ) → Bytes → Bool
is_digits bound [] = false
is_digits bound (c ∷ s) = is_up_to bound (number_from 0 (c ∷ s))

-- strconv.Atoi gives no error.
unfoldable pub is_int : Bytes → Bool
is_int [] = false
is_int (c ∷ s) =
    if c == b'-'
    then is_digits (2 ^ 63) s
    else if c == b'+'
    then is_digits (2 ^ 63 - 1) s
    else is_digits (2 ^ 63 - 1) (c ∷ s)

-- slug[:i] for the last '.', if that is not at its start.
abbrev pub cut_extension : Bytes → Option ℕ → Bytes
cut_extension slug none = slug
cut_extension slug (some i) = if ltb 0 i then take i slug else slug

-- [-_.]
abbrev pub is_date_gap : ℕ → Bool
is_date_gap c = c == b'-' || c == b'_' || c == b'.'

abbrev pub is_gap_at : Bytes → Bool
is_gap_at [] = false
is_gap_at (c ∷ s) = is_date_gap c

-- Two digits that write a number in the range.
abbrev pub is_number_in : (low high : ℕ) → Bytes → Bool
is_number_in low high s = elim (number_from 0 s) [
  | none ↦ false
  | some n ↦ length s == 2 && leb low n && leb n high
]

abbrev pub is_year : Bytes → Bool
is_year s = elim (number_from 0 s) [ none ↦ false | some n ↦ length s == 4 ]

-- `^\d{4}[-_.](?:0[1-9]|1[0-2])[-_.](?:0[1-9]|[12]\d|3[01])` matches.
unfoldable pub starts_with_day : Bytes → Bool
starts_with_day s =
    is_year (take 4 s)
    && is_gap_at (drop 4 s)
    && is_number_in 1 12 (take 2 (drop 5 s))
    && is_gap_at (drop 7 s)
    && is_number_in 1 31 (take 2 (drop 8 s))

-- `(?:[-_.]+|$)` after the day.
abbrev pub past_gaps : Bytes → Bytes → Bytes
past_gaps slug [] = []
past_gaps slug (c ∷ s) = if is_date_gap c then trim_left_if is_date_gap s else slug

unfoldable pub trim_publish_date : Bytes → Bytes
trim_publish_date slug = if starts_with_day slug then past_gaps slug (drop 10 slug) else slug

-- strings.Count(s, "-")
unfoldable pub count_dashes : Bytes → ℕ
count_dashes [] = 0
count_dashes (c ∷ s) = let rest = count_dashes s in if c == b'-' then suc rest else rest

-- A counter of one or two digits after a name with two dashes.
abbrev pub is_counter : Bytes → Bytes → Bool
is_counter name suffix =
    ltb 0 (length suffix) && leb (length suffix) 2 && is_int suffix && leb 2 (count_dashes name)

abbrev pub cut_counter : Bytes → Option ℕ → Bytes
cut_counter slug none = slug
cut_counter slug (some i) =
    if ltb 0 i && is_counter (take i slug) (drop (suc i) slug) then take i slug else slug

unfoldable pub trim_occurrence_suffix : Bytes → Bytes
trim_occurrence_suffix slug = cut_counter slug (last_index slug (b'-' ∷ []))

-- strings.NewReplacer("-", " ", "_", " ")
unfoldable pub spaced : Bytes → Bytes
spaced [] = []
spaced (c ∷ s) = (if c == b'-' || c == b'_' then 32 else c) ∷ spaced s

-- What titleFromSlug makes of the last segment.
unfoldable pub readable : Bytes → Bytes
readable segment =
    let slug = cut_extension segment (last_index segment (b'.' ∷ [])) in
    trim (collapse (spaced (trim_occurrence_suffix (trim_publish_date slug))))

module _ (a : Alphabet) where
  unfoldable pub only_digits : Bytes → Bool
  only_digits [] = true
  only_digits (c ∷ s) = (c == 32 || a.is_digit c) && only_digits s

  -- The first rune in upper case.
  abbrev pub capital : Bytes → Bytes
  capital [] = []
  capital (c ∷ s) = a.upper (c ∷ []) ++ s

  unfoldable pub title_from_slug : Bytes → Bytes
  title_from_slug path =
      let slug = readable (last_segment (trim_slashes path)) in
      if ltb (length slug) 3 || only_digits slug
      then []
      else join (32 ∷ []) (map capital (fields slug))
