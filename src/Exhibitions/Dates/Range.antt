-- ===== src/Exhibitions/Dates/Range.antt =====
-- pkg/exhibitions/dates.go: what ParseDateRange gives, and the days that a range covers.
use museumscraper.Prelude.{
  ℕ, ◌+◌, ◌≡◌, refl, inl, inr, Bool, true, false, not, ◌||◌, Option, none, some, List, [], ◌∷◌,
  arith, ◌==◌, if◌then◌else◌, Bool-cases, length,
}
use museumscraper.Text.Bytes.{Bytes, trim}
use museumscraper.Exhibitions.Calendar.{Date, before, before_trans, before_irrefl}
use museumscraper.Exhibitions.Dates.{
  Patterns, Located, find_dates, DateRange, is_known_date, is_zero, starts_after, ended_before,
  runs, upcoming, lead, last_date, range_of, parse_date_range,
}

-- The bounds are in order.
abbrev pub in_order : Option Date → Option Date → Bool
in_order (some a) (some b) = not (before b a)
in_order _ _ = true

before-asym : (a b : Date) → before a b ≡ true → before b a ≡ false
before-asym a b h = ground (arith, h)

-- A range whose bounds are in order and which has no closing date where it has no end.
pub record IsRange (r : DateRange) : Type 0 where
  pub ordered : in_order r.start r.end ≡ true
  pub unending : r.permanent ≡ true → r.end ≡ none

range_of-IsRange : (p : Patterns) (text : Bytes) (ls : List Located) → IsRange (range_of p text ls)
unfolding range_of
range_of-IsRange p text [] = record { ordered = refl; unending = λ h. refl }
range_of-IsRange p text (l ∷ []) = elim (Bool-cases (p.open_ended (lead text l.at))) [
  | inl y ↦ rw (range_of, y) (record { ordered = refl; unending = λ h. absurd (ground (arith, h)) })
  | inr n ↦ elim (Bool-cases (p.open_start (lead text l.at))) [
    | inl y ↦ rw (range_of, n, y) (record { ordered = refl; unending = λ h. refl })
    | inr m ↦
        rw (range_of, n, m)
          (record {
            ordered = ground (arith, before_irrefl l.when);
            unending = λ h. absurd (ground (arith, h));
          })
  ]
]
range_of-IsRange p text (l ∷ m ∷ ms) = elim (Bool-cases (before (last_date m ms) l.when)) [
  | inl y ↦
      rw (range_of, y)
        (record {
          ordered = ground (arith, before-asym (last_date m ms) l.when y);
          unending = λ h. absurd (ground (arith, h));
        })
  | inr n ↦
      rw (range_of, n)
        (record { ordered = ground (arith, n); unending = λ h. absurd (ground (arith, h)) })
]

-- Whatever the text of a listing, the range that is read from it does not end before it starts, and a
-- permanent one has no closing date.
pub parse_date_range-IsRange :
    (p : Patterns) (text : Bytes) (this_year : ℕ) → IsRange (parse_date_range p text this_year)
unfolding parse_date_range
parse_date_range-IsRange p text this_year =
    let ls = find_dates p (trim text) this_year in
    elim (Bool-cases (length (trim text) == 0)) [
      | inl y ↦ rw (parse_date_range, y) (record { ordered = refl; unending = λ h. refl })
      | inr n ↦ elim (Bool-cases (p.ongoing (trim text))) [
        | inl y ↦
            rw (parse_date_range, n, y) (record { ordered = ground arith; unending = λ h. refl })
        | inr m ↦ rw (parse_date_range, n, m) (range_of-IsRange p (trim text) ls)
      ]
    ]

abbrev pub count : Bool → ℕ
count b = if b then 1 else 0

abbrev pub one_of : Option Date → Option Date → Date → ℕ
one_of start end day =
    count (runs (record { start = start; end = end; permanent = false }) day)
    + count (starts_after start day)
    + count (ended_before end day)

one_of-in_order :
    (start end : Option Date) (day : Date)
    → in_order start end ≡ true
    → is_known_date start || is_known_date end ≡ true
    → one_of start end day ≡ 1
unfolding runs
one_of-in_order none none day h k = absurd (ground (arith, k))
one_of-in_order none (some b) day h k = ground arith
one_of-in_order (some a) none day h k = ground arith
one_of-in_order (some a) (some b) day h k = elim (Bool-cases (before day a)) [
  | inl y ↦
      let later = before_trans day a b y (ground (arith, h)) in
      rw y (ground (arith, before-asym day b later))
  | inr n ↦ rw n (ground arith)
]

-- Of a range that is read from a listing, is not permanent and has a date, exactly one holds on
-- any day: it runs, it is upcoming, or its closing date has passed.
pub runs-upcoming :
    (p : Patterns) (text : Bytes) (this_year : ℕ) (day : Date)
    → (parse_date_range p text this_year).permanent ≡ false
    → is_zero (parse_date_range p text this_year) ≡ false
    → let r = parse_date_range p text this_year in
      count (runs r day) + count (upcoming r day) + count (ended_before r.end day) ≡ 1
unfolding runs upcoming
runs-upcoming p text this_year day h k =
    let r = parse_date_range p text this_year in
    rw h (
      one_of-in_order r.start r.end day (parse_date_range-IsRange p text this_year).ordered
        (ground (arith, k)))
