-- ===== src/Exhibitions/Calendar.antt =====
-- pkg/exhibitions/dates.go: days, and the names of the months.
use museumscraper.Prelude.{
  ℕ, ◌%◌, ◌≤◌, String, ◌≡◌, Bool, true, false, not, ◌&&◌, ◌||◌, Option, none, some, List, [], ◌∷◌,
  arith, ltb, ◌==◌, if◌then◌else◌, length, take,
}
use mathlib.Core.Path.{subst}
use museumscraper.Text.Bytes.{Bytes, codes, equal}

-- A day, as makeDate gives it.
pub record Date : Type 0 where
  pub year : ℕ
  pub month : ℕ
  pub day : ℕ

-- a.Before(b)
abbrev pub before : Date → Date → Bool
before a b =
    ltb a.year b.year
    || (a.year == b.year && ltb a.month b.month)
    || (a.year == b.year && a.month == b.month && ltb a.day b.day)

abbrev pub is_leap : ℕ → Bool
is_leap y = (y % 4 == 0 && not (y % 100 == 0)) || y % 400 == 0

-- The last day of a month, after which time.Date goes on into the next.
unfoldable pub days_in : ℕ → ℕ → ℕ
days_in month year =
    if month == 2
    then if is_leap year then 29 else 28
    else if month == 4 || month == 6 || month == 9 || month == 11
    then 30
    else 31

unfoldable pub make_date : (year month day : ℕ) → Option Date
make_date year month day =
    if ltb year 1900 || ltb 2200 year || ltb month 1 || ltb 12 month || ltb day 1 || ltb 31 day
    then none
    else if ltb (days_in month year) day
    then none
    else some (record { year = year; month = month; day = day })

abbrev pub months : List (String × ℕ)
months =
    ("jan", 1)
    ∷ ("feb", 2)
    ∷ ("mar", 3)
    ∷ ("apr", 4)
    ∷ ("may", 5)
    ∷ ("jun", 6)
    ∷ ("jul", 7)
    ∷ ("aug", 8)
    ∷ ("sep", 9)
    ∷ ("oct", 10)
    ∷ ("nov", 11)
    ∷ ("dec", 12)
    ∷ ("janv", 1)
    ∷ ("fév", 2)
    ∷ ("fev", 2)
    ∷ ("avr", 4)
    ∷ ("mai", 5)
    ∷ ("juin", 6)
    ∷ ("juil", 7)
    ∷ ("aoû", 8)
    ∷ ("aou", 8)
    ∷ ("déc", 12)
    ∷ ("jän", 1)
    ∷ ("mär", 3)
    ∷ ("mrz", 3)
    ∷ ("okt", 10)
    ∷ ("dez", 12)
    ∷ ("ene", 1)
    ∷ ("abr", 4)
    ∷ ("ago", 8)
    ∷ ("dic", 12)
    ∷ ("gen", 1)
    ∷ ("mag", 5)
    ∷ ("giu", 6)
    ∷ ("lug", 7)
    ∷ ("set", 9)
    ∷ ("ott", 10)
    ∷ ("out", 10)
    ∷ ("mei", 5)
    ∷ ("okt2", 10)
    ∷ []

abbrev pub month_in : List (String × ℕ) → Bytes → Option ℕ
month_in [] name = none
month_in (m ∷ ms) name =
    let rest = month_in ms name in if equal (codes m.0) name then some m.1 else rest

-- strings.Trim(name, ". ")
abbrev pub is_dot : ℕ → Bool
is_dot c = c == b'.' || c == b' '

unfoldable pub trim_dots_left : Bytes → Bytes
trim_dots_left [] = []
trim_dots_left (c ∷ s) = let rest = trim_dots_left s in if is_dot c then rest else c ∷ s

unfoldable pub trim_dots_right : Bytes → Bytes
trim_dots_right [] = []
trim_dots_right (c ∷ s) = elim (trim_dots_right s) [
  | [] ↦ if is_dot c then [] else c ∷ []
  | d ∷ r ↦ c ∷ d ∷ r
]

abbrev pub month_by_prefix : ℕ → Bytes → Option ℕ
month_by_prefix n name = if ltb (length name) n then none else month_in months (take n name)

abbrev pub or_else {ℓ} : {A : Type ℓ} → Option A → Option A → Option A
or_else (some a) o = some a
or_else none o = o

unfoldable pub lookup_month : (Bytes → Bytes) → Bytes → Option ℕ
lookup_month lower name =
    let n = lower (trim_dots_right (trim_dots_left name)) in
    or_else (month_in months n) (or_else (month_by_prefix 4 n) (month_by_prefix 3 n))

-- A day of the calendar, within the years that makeDate takes.
pub record IsDate (d : Date) : Type 0 where
  pub years : (1900 ≤ d.year) × (d.year ≤ 2200)
  pub months_in : (1 ≤ d.month) × (d.month ≤ 12)
  pub days : (1 ≤ d.day) × (d.day ≤ days_in d.month d.year)

-- A date that makeDate gives is a day of the calendar.
pub make_date-IsDate :
    (year month day : ℕ) (d : Date) → make_date year month day ≡ some d → IsDate d
unfolding make_date
make_date-IsDate year month day d h =
    let n = days_in month year in
    let made : Date = record { year = year; month = month; day = day } in
    let e : made ≡ d = ground (arith, h) in
    subst IsDate e (record {
      years = ground (arith, h);
      months_in = ground (arith, h);
      days = ground (arith, h);
    })

pub before_trans : (a b c : Date) → before a b ≡ true → before c b ≡ false → before a c ≡ true
before_trans a b c h k = ground (arith, h, k)

pub before_irrefl : (a : Date) → before a a ≡ false
before_irrefl a = ground arith
