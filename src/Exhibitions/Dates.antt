-- ===== src/Exhibitions/Dates.antt =====
-- pkg/exhibitions/dates.go: the period that a listing gives for an exhibition. What the regular
-- expressions find and the lower case of a text are arguments. Positions count characters.
pub mod Find
pub mod Order
pub mod Range
use museumscraper.Prelude.{
  ℕ, zero, suc, ◌+◌, ◌-◌, ◌*◌, ◌/◌, ◌%◌, ◌^◌, ◌≤◌, ◌<◌, min, max, String, ◌≡◌, refl, sym, ap, ◌∙◌,
  ◌≢◌, ◌↔◌, ◌⊎◌, inl, inr, Bool, true, false, not, ◌&&◌, ◌||◌, Option, none, some, List, [], ◌∷◌,
  ◌++◌, map, arith, ltb, leb, ◌==◌, if◌then◌else◌, ltb→lt, lt→ltb, leb→le, ==_iff, Bool-cases,
  Option-cases, length, get_elem?, set, length-append, length-set, get_elem?-set_self,
  get_elem?-set_ne, All, take, drop, dec_lt, ℕ_discrete,
}
use museumscraper.Text.Bytes.{Bytes, trim}
use museumscraper.Exhibitions.Calendar.{Date, before, make_date, lookup_month}

-- A match with its span and what its groups hold; the month is a number or a word.
pub record NumericMatch : Type 0 where
  pub from : ℕ
  pub to : ℕ
  pub year : ℕ
  pub month : ℕ
  pub day : ℕ

pub record NamedMatch : Type 0 where
  pub from : ℕ
  pub to : ℕ
  pub year : ℕ
  pub month : Bytes
  pub day : ℕ

pub record DayMonthMatch : Type 0 where
  pub from : ℕ
  pub to : ℕ
  pub month : Bytes
  pub day : ℕ

-- FindAllStringSubmatchIndex and MatchString of the patterns, and strings.ToLower.
pub record Patterns : Type 0 where
  pub iso_date : Bytes → List NumericMatch
  pub numeric_date : Bytes → List NumericMatch
  pub day_month_year : Bytes → List NamedMatch
  pub month_day_year : Bytes → List NamedMatch
  pub day_month : Bytes → List DayMonthMatch
  pub ongoing : Bytes → Bool
  pub open_ended : Bytes → Bool
  pub open_start : Bytes → Bool
  pub lower : Bytes → Bytes

pub record Located : Type 0 where
  pub at : ℕ
  pub when : Date

-- What findDates keeps: which positions belong to a match, and the dates so far.
pub record Search : Type 0 where
  pub claimed : ℕ → Bool
  pub found : List Located

-- The loops of claim over `n` positions from `start`; `size` is len(claimed).
unfoldable pub any_claimed : (size : ℕ) → (ℕ → Bool) → (start n : ℕ) → Bool
any_claimed size claimed start zero = false
any_claimed size claimed start (suc n) =
    (ltb start size && claimed start) || any_claimed size claimed (start + 1) n

abbrev pub mark : (from to : ℕ) → (ℕ → Bool) → ℕ → Bool
mark from to claimed i = (leb from i && ltb i to) || claimed i

-- A match whose span is free claims it, and gives a date if it can.
unfoldable pub take_match : (size from to : ℕ) → Option Date → Search → Search
take_match size from to date s = elim (any_claimed size s.claimed from (to - from)) [
  | true ↦ s
  | false ↦ record {
    claimed = mark from to s.claimed;
    found = elim date [
      | none ↦ s.found
      | some when ↦ s.found ++ record { at = from; when = when } ∷ []
    ];
  }
]

unfoldable pub take_numeric : ℕ → List NumericMatch → Search → Search
take_numeric size [] s = s
take_numeric size (m ∷ ms) s =
    take_numeric size ms (take_match size m.from m.to (make_date m.year m.month m.day) s)

abbrev pub named_date : Option ℕ → (year day : ℕ) → Option Date
named_date none year day = none
named_date (some month) year day = make_date year month day

unfoldable pub take_named : (Bytes → Bytes) → ℕ → List NamedMatch → Search → Search
take_named lower size [] s = s
take_named lower size (m ∷ ms) s =
    take_named lower size ms
      (take_match size m.from m.to (named_date (lookup_month lower m.month) m.year m.day) s)

unfoldable pub take_day_month :
    (Bytes → Bytes) → ℕ → (year_hint : ℕ) → List DayMonthMatch → Search → Search
take_day_month lower size year_hint [] s = s
take_day_month lower size year_hint (m ∷ ms) s =
    take_day_month lower size year_hint ms
      (take_match size m.from m.to (named_date (lookup_month lower m.month) year_hint m.day) s)

-- The year of the last date found, else that of `now`.
abbrev pub year_hint : ℕ → List Located → ℕ
year_hint year [] = year
year_hint year (l ∷ []) = l.when.year
year_hint year (l ∷ m ∷ ls) = year_hint year (m ∷ ls)

-- One round of the last loop: what stands before is in order, and the date moves in front of what is
-- written after it.
unfoldable pub insert : Located → List Located → List Located
insert l [] = l ∷ []
insert l (m ∷ ms) = let rest = insert l ms in if ltb l.at m.at then l ∷ m ∷ ms else m ∷ rest

unfoldable pub restore_order : List Located → List Located → List Located
restore_order ordered [] = ordered
restore_order ordered (l ∷ ls) = restore_order (insert l ordered) ls

abbrev pub no_search : Search
no_search = record { claimed = λ i. false; found = [] }

unfoldable pub find_dates : Patterns → Bytes → (this_year : ℕ) → List Located
find_dates p text this_year =
    let size = length text + 1 in
    let s₁ = take_numeric size (p.iso_date text) no_search in
    let s₂ = take_numeric size (p.numeric_date text) s₁ in
    let s₃ = take_named p.lower size (p.day_month_year text) s₂ in
    let s₄ = take_named p.lower size (p.month_day_year text) s₃ in
    let s₅ = take_day_month p.lower size (year_hint this_year s₄.found) (p.day_month text) s₄ in
    restore_order [] s₅.found

pub record DateRange : Type 0 where
  pub start : Option Date
  pub end : Option Date
  pub permanent : Bool

abbrev pub no_range : DateRange
no_range = record { start = none; end = none; permanent = false }

abbrev pub is_known_date : Option Date → Bool
is_known_date none = false
is_known_date (some d) = true

abbrev pub is_zero : DateRange → Bool
is_zero r = not (is_known_date r.start) && not (is_known_date r.end)

abbrev pub known : DateRange → Bool
known r = not (is_zero r) || r.permanent

abbrev pub starts_after : Option Date → Date → Bool
starts_after none day = false
starts_after (some d) day = before day d

abbrev pub ended_before : Option Date → Date → Bool
ended_before none day = false
ended_before (some d) day = before d day

unfoldable pub runs : DateRange → Date → Bool
runs r day =
    if r.permanent
    then true
    else if starts_after r.start day
    then false
    else if ended_before r.end day
    then false
    else is_known_date r.start || is_known_date r.end

unfoldable pub upcoming : DateRange → Date → Bool
upcoming r day = starts_after r.start day

abbrev pub qualifier_window : ℕ
qualifier_window = 24

abbrev pub lead : Bytes → ℕ → Bytes
lead text at = drop (at - qualifier_window) (take at text)

abbrev pub last_date : Located → List Located → Date
last_date l [] = l.when
last_date l (m ∷ ms) = last_date m ms

abbrev pub first_start : List Located → Option Date
first_start [] = none
first_start (l ∷ ls) = some l.when

-- The switch on the number of dates.
unfoldable pub range_of : Patterns → Bytes → List Located → DateRange
range_of p text [] = no_range
range_of p text (l ∷ []) =
    let single = some l.when in
    if p.open_ended (lead text l.at)
    then record { start = none; end = single; permanent = false }
    else if p.open_start (lead text l.at)
    then record { start = single; end = none; permanent = false }
    else record { start = single; end = single; permanent = false }
range_of p text (l ∷ m ∷ ms) =
    let first = l.when in
    let last = last_date m ms in
    if before last first
    then record { start = some last; end = some first; permanent = false }
    else record { start = some first; end = some last; permanent = false }

unfoldable pub parse_date_range : Patterns → Bytes → (this_year : ℕ) → DateRange
parse_date_range p text this_year =
    let trimmed = trim text in
    let dates = find_dates p trimmed this_year in
    elim (length trimmed == 0) [
      | true ↦ no_range
      | false ↦
          if p.ongoing trimmed
          then record { start = first_start dates; end = none; permanent = true }
          else range_of p trimmed dates
    ]
