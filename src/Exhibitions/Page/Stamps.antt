-- ===== src/Exhibitions/Page/Stamps.antt =====
-- pkg/exhibitions/extract.go: machineDates, the dates that the markup of a card states.
pub mod Span
use museumscraper.Prelude.{
  ℕ, zero, suc, ◌+◌, ◌-◌, ◌*◌, ◌/◌, ◌%◌, ◌^◌, ◌≤◌, ◌<◌, min, max, String, ◌≡◌, refl, sym, ap, ◌∙◌,
  ◌≢◌, ◌↔◌, ◌⊎◌, inl, inr, Bool, true, false, not, ◌&&◌, ◌||◌, Option, none, some, List, [], ◌∷◌,
  ◌++◌, map, arith, ltb, leb, ◌>>=◌, ◌==◌, if◌then◌else◌, ltb→lt, lt→ltb, leb→le, ==_iff,
  Bool-cases, Option-cases, length, get_elem?, set, length-append, length-set, get_elem?-set_self,
  get_elem?-set_ne, All, take, drop, dec_lt, ℕ_discrete,
}
use museumscraper.Text.Bytes.{Bytes, codes, trim, equal}
use museumscraper.Exhibitions.Calendar.{Date, before, days_in}
use museumscraper.Exhibitions.Dates.{DateRange, no_range}
use museumscraper.Exhibitions.Page.{
  Node, text_node, element_node, other_node, Nodes, end, child, attr,
}

abbrev pub is_ascii_digit : ℕ → Bool
is_ascii_digit c = leb b'0' c && leb c b'9'

-- The number that decimal digits write; none at any other_node character.
unfoldable pub number_from : (n : ℕ) → Bytes → Option ℕ
number_from n [] = some n
number_from n (c ∷ s) =
    let rest = number_from (n * 10 + (c - b'0')) s in if is_ascii_digit c then rest else none

-- A day that the calendar has.
abbrev pub calendar_day : (year month day : ℕ) → Option Date
calendar_day year month day =
    if leb 1 month && leb month 12 && leb 1 day && leb day (days_in month year)
    then some (record { year = year; month = month; day = day })
    else none

-- time.Parse("2006-01-02", s) on ten characters.
unfoldable pub parse_day : Bytes → Option Date
parse_day s =
    elim (equal (take 1 (drop 4 s)) (b'-' ∷ []) && equal (take 1 (drop 7 s)) (b'-' ∷ [])) [
      | true ↦ do
        year ← number_from 0 (take 4 s)
        month ← number_from 0 (take 2 (drop 5 s))
        day ← number_from 0 (take 2 (drop 8 s))
        calendar_day year month day
      | false ↦ none
    ]

-- The day that the first ten bytes write; only ASCII writes one.
unfoldable pub leading_day : Bytes → Option Date
leading_day text =
    let s = take 10 text in elim (length s == 10) [ true ↦ parse_day s | false ↦ none ]

-- parseISODate
unfoldable pub parse_iso_date : Bytes → Option Date
parse_iso_date value = leading_day (trim value)

abbrev pub max_card_times : ℕ
max_card_times = 8

abbrev pub stamp : List Date → Option Date → List Date
stamp stamps none = stamps
stamp stamps (some d) = stamps ++ d ∷ []

abbrev pub note_time : Bytes → List (Bytes × Bytes) → List Date → List Date
note_time name attrs stamps =
    if equal name (codes "time")
    then stamp stamps (parse_iso_date (attr (codes "datetime") attrs))
    else stamps

-- walk of machineDates.
unfoldable mutual
  pub stamps_of : Node → List Date → List Date
  stamps_of (text_node s) stamps = stamps
  stamps_of (element_node name attrs ns) stamps = elim (leb max_card_times (length stamps)) [
    | true ↦ stamps
    | false ↦ stamps_in ns (note_time name attrs stamps)
  ]
  stamps_of (other_node ns) stamps = elim (leb max_card_times (length stamps)) [
    | true ↦ stamps
    | false ↦ stamps_in ns stamps
  ]

  pub stamps_in : Nodes → List Date → List Date
  stamps_in end stamps = stamps
  stamps_in (child n ns) stamps = stamps_in ns (stamps_of n stamps)

unfoldable pub earliest : Date → List Date → Date
earliest start [] = start
earliest start (d ∷ ds) = earliest (if before d start then d else start) ds

unfoldable pub latest : Date → List Date → Date
latest last [] = last
latest last (d ∷ ds) = latest (if before last d then d else last) ds

-- The switch on the number of stamps.
abbrev pub span_of : List Date → DateRange
span_of [] = no_range
span_of (d ∷ []) = no_range
span_of (d ∷ e ∷ ds) = record {
  start = some (earliest d (e ∷ ds));
  end = some (latest d (e ∷ ds));
  permanent = false;
}

unfoldable pub machine_dates : Node → DateRange
machine_dates card = span_of (stamps_of card [])
