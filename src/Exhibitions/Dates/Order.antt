-- ===== src/Exhibitions/Dates/Order.antt =====
-- pkg/exhibitions/dates.go: the order of the dates that findDates gives.
use museumscraper.Prelude.{
  ℕ, ◌+◌, ◌<◌, sym, ◌≢◌, inl, inr, List, [], ◌∷◌, arith, ltb, ltb→lt, Bool-cases, length, All,
}
use museumscraper.Prelude.{if-keeps}
use museumscraper.Text.Bytes.{Bytes}
use museumscraper.Exhibitions.Dates.{
  NumericMatch, NamedMatch, DayMonthMatch, Patterns, Located, take_numeric, take_named,
  take_day_month, year_hint, insert, restore_order, no_search, find_dates,
}
use museumscraper.Exhibitions.Dates.Find.{
  IsNew, IsApart, IsValid, IsSpan, take_numeric-IsSearch, take_named-IsSearch,
  take_day_month-IsSearch,
}

abbrev pub IsAfter : ℕ → List Located → Type 0
IsAfter i ls = All (λ (l : Located). i < l.at) ls

-- The positions rise, with no two alike.
abbrev pub IsAscending : List Located → Type 0
IsAscending [] = Unit
IsAscending (l ∷ ls) = IsAfter l.at ls × IsAscending ls

insert-All :
    (P : Located → Type 0) (l : Located) (ls : List Located) → P l → All P ls → All P (insert l ls)
unfolding insert
insert-All P l [] p h = (p, tt)
insert-All P l (m ∷ ls) p (q, h) =
    if-keeps (All P) (ltb l.at m.at) (l ∷ m ∷ ls) (m ∷ insert l ls) (p, (q, h))
      (q, insert-All P l ls p h)

IsAfter-trans : (i j : ℕ) (ls : List Located) → i < j → IsAfter j ls → IsAfter i ls
IsAfter-trans i j [] h k = tt
IsAfter-trans i j (l ∷ ls) h (p, k) = (omega (arith, h, p), IsAfter-trans i j ls h k)

insert-IsAscending :
    (l : Located) (ls : List Located) → IsNew l.at ls → IsAscending ls → IsAscending (insert l ls)
unfolding insert
insert-IsAscending l [] n h = (tt, tt)
insert-IsAscending l (m ∷ ls) (n, ns) (a, h) = elim (Bool-cases (ltb l.at m.at)) [
  | inl y ↦
      let first = ltb→lt l.at m.at y in rw y ((first, IsAfter-trans l.at m.at ls first a), (a, h))
  | inr past ↦
      let next : m.at < l.at = ground (arith, n, past) in
      rw past (insert-All (λ x. m.at < x.at) l ls next a, insert-IsAscending l ls ns h)
]

IsNew-apart :
    (l : Located) (held : List Located) (ls : List Located)
    → All (λ (m : Located). IsNew m.at held) ls
    → IsNew l.at ls
    → All (λ (m : Located). IsNew m.at (insert l held)) ls
IsNew-apart l held [] h n = tt
IsNew-apart l held (m ∷ ls) (p, h) (e, n) =
    (insert-All (λ x. x.at ≢ m.at) l held (λ q. e (sym q)) p, IsNew-apart l held ls h n)

restore_order-IsAscending :
    (held ls : List Located)
    → IsAscending held
    → All (λ (m : Located). IsNew m.at held) ls
    → IsApart ls
    → IsAscending (restore_order held ls)
unfolding restore_order
restore_order-IsAscending held [] h n a = h
restore_order-IsAscending held (l ∷ ls) h (n, ns) (a, as') =
    restore_order-IsAscending (insert l held) ls (insert-IsAscending l held n h)
      (IsNew-apart l held ls ns a) as'

restore_order-All :
    (P : Located → Type 0) (held ls : List Located)
    → All P held
    → All P ls
    → All P (restore_order held ls)
unfolding restore_order
restore_order-All P held [] h k = h
restore_order-All P held (l ∷ ls) h (p, k) =
    restore_order-All P (insert l held) ls (insert-All P l held p h) k

all-IsNew : (ls : List Located) → All (λ (m : Located). IsNew m.at []) ls
all-IsNew [] = tt
all-IsNew (l ∷ ls) = (tt, all-IsNew ls)

-- What the patterns find are spans of the text that hold a character.
pub record IsMatching (p : Patterns) (text : Bytes) : Type 0 where
  pub iso : All (λ (m : NumericMatch). IsSpan (length text + 1) m.from m.to) (p.iso_date text)
  pub numeric :
      All (λ (m : NumericMatch). IsSpan (length text + 1) m.from m.to) (p.numeric_date text)
  pub day_first :
      All (λ (m : NamedMatch). IsSpan (length text + 1) m.from m.to) (p.day_month_year text)
  pub month_first :
      All (λ (m : NamedMatch). IsSpan (length text + 1) m.from m.to) (p.month_day_year text)
  pub yearless :
      All (λ (m : DayMonthMatch). IsSpan (length text + 1) m.from m.to) (p.day_month text)

-- The dates of a text come in the order in which they are written, no two of them begin at one
-- place, and each is a day of the calendar between 1900 and 2200, where the matches of the
-- patterns are spans of the text that hold a character.
pub find_dates-IsAscending :
    (p : Patterns) (text : Bytes) (this_year : ℕ)
    → IsMatching p text
    → IsAscending (find_dates p text this_year) × All IsValid (find_dates p text this_year)
unfolding find_dates
find_dates-IsAscending p text this_year m =
    let n = length text + 1 in
    let v₁ =
      take_numeric-IsSearch n (p.iso_date text) no_search m.iso
        (record { within = tt; apart = tt; dates = tt }) in
    let s₁ = take_numeric n (p.iso_date text) no_search in
    let v₂ = take_numeric-IsSearch n (p.numeric_date text) s₁ m.numeric v₁ in
    let s₂ = take_numeric n (p.numeric_date text) s₁ in
    let v₃ = take_named-IsSearch p.lower n (p.day_month_year text) s₂ m.day_first v₂ in
    let s₃ = take_named p.lower n (p.day_month_year text) s₂ in
    let v₄ = take_named-IsSearch p.lower n (p.month_day_year text) s₃ m.month_first v₃ in
    let s₄ = take_named p.lower n (p.month_day_year text) s₃ in
    let year = year_hint this_year s₄.found in
    let v₅ = take_day_month-IsSearch p.lower n year (p.day_month text) s₄ m.yearless v₄ in
    let s₅ = take_day_month p.lower n year (p.day_month text) s₄ in
    (
      restore_order-IsAscending [] s₅.found tt (all-IsNew s₅.found) v₅.apart,
      restore_order-All IsValid [] s₅.found tt v₅.dates,
    )
