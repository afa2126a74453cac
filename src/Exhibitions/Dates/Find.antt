-- ===== src/Exhibitions/Dates/Find.antt =====
-- pkg/exhibitions/dates.go: the dates that findDates gives.
use museumscraper.Prelude.{
  ℕ, zero, suc, ◌-◌, ◌<◌, ◌≡◌, sym, ap, ◌≢◌, inl, inr, Bool, true, false, Option, none, some, List,
  [], ◌∷◌, ◌++◌, arith, Bool-cases, Option-cases, All,
}
use museumscraper.Prelude.{All-append}
use museumscraper.Text.Bytes.{Bytes}
use museumscraper.Exhibitions.Calendar.{Date, make_date, lookup_month, IsDate, make_date-IsDate}
use museumscraper.Exhibitions.Dates.{
  NumericMatch, NamedMatch, DayMonthMatch, Located, Search, any_claimed, mark, take_match,
  take_numeric, named_date, take_named, take_day_month,
}

-- No date of the list is written at the position.
abbrev pub IsNew : ℕ → List Located → Type 0
IsNew i ls = All (λ (l : Located). l.at ≢ i) ls

abbrev pub IsApart : List Located → Type 0
IsApart [] = Unit
IsApart (l ∷ ls) = IsNew l.at ls × IsApart ls

abbrev pub IsValid : Located → Type 0
IsValid l = IsDate l.when

-- Every date stands at a claimed position, no two at one, and each is a day of the calendar.
pub record IsSearch (s : Search) : Type 0 where
  pub within : All (λ (l : Located). s.claimed l.at ≡ true) s.found
  pub apart : IsApart s.found
  pub dates : All IsValid s.found

any_claimed-free :
    (size : ℕ) (claimed : ℕ → Bool) (from n : ℕ)
    → 0 < n
    → from < size
    → any_claimed size claimed from n ≡ false
    → claimed from ≡ false
unfolding any_claimed
any_claimed-free size claimed from zero h k e = absurd (omega (arith, h))
any_claimed-free size claimed from (suc n) h k e = ground (arith, k, e)

IsNew-claimed :
    (claimed : ℕ → Bool) (i : ℕ) (ls : List Located)
    → All (λ (l : Located). claimed l.at ≡ true) ls
    → claimed i ≡ false
    → IsNew i ls
IsNew-claimed claimed i [] h n = tt
IsNew-claimed claimed i (l ∷ ls) (p, h) n =
    ((λ e. absurd (ground (arith, p, n, ap claimed e))), IsNew-claimed claimed i ls h n)

IsApart-append :
    (l : Located) (ls : List Located) → IsNew l.at ls → IsApart ls → IsApart (ls ++ l ∷ [])
IsApart-append l [] h k = (tt, tt)
IsApart-append l (m ∷ ls) (n, h) (a, k) =
    (All-append (λ (x : Located). x.at ≢ m.at) ls l a (λ e. n (sym e)), IsApart-append l ls h k)

within-mark :
    (from to : ℕ) (claimed : ℕ → Bool) (ls : List Located)
    → All (λ (l : Located). claimed l.at ≡ true) ls
    → All (λ (l : Located). mark from to claimed l.at ≡ true) ls
within-mark from to claimed [] h = tt
within-mark from to claimed (l ∷ ls) (p, h) = (ground (arith, p), within-mark from to claimed ls h)

-- A claim of a free span keeps what holds of a search.
take_match-IsSearch :
    (size from to : ℕ) (date : Option Date) (s : Search)
    → from < to
    → from < size
    → ((d : Date) → date ≡ some d → IsDate d)
    → IsSearch s
    → IsSearch (take_match size from to date s)
unfolding take_match
take_match-IsSearch size from to date s h k valid v =
    elim (Bool-cases (any_claimed size s.claimed from (to - from))) [
      | inl y ↦ rw (take_match, y) v
      | inr n ↦
          let still = within-mark from to s.claimed s.found v.within in
          elim (Option-cases date) [
            | inl e ↦
                rw (take_match, n, e) (record { within = still; apart = v.apart; dates = v.dates })
            | inr (d, e) ↦
                let l : Located = record { at = from; when = d } in
                let new =
                  IsNew-claimed s.claimed from s.found v.within
                    (any_claimed-free size s.claimed from (to - from) (omega (arith, h)) k n) in
                rw (take_match, n, e)
                  (record {
                    within =
                        All-append (λ (x : Located). mark from to s.claimed x.at ≡ true) s.found l
                          still (ground (arith, h));
                    apart = IsApart-append l s.found new v.apart;
                    dates = All-append IsValid s.found l v.dates (valid d e);
                  })
          ]
    ]

-- A match holds a character, and lies in the text.
abbrev pub IsSpan : ℕ → ℕ → ℕ → Type 0
IsSpan size from to = (from < to) × (to < size)

pub take_numeric-IsSearch :
    (size : ℕ) (ms : List NumericMatch) (s : Search)
    → All (λ (m : NumericMatch). IsSpan size m.from m.to) ms
    → IsSearch s
    → IsSearch (take_numeric size ms s)
unfolding take_numeric
take_numeric-IsSearch size [] s h v = v
take_numeric-IsSearch size (m ∷ ms) s ((p, q), h) v =
    let date = make_date m.year m.month m.day in
    take_numeric-IsSearch size ms (take_match size m.from m.to date s) h (
      take_match-IsSearch size m.from m.to date s p (omega (arith, p, q))
        (make_date-IsDate m.year m.month m.day) v)

named_date-IsDate :
    (month : Option ℕ) (year day : ℕ) (d : Date) → named_date month year day ≡ some d → IsDate d
named_date-IsDate none year day d h = absurd (ground (arith, h))
named_date-IsDate (some month) year day d h = make_date-IsDate year month day d h

pub take_named-IsSearch :
    (lower : Bytes → Bytes) (size : ℕ) (ms : List NamedMatch) (s : Search)
    → All (λ (m : NamedMatch). IsSpan size m.from m.to) ms
    → IsSearch s
    → IsSearch (take_named lower size ms s)
unfolding take_named
take_named-IsSearch lower size [] s h v = v
take_named-IsSearch lower size (m ∷ ms) s ((p, q), h) v =
    let month = lookup_month lower m.month in
    let date = named_date month m.year m.day in
    take_named-IsSearch lower size ms (take_match size m.from m.to date s) h (
      take_match-IsSearch size m.from m.to date s p (omega (arith, p, q))
        (named_date-IsDate month m.year m.day) v)

pub take_day_month-IsSearch :
    (lower : Bytes → Bytes) (size year : ℕ) (ms : List DayMonthMatch) (s : Search)
    → All (λ (m : DayMonthMatch). IsSpan size m.from m.to) ms
    → IsSearch s
    → IsSearch (take_day_month lower size year ms s)
unfolding take_day_month
take_day_month-IsSearch lower size year [] s h v = v
take_day_month-IsSearch lower size year (m ∷ ms) s ((p, q), h) v =
    let month = lookup_month lower m.month in
    let date = named_date month year m.day in
    take_day_month-IsSearch lower size year ms (take_match size m.from m.to date s) h (
      take_match-IsSearch size m.from m.to date s p (omega (arith, p, q))
        (named_date-IsDate month year m.day) v)
