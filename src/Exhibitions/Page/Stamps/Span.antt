-- ===== src/Exhibitions/Page/Stamps/Span.antt =====
-- pkg/exhibitions/extract.go: the run that the stamps of a card give.
use museumscraper.Prelude.{
  ◌≡◌, refl, inl, inr, Bool, true, false, not, List, [], ◌∷◌, arith, Bool-cases,
}
use museumscraper.Exhibitions.Calendar.{Date, before}
use museumscraper.Exhibitions.Dates.Range.{IsRange}
use museumscraper.Exhibitions.Page.{Node}
use museumscraper.Exhibitions.Page.Stamps.{earliest, latest, span_of, stamps_of, machine_dates}

-- A day that is no later than another.
abbrev no_later : Date → Date → Bool
no_later a b = not (before b a)

no_later_trans : (a b c : Date) → no_later a b ≡ true → no_later b c ≡ true → no_later a c ≡ true
no_later_trans a b c h k = ground (arith, h, k)

earliest-no_later : (d : Date) (ds : List Date) → no_later (earliest d ds) d ≡ true
unfolding earliest
earliest-no_later d [] = ground arith
earliest-no_later d (e ∷ ds) = elim (Bool-cases (before e d)) [
  | inl y ↦
      rw (earliest, y)
        (no_later_trans (earliest e ds) e d (earliest-no_later e ds) (ground (arith, y)))
  | inr n ↦ rw (earliest, n) (earliest-no_later d ds)
]

latest-no_later : (d : Date) (ds : List Date) → no_later d (latest d ds) ≡ true
unfolding latest
latest-no_later d [] = ground arith
latest-no_later d (e ∷ ds) = elim (Bool-cases (before d e)) [
  | inl y ↦
      rw (latest, y) (no_later_trans d e (latest e ds) (ground (arith, y)) (latest-no_later e ds))
  | inr n ↦ rw (latest, n) (latest-no_later d ds)
]

span_of-IsRange : (ds : List Date) → IsRange (span_of ds)
span_of-IsRange [] = record { ordered = refl; unending = λ h. refl }
span_of-IsRange (d ∷ []) = record { ordered = refl; unending = λ h. refl }
span_of-IsRange (d ∷ e ∷ ds) = record {
  ordered =
      no_later_trans (earliest d (e ∷ ds)) d (latest d (e ∷ ds)) (earliest-no_later d (e ∷ ds))
        (latest-no_later d (e ∷ ds));
  unending = λ (h : false ≡ true). absurd (ground (arith, h));
}

span_of-permanent : (ds : List Date) → (span_of ds).permanent ≡ false
span_of-permanent [] = refl
span_of-permanent (d ∷ []) = refl
span_of-permanent (d ∷ e ∷ ds) = refl

-- The run that the markup of a card states, in whatever order its stamps stand, does not end before
-- it starts, and is never permanent.
pub machine_dates-IsRange :
    (card : Node) → IsRange (machine_dates card) × ((machine_dates card).permanent ≡ false)
unfolding machine_dates
machine_dates-IsRange card =
    (span_of-IsRange (stamps_of card []), span_of-permanent (stamps_of card []))
