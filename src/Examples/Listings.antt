-- ===== src/Examples/Listings.antt =====
-- pkg/exhibitions/dates.go: the dates of a listing.
use museumscraper.Prelude.{◌≡◌, refl, false, some, [], ◌∷◌, arith, All}
use museumscraper.Text.Bytes.{Bytes, codes, trim, trim_left, trim_right, is_space, all_space, equal}
use museumscraper.Exhibitions.Calendar.{
  Date, make_date, days_in, lookup_month, trim_dots_left, trim_dots_right,
}
use museumscraper.Exhibitions.Dates.{
  Patterns, find_dates, parse_date_range, range_of, take_match, take_numeric, take_named,
  take_day_month, any_claimed, insert, restore_order,
}
use museumscraper.Exhibitions.Dates.Find.{IsValid}
use museumscraper.Exhibitions.Dates.Order.{IsMatching, IsAscending, find_dates-IsAscending}
use museumscraper.Exhibitions.Dates.Range.{IsRange, parse_date_range-IsRange}

abbrev listing : Bytes
listing = codes "12 March - 7 September 2026"

-- What the patterns find in the listing.
abbrev patterns : Patterns
patterns = record {
  iso_date = λ s. [];
  numeric_date = λ s. [];
  day_month_year =
      λ s. record { from = 11; to = 27; year = 2026; month = codes "september"; day = 7 } ∷ [];
  month_day_year = λ s. [];
  day_month = λ s.
      record { from = 0; to = 8; month = codes "march"; day = 12 }
      ∷ record { from = 11; to = 22; month = codes "september"; day = 7 }
      ∷ [];
  ongoing = λ s. false;
  open_ended = λ s. false;
  open_start = λ s. false;
  lower = λ s. s;
}

abbrev march : Date
march = record { year = 2026; month = 3; day = 12 }

abbrev september : Date
september = record { year = 2026; month = 9; day = 7 }

listing-range :
    parse_date_range patterns listing 2025
    ≡ record { start = some march; end = some september; permanent = false }
unfolding parse_date_range find_dates range_of take_match take_numeric take_named take_day_month
    any_claimed insert restore_order lookup_month trim_dots_left trim_dots_right make_date days_in
    trim trim_left trim_right is_space all_space equal
listing-range = refl

patterns-IsMatching : IsMatching patterns listing
patterns-IsMatching = record {
  iso = tt;
  numeric = tt;
  day_first = ((omega arith, omega arith), tt);
  month_first = tt;
  yearless = ((omega arith, omega arith), ((omega arith, omega arith), tt));
}

find_dates-IsAscending_example :
    IsAscending (find_dates patterns listing 2025) × All IsValid (find_dates patterns listing 2025)
find_dates-IsAscending_example = find_dates-IsAscending patterns listing 2025 patterns-IsMatching

parse_date_range-IsRange_example : IsRange (parse_date_range patterns listing 2025)
parse_date_range-IsRange_example = parse_date_range-IsRange patterns listing 2025
