-- ===== src/Examples/Sites.antt =====
-- internal/sweep/runner.go and internal/postgres/sweeps.go: one site, its row and its listings.
use museumscraper.Prelude.{
  ℕ, ◌+◌, ◌*◌, String, ◌≡◌, refl, ◌≢◌, ◌⊎◌, inl, true, false, not, ◌&&◌, none, some, List, [], ◌∷◌,
  arith, if◌then◌else◌,
}
use mathlib.Core.List.{Permᴰ}
use text.Mathlib.Text.{◌==◌ as str_eq}
use museumscraper.Text.{is_blank, is_space}
use museumscraper.Sweep.Schedule.{changed, failed, hour, day, next, first_read}
use museumscraper.Sweep.Row.{Row, discover, claim, is_due, scan_state}
use museumscraper.Sweep.Row.History.{
  Reading, read_row, Reachable, discovered, claims, reads, Reachable-never_first_read,
  first_change_halves,
}
use museumscraper.Sweep.Listings.{Exhibition, Listing, touch_site}
use museumscraper.Sweep.Listings.Retiring.{IsListed, IsFound, IsCurrent}
use museumscraper.Sweep.Runner.{Target, Result, other, judge, confirms}
use museumscraper.Sweep.Runner.Reading.{
  Tables, Database, taken, outcome, after, read-nothing_retired, read-IsCurrent,
}
use museumscraper.Sweep.Runner.Fingerprint.{Entry, fingerprint, fingerprint-perm}

abbrev now : ℕ
now = 1000 * day

abbrev reading : Reading
reading = record {
  outcome = changed;
  soonest = none;
  found_count = 1;
  fingerprint = "f";
  listing_url = "louvre.fr/expos";
  etag = "";
  last_modified = "";
}

abbrev row : Row
row = read_row (claim now (2 * hour) (discover now none)) reading (now + hour)

row-Reachable : Reachable row
row-Reachable = reads reading (now + hour) (claims now (2 * hour) (discovered now))

Reachable-never_first_read_example :
    (next (scan_state (discover now none)) changed none (now + hour)).reason ≢ first_read
Reachable-never_first_read_example =
    Reachable-never_first_read reading (now + hour) (discovered now)

discovered-is_due : is_due now (discover now none) ≡ true
unfolding is_due discover
discovered-is_due = refl

first_change_halves_example :
    let row' = read_row (discover now none) reading (now + hour) in
    (row'.interval ≡ 84 * hour) × (row'.next_due_at ≡ now + hour + 84 * hour)
first_change_halves_example = first_change_halves now (now + hour) reading refl refl

abbrev monet : Exhibition
monet = record {
  url = "louvre.fr/monet";
  title = "Monet";
  site = "louvre.fr";
  start = none;
  closing = some (1010 * day);
  permanent = false;
  scraped_at = now;
}

abbrev degas : Listing
degas = record {
  url = "louvre.fr/degas";
  title = "Degas";
  site = "louvre.fr";
  start = none;
  closing = some (1005 * day);
  permanent = false;
  scraped = true;
  first_seen_at = 0;
  last_seen_at = 900 * day;
  retired_at = none;
}

abbrev louvre : Target
louvre = record {
  site = "louvre.fr";
  listing_url = "louvre.fr/expos";
  etag = "";
  last_modified = "";
  fingerprint = "old";
  state = record { interval = 10 * day; consecutive_failures = 0 };
}

abbrev tables : Tables
tables = record { listings = degas ∷ []; rows = λ k. none }

abbrev page : Result
page = record {
  exhibitions = monet ∷ [];
  listing_url = "louvre.fr/expos";
  etag = "";
  last_modified = "";
  reached = true;
  is_unchanged = false;
}

abbrev digest : List Exhibition → String
digest es = "new"

page-changed : outcome digest louvre page none ≢ failed
unfolding judge
page-changed e = cc

-- A database that carries out every statement, and takes every row but one with the title "?".
abbrev database : Database
database = record {
  takes = λ e. not (str_eq e.title "?");
  retires = true;
  touches = true;
  closes = true;
  records = true;
}

monet-taken : IsFound "louvre.fr/monet" now (taken database.takes page.exhibitions)
unfolding taken is_blank is_space
monet-taken = inl (refl, refl, omega arith)

read-IsCurrent_example :
    IsListed "louvre.fr/monet" now (after digest louvre page none database now tables).listings
    × ((true ≡ false)
        ⊎ IsCurrent "louvre.fr" now (after digest louvre page none database now tables).listings)
read-IsCurrent_example =
    read-IsCurrent digest louvre page none database now tables "louvre.fr/monet" page-changed
      (λ e. cc) monet-taken

timed_out-failed : outcome digest louvre page (some other) ≡ failed
unfolding judge
timed_out-failed = refl

read-nothing_retired_example :
    (after digest louvre page (some other) database now tables).listings ≡ (
      if confirms page (some other) && true
      then touch_site "louvre.fr" now (degas ∷ [])
      else degas ∷ [])
read-nothing_retired_example =
    read-nothing_retired digest louvre page (some other) database now tables (inl timed_out-failed)

abbrev first_entry : Entry
first_entry = record {
  url = 97 ∷ [];
  title = 98 ∷ [];
  start = none;
  closing = some 3;
  permanent = false;
}

abbrev second_entry : Entry
second_entry = record {
  url = 96 ∷ [];
  title = 99 ∷ [];
  start = none;
  closing = none;
  permanent = true;
}

fingerprint-perm_example :
    fingerprint (λ t. t ∷ []) (λ bs. bs) (first_entry ∷ second_entry ∷ [])
    ≡ fingerprint (λ t. t ∷ []) (λ bs. bs) (second_entry ∷ first_entry ∷ [])
fingerprint-perm_example = fingerprint-perm (λ t. t ∷ []) (λ bs. bs) ∣ Permᴰ.swap refl refl ∣₁
