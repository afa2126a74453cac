-- ===== src/Sweep/Runner/Reading.antt =====
-- internal/sweep/runner.go, Read, over the two tables of internal/postgres: what one reading of a
-- site does to its listings and to its row, whatever the database answers to each call.
use museumscraper.Prelude.{
  ℕ, String, ◌≡◌, refl, ◌≢◌, ◌↔◌, ◌⊎◌, inl, inr, Bool, true, false, ◌&&◌, Option, none, some, List,
  [], ◌∷◌, arith, if◌then◌else◌, Bool-cases,
}
use text.Mathlib.Text.{◌==◌ as str_eq}
use text.Mathlib.TextEquality.{eq_iff}
use museumscraper.Sweep.Schedule.{Outcome, changed, unchanged, failed}
use museumscraper.Sweep.Row.{Row, succeeded, record_scrape}
use museumscraper.Sweep.Listings.{
  Exhibition, Listing, save_exhibitions, retire_unseen, count_unseen, touch_site, soonest_close,
}
use museumscraper.Sweep.Listings.Retiring.{
  IsListed, IsFound, IsCurrent, retire_unseen-IsCurrent, save-IsListed, retire-save-IsListed,
}
use museumscraper.Sweep.Runner.{
  Store, Target, Result, Failure, other, judge, confirms, read, is_empty,
}

pub record Tables : Type 0 where
  pub listings : List Listing
  pub rows : String → Option Row

unfoldable pub write_row : String → Row → (String → Option Row) → String → Option Row
write_row site row rows key = if str_eq key site then some row else rows key

-- What the database answers during one reading: which rows it takes, and which statements it carries
-- out. A statement that it refuses changes nothing.
pub record Database : Type 0 where
  pub takes : Exhibition → Bool
  pub retires : Bool
  pub touches : Bool
  pub closes : Bool
  pub records : Bool

-- The rows that are stored in the end: a batch with a row that is refused is rolled back and sent
-- again row by row, without those that are refused.
unfoldable pub taken : (Exhibition → Bool) → List Exhibition → List Exhibition
taken takes [] = []
taken takes (e ∷ es) = let rest = taken takes es in if takes e then e ∷ rest else rest

-- The postgres Store as the sweep sees it. SaveExhibitions gives no error, whatever is refused.
unfoldable pub postgres : Database → Store Tables
unfolding write_row taken
postgres db = record {
  save = λ s es. (record s { listings = save_exhibitions (taken db.takes es) s.listings }, true);
  retire = λ s site t.
      if db.retires
      then (
        record s { listings = retire_unseen site t s.listings },
        some (count_unseen site t s.listings),
      )
      else (s, none);
  touch = λ s site t.
      if db.touches
      then (record s { listings = touch_site site t s.listings }, true)
      else (s, false);
  soonest = λ s site. if db.closes then some (soonest_close site s.listings) else none;
  record_scrape = λ s site a now.
      if db.records
      then (record s { rows = write_row site (record_scrape (s.rows site) a now) s.rows }, true)
      else (s, false);
}

abbrev pub attempted_at : Option Row → Option ℕ
attempted_at none = none
attempted_at (some row) = row.last_attempt_at

succeeded-true : (o : Outcome) → o ≢ failed → succeeded o ≡ true
succeeded-true changed h = refl
succeeded-true unchanged h = refl
succeeded-true failed h = absurd (h refl)

is_empty-false : (es : List Exhibition) → es ≢ [] → is_empty es ≡ false
is_empty-false [] h = absurd (h refl)
is_empty-false (e ∷ es) h = refl

module _ (digest : List Exhibition → String) (t : Target) (r : Result) (err : Option Failure) where
  abbrev pub outcome : Outcome
  outcome = (judge digest t r err).outcome

  -- A reading fails exactly when the scraper gave an error other than a missing website, or no page
  -- answered.
  judge-failed_iff :
      (outcome ≡ failed) ↔ ((err ≡ some other) ⊎ ((err ≡ none) × (r.reached ≡ false)))
  unfolding judge
  judge-failed_iff = (λ h. ground arith, λ h. ground arith)

  module _ (db : Database) (started : ℕ) (s : Tables) where
    abbrev pub after : Tables
    after = (read digest (postgres db) t r err started s).0

    -- The listings before anything is stored.
    abbrev confirmed : List Listing
    confirmed =
        if confirms r err && db.touches then touch_site t.site started s.listings else s.listings

    -- Whatever the database answers, a reading that failed or that found nothing retires nothing: the
    -- listings are as before, but that the site's live ones are marked as seen if the site said that
    -- nothing has changed and the database carried out that statement.
    pub read-nothing_retired :
        (outcome ≡ failed) ⊎ (r.exhibitions ≡ [])
        → after.listings ≡ (
            if confirms r err && db.touches
            then touch_site t.site started s.listings
            else s.listings)
    unfolding read postgres
    read-nothing_retired h = ground (arith, h)

    read_found-listings :
        outcome ≢ failed
        → r.exhibitions ≢ []
        → after.listings ≡ (
            let stored = save_exhibitions (taken db.takes r.exhibitions) confirmed in
            if db.retires then retire_unseen t.site started stored else stored)
    unfolding read postgres
    read_found-listings h k =
        ground (arith, succeeded-true outcome h, is_empty-false r.exhibitions k)

    -- After a reading that did not fail and that found an entry with the URL `u`, scraped no earlier
    -- than the reading began and in a row that the database took: `u` is listed live and has been seen
    -- since the reading began, be the retirement carried out or not; and if it was carried out, every
    -- live listing that was read off the site has been seen since then.
    pub read-IsCurrent :
        (u : String)
        → outcome ≢ failed
        → r.exhibitions ≢ []
        → IsFound u started (taken db.takes r.exhibitions)
        → IsListed u started after.listings
          × ((db.retires ≡ false) ⊎ IsCurrent t.site started after.listings)
    read-IsCurrent u h k f =
        let es = taken db.takes r.exhibitions in
        rw (read_found-listings h k) (elim (Bool-cases db.retires) [
          | inl y ↦ rw y (
            retire-save-IsListed t.site u started es confirmed f,
            inr (retire_unseen-IsCurrent t.site started (save_exhibitions es confirmed)),
          )
          | inr n ↦ rw n (save-IsListed es u started confirmed f, inl refl)
        ])

    -- Every reading that the database records, whatever it came to, leaves a row for its site that was
    -- attempted when it began, and the rows of all other sites as before.
    read-row :
        (key : String)
        → key ≢ t.site
        → db.records ≡ true
        → (attempted_at (after.rows t.site) ≡ some started) × (after.rows key ≡ s.rows key)
    unfolding read postgres record_scrape
    read-row key h k =
        (ground (arith, k, eq_iff t.site t.site), ground (arith, k, eq_iff key t.site))
