-- ===== src/Sweep/Row/History.antt =====
-- A site's row over its whole life: discovered, then claimed and read again and again.
use museumscraper.Prelude.{
  ℕ, ◌+◌, ◌*◌, ◌≤◌, ◌<◌, String, ◌≡◌, refl, ◌≢◌, ◌↔◌, inr, true, Option, none, some, arith, leb,
  if◌then◌else◌,
}
use museumscraper.Sweep.Schedule.{
  Outcome, changed, unchanged, failed, hour, min_interval, max_interval, State, next, first_read,
  max_failures, after_failure, bring_forward,
}
use museumscraper.Sweep.Schedule.Due.{next-interval_bounds}
use museumscraper.Sweep.Row.{
  Row, Attempt, discover, record_scrape, scan_state, is_due, claim, nullif,
}

-- What a reading reports of a site, apart from the plan, and what it knew of closing dates.
pub record Reading : Type 0 where
  pub outcome : Outcome
  pub soonest : Option ℕ
  pub found_count : ℕ
  pub fingerprint : String
  pub listing_url : String
  pub etag : String
  pub last_modified : String

-- The record that Runner.Read writes for a reading of a row.
unfoldable pub attempt_on : Row → Reading → ℕ → Attempt
attempt_on row r now = record {
  plan = next (scan_state row) r.outcome r.soonest now;
  outcome = r.outcome;
  found_count = r.found_count;
  fingerprint = r.fingerprint;
  listing_url = r.listing_url;
  etag = r.etag;
  last_modified = r.last_modified;
}

unfoldable pub read_row : Row → Reading → ℕ → Row
unfolding attempt_on
read_row row r now = record_scrape (some row) (attempt_on row r now) now

-- The rows that discovery, claims and readings lead to.
pub data Reachable : Row → Type 0 where
  discovered : (now : ℕ) → Reachable (discover now none)
  claims : {row : Row} (now lease : ℕ) → Reachable row → Reachable (claim now lease row)
  reads : {row : Row} (r : Reading) (now : ℕ) → Reachable row → Reachable (read_row row r now)

pub read_row-plan :
    (row : Row) (r : Reading) (now : ℕ)
    → let p = next (scan_state row) r.outcome r.soonest now in
      ((read_row row r now).interval ≡ p.interval)
      × ((read_row row r now).next_due_at ≡ p.due_at)
      × ((read_row row r now).consecutive_failures ≡ p.consecutive_failures)
unfolding read_row record_scrape
read_row-plan row r now = (refl, refl, refl)

-- A row that was discovered, claimed and read any number of times, whatever the readings found,
-- has an interval between the floor and the ceiling.
pub Reachable-interval_bounds :
    {row : Row} → Reachable row → (min_interval ≤ row.interval) × (row.interval ≤ max_interval)
unfolding discover claim scan_state
Reachable-interval_bounds (discovered now) = omega arith
Reachable-interval_bounds (claims now lease h) = Reachable-interval_bounds h
Reachable-interval_bounds (reads {row} r now h) =
    let ih = Reachable-interval_bounds h in
    let same = (read_row-plan row r now).0 in
    let bounds = next-interval_bounds (scan_state row) r.outcome r.soonest now (inr ih) in
    omega arith

not_first_read :
    (s : State) (o : Outcome) (soonest : Option ℕ) (now : ℕ)
    → 0 < s.interval
    → (next s o soonest now).reason ≢ first_read
unfolding next
not_first_read s changed soonest now h e = ground arith
not_first_read s unchanged soonest now h e = ground arith
not_first_read s failed soonest now h e = ground arith

-- No reading of a row of the table is planned as a first read: the interval that discovery stores
-- is never 0, so the branch of Next that leaves the interval alone is not reached from the table.
pub Reachable-never_first_read :
    {row : Row} (r : Reading) (now : ℕ)
    → Reachable row
    → (next (scan_state row) r.outcome r.soonest now).reason ≢ first_read
unfolding scan_state
Reachable-never_first_read {row} r now h =
    let bounds = Reachable-interval_bounds h in
    not_first_read (scan_state row) r.outcome r.soonest now (omega arith)

-- The first reading of a discovered site, if it finds anything and no closing date is near, is
-- taken for a change: it halves the week that every site starts with.
pub first_change_halves :
    (t now : ℕ) (r : Reading)
    → r.outcome ≡ changed
    → r.soonest ≡ none
    → let row = read_row (discover t none) r now in
      (row.interval ≡ 84 * hour) × (row.next_due_at ≡ now + 84 * hour)
unfolding read_row record_scrape discover scan_state next
first_change_halves t now r e n = ground arith

parks_with_failures :
    (s : State) (o : Outcome) (soonest : Option ℕ) (now : ℕ)
    → let p = next s o soonest now in
      ((if p.park then some p.reason else none) ≢ none) ↔ (max_failures ≤ p.consecutive_failures)
unfolding next after_failure bring_forward
parks_with_failures s changed soonest now = ((λ h. ground (arith, h)), (λ h e. ground arith))
parks_with_failures s unchanged soonest now = ((λ h. ground (arith, h)), (λ h e. ground arith))
parks_with_failures s failed soonest now = ((λ h. ground (arith, h)), (λ h e. ground arith))

-- A reachable row is parked exactly when its last six readings, or more, have all failed.
pub Reachable-parked_iff :
    {row : Row}
    → Reachable row
    → (row.parked_reason ≢ none) ↔ (max_failures ≤ row.consecutive_failures)
unfolding discover claim read_row record_scrape
Reachable-parked_iff (discovered now) = ((λ h. absurd (h refl)), (λ h. absurd (omega arith)))
Reachable-parked_iff (claims now lease h) = Reachable-parked_iff h
Reachable-parked_iff (reads {row} r now h) =
    parks_with_failures (scan_state row) r.outcome r.soonest now

-- A row that one sweeper has claimed is due for no other until the lease has run out, and until a
-- reading has written it, it falls due again then, if it was not parked.
is_due-claim :
    (row : Row) (now lease later : ℕ)
    → is_due now row ≡ true
    → is_due later (claim now lease row) ≡ leb (now + lease) later
unfolding is_due claim
is_due-claim row now lease later h = ground arith

-- A failed reading with nothing to report leaves what is known of the site, and adds one failure.
pub read_row-failed :
    (row : Row) (r : Reading) (now : ℕ)
    → r.outcome ≡ failed
    → nullif r.fingerprint ≡ none
    → nullif r.listing_url ≡ none
    → let row' = read_row row r now in
      (row'.fingerprint ≡ row.fingerprint)
      × (row'.listing_url ≡ row.listing_url)
      × (row'.last_success_at ≡ row.last_success_at)
      × (row'.found_count ≡ row.found_count)
      × (row'.last_attempt_at ≡ some now)
      × (row'.consecutive_failures ≡ row.consecutive_failures + 1)
unfolding read_row record_scrape scan_state next after_failure
read_row-failed row r now e f l = ground arith
