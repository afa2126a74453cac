-- ===== src/Sweep/Row.antt =====
-- internal/postgres/sweeps.go: the site_scrapes table, one row for a site. Texts that SQL reads as
-- null when empty are options; interval_hours is kept as the interval that it is read back to.
pub mod History
use museumscraper.Prelude.{
  ℕ, zero, suc, ◌+◌, ◌-◌, ◌*◌, ◌/◌, ◌%◌, ◌^◌, ◌≤◌, ◌<◌, min, max, String, ◌≡◌, refl, sym, ap, ◌∙◌,
  ◌≢◌, ◌↔◌, ◌⊎◌, inl, inr, Bool, true, false, not, ◌&&◌, ◌||◌, Option, none, some, List, [], ◌∷◌,
  ◌++◌, map, arith, ltb, leb, ◌==◌, if◌then◌else◌, ltb→lt, lt→ltb, leb→le, ==_iff, Bool-cases,
  Option-cases, length, get_elem?, set, length-append, length-set, get_elem?-set_self,
  get_elem?-set_ne, All, dec_lt, ℕ_discrete,
}
use Prim.Native.String.{[] as empty, ◌∷◌ as cons}
use museumscraper.Sweep.Schedule.{
  Outcome, changed, unchanged, failed, hour, first_interval, State, Reason, Plan,
}

-- What the due_reason column holds.
pub data DueReason : Type 0 where
  never_read claimed : DueReason
  planned : Reason → DueReason

pub record Row : Type 0 where
  pub last_attempt_at : Option ℕ
  pub last_success_at : Option ℕ
  pub last_change_at : Option ℕ
  pub listing_url : Option String
  pub etag : Option String
  pub last_modified : Option String
  pub fingerprint : Option String
  pub found_count : ℕ
  pub consecutive_failures : ℕ
  pub interval : ℕ
  pub next_due_at : ℕ
  pub due_reason : DueReason
  pub parked_reason : Option Reason

-- sweep.Record, without the key of the row.
pub record Attempt : Type 0 where
  pub plan : Plan
  pub outcome : Outcome
  pub found_count : ℕ
  pub fingerprint : String
  pub listing_url : String
  pub etag : String
  pub last_modified : String

-- SQL's `nullif(s, '')`, `coalesce(a, b)` and `coalesce(a, '')`.
abbrev pub nullif : String → Option String
nullif empty = none
nullif (cons c s) = some (cons c s)

abbrev pub coalesce {ℓ} : {A : Type ℓ} → Option A → Option A → Option A
coalesce none b = b
coalesce (some a) b = some a

abbrev pub or_empty : Option String → String
or_empty none = ""
or_empty (some s) = s

abbrev pub succeeded : Outcome → Bool
succeeded failed = false
succeeded _ = true

abbrev pub is_change : Outcome → Bool
is_change changed = true
is_change _ = false

-- DiscoverSites, for one site: a row that is there already is left alone. The interval is the
-- column's default of 168 hours, the due date a minute before now.
unfoldable pub discover : ℕ → Option Row → Row
discover now (some row) = row
discover now none = record {
  last_attempt_at = none;
  last_success_at = none;
  last_change_at = none;
  listing_url = none;
  etag = none;
  last_modified = none;
  fingerprint = none;
  found_count = 0;
  consecutive_failures = 0;
  interval = 168 * hour;
  next_due_at = now - 60000000000;
  due_reason = never_read;
  parked_reason = none;
}

-- The values that RecordScrape's INSERT gives.
unfoldable pub inserted : Attempt → ℕ → Row
inserted a now = record {
  last_attempt_at = some now;
  last_success_at = if succeeded a.outcome then some now else none;
  last_change_at = if is_change a.outcome then some now else none;
  listing_url = nullif a.listing_url;
  etag = nullif a.etag;
  last_modified = nullif a.last_modified;
  fingerprint = nullif a.fingerprint;
  found_count = a.found_count;
  consecutive_failures = a.plan.consecutive_failures;
  interval = a.plan.interval;
  next_due_at = a.plan.due_at;
  due_reason = planned a.plan.reason;
  parked_reason = if a.plan.park then some a.plan.reason else none;
}

-- RecordScrape: the INSERT, or on a conflict the UPDATE, in which `old` is the stored row.
unfoldable pub record_scrape : Option Row → Attempt → ℕ → Row
unfolding inserted
record_scrape none a now = inserted a now
record_scrape (some old) a now =
    let excluded = inserted a now in
    record excluded {
      last_success_at = coalesce excluded.last_success_at old.last_success_at;
      last_change_at = coalesce excluded.last_change_at old.last_change_at;
      listing_url = coalesce excluded.listing_url old.listing_url;
      etag = coalesce excluded.etag old.etag;
      last_modified = coalesce excluded.last_modified old.last_modified;
      fingerprint = coalesce excluded.fingerprint old.fingerprint;
      found_count = if succeeded a.outcome then a.found_count else old.found_count;
    }

-- What scanTargets reads of a row into sweep.State, and its never_read column.
unfoldable pub scan_state : Row → State
scan_state row = record { interval = row.interval; consecutive_failures = row.consecutive_failures }

unfoldable pub never_read? : Row → Bool
never_read? row = elim row.last_success_at [ none ↦ true | some _ ↦ false ]

-- The condition of DueSites and of ClaimDueSites.
unfoldable pub is_due : ℕ → Row → Bool
is_due now row = elim row.parked_reason [ none ↦ leb row.next_due_at now | some _ ↦ false ]

-- What ClaimDueSites does to a row that it takes.
unfoldable pub claim : ℕ → ℕ → Row → Row
claim now lease row = record row { next_due_at = now + lease; due_reason = claimed }
