-- ===== src/Sweep/Runner.antt =====
-- internal/sweep/runner.go: Read, over the store that it is given. What the scraper returned for the
-- site, the instant at which the reading began and the digest (SHA-256 in hex) are arguments.
pub mod Fingerprint
pub mod Reading
use museumscraper.Prelude.{
  ℕ, zero, suc, ◌+◌, ◌-◌, ◌*◌, ◌/◌, ◌%◌, ◌^◌, ◌≤◌, ◌<◌, min, max, String, ◌≡◌, refl, sym, ap, ◌∙◌,
  ◌≢◌, ◌↔◌, ◌⊎◌, inl, inr, Bool, true, false, not, ◌&&◌, ◌||◌, Option, none, some, List, [], ◌∷◌,
  ◌++◌, map, arith, ltb, leb, ◌==◌, if◌then◌else◌, ltb→lt, lt→ltb, leb→le, ==_iff, Bool-cases,
  Option-cases, length, get_elem?, set, length-append, length-set, get_elem?-set_self,
  get_elem?-set_ne, All, dec_lt, ℕ_discrete,
}
use text.Mathlib.Text.{◌==◌ as str_eq}
use museumscraper.Sweep.Schedule.{Outcome, changed, unchanged, failed, State, Reason, Plan, next}
use museumscraper.Sweep.Row.{Attempt, succeeded}
use museumscraper.Sweep.Listings.{Exhibition}

-- sweep.Store over a state `S`. Each call returns the state that it leaves and its result: for the
-- writes whether there was no error, for RetireUnseen and SoonestClose their value, or none for an
-- error.
pub record Store (S : Type 0) : Type 0 where
  pub save : S → List Exhibition → S × Bool
  pub retire : S → String → ℕ → S × Option ℕ
  pub touch : S → String → ℕ → S × Bool
  pub soonest : S → String → Option (Option ℕ)
  pub record_scrape : S → String → Attempt → ℕ → S × Bool

pub record Target : Type 0 where
  pub site : String
  pub listing_url : String
  pub etag : String
  pub last_modified : String
  pub fingerprint : String
  pub state : State

-- exhibitions.Result, and the error that may come with it.
pub record Result : Type 0 where
  pub exhibitions : List Exhibition
  pub listing_url : String
  pub etag : String
  pub last_modified : String
  pub reached : Bool
  pub is_unchanged : Bool

pub data Failure : Type 0 where
  no_website other : Failure

pub record Report : Type 0 where
  pub site : String
  pub outcome : Outcome
  pub found : ℕ
  pub retired : ℕ
  pub due_at : ℕ
  pub reason : Reason
  pub parked : Bool

-- What the switch of Read sets: the outcome, and four fields of the record.
pub record Verdict : Type 0 where
  pub outcome : Outcome
  pub fingerprint : String
  pub listing_url : String
  pub etag : String
  pub last_modified : String

abbrev pub blank_verdict : Outcome → Verdict
blank_verdict o = record {
  outcome = o;
  fingerprint = "";
  listing_url = "";
  etag = "";
  last_modified = "";
}

abbrev pub kept_verdict : Target → Verdict
kept_verdict t = record {
  outcome = unchanged;
  fingerprint = t.fingerprint;
  listing_url = t.listing_url;
  etag = t.etag;
  last_modified = t.last_modified;
}

-- Whether the fourth case of the switch is taken.
unfoldable pub confirms : Result → Option Failure → Bool
confirms r (some e) = false
confirms r none = r.reached && r.is_unchanged

abbrev pub is_empty : List Exhibition → Bool
is_empty [] = true
is_empty (e ∷ es) = false

module _ (digest : List Exhibition → String) where
  abbrev pub read_verdict : Target → Result → Verdict
  read_verdict t r = record {
    outcome = if str_eq (digest r.exhibitions) t.fingerprint then unchanged else changed;
    fingerprint = digest r.exhibitions;
    listing_url = r.listing_url;
    etag = r.etag;
    last_modified = r.last_modified;
  }

  -- The switch, without the call of TouchSite in its fourth case.
  unfoldable pub judge : Target → Result → Option Failure → Verdict
  judge t r (some other) = blank_verdict failed
  judge t r (some no_website) = blank_verdict unchanged
  judge t r none =
      if not r.reached
      then blank_verdict failed
      else if r.is_unchanged
      then kept_verdict t
      else read_verdict t r

  module _ {S : Type 0} (store : Store S) where
    unfoldable pub touch_if : Bool → Target → ℕ → S → S
    touch_if b t started s = if b then (store.touch s t.site started).0 else s

    -- The block that stores and retires: the state, and how many were retired. An error of RetireUnseen
    -- is logged and counts none.
    unfoldable pub keep : Outcome → Target → List Exhibition → ℕ → S → S × ℕ
    keep o t found started s =
        if succeeded o && not (is_empty found)
        then (let (s', gone) = store.retire (store.save s found).0 t.site started in
            (s', elim gone [ none ↦ 0 | some n ↦ n ]))
        else (s, 0)

    abbrev pub counted : Outcome → List Exhibition → ℕ
    counted o found = if succeeded o && not (is_empty found) then length found else 0

    -- SoonestClose, whose error leaves the date nil.
    abbrev pub soonest_or_nil : S → String → Option ℕ
    soonest_or_nil s site = elim (store.soonest s site) [ none ↦ none | some d ↦ d ]

    unfoldable pub read : Target → Result → Option Failure → ℕ → S → S × Report
    unfolding judge confirms touch_if keep
    read t r err started s =
        let v = judge t r err in
        let s₁ = touch_if (confirms r err) t started s in
        let (s₂, gone) = keep v.outcome t r.exhibitions started s₁ in
        let plan = next t.state v.outcome (soonest_or_nil s₂ t.site) started in
        let attempt : Attempt = record {
          plan = plan;
          outcome = v.outcome;
          found_count = counted v.outcome r.exhibitions;
          fingerprint = v.fingerprint;
          listing_url = v.listing_url;
          etag = v.etag;
          last_modified = v.last_modified;
        } in
        (
          (store.record_scrape s₂ t.site attempt started).0,
          record {
            site = t.site;
            outcome = v.outcome;
            found = counted v.outcome r.exhibitions;
            retired = gone;
            due_at = plan.due_at;
            reason = plan.reason;
            parked = plan.park;
          },
        )
