-- ===== src/Exhibitions/Listing.antt =====
-- pkg/exhibitions/service.go: harvest, which reads the exhibitions off one listing page.
pub mod Kept
use museumscraper.Prelude.{
  ℕ, zero, suc, ◌+◌, ◌-◌, ◌*◌, ◌/◌, ◌%◌, ◌^◌, ◌≤◌, ◌<◌, min, max, String, ◌≡◌, refl, sym, ap, ◌∙◌,
  ◌≢◌, ◌↔◌, ◌⊎◌, inl, inr, Bool, true, false, not, ◌&&◌, ◌||◌, Option, none, some, List, [], ◌∷◌,
  ◌++◌, map, arith, ltb, leb, ◌>>=◌, Held, Held-if, Held-bind, ◌==◌, if◌then◌else◌, ltb→lt, lt→ltb,
  leb→le, ==_iff, Bool-cases, Option-cases, length, get_elem?, set, length-append, length-set,
  get_elem?-set_self, get_elem?-set_ne, All, take, drop, dec_lt, ℕ_discrete,
}
use museumscraper.Prelude.Int.{ℤ}
use museumscraper.Text.Bytes.{Bytes, among}
use museumscraper.Exhibitions.Calendar.{Date, before}
use museumscraper.Exhibitions.Dates.{DateRange, is_zero, known, runs, upcoming, parse_date_range}
use museumscraper.Exhibitions.Links.{Url, Web, names_permanent, path_names_permanent}
use museumscraper.Exhibitions.Displays.{is_permanent_listing, names_exhibitions}
use museumscraper.Exhibitions.Candidates.{Candidate}
use museumscraper.Exhibitions.Candidates.Declared.{candidates_on}
use museumscraper.Exhibitions.Fetch.{Page}

-- The position is in degrees of any unit.
pub record Museum : Type 0 where
  pub name : Bytes
  pub website : Bytes
  pub wikidata_id : Bytes
  pub latitude : ℤ
  pub longitude : ℤ

-- The instant of the scrape, its day, and whether a closing date is more than ten years away, which
-- the source decides in floating point.
pub record Now : Type 0 where
  pub instant : ℕ
  pub today : Date
  pub is_far : Date → Bool

pub record Exhibition : Type 0 where
  pub title : Bytes
  pub url : Bytes
  pub museum : Bytes
  pub start : Option Date
  pub end : Option Date
  pub running : Bool
  pub upcoming : Bool
  pub permanent : Bool
  pub source_page : Bytes
  pub museum_wikidata_id : Bytes
  pub latitude : ℤ
  pub longitude : ℤ
  pub scraped_at : ℕ

abbrev pub urls : List Exhibition → List Bytes
urls es = map (λ (e : Exhibition). e.url) es

-- resolveOpenEnd
unfoldable pub resolve_open_end : Now → DateRange → DateRange
resolve_open_end now r = elim r.end [
  | none ↦ r
  | some d ↦
      if r.permanent || not (now.is_far d)
      then r
      else record { start = r.start; end = none; permanent = true }
]

-- isRun
abbrev pub ends_after : Option Date → Option Date → Bool
ends_after none end = false
ends_after (some start) none = false
ends_after (some start) (some end) = before start end

unfoldable pub is_run : DateRange → Bool
is_run r = ends_after r.start r.end

abbrev pub opens : Option Date → Bool
opens none = false
opens (some d) = true

unfoldable pub dated_permanent : DateRange → Bool
dated_permanent r = r.permanent && opens r.start

-- How an entry without dates is kept: as a permanent display, or as one with no known end.
pub data Standing : Type 0 where
  dated : Standing
  standing : Standing
  undated : Standing

abbrev pub is_standing : Standing → Bool
is_standing dated = false
is_standing standing = true
is_standing undated = false

abbrev pub is_shown : Standing → Bool
is_shown dated = false
is_shown standing = true
is_shown undated = true

-- What harvest finds out about a page.
pub record Reading : Type 0 where
  pub final_url : Bytes
  pub permanent : Bool
  pub undated : Bool

abbrev pub or_base : Option Url → Url → Url
or_base none base = base
or_base (some u) base = u

abbrev pub keep : Option Exhibition → List Exhibition → List Exhibition
keep none es = es
keep (some e) es = e ∷ es

module _ (w : Web) (now : Now) where
  abbrev pub text_dates : Bytes → DateRange
  text_dates text = parse_date_range w.alphabet.patterns text now.today.year

  unfoldable pub dates_for : Candidate → DateRange
  dates_for c =
      if known c.dates
      then resolve_open_end now c.dates
      else if known (text_dates c.title)
      then resolve_open_end now (text_dates c.title)
      else resolve_open_end now (text_dates c.context)

  unfoldable pub all_undated : List Candidate → Bool
  all_undated [] = true
  all_undated (c ∷ cs) = not (known (dates_for c)) && all_undated cs

  unfoldable pub undated_listing : (strong_page : Bool) → List Candidate → Bool
  undated_listing strong_page [] = false
  undated_listing strong_page (c ∷ cs) = strong_page && all_undated (c ∷ cs)

  unfoldable pub candidate_is_permanent : Candidate → (listing_is_permanent : Bool) → Bool
  candidate_is_permanent c listing_is_permanent =
      listing_is_permanent
      || names_permanent w c.title
      || names_permanent w c.context
      || elim (w.parse_url c.url) [ none ↦ false | some u ↦ path_names_permanent w u.path ]

  -- The switch on an entry without dates; none for one that is passed over.
  unfoldable pub standing_of : Reading → Candidate → DateRange → Option Standing
  standing_of r c dates =
      if dates.permanent
      then some standing
      else if not (is_zero dates)
      then some dated
      else if candidate_is_permanent c r.permanent
      then some standing
      else if r.undated
      then some undated
      else none

  -- Whether the run of an entry is on, and whether it is still to come.
  abbrev pub is_running : Standing → DateRange → Bool
  is_running s dates = is_shown s || runs dates now.today

  abbrev pub is_upcoming : Standing → DateRange → Bool
  is_upcoming s dates = not (is_shown s) && upcoming dates now.today

  abbrev pub entry : Museum → Reading → Candidate → DateRange → Standing → Exhibition
  entry m r c dates s = record {
    title = c.title;
    url = c.url;
    museum = m.name;
    start = dates.start;
    end = dates.end;
    running = is_running s dates;
    upcoming = is_upcoming s dates;
    permanent = is_standing s;
    source_page = r.final_url;
    museum_wikidata_id = m.wikidata_id;
    latitude = m.latitude;
    longitude = m.longitude;
    scraped_at = now.instant;
  }

  -- The rest of the loop of harvest.
  unfoldable pub admit :
      Museum → Reading → Candidate → DateRange → Option Standing → Option Exhibition
  admit m r c dates none = none
  admit m r c dates (some s) =
      if c.vouched && not (is_run dates) && not (dated_permanent dates)
      then none
      else if not (is_running s dates) && not (is_upcoming s dates)
      then none
      else some (entry m r c dates s)

  unfoldable pub judge_entry :
      Museum → Reading → (read_as_listing : List Bytes) → Candidate → Option Exhibition
  judge_entry m r read_as_listing c =
      if among read_as_listing c.url
      then none
      else admit m r c (dates_for c) (standing_of r c (dates_for c))

  unfoldable pub judge_entries :
      Museum → Reading → (read_as_listing : List Bytes) → List Candidate → List Exhibition
  judge_entries m r read_as_listing [] = []
  judge_entries m r read_as_listing (c ∷ cs) =
      keep (judge_entry m r read_as_listing c) (judge_entries m r read_as_listing cs)

  -- harvest of a page that was fetched.
  unfoldable pub harvest :
      Url
      → Museum
      → (assume_permanent : Bool) → (read_as_listing : List Bytes) → Page
      → List Exhibition
  harvest base m assume_permanent read_as_listing page =
      let page_base = or_base (w.parse_url page.url) base in
      let candidates = candidates_on w page.body page_base in
      let r : Reading = record {
        final_url = page.url;
        permanent = assume_permanent || is_permanent_listing w page.body (some page_base);
        undated = undated_listing (names_exhibitions w page.body (some page_base)) candidates;
      } in
      judge_entries m r read_as_listing candidates
