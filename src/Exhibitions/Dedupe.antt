-- ===== src/Exhibitions/Dedupe.antt =====
-- pkg/exhibitions/service.go: dedupe, which makes one entry of the occurrences of an event, and the
-- choice of one museum for each website.
pub mod Widened
pub mod Ordered
use museumscraper.Prelude.{
  ℕ, zero, suc, ◌+◌, ◌-◌, ◌*◌, ◌/◌, ◌%◌, ◌^◌, ◌≤◌, ◌<◌, min, max, String, ◌≡◌, refl, sym, ap, ◌∙◌,
  ◌≢◌, ◌↔◌, ◌⊎◌, inl, inr, Bool, true, false, not, ◌&&◌, ◌||◌, Option, none, some, List, [], ◌∷◌,
  ◌++◌, map, arith, ltb, leb, ◌>>=◌, ◌==◌, if◌then◌else◌, ltb→lt, lt→ltb, leb→le, ==_iff,
  Bool-cases, Option-cases, length, get_elem?, set, length-append, length-set, get_elem?-set_self,
  get_elem?-set_ne, All, take, drop, dec_lt, ℕ_discrete,
}
use museumscraper.Text.Bytes.{Bytes, trim, among, equal}
use museumscraper.Exhibitions.Calendar.{Date, before}
use museumscraper.Exhibitions.Listing.{Exhibition, Museum}

abbrev pub sooner_start : Option Date → Option Date → Option Date
sooner_start kept none = kept
sooner_start none (some d) = some d
sooner_start (some k) (some d) = if before d k then some d else some k

abbrev pub later_end : Option Date → Option Date → Option Date
later_end kept none = kept
later_end none (some d) = some d
later_end (some k) (some d) = if before k d then some d else some k

abbrev pub with_span : Exhibition → Option Date → Option Date → Exhibition
with_span e start end = record {
  title = e.title;
  url = e.url;
  museum = e.museum;
  start = start;
  end = end;
  running = e.running;
  upcoming = e.upcoming;
  permanent = e.permanent;
  source_page = e.source_page;
  museum_wikidata_id = e.museum_wikidata_id;
  latitude = e.latitude;
  longitude = e.longitude;
  scraped_at = e.scraped_at;
}

unfoldable pub widen : Exhibition → Exhibition → Exhibition
widen kept new = elim kept.permanent [
  | true ↦ kept
  | false ↦ with_span kept (sooner_start kept.start new.start) (later_end kept.end new.end)
]

-- The comparison that dedupe sorts by.
abbrev pub closes_before : Option Date → Option Date → Bool
closes_before none b = false
closes_before (some a) none = true
closes_before (some a) (some b) = before a b

-- What runs comes first.
abbrev pub goes_first : Bool → Option Date → Bool → Option Date → Bool
goes_first true a true b = closes_before a b
goes_first true a false b = true
goes_first false a true b = false
goes_first false a false b = closes_before a b

abbrev pub less : Exhibition → Exhibition → Bool
less a b = goes_first a.running a.end b.running b.end

-- sort.SliceStable
unfoldable pub insert_sorted : Exhibition → List Exhibition → List Exhibition
insert_sorted e [] = e ∷ []
insert_sorted e (f ∷ fs) =
    let rest = insert_sorted e fs in if less e f then e ∷ f ∷ fs else f ∷ rest

unfoldable pub sort_stable : List Exhibition → List Exhibition → List Exhibition
sort_stable ordered [] = ordered
sort_stable ordered (e ∷ es) = sort_stable (insert_sorted e ordered) es

module _ (lower : Bytes → Bytes) where
  abbrev pub title_key : Exhibition → Bytes
  title_key e = lower (trim e.title)

  -- One round of the loop: the entry with the same title is widened, or a new one is added.
  unfoldable pub merge : List Exhibition → Exhibition → List Exhibition
  merge [] e = e ∷ []
  merge (k ∷ unique) e =
      let rest = merge unique e in
      if equal (title_key k) (title_key e) then widen k e ∷ unique else k ∷ rest

  unfoldable pub merge_all : List Exhibition → List Exhibition → List Exhibition
  merge_all unique [] = unique
  merge_all unique (e ∷ es) = merge_all (merge unique e) es

  unfoldable pub dedupe : List Exhibition → List Exhibition
  dedupe es = sort_stable [] (merge_all [] es)
