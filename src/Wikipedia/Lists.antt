-- ===== src/Wikipedia/Lists.antt =====
-- pkg/wikipedia/processor.go: the museums that the list pages of a category tree name. What the API
-- answers, what the extractor finds on a page and what the context answers are arguments.
pub mod Visits
pub mod Kept
pub mod Ends
use museumscraper.Prelude.{
  ℕ, zero, suc, ◌+◌, ◌-◌, ◌*◌, ◌/◌, ◌%◌, ◌^◌, ◌≤◌, ◌<◌, min, max, String, ◌≡◌, refl, sym, ap, ◌∙◌,
  ◌≢◌, ◌↔◌, ◌⊎◌, inl, inr, Bool, true, false, not, ◌&&◌, ◌||◌, Option, none, some, List, [], ◌∷◌,
  ◌++◌, map, arith, ltb, leb, ◌==◌, if◌then◌else◌, ltb→lt, lt→ltb, leb→le, ==_iff, Bool-cases,
  Option-cases, length, get_elem?, set, length-append, length-set, get_elem?-set_self,
  get_elem?-set_ne, All, take, drop, dec_lt, ℕ_discrete,
}
use text.Mathlib.Text.{◌==◌ as str_eq}
use museumscraper.Prelude.Int.{pos}
use museumscraper.Collect.{Museum, contains as has}
use museumscraper.Geo.{canonical, is_country}
use museumscraper.Wikipedia.Classify.{
  PageMetadata, Rejection, Decision, accept, accept_unverified, reject, classify,
}
use museumscraper.Wikipedia.Crawl.{
  CategoryMember, Stats, no_stats, Edition, look_up, namespace_article, namespace_category,
}

abbrev pub list_source_name : String
list_source_name = "wikipedia-list"

pub record PendingPage : Type 0 where
  pub title : String
  pub country : String

pub record Candidate : Type 0 where
  pub title : String
  pub locality : String

pub record Extraction : Type 0 where
  pub candidates : List Candidate
  pub nested_lists : List String

-- `out` is what the channel has taken, `looks` how often the context was looked at.
pub record Processor : Type 0 where
  pub visited : List String
  pub emitted : List String
  pub pending : List PendingPage
  pub stats : Stats
  pub out : List Museum
  pub looks : ℕ

abbrev pub new_processor : Processor
new_processor = record {
  visited = [];
  emitted = [];
  pending = [];
  stats = no_stats;
  out = [];
  looks = 0;
}

-- The edition; the candidates and lists on a page, or none where it cannot be had; geo.ExtractCountry;
-- and what stands behind the last " of " of a title.
pub record Site : Type 0 where
  pub edition : Edition
  pub extract : String → Option Extraction
  pub place_of : String → String
  pub after_of : String → Option String

abbrev pub or_hint : String → String → String
or_hint hint place =
    if not (str_eq hint "") then hint else if not (str_eq place "") then place else "unknown"

abbrev pub or_country : Option String → String → String
or_country (some c) rest = c
or_country none rest = rest

module _ (s : Site) where
  abbrev pub canonical_after_of : Option String → Option String
  canonical_after_of none = none
  canonical_after_of (some place) = canonical s.edition.lower place

  abbrev pub country_for : (page_title country_hint : String) → String
  country_for title hint =
      let place = s.place_of title in
      or_country (canonical s.edition.lower place)
        (or_country (canonical_after_of (s.after_of title)) (or_hint hint place))

  abbrev pub look : Processor → Processor
  look p = record p { looks = p.looks + 1 }

  abbrev pub mark : String → Processor → Processor
  mark title p = record p { visited = title ∷ p.visited }

  abbrev pub count_rejected : Rejection → Processor → Processor
  count_rejected reason p = record p {
    stats = record p.stats { rejected = reason ∷ p.stats.rejected };
  }

  abbrev pub count_duplicate : Processor → Processor
  count_duplicate p = record p { stats = record p.stats { duplicates = p.stats.duplicates + 1 } }

  -- A museum without an article keeps only what the list says.
  abbrev pub listed_museum :
      (verified : Bool) → PageMetadata → Candidate → (country title : String) → Museum
  listed_museum verified meta c country title = record {
    name = meta.title;
    country = country;
    locality = c.locality;
    description = meta.description;
    wikipedia_url = if verified then meta.url else "";
    wikidata_id = if verified then meta.wikidata_id else "";
    page_id = if verified then meta.page_id else 0;
    website = "";
    sitelinks = 0;
    latitude = if verified then meta.latitude else pos 0;
    longitude = if verified then meta.longitude else pos 0;
    source_page = title;
    verified = verified;
    also_known_as = [];
    sources = list_source_name ∷ [];
    classes = [];
  }

  abbrev pub emit : (verified : Bool) → PageMetadata → Museum → Processor → Processor
  emit verified meta museum p = record {
    visited = p.visited;
    emitted = meta.title ∷ p.emitted;
    pending = p.pending;
    stats = record p.stats {
      unverified = if verified then p.stats.unverified else p.stats.unverified + 1;
      with_coordinates =
          if meta.has_coordinates && verified
          then p.stats.with_coordinates + 1
          else p.stats.with_coordinates;
      emitted_count = p.stats.emitted_count + 1;
    };
    out = if s.edition.cancelled p.looks then p.out else p.out ++ museum ∷ [];
    looks = p.looks + 1;
  }

  -- A candidate that is not rejected is a duplicate, or is sent; `go` is the rest of the loop.
  unfoldable pub take_candidate :
      (go : Processor → Processor) (verified : Bool) → PageMetadata → Museum → Processor → Processor
  take_candidate go verified meta museum p = elim (has p.emitted meta.title) [
    | true ↦ go (count_duplicate p)
    | false ↦ elim (s.edition.cancelled p.looks) [
      | true ↦ emit verified meta museum p
      | false ↦ go (emit verified meta museum p)
    ]
  ]

  -- The loop over the candidates of a page.
  unfoldable pub emit_candidates :
      (String → Option PageMetadata)
      → (country title : String) → List Candidate
      → Processor
      → Processor
  emit_candidates metadata country title [] p = p
  emit_candidates metadata country title (c ∷ cs) p =
      let meta = look_up s.edition metadata c.title in
      let go = emit_candidates metadata country title cs in
      elim (classify s.edition.lower s.edition.has_lifespan meta) [
        | reject reason ↦ go (count_rejected reason p)
        | accept ↦ take_candidate go true meta (listed_museum true meta c country title) p
        | accept_unverified ↦
            take_candidate go false meta (listed_museum false meta c country title) p
      ]

  abbrev pub pending_from : String → List String → List PendingPage
  pending_from country [] = []
  pending_from country (t ∷ ts) = record { title = t; country = country } ∷ pending_from country ts

  abbrev pub titles_of : List Candidate → List String
  titles_of cs = map (λ (c : Candidate). c.title) cs

  abbrev pub read_page : String → List String → Processor → Processor
  read_page country nested p = record p {
    pending = p.pending ++ pending_from country nested;
    stats = record p.stats { pages_visited = p.stats.pages_visited + 1 };
  }

  -- What follows the early return on a page without candidates.
  unfoldable pub process_candidates :
      (country title : String) → List Candidate → Processor → Processor
  process_candidates country title [] p = p
  process_candidates country title (c ∷ cs) p =
      emit_candidates (s.edition.resolve (titles_of (c ∷ cs))) country title (c ∷ cs)
        (record p { stats = record p.stats { candidates = p.stats.candidates + length (c ∷ cs) } })

  unfoldable pub process_page : (title country_hint : String) → Processor → Processor
  process_page title hint p = elim (s.extract title) [
    | none ↦ p
    | some e ↦
        let country = country_for title hint in
        process_candidates country title e.candidates (read_page country e.nested_lists p)
  ]

  abbrev pub and_then : Option Processor → (Processor → Option Processor) → Option Processor
  and_then none f = none
  and_then (some p) f = f p

  -- The loop over the members of a category; `visit` walks a subcategory.
  unfoldable pub walk_listed :
      (visit : String → Processor → Option Processor)
      → (country_hint : String) → List CategoryMember
      → Processor
      → Option Processor
  walk_listed visit hint [] p = some p
  walk_listed visit hint (m ∷ ms) p =
      let go = walk_listed visit hint ms in
      elim (s.edition.cancelled p.looks) [
        | true ↦ some (look p)
        | false ↦ elim (m.ns == namespace_category) [
          | true ↦ and_then (visit m.title (look p)) go
          | false ↦ elim (not (m.ns == namespace_article) || has p.visited m.title) [
            | true ↦ go (look p)
            | false ↦ go (process_page m.title hint (mark m.title (look p)))
          ]
        ]
      ]

  abbrev pub enter : String → Processor → Processor
  enter category p = record p {
    visited = category ∷ p.visited;
    stats = record p.stats { categories_visited = p.stats.categories_visited + 1 };
  }

  abbrev pub list_hint : String → String → String
  list_hint category hint =
      let country = s.place_of category in
      if not (str_eq country "") && is_country s.edition.lower country then country else hint

  -- walkCategory with fuel: none when it runs out.
  unfoldable pub walk_category :
      (fuel : ℕ) → (category country_hint : String) → Processor → Option Processor
  walk_category zero category hint p = none
  walk_category (suc fuel) category hint p =
      let visit = λ (title : String) (at : Processor).
        walk_category fuel title (list_hint category hint) at in
      elim (s.edition.cancelled p.looks || has p.visited category) [
        | true ↦ some (look p)
        | false ↦ elim (s.edition.members category) [
          | none ↦ some (enter category (look p))
          | some ms ↦ walk_listed visit (list_hint category hint) ms (enter category (look p))
        ]
      ]

  -- The loop over the pages that other pages named, with fuel for its rounds.
  unfoldable pub drain : (fuel : ℕ) → List PendingPage → Processor → Option Processor
  drain fuel [] p = some p
  drain zero (q ∷ qs) p = none
  drain (suc fuel) (q ∷ qs) p =
      let r = record (look p) { pending = qs } in
      let next = process_page q.title q.country (mark q.title r) in
      elim (s.edition.cancelled p.looks) [
        | true ↦ some (look p)
        | false ↦ elim (has p.visited q.title) [
          | true ↦ drain fuel r.pending r
          | false ↦ drain fuel next.pending next
        ]
      ]

  -- ProcessCategoryAsync
  unfoldable pub process_category : (depth rounds : ℕ) → String → Option Processor
  process_category depth rounds category =
      and_then (walk_category depth category "" new_processor) (λ p. drain rounds p.pending p)
