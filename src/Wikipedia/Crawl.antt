-- ===== src/Wikipedia/Crawl.antt =====
-- pkg/wikipedia/category.go: the museums found by walking a category tree. What a category
-- holds, what titles resolve to, what geo makes of a title and what each look at the context answers
-- are arguments.
pub mod Steps
pub mod Invariants
use museumscraper.Prelude.{
  ℕ, zero, suc, ◌+◌, ◌-◌, ◌*◌, ◌/◌, ◌%◌, ◌^◌, ◌≤◌, ◌<◌, min, max, String, ◌≡◌, refl, sym, ap, ◌∙◌,
  ◌≢◌, ◌↔◌, ◌⊎◌, inl, inr, Bool, true, false, not, ◌&&◌, ◌||◌, Option, none, some, List, [], ◌∷◌,
  ◌++◌, map, arith, ltb, leb, ◌==◌, if◌then◌else◌, ltb→lt, lt→ltb, leb→le, ==_iff, Bool-cases,
  Option-cases, length, get_elem?, set, length-append, length-set, get_elem?-set_self,
  get_elem?-set_ne, All, take, drop, dec_lt, ℕ_discrete,
}
use museumscraper.Wikipedia.Topics.{category_source_name_for, category_prefix, skip_category}
use text.Mathlib.Text.{◌==◌ as str_eq}
use museumscraper.Prelude.Int.{ℤ, pos}
use Prim.Native.Char.{code}
use Prim.Native.String.{[] as empty, ◌∷◌ as cons, ◌++◌ as append}
use museumscraper.Text.{trim_prefix}
use museumscraper.Text.Bytes.{Bytes, codes}
use museumscraper.Collect.{Museum, contains as has}
use museumscraper.Wikipedia.Classify.{
  PageMetadata, Rejection, Decision, accept, accept_unverified, reject, reject_unresolvable,
  mentions, starts_with, classify,
}

abbrev pub max_depth : ℕ
max_depth = 8

abbrev pub namespace_article : ℕ
namespace_article = 0

abbrev pub namespace_category : ℕ
namespace_category = 14

pub record CategoryMember : Type 0 where
  pub ns : ℕ
  pub title : String

pub record Stats : Type 0 where
  pub categories_visited : ℕ
  pub pages_visited : ℕ
  pub candidates : ℕ
  pub emitted_count : ℕ
  pub unverified : ℕ
  pub duplicates : ℕ
  pub rejected : List Rejection
  pub with_coordinates : ℕ

-- The two sets are lists with the newest element first, the map of rejections is the list of the
-- reasons. `out` is what the channel has taken, `looks` how often the context was looked at.
pub record Crawler : Type 0 where
  pub visited : List String
  pub emitted : List String
  pub stats : Stats
  pub out : List Museum
  pub looks : ℕ

abbrev pub no_stats : Stats
no_stats = record {
  categories_visited = 0;
  pages_visited = 0;
  candidates = 0;
  emitted_count = 0;
  unverified = 0;
  duplicates = 0;
  rejected = [];
  with_coordinates = 0;
}

abbrev pub new_crawler : Crawler
new_crawler = record { visited = []; emitted = []; stats = no_stats; out = []; looks = 0 }

abbrev pub or_unknown : String → String
or_unknown country = if str_eq country "" then "unknown" else country

-- What stands for the edition's API, for geo and for the context. `members` gives none for an error.
pub record Edition : Type 0 where
  pub lang : String
  pub lower : String → String
  pub has_lifespan : String → Bool
  pub members : String → Option (List CategoryMember)
  pub resolve : List String → String → Option PageMetadata
  pub canonical_country : String → Option String
  pub cancelled : ℕ → Bool

module _ (e : Edition) where
  abbrev pub category_country : String → String
  category_country title = elim (e.canonical_country (trim_prefix title category_prefix)) [
    | some country ↦ country
    | none ↦ ""
  ]

  -- The titles that were not emitted before, and how many were.
  unfoldable pub fresh_titles : List String → List String → List String × ℕ
  fresh_titles emitted [] = ([], 0)
  fresh_titles emitted (t ∷ ts) =
      let (fresh, duplicates) = fresh_titles emitted ts in
      if has emitted t then (fresh, duplicates + 1) else (t ∷ fresh, duplicates)

  abbrev pub look_up : (String → Option PageMetadata) → String → PageMetadata
  look_up metadata title = elim (metadata title) [
    | some meta ↦ meta
    | none ↦ record {
      page_id = 0;
      title = title;
      namespace = 0;
      missing = true;
      is_disambiguation = false;
      url = "";
      description = "";
      wikidata_id = "";
      latitude = pos 0;
      longitude = pos 0;
      has_coordinates = false;
    }
  ]

  abbrev pub museum_of : PageMetadata → String → String → Museum
  museum_of meta country source_category = record {
    name = meta.title;
    country = or_unknown country;
    locality = "";
    description = meta.description;
    wikipedia_url = meta.url;
    wikidata_id = meta.wikidata_id;
    page_id = meta.page_id;
    website = "";
    sitelinks = 0;
    latitude = meta.latitude;
    longitude = meta.longitude;
    source_page = source_category;
    verified = true;
    also_known_as = [];
    sources = category_source_name_for e.lang ∷ [];
    classes = [];
  }

  abbrev pub count_rejected : Rejection → Crawler → Crawler
  count_rejected reason c = record c {
    stats = record c.stats { rejected = reason ∷ c.stats.rejected };
  }

  abbrev pub count_duplicates : ℕ → Crawler → Crawler
  count_duplicates n c = record c { stats = record c.stats { duplicates = c.stats.duplicates + n } }

  abbrev pub count_candidates : ℕ → Crawler → Crawler
  count_candidates n c = record c { stats = record c.stats { candidates = c.stats.candidates + n } }

  -- A museum is counted and remembered under both titles, then sent unless the context ends first.
  abbrev pub emit : (title : String) → PageMetadata → Museum → Crawler → Crawler
  emit title meta museum c = record {
    visited = c.visited;
    emitted = title ∷ meta.title ∷ c.emitted;
    stats = record c.stats {
      with_coordinates =
          if meta.has_coordinates then c.stats.with_coordinates + 1 else c.stats.with_coordinates;
      emitted_count = c.stats.emitted_count + 1;
    };
    out = if e.cancelled c.looks then c.out else c.out ++ museum ∷ [];
    looks = c.looks + 1;
  }

  -- The loop over the fresh titles.
  unfoldable pub emit_titles :
      (String → Option PageMetadata)
      → (country source_category : String) → List String
      → Crawler
      → Crawler
  emit_titles metadata country source_category [] c = c
  emit_titles metadata country source_category (title ∷ titles) c =
      let meta = look_up metadata title in
      let go = emit_titles metadata country source_category titles in
      elim (classify e.lower e.has_lifespan meta) [
        | reject reason ↦ go (count_rejected reason c)
        | accept_unverified ↦ go (count_rejected reject_unresolvable c)
        | accept ↦
            let sent = emit title meta (museum_of meta country source_category) c in
            elim (has c.emitted meta.title) [
              | true ↦ go (count_duplicates 1 c)
              | false ↦ elim (e.cancelled c.looks) [ true ↦ sent | false ↦ go sent ]
            ]
      ]

  -- What is left to do once the titles that were emitted before are out.
  unfoldable pub emit_fresh : List String → (country source_category : String) → Crawler → Crawler
  emit_fresh [] country source_category c = c
  emit_fresh (t ∷ ts) country source_category c =
      emit_titles (e.resolve (t ∷ ts)) country source_category (t ∷ ts)
        (count_candidates (length (t ∷ ts)) c)

  unfoldable pub emit_articles :
      List String → (country source_category : String) → Crawler → Crawler
  emit_articles titles country source_category c =
      let (fresh, duplicates) = fresh_titles c.emitted titles in
      emit_fresh fresh country source_category (count_duplicates duplicates c)

  -- The loop over the members, with the articles so far; `visit` walks a subcategory.
  unfoldable pub walk_members :
      (visit : String → Crawler → Crawler)
      → List CategoryMember
      → List String
      → Crawler
      → List String × Crawler
  walk_members visit [] articles c = (articles, c)
  walk_members visit (m ∷ ms) articles c =
      if m.ns == namespace_article
      then walk_members visit ms (articles ++ m.title ∷ []) c
      else if m.ns == namespace_category
      then walk_members visit ms articles
          (elim (skip_category e.lower m.title) [ true ↦ c | false ↦ visit m.title c ])
      else walk_members visit ms articles c

  abbrev pub hint_for : String → String → String
  hint_for category hint =
      let country = category_country category in if str_eq country "" then hint else country

  abbrev pub look : Crawler → Crawler
  look c = record c { looks = c.looks + 1 }

  abbrev pub enter : String → Crawler → Crawler
  enter category c = record c {
    visited = category ∷ c.visited;
    stats = record c.stats { categories_visited = c.stats.categories_visited + 1 };
  }

  -- walk, at a depth from which `levels` more levels are within c.maxDepth.
  unfoldable pub walk : (levels : ℕ) → (category country_hint : String) → Crawler → Crawler
  walk zero category country_hint c = look c
  walk (suc levels) category country_hint c =
      let hint = hint_for category country_hint in
      let visit = λ (title : String) (at : Crawler). walk levels title hint at in
      elim (e.cancelled c.looks || has c.visited category) [
        | true ↦ look c
        | false ↦ elim (e.members category) [
          | none ↦ enter category (look c)
          | some ms ↦
              let (articles, after) = walk_members visit ms [] (enter category (look c)) in
              emit_articles articles hint category after
        ]
      ]

  -- Museums: the whole walk, from depth 0.
  unfoldable pub museums : String → Crawler
  museums root = walk (suc max_depth) root "" new_crawler
