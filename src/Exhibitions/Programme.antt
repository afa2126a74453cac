-- ===== src/Exhibitions/Programme.antt =====
-- pkg/exhibitions/service.go: the reading of one museum's website. The list of addresses asked for
-- has the last one first.
pub mod Answers
pub mod Budget
pub mod Heard
pub mod Reached
pub mod Sites
use museumscraper.Prelude.{
  ℕ, zero, suc, ◌+◌, ◌-◌, ◌*◌, ◌/◌, ◌%◌, ◌^◌, ◌≤◌, ◌<◌, min, max, String, ◌≡◌, refl, sym, ap, ◌∙◌,
  ◌≢◌, ◌↔◌, ◌⊎◌, inl, inr, Bool, true, false, not, ◌&&◌, ◌||◌, Option, none, some, List, [], ◌∷◌,
  ◌++◌, map, arith, ltb, leb, ◌>>=◌, Held, Held-if, Held-bind, ◌==◌, if◌then◌else◌, ltb→lt, lt→ltb,
  leb→le, ==_iff, Bool-cases, Option-cases, length, get_elem?, set, length-append, length-set,
  get_elem?-set_self, get_elem?-set_ne, All, take, drop, dec_lt, ℕ_discrete,
}
use museumscraper.Text.Bytes.{Bytes, codes, trim, among, equal}
use museumscraper.Exhibitions.Words.Displays.{info_paths}
use museumscraper.Exhibitions.Links.{
  Url, Web, lower, at_path, find_listing_links, find_permanent_links, find_info_links,
  candidate_listing_urls, info_urls,
}
use museumscraper.Exhibitions.Displays.{describes_display}
use museumscraper.Exhibitions.Fetch.{Validators, no_validators, is_none, Page, Network}
use museumscraper.Exhibitions.Listing.{Museum, Now, Exhibition, or_base, harvest}
use museumscraper.Exhibitions.Dedupe.{dedupe}

abbrev pub max_listing_pages : ℕ
max_listing_pages = 3

abbrev pub max_permanent_pages : ℕ
max_permanent_pages = 2

abbrev pub max_info_pages : ℕ
max_info_pages = 2

pub record HomePage : Type 0 where
  pub reached : Bool
  pub listings : List Bytes
  pub permanent : List Bytes
  pub info : List Bytes

abbrev pub no_home : HomePage
no_home = record { reached = false; listings = []; permanent = []; info = [] }

pub record Known : Type 0 where
  pub listing_url : Bytes
  pub validators : Validators

pub record Result : Type 0 where
  pub exhibitions : List Exhibition
  pub listing_url : Bytes
  pub validators : Validators
  pub reached : Bool
  pub unchanged : Bool

pub data Failure : Type 0 where
  no_website : Failure
  unusable_url : Failure
  cancelled : Failure

-- What readSite holds, and the addresses asked for.
pub record Survey : Type 0 where
  pub asked : List Bytes
  pub visited : List Bytes
  pub found : List Exhibition
  pub reached : Bool
  pub listing_url : Bytes
  pub validators : Validators

-- The answer of ForSite, and the addresses asked for.
pub record Answer : Type 0 where
  pub result : Result
  pub failure : Option Failure
  pub asked : List Bytes

abbrev pub failed : Result → Failure → List Bytes → Answer
failed result failure asked = record { result = result; failure = some failure; asked = asked }

abbrev pub without_query : Url → Url
without_query u = record {
  scheme = u.scheme;
  host = u.host;
  path = u.path;
  raw_query = [];
  fragment = [];
}

abbrev pub nothing : Result
nothing = record {
  exhibitions = [];
  listing_url = [];
  validators = no_validators;
  reached = false;
  unchanged = false;
}

module _ (w : Web) (net : Network) (now : Now) where
  -- homeURLs
  unfoldable pub home_urls : Url → List Bytes
  home_urls base =
      if equal base.path [] || equal base.path (b'/' ∷ [])
      then w.print_url (at_path base "/") ∷ []
      else w.print_url (without_query base) ∷ w.print_url (at_path base "/") ∷ []

  abbrev pub home_of : Url → Page → HomePage
  home_of base page =
      let page_base = or_base (w.parse_url page.url) base in
      record {
        reached = true;
        listings = find_listing_links w page.body page_base;
        permanent = find_permanent_links w page.body page_base;
        info = find_info_links w page.body page_base;
      }

  -- readHome over the addresses that are left, with the addresses asked for.
  unfoldable pub read_home : Url → (asked : List Bytes) → List Bytes → HomePage × List Bytes
  read_home base asked [] = (no_home, asked)
  read_home base asked (u ∷ us) = elim (net.fetch asked u no_validators) [
    | none ↦ read_home base (u ∷ asked) us
    | some page ↦ (home_of base page, u ∷ asked)
  ]

  -- A page visited that cannot be fetched, and one that is harvested.
  abbrev pub missed : Bytes → Survey → Survey
  missed u s = record {
    asked = u ∷ s.asked;
    visited = u ∷ s.visited;
    found = s.found;
    reached = s.reached;
    listing_url = s.listing_url;
    validators = s.validators;
  }

  abbrev pub harvested : Url → Museum → (assume_permanent : Bool) → Bytes → Page → Survey → Survey
  harvested base m assume_permanent u page s = record {
    asked = u ∷ s.asked;
    visited = u ∷ s.visited;
    found = s.found ++ harvest w now base m assume_permanent (u ∷ s.visited) page;
    reached = s.reached || not (equal page.url []);
    listing_url = s.listing_url;
    validators = s.validators;
  }

  -- The page that the programme was found on, where it was.
  abbrev pub remember : Page → Survey → Survey
  remember page s = record {
    asked = s.asked;
    visited = s.visited;
    found = s.found;
    reached = s.reached;
    listing_url = page.url;
    validators = page.validators;
  }

  -- No further page is tried once there are exhibitions.
  unfoldable pub stop_if_found : List Exhibition → Page → Survey → Survey × Bool → Survey × Bool
  stop_if_found [] page after more = more
  stop_if_found (e ∷ es) page after more = (remember page after, false)

  -- The loop over the listing pages; whether the context was over.
  unfoldable pub read_listings : Url → Museum → List Bytes → Survey → Survey × Bool
  read_listings base m [] s = (s, false)
  read_listings base m (u ∷ us) s = elim (net.is_cancelled s.asked) [
    | true ↦ (s, true)
    | false ↦ elim (leb max_listing_pages (length s.visited)) [
      | true ↦ (s, false)
      | false ↦ elim (among s.visited u) [
        | true ↦ read_listings base m us s
        | false ↦ elim (net.fetch s.asked u no_validators) [
          | none ↦ read_listings base m us (missed u s)
          | some page ↦
              let after = harvested base m false u page s in
              stop_if_found after.found page after (read_listings base m us after)
        ]
      ]
    ]
  ]

  -- The loop over the pages of permanent displays, of which `pages` have been read.
  unfoldable pub read_permanent : Url → Museum → (pages : ℕ) → List Bytes → Survey → Survey × Bool
  read_permanent base m pages [] s = (s, false)
  read_permanent base m pages (u ∷ us) s = elim (net.is_cancelled s.asked) [
    | true ↦ (s, true)
    | false ↦ elim (leb max_permanent_pages pages) [
      | true ↦ (s, false)
      | false ↦ elim (among s.visited u) [
        | true ↦ read_permanent base m pages us s
        | false ↦ elim (net.fetch s.asked u no_validators) [
          | none ↦ read_permanent base m (suc pages) us (missed u s)
          | some page ↦ read_permanent base m (suc pages) us (harvested base m true u page s)
        ]
      ]
    ]
  ]

  abbrev pub display_of : Museum → Page → Exhibition
  display_of m page = record {
    title = m.name;
    url = page.url;
    museum = m.name;
    start = none;
    end = none;
    running = true;
    upcoming = false;
    permanent = true;
    source_page = page.url;
    museum_wikidata_id = m.wikidata_id;
    latitude = m.latitude;
    longitude = m.longitude;
    scraped_at = now.instant;
  }

  -- The loop of permanentDisplay, with the addresses tried.
  unfoldable pub permanent_display :
      Museum → (tried asked : List Bytes) → List Bytes → Option Exhibition × List Bytes
  permanent_display m tried asked [] = (none, asked)
  permanent_display m tried asked (u ∷ us) = elim (net.is_cancelled asked) [
    | true ↦ (none, asked)
    | false ↦ elim (leb max_info_pages (length tried)) [
      | true ↦ (none, asked)
      | false ↦ elim (among tried u) [
        | true ↦ permanent_display m tried asked us
        | false ↦ elim (net.fetch asked u no_validators) [
          | none ↦ permanent_display m (u ∷ tried) (u ∷ asked) us
          | some page ↦ elim (describes_display w page.body) [
            | true ↦ (some (display_of m page), u ∷ asked)
            | false ↦ permanent_display m (u ∷ tried) (u ∷ asked) us
          ]
        ]
      ]
    ]
  ]
