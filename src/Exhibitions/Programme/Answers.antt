-- ===== src/Exhibitions/Programme/Answers.antt =====
-- pkg/exhibitions/service.go: readSite and ForSite, the answer that the reading of a website gives.
use museumscraper.Prelude.{
  Bool, true, false, ◌||◌, Option, none, some, List, [], ◌∷◌, ◌++◌, if◌then◌else◌,
}
use museumscraper.Text.Bytes.{Bytes, codes, trim, equal}
use museumscraper.Exhibitions.Links.{Url, Web, lower, candidate_listing_urls, info_urls}
use museumscraper.Exhibitions.Fetch.{no_validators, is_none, Page, Network}
use museumscraper.Exhibitions.Listing.{Museum, Now, Exhibition}
use museumscraper.Exhibitions.Dedupe.{dedupe}
use museumscraper.Exhibitions.Programme.{
  HomePage, Known, Result, no_website, unusable_url, cancelled, Survey, Answer, failed, nothing,
  permanent_display, read_permanent, read_listings, read_home, home_urls,
}

module _ (w : Web) (net : Network) (now : Now) where
  abbrev pub result_of : List Exhibition → Survey → Result
  result_of exhibitions s = record {
    exhibitions = exhibitions;
    listing_url = s.listing_url;
    validators = s.validators;
    reached = s.reached;
    unchanged = false;
  }

  -- The end of readSite: what was found, or else the museum itself.
  unfoldable pub finish : Survey → Option Exhibition → Result
  finish s none = result_of (dedupe (lower w) s.found) s
  finish s (some display) = result_of (dedupe (lower w) (s.found ++ display ∷ [])) (record {
    asked = s.asked;
    visited = s.visited;
    found = s.found;
    reached = true;
    listing_url = display.source_page;
    validators = s.validators;
  })

  -- A site that lists nothing is looked through for a page that describes the museum.
  unfoldable pub conclude : List Exhibition → Url → HomePage → Museum → Survey → Result × List Bytes
  conclude [] base home m s =
      let (display, asked) =
        permanent_display w net now m [] s.asked
          (home.permanent ++ (home.info ++ info_urls w base)) in
      (finish s display, asked)
  conclude (e ∷ es) base home m s = (finish s none, s.asked)

  -- After the permanent displays; and after the listing pages.
  unfoldable pub settle : Url → HomePage → Museum → Survey × Bool → Answer
  settle base home m (s, stopped) = elim stopped [
    | true ↦ failed (result_of (dedupe (lower w) s.found) s) cancelled s.asked
    | false ↦
        let (result, asked) = conclude s.found base home m s in
        record { result = result; failure = none; asked = asked }
  ]

  unfoldable pub read_displays : Url → HomePage → Museum → Survey × Bool → Answer
  read_displays base home m (s, stopped) = elim stopped [
    | true ↦ failed (result_of s.found s) cancelled s.asked
    | false ↦ settle base home m (read_permanent w net now base m 0 home.permanent s)
  ]

  abbrev pub survey_from : HomePage × List Bytes → Survey
  survey_from (home, asked) = record {
    asked = asked;
    visited = [];
    found = [];
    reached = home.reached;
    listing_url = [];
    validators = no_validators;
  }

  -- An address without a scheme is given one.
  abbrev pub with_scheme : Url → Url
  with_scheme u = record {
    scheme = if equal u.scheme [] then codes "https" else u.scheme;
    host = u.host;
    path = u.path;
    raw_query = u.raw_query;
    fragment = u.fragment;
  }

  unfoldable pub survey_site : Url → Museum → (asked : List Bytes) → Answer
  survey_site base m asked =
      let start = read_home w net now base asked (home_urls w net now base) in
      read_displays base start.0 m (
        read_listings w net now base m ((start.0).listings ++ candidate_listing_urls w base)
          (survey_from start))

  abbrev pub usable : Option Url → Option Url
  usable none = none
  usable (some u) = if equal u.host [] then none else some u

  unfoldable pub read_site : Museum → (asked : List Bytes) → Answer
  read_site m asked = elim (usable (w.parse_url (trim m.website))) [
    | none ↦ failed nothing unusable_url asked
    | some u ↦ survey_site (with_scheme u) m asked
  ]

  abbrev pub still_current : Known → (asked : List Bytes) → Answer
  still_current k asked = record {
    result = record {
      exhibitions = [];
      listing_url = k.listing_url;
      validators = k.validators;
      reached = true;
      unchanged = true;
    };
    failure = none;
    asked = asked;
  }

  -- The short path, or full discovery where it gives no answer.
  unfoldable pub ask_known : Museum → Known → Option Page → Answer
  ask_known m k none = read_site m (k.listing_url ∷ [])
  ask_known m k (some page) = elim page.unchanged [
    | true ↦ still_current k (k.listing_url ∷ [])
    | false ↦ read_site m (k.listing_url ∷ [])
  ]

  unfoldable pub for_site : Museum → Known → Answer
  for_site m k = elim (equal (trim m.website) []) [
    | true ↦ failed nothing no_website []
    | false ↦ elim (equal k.listing_url [] || is_none k.validators) [
      | true ↦ read_site m []
      | false ↦ ask_known m k (net.fetch [] k.listing_url k.validators)
    ]
  ]
