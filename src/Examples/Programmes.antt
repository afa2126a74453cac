-- ===== src/Examples/Programmes.antt =====
-- pkg/exhibitions: one museum's website, and what is read off it.
use museumscraper.Prelude.{
  ◌≤◌, String, ◌≡◌, refl, sym, ap, Bool, true, false, not, Option, none, some, List, [], ◌∷◌, ◌++◌,
  ◌==◌, length, All, take, drop,
}
use museumscraper.Prelude.Int.{pos}
use museumscraper.Text.Bytes.{
  Bytes, codes, equal, among, trim, trim_left, trim_right, is_space, all_space, has_prefix,
  contains,
}
use museumscraper.Text.Distinct.{IsDistinct}
use museumscraper.Exhibitions.Calendar.{Date}
use museumscraper.Exhibitions.Dates.{Patterns, runs, upcoming}
use museumscraper.Exhibitions.Page.{
  links, links_of, anchors, attr, show_visible, text_of, raw_text, collapse, collapse_from, Node,
  text_node, element_node, end, child, Link,
}
use museumscraper.Exhibitions.Page.Stamps.{is_ascii_digit}
use museumscraper.Exhibitions.Title.Untagged.{is_untagged, starts_apart, ends_apart}
use museumscraper.Exhibitions.Title.Plain.{clean_title-untagged}
use museumscraper.Exhibitions.Title.Slug.Counter.{trim_occurrence_suffix_lem}
use museumscraper.Exhibitions.Links.{
  Scored, Url, Web, resolve_url, target, listing_score, is_off_site, anchors_on, find_listing_links,
  urls_of, count_slashes,
}
use museumscraper.Exhibitions.Links.Ranking.{IsRanking}
use museumscraper.Exhibitions.Candidates.{Candidate, extract_candidates}
use museumscraper.Exhibitions.Candidates.Kept.{IsListing, extract_candidates-IsListing}
use museumscraper.Exhibitions.Fetch.{no_validators, Page, Network}
use museumscraper.Exhibitions.Fetch.Robots.{Rules, allows, or_root}
use museumscraper.Exhibitions.Fetch.Robots.Longest.{is_matched, allows_lem}
use museumscraper.Exhibitions.Listing.{
  urls, Museum, Now, Exhibition, Reading, harvest, judge_entry, dates_for, resolve_open_end,
  standing_of, admit, is_run, dated_permanent,
}
use museumscraper.Exhibitions.Listing.Kept.{
  is_on_show, is_period, harvest-IsShown, judge_entry-period,
}
use museumscraper.Exhibitions.Dedupe.{dedupe}
use museumscraper.Exhibitions.Dedupe.Widened.{title_keys, are_listed}
use museumscraper.Exhibitions.Dedupe.Ordered.{is_ordered, dedupe-ordered, dedupe-listed}
use museumscraper.Exhibitions.Programme.{Known}
use museumscraper.Exhibitions.Programme.Answers.{for_site}
use museumscraper.Exhibitions.Programme.Budget.{for_site-bound}
use museumscraper.Exhibitions.Programme.Heard.{IsBacked}
use museumscraper.Exhibitions.Programme.Reached.{HasAddresses, is_honest, for_site-honest}
use museumscraper.Exhibitions.Programme.Sites.{unique_by_site, stream}
use museumscraper.Exhibitions.Programme.Sites.Once.{
  site_keys, first_of, all_urls, unique_by_site-first, stream_lem,
}
use museumscraper.Exhibitions.Words.{contains_any, is_in}
use museumscraper.Exhibitions.Links.Found.{
  IsLink, find_listing_links-IsRanking, find_listing_links_complete,
}
use museumscraper.Exhibitions.Title.Slug.{trim_occurrence_suffix, trim_slashes, count_dashes}
use museumscraper.Exhibitions.Title.{
  Alphabet, clean_title, is_title_edge, trim_right_if, trim_left_if,
}
use mathlib.Core.List.{Memᴰ}

abbrev no_patterns : Patterns
no_patterns = record {
  iso_date = λ s. [];
  numeric_date = λ s. [];
  day_month_year = λ s. [];
  month_day_year = λ s. [];
  day_month = λ s. [];
  ongoing = λ s. false;
  open_ended = λ s. false;
  open_start = λ s. false;
  lower = λ s. s;
}

abbrev alphabet : Alphabet
alphabet = record {
  patterns = no_patterns;
  upper = λ s. s;
  equal_fold = equal;
  is_digit = is_ascii_digit;
}

-- An address is a host of one letter and a path.
abbrev url : Bytes → Url
url s = record {
  scheme = codes "http";
  host = take 1 s;
  path = drop 1 s;
  raw_query = [];
  fragment = [];
}

abbrev stamp : String → Node
stamp day = element_node (codes "time") ((codes "datetime", codes day) ∷ []) end

abbrev anchor : String → String → Node
anchor href label =
    element_node (codes "a") ((codes "href", codes href) ∷ []) (
      child (text_node (codes label)) (child (stamp "2026-03-12") (child (stamp "2026-09-07") end)))

abbrev document : Node
document = element_node (codes "body") [] (
    child (anchor "m/exhibition/red-and-blue" "Red and Blue")
      (child (anchor "m/about" "About us") end))

abbrev web : Web
web = record {
  alphabet = alphabet;
  parse_html = λ s. some document;
  unescape = λ s. s;
  decode_json = λ s. none;
  parse_url = λ s. some (url s);
  resolve_reference = λ base u. u;
  print_url = λ u. u.host ++ u.path;
}

abbrev today : Now
today = record {
  instant = 1000;
  today = record { year = 2026; month = 5; day = 1 };
  is_far = λ d. false;
}

abbrev museum : Museum
museum = record {
  name = codes "Museum";
  website = codes "m/";
  wikidata_id = codes "Q1";
  latitude = pos 57;
  longitude = pos 12;
}

abbrev wing : Museum
wing = record {
  name = codes "Wing";
  website = codes "m/wing";
  wikidata_id = codes "Q2";
  latitude = pos 57;
  longitude = pos 12;
}

abbrev page : Page
page = record {
  body = [];
  url = codes "m/exhibition";
  validators = no_validators;
  unchanged = false;
}

abbrev network : Network
network = record { fetch = λ asked u v. some page; is_cancelled = λ asked. false }

abbrev known : Known
known = record {
  listing_url = codes "m/old";
  validators = record { etag = codes "e"; last_modified = [] };
}

for_site-bound_example : length (for_site web network today museum known).asked ≤ 10
for_site-bound_example = for_site-bound web network today museum known

abbrev url_of : Option Page → Bytes
url_of none = []
url_of (some p) = p.url

network-HasAddresses : HasAddresses network
unfolding equal
network-HasAddresses asked u v p e = sym (ap (λ (o : Option Page). equal (url_of o) []) e)

for_site-honest_example :
    (is_honest (for_site web network today museum known).result ≡ true)
    × IsBacked network known
        ((for_site web network today museum known).result).reached
        (for_site web network today museum known).asked
for_site-honest_example = for_site-honest web network today network-HasAddresses museum known

unique_by_site-first_example :
    IsDistinct (site_keys web (unique_by_site web [] (museum ∷ wing ∷ [])))
    × (first_of web (codes "m") (unique_by_site web [] (museum ∷ wing ∷ []))
        ≡ first_of web (codes "m") (museum ∷ wing ∷ []))
unfolding equal
unique_by_site-first_example = unique_by_site-first web (museum ∷ wing ∷ []) (codes "m") refl

abbrev show : String → String → Date → Date → Bool → Exhibition
show title address start last running = record {
  title = codes title;
  url = codes address;
  museum = codes "Museum";
  start = some start;
  end = some last;
  running = running;
  upcoming = not running;
  permanent = false;
  source_page = codes "m/exhibition";
  museum_wikidata_id = codes "Q1";
  latitude = pos 57;
  longitude = pos 12;
  scraped_at = 1000;
}

abbrev march : Date
march = record { year = 2026; month = 3; day = 12 }

abbrev may : Date
may = record { year = 2026; month = 5; day = 9 }

abbrev september : Date
september = record { year = 2026; month = 9; day = 7 }

abbrev red : Exhibition
red = show "Red" "m/exhibition/red" march september true

abbrev tour : Exhibition
tour = show "Tour" "m/exhibition/tour-2" may may false

abbrev tour_again : Exhibition
tour_again = show "Tour" "m/exhibition/tour-3" september september false

stream_lem_example :
    (length (stream [] ((red ∷ tour ∷ []) ∷ (red ∷ []) ∷ [])) ≡ 2)
    × IsDistinct (all_urls (stream [] ((red ∷ tour ∷ []) ∷ (red ∷ []) ∷ [])))
    × (among (all_urls (stream [] ((red ∷ tour ∷ []) ∷ (red ∷ []) ∷ []))) red.url
        ≡ among (all_urls ((red ∷ tour ∷ []) ∷ (red ∷ []) ∷ [])) red.url)
unfolding equal
stream_lem_example = stream_lem ((red ∷ tour ∷ []) ∷ (red ∷ []) ∷ []) red.url refl

abbrev rules : Rules
rules = record { disallow = codes "/" ∷ []; allow = codes "/exhibition" ∷ [] }

allows_lem_example :
    allows rules (codes "/exhibition/red")
    ≡ is_matched (or_root (codes "/exhibition/red")) rules.disallow rules.allow
allows_lem_example = allows_lem rules (codes "/exhibition/red")

abbrev lower : Bytes → Bytes
lower s = s

dedupe-ordered_example :
    IsDistinct (title_keys lower (dedupe lower (tour ∷ red ∷ tour_again ∷ [])))
    × (is_ordered (dedupe lower (tour ∷ red ∷ tour_again ∷ [])) ≡ true)
dedupe-ordered_example = dedupe-ordered lower (tour ∷ red ∷ tour_again ∷ [])

dedupe-listed_example :
    are_listed lower (tour ∷ red ∷ tour_again ∷ []) (dedupe lower (tour ∷ red ∷ tour_again ∷ []))
    ≡ true
dedupe-listed_example = dedupe-listed lower (tour ∷ red ∷ tour_again ∷ [])

abbrev base : Url
base = url (codes "m/exhibition")

extract_candidates-IsListing_example : IsListing web base (extract_candidates web [] base)
extract_candidates-IsListing_example = extract_candidates-IsListing web base []

harvest-IsShown_example :
    let es = harvest web today base museum false [] page in
    IsDistinct (urls es)
    × All
        (λ (e : Exhibition).
          (is_on_show [] e ≡ true) × (e.source_page ≡ page.url) × (e.museum ≡ museum.name))
        es
harvest-IsShown_example = harvest-IsShown web today base museum false [] page

abbrev reading : Reading
reading = record { final_url = codes "m/exhibition"; permanent = false; undated = false }

abbrev candidate : Candidate
candidate = record {
  title = codes "Red";
  url = codes "m/exhibition/red";
  context = [];
  dates = record { start = some march; end = some september; permanent = false };
  vouched = true;
}

candidate-judged : judge_entry web today museum reading [] candidate ≡ some red
unfolding judge_entry dates_for resolve_open_end standing_of admit is_run dated_permanent runs
    upcoming among
candidate-judged = refl

judge_entry-period_example : is_period red ≡ true
judge_entry-period_example =
    judge_entry-period web today museum reading [] candidate red refl candidate-judged

find_listing_links-IsRanking_example :
    (ranked : List Scored) × (urls_of ranked ≡ find_listing_links web [] base)
    × IsRanking
        (IsLink web base (is_off_site web base) (listing_score web) (anchors_on web []))
        ranked
find_listing_links-IsRanking_example = find_listing_links-IsRanking web [] base

abbrev link : Link
link = record { href = codes "m/exhibition/red-and-blue"; label = codes "Red and Blue" }

link-stands : Memᴰ link (anchors_on web [])
unfolding links links_of anchors attr equal trim trim_left trim_right is_space all_space
    show_visible text_of raw_text is_in collapse collapse_from
link-stands = Memᴰ.head refl

link-leads : target web base link.href ≡ some (link.href, url link.href)
unfolding target resolve_url equal trim trim_left trim_right is_space all_space has_prefix
link-leads = refl

link-scores : (listing_score web link.label (url link.href) == 0) ≡ false
unfolding listing_score contains_any contains has_prefix count_slashes trim_slashes trim_left_if
    trim_right_if
link-scores = refl

find_listing_links_complete_example :
    among (find_listing_links web [] base) (codes "m/exhibition/red-and-blue") ≡ true
unfolding equal
find_listing_links_complete_example =
    find_listing_links_complete web [] base link link.href (url link.href) link-stands link-leads
      refl link-scores

clean_title-untagged_example :
    (is_untagged (clean_title alphabet (codes "<b>Red</b> - ")) ≡ true)
    × (starts_apart is_title_edge (clean_title alphabet (codes "<b>Red</b> - ")) ≡ true)
    × (ends_apart is_title_edge (clean_title alphabet (codes "<b>Red</b> - ")) ≡ true)
clean_title-untagged_example = clean_title-untagged alphabet (codes "<b>Red</b> - ")

trim_occurrence_suffix_lem_example :
    trim_occurrence_suffix (codes "women-behind-the-camera" ++ b'-' ∷ codes "9")
    ≡ codes "women-behind-the-camera"
unfolding count_dashes
trim_occurrence_suffix_lem_example =
    trim_occurrence_suffix_lem (codes "women-behind-the-camera") (codes "9") refl refl refl refl
