-- ===== src/Exhibitions/Links.antt =====
-- pkg/exhibitions/extract.go and permanent.go: the links of a page that lead to a museum's programme,
-- to its permanent displays and to its description of itself.
pub mod Ranking
pub mod Found
use museumscraper.Prelude.{
  ℕ, zero, suc, ◌+◌, ◌-◌, ◌*◌, ◌/◌, ◌%◌, ◌^◌, ◌≤◌, ◌<◌, min, max, String, ◌≡◌, refl, sym, ap, ◌∙◌,
  ◌≢◌, ◌↔◌, ◌⊎◌, inl, inr, Bool, true, false, not, ◌&&◌, ◌||◌, Option, none, some, List, [], ◌∷◌,
  ◌++◌, map, arith, ltb, leb, ◌>>=◌, ◌==◌, if◌then◌else◌, ltb→lt, lt→ltb, leb→le, ==_iff,
  Bool-cases, Option-cases, length, get_elem?, set, length-append, length-set, get_elem?-set_self,
  get_elem?-set_ne, All, take, drop, dec_lt, ℕ_discrete,
}
use museumscraper.Text.Bytes.{Bytes, codes, trim, has_prefix, contains, among, equal}
use museumscraper.Exhibitions.Words.{contains_any}
use museumscraper.Exhibitions.Words.Links.{
  listing_paths, listing_link_words, past_listing_words, current_listing_words,
  exhibition_path_hints, strong_path_hints,
}
use museumscraper.Exhibitions.Words.Displays.{
  permanent_words, closed_words, permanent_path_hints, info_link_words, info_path_hints, info_paths,
}
use museumscraper.Exhibitions.Page.{Node, Link, links}
use museumscraper.Exhibitions.Json.{Value}
use museumscraper.Exhibitions.Title.{Alphabet}
use museumscraper.Exhibitions.Title.Slug.{trim_slashes}

-- The fields of url.URL that the source reads and sets.
pub record Url : Type 0 where
  pub scheme : Bytes
  pub host : Bytes
  pub path : Bytes
  pub raw_query : Bytes
  pub fragment : Bytes

-- html.Parse and UnescapeString, json.Unmarshal, and url.Parse, ResolveReference and String.
pub record Web : Type 0 where
  pub alphabet : Alphabet
  pub parse_html : Bytes → Option Node
  pub unescape : Bytes → Bytes
  pub decode_json : Bytes → Option Value
  pub parse_url : Bytes → Option Url
  pub resolve_reference : Url → Url → Url
  pub print_url : Url → Bytes

-- strings.Count(strings.Trim(path, "/"), "/")
unfoldable pub count_slashes : Bytes → ℕ
count_slashes [] = 0
count_slashes (c ∷ s) = let rest = count_slashes s in if c == b'/' then suc rest else rest

abbrev pub depth : Bytes → ℕ
depth path = count_slashes (trim_slashes path)

-- A copy of the base that has another path, with no query and no fragment.
abbrev pub at_path : Url → String → Url
at_path base path = record {
  scheme = base.scheme;
  host = base.host;
  path = codes path;
  raw_query = [];
  fragment = [];
}

pub record Scored : Type 0 where
  pub url : Bytes
  pub score : ℕ

-- One round of the loop that sorts: the link moves in front of those with a lower score.
unfoldable pub insert_scored : Scored → List Scored → List Scored
insert_scored l [] = l ∷ []
insert_scored l (m ∷ ms) =
    let rest = insert_scored l ms in if leb l.score m.score then m ∷ rest else l ∷ m ∷ ms

unfoldable pub sort_scored : List Scored → List Scored → List Scored
sort_scored ordered [] = ordered
sort_scored ordered (l ∷ ls) = sort_scored (insert_scored l ordered) ls

unfoldable pub urls_of : List Scored → List Bytes
urls_of [] = []
urls_of (l ∷ ls) = l.url ∷ urls_of ls

abbrev pub points : Bool → ℕ → ℕ
points b n = if b then n else 0

abbrev pub max_permanent_label_runes : ℕ
max_permanent_label_runes = 40

module _ (w : Web) where
  abbrev pub lower : Bytes → Bytes
  lower s = w.alphabet.patterns.lower s

  abbrev pub is_script : Bytes → Bool
  is_script href =
      has_prefix (lower href) (codes "javascript:")
      || has_prefix (lower href) (codes "mailto:")
      || has_prefix (lower href) (codes "tel:")

  abbrev pub is_web : Url → Bool
  is_web u = equal u.scheme (codes "http") || equal u.scheme (codes "https")

  abbrev pub without_fragment : Url → Bytes
  without_fragment u = w.print_url (record {
    scheme = u.scheme;
    host = u.host;
    path = u.path;
    raw_query = u.raw_query;
    fragment = [];
  })

  abbrev pub resolved : Url → Option Bytes
  resolved u = if is_web u then some (without_fragment u) else none

  -- resolveURL
  unfoldable pub resolve_url : Url → Bytes → Option Bytes
  resolve_url base untrimmed =
      let href = trim untrimmed in
      if equal href [] || has_prefix href (codes "#") || is_script href
      then none
      else do parsed ← w.parse_url href; resolved (w.resolve_reference base parsed)

  -- A link resolved, with what url.Parse makes of it.
  unfoldable pub target : Url → Bytes → Option (Bytes × Url)
  target base href = do url ← resolve_url base href; parsed ← w.parse_url url; some (url, parsed)

  abbrev pub same_host : Url → Url → Bool
  same_host a b = w.alphabet.equal_fold a.host b.host

  -- namesPermanent
  unfoldable pub names_permanent : Bytes → Bool
  names_permanent text =
      not (contains_any (lower text) closed_words) && contains_any (lower text) permanent_words

  -- pathNamesPermanent
  unfoldable pub path_names_permanent : Bytes → Bool
  path_names_permanent path = contains_any (lower path) permanent_path_hints

  -- The score of a link that FindListingLinks does not pass over; 0 for one that it does.
  unfoldable pub listing_score : (label : Bytes) → Url → ℕ
  listing_score label u =
      let text = lower label in
      let path = lower u.path in
      let score =
        points (contains_any text listing_link_words) 2
        + points
            (contains_any text current_listing_words || contains_any path current_listing_words) 2
        + points (contains_any path exhibition_path_hints) 1 in
      if contains_any text past_listing_words || contains_any path past_listing_words
      then 0
      else if score == 0
      then 0
      else score + points (leb (depth u.path) 1) 1

  abbrev pub is_off_site : Url → Url → Bool
  is_off_site base u = not (equal base.host []) && not (same_host u base)

  -- The score of a link that FindInfoLinks does not pass over; 0 for one that it does.
  unfoldable pub info_score : (label : Bytes) → Url → ℕ
  info_score label u =
      let score =
        points (contains_any (lower label) info_link_words) 2
        + points (contains_any (lower u.path) info_path_hints) 1 in
      if ltb 1 (depth u.path)
      then 0
      else if score == 0
      then 0
      else score + points (depth u.path == 0) 1

  -- One call of the function that FindListingLinks or FindInfoLinks gives to forEachAnchor.
  unfoldable pub note_link :
      (off_site : Url → Bool) (score : Bytes → Url → ℕ) → Url → List Scored → Link → List Scored
  note_link off_site score base found l = elim (target base l.href) [
    | none ↦ found
    | some (url, parsed) ↦
        if among (urls_of found) url || off_site parsed
        then found
        else if score l.label parsed == 0
        then found
        else found ++ record { url = url; score = score l.label parsed } ∷ []
  ]

  unfoldable pub note_links :
      (off_site : Url → Bool) (score : Bytes → Url → ℕ)
      → Url
      → List Scored
      → List Link
      → List Scored
  note_links off_site score base found [] = found
  note_links off_site score base found (l ∷ ls) =
      note_links off_site score base (note_link off_site score base found l) ls

  abbrev pub anchors_on : Bytes → List Link
  anchors_on page = elim (w.parse_html page) [ none ↦ [] | some doc ↦ links doc ]

  unfoldable pub find_listing_links : Bytes → Url → List Bytes
  find_listing_links page base =
      urls_of
        (sort_scored [] (note_links (is_off_site base) listing_score base [] (anchors_on page)))

  unfoldable pub find_info_links : Bytes → Url → List Bytes
  find_info_links page base = urls_of (
      sort_scored []
        (note_links (λ u. not (same_host u base)) info_score base [] (anchors_on page)))

  abbrev pub is_label : Bytes → Bool
  is_label text = leb (length (trim text)) max_permanent_label_runes

  abbrev pub leads_to_display : Link → Bool
  leads_to_display l = names_permanent l.href || (is_label l.label && names_permanent l.label)

  -- One call of the function that FindPermanentLinks gives to forEachAnchor.
  unfoldable pub note_permanent : Url → List Bytes → Link → List Bytes
  note_permanent base urls l = elim (target base l.href) [
    | none ↦ urls
    | some (url, parsed) ↦
        if leads_to_display l && same_host parsed base && not (among urls url)
        then urls ++ url ∷ []
        else urls
  ]

  unfoldable pub note_permanents : Url → List Bytes → List Link → List Bytes
  note_permanents base urls [] = urls
  note_permanents base urls (l ∷ ls) = note_permanents base (note_permanent base urls l) ls

  unfoldable pub find_permanent_links : Bytes → Url → List Bytes
  find_permanent_links page base = note_permanents base [] (anchors_on page)

  -- candidateListingURLs and infoURLs
  unfoldable pub urls_at : List String → Url → List Bytes
  urls_at [] base = []
  urls_at (path ∷ paths) base = w.print_url (at_path base path) ∷ urls_at paths base

  abbrev pub candidate_listing_urls : Url → List Bytes
  candidate_listing_urls base = urls_at listing_paths base

  abbrev pub info_urls : Url → List Bytes
  info_urls base = urls_at info_paths base
