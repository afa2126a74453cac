-- ===== src/Exhibitions/Programme/Sites.antt =====
-- pkg/exhibitions/service.go: the museums that share a website, and the exhibitions that Stream hands
-- on.
pub mod Once
use museumscraper.Prelude.{
  ℕ, zero, suc, ◌+◌, ◌-◌, ◌*◌, ◌/◌, ◌%◌, ◌^◌, ◌≤◌, ◌<◌, min, max, String, ◌≡◌, refl, sym, ap, ◌∙◌,
  ◌≢◌, ◌↔◌, ◌⊎◌, inl, inr, Bool, true, false, not, ◌&&◌, ◌||◌, Option, none, some, List, [], ◌∷◌,
  ◌++◌, map, arith, ltb, leb, ◌>>=◌, ◌==◌, if◌then◌else◌, ltb→lt, lt→ltb, leb→le, ==_iff,
  Bool-cases, Option-cases, length, get_elem?, set, length-append, length-set, get_elem?-set_self,
  get_elem?-set_ne, All, take, drop, dec_lt, ℕ_discrete,
}
use museumscraper.Text.Bytes.{Bytes, codes, trim, has_prefix, among, equal}
use museumscraper.Exhibitions.Links.{Url, Web, lower}
use museumscraper.Exhibitions.Listing.{Museum, Exhibition}

-- strings.TrimPrefix(host, "www.")
abbrev pub without_www : Bytes → Bytes
without_www host = if has_prefix host (codes "www.") then drop 4 host else host

module _ (w : Web) where
  abbrev pub host_key : Option Url → Bytes
  host_key none = []
  host_key (some u) = if equal u.host [] then [] else lower w (without_www u.host)

  unfoldable pub site_key : Bytes → Bytes
  site_key website = if equal (trim website) [] then [] else host_key (w.parse_url (trim website))

  -- The loop of uniqueBySite, with the sites seen.
  unfoldable pub unique_by_site : (seen : List Bytes) → List Museum → List Museum
  unique_by_site seen [] = []
  unique_by_site seen (m ∷ ms) =
      elim (equal (site_key m.website) [] || among seen (site_key m.website)) [
        | true ↦ unique_by_site seen ms
        | false ↦ m ∷ unique_by_site (site_key m.website ∷ seen) ms
      ]

-- The loop of Stream over the entries of one site: what is handed on, and what has been seen.
unfoldable pub fresh_of : (seen : List Bytes) → List Exhibition → List Exhibition × List Bytes
fresh_of seen [] = ([], seen)
fresh_of seen (e ∷ es) = elim (equal e.url [] || among seen e.url) [
  | true ↦ fresh_of seen es
  | false ↦ let (fresh, after) = fresh_of (e.url ∷ seen) es in (e ∷ fresh, after)
]

-- What fn is called with, one list for each site, in the order in which the results come.
unfoldable pub stream : (seen : List Bytes) → List (List Exhibition) → List (List Exhibition)
stream seen [] = []
stream seen (found ∷ results) =
    let (fresh, after) = fresh_of seen found in fresh ∷ stream after results
