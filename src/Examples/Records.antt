-- ===== src/Examples/Records.antt =====
-- internal/collect/merge.go: one museum from two catalogues, under an English and a local name.
use museumscraper.Prelude.{
  ℕ, String, ◌≡◌, refl, ◌≢◌, true, false, ◌&&◌, some, [], ◌∷◌, ltb, leb, ◌==◌, get_elem?,
}
use Prim.Native.Char.{code}
use museumscraper.Prelude.Int.{pos, negsuc}
use museumscraper.Collect.{Museum, Unicode, clean_name, name_keys}
use museumscraper.Collect.Merger.{new_merger, cleaned, add_all}
use museumscraper.Collect.Merger.Identity.{IsMerged, add_all-IsMerged, museums_of, add_all-distinct}

-- The tables of an alphabet of lower-case letters.
abbrev latin : Unicode
latin = record {
  unescape = λ s. s;
  is_format = λ c. code c == 8206;
  is_control = λ c. ltb (code c) 32;
  is_letter = λ c. leb 97 (code c) && leb (code c) 122;
  is_digit = λ c. leb 48 (code c) && leb (code c) 57;
  to_lower = λ s. s;
  equal_fold = λ s t. false;
}

abbrev gallery : Museum
gallery = record {
  name = "city  museum";
  country = "france";
  locality = "";
  description = "";
  wikipedia_url = "";
  wikidata_id = "Q1";
  page_id = 0;
  website = "";
  sitelinks = 3;
  latitude = pos 48;
  longitude = negsuc 1;
  source_page = "";
  verified = true;
  also_known_as = "musee" ∷ [];
  sources = "wikidata" ∷ [];
  classes = "museum" ∷ [];
}

abbrev local : Museum
local = record gallery {
  name = "musee";
  wikidata_id = "";
  also_known_as = [];
  sources = "osm" ∷ [];
}

full-source : ◌≢◌ {A = String} "osm" ""
full-source e = cc

add_all-IsMerged_example : IsMerged 2 (add_all latin (gallery ∷ local ∷ []) new_merger)
add_all-IsMerged_example = add_all-IsMerged latin (gallery ∷ local ∷ [])

one_museum :
    get_elem? (museums_of (add_all latin (gallery ∷ []) new_merger)) 0
    ≡ some (cleaned latin gallery)
unfolding add_all name_keys clean_name
one_museum = refl

full-id : (cleaned latin gallery).wikidata_id ≢ ""
unfolding cleaned
full-id e = cc

add_all-distinct_example : ◌≡◌ {A = ℕ} 0 0
add_all-distinct_example =
    add_all-distinct latin (gallery ∷ []) 0 0 (cleaned latin gallery) (cleaned latin gallery)
      one_museum one_museum full-id refl
