-- ===== src/Examples/Names.antt =====
-- pkg/geo, internal/search and internal/keys: names of countries and of museums.
use museumscraper.Prelude.{String, ◌≡◌, refl, ◌&&◌, ◌||◌, some, List, [], ◌∷◌, ◌++◌, leb, All}
use museumscraper.Text.{trim_prefix, is_space, is_blank}
use museumscraper.Text.Bytes.{Bytes, codes, fields, fields_from, among, equal}
use museumscraper.Text.Bytes.{is_space as is_space_code}
use museumscraper.Collect.{trim_left, trim_right}
use museumscraper.Geo.Tables.{countries}
use museumscraper.Geo.{entry, index_of, find_candidate, canonical}
use museumscraper.Geo.Spellings.{ascii_lower}
use museumscraper.Geo.Canonical.{canonical-canonical}
use museumscraper.Search.{Letters, separate, transliteration, normalize, distinct, tokens}
use museumscraper.Keys.{
  Place, raw_prefix, enriched_prefix, sanitize_key, museum, enriched_museum, slug_of,
  trim_dashes_left, trim_dashes_right, digest,
}
use museumscraper.Keys.Slug.{split_slashes, museum-split_slashes}

ascii_agrees : (cs : List String) → All (λ n. ascii_lower n ≡ ascii_lower n) cs
ascii_agrees [] = tt
ascii_agrees (c ∷ cs) = (refl, ascii_agrees cs)

netherlands : canonical ascii_lower " the NETHERLANDS" ≡ some "Netherlands"
unfolding canonical find_candidate index_of entry trim_left trim_right trim_prefix ascii_lower
    is_space is_blank
netherlands = refl

czechia : canonical ascii_lower "Czechia" ≡ some "Czech Republic"
unfolding canonical find_candidate index_of entry trim_left trim_right trim_prefix ascii_lower
    is_space is_blank
czechia = refl

canonical-canonical_example : canonical ascii_lower "Netherlands" ≡ some "Netherlands"
canonical-canonical_example =
    canonical-canonical ascii_lower " the NETHERLANDS" "Netherlands" (ascii_agrees countries)
      netherlands

-- A folding that has nothing to do, and the letters and digits of ASCII.
abbrev plain_letters : Letters
plain_letters = record {
  fold = λ s. s;
  lower = λ s. s;
  is_letter = λ c. leb 97 c && leb c 122 || leb 223 c;
  is_digit = λ c. leb 48 c && leb c 57;
}

abbrev tate : Bytes
tate = codes "tate, the tate: møller's"

tate-tokens :
    tokens plain_letters tate ≡ codes "tate" ∷ codes "the" ∷ codes "moller" ∷ codes "s" ∷ []
unfolding tokens normalize separate distinct transliteration fields fields_from is_space_code among
    equal
tate-tokens = refl

abbrev moller : Place
moller = record { country = codes "denmark"; name = codes "møller/museet" }

abbrev no_hex : Bytes → Bytes
no_hex s = codes "00"

moller-museum : museum plain_letters no_hex moller ≡ codes "raw_data/denmark/moller-museet.json"
unfolding museum sanitize_key digest slug_of trim_dashes_left trim_dashes_right normalize separate
    transliteration fields fields_from is_space_code
moller-museum = refl

museum-split_slashes_example :
    let country = sanitize_key plain_letters no_hex moller.country in
    let file = sanitize_key plain_letters no_hex moller.name ++ codes ".json" in
    (split_slashes [] (museum plain_letters no_hex moller) ≡ raw_prefix ∷ country ∷ file ∷ [])
    × (split_slashes [] (enriched_museum plain_letters no_hex moller)
        ≡ enriched_prefix ∷ country ∷ file ∷ [])
museum-split_slashes_example = museum-split_slashes plain_letters no_hex moller (λ t. refl)
