-- ===== src/Wikipedia/Topics.antt =====
-- pkg/wikipedia/category.go: what a category is about, and the name of a source.
use museumscraper.Prelude.{String, Bool, ◌||◌, List, [], ◌∷◌, if◌then◌else◌}
use text.Mathlib.Text.{◌==◌ as str_eq}
use Prim.Native.String.{◌++◌ as append}
use museumscraper.Text.{trim_prefix}
use museumscraper.Text.Bytes.{codes}
use museumscraper.Wikipedia.Classify.{mentions, starts_with}

abbrev pub default_language : String
default_language = "en"

abbrev pub category_source_name : String
category_source_name = "wikipedia-category"

unfoldable pub category_source_name_for : String → String
category_source_name_for lang =
    if str_eq lang "" || str_eq lang default_language
    then category_source_name
    else append (append category_source_name "-") lang

abbrev pub skipped_category_terms : List String
skipped_category_terms =
    "curators" ∷ "directors" ∷ "founders" ∷ "employees" ∷ "staff" ∷ "people" ∷ "biographies"
    ∷ "architects" ∷ "collectors" ∷ "donors" ∷ "stubs" ∷ "templates" ∷ "logos" ∷ "images of"
    ∷ "photographs of" ∷ "lists of" ∷ "list of" ∷ "index of" ∷ "awards" ∷ "wikipedia"
    ∷ "navigational boxes" ∷ "redirects" ∷ []

abbrev pub member_list_terms : List String
member_list_terms =
    "inductees" ∷ "inductee" ∷ "honorees" ∷ "honourees" ∷ "balloting" ∷ "award recipients"
    ∷ "award winners" ∷ "hall of fame members" ∷ "hall of fame players" ∷ "hall of fame horses" ∷ []

abbrev pub skipped_category_prefixes : List String
skipped_category_prefixes =
    "collections of" ∷ "collection of" ∷ "artworks" ∷ "paintings" ∷ "sculptures" ∷ "drawings"
    ∷ "engravings" ∷ "manuscripts" ∷ "works " ∷ "exhibitions" ∷ "publications" ∷ "acquisitions" ∷ []

abbrev pub category_prefix : String
category_prefix = "Category:"

unfoldable pub skip_category : (String → String) → String → Bool
skip_category lower title =
    let name = codes (lower (trim_prefix title category_prefix)) in
    mentions name skipped_category_terms
    || mentions name member_list_terms
    || starts_with name skipped_category_prefixes
