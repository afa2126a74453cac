-- ===== src/Collect/Merge.antt =====
-- internal/collect/merge.go: mergeInto, which folds one record into another.
pub mod Union
use museumscraper.Prelude.{
  ℕ, zero, suc, ◌+◌, ◌-◌, ◌*◌, ◌/◌, ◌%◌, ◌^◌, ◌≤◌, ◌<◌, min, max, String, ◌≡◌, refl, sym, ap, ◌∙◌,
  ◌≢◌, ◌↔◌, ◌⊎◌, inl, inr, Bool, true, false, not, ◌&&◌, ◌||◌, Option, none, some, List, [], ◌∷◌,
  ◌++◌, map, arith, ltb, leb, ◌==◌, if◌then◌else◌, ltb→lt, lt→ltb, leb→le, ==_iff, Bool-cases,
  Option-cases, length, get_elem?, set, length-append, length-set, get_elem?-set_self,
  get_elem?-set_ne, All, take, drop, dec_lt, ℕ_discrete,
}
use Prim.Native.Nat.{Ordering}
use Prim.Native.String.{compare}
use text.Mathlib.Text.{◌==◌ as str_eq}
use museumscraper.Collect.{Museum, Unicode, has_coordinates, known, contains}

abbrev pub fill : String → String → String
fill target value = if str_eq target "" then value else target

abbrev pub country_authority : String
country_authority = "wikidata"

-- slices.Sort on texts, whose order is that of their bytes, by insertion.
abbrev pub is_after : Ordering → Bool
is_after Ordering.lt = false
is_after Ordering.eq = false
is_after Ordering.gt = true

unfoldable pub insert : String → List String → List String
insert a [] = a ∷ []
insert a (b ∷ bs) =
    let rest = insert a bs in if is_after (compare a b) then b ∷ rest else a ∷ b ∷ bs

unfoldable pub sort : List String → List String
unfolding insert
sort [] = []
sort (a ∷ as') = insert a (sort as')

-- The loops that append what is not there yet: the names but for the stored one, the sources, the
-- classes.
unfoldable pub add_aliases : String → List String → List String → List String
unfolding contains
add_aliases name held [] = held
add_aliases name held (a ∷ as') =
    add_aliases name
      (if not (str_eq a "") && not (str_eq a name) && not (contains held a)
        then held ++ a ∷ []
        else held)
      as'

unfoldable pub add_sources : List String → List String → List String
unfolding contains
add_sources held [] = held
add_sources held (a ∷ as') =
    add_sources (if not (contains held a) then held ++ a ∷ [] else held) as'

unfoldable pub add_classes : List String → List String → List String
unfolding contains
add_classes held [] = held
add_classes held (a ∷ as') =
    add_classes (if not (str_eq a "") && not (contains held a) then held ++ a ∷ [] else held) as'

module _ (u : Unicode) where
  abbrev pub authoritative_country : Museum → Bool
  authoritative_country m = contains m.sources country_authority

  unfoldable pub merged_country : Museum → Museum → String
  unfolding known
  merged_country dst src =
      if known u src.country && (not (known u dst.country) || authoritative_country src)
      then src.country
      else dst.country

  unfoldable pub merge_into : Museum → Museum → Museum
  unfolding merged_country add_aliases add_sources add_classes sort
  merge_into dst src =
      let moved = not (has_coordinates dst) && has_coordinates src in
      let name = fill dst.name src.name in
      record {
        name = name;
        country = merged_country dst src;
        locality = fill dst.locality src.locality;
        description = fill dst.description src.description;
        wikipedia_url = fill dst.wikipedia_url src.wikipedia_url;
        wikidata_id = fill dst.wikidata_id src.wikidata_id;
        page_id = if dst.page_id == 0 then src.page_id else dst.page_id;
        website = fill dst.website src.website;
        sitelinks = max dst.sitelinks src.sitelinks;
        latitude = if moved then src.latitude else dst.latitude;
        longitude = if moved then src.longitude else dst.longitude;
        source_page = fill dst.source_page src.source_page;
        verified = dst.verified || src.verified;
        also_known_as = sort (add_aliases name dst.also_known_as (src.name ∷ src.also_known_as));
        sources = sort (add_sources dst.sources src.sources);
        classes = sort (add_classes dst.classes src.classes);
      }
