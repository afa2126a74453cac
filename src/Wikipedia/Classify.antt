-- ===== src/Wikipedia/Classify.antt =====
-- pkg/wikipedia/classify.go, models.go and wikitext.go's isListTitle: whether a resolved title is a
-- museum. The lower case of a text and the match of lifespanRe are arguments.
use museumscraper.Prelude.{
  ℕ, String, ◌≡◌, Bool, false, not, ◌||◌, List, [], ◌∷◌, arith, ◌==◌, if◌then◌else◌,
}
use text.Mathlib.Text.{◌==◌ as str_eq}
use museumscraper.Text.{is_blank}
use museumscraper.Text.Bytes.{Bytes, codes, has_prefix, contains}
use museumscraper.Prelude.Int.{ℤ}
use Prim.Native.String.{◌++◌ as append}

-- The resolved data of one article. The two degrees are integers, of any unit.
pub record PageMetadata : Type 0 where
  pub page_id : ℕ
  pub title : String
  pub namespace : ℕ
  pub missing : Bool
  pub is_disambiguation : Bool
  pub url : String
  pub description : String
  pub wikidata_id : String
  pub latitude : ℤ
  pub longitude : ℤ
  pub has_coordinates : Bool

abbrev pub museum_keywords : List String
museum_keywords =
    "museum" ∷ "museums" ∷ "musée" ∷ "musee" ∷ "museo" ∷ "museu" ∷ "muzeum" ∷ "muzej" ∷ "museet"
    ∷ "museo" ∷ "musem" ∷ "múzeum" ∷ "muzeu" ∷ "gallery" ∷ "galleries" ∷ "galerie" ∷ "galleria"
    ∷ "galería" ∷ "galeria" ∷ "gallerie" ∷ "kunsthalle" ∷ "kunstmuseum" ∷ "pinacoteca"
    ∷ "pinakothek" ∷ "aquarium" ∷ "planetarium" ∷ "arboretum" ∷ "observatory" ∷ "collection"
    ∷ "heritage centre" ∷ "heritage center" ∷ "science centre" ∷ "science center" ∷ "visitor centre"
    ∷ "visitor center" ∷ "memorial" ∷ "historic house" ∷ "historic site" ∷ "treasury" ∷ "armoury"
    ∷ "armory" ∷ "menagerie" ∷ "zoo" ∷ []

abbrev pub settlement_descriptors : List String
settlement_descriptors =
    "commune in" ∷ "commune of" ∷ "city in" ∷ "city of" ∷ "town in" ∷ "town of" ∷ "village in"
    ∷ "village of" ∷ "municipality in" ∷ "municipality of" ∷ "human settlement" ∷ "settlement in"
    ∷ "capital of" ∷ "capital city" ∷ "department in" ∷ "department of" ∷ "region of" ∷ "region in"
    ∷ "province in" ∷ "province of" ∷ "prefecture" ∷ "administrative" ∷ "county in" ∷ "county of"
    ∷ "district in" ∷ "district of" ∷ "state in" ∷ "state of" ∷ "canton" ∷ "arrondissement"
    ∷ "borough" ∷ "country in" ∷ "island country" ∷ "sovereign state"
    ∷ "topics referred to by the same term" ∷ "wikimedia" ∷ "wikipedia" ∷ []

abbrev pub other_non_museum_descriptors : List String
other_non_museum_descriptors =
    "river in" ∷ "mountain in" ∷ "lake in" ∷ "language spoken" ∷ "ethnic group" ∷ "political party"
    ∷ "football club" ∷ "railway station" ∷ "university in" ∷ "association of" ∷ "organization of"
    ∷ "organisation of" ∷ "government agency" ∷ "list of" ∷ "index of" ∷ "exhibition"
    ∷ "art installation" ∷ "database" ∷ "encyclopedia" ∷ "library in" ∷ "library of"
    ∷ "public library" ∷ "national library" ∷ "opera house" ∷ "theatre in" ∷ "theater in"
    ∷ "concert hall" ∷ "heritage designation" ∷ "award given" ∷ "trade union" ∷ "magazine" ∷ []

abbrev pub person_descriptors : List String
person_descriptors =
    "poet" ∷ "writer" ∷ "novelist" ∷ "author" ∷ "playwright" ∷ "dramatist" ∷ "painter" ∷ "sculptor"
    ∷ "artist" ∷ "composer" ∷ "musician" ∷ "singer" ∷ "actor" ∷ "actress" ∷ "film director"
    ∷ "photographer" ∷ "politician" ∷ "revolutionary" ∷ "military leader" ∷ "military commander"
    ∷ "general" ∷ "activist" ∷ "philosopher" ∷ "polymath" ∷ "historian" ∷ "journalist" ∷ "physician"
    ∷ "scientist" ∷ "mathematician" ∷ "architect" ∷ "monarch" ∷ "emperor" ∷ "empress" ∷ "king of"
    ∷ "queen of" ∷ "saint" ∷ "businessman" ∷ "businesswoman" ∷ "explorer" ∷ "aviator" ∷ "athlete"
    ∷ []

abbrev pub honouree_descriptors : List String
honouree_descriptors =
    "footballer" ∷ " player" ∷ "cricketer" ∷ "boxer" ∷ "jockey" ∷ "wrestler" ∷ "swimmer" ∷ "golfer"
    ∷ "sprinter" ∷ "cyclist" ∷ "racing driver" ∷ "horse trainer" ∷ "gymnast" ∷ "rower" ∷ "referee"
    ∷ "umpire" ∷ "racehorse" ∷ "thoroughbred" ∷ "quarter horse" ∷ "stallion" ∷ "sire" ∷ "rock band"
    ∷ "pop group" ∷ "musical group" ∷ "single by" ∷ "album by" ∷ "studio album" ∷ "song by"
    ∷ "induction ceremony" ∷ "elections to" ∷ "tennis tournament" ∷ "cuneiform sign" ∷ []

abbrev pub list_prefixes : List String
list_prefixes = "list of " ∷ "lists of " ∷ "index of " ∷ "outline of " ∷ []

pub data Rejection : Type 0 where
  reject_namespace : Rejection
  reject_disambiguation : Rejection
  reject_list_page : Rejection
  reject_settlement : Rejection
  reject_person : Rejection
  reject_other_topic : Rejection
  reject_honouree : Rejection
  reject_unresolvable : Rejection

-- A decision with its reason, which only a rejection has.
pub data Decision : Type 0 where
  accept : Decision
  accept_unverified : Decision
  reject : Rejection → Decision

-- The loops `for _, t := range terms { if strings.Contains(s, t) … }` and with HasPrefix.
unfoldable pub mentions : Bytes → List String → Bool
mentions s [] = false
mentions s (t ∷ ts) = contains s (codes t) || mentions s ts

unfoldable pub starts_with : Bytes → List String → Bool
starts_with s [] = false
starts_with s (t ∷ ts) = has_prefix s (codes t) || starts_with s ts

module _ (lower : String → String) (has_lifespan : String → Bool) where
  unfoldable pub is_list_title : String → Bool
  is_list_title title = starts_with (codes (lower title)) list_prefixes

  -- " \x00 "
  abbrev pub separator : String
  separator = " \0 "

  -- What a description says once no keyword of a museum was found.
  unfoldable pub judge_description : String → Decision
  judge_description description =
      if mentions (codes description) settlement_descriptors
      then reject reject_settlement
      else if has_lifespan description
      then reject reject_person
      else if mentions (codes description) person_descriptors
      then reject reject_person
      else if mentions (codes description) other_non_museum_descriptors
      then reject reject_other_topic
      else if mentions (codes description) honouree_descriptors
      then reject reject_honouree
      else accept

  unfoldable pub classify : PageMetadata → Decision
  classify meta =
      if not (meta.namespace == 0)
      then reject reject_namespace
      else if meta.is_disambiguation
      then reject reject_disambiguation
      else if is_list_title meta.title
      then reject reject_list_page
      else if meta.missing
      then if is_blank meta.title then reject reject_unresolvable else accept_unverified
      else if mentions (codes (lower (append (append meta.title separator) meta.description)))
          museum_keywords
      then accept
      else if str_eq (lower meta.description) ""
      then accept
      else judge_description (lower meta.description)

  -- A page that is taken as a museum is an article that exists, and neither a disambiguation page nor
  -- a list.
  pub record IsArticle (meta : PageMetadata) : Type 0 where
    pub in_namespace : meta.namespace ≡ 0
    pub one_topic : meta.is_disambiguation ≡ false
    pub no_list : is_list_title meta.title ≡ false
    pub there : meta.missing ≡ false

  pub classify-IsArticle : (meta : PageMetadata) → classify meta ≡ accept → IsArticle meta
  unfolding classify
  classify-IsArticle meta h = record {
    in_namespace = ground (arith, h);
    one_topic = ground (arith, h);
    no_list = ground (arith, h);
    there = ground (arith, h);
  }
