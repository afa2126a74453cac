-- ===== src/Examples/Crawls.antt =====
-- pkg/wikipedia/category.go: a crawl of three categories, of which the last leads back to the first.
use mathlib.Core.Path.{subst}
use museumscraper.Prelude.{
  ℕ, ap, true, All, if-keeps, arith, String, ◌≡◌, refl, false, Option, none, some, List, [], ◌∷◌,
  if◌then◌else◌,
}
use text.Mathlib.Text.{◌==◌ as str_eq}
use museumscraper.Prelude.Int.{pos}
use museumscraper.Text.{trim_prefix, is_blank, is_space}
use museumscraper.Text.Bytes.{contains, has_prefix}
use museumscraper.Collect.{contains as has}
use museumscraper.Wikipedia.Classify.{
  PageMetadata, mentions, starts_with, classify, is_list_title, judge_description,
}
use museumscraper.Wikipedia.Topics.{skip_category}
use museumscraper.Wikipedia.Crawl.{
  CategoryMember, Edition, museums, walk, walk_members, emit_articles, emit_fresh, emit_titles,
  fresh_titles,
}
use museumscraper.Wikipedia.Crawl.Invariants.{
  IsSound, IsComplete, names, museums-IsSound, museums-IsComplete,
}
use museumscraper.Wikipedia.Lists.{Site, Processor, Extraction, process_category}
use museumscraper.Wikipedia.Lists.Kept.{NamesKnown}
use museumscraper.Wikipedia.Lists.Ends.{IsClosed, process_category-ends}

abbrev article : String → CategoryMember
article title = record { ns = 0; title = title }

abbrev sub : String → CategoryMember
sub title = record { ns = 14; title = title }

abbrev tree : String → Option (List CategoryMember)
tree category =
    if str_eq category "Category:Museums"
    then some (sub "Category:Museums in France" ∷ sub "Category:Museum directors" ∷ [])
    else if str_eq category "Category:Museums in France"
    then some
        (article "louvre" ∷ article "pyramid" ∷ sub "Category:Museums" ∷ article "louvre" ∷ [])
    else none

abbrev described : String → String → PageMetadata
described title description = record {
  page_id = 7;
  title = title;
  namespace = 0;
  missing = false;
  is_disambiguation = false;
  url = "https://en.wikipedia.org/";
  description = description;
  wikidata_id = "";
  latitude = pos 0;
  longitude = pos 0;
  has_coordinates = false;
}

abbrev english : Edition
english = record {
  lang = "en";
  lower = λ s. s;
  has_lifespan = λ s. false;
  members = tree;
  resolve = λ titles title.
      if str_eq title "louvre" then some (described "louvre" "museum in paris") else none;
  canonical_country = λ s. if str_eq s "Museums in France" then some "France" else none;
  cancelled = λ k. false;
}

crawl-names : names (museums english "Category:Museums").out ≡ "louvre" ∷ []
unfolding museums walk walk_members skip_category emit_articles emit_fresh emit_titles fresh_titles
    classify is_list_title judge_description mentions starts_with contains has_prefix has
    trim_prefix is_blank is_space
crawl-names = refl

museums-IsSound_example : IsSound english 0 (museums english "Category:Museums")
museums-IsSound_example = museums-IsSound english "Category:Museums"

museums-IsComplete_example : IsComplete 0 (museums english "Category:Museums")
museums-IsComplete_example = museums-IsComplete english "Category:Museums" (λ k. refl)

-- The same tree read for list pages: one page that names a museum and leads to another list.
abbrev lists : Site
lists = record {
  edition = english;
  extract = λ title.
      if str_eq title "louvre"
      then some (record {
        candidates = record { title = "louvre"; locality = "paris" } ∷ [];
        nested_lists = "list of museums in paris" ∷ [];
      })
      else none;
  place_of = λ s. "";
  after_of = λ s. none;
}

abbrev categories : List String
categories = "Category:Museums" ∷ "Category:Museums in France" ∷ "Category:Museum directors" ∷ []

abbrev pages : List String
pages = "list of museums in paris" ∷ []

abbrev IsIn : CategoryMember → Type 0
IsIn m = m.ns ≡ 14 → has categories m.title ≡ true

abbrev Holds {ℓ κ} : {A : Type ℓ} → (A → Type κ) → Option A → Type (ℓ ⊔ κ)
Holds {A = A} P o = (a : A) → o ≡ some a → P a

or_default : {A : Type 0} → A → Option A → A
or_default d none = d
or_default d (some a) = a

Holds-some : {A : Type 0} (P : A → Type 0) (a : A) → P a → Holds P (some a)
unfolding or_default
Holds-some P a p b e = subst P (ap (or_default a) e) p

Holds-none : {A : Type 0} (P : A → Type 0) → Holds P none
Holds-none P b e = absurd (ground (arith, e))

tree-IsClosed : IsClosed lists categories pages
unfolding has
tree-IsClosed category =
    if-keeps (Holds (All IsIn)) (str_eq category "Category:Museums")
      (some (sub "Category:Museums in France" ∷ sub "Category:Museum directors" ∷ []))
      (if str_eq category "Category:Museums in France"
        then some
            (article "louvre" ∷ article "pyramid" ∷ sub "Category:Museums" ∷ article "louvre" ∷ [])
        else none)
      (Holds-some (All IsIn) _ ((λ e. refl), ((λ e. refl), tt)))
      (if-keeps (Holds (All IsIn)) (str_eq category "Category:Museums in France")
        (some
          (article "louvre" ∷ article "pyramid" ∷ sub "Category:Museums" ∷ article "louvre" ∷ []))
        none
        (Holds-some (All IsIn) _ (
          (λ e. absurd (omega (arith, e))),
          ((λ e. absurd (omega (arith, e))), ((λ e. refl), ((λ e. absurd (omega (arith, e))), tt))),
        ))
        (Holds-none (All IsIn)))

abbrev one_page : Extraction
one_page = record {
  candidates = record { title = "louvre"; locality = "paris" } ∷ [];
  nested_lists = "list of museums in paris" ∷ [];
}

abbrev NamesIn : Extraction → Type 0
NamesIn x = All (λ t. has pages t ≡ true) x.nested_lists

lists-NamesKnown : NamesKnown lists pages
unfolding has
lists-NamesKnown title =
    if-keeps (Holds NamesIn) (str_eq title "louvre") (some one_page) none
      (Holds-some NamesIn one_page (refl, tt)) (Holds-none NamesIn)

process_category-ends_example :
    (rounds : ℕ) × (q : Processor) × (process_category lists 4 rounds "Category:Museums" ≡ some q)
unfolding has
process_category-ends_example =
    process_category-ends lists categories pages "Category:Museums" tree-IsClosed lists-NamesKnown
      refl
