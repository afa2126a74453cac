-- ===== src/Examples/Pages.antt =====
-- pkg/wikipedia: a page with a table, and a small tree of categories.
use museumscraper.Prelude.{
  ◌++◌, drop, some, none, if◌then◌else◌, ◌≡◌, Bool, true, ◌&&◌, List, [], ◌∷◌,
}
use museumscraper.Text.Bytes.{Bytes, codes, has_prefix}
use museumscraper.Wikipedia.Table.Rows.{is_plain}
use museumscraper.Wikipedia.Table.Printed.{print_table}
use museumscraper.Wikipedia.Extractor.{Markup, Page, extract}
use museumscraper.Wikipedia.Extractor.Found.{IsPage, extract-IsPage}

abbrev headers : List Bytes
headers = codes "Name" ∷ codes "City" ∷ []

abbrev museums_of : List (List Bytes)
museums_of = (codes "Louvre" ∷ codes "Paris" ∷ []) ∷ []

abbrev page : List Bytes
page = print_table headers museums_of (codes "Text behind." ∷ [])

abbrev all_plain : Bytes → Bool
all_plain [] = true
all_plain (c ∷ s) = is_plain c && all_plain s

-- A page with the table, a heading and a list of two items, of which the first is a group.
abbrev markup : Markup
markup = record {
  heading = λ s.
      if has_prefix s (codes "==")
      then some (record { level = 2; name = codes "france"; linked = true })
      else none;
  marker = λ s.
      if has_prefix s (codes "**")
      then some (2, drop 2 s)
      else if has_prefix s (codes "*")
      then some (1, drop 1 s)
      else none;
  article_links = λ s. [];
  first_article_link = λ s. s;
  link_or_text = λ s. s;
  entry_title = λ s. s;
  plain_text = λ s. s;
  lower = λ s. s;
  blocklisted = [];
}

abbrev listing : List Bytes
listing = page ++ (codes "==france==" ∷ codes "*bourg" ∷ codes "**brou" ∷ [])

extract-IsPage_example : (p : Page) × (extract markup listing ≡ some p) × IsPage markup p
extract-IsPage_example = extract-IsPage markup listing
