-- ===== src/Exhibitions/Displays.antt =====
-- pkg/exhibitions/permanent.go: what a page says of itself.
use museumscraper.Prelude.{Bool, false, ◌||◌, Option, none, some, [], ◌∷◌, ◌++◌}
use museumscraper.Text.Bytes.{Bytes}
use museumscraper.Exhibitions.Words.{contains_any}
use museumscraper.Exhibitions.Words.Links.{strong_path_hints}
use museumscraper.Exhibitions.Words.Displays.{display_words}
use museumscraper.Exhibitions.Page.{Headings, find_headings, text_of}
use museumscraper.Exhibitions.Title.Slug.{trim_slashes, last_segment}
use museumscraper.Exhibitions.Links.{Url, Web, lower, names_permanent, path_names_permanent}

abbrev no_headings : Headings
no_headings = record { title = []; heading = [] }

abbrev spelled : Headings → Bytes
spelled h = h.title ++ (32 ∷ h.heading)

module _ (w : Web) where
  unfoldable pub page_headings : Bytes → Bytes
  page_headings page = elim (w.parse_html page) [
    | none ↦ []
    | some doc ↦ spelled (find_headings doc no_headings)
  ]

  unfoldable pub is_permanent_listing : Bytes → Option Url → Bool
  is_permanent_listing page none = names_permanent w (page_headings page)
  is_permanent_listing page (some u) =
      path_names_permanent w u.path || names_permanent w (page_headings page)

  abbrev pub last_names_exhibitions : Url → Bool
  last_names_exhibitions u =
      contains_any (last_segment (trim_slashes (lower w u.path))) strong_path_hints

  unfoldable pub names_exhibitions : Bytes → Option Url → Bool
  names_exhibitions page none = contains_any (lower w (page_headings page)) strong_path_hints
  names_exhibitions page (some u) =
      last_names_exhibitions u || contains_any (lower w (page_headings page)) strong_path_hints

  unfoldable pub describes_display : Bytes → Bool
  describes_display page = elim (w.parse_html page) [
    | none ↦ false
    | some doc ↦ contains_any (lower w (text_of doc)) display_words
  ]
