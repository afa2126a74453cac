-- ===== src/Exhibitions/Candidates/Paging.antt =====
-- pkg/exhibitions/extract.go: IsNavigationLink, which tells the paging of a listing from its entries.
use museumscraper.Prelude.{
  Bool, true, false, not, ◌&&◌, ◌||◌, Option, none, some, List, [], ◌∷◌, ◌++◌, ◌==◌, if◌then◌else◌,
  length, drop,
}
use museumscraper.Text.Bytes.{Bytes, has_prefix, equal}
use museumscraper.Exhibitions.Words.{is_in}
use museumscraper.Exhibitions.Words.Cards.{view_segments, container_segments}
use museumscraper.Exhibitions.Title.Slug.{trim_slashes, is_int}
use museumscraper.Exhibitions.Links.{Url, Web, lower}

-- strings.FieldsFunc at '/', with the segment that the loop is in.
unfoldable pub segments_from : Bytes → Bytes → List Bytes
segments_from [] [] = []
segments_from (d ∷ ds) [] = (d ∷ ds) ∷ []
segments_from [] (c ∷ s) = segments_from (if c == b'/' then [] else c ∷ []) s
segments_from (d ∷ ds) (c ∷ s) = elim (c == b'/') [
  | true ↦ (d ∷ ds) ∷ segments_from [] s
  | false ↦ segments_from (d ∷ ds ++ c ∷ []) s
]

unfoldable pub segments : Bytes → List Bytes
segments s = segments_from [] s

-- The last case of the source is never reached, since what is not under the base was left before.
unfoldable pub below : (base_path link_path : Bytes) → Bytes
below base_path link_path =
    if not (equal base_path []) && has_prefix link_path (base_path ++ b'/' ∷ [])
    then drop (length base_path) link_path
    else link_path

module _ (w : Web) where
  -- A segment that names a view, a section or a page number.
  unfoldable pub is_view : Bytes → Bool
  is_view segment =
      is_in view_segments (lower w segment)
      || is_in container_segments (lower w segment)
      || is_int segment

  unfoldable pub all_views : List Bytes → Bool
  all_views [] = true
  all_views (s ∷ ss) = let rest = all_views ss in if is_view s then rest else false

  abbrev pub is_elsewhere : Url → Url → Bool
  is_elsewhere base u =
      not (equal u.host [])
      && not (equal base.host [])
      && not (w.alphabet.equal_fold u.host base.host)

  unfoldable pub pages : (base_path link_path : Bytes) → Bool
  pages base_path link_path =
      if equal link_path base_path
      then true
      else if not (equal base_path []) && not (has_prefix link_path (base_path ++ b'/' ∷ []))
      then false
      else all_views (segments (below base_path link_path))

  unfoldable pub is_navigation_link : Bytes → Option Url → Bool
  is_navigation_link candidate none = false
  is_navigation_link candidate (some base) = elim (w.parse_url candidate) [
    | none ↦ false
    | some u ↦
        if is_elsewhere base u then false else pages (trim_slashes base.path) (trim_slashes u.path)
  ]
