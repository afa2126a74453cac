-- ===== src/Exhibitions/Words.antt =====
-- pkg/exhibitions/extract.go and permanent.go: the tables of words by which links, cards and pages
-- are told apart, and the search in them.
pub mod Links
pub mod Cards
pub mod Displays
use museumscraper.Prelude.{String, Bool, false, ◌||◌, List, [], ◌∷◌}
use museumscraper.Text.Bytes.{Bytes, codes, contains, equal}

unfoldable pub contains_any : Bytes → List String → Bool
unfolding contains
contains_any s [] = false
contains_any s (sub ∷ subs) = contains s (codes sub) || contains_any s subs

-- `table[s]` of a set.
unfoldable pub is_in : List String → Bytes → Bool
unfolding equal
is_in [] s = false
is_in (word ∷ words) s = equal s (codes word) || is_in words s
