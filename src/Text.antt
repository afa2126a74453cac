-- ===== src/Text.antt =====
-- What the modules share of Go's `strings` and `unicode`: white space, trimming and cutting. A text
-- is a list of characters; ill-formed UTF-8 is not modelled.
pub mod Bytes
pub mod Distinct
use museumscraper.Prelude.{
  String, Bool, true, ◌&&◌, ◌||◌, leb, ◌==◌, Option, none, some, if◌then◌else◌,
}
use Prim.Native.Char.{Char, code}
use Prim.Native.String.{[] as empty, ◌∷◌ as cons}

-- unicode.IsSpace
unfoldable pub is_space : Char → Bool
is_space c =
    let n = code c in
    (leb 9 n && leb n 13)
    || n == 32
    || n == 133
    || n == 160
    || n == 5760
    || (leb 8192 n && leb n 8202)
    || n == 8232
    || n == 8233
    || n == 8239
    || n == 8287
    || n == 12288

-- `strings.TrimSpace(s) == ""`
unfoldable pub is_blank : String → Bool
unfolding is_space
is_blank empty = true
is_blank (cons c s) = is_space c && is_blank s

-- strings.TrimPrefix
abbrev pub cut_prefix : String → String → Option String
cut_prefix s empty = some s
cut_prefix empty (cons p ps) = none
cut_prefix (cons c s) (cons p ps) =
    let rest = cut_prefix s ps in if code c == code p then rest else none

unfoldable pub trim_prefix : String → String → String
trim_prefix s prefix = elim (cut_prefix s prefix) [ some rest ↦ rest | none ↦ s ]
