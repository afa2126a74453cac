-- ===== src/Keys.antt =====
-- internal/keys/museum.go: the names under which records are stored. SHA-256 and encoding/hex are the
-- argument `hex_digest`, the first eight bytes of the sum in hexadecimal.
pub mod Slug
use museumscraper.Prelude.{
  ℕ, zero, suc, ◌+◌, ◌-◌, ◌*◌, ◌/◌, ◌%◌, ◌^◌, ◌≤◌, ◌<◌, min, max, String, ◌≡◌, refl, sym, ap, ◌∙◌,
  ◌≢◌, ◌↔◌, ◌⊎◌, inl, inr, Bool, true, false, not, ◌&&◌, ◌||◌, Option, none, some, List, [], ◌∷◌,
  ◌++◌, map, arith, ltb, leb, ◌==◌, if◌then◌else◌, ltb→lt, lt→ltb, leb→le, ==_iff, Bool-cases,
  Option-cases, length, get_elem?, set, length-append, length-set, get_elem?-set_self,
  get_elem?-set_ne, All, take, drop, dec_lt, ℕ_discrete,
}
use museumscraper.Text.Bytes.{Bytes, codes, trim}
use museumscraper.Search.{Letters, normalize}

abbrev pub raw_prefix : Bytes
raw_prefix = codes "raw_data"

abbrev pub enriched_prefix : Bytes
enriched_prefix = codes "enriched_data"

-- The part of a museum that its key is made of.
pub record Place : Type 0 where
  pub country : Bytes
  pub name : Bytes

-- 'a' ≤ r ≤ 'z' or '0' ≤ r ≤ '9'
abbrev pub is_plain : ℕ → Bool
is_plain r = (leb b'a' r && leb r b'z') || (leb b'0' r && leb r b'9')

-- The loop of sanitizeKey.
unfoldable pub slug_of : Bytes → Bytes
slug_of [] = []
slug_of (r ∷ s) =
    let rest = slug_of s in if is_plain r then r ∷ rest else if r == b' ' then b'-' ∷ rest else rest

-- strings.Trim(s, "-")
unfoldable pub trim_dashes_left : Bytes → Bytes
trim_dashes_left [] = []
trim_dashes_left (c ∷ s) = let rest = trim_dashes_left s in if c == b'-' then rest else c ∷ s

unfoldable pub trim_dashes_right : Bytes → Bytes
trim_dashes_right [] = []
trim_dashes_right (c ∷ s) = elim (trim_dashes_right s) [
  | [] ↦ if c == b'-' then [] else c ∷ []
  | d ∷ r ↦ c ∷ d ∷ r
]

-- a + "/" + b + "/" + c
abbrev pub path : Bytes → Bytes → Bytes → Bytes
path a b c = a ++ (b'/' ∷ (b ++ (b'/' ∷ c)))

module _ (l : Letters) (hex_digest : Bytes → Bytes) where
  unfoldable pub digest : Bytes → Bytes
  digest s = elim (trim s) [ [] ↦ codes "unknown" | _ ∷ _ ↦ codes "x-" ++ hex_digest s ]

  unfoldable pub sanitize_key : Bytes → Bytes
  sanitize_key s = elim (trim_dashes_right (trim_dashes_left (slug_of (normalize l s)))) [
    | [] ↦ digest s
    | c ∷ slug ↦ c ∷ slug
  ]

  abbrev pub key_under : Bytes → Place → Bytes
  key_under prefix p = path prefix (sanitize_key p.country) (sanitize_key p.name ++ codes ".json")

  unfoldable pub museum : Place → Bytes
  museum p = key_under raw_prefix p

  unfoldable pub enriched_museum : Place → Bytes
  enriched_museum p = key_under enriched_prefix p
