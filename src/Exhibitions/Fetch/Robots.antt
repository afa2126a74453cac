-- ===== src/Exhibitions/Fetch/Robots.antt =====
-- pkg/exhibitions/fetch.go: parseRobots, and allows.
pub mod Longest
use museumscraper.Prelude.{
  ℕ, zero, suc, ◌+◌, ◌-◌, ◌*◌, ◌/◌, ◌%◌, ◌^◌, ◌≤◌, ◌<◌, min, max, String, ◌≡◌, refl, sym, ap, ◌∙◌,
  ◌≢◌, ◌↔◌, ◌⊎◌, inl, inr, Bool, true, false, not, ◌&&◌, ◌||◌, Option, none, some, List, [], ◌∷◌,
  ◌++◌, map, arith, ltb, leb, ◌>>=◌, ◌==◌, if◌then◌else◌, ltb→lt, lt→ltb, leb→le, ==_iff,
  Bool-cases, Option-cases, length, get_elem?, set, length-append, length-set, get_elem?-set_self,
  get_elem?-set_ne, All, take, drop, dec_lt, ℕ_discrete,
}
use museumscraper.Text.Bytes.{Bytes, codes, trim, has_prefix, equal}
use museumscraper.Exhibitions.Page.{byte_length}

-- robotsRules
pub record Rules : Type 0 where
  pub disallow : List Bytes
  pub allow : List Bytes

abbrev pub or_root : Bytes → Bytes
or_root [] = b'/' ∷ []
or_root (c ∷ s) = c ∷ s

-- The length of the longest rule that the path starts with, as one more; 0 stands for -1.
unfoldable pub longest : Bytes → List Bytes → ℕ → ℕ
longest path [] best = best
longest path (prefix ∷ prefixes) best = longest path prefixes (
    if has_prefix path prefix && ltb best (byte_length prefix + 1)
    then byte_length prefix + 1
    else best)

unfoldable pub allows : Rules → Bytes → Bool
allows r path = leb (longest (or_root path) r.disallow 0) (longest (or_root path) r.allow 0)

-- strings.Lines without the ends of the lines, which are trimmed.
unfoldable pub lines_from : Bytes → Bytes → List Bytes
lines_from line [] = line ∷ []
lines_from line (c ∷ s) = elim (c == 10) [
  | true ↦ line ∷ lines_from [] s
  | false ↦ lines_from (line ++ c ∷ []) s
]

-- line[:i] for the first '#'.
unfoldable pub before_hash : Bytes → Bytes
before_hash [] = []
before_hash (c ∷ s) = let rest = before_hash s in if c == b'#' then [] else c ∷ rest

-- strings.Cut(line, ":")
unfoldable pub cut_colon : Bytes → Option (Bytes × Bytes)
cut_colon [] = none
cut_colon (c ∷ s) = elim (c == b':') [
  | true ↦ some ([], s)
  | false ↦ elim (cut_colon s) [ none ↦ none | some (field, value) ↦ some (c ∷ field, value) ]
]

-- The rules so far, and whether those that follow apply.
pub record Reading : Type 0 where
  pub rules : Rules
  pub applies : Bool

abbrev pub add_disallow : Bytes → Rules → Rules
add_disallow value r = record { disallow = r.disallow ++ value ∷ []; allow = r.allow }

abbrev pub add_allow : Bytes → Rules → Rules
add_allow value r = record { disallow = r.disallow; allow = r.allow ++ value ∷ [] }

-- The switch on the field.
unfoldable pub read_field : (field value : Bytes) → Reading → Reading
read_field field value r =
    if equal field (codes "user-agent")
    then record { rules = r.rules; applies = equal value (codes "*") }
    else if not r.applies || equal value []
    then r
    else if equal field (codes "disallow")
    then record { rules = add_disallow value r.rules; applies = true }
    else if equal field (codes "allow")
    then record { rules = add_allow value r.rules; applies = true }
    else r

module _ (lower : Bytes → Bytes) where
  unfoldable pub read_rule : Bytes → Reading → Reading
  read_rule line r = elim (cut_colon (trim (before_hash (trim line)))) [
    | none ↦ r
    | some (field, value) ↦ read_field (lower (trim field)) (trim value) r
  ]

  unfoldable pub read_rules : List Bytes → Reading → Reading
  read_rules [] r = r
  read_rules (line ∷ lines) r = read_rules lines (read_rule line r)

  unfoldable pub parse_robots : Bytes → Rules
  parse_robots body =
      (read_rules (lines_from [] body)
        (record { rules = record { disallow = []; allow = [] }; applies = false })).rules
