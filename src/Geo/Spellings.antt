-- ===== src/Geo/Spellings.antt =====
-- pkg/geo/identify.go: the spellings that a lookup can end in.
use museumscraper.Prelude.{
  ◌-◌, String, ◌≡◌, refl, sym, ap, ◌∙◌, inl, inr, Bool, true, false, ◌&&◌, Option, none, some, List,
  [], ◌∷◌, arith, leb, if◌then◌else◌, Bool-cases, All,
}
use mathlib.Core.Path.{subst, ap₂}
use text.Mathlib.TextEquality.{eq_iff}
use text.Mathlib.Text.{◌==◌ as str_eq, char_at?}
use Prim.Native.Char.{Char, code}
use Prim.Native.String.{[] as empty, ◌∷◌ as cons}
use museumscraper.Collect.{trim_left, trim_right, contains}
use museumscraper.Text.{trim_prefix, is_space, is_blank}
use museumscraper.Geo.Tables.{countries, country_iso, country_aliases}
use museumscraper.Geo.{
  entry, index_of, or_else, or_self, map_some, through_alias, find_candidate, canonical,
}

abbrev pub or_char : Char → Option Char → Char
or_char c none = c
or_char c (some d) = d

abbrev pub ascii_lower_char : Char → Char
ascii_lower_char c =
    let n = code c in
    if leb 65 n && leb n 90 then or_char c (char_at? "abcdefghijklmnopqrstuvwxyz" (n - 65)) else c

unfoldable pub ascii_lower : String → String
ascii_lower empty = empty
ascii_lower (cons c s) = cons (ascii_lower_char c) (ascii_lower s)

abbrev pub trim : String → String
trim s = trim_right (trim_left s)

abbrev pub is_found : Option String → String → Bool
is_found none c = false
is_found (some d) c = str_eq d c

abbrev pub is_some : Option String → Bool
is_some none = false
is_some (some d) = true

-- A spelling that stays as it is and has a code, by the lower case of ASCII letters.
unfoldable pub is_fixed : String → Bool
is_fixed c =
    is_found (canonical ascii_lower c) c && is_some (entry country_iso c) && str_eq (trim c) c

-- Each country whose lower case is no other spelling is fixed.
abbrev pub is_settled : String → Bool
is_settled c = elim (entry country_aliases (ascii_lower c)) [ some a ↦ true | none ↦ is_fixed c ]

abbrev pub all_settled : List String → Bool
all_settled [] = true
all_settled (c ∷ cs) = is_settled c && all_settled cs

-- Each alias leads to a fixed country.
abbrev all_lead : List (String × String) → Bool
all_lead [] = true
all_lead (e ∷ es) = is_fixed e.1 && contains countries e.1 && all_lead es

pub countries-all_settled : all_settled countries ≡ true
unfolding is_fixed canonical find_candidate index_of entry trim_left trim_right trim_prefix
    ascii_lower is_space is_blank
countries-all_settled = refl

country_aliases-all_lead : all_lead country_aliases ≡ true
unfolding is_fixed canonical find_candidate index_of entry trim_left trim_right trim_prefix contains
    ascii_lower is_space is_blank
country_aliases-all_lead = refl

module _ (lower : String → String) where
  abbrev pub Agrees : String → Type 0
  Agrees c = lower c ≡ ascii_lower c

  abbrev pub IsFixed : String → Type 0
  IsFixed c = (is_fixed c ≡ true) × Agrees c

  contains-Agrees :
      (cs : List String) (c : String) → All Agrees cs → contains cs c ≡ true → Agrees c
  unfolding contains
  contains-Agrees [] c h k = absurd (ground (arith, k))
  contains-Agrees (d ∷ cs) c (p, h) k = elim (Bool-cases (str_eq d c)) [
    | inl y ↦ subst Agrees ((eq_iff d c).0 y) p
    | inr n ↦ contains-Agrees cs c h (ground (arith, k, n))
  ]

  entry-IsFixed :
      (es : List (String × String)) (k v : String)
      → All Agrees countries
      → all_lead es ≡ true
      → entry es k ≡ some v
      → IsFixed v
  unfolding entry
  entry-IsFixed [] k v h l e = absurd (ground (arith, e))
  entry-IsFixed (x ∷ es) k v h l e = elim (Bool-cases (str_eq x.0 k)) [
    | inl y ↦
        let same : x.1 ≡ v = ground (arith, e, y) in
        subst IsFixed same (ground (arith, l), contains-Agrees countries x.1 h (ground (arith, l)))
    | inr n ↦ entry-IsFixed es k v h (ground (arith, l)) (ground (arith, e, n))
  ]

  -- A country that the index gives.
  abbrev pub IsListed : String → Type 0
  IsListed c = (is_settled c ≡ true) × Agrees c

  or_else-some :
      (a b : Option String) (P : String → Type 0) (v : String)
      → ((x : String) → a ≡ some x → P x)
      → ((x : String) → b ≡ some x → P x)
      → or_else a b ≡ some v
      → P v
  or_else-some (some x) b P v f g e = f v e
  or_else-some none b P v f g e = g v e

  if-some :
      (b : Bool) (c : String) (P : String → Type 0) (v : String)
      → P c
      → (if b then some c else none) ≡ some v
      → P v
  if-some true c P v p e = subst P (ground (arith, e)) p
  if-some false c P v p e = absurd (ground (arith, e))

  pub index_of-IsListed :
      (cs : List String) (k v : String)
      → All Agrees cs
      → all_settled cs ≡ true
      → index_of lower cs k ≡ some v
      → IsListed v
  unfolding index_of
  index_of-IsListed [] k v h l e = absurd (ground (arith, e))
  index_of-IsListed (c ∷ cs) k v (p, h) l e =
      let is = str_eq (lower c) k in
      or_else-some (index_of lower cs k) (if is then some c else none) IsListed v
        (λ x q. index_of-IsListed cs k x h (ground (arith, l)) q)
        (λ x q. if-some is c IsListed x (ground (arith, l), p) q) e

  pub index_of-ascii_lower :
      (cs : List String) (k : String)
      → All Agrees cs
      → index_of lower cs k ≡ index_of ascii_lower cs k
  unfolding index_of
  index_of-ascii_lower [] k h = refl
  index_of-ascii_lower (c ∷ cs) k (p, h) =
      ap₂ (λ o l. or_else o (if str_eq l k then some c else none)) (index_of-ascii_lower cs k h) p

  or_self-IsFixed :
      (c : String) (o : Option String)
      → All Agrees countries
      → IsListed c
      → entry country_aliases (ascii_lower c) ≡ o
      → IsFixed (or_self c o)
  or_self-IsFixed c none h (l, p) e =
      (ap (λ o. elim o [ some a ↦ true | none ↦ is_fixed c ]) (sym e) ∙ l, p)
  or_self-IsFixed c (some a) h (l, p) e =
      entry-IsFixed country_aliases (ascii_lower c) a h country_aliases-all_lead e

  through_alias-IsFixed :
      (c : String) → All Agrees countries → IsListed c → IsFixed (through_alias lower c)
  through_alias-IsFixed c h (l, p) =
      or_self-IsFixed c (entry country_aliases (lower c)) h (l, p)
        (ap (entry country_aliases) (sym p))

  map_some-some :
      (f : String → String) (o : Option String) (P : String → Type 0) (v : String)
      → ((x : String) → o ≡ some x → P (f x))
      → map_some f o ≡ some v
      → P v
  map_some-some f none P v g e = absurd (ground (arith, e))
  map_some-some f (some x) P v g e = subst P (ground (arith, e)) (g x refl)

  find_candidate-IsFixed :
      (k v : String) → All Agrees countries → find_candidate lower k ≡ some v → IsFixed v
  unfolding find_candidate
  find_candidate-IsFixed k v h e =
      or_else-some (entry country_aliases k)
        (map_some (through_alias lower) (index_of lower countries k)) IsFixed v
        (λ x q. entry-IsFixed country_aliases k x h country_aliases-all_lead q)
        (λ x q.
          map_some-some (through_alias lower) (index_of lower countries k) IsFixed x
            (λ c r.
              through_alias-IsFixed c h (index_of-IsListed countries k c h countries-all_settled r))
            q)
        e

  pub canonical-IsFixed :
      (place c : String) → All Agrees countries → canonical lower place ≡ some c → IsFixed c
  unfolding canonical
  canonical-IsFixed place c h e =
      let k = lower (trim place) in
      or_else-some (find_candidate lower k) (find_candidate lower (trim_prefix k "the ")) IsFixed c
        (λ x q. find_candidate-IsFixed k x h q)
        (λ x q. find_candidate-IsFixed (trim_prefix k "the ") x h q) e
