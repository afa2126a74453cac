-- ===== src/Text/Bytes.antt =====
-- What the modules that walk through texts share of Go's `strings`. A text is the list of its code
-- points; the source cuts only at ASCII characters, where bytes and code points agree.
use museumscraper.Prelude.{
  ◌≡◌, refl, ◌↔◌, arith, ℕ, String, Bool, true, false, ◌&&◌, ◌||◌, List, [], ◌∷◌, ◌++◌, leb, ◌==◌,
  if◌then◌else◌,
}
use Prim.Native.Char.{code}

abbrev pub Bytes : Type 0
Bytes = List ℕ

-- The code points of a literal.
abbrev pub codes : String → Bytes
codes String.[] = []
codes (String.◌∷◌ c s) = code c ∷ codes s

-- `a == b` on texts.
unfoldable pub equal : Bytes → Bytes → Bool
equal [] [] = true
equal [] (y ∷ b) = false
equal (x ∷ a) [] = false
equal (x ∷ a) (y ∷ b) = x == y && equal a b

-- strings.HasPrefix
unfoldable pub has_prefix : Bytes → Bytes → Bool
has_prefix s [] = true
has_prefix [] (p ∷ ps) = false
has_prefix (c ∷ s) (p ∷ ps) = c == p && has_prefix s ps

-- strings.Contains
unfoldable pub contains : Bytes → Bytes → Bool
unfolding has_prefix
contains [] sub = has_prefix [] sub
contains (c ∷ s) sub = has_prefix (c ∷ s) sub || contains s sub

-- unicode.IsSpace
unfoldable pub is_space : ℕ → Bool
is_space n =
    (leb 9 n && leb n 13)
    || n == 32
    || n == 133
    || n == 160
    || n == 5760
    || (leb 8192 n && leb n 8202)
    || n == 8232
    || n == 8233
    || n == 8239
    || n == 8287
    || n == 12288

unfoldable pub all_space : Bytes → Bool
unfolding is_space
all_space [] = true
all_space (c ∷ s) = is_space c && all_space s

unfoldable pub trim_left : Bytes → Bytes
unfolding is_space
trim_left [] = []
trim_left (c ∷ s) = let rest = trim_left s in if is_space c then rest else c ∷ s

unfoldable pub trim_right : Bytes → Bytes
unfolding all_space
trim_right [] = []
trim_right (c ∷ s) = let rest = trim_right s in if all_space (c ∷ s) then [] else c ∷ rest

-- strings.TrimSpace
unfoldable pub trim : Bytes → Bytes
unfolding trim_left trim_right
trim s = trim_right (trim_left s)

-- strings.Join
abbrev pub join : Bytes → List Bytes → Bytes
join sep [] = []
join sep (a ∷ []) = a
join sep (a ∷ b ∷ bs) = a ++ sep ++ join sep (b ∷ bs)

-- strings.Fields, with the word that the loop is in.
unfoldable pub fields_from : Bytes → Bytes → List Bytes
fields_from [] [] = []
fields_from (w ∷ ws) [] = (w ∷ ws) ∷ []
fields_from [] (c ∷ s) =
    let rest = fields_from [] s in
    let on = fields_from (c ∷ []) s in if is_space c then rest else on
fields_from (w ∷ ws) (c ∷ s) =
    let rest = fields_from [] s in
    let on = fields_from (w ∷ ws ++ c ∷ []) s in if is_space c then (w ∷ ws) ∷ rest else on

unfoldable pub fields : Bytes → List Bytes
fields s = fields_from [] s

unfoldable pub among : List Bytes → Bytes → Bool
among [] a = false
among (b ∷ bs) a = equal b a || among bs a

pub equal_iff : (a b : Bytes) → (equal a b ≡ true) ↔ (a ≡ b)
unfolding equal
equal_iff [] [] = ((λ h. refl), λ h. refl)
equal_iff [] (y ∷ b) = ground arith
equal_iff (x ∷ a) [] = ground arith
equal_iff (x ∷ a) (y ∷ b) = ground (arith, equal_iff a b)
