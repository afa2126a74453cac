-- ===== src/Collect/Clean.antt =====
-- internal/collect/merge.go: CleanName leaves no character that cannot be seen.
use museumscraper.Prelude.{String, ◌≡◌, inl, inr, Bool, true, false, not, ◌&&◌, arith, Bool-cases}
use Prim.Native.Char.{Char}
use Prim.Native.String.{[] as empty, ◌∷◌ as cons}
use museumscraper.Text.{is_space, is_blank}
use museumscraper.Collect.{
  Unicode, space, is_separator, collapse, trim_left, trim_right, strip, clean_name,
}

-- Every character of a text passes a test.
abbrev pub IsAll : (Char → Bool) → String → Type 0
IsAll p empty = Unit
IsAll p (cons c s) = (p c ≡ true) × IsAll p s

IsAll-collapse :
    (p : Char → Bool) (w : Bool) (s : String) → p space ≡ true → IsAll p s → IsAll p (collapse w s)
unfolding collapse
IsAll-collapse p w empty h a = tt
IsAll-collapse p w (cons c s) h (b, a) =
    let run = IsAll-collapse p true s h a in
    let rest = IsAll-collapse p false s h a in ground (arith, run, rest)

IsAll-trim_left : (p : Char → Bool) (s : String) → IsAll p s → IsAll p (trim_left s)
unfolding trim_left
IsAll-trim_left p empty a = tt
IsAll-trim_left p (cons c s) (b, a) = elim (Bool-cases (is_space c)) [
  | inl y ↦ rw y (IsAll-trim_left p s a)
  | inr n ↦ rw n (b, a)
]

IsAll-trim_right : (p : Char → Bool) (s : String) → IsAll p s → IsAll p (trim_right s)
unfolding trim_right
IsAll-trim_right p empty a = tt
IsAll-trim_right p (cons c s) (b, a) = elim (Bool-cases (is_blank (cons c s))) [
  | inl y ↦ rw y tt
  | inr n ↦ rw n (b, IsAll-trim_right p s a)
]

-- Neither a format character, nor a line or paragraph separator, nor a control character.
abbrev pub is_visible : Unicode → Char → Bool
is_visible u c = not (u.is_format c) && not (is_separator c) && not (u.is_control c)

IsAll-strip :
    (u : Unicode) (s : String) → is_visible u space ≡ true → IsAll (is_visible u) (strip u s)
unfolding strip
IsAll-strip u empty h = tt
IsAll-strip u (cons c s) h = let ih = IsAll-strip u s h in ground (arith, ih)

-- A cleaned name holds no format character, no line or paragraph separator and no control character, if
-- a space is none of them.
pub clean_name-IsAll :
    (u : Unicode) (name : String)
    → is_visible u space ≡ true
    → IsAll (is_visible u) (clean_name u name)
unfolding clean_name
clean_name-IsAll u name h =
    let p = is_visible u in
    IsAll-trim_right p _
      (IsAll-trim_left p _ (IsAll-collapse p false _ h (IsAll-strip u (u.unescape name) h)))
