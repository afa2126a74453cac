-- ===== src/Exhibitions/Title/Untagged.antt =====
-- pkg/exhibitions/extract.go: the steps of cleanTitle add no characters but spaces.
use museumscraper.Prelude.{
  ℕ, zero, suc, ◌-◌, String, ◌≡◌, refl, inl, inr, Bool, true, false, not, ◌&&◌, Option, none, some,
  List, [], ◌∷◌, arith, ltb, leb, Held, ◌==◌, if◌then◌else◌, Bool-cases, length, take, drop,
}
use museumscraper.Prelude.{if-keeps}
use museumscraper.Prelude.{if-keeps}
use mathlib.Core.Option
use museumscraper.Text.Bytes.{Bytes, codes, trim, trim_left, trim_right, is_space}
use museumscraper.Exhibitions.Page.{collapse_from, byte_length, is_ascii_space}
use museumscraper.Exhibitions.Title.{
  strip_markup, trim_left_if, trim_right_if, is_label_gap, index, if_long, after_label, cut_space,
  cut_bytes, cut_at, cut_tails,
}

-- No character of the text opens a tag.
abbrev pub is_untagged : Bytes → Bool
is_untagged [] = true
is_untagged (c ∷ s) = not (c == b'<') && is_untagged s

pub strip_markup-untagged : (inside : Bool) (s : Bytes) → is_untagged (strip_markup inside s) ≡ true
unfolding strip_markup
strip_markup-untagged inside [] = refl
strip_markup-untagged false (c ∷ s) = elim (Bool-cases (c == b'<')) [
  | inl y ↦ rw (strip_markup, y) (strip_markup-untagged true s)
  | inr n ↦ rw (strip_markup, n, n) (strip_markup-untagged false s)
]
strip_markup-untagged true (c ∷ s) = elim (Bool-cases (c == b'>')) [
  | inl y ↦ rw (strip_markup, y) (strip_markup-untagged false s)
  | inr n ↦ rw (strip_markup, n) (strip_markup-untagged true s)
]

pub collapse_from-untagged :
    (run : Bool) (s : Bytes) → is_untagged s ≡ true → is_untagged (collapse_from run s) ≡ true
unfolding collapse_from
collapse_from-untagged run [] h = refl
collapse_from-untagged run (c ∷ s) h = elim (Bool-cases (is_ascii_space c)) [
  | inl y ↦
      let rest = collapse_from-untagged true s (ground (arith, h)) in
      rw (collapse_from, y)
        (if-keeps (λ (t : Bytes). is_untagged t ≡ true) run (collapse_from true s)
          (32 ∷ collapse_from true s) rest rest)
  | inr n ↦
      rw (collapse_from, n) (ground (arith, h, collapse_from-untagged false s (ground (arith, h))))
]

pub trim_left-untagged : (s : Bytes) → is_untagged s ≡ true → is_untagged (trim_left s) ≡ true
unfolding trim_left is_space
trim_left-untagged [] h = refl
trim_left-untagged (c ∷ s) h = ground (arith, h, trim_left-untagged s (ground (arith, h)))

pub trim_right-untagged : (s : Bytes) → is_untagged s ≡ true → is_untagged (trim_right s) ≡ true
unfolding trim_right
trim_right-untagged [] h = refl
trim_right-untagged (c ∷ s) h = ground (arith, h, trim_right-untagged s (ground (arith, h)))

pub trim-untagged : (s : Bytes) → is_untagged s ≡ true → is_untagged (trim s) ≡ true
unfolding trim
trim-untagged s h = trim_right-untagged (trim_left s) (trim_left-untagged s h)

pub trim_left_if-untagged :
    (p : ℕ → Bool) (s : Bytes) → is_untagged s ≡ true → is_untagged (trim_left_if p s) ≡ true
unfolding trim_left_if
trim_left_if-untagged p [] h = refl
trim_left_if-untagged p (c ∷ s) h = ground (arith, h, trim_left_if-untagged p s (ground (arith, h)))

pub trimmed_step :
    (p : ℕ → Bool) (c : ℕ) (r : Bytes)
    → (c == b'<') ≡ false
    → is_untagged r ≡ true
    → is_untagged (elim r [ [] ↦ if p c then [] else c ∷ [] | d ∷ t ↦ c ∷ d ∷ t ]) ≡ true
trimmed_step p c [] h k =
    if-keeps (λ (t : Bytes). is_untagged t ≡ true) (p c) [] (c ∷ []) refl (ground (arith, h))
trimmed_step p c (d ∷ t) h k = ground (arith, h, k)

pub trim_right_if-untagged :
    (p : ℕ → Bool) (s : Bytes) → is_untagged s ≡ true → is_untagged (trim_right_if p s) ≡ true
unfolding trim_right_if
trim_right_if-untagged p [] h = refl
trim_right_if-untagged p (c ∷ s) h =
    trimmed_step p c (trim_right_if p s) (ground (arith, h))
      (trim_right_if-untagged p s (ground (arith, h)))

pub take-untagged : (n : ℕ) (s : Bytes) → is_untagged s ≡ true → is_untagged (take n s) ≡ true
take-untagged zero s h = refl
take-untagged (suc n) [] h = refl
take-untagged (suc n) (c ∷ s) h = ground (arith, h, take-untagged n s (ground (arith, h)))

pub drop-untagged : (n : ℕ) (s : Bytes) → is_untagged s ≡ true → is_untagged (drop n s) ≡ true
drop-untagged zero s h = h
drop-untagged (suc n) [] h = refl
drop-untagged (suc n) (c ∷ s) h = drop-untagged n s (ground (arith, h))

pub if_long-untagged :
    (rest title : Bytes)
    → is_untagged rest ≡ true
    → is_untagged title ≡ true
    → is_untagged (if_long rest title) ≡ true
if_long-untagged rest title h k =
    if-keeps (λ (t : Bytes). is_untagged t ≡ true) (leb 4 (length rest)) rest title h k

pub after_label-untagged :
    (title : Bytes) (o : Option ℕ)
    → is_untagged title ≡ true
    → is_untagged (after_label title o) ≡ true
unfolding after_label
after_label-untagged title none h = h
after_label-untagged title (some i) h =
    if_long-untagged (trim_left_if is_label_gap (drop i title)) title
      (trim_left_if-untagged is_label_gap (drop i title) (drop-untagged i title h)) h

-- The second part of a cut.
abbrev pub IsUntagged : Bytes × Bytes → Type 0
IsUntagged p = is_untagged p.1 ≡ true

pub map-IsUntagged :
    (c : ℕ) (o : Option (Bytes × Bytes))
    → Held IsUntagged o
    → Held IsUntagged (Option.map (λ (p : Bytes × Bytes). (c ∷ p.0, p.1)) o)
map-IsUntagged c none h = tt
map-IsUntagged c (some p) h = h

pub cut_space-IsUntagged : (s : Bytes) → is_untagged s ≡ true → Held IsUntagged (cut_space s)
unfolding cut_space
cut_space-IsUntagged [] h = tt
cut_space-IsUntagged (c ∷ s) h = elim (Bool-cases (c == 32)) [
  | inl y ↦ rw (cut_space, y) (ground (arith, h))
  | inr n ↦
      rw (cut_space, n)
        (map-IsUntagged c (cut_space s) (cut_space-IsUntagged s (ground (arith, h))))
]

pub cut_bytes-IsUntagged :
    (n : ℕ) (s : Bytes) → is_untagged s ≡ true → Held IsUntagged (cut_bytes n s)
unfolding cut_bytes
cut_bytes-IsUntagged zero s h = h
cut_bytes-IsUntagged (suc n) [] h = tt
cut_bytes-IsUntagged (suc n) (c ∷ s) h = elim (Bool-cases (ltb (suc n) (byte_length (c ∷ [])))) [
  | inl y ↦ rw (cut_bytes, y) tt
  | inr k ↦
      let rest = cut_bytes (suc n - byte_length (c ∷ [])) s in
      rw (cut_bytes, k)
        (map-IsUntagged c rest
          (cut_bytes-IsUntagged (suc n - byte_length (c ∷ [])) s (ground (arith, h))))
]

pub cut_at-untagged :
    (title : Bytes) (o : Option ℕ) → is_untagged title ≡ true → is_untagged (cut_at title o) ≡ true
unfolding cut_at
cut_at-untagged title none h = h
cut_at-untagged title (some i) h =
    if-keeps (λ (t : Bytes). is_untagged t ≡ true) (ltb 3 (byte_length (take i title)))
      (take i title) title (take-untagged i title h) h

pub cut_tails-untagged :
    (tails : List String) (title : Bytes)
    → is_untagged title ≡ true
    → is_untagged (cut_tails tails title) ≡ true
unfolding cut_tails
cut_tails-untagged [] title h = h
cut_tails-untagged (tail ∷ tails) title h =
    cut_tails-untagged tails (cut_at title (index title (codes tail)))
      (cut_at-untagged title (index title (codes tail)) h)

-- The first and the last character of a text.
abbrev pub starts_apart : (ℕ → Bool) → Bytes → Bool
starts_apart p [] = true
starts_apart p (c ∷ s) = not (p c)

abbrev pub ends_apart : (ℕ → Bool) → Bytes → Bool
ends_apart p [] = true
ends_apart p (c ∷ []) = not (p c)
ends_apart p (c ∷ d ∷ s) = ends_apart p (d ∷ s)

pub trim_left_if-apart : (p : ℕ → Bool) (s : Bytes) → starts_apart p (trim_left_if p s) ≡ true
unfolding trim_left_if
trim_left_if-apart p [] = refl
trim_left_if-apart p (c ∷ s) = elim (Bool-cases (p c)) [
  | inl y ↦ rw (trim_left_if, y) (trim_left_if-apart p s)
  | inr n ↦ rw (trim_left_if, n, n) refl
]

pub end_step :
    (p : ℕ → Bool) (c : ℕ) (r : Bytes)
    → ends_apart p r ≡ true
    → ends_apart p (elim r [ [] ↦ if p c then [] else c ∷ [] | d ∷ t ↦ c ∷ d ∷ t ]) ≡ true
end_step p c [] k = elim (Bool-cases (p c)) [ inl y ↦ rw y refl | inr n ↦ rw (n, n) refl ]
end_step p c (d ∷ t) k = k

pub trim_right_if-apart : (p : ℕ → Bool) (s : Bytes) → ends_apart p (trim_right_if p s) ≡ true
unfolding trim_right_if
trim_right_if-apart p [] = refl
trim_right_if-apart p (c ∷ s) = end_step p c (trim_right_if p s) (trim_right_if-apart p s)

pub start_step :
    (p : ℕ → Bool) (c : ℕ) (r : Bytes)
    → p c ≡ false
    → starts_apart p (elim r [ [] ↦ if p c then [] else c ∷ [] | d ∷ t ↦ c ∷ d ∷ t ]) ≡ true
start_step p c [] k = rw (k, k) refl
start_step p c (d ∷ t) k = rw k refl

pub trim_right_if-start :
    (p : ℕ → Bool) (s : Bytes) → starts_apart p s ≡ true → starts_apart p (trim_right_if p s) ≡ true
unfolding trim_right_if
trim_right_if-start p [] h = refl
trim_right_if-start p (c ∷ s) h = start_step p c (trim_right_if p s) (ground (arith, h))
