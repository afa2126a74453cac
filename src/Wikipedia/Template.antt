-- ===== src/Wikipedia/Template.antt =====
-- pkg/wikipedia/wikitext.go: stripTemplates, which takes templates out of a page.
use museumscraper.Prelude.{
  ℕ, zero, suc, ◌+◌, ◌-◌, ◌≡◌, refl, ap, ◌∙◌, ◌⊎◌, inl, inr, Bool, true, false, not, ◌&&◌, [], ◌∷◌,
  arith, ltb, ◌==◌, if◌then◌else◌, ==_iff, Bool-cases,
}
use mathlib.Core.Path.{subst}
use museumscraper.Text.Bytes.{Bytes}

-- The switch for two characters: past both with a new depth, or past the first.
pub data Brace : Type 0 where
  nests : (depth : ℕ) → Brace
  plain : Brace

unfoldable pub brace : (depth : ℕ) → ℕ → ℕ → Brace
brace depth c d =
    if c == b'{' && d == b'{'
    then nests (depth + 1)
    else if c == b'}' && d == b'}' && ltb 0 depth
    then nests (depth - 1)
    else plain

abbrev pub emit : (depth : ℕ) → ℕ → Bytes × ℕ → Bytes × ℕ
emit depth c p = (if depth == 0 then c ∷ p.0 else p.0, p.1)

-- The loop: what is written, and the depth at the end.
unfoldable pub strip_from : (depth : ℕ) → Bytes → Bytes × ℕ
unfolding brace
strip_from depth [] = ([], depth)
strip_from depth (c ∷ []) = emit depth c ([], depth)
strip_from depth (c ∷ d ∷ s) = elim (brace depth c d) [
  | nests n ↦ strip_from n s
  | plain ↦ emit depth c (strip_from depth (d ∷ s))
]

unfoldable pub strip_templates : Bytes → Bytes
unfolding strip_from
strip_templates s = let (out, depth) = strip_from 0 s in if depth == 0 then out else s

Brace-cases : (b : Brace) → ((n : ℕ) × (b ≡ nests n)) ⊎ (b ≡ plain)
Brace-cases (nests n) = inl (n, refl)
Brace-cases plain = inr refl

-- No two opening braces stand together.
abbrev pub is_free : Bytes → Bool
is_free [] = true
is_free (c ∷ []) = true
is_free (c ∷ d ∷ s) = not (c == b'{' && d == b'{') && is_free (d ∷ s)

brace-free : (c d : ℕ) → (c == b'{' && d == b'{') ≡ false → brace 0 c d ≡ plain
unfolding brace
brace-free c d h = ground (arith, h)

brace-plain : (depth c d : ℕ) → brace depth c d ≡ plain → (c == b'{' && d == b'{') ≡ false
unfolding brace
brace-plain depth c d h = ground (arith, h)

strip_from-free : (s : Bytes) → is_free s ≡ true → strip_from 0 s ≡ (s, 0)
unfolding strip_from
strip_from-free [] h = refl
strip_from-free (c ∷ []) h = refl
strip_from-free (c ∷ d ∷ s) h = elim (Bool-cases (c == b'{' && d == b'{')) [
  | inl y ↦ absurd (ground (arith, h, y))
  | inr n ↦
      rw (strip_from, brace-free c d n)
        (ap (emit 0 c) (strip_from-free (d ∷ s) (ground (arith, h, n))))
]

-- What stands before a brace that is not doubled is written as it is.
strip_from-head :
    (d : ℕ) (s : Bytes) → (d == b'{') ≡ false → (r : Bytes) × ((strip_from 0 (d ∷ s)).0 ≡ d ∷ r)
unfolding strip_from
strip_from-head d [] h = ([], refl)
strip_from-head d (e ∷ s) h =
    rw (strip_from, brace-free d e (ground (arith, h))) ((strip_from 0 (e ∷ s)).0, refl)

is_free-cons :
    (c d : ℕ) (r : Bytes)
    → (c == b'{' && d == b'{') ≡ false
    → is_free (d ∷ r) ≡ true
    → is_free (c ∷ d ∷ r) ≡ true
is_free-cons c d r h k = ground (arith, h, k)

is_free-other :
    (c : ℕ) (r : Bytes) → (c == b'{') ≡ false → is_free r ≡ true → is_free (c ∷ r) ≡ true
is_free-other c [] h k = refl
is_free-other c (d ∷ r) h k = ground (arith, h, k)

-- A character written before what the rest of the text gives.
emit-is_free :
    (c d : ℕ) (s : Bytes)
    → (c == b'{' && d == b'{') ≡ false
    → is_free (strip_from 0 (d ∷ s)).0 ≡ true
    → is_free (c ∷ (strip_from 0 (d ∷ s)).0) ≡ true
emit-is_free c d s h k = elim (Bool-cases (d == b'{')) [
  | inl y ↦ is_free-other c (strip_from 0 (d ∷ s)).0 (ground (arith, h, y)) k
  | inr n ↦
      let (r, q) = strip_from-head d s n in
      rw q (is_free-cons c d r h (subst (λ t. is_free t ≡ true) q k))
]

suc_not_zero : (n : ℕ) → (suc n == 0) ≡ false
suc_not_zero n = ground arith

strip_from-is_free : (depth : ℕ) (s : Bytes) → is_free (strip_from depth s).0 ≡ true
unfolding strip_from
strip_from-is_free depth [] = refl
strip_from-is_free depth (c ∷ []) = ground arith
strip_from-is_free zero (c ∷ d ∷ s) = elim (Brace-cases (brace 0 c d)) [
  | inl (n, e) ↦ rw (strip_from, e) (strip_from-is_free n s)
  | inr e ↦
      rw (strip_from, e) (emit-is_free c d s (brace-plain 0 c d e) (strip_from-is_free 0 (d ∷ s)))
]
strip_from-is_free (suc depth) (c ∷ d ∷ s) = elim (Brace-cases (brace (suc depth) c d)) [
  | inl (n, e) ↦ rw (strip_from, e) (strip_from-is_free n s)
  | inr e ↦ rw (strip_from, e, suc_not_zero depth) (strip_from-is_free (suc depth) (d ∷ s))
]

strip_templates-balanced :
    (s : Bytes) → (strip_from 0 s).1 ≡ 0 → strip_templates s ≡ (strip_from 0 s).0
unfolding strip_templates
strip_templates-balanced s h = rw h refl

strip_templates-unbalanced : (s : Bytes) → ((strip_from 0 s).1 == 0) ≡ false → strip_templates s ≡ s
unfolding strip_templates
strip_templates-unbalanced s h = rw h refl

-- Taking the templates out once is enough: what is left holds no opening `{{`, and a page whose
-- braces do not balance is returned as it was, so a second run changes nothing.
pub strip_templates-strip_templates :
    (s : Bytes) → strip_templates (strip_templates s) ≡ strip_templates s
strip_templates-strip_templates s = elim (Bool-cases ((strip_from 0 s).1 == 0)) [
  | inl y ↦
      let out = strip_from-free (strip_from 0 s).0 (strip_from-is_free 0 s) in
      rw (strip_templates-balanced s ((==_iff (strip_from 0 s).1 0).0 y))
        (strip_templates-balanced (strip_from 0 s).0 (ap (λ p. p.1) out) ∙ ap (λ p. p.0) out)
  | inr n ↦ ap strip_templates (strip_templates-unbalanced s n)
]
