-- ===== src/Search/Words.antt =====
-- internal/search/normalize.go: the words of a normalised text, and its terms.
use museumscraper.Prelude.{
  ℕ, ◌≡◌, refl, sym, ap, ◌∙◌, inl, inr, Bool, true, false, not, ◌&&◌, ◌||◌, List, [], ◌∷◌, ◌++◌,
  arith, Bool-cases, All,
}
use museumscraper.Text.Bytes.{Bytes, is_space, fields, fields_from, join, among, equal_iff}
use museumscraper.Text.Distinct.{IsDistinct, among-append, IsDistinct-append}
use museumscraper.Search.{Letters, separate, normalize, distinct, tokens}
use mathlib.Core.List.{append_assoc, append-nil}

abbrev pub no_space : Bytes → Bool
no_space [] = true
no_space (c ∷ s) = not (is_space c) && no_space s

-- A word holds a character, and no white space.
abbrev pub IsWord : Bytes → Type 0
IsWord [] = ⊥
IsWord (c ∷ s) = no_space (c ∷ s) ≡ true

no_space-is_space : (c : ℕ) (s : Bytes) → no_space (c ∷ s) ≡ true → is_space c ≡ false
no_space-is_space c s h = ground (arith, h)

no_space-append :
    (w : Bytes) (c : ℕ) → no_space w ≡ true → is_space c ≡ false → no_space (w ++ c ∷ []) ≡ true
no_space-append [] c h k = ground (arith, k)
no_space-append (x ∷ w) c h k = ground (arith, h, no_space-append w c (ground (arith, h)) k)

fields_from-IsWord : (w s : Bytes) → no_space w ≡ true → All IsWord (fields_from w s)
unfolding fields_from
fields_from-IsWord [] [] h = tt
fields_from-IsWord (w ∷ ws) [] h = (h, tt)
fields_from-IsWord [] (c ∷ s) h = elim (Bool-cases (is_space c)) [
  | inl y ↦ rw (fields_from, y) (fields_from-IsWord [] s refl)
  | inr n ↦ rw (fields_from, n) (fields_from-IsWord (c ∷ []) s (ground (arith, n)))
]
fields_from-IsWord (w ∷ ws) (c ∷ s) h = elim (Bool-cases (is_space c)) [
  | inl y ↦ rw (fields_from, y) (h, fields_from-IsWord [] s refl)
  | inr n ↦
      rw (fields_from, n) (fields_from-IsWord (w ∷ ws ++ c ∷ []) s (no_space-append (w ∷ ws) c h n))
]

-- A word at the front of what is left is read as a whole.
fields_from-append :
    (w x r : Bytes) → no_space x ≡ true → fields_from w (x ++ r) ≡ fields_from (w ++ x) r
unfolding fields_from
fields_from-append w [] r h = ap (λ v. fields_from v r) (sym (append-nil w))
fields_from-append [] (c ∷ x) r h =
    rw (fields_from, no_space-is_space c x h) (fields_from-append (c ∷ []) x r (ground (arith, h)))
fields_from-append (w ∷ ws) (c ∷ x) r h =
    rw (fields_from, no_space-is_space c x h)
      (fields_from-append (w ∷ ws ++ c ∷ []) x r (ground (arith, h))
        ∙ ap (λ v. fields_from v r) (append_assoc (w ∷ ws) (c ∷ []) x))

fields-IsWord : (w : Bytes) → IsWord w → fields w ≡ w ∷ []
unfolding fields fields_from
fields-IsWord [] h = elim h [ ]
fields-IsWord (c ∷ w) h = ap fields (sym (append-nil (c ∷ w))) ∙ fields_from-append [] (c ∷ w) [] h

fields-next : (w r : Bytes) → IsWord w → fields (w ++ b' ' ∷ [] ++ r) ≡ w ∷ fields r
unfolding fields fields_from is_space
fields-next [] r h = elim h [ ]
fields-next (c ∷ w) r h =
    ap fields (append_assoc (c ∷ w) (b' ' ∷ []) r) ∙ fields_from-append [] (c ∷ w) (b' ' ∷ r) h

-- Words joined by one space are found again.
fields-join : (ws : List Bytes) → All IsWord ws → fields (join (b' ' ∷ []) ws) ≡ ws
unfolding fields fields_from is_space
fields-join [] h = refl
fields-join (w ∷ []) h = fields-IsWord w (h.0)
fields-join (w ∷ x ∷ ws) (h, k) =
    fields-next w (join (b' ' ∷ []) (x ∷ ws)) h ∙ ap (λ vs. w ∷ vs) (fields-join (x ∷ ws) k)

-- The words of a normalised text are those of the text with separators: normalising keeps the words
-- and their order, and leaves one space between two.
normalize-fields :
    (l : Letters) (s : Bytes) → fields (normalize l s) ≡ fields (separate l (l.lower (l.fold s)))
unfolding normalize fields
normalize-fields l s =
    let t = separate l (l.lower (l.fold s)) in fields-join (fields t) (fields_from-IsWord [] t refl)

distinct-IsDistinct :
    (l : Letters) (held rest : List Bytes)
    → IsDistinct held
    → IsDistinct (distinct l held rest)
      × ((a : Bytes) → among (distinct l held rest) a ≡ (among held a || among rest a))
unfolding distinct among
distinct-IsDistinct l held [] d = (d, λ a. ground arith)
distinct-IsDistinct l held (x ∷ rest) d = elim (Bool-cases (among held x)) [
  | inl y ↦
      let (ih, same) = distinct-IsDistinct l held rest d in
      rw (distinct, y)
        (ih, λ a. ground (arith, same a, equal_iff x a, y, ap (among held) {x = x} {y = a}))
  | inr n ↦
      let (ih, same) = distinct-IsDistinct l (held ++ x ∷ []) rest (IsDistinct-append held x n d) in
      rw (distinct, n) (ih, λ a. ground (arith, same a, among-append held (x ∷ []) a))
]

-- The terms of a text are distinct, and are exactly the words of the folded text in lower case
-- with its separators.
pub tokens-IsDistinct :
    (l : Letters) (s : Bytes)
    → IsDistinct (tokens l s)
      × ((a : Bytes) → among (tokens l s) a ≡ among (fields (separate l (l.lower (l.fold s)))) a)
unfolding tokens among
tokens-IsDistinct l s =
    let (once, same) = distinct-IsDistinct l [] (fields (normalize l s)) tt in
    (once, λ a. same a ∙ ap (λ ws. among ws a) (normalize-fields l s))
