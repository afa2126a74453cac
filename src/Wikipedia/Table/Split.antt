-- ===== src/Wikipedia/Table/Split.antt =====
-- pkg/wikipedia/table.go: splitOutsideMarkup cuts a line and loses nothing of it.
use museumscraper.Prelude.{ℕ, ◌≡◌, refl, sym, ap, ◌∙◌, ◌⊎◌, inl, inr, List, [], ◌∷◌, ◌++◌, arith}
use mathlib.Core.List.{append_assoc, append-nil}
use museumscraper.Text.Bytes.{Bytes, join}
use museumscraper.Wikipedia.Table.{
  Move, jumps, separates, passes, move, split_from, split_outside_markup,
}

Move-cases : (m : Move) → ((l : ℕ) × (t : ℕ) × (m ≡ jumps l t)) ⊎ ((m ≡ separates) ⊎ (m ≡ passes))
Move-cases (jumps l t) = inl (l, t, refl)
Move-cases separates = inr (inl refl)
Move-cases passes = inr (inr refl)

-- A separator is found only where both characters are the separator's.
move-separates :
    (sep link template c d : ℕ)
    → move sep link template c d ≡ separates
    → (link ≡ 0) × (template ≡ 0) × (c ≡ sep) × (d ≡ sep)
unfolding move
move-separates sep link template c d h = ground (arith, h)

-- The loop always returns a first part.
split_from-cons :
    (sep link template : ℕ) (part s : Bytes)
    → (p : Bytes) × (ps : List Bytes) × (split_from sep link template part s ≡ p ∷ ps)
unfolding split_from
split_from-cons sep link template part [] = (part, [], refl)
split_from-cons sep link template part (c ∷ []) = (part ++ c ∷ [], [], refl)
split_from-cons sep link template part (c ∷ d ∷ s) =
    elim (Move-cases (move sep link template c d)) [
      | inl (l, t, e) ↦ rw (split_from, e) (split_from-cons sep l t (part ++ c ∷ d ∷ []) s)
      | inr (inl e) ↦ rw (split_from, e) (part, split_from sep link template [] s, refl)
      | inr (inr e) ↦
          rw (split_from, e) (split_from-cons sep link template (part ++ c ∷ []) (d ∷ s))
    ]

join-cons :
    (sep p : Bytes) (ps : List Bytes)
    → (q : Bytes) × (qs : List Bytes) × (ps ≡ q ∷ qs)
    → join sep (p ∷ ps) ≡ p ++ sep ++ join sep ps
join-cons sep p ps (q, qs, e) = rw e refl

join-split_from :
    (sep link template : ℕ) (part s : Bytes)
    → join (sep ∷ sep ∷ []) (split_from sep link template part s) ≡ part ++ s
unfolding split_from
join-split_from sep link template part [] = sym (append-nil part)
join-split_from sep link template part (c ∷ []) = refl
join-split_from sep link template part (c ∷ d ∷ s) =
    elim (Move-cases (move sep link template c d)) [
      | inl (l, t, e) ↦
          rw (split_from, e)
            (join-split_from sep l t (part ++ c ∷ d ∷ []) s ∙ append_assoc part (c ∷ d ∷ []) s)
      | inr (inl e) ↦
          let (_, _, same_c, same_d) = move-separates sep link template c d e in
          rw (split_from, e, same_c, same_d)
            (join-cons (sep ∷ sep ∷ []) part _ (split_from-cons sep link template [] s)
              ∙ append_assoc part (sep ∷ sep ∷ [])
                  (join (sep ∷ sep ∷ []) (split_from sep link template [] s))
              ∙ ap (λ r. part ++ sep ∷ sep ∷ r) (join-split_from sep link template [] s))
      | inr (inr e) ↦
          rw (split_from, e)
            (join-split_from sep link template (part ++ c ∷ []) (d ∷ s)
              ∙ append_assoc part (c ∷ []) (d ∷ s))
    ]

-- The parts of a line, joined by the separator, are the line, whatever markup it holds.
pub join-split_outside_markup :
    (s : Bytes) (sep : ℕ) → join (sep ∷ sep ∷ []) (split_outside_markup s sep) ≡ s
unfolding split_outside_markup
join-split_outside_markup s sep = join-split_from sep 0 0 [] s
