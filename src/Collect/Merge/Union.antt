-- ===== src/Collect/Merge/Union.antt =====
-- internal/collect/merge.go: the lists of a merged record, as sets.
use museumscraper.Prelude.{
  String, ◌≡◌, refl, ap, ◌∙◌, ◌≢◌, inl, inr, ◌||◌, List, [], ◌∷◌, ◌++◌, arith, Bool-cases,
}
use Prim.Native.String.{compare}
use text.Mathlib.Text.{◌==◌ as str_eq}
use text.Mathlib.TextEquality.{eq_iff}
use museumscraper.Collect.{Museum, Unicode, contains}
use museumscraper.Collect.Merge.{insert, sort, is_after, add_sources, add_classes, merge_into}

contains-append :
    (xs ys : List String) (s : String) → contains (xs ++ ys) s ≡ (contains xs s || contains ys s)
unfolding contains
contains-append [] ys s = refl
contains-append (x ∷ xs) ys s = ground (arith, contains-append xs ys s)

contains-insert :
    (a : String) (bs : List String) (s : String)
    → contains (insert a bs) s ≡ (str_eq a s || contains bs s)
unfolding contains insert
contains-insert a [] s = refl
contains-insert a (b ∷ bs) s =
    let ih = contains-insert a bs s in
    elim (Bool-cases (is_after (compare a b))) [ inl y ↦ rw y (ground (arith, ih)) | inr n ↦ rw n ]

contains-sort : (xs : List String) (s : String) → contains (sort xs) s ≡ contains xs s
unfolding contains sort
contains-sort [] s = refl
contains-sort (x ∷ xs) s =
    contains-insert x (sort xs) s ∙ ap (λ b. str_eq x s || b) (contains-sort xs s)

contains-add_sources :
    (held xs : List String) (s : String)
    → contains (add_sources held xs) s ≡ (contains held s || contains xs s)
unfolding contains add_sources
contains-add_sources held [] s = ground arith
contains-add_sources held (x ∷ xs) s = elim (Bool-cases (contains held x)) [
  | inl y ↦ rw y (
      ground
        (arith, contains-add_sources held xs s, eq_iff x s, ap (contains held) {x = x} {y = s}))
  | inr n ↦
      rw n (
        ground (arith, contains-add_sources (held ++ x ∷ []) xs s, contains-append held (x ∷ []) s))
]

contains-add_classes :
    (held xs : List String) (s : String)
    → s ≢ ""
    → contains (add_classes held xs) s ≡ (contains held s || contains xs s)
unfolding contains add_classes
contains-add_classes held [] s full = ground arith
contains-add_classes held (x ∷ xs) s full = elim (Bool-cases (str_eq x "")) [
  | inl blank ↦
      rw blank (ground (arith, contains-add_classes held xs s full, eq_iff x s, eq_iff x ""))
  | inr some_text ↦ elim (Bool-cases (contains held x)) [
    | inl y ↦
        rw (some_text, y)
          (ground (
            arith,
            contains-add_classes held xs s full,
            eq_iff x s,
            ap (contains held) {x = x} {y = s},
          ))
    | inr n ↦
        rw (some_text, n)
          (ground (
            arith,
            contains-add_classes (held ++ x ∷ []) xs s full,
            contains-append held (x ∷ []) s,
          ))
  ]
]

-- A merged record names exactly the sources that one of the two records names, and exactly their
-- classes, but for the empty text.
pub merge_into-union :
    (u : Unicode) (dst src : Museum) (s : String)
    → s ≢ ""
    → (contains (merge_into u dst src).sources s
        ≡ (contains dst.sources s || contains src.sources s))
      × (contains (merge_into u dst src).classes s
          ≡ (contains dst.classes s || contains src.classes s))
unfolding merge_into
merge_into-union u dst src s full = (
  contains-sort (add_sources dst.sources src.sources) s
      ∙ contains-add_sources dst.sources src.sources s,
  contains-sort (add_classes dst.classes src.classes) s
      ∙ contains-add_classes dst.classes src.classes s full,
)
