-- ===== src/Sweep/Runner/Fingerprint.antt =====
-- internal/sweep/runner.go: Fingerprint. Texts are lists of bytes; the layout of a date and the
-- hex SHA-256 are arguments.
use museumscraper.Prelude.{
  ℕ, ◌≡◌, refl, ap, ◌∙◌, Bool, true, false, ◌&&◌, Option, none, some, List, [], ◌∷◌, map, arith,
  ltb, ◌==◌, if◌then◌else◌, ℕ_discrete,
}
use museumscraper.Text.Bytes.{join}
use mathlib.Core.Path.{ap₂}
use mathlib.Core.Logic.{∥∥₁_elim}
use mathlib.Core.List.{Perm, Permᴰ}
use mathlib.Core.List.Permᴰ

-- Go compares strings byte by byte: `le a b` is a ≤ b.
unfoldable pub le : List ℕ → List ℕ → Bool
le [] b = true
le (x ∷ a) [] = false
le (x ∷ a) (y ∷ b) = if ltb x y then true else (x == y && le a b)

unfoldable pub insert : List ℕ → List (List ℕ) → List (List ℕ)
insert a [] = a ∷ []
insert a (b ∷ bs) = if le a b then a ∷ b ∷ bs else b ∷ insert a bs

-- What sort.Strings leaves, by insertion.
unfoldable pub sort : List (List ℕ) → List (List ℕ)
unfolding insert
sort [] = []
sort (a ∷ as') = insert a (sort as')

-- The fields of an exhibition that are digested.
pub record Entry : Type 0 where
  pub url : List ℕ
  pub title : List ℕ
  pub start : Option ℕ
  pub closing : Option ℕ
  pub permanent : Bool

abbrev pub print_bool : Bool → List ℕ
print_bool true = b't' ∷ b'r' ∷ b'u' ∷ b'e' ∷ []
print_bool false = b'f' ∷ b'a' ∷ b'l' ∷ b's' ∷ b'e' ∷ []

module _ (format : ℕ → List ℕ) (sha256_hex : List ℕ → List ℕ) where
  abbrev pub print_date : Option ℕ → List ℕ
  print_date none = []
  print_date (some t) = format t

  unfoldable pub line : Entry → List ℕ
  line e =
      join (0 ∷ [])
        (e.url ∷ e.title ∷ print_date e.start ∷ print_date e.closing ∷ print_bool e.permanent ∷ [])

  unfoldable pub fingerprint : List Entry → List ℕ
  unfolding line sort
  fingerprint found = sha256_hex (join (b'\n' ∷ []) (sort (map line found)))

le_total : (a b : List ℕ) → le a b ≡ false → le b a ≡ true
unfolding le
le_total [] b h = cc
le_total (x ∷ a) [] h = refl
le_total (x ∷ a) (y ∷ b) h = ground (arith, le_total a b)

le_antisymm : (a b : List ℕ) → le a b ≡ true → le b a ≡ true → a ≡ b
unfolding le
le_antisymm [] [] h k = refl
le_antisymm [] (y ∷ b) h k = cc
le_antisymm (x ∷ a) [] h k = cc
le_antisymm (x ∷ a) (y ∷ b) h k = ground (arith, le_antisymm a b)

le_trans : (a b c : List ℕ) → le a b ≡ true → le b c ≡ true → le a c ≡ true
unfolding le
le_trans [] b c h k = refl
le_trans (x ∷ a) [] c h k = cc
le_trans (x ∷ a) (y ∷ b) [] h k = cc
le_trans (x ∷ a) (y ∷ b) (z ∷ c) h k = ground (arith, le_trans a b c)

insert-insert :
    (a b : List ℕ) (cs : List (List ℕ)) → insert a (insert b cs) ≡ insert b (insert a cs)
unfolding insert
insert-insert a b [] = ground (arith, le_total a b, le_antisymm a b)
insert-insert a b (c ∷ cs) = ground (
  arith,
  le_total a b,
  le_antisymm a b,
  le_total b c,
  le_total a c,
  le_trans a b c,
  le_trans b a c,
  insert-insert a b cs,
)

sort-permᴰ : {xs ys : List (List ℕ)} → Permᴰ xs ys → sort xs ≡ sort ys
unfolding sort
sort-permᴰ Permᴰ.nil = refl
sort-permᴰ (Permᴰ.cons e p) = ap₂ insert e (sort-permᴰ p)
sort-permᴰ (Permᴰ.swap {a} {b} {l = l} e d) =
    insert-insert a b (sort l) ∙ ap₂ (λ x y. insert x (insert y (sort l))) d e
sort-permᴰ (Permᴰ.trans p q) = sort-permᴰ p ∙ sort-permᴰ q

texts_set : IsSet (List (List ℕ))
texts_set = hlevel ℕ_discrete

-- The order in which the entries come off a page does not change the fingerprint.
pub fingerprint-perm :
    (format : ℕ → List ℕ) (sha256_hex : List ℕ → List ℕ) {found found' : List Entry}
    → Perm found found'
    → fingerprint format sha256_hex found ≡ fingerprint format sha256_hex found'
unfolding fingerprint
fingerprint-perm format sha256_hex p =
    ap (λ ls. sha256_hex (join (b'\n' ∷ []) ls))
      (∥∥₁_elim p (texts_set _ _) (λ d. sort-permᴰ (Permᴰ.map (line format sha256_hex) d)))
