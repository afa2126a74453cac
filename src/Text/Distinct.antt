-- ===== src/Text/Distinct.antt =====
-- Lists of texts in which no text stands twice.
use museumscraper.Prelude.{◌≡◌, refl, true, false, ◌||◌, List, [], ◌∷◌, ◌++◌, arith}
use museumscraper.Text.Bytes.{Bytes, among, equal_iff}

abbrev pub IsDistinct : List Bytes → Type 0
IsDistinct [] = Unit
IsDistinct (x ∷ xs) = (among xs x ≡ false) × IsDistinct xs

pub among-append :
    (xs ys : List Bytes) (a : Bytes) → among (xs ++ ys) a ≡ (among xs a || among ys a)
unfolding among
among-append [] ys a = refl
among-append (x ∷ xs) ys a = ground (arith, among-append xs ys a)

pub IsDistinct-append :
    (xs : List Bytes) (x : Bytes) → among xs x ≡ false → IsDistinct xs → IsDistinct (xs ++ x ∷ [])
unfolding among
IsDistinct-append [] x h d = (refl, tt)
IsDistinct-append (y ∷ xs) x h (n, d) = (
  ground (arith, h, n, among-append xs (x ∷ []) y, equal_iff x y, equal_iff y x),
  IsDistinct-append xs x (ground (arith, h)) d,
)

pub IsDistinct-concat :
    (xs ys : List Bytes)
    → ((a : Bytes) → among xs a ≡ true → among ys a ≡ false)
    → IsDistinct xs
    → IsDistinct ys
    → IsDistinct (xs ++ ys)
unfolding among
IsDistinct-concat [] ys apart d e = e
IsDistinct-concat (x ∷ xs) ys apart (n, d) e = (
  ground (arith, n, among-append xs ys x, apart x (ground (arith, equal_iff x x))),
  IsDistinct-concat xs ys (λ a h. apart a (ground (arith, h))) d e,
)
