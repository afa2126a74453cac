-- ===== src/Exhibitions/Links/Ranking.antt =====
-- pkg/exhibitions/extract.go and permanent.go: the choice of the links, and their order.
use museumscraper.Prelude.{
  ◌≡◌, refl, inl, inr, Bool, true, false, ◌&&◌, ◌||◌, List, [], ◌∷◌, arith, leb, Bool-cases, All,
}
use museumscraper.Text.Bytes.{Bytes, among, equal, equal_iff}
use museumscraper.Text.Distinct.{IsDistinct}
use museumscraper.Exhibitions.Links.{Scored, insert_scored, sort_scored, urls_of}

-- No link of the list has a higher score.
abbrev pub none_higher : Scored → List Scored → Bool
none_higher l [] = true
none_higher l (m ∷ ms) = leb m.score l.score && none_higher l ms

abbrev pub is_ranked : List Scored → Bool
is_ranked [] = true
is_ranked (l ∷ ls) = none_higher l ls && is_ranked ls

none_higher-insert :
    (m l : Scored) (ls : List Scored)
    → none_higher m (insert_scored l ls) ≡ (leb l.score m.score && none_higher m ls)
unfolding insert_scored
none_higher-insert m l [] = refl
none_higher-insert m l (n ∷ ls) = elim (Bool-cases (leb l.score n.score)) [
  | inl y ↦ rw (insert_scored, y) (ground (arith, none_higher-insert m l ls))
  | inr k ↦ rw (insert_scored, k) refl
]

none_higher_trans :
    (l m : Scored) (ls : List Scored)
    → leb l.score m.score ≡ false
    → none_higher m ls ≡ true
    → none_higher l ls ≡ true
none_higher_trans l m [] h k = refl
none_higher_trans l m (n ∷ ls) h k =
    ground (arith, h, k, none_higher_trans l m ls h (ground (arith, k)))

insert-is_ranked :
    (l : Scored) (ls : List Scored) → is_ranked ls ≡ true → is_ranked (insert_scored l ls) ≡ true
unfolding insert_scored
insert-is_ranked l [] h = refl
insert-is_ranked l (m ∷ ls) h = elim (Bool-cases (leb l.score m.score)) [
  | inl y ↦
      rw (insert_scored, y)
        (ground (arith, h, y, none_higher-insert m l ls, insert-is_ranked l ls (ground (arith, h))))
  | inr k ↦
      rw (insert_scored, k) (ground (arith, h, k, none_higher_trans l m ls k (ground (arith, h))))
]

sort-is_ranked :
    (ls ordered : List Scored)
    → is_ranked ordered ≡ true
    → is_ranked (sort_scored ordered ls) ≡ true
unfolding sort_scored
sort-is_ranked [] ordered h = h
sort-is_ranked (l ∷ ls) ordered h =
    sort-is_ranked ls (insert_scored l ordered) (insert-is_ranked l ordered h)

All-insert :
    (P : Scored → Type 0) (l : Scored) (ls : List Scored)
    → P l
    → All P ls
    → All P (insert_scored l ls)
unfolding insert_scored
All-insert P l [] p h = (p, tt)
All-insert P l (m ∷ ls) p (q, h) = elim (Bool-cases (leb l.score m.score)) [
  | inl y ↦ rw (insert_scored, y) (q, All-insert P l ls p h)
  | inr k ↦ rw (insert_scored, k) (p, (q, h))
]

All-sort :
    (P : Scored → Type 0) (ls ordered : List Scored)
    → All P ls
    → All P ordered
    → All P (sort_scored ordered ls)
unfolding sort_scored
All-sort P [] ordered h k = k
All-sort P (l ∷ ls) ordered (p, h) k =
    All-sort P ls (insert_scored l ordered) h (All-insert P l ordered p k)

urls-insert :
    (l : Scored) (ls : List Scored) (u : Bytes)
    → among (urls_of (insert_scored l ls)) u ≡ (equal l.url u || among (urls_of ls) u)
unfolding insert_scored urls_of among
urls-insert l [] u = refl
urls-insert l (m ∷ ls) u = elim (Bool-cases (leb l.score m.score)) [
  | inl y ↦ rw (insert_scored, y) (ground (arith, urls-insert l ls u))
  | inr k ↦ rw (insert_scored, k) refl
]

pub urls-sort :
    (ls ordered : List Scored) (u : Bytes)
    → among (urls_of (sort_scored ordered ls)) u
      ≡ (among (urls_of ordered) u || among (urls_of ls) u)
unfolding sort_scored urls_of among
urls-sort [] ordered u = ground arith
urls-sort (l ∷ ls) ordered u =
    ground (arith, urls-sort ls (insert_scored l ordered) u, urls-insert l ordered u)

insert-IsDistinct :
    (l : Scored) (ls : List Scored)
    → among (urls_of ls) l.url ≡ false
    → IsDistinct (urls_of ls)
    → IsDistinct (urls_of (insert_scored l ls))
unfolding insert_scored urls_of among
insert-IsDistinct l [] n d = (refl, tt)
insert-IsDistinct l (m ∷ ls) n (k, d) = elim (Bool-cases (leb l.score m.score)) [
  | inl y ↦
      rw (insert_scored, y)
        (
          ground
              (arith, n, k, urls-insert l ls m.url, equal_iff l.url m.url, equal_iff m.url l.url),
          insert-IsDistinct l ls (ground (arith, n)) d,
        )
  | inr e ↦ rw (insert_scored, e) (n, (k, d))
]

-- No address of the one list is one of the other.
abbrev AreApart : List Scored → List Scored → Type 0
AreApart [] ordered = Unit
AreApart (l ∷ ls) ordered = (among (urls_of ordered) l.url ≡ false) × AreApart ls ordered

AreApart-insert :
    (l : Scored) (ls ordered : List Scored)
    → among (urls_of ls) l.url ≡ false
    → AreApart ls ordered
    → AreApart ls (insert_scored l ordered)
unfolding urls_of among
AreApart-insert l [] ordered n a = tt
AreApart-insert l (m ∷ ls) ordered n (k, a) = (
  ground (arith, n, k, urls-insert l ordered m.url, equal_iff l.url m.url, equal_iff m.url l.url),
  AreApart-insert l ls ordered (ground (arith, n)) a,
)

AreApart-nil : (ls : List Scored) → AreApart ls []
unfolding urls_of among
AreApart-nil [] = tt
AreApart-nil (l ∷ ls) = (refl, AreApart-nil ls)

sort-IsDistinct :
    (ls ordered : List Scored)
    → AreApart ls ordered
    → IsDistinct (urls_of ls)
    → IsDistinct (urls_of ordered)
    → IsDistinct (urls_of (sort_scored ordered ls))
unfolding sort_scored urls_of
sort-IsDistinct [] ordered a d o = o
sort-IsDistinct (l ∷ ls) ordered (n, a) (k, d) o =
    sort-IsDistinct ls (insert_scored l ordered) (AreApart-insert l ls ordered k a) d
      (insert-IsDistinct l ordered n o)

-- The links that are ranked: no address twice, the highest score first, and each with the property.
pub record IsRanking (P : Scored → Type 0) (ls : List Scored) : Type 0 where
  pub apart : IsDistinct (urls_of ls)
  pub ranked : is_ranked ls ≡ true
  pub each : All P ls

pub sort-IsRanking :
    (P : Scored → Type 0) (ls : List Scored)
    → IsDistinct (urls_of ls)
    → All P ls
    → IsRanking P (sort_scored [] ls)
unfolding urls_of
sort-IsRanking P ls d h = record {
  apart = sort-IsDistinct ls [] (AreApart-nil ls) d tt;
  ranked = sort-is_ranked ls [] refl;
  each = All-sort P ls [] h tt;
}
