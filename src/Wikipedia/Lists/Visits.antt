-- ===== src/Wikipedia/Lists/Visits.antt =====
-- pkg/wikipedia/processor.go: the titles that a crawl has visited, counted.
use museumscraper.Prelude.{
  ℕ, ◌+◌, ◌≤◌, ◌<◌, String, ◌≡◌, ap, inl, inr, true, false, List, [], ◌∷◌, arith, if◌then◌else◌,
  Bool-cases, length,
}
use text.Mathlib.Text.{◌==◌ as str_eq}
use text.Mathlib.TextEquality.{eq_iff}
use museumscraper.Collect.{contains as has}

-- How many of the titles were not visited.
abbrev pub unvisited : List String → List String → ℕ
unvisited [] visited = 0
unvisited (t ∷ ts) visited = unvisited ts visited + (if has visited t then 0 else 1)

abbrev pub Grows : List String → List String → Type 0
Grows a b = (x : String) → has a x ≡ true → has b x ≡ true

pub unvisited-Grows : (ts a b : List String) → Grows a b → unvisited ts b ≤ unvisited ts a
unvisited-Grows [] a b h = omega arith
unvisited-Grows (t ∷ ts) a b h = elim (Bool-cases (has a t)) [
  | inl y ↦ rw (y, h t y) (omega (arith, unvisited-Grows ts a b h))
  | inr n ↦ rw n (ground (arith, unvisited-Grows ts a b h))
]

pub Grows-cons : (x : String) (a : List String) → Grows a (x ∷ a)
unfolding has
Grows-cons x a y h = ground (arith, h)

pub unvisited-length : (ts visited : List String) → unvisited ts visited ≤ length ts
unvisited-length [] visited = omega arith
unvisited-length (t ∷ ts) visited = ground (arith, unvisited-length ts visited)

-- A visit to a title that was not visited leaves one fewer.
pub unvisited-visit :
    (ts : List String) (x : String) (a : List String)
    → has ts x ≡ true
    → has a x ≡ false
    → unvisited ts (x ∷ a) < unvisited ts a
unfolding has
unvisited-visit [] x a h n = absurd (ground (arith, h))
unvisited-visit (t ∷ ts) x a h n =
    let still = unvisited-Grows ts a (x ∷ a) (Grows-cons x a) in
    elim (Bool-cases (str_eq t x)) [
      | inl y ↦
          let same = (eq_iff t x).0 y in ground (arith, still, eq_iff x t, same, n, ap (has a) same)
      | inr m ↦
          let ih = unvisited-visit ts x a (ground (arith, h, m)) n in
          ground (arith, ih, eq_iff x t, eq_iff t x, m)
    ]
