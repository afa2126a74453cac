-- ===== src/Wikipedia/Lists/Ends.antt =====
-- pkg/wikipedia/processor.go: the walk over the categories of the list pages ends.
use museumscraper.Prelude.{
  ℕ, zero, suc, ◌≤◌, ◌<◌, String, ◌≡◌, refl, sym, ap, ◌∙◌, inl, inr, true, false, not, ◌||◌, Option,
  some, List, [], ◌∷◌, arith, ◌==◌, ==_iff, Bool-cases, Option-cases, length, All,
}
use mathlib.Core.Path.{subst}
use museumscraper.Collect.{contains as has}
use museumscraper.Wikipedia.Crawl.{CategoryMember, namespace_article, namespace_category}
use museumscraper.Wikipedia.Lists.{
  PendingPage, Processor, new_processor, Site, look, mark, process_page, and_then, walk_listed,
  enter, list_hint, walk_category, drain, process_category,
}
use museumscraper.Wikipedia.Lists.Visits.{
  unvisited, Grows, unvisited-Grows, Grows-cons, unvisited-length, unvisited-visit,
}
use museumscraper.Wikipedia.Lists.Kept.{
  IsKnown, NamesKnown, process_page-visited, process_page-IsKnown,
}

module _ (s : Site) (categories pages : List String) where
  -- The subcategories of a category are among `categories`.
  abbrev pub IsClosed : Type 0
  IsClosed =
      (category : String) (ms : List CategoryMember)
      → s.edition.members category ≡ some ms
      → All (λ (m : CategoryMember). m.ns ≡ namespace_category → has categories m.title ≡ true) ms

  -- A walk gives a processor, which has visited all that the one before had and waits for known pages.
  abbrev pub Ends : Processor → Option Processor → Type 0
  Ends p o =
      (q : Processor) × (o ≡ some q) × Grows p.visited q.visited × All (IsKnown s pages) q.pending

  Ends-trans :
      (p q : Processor) (o : Option Processor) → Grows p.visited q.visited → Ends q o → Ends p o
  Ends-trans p q o g (r, e, h, k) = (r, e, (λ x y. h x (g x y)), k)

  and_then-Ends :
      (p : Processor) (o : Option Processor) (f : Processor → Option Processor)
      → Ends p o
      → ((q : Processor)
          → Grows p.visited q.visited
          → All (IsKnown s pages) q.pending
          → Ends q (f q))
      → Ends p (and_then s o f)
  and_then-Ends p o f (q, e, g, w) k = rw e (Ends-trans p q (f q) g (k q g w))

  walk_listed-Ends :
      (fuel : ℕ) (visit : String → Processor → Option Processor) (hint : String)
      (ms : List CategoryMember) (p : Processor)
      → NamesKnown s pages
      → ((t : String) (q : Processor)
          → has categories t ≡ true
          → unvisited categories q.visited < fuel
          → All (IsKnown s pages) q.pending
          → Ends q (visit t q))
      → All (λ (m : CategoryMember). m.ns ≡ namespace_category → has categories m.title ≡ true) ms
      → unvisited categories p.visited < fuel
      → All (IsKnown s pages) p.pending
      → Ends p (walk_listed s visit hint ms p)
  unfolding walk_listed
  walk_listed-Ends fuel visit hint [] p named f h k w = (p, refl, (λ x e. e), w)
  walk_listed-Ends fuel visit hint (m ∷ ms) p named f (c, h) k w =
      let go = λ (q : Processor). walk_listed-Ends fuel visit hint ms q named f h in
      elim (Bool-cases (s.edition.cancelled p.looks)) [
        | inl y ↦ rw (walk_listed, y) (look s p, refl, (λ x e. e), w)
        | inr n ↦ elim (Bool-cases (m.ns == namespace_category)) [
          | inl y ↦
              rw (walk_listed, n, y)
                (and_then-Ends p (visit m.title (look s p)) (walk_listed s visit hint ms)
                  (f m.title (look s p) (c ((==_iff m.ns namespace_category).0 y)) k w)
                  (λ q g.
                    go q (omega (arith, k, unvisited-Grows categories p.visited q.visited g))))
          | inr other ↦
              elim (Bool-cases (not (m.ns == namespace_article) || has p.visited m.title)) [
                | inl y ↦ rw (walk_listed, n, other, y) (go (look s p) k w)
                | inr fresh ↦
                    let seen = mark s m.title (look s p) in
                    let q = process_page s m.title hint seen in
                    let grows : Grows p.visited q.visited =
                      subst (Grows p.visited) (sym (process_page-visited s m.title hint seen))
                        (Grows-cons m.title p.visited) in
                    rw (walk_listed, n, other, fresh)
                      (Ends-trans p q (walk_listed s visit hint ms q) grows (
                        go q
                          (omega (arith, k, unvisited-Grows categories p.visited q.visited grows))
                          (process_page-IsKnown s pages m.title hint seen named w)))
              ]
        ]
      ]

  walk_category-Ends :
      (fuel : ℕ) (category hint : String) (p : Processor)
      → IsClosed
      → NamesKnown s pages
      → has categories category ≡ true
      → unvisited categories p.visited < fuel
      → All (IsKnown s pages) p.pending
      → Ends p (walk_category s fuel category hint p)
  unfolding walk_category
  walk_category-Ends zero category hint p closed named c k w = absurd (omega (arith, k))
  walk_category-Ends (suc fuel) category hint p closed named c k w =
      let within = list_hint s category hint in
      let visit = λ (title : String) (at : Processor). walk_category s fuel title within at in
      elim (Bool-cases (s.edition.cancelled p.looks || has p.visited category)) [
        | inl y ↦ rw (walk_category, y) (look s p, refl, (λ x e. e), w)
        | inr n ↦
            let first = enter s category (look s p) in
            let fewer = unvisited-visit categories category p.visited c (ground (arith, n)) in
            elim (Option-cases (s.edition.members category)) [
              | inl failed ↦
                  rw (walk_category, n, failed) (first, refl, Grows-cons category p.visited, w)
              | inr (ms, read) ↦
                  rw (walk_category, n, read)
                    (Ends-trans p first (walk_listed s visit within ms first)
                      (Grows-cons category p.visited)
                      (walk_listed-Ends fuel visit within ms first named
                        (λ t q d u v. walk_category-Ends fuel t within q closed named d u v)
                        (closed category ms read) (omega (arith, k, fewer)) w))
            ]
      ]

  -- The loop over the pending pages has an end.
  abbrev Drains : List PendingPage → Processor → Type 0
  Drains qs p = (n : ℕ) × (q : Processor) × (drain s n qs p ≡ some q)

  drain-next :
      (q : PendingPage) (qs : List PendingPage) (p : Processor)
      → s.edition.cancelled p.looks ≡ false
      → has p.visited q.title ≡ true
      → Drains qs (record (look s p) { pending = qs })
      → Drains (q ∷ qs) p
  unfolding drain
  drain-next q qs p live y (n, r, e) = (suc n, r, rw (drain, live, y) e)

  drain-Ends :
      (k : ℕ) (qs : List PendingPage) (p : Processor)
      → NamesKnown s pages
      → All (IsKnown s pages) qs
      → unvisited pages p.visited ≤ k
      → Drains qs p
  unfolding drain
  drain-Ends k [] p named h u = (0, p, refl)
  drain-Ends zero (q ∷ qs) p named (c, h) u =
      let r = record (look s p) { pending = qs } in
      elim (Bool-cases (s.edition.cancelled p.looks)) [
        | inl y ↦ (1, look s p, rw (drain, y) refl)
        | inr n ↦ elim (Bool-cases (has p.visited q.title)) [
          | inl y ↦ drain-next q qs p n y (drain-Ends zero qs r named h u)
          | inr m ↦ absurd (omega (arith, u, unvisited-visit pages q.title p.visited c m))
        ]
      ]
  drain-Ends (suc k) (q ∷ qs) p named (c, h) u =
      let r = record (look s p) { pending = qs } in
      elim (Bool-cases (s.edition.cancelled p.looks)) [
        | inl y ↦ (1, look s p, rw (drain, y) refl)
        | inr n ↦ elim (Bool-cases (has p.visited q.title)) [
          | inl y ↦ drain-next q qs p n y (drain-Ends (suc k) qs r named h u)
          | inr m ↦
              let seen = mark s q.title r in
              let next = process_page s q.title q.country seen in
              let fewer = unvisited-visit pages q.title p.visited c m in
              let left : unvisited pages next.visited ≤ k =
                subst (λ v. unvisited pages v ≤ k)
                  (sym (process_page-visited s q.title q.country seen)) (omega (arith, u, fewer)) in
              let (fuel, last, e) =
                drain-Ends k next.pending next named
                  (process_page-IsKnown s pages q.title q.country seen named h) left in
              (suc fuel, last, rw (drain, n, m) e)
        ]
      ]

  -- A crawl of the list pages ends: where the categories that can be reached are finitely many,
  -- whatever cycles they form, and so are the lists that pages name, fuel for one level more than
  -- there are categories and for some number of rounds over the pending pages gives the processor
  -- of the whole crawl.
  pub process_category-ends :
      (root : String)
      → IsClosed
      → NamesKnown s pages
      → has categories root ≡ true
      → (rounds : ℕ) × (q : Processor) × (process_category s (suc (length categories)) rounds root
          ≡ some q)
  unfolding process_category
  process_category-ends root closed named c =
      let fuel = suc (length categories) in
      let (p, e, _, w) =
        walk_category-Ends fuel root "" new_processor closed named c
          (omega (arith, unvisited-length categories [])) tt in
      let (rounds, q, d) =
        drain-Ends (unvisited pages p.visited) p.pending p named w (omega arith) in
      (rounds, q, ap (λ o. and_then s o (λ (r : Processor). drain s rounds r.pending r)) e ∙ d)
