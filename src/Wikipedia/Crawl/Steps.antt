-- ===== src/Wikipedia/Crawl/Steps.antt =====
-- pkg/wikipedia/category.go: a walk as steps, each of which changes one thing of the crawler.
use museumscraper.Prelude.{
  ℕ, zero, suc, String, ◌≡◌, refl, ◌⊎◌, inl, inr, true, false, ◌||◌, Option, some, List, [], ◌∷◌,
  ◌++◌, arith, ◌==◌, Bool-cases, Option-cases, length,
}
use museumscraper.Collect.{contains as has}
use museumscraper.Wikipedia.Classify.{
  PageMetadata, Rejection, Decision, accept, accept_unverified, reject, reject_unresolvable,
  classify, classify-IsArticle,
}
use museumscraper.Wikipedia.Topics.{skip_category}
use museumscraper.Wikipedia.Crawl.{
  CategoryMember, Crawler, Edition, new_crawler, fresh_titles, look_up, museum_of, count_rejected,
  count_duplicates, count_candidates, emit, emit_titles, emit_fresh, emit_articles, walk_members,
  look, enter, walk, museums, max_depth, hint_for, namespace_article, namespace_category,
}

-- The states that a crawler gets into, each with the number of candidates that are still to be decided.
pub data Reachable (e : Edition) : ℕ → Crawler → Type 0 where
  starts : Reachable e 0 new_crawler
  looks : {n : ℕ} {c : Crawler} → Reachable e n c → Reachable e n (look e c)
  enters :
      {c : Crawler} (category : String)
      → has c.visited category ≡ false
      → Reachable e 0 c
      → Reachable e 0 (enter e category c)
  repeats : {n : ℕ} {c : Crawler} (k : ℕ) → Reachable e n c → Reachable e n (count_duplicates e k c)
  batches : {c : Crawler} (k : ℕ) → Reachable e 0 c → Reachable e k (count_candidates e k c)
  rejects :
      {n : ℕ} {c : Crawler} (reason : Rejection)
      → Reachable e (suc n) c
      → Reachable e n (count_rejected e reason c)
  doubles : {n : ℕ} {c : Crawler} → Reachable e (suc n) c → Reachable e n (count_duplicates e 1 c)
  emits :
      {n : ℕ} {c : Crawler} (batch : List String) (title country category : String)
      (meta : PageMetadata)
      → e.resolve batch title ≡ some meta
      → classify e.lower e.has_lifespan meta ≡ accept
      → has c.emitted meta.title ≡ false
      → Reachable e (suc n) c
      → Reachable e n (emit e title meta (museum_of e meta country category) c)
  stops : {n : ℕ} {c : Crawler} (k : ℕ) → e.cancelled k ≡ true → Reachable e n c → Reachable e 0 c

pub Decision-cases :
    (d : Decision) → ((r : Rejection) × (d ≡ reject r)) ⊎ ((d ≡ accept_unverified) ⊎ (d ≡ accept))
Decision-cases (reject r) = inl (r, refl)
Decision-cases accept_unverified = inr (inl refl)
Decision-cases accept = inr (inr refl)

module _ (e : Edition) where
  -- A title that nothing was resolved for counts as missing, so what is accepted was resolved.
  classify-resolved :
      (metadata : String → Option PageMetadata) (t : String)
      → classify e.lower e.has_lifespan (look_up e metadata t) ≡ accept
      → metadata t ≡ some (look_up e metadata t)
  classify-resolved metadata t h = elim (Option-cases (metadata t)) [
    | inl none_found ↦
        let absent : (look_up e metadata t).missing ≡ true = rw (none_found, look_up) refl in
        let there = (classify-IsArticle e.lower e.has_lifespan (look_up e metadata t) h).there in
        absurd (ground (arith, absent, there))
    | inr (meta, found) ↦ rw (found, look_up) refl
  ]

  emit_titles-Reachable :
      (batch : List String) (country category : String) (titles : List String) (c : Crawler)
      → Reachable e (length titles) c
      → Reachable e 0 (emit_titles e (e.resolve batch) country category titles c)
  unfolding emit_titles
  emit_titles-Reachable batch country category [] c h = h
  emit_titles-Reachable batch country category (t ∷ ts) c h =
      let meta = look_up e (e.resolve batch) t in
      let ih = emit_titles-Reachable batch country category ts in
      elim (Decision-cases (classify e.lower e.has_lifespan meta)) [
        | inl (r, d) ↦ rw (emit_titles, d) (ih (count_rejected e r c) (rejects r h))
        | inr (inl d) ↦
            rw (emit_titles, d)
              (ih (count_rejected e reject_unresolvable c) (rejects reject_unresolvable h))
        | inr (inr d) ↦ elim (Bool-cases (has c.emitted meta.title)) [
          | inl y ↦ rw (emit_titles, d, y) (ih (count_duplicates e 1 c) (doubles h))
          | inr n ↦
              let sent = emit e t meta (museum_of e meta country category) c in
              let resolved = classify-resolved (e.resolve batch) t d in
              let next = emits batch t country category meta resolved d n h in
              elim (Bool-cases (e.cancelled c.looks)) [
                | inl y ↦ rw (emit_titles, d, n, y) (stops c.looks y next)
                | inr go ↦ rw (emit_titles, d, n, go) (ih sent next)
              ]
        ]
      ]

  emit_fresh-Reachable :
      (titles : List String) (country category : String) (c : Crawler)
      → Reachable e 0 c
      → Reachable e 0 (emit_fresh e titles country category c)
  unfolding emit_fresh
  emit_fresh-Reachable [] country category c h = h
  emit_fresh-Reachable (t ∷ ts) country category c h =
      let n = length (t ∷ ts) in
      emit_titles-Reachable (t ∷ ts) country category (t ∷ ts) (count_candidates e n c)
        (batches n h)

  emit_articles-Reachable :
      (titles : List String) (country category : String) (c : Crawler)
      → Reachable e 0 c
      → Reachable e 0 (emit_articles e titles country category c)
  unfolding emit_articles
  emit_articles-Reachable titles country category c h =
      let (fresh, k) = fresh_titles e c.emitted titles in
      emit_fresh-Reachable fresh country category (count_duplicates e k c) (repeats k h)

  walk_members-Reachable :
      (visit : String → Crawler → Crawler)
      → ((t : String) (c : Crawler) → Reachable e 0 c → Reachable e 0 (visit t c))
      → (ms : List CategoryMember) (articles : List String) (c : Crawler) → Reachable e 0 c
      → Reachable e 0 (walk_members e visit ms articles c).1
  unfolding walk_members
  walk_members-Reachable visit f [] articles c h = h
  walk_members-Reachable visit f (m ∷ ms) articles c h =
      let ih = walk_members-Reachable visit f ms in
      elim (Bool-cases (m.ns == namespace_article)) [
        | inl y ↦ rw y (ih (articles ++ m.title ∷ []) c h)
        | inr n ↦ elim (Bool-cases (m.ns == namespace_category)) [
          | inr other ↦ rw (n, other) (ih articles c h)
          | inl sub ↦ elim (Bool-cases (skip_category e.lower m.title)) [
            | inl y ↦ rw (n, sub, y) (ih articles c h)
            | inr go ↦ rw (n, sub, go) (ih articles (visit m.title c) (f m.title c h))
          ]
        ]
      ]

  walk-Reachable :
      (levels : ℕ) (category hint : String) (c : Crawler)
      → Reachable e 0 c
      → Reachable e 0 (walk e levels category hint c)
  unfolding walk
  walk-Reachable zero category hint c h = looks h
  walk-Reachable (suc levels) category hint c h =
      let visit =
        λ (title : String) (at : Crawler). walk e levels title (hint_for e category hint) at in
      elim (Bool-cases (e.cancelled c.looks || has c.visited category)) [
        | inl y ↦ rw (walk, y) (looks h)
        | inr n ↦
            let within = enters category (ground (arith, n)) (looks h) in
            elim (Option-cases (e.members category)) [
              | inl failed ↦ rw (walk, n, failed) within
              | inr (ms, read) ↦
                  rw (walk, n, read)
                    (let r = walk_members e visit ms [] (enter e category (look e c)) in
                      emit_articles-Reachable r.0 (hint_for e category hint) category r.1 (
                        walk_members-Reachable visit
                          (λ t at k. walk-Reachable levels t (hint_for e category hint) at k) ms []
                          (enter e category (look e c)) within))
            ]
      ]

  pub museums-Reachable : (root : String) → Reachable e 0 (museums e root)
  unfolding museums
  museums-Reachable root = walk-Reachable (suc max_depth) root "" new_crawler starts
