-- ===== src/Wikipedia/Lists/Kept.antt =====
-- pkg/wikipedia/processor.go: what a list page does to the pages that are visited and pending.
use museumscraper.Prelude.{
  ◌+◌, String, ◌≡◌, refl, sym, inl, inr, Bool, true, false, Option, some, List, [], ◌∷◌, ◌++◌,
  Bool-cases, Option-cases, length, All,
}
use mathlib.Core.Path.{subst}
use museumscraper.Collect.{Museum, contains as has}
use museumscraper.Wikipedia.Classify.{PageMetadata, classify}
use museumscraper.Wikipedia.Crawl.{look_up}
use museumscraper.Wikipedia.Crawl.Steps.{Decision-cases}
use museumscraper.Wikipedia.Lists.{
  PendingPage, Candidate, Extraction, Processor, Site, count_rejected, count_duplicate,
  listed_museum, take_candidate, emit, emit_candidates, pending_from, read_page, process_candidates,
  process_page, country_for, titles_of,
}

module _ (s : Site) where
  -- The two fields that the loops over pages run on.
  abbrev pub IsKept : Processor → Processor → Type 0
  IsKept p q = (q.visited ≡ p.visited) × (q.pending ≡ p.pending)

  take_candidate-IsKept :
      (go : Processor → Processor) (verified : Bool) (meta : PageMetadata) (museum : Museum)
      (p : Processor)
      → ((q : Processor) → IsKept q (go q))
      → IsKept p (take_candidate s go verified meta museum p)
  unfolding take_candidate
  take_candidate-IsKept go verified meta museum p f = elim (Bool-cases (has p.emitted meta.title)) [
    | inl y ↦ rw (take_candidate, y) (f (count_duplicate s p))
    | inr n ↦ elim (Bool-cases (s.edition.cancelled p.looks)) [
      | inl y ↦ rw (take_candidate, n, y) (refl, refl)
      | inr m ↦ rw (take_candidate, n, m) (f (emit s verified meta museum p))
    ]
  ]

  emit_candidates-IsKept :
      (metadata : String → Option PageMetadata) (country title : String) (cs : List Candidate)
      (p : Processor)
      → IsKept p (emit_candidates s metadata country title cs p)
  unfolding emit_candidates
  emit_candidates-IsKept metadata country title [] p = (refl, refl)
  emit_candidates-IsKept metadata country title (c ∷ cs) p =
      let meta = look_up s.edition metadata c.title in
      let ih = emit_candidates-IsKept metadata country title cs in
      let go = emit_candidates s metadata country title cs in
      let listed = λ (v : Bool). listed_museum s v meta c country title in
      elim (Decision-cases (classify s.edition.lower s.edition.has_lifespan meta)) [
        | inl (r, d) ↦ rw (emit_candidates, d) (ih (count_rejected s r p))
        | inr (inl d) ↦
            rw (emit_candidates, d) (take_candidate-IsKept go false meta (listed false) p ih)
        | inr (inr d) ↦
            rw (emit_candidates, d) (take_candidate-IsKept go true meta (listed true) p ih)
      ]

  process_candidates-IsKept :
      (country title : String) (cs : List Candidate) (p : Processor)
      → IsKept p (process_candidates s country title cs p)
  unfolding process_candidates
  process_candidates-IsKept country title [] p = (refl, refl)
  process_candidates-IsKept country title (c ∷ cs) p =
      emit_candidates-IsKept (s.edition.resolve (titles_of s (c ∷ cs))) country title (c ∷ cs)
        (record p { stats = record p.stats { candidates = p.stats.candidates + length (c ∷ cs) } })

  pub process_page-visited :
      (title hint : String) (p : Processor) → (process_page s title hint p).visited ≡ p.visited
  unfolding process_page
  process_page-visited title hint p = elim (Option-cases (s.extract title)) [
    | inl n ↦ rw (process_page, n) refl
    | inr (e, y) ↦
        let country = country_for s title hint in
        rw (process_page, y)
          (process_candidates-IsKept country title e.candidates
            (read_page s country e.nested_lists p)).0
  ]

  -- A list page is among `pages`.
  abbrev pub IsKnown : List String → PendingPage → Type 0
  IsKnown pages q = has pages q.title ≡ true

  pending_from-IsKnown :
      (pages : List String) (country : String) (ts : List String)
      → All (λ t. has pages t ≡ true) ts
      → All (IsKnown pages) (pending_from s country ts)
  pending_from-IsKnown pages country [] h = tt
  pending_from-IsKnown pages country (t ∷ ts) (p, h) = (p, pending_from-IsKnown pages country ts h)

  All-both :
      (P : PendingPage → Type 0) (a b : List PendingPage) → All P a → All P b → All P (a ++ b)
  All-both P [] b h k = k
  All-both P (x ∷ a) b (p, h) k = (p, All-both P a b h k)

  -- The lists that a page names are among `pages`.
  abbrev pub NamesKnown : List String → Type 0
  NamesKnown pages =
      (title : String) (e : Extraction)
      → s.extract title ≡ some e
      → All (λ t. has pages t ≡ true) e.nested_lists

  pub process_page-IsKnown :
      (pages : List String) (title hint : String) (p : Processor)
      → NamesKnown pages
      → All (IsKnown pages) p.pending
      → All (IsKnown pages) (process_page s title hint p).pending
  unfolding process_page
  process_page-IsKnown pages title hint p named h = elim (Option-cases (s.extract title)) [
    | inl n ↦ rw (process_page, n) h
    | inr (e, y) ↦
        let country = country_for s title hint in
        let read = read_page s country e.nested_lists p in
        rw (process_page, y)
          (subst (All (IsKnown pages))
            (sym (process_candidates-IsKept country title e.candidates read).1)
            (All-both (IsKnown pages) p.pending (pending_from s country e.nested_lists) h
              (pending_from-IsKnown pages country e.nested_lists (named title e y))))
  ]
