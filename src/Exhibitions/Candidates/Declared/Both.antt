-- ===== src/Exhibitions/Candidates/Declared/Both.antt =====
-- pkg/exhibitions/jsonld.go: what the two readers give together.
use museumscraper.Prelude.{
  ◌≡◌, refl, ap, inl, inr, not, ◌&&◌, ◌||◌, Option, none, some, List, [], ◌∷◌, ◌++◌, arith,
  Bool-cases, Option-cases, length, take,
}
use museumscraper.Prelude.{take-length}
use museumscraper.Text.Bytes.{Bytes, among, equal_iff}
use museumscraper.Text.Distinct.{IsDistinct, IsDistinct-append, among-append, IsDistinct-concat}
use museumscraper.Exhibitions.Json.{Fields, objects}
use museumscraper.Exhibitions.Links.{Url, Web}
use museumscraper.Exhibitions.Candidates.{Candidate, candidate_urls, extract_candidates}
use museumscraper.Exhibitions.Candidates.Kept.{extract_candidates-IsListing}
use museumscraper.Exhibitions.Candidates.Declared.{
  blocks, candidate_from_json, note_declared, note_objects, note_blocks, extract_declared,
  undeclared, candidates_on,
}

urls-concat :
    (cs ds : List Candidate) → candidate_urls (cs ++ ds) ≡ candidate_urls cs ++ candidate_urls ds
unfolding candidate_urls
urls-concat [] ds = refl
urls-concat (c ∷ cs) ds = ap (λ us. c.url ∷ us) (urls-concat cs ds)

abbrev AreApart : List Candidate → Type 0
AreApart cs = IsDistinct (candidate_urls cs)

module _ (w : Web) where
  note_declared-AreApart :
      (found : List Candidate) (o : Option Candidate)
      → AreApart found
      → AreApart (note_declared w found o)
  unfolding note_declared candidate_urls
  note_declared-AreApart found none d = d
  note_declared-AreApart found (some c) d = elim (Bool-cases (among (candidate_urls found) c.url)) [
    | inl y ↦ rw (note_declared, y) d
    | inr n ↦
        rw (note_declared, n, urls-concat found (c ∷ []))
          (IsDistinct-append (candidate_urls found) c.url n d)
  ]

  note_objects-AreApart :
      (base : Url) (found : List Candidate) (fss : List Fields)
      → AreApart found
      → AreApart (note_objects w base found fss)
  unfolding note_objects
  note_objects-AreApart base found [] d = d
  note_objects-AreApart base found (fs ∷ fss) d =
      note_objects-AreApart base (note_declared w found (candidate_from_json w base fs)) fss
        (note_declared-AreApart found (candidate_from_json w base fs) d)

  note_blocks-AreApart :
      (base : Url) (found : List Candidate) (bs : List Bytes)
      → AreApart found
      → AreApart (note_blocks w base found bs)
  unfolding note_blocks
  note_blocks-AreApart base found [] d = d
  note_blocks-AreApart base found (b ∷ bs) d = elim (Option-cases (w.decode_json b)) [
    | inl e ↦ rw (note_blocks, e) (note_blocks-AreApart base found bs d)
    | inr (v, e) ↦
        rw (note_blocks, e)
          (note_blocks-AreApart base (note_objects w base found (objects v)) bs
            (note_objects-AreApart base found (objects v) d))
  ]

  extract_declared-AreApart : (page : Bytes) (base : Url) → AreApart (extract_declared w page base)
  unfolding extract_declared candidate_urls
  extract_declared-AreApart page base = elim (Option-cases (w.parse_html page)) [
    | inl e ↦ rw (extract_declared, e) tt
    | inr (doc, e) ↦ rw (extract_declared, e) (note_blocks-AreApart base [] (blocks w doc) tt)
  ]

undeclared-among :
    (declared : List Bytes) (cs : List Candidate) (u : Bytes)
    → among (candidate_urls (undeclared declared cs)) u
      ≡ (among (candidate_urls cs) u && not (among declared u))
unfolding undeclared candidate_urls among
undeclared-among declared [] u = refl
undeclared-among declared (c ∷ cs) u = elim (Bool-cases (among declared c.url)) [
  | inl y ↦
      rw (undeclared, y) (ground (arith, y, undeclared-among declared cs u, equal_iff c.url u))
  | inr n ↦
      rw (undeclared, n) (ground (arith, n, undeclared-among declared cs u, equal_iff c.url u))
]

undeclared-AreApart :
    (declared : List Bytes) (cs : List Candidate) → AreApart cs → AreApart (undeclared declared cs)
unfolding undeclared candidate_urls
undeclared-AreApart declared [] d = tt
undeclared-AreApart declared (c ∷ cs) (n, d) = elim (Bool-cases (among declared c.url)) [
  | inl y ↦ rw (undeclared, y) (undeclared-AreApart declared cs d)
  | inr k ↦
      rw (undeclared, k)
        (ground (arith, n, undeclared-among declared cs c.url), undeclared-AreApart declared cs d)
]

-- The candidates of both readers have different addresses, those that are declared stand first and
-- are all kept, and every address that either reader finds is among them.
pub candidates_on_lem :
    (w : Web) (page : Bytes) (base : Url) (u : Bytes)
    → IsDistinct (candidate_urls (candidates_on w page base))
      × (take (length (extract_declared w page base)) (candidates_on w page base)
          ≡ extract_declared w page base)
      × (among (candidate_urls (candidates_on w page base)) u ≡ (
          among (candidate_urls (extract_declared w page base)) u
          || among (candidate_urls (extract_candidates w page base)) u))
unfolding candidates_on
candidates_on_lem w page base u =
    let declared = extract_declared w page base in
    let listed = extract_candidates w page base in
    let rest = undeclared (candidate_urls declared) listed in
    (
      rw (urls-concat declared rest) (
          IsDistinct-concat (candidate_urls declared) (candidate_urls rest)
            (λ a h. ground (arith, h, undeclared-among (candidate_urls declared) listed a))
            (extract_declared-AreApart w page base)
            (undeclared-AreApart (candidate_urls declared) listed
              (extract_candidates-IsListing w base page).0)),
      take-length declared rest,
      rw (urls-concat declared rest) (
          ground (
            arith,
            among-append (candidate_urls declared) (candidate_urls rest) u,
            undeclared-among (candidate_urls declared) listed u,
          )),
    )
