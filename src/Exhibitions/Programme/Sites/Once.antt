-- ===== src/Exhibitions/Programme/Sites/Once.antt =====
-- pkg/exhibitions/service.go: each website is read once, and each exhibition handed on once.
use museumscraper.Prelude.{
  suc, ◌≡◌, refl, ap, inl, inr, true, false, ◌||◌, Option, none, some, List, [], ◌∷◌, ◌++◌, map,
  arith, if◌then◌else◌, Bool-cases, length,
}
use mathlib.Core.Path.{subst}
use museumscraper.Text.Bytes.{Bytes, among, equal, equal_iff}
use museumscraper.Text.Distinct.{IsDistinct, among-append, IsDistinct-concat}
use museumscraper.Exhibitions.Links.{Web}
use museumscraper.Exhibitions.Listing.{urls, Museum, Exhibition}
use museumscraper.Exhibitions.Programme.Sites.{site_key, unique_by_site, fresh_of, stream}

seen-clash :
    (seen : List Bytes) (a u : Bytes)
    → equal u [] ≡ false
    → among seen u ≡ false
    → equal a u ≡ true
    → (equal a [] || among seen a) ≡ true
    → ⊥
seen-clash seen a u h k same y =
    let moved = subst (λ x. (equal x [] || among seen x) ≡ true) ((equal_iff a u).0 same) y in
    ground (arith, h, k, moved)

module _ (w : Web) where
  abbrev pub site_keys : List Museum → List Bytes
  site_keys ms = map (λ (m : Museum). site_key w m.website) ms

  -- The first museum of a site.
  abbrev pub first_of : Bytes → List Museum → Option Museum
  first_of site [] = none
  first_of site (m ∷ ms) =
      let rest = first_of site ms in if equal (site_key w m.website) site then some m else rest

  unique-unseen :
      (seen : List Bytes) (ms : List Museum) (site : Bytes)
      → among seen site ≡ true
      → among (site_keys (unique_by_site w seen ms)) site ≡ false
  unfolding unique_by_site among
  unique-unseen seen [] site h = refl
  unique-unseen seen (m ∷ ms) site h =
      let key = site_key w m.website in
      elim (Bool-cases (equal key [] || among seen key)) [
        | inl y ↦ rw (unique_by_site, y) (unique-unseen seen ms site h)
        | inr n ↦
            let later = unique-unseen (key ∷ seen) ms site (ground (arith, h)) in
            rw (unique_by_site, n) (ground (arith, n, h, later, equal_iff key site))
      ]

  unique-IsDistinct :
      (seen : List Bytes) (ms : List Museum) → IsDistinct (site_keys (unique_by_site w seen ms))
  unfolding unique_by_site among
  unique-IsDistinct seen [] = tt
  unique-IsDistinct seen (m ∷ ms) =
      let key = site_key w m.website in
      elim (Bool-cases (equal key [] || among seen key)) [
        | inl y ↦ rw (unique_by_site, y) (unique-IsDistinct seen ms)
        | inr n ↦
            rw (unique_by_site, n)
              (
                unique-unseen (key ∷ seen) ms key (ground (arith, equal_iff key key)),
                unique-IsDistinct (key ∷ seen) ms,
              )
      ]

  unique-first :
      (seen : List Bytes) (ms : List Museum) (site : Bytes)
      → equal site [] ≡ false
      → among seen site ≡ false
      → first_of site (unique_by_site w seen ms) ≡ first_of site ms
  unfolding unique_by_site among
  unique-first seen [] site h k = refl
  unique-first seen (m ∷ ms) site h k =
      let key = site_key w m.website in
      elim (Bool-cases (equal key site)) [
        | inl same ↦ elim (Bool-cases (equal key [] || among seen key)) [
          | inl y ↦ absurd (seen-clash seen key site h k same y)
          | inr n ↦ rw (unique_by_site, n, same) refl
        ]
        | inr other ↦ elim (Bool-cases (equal key [] || among seen key)) [
          | inl y ↦ rw (unique_by_site, y, other) (unique-first seen ms site h k)
          | inr n ↦
              rw (unique_by_site, n, other)
                (unique-first (key ∷ seen) ms site h (ground (arith, k, other)))
        ]
      ]

  -- No website is read twice, and for every website it is the first of its museums that is kept.
  pub unique_by_site-first :
      (ms : List Museum) (site : Bytes)
      → equal site [] ≡ false
      → IsDistinct (site_keys (unique_by_site w [] ms))
        × (first_of site (unique_by_site w [] ms) ≡ first_of site ms)
  unfolding among
  unique_by_site-first ms site h = (unique-IsDistinct [] ms, unique-first [] ms site h refl)

-- The addresses in everything that is handed on.
abbrev pub all_urls : List (List Exhibition) → List Bytes
all_urls [] = []
all_urls (es ∷ ess) = urls es ++ all_urls ess

-- What one site adds is new, no address of it stands twice, and after it all of it has been seen.
record IsFresh (seen : List Bytes) (es fresh : List Exhibition) (after : List Bytes) : Type 0 where
  distinct : IsDistinct (urls fresh)
  new : (u : Bytes) → among seen u ≡ true → among (urls fresh) u ≡ false
  noted : (u : Bytes) → among after u ≡ (among seen u || among (urls fresh) u)
  complete :
      (u : Bytes)
      → equal u [] ≡ false
      → (among seen u || among (urls fresh) u) ≡ (among seen u || among (urls es) u)

fresh_of-IsFresh :
    (seen : List Bytes) (es : List Exhibition)
    → IsFresh seen es ((fresh_of seen es).0) ((fresh_of seen es).1)
unfolding fresh_of among
fresh_of-IsFresh seen [] = record {
  distinct = tt;
  new = λ u h. refl;
  noted = λ u. ground arith;
  complete = λ u h. refl;
}
fresh_of-IsFresh seen (e ∷ es) = elim (Bool-cases (equal e.url [] || among seen e.url)) [
  | inl y ↦
      let rest = fresh_of-IsFresh seen es in
      rw (fresh_of, y)
        (record {
          distinct = rest.distinct;
          new = rest.new;
          noted = rest.noted;
          complete = λ u h. elim (Bool-cases (among seen u)) [
            | inl k ↦ ground (arith, k)
            | inr k ↦ elim (Bool-cases (equal e.url u)) [
              | inl same ↦ absurd (seen-clash seen e.url u h k same y)
              | inr other ↦ ground (arith, other, rest.complete u h)
            ]
          ];
        })
  | inr n ↦
      let rest = fresh_of-IsFresh (e.url ∷ seen) es in
      rw (fresh_of, n)
        (record {
          distinct = (rest.new e.url (ground (arith, equal_iff e.url e.url)), rest.distinct);
          new = λ u h. ground (arith, n, h, rest.new u (ground (arith, h)), equal_iff e.url u);
          noted = λ u. ground (arith, rest.noted u);
          complete = λ u h. ground (arith, rest.complete u h);
        })
]

all_urls-new :
    (seen : List Bytes) (rs : List (List Exhibition)) (u : Bytes)
    → among seen u ≡ true
    → among (all_urls (stream seen rs)) u ≡ false
unfolding stream among
all_urls-new seen [] u h = refl
all_urls-new seen (es ∷ rs) u h =
    let f = fresh_of-IsFresh seen es in
    let fresh = (fresh_of seen es).0 in
    let after = (fresh_of seen es).1 in
    let later = all_urls-new after rs u (ground (arith, f.noted u, h)) in
    ground (arith, later, f.new u h, among-append (urls fresh) (all_urls (stream after rs)) u)

stream-IsDistinct :
    (seen : List Bytes) (rs : List (List Exhibition)) → IsDistinct (all_urls (stream seen rs))
unfolding stream among
stream-IsDistinct seen [] = tt
stream-IsDistinct seen (es ∷ rs) =
    let f = fresh_of-IsFresh seen es in
    let fresh = (fresh_of seen es).0 in
    let after = (fresh_of seen es).1 in
    IsDistinct-concat (urls fresh) (all_urls (stream after rs))
      (λ u h. all_urls-new after rs u (ground (arith, f.noted u, h))) f.distinct
      (stream-IsDistinct after rs)

stream_complete :
    (seen : List Bytes) (rs : List (List Exhibition)) (u : Bytes)
    → equal u [] ≡ false
    → (among seen u || among (all_urls (stream seen rs)) u)
      ≡ (among seen u || among (all_urls rs) u)
unfolding stream among
stream_complete seen [] u h = refl
stream_complete seen (es ∷ rs) u h =
    let f = fresh_of-IsFresh seen es in
    let fresh = (fresh_of seen es).0 in
    let after = (fresh_of seen es).1 in
    ground (
      arith,
      f.noted u,
      f.complete u h,
      stream_complete after rs u h,
      among-append (urls fresh) (all_urls (stream after rs)) u,
      among-append (urls es) (all_urls rs) u,
    )

stream-length :
    (seen : List Bytes) (rs : List (List Exhibition)) → length (stream seen rs) ≡ length rs
unfolding stream
stream-length seen [] = refl
stream-length seen (es ∷ rs) = ap suc (stream-length ((fresh_of seen es).1) rs)

-- In whatever order the sites finish, the function is called once for each of them, no address is
-- handed on twice in the whole run, and every address that was found is handed on.
pub stream_lem :
    (results : List (List Exhibition)) (u : Bytes)
    → equal u [] ≡ false
    → (length (stream [] results) ≡ length results)
      × IsDistinct (all_urls (stream [] results))
      × (among (all_urls (stream [] results)) u ≡ among (all_urls results) u)
unfolding among
stream_lem results u h =
    (stream-length [] results, stream-IsDistinct [] results, stream_complete [] results u h)
