-- ===== src/Exhibitions/Links/Found.antt =====
-- pkg/exhibitions/extract.go and permanent.go: the links that are found on a page.
use museumscraper.Prelude.{
  ℕ, ◌≡◌, refl, sym, ap, inl, inr, Bool, true, false, not, ◌||◌, some, List, [], ◌∷◌, ◌++◌, arith,
  ◌==◌, Bool-cases, Option-cases, All,
}
use mathlib.Core.Path.{subst}
use mathlib.Core.List.{Memᴰ}
use museumscraper.Prelude.{All-append}
use museumscraper.Text.Bytes.{Bytes, among, equal_iff}
use museumscraper.Text.Distinct.{IsDistinct, IsDistinct-append, among-append}
use museumscraper.Exhibitions.Page.{Link}
use museumscraper.Exhibitions.Links.{
  Url, Web, Scored, urls_of, target, listing_score, info_score, sort_scored, same_host, is_off_site,
  note_link, note_links, anchors_on, find_listing_links, find_info_links,
}
use museumscraper.Exhibitions.Links.Ranking.{IsRanking, sort-IsRanking, urls-sort}

-- A link of the page that leads to this address, is let through, and has this score, which is not 0.
pub record IsLink (w : Web) (base : Url) (off_site : Url → Bool) (score : Bytes → Url → ℕ)
    (page : List Link) (l : Scored) : Type 0 where
  pub link : Link
  pub parsed : Url
  pub stands : Memᴰ link page
  pub leads : target w base link.href ≡ some (l.url, parsed)
  pub near : off_site parsed ≡ false
  pub scored : score link.label parsed ≡ l.score
  pub positive : (l.score == 0) ≡ false

module _ (w : Web) (base : Url) (off_site : Url → Bool) (score : Bytes → Url → ℕ) where
  urls_of-append :
      (ls : List Scored) (l : Scored) → urls_of (ls ++ l ∷ []) ≡ urls_of ls ++ l.url ∷ []
  unfolding urls_of
  urls_of-append [] l = refl
  urls_of-append (m ∷ ls) l = ap (λ us. m.url ∷ us) (urls_of-append ls l)

  abbrev IsFound : List Link → List Scored → Type 0
  IsFound page found = IsDistinct (urls_of found) × All (IsLink w base off_site score page) found

  note_link-IsFound :
      (page : List Link) (found : List Scored) (l : Link)
      → Memᴰ l page
      → IsFound page found
      → IsFound page (note_link w off_site score base found l)
  unfolding note_link
  note_link-IsFound page found l m (d, h) = elim (Option-cases (target w base l.href)) [
    | inl e ↦ rw (note_link, e) (d, h)
    | inr ((url, parsed), e) ↦ elim (Bool-cases (among (urls_of found) url || off_site parsed)) [
      | inl y ↦ rw (note_link, e, y) (d, h)
      | inr n ↦ elim (Bool-cases (score l.label parsed == 0)) [
        | inl y ↦ rw (note_link, e, n, y) (d, h)
        | inr k ↦
            let s : Scored = record { url = url; score = score l.label parsed } in
            rw (note_link, e, n, k)
              (
                subst IsDistinct (sym (urls_of-append found s))
                    (IsDistinct-append (urls_of found) url (ground (arith, n)) d),
                All-append (IsLink w base off_site score page) found s h (record {
                  link = l;
                  parsed = parsed;
                  stands = m;
                  leads = e;
                  near = ground (arith, n);
                  scored = refl;
                  positive = k;
                }),
              )
      ]
    ]
  ]

  note_links-IsFound :
      (page ls : List Link) (found : List Scored)
      → ((l : Link) → Memᴰ l ls → Memᴰ l page)
      → IsFound page found
      → IsFound page (note_links w off_site score base found ls)
  unfolding note_links
  note_links-IsFound page [] found m v = v
  note_links-IsFound page (l ∷ ls) found m v =
      note_links-IsFound page ls (note_link w off_site score base found l)
        (λ x h. m x (Memᴰ.tail h)) (note_link-IsFound page found l (m l (Memᴰ.head refl)) v)

  note_link-kept :
      (found : List Scored) (l : Link) (u : Bytes)
      → among (urls_of found) u ≡ true
      → among (urls_of (note_link w off_site score base found l)) u ≡ true
  unfolding note_link among urls_of
  note_link-kept found l u h = elim (Option-cases (target w base l.href)) [
    | inl e ↦ rw (note_link, e) h
    | inr ((url, parsed), e) ↦ elim (Bool-cases (among (urls_of found) url || off_site parsed)) [
      | inl y ↦ rw (note_link, e, y) h
      | inr n ↦ elim (Bool-cases (score l.label parsed == 0)) [
        | inl y ↦ rw (note_link, e, n, y) h
        | inr k ↦
            let s : Scored = record { url = url; score = score l.label parsed } in
            rw (note_link, e, n, k, urls_of-append found s)
              (ground (arith, h, among-append (urls_of found) (url ∷ []) u))
      ]
    ]
  ]

  note_links-kept :
      (found : List Scored) (ls : List Link) (u : Bytes)
      → among (urls_of found) u ≡ true
      → among (urls_of (note_links w off_site score base found ls)) u ≡ true
  unfolding note_links
  note_links-kept found [] u h = h
  note_links-kept found (l ∷ ls) u h =
      note_links-kept (note_link w off_site score base found l) ls u (note_link-kept found l u h)

  note_link-new :
      (found : List Scored) (l : Link) (url : Bytes) (parsed : Url)
      → target w base l.href ≡ some (url, parsed)
      → off_site parsed ≡ false
      → (score l.label parsed == 0) ≡ false
      → among (urls_of (note_link w off_site score base found l)) url ≡ true
  unfolding note_link among urls_of
  note_link-new found l url parsed e n k = elim (Bool-cases (among (urls_of found) url)) [
    | inl y ↦ rw (note_link, e, y) y
    | inr m ↦
        let s : Scored = record { url = url; score = score l.label parsed } in
        rw (note_link, e, m, n, k, urls_of-append found s)
          (ground (arith, among-append (urls_of found) (url ∷ []) url, equal_iff url url))
  ]

  note_links_complete :
      (found : List Scored) (ls : List Link) (l : Link) (url : Bytes) (parsed : Url)
      → Memᴰ l ls
      → target w base l.href ≡ some (url, parsed)
      → off_site parsed ≡ false
      → (score l.label parsed == 0) ≡ false
      → among (urls_of (note_links w off_site score base found ls)) url ≡ true
  unfolding note_links
  note_links_complete found [] l url parsed m t n k = elim m [ ]
  note_links_complete found (x ∷ ls) l url parsed (Memᴰ.head e) t n k =
      note_links-kept (note_link w off_site score base found x) ls url (
        subst (λ (y : Link). among (urls_of (note_link w off_site score base found y)) url ≡ true) e
          (note_link-new found l url parsed t n k))
  note_links_complete found (x ∷ ls) l url parsed (Memᴰ.tail m) t n k =
      note_links_complete (note_link w off_site score base found x) ls l url parsed m t n k

  ranking : List Link → List Scored
  ranking page = sort_scored [] (note_links w off_site score base [] page)

  ranking-IsRanking :
      (page : List Link) → IsRanking (IsLink w base off_site score page) (ranking page)
  unfolding ranking urls_of
  ranking-IsRanking page =
      let v = note_links-IsFound page page [] (λ l h. h) (tt, tt) in
      sort-IsRanking (IsLink w base off_site score page) (note_links w off_site score base [] page)
        v.0 v.1

module _ (w : Web) where
  -- What FindListingLinks gives is a ranking: no address stands twice, none comes before one with a
  -- higher score, and each is one that a link of the page leads to, on the same site where the page
  -- has a host, with the score of that link, which is not 0.
  pub find_listing_links-IsRanking :
      (page : Bytes) (base : Url)
      → (ranked : List Scored) × (urls_of ranked ≡ find_listing_links w page base)
        × IsRanking
            (IsLink w base (is_off_site w base) (listing_score w) (anchors_on w page))
            ranked
  unfolding find_listing_links ranking
  find_listing_links-IsRanking page base = (
    ranking w base (is_off_site w base) (listing_score w) (anchors_on w page),
    refl,
    ranking-IsRanking w base (is_off_site w base) (listing_score w) (anchors_on w page),
  )

  -- Every link of a page that leads to an address on its site and has a score is among those that
  -- FindListingLinks gives.
  pub find_listing_links_complete :
      (page : Bytes) (base : Url) (l : Link) (url : Bytes) (parsed : Url)
      → Memᴰ l (anchors_on w page)
      → target w base l.href ≡ some (url, parsed)
      → is_off_site w base parsed ≡ false
      → (listing_score w l.label parsed == 0) ≡ false
      → among (find_listing_links w page base) url ≡ true
  unfolding find_listing_links among urls_of
  find_listing_links_complete page base l url parsed m t n k =
      let off = is_off_site w base in
      let ls = note_links w off (listing_score w) base [] (anchors_on w page) in
      let listed =
        note_links_complete w base off (listing_score w) [] (anchors_on w page) l url parsed m t n
          k in
      ground (arith, listed, urls-sort ls [] url)

  -- What FindInfoLinks gives is a ranking in the same sense, all of it on the host of the page.
  pub find_info_links-IsRanking :
      (page : Bytes) (base : Url)
      → (ranked : List Scored) × (urls_of ranked ≡ find_info_links w page base)
        × IsRanking
            (IsLink w base (λ u. not (same_host w u base)) (info_score w) (anchors_on w page))
            ranked
  unfolding find_info_links ranking
  find_info_links-IsRanking page base = (
    ranking w base (λ u. not (same_host w u base)) (info_score w) (anchors_on w page),
    refl,
    ranking-IsRanking w base (λ u. not (same_host w u base)) (info_score w) (anchors_on w page),
  )
