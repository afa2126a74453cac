-- ===== src/Exhibitions/Programme/Budget.antt =====
-- pkg/exhibitions/service.go: how many requests the reading of a site makes.
use museumscraper.Prelude.{
  ℕ, suc, ◌+◌, ◌≤◌, ◌≡◌, inl, inr, Bool, true, false, ◌||◌, Option, none, some, List, [], ◌∷◌, ◌++◌,
  arith, leb, Bool-cases, Option-cases, length,
}
use museumscraper.Text.Bytes.{Bytes, trim, among, equal}
use museumscraper.Exhibitions.Links.{Url, Web, info_urls, candidate_listing_urls}
use museumscraper.Exhibitions.Displays.{describes_display}
use museumscraper.Exhibitions.Fetch.{no_validators, is_none, Page, Network}
use museumscraper.Exhibitions.Listing.{Museum, Now, Exhibition}
use museumscraper.Exhibitions.Programme.{
  Survey, HomePage, Known, missed, harvested, stop_if_found, read_home, home_urls, read_listings,
  read_permanent, permanent_display,
}
use museumscraper.Exhibitions.Programme.Answers.{
  conclude, settle, read_displays, survey_site, read_site, ask_known, for_site, survey_from,
  with_scheme, usable,
}

module _ (w : Web) (net : Network) (now : Now) where
  read_home-count :
      (base : Url) (asked us : List Bytes)
      → length ((read_home w net now base asked us).1) ≤ length asked + length us
  unfolding read_home
  read_home-count base asked [] = omega arith
  read_home-count base asked (u ∷ us) = elim (Option-cases (net.fetch asked u no_validators)) [
    | inl e ↦ rw (read_home, e) (omega (arith, read_home-count base (u ∷ asked) us))
    | inr (page, e) ↦ rw (read_home, e) (omega arith)
  ]

  home_urls-count : (base : Url) → length (home_urls w net now base) ≤ 2
  unfolding home_urls
  home_urls-count base = ground arith

  -- What is visited is asked for, and no more than the budget is visited.
  abbrev IsWithin : Survey → Survey → Type 0
  IsWithin s t =
      (length t.visited ≤ 3)
      × (length t.asked + length s.visited ≡ length s.asked + length t.visited)

  stop_if_found-IsWithin :
      (s : Survey) (es : List Exhibition) (page : Page) (after : Survey) (more : Survey × Bool)
      → IsWithin s after
      → IsWithin s (more.0)
      → IsWithin s ((stop_if_found w net now es page after more).0)
  unfolding stop_if_found
  stop_if_found-IsWithin s [] page after more h k = k
  stop_if_found-IsWithin s (e ∷ es) page after more h k = h

  read_listings-IsWithin :
      (base : Url) (m : Museum) (us : List Bytes) (s : Survey)
      → length s.visited ≤ 3
      → IsWithin s ((read_listings w net now base m us s).0)
  unfolding read_listings
  read_listings-IsWithin base m [] s h = (h, omega arith)
  read_listings-IsWithin base m (u ∷ us) s h = elim (Bool-cases (net.is_cancelled s.asked)) [
    | inl y ↦ rw (read_listings, y) (h, omega arith)
    | inr n ↦ elim (Bool-cases (leb 3 (length s.visited))) [
      | inl y ↦ rw (read_listings, n, y) (h, omega arith)
      | inr k ↦ elim (Bool-cases (among s.visited u)) [
        | inl y ↦ rw (read_listings, n, k, y) (read_listings-IsWithin base m us s h)
        | inr d ↦ elim (Option-cases (net.fetch s.asked u no_validators)) [
          | inl e ↦
              let more =
                read_listings-IsWithin base m us (missed w net now u s) (ground (arith, k)) in
              rw (read_listings, n, k, d, e) (more.0, omega (arith, more.1))
          | inr (page, e) ↦
              let after = harvested w net now base m false u page s in
              let more = read_listings-IsWithin base m us after (ground (arith, k)) in
              rw (read_listings, n, k, d, e)
                (stop_if_found-IsWithin s after.found page after
                  (read_listings w net now base m us after) (ground (arith, k), omega arith)
                  (more.0, omega (arith, more.1)))
        ]
      ]
    ]
  ]

  read_permanent-count :
      (base : Url) (m : Museum) (pages : ℕ) (us : List Bytes) (s : Survey)
      → pages ≤ 2
      → length ((read_permanent w net now base m pages us s).0).asked + pages ≤ length s.asked + 2
  unfolding read_permanent
  read_permanent-count base m pages [] s h = omega (arith, h)
  read_permanent-count base m pages (u ∷ us) s h = elim (Bool-cases (net.is_cancelled s.asked)) [
    | inl y ↦ rw (read_permanent, y) (omega (arith, h))
    | inr n ↦ elim (Bool-cases (leb 2 pages)) [
      | inl y ↦ rw (read_permanent, n, y) (omega (arith, h))
      | inr k ↦ elim (Bool-cases (among s.visited u)) [
        | inl y ↦ rw (read_permanent, n, k, y) (read_permanent-count base m pages us s h)
        | inr d ↦
            let low : suc pages ≤ 2 = ground (arith, k) in
            elim (Option-cases (net.fetch s.asked u no_validators)) [
              | inl e ↦
                  let more =
                    read_permanent-count base m (suc pages) us (missed w net now u s) low in
                  rw (read_permanent, n, k, d, e) (omega (arith, more))
              | inr (page, e) ↦
                  let after = harvested w net now base m true u page s in
                  let more = read_permanent-count base m (suc pages) us after low in
                  rw (read_permanent, n, k, d, e) (omega (arith, more))
            ]
      ]
    ]
  ]

  permanent_display-count :
      (m : Museum) (tried asked us : List Bytes)
      → length tried ≤ 2
      → length ((permanent_display w net now m tried asked us).1) + length tried ≤ length asked + 2
  unfolding permanent_display
  permanent_display-count m tried asked [] h = omega (arith, h)
  permanent_display-count m tried asked (u ∷ us) h = elim (Bool-cases (net.is_cancelled asked)) [
    | inl y ↦ rw (permanent_display, y) (omega (arith, h))
    | inr n ↦ elim (Bool-cases (leb 2 (length tried))) [
      | inl y ↦ rw (permanent_display, n, y) (omega (arith, h))
      | inr k ↦ elim (Bool-cases (among tried u)) [
        | inl y ↦ rw (permanent_display, n, k, y) (permanent_display-count m tried asked us h)
        | inr d ↦
            let low : suc (length tried) ≤ 2 = ground (arith, k) in
            let more = permanent_display-count m (u ∷ tried) (u ∷ asked) us low in
            elim (Option-cases (net.fetch asked u no_validators)) [
              | inl e ↦ rw (permanent_display, n, k, d, e) (omega (arith, more))
              | inr (page, e) ↦ elim (Bool-cases (describes_display w page.body)) [
                | inl y ↦ rw (permanent_display, n, k, d, e, y) (omega (arith, low))
                | inr z ↦ rw (permanent_display, n, k, d, e, z) (omega (arith, more))
              ]
            ]
      ]
    ]
  ]

  conclude-count :
      (es : List Exhibition) (base : Url) (home : HomePage) (m : Museum) (s : Survey)
      → length ((conclude w net now es base home m s).1) ≤ length s.asked + 2
  unfolding conclude
  conclude-count [] base home m s =
      let more =
        permanent_display-count m [] s.asked (home.permanent ++ (home.info ++ info_urls w base))
          (omega arith) in
      omega (arith, more)
  conclude-count (e ∷ es) base home m s = omega arith

  settle-count :
      (base : Url) (home : HomePage) (m : Museum) (s : Survey) (stopped : Bool)
      → length (settle w net now base home m (s, stopped)).asked ≤ length s.asked + 2
  unfolding settle
  settle-count base home m s true = omega arith
  settle-count base home m s false = conclude-count s.found base home m s

  read_displays-count :
      (base : Url) (home : HomePage) (m : Museum) (s : Survey) (stopped : Bool)
      → length (read_displays w net now base home m (s, stopped)).asked ≤ length s.asked + 4
  unfolding read_displays
  read_displays-count base home m s true = omega arith
  read_displays-count base home m s false =
      let (t, stopped) = read_permanent w net now base m 0 home.permanent s in
      omega (
        arith,
        read_permanent-count base m 0 home.permanent s (omega arith),
        settle-count base home m ((read_permanent w net now base m 0 home.permanent s).0)
            ((read_permanent w net now base m 0 home.permanent s).1),
      )

  survey_site-count :
      (base : Url) (m : Museum) (asked : List Bytes)
      → length (survey_site w net now base m asked).asked ≤ length asked + 9
  unfolding survey_site
  survey_site-count base m asked =
      let start = read_home w net now base asked (home_urls w net now base) in
      let urls = (start.0).listings ++ candidate_listing_urls w base in
      let s = survey_from w net now start in
      let listed = read_listings-IsWithin base m urls s (omega arith) in
      omega (
        arith,
        listed.0,
        listed.1,
        home_urls-count base,
        read_home-count base asked (home_urls w net now base),
        read_displays-count base (start.0) m ((read_listings w net now base m urls s).0)
            ((read_listings w net now base m urls s).1),
      )

  read_site-count :
      (m : Museum) (asked : List Bytes)
      → length (read_site w net now m asked).asked ≤ length asked + 9
  unfolding read_site
  read_site-count m asked = elim (Option-cases (usable w net now (w.parse_url (trim m.website)))) [
    | inl e ↦ rw (read_site, e) (omega arith)
    | inr (u, e) ↦ rw (read_site, e) (survey_site-count (with_scheme w net now u) m asked)
  ]

  ask_known-count :
      (m : Museum) (k : Known) (answer : Option Page)
      → length (ask_known w net now m k answer).asked ≤ 10
  unfolding ask_known
  ask_known-count m k none = read_site-count m (k.listing_url ∷ [])
  ask_known-count m k (some page) = elim (Bool-cases page.unchanged) [
    | inl y ↦ rw (ask_known, y) (omega arith)
    | inr n ↦ rw (ask_known, n) (read_site-count m (k.listing_url ∷ []))
  ]

  -- However many links its pages have, and whatever they answer, the reading of a site makes at most
  -- ten requests for pages.
  pub for_site-bound : (m : Museum) (k : Known) → length (for_site w net now m k).asked ≤ 10
  unfolding for_site
  for_site-bound m k = elim (Bool-cases (equal (trim m.website) [])) [
    | inl y ↦ rw (for_site, y) (omega arith)
    | inr n ↦ elim (Bool-cases (equal k.listing_url [] || is_none k.validators)) [
      | inl y ↦ rw (for_site, n, y) (omega (arith, read_site-count m []))
      | inr f ↦ rw (for_site, n, f) (ask_known-count m k (net.fetch [] k.listing_url k.validators))
    ]
  ]
