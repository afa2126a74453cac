-- ===== src/Exhibitions/Programme/Reached.antt =====
-- pkg/exhibitions/service.go: what the flags of a result promise.
use museumscraper.Prelude.{
  ℕ, suc, ◌≡◌, refl, inl, inr, Bool, true, false, not, ◌&&◌, ◌||◌, Option, none, some, List, [],
  ◌∷◌, ◌++◌, arith, leb, Bool-cases, Option-cases, length,
}
use museumscraper.Text.Bytes.{Bytes, trim, among, equal}
use museumscraper.Exhibitions.Links.{Url, Web, lower, info_urls, candidate_listing_urls}
use museumscraper.Exhibitions.Fetch.{Validators, no_validators, is_none, Page, Network}
use museumscraper.Exhibitions.Listing.{Museum, Now, Exhibition}
use museumscraper.Exhibitions.Dedupe.{dedupe, merge_all, sort_stable}
use museumscraper.Exhibitions.Programme.{
  Survey, HomePage, Known, Result, missed, harvested, stop_if_found, read_home, home_urls,
  read_listings, read_permanent, permanent_display, nothing,
}
use museumscraper.Exhibitions.Programme.Heard.{IsBacked, for_site-IsBacked}
use museumscraper.Exhibitions.Programme.Answers.{
  finish, conclude, settle, read_displays, survey_site, read_site, ask_known, for_site, survey_from,
  with_scheme, usable, result_of,
}

-- Page.URL is where the request ended up, so a page that was fetched has one.
abbrev pub HasAddresses : Network → Type 0
HasAddresses net =
    (asked : List Bytes) (u : Bytes) (v : Validators) (page : Page)
    → net.fetch asked u v ≡ some page
    → equal page.url [] ≡ false

-- A site that was not reached has no exhibitions, and neither has one that has not changed, which was
-- reached.
record IsHonest (r : Result) : Type 0 where
  unreached : r.reached ≡ false → r.exhibitions ≡ []
  unchanged : r.unchanged ≡ true → (r.exhibitions ≡ []) × (r.reached ≡ true)

module _ (w : Web) (net : Network) (now : Now) (addresses : HasAddresses net) where
  abbrev IsFair : Survey → Type 0
  IsFair s = s.reached ≡ false → s.found ≡ []

  stop_if_found-IsFair :
      (es : List Exhibition) (page : Page) (after : Survey) (more : Survey × Bool)
      → IsFair after
      → IsFair (more.0)
      → IsFair ((stop_if_found w net now es page after more).0)
  unfolding stop_if_found
  stop_if_found-IsFair [] page after more h k = k
  stop_if_found-IsFair (e ∷ es) page after more h k = h

  harvested-IsFair :
      (base : Url) (m : Museum) (assume : Bool) (asked : List Bytes) (u : Bytes) (page : Page)
      (s : Survey)
      → net.fetch asked u no_validators ≡ some page
      → IsFair (harvested w net now base m assume u page s)
  harvested-IsFair base m assume asked u page s e h =
      absurd (ground (arith, h, addresses asked u no_validators page e))

  read_listings-IsFair :
      (base : Url) (m : Museum) (us : List Bytes) (s : Survey)
      → IsFair s
      → IsFair ((read_listings w net now base m us s).0)
  unfolding read_listings
  read_listings-IsFair base m [] s h = h
  read_listings-IsFair base m (u ∷ us) s h = elim (Bool-cases (net.is_cancelled s.asked)) [
    | inl y ↦ rw (read_listings, y) h
    | inr n ↦ elim (Bool-cases (leb 3 (length s.visited))) [
      | inl y ↦ rw (read_listings, n, y) h
      | inr k ↦ elim (Bool-cases (among s.visited u)) [
        | inl y ↦ rw (read_listings, n, k, y) (read_listings-IsFair base m us s h)
        | inr d ↦ elim (Option-cases (net.fetch s.asked u no_validators)) [
          | inl e ↦
              rw (read_listings, n, k, d, e)
                (read_listings-IsFair base m us (missed w net now u s) h)
          | inr (page, e) ↦
              let after = harvested w net now base m false u page s in
              let fair = harvested-IsFair base m false s.asked u page s e in
              rw (read_listings, n, k, d, e)
                (stop_if_found-IsFair after.found page after
                  (read_listings w net now base m us after) fair
                  (read_listings-IsFair base m us after fair))
        ]
      ]
    ]
  ]

  read_permanent-IsFair :
      (base : Url) (m : Museum) (pages : ℕ) (us : List Bytes) (s : Survey)
      → IsFair s
      → IsFair ((read_permanent w net now base m pages us s).0)
  unfolding read_permanent
  read_permanent-IsFair base m pages [] s h = h
  read_permanent-IsFair base m pages (u ∷ us) s h = elim (Bool-cases (net.is_cancelled s.asked)) [
    | inl y ↦ rw (read_permanent, y) h
    | inr n ↦ elim (Bool-cases (leb 2 pages)) [
      | inl y ↦ rw (read_permanent, n, y) h
      | inr k ↦ elim (Bool-cases (among s.visited u)) [
        | inl y ↦ rw (read_permanent, n, k, y) (read_permanent-IsFair base m pages us s h)
        | inr d ↦ elim (Option-cases (net.fetch s.asked u no_validators)) [
          | inl e ↦
              rw (read_permanent, n, k, d, e)
                (read_permanent-IsFair base m (suc pages) us (missed w net now u s) h)
          | inr (page, e) ↦
              rw (read_permanent, n, k, d, e)
                (read_permanent-IsFair base m (suc pages) us
                  (harvested w net now base m true u page s)
                  (harvested-IsFair base m true s.asked u page s e))
        ]
      ]
    ]
  ]

  dedupe-nil : (es : List Exhibition) → es ≡ [] → dedupe (lower w) es ≡ []
  unfolding dedupe merge_all sort_stable
  dedupe-nil es e = rw e refl

  result_of-IsHonest :
      (s : Survey) (es : List Exhibition)
      → (s.reached ≡ false → es ≡ [])
      → IsHonest (result_of w net now es s)
  result_of-IsHonest s es h = record {
    unreached = h;
    unchanged = λ (e : false ≡ true). absurd (ground (arith, e));
  }

  finish-IsHonest :
      (s : Survey) (display : Option Exhibition) → IsFair s → IsHonest (finish w net now s display)
  unfolding finish
  finish-IsHonest s none h =
      result_of-IsHonest s (dedupe (lower w) s.found) (λ e. dedupe-nil s.found (h e))
  finish-IsHonest s (some display) h = record {
    unreached = λ (e : true ≡ false). absurd (ground (arith, e));
    unchanged = λ (e : false ≡ true). absurd (ground (arith, e));
  }

  conclude-IsHonest :
      (es : List Exhibition) (base : Url) (home : HomePage) (m : Museum) (s : Survey)
      → IsFair s
      → IsHonest ((conclude w net now es base home m s).0)
  unfolding conclude
  conclude-IsHonest [] base home m s h =
      finish-IsHonest s
        ((permanent_display w net now m [] s.asked
          (home.permanent ++ (home.info ++ info_urls w base))).0)
        h
  conclude-IsHonest (e ∷ es) base home m s h = finish-IsHonest s none h

  settle-IsHonest :
      (base : Url) (home : HomePage) (m : Museum) (s : Survey) (stopped : Bool)
      → IsFair s
      → IsHonest (settle w net now base home m (s, stopped)).result
  unfolding settle
  settle-IsHonest base home m s true h =
      result_of-IsHonest s (dedupe (lower w) s.found) (λ e. dedupe-nil s.found (h e))
  settle-IsHonest base home m s false h = conclude-IsHonest s.found base home m s h

  read_displays-IsHonest :
      (base : Url) (home : HomePage) (m : Museum) (s : Survey) (stopped : Bool)
      → IsFair s
      → IsHonest (read_displays w net now base home m (s, stopped)).result
  unfolding read_displays
  read_displays-IsHonest base home m s true h = result_of-IsHonest s s.found h
  read_displays-IsHonest base home m s false h =
      let read = read_permanent w net now base m 0 home.permanent s in
      settle-IsHonest base home m (read.0) (read.1)
        (read_permanent-IsFair base m 0 home.permanent s h)

  survey_site-IsHonest :
      (base : Url) (m : Museum) (asked : List Bytes)
      → IsHonest (survey_site w net now base m asked).result
  unfolding survey_site
  survey_site-IsHonest base m asked =
      let start = read_home w net now base asked (home_urls w net now base) in
      let urls = (start.0).listings ++ candidate_listing_urls w base in
      let listed = read_listings w net now base m urls (survey_from w net now start) in
      read_displays-IsHonest base (start.0) m (listed.0) (listed.1)
        (read_listings-IsFair base m urls (survey_from w net now start) (λ e. refl))

  nothing-IsHonest : IsHonest nothing
  nothing-IsHonest = record {
    unreached = λ e. refl;
    unchanged = λ (e : false ≡ true). absurd (ground (arith, e));
  }

  read_site-IsHonest :
      (m : Museum) (asked : List Bytes) → IsHonest (read_site w net now m asked).result
  unfolding read_site
  read_site-IsHonest m asked =
      elim (Option-cases (usable w net now (w.parse_url (trim m.website)))) [
        | inl e ↦ rw (read_site, e) nothing-IsHonest
        | inr (u, e) ↦ rw (read_site, e) (survey_site-IsHonest (with_scheme w net now u) m asked)
      ]

  ask_known-IsHonest :
      (m : Museum) (k : Known) (answer : Option Page)
      → IsHonest (ask_known w net now m k answer).result
  unfolding ask_known
  ask_known-IsHonest m k none = read_site-IsHonest m (k.listing_url ∷ [])
  ask_known-IsHonest m k (some page) = elim (Bool-cases page.unchanged) [
    | inl y ↦
        rw (ask_known, y)
          (record {
            unreached = λ (e : true ≡ false). absurd (ground (arith, e));
            unchanged = λ e. (refl, refl);
          })
    | inr n ↦ rw (ask_known, n) (read_site-IsHonest m (k.listing_url ∷ []))
  ]

  for_site-IsHonest : (m : Museum) (k : Known) → IsHonest (for_site w net now m k).result
  unfolding for_site
  for_site-IsHonest m k = elim (Bool-cases (equal (trim m.website) [])) [
    | inl y ↦ rw (for_site, y) nothing-IsHonest
    | inr n ↦ elim (Bool-cases (equal k.listing_url [] || is_none k.validators)) [
      | inl y ↦ rw (for_site, n, y) (read_site-IsHonest m [])
      | inr f ↦
          rw (for_site, n, f) (ask_known-IsHonest m k (net.fetch [] k.listing_url k.validators))
    ]
  ]

-- A result that was not reached has no exhibitions; one that has not changed was reached and has none.
abbrev pub is_empty : List Exhibition → Bool
is_empty [] = true
is_empty (e ∷ es) = false

abbrev pub is_honest : Result → Bool
is_honest r =
    (r.reached || is_empty r.exhibitions)
    && (not r.unchanged || (r.reached && is_empty r.exhibitions))

IsHonest-honest : (r : Result) → IsHonest r → is_honest r ≡ true
IsHonest-honest r h = elim (Bool-cases r.reached) [
  | inl y ↦ elim (Bool-cases r.unchanged) [
    | inl z ↦ rw (y, z, (h.unchanged z).0) refl
    | inr n ↦ rw (y, n) refl
  ]
  | inr n ↦ elim (Bool-cases r.unchanged) [
    | inl z ↦ absurd (ground (arith, n, (h.unchanged z).1))
    | inr k ↦ rw (n, k, h.unreached n) refl
  ]
]

module _ (w : Web) (net : Network) (now : Now) (addresses : HasAddresses net) where
  -- Where every page that is fetched has an address: a site counts as reached only if one of the
  -- requests that were made for it was answered with a page, so a site whose requests all fail never
  -- does; a result that was not reached has no exhibitions; and one that is reported as unchanged was
  -- reached and has none either.
  pub for_site-honest :
      (m : Museum) (k : Known)
      → (is_honest (for_site w net now m k).result ≡ true)
        × IsBacked net k ((for_site w net now m k).result).reached (for_site w net now m k).asked
  for_site-honest m k = (
    IsHonest-honest (for_site w net now m k).result (for_site-IsHonest w net now addresses m k),
    for_site-IsBacked w net now m k,
  )
