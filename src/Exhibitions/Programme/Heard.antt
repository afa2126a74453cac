-- ===== src/Exhibitions/Programme/Heard.antt =====
-- pkg/exhibitions/service.go: a site that counts as reached has answered some request.
use museumscraper.Prelude.{
  ℕ, suc, ◌≡◌, refl, ◌⊎◌, inl, inr, Bool, true, false, ◌||◌, Option, none, some, List, [], ◌∷◌,
  ◌++◌, leb, Bool-cases, Option-cases, length,
}
use museumscraper.Text.Bytes.{Bytes, trim, among, equal}
use museumscraper.Exhibitions.Links.{Url, Web, info_urls, candidate_listing_urls}
use museumscraper.Exhibitions.Displays.{describes_display}
use museumscraper.Exhibitions.Fetch.{no_validators, is_none, Page, Network}
use museumscraper.Exhibitions.Listing.{Museum, Now, Exhibition}
use museumscraper.Exhibitions.Programme.{
  Survey, HomePage, Known, Answer, missed, harvested, stop_if_found, read_home, home_urls,
  read_listings, read_permanent, permanent_display,
}
use museumscraper.Exhibitions.Programme.Answers.{
  finish, conclude, settle, read_displays, survey_site, read_site, ask_known, for_site, survey_from,
  with_scheme, usable,
}

-- One of these requests, the last of them first, was answered with a page: a plain one, or the first of
-- them if it asked whether the known listing page has changed.
abbrev pub IsHeard : Network → Known → List Bytes → Type 0
IsHeard net known [] = ⊥
IsHeard net known (u ∷ us) =
    ((page : Page) × (net.fetch us u no_validators ≡ some page))
    ⊎ ((us ≡ [])
        × (u ≡ known.listing_url)
        × ((page : Page) × (net.fetch us u known.validators ≡ some page)))
    ⊎ IsHeard net known us

-- Not reached, or answered.
abbrev pub IsBacked : Network → Known → Bool → List Bytes → Type 0
IsBacked net known reached asked = (reached ≡ false) ⊎ IsHeard net known asked

module _ (w : Web) (net : Network) (now : Now) (known : Known) where
  IsBacked-cons :
      (reached : Bool) (u : Bytes) (asked : List Bytes)
      → IsBacked net known reached asked
      → IsBacked net known reached (u ∷ asked)
  IsBacked-cons reached u asked (inl h) = inl h
  IsBacked-cons reached u asked (inr h) = inr (inr (inr h))

  read_home-IsBacked :
      (base : Url) (asked us : List Bytes)
      → IsBacked net known
          ((read_home w net now base asked us).0).reached
          ((read_home w net now base asked us).1)
  unfolding read_home
  read_home-IsBacked base asked [] = inl refl
  read_home-IsBacked base asked (u ∷ us) = elim (Option-cases (net.fetch asked u no_validators)) [
    | inl e ↦ rw (read_home, e) (read_home-IsBacked base (u ∷ asked) us)
    | inr (page, e) ↦ rw (read_home, e) (inr (inl (page, e)))
  ]

  abbrev IsSure : Survey → Type 0
  IsSure s = IsBacked net known s.reached s.asked

  stop_if_found-IsSure :
      (es : List Exhibition) (page : Page) (after : Survey) (more : Survey × Bool)
      → IsSure after
      → IsSure (more.0)
      → IsSure ((stop_if_found w net now es page after more).0)
  unfolding stop_if_found
  stop_if_found-IsSure [] page after more h k = k
  stop_if_found-IsSure (e ∷ es) page after more h k = h

  read_listings-IsSure :
      (base : Url) (m : Museum) (us : List Bytes) (s : Survey)
      → IsSure s
      → IsSure ((read_listings w net now base m us s).0)
  unfolding read_listings
  read_listings-IsSure base m [] s h = h
  read_listings-IsSure base m (u ∷ us) s h = elim (Bool-cases (net.is_cancelled s.asked)) [
    | inl y ↦ rw (read_listings, y) h
    | inr n ↦ elim (Bool-cases (leb 3 (length s.visited))) [
      | inl y ↦ rw (read_listings, n, y) h
      | inr k ↦ elim (Bool-cases (among s.visited u)) [
        | inl y ↦ rw (read_listings, n, k, y) (read_listings-IsSure base m us s h)
        | inr d ↦ elim (Option-cases (net.fetch s.asked u no_validators)) [
          | inl e ↦
              rw (read_listings, n, k, d, e)
                (read_listings-IsSure base m us (missed w net now u s)
                  (IsBacked-cons s.reached u s.asked h))
          | inr (page, e) ↦
              let after = harvested w net now base m false u page s in
              let sure : IsSure after = inr (inl (page, e)) in
              rw (read_listings, n, k, d, e)
                (stop_if_found-IsSure after.found page after
                  (read_listings w net now base m us after) sure
                  (read_listings-IsSure base m us after sure))
        ]
      ]
    ]
  ]

  read_permanent-IsSure :
      (base : Url) (m : Museum) (pages : ℕ) (us : List Bytes) (s : Survey)
      → IsSure s
      → IsSure ((read_permanent w net now base m pages us s).0)
  unfolding read_permanent
  read_permanent-IsSure base m pages [] s h = h
  read_permanent-IsSure base m pages (u ∷ us) s h = elim (Bool-cases (net.is_cancelled s.asked)) [
    | inl y ↦ rw (read_permanent, y) h
    | inr n ↦ elim (Bool-cases (leb 2 pages)) [
      | inl y ↦ rw (read_permanent, n, y) h
      | inr k ↦ elim (Bool-cases (among s.visited u)) [
        | inl y ↦ rw (read_permanent, n, k, y) (read_permanent-IsSure base m pages us s h)
        | inr d ↦ elim (Option-cases (net.fetch s.asked u no_validators)) [
          | inl e ↦
              rw (read_permanent, n, k, d, e)
                (read_permanent-IsSure base m (suc pages) us (missed w net now u s)
                  (IsBacked-cons s.reached u s.asked h))
          | inr (page, e) ↦
              rw (read_permanent, n, k, d, e)
                (read_permanent-IsSure base m (suc pages) us
                  (harvested w net now base m true u page s) (inr (inl (page, e))))
        ]
      ]
    ]
  ]

  -- What permanentDisplay gives comes from a page that was answered, and else the requests before it
  -- still count.
  abbrev IsShown : Bool → Option Exhibition × List Bytes → Type 0
  IsShown reached (none, asked) = IsBacked net known reached asked
  IsShown reached (some display, asked) = IsHeard net known asked

  permanent_display-IsShown :
      (m : Museum) (reached : Bool) (tried asked us : List Bytes)
      → IsBacked net known reached asked
      → IsShown reached (permanent_display w net now m tried asked us)
  unfolding permanent_display
  permanent_display-IsShown m reached tried asked [] h = h
  permanent_display-IsShown m reached tried asked (u ∷ us) h =
      let later = IsBacked-cons reached u asked h in
      elim (Bool-cases (net.is_cancelled asked)) [
        | inl y ↦ rw (permanent_display, y) h
        | inr n ↦ elim (Bool-cases (leb 2 (length tried))) [
          | inl y ↦ rw (permanent_display, n, y) h
          | inr k ↦ elim (Bool-cases (among tried u)) [
            | inl y ↦
                rw (permanent_display, n, k, y)
                  (permanent_display-IsShown m reached tried asked us h)
            | inr d ↦ elim (Option-cases (net.fetch asked u no_validators)) [
              | inl e ↦
                  rw (permanent_display, n, k, d, e)
                    (permanent_display-IsShown m reached (u ∷ tried) (u ∷ asked) us later)
              | inr (page, e) ↦ elim (Bool-cases (describes_display w page.body)) [
                | inl y ↦ rw (permanent_display, n, k, d, e, y) (inl (page, e))
                | inr z ↦
                    rw (permanent_display, n, k, d, e, z)
                      (permanent_display-IsShown m reached (u ∷ tried) (u ∷ asked) us later)
              ]
            ]
          ]
        ]
      ]

  finish-IsBacked :
      (s : Survey) (shown : Option Exhibition × List Bytes)
      → IsShown s.reached shown
      → IsBacked net known (finish w net now s (shown.0)).reached (shown.1)
  unfolding finish
  finish-IsBacked s (none, asked) h = h
  finish-IsBacked s (some display, asked) h = inr h

  conclude-IsBacked :
      (es : List Exhibition) (base : Url) (home : HomePage) (m : Museum) (s : Survey)
      → IsSure s
      → IsBacked net known
          ((conclude w net now es base home m s).0).reached
          ((conclude w net now es base home m s).1)
  unfolding conclude
  conclude-IsBacked [] base home m s h =
      let urls = home.permanent ++ (home.info ++ info_urls w base) in
      finish-IsBacked s (permanent_display w net now m [] s.asked urls)
        (permanent_display-IsShown m s.reached [] s.asked urls h)
  conclude-IsBacked (e ∷ es) base home m s h = finish-IsBacked s (none, s.asked) h

  abbrev IsAnswered : Answer → Type 0
  IsAnswered a = IsBacked net known (a.result).reached a.asked

  settle-IsAnswered :
      (base : Url) (home : HomePage) (m : Museum) (s : Survey) (stopped : Bool)
      → IsSure s
      → IsAnswered (settle w net now base home m (s, stopped))
  unfolding settle
  settle-IsAnswered base home m s true h = h
  settle-IsAnswered base home m s false h = conclude-IsBacked s.found base home m s h

  read_displays-IsAnswered :
      (base : Url) (home : HomePage) (m : Museum) (s : Survey) (stopped : Bool)
      → IsSure s
      → IsAnswered (read_displays w net now base home m (s, stopped))
  unfolding read_displays
  read_displays-IsAnswered base home m s true h = h
  read_displays-IsAnswered base home m s false h =
      let read = read_permanent w net now base m 0 home.permanent s in
      settle-IsAnswered base home m (read.0) (read.1)
        (read_permanent-IsSure base m 0 home.permanent s h)

  survey_site-IsAnswered :
      (base : Url) (m : Museum) (asked : List Bytes)
      → IsAnswered (survey_site w net now base m asked)
  unfolding survey_site
  survey_site-IsAnswered base m asked =
      let start = read_home w net now base asked (home_urls w net now base) in
      let urls = (start.0).listings ++ candidate_listing_urls w base in
      let listed = read_listings w net now base m urls (survey_from w net now start) in
      read_displays-IsAnswered base (start.0) m (listed.0) (listed.1) (
        read_listings-IsSure base m urls (survey_from w net now start)
          (read_home-IsBacked base asked (home_urls w net now base)))

  read_site-IsAnswered :
      (m : Museum) (asked : List Bytes) → IsAnswered (read_site w net now m asked)
  unfolding read_site
  read_site-IsAnswered m asked =
      elim (Option-cases (usable w net now (w.parse_url (trim m.website)))) [
        | inl e ↦ rw (read_site, e) (inl refl)
        | inr (u, e) ↦ rw (read_site, e) (survey_site-IsAnswered (with_scheme w net now u) m asked)
      ]

module _ (w : Web) (net : Network) (now : Now) where
  ask_known-IsAnswered :
      (m : Museum) (k : Known) (answer : Option Page)
      → net.fetch [] k.listing_url k.validators ≡ answer
      → IsAnswered w net now k (ask_known w net now m k answer)
  unfolding ask_known
  ask_known-IsAnswered m k none e = read_site-IsAnswered w net now k m (k.listing_url ∷ [])
  ask_known-IsAnswered m k (some page) e = elim (Bool-cases page.unchanged) [
    | inl y ↦ rw (ask_known, y) (inr (inr (inl (refl, refl, (page, e)))))
    | inr n ↦ rw (ask_known, n) (read_site-IsAnswered w net now k m (k.listing_url ∷ []))
  ]

  -- A result that counts as reached has an answered request behind it.
  pub for_site-IsBacked :
      (m : Museum) (k : Known)
      → IsBacked net k ((for_site w net now m k).result).reached (for_site w net now m k).asked
  unfolding for_site
  for_site-IsBacked m k = elim (Bool-cases (equal (trim m.website) [])) [
    | inl y ↦ rw (for_site, y) (inl refl)
    | inr n ↦ elim (Bool-cases (equal k.listing_url [] || is_none k.validators)) [
      | inl y ↦ rw (for_site, n, y) (read_site-IsAnswered w net now k m [])
      | inr f ↦
          rw (for_site, n, f)
            (ask_known-IsAnswered m k (net.fetch [] k.listing_url k.validators) refl)
    ]
  ]
