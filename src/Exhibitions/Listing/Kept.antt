-- ===== src/Exhibitions/Listing/Kept.antt =====
-- pkg/exhibitions/service.go: what holds of the exhibitions that are read off a listing page.
use museumscraper.Prelude.{
  ◌≡◌, refl, inl, inr, Bool, true, false, not, ◌&&◌, ◌||◌, Option, none, some, List, [], ◌∷◌, arith,
  Held, Held-if, if◌then◌else◌, Bool-cases, All,
}
use mathlib.Core.Path.{subst}
use museumscraper.Text.Bytes.{Bytes, among, equal}
use museumscraper.Text.Distinct.{IsDistinct}
use museumscraper.Exhibitions.Calendar.{Date}
use museumscraper.Exhibitions.Dates.{DateRange, is_zero, runs, upcoming}
use museumscraper.Exhibitions.Links.{Url, Web}
use museumscraper.Exhibitions.Displays.{is_permanent_listing, names_exhibitions}
use museumscraper.Exhibitions.Candidates.{Candidate, candidate_urls}
use museumscraper.Exhibitions.Candidates.Declared.{candidates_on}
use museumscraper.Exhibitions.Candidates.Declared.Both.{candidates_on_lem}
use museumscraper.Exhibitions.Fetch.{Page}
use museumscraper.Exhibitions.Listing.{
  urls, Museum, Now, Exhibition, Standing, dated, standing, undated, is_standing, Reading, is_run,
  dated_permanent, is_running, is_upcoming, entry, admit, judge_entry, judge_entries, keep, or_base,
  harvest, dates_for, standing_of, undated_listing, candidate_is_permanent, opens, ends_after,
}

-- It is on or to come, and not both; a permanent one is on; it is no page that was read as a listing.
abbrev pub is_on_show : (read_as_listing : List Bytes) → Exhibition → Bool
is_on_show read_as_listing e =
    (e.running || e.upcoming)
    && not (e.running && e.upcoming)
    && (not e.permanent || e.running)
    && not (among read_as_listing e.url)

runs-not_upcoming :
    (r : DateRange) (day : Date) → r.permanent ≡ false → (runs r day && upcoming r day) ≡ false
unfolding runs upcoming
runs-not_upcoming r day h = rw h (ground arith)

-- An opening date, and a closing date after it or none at all.
abbrev pub is_period : Exhibition → Bool
is_period e = opens e.start && (ends_after e.start e.end || e.permanent)

ends_after-opens : (a b : Option Date) → ends_after a b ≡ true → opens a ≡ true
ends_after-opens none b h = absurd (ground (arith, h))
ends_after-opens (some a) b h = refl

module _ (w : Web) (now : Now) (m : Museum) (r : Reading) (listings : List Bytes) where
  -- The one thing that the standing says of the dates.
  abbrev Fits : DateRange → Standing → Type 0
  Fits dates s = (is_standing s || not dates.permanent) ≡ true

  abbrev IsKept : Bytes → Exhibition → Type 0
  IsKept url e =
      (is_on_show listings e ≡ true)
      × (e.source_page ≡ r.final_url)
      × (e.museum ≡ m.name)
      × (e.url ≡ url)

  standing_of-Fits :
      (c : Candidate) (dates : DateRange) → Held (Fits dates) (standing_of w now r c dates)
  unfolding standing_of
  standing_of-Fits c dates = elim (Bool-cases dates.permanent) [
    | inl y ↦ rw (standing_of, y) refl
    | inr n ↦ elim (Bool-cases (not (is_zero dates))) [
      | inl y ↦ rw (standing_of, n, y) (ground (arith, n))
      | inr z ↦ elim (Bool-cases (candidate_is_permanent w now c r.permanent)) [
        | inl y ↦ rw (standing_of, n, z, y) refl
        | inr k ↦ elim (Bool-cases r.undated) [
          | inl y ↦ rw (standing_of, n, z, k, y) (ground (arith, n))
          | inr u ↦ rw (standing_of, n, z, k, u) tt
        ]
      ]
    ]
  ]

  on_show :
      (c : Candidate) (dates : DateRange) (s : Standing)
      → Fits dates s
      → among listings c.url ≡ false
      → (not (is_running w now s dates) && not (is_upcoming w now s dates)) ≡ false
      → is_on_show listings (entry w now m r c dates s) ≡ true
  on_show c dates dated f h k =
      ground (arith, h, k, f, runs-not_upcoming dates now.today (ground (arith, f)))
  on_show c dates standing f h k = ground (arith, h)
  on_show c dates undated f h k = ground (arith, h)

  period :
      (c : Candidate) (dates : DateRange) (s : Standing)
      → Fits dates s
      → (not (is_run dates) && not (dated_permanent dates)) ≡ false
      → is_period (entry w now m r c dates s) ≡ true
  unfolding is_run dated_permanent
  period c dates s f h = elim (Bool-cases (ends_after dates.start dates.end)) [
    | inl y ↦ ground (arith, y, ends_after-opens dates.start dates.end y)
    | inr n ↦ ground (arith, n, h, f)
  ]

  admit-period :
      (c : Candidate) (dates : DateRange) (s : Option Standing)
      → c.vouched ≡ true
      → Held (Fits dates) s
      → Held (λ (e : Exhibition). is_period e ≡ true) (admit w now m r c dates s)
  unfolding admit
  admit-period c dates none v f = tt
  admit-period c dates (some s) v f =
      let shut = not (is_running w now s dates) && not (is_upcoming w now s dates) in
      let e = some (entry w now m r c dates s) in
      let P = λ (e : Exhibition). is_period e ≡ true in
      Held-if P (c.vouched && not (is_run dates) && not (dated_permanent dates))
        (if shut then none else e)
        (λ n. Held-if P shut e (λ k. period c dates s f (ground (arith, n, v))))

  admit-IsKept :
      (c : Candidate) (dates : DateRange) (s : Option Standing)
      → Held (Fits dates) s
      → among listings c.url ≡ false
      → Held (IsKept c.url) (admit w now m r c dates s)
  unfolding admit
  admit-IsKept c dates none f h = tt
  admit-IsKept c dates (some s) f h =
      let shut = not (is_running w now s dates) && not (is_upcoming w now s dates) in
      let e = some (entry w now m r c dates s) in
      Held-if (IsKept c.url) (c.vouched && not (is_run dates) && not (dated_permanent dates))
        (if shut then none else e)
        (λ v. Held-if (IsKept c.url) shut e (λ k. (on_show c dates s f h k, refl, refl, refl)))

  judge_entry-IsKept : (c : Candidate) → Held (IsKept c.url) (judge_entry w now m r listings c)
  unfolding judge_entry
  judge_entry-IsKept c = elim (Bool-cases (among listings c.url)) [
    | inl y ↦ rw (judge_entry, y) tt
    | inr n ↦
        let dates = dates_for w now c in
        rw (judge_entry, n)
          (admit-IsKept c dates (standing_of w now r c dates) (standing_of-Fits c dates) n)
  ]

  abbrev IsShown : Exhibition → Type 0
  IsShown e = (is_on_show listings e ≡ true) × (e.source_page ≡ r.final_url) × (e.museum ≡ m.name)

  keep-IsShown :
      (url : Bytes) (o : Option Exhibition) (es : List Exhibition)
      → Held (IsKept url) o
      → All IsShown es
      → All IsShown (keep o es)
  keep-IsShown url none es h k = k
  keep-IsShown url (some e) es (a, b, c, d) k = ((a, b, c), k)

  keep-urls :
      (url : Bytes) (o : Option Exhibition) (es : List Exhibition) (u : Bytes)
      → Held (IsKept url) o
      → among (urls (keep o es)) u ≡ true
      → (equal url u || among (urls es) u) ≡ true
  unfolding among
  keep-urls url none es u h k = ground (arith, k)
  keep-urls url (some e) es u (a, b, c, d) k = ground (arith, k, d)

  keep-IsDistinct :
      (url : Bytes) (o : Option Exhibition) (es : List Exhibition)
      → Held (IsKept url) o
      → among (urls es) url ≡ false
      → IsDistinct (urls es)
      → IsDistinct (urls (keep o es))
  keep-IsDistinct url none es h n k = k
  keep-IsDistinct url (some e) es (a, b, c, d) n k = (ground (arith, n, d), k)

  judge_entries-IsShown : (cs : List Candidate) → All IsShown (judge_entries w now m r listings cs)
  unfolding judge_entries
  judge_entries-IsShown [] = tt
  judge_entries-IsShown (c ∷ cs) =
      keep-IsShown c.url (judge_entry w now m r listings c) (judge_entries w now m r listings cs)
        (judge_entry-IsKept c) (judge_entries-IsShown cs)

  judge_entries-urls :
      (cs : List Candidate) (u : Bytes)
      → among (candidate_urls cs) u ≡ false
      → among (urls (judge_entries w now m r listings cs)) u ≡ false
  unfolding judge_entries among candidate_urls
  judge_entries-urls [] u h = refl
  judge_entries-urls (c ∷ cs) u h =
      let o = judge_entry w now m r listings c in
      let rest = judge_entries w now m r listings cs in
      elim (Bool-cases (among (urls (keep o rest)) u)) [
        | inl y ↦ absurd (
            ground (
              arith,
              h,
              keep-urls c.url o rest u (judge_entry-IsKept c) y,
              judge_entries-urls cs u (ground (arith, h)),
            ))
        | inr n ↦ n
      ]

  judge_entries-IsDistinct :
      (cs : List Candidate)
      → IsDistinct (candidate_urls cs)
      → IsDistinct (urls (judge_entries w now m r listings cs))
  unfolding judge_entries candidate_urls
  judge_entries-IsDistinct [] d = tt
  judge_entries-IsDistinct (c ∷ cs) (n, d) =
      keep-IsDistinct c.url (judge_entry w now m r listings c) (judge_entries w now m r listings cs)
        (judge_entry-IsKept c) (judge_entries-urls cs c.url n) (judge_entries-IsDistinct cs d)

module _ (w : Web) (now : Now) where
  -- The exhibitions that are read off a listing page have different addresses, none of which was read
  -- as a listing itself; each is on or to come and not both, a permanent one is on, and each says
  -- which page it was read from and which museum it is at.
  pub harvest-IsShown :
      (base : Url) (m : Museum) (assume_permanent : Bool) (read_as_listing : List Bytes)
      (page : Page)
      → let es = harvest w now base m assume_permanent read_as_listing page in
        IsDistinct (urls es)
        × All
            (λ (e : Exhibition).
              (is_on_show read_as_listing e ≡ true)
              × (e.source_page ≡ page.url)
              × (e.museum ≡ m.name))
            es
  unfolding harvest
  harvest-IsShown base m assume_permanent read_as_listing page =
      let page_base = or_base (w.parse_url page.url) base in
      let candidates = candidates_on w page.body page_base in
      let r : Reading = record {
        final_url = page.url;
        permanent = assume_permanent || is_permanent_listing w page.body (some page_base);
        undated = undated_listing w now (names_exhibitions w page.body (some page_base)) candidates;
      } in
      (
        judge_entries-IsDistinct w now m r read_as_listing candidates
            (candidates_on_lem w page.body page_base []).0,
        judge_entries-IsShown w now m r read_as_listing candidates,
      )

  -- An entry that only its page vouches for is kept with an opening date, and either closes on a later
  -- day or is permanent.
  pub judge_entry-period :
      (m : Museum) (r : Reading) (read_as_listing : List Bytes) (c : Candidate) (e : Exhibition)
      → c.vouched ≡ true
      → judge_entry w now m r read_as_listing c ≡ some e
      → is_period e ≡ true
  unfolding judge_entry
  judge_entry-period m r read_as_listing c e v h =
      let dates = dates_for w now c in
      let s = standing_of w now r c dates in
      let P = λ (x : Exhibition). is_period x ≡ true in
      let held = Held-if P (among read_as_listing c.url) (admit w now m r c dates s) (λ n.
        admit-period w now m r read_as_listing c dates s v
          (standing_of-Fits w now m r read_as_listing c dates)) in
      subst (λ (o : Option Exhibition). Held P o) h held
