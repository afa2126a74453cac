-- ===== src/Exhibitions/Dedupe/Ordered.antt =====
-- pkg/exhibitions/service.go: the order that dedupe gives, and what it keeps.
use museumscraper.Prelude.{
  ◌≡◌, refl, inl, inr, Bool, true, false, not, ◌&&◌, ◌||◌, Option, none, some, List, [], ◌∷◌, arith,
  Bool-cases,
}
use museumscraper.Text.Bytes.{Bytes, among, equal, equal_iff}
use museumscraper.Text.Distinct.{IsDistinct}
use museumscraper.Exhibitions.Calendar.{Date}
use museumscraper.Exhibitions.Listing.{Exhibition}
use museumscraper.Exhibitions.Dedupe.{
  closes_before, goes_first, less, title_key, merge_all, sort_stable, insert_sorted, dedupe,
}
use museumscraper.Exhibitions.Dedupe.Widened.{
  title_keys, stands_for, is_listed, are_listed, merge_all-listed, merge_all-IsDistinct,
}

-- No exhibition of the list is to stand before this one.
abbrev pub none_less : Exhibition → List Exhibition → Bool
none_less e [] = true
none_less e (f ∷ fs) = not (less f e) && none_less e fs

abbrev pub is_ordered : List Exhibition → Bool
is_ordered [] = true
is_ordered (e ∷ es) = none_less e es && is_ordered es

closes_before-asym : (a b : Option Date) → closes_before a b ≡ true → closes_before b a ≡ false
closes_before-asym none b h = absurd (ground (arith, h))
closes_before-asym (some a) none h = refl
closes_before-asym (some a) (some b) h = ground (arith, h)

closes_before_trans :
    (a b c : Option Date)
    → closes_before a b ≡ true
    → closes_before c b ≡ false
    → closes_before c a ≡ false
closes_before_trans none b c h k = absurd (ground (arith, h))
closes_before_trans (some a) b none h k = refl
closes_before_trans (some a) none (some c) h k = absurd (ground (arith, k))
closes_before_trans (some a) (some b) (some c) h k = ground (arith, h, k)

goes_first-asym :
    (r : Bool) (a : Option Date) (q : Bool) (b : Option Date)
    → goes_first r a q b ≡ true
    → goes_first q b r a ≡ false
goes_first-asym true a true b h = closes_before-asym a b h
goes_first-asym true a false b h = refl
goes_first-asym false a true b h = absurd (ground (arith, h))
goes_first-asym false a false b h = closes_before-asym a b h

goes_first_trans :
    (r : Bool) (a : Option Date) (q : Bool) (b : Option Date) (p : Bool) (c : Option Date)
    → goes_first r a q b ≡ true
    → goes_first p c q b ≡ false
    → goes_first p c r a ≡ false
goes_first_trans true a true b true c h k = closes_before_trans a b c h k
goes_first_trans true a true b false c h k = refl
goes_first_trans true a false b true c h k = absurd (ground (arith, k))
goes_first_trans true a false b false c h k = refl
goes_first_trans false a true b p c h k = absurd (ground (arith, h))
goes_first_trans false a false b true c h k = absurd (ground (arith, k))
goes_first_trans false a false b false c h k = closes_before_trans a b c h k

-- What is to stand before `f` is to stand before all that `f` is no later than.
none_less_trans :
    (e f : Exhibition) (fs : List Exhibition)
    → less e f ≡ true
    → none_less f fs ≡ true
    → none_less e fs ≡ true
none_less_trans e f [] h k = refl
none_less_trans e f (g ∷ fs) h k = ground (
  arith,
  k,
  none_less_trans e f fs h (ground (arith, k)),
  goes_first_trans e.running e.end f.running f.end g.running g.end h (ground (arith, k)),
)

none_less-insert :
    (g e : Exhibition) (fs : List Exhibition)
    → none_less g (insert_sorted e fs) ≡ (not (less e g) && none_less g fs)
unfolding insert_sorted
none_less-insert g e [] = refl
none_less-insert g e (f ∷ fs) = elim (Bool-cases (less e f)) [
  | inl y ↦ rw (insert_sorted, y) refl
  | inr n ↦ rw (insert_sorted, n) (ground (arith, none_less-insert g e fs))
]

insert-is_ordered :
    (e : Exhibition) (fs : List Exhibition)
    → is_ordered fs ≡ true
    → is_ordered (insert_sorted e fs) ≡ true
unfolding insert_sorted
insert-is_ordered e [] h = refl
insert-is_ordered e (f ∷ fs) h = elim (Bool-cases (less e f)) [
  | inl y ↦
      rw (insert_sorted, y)
        (ground (
          arith,
          h,
          none_less_trans e f fs y (ground (arith, h)),
          goes_first-asym e.running e.end f.running f.end y,
        ))
  | inr n ↦
      rw (insert_sorted, n)
        (ground (arith, h, n, none_less-insert f e fs, insert-is_ordered e fs (ground (arith, h))))
]

sort_stable-is_ordered :
    (es ordered : List Exhibition)
    → is_ordered ordered ≡ true
    → is_ordered (sort_stable ordered es) ≡ true
unfolding sort_stable
sort_stable-is_ordered [] ordered h = h
sort_stable-is_ordered (e ∷ es) ordered h =
    sort_stable-is_ordered es (insert_sorted e ordered) (insert-is_ordered e ordered h)

module _ (lower : Bytes → Bytes) where
  insert-listed :
      (f e : Exhibition) (fs : List Exhibition)
      → is_listed lower f (insert_sorted e fs) ≡ (stands_for lower e f || is_listed lower f fs)
  unfolding insert_sorted
  insert-listed f e [] = refl
  insert-listed f e (g ∷ fs) = elim (Bool-cases (less e g)) [
    | inl y ↦ rw (insert_sorted, y) refl
    | inr n ↦ rw (insert_sorted, n) (ground (arith, insert-listed f e fs))
  ]

  sort_stable-listed :
      (f : Exhibition) (es ordered : List Exhibition)
      → is_listed lower f (sort_stable ordered es)
        ≡ (is_listed lower f ordered || is_listed lower f es)
  unfolding sort_stable
  sort_stable-listed f [] ordered = ground arith
  sort_stable-listed f (e ∷ es) ordered =
      ground (arith, sort_stable-listed f es (insert_sorted e ordered), insert-listed f e ordered)

  sort_stable-are_listed :
      (fs es : List Exhibition) → are_listed lower fs (sort_stable [] es) ≡ are_listed lower fs es
  sort_stable-are_listed [] es = refl
  sort_stable-are_listed (f ∷ fs) es =
      ground (arith, sort_stable-listed f es [], sort_stable-are_listed fs es)

  insert-titles :
      (e : Exhibition) (fs : List Exhibition) (a : Bytes)
      → among (title_keys lower (insert_sorted e fs)) a
        ≡ (equal (title_key lower e) a || among (title_keys lower fs) a)
  unfolding insert_sorted among
  insert-titles e [] a = refl
  insert-titles e (f ∷ fs) a = elim (Bool-cases (less e f)) [
    | inl y ↦ rw (insert_sorted, y) refl
    | inr n ↦ rw (insert_sorted, n) (ground (arith, insert-titles e fs a))
  ]

  insert-IsDistinct :
      (e : Exhibition) (fs : List Exhibition)
      → among (title_keys lower fs) (title_key lower e) ≡ false
      → IsDistinct (title_keys lower fs)
      → IsDistinct (title_keys lower (insert_sorted e fs))
  unfolding insert_sorted among
  insert-IsDistinct e [] n d = (refl, tt)
  insert-IsDistinct e (f ∷ fs) n (m, d) = elim (Bool-cases (less e f)) [
    | inl y ↦ rw (insert_sorted, y) (n, (m, d))
    | inr k ↦
        rw (insert_sorted, k)
          (
            ground (
              arith,
              m,
              n,
              insert-titles e fs (title_key lower f),
              equal_iff (title_key lower e) (title_key lower f),
              equal_iff (title_key lower f) (title_key lower e),
            ),
            insert-IsDistinct e fs (ground (arith, n)) d,
          )
  ]

  -- No title of the one list is a title of the other.
  abbrev AreApart : List Exhibition → List Exhibition → Type 0
  AreApart [] ordered = Unit
  AreApart (e ∷ es) ordered =
      (among (title_keys lower ordered) (title_key lower e) ≡ false) × AreApart es ordered

  AreApart-insert :
      (e : Exhibition) (es ordered : List Exhibition)
      → among (title_keys lower es) (title_key lower e) ≡ false
      → AreApart es ordered
      → AreApart es (insert_sorted e ordered)
  unfolding among
  AreApart-insert e [] ordered n a = tt
  AreApart-insert e (f ∷ es) ordered n (m, a) = (
    ground (
      arith,
      m,
      n,
      insert-titles e ordered (title_key lower f),
      equal_iff (title_key lower e) (title_key lower f),
      equal_iff (title_key lower f) (title_key lower e),
    ),
    AreApart-insert e es ordered (ground (arith, n)) a,
  )

  sort_stable-IsDistinct :
      (es ordered : List Exhibition)
      → AreApart es ordered
      → IsDistinct (title_keys lower es)
      → IsDistinct (title_keys lower ordered)
      → IsDistinct (title_keys lower (sort_stable ordered es))
  unfolding sort_stable
  sort_stable-IsDistinct [] ordered a d o = o
  sort_stable-IsDistinct (e ∷ es) ordered (n, a) (m, d) o =
      sort_stable-IsDistinct es (insert_sorted e ordered) (AreApart-insert e es ordered m a) d
        (insert-IsDistinct e ordered n o)

  AreApart-nil : (es : List Exhibition) → AreApart es []
  unfolding among
  AreApart-nil [] = tt
  AreApart-nil (e ∷ es) = (refl, AreApart-nil es)

  -- No title stands twice; what runs comes first, and in each half what closes sooner comes before
  -- what closes later or at no known day.
  pub dedupe-ordered :
      (es : List Exhibition)
      → IsDistinct (title_keys lower (dedupe lower es)) × (is_ordered (dedupe lower es) ≡ true)
  unfolding dedupe
  dedupe-ordered es = (
    sort_stable-IsDistinct (merge_all lower [] es) [] (AreApart-nil (merge_all lower [] es))
        (merge_all-IsDistinct lower es [] tt) tt,
    sort_stable-is_ordered (merge_all lower [] es) [] refl,
  )

  -- Every exhibition has an entry with its title, which is permanent or covers its known dates: it
  -- starts no later than the known start, and ends no sooner than the known end.
  pub dedupe-listed : (es : List Exhibition) → are_listed lower es (dedupe lower es) ≡ true
  unfolding dedupe
  dedupe-listed es =
      ground
        (arith, sort_stable-are_listed es (merge_all lower [] es), merge_all-listed lower es [])
