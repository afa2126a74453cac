-- ===== src/Exhibitions/Dedupe/Widened.antt =====
-- pkg/exhibitions/service.go: what dedupe makes of the occurrences of an event.
use museumscraper.Prelude.{
  ◌≡◌, refl, inl, inr, Bool, true, false, not, ◌&&◌, ◌||◌, Option, none, some, List, [], ◌∷◌, map,
  arith, Bool-cases,
}
use museumscraper.Text.Bytes.{Bytes, among, equal, equal_iff}
use museumscraper.Text.Distinct.{IsDistinct}
use museumscraper.Exhibitions.Calendar.{Date, before, before_irrefl}
use museumscraper.Exhibitions.Listing.{Exhibition}
use museumscraper.Exhibitions.Dedupe.{sooner_start, later_end, widen, title_key, merge, merge_all}

-- The run of `wide` takes in the dates that `e` has: it starts no later, and ends no sooner.
abbrev pub starts_by : Option Date → Option Date → Bool
starts_by wide none = true
starts_by none (some d) = false
starts_by (some k) (some d) = not (before d k)

abbrev pub ends_from : Option Date → Option Date → Bool
ends_from wide none = true
ends_from none (some d) = false
ends_from (some k) (some d) = not (before k d)

abbrev pub covers : Exhibition → Exhibition → Bool
covers wide e = wide.permanent || (starts_by wide.start e.start && ends_from wide.end e.end)

before-later : (a b c : Date) → before a b ≡ true → before c b ≡ false → before c a ≡ false
before-later a b c h k = ground (arith, h, k)

sooner_start-new : (k e : Option Date) → starts_by (sooner_start k e) e ≡ true
sooner_start-new k none = refl
sooner_start-new none (some d) = rw (before_irrefl d) refl
sooner_start-new (some k) (some d) = elim (Bool-cases (before d k)) [
  | inl y ↦ rw (y, before_irrefl d) refl
  | inr n ↦ rw (n, n) refl
]

sooner_start-kept :
    (k e f : Option Date) → starts_by k f ≡ true → starts_by (sooner_start k e) f ≡ true
sooner_start-kept k e none h = refl
sooner_start-kept none e (some f) h = absurd (ground (arith, h))
sooner_start-kept (some k) none (some f) h = h
sooner_start-kept (some k) (some d) (some f) h = elim (Bool-cases (before d k)) [
  | inl y ↦ rw (y, before-later d k f y (ground (arith, h))) refl
  | inr n ↦ rw n h
]

later_end-new : (k e : Option Date) → ends_from (later_end k e) e ≡ true
later_end-new k none = refl
later_end-new none (some d) = rw (before_irrefl d) refl
later_end-new (some k) (some d) = elim (Bool-cases (before k d)) [
  | inl y ↦ rw (y, before_irrefl d) refl
  | inr n ↦ rw (n, n) refl
]

before-earlier : (k d f : Date) → before k d ≡ true → before k f ≡ false → before d f ≡ false
before-earlier k d f h n = ground (arith, h, n)

later_end-kept : (k e f : Option Date) → ends_from k f ≡ true → ends_from (later_end k e) f ≡ true
later_end-kept k e none h = refl
later_end-kept none e (some f) h = absurd (ground (arith, h))
later_end-kept (some k) none (some f) h = h
later_end-kept (some k) (some d) (some f) h = elim (Bool-cases (before k d)) [
  | inl y ↦ rw (y, before-earlier k d f y (ground (arith, h))) refl
  | inr n ↦ rw n h
]

starts_by_refl : (k : Option Date) → starts_by k k ≡ true
starts_by_refl none = refl
starts_by_refl (some d) = rw (before_irrefl d) refl

ends_from_refl : (k : Option Date) → ends_from k k ≡ true
ends_from_refl none = refl
ends_from_refl (some d) = rw (before_irrefl d) refl

covers_refl : (e : Exhibition) → covers e e ≡ true
covers_refl e = ground (arith, starts_by_refl e.start, ends_from_refl e.end)

widen-covers : (k e : Exhibition) → covers (widen k e) e ≡ true
unfolding widen
widen-covers k e = elim (Bool-cases k.permanent) [
  | inl y ↦ rw (widen, y, y) refl
  | inr n ↦
      rw (widen, n) (ground (arith, sooner_start-new k.start e.start, later_end-new k.end e.end))
]

widen-keeps : (k e f : Exhibition) → covers k f ≡ true → covers (widen k e) f ≡ true
unfolding widen
widen-keeps k e f h = elim (Bool-cases k.permanent) [
  | inl y ↦ rw (widen, y, y) refl
  | inr n ↦
      let start = sooner_start-kept k.start e.start f.start (ground (arith, n, h)) in
      let end = later_end-kept k.end e.end f.end (ground (arith, n, h)) in
      rw (widen, n) (ground (arith, start, end))
]

module _ (lower : Bytes → Bytes) where
  abbrev pub title_keys : List Exhibition → List Bytes
  title_keys es = map (λ (e : Exhibition). title_key lower e) es

  -- The entry stands for the exhibition: the title is the same, and the run takes in its own.
  abbrev pub stands_for : Exhibition → Exhibition → Bool
  stands_for k e = equal (title_key lower k) (title_key lower e) && covers k e

  abbrev pub is_listed : Exhibition → List Exhibition → Bool
  is_listed e [] = false
  is_listed e (k ∷ ks) = stands_for k e || is_listed e ks

  abbrev pub are_listed : List Exhibition → List Exhibition → Bool
  are_listed [] unique = true
  are_listed (e ∷ es) unique = is_listed e unique && are_listed es unique

  widen-title_key : (k e : Exhibition) → title_key lower (widen k e) ≡ title_key lower k
  unfolding widen
  widen-title_key k e = elim (Bool-cases k.permanent) [
    | inl y ↦ rw (widen, y) refl
    | inr n ↦ rw (widen, n) refl
  ]

  merge-new :
      (unique : List Exhibition) (e : Exhibition) → is_listed e (merge lower unique e) ≡ true
  unfolding merge
  merge-new [] e = ground (arith, covers_refl e, equal_iff (title_key lower e) (title_key lower e))
  merge-new (k ∷ unique) e = elim (Bool-cases (equal (title_key lower k) (title_key lower e))) [
    | inl y ↦ rw (merge, y) (ground (arith, y, widen-title_key k e, widen-covers k e))
    | inr n ↦ rw (merge, n) (ground (arith, merge-new unique e))
  ]

  merge-kept :
      (unique : List Exhibition) (e f : Exhibition)
      → is_listed f unique ≡ true
      → is_listed f (merge lower unique e) ≡ true
  unfolding merge
  merge-kept [] e f h = absurd (ground (arith, h))
  merge-kept (k ∷ unique) e f h =
      elim (Bool-cases (equal (title_key lower k) (title_key lower e))) [
        | inl y ↦ elim (Bool-cases (stands_for k f)) [
          | inl z ↦
              rw (merge, y)
                (ground (arith, z, widen-title_key k e, widen-keeps k e f (ground (arith, z))))
          | inr n ↦ rw (merge, y) (ground (arith, h, n))
        ]
        | inr n ↦ elim (Bool-cases (stands_for k f)) [
          | inl z ↦ rw (merge, n) (ground (arith, z))
          | inr z ↦ rw (merge, n) (ground (arith, merge-kept unique e f (ground (arith, h, z))))
        ]
      ]

  merge-titles :
      (unique : List Exhibition) (e : Exhibition) (a : Bytes)
      → among (title_keys (merge lower unique e)) a
        ≡ (among (title_keys unique) a || equal (title_key lower e) a)
  unfolding merge among
  merge-titles [] e a = ground arith
  merge-titles (k ∷ unique) e a =
      elim (Bool-cases (equal (title_key lower k) (title_key lower e))) [
        | inl y ↦
            rw (merge, y)
              (ground (
                arith,
                widen-title_key k e,
                (equal_iff (title_key lower k) (title_key lower e)).0 y,
              ))
        | inr n ↦ rw (merge, n) (ground (arith, merge-titles unique e a))
      ]

  merge-IsDistinct :
      (unique : List Exhibition) (e : Exhibition)
      → IsDistinct (title_keys unique)
      → IsDistinct (title_keys (merge lower unique e))
  unfolding merge among
  merge-IsDistinct [] e d = (refl, tt)
  merge-IsDistinct (k ∷ unique) e (n, d) =
      elim (Bool-cases (equal (title_key lower k) (title_key lower e))) [
        | inl y ↦ rw (merge, y, widen-title_key k e) (n, d)
        | inr z ↦
            rw (merge, z)
              (
                ground (
                  arith,
                  n,
                  z,
                  merge-titles unique e (title_key lower k),
                  equal_iff (title_key lower e) (title_key lower k),
                  equal_iff (title_key lower k) (title_key lower e),
                ),
                merge-IsDistinct unique e d,
              )
      ]

  pub merge_all-kept :
      (es unique : List Exhibition) (f : Exhibition)
      → is_listed f unique ≡ true
      → is_listed f (merge_all lower unique es) ≡ true
  unfolding merge_all
  merge_all-kept [] unique f h = h
  merge_all-kept (e ∷ es) unique f h =
      merge_all-kept es (merge lower unique e) f (merge-kept unique e f h)

  pub merge_all-listed :
      (es unique : List Exhibition) → are_listed es (merge_all lower unique es) ≡ true
  unfolding merge_all
  merge_all-listed [] unique = refl
  merge_all-listed (e ∷ es) unique =
      let next = merge lower unique e in
      ground (arith, merge_all-kept es next e (merge-new unique e), merge_all-listed es next)

  pub merge_all-IsDistinct :
      (es unique : List Exhibition)
      → IsDistinct (title_keys unique)
      → IsDistinct (title_keys (merge_all lower unique es))
  unfolding merge_all
  merge_all-IsDistinct [] unique d = d
  merge_all-IsDistinct (e ∷ es) unique d =
      merge_all-IsDistinct es (merge lower unique e) (merge-IsDistinct unique e d)
