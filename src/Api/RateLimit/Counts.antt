-- ===== src/Api/RateLimit/Counts.antt =====
-- What each operation does to the counts of requests in flight.
use museumscraper.Prelude.{
  ℕ, ◌+◌, ◌-◌, String, ◌≡◌, refl, ap, ◌∙◌, inl, inr, ◌&&◌, Option, none, some, arith, ltb, leb,
  if◌then◌else◌, Bool-cases, Option-cases,
}
use museumscraper.Prelude.Int.{ℤ, pos, negsuc}
use text.Mathlib.Text.{◌==◌ as str_eq}
use text.Mathlib.TextEquality.{eq_iff}
use museumscraper.Api.RateLimit.Clients.{
  ClientMap, lookup, put, keep_if, lookup-put, lookup-keep_if, kept, IsMap, IsMap-keep_if,
  IsMap-put,
}
use museumscraper.Api.RateLimit.{
  Bucket, Limiter, token, allow, allow_found, refill, is_kept, spend, acquire, release, held,
  max_in_flight_per_client,
}

abbrev pub flight_of : Option Bucket → ℕ
flight_of none = 0
flight_of (some b) = b.in_flight

unfoldable pub in_flight : Limiter → String → ℕ
in_flight l c = flight_of (lookup c l.buckets)

kept-flight :
    (l : Limiter) (now : ℕ) (o : Option Bucket) → flight_of (kept (is_kept l now) o) ≡ flight_of o
unfolding is_kept
kept-flight l now none = refl
kept-flight l now (some b) = ground arith

flight-put :
    (c d : String) (b : Bucket) (m : ClientMap Bucket)
    → flight_of (lookup d (put c b m))
      ≡ (if str_eq c d then b.in_flight else flight_of (lookup d m))
flight-put c d b m = rw lookup-put (ground arith)

-- Writing for `c` a bucket with the count that it has.
put_same :
    (c d : String) (b : Bucket) (m : ClientMap Bucket)
    → b.in_flight ≡ flight_of (lookup c m)
    → flight_of (lookup d (put c b m)) ≡ flight_of (lookup d m)
put_same c d b m h =
    ground (arith, flight-put c d b m, eq_iff c d, ap (λ x. flight_of (lookup x m)) {x = c} {y = d})

module _ (c : String) (now : ℕ) (l : Limiter) where
  spend-in_flight :
      (d : String) (b : Bucket) (z : ℤ)
      → lookup c l.buckets ≡ some b
      → in_flight (spend l c b now z).0 d ≡ in_flight l d
  unfolding in_flight spend
  spend-in_flight d b (negsuc n) e =
      put_same c d (record b { tokens = negsuc n; last = now }) l.buckets (rw e)
  spend-in_flight d b (pos n) e = ground (
    arith,
    put_same c d (record b { tokens = pos n; last = now }) l.buckets (rw e),
    put_same c d (record b { tokens = pos (n - token); last = now }) l.buckets (rw e),
  )

  spend-IsMap : (b : Bucket) (z : ℤ) → IsMap l.buckets → IsMap (spend l c b now z).0.buckets
  unfolding spend
  spend-IsMap b (negsuc n) m = IsMap-put c _ l.buckets m
  spend-IsMap b (pos n) m = elim (Bool-cases (ltb n token)) [
    | inl y ↦ rw y (IsMap-put c _ l.buckets m)
    | inr k ↦ rw k (IsMap-put c _ l.buckets m)
  ]

  swept-in_flight :
      (d : String)
      → IsMap l.buckets
      → lookup c l.buckets ≡ none
      → in_flight (allow_found none c now l).0 d ≡ in_flight l d
  unfolding in_flight allow_found
  swept-in_flight d m e =
      let kept_d = lookup-keep_if d (is_kept l now) l.buckets m in
      let kept_c = lookup-keep_if c (is_kept l now) l.buckets m in
      let same = kept-flight l now (lookup d l.buckets) in
      put_same c d _ (keep_if (is_kept l now) l.buckets) (rw (kept_c, e)) ∙ rw kept_d same

  -- allow leaves the counts of requests in flight as they are.
  pub allow-in_flight :
      (d : String) → IsMap l.buckets → in_flight (allow c now l).0 d ≡ in_flight l d
  unfolding allow
  allow-in_flight d m = elim (Option-cases (lookup c l.buckets)) [
    | inl e ↦ rw e (swept-in_flight d m e)
    | inr (b, e) ↦ rw (e, allow_found) (spend-in_flight d b (refill l.rate l.burst b now) e)
  ]

  pub allow-IsMap : IsMap l.buckets → IsMap (allow c now l).0.buckets
  unfolding allow allow_found
  allow-IsMap m = elim (Option-cases (lookup c l.buckets)) [
    | inl e ↦ rw e (IsMap-put c _ _ (IsMap-keep_if (is_kept l now) l.buckets m))
    | inr (b, e) ↦ rw e (spend-IsMap b (refill l.rate l.burst b now) m)
  ]

  held-flight : (held l c now).in_flight ≡ in_flight l c
  unfolding in_flight
  held-flight = ground arith

  -- acquire counts one more for its client if that had fewer than the limit, and is refused, with
  -- nothing changed, if not.
  pub acquire-in_flight :
      (d : String)
      → ((acquire c now l).1 ≡ ltb (in_flight l c) max_in_flight_per_client)
        × (in_flight (acquire c now l).0 d
            ≡ in_flight l d + (if str_eq c d && (acquire c now l).1 then 1 else 0))
  unfolding acquire in_flight
  acquire-in_flight d =
      let b = held l c now in
      ground (
        arith,
        flight-put c d b l.buckets,
        flight-put c d (record b { in_flight = b.in_flight + 1 }) l.buckets,
        held-flight,
        eq_iff c d,
        ap (λ x. flight_of (lookup x l.buckets)) {x = c} {y = d},
      )

  pub acquire-IsMap : IsMap l.buckets → IsMap (acquire c now l).0.buckets
  unfolding acquire
  acquire-IsMap m = elim (Bool-cases (leb max_in_flight_per_client (held l c now).in_flight)) [
    | inl y ↦ rw y (IsMap-put c _ l.buckets m)
    | inr k ↦ rw k (IsMap-put c _ l.buckets m)
  ]

module _ (c : String) (l : Limiter) where
  pub release-in_flight :
      (d : String) → in_flight (release c l) d ≡ in_flight l d - (if str_eq c d then 1 else 0)
  unfolding in_flight release lookup
  release-in_flight d = elim (Option-cases (lookup c l.buckets)) [
    | inl e ↦
        rw (e, release)
          (ground (arith, e, eq_iff c d, ap (λ x. flight_of (lookup x l.buckets)) {x = c} {y = d}))
    | inr (b, e) ↦
        rw (e, release)
          (ground (
            arith,
            e,
            flight-put c d (record b { in_flight = b.in_flight - 1 }) l.buckets,
            eq_iff c d,
            ap (λ x. flight_of (lookup x l.buckets)) {x = c} {y = d},
          ))
  ]

  pub release-IsMap : IsMap l.buckets → IsMap (release c l).buckets
  unfolding release lookup
  release-IsMap m = elim (Option-cases (lookup c l.buckets)) [
    | inl e ↦ rw (e, release) m
    | inr (b, e) ↦ elim (Bool-cases (ltb 0 b.in_flight)) [
      | inl y ↦ rw (e, release, y) (IsMap-put c _ l.buckets m)
      | inr k ↦ rw (e, release, k) m
    ]
  ]
