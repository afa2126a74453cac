-- ===== src/Api/RateLimit/Valid.antt =====
-- Every call leaves a valid limiter valid.
use museumscraper.Prelude.{
  ℕ, ◌+◌, ◌-◌, ◌*◌, ◌≤◌, min, String, ◌≡◌, refl, inl, inr, Bool, Option, none, some, arith, ltb,
  leb, Bool-cases, Option-cases,
}
use mathlib.Core.Path.{subst}
use native.Mathlib.Nat.{le_refl}
use text.Mathlib.Text.{◌==◌ as str_eq}
use museumscraper.Api.RateLimit.Clients.{
  ClientMap, lookup, put, lookup-put, lookup-keep_if, kept, IsMap, IsMap-keep_if, IsMap-put,
}
use museumscraper.Api.RateLimit.{
  Bucket, Limiter, token, allow, allow_found, refill, is_kept, spend, acquire, release, held,
  max_in_flight_per_client,
}
use museumscraper.Api.RateLimit.Refill.{IsSound, IsValid, refill_eq}

-- A limiter whose buckets are changed, each into one that is sound.
IsValid-put :
    (l : Limiter) (now : ℕ) (m : ClientMap Bucket) (c : String) (b : Bucket)
    → IsValid l now
    → IsMap m
    → IsSound l now (some b)
    → ((d : String) → IsSound l now (lookup d m))
    → IsValid (record l { buckets = put c b m }) now
IsValid-put l now m c b v keys sound sounds = record {
  keys = IsMap-put c b m keys;
  sound = λ d.
      rw lookup-put
        (elim (Bool-cases (str_eq c d)) [ inl y ↦ rw y sound | inr n ↦ rw n (sounds d) ]);
  room = v.room;
  fills = v.fills;
}

kept-IsSound :
    (l : Limiter) (now : ℕ) (p : Bucket → Bool) (o : Option Bucket)
    → IsSound l now o
    → IsSound l now (kept p o)
kept-IsSound l now p none s = tt
kept-IsSound l now p (some b) s = elim (Bool-cases (p b)) [ inl y ↦ rw y s | inr n ↦ rw n tt ]

spend-IsValid :
    (c : String) (now : ℕ) (l : Limiter) (b : Bucket)
    → IsValid l now
    → lookup c l.buckets ≡ some b
    → IsValid (spend l c b now (refill l.rate l.burst b now)).0 now
unfolding spend
spend-IsValid c now l b v e =
    let (late, (n, t, h)) = subst (IsSound l now) e (v.sound c) in
    let m = min l.burst (n + (now - b.last) * l.rate) in
    rw (refill_eq l.rate l.burst b now n late t) (elim (Bool-cases (ltb m token)) [
      | inl y ↦
          rw y
            (IsValid-put l now l.buckets c _ v v.keys (le_refl now, (m, refl, omega arith)) v.sound)
      | inr k ↦ rw k (
          IsValid-put l now l.buckets c _ v v.keys (le_refl now, (m - token, refl, omega arith))
            v.sound)
    ])

pub allow-IsValid :
    (c : String) (now : ℕ) (l : Limiter) → IsValid l now → IsValid (allow c now l).0 now
unfolding allow allow_found
allow-IsValid c now l v = elim (Option-cases (lookup c l.buckets)) [
  | inl e ↦ rw e (
      IsValid-put l now _ c _ v (IsMap-keep_if (is_kept l now) l.buckets v.keys)
        (le_refl now, (l.burst - token, ground (arith, v.room), omega arith))
        (λ d.
          rw (lookup-keep_if d (is_kept l now) l.buckets v.keys)
            (kept-IsSound l now (is_kept l now) _ (v.sound d))))
  | inr (b, e) ↦ rw e (spend-IsValid c now l b v e)
]

held-IsSound :
    (c : String) (now : ℕ) (l : Limiter) → IsValid l now → IsSound l now (some (held l c now))
held-IsSound c now l v = elim (Option-cases (lookup c l.buckets)) [
  | inl e ↦ rw (e, held) (le_refl now, (l.burst, refl, le_refl l.burst))
  | inr (b, e) ↦ rw (e, held) (subst (IsSound l now) e (v.sound c))
]

pub acquire-IsValid :
    (c : String) (now : ℕ) (l : Limiter) → IsValid l now → IsValid (acquire c now l).0 now
unfolding acquire
acquire-IsValid c now l v =
    let b = held l c now in
    let s = held-IsSound c now l v in
    elim (Bool-cases (leb max_in_flight_per_client b.in_flight)) [
      | inl y ↦ rw y (IsValid-put l now l.buckets c _ v v.keys s v.sound)
      | inr n ↦ rw n (IsValid-put l now l.buckets c _ v v.keys s v.sound)
    ]

pub release-IsValid :
    (c : String) (now : ℕ) (l : Limiter) → IsValid l now → IsValid (release c l) now
unfolding release
release-IsValid c now l v = elim (Option-cases (lookup c l.buckets)) [
  | inl e ↦ rw (e, release) v
  | inr (b, e) ↦
      let s = subst (IsSound l now) e (v.sound c) in
      elim (Bool-cases (ltb 0 b.in_flight)) [
        | inl y ↦ rw (e, release, y) (IsValid-put l now l.buckets c _ v v.keys s v.sound)
        | inr n ↦ rw (e, release, n) v
      ]
]

later-IsSound :
    (l : Limiter) (now later : ℕ) (o : Option Bucket)
    → now ≤ later
    → IsSound l now o
    → IsSound l later o
later-IsSound l now later none h s = tt
later-IsSound l now later (some b) h s = (omega arith, s.1)

pub later-IsValid : (l : Limiter) (now later : ℕ) → now ≤ later → IsValid l now → IsValid l later
later-IsValid l now later h v = record {
  keys = v.keys;
  sound = λ c. later-IsSound l now later _ h (v.sound c);
  room = v.room;
  fills = v.fills;
}
