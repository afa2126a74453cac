-- ===== src/Api/RateLimit/Rate.antt =====
-- The rate that the token buckets enforce over any interleaving of clients whose instants do not go
-- back: allow reads its instant before it takes the mutex, so two calls that race may be let in
-- with instants out of order, and those runs are left out here.
use museumscraper.Prelude.{
  ℕ, ◌+◌, ◌-◌, ◌*◌, ◌≤◌, min, String, ◌≡◌, ap, ◌&&◌, Option, none, some, List, [], ◌∷◌, arith,
  if◌then◌else◌,
}
use native.Mathlib.Nat.{le_trans}
use text.Mathlib.Text.{◌==◌ as str_eq}
use museumscraper.Api.RateLimit.Clients.{lookup}
use museumscraper.Api.RateLimit.{new_limiter, Bucket, Limiter, token, allow, acquire, release}
use museumscraper.Api.RateLimit.Refill.{
  IsSound, IsValid, available_of, available, refill_eq, mul_split,
}

gap : (a b c : ℕ) → a ≤ b → b ≤ c → (c - a) - (b - a) ≡ c - b
gap a b c h k = omega arith

available_of-later :
    (l : Limiter) (now later : ℕ) (o : Option Bucket)
    → now ≤ later
    → IsSound l now o
    → available_of l.rate l.burst later o
      ≤ available_of l.rate l.burst now o + (later - now) * l.rate
available_of-later l now later none h s = omega arith
available_of-later l now later (some b) h (p, (n, t, q)) =
    let e₁ = refill_eq l.rate l.burst b now n p t in
    let e₂ = refill_eq l.rate l.burst b later n (le_trans p h) t in
    let grows : min l.burst (n + (later - b.last) * l.rate)
        ≤ min l.burst (n + (now - b.last) * l.rate) + (later - now) * l.rate =
      omega (
        arith,
        mul_split (now - b.last) (later - b.last) l.rate (omega arith),
        ap (λ (x : ℕ). x * l.rate) (gap b.last now later p h),
      ) in
    rw (e₁, e₂) grows

-- What a client has available grows by no more than the rate times the time that passes.
pub available-later :
    (l : Limiter) (c : String) (now later : ℕ)
    → IsValid l now
    → now ≤ later
    → available l c later ≤ available l c now + (later - now) * l.rate
unfolding available
available-later l c now later v h = available_of-later l now later _ h (v.sound c)

-- The calls that reach the limiter, in the order in which its mutex lets them in.
pub data Call : Type 0 where
  allows acquires : String → ℕ → Call
  releases : String → ℕ → Call

abbrev pub time_of : Call → ℕ
time_of (allows c t) = t
time_of (acquires c t) = t
time_of (releases c t) = t

unfoldable pub step : Limiter → Call → Limiter
step l (allows c t) = (allow c t l).0
step l (acquires c t) = (acquire c t l).0
step l (releases c t) = release c l

unfoldable pub run : Limiter → List Call → Limiter
run l [] = l
run l (k ∷ ks) = run (step l k) ks

-- How many calls of allow by a client are let through.
unfoldable pub grant : String → Limiter → Call → ℕ
grant c l (allows d t) = if str_eq d c && (allow d t l).1 then 1 else 0
grant c l (acquires d t) = 0
grant c l (releases d t) = 0

unfoldable pub grants : String → Limiter → List Call → ℕ
unfolding grant step
grants c l [] = 0
grants c l (k ∷ ks) = grant c l k + grants c (step l k) ks

-- The instants of the calls do not go back, from `from` to `to`.
abbrev pub IsTimely : ℕ → List Call → ℕ → Type 0
IsTimely from [] to = from ≤ to
IsTimely from (k ∷ ks) to = (from ≤ time_of k) × IsTimely (time_of k) ks to

pub new_limiter-IsValid :
    (rate burst ttl from : ℕ)
    → 1 ≤ burst
    → burst * token ≤ ttl * rate
    → IsValid (new_limiter rate burst ttl) from
unfolding new_limiter lookup
new_limiter-IsValid rate burst ttl from h k = record {
  keys = tt;
  sound = λ c. tt;
  room = omega arith;
  fills = k;
}
