-- ===== src/Api/RateLimit.antt =====
-- internal/api/ratelimit.go. Instants are nanoseconds. Token counts, which the source keeps in
-- float64, are exact here, in units of 10 ^ -9 tokens: a rate of r tokens a second earns r units a
-- nanosecond. `rate` is a whole number, as requestsPerSecond is.
pub mod Clients
pub mod Refill
pub mod Valid
pub mod Rate
pub mod Counts
pub mod InFlight
use museumscraper.Prelude.{
  ℕ, zero, suc, ◌+◌, ◌-◌, ◌*◌, ◌/◌, ◌%◌, ◌^◌, ◌≤◌, ◌<◌, min, max, String, ◌≡◌, refl, sym, ap, ◌∙◌,
  ◌≢◌, ◌↔◌, ◌⊎◌, inl, inr, Bool, true, false, not, ◌&&◌, ◌||◌, Option, none, some, List, [], ◌∷◌,
  ◌++◌, map, arith, ltb, leb, ◌==◌, if◌then◌else◌, ltb→lt, lt→ltb, leb→le, ==_iff, Bool-cases,
  Option-cases, length, get_elem?, set, length-append, length-set, get_elem?-set_self,
  get_elem?-set_ne, All, dec_lt, ℕ_discrete,
}
use text.Mathlib.Text.{◌==◌ as str_eq}
use museumscraper.Prelude.Int.{ℤ, pos, negsuc, sub_nat, shift}
use Clients.{ClientMap, lookup, put, keep_if}

-- One token.
abbrev pub token : ℕ
token = 1000000000

abbrev pub requests_per_second : ℕ
requests_per_second = 10

abbrev pub burst_size : ℕ
burst_size = 30

abbrev pub max_in_flight_per_client : ℕ
max_in_flight_per_client = 4

-- 10 * time.Minute
abbrev pub client_ttl : ℕ
client_ttl = 600000000000

pub record Bucket : Type 0 where
  pub tokens : ℤ
  pub last : ℕ
  pub in_flight : ℕ

pub record Limiter : Type 0 where
  pub buckets : ClientMap Bucket
  pub rate : ℕ
  pub burst : ℕ
  pub ttl : ℕ

unfoldable pub new_limiter : ℕ → ℕ → ℕ → Limiter
new_limiter rate burst ttl = record { buckets = []; rate = rate; burst = burst * token; ttl = ttl }

-- min(l.burst, held.tokens + now.Sub(held.last).Seconds() * l.rate). `now` is read before the mutex
-- is taken, so it may be before `last`: the elapsed time is then negative, tokens are taken away, and
-- what is left may be below 0.
unfoldable pub refill : (rate burst : ℕ) → Bucket → ℕ → ℤ
refill rate burst b now = elim (shift b.tokens (now * rate) (b.last * rate)) [
  | pos n ↦ pos (min burst n)
  | negsuc n ↦ negsuc n
]

-- Whether sweep keeps a bucket.
unfoldable pub is_kept : Limiter → ℕ → Bucket → Bool
is_kept l now b = not (b.in_flight == 0 && ltb l.ttl (now - b.last))

unfoldable pub sweep : ℕ → Limiter → Limiter
sweep now l = record l { buckets = keep_if (is_kept l now) l.buckets }

-- The part of allow for a client that has a bucket, once it is refilled.
unfoldable pub spend : Limiter → String → Bucket → ℕ → ℤ → Limiter × Bool
spend l client b now (negsuc n) = (
  record l { buckets = put client (record b { tokens = negsuc n; last = now }) l.buckets },
  false,
)
spend l client b now (pos n) =
    if ltb n token
    then (
      record l { buckets = put client (record b { tokens = pos n; last = now }) l.buckets },
      false,
    )
    else (
      record l {
        buckets = put client (record b { tokens = pos (n - token); last = now }) l.buckets;
      },
      true,
    )

-- The rest of allow, once the map has been asked for the client.
unfoldable pub allow_found : Option Bucket → String → ℕ → Limiter → Limiter × Bool
unfolding refill sweep spend
allow_found none client now l =
    let swept = sweep now l in
    let b : Bucket = record { tokens = sub_nat l.burst token; last = now; in_flight = 0 } in
    (record swept { buckets = put client b swept.buckets }, true)
allow_found (some b) client now l = spend l client b now (refill l.rate l.burst b now)

unfoldable pub allow : String → ℕ → Limiter → Limiter × Bool
unfolding allow_found
allow client now l = allow_found (lookup client l.buckets) client now l

-- The bucket that acquire works on, `now` being read only where there is none.
abbrev pub held : Limiter → String → ℕ → Bucket
held l client now = elim (lookup client l.buckets) [
  | none ↦ record { tokens = pos l.burst; last = now; in_flight = 0 }
  | some b ↦ b
]

unfoldable pub acquire : String → ℕ → Limiter → Limiter × Bool
acquire client now l =
    let b = held l client now in
    if leb max_in_flight_per_client b.in_flight
    then (record l { buckets = put client b l.buckets }, false)
    else (
      record l { buckets = put client (record b { in_flight = b.in_flight + 1 }) l.buckets },
      true,
    )

unfoldable pub release : String → Limiter → Limiter
release client l = elim (lookup client l.buckets) [
  | none ↦ l
  | some b ↦
      if ltb 0 b.in_flight
      then record l { buckets = put client (record b { in_flight = b.in_flight - 1 }) l.buckets }
      else l
]

-- What withRateLimit does with a request: passes it on unlimited, refuses it for one of the two
-- reasons, both with status 429 and Retry-After 1, or passes it on and releases the slot afterwards.
pub data Admission : Type 0 where
  exempt rate_limited too_many_in_flight admitted : Admission

unfoldable pub enter : String → String → ℕ → Limiter → Limiter × Admission
enter path client now l =
    if str_eq path "/livez" || str_eq path "/readyz"
    then (l, exempt)
    else (let (l₁, allowed) = allow client now l in
        if not allowed
        then (l₁, rate_limited)
        else (let (l₂, acquired) = acquire client now l₁ in
            if not acquired then (l₂, too_many_in_flight) else (l₂, admitted)))
