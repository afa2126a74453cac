-- ===== src/Api/RateLimit/InFlight.antt =====
-- withRateLimit: any number of requests in flight at once, entering and finishing in any order.
use museumscraper.Prelude.{ℕ, ◌+◌, ◌-◌, ◌≤◌, ◌<◌, String, ◌≡◌, List, [], ◌∷◌, arith, if◌then◌else◌}
use text.Mathlib.Text.{◌==◌ as str_eq}
use text.Mathlib.TextEquality.{eq_iff}
use museumscraper.Api.RateLimit.Clients.{IsMap}
use museumscraper.Api.RateLimit.Counts.{in_flight}
use museumscraper.Api.RateLimit.{
  Limiter, new_limiter, release, max_in_flight_per_client, Admission, admitted, enter,
}

-- How often a client stands among the requests that are being served.
abbrev pub count : String → List String → ℕ
count c [] = 0
count c (d ∷ ds) = count c ds + (if str_eq d c then 1 else 0)

abbrev pub remove : String → List String → List String
remove c [] = []
remove c (d ∷ ds) = if str_eq d c then ds else d ∷ remove c ds

abbrev pub serving : Admission → String → List String → List String
serving admitted c ds = c ∷ ds
serving _ c ds = ds

-- A limiter, and the clients of the requests that it has let in and that have not finished.
pub data Reachable : Limiter → List String → Type 0 where
  starts : (rate burst ttl : ℕ) → Reachable (new_limiter rate burst ttl) []
  enters :
      {l : Limiter} {ds : List String} (path c : String) (now : ℕ)
      → Reachable l ds
      → Reachable (enter path c now l).0 (serving (enter path c now l).1 c ds)
  finishes :
      {l : Limiter} {ds : List String} (c : String)
      → 0 < count c ds
      → Reachable l ds
      → Reachable (release c l) (remove c ds)

pub record IsCounted (l : Limiter) (ds : List String) : Type 0 where
  pub keys : IsMap l.buckets
  pub counts : (c : String) → in_flight l c ≡ count c ds
  pub most : (c : String) → count c ds ≤ max_in_flight_per_client

pub count-remove :
    (c d : String) (ds : List String)
    → 0 < count d ds
    → count c (remove d ds) ≡ count c ds - (if str_eq d c then 1 else 0)
count-remove c d [] h = absurd (omega arith)
count-remove c d (x ∷ ds) h =
    ground (arith, eq_iff x d, eq_iff d c, eq_iff x c, count-remove c d ds)
