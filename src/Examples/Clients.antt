-- ===== src/Examples/Clients.antt =====
-- internal/api/ratelimit.go: two clients of the server's own limiter.
use museumscraper.Prelude.{List, [], ◌∷◌, arith}
use museumscraper.Api.RateLimit.{Limiter, new_limiter, requests_per_second, burst_size, client_ttl}
use museumscraper.Api.RateLimit.Refill.{IsValid}
use museumscraper.Api.RateLimit.Rate.{Call, allows, acquires, releases, new_limiter-IsValid}

abbrev server : Limiter
server = new_limiter requests_per_second burst_size client_ttl

-- Two requests of one client and one of another, within a second.
abbrev calls : List Call
calls =
    allows "a" 1000000000
    ∷ acquires "a" 1000000000
    ∷ allows "b" 1000000001
    ∷ allows "a" 1500000000
    ∷ releases "a" 1600000000
    ∷ []

server-IsValid : IsValid server 1000000000
server-IsValid =
    new_limiter-IsValid requests_per_second burst_size client_ttl 1000000000 (omega arith)
      (omega arith)
