-- ===== src/Api/RateLimit/Refill.antt =====
-- The token bucket: what a client may still ask for, and how fast it gets more.
use museumscraper.Prelude.{
  ℕ, ◌+◌, ◌-◌, ◌*◌, ◌≤◌, ◌<◌, min, String, ◌≡◌, refl, ap, ◌∙◌, inl, inr, Bool, ◌&&◌, Option, none,
  some, arith, leb, if◌then◌else◌, Bool-cases, Option-cases,
}
use mathlib.Core.Path.{subst}
use native.Mathlib.Nat.{add-mul, mul-le-mul_right}
use text.Mathlib.Text.{◌==◌ as str_eq}
use text.Mathlib.TextEquality.{eq_iff}
use museumscraper.Prelude.Int.{ℤ, pos, negsuc, sub_nat}
use museumscraper.Api.RateLimit.Clients.{lookup, lookup-put, lookup-keep_if, kept, IsMap}
use museumscraper.Api.RateLimit.{Bucket, Limiter, token, allow, allow_found, refill, is_kept, spend}

-- A bucket between two calls at instants that do not go back: it holds from no tokens to the burst,
-- and was last used no later than now.
abbrev pub IsSound : Limiter → ℕ → Option Bucket → Type 0
IsSound l now none = Unit
IsSound l now (some b) = (b.last ≤ now) × ((n : ℕ) × (b.tokens ≡ pos n) × (n ≤ l.burst))

-- The limiter holds one sound bucket a client, a token fits into the burst, and a bucket that is
-- old enough to be dropped would have been full again.
pub record IsValid (l : Limiter) (now : ℕ) : Type 0 where
  pub keys : IsMap l.buckets
  pub sound : (c : String) → IsSound l now (lookup c l.buckets)
  pub room : token ≤ l.burst
  pub fills : l.burst ≤ l.ttl * l.rate

-- How many units a client could spend now; one without a bucket has the whole burst.
abbrev pub amount : ℤ → ℕ
amount (pos n) = n
amount (negsuc n) = 0

abbrev pub available_of : (rate burst : ℕ) → ℕ → Option Bucket → ℕ
available_of rate burst now none = burst
available_of rate burst now (some b) = amount (refill rate burst b now)

unfoldable pub available : Limiter → String → ℕ → ℕ
available l c now = available_of l.rate l.burst now (lookup c l.buckets)

pub mul_split : (a b r : ℕ) → a ≤ b → b * r ≡ a * r + (b - a) * r
mul_split a b r h =
    let e : b ≡ a + (b - a) = omega arith in ap (λ (t : ℕ). t * r) e ∙ add-mul a (b - a) r

pub refill_eq :
    (rate burst : ℕ) (b : Bucket) (now n : ℕ)
    → b.last ≤ now
    → b.tokens ≡ pos n
    → refill rate burst b now ≡ pos (min burst (n + (now - b.last) * rate))
unfolding refill
refill_eq rate burst b now n h e = ground (arith, mul_split b.last now rate h)

pub refill_now :
    (rate burst : ℕ) (b : Bucket) (n : ℕ)
    → b.tokens ≡ pos n
    → refill rate burst b b.last ≡ pos (min burst n)
unfolding refill
refill_now rate burst b n e = ground arith

-- Dropping a bucket loses nothing.
sweep_harmless :
    (l : Limiter) (now : ℕ) (b : Option Bucket)
    → IsSound l now b
    → l.burst ≤ l.ttl * l.rate
    → available_of l.rate l.burst now (kept (is_kept l now) b) ≡ available_of l.rate l.burst now b
unfolding is_kept
sweep_harmless l now none s f = refl
sweep_harmless l now (some b) (s, (n, e, h)) f =
    let full : l.ttl < now - b.last → l.ttl * l.rate ≤ (now - b.last) * l.rate =
      λ late. mul-le-mul_right l.rate (omega arith) in
    ground (arith, refill_eq l.rate l.burst b now n s e, full)

module _ (c d : String) (now : ℕ) (l : Limiter) (v : IsValid l now) where
  -- What a call of allow for `c` promises about what `d` may spend.
  abbrev Spends : Limiter × Bool → Type 0
  Spends r =
      (r.1 ≡ leb token (available l c now))
      × (available r.0 d now
          ≡ (if str_eq c d && r.1 then available l d now - token else available l d now))

  Spends-fresh : lookup c l.buckets ≡ none → Spends (allow_found none c now l)
  unfolding allow_found available
  Spends-fresh e =
      let other = sweep_harmless l now (lookup d l.buckets) (v.sound d) v.fills in
      let swept = lookup-keep_if d (is_kept l now) l.buckets v.keys in
      let b : Bucket = record { tokens = sub_nat l.burst token; last = now; in_flight = 0 } in
      let spent = refill_now l.rate l.burst b (l.burst - token) (ground (arith, v.room)) in
      (
        ground (arith, v.room, e),
        rw lookup-put (elim (Bool-cases (str_eq c d)) [
          | inl same ↦
              let e' = subst (λ x. lookup x l.buckets ≡ none) ((eq_iff c d).0 same) e in
              ground (arith, same, spent, e')
          | inr ne ↦ ground (arith, ne, swept, other)
        ]),
      )

  Spends-held : (b : Bucket) → lookup c l.buckets ≡ some b → Spends (allow_found (some b) c now l)
  unfolding allow_found available spend
  Spends-held b e =
      let (late, (n, t, h)) = subst (IsSound l now) e (v.sound c) in
      let m = min l.burst (n + (now - b.last) * l.rate) in
      let full = refill_eq l.rate l.burst b now n late t in
      let b₀ : Bucket = record b { tokens = pos m; last = now } in
      let b₁ : Bucket = record b { tokens = pos (m - token); last = now } in
      let r₀ = refill_now l.rate l.burst b₀ m refl in
      let r₁ = refill_now l.rate l.burst b₁ (m - token) refl in
      let p₀ = lookup-put c d b₀ l.buckets in
      let p₁ = lookup-put c d b₁ l.buckets in
      elim (Bool-cases (str_eq c d)) [
        | inl same ↦
            let e' = subst (λ x. lookup x l.buckets ≡ some b) ((eq_iff c d).0 same) e in
            ground (arith, same, full, r₀, r₁, p₀, p₁, e, e')
        | inr ne ↦ ground (arith, ne, full, p₀, p₁, e)
      ]

-- One call of allow by `c`, on a valid limiter: it lets the client through exactly if a whole token
-- is available to it, takes that token, and takes nothing from what any other client has available,
-- those whose buckets it drops included.
pub allow_lem :
    (c d : String) (now : ℕ) (l : Limiter)
    → IsValid l now
    → ((allow c now l).1 ≡ leb token (available l c now))
      × (available (allow c now l).0 d now ≡ (
          if str_eq c d && (allow c now l).1 then available l d now - token else available l d now))
unfolding allow
allow_lem c d now l v = elim (Option-cases (lookup c l.buckets)) [
  | inl e ↦ rw e (Spends-fresh c d now l v e)
  | inr (b, e) ↦ rw e (Spends-held c d now l v b e)
]
