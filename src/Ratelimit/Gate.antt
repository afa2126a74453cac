-- ===== src/Ratelimit/Gate.antt =====
-- internal/ratelimit/gate.go: Gate, its operations, and Backoff. A duration is an int64 pattern of
-- nanoseconds (Int64), an instant the nanoseconds since the zero time.Time.
pub mod Bounds
pub mod Spacing
pub mod Recovery
use museumscraper.Prelude.{
  ℕ, zero, suc, ◌+◌, ◌-◌, ◌^◌, ◌≤◌, ◌<◌, ltb, leb, ◌==◌, min, Bool, true, false, Option, none, some,
  List, [], ◌∷◌, if◌then◌else◌,
}
use museumscraper.Ratelimit.Int64.{negative, slt, add64, sub64, mul64, neg64, quot64}

pub record Gate : Type 0 where
  pub next : ℕ
  pub interval : ℕ
  pub least : ℕ
  pub most : ℕ

unfoldable pub new_gate : ℕ → ℕ → Gate
new_gate least most = record {
  next = 0;
  interval = least;
  least = least;
  most = if slt most least then least else most;
}

-- The instant a duration after another; a negative duration goes back.
unfoldable pub add_duration : ℕ → ℕ → ℕ
add_duration t d = if negative d then t - neg64 d else t + d

-- `next.Sub(now)` with a negative difference set to 0. `Sub` itself stops at the largest int64.
unfoldable pub delay : Gate → ℕ → ℕ
delay g now = min (g.next - now) (2 ^ 63 - 1)

-- What Wait does under the lock: it books a slot, which is the instant `now + delay`.
unfoldable pub book : Gate → ℕ → Gate
unfolding delay add_duration
book g now = record g { next = add_duration now (add64 (delay g now) g.interval) }

-- A context that ends at an instant, or never.
abbrev pub Context : Type 0
Context = Option ℕ

-- `ctx.Err() != nil` at an instant.
unfoldable pub ended : Context → ℕ → Bool
ended none t = false
ended (some e) t = leb e t

-- Sleep from `now`: true if the timer fired. Where both are ready at once Go's select picks one,
-- which is `timer_first`.
unfoldable pub sleep : Context → ℕ → ℕ → Bool → Bool
sleep none now d timer_first = true
sleep (some e) now d timer_first =
    if ltb e (now + d) then false else if e == now + d then timer_first else true

-- Wait: the gate afterwards, and whether the caller may issue its request.
unfoldable pub wait : Context → Bool → Gate → ℕ → Gate × Bool
unfolding book ended sleep
wait ctx timer_first g now = (
  book g now,
  if delay g now == 0
      then (if ended ctx now then false else true)
      else sleep ctx now (delay g now) timer_first,
)

unfoldable pub slow_down : Gate → Gate
slow_down g =
    let doubled = mul64 g.interval 2 in
    record g { interval = if slt g.most doubled then g.most else doubled }

unfoldable pub speed_up : Gate → Gate
speed_up g =
    let narrowed = sub64 g.interval (quot64 g.interval 8) in
    if slt g.least g.interval
    then record g { interval = if slt narrowed g.least then g.least else narrowed }
    else g

-- time.Second
abbrev pub second : ℕ
second = 1000000000

-- Backoff, counting attempts from one; attempts below one are all `zero` here. The shift is of an
-- int64, so it is 0 from 64 on.
unfoldable pub backoff : ℕ → ℕ
backoff zero = 0
backoff (suc n) = if ltb n 64 then mul64 (2 ^ n) second else 0

-- One use of a shared gate, in the order in which the mutex lets them in.
pub data Use : Type 0 where
  waits : ℕ → Use
  refused succeeded : Use

unfoldable pub step : Gate → Use → Gate
unfolding book slow_down speed_up
step g (waits now) = book g now
step g refused = slow_down g
step g succeeded = speed_up g

unfoldable pub run : Gate → List Use → Gate
run g [] = g
run g (u ∷ us) = run (step g u) us

-- The slots that the waits of a run are given, in order.
unfoldable pub slots : Gate → List Use → List ℕ
slots g [] = []
slots g (waits now ∷ us) = (now + delay g now) ∷ slots (step g (waits now)) us
slots g (u ∷ us) = slots (step g u) us
