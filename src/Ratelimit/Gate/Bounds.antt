-- ===== src/Ratelimit/Gate/Bounds.antt =====
-- Gate: the spacing stays within its bounds, whatever the order of waits, refusals and successes.
use museumscraper.Prelude.{
  refl, ℕ, ◌-◌, ◌*◌, ◌/◌, ◌^◌, ◌≤◌, ◌<◌, min, max, ◌≡◌, List, [], ◌∷◌, arith,
}
use museumscraper.Ratelimit.Gate.{
  Gate, new_gate, slow_down, speed_up, Use, waits, refused, succeeded, step, run,
}

-- Durations below 2 ^ 62 ns are some 146 years; below that nothing wraps.
pub record IsValid (g : Gate) : Type 0 where
  pub above : g.least ≤ g.interval
  pub below : g.interval ≤ g.most
  pub small : g.most < 2 ^ 62

pub slow_down-eq :
    (g : Gate) → IsValid g → slow_down g ≡ record g { interval = min (g.interval * 2) g.most }
unfolding slow_down
slow_down-eq g v = ground arith

pub speed_up-eq :
    (g : Gate)
    → IsValid g
    → speed_up g ≡ record g { interval = max (g.interval - g.interval / 8) g.least }
unfolding speed_up
speed_up-eq g v = ground arith

pub step-IsValid : (g : Gate) (u : Use) → IsValid g → IsValid (step g u)
unfolding step
step-IsValid g (waits now) v = ground arith
step-IsValid g refused v = rw (slow_down-eq g v) (ground arith)
step-IsValid g succeeded v = rw (speed_up-eq g v) (ground arith)

pub step-bounds :
    (g : Gate) (u : Use) → IsValid g → ((step g u).least ≡ g.least) × ((step g u).most ≡ g.most)
unfolding step
step-bounds g (waits now) v = (refl, refl)
step-bounds g refused v = (refl, refl)
step-bounds g succeeded v = ground arith

run-IsValid : (g : Gate) (us : List Use) → IsValid g → IsValid (run g us)
unfolding run
run-IsValid g [] v = v
run-IsValid g (u ∷ us) v = run-IsValid (step g u) us (step-IsValid g u v)

run-bounds :
    (g : Gate) (us : List Use)
    → IsValid g
    → ((run g us).least ≡ g.least) × ((run g us).most ≡ g.most)
unfolding run
run-bounds g [] v = ground arith
run-bounds g (u ∷ us) v =
    ground (arith, run-bounds (step g u) us (step-IsValid g u v), step-bounds g u v)

pub new_gate-IsValid :
    (least most : ℕ) → least < 2 ^ 62 → most < 2 ^ 62 → IsValid (new_gate least most)
unfolding new_gate
new_gate-IsValid least most h k = ground arith

-- After any waits, refusals and successes, in any order, the interval of a gate made with `least`
-- and `most`, both below 2 ^ 62 ns, lies between `least` and the larger of the two.
pub run-new_gate_bounds :
    (least most : ℕ) (us : List Use)
    → least < 2 ^ 62
    → most < 2 ^ 62
    → (least ≤ (run (new_gate least most) us).interval)
      × ((run (new_gate least most) us).interval ≤ max least most)
unfolding new_gate
run-new_gate_bounds least most us h k =
    let g = new_gate least most in
    let v = new_gate-IsValid least most h k in ground (arith, run-IsValid g us v, run-bounds g us v)
