-- ===== src/Ratelimit/Gate/Recovery.antt =====
-- Gate and Backoff: how fast the spacing widens on refusals and narrows on successes.
use museumscraper.Prelude.{
  ℕ, zero, suc, ◌+◌, ◌-◌, ◌*◌, ◌/◌, ◌^◌, ◌≤◌, ◌<◌, min, max, ◌≡◌, ap, ◌∙◌, List, [], ◌∷◌, arith,
}
use native.Mathlib.Nat.{pow-suc, one-le-pow, pow-le-pow_right}
use native.Mathlib.Decide.{dec_le}
use mathlib.Core.Path.{ap₂}
use museumscraper.Ratelimit.Gate.{
  Gate, slow_down, speed_up, Use, refused, succeeded, step, run, backoff, second,
}
use museumscraper.Ratelimit.Gate.Bounds.{
  IsValid, slow_down-eq, speed_up-eq, step-IsValid, step-bounds,
}

abbrev pub times : ℕ → Use → List Use
times zero u = []
times (suc n) u = u ∷ times n u

min-min-mul : (i m p : ℕ) → 0 < p → min (min (i * 2) m * p) m ≡ min (i * (p * 2)) m
min-min-mul i m p h = elim (dec_le (i * 2) m) [
  | yes k ↦ let e : min (i * 2) m ≡ i * 2 = omega arith in rw e (omega arith)
  | no k ↦
      let e : min (i * 2) m ≡ m = omega arith in
      let a : m ≤ m * p = grind arith in let b : m ≤ i * (p * 2) = grind arith in rw e (omega arith)
]

step_refused-interval :
    (g : Gate) → IsValid g → (step g refused).interval ≡ min (g.interval * 2) g.most
unfolding step
step_refused-interval g v = ap (λ (h : Gate). h.interval) (slow_down-eq g v)

step-succeeded-interval :
    (g : Gate) → IsValid g → (step g succeeded).interval ≡ max (g.interval - g.interval / 8) g.least
unfolding step
step-succeeded-interval g v = ap (λ (h : Gate). h.interval) (speed_up-eq g v)

-- `n` refusals in a row multiply the interval of a valid gate by 2 ^ n, up to its `most`.
run_refused-interval :
    (n : ℕ) (g : Gate)
    → IsValid g
    → (run g (times n refused)).interval ≡ min (g.interval * 2 ^ n) g.most
unfolding run
run_refused-interval zero g v = ground arith
run_refused-interval (suc n) g v =
    let ih = run_refused-interval n (step g refused) (step-IsValid g refused v) in
    let same =
      ap₂ (λ a b. min (a * 2 ^ n) b) (step_refused-interval g v) (step-bounds g refused v).1 in
    rw pow-suc (ih ∙ same ∙ min-min-mul g.interval g.most (2 ^ n) (one-le-pow n 2 (omega arith)))

-- As many successes in a row as the interval is above `least`, in ns, bring the interval of a valid
-- gate back to `least`, if `least` is 8 ns or more.
pub run-succeeded-recovers :
    (n : ℕ) (g : Gate)
    → IsValid g
    → 8 ≤ g.least
    → g.interval ≤ g.least + n
    → (run g (times n succeeded)).interval ≡ g.least
unfolding run
run-succeeded-recovers zero g v h k = ground arith
run-succeeded-recovers (suc n) g v h k =
    let ih = run-succeeded-recovers n (step g succeeded) (step-IsValid g succeeded v) in
    ground (arith, step-bounds g succeeded v, step-succeeded-interval g v, ih)

-- Below 8 ns an eighth is nothing: a gate whose interval is below that never narrows again.
pub speed_up-stuck : (g : Gate) → IsValid g → g.interval < 8 → speed_up g ≡ g
unfolding speed_up
speed_up-stuck g v h = ground arith

-- A refusal is undone only in part by one success: on a valid gate whose doubled interval still
-- fits, a refusal and then a success leave a larger interval than before, if it was not 0.
pub speed_up-slow_down-lt :
    (g : Gate)
    → IsValid g
    → 0 < g.interval
    → g.interval * 2 ≤ g.most
    → g.interval < (speed_up (slow_down g)).interval
unfolding slow_down speed_up
speed_up-slow_down-lt g v h k = ground arith

-- From the first to the 34th attempt each backoff is twice the one before, and none has wrapped
-- round: the 34th is 2 ^ 33 seconds.
backoff_doubles :
    (n : ℕ)
    → n < 33
    → (backoff (suc n) ≡ 2 ^ n * second) × (backoff (suc (suc n)) ≡ 2 * backoff (suc n))
unfolding backoff
backoff_doubles n h =
    let le : 2 ^ n ≤ 2 ^ 32 = pow-le-pow_right {n = 2} (omega arith) {j = 32} (omega arith) in
    ground (arith, le, pow-suc 2 n)
