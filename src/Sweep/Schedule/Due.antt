-- ===== src/Sweep/Schedule/Due.antt =====
-- Next: the date that it chooses.
use museumscraper.Prelude.{
  ℕ, ◌+◌, ◌-◌, ◌*◌, ◌^◌, ◌≤◌, ◌<◌, min, ◌≡◌, refl, ◌≢◌, ◌⊎◌, false, Option, none, some, arith,
}
use native.Mathlib.Nat.{one-le-pow, pow-le-pow_right}
use museumscraper.Sweep.Schedule.{
  Outcome, changed, unchanged, failed, day, min_interval, max_interval, max_backoff_shift,
  recheck_after_close, State, after_failure, next,
}

-- The intervals that the scheduler itself produces, and 0 for a site never read.
abbrev pub IsLearned : State → Type 0
IsLearned s = (s.interval ≡ 0) ⊎ ((min_interval ≤ s.interval) × (s.interval ≤ max_interval))

small_shift : (f : ℕ) → f < 5 → 2 ^ min (f + 1 - 1) max_backoff_shift ≤ 16
small_shift f h =
    pow-le-pow_right {n = 2} (omega arith) {i = min (f + 1 - 1) max_backoff_shift} {j = 4}
      (omega arith)

after_failure-due :
    (s : State) (now : ℕ)
    → (now < (after_failure s now).due_at) × ((after_failure s now).due_at ≤ now + max_interval)
unfolding after_failure
after_failure-due s now =
    let k = min (s.consecutive_failures + 1 - 1) max_backoff_shift in
    let e : ◌≡◌ {A = ℕ} k (min s.consecutive_failures max_backoff_shift) = ground arith in
    ground (
      arith,
      one-le-pow k 2 (omega arith),
      pow-le-pow_right {n = 2} (omega arith) {i = k} {j = 5} (omega arith),
    )

-- A failed site that is not parked is tried again within 8 days, whatever its state: no backoff
-- that the scheduler uses reaches the 16 days that the cap on the shift allows.
pub next-due_failed :
    (s : State) (soonest : Option ℕ) (now : ℕ)
    → (next s failed soonest now).park ≡ false
    → (next s failed soonest now).due_at ≤ now + 8 * day
unfolding next after_failure
next-due_failed s soonest now h =
    let k = min (s.consecutive_failures + 1 - 1) max_backoff_shift in
    let e : ◌≡◌ {A = ℕ} k (min s.consecutive_failures max_backoff_shift) = ground arith in
    ground (arith, small_shift s.consecutive_failures)

-- From a learned state, the next interval lies between the floor and the ceiling, whatever the
-- outcome, the closing date and the instant.
pub next-interval_bounds :
    (s : State) (o : Outcome) (soonest : Option ℕ) (now : ℕ)
    → IsLearned s
    → (min_interval ≤ (next s o soonest now).interval)
      × ((next s o soonest now).interval ≤ max_interval)
unfolding next
next-interval_bounds s changed soonest now h = ground arith
next-interval_bounds s unchanged soonest now h = ground arith
next-interval_bounds s failed soonest now h = ground arith

-- From a learned state, that is one whose interval is 0 or lies between the floor and the ceiling, the
-- next visit lies in the future and at most the ceiling ahead, whatever the outcome, the closing date
-- and the instant.
pub next-due_bounds :
    (s : State) (o : Outcome) (soonest : Option ℕ) (now : ℕ)
    → IsLearned s
    → (now < (next s o soonest now).due_at) × ((next s o soonest now).due_at ≤ now + max_interval)
unfolding next
next-due_bounds s changed soonest now h = ground arith
next-due_bounds s unchanged soonest now h = ground arith
next-due_bounds s failed soonest now h = ground (arith, after_failure-due s now)

-- A visit that reached the site is followed by one no later than a day after the soonest closing
-- date, if that day is still to come.
next-due-le-close :
    (s : State) (o : Outcome) (close now : ℕ)
    → o ≢ failed
    → now < close + recheck_after_close
    → (next s o (some close) now).due_at ≤ close + recheck_after_close
unfolding next
next-due-le-close s changed close now h k = ground arith
next-due-le-close s unchanged close now h k = ground arith
next-due-le-close s failed close now h k = absurd (h refl)

-- A closing date never delays a visit.
pub next-due_close :
    (s : State) (o : Outcome) (close now : ℕ)
    → (next s o (some close) now).due_at ≤ (next s o none now).due_at
unfolding next
next-due_close s changed close now = ground arith
next-due_close s unchanged close now = ground arith
next-due_close s failed close now = ground arith
