-- ===== src/Sweep/Schedule/Failures.antt =====
-- Next: runs of failures, their backoff, and parking.
use museumscraper.Prelude.{
  ℕ, zero, suc, ◌+◌, ◌-◌, ◌*◌, ◌^◌, ◌≤◌, ◌<◌, min, ◌≡◌, refl, ◌↔◌, true, false, Option, none, some,
  arith,
}
use museumscraper.Sweep.Schedule.{
  Outcome, changed, unchanged, failed, failure_backoff, max_backoff_shift, max_failures, State,
  current_interval, after_failure, bring_forward, next, remember,
}

-- The state after `n` more failed attempts.
unfoldable pub fail_times : ℕ → State → State
unfolding next remember
fail_times zero s = s
fail_times (suc n) s = fail_times n (remember (next s failed none 0))

-- A plan parks its site exactly when the attempt failed and was the sixth failure in a row or later.
pub next-park_iff :
    (s : State) (o : Outcome) (soonest : Option ℕ) (now : ℕ)
    → ((next s o soonest now).park ≡ true)
      ↔ ((o ≡ failed) × (max_failures ≤ s.consecutive_failures + 1))
unfolding next after_failure bring_forward
next-park_iff s changed none now = ((λ h. cc), (λ h. cc))
next-park_iff s changed (some c) now = ((λ h. ground arith), (λ h. cc))
next-park_iff s unchanged none now = ((λ h. cc), (λ h. cc))
next-park_iff s unchanged (some c) now = ((λ h. ground arith), (λ h. cc))
next-park_iff s failed soonest now = ((λ h. (refl, ground arith)), (λ h. ground arith))

-- A visit that reached its site clears the count of failures; one that failed adds one to it, and
-- keeps the interval that the site had learned.
pub next-failures :
    (s : State) (soonest : Option ℕ) (now : ℕ)
    → ((next s changed soonest now).consecutive_failures ≡ 0)
      × ((next s unchanged soonest now).consecutive_failures ≡ 0)
      × ((next s failed soonest now).consecutive_failures ≡ s.consecutive_failures + 1)
      × ((next s failed soonest now).interval ≡ current_interval s)
unfolding next after_failure bring_forward
next-failures s soonest now = ground arith

fail_times-count :
    (n : ℕ) (s : State) → (fail_times n s).consecutive_failures ≡ s.consecutive_failures + n
unfolding fail_times after_failure remember
fail_times-count zero s = omega arith
fail_times-count (suc n) s = ground (arith, fail_times-count n (remember (after_failure s 0)))

shift_exact : (k : ℕ) → k < 5 → min (k + 1 - 1) max_backoff_shift ≡ k
shift_exact k h = omega arith

-- A site with no failures yet that fails again and again is tried six times: after k failures, for
-- k up to four, the next failure plans a try 12 h times 2 ^ k later and does not park the site, and
-- the sixth failure parks it.
pub next-fail_times :
    (s : State) (k now : ℕ)
    → s.consecutive_failures ≡ 0
    → k < 5
    → ((next (fail_times k s) failed none now).park ≡ false)
      × ((next (fail_times k s) failed none now).due_at ≡ now + failure_backoff * 2 ^ k)
      × ((next (fail_times 5 s) failed none now).park ≡ true)
unfolding next after_failure
next-fail_times s k now h small = (
  ground (arith, fail_times-count k s),
  ground (arith, fail_times-count k s, shift_exact k small),
  ground (arith, fail_times-count 5 s),
)
