-- ===== src/Examples/Plans.antt =====
-- internal/sweep/schedule.go: a site read every ten days, on day 1000.
use museumscraper.Prelude.{
  ℕ, ◌+◌, ◌*◌, ◌≤◌, ◌<◌, ◌≡◌, refl, ◌≢◌, ◌↔◌, inr, true, false, none, some, List, [], ◌∷◌, arith,
}
use museumscraper.Sweep.Schedule.{
  changed, unchanged, failed, day, min_interval, max_interval, max_failures, State, after_failure,
  next,
}
use museumscraper.Sweep.Schedule.Due.{next-due_bounds}
use museumscraper.Sweep.Schedule.Failures.{next-park_iff}
use museumscraper.Sweep.Schedule.Adapting.{Visit, attempt_times, attempt_times_settles}

abbrev site : State
site = record { interval = 10 * day; consecutive_failures = 0 }

abbrev now : ℕ
now = 1000 * day

next-due_bounds_example :
    (now < (next site changed (some (1002 * day)) now).due_at)
    × ((next site changed (some (1002 * day)) now).due_at ≤ now + max_interval)
next-due_bounds_example =
    next-due_bounds site changed (some (1002 * day)) now (inr (omega arith, omega arith))

changed-not-failed : changed ≢ failed
changed-not-failed e = cc

fifth-unparked :
    (next (record { interval = 10 * day; consecutive_failures = 4 }) failed none now).park ≡ false
unfolding next after_failure
fifth-unparked = refl

next-park_iff_example :
    ((next site failed none now).park ≡ true) ↔ ((failed ≡ failed) × (max_failures ≤ 0 + 1))
next-park_iff_example = next-park_iff site failed none now

-- Every visit finds an exhibition that closes on day 1002.
abbrev visit : Visit
visit = record { soonest = some (1002 * day); now = now }

abbrev five : List Visit
five = visit ∷ visit ∷ visit ∷ visit ∷ visit ∷ []

abbrev nine : List Visit
nine = visit ∷ visit ∷ visit ∷ visit ∷ five

attempt_times_settles_example :
    ((attempt_times unchanged nine site).interval ≡ max_interval)
    × ((attempt_times changed five site).interval ≡ min_interval)
attempt_times_settles_example =
    attempt_times_settles site nine five (omega arith) (omega arith) (omega arith) (omega arith)
