-- ===== src/Sweep/Schedule/Adapting.antt =====
-- Next: how the interval follows what a site does.
use museumscraper.Prelude.{
  ℕ, ◌*◌, ◌/◌, ◌≤◌, ◌<◌, ◌≡◌, refl, ap, ◌≢◌, Option, List, [], ◌∷◌, arith, length,
}
use museumscraper.Sweep.Schedule.{
  Outcome, changed, unchanged, failed, hour, min_interval, max_interval, State, next, remember,
}

-- When an attempt is made, and the soonest closing date of what it read, if that is known.
pub record Visit : Type 0 where
  pub soonest : Option ℕ
  pub now : ℕ

-- The state after an attempt.
unfoldable pub attempt : Outcome → Visit → State → State
unfolding next remember
attempt o v s = remember (next s o v.soonest v.now)

-- The state after an attempt at each of the visits, all with the same outcome.
unfoldable pub attempt_times : Outcome → List Visit → State → State
attempt_times o [] s = s
attempt_times o (v ∷ vs) s = attempt_times o vs (attempt o v s)

-- A change shortens an interval between the floor and the ceiling, and an unchanged read lengthens
-- it, whatever the closing date and the instant.
next-interval_monotone :
    (s : State) (soonest : Option ℕ) (now : ℕ)
    → min_interval < s.interval
    → s.interval < max_interval
    → ((next s changed soonest now).interval < s.interval)
      × (s.interval < (next s unchanged soonest now).interval)
unfolding next
next-interval_monotone s soonest now h k = ground arith

-- An unchanged read takes a lower bound `t` on the interval to `t * 3 / 2`, up to the ceiling.
eases :
    (t u : ℕ) (v : Visit) (s : State)
    → 0 < t
    → u ≤ t * 3 / 2
    → u ≤ max_interval
    → t ≤ s.interval
    → u ≤ (attempt unchanged v s).interval
unfolding attempt
eases t u v s p h k l = ground arith

-- A change takes an upper bound `t` on the interval to `t / 2`, down to the floor.
shrinks :
    (t u : ℕ) (v : Visit) (s : State)
    → t / 2 ≤ u
    → min_interval ≤ u
    → (0 < s.interval) × (s.interval ≤ t)
    → (0 < (attempt changed v s).interval) × ((attempt changed v s).interval ≤ u)
unfolding attempt
shrinks t u v s h k l = ground arith

attempt_bounds :
    (o : Outcome) (v : Visit) (s : State)
    → o ≢ failed
    → (min_interval ≤ (attempt o v s).interval) × ((attempt o v s).interval ≤ max_interval)
unfolding attempt
attempt_bounds changed v s h = ground arith
attempt_bounds unchanged v s h = ground arith
attempt_bounds failed v s h = absurd (h refl)

eased : List ℕ
eased = 72 ∷ 108 ∷ 162 ∷ 243 ∷ 364 ∷ 546 ∷ 819 ∷ 1228 ∷ 1440 ∷ []

shrunk : List ℕ
shrunk = 720 ∷ 360 ∷ 180 ∷ 90 ∷ 48 ∷ []

-- The bounds, in hours, that one more unchanged read leads to from `t`.
abbrev IsEased : ℕ → List ℕ → Type 0
IsEased t [] = t ≡ 1440
IsEased t (u ∷ us) =
    (0 < t) × (u * hour ≤ t * hour * 3 / 2) × (u * hour ≤ max_interval) × IsEased u us

abbrev IsShrunk : ℕ → List ℕ → Type 0
IsShrunk t [] = t ≡ 48
IsShrunk t (u ∷ us) = (t * hour / 2 ≤ u * hour) × (min_interval ≤ u * hour) × IsShrunk u us

-- Once there, the interval stays at the ceiling, and at the floor.
stays_ceiling :
    (vs : List Visit) (s : State)
    → max_interval ≤ s.interval
    → max_interval ≤ (attempt_times unchanged vs s).interval
unfolding attempt_times
stays_ceiling [] s h = h
stays_ceiling (v ∷ vs) s h =
    stays_ceiling vs (attempt unchanged v s)
      (eases max_interval max_interval v s (omega arith) (omega arith) (omega arith) h)

stays_floor :
    (vs : List Visit) (s : State)
    → (0 < s.interval) × (s.interval ≤ min_interval)
    → (attempt_times changed vs s).interval ≤ min_interval
unfolding attempt_times
stays_floor [] s h = h.1
stays_floor (v ∷ vs) s h =
    stays_floor vs (attempt changed v s)
      (shrinks min_interval min_interval v s (omega arith) (omega arith) h)

reaches_ceiling :
    (t : ℕ) (us : List ℕ) (vs : List Visit) (s : State)
    → IsEased t us
    → length us ≤ length vs
    → t * hour ≤ s.interval
    → max_interval ≤ (attempt_times unchanged vs s).interval
unfolding attempt_times
reaches_ceiling t [] vs s e l h = stays_ceiling vs s (omega (arith, ap (λ (x : ℕ). x * hour) e))
reaches_ceiling t (u ∷ us) [] s e l h = absurd (omega arith)
reaches_ceiling t (u ∷ us) (v ∷ vs) s (p, q, r, e) l h =
    reaches_ceiling u us vs (attempt unchanged v s) e (omega arith)
      (eases (t * hour) (u * hour) v s (omega arith) q r h)

reaches_floor :
    (t : ℕ) (us : List ℕ) (vs : List Visit) (s : State)
    → IsShrunk t us
    → length us ≤ length vs
    → (0 < s.interval) × (s.interval ≤ t * hour)
    → (attempt_times changed vs s).interval ≤ min_interval
unfolding attempt_times
reaches_floor t [] vs s e l h =
    stays_floor vs s (h.0, omega (arith, h.1, ap (λ (x : ℕ). x * hour) e))
reaches_floor t (u ∷ us) [] s e l h = absurd (omega arith)
reaches_floor t (u ∷ us) (v ∷ vs) s (p, q, e) l h =
    reaches_floor u us vs (attempt changed v s) e (omega arith)
      (shrinks (t * hour) (u * hour) v s p q h)

attempt_times_bounds :
    (o : Outcome) (v : Visit) (vs : List Visit) (s : State)
    → o ≢ failed
    → (min_interval ≤ (attempt_times o (v ∷ vs) s).interval)
      × ((attempt_times o (v ∷ vs) s).interval ≤ max_interval)
unfolding attempt_times
attempt_times_bounds o v [] s h = attempt_bounds o v s h
attempt_times_bounds o v (v' ∷ vs) s h = attempt_times_bounds o v' vs (attempt o v s) h

at_ceiling :
    (vs : List Visit) (s : State)
    → min_interval ≤ s.interval
    → 9 ≤ length vs
    → (attempt_times unchanged vs s).interval ≡ max_interval
unfolding eased
at_ceiling [] s h l = absurd (omega arith)
at_ceiling (v ∷ vs) s h l = omega (
  arith,
  reaches_ceiling 48 eased (v ∷ vs) s (omega arith) l h,
  attempt_times_bounds unchanged v vs s (λ e. cc),
)

at_floor :
    (vs : List Visit) (s : State)
    → min_interval ≤ s.interval
    → s.interval ≤ max_interval
    → 5 ≤ length vs
    → (attempt_times changed vs s).interval ≡ min_interval
unfolding shrunk
at_floor [] s h k l = absurd (omega arith)
at_floor (v ∷ vs) s h k l = omega (
  arith,
  reaches_floor 1440 shrunk (v ∷ vs) s (omega arith) l (omega arith, k),
  attempt_times_bounds changed v vs s (λ e. cc),
)

-- From an interval between the floor and the ceiling, and whatever the instants of the visits and the
-- closing dates that each of them finds: nine unchanged reads in a row, or more, bring the interval
-- to the ceiling, and five changed ones, or more, bring it to the floor.
pub attempt_times_settles :
    (s : State) (quiet busy : List Visit)
    → min_interval ≤ s.interval
    → s.interval ≤ max_interval
    → 9 ≤ length quiet
    → 5 ≤ length busy
    → ((attempt_times unchanged quiet s).interval ≡ max_interval)
      × ((attempt_times changed busy s).interval ≡ min_interval)
attempt_times_settles s quiet busy h k l m = (at_ceiling quiet s h l, at_floor busy s h k m)
