-- ===== src/Sweep/Schedule.antt =====
-- internal/sweep/schedule.go: Next and what it remembers. Durations and instants are nanoseconds.
-- The float64 products of the source are exact below 2 ^ 52 ns, some 52 days times 1.5 included,
-- and truncated as here.
pub mod Due
pub mod Failures
pub mod Adapting
use museumscraper.Prelude.{
  ℕ, suc, ◌+◌, ◌-◌, ◌*◌, ◌/◌, ◌^◌, min, max, ltb, leb, ◌==◌, Bool, true, false, ◌&&◌, Option, none,
  some, if◌then◌else◌,
}

pub data Outcome : Type 0 where
  changed unchanged failed : Outcome

abbrev pub hour : ℕ
hour = 3600000000000

abbrev pub day : ℕ
day = 24 * hour

abbrev pub first_interval : ℕ
first_interval = 7 * 24 * hour

abbrev pub min_interval : ℕ
min_interval = 2 * 24 * hour

abbrev pub max_interval : ℕ
max_interval = 60 * 24 * hour

abbrev pub failure_backoff : ℕ
failure_backoff = 12 * hour

abbrev pub max_backoff_shift : ℕ
max_backoff_shift = 5

abbrev pub max_failures : ℕ
max_failures = 6

abbrev pub recheck_after_close : ℕ
recheck_after_close = 24 * hour

-- An interval of 0 is that of a site never read.
pub record State : Type 0 where
  pub interval : ℕ
  pub consecutive_failures : ℕ

-- The texts of Plan.Reason, with the values that they are formatted from.
pub data Reason : Type 0 where
  parked_after : ℕ → Reason
  retrying : (failures backoff : ℕ) → Reason
  easing_off first_read checking_sooner : Reason
  closes : ℕ → Reason

pub record Plan : Type 0 where
  pub interval : ℕ
  pub due_at : ℕ
  pub consecutive_failures : ℕ
  pub park : Bool
  pub reason : Reason

unfoldable pub clamp : ℕ → ℕ
clamp interval = min (max interval min_interval) max_interval

-- The interval that Next starts from.
unfoldable pub current_interval : State → ℕ
current_interval s = if s.interval == 0 then first_interval else s.interval

-- The branch of Next for a failed attempt.
unfoldable pub after_failure : State → ℕ → Plan
unfolding current_interval
after_failure s now =
    let failures = s.consecutive_failures + 1 in
    let backoff = failure_backoff * 2 ^ min (failures - 1) max_backoff_shift in
    if leb max_failures failures
    then record {
      interval = current_interval s;
      due_at = now + max_interval;
      consecutive_failures = failures;
      park = true;
      reason = parked_after failures;
    }
    else record {
      interval = current_interval s;
      due_at = now + backoff;
      consecutive_failures = failures;
      park = false;
      reason = retrying failures backoff;
    }

-- The switch of Next for an attempt that reached the site: the interval and the reason.
unfoldable pub adapt : State → Outcome → ℕ × Reason
unfolding current_interval clamp
adapt s unchanged =
    if s.interval == 0
    then (current_interval s, first_read)
    else (clamp (current_interval s * 3 / 2), easing_off)
adapt s changed =
    if s.interval == 0
    then (current_interval s, first_read)
    else (clamp (current_interval s / 2), checking_sooner)
adapt s failed = (current_interval s, if s.interval == 0 then first_read else easing_off)

-- A closing date brings the plan forward, if the recheck lies ahead and before the plan's own date.
unfoldable pub bring_forward : Option ℕ → ℕ → Plan → Plan
bring_forward none now plan = plan
bring_forward (some close) now plan =
    if ltb now (close + recheck_after_close) && ltb (close + recheck_after_close) plan.due_at
    then record plan { due_at = close + recheck_after_close; reason = closes close }
    else plan

abbrev pub after_success : State → Outcome → Option ℕ → ℕ → Plan
after_success s o soonest now =
    let chosen = adapt s o in
    bring_forward soonest now (record {
      interval = chosen.0;
      due_at = now + chosen.0;
      consecutive_failures = 0;
      park = false;
      reason = chosen.1;
    })

unfoldable pub next : State → Outcome → Option ℕ → ℕ → Plan
unfolding after_failure adapt bring_forward
next s failed soonest now = after_failure s now
next s changed soonest now = after_success s changed soonest now
next s unchanged soonest now = after_success s unchanged soonest now

-- What is remembered of a plan.
unfoldable pub remember : Plan → State
remember p = record { interval = p.interval; consecutive_failures = p.consecutive_failures }
