-- ===== src/Ratelimit/Gate/Spacing.antt =====
-- Gate.Wait: the slots that a shared gate gives out, and what a caller's context does to its own.
use museumscraper.Prelude.{
  refl, sym, ℕ, ◌+◌, ◌^◌, ◌≤◌, ◌<◌, ◌≡◌, refl, Bool, true, some, List, [], ◌∷◌, arith,
}
use museumscraper.Ratelimit.Gate.{
  Gate, delay, add_duration, Use, waits, refused, succeeded, step, slots, ended, sleep, wait,
}
use museumscraper.Ratelimit.Gate.Bounds.{IsValid, step-IsValid, step-bounds}

-- No wait of the run would be of 2 ^ 62 ns, some 146 years, or more.
abbrev pub IsPrompt : Gate → List Use → Type 0
IsPrompt g [] = Unit
IsPrompt g (waits now ∷ us) = (g.next < now + 2 ^ 62) × IsPrompt (step g (waits now)) us
IsPrompt g (u ∷ us) = IsPrompt (step g u) us

-- Each instant is at or after `low`, and each at least `gap` after the one before it.
abbrev pub IsSpaced : ℕ → ℕ → List ℕ → Type 0
IsSpaced gap low [] = Unit
IsSpaced gap low (t ∷ ts) = (low ≤ t) × IsSpaced gap (t + gap) ts

IsSpaced-from :
    (gap gap' low low' : ℕ) (ts : List ℕ)
    → gap ≡ gap'
    → low ≤ low'
    → IsSpaced gap' low' ts
    → IsSpaced gap low ts
IsSpaced-from gap gap' low low' [] e h s = tt
IsSpaced-from gap gap' low low' (t ∷ ts) e h s =
    (omega arith, IsSpaced-from gap gap' (t + gap) (t + gap') ts e (omega arith) s.1)

step-next_waits :
    (g : Gate) (now : ℕ)
    → IsValid g
    → g.next < now + 2 ^ 62
    → ((step g (waits now)).next ≡ now + delay g now + g.interval) × (g.next ≤ now + delay g now)
unfolding step delay add_duration
step-next_waits g now v h = ground arith

step-next_refused : (g : Gate) → (step g refused).next ≡ g.next
unfolding step
step-next_refused g = refl

step-next_succeeded : (g : Gate) → (step g succeeded).next ≡ g.next
unfolding step
step-next_succeeded g = ground arith

-- Whatever the order of waits, refusals and successes, and whatever the instants at which callers
-- arrive, the slots of a valid gate lie at least `least` apart, the first not before `next`, as
-- long as no caller would be made to wait 2 ^ 62 ns.
pub slots-IsSpaced :
    (g : Gate) (us : List Use) → IsValid g → IsPrompt g us → IsSpaced g.least g.next (slots g us)
unfolding slots
slots-IsSpaced g [] v p = tt
slots-IsSpaced g (waits now ∷ us) v p =
    let w = waits now in
    let ih = slots-IsSpaced (step g w) us (step-IsValid g w v) p.1 in
    let late = step-next_waits g now v p.0 in
    let same = step-bounds g w v in
    (late.1, IsSpaced-from _ _ _ _ (slots (step g w) us) (sym same.0) (omega arith) ih)
slots-IsSpaced g (refused ∷ us) v p =
    let ih = slots-IsSpaced (step g refused) us (step-IsValid g refused v) p in
    let same = step-bounds g refused v in
    let next = step-next_refused g in
    IsSpaced-from _ _ _ _ (slots (step g refused) us) (sym same.0) (omega arith) ih
slots-IsSpaced g (succeeded ∷ us) v p =
    let ih = slots-IsSpaced (step g succeeded) us (step-IsValid g succeeded v) p in
    let same = step-bounds g succeeded v in
    let next = step-next_succeeded g in
    IsSpaced-from _ _ _ _ (slots (step g succeeded) us) (sym same.0) (omega arith) ih

-- A caller that Wait lets through has a context that had not ended before its slot.
pub wait-outlasts :
    (e : ℕ) (timer_first : Bool) (g : Gate) (now : ℕ)
    → (wait (some e) timer_first g now).1 ≡ true
    → now + delay g now ≤ e
unfolding wait ended sleep
wait-outlasts e timer_first g now h = ground arith
