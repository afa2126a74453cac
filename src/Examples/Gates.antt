-- ===== src/Examples/Gates.antt =====
-- internal/ratelimit/gate.go: a gate of one request a second, which slows down to one a minute.
use museumscraper.Prelude.{ℕ, ◌*◌, List, [], ◌∷◌, arith}
use museumscraper.Ratelimit.Gate.{Gate, Use, waits, refused, succeeded, step, slots, second}
use museumscraper.Ratelimit.Gate.Bounds.{IsValid}
use museumscraper.Ratelimit.Gate.Spacing.{IsPrompt, IsSpaced, slots-IsSpaced}

abbrev minute : ℕ
minute = 60 * second

-- Three callers at once, a refusal, and two callers later.
abbrev uses : List Use
uses =
    waits (100 * second)
    ∷ waits (100 * second)
    ∷ waits (100 * second)
    ∷ refused
    ∷ succeeded
    ∷ waits (104 * second)
    ∷ waits (104 * second)
    ∷ []

abbrev gate : Gate
gate = record { next = 0; interval = second; least = second; most = minute }

gate-IsValid : IsValid gate
gate-IsValid = record { above = omega arith; below = omega arith; small = omega arith }

uses-IsPrompt : IsPrompt gate uses
unfolding step
uses-IsPrompt = (omega arith, (omega arith, (omega arith, (omega arith, (omega arith, tt)))))

slots-IsSpaced_example : IsSpaced second 0 (slots gate uses)
slots-IsSpaced_example = slots-IsSpaced gate uses gate-IsValid uses-IsPrompt

-- A gate that has slowed down by 3 ns.
abbrev slowed : Gate
slowed = record { next = 0; interval = 103; least = 100; most = 1000 }
