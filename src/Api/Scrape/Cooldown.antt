-- ===== src/Api/Scrape/Cooldown.antt =====
-- internal/api/scrape.go: an area that has been read is left alone until its cooldown is over.
use museumscraper.Prelude.{
  ℕ, zero, suc, ◌+◌, ◌≤◌, ◌<◌, String, ◌≡◌, ap, ◌∙◌, false, Option, none, some, List, [], ◌∷◌,
  arith,
}
use text.Mathlib.Text.{◌==◌ as str_eq}
use text.Mathlib.TextEquality.{eq_iff}
use museumscraper.Api.RateLimit.InFlight.{count}
use museumscraper.Api.Scrape.{
  Queue, Request, Stage, cooling, enqueue, claim, send, unmark, release, prepare, scrape_cooldown,
  scrape_min_zoom_radius,
}
use museumscraper.Api.Scrape.Lifecycle.{
  World, Event, claims, sends, unmarks, takes, prepares, reports, ends, take_one, perform,
  CanHappen, Reachable, happens, if_queued, if_running, waiting, IsAccounted,
}
use museumscraper.Api.Scrape.Lifecycle.Readings.{set_progress-same}
use museumscraper.Api.Scrape.Lifecycle.Accounts.{perform-IsAccounted, Reachable-IsAccounted}

-- The instant that a step reads, 0 for one that reads none.
abbrev pub instant : Event → ℕ
instant (claims cell_radius cell radius now) = now
instant (prepares cell sites now) = now
instant (ends cell now) = now
instant _ = 0

unfoldable pub perform_all : List Event → World → World
perform_all [] w = w
perform_all (ev ∷ evs) w = perform_all evs (perform ev w)

-- The steps can be taken one after another, each at an instant before `until`.
abbrev pub IsRun : (until : ℕ) → List Event → World → Type 0
IsRun until [] w = Unit
IsRun until (ev ∷ evs) w = CanHappen ev w × (instant ev < until) × IsRun until evs (perform ev w)

-- The cell is free, and was read last at `at`.
record IsAtRest (cell : String) (at : ℕ) (q : Queue) : Type 0 where
  free : q.stage cell ≡ none
  read : q.finished cell ≡ some at

claim-IsAtRest :
    (cell : String) (at cell_radius : ℕ) (c : String) (radius now : ℕ) (q : Queue)
    → now < at + scrape_cooldown
    → IsAtRest cell at q
    → IsAtRest cell at (claim cell_radius c radius now q).0
unfolding claim
claim-IsAtRest cell at cell_radius c radius now q h v = record {
  free = ground (arith, h, v.free, v.read, eq_iff c cell, ap q.finished {x = c} {y = cell});
  read = ground (arith, v.read);
}

take_one-IsAtRest :
    (cell : String) (at : ℕ) (rs : List Request) (w : World)
    → IsAtRest cell at w.queue
    → IsAtRest cell at (take_one rs w).queue
take_one-IsAtRest cell at [] w v = v
take_one-IsAtRest cell at (r ∷ rs) w v = record { free = v.free; read = v.read }

prepare-IsAtRest :
    (cell : String) (at : ℕ) (c : String) (sites : Option ℕ) (now : ℕ) (q : Queue)
    → str_eq c cell ≡ false
    → IsAtRest cell at q
    → IsAtRest cell at (prepare c sites now q).0
unfolding prepare release
prepare-IsAtRest cell at c none now q h v = record {
  free = ground (arith, h, v.free);
  read = v.read;
}
prepare-IsAtRest cell at c (some zero) now q h v = record {
  free = ground (arith, h, v.free);
  read = ground (arith, h, v.read);
}
prepare-IsAtRest cell at c (some (suc n)) now q h v = record {
  free = ground (arith, h, v.free);
  read = v.read;
}

-- A free cell is none that an admitter or a collector holds.
other_admitted :
    (cell c : String) (w : World)
    → w.queue.stage cell ≡ none
    → 0 < count c w.admitters
    → IsAccounted w
    → str_eq c cell ≡ false
other_admitted cell c w free h v =
    ground (arith, v.waits c, eq_iff c cell, ap w.queue.stage {x = c} {y = cell})

other_read :
    (cell c : String) (w : World)
    → w.queue.stage cell ≡ none
    → 0 < count c w.readers
    → IsAccounted w
    → str_eq c cell ≡ false
other_read cell c w free h v =
    ground (arith, v.reads c, eq_iff c cell, ap w.queue.stage {x = c} {y = cell})

perform-IsAtRest :
    (cell : String) (at : ℕ) (ev : Event) (w : World)
    → CanHappen ev w
    → instant ev < at + scrape_cooldown
    → IsAccounted w
    → IsAtRest cell at w.queue
    → IsAtRest cell at (perform ev w).queue
unfolding perform send unmark release
perform-IsAtRest cell at (claims cell_radius c radius now) w can h a v =
    claim-IsAtRest cell at cell_radius c radius now w.queue h v
perform-IsAtRest cell at (sends r) w can h a v = record {
  free = ground (arith, v.free);
  read = ground (arith, v.read);
}
perform-IsAtRest cell at (unmarks c) w can h a v = record {
  free = ground (arith, v.free);
  read = v.read;
}
perform-IsAtRest cell at takes w can h a v = take_one-IsAtRest cell at w.queue.requests w v
perform-IsAtRest cell at (prepares c sites now) w can h a v =
    prepare-IsAtRest cell at c sites now w.queue (other_admitted cell c w v.free can a) v
perform-IsAtRest cell at (reports c found) w can h a v =
    let (stage, finished, requests) = set_progress-same c found w.queue in
    record {
      free = ap (λ (f : String → Option Stage). f cell) stage ∙ v.free;
      read = ap (λ (f : String → Option ℕ). f cell) finished ∙ v.read;
    }
perform-IsAtRest cell at (ends c now) w can h a v =
    let other = other_read cell c w v.free can a in
    record { free = ground (arith, other, v.free); read = ground (arith, other, v.read) }

perform_all-IsAtRest :
    (cell : String) (at : ℕ) (evs : List Event) (w : World)
    → IsRun (at + scrape_cooldown) evs w
    → IsAccounted w
    → IsAtRest cell at w.queue
    → IsAccounted (perform_all evs w) × IsAtRest cell at (perform_all evs w).queue
unfolding perform_all
perform_all-IsAtRest cell at [] w run a v = (a, v)
perform_all-IsAtRest cell at (ev ∷ evs) w (can, early, run) a v =
    perform_all-IsAtRest cell at evs (perform ev w) run (perform-IsAccounted ev w can a)
      (perform-IsAtRest cell at ev w can early a v)

enqueue-IsAtRest :
    (cell_radius : ℕ) (cell : String) (radius at now : ℕ) (q : Queue)
    → 0 < radius
    → radius ≤ scrape_min_zoom_radius
    → now < at + scrape_cooldown
    → IsAtRest cell at q
    → enqueue cell_radius cell radius now q ≡ (q, cooling)
unfolding enqueue
enqueue-IsAtRest cell_radius cell radius at now q h k early v = ground (arith, v.read)

-- Once the reading of an area has ended at `at`, and whatever visitors, admitters and collectors do
-- from then on at instants less than a day later: no request for the area waits or is on its way, no
-- collector follows it, and a visitor who asks for it before that day is over, with a radius above 0
-- and of at most 60 km, is told that it is cooling, and nothing changes.
pub enqueue-perform_all :
    {w : World} (cell : String) (at : ℕ) (evs : List Event) (cell_radius radius now : ℕ)
    → Reachable w
    → 0 < count cell w.readers
    → IsRun (at + scrape_cooldown) evs (perform (ends cell at) w)
    → 0 < radius
    → radius ≤ scrape_min_zoom_radius
    → now < at + scrape_cooldown
    → let w' = perform_all evs (perform (ends cell at) w) in
      (waiting cell w' ≡ 0)
      × (count cell w'.readers ≡ 0)
      × (enqueue cell_radius cell radius now w'.queue ≡ (w'.queue, cooling))
enqueue-perform_all {w} cell at evs cell_radius radius now reached reads run h k early =
    let w' = perform_all evs (perform (ends cell at) w) in
    let ended = Reachable-IsAccounted (happens (ends cell at) reads reached) in
    let rests : IsAtRest cell at (perform (ends cell at) w).queue =
      unfold perform release in
      record { free = ground (arith, eq_iff cell cell); read = ground (arith, eq_iff cell cell) } in
    let (a, v) = perform_all-IsAtRest cell at evs (perform (ends cell at) w) run ended rests in
    (
      a.waits cell ∙ ap (λ (o : Option Stage). if_queued o) v.free,
      a.reads cell ∙ ap (λ (o : Option Stage). if_running o) v.free,
      enqueue-IsAtRest cell_radius cell radius at now w'.queue h k early v,
    )
