-- ===== src/Api/Scrape/Lifecycle.antt =====
-- internal/api/scrape.go: the life of an area, from a visitor's mark through the channel of requests and
-- an admitter to the reading of its sites, until the queue is closed, with any number of areas under
-- way at once. A step is what one goroutine does between two releases of the mutex, or its use of the
-- channel.
pub mod Visitors
pub mod Readings
pub mod Accounts
use museumscraper.Prelude.{
  ℕ, zero, suc, ◌+◌, ◌-◌, ◌*◌, ◌/◌, ◌%◌, ◌^◌, ◌≤◌, ◌<◌, min, max, String, ◌≡◌, refl, sym, ap, ◌∙◌,
  ◌≢◌, ◌↔◌, ◌⊎◌, inl, inr, Bool, true, false, not, ◌&&◌, ◌||◌, Option, none, some, List, [], ◌∷◌,
  ◌++◌, map, arith, ltb, leb, ◌>>=◌, Held, Held-if, Held-bind, ◌==◌, if◌then◌else◌, ltb→lt, lt→ltb,
  leb→le, ==_iff, Bool-cases, Option-cases, length, get_elem?, set, length-append, length-set,
  get_elem?-set_self, get_elem?-set_ne, All, take, drop, dec_lt, ℕ_discrete,
}
use text.Mathlib.Text.{◌==◌ as str_eq}
use text.Mathlib.TextEquality.{eq_iff}
use museumscraper.Prelude.Maps.{assign, delete}
use museumscraper.Api.RateLimit.InFlight.{count, remove, count-remove}
use museumscraper.Api.Scrape.{
  Queue, Request, Stage, queued, running, empty_queue, Claim, answered, to_offer, claim, send,
  unmark, is_cooling, release, prepare, set_progress, recover_cooldowns, scrape_min_zoom_radius,
  scrape_queue_depth, cooling, enqueue, scrape_cooldown,
}

abbrev pub cells : List Request → List String
cells [] = []
cells (r ∷ rs) = r.cell ∷ cells rs

-- The queue, and who holds a cell outside of it: the visitors who have marked one and not yet offered
-- it, those whose offer was refused and who have not yet taken the mark back, the admitters that have
-- taken one from the channel, and the collectors that follow the reading of one.
pub record World : Type 0 where
  pub queue : Queue
  pub visitors : List String
  pub refused : List String
  pub admitters : List String
  pub readers : List String

pub data Event : Type 0 where
  claims : (cell_radius : ℕ) → String → (radius now : ℕ) → Event
  sends : Request → Event
  unmarks : String → Event
  takes : Event
  prepares : String → Option ℕ → (now : ℕ) → Event
  reports : String → (found : ℕ) → Event
  ends : String → (now : ℕ) → Event

abbrev pub marked : Claim → List String → List String
marked (answered a) vs = vs
marked (to_offer r) vs = r.cell ∷ vs

-- What prepare adds to the areas that are being read.
abbrev pub began : Option ℕ → String → List String → List String
began none c rs = rs
began (some n) c rs = c ∷ rs

abbrev pub take_one : List Request → World → World
take_one [] w = w
take_one (r ∷ rs) w = record w {
  queue = record w.queue { requests = rs };
  admitters = r.cell ∷ w.admitters;
}

unfoldable pub perform : Event → World → World
perform (claims cell_radius cell radius now) w =
    let (q, c) = claim cell_radius cell radius now w.queue in
    record w { queue = q; visitors = marked c w.visitors }
perform (sends r) w =
    let (q, sent) = send r w.queue in
    record w {
      queue = q;
      visitors = remove r.cell w.visitors;
      refused = if sent then w.refused else r.cell ∷ w.refused;
    }
perform (unmarks cell) w = record w { queue = unmark cell w.queue; refused = remove cell w.refused }
perform takes w = take_one w.queue.requests w
perform (prepares cell sites now) w =
    let (q, begun) = prepare cell sites now w.queue in
    record w {
      queue = q;
      admitters = remove cell w.admitters;
      readers = began begun cell w.readers;
    }
perform (reports cell found) w = record w { queue = set_progress cell found w.queue }
perform (ends cell now) w = record w {
  queue = release cell true now w.queue;
  readers = remove cell w.readers;
}

-- Each of them works on a cell that it holds.
abbrev pub CanHappen : Event → World → Type 0
CanHappen (claims cell_radius cell radius now) w = Unit
CanHappen (sends r) w = 0 < count r.cell w.visitors
CanHappen (unmarks cell) w = 0 < count cell w.refused
CanHappen takes w = Unit
CanHappen (prepares cell sites now) w = 0 < count cell w.admitters
CanHappen (reports cell found) w = 0 < count cell w.readers
CanHappen (ends cell now) w = 0 < count cell w.readers

abbrev pub opened : List (String × ℕ) → World
opened areas = record {
  queue = recover_cooldowns areas empty_queue;
  visitors = [];
  refused = [];
  admitters = [];
  readers = [];
}

-- The states that any sequence of steps leads to, from the cooldowns that the database remembers.
pub data Reachable : World → Type 0 where
  starts : (areas : List (String × ℕ)) → Reachable (opened areas)
  happens : {w : World} (ev : Event) → CanHappen ev w → Reachable w → Reachable (perform ev w)

abbrev pub if_queued : Option Stage → ℕ
if_queued (some queued) = 1
if_queued _ = 0

abbrev pub if_running : Option Stage → ℕ
if_running (some running) = 1
if_running _ = 0

-- How often a cell stands in the channel or is held on its way through it.
abbrev pub waiting : String → World → ℕ
waiting c w =
    count c (cells w.queue.requests) + count c w.admitters + count c w.visitors + count c w.refused

pub record IsAccounted (w : World) : Type 0 where
  pub waits : (c : String) → waiting c w ≡ if_queued (w.queue.stage c)
  pub reads : (c : String) → count c w.readers ≡ if_running (w.queue.stage c)
  pub room : length w.queue.requests ≤ scrape_queue_depth
