-- ===== src/Api/Scrape.antt =====
-- internal/api/scrape.go: the queue of areas that are scraped on a visitor's behalf. A cell is its
-- name; what cellFor and cellCentre make of a point is an argument, and so is the radius of a cell,
-- scrapeMinRadiusKm. Radii are in metres, instants in nanoseconds.
pub mod Dispatch
pub mod Cooldown
pub mod Lifecycle
use museumscraper.Prelude.{
  ℕ, zero, suc, ◌+◌, ◌-◌, ◌*◌, ◌/◌, ◌%◌, ◌^◌, ◌≤◌, ◌<◌, min, max, String, ◌≡◌, refl, sym, ap, ◌∙◌,
  ◌≢◌, ◌↔◌, ◌⊎◌, inl, inr, Bool, true, false, not, ◌&&◌, ◌||◌, Option, none, some, List, [], ◌∷◌,
  ◌++◌, map, arith, ltb, leb, ◌==◌, if◌then◌else◌, ltb→lt, lt→ltb, leb→le, ==_iff, Bool-cases,
  Option-cases, length, get_elem?, set, length-append, length-set, get_elem?-set_self,
  get_elem?-set_ne, All, dec_lt, ℕ_discrete,
}
use text.Mathlib.Text.{◌==◌ as str_eq}
use museumscraper.Prelude.Maps.{assign, delete}
use museumscraper.Sweep.Schedule.{hour}

abbrev pub scrape_max_museums : ℕ
scrape_max_museums = 120

abbrev pub scrape_queue_depth : ℕ
scrape_queue_depth = 32

abbrev pub scrape_cooldown : ℕ
scrape_cooldown = 24 * hour

-- 60 km
abbrev pub scrape_min_zoom_radius : ℕ
scrape_min_zoom_radius = 60000

-- What the state map holds of a cell. The other states that a caller is told are in `Answer`.
pub data Stage : Type 0 where
  queued running : Stage

pub record Request : Type 0 where
  pub cell : String
  pub radius : ℕ

pub record Progress : Type 0 where
  pub sites : ℕ
  pub sites_read : ℕ
  pub found : ℕ
  pub started : ℕ

-- The maps of scrapeQueue, and its channel of requests, first come first.
pub record Queue : Type 0 where
  pub requests : List Request
  pub stage : String → Option Stage
  pub finished : String → Option ℕ
  pub progress : String → Option Progress

abbrev pub empty_queue : Queue
empty_queue = record {
  requests = [];
  stage = λ c. none;
  finished = λ c. none;
  progress = λ c. none;
}

-- What enqueue answers: a state, or one of its two errors.
pub data Answer : Type 0 where
  cooling already_queued already_running accepted too_wide backlog_full : Answer

-- `at, ok := q.done[cell]; ok && time.Since(at) < scrapeCooldown`
unfoldable pub is_cooling : Queue → String → ℕ → Bool
is_cooling q cell now = elim (q.finished cell) [
  | none ↦ false
  | some at ↦ ltb (now - at) scrape_cooldown
]

-- How the first part of enqueue ends: with an answer, or with a request that is still to be offered.
pub data Claim : Type 0 where
  answered : Answer → Claim
  to_offer : Request → Claim

-- The first part of enqueue, for a point in the given cell, up to the release of the mutex: a cell that
-- is free is marked.
unfoldable pub claim : (cell_radius : ℕ) → String → (radius now : ℕ) → Queue → Queue × Claim
unfolding is_cooling
claim cell_radius cell radius now q =
    if radius == 0 || ltb scrape_min_zoom_radius radius
    then (q, answered too_wide)
    else if is_cooling q cell now
    then (q, answered cooling)
    else elim (q.stage cell) [
      | none ↦ (
        record q { stage = assign cell queued q.stage },
        to_offer (record { cell = cell; radius = max radius cell_radius }),
      )
      | some queued ↦ (q, answered already_queued)
      | some running ↦ (q, answered already_running)
    ]

-- The select, which runs without the mutex: whether the channel had room.
unfoldable pub send : Request → Queue → Queue × Bool
send r q =
    if ltb (length q.requests) scrape_queue_depth
    then (record q { requests = q.requests ++ r ∷ [] }, true)
    else (q, false)

-- The default case of the select, which takes the mutex again and takes the mark back.
unfoldable pub unmark : String → Queue → Queue
unmark cell q = record q { stage = delete cell q.stage }

unfoldable pub offer : Request → Queue → Queue × Answer
unfolding send unmark
offer r q =
    let (q', sent) = send r q in if sent then (q', accepted) else (unmark r.cell q', backlog_full)

-- enqueue by a visitor whom no other comes between: its parts one after another.
abbrev pub after_claim : Queue × Claim → Queue × Answer
after_claim (q, answered a) = (q, a)
after_claim (q, to_offer r) = offer r q

unfoldable pub enqueue : (cell_radius : ℕ) → String → (radius now : ℕ) → Queue → Queue × Answer
unfolding claim offer
enqueue cell_radius cell radius now q = after_claim (claim cell_radius cell radius now q)

-- What status tells a caller.
pub data Status : Type 0 where
  recently_scraped idle : Status
  in_stage : Stage → Status
  reading : Stage → (elapsed : ℕ) → Progress → Status
  waiting : (behind : ℕ) → Status

abbrev pub status_of : Queue → ℕ → Option Stage → Option Progress → Status
status_of q now none p = idle
status_of q now (some s) (some p) = reading s ((now - p.started) / 1000000000) p
status_of q now (some queued) none = waiting (length q.requests)
status_of q now (some running) none = in_stage running

unfoldable pub status : String → ℕ → Queue → Status
unfolding is_cooling
status cell now q =
    if is_cooling q cell now
    then recently_scraped
    else status_of q now (q.stage cell) (q.progress cell)

-- release, without the write of the cooldown to the database.
unfoldable pub release : String → Bool → ℕ → Queue → Queue
release cell scraped now q =
    let let_go = record q { stage = delete cell q.stage; progress = delete cell q.progress } in
    if scraped then record let_go { finished = assign cell now q.finished } else let_go

-- prepare, for what TargetsNear returned: none for an error, or the number of sites. The second
-- result is the area's number of sites if it is to be read.
unfoldable pub prepare : String → Option ℕ → ℕ → Queue → Queue × Option ℕ
unfolding release
prepare cell none now q = (release cell false now q, none)
prepare cell (some zero) now q = (release cell true now q, none)
prepare cell (some (suc n)) now q = (
  record q {
    stage = assign cell running q.stage;
    progress =
        assign cell (record { sites = suc n; sites_read = 0; found = 0; started = now }) q.progress;
  },
  some (suc n),
)

-- setProgress with collect's edit: one more site read, `found` exhibitions so far.
unfoldable pub set_progress : String → ℕ → Queue → Queue
set_progress cell found q = elim (q.progress cell) [
  | none ↦ q
  | some p ↦ record q {
    progress = assign cell (record p { sites_read = p.sites_read + 1; found = found }) q.progress;
  }
]

-- collect: one report for each of the area's sites, each with how many exhibitions it found, and
-- then the release.
unfoldable pub collect : String → (total : ℕ) → List ℕ → ℕ → Queue → Queue
unfolding set_progress release
collect cell total [] now q = release cell true now q
collect cell total (f ∷ fs) now q =
    collect cell (total + f) fs now (set_progress cell (total + f) q)

-- recoverCooldowns: the areas that the database remembers are copied over the map.
unfoldable pub recover_cooldowns : List (String × ℕ) → Queue → Queue
recover_cooldowns [] q = q
recover_cooldowns ((cell, at) ∷ rest) q =
    recover_cooldowns rest (record q { finished = assign cell at q.finished })
