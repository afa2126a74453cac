-- ===== src/Api/Scrape/Lifecycle/Readings.antt =====
-- internal/api/scrape.go, admit, prepare and collect: their steps keep the account of the cells.
use museumscraper.Prelude.{
  ℕ, zero, suc, ◌<◌, String, ◌≡◌, refl, ap, inl, inr, Option, none, some, List, [], ◌∷◌, arith,
  Option-cases, length,
}
use text.Mathlib.TextEquality.{eq_iff}
use museumscraper.Prelude.Maps.{delete}
use museumscraper.Api.RateLimit.InFlight.{count, remove, count-remove}
use museumscraper.Api.Scrape.{Queue, Request, Stage, release, prepare, set_progress}
use museumscraper.Api.Scrape.Lifecycle.{
  cells, World, prepares, reports, ends, take_one, perform, if_queued, if_running, IsAccounted,
}

pub takes-IsAccounted :
    (w : World) (rs : List Request)
    → w.queue.requests ≡ rs
    → IsAccounted w
    → IsAccounted (take_one rs w)
takes-IsAccounted w [] e v = v
takes-IsAccounted w (r ∷ rs) e v = record {
  waits = λ c. omega (arith, v.waits c, ap (λ xs. count c (cells xs)) e);
  reads = v.reads;
  room = omega (arith, v.room, ap (λ (xs : List Request). length xs) e);
}

-- Where a cell that an admitter holds is let go of.
prepares-free :
    (w : World) (q : Queue) (cell : String)
    → q.stage ≡ delete cell w.queue.stage
    → q.requests ≡ w.queue.requests
    → 0 < count cell w.admitters
    → IsAccounted w
    → IsAccounted (record w { queue = q; admitters = remove cell w.admitters })
prepares-free w q cell stage requests h v = record {
  waits = λ c. ground (
    arith,
    v.waits c,
    v.waits cell,
    ap (λ (f : String → Option Stage). f c) stage,
    ap (λ xs. count c (cells xs)) requests,
    count-remove c cell w.admitters h,
    eq_iff cell c,
    ap w.queue.stage {x = cell} {y = c},
  );
  reads = λ c. ground (
    arith,
    v.reads c,
    v.waits cell,
    ap (λ (f : String → Option Stage). f c) stage,
    eq_iff cell c,
    ap w.queue.stage {x = cell} {y = c},
  );
  room = omega (arith, v.room, ap (λ (xs : List Request). length xs) requests);
}

pub prepares-IsAccounted :
    (w : World) (cell : String) (sites : Option ℕ) (now : ℕ)
    → 0 < count cell w.admitters
    → IsAccounted w
    → IsAccounted (perform (prepares cell sites now) w)
unfolding perform prepare release
prepares-IsAccounted w cell none now h v =
    prepares-free w (prepare cell none now w.queue).0 cell refl refl h v
prepares-IsAccounted w cell (some zero) now h v =
    prepares-free w (prepare cell (some 0) now w.queue).0 cell refl refl h v
prepares-IsAccounted w cell (some (suc n)) now h v = record {
  waits = λ c. ground (
    arith,
    v.waits c,
    v.waits cell,
    count-remove c cell w.admitters h,
    eq_iff cell c,
    ap w.queue.stage {x = cell} {y = c},
  );
  reads = λ c.
      ground (arith, v.reads c, v.waits cell, eq_iff cell c, ap w.queue.stage {x = cell} {y = c});
  room = v.room;
}

pub set_progress-same :
    (cell : String) (found : ℕ) (q : Queue)
    → ((set_progress cell found q).stage ≡ q.stage)
      × ((set_progress cell found q).finished ≡ q.finished)
      × ((set_progress cell found q).requests ≡ q.requests)
unfolding set_progress
set_progress-same cell found q = elim (Option-cases (q.progress cell)) [
  | inl e ↦ rw (set_progress, e) (refl, refl, refl)
  | inr (p, e) ↦ rw (set_progress, e) (refl, refl, refl)
]

pub reports-IsAccounted :
    (w : World) (cell : String) (found : ℕ)
    → IsAccounted w
    → IsAccounted (perform (reports cell found) w)
unfolding perform
reports-IsAccounted w cell found v =
    let (stage, finished, requests) = set_progress-same cell found w.queue in
    record {
      waits = λ c. omega (
        arith,
        v.waits c,
        ap (λ xs. count c (cells xs)) requests,
        ap (λ (f : String → Option Stage). if_queued (f c)) stage,
      );
      reads =
          λ c. omega (arith, v.reads c, ap (λ (f : String → Option Stage). if_running (f c)) stage);
      room = omega (arith, v.room, ap (λ (xs : List Request). length xs) requests);
    }

pub ends-IsAccounted :
    (w : World) (cell : String) (now : ℕ)
    → 0 < count cell w.readers
    → IsAccounted w
    → IsAccounted (perform (ends cell now) w)
unfolding perform release
ends-IsAccounted w cell now h v = record {
  waits = λ c.
      ground (arith, v.waits c, v.reads cell, eq_iff cell c, ap w.queue.stage {x = cell} {y = c});
  reads = λ c. ground (
    arith,
    v.reads c,
    v.reads cell,
    count-remove c cell w.readers h,
    eq_iff cell c,
    ap w.queue.stage {x = cell} {y = c},
  );
  room = v.room;
}
