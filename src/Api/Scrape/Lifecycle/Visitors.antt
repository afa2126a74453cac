-- ===== src/Api/Scrape/Lifecycle/Visitors.antt =====
-- internal/api/scrape.go, enqueue: its three parts keep the account of the cells.
use museumscraper.Prelude.{
  ℕ, ◌+◌, ◌<◌, String, ◌≡◌, refl, ap, inl, inr, ◌||◌, List, [], ◌∷◌, ◌++◌, arith, ltb, ◌==◌,
  if◌then◌else◌, Bool-cases, Option-cases, length, length-append,
}
use text.Mathlib.Text.{◌==◌ as str_eq}
use text.Mathlib.TextEquality.{eq_iff}
use museumscraper.Api.RateLimit.InFlight.{count, count-remove}
use museumscraper.Api.Scrape.{
  Request, queued, running, claim, send, unmark, is_cooling, scrape_min_zoom_radius,
  scrape_queue_depth,
}
use museumscraper.Api.Scrape.Lifecycle.{cells, World, claims, sends, unmarks, perform, IsAccounted}

count-cells_append :
    (c : String) (rs : List Request) (r : Request)
    → count c (cells (rs ++ r ∷ [])) ≡ count c (cells rs) + (if str_eq r.cell c then 1 else 0)
count-cells_append c [] r = refl
count-cells_append c (x ∷ rs) r = omega (arith, count-cells_append c rs r)

pub claims-IsAccounted :
    (w : World) (cell_radius : ℕ) (cell : String) (radius now : ℕ)
    → IsAccounted w
    → IsAccounted (perform (claims cell_radius cell radius now) w)
unfolding perform claim
claims-IsAccounted w cell_radius cell radius now v =
    elim (Bool-cases (radius == 0 || ltb scrape_min_zoom_radius radius)) [
      | inl y ↦ rw (claim, y) (record { waits = v.waits; reads = v.reads; room = v.room })
      | inr wide ↦ elim (Bool-cases (is_cooling w.queue cell now)) [
        | inl y ↦ rw (claim, wide, y) (record { waits = v.waits; reads = v.reads; room = v.room })
        | inr cold ↦ elim (Option-cases (w.queue.stage cell)) [
          | inl e ↦
              rw (claim, wide, cold, e)
                (record {
                  waits = λ c.
                      ground
                        (arith, v.waits c, eq_iff cell c, ap w.queue.stage {x = cell} {y = c}, e);
                  reads = λ c.
                      ground
                        (arith, v.reads c, eq_iff cell c, ap w.queue.stage {x = cell} {y = c}, e);
                  room = v.room;
                })
          | inr (queued, e) ↦
              rw (claim, wide, cold, e) (record { waits = v.waits; reads = v.reads; room = v.room })
          | inr (running, e) ↦
              rw (claim, wide, cold, e) (record { waits = v.waits; reads = v.reads; room = v.room })
        ]
      ]
    ]

pub sends-IsAccounted :
    (w : World) (r : Request)
    → 0 < count r.cell w.visitors
    → IsAccounted w
    → IsAccounted (perform (sends r) w)
unfolding perform send
sends-IsAccounted w r h v = elim (Bool-cases (ltb (length w.queue.requests) scrape_queue_depth)) [
  | inl y ↦
      rw (send, y)
        (record {
          waits = λ c. ground (
            arith,
            v.waits c,
            count-cells_append c w.queue.requests r,
            count-remove c r.cell w.visitors h,
            eq_iff r.cell c,
            ap (λ x. count x w.visitors) {x = r.cell} {y = c},
          );
          reads = v.reads;
          room = ground (arith, y, length-append w.queue.requests (r ∷ []));
        })
  | inr n ↦
      rw (send, n)
        (record {
          waits = λ c. ground (
            arith,
            v.waits c,
            count-remove c r.cell w.visitors h,
            eq_iff r.cell c,
            ap (λ x. count x w.visitors) {x = r.cell} {y = c},
          );
          reads = v.reads;
          room = v.room;
        })
]

pub unmarks-IsAccounted :
    (w : World) (cell : String)
    → 0 < count cell w.refused
    → IsAccounted w
    → IsAccounted (perform (unmarks cell) w)
unfolding perform unmark
unmarks-IsAccounted w cell h v = record {
  waits = λ c. ground (
    arith,
    v.waits c,
    v.waits cell,
    count-remove c cell w.refused h,
    eq_iff cell c,
    ap w.queue.stage {x = cell} {y = c},
  );
  reads = λ c.
      ground (arith, v.reads c, v.waits cell, eq_iff cell c, ap w.queue.stage {x = cell} {y = c});
  room = v.room;
}
