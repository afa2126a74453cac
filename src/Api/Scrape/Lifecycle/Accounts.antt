-- ===== src/Api/Scrape/Lifecycle/Accounts.antt =====
-- internal/api/scrape.go: the account of the cells in every state of the queue.
use museumscraper.Prelude.{ℕ, String, ◌≡◌, refl, ap, Option, List, [], ◌∷◌, arith, length}
use museumscraper.Prelude.Maps.{assign}
use museumscraper.Api.RateLimit.InFlight.{count}
use museumscraper.Api.Scrape.{Queue, Request, Stage, empty_queue, recover_cooldowns}
use museumscraper.Api.Scrape.Lifecycle.{
  cells, World, Event, claims, sends, unmarks, takes, prepares, reports, ends, perform, CanHappen,
  opened, Reachable, starts, happens, if_queued, if_running, IsAccounted,
}
use museumscraper.Api.Scrape.Lifecycle.Visitors.{
  claims-IsAccounted, sends-IsAccounted, unmarks-IsAccounted,
}
use museumscraper.Api.Scrape.Lifecycle.Readings.{
  takes-IsAccounted, prepares-IsAccounted, reports-IsAccounted, ends-IsAccounted,
}

pub perform-IsAccounted :
    (ev : Event) (w : World) → CanHappen ev w → IsAccounted w → IsAccounted (perform ev w)
unfolding perform
perform-IsAccounted (claims cell_radius cell radius now) w h v =
    claims-IsAccounted w cell_radius cell radius now v
perform-IsAccounted (sends r) w h v = sends-IsAccounted w r h v
perform-IsAccounted (unmarks cell) w h v = unmarks-IsAccounted w cell h v
perform-IsAccounted takes w h v = takes-IsAccounted w w.queue.requests refl v
perform-IsAccounted (prepares cell sites now) w h v = prepares-IsAccounted w cell sites now h v
perform-IsAccounted (reports cell found) w h v = reports-IsAccounted w cell found v
perform-IsAccounted (ends cell now) w h v = ends-IsAccounted w cell now h v

recover_cooldowns-same :
    (areas : List (String × ℕ)) (q : Queue)
    → ((recover_cooldowns areas q).stage ≡ q.stage)
      × ((recover_cooldowns areas q).requests ≡ q.requests)
unfolding recover_cooldowns
recover_cooldowns-same [] q = (refl, refl)
recover_cooldowns-same ((cell, at) ∷ rest) q =
    recover_cooldowns-same rest (record q { finished = assign cell at q.finished })

opened-IsAccounted : (areas : List (String × ℕ)) → IsAccounted (opened areas)
opened-IsAccounted areas =
    let (stage, requests) = recover_cooldowns-same areas empty_queue in
    record {
      waits = λ c. omega (
        arith,
        ap (λ xs. count c (cells xs)) requests,
        ap (λ (f : String → Option Stage). if_queued (f c)) stage,
      );
      reads = λ c. omega (arith, ap (λ (f : String → Option Stage). if_running (f c)) stage);
      room = omega (arith, ap (λ (xs : List Request). length xs) requests);
    }

-- In every state that the steps of visitors, admitters and collectors lead to, in any order: a cell is
-- marked as queued exactly when it is held once on its way to a reading, be it by a visitor who has
-- marked it and not yet offered it, by one whose offer was refused and who has not yet taken the mark
-- back, by the channel or by an admitter; as running exactly when one collector follows it; and never
-- both. At most 32 requests wait in the channel.
pub Reachable-IsAccounted : {w : World} → Reachable w → IsAccounted w
Reachable-IsAccounted (starts areas) = opened-IsAccounted areas
Reachable-IsAccounted (happens {w} ev can h) =
    perform-IsAccounted ev w can (Reachable-IsAccounted h)
