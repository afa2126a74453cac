-- ===== src/Examples/Queues.antt =====
-- internal/api/scrape.go: one area that is asked for, read, and asked for again.
use museumscraper.Prelude.{◌+◌, ◌<◌, String, ◌≡◌, some, List, [], ◌∷◌, arith}
use museumscraper.Api.RateLimit.InFlight.{count}
use museumscraper.Api.Scrape.{
  Request, cooling, enqueue, claim, send, prepare, recover_cooldowns, scrape_cooldown,
}
use museumscraper.Api.Scrape.Lifecycle.{
  World, Event, claims, sends, takes, prepares, reports, ends, perform, opened, Reachable, starts,
  happens, waiting, IsAccounted,
}
use museumscraper.Api.Scrape.Lifecycle.Accounts.{Reachable-IsAccounted}
use museumscraper.Api.Scrape.Cooldown.{perform_all, IsRun, enqueue-perform_all}

abbrev paris : String
paris = "48.85,2.35"

-- A visitor's radius of 5 km, where a cell's own is 8 km.
abbrev asks : Event
asks = claims 8000 paris 5000 1000000000

abbrev request : Request
request = record { cell = paris; radius = 8000 }

abbrev marked_world : World
marked_world = perform asks (opened [])

abbrev sent_world : World
sent_world = perform (sends request) marked_world

abbrev taken_world : World
taken_world = perform takes sent_world

abbrev prepared_world : World
prepared_world = perform (prepares paris (some 2) 2000000000) taken_world

abbrev reading_world : World
reading_world = perform (reports paris 3) prepared_world

marked-once : 0 < count paris marked_world.visitors
unfolding perform claim recover_cooldowns
marked-once = omega arith

taken-once : 0 < count paris taken_world.admitters
unfolding perform claim recover_cooldowns send
taken-once = omega arith

reads-once : 0 < count paris reading_world.readers
unfolding perform claim recover_cooldowns send prepare
reads-once = omega arith

sent-Reachable : Reachable sent_world
sent-Reachable = happens (sends request) marked-once (happens asks tt (starts []))

reading-Reachable : Reachable reading_world
unfolding perform
reading-Reachable =
    happens (reports paris 3) reads-once
      (happens (prepares paris (some 2) 2000000000) taken-once (happens takes tt sent-Reachable))

Reachable-IsAccounted_example : IsAccounted sent_world
Reachable-IsAccounted_example = Reachable-IsAccounted sent-Reachable

-- Two visitors ask again, one for another area.
abbrev later : List Event
later = claims 8000 paris 6000 6000000000 ∷ claims 8000 "52.50,13.40" 6000 7000000000 ∷ []

later-IsRun :
    IsRun (5000000000 + scrape_cooldown) later (perform (ends paris 5000000000) reading_world)
later-IsRun = (tt, omega arith, (tt, omega arith, tt))

abbrev afterwards : World
afterwards = perform_all later (perform (ends paris 5000000000) reading_world)

enqueue-perform_all_example :
    (waiting paris afterwards ≡ 0)
    × (count paris afterwards.readers ≡ 0)
    × (enqueue 8000 paris 6000 9000000000 afterwards.queue ≡ (afterwards.queue, cooling))
enqueue-perform_all_example =
    enqueue-perform_all paris 5000000000 later 8000 6000 9000000000 reading-Reachable reads-once
      later-IsRun (omega arith) (omega arith) (omega arith)
