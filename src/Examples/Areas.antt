-- ===== src/Examples/Areas.antt =====
-- internal/api/scrape.go: a village and a city that are read in turn.
use museumscraper.Prelude.{◌≡◌, refl, [], ◌∷◌, arith}
use museumscraper.Api.Scrape.Dispatch.{Area, Dispatcher, start, job, offered, ready, hand}
use museumscraper.Api.Scrape.Dispatch.Fair.{line, serve, line-hand}
use museumscraper.Api.Scrape.Dispatch.Offered.{Offers, starts, readies, hands, Reachable-offered}

abbrev village : Area
village = record { cell = "48.00,2.00"; targets = "a" ∷ []; sent = 0 }

abbrev city : Area
city = record { cell = "48.85,2.35"; targets = "b" ∷ "c" ∷ "d" ∷ []; sent = 1 }

abbrev dispatcher : Dispatcher
dispatcher = record { areas = city ∷ village ∷ []; turn = 1 }

line-hand_example : line (hand dispatcher) ≡ serve (line dispatcher)
line-hand_example = line-hand dispatcher (omega arith)

-- The village becomes ready, then the city, and the village's only site is handed out.
abbrev fresh_city : Area
fresh_city = record { cell = "48.85,2.35"; targets = "b" ∷ "c" ∷ "d" ∷ []; sent = 0 }

abbrev both : Dispatcher
both = ready fresh_city (ready village start)

both-offered : offered both ≡ job "48.00,2.00" "a"
unfolding offered ready
both-offered = refl

Reachable-offered_example : Offers (hand both)
Reachable-offered_example = Reachable-offered (
    hands "48.00,2.00" "a" both-offered
      (readies fresh_city refl (omega arith) (readies village refl (omega arith) starts)))
