-- ===== src/Api/Scrape/Dispatch.antt =====
-- internal/api/scrape.go: dispatch, which hands out one site at a time and takes the areas in turn.
pub mod Fair
pub mod Offered
use museumscraper.Prelude.{
  ℕ, zero, suc, ◌+◌, ◌-◌, ◌*◌, ◌/◌, ◌%◌, ◌^◌, ◌≤◌, ◌<◌, min, max, String, ◌≡◌, refl, sym, ap, ◌∙◌,
  ◌≢◌, ◌↔◌, ◌⊎◌, inl, inr, Bool, true, false, not, ◌&&◌, ◌||◌, Option, none, some, List, [], ◌∷◌,
  ◌++◌, map, arith, ltb, leb, ◌==◌, if◌then◌else◌, ltb→lt, lt→ltb, leb→le, ==_iff, Bool-cases,
  Option-cases, length, get_elem?, set, length-append, length-set, get_elem?-set_self,
  get_elem?-set_ne, All, take, drop, dec_lt, ℕ_discrete,
}

pub record Area : Type 0 where
  pub cell : String
  pub targets : List String
  pub sent : ℕ

pub record Dispatcher : Type 0 where
  pub areas : List Area
  pub turn : ℕ

abbrev pub start : Dispatcher
start = record { areas = []; turn = 0 }

-- What the loop offers to the workers before its select: nothing while there is no area, else the
-- next site of the area whose turn it is. An index out of range is a panic.
pub data Offer : Type 0 where
  blocked panics : Offer
  job : (cell target : String) → Offer

abbrev pub job_of : Area → Option String → Offer
job_of a none = panics
job_of a (some target) = job a.cell target

abbrev pub offer_of : Option Area → Offer
offer_of none = panics
offer_of (some a) = job_of a (get_elem? a.targets a.sent)

unfoldable pub offered : Dispatcher → Offer
offered d = elim d.areas [ [] ↦ blocked | a ∷ as' ↦ offer_of (get_elem? d.areas d.turn) ]

-- The case `area := <-q.ready`.
unfoldable pub ready : Area → Dispatcher → Dispatcher
ready a d = record d { areas = d.areas ++ a ∷ [] }

abbrev pub advance : Area → Area
advance a = record a { sent = a.sent + 1 }

-- `if turn >= len(areas) { turn = 0 }`
unfoldable pub wrap : List Area → ℕ → Dispatcher
wrap areas turn = record { areas = areas; turn = if leb (length areas) turn then 0 else turn }

-- The case `offer <- job`, for the area whose turn it is.
unfoldable pub hand_from : Option Area → Dispatcher → Dispatcher
unfolding wrap
hand_from none d = d
hand_from (some a) d =
    if a.sent + 1 == length a.targets
    then wrap (take d.turn d.areas ++ drop (d.turn + 1) d.areas) d.turn
    else wrap (set d.areas d.turn (advance a)) (d.turn + 1)

unfoldable pub hand : Dispatcher → Dispatcher
unfolding hand_from
hand d = hand_from (get_elem? d.areas d.turn) d
