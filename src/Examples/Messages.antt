-- ===== src/Examples/Messages.antt =====
-- internal/service/iterator.go: a message of three records, of which one has been deleted.
use museumscraper.Prelude.{
  String, ◌≡◌, refl, Option, none, some, List, [], ◌∷◌, arith, if◌then◌else◌, length,
}
use text.Mathlib.Text.{◌==◌ as str_eq}
use museumscraper.Service.{Record, objects}
use museumscraper.Service.Commits.{committed}
use museumscraper.Service.Acknowledged.{has_ack, all_acked, IsOnce, committed-all_acked}

abbrev records : List Record
records =
    record { bucket = "museums"; raw_key = "orsay" }
    ∷ record { bucket = "museums"; raw_key = "gone" }
    ∷ record { bucket = "museums"; raw_key = "louvre" }
    ∷ []

abbrev loader : String → String → Option String
loader bucket key = if str_eq key "gone" then none else some key

-- The second object that was handed out is acknowledged, and then the first.
two-IsOnce : IsOnce (length (objects some some loader records).0) (1 ∷ 0 ∷ [])
unfolding has_ack objects
two-IsOnce = (omega arith, refl, (omega arith, refl, tt))

committed-all_acked_example :
    committed some some loader records 2
    ≡ (if all_acked (length (objects some some loader records).0) (1 ∷ 0 ∷ []) then 1 else 0)
committed-all_acked_example = committed-all_acked some some loader records (1 ∷ 0 ∷ []) two-IsOnce
