-- ===== src/Service/Acknowledged.antt =====
-- internal/service/iterator.go and iterator_types.go: which objects have been acknowledged when the
-- offset of a message is committed.
use museumscraper.Prelude.{
  ℕ, zero, suc, ◌+◌, ◌≤◌, ◌<◌, String, ◌≡◌, refl, sym, ap, ◌∙◌, Bool, true, false, ◌&&◌, ◌||◌,
  Option, List, [], ◌∷◌, arith, ltb, leb, ◌==◌, if◌then◌else◌, length,
}
use museumscraper.Service.{Record, objects}
use museumscraper.Service.Commits.{committed, committed_lem}

-- Whether an object, by its place among those of its message, is among the acknowledged ones.
unfoldable pub has_ack : List ℕ → ℕ → Bool
has_ack [] i = false
has_ack (a ∷ acks) i = a == i || has_ack acks i

-- Whether each of the first `n` objects is.
unfoldable pub all_acked : ℕ → List ℕ → Bool
all_acked zero acks = true
all_acked (suc n) acks = has_ack acks n && all_acked n acks

-- No object is acknowledged twice, and each is one of the first `n`.
abbrev pub IsOnce : ℕ → List ℕ → Type 0
IsOnce n [] = Unit
IsOnce n (a ∷ acks) = (a < n) × (has_ack acks a ≡ false) × IsOnce n acks

-- How many of the first `n` objects are acknowledged.
unfoldable tally : ℕ → List ℕ → ℕ
tally zero acks = 0
tally (suc n) acks = let rest = tally n acks in if has_ack acks n then rest + 1 else rest

tally-nil : (n : ℕ) → tally n [] ≡ 0
unfolding tally has_ack
tally-nil zero = refl
tally-nil (suc n) = ground (arith, tally-nil n)

tally-cons :
    (n a : ℕ) (acks : List ℕ)
    → has_ack acks a ≡ false
    → tally n (a ∷ acks) ≡ tally n acks + (if ltb a n then 1 else 0)
unfolding tally has_ack
tally-cons zero a acks h = ground arith
tally-cons (suc n) a acks h =
    ground (arith, h, tally-cons n a acks h, ap (has_ack acks) {x = a} {y = n})

tally-length : (n : ℕ) (acks : List ℕ) → IsOnce n acks → tally n acks ≡ length acks
tally-length n [] h = tally-nil n
tally-length n (a ∷ acks) (h, k, rest) =
    ground (arith, h, tally-cons n a acks k, tally-length n acks rest)

tally-le : (n : ℕ) (acks : List ℕ) → tally n acks ≤ n
unfolding tally
tally-le zero acks = omega arith
tally-le (suc n) acks = ground (arith, tally-le n acks)

all_acked-tally : (n : ℕ) (acks : List ℕ) → all_acked n acks ≡ leb n (tally n acks)
unfolding all_acked tally
all_acked-tally zero acks = ground arith
all_acked-tally (suc n) acks = ground (arith, tally-le n acks, all_acked-tally n acks)

module _ (query_unescape path_unescape : String → Option String) {T : Type 0}
    (loader : String → String → Option T) where
  -- Where no object of a message is acknowledged twice: whatever records the message has and whichever
  -- of them are skipped, its offset is committed once if every object that was handed out has been
  -- acknowledged, in whatever order, and not at all before.
  pub committed-all_acked :
      (rs : List Record) (acks : List ℕ)
      → IsOnce (length (objects query_unescape path_unescape loader rs).0) acks
      → committed query_unescape path_unescape loader rs (length acks) ≡ (
          if all_acked (length (objects query_unescape path_unescape loader rs).0) acks
          then 1
          else 0)
  committed-all_acked rs acks h =
      let n = length (objects query_unescape path_unescape loader rs).0 in
      committed_lem query_unescape path_unescape loader rs (length acks)
      ∙ ap (λ (b : Bool). if b then 1 else 0)
          (ap (leb n) (sym (tally-length n acks h)) ∙ sym (all_acked-tally n acks))
