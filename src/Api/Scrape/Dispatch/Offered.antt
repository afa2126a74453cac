-- ===== src/Api/Scrape/Dispatch/Offered.antt =====
-- internal/api/scrape.go: what the loop of dispatch offers, in every state that it gets into.
use museumscraper.Prelude.{
  ℕ, zero, suc, ◌<◌, String, ◌≡◌, refl, sym, ◌⊎◌, inl, inr, some, List, [], ◌∷◌, ◌++◌, arith,
  length, get_elem?, length-append, All,
}
use mathlib.Core.Path.{subst}
use museumscraper.Api.Scrape.Dispatch.{Area, Dispatcher, start, blocked, job, offered, ready, hand}
use museumscraper.Api.Scrape.Dispatch.Fair.{
  IsOpen, IsValid, line, get-length, at_turn, at_turn-eq, line-at_turn, All-append, All-parts,
  hand-IsValid,
}

abbrev pub Gives : Dispatcher → Type 0
Gives d =
    (a : Area) × (as' : List Area) × (t : String) × (line d ≡ a ∷ as')
    × (get_elem? a.targets a.sent ≡ some t)
    × (offered d ≡ job a.cell t)

abbrev pub Offers : Dispatcher → Type 0
Offers d = ((line d ≡ []) × (offered d ≡ blocked)) ⊎ Gives d

get-lt {ℓ} :
    {A : Type ℓ} (xs : List A) (i : ℕ) → i < length xs → (x : A) × (get_elem? xs i ≡ some x)
get-lt [] i h = elim h [ ]
get-lt (x ∷ xs) zero h = (x, refl)
get-lt (x ∷ xs) (suc i) h = get-lt xs i (omega arith)

offered-at_turn :
    (pre : List Area) (a : Area) (post : List Area) (t : String)
    → get_elem? a.targets a.sent ≡ some t
    → offered (at_turn pre a post) ≡ job a.cell t
unfolding offered
offered-at_turn [] a post t e = rw e refl
offered-at_turn (b ∷ pre) a post t e = rw (get-length pre post a, e) refl

IsOpen-at :
    (pre : List Area) (a : Area) (post : List Area) → All IsOpen (pre ++ a ∷ post) → IsOpen a
IsOpen-at pre a post opened = let (before, (now, after)) = All-parts pre (a ∷ post) opened in now

at_turn-Gives :
    (pre : List Area) (a : Area) (post : List Area) → IsOpen a → Gives (at_turn pre a post)
unfolding offered
at_turn-Gives pre a post open_area =
    let (t, e) = get-lt a.targets a.sent open_area in
    (a, post ++ pre, t, line-at_turn pre a post, e, offered-at_turn pre a post t e)

Offers-none : (d : Dispatcher) → d.areas ≡ [] → d.turn ≡ 0 → (line d ≡ []) × (offered d ≡ blocked)
unfolding line offered
Offers-none d e z = (rw (e, z) refl, rw e refl)

Offers-valid : (d : Dispatcher) → IsValid d → Offers d
Offers-valid d v = elim v.in_range [
  | inl h ↦
      let (pre, a, post, same) = at_turn-eq d h in
      subst Offers same (
        inr (
          at_turn-Gives pre a post
            (IsOpen-at pre a post (subst (λ x. All IsOpen x.areas) (sym same) v.open_areas))))
  | inr (e, z) ↦ inl (Offers-none d e z)
]

-- The states of the loop: prepare hands it an area that has sites, none of them sent, and a site is
-- handed out when the loop offers one.
pub data Reachable : Dispatcher → Type 0 where
  starts : Reachable start
  readies :
      {d : Dispatcher} (a : Area)
      → a.sent ≡ 0
      → 0 < length a.targets
      → Reachable d
      → Reachable (ready a d)
  hands :
      {d : Dispatcher} (cell target : String)
      → offered d ≡ job cell target
      → Reachable d
      → Reachable (hand d)

ready-IsValid :
    (a : Area) (d : Dispatcher)
    → a.sent ≡ 0
    → 0 < length a.targets
    → IsValid d
    → IsValid (ready a d)
unfolding ready
ready-IsValid a d fresh some_left v = record {
  open_areas = All-append d.areas (a ∷ []) v.open_areas (omega arith, tt);
  in_range = inl (elim v.in_range [
    | inl h ↦ omega (arith, length-append d.areas (a ∷ []))
    | inr (e, z) ↦ omega (arith, length-append d.areas (a ∷ []))
  ]);
}

-- A job is offered only at a turn that is that of an area.
offered-turn :
    (d : Dispatcher) (cell target : String)
    → offered d ≡ job cell target
    → IsValid d
    → d.turn < length d.areas
offered-turn d cell target h v = elim v.in_range [
  | inl k ↦ k
  | inr (e, z) ↦ absurd (let b = (Offers-none d e z).1 in cc)
]

Reachable-IsValid : {d : Dispatcher} → Reachable d → IsValid d
Reachable-IsValid starts = record { open_areas = tt; in_range = inr (refl, refl) }
Reachable-IsValid (readies {d} a fresh some_left h) =
    ready-IsValid a d fresh some_left (Reachable-IsValid h)
Reachable-IsValid (hands {d} cell target offer h) =
    let v = Reachable-IsValid h in hand-IsValid d (offered-turn d cell target offer v) v

-- However areas with sites become ready and sites are handed out, in whatever order, the loop never
-- reads an area or a site out of range: it offers the next site of the area at the front of the queue,
-- or nothing when there is no area.
pub Reachable-offered : {d : Dispatcher} → Reachable d → Offers d
Reachable-offered {d} h = Offers-valid d (Reachable-IsValid h)
