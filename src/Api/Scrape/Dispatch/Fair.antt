-- ===== src/Api/Scrape/Dispatch/Fair.antt =====
-- internal/api/scrape.go: dispatch against a plain queue of areas, in which the area at the front
-- gives a site and goes to the back, or leaves when that was its last.
use museumscraper.Prelude.{
  ℕ, zero, suc, ◌+◌, ◌<◌, ◌≡◌, refl, sym, ap, ◌∙◌, ◌⊎◌, inl, inr, true, false, some, List, [], ◌∷◌,
  ◌++◌, arith, leb, ◌==◌, if◌then◌else◌, Bool-cases, length, get_elem?, set, length-append, All,
  take, drop,
}
use mathlib.Core.List.{append_assoc, append-nil}
use mathlib.Core.Path.{subst}
use native.Mathlib.Numerals.{add-one}
use museumscraper.Api.Scrape.Dispatch.{Area, Dispatcher, advance, wrap, hand_from, hand}

-- Sites are left of every area, and the turn is that of some area, or 0 if there is none.
abbrev pub IsOpen : Area → Type 0
IsOpen a = a.sent < length a.targets

pub record IsValid (d : Dispatcher) : Type 0 where
  pub open_areas : All IsOpen d.areas
  pub in_range : (d.turn < length d.areas) ⊎ ((d.areas ≡ []) × (d.turn ≡ 0))

-- The areas in the order in which they will be offered.
unfoldable pub line : Dispatcher → List Area
line d = drop d.turn d.areas ++ take d.turn d.areas

unfoldable pub serve : List Area → List Area
serve [] = []
serve (a ∷ as') = if a.sent + 1 == length a.targets then as' else as' ++ advance a ∷ []

module _ {ℓ} {A : Type ℓ} where
  drop-length : (xs ys : List A) → drop (length xs) (xs ++ ys) ≡ ys
  drop-length [] ys = refl
  drop-length (x ∷ xs) ys = drop-length xs ys

  take-length : (xs ys : List A) → take (length xs) (xs ++ ys) ≡ xs
  take-length [] ys = refl
  take-length (x ∷ xs) ys = ap (λ zs. x ∷ zs) (take-length xs ys)

  set-length : (xs ys : List A) (a b : A) → set (xs ++ a ∷ ys) (length xs) b ≡ xs ++ b ∷ ys
  set-length [] ys a b = refl
  set-length (x ∷ xs) ys a b = ap (λ zs. x ∷ zs) (set-length xs ys a b)

  pub get-length : (xs ys : List A) (a : A) → get_elem? (xs ++ a ∷ ys) (length xs) ≡ some a
  get-length [] ys a = refl
  get-length (x ∷ xs) ys a = get-length xs ys a

  split_at :
      (xs : List A) (i : ℕ)
      → i < length xs
      → (pre : List A) × (a : A) × (post : List A) × (xs ≡ pre ++ a ∷ post) × (i ≡ length pre)
  split_at [] i h = elim h [ ]
  split_at (x ∷ xs) zero h = ([], x, xs, refl, refl)
  split_at (x ∷ xs) (suc i) h =
      let (pre, a, post, e, n) = split_at xs i (omega arith) in
      (x ∷ pre, a, post, ap (λ zs. x ∷ zs) e, ap suc n)

abbrev pub at_turn : List Area → Area → List Area → Dispatcher
at_turn pre a post = record { areas = pre ++ a ∷ post; turn = length pre }

pub line-at_turn :
    (pre : List Area) (a : Area) (post : List Area) → line (at_turn pre a post) ≡ a ∷ post ++ pre
unfolding line
line-at_turn pre a post = rw (drop-length pre (a ∷ post), take-length pre (a ∷ post))

leb_refl : (n : ℕ) → leb n n ≡ true
leb_refl n = ground arith

line-wrap : (pre post : List Area) → line (wrap (pre ++ post) (length pre)) ≡ post ++ pre
unfolding line wrap
line-wrap pre [] = rw (append-nil, leb_refl, append-nil)
line-wrap pre (b ∷ post) =
    let longer : leb (length (pre ++ b ∷ post)) (length pre) ≡ false =
      ground (arith, length-append pre (b ∷ post)) in
    rw (longer, drop-length pre (b ∷ post), take-length pre (b ∷ post))

drop-suc-length {ℓ} :
    {A : Type ℓ} (xs : List A) (a : A) (ys : List A) → drop (suc (length xs)) (xs ++ a ∷ ys) ≡ ys
drop-suc-length [] a ys = refl
drop-suc-length (x ∷ xs) a ys = drop-suc-length xs a ys

line-wrap_next :
    (pre : List Area) (b : Area) (post : List Area)
    → line (wrap (pre ++ b ∷ post) (length pre + 1)) ≡ post ++ pre ++ b ∷ []
line-wrap_next pre b post =
    ap (λ xs. line (wrap xs (length pre + 1))) (sym (append_assoc pre (b ∷ []) post))
    ∙ ap (λ n. line (wrap ((pre ++ b ∷ []) ++ post) n)) (sym (length-append pre (b ∷ [])))
    ∙ line-wrap (pre ++ b ∷ []) post
    ∙ sym (append_assoc post pre (b ∷ []))

hand-at_turn :
    (pre : List Area) (a : Area) (post : List Area)
    → line (hand (at_turn pre a post)) ≡ serve (a ∷ post ++ pre)
unfolding hand serve
hand-at_turn pre a post =
    rw (get-length pre post a, hand_from)
      (elim (Bool-cases (a.sent + 1 == length a.targets)) [
        | inl last ↦
            rw (last, take-length pre (a ∷ post), add-one, drop-suc-length pre a post)
              (line-wrap pre post)
        | inr more ↦
            rw (more, set-length pre post a (advance a)) (line-wrap_next pre (advance a) post)
      ])

-- A dispatcher whose turn is in range, as the areas before that one and those after it.
pub at_turn-eq :
    (d : Dispatcher)
    → d.turn < length d.areas
    → (pre : List Area) × (a : Area) × (post : List Area) × (at_turn pre a post ≡ d)
at_turn-eq d h =
    let (pre, a, post, e, n) = split_at d.areas d.turn h in
    (
      pre,
      a,
      post,
      sym (
          ap (λ xs. record { areas = xs; turn = d.turn }) e
          ∙ ap (λ i. record { areas = pre ++ a ∷ post; turn = i }) n),
    )

-- Handing out one site, on a dispatcher whose turn is in range, serves the queue of its areas once.
pub line-hand : (d : Dispatcher) → d.turn < length d.areas → line (hand d) ≡ serve (line d)
line-hand d h =
    let (pre, a, post, same) = at_turn-eq d h in
    subst (λ x. line (hand x) ≡ serve (line x)) same
      (hand-at_turn pre a post ∙ ap serve (sym (line-at_turn pre a post)))

pub All-append : (xs ys : List Area) → All IsOpen xs → All IsOpen ys → All IsOpen (xs ++ ys)
All-append [] ys ps qs = qs
All-append (x ∷ xs) ys (p, ps) qs = (p, All-append xs ys ps qs)

pub All-parts : (xs ys : List Area) → All IsOpen (xs ++ ys) → All IsOpen xs × All IsOpen ys
All-parts [] ys qs = (tt, qs)
All-parts (x ∷ xs) ys (p, ps) = let (l, r) = All-parts xs ys ps in ((p, l), r)

wrap-IsValid : (areas : List Area) (turn : ℕ) → All IsOpen areas → IsValid (wrap areas turn)
unfolding wrap
wrap-IsValid [] turn open_areas = record {
  open_areas = open_areas;
  in_range = inr (refl, ground arith);
}
wrap-IsValid (a ∷ as') turn open_areas = record {
  open_areas = open_areas;
  in_range = inl (ground arith);
}

hand-at_turn-IsValid :
    (pre : List Area) (a : Area) (post : List Area)
    → All IsOpen (pre ++ a ∷ post)
    → IsValid (hand (at_turn pre a post))
unfolding hand
hand-at_turn-IsValid pre a post opened =
    let (before, (now, after)) = All-parts pre (a ∷ post) opened in
    rw (get-length pre post a, hand_from)
      (elim (Bool-cases (a.sent + 1 == length a.targets)) [
        | inl last ↦
            rw (last, take-length pre (a ∷ post), add-one, drop-suc-length pre a post)
              (wrap-IsValid (pre ++ post) (length pre) (All-append pre post before after))
        | inr more ↦
            rw (more, set-length pre post a (advance a))
              (wrap-IsValid (pre ++ advance a ∷ post) (length pre + 1)
                (All-append pre (advance a ∷ post) before (ground arith, after)))
      ])

-- Handing out a site keeps the dispatcher valid: every area has a site left, and the turn is in range.
pub hand-IsValid : (d : Dispatcher) → d.turn < length d.areas → IsValid d → IsValid (hand d)
hand-IsValid d h v =
    let (pre, a, post, same) = at_turn-eq d h in
    subst (λ x. IsValid (hand x)) same
      (hand-at_turn-IsValid pre a post (subst (λ x. All IsOpen x.areas) (sym same) v.open_areas))
