-- ===== src/Wikipedia/Crawl/Invariants.antt =====
-- pkg/wikipedia/category.go: what holds in every state of a crawl.
use museumscraper.Prelude.{
  ℕ, ◌+◌, ◌≤◌, String, ◌≡◌, refl, sym, ap, Bool, true, false, ◌||◌, some, List, [], ◌∷◌, ◌++◌, map,
  arith, if◌then◌else◌, length, length-append, All,
}
use museumscraper.Prelude.{if-keeps, All-append}
use text.Mathlib.TextEquality.{eq_iff}
use mathlib.Core.Path.{subst}
use museumscraper.Collect.{Museum, contains as has}
use museumscraper.Wikipedia.Classify.{PageMetadata, accept, classify, IsArticle, classify-IsArticle}
use museumscraper.Wikipedia.Crawl.{Crawler, Edition, museum_of, museums}
use museumscraper.Wikipedia.Crawl.Steps.{
  Reachable, starts, looks, enters, repeats, batches, rejects, doubles, emits, stops,
  museums-Reachable,
}

-- No element stands twice.
abbrev pub IsDistinct : List String → Type 0
IsDistinct [] = Unit
IsDistinct (x ∷ xs) = (has xs x ≡ false) × IsDistinct xs

abbrev pub names : List Museum → List String
names ms = map (λ (m : Museum). m.name) ms

has-append : (xs ys : List String) (x : String) → has (xs ++ ys) x ≡ (has xs x || has ys x)
unfolding has
has-append [] ys x = refl
has-append (y ∷ xs) ys x = ground (arith, has-append xs ys x)

IsDistinct-append :
    (xs : List String) (x : String) → has xs x ≡ false → IsDistinct xs → IsDistinct (xs ++ x ∷ [])
unfolding has
IsDistinct-append [] x h d = (refl, tt)
IsDistinct-append (y ∷ xs) x h (n, d) = (
  ground (arith, h, n, has-append xs (x ∷ []) y, eq_iff x y, eq_iff y x),
  IsDistinct-append xs x (ground (arith, h)) d,
)

names-append : (ms : List Museum) (m : Museum) → names (ms ++ m ∷ []) ≡ names ms ++ m.name ∷ []
names-append [] m = refl
names-append (x ∷ ms) m = ap (λ ns. x.name ∷ ns) (names-append ms m)

-- The museums are all among the titles that were emitted.
abbrev pub IsKnown : List String → Museum → Type 0
IsKnown emitted m = has emitted m.name ≡ true

IsKnown-weaken :
    (a b : String) (emitted : List String) (ms : List Museum)
    → All (IsKnown emitted) ms
    → All (IsKnown (a ∷ b ∷ emitted)) ms
unfolding has
IsKnown-weaken a b emitted [] h = tt
IsKnown-weaken a b emitted (m ∷ ms) (p, h) = (ground (arith, p), IsKnown-weaken a b emitted ms h)

IsKnown-fresh :
    (emitted : List String) (ms : List Museum) (x : String)
    → All (IsKnown emitted) ms
    → has emitted x ≡ false
    → has (names ms) x ≡ false
unfolding has
IsKnown-fresh emitted [] x h n = refl
IsKnown-fresh emitted (m ∷ ms) x (p, h) n = ground (
  arith,
  p,
  n,
  eq_iff m.name x,
  ap (has emitted) {x = m.name} {y = x},
  IsKnown-fresh emitted ms x h n,
)

-- What a museum that was sent was made of: what a call of resolve, with some batch, answered for a title.
abbrev pub IsFound : Edition → Museum → Type 0
IsFound e m =
    (batch : List String) × (title : String) × (meta : PageMetadata) × (country : String)
    × (category : String) × (e.resolve batch title ≡ some meta)
    × (m ≡ museum_of e meta country category)
    × IsArticle e.lower e.has_lifespan meta

-- What holds of the museums that were sent: no two have one name, every name is among the emitted
-- titles, and each was made of an article.
pub record IsSent (e : Edition) (emitted : List String) (out : List Museum) : Type 0 where
  pub distinct : IsDistinct (names out)
  pub known : All (IsKnown emitted) out
  pub found : All (IsFound e) out

IsSent-emit :
    (e : Edition) (batch : List String) (title country category : String) (meta : PageMetadata)
    (emitted : List String) (out : List Museum) (ended : Bool)
    → e.resolve batch title ≡ some meta
    → classify e.lower e.has_lifespan meta ≡ accept
    → has emitted meta.title ≡ false
    → IsSent e emitted out
    → IsSent e
        (title ∷ meta.title ∷ emitted)
        (if ended then out else out ++ museum_of e meta country category ∷ [])
unfolding has
IsSent-emit e batch title country category meta emitted out ended resolved ok new h =
    let m = museum_of e meta country category in
    let still = IsKnown-weaken title meta.title emitted out h.known in
    let both = out ++ m ∷ [] in
    if-keeps (IsSent e (title ∷ meta.title ∷ emitted)) ended out both
      (record { distinct = h.distinct; known = still; found = h.found })
      (record {
        distinct = subst IsDistinct (sym (names-append out m)) (
            IsDistinct-append (names out) meta.title
              (IsKnown-fresh emitted out meta.title h.known new) h.distinct);
        known =
            All-append (IsKnown (title ∷ meta.title ∷ emitted)) out m still
              (ground (arith, eq_iff meta.title meta.title));
        found = All-append (IsFound e) out m h.found (
          batch,
          title,
          meta,
          country,
          category,
          resolved,
          refl,
          classify-IsArticle e.lower e.has_lifespan meta ok,
        );
      })

pub record IsSound (e : Edition) (n : ℕ) (c : Crawler) : Type 0 where
  pub once : IsDistinct c.visited
  pub visits : c.stats.categories_visited ≡ length c.visited
  pub sent : IsSent e c.emitted c.out
  pub decided : c.stats.emitted_count + length c.stats.rejected + n ≤ c.stats.candidates
  pub counted : length c.out ≤ c.stats.emitted_count

Reachable-IsSound : {e : Edition} {n : ℕ} {c : Crawler} → Reachable e n c → IsSound e n c
Reachable-IsSound starts = record {
  once = tt;
  visits = refl;
  sent = record { distinct = tt; known = tt; found = tt };
  decided = omega arith;
  counted = omega arith;
}
Reachable-IsSound (looks h) =
    let v = Reachable-IsSound h in
    record {
      once = v.once;
      visits = v.visits;
      sent = v.sent;
      decided = v.decided;
      counted = v.counted;
    }
Reachable-IsSound (enters category new h) =
    let v = Reachable-IsSound h in
    record {
      once = (new, v.once);
      visits = omega (arith, v.visits);
      sent = v.sent;
      decided = v.decided;
      counted = v.counted;
    }
Reachable-IsSound (repeats k h) =
    let v = Reachable-IsSound h in
    record {
      once = v.once;
      visits = v.visits;
      sent = v.sent;
      decided = v.decided;
      counted = v.counted;
    }
Reachable-IsSound (batches k h) =
    let v = Reachable-IsSound h in
    record {
      once = v.once;
      visits = v.visits;
      sent = v.sent;
      decided = omega (arith, v.decided);
      counted = v.counted;
    }
Reachable-IsSound (rejects r h) =
    let v = Reachable-IsSound h in
    record {
      once = v.once;
      visits = v.visits;
      sent = v.sent;
      decided = omega (arith, v.decided);
      counted = v.counted;
    }
Reachable-IsSound (doubles h) =
    let v = Reachable-IsSound h in
    record {
      once = v.once;
      visits = v.visits;
      sent = v.sent;
      decided = omega (arith, v.decided);
      counted = v.counted;
    }
Reachable-IsSound {e} (emits {n} {c} batch title country category meta resolved ok new h) =
    let v = Reachable-IsSound h in
    let m = museum_of e meta country category in
    record {
      once = v.once;
      visits = v.visits;
      sent =
          IsSent-emit e batch title country category meta c.emitted c.out (e.cancelled c.looks)
            resolved ok new v.sent;
      decided = omega (arith, v.decided);
      counted =
          if-keeps (λ out. length out ≤ c.stats.emitted_count + 1) (e.cancelled c.looks) c.out
            (c.out ++ m ∷ []) (omega (arith, v.counted))
            (omega (arith, v.counted, length-append c.out (m ∷ [])));
    }
Reachable-IsSound (stops k ended h) =
    let v = Reachable-IsSound h in
    record {
      once = v.once;
      visits = v.visits;
      sent = v.sent;
      decided = omega (arith, v.decided);
      counted = v.counted;
    }

-- However often the tree leads back to a category, and whenever the context ends, a crawl visits no
-- category twice and sends no two museums of one name. Each museum that it sends is made of what one
-- call of resolve answered for a title, and that is an article that exists and is neither a list nor a
-- disambiguation page. It emits and rejects no more candidates than it counted.
pub museums-IsSound : (e : Edition) (root : String) → IsSound e 0 (museums e root)
museums-IsSound e root = Reachable-IsSound (museums-Reachable e root)

-- What was emitted was sent, and the candidates that are decided were emitted, rejected or counted as
-- duplicates.
abbrev pub IsComplete : ℕ → Crawler → Type 0
IsComplete n c =
    (c.stats.emitted_count ≡ length c.out)
    × (c.stats.candidates
        ≤ c.stats.emitted_count + length c.stats.rejected + c.stats.duplicates + n)

Reachable-IsComplete :
    {e : Edition} {n : ℕ} {c : Crawler}
    → ((k : ℕ) → e.cancelled k ≡ false)
    → Reachable e n c
    → IsComplete n c
Reachable-IsComplete lives starts = (refl, omega arith)
Reachable-IsComplete lives (looks h) = Reachable-IsComplete lives h
Reachable-IsComplete lives (enters category new h) = Reachable-IsComplete lives h
Reachable-IsComplete lives (repeats k h) =
    let (s, b) = Reachable-IsComplete lives h in (s, omega (arith, b))
Reachable-IsComplete lives (batches k h) =
    let (s, b) = Reachable-IsComplete lives h in (s, omega (arith, b))
Reachable-IsComplete lives (rejects r h) =
    let (s, b) = Reachable-IsComplete lives h in (s, omega (arith, b))
Reachable-IsComplete lives (doubles h) =
    let (s, b) = Reachable-IsComplete lives h in (s, omega (arith, b))
Reachable-IsComplete {e} lives (emits {n} {c} batch title country category meta resolved ok new h) =
    let (s, b) = Reachable-IsComplete lives h in
    let m = museum_of e meta country category in
    rw (lives c.looks) (omega (arith, s, length-append c.out (m ∷ [])), omega (arith, b))
Reachable-IsComplete {e} lives (stops k ended h) = absurd (ground (arith, ended, lives k))

-- In a crawl whose context is never cancelled, as many museums are sent as are counted as emitted,
-- and the candidates are no more than those that are emitted, rejected and counted as duplicates
-- together.
pub museums-IsComplete :
    (e : Edition) (root : String)
    → ((k : ℕ) → e.cancelled k ≡ false)
    → IsComplete 0 (museums e root)
museums-IsComplete e root lives = Reachable-IsComplete lives (museums-Reachable e root)
