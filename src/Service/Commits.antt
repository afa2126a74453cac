-- ===== src/Service/Commits.antt =====
-- internal/service/iterator.go: when the offset of a message is committed.
use museumscraper.Prelude.{
  ℕ, zero, suc, ◌+◌, ◌-◌, ◌<◌, String, ◌≡◌, refl, ap, ◌∙◌, inl, inr, true, false, Option, none,
  some, List, [], ◌∷◌, arith, leb, ◌==◌, if◌then◌else◌, Bool-cases, length,
}
use museumscraper.Service.{
  Acker, new_acker, done, Record, object_key, load_key, put_object, objects,
}

-- How many of `k` calls of done commit.
unfoldable pub commits : ℕ → Acker → ℕ
unfolding done
commits zero a = 0
commits (suc k) a = let rest = commits k (done a).0 in if (done a).1 then rest + 1 else rest

commits-spent : (k : ℕ) (a : Acker) → a.remaining ≡ 0 → commits k a ≡ 0
unfolding commits
commits-spent zero a h = refl
commits-spent (suc k) a h = ground (arith, h, commits-spent k a h)

commits-armed :
    (k : ℕ) (a : Acker)
    → 0 < a.remaining
    → a.commits ≡ true
    → commits k a ≡ (if leb a.remaining k then 1 else 0)
unfolding commits
commits-armed zero a h c = ground arith
commits-armed (suc k) a h c = elim (Bool-cases (a.remaining - 1 == 0)) [
  | inl y ↦ ground (arith, y, c, commits-spent k (done a).0)
  | inr n ↦ ground (arith, n, c, commits-armed k (done a).0)
]

new_acker-suc : (n : ℕ) → new_acker (suc n) ≡ (record { remaining = suc n; commits = true }, false)
unfolding new_acker
new_acker-suc n = ground arith

module _ (query_unescape path_unescape : String → Option String) {T : Type 0}
    (loader : String → String → Option T) where
  put_object-length :
      (o : Option T) (p : List T × ℕ)
      → let (out, skipped) = put_object query_unescape path_unescape loader o p in
        length out + skipped ≡ suc (length p.0 + p.1)
  put_object-length none p = omega arith
  put_object-length (some t) p = omega arith

  objects-length :
      (rs : List Record)
      → let (out, skipped) = objects query_unescape path_unescape loader rs in
        length out + skipped ≡ length rs
  unfolding objects
  objects-length [] = refl
  objects-length (r ∷ rs) =
      let o =
        load_key query_unescape path_unescape loader r.bucket
          (object_key query_unescape path_unescape r.raw_key) in
      put_object-length o (objects query_unescape path_unescape loader rs)
      ∙ ap suc (objects-length rs)

  -- How often the offset of a message is committed, once `acks` objects of it have been acknowledged.
  -- The calls of done for skipped records and those for objects may come in any order.
  unfoldable pub committed : List Record → ℕ → ℕ
  unfolding new_acker commits objects
  committed [] acks = 1
  committed (r ∷ rs) acks =
      let skipped = (objects query_unescape path_unescape loader (r ∷ rs)).1 in
      let (a, at_once) = new_acker (length (r ∷ rs)) in
      if at_once then 1 + commits (skipped + acks) a else commits (skipped + acks) a

  -- Whatever records a message has and whichever of them are skipped, its offset is committed once, and
  -- only when as many acknowledgements have come as objects were handed out.
  pub committed_lem :
      (rs : List Record) (acks : ℕ)
      → committed rs acks
        ≡ (if leb (length (objects query_unescape path_unescape loader rs).0) acks then 1 else 0)
  unfolding committed new_acker
  committed_lem [] acks = ground arith
  committed_lem (r ∷ rs) acks =
      let p = objects query_unescape path_unescape loader (r ∷ rs) in
      let all = objects-length (r ∷ rs) in
      rw (new_acker-suc (length rs)) (
        commits-armed (p.1 + acks) (record { remaining = suc (length rs); commits = true })
          (omega arith) refl
        ∙ ground (arith, all))
