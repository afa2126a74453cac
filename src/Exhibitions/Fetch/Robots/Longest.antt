-- ===== src/Exhibitions/Fetch/Robots/Longest.antt =====
-- pkg/exhibitions/fetch.go: which rule of robots.txt decides on a path.
use museumscraper.Prelude.{
  ℕ, suc, ◌+◌, ◌≡◌, inl, inr, Bool, true, false, not, ◌&&◌, ◌||◌, List, [], ◌∷◌, arith, ltb, leb,
  Bool-cases,
}
use museumscraper.Text.Bytes.{Bytes, has_prefix}
use museumscraper.Exhibitions.Page.{byte_length}
use museumscraper.Exhibitions.Fetch.Robots.{Rules, longest, allows, or_root}

-- A rule of the list that the path starts with, and that has at least this many bytes.
abbrev pub has_rule : Bytes → List Bytes → ℕ → Bool
has_rule path [] n = false
has_rule path (prefix ∷ prefixes) n =
    (has_prefix path prefix && leb n (byte_length prefix)) || has_rule path prefixes n

-- For each rule that the path starts with, one of the other list is as long.
abbrev pub is_matched : Bytes → List Bytes → List Bytes → Bool
is_matched path [] others = true
is_matched path (prefix ∷ prefixes) others =
    (not (has_prefix path prefix) || has_rule path others (byte_length prefix))
    && is_matched path prefixes others

longest_bound :
    (path : Bytes) (rules : List Bytes) (best n : ℕ)
    → leb (suc n) (longest path rules best) ≡ (leb (suc n) best || has_rule path rules n)
unfolding longest
longest_bound path [] best n = ground arith
longest_bound path (prefix ∷ prefixes) best n =
    elim (Bool-cases (has_prefix path prefix && ltb best (byte_length prefix + 1))) [
      | inl y ↦
          rw (longest, y)
            (ground (arith, y, longest_bound path prefixes (byte_length prefix + 1) n))
      | inr k ↦ rw (longest, k) (ground (arith, k, longest_bound path prefixes best n))
    ]

longest-matched :
    (path : Bytes) (rules others : List Bytes) (best : ℕ)
    → leb (longest path rules best) (longest path others 0)
      ≡ (leb best (longest path others 0) && is_matched path rules others)
unfolding longest
longest-matched path [] others best = ground arith
longest-matched path (prefix ∷ prefixes) others best =
    let other = longest_bound path others 0 (byte_length prefix) in
    elim (Bool-cases (has_prefix path prefix)) [
      | inr k ↦ rw (longest, k) (ground (arith, longest-matched path prefixes others best))
      | inl y ↦ elim (Bool-cases (ltb best (byte_length prefix + 1))) [
        | inl z ↦
            rw (longest, y, z)
              (ground
                (arith, z, other, longest-matched path prefixes others (byte_length prefix + 1)))
        | inr z ↦
            rw (longest, y, z) (ground (arith, z, other, longest-matched path prefixes others best))
      ]
    ]

-- A path may be fetched exactly if, for every rule that forbids it, a rule that is at least as long
-- allows it; an empty path counts as the root.
pub allows_lem :
    (r : Rules) (path : Bytes) → allows r path ≡ is_matched (or_root path) r.disallow r.allow
unfolding allows
allows_lem r path = ground (arith, longest-matched (or_root path) r.disallow r.allow 0)
