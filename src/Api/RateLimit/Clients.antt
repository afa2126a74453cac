-- ===== src/Api/RateLimit/Clients.antt =====
-- The map of buckets, by client address, as an association list.
use museumscraper.Prelude.{
  String, ◌≡◌, refl, inl, inr, Bool, false, Option, none, some, List, [], ◌∷◌, arith, if◌then◌else◌,
  Bool-cases,
}
use text.Mathlib.Text.{◌==◌ as str_eq}
use text.Mathlib.TextEquality.{eq_iff}

abbrev pub ClientMap {ℓ} : Type ℓ → Type ℓ
ClientMap B = List (String × B)

module _ {ℓ} {B : Type ℓ} where
  unfoldable pub lookup : String → ClientMap B → Option B
  lookup k [] = none
  lookup k ((j, b) ∷ m) = if str_eq j k then some b else lookup k m

  unfoldable pub put : String → B → ClientMap B → ClientMap B
  put k b [] = (k, b) ∷ []
  put k b ((j, c) ∷ m) = if str_eq j k then (j, b) ∷ m else (j, c) ∷ put k b m

  -- The entries whose value passes the test. A key stands once, so that what is dropped is gone.
  unfoldable pub keep_if : (B → Bool) → ClientMap B → ClientMap B
  keep_if p [] = []
  keep_if p ((j, b) ∷ m) = let rest = keep_if p m in if p b then (j, b) ∷ rest else rest

  pub lookup-put :
      (k j : String) (b : B) (m : ClientMap B)
      → lookup j (put k b m) ≡ (if str_eq k j then some b else lookup j m)
  unfolding lookup put
  lookup-put k j b [] = ground arith
  lookup-put k j b ((i, c) ∷ m) =
      ground (arith, lookup-put k j b m, eq_iff i k, eq_iff i j, eq_iff k j)

  -- No key stands twice.
  abbrev pub IsFresh : String → ClientMap B → Type 0
  IsFresh k [] = Unit
  IsFresh k ((j, b) ∷ m) = (str_eq j k ≡ false) × IsFresh k m

  abbrev pub IsMap : ClientMap B → Type 0
  IsMap [] = Unit
  IsMap ((j, b) ∷ m) = IsFresh j m × IsMap m

  abbrev pub kept : (B → Bool) → Option B → Option B
  kept p none = none
  kept p (some b) = if p b then some b else none

  lookup-fresh : (k : String) (m : ClientMap B) → IsFresh k m → lookup k m ≡ none
  unfolding lookup
  lookup-fresh k [] h = refl
  lookup-fresh k ((j, b) ∷ m) h = ground (arith, lookup-fresh k m h.1)

  IsFresh-keep_if :
      (k : String) (p : B → Bool) (m : ClientMap B) → IsFresh k m → IsFresh k (keep_if p m)
  unfolding keep_if
  IsFresh-keep_if k p [] h = tt
  IsFresh-keep_if k p ((j, b) ∷ m) h = elim (Bool-cases (p b)) [
    | inl y ↦ rw y (h.0, IsFresh-keep_if k p m h.1)
    | inr n ↦ rw n (IsFresh-keep_if k p m h.1)
  ]

  pub lookup-keep_if :
      (k : String) (p : B → Bool) (m : ClientMap B)
      → IsMap m
      → lookup k (keep_if p m) ≡ kept p (lookup k m)
  unfolding lookup keep_if
  lookup-keep_if k p [] h = refl
  lookup-keep_if k p ((j, b) ∷ m) h =
      ground (arith, lookup-keep_if k p m h.1, eq_iff j k, lookup-fresh k m)

  pub IsMap-keep_if : (p : B → Bool) (m : ClientMap B) → IsMap m → IsMap (keep_if p m)
  unfolding keep_if
  IsMap-keep_if p [] h = tt
  IsMap-keep_if p ((j, b) ∷ m) h = elim (Bool-cases (p b)) [
    | inl y ↦ rw y (IsFresh-keep_if j p m h.0, IsMap-keep_if p m h.1)
    | inr n ↦ rw n (IsMap-keep_if p m h.1)
  ]

  IsFresh-put :
      (k j : String) (b : B) (m : ClientMap B)
      → str_eq j k ≡ false
      → IsFresh k m
      → IsFresh k (put j b m)
  unfolding put
  IsFresh-put k j b [] e h = (e, tt)
  IsFresh-put k j b ((i, c) ∷ m) e h = elim (Bool-cases (str_eq i j)) [
    | inl y ↦ rw y h
    | inr n ↦ rw n (h.0, IsFresh-put k j b m e h.1)
  ]

  pub IsMap-put : (k : String) (b : B) (m : ClientMap B) → IsMap m → IsMap (put k b m)
  unfolding put
  IsMap-put k b [] h = (tt, tt)
  IsMap-put k b ((j, c) ∷ m) h = elim (Bool-cases (str_eq j k)) [
    | inl y ↦ rw y h
    | inr n ↦
        rw n (IsFresh-put j k b m (ground (arith, eq_iff j k, eq_iff k j)) h.0, IsMap-put k b m h.1)
  ]
