-- ===== src/Collect/Merger/Indexes.antt =====
-- internal/collect/merge.go: the map from Wikidata ids to places in the list of museums.
use museumscraper.Prelude.{
  ℕ, zero, suc, ◌<◌, String, ◌≡◌, refl, sym, ap, ◌∙◌, ◌≢◌, ◌⊎◌, inl, inr, Option, none, some, List,
  [], ◌∷◌, ◌++◌, arith, if◌then◌else◌, Bool-cases, length, get_elem?, set, get_elem?-set_ne,
  ℕ_discrete,
}
use mathlib.Core.Path.{subst}
use text.Mathlib.Text.{◌==◌ as str_eq}
use text.Mathlib.TextEquality.{eq_iff}
use museumscraper.Prelude.Maps.{assign}
use museumscraper.Collect.{Museum}
use museumscraper.Collect.Merge.{fill}

-- The map of ids holds exactly the ids of the museums, each with that museum's place in the list.
pub record IsIdIndex (ids : String → Option ℕ) (ms : List Museum) : Type 0 where
  pub listed :
      (i : ℕ) (a : Museum)
      → get_elem? ms i ≡ some a
      → a.wikidata_id ≢ ""
      → ids a.wikidata_id ≡ some i
  pub held :
      (w : String) (i : ℕ)
      → ids w ≡ some i
      → (a : Museum) × (get_elem? ms i ≡ some a) × (a.wikidata_id ≡ w) × (w ≢ "")

abbrev pub IsWithin : ℕ → (String → Option ℕ) → Type 0
IsWithin n names = (k : String) (i : ℕ) → names k ≡ some i → i < n

abbrev pub with_id : String → ℕ → (String → Option ℕ) → String → Option ℕ
with_id w i ids = if str_eq w "" then ids else assign w i ids

module _ {A : Type 0} where
  get-set_self :
      (xs : List A) (i : ℕ) (a b : A) → get_elem? xs i ≡ some a → get_elem? (set xs i b) i ≡ some b
  get-set_self [] i a b h = cc
  get-set_self (x ∷ xs) zero a b h = refl
  get-set_self (x ∷ xs) (suc i) a b h = get-set_self xs i a b h

  get-append_one :
      (xs : List A) (x b : A) (i : ℕ)
      → get_elem? (xs ++ x ∷ []) i ≡ some b
      → (get_elem? xs i ≡ some b) ⊎ ((i ≡ length xs) × (x ≡ b))
  get-append_one [] x b zero h = inr (refl, cc)
  get-append_one [] x b (suc i) h = cc
  get-append_one (y ∷ xs) x b zero h = inl h
  get-append_one (y ∷ xs) x b (suc i) h = elim (get-append_one xs x b i h) [
    | inl e ↦ inl e
    | inr (e, f) ↦ inr (ap suc e, f)
  ]

  get-append :
      (xs : List A) (x b : A) (i : ℕ)
      → get_elem? xs i ≡ some b
      → get_elem? (xs ++ x ∷ []) i ≡ some b
  get-append [] x b i h = cc
  get-append (y ∷ xs) x b zero h = h
  get-append (y ∷ xs) x b (suc i) h = get-append xs x b i h

  get-append_last : (xs : List A) (x : A) → get_elem? (xs ++ x ∷ []) (length xs) ≡ some x
  get-append_last [] x = refl
  get-append_last (y ∷ xs) x = get-append_last xs x

  pub get-lt : (xs : List A) (i : ℕ) (a : A) → get_elem? xs i ≡ some a → i < length xs
  get-lt [] i a h = cc
  get-lt (x ∷ xs) zero a h = omega arith
  get-lt (x ∷ xs) (suc i) a h = let k = get-lt xs i a h in omega arith

  pub lt-get : (xs : List A) (i : ℕ) → i < length xs → (a : A) × (get_elem? xs i ≡ some a)
  lt-get [] i h = elim h [ ]
  lt-get (x ∷ xs) zero h = (x, refl)
  lt-get (x ∷ xs) (suc i) h = lt-get xs i (omega arith)

with_id-cases :
    (v : String) (n : ℕ) (ids : String → Option ℕ) (w : String) (i : ℕ)
    → with_id v n ids w ≡ some i
    → ((v ≢ "") × (v ≡ w) × (n ≡ i)) ⊎ (((v ≡ "") ⊎ (v ≢ w)) × (ids w ≡ some i))
with_id-cases v n ids w i h = elim (Bool-cases (str_eq v "")) [
  | inl y ↦ inr (inl ((eq_iff v "").0 y), ground (arith, y, h))
  | inr f ↦ elim (Bool-cases (str_eq v w)) [
    | inl z ↦ inl ((λ e. ground (arith, eq_iff v "")), (eq_iff v w).0 z, ground (arith, f, z, h))
    | inr z ↦ inr (inr (λ e. ground (arith, eq_iff v w)), ground (arith, f, z, h))
  ]
]

-- A record with an id that no museum has is put at the end.
pub IsIdIndex-append :
    (ids : String → Option ℕ) (ms : List Museum) (m : Museum)
    → IsIdIndex ids ms
    → (m.wikidata_id ≡ "") ⊎ (ids m.wikidata_id ≡ none)
    → IsIdIndex (with_id m.wikidata_id (length ms) ids) (ms ++ m ∷ [])
IsIdIndex-append ids ms m v n = record {
  listed = λ i a e k. elim (get-append_one ms m a i e) [
    | inl e' ↦
        let old = v.listed i a e' k in
        ground (
          arith,
          eq_iff m.wikidata_id "",
          eq_iff m.wikidata_id a.wikidata_id,
          ap ids {x = m.wikidata_id} {y = a.wikidata_id},
        )
    | inr (at_end, same) ↦
        let id : m.wikidata_id ≡ a.wikidata_id = ap (λ (b : Museum). b.wikidata_id) same in
        ground (arith, eq_iff m.wikidata_id "", eq_iff m.wikidata_id a.wikidata_id)
  ];
  held = λ w i e. elim (with_id-cases m.wikidata_id (length ms) ids w i e) [
    | inl (full, same, at_end) ↦ (
      m,
      subst (λ j. get_elem? (ms ++ m ∷ []) j ≡ some m) at_end (get-append_last ms m),
      same,
      λ blank. full (same ∙ blank),
    )
    | inr (_, old) ↦ let (a, p, q, r) = v.held w i old in (a, get-append ms m a i p, q, r)
  ];
}

abbrev id_of : Option Museum → String
id_of none = ""
id_of (some a) = a.wikidata_id

abbrev pub place_of : Option ℕ → ℕ
place_of none = 0
place_of (some i) = i

none-not_some : (o : Option ℕ) (i : ℕ) → o ≡ none → o ≢ some i
none-not_some o i h k = cc

-- The folded museum has the id of no other museum.
fill-other :
    (ids : String → Option ℕ) (i j : ℕ) (v m w : String)
    → (v ≢ "" → ids v ≡ some i)
    → (m ≡ "") ⊎ (ids m ≡ some i) ⊎ ((ids m ≡ none) × ((v ≡ "") ⊎ (v ≡ m)))
    → w ≢ ""
    → ids w ≡ some j
    → i ≢ j
    → fill v m ≢ w
fill-other ids i j v m w known n full old other same = elim (Bool-cases (str_eq v "")) [
  | inl y ↦
      let e : m ≡ w = ground (arith, y, same) in
      elim n [
        | inl blank ↦ full (sym e ∙ blank)
        | inr (inl q) ↦ other (ap place_of (sym q ∙ ap ids e ∙ old))
        | inr (inr (q, _)) ↦ none-not_some (ids m) j q (ap ids e ∙ old)
      ]
  | inr f ↦
      let e : v ≡ w = ground (arith, f, same) in
      let q = known (λ blank. full (sym e ∙ blank)) in other (ap place_of (sym q ∙ ap ids e ∙ old))
]

-- A record that matches the museum at `i` is folded into it: the museum's id is kept, or the record's
-- takes its place if it had none.
pub IsIdIndex-set :
    (ids : String → Option ℕ) (ms : List Museum) (i : ℕ) (a m both : Museum)
    → IsIdIndex ids ms
    → get_elem? ms i ≡ some a
    → both.wikidata_id ≡ fill a.wikidata_id m.wikidata_id
    → (m.wikidata_id ≡ "")
      ⊎ (ids m.wikidata_id ≡ some i)
      ⊎ ((ids m.wikidata_id ≡ none) × ((a.wikidata_id ≡ "") ⊎ (a.wikidata_id ≡ m.wikidata_id)))
    → IsIdIndex (with_id both.wikidata_id i ids) (set ms i both)
IsIdIndex-set ids ms i a m both v here id n = record {
  listed = λ j b e k. elim (ℕ_discrete i j) [
    | yes same ↦
        let same_id : both.wikidata_id ≡ b.wikidata_id = ap id_of (
          sym (get-set_self ms i a both here)
          ∙ subst (λ x. get_elem? (set ms i both) x ≡ some b) (sym same) e) in
        ground
          (arith, eq_iff both.wikidata_id "", eq_iff both.wikidata_id b.wikidata_id, same_id, same)
    | no other ↦
        let e' : get_elem? ms j ≡ some b = sym (get_elem?-set_ne ms both other) ∙ e in
        let old = v.listed j b e' k in
        let differ : both.wikidata_id ≢ b.wikidata_id = λ same.
          fill-other ids i j a.wikidata_id m.wikidata_id b.wikidata_id (v.listed i a here) n k old
            other (sym id ∙ same) in
        ground (arith, eq_iff both.wikidata_id b.wikidata_id, old)
  ];
  held = λ w j e. elim (with_id-cases both.wikidata_id i ids w j e) [
    | inl (full, same, at) ↦ (
      both,
      subst (λ x. get_elem? (set ms i both) x ≡ some both) at (get-set_self ms i a both here),
      same,
      λ blank. full (same ∙ blank),
    )
    | inr (differs, old) ↦
        let (b, p, q, r) = v.held w j old in
        elim (ℕ_discrete i j) [
          | yes same ↦
              let same_id : a.wikidata_id ≡ b.wikidata_id =
                ap id_of (sym here ∙ subst (λ x. get_elem? ms x ≡ some b) (sym same) p) in
              absurd (ground (arith, same_id, q, r, id, differs, eq_iff a.wikidata_id ""))
          | no other ↦ (b, get_elem?-set_ne ms both other ∙ p, q, r)
        ]
  ];
}
