-- ===== src/Collect/Merger/Lookups.antt =====
-- internal/collect/merge.go: what lookup finds, in a merger with valid indexes.
use museumscraper.Prelude.{
  ℕ, String, ◌≡◌, ◌⊎◌, inl, inr, true, none, some, List, [], ◌∷◌, arith, Bool-cases, Option-cases,
  length, get_elem?,
}
use text.Mathlib.Text.{◌==◌ as str_eq}
use text.Mathlib.TextEquality.{eq_iff}
use museumscraper.Collect.{Museum}
use museumscraper.Collect.Merger.{
  Merger, Found, absent, out_of_range, found_at, agrees, lookup_names, lookup,
}
use museumscraper.Collect.Merger.Indexes.{IsIdIndex, IsWithin, lt-get}

pub record IsIndexed (g : Merger) : Type 0 where
  pub ids : IsIdIndex g.by_wikidata g.museums
  pub names : IsWithin (length g.museums) g.by_name

-- What lookup has found out about a record, in terms of the museums and their ids.
abbrev pub IsAnswer : Merger → Museum → Found → Type 0
IsAnswer g m absent = (m.wikidata_id ≡ "") ⊎ (g.by_wikidata m.wikidata_id ≡ none)
IsAnswer g m out_of_range = ⊥
IsAnswer g m (found_at i) =
    (a : Museum) × (get_elem? g.museums i ≡ some a)
    × ((m.wikidata_id ≡ "")
        ⊎ (g.by_wikidata m.wikidata_id ≡ some i)
        ⊎ ((g.by_wikidata m.wikidata_id ≡ none)
            × ((a.wikidata_id ≡ "") ⊎ (a.wikidata_id ≡ m.wikidata_id))))

agrees-cases :
    (g : Merger) (m a : Museum) (i : ℕ)
    → (m.wikidata_id ≡ "") ⊎ (g.by_wikidata m.wikidata_id ≡ none)
    → agrees a m ≡ true
    → (m.wikidata_id ≡ "")
      ⊎ (g.by_wikidata m.wikidata_id ≡ some i)
      ⊎ ((g.by_wikidata m.wikidata_id ≡ none)
          × ((a.wikidata_id ≡ "") ⊎ (a.wikidata_id ≡ m.wikidata_id)))
agrees-cases g m a i (inl n) y = inl n
agrees-cases g m a i (inr n) y =
    ground
      (arith, eq_iff a.wikidata_id "", eq_iff m.wikidata_id "", eq_iff a.wikidata_id m.wikidata_id)

lookup_names-IsAnswer :
    (g : Merger) (m : Museum) (ks : List String)
    → IsWithin (length g.museums) g.by_name
    → (m.wikidata_id ≡ "") ⊎ (g.by_wikidata m.wikidata_id ≡ none)
    → IsAnswer g m (lookup_names g m ks)
unfolding lookup_names
lookup_names-IsAnswer g m [] v n = n
lookup_names-IsAnswer g m (k ∷ ks) v n =
    let ih = lookup_names-IsAnswer g m ks v n in
    elim (Bool-cases (g.ambiguous k)) [
      | inl y ↦ rw y ih
      | inr f ↦ rw f (elim (Option-cases (g.by_name k)) [
        | inl e ↦ rw e ih
        | inr (i, e) ↦
            let (a, p) = lt-get g.museums i (v k i e) in
            rw (e, p)
              (elim (Bool-cases (agrees a m)) [
                | inl y ↦ rw y (a, p, agrees-cases g m a i n y)
                | inr x ↦ rw x ih
              ])
      ])
    ]

pub lookup-IsAnswer :
    (g : Merger) (m : Museum) (ks : List String) → IsIndexed g → IsAnswer g m (lookup g m ks)
unfolding lookup
lookup-IsAnswer g m ks v = elim (Bool-cases (str_eq m.wikidata_id "")) [
  | inl y ↦ rw y (lookup_names-IsAnswer g m ks v.names (inl ((eq_iff m.wikidata_id "").0 y)))
  | inr f ↦ rw f (elim (Option-cases (g.by_wikidata m.wikidata_id)) [
    | inl e ↦ rw e (lookup_names-IsAnswer g m ks v.names (inr e))
    | inr (i, e) ↦ rw e (let (a, p, q, r) = v.ids.held m.wikidata_id i e in (a, p, inr (inl e)))
  ])
]
