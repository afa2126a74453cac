-- ===== src/Collect/Merger/Identity.antt =====
-- internal/collect/merge.go: Add keeps one record for each Wikidata id, and its indexes never lead
-- outside the list of museums.
use museumscraper.Prelude.{
  ℕ, ◌+◌, ◌<◌, String, ◌≡◌, refl, sym, ap, ◌∙◌, ◌≢◌, inl, inr, Option, none, some, List, [], ◌∷◌,
  ◌++◌, arith, ◌==◌, Bool-cases, Option-cases, length, get_elem?, set, length-append, length-set,
}
use mathlib.Core.Path.{subst}
use text.Mathlib.Text.{◌==◌ as str_eq}
use museumscraper.Prelude.Maps.{assign}
use museumscraper.Collect.{Museum, Unicode, name_keys}
use museumscraper.Collect.Merge.{merge_into}
use museumscraper.Collect.Merger.{
  Merger, new_merger, Found, absent, out_of_range, found_at, lookup, index_name, index_names, index,
  cleaned, fold_at, add_found, add, add_all,
}
use museumscraper.Collect.Merger.Indexes.{
  IsIdIndex, IsWithin, with_id, place_of, get-lt, IsIdIndex-append, IsIdIndex-set,
}
use museumscraper.Collect.Merger.Lookups.{IsIndexed, IsAnswer, lookup-IsAnswer}

index_name-same :
    (i : ℕ) (k : String) (o : Option ℕ) (g : Merger)
    → ((index_name i k o g).by_wikidata ≡ g.by_wikidata)
      × ((index_name i k o g).museums ≡ g.museums)
      × ((index_name i k o g).merged ≡ g.merged)
unfolding index_name
index_name-same i k none g = (refl, refl, refl)
index_name-same i k (some owner) g = elim (Bool-cases (owner == i)) [
  | inl y ↦ rw y (refl, refl, refl)
  | inr f ↦ rw f (refl, refl, refl)
]

index_names-same :
    (i : ℕ) (ks : List String) (g : Merger)
    → ((index_names i ks g).by_wikidata ≡ g.by_wikidata)
      × ((index_names i ks g).museums ≡ g.museums)
      × ((index_names i ks g).merged ≡ g.merged)
unfolding index_names
index_names-same i [] g = (refl, refl, refl)
index_names-same i (k ∷ ks) g =
    let (a, b, c) = index_name-same i k (g.by_name k) g in
    let (a', b', c') = index_names-same i ks (index_name i k (g.by_name k) g) in
    (a' ∙ a, b' ∙ b, c' ∙ c)

index_name-IsWithin :
    (i n : ℕ) (k : String) (o : Option ℕ) (g : Merger)
    → i < n
    → IsWithin n g.by_name
    → IsWithin n (index_name i k o g).by_name
unfolding index_name
index_name-IsWithin i n k none g h v j x e = ground (arith, h, v j x)
index_name-IsWithin i n k (some owner) g h v j x e = ground (arith, v j x)

index_names-IsWithin :
    (i n : ℕ) (ks : List String) (g : Merger)
    → i < n
    → IsWithin n g.by_name
    → IsWithin n (index_names i ks g).by_name
unfolding index_names
index_names-IsWithin i n [] g h v = v
index_names-IsWithin i n (k ∷ ks) g h v =
    index_names-IsWithin i n ks (index_name i k (g.by_name k) g) h
      (index_name-IsWithin i n k (g.by_name k) g h v)

-- A merger after one more record: no panic, valid, with one more museum or one more record folded in.
abbrev pub IsNext : Merger → Option Merger → Type 0
IsNext g none = ⊥
IsNext g (some g') =
    IsIndexed g' × (length g'.museums + g'.merged ≡ length g.museums + g.merged + 1)

-- What a run of Add leads to: no panic, valid indexes, and a record counted for each one added.
abbrev pub IsMerged : ℕ → Option Merger → Type 0
IsMerged n none = ⊥
IsMerged n (some g) = IsIndexed g × (length g.museums + g.merged ≡ n)

module _ (u : Unicode) where
  index-same :
      (i : ℕ) (m : Museum) (ks : List String) (g : Merger)
      → ((index u i m ks g).by_wikidata ≡ with_id m.wikidata_id i g.by_wikidata)
        × ((index u i m ks g).museums ≡ g.museums)
        × ((index u i m ks g).merged ≡ g.merged)
  unfolding index
  index-same i m ks g = elim (Bool-cases (str_eq m.wikidata_id "")) [
    | inl y ↦ rw y (index_names-same i (ks ++ name_keys u m) g)
    | inr f ↦ rw f (
        index_names-same i (ks ++ name_keys u m)
          (record g { by_wikidata = assign m.wikidata_id i g.by_wikidata }))
  ]

  index-IsWithin :
      (i n : ℕ) (m : Museum) (ks : List String) (g : Merger)
      → i < n
      → IsWithin n g.by_name
      → IsWithin n (index u i m ks g).by_name
  unfolding index
  index-IsWithin i n m ks g h v = elim (Bool-cases (str_eq m.wikidata_id "")) [
    | inl y ↦ rw y (index_names-IsWithin i n (ks ++ name_keys u m) g h v)
    | inr f ↦ rw f (
        index_names-IsWithin i n (ks ++ name_keys u m)
          (record g { by_wikidata = assign m.wikidata_id i g.by_wikidata }) h v)
  ]

  index-IsIndexed :
      (i : ℕ) (m : Museum) (ks : List String) (g : Merger)
      → i < length g.museums
      → IsIdIndex (with_id m.wikidata_id i g.by_wikidata) g.museums
      → IsWithin (length g.museums) g.by_name
      → IsIndexed (index u i m ks g)
  index-IsIndexed i m ks g h v w =
      let (a, b, c) = index-same i m ks g in
      record {
        ids =
            subst (λ x. IsIdIndex x (index u i m ks g).museums) (sym a)
              (subst (λ x. IsIdIndex (with_id m.wikidata_id i g.by_wikidata) x) (sym b) v);
        names =
            subst (λ x. IsWithin (length x) (index u i m ks g).by_name) (sym b)
              (index-IsWithin i (length g.museums) m ks g h w);
      }

  add_found-IsNext :
      (f : Found) (m : Museum) (ks : List String) (g : Merger)
      → IsIndexed g
      → IsAnswer g m f
      → IsNext g (add_found u f m ks g)
  unfolding add_found merge_into
  add_found-IsNext out_of_range m ks g v h = absurd h
  add_found-IsNext absent m ks g v h =
      let g' : Merger = record g { museums = g.museums ++ m ∷ [] } in
      let long : length (g.museums ++ m ∷ []) ≡ length g.museums + 1 =
        length-append g.museums (m ∷ []) in
      let (a, b, c) = index-same (length g.museums) m ks g' in
      (
        index-IsIndexed (length g.museums) m ks g' (omega (arith, long))
            (IsIdIndex-append g.by_wikidata g.museums m v.ids h)
            (λ k i e. let old = v.names k i e in omega (arith, long)),
        omega (arith, ap (λ (xs : List Museum). length xs) b, long, c),
      )
  add_found-IsNext (found_at i) m ks g v (a, here, id) =
      let both = merge_into u a m in
      let g' : Merger = record g { museums = set g.museums i both } in
      let long = length-set g.museums i both in
      let (x, y, z) = index-same i both ks g' in
      let n = get-lt g.museums i a here in
      let w =
        index-IsIndexed i both ks g' (omega (arith, long))
          (IsIdIndex-set g.by_wikidata g.museums i a m both v.ids here refl id)
          (λ k j e. let old = v.names k j e in omega (arith, long)) in
      rw (fold_at, here)
        (
          record { ids = w.ids; names = w.names },
          omega (arith, ap (λ (xs : List Museum). length xs) y, long),
        )

  add-IsNext : (m : Museum) (g : Merger) → IsIndexed g → IsNext g (add u m g)
  unfolding add
  add-IsNext m g v =
      let m' = cleaned u m in
      let keys = name_keys u m' in
      add_found-IsNext (lookup g m' keys) m' keys g v (lookup-IsAnswer g m' keys v)

  add_all-some :
      (m : Museum) (ms : List Museum) (g g' : Merger)
      → add u m g ≡ some g'
      → add_all u (m ∷ ms) g ≡ add_all u ms g'
  unfolding add_all
  add_all-some m ms g g' e = ap (λ o. elim o [ none ↦ none | some x ↦ add_all u ms x ]) e

  add_all-from :
      (ms : List Museum) (g : Merger)
      → IsIndexed g
      → IsMerged (length g.museums + g.merged + length ms) (add_all u ms g)
  unfolding add_all
  add_all-from [] g v = (v, omega arith)
  add_all-from (m ∷ ms) g v = elim (Option-cases (add u m g)) [
    | inl e ↦ absurd (subst (IsNext g) e (add-IsNext m g v))
    | inr (g', e) ↦
        let (v', n) = subst (IsNext g) e (add-IsNext m g v) in
        let counted : length g'.museums + g'.merged + length ms
            ≡ length g.museums + g.merged + length (m ∷ ms) =
          omega (arith, n) in
        subst (IsMerged (length g.museums + g.merged + length (m ∷ ms)))
          (sym (add_all-some m ms g g' e))
          (subst (λ k. IsMerged k (add_all u ms g')) counted (add_all-from ms g' v'))
  ]

  -- Whatever records a run of Add is given, it does not panic; each museum with a Wikidata id is found
  -- under that id, and no other id is; and Stats counts every record once, as a museum or as merged.
  pub add_all-IsMerged : (ms : List Museum) → IsMerged (length ms) (add_all u ms new_merger)
  add_all-IsMerged ms =
      let from_nothing : 0 + 0 + length ms ≡ length ms = omega arith in
      subst (λ n. IsMerged n (add_all u ms new_merger)) from_nothing
        (add_all-from ms new_merger (record {
          ids = record { listed = λ i a e k. cc; held = λ w i e. cc };
          names = λ k i e. cc;
        }))

abbrev pub museums_of : Option Merger → List Museum
museums_of none = []
museums_of (some g) = g.museums

IsIndexed-distinct :
    (g : Merger) (i j : ℕ) (a b : Museum)
    → IsIndexed g
    → get_elem? g.museums i ≡ some a
    → get_elem? g.museums j ≡ some b
    → a.wikidata_id ≢ ""
    → a.wikidata_id ≡ b.wikidata_id
    → i ≡ j
IsIndexed-distinct g i j a b v h k full same = ap place_of (
    sym (v.ids.listed i a h full)
    ∙ ap g.by_wikidata same
    ∙ v.ids.listed j b k (λ blank. full (same ∙ blank)))

-- After any run of Add, two museums with the same Wikidata id, if it is not empty, are one.
pub add_all-distinct :
    (u : Unicode) (ms : List Museum) (i j : ℕ) (a b : Museum)
    → get_elem? (museums_of (add_all u ms new_merger)) i ≡ some a
    → get_elem? (museums_of (add_all u ms new_merger)) j ≡ some b
    → a.wikidata_id ≢ ""
    → a.wikidata_id ≡ b.wikidata_id
    → i ≡ j
add_all-distinct u ms i j a b h k full same =
    let run = add_all-IsMerged u ms in
    elim (Option-cases (add_all u ms new_merger)) [
      | inl e ↦ absurd (subst (IsMerged (length ms)) e run)
      | inr (g, e) ↦
          let v = (subst (IsMerged (length ms)) e run).0 in
          IsIndexed-distinct g i j a b v (subst (λ o. get_elem? (museums_of o) i ≡ some a) e h)
            (subst (λ o. get_elem? (museums_of o) j ≡ some b) e k) full same
    ]
