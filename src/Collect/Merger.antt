-- ===== src/Collect/Merger.antt =====
-- internal/collect/merge.go: Merger, its lookup and its indexes.
pub mod Indexes
pub mod Lookups
pub mod Identity
use museumscraper.Prelude.{
  ℕ, zero, suc, ◌+◌, ◌-◌, ◌*◌, ◌/◌, ◌%◌, ◌^◌, ◌≤◌, ◌<◌, min, max, String, ◌≡◌, refl, sym, ap, ◌∙◌,
  ◌≢◌, ◌↔◌, ◌⊎◌, inl, inr, Bool, true, false, not, ◌&&◌, ◌||◌, Option, none, some, List, [], ◌∷◌,
  ◌++◌, map, arith, ltb, leb, ◌==◌, if◌then◌else◌, ltb→lt, lt→ltb, leb→le, ==_iff, Bool-cases,
  Option-cases, length, get_elem?, set, length-append, length-set, get_elem?-set_self,
  get_elem?-set_ne, All, take, drop, dec_lt, ℕ_discrete,
}
use text.Mathlib.Text.{◌==◌ as str_eq}
use museumscraper.Prelude.Maps.{assign}
use museumscraper.Collect.{Museum, Unicode, clean_name, name_keys}
use museumscraper.Collect.Merge.{merge_into}

pub record Merger : Type 0 where
  pub by_wikidata : String → Option ℕ
  pub by_name : String → Option ℕ
  pub ambiguous : String → Bool
  pub museums : List Museum
  pub merged : ℕ

abbrev pub new_merger : Merger
new_merger = record {
  by_wikidata = λ w. none;
  by_name = λ k. none;
  ambiguous = λ k. false;
  museums = [];
  merged = 0;
}

-- What lookup returns; an index out of range is a panic.
pub data Found : Type 0 where
  absent out_of_range : Found
  found_at : ℕ → Found

-- A name is no evidence against two different Wikidata ids.
abbrev pub agrees : Museum → Museum → Bool
agrees existing m =
    str_eq existing.wikidata_id ""
    || str_eq m.wikidata_id ""
    || str_eq existing.wikidata_id m.wikidata_id

abbrev pub match_at : Option Museum → Museum → ℕ → Found → Found
match_at none m i rest = out_of_range
match_at (some existing) m i rest = if agrees existing m then found_at i else rest

abbrev pub match_name : Merger → Museum → Option ℕ → Found → Found
match_name g m none rest = rest
match_name g m (some i) rest = match_at (get_elem? g.museums i) m i rest

-- The loop of lookup over the keys.
unfoldable pub lookup_names : Merger → Museum → List String → Found
lookup_names g m [] = absent
lookup_names g m (k ∷ ks) =
    let rest = lookup_names g m ks in
    if g.ambiguous k then rest else match_name g m (g.by_name k) rest

abbrev pub lookup_id : Option ℕ → Found → Found
lookup_id none rest = rest
lookup_id (some i) rest = found_at i

unfoldable pub lookup : Merger → Museum → List String → Found
unfolding lookup_names
lookup g m ks =
    if str_eq m.wikidata_id ""
    then lookup_names g m ks
    else lookup_id (g.by_wikidata m.wikidata_id) (lookup_names g m ks)

-- The switch of index, for one key.
unfoldable pub index_name : ℕ → String → Option ℕ → Merger → Merger
index_name i k none g = record g { by_name = assign k i g.by_name }
index_name i k (some owner) g =
    if owner == i
    then g
    else record g { ambiguous = λ j. if str_eq k j then true else g.ambiguous j }

unfoldable pub index_names : ℕ → List String → Merger → Merger
unfolding index_name
index_names i [] g = g
index_names i (k ∷ ks) g = index_names i ks (index_name i k (g.by_name k) g)

module _ (u : Unicode) where
  unfoldable pub index : ℕ → Museum → List String → Merger → Merger
  unfolding index_names
  index i m keys g = index_names i (keys ++ name_keys u m) (
      if str_eq m.wikidata_id ""
      then g
      else record g { by_wikidata = assign m.wikidata_id i g.by_wikidata })

  unfoldable pub cleaned : Museum → Museum
  cleaned m = record m {
    name = clean_name u m.name;
    also_known_as = map (clean_name u) m.also_known_as;
  }

  -- The branch of Add for a record that matches the museum at an index.
  unfoldable pub fold_at : Option Museum → ℕ → Museum → List String → Merger → Option Merger
  unfolding merge_into index
  fold_at none i m keys g = none
  fold_at (some dst) i m keys g =
      let both = merge_into u dst m in
      let stored = index i both keys (record g { museums = set g.museums i both }) in
      some (record stored { merged = g.merged + 1 })

  -- Add for a cleaned record, once it has been looked up; none is a panic.
  unfoldable pub add_found : Found → Museum → List String → Merger → Option Merger
  unfolding fold_at
  add_found out_of_range m keys g = none
  add_found (found_at i) m keys g = fold_at (get_elem? g.museums i) i m keys g
  add_found absent m keys g =
      some (index (length g.museums) m keys (record g { museums = g.museums ++ m ∷ [] }))

  unfoldable pub add : Museum → Merger → Option Merger
  unfolding cleaned lookup add_found
  add m g =
      let m' = cleaned m in let keys = name_keys u m' in add_found (lookup g m' keys) m' keys g

  unfoldable pub add_all : List Museum → Merger → Option Merger
  unfolding add
  add_all [] g = some g
  add_all (m ∷ ms) g = elim (add m g) [ none ↦ none | some g' ↦ add_all ms g' ]

-- Stats: how many museums are held, and how many records were folded into one.
abbrev pub stats : Merger → ℕ × ℕ
stats g = (length g.museums, g.merged)
