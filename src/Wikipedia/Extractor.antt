-- ===== src/Wikipedia/Extractor.antt =====
-- pkg/wikipedia/extractor.go and wikitext.go: the museums that a list page names. What the regular
-- expressions read in a line is an argument; the lines are those of the cleaned page.
pub mod Found
use museumscraper.Prelude.{
  ℕ, zero, suc, ◌+◌, ◌-◌, ◌*◌, ◌/◌, ◌%◌, ◌^◌, ◌≤◌, ◌<◌, min, max, String, ◌≡◌, refl, sym, ap, ◌∙◌,
  ◌≢◌, ◌↔◌, ◌⊎◌, inl, inr, Bool, true, false, not, ◌&&◌, ◌||◌, Option, none, some, List, [], ◌∷◌,
  ◌++◌, map, arith, ltb, leb, ◌==◌, if◌then◌else◌, ltb→lt, lt→ltb, leb→le, ==_iff, Bool-cases,
  Option-cases, length, get_elem?, set, length-append, length-set, get_elem?-set_self,
  get_elem?-set_ne, All, take, drop, dec_lt, ℕ_discrete,
}
use museumscraper.Text.Bytes.{Bytes, codes, contains, has_prefix, trim, among}
use museumscraper.Wikipedia.Classify.{starts_with, mentions, list_prefixes}
use museumscraper.Wikipedia.Table.{parse_table, classify_columns}

pub record Section : Type 0 where
  pub level : ℕ
  pub name : Bytes
  pub linked : Bool

pub record Listed : Type 0 where
  pub title : Bytes
  pub locality : Bytes

-- parseHeading, the marker and the body of a list item, the targets of the article links of a line,
-- firstArticleLink, linkOrText, entryTitle and plainText; strings.ToLower; the blocklist.
pub record Markup : Type 0 where
  pub heading : Bytes → Option Section
  pub marker : Bytes → Option (ℕ × Bytes)
  pub article_links : Bytes → List Bytes
  pub first_article_link : Bytes → Bytes
  pub link_or_text : Bytes → Bytes
  pub entry_title : Bytes → Bytes
  pub plain_text : Bytes → Bytes
  pub lower : Bytes → Bytes
  pub blocklisted : List Bytes

-- sectionsToSkip
abbrev pub sections_to_skip : List Bytes
sections_to_skip =
    codes "see also"
    ∷ codes "references"
    ∷ codes "external links"
    ∷ codes "further reading"
    ∷ codes "notes"
    ∷ codes "notes and refs"
    ∷ codes "bibliography"
    ∷ codes "sources"
    ∷ codes "citations"
    ∷ codes "footnotes"
    ∷ codes "gallery"
    ∷ codes "navigation"
    ∷ codes "related"
    ∷ codes "further resources"
    ∷ []

-- What Extract keeps. `localities` is a map from depths.
pub record Page : Type 0 where
  pub candidates : List Listed
  pub nested_lists : List Bytes
  pub skip_to_level : ℕ
  pub heading_scope : Bytes
  pub localities : ℕ → Option Bytes

abbrev pub no_localities : ℕ → Option Bytes
no_localities depth = none

abbrev pub new_page : Page
new_page = record {
  candidates = [];
  nested_lists = [];
  skip_to_level = 0;
  heading_scope = [];
  localities = no_localities;
}

abbrev pub titles : List Listed → List Bytes
titles es = map (λ (x : Listed). x.title) es

-- cellAt; the index is none for -1.
abbrev pub cell_at : List Bytes → Option ℕ → Bytes
cell_at cells none = []
cell_at [] (some i) = []
cell_at (c ∷ cells) (some zero) = c
cell_at (c ∷ cells) (some (suc i)) = cell_at cells (some i)

module _ (m : Markup) where
  abbrev pub list_title : Bytes → Bool
  list_title title = starts_with (m.lower title) list_prefixes

  unfoldable pub is_museum_list_title : Bytes → Bool
  is_museum_list_title title =
      let lower = m.lower title in
      list_title lower && mentions lower ("museum" ∷ "galler" ∷ "aquari" ∷ "planetari" ∷ [])

  unfoldable pub included : List Bytes → Bytes → Bool
  included [] title = true
  included (b ∷ bs) title = not (has_prefix title b) && included bs title

  unfoldable pub note_nested_list : Bytes → Page → Page
  note_nested_list title p = elim (is_museum_list_title title && not (among p.nested_lists title)) [
    | true ↦ record p { nested_lists = p.nested_lists ++ title ∷ [] }
    | false ↦ p
  ]

  unfoldable pub add_candidate : (title locality : Bytes) → Page → Page
  add_candidate title locality p = elim (included m.blocklisted title) [
    | false ↦ p
    | true ↦ elim (list_title title) [
      | true ↦ note_nested_list title p
      | false ↦ elim (among (titles p.candidates) title) [
        | true ↦ p
        | false ↦ record p {
          candidates = p.candidates ++ record { title = title; locality = locality } ∷ [];
        }
      ]
    ]
  ]

  abbrev pub scoped : Section → Page → Page
  scoped h p = record p { heading_scope = if h.linked then h.name else [] }

  -- The switch on a heading.
  unfoldable pub enter_section : Section → Page → Page
  enter_section h p =
      let q = record p { localities = no_localities; heading_scope = [] } in
      elim (among sections_to_skip (m.lower h.name)) [
        | true ↦ record q { skip_to_level = h.level }
        | false ↦ elim (ltb 0 p.skip_to_level) [
          | false ↦ scoped h q
          | true ↦ elim (leb h.level p.skip_to_level) [
            | true ↦ scoped h (record q { skip_to_level = 0 })
            | false ↦ q
          ]
        ]
      ]

  unfoldable pub note_links : List Bytes → Page → Page
  note_links [] p = p
  note_links (t ∷ ts) p = note_links ts (note_nested_list t p)

  abbrev pub or_scope : Bytes → Bytes → Bytes
  or_scope [] scope = scope
  or_scope (c ∷ s) scope = c ∷ s

  -- The loop over the rows of a table.
  unfoldable pub add_rows :
      (name_column locality_column : Option ℕ) → List (List Bytes) → Page → Page
  add_rows name_column locality_column [] p = p
  add_rows name_column locality_column (row ∷ rows) p =
      let title = m.first_article_link (cell_at row name_column) in
      let locality = or_scope (m.link_or_text (cell_at row locality_column)) p.heading_scope in
      add_rows name_column locality_column rows
        (elim (length title == 0) [ true ↦ p | false ↦ add_candidate title locality p ])

  -- isGroupHeader, over the lines behind the item.
  unfoldable pub is_group_header : List Bytes → ℕ → Bool
  is_group_header [] depth = false
  is_group_header (l ∷ ls) depth =
      let rest = is_group_header ls depth in
      let t = trim l in
      elim (length t == 0) [
        | true ↦ rest
        | false ↦ elim (m.marker t) [ none ↦ false | some found ↦ ltb depth found.0 ]
      ]

  -- The nearest locality above `depth` levels, if it is no empty text.
  abbrev pub nearest : (depth : ℕ) → (ℕ → Option Bytes) → Bytes → Bytes
  nearest zero localities scope = scope
  nearest (suc depth) localities scope =
      let above = nearest depth localities scope in
      elim (localities (suc depth)) [ none ↦ above | some v ↦ or_scope v above ]

  -- Localities at this depth or deeper no longer apply.
  abbrev pub above_only : ℕ → (ℕ → Option Bytes) → ℕ → Option Bytes
  above_only depth localities d = if leb depth d then none else localities d

  abbrev pub set_locality : ℕ → Bytes → (ℕ → Option Bytes) → ℕ → Option Bytes
  set_locality depth label localities d = if d == depth then some label else localities d

  -- A list item, with the lines behind it.
  unfoldable pub read_item : (depth : ℕ) → (body : Bytes) → List Bytes → Page → Page
  read_item depth body behind p =
      let q = record p { localities = above_only depth p.localities } in
      let title = m.entry_title body in
      elim (is_group_header behind depth) [
        | true ↦ record q {
          localities = set_locality depth (or_scope title (m.plain_text body)) q.localities;
        }
        | false ↦ elim (length title == 0) [
          | true ↦ q
          | false ↦ add_candidate title (nearest (depth - 1) q.localities q.heading_scope) q
        ]
      ]

  unfoldable pub read_table : List Bytes → ℕ → Page → Page
  read_table lines i p =
      let t = parse_table lines i in
      let columns = classify_columns (λ h. m.lower (m.plain_text h)) t.headers in
      add_rows (some columns.0) columns.1 t.rows p

  -- The loop over the lines, with fuel for its rounds: none when it runs out.
  unfoldable pub read_page : (fuel : ℕ) → List Bytes → (i : ℕ) → Page → Option Page
  read_page zero lines i p = elim (ltb i (length lines)) [ true ↦ none | false ↦ some p ]
  read_page (suc fuel) lines i p = elim (get_elem? lines i) [
    | none ↦ some p
    | some line ↦
        let t = trim line in
        elim (m.heading t) [
          | some h ↦ read_page fuel lines (i + 1) (enter_section h p)
          | none ↦ elim (ltb 0 p.skip_to_level) [
            | true ↦ read_page fuel lines (i + 1) (note_links (m.article_links t) p)
            | false ↦ elim (has_prefix t (b'{' ∷ b'|' ∷ [])) [
              | true ↦
                  read_page fuel lines ((parse_table lines i).end_line + 1) (read_table lines i p)
              | false ↦ elim (m.marker t) [
                | none ↦ read_page fuel lines (i + 1) p
                | some found ↦
                    read_page fuel lines (i + 1) (read_item found.0 found.1 (drop (i + 1) lines) p)
              ]
            ]
          ]
        ]
  ]

  -- Extract, with a round for each line.
  unfoldable pub extract : List Bytes → Option Page
  extract lines = read_page (length lines) lines 0 new_page
