-- ===== src/Wikipedia/Extractor/Found.antt =====
-- pkg/wikipedia/extractor.go: Extract ends, and what it finds.
use museumscraper.Prelude.{
  ℕ, zero, suc, ◌+◌, ◌-◌, ◌≤◌, ◌<◌, ◌≡◌, refl, sym, ap, inl, inr, true, false, not, ◌&&◌, Option,
  some, List, [], ◌∷◌, ◌++◌, arith, ltb, leb, ◌==◌, Bool-cases, Option-cases, length, get_elem?,
  All, drop,
}
use museumscraper.Prelude.{All-append}
use mathlib.Core.Path.{subst}
use museumscraper.Text.Bytes.{Bytes, trim, has_prefix, among}
use museumscraper.Text.Distinct.{IsDistinct, IsDistinct-append}
use museumscraper.Wikipedia.Table.{parse_table, classify_columns}
use museumscraper.Wikipedia.Table.Rows.{parse_table-end}
use museumscraper.Wikipedia.Extractor.{
  sections_to_skip, Section, Listed, Markup, Page, new_page, titles, cell_at, list_title,
  is_museum_list_title, included, note_nested_list, add_candidate, enter_section, note_links,
  or_scope, add_rows, is_group_header, nearest, above_only, read_item, read_table, read_page,
  extract,
}

module _ (m : Markup) where
  -- A candidate is no list page, and is not on the blocklist.
  abbrev pub IsCandidate : Bytes → Type 0
  IsCandidate title = (list_title m title ≡ false) × (included m m.blocklisted title ≡ true)

  -- No title is found twice; a candidate is no list, and a nested list is a list of museums.
  pub record IsPage (p : Page) : Type 0 where
    pub once : IsDistinct (titles p.candidates)
    pub lists_once : IsDistinct p.nested_lists
    pub museums : All IsCandidate (titles p.candidates)
    pub lists : All (λ t. is_museum_list_title m t ≡ true) p.nested_lists

  titles-append :
      (es : List Listed) (x : Listed) → titles (es ++ x ∷ []) ≡ titles es ++ x.title ∷ []
  titles-append [] x = refl
  titles-append (y ∷ es) x = ap (λ ts. y.title ∷ ts) (titles-append es x)

  note_nested_list-IsPage : (t : Bytes) (p : Page) → IsPage p → IsPage (note_nested_list m t p)
  unfolding note_nested_list
  note_nested_list-IsPage t p v =
      elim (Bool-cases (is_museum_list_title m t && not (among p.nested_lists t))) [
        | inl y ↦
            rw (note_nested_list, y)
              (record {
                once = v.once;
                lists_once = IsDistinct-append p.nested_lists t (ground (arith, y)) v.lists_once;
                museums = v.museums;
                lists =
                    All-append (λ x. is_museum_list_title m x ≡ true) p.nested_lists t v.lists
                      (ground (arith, y));
              })
        | inr n ↦ rw (note_nested_list, n) v
      ]

  add_candidate-IsPage :
      (t locality : Bytes) (p : Page) → IsPage p → IsPage (add_candidate m t locality p)
  unfolding add_candidate
  add_candidate-IsPage t locality p v = elim (Bool-cases (included m m.blocklisted t)) [
    | inr out ↦ rw (add_candidate, out) v
    | inl kept ↦ elim (Bool-cases (list_title m t)) [
      | inl y ↦ rw (add_candidate, kept, y) (note_nested_list-IsPage t p v)
      | inr n ↦ elim (Bool-cases (among (titles p.candidates) t)) [
        | inl y ↦ rw (add_candidate, kept, n, y) v
        | inr new ↦
            let x : Listed = record { title = t; locality = locality } in
            let same = sym (titles-append p.candidates x) in
            rw (add_candidate, kept, n, new)
              (record {
                once = subst IsDistinct same (IsDistinct-append (titles p.candidates) t new v.once);
                lists_once = v.lists_once;
                museums =
                    subst (All IsCandidate) same
                      (All-append IsCandidate (titles p.candidates) t v.museums (n, kept));
                lists = v.lists;
              })
      ]
    ]
  ]

  -- The fields that the rest of the loop changes do not matter.
  IsPage-scope :
      (p : Page) (level : ℕ) (scope : Bytes) (localities : ℕ → Option Bytes)
      → IsPage p
      → IsPage (record p { skip_to_level = level; heading_scope = scope; localities = localities })
  IsPage-scope p level scope localities v = record {
    once = v.once;
    lists_once = v.lists_once;
    museums = v.museums;
    lists = v.lists;
  }

  enter_section-IsPage : (h : Section) (p : Page) → IsPage p → IsPage (enter_section m h p)
  unfolding enter_section
  enter_section-IsPage h p v = elim (Bool-cases (among sections_to_skip (m.lower h.name))) [
    | inl y ↦ rw (enter_section, y) (IsPage-scope p _ _ _ v)
    | inr n ↦ elim (Bool-cases (ltb 0 p.skip_to_level)) [
      | inr out ↦ rw (enter_section, n, out) (IsPage-scope p _ _ _ v)
      | inl inside ↦ elim (Bool-cases (leb h.level p.skip_to_level)) [
        | inl y ↦ rw (enter_section, n, inside, y) (IsPage-scope p _ _ _ v)
        | inr deeper ↦ rw (enter_section, n, inside, deeper) (IsPage-scope p _ _ _ v)
      ]
    ]
  ]

  note_links-IsPage : (ts : List Bytes) (p : Page) → IsPage p → IsPage (note_links m ts p)
  unfolding note_links
  note_links-IsPage [] p v = v
  note_links-IsPage (t ∷ ts) p v =
      note_links-IsPage ts (note_nested_list m t p) (note_nested_list-IsPage t p v)

  add_rows-IsPage :
      (name locality : Option ℕ) (rows : List (List Bytes)) (p : Page)
      → IsPage p
      → IsPage (add_rows m name locality rows p)
  unfolding add_rows
  add_rows-IsPage name locality [] p v = v
  add_rows-IsPage name locality (row ∷ rows) p v =
      let t = m.first_article_link (cell_at row name) in
      let place = or_scope m (m.link_or_text (cell_at row locality)) p.heading_scope in
      elim (Bool-cases (length t == 0)) [
        | inl y ↦ rw (add_rows, y) (add_rows-IsPage name locality rows p v)
        | inr n ↦
            rw (add_rows, n)
              (add_rows-IsPage name locality rows (add_candidate m t place p)
                (add_candidate-IsPage t place p v))
      ]

  read_item-IsPage :
      (depth : ℕ) (body : Bytes) (behind : List Bytes) (p : Page)
      → IsPage p
      → IsPage (read_item m depth body behind p)
  unfolding read_item
  read_item-IsPage depth body behind p v =
      let t = m.entry_title body in
      let q = record p { localities = above_only m depth p.localities } in
      let same = IsPage-scope p p.skip_to_level p.heading_scope q.localities v in
      elim (Bool-cases (is_group_header m behind depth)) [
        | inl y ↦ rw (read_item, y) (IsPage-scope p _ _ _ v)
        | inr n ↦ elim (Bool-cases (length t == 0)) [
          | inl y ↦ rw (read_item, n, y) same
          | inr full ↦
              rw (read_item, n, full)
                (add_candidate-IsPage t (nearest m (depth - 1) q.localities q.heading_scope) q same)
        ]
      ]

  read_table-IsPage :
      (lines : List Bytes) (i : ℕ) (p : Page) → IsPage p → IsPage (read_table m lines i p)
  unfolding read_table
  read_table-IsPage lines i p v =
      let t = parse_table lines i in
      let columns = classify_columns (λ h. m.lower (m.plain_text h)) t.headers in
      add_rows-IsPage (some columns.0) columns.1 t.rows p v

  get_elem?-bound :
      (lines : List Bytes) (i : ℕ) (l : Bytes) → get_elem? lines i ≡ some l → i < length lines
  get_elem?-bound [] i l h = absurd (ground (arith, h))
  get_elem?-bound (x ∷ lines) zero l h = omega arith
  get_elem?-bound (x ∷ lines) (suc i) l h = omega (arith, get_elem?-bound lines i l h)

  -- The loop gives a page.
  abbrev pub Gives : Option Page → Type 0
  Gives o = (p : Page) × (o ≡ some p) × IsPage p

  read_page-Gives :
      (fuel : ℕ) (lines : List Bytes) (i : ℕ) (p : Page)
      → length lines ≤ i + fuel
      → IsPage p
      → Gives (read_page m fuel lines i p)
  unfolding read_page
  read_page-Gives zero lines i p h v =
      let past : ltb i (length lines) ≡ false = ground (arith, h) in
      rw (read_page, past) (p, refl, v)
  read_page-Gives (suc fuel) lines i p h v = elim (Option-cases (get_elem? lines i)) [
    | inl e ↦ rw (read_page, e) (p, refl, v)
    | inr (line, e) ↦
        let t = trim line in
        let go =
          λ (q : Page) (w : IsPage q). read_page-Gives fuel lines (i + 1) q (omega (arith, h)) w in
        elim (Option-cases (m.heading t)) [
          | inr (s, y) ↦
              rw (read_page, e, y) (go (enter_section m s p) (enter_section-IsPage s p v))
          | inl none_here ↦ elim (Bool-cases (ltb 0 p.skip_to_level)) [
            | inl y ↦
                rw (read_page, e, none_here, y)
                  (go (note_links m (m.article_links t) p)
                    (note_links-IsPage (m.article_links t) p v))
            | inr n ↦ elim (Bool-cases (has_prefix t (b'{' ∷ b'|' ∷ []))) [
              | inl y ↦
                  let bound = get_elem?-bound lines i line e in
                  let (after, _) = parse_table-end lines i bound in
                  rw (read_page, e, none_here, n, y)
                    (read_page-Gives fuel lines ((parse_table lines i).end_line + 1)
                      (read_table m lines i p) (omega (arith, h, after))
                      (read_table-IsPage lines i p v))
              | inr text ↦ elim (Option-cases (m.marker t)) [
                | inl k ↦ rw (read_page, e, none_here, n, text, k) (go p v)
                | inr (found, k) ↦
                    let behind = drop (i + 1) lines in
                    rw (read_page, e, none_here, n, text, k)
                      (go (read_item m found.0 found.1 behind p)
                        (read_item-IsPage found.0 found.1 behind p v))
              ]
            ]
          ]
        ]
  ]

-- Every page is read to its end, with a round of the loop for each line at most, though a table moves it
-- on by many: no title is found twice, no candidate is a list page or on the blocklist, and every nested
-- list is a list of museums.
pub extract-IsPage :
    (m : Markup) (lines : List Bytes) → (p : Page) × (extract m lines ≡ some p) × IsPage m p
unfolding extract
extract-IsPage m lines =
    read_page-Gives m (length lines) lines 0 new_page (omega arith)
      (record { once = tt; lists_once = tt; museums = tt; lists = tt })
