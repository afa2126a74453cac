-- ===== src/Wikipedia/Table.antt =====
-- pkg/wikipedia/table.go: wikitables, line by line. What ToLower and plainText make of a header cell is
-- an argument.
pub mod Split
pub mod Rows
pub mod Printed
use museumscraper.Prelude.{
  ℕ, zero, suc, ◌+◌, ◌-◌, ◌*◌, ◌/◌, ◌%◌, ◌^◌, ◌≤◌, ◌<◌, min, max, String, ◌≡◌, refl, sym, ap, ◌∙◌,
  ◌≢◌, ◌↔◌, ◌⊎◌, inl, inr, Bool, true, false, not, ◌&&◌, ◌||◌, Option, none, some, List, [], ◌∷◌,
  ◌++◌, map, arith, ltb, leb, ◌==◌, if◌then◌else◌, ltb→lt, lt→ltb, leb→le, ==_iff, Bool-cases,
  Option-cases, length, get_elem?, set, length-append, length-set, get_elem?-set_self,
  get_elem?-set_ne, All, take, drop, dec_lt, ℕ_discrete,
}
use museumscraper.Text.Bytes.{Bytes, codes, equal, has_prefix, contains, trim}

-- The cases of splitOutsideMarkup's switch for the two characters at a place: past both of them with new
-- values of `link` and `tmpl`, a separator, or past the first. Its separator is one character twice,
-- `||` or `!!`.
pub data Move : Type 0 where
  jumps : (link template : ℕ) → Move
  separates passes : Move

unfoldable pub move : (sep link template : ℕ) → ℕ → ℕ → Move
move sep link template c d =
    if c == b'[' && d == b'['
    then jumps (link + 1) template
    else if c == b']' && d == b']' && ltb 0 link
    then jumps (link - 1) template
    else if c == b'{' && d == b'{'
    then jumps link (template + 1)
    else if c == b'}' && d == b'}' && ltb 0 template
    then jumps link (template - 1)
    else if link == 0 && template == 0 && c == sep && d == sep
    then separates
    else passes

-- The loop, with the part that it is in.
unfoldable pub split_from : (sep link template : ℕ) → Bytes → Bytes → List Bytes
unfolding move
split_from sep link template part [] = part ∷ []
split_from sep link template part (c ∷ []) = (part ++ c ∷ []) ∷ []
split_from sep link template part (c ∷ d ∷ s) = elim (move sep link template c d) [
  | jumps l t ↦ split_from sep l t (part ++ c ∷ d ∷ []) s
  | separates ↦ part ∷ split_from sep link template [] s
  | passes ↦ split_from sep link template (part ++ c ∷ []) (d ∷ s)
]

unfoldable pub split_outside_markup : Bytes → ℕ → List Bytes
unfolding split_from
split_outside_markup s sep = split_from sep 0 0 [] s

-- The cases of cellContent's switch: past two characters with a new depth, a `|` outside markup, or
-- past one character.
pub data Edge : Type 0 where
  crosses : (depth : ℕ) → Edge
  bar inside : Edge

unfoldable pub edge : (depth : ℕ) → ℕ → ℕ → Edge
edge depth c d =
    if (c == b'[' && d == b'[') || (c == b'{' && d == b'{')
    then crosses (depth + 1)
    else if (c == b']' && d == b']') || (c == b'}' && d == b'}')
    then crosses (depth - 1)
    else if depth == 0 && c == b'|'
    then bar
    else inside

-- What is returned at a `|` outside markup, `assigned` telling whether a `=` stands before it.
abbrev pub at_bar : Bytes → Bool → Bytes → Bytes
at_bar raw assigned rest = if assigned then trim rest else trim raw

unfoldable pub content_from : Bytes → (depth : ℕ) → (assigned : Bool) → Bytes → Bytes
unfolding trim edge
content_from raw depth assigned [] = trim raw
content_from raw depth assigned (c ∷ []) =
    if depth == 0 && c == b'|' then at_bar raw assigned [] else trim raw
content_from raw depth assigned (c ∷ d ∷ s) = elim (edge depth c d) [
  | crosses n ↦ content_from raw n assigned s
  | bar ↦ at_bar raw assigned (d ∷ s)
  | inside ↦ content_from raw depth (assigned || c == b'=') (d ∷ s)
]

unfoldable pub cell_content : Bytes → Bytes
unfolding content_from
cell_content raw = content_from raw 0 false raw

-- splitCells takes the first character off; an empty line, which it is never given, would be a panic.
unfoldable pub split_cells : Bytes → List Bytes
unfolding split_outside_markup cell_content
split_cells [] = []
split_cells (c ∷ body) =
    map cell_content (split_outside_markup body (if c == b'!' then b'!' else b'|'))

-- The cases of parseTable's switch, in its order.
pub data Line : Type 0 where
  nested closing deeper row caption cells blank continued : Line

unfoldable pub kind : (depth : ℕ) → Bytes → Line
unfolding has_prefix
kind depth s =
    if has_prefix s (b'{' ∷ b'|' ∷ [])
    then nested
    else if has_prefix s (b'|' ∷ b'}' ∷ [])
    then closing
    else if ltb 1 depth
    then deeper
    else if has_prefix s (b'|' ∷ b'-' ∷ [])
    then row
    else if has_prefix s (b'|' ∷ b'+' ∷ [])
    then caption
    else if has_prefix s (b'|' ∷ []) || has_prefix s (b'!' ∷ [])
    then cells
    else elim s [ [] ↦ blank | _ ∷ _ ↦ continued ]

-- The variables of parseTable; no headers yet is none.
pub record Reader : Type 0 where
  pub current : List Bytes
  pub headers : Option (List Bytes)
  pub rows : List (List Bytes)
  pub depth : ℕ

abbrev pub fresh_reader : Reader
fresh_reader = record { current = []; headers = none; rows = []; depth = 1 }

-- flushRow
abbrev pub flush_cells : List Bytes → Option (List Bytes) → Reader → Reader
flush_cells [] h t = t
flush_cells (c ∷ cs) none t = record t { headers = some (c ∷ cs); current = [] }
flush_cells (c ∷ cs) (some h) t = record t { rows = t.rows ++ (c ∷ cs) ∷ []; current = [] }

unfoldable pub flush_row : Reader → Reader
flush_row t = flush_cells t.current t.headers t

-- `current[len(current)-1] += "\n" + trimmed`, if there is a cell.
unfoldable pub extend_last : Bytes → List Bytes → List Bytes
extend_last s [] = []
extend_last s (c ∷ []) = (c ++ b'\n' ∷ s) ∷ []
extend_last s (c ∷ d ∷ cs) = c ∷ extend_last s (d ∷ cs)

abbrev pub extend : Bytes → Reader → Reader
extend s t = record t { current = extend_last s t.current }

-- What a line that does not end the table does.
unfoldable pub read_line : Line → Bytes → Reader → Reader
unfolding flush_row extend_last split_cells
read_line nested s t = extend s (record t { depth = t.depth + 1 })
read_line closing s t = extend s (record t { depth = t.depth - 1 })
read_line deeper s t = extend s t
read_line row s t = flush_row t
read_line caption s t = t
read_line cells s t = record t { current = t.current ++ split_cells s }
read_line blank s t = t
read_line continued s t = extend s t

pub record Table : Type 0 where
  pub rows : List (List Bytes)
  pub headers : List Bytes
  pub end_line : ℕ

abbrev pub or_none : Option (List Bytes) → List Bytes
or_none none = []
or_none (some h) = h

abbrev pub finish : ℕ → Reader → Table
finish i t =
    let f = flush_row t in record { rows = f.rows; headers = or_none f.headers; end_line = i }

-- Whether a line closes the outermost table.
abbrev pub ends : Line → ℕ → Bool
ends closing depth = depth == 1
ends _ depth = false

-- The loop from line `i`, over the lines that are left.
unfoldable pub read_lines : ℕ → Reader → List Bytes → Table
unfolding kind read_line trim
read_lines i t [] = finish (i - 1) t
read_lines i t (l ∷ ls) =
    let s = trim l in
    let k = kind t.depth s in
    elim (ends k t.depth) [ true ↦ finish i t | false ↦ read_lines (i + 1) (read_line k s t) ls ]

-- parseTable, for the table that starts at lines[start].
unfoldable pub parse_table : List Bytes → ℕ → Table
unfolding read_lines
parse_table lines start = read_lines (start + 1) fresh_reader (drop (start + 1) lines)

-- indexContaining
unfoldable pub index_containing : List Bytes → Bytes → Option ℕ
unfolding contains
index_containing [] sub = none
index_containing (v ∷ vs) sub =
    let rest = index_containing vs sub in
    if contains v sub then some 0 else (elim rest [ none ↦ none | some i ↦ some (i + 1) ])

abbrev pub name_column_hints : List Bytes
name_column_hints = map codes ("name" ∷ "museum" ∷ "title" ∷ "institution" ∷ [])

abbrev pub locality_column_hints : List Bytes
locality_column_hints = map codes (
    "location" ∷ "city" ∷ "town" ∷ "place" ∷ "locality" ∷ "municipality" ∷ "settlement" ∷ "region"
    ∷ "county" ∷ "province" ∷ "district" ∷ "state" ∷ [])

-- The first loop of classifyColumns, and the second, which passes over the name's column.
unfoldable pub name_column : List Bytes → List Bytes → ℕ
unfolding index_containing
name_column normalized [] = 0
name_column normalized (hint ∷ hints) =
    let rest = name_column normalized hints in
    elim (index_containing normalized hint) [ none ↦ rest | some i ↦ i ]

unfoldable pub locality_column : List Bytes → ℕ → List Bytes → Option ℕ
unfolding index_containing
locality_column normalized name_col [] = none
locality_column normalized name_col (hint ∷ hints) =
    let rest = locality_column normalized name_col hints in
    elim (index_containing normalized hint) [
      | none ↦ rest
      | some i ↦ if i == name_col then rest else some i
    ]

-- classifyColumns, where `plain` is ToLower of plainText.
unfoldable pub classify_columns : (Bytes → Bytes) → List Bytes → ℕ × Option ℕ
unfolding name_column locality_column
classify_columns plain headers =
    let normalized = map plain headers in
    let name_col = name_column normalized name_column_hints in
    (name_col, locality_column normalized name_col locality_column_hints)
