-- ===== src/Wikipedia/Table/Printed.antt =====
-- pkg/wikipedia/table.go: parseTable reads back the headers and the rows of a table that is written one
-- cell a line.
use museumscraper.Prelude.{◌≢◌, Option, List, [], ◌∷◌, ◌++◌, map, All}
use museumscraper.Text.Bytes.{Bytes}
use museumscraper.Wikipedia.Table.{Reader}
use museumscraper.Wikipedia.Table.Rows.{IsCell, cell_line}

abbrev pub row_mark : Bytes
row_mark = b'|' ∷ b'-' ∷ []

abbrev pub table_start : Bytes
table_start = b'{' ∷ b'|' ∷ []

abbrev pub table_end : Bytes
table_end = b'|' ∷ b'}' ∷ []

abbrev pub print_rows : List (List Bytes) → List Bytes
print_rows [] = []
print_rows (r ∷ rs) = row_mark ∷ (map (cell_line b'|') r ++ print_rows rs)

-- A table with its header cells and its rows, and the lines behind it.
abbrev pub print_table : List Bytes → List (List Bytes) → List Bytes → List Bytes
print_table headers rows behind =
    table_start ∷ (map (cell_line b'!') headers ++ (print_rows rows ++ table_end ∷ behind))

-- A row, or the headers: at least one cell, and each of them plain.
abbrev pub IsRow : List Bytes → Type 0
IsRow r = (r ≢ []) × All IsCell r

abbrev reading : List Bytes → Option (List Bytes) → List (List Bytes) → Reader
reading current headers rows = record {
  current = current;
  headers = headers;
  rows = rows;
  depth = 1;
}
