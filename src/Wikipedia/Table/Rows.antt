-- ===== src/Wikipedia/Table/Rows.antt =====
-- pkg/wikipedia/table.go: parseTable ends within the page, and reads back a table that is written one
-- cell a line.
use museumscraper.Prelude.{
  ℕ, zero, suc, ◌+◌, ◌-◌, ◌≤◌, ◌<◌, ◌≡◌, refl, sym, ap, ◌∙◌, ◌⊎◌, inl, inr, Bool, true, false, not,
  ◌||◌, List, [], ◌∷◌, ◌++◌, arith, ◌==◌, if◌then◌else◌, Bool-cases, length, All, drop,
}
use mathlib.Core.List.{append_assoc, append-nil}
use museumscraper.Text.Bytes.{Bytes, has_prefix, is_space, all_space, trim_left, trim_right, trim}
use museumscraper.Wikipedia.Table.{
  move, passes, inside, split_from, split_outside_markup, edge, content_from, cell_content,
  split_cells, cells, kind, Reader, fresh_reader, read_line, ends, read_lines, parse_table,
}

read_lines-end :
    (i : ℕ) (t : Reader) (ls : List Bytes)
    → 0 < i
    → (i ≤ (read_lines i t ls).end_line + 1) × ((read_lines i t ls).end_line < i + length ls)
unfolding read_lines
read_lines-end i t [] h = (omega arith, omega arith)
read_lines-end i t (l ∷ ls) h =
    let s = trim l in
    let next = read_line (kind t.depth s) s t in
    elim (Bool-cases (ends (kind t.depth s) t.depth)) [
      | inl y ↦ rw (read_lines, y) (omega arith, omega arith)
      | inr n ↦
          let (a, b) = read_lines-end (i + 1) next ls (omega arith) in
          rw (read_lines, n) (omega arith, omega arith)
    ]

length-drop {ℓ} : {A : Type ℓ} (n : ℕ) (xs : List A) → length (drop n xs) ≡ length xs - n
length-drop zero xs = omega arith
length-drop (suc n) [] = omega arith
length-drop (suc n) (x ∷ xs) = let ih = length-drop n xs in omega arith

-- The line at which a table ends is on the page, at or after the one where it starts, closed or not: the
-- loop over a page that goes on behind it ends.
pub parse_table-end :
    (lines : List Bytes) (start : ℕ)
    → start < length lines
    → (start ≤ (parse_table lines start).end_line)
      × ((parse_table lines start).end_line < length lines)
unfolding parse_table
parse_table-end lines start h =
    let (a, b) = read_lines-end (start + 1) fresh_reader (drop (start + 1) lines) (omega arith) in
    let n = length-drop (start + 1) lines in (omega arith, omega arith)

-- A character that is no part of the markup.
abbrev pub is_plain : ℕ → Bool
is_plain c = not (c == b'|' || c == b'!' || c == b'[' || c == b']' || c == b'{' || c == b'}')

-- A cell's text: no markup, and no white space at its ends.
pub record IsCell (a : Bytes) : Type 0 where
  pub plain : All (λ c. is_plain c ≡ true) a
  pub left : trim_left a ≡ a
  pub right : trim_right a ≡ a
  pub full : all_space a ≡ false

move-plain :
    (sep c d : ℕ) → is_plain c ≡ true → (sep ≡ b'|') ⊎ (sep ≡ b'!') → move sep 0 0 c d ≡ passes
unfolding move
move-plain sep c d h k = ground (arith, h, k)

split_from-plain :
    (sep : ℕ) (part s : Bytes)
    → (sep ≡ b'|') ⊎ (sep ≡ b'!')
    → All (λ c. is_plain c ≡ true) s
    → split_from sep 0 0 part s ≡ (part ++ s) ∷ []
unfolding split_from
split_from-plain sep part [] k h = ap (λ p. p ∷ []) (sym (append-nil part))
split_from-plain sep part (c ∷ []) k h = refl
split_from-plain sep part (c ∷ d ∷ s) k (p, h) =
    rw (split_from, move-plain sep c d p k)
      (split_from-plain sep (part ++ c ∷ []) (d ∷ s) k h
        ∙ ap (λ p. p ∷ []) (append_assoc part (c ∷ []) (d ∷ s)))

edge-plain : (c d : ℕ) → is_plain c ≡ true → edge 0 c d ≡ inside
unfolding edge
edge-plain c d h = ground (arith, h)

content_from-plain :
    (raw : Bytes) (assigned : Bool) (s : Bytes)
    → All (λ c. is_plain c ≡ true) s
    → content_from raw 0 assigned s ≡ trim raw
unfolding content_from
content_from-plain raw assigned [] h = refl
content_from-plain raw assigned (c ∷ []) (p, h) = ground (arith, p)
content_from-plain raw assigned (c ∷ d ∷ s) (p, h) =
    rw (content_from, edge-plain c d p) (content_from-plain raw (assigned || c == b'=') (d ∷ s) h)

-- A cell on a line of its own, behind `|` or `!`.
abbrev pub cell_line : ℕ → Bytes → Bytes
cell_line mark a = mark ∷ b' ' ∷ a

pub trim-cell_line :
    (mark : ℕ) (a : Bytes)
    → (mark ≡ b'|') ⊎ (mark ≡ b'!')
    → IsCell a
    → trim (cell_line mark a) ≡ cell_line mark a
unfolding trim all_space is_space
trim-cell_line mark a k v = ground (arith, k, v.right, v.full)

trim_cell : (a : Bytes) → IsCell a → trim (b' ' ∷ a) ≡ a
unfolding trim is_space
trim_cell a v = rw v.left v.right

pub split_cells-cell_line :
    (mark : ℕ) (a : Bytes)
    → (mark ≡ b'|') ⊎ (mark ≡ b'!')
    → IsCell a
    → split_cells (cell_line mark a) ≡ a ∷ []
unfolding split_cells split_outside_markup cell_content
split_cells-cell_line mark a k v =
    let sep = if mark == b'!' then b'!' else b'|' in
    let one : split_from sep 0 0 [] (b' ' ∷ a) ≡ (b' ' ∷ a) ∷ [] =
      split_from-plain sep [] (b' ' ∷ a) (ground (arith, k)) (refl, v.plain) in
    rw one (
      ap (λ c. c ∷ [])
        (content_from-plain (b' ' ∷ a) false (b' ' ∷ a) (refl, v.plain) ∙ trim_cell a v))

pub kind-cell_line :
    (mark : ℕ) (a : Bytes) → (mark ≡ b'|') ⊎ (mark ≡ b'!') → kind 1 (cell_line mark a) ≡ cells
unfolding kind has_prefix
kind-cell_line mark a k = ground (arith, k)
