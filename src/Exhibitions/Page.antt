-- ===== src/Exhibitions/Page.antt =====
-- pkg/exhibitions/extract.go: the text of a parsed page, its anchors and its dates. A node has what
-- the source reads of golang.org/x/net/html.
pub mod Stamps
use museumscraper.Prelude.{
  ℕ, zero, suc, ◌+◌, ◌-◌, ◌*◌, ◌/◌, ◌%◌, ◌^◌, ◌≤◌, ◌<◌, min, max, String, ◌≡◌, refl, sym, ap, ◌∙◌,
  ◌≢◌, ◌↔◌, ◌⊎◌, inl, inr, Bool, true, false, not, ◌&&◌, ◌||◌, Option, none, some, List, [], ◌∷◌,
  ◌++◌, map, arith, ltb, leb, ◌==◌, if◌then◌else◌, ltb→lt, lt→ltb, leb→le, ==_iff, Bool-cases,
  Option-cases, length, get_elem?, set, length-append, length-set, get_elem?-set_self,
  get_elem?-set_ne, All, take, drop, dec_lt, ℕ_discrete,
}
use museumscraper.Text.Bytes.{Bytes, codes, trim, equal}
use museumscraper.Exhibitions.Calendar.{Date, before, days_in}
use museumscraper.Exhibitions.Dates.{DateRange, no_range}
use museumscraper.Exhibitions.Words.{is_in}
use museumscraper.Exhibitions.Words.Cards.{skipped_elements}

-- A node with its children; `other_node` is the document, a comment or a doctype.
mutual
  pub data Node : Type 0 where
    text_node : Bytes → Node
    element_node : (name : Bytes) → (attrs : List (Bytes × Bytes)) → Nodes → Node
    other_node : Nodes → Node

  pub data Nodes : Type 0 where
    end : Nodes
    child : Node → Nodes → Nodes

-- `\s` of the regexp package.
abbrev pub is_ascii_space : ℕ → Bool
is_ascii_space c = c == 9 || c == 10 || c == 12 || c == 13 || c == 32

-- whitespaceRe.ReplaceAllString(s, " "); `run` tells that white space stands before.
unfoldable pub collapse_from : (run : Bool) → Bytes → Bytes
collapse_from run [] = []
collapse_from run (c ∷ s) = elim (is_ascii_space c) [
  | true ↦ if run then collapse_from true s else 32 ∷ collapse_from true s
  | false ↦ c ∷ collapse_from false s
]

unfoldable pub collapse : Bytes → Bytes
collapse s = collapse_from false s

abbrev pub is_invisible : ℕ → Bool
is_invisible c = c == 173 || c == 8203 || c == 8204 || c == 8205 || c == 65279

-- invisibleText.Replace
unfoldable pub show_visible : Bytes → Bytes
show_visible [] = []
show_visible (c ∷ s) = let rest = show_visible s in if is_invisible c then rest else c ∷ rest

-- The loop of attr.
unfoldable pub attr : (name : Bytes) → List (Bytes × Bytes) → Bytes
attr name [] = []
attr name ((key, value) ∷ attrs) =
    let rest = attr name attrs in if equal key name then trim (show_visible value) else rest

abbrev pub is_skipped : Bytes → Bool
is_skipped name = is_in skipped_elements name

-- walk of textOf: each text with a space after it.
unfoldable mutual
  pub raw_text : Node → Bytes
  raw_text (text_node s) = s ++ 32 ∷ []
  raw_text (element_node name attrs ns) = elim (is_skipped name) [
    | true ↦ []
    | false ↦ raw_texts ns
  ]
  raw_text (other_node ns) = raw_texts ns

  pub raw_texts : Nodes → Bytes
  raw_texts end = []
  raw_texts (child n ns) = raw_text n ++ raw_texts ns

unfoldable pub text_of : Node → Bytes
text_of n = trim (collapse (show_visible (raw_text n)))

-- An anchor, with the nodes around it from the nearest to the root.
pub record Anchor : Type 0 where
  pub attrs : List (Bytes × Bytes)
  pub node : Node
  pub parents : List Node

abbrev pub is_anchor : Bytes → Bool
is_anchor name = equal name (codes "a")

-- Every anchor, in the order of the page.
unfoldable mutual
  pub anchors : List Node → Node → List Anchor
  anchors above (text_node s) = []
  anchors above (element_node name attrs ns) =
      let here = element_node name attrs ns in
      let below = anchors_in (here ∷ above) ns in
      if is_anchor name
      then record { attrs = attrs; node = here; parents = above } ∷ below
      else below
  anchors above (other_node ns) = anchors_in (other_node ns ∷ above) ns

  pub anchors_in : List Node → Nodes → List Anchor
  anchors_in above end = []
  anchors_in above (child n ns) = anchors above n ++ anchors_in above ns

pub record Link : Type 0 where
  pub href : Bytes
  pub label : Bytes

-- forEachAnchor: the anchors with an href.
unfoldable pub links_of : List Anchor → List Link
links_of [] = []
links_of (a ∷ rest) = elim (attr (codes "href") a.attrs) [
  | [] ↦ links_of rest
  | c ∷ s ↦ record { href = c ∷ s; label = text_of a.node } ∷ links_of rest
]

unfoldable pub links : Node → List Link
links n = links_of (anchors [] n)

abbrev pub or_else : Bytes → Bytes → Bytes
or_else [] t = t
or_else (c ∷ s) t = c ∷ s

abbrev pub is_heading : Bytes → Bool
is_heading name = is_in ("h1" ∷ "h2" ∷ "h3" ∷ "h4" ∷ "h5" ∷ "h6" ∷ []) name

abbrev pub long_enough : Bytes → Bytes
long_enough s = if leb 4 (length s) then s else []

-- findHeading: the first heading of four characters.
unfoldable mutual
  pub find_heading : Node → Bytes
  find_heading (text_node s) = []
  find_heading (element_node name attrs ns) =
      or_else (if is_heading name then long_enough (text_of (element_node name attrs ns)) else [])
        (find_heading_in ns)
  find_heading (other_node ns) = find_heading_in ns

  pub find_heading_in : Nodes → Bytes
  find_heading_in end = []
  find_heading_in (child n ns) = or_else (find_heading n) (find_heading_in ns)

-- len(s), in bytes of UTF-8
unfoldable pub byte_length : Bytes → ℕ
byte_length [] = 0
byte_length (c ∷ s) =
    let rest = byte_length s in
    if ltb c 128
    then rest + 1
    else if ltb c 2048
    then rest + 2
    else if ltb c 65536
    then rest + 3
    else rest + 4

-- The title and the first heading that the walk of pageHeadings has.
pub record Headings : Type 0 where
  pub title : Bytes
  pub heading : Bytes

abbrev pub note_heading : Bytes → Node → Headings → Headings
note_heading name n h =
    if equal name (codes "title")
    then record { title = or_else h.title (text_of n); heading = h.heading }
    else if is_in ("h1" ∷ "h2" ∷ []) name
    then record { title = h.title; heading = or_else h.heading (text_of n) }
    else h

-- Both are there.
abbrev pub is_full : Headings → Bool
is_full h = not (equal h.title []) && not (equal h.heading [])

unfoldable mutual
  pub find_headings : Node → Headings → Headings
  find_headings (text_node s) h = h
  find_headings (element_node name attrs ns) h =
      let seen = note_heading name (element_node name attrs ns) h in
      elim (is_full seen) [ true ↦ seen | false ↦ find_headings_in ns seen ]
  find_headings (other_node ns) h = elim (is_full h) [ true ↦ h | false ↦ find_headings_in ns h ]

  pub find_headings_in : Nodes → Headings → Headings
  find_headings_in end h = h
  find_headings_in (child n ns) h = find_headings_in ns (find_headings n h)

-- titleOf
unfoldable pub title_of : Anchor → Bytes
title_of a =
    let label = attr (codes "aria-label") a.attrs in
    let title = attr (codes "title") a.attrs in
    if leb 4 (byte_length label)
    then label
    else if leb 4 (byte_length title)
    then title
    else or_else (find_heading a.node) (text_of a.node)

-- The loop of cardContext.
unfoldable pub climb : (limit : ℕ) → List Node → Bytes × Node → Bytes × Node
climb limit [] found = found
climb limit (parent ∷ parents) (context, card) =
    let surrounding = text_of parent in
    elim (ltb limit (byte_length surrounding)) [
      | true ↦ (context, card)
      | false ↦ climb limit parents (
          if ltb (byte_length context) (byte_length surrounding)
          then (surrounding, parent)
          else (context, card))
    ]

unfoldable pub card_context : Anchor → Bytes → Bytes × Node
card_context a link_text = climb (max (3 * byte_length link_text) 300) a.parents (link_text, a.node)
