-- ===== src/Exhibitions/Candidates.antt =====
-- pkg/exhibitions/extract.go: the entries of a listing page that may be exhibitions.
pub mod Paging
pub mod Declared
pub mod Kept
use museumscraper.Prelude.{
  ℕ, zero, suc, ◌+◌, ◌-◌, ◌*◌, ◌/◌, ◌%◌, ◌^◌, ◌≤◌, ◌<◌, min, max, String, ◌≡◌, refl, sym, ap, ◌∙◌,
  ◌≢◌, ◌↔◌, ◌⊎◌, inl, inr, Bool, true, false, not, ◌&&◌, ◌||◌, Option, none, some, List, [], ◌∷◌,
  ◌++◌, map, arith, ltb, leb, ◌>>=◌, ◌==◌, if◌then◌else◌, ltb→lt, lt→ltb, leb→le, ==_iff,
  Bool-cases, Option-cases, length, get_elem?, set, length-append, length-set, get_elem?-set_self,
  get_elem?-set_ne, All, take, drop, dec_lt, ℕ_discrete,
}
use museumscraper.Text.Bytes.{Bytes, codes, trim, has_prefix, among, equal, join}
use museumscraper.Exhibitions.Dates.{DateRange}
use museumscraper.Exhibitions.Words.{contains_any, is_in}
use museumscraper.Exhibitions.Words.Links.{strong_path_hints, weak_path_hints}
use museumscraper.Exhibitions.Words.Cards.{skip_link_words, calls_to_action, non_exhibition_types}
use museumscraper.Exhibitions.Page.{
  Node, text_node, element_node, other_node, Nodes, end, child, Anchor, attr, is_anchor, links,
  Link, title_of, text_of, byte_length, card_context,
}
use museumscraper.Exhibitions.Page.Stamps.{machine_dates}
use museumscraper.Exhibitions.Title.{clean_title, trim_left_if, trim_right_if}
use museumscraper.Exhibitions.Title.Slug.{trim_slashes, title_from_slug, only_digits}
use museumscraper.Exhibitions.Links.{Url, Web, lower, target}
use museumscraper.Exhibitions.Displays.{names_exhibitions}
use Paging.{is_navigation_link}

-- How often a text stands among others.
unfoldable pub occurrences : Bytes → List Bytes → ℕ
occurrences s [] = 0
occurrences s (t ∷ ts) = let rest = occurrences s ts in if equal t s then rest + 1 else rest

pub record Candidate : Type 0 where
  pub title : Bytes
  pub url : Bytes
  pub context : Bytes
  pub dates : DateRange
  pub vouched : Bool

-- strings.Split(s, "/")
unfoldable pub split_slashes : Bytes → List Bytes
split_slashes [] = [] ∷ []
split_slashes (c ∷ s) = elim (split_slashes s) [
  | [] ↦ (c ∷ []) ∷ []
  | part ∷ parts ↦ if c == b'/' then [] ∷ part ∷ parts else (c ∷ part) ∷ parts
]

-- parts[:len(parts)-1]
abbrev pub but_last : List Bytes → List Bytes
but_last [] = []
but_last (part ∷ []) = []
but_last (part ∷ next ∷ parts) = part ∷ but_last (next ∷ parts)

-- ".>»→ "
abbrev pub is_button_edge : ℕ → Bool
is_button_edge c = c == b'.' || c == b'>' || c == 187 || c == 8594 || c == 32

-- The candidates so far; what `seen` holds are their URLs.
pub record Sorted : Type 0 where
  pub strong : List Candidate
  pub weak : List Candidate

unfoldable pub candidate_urls : List Candidate → List Bytes
candidate_urls [] = []
candidate_urls (c ∷ cs) = c.url ∷ candidate_urls cs

unfoldable pub add_sorted : Candidate → (is_strong : Bool) → Sorted → Sorted
add_sorted c is_strong s =
    if among (candidate_urls s.strong) c.url || among (candidate_urls s.weak) c.url
    then s
    else if is_strong
    then record { strong = s.strong ++ c ∷ []; weak = s.weak }
    else record { strong = s.strong; weak = s.weak ++ c ∷ [] }

-- The strong ones, if there are any.
abbrev pub best_of : List Candidate → List Candidate → List Candidate
best_of [] weak = weak
best_of (c ∷ strong) weak = c ∷ strong

abbrev pub is_title_length : Bytes → Bool
is_title_length s = leb 4 (length s) && leb (byte_length s) 400

module _ (w : Web) where
  unfoldable pub path_sections : Bytes → List Bytes
  path_sections path = elim (trim_slashes path) [
    | [] ↦ []
    | c ∷ s ↦ but_last (split_slashes (lower w (c ∷ s)))
  ]

  -- What the path is judged by: its sections, or its slug where it has none.
  unfoldable pub judged_path : Bytes → Option Bytes
  judged_path path =
      let slug = trim_slashes (lower w path) in
      elim (path_sections path) [
        | [] ↦ if contains_any slug strong_path_hints then some slug else none
        | s ∷ ss ↦ some (join (b'/' ∷ []) (s ∷ ss))
      ]

  unfoldable pub is_non_exhibition : Bytes → Bool
  is_non_exhibition context = contains_any (lower w context) non_exhibition_types

  unfoldable pub is_call_to_action : Bytes → Bool
  is_call_to_action title =
      is_in calls_to_action
        (lower w (trim_right_if is_button_edge (trim_left_if is_button_edge (trim title))))

  abbrev pub folded : Bytes → Bytes
  folded title = lower w (trim title)

  -- The texts that repeatedLinkTexts counts.
  unfoldable pub link_texts : List Link → List Bytes
  link_texts [] = []
  link_texts (l ∷ ls) = folded (clean_title w.alphabet l.label) ∷ link_texts ls

  unfoldable pub is_repeated : List Bytes → Bytes → Bool
  is_repeated texts s = not (equal s []) && ltb 1 (occurrences s texts)

  abbrev pub is_button : List Bytes → Bytes → Bool
  is_button texts title =
      equal title [] || is_call_to_action title || is_repeated texts (folded title)

  -- The title of a card: its text, or what its slug gives.
  unfoldable pub name_card : List Bytes → (label path : Bytes) → Bytes
  name_card texts label path =
      let title = clean_title w.alphabet label in
      if is_button texts title then title_from_slug w.alphabet path else title

  abbrev pub is_wordless : Bytes → Bool
  is_wordless title = equal title [] || only_digits w.alphabet title

  -- The candidate that a card makes, once its path and its text have been let through.
  abbrev pub carded : Anchor → Bytes → Bytes → (is_strong path_named : Bool) → Candidate × Bool
  carded a title url is_strong path_named =
      let card = card_context a (text_of a.node) in
      (
        record {
          title = title;
          url = url;
          context = card.0;
          dates = machine_dates card.1;
          vouched = not is_strong && not path_named;
        },
        is_strong,
      )

  -- The tests of the path and of the text, which leave a card out.
  unfoldable pub is_left_out : (path_named trust_page : Bool) → (label link_text : Bytes) → Bool
  is_left_out path_named trust_page label link_text =
      (not path_named && not trust_page)
      || not (is_title_length label)
      || is_non_exhibition (label ++ (32 ∷ link_text))
      || contains_any (lower w label) skip_link_words

  unfoldable pub if_worded : Candidate × Bool → Option (Candidate × Bool)
  if_worded p = if is_wordless (p.0).title then none else some p

  -- candidateFrom, past the tests of the address.
  unfoldable pub judge_card :
      List Bytes → (trust_page : Bool) → Anchor → Bytes × Url → Bytes → Option (Candidate × Bool)
  judge_card texts trust_page a (url, parsed) joined =
      let is_strong = contains_any joined strong_path_hints in
      let path_named = is_strong || contains_any joined weak_path_hints in
      let label = title_of a in
      if is_left_out path_named trust_page label (text_of a.node)
      then none
      else if_worded (carded a (name_card texts label parsed.path) url is_strong path_named)

  abbrev pub on_host : Url → Bytes × Url → Option (Bytes × Url)
  on_host base t = if equal (t.1).host base.host then some t else none

  -- An empty href, which resolveURL refuses too, is refused.
  unfoldable pub candidate_from :
      Url → List Bytes → (trust_page : Bool) → Anchor → Option (Candidate × Bool)
  candidate_from base texts trust_page a = do
    found ← target w base (attr (codes "href") a.attrs)
    t ← on_host base found
    joined ← judged_path (t.1).path
    judge_card texts trust_page a t joined

  abbrev pub candidate_at :
      Url → List Bytes → (trust_page : Bool) → Bytes → Anchor → Option (Candidate × Bool)
  candidate_at base texts trust_page name a =
      if is_anchor name then candidate_from base texts trust_page a else none

  -- None for an anchor that pages through the listing.
  unfoldable pub note_card : Url → Option (Candidate × Bool) → Sorted → Option Sorted
  note_card base none s = some s
  note_card base (some (c, is_strong)) s =
      if is_navigation_link w c.url (some base) then none else some (add_sorted c is_strong s)

  -- walk of ExtractCandidates. An anchor that pages through the listing is left with all below it.
  unfoldable mutual
    pub sort_cards : Url → List Bytes → (trust_page : Bool) → List Node → Node → Sorted → Sorted
    sort_cards base texts trust above (text_node t) s = s
    sort_cards base texts trust above (element_node name attrs ns) s =
        let here = element_node name attrs ns in
        let a : Anchor = record { attrs = attrs; node = here; parents = above } in
        sort_below base texts trust (here ∷ above) ns s
          (note_card base (candidate_at base texts trust name a) s)
    sort_cards base texts trust above (other_node ns) s =
        sort_cards_in base texts trust (other_node ns ∷ above) ns s

    pub sort_below :
        Url → List Bytes → (trust_page : Bool) → List Node → Nodes → Sorted → Option Sorted → Sorted
    sort_below base texts trust above end s none = s
    sort_below base texts trust above end s (some t) = t
    sort_below base texts trust above (child n ns) s none = s
    sort_below base texts trust above (child n ns) s (some t) =
        sort_cards_in base texts trust above ns (sort_cards base texts trust above n t)

    pub sort_cards_in : Url → List Bytes → (trust_page : Bool) → List Node → Nodes → Sorted → Sorted
    sort_cards_in base texts trust above end s = s
    sort_cards_in base texts trust above (child n ns) s =
        sort_cards_in base texts trust above ns (sort_cards base texts trust above n s)

  unfoldable pub sorted_cards : Bytes → Url → Node → Sorted
  sorted_cards page base doc =
      sort_cards base (link_texts (links doc)) (names_exhibitions w page (some base)) [] doc
        (record { strong = []; weak = [] })

  unfoldable pub extract_candidates : Bytes → Url → List Candidate
  extract_candidates page base = elim (w.parse_html page) [
    | none ↦ []
    | some doc ↦ let s = sorted_cards page base doc in best_of s.strong s.weak
  ]
