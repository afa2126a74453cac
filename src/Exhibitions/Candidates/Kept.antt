-- ===== src/Exhibitions/Candidates/Kept.antt =====
-- pkg/exhibitions/extract.go: what the entries of a page have in common.
use museumscraper.Prelude.{
  ◌≡◌, refl, sym, ap, inl, inr, Bool, true, false, ◌||◌, Option, none, some, List, [], ◌∷◌, ◌++◌,
  arith, ◌>>=◌, Held, Held-if, Held-bind, Bool-cases, Option-cases, All,
}
use museumscraper.Prelude.{if-keeps, All-append}
use mathlib.Core.Path.{subst}
use museumscraper.Text.Bytes.{Bytes, codes, among, equal}
use museumscraper.Text.Distinct.{IsDistinct, IsDistinct-append}
use museumscraper.Exhibitions.Words.{contains_any}
use museumscraper.Exhibitions.Words.Links.{strong_path_hints, weak_path_hints}
use museumscraper.Exhibitions.Page.{
  title_of, text_of, Node, text_node, element_node, other_node, Nodes, end, child, Anchor, attr,
  is_anchor, links,
}
use museumscraper.Exhibitions.Links.{Url, Web, target, resolve_url}
use museumscraper.Exhibitions.Displays.{names_exhibitions}
use museumscraper.Exhibitions.Candidates.{
  Candidate, Sorted, candidate_urls, add_sorted, best_of, is_wordless, if_worded, judge_card,
  carded, name_card, is_left_out, note_card, candidate_at, judged_path, on_host, candidate_from,
  sort_cards, sort_below, sort_cards_in, sorted_cards, extract_candidates, link_texts,
}
use museumscraper.Exhibitions.Candidates.Paging.{is_navigation_link}

-- An address that some link leads to and that is on the host of the page, and a title in words.
pub record IsEntry (w : Web) (base : Url) (c : Candidate) : Type 0 where
  pub linked : (href : Bytes) × (resolve_url w base href ≡ some c.url)
  pub parsed : Url
  pub parses : w.parse_url c.url ≡ some parsed
  pub near : equal parsed.host base.host ≡ true
  pub worded : is_wordless w c.title ≡ false

module _ (w : Web) (base : Url) where
  abbrev IsTarget : Bytes × Url → Type 0
  IsTarget t =
      (w.parse_url t.0 ≡ some t.1) × ((href : Bytes) × (resolve_url w base href ≡ some t.0))

  target-IsTarget : (href : Bytes) → Held IsTarget (target w base href)
  unfolding target
  target-IsTarget href = elim (Option-cases (resolve_url w base href)) [
    | inl e ↦ rw (target, e) tt
    | inr (url, e) ↦ elim (Option-cases (w.parse_url url)) [
      | inl f ↦ rw (target, e, f) tt
      | inr (parsed, f) ↦ rw (target, e, f) (f, (href, e))
    ]
  ]

  -- An address on the host of the page.
  abbrev IsNear : Bytes → Type 0
  IsNear url =
      (u : Url) × (w.parse_url url ≡ some u)
      × (equal u.host base.host ≡ true)
      × ((href : Bytes) × (resolve_url w base href ≡ some url))

  on_host-IsNear :
      (t : Bytes × Url)
      → IsTarget t
      → Held
          (λ (x : Bytes × Url). IsTarget x × (equal (x.1).host base.host ≡ true))
          (on_host w base t)
  on_host-IsNear t h = elim (Bool-cases (equal (t.1).host base.host)) [
    | inl y ↦ rw y (h, y)
    | inr n ↦ rw n tt
  ]

  abbrev IsJudged : Candidate × Bool → Type 0
  IsJudged p = IsEntry w base p.0

  if_worded-IsJudged : (p : Candidate × Bool) → IsNear (p.0).url → Held IsJudged (if_worded w p)
  unfolding if_worded
  if_worded-IsJudged p (parsed, h, k, l) = elim (Bool-cases (is_wordless w (p.0).title)) [
    | inl y ↦ rw (if_worded, y) tt
    | inr n ↦
        rw (if_worded, n) (record { linked = l; parsed = parsed; parses = h; near = k; worded = n })
  ]

  judge_card-IsJudged :
      (texts : List Bytes) (trust : Bool) (a : Anchor) (t : Bytes × Url) (joined : Bytes)
      → IsTarget t
      → equal (t.1).host base.host ≡ true
      → Held IsJudged (judge_card w texts trust a t joined)
  unfolding judge_card
  judge_card-IsJudged texts trust a (url, parsed) joined h k =
      let strong = contains_any joined strong_path_hints in
      let named = strong || contains_any joined weak_path_hints in
      let p = carded w a (name_card w texts (title_of a) parsed.path) url strong named in
      Held-if IsJudged (is_left_out w named trust (title_of a) (text_of a.node)) (if_worded w p)
        (λ e. if_worded-IsJudged p (parsed, h.0, k, h.1))

  place_card-IsJudged :
      (texts : List Bytes) (trust : Bool) (a : Anchor) (t : Bytes × Url)
      → IsTarget t
      → equal (t.1).host base.host ≡ true
      → Held IsJudged (judged_path w (t.1).path >>= judge_card w texts trust a t)
  place_card-IsJudged texts trust a t h k = elim (Option-cases (judged_path w (t.1).path)) [
    | inl e ↦ rw e tt
    | inr (joined, e) ↦ rw e (judge_card-IsJudged texts trust a t joined h k)
  ]

  host_card-IsJudged :
      (texts : List Bytes) (trust : Bool) (a : Anchor) (t : Bytes × Url)
      → IsTarget t
      → Held IsJudged
          (on_host w base t >>= λ x. judged_path w (x.1).path >>= judge_card w texts trust a x)
  host_card-IsJudged texts trust a t h = elim (Bool-cases (equal (t.1).host base.host)) [
    | inl y ↦ rw y (place_card-IsJudged texts trust a t h y)
    | inr n ↦ rw n tt
  ]

  candidate_from-IsJudged :
      (texts : List Bytes) (trust : Bool) (a : Anchor)
      → Held IsJudged (candidate_from w base texts trust a)
  unfolding candidate_from
  candidate_from-IsJudged texts trust a =
      let href = attr (codes "href") a.attrs in
      Held-bind IsTarget IsJudged (target w base href)
        (λ x. on_host w base x >>= λ t. judged_path w (t.1).path >>= judge_card w texts trust a t)
        (target-IsTarget href) (λ t h. host_card-IsJudged texts trust a t h)

  -- Of each kind, the entries are apart and are pages of the site.
  abbrev pub IsKept : Candidate → Type 0
  IsKept c = IsEntry w base c

  record IsSorted (s : Sorted) : Type 0 where
    strong_apart : IsDistinct (candidate_urls s.strong)
    weak_apart : IsDistinct (candidate_urls s.weak)
    strong_kept : All IsKept s.strong
    weak_kept : All IsKept s.weak

  candidate_urls-append :
      (cs : List Candidate) (c : Candidate)
      → candidate_urls (cs ++ c ∷ []) ≡ candidate_urls cs ++ c.url ∷ []
  unfolding candidate_urls
  candidate_urls-append [] c = refl
  candidate_urls-append (d ∷ cs) c = ap (λ us. d.url ∷ us) (candidate_urls-append cs c)

  apart-append :
      (cs : List Candidate) (c : Candidate)
      → among (candidate_urls cs) c.url ≡ false
      → IsDistinct (candidate_urls cs)
      → IsDistinct (candidate_urls (cs ++ c ∷ []))
  apart-append cs c n d =
      subst IsDistinct (sym (candidate_urls-append cs c))
        (IsDistinct-append (candidate_urls cs) c.url n d)

  add_sorted-IsSorted :
      (c : Candidate) (is_strong : Bool) (s : Sorted)
      → IsKept c
      → IsSorted s
      → IsSorted (add_sorted c is_strong s)
  unfolding add_sorted
  add_sorted-IsSorted c is_strong s k v =
      elim (Bool-cases
        (among (candidate_urls s.strong) c.url || among (candidate_urls s.weak) c.url)) [
          | inl y ↦ rw (add_sorted, y) v
          | inr n ↦ elim (Bool-cases is_strong) [
            | inl y ↦
                rw (add_sorted, n, y)
                  (record {
                    strong_apart = apart-append s.strong c (ground (arith, n)) v.strong_apart;
                    weak_apart = v.weak_apart;
                    strong_kept = All-append IsKept s.strong c v.strong_kept k;
                    weak_kept = v.weak_kept;
                  })
            | inr m ↦
                rw (add_sorted, n, m)
                  (record {
                    strong_apart = v.strong_apart;
                    weak_apart = apart-append s.weak c (ground (arith, n)) v.weak_apart;
                    strong_kept = v.strong_kept;
                    weak_kept = All-append IsKept s.weak c v.weak_kept k;
                  })
          ]
        ]

  candidate_at-IsJudged :
      (texts : List Bytes) (trust : Bool) (name : Bytes) (a : Anchor)
      → Held IsJudged (candidate_at w base texts trust name a)
  candidate_at-IsJudged texts trust name a =
      if-keeps (Held IsJudged) (is_anchor name) (candidate_from w base texts trust a) none
        (candidate_from-IsJudged texts trust a) tt

  note_card-IsSorted :
      (o : Option (Candidate × Bool)) (s : Sorted)
      → Held IsJudged o
      → IsSorted s
      → Held IsSorted (note_card w base o s)
  unfolding note_card
  note_card-IsSorted none s h v = v
  note_card-IsSorted (some (c, is_strong)) s h v =
      Held-if IsSorted (is_navigation_link w c.url (some base)) (some (add_sorted c is_strong s))
        (λ n. add_sorted-IsSorted c is_strong s h v)

  mutual
    unfolding sort_cards

    sort_cards-IsSorted :
        (texts : List Bytes) (trust : Bool) (above : List Node) (n : Node) (s : Sorted)
        → IsSorted s
        → IsSorted (sort_cards w base texts trust above n s)
    sort_cards-IsSorted texts trust above (text_node t) s v = v
    sort_cards-IsSorted texts trust above (element_node name attrs ns) s v =
        let here = element_node name attrs ns in
        let a : Anchor = record { attrs = attrs; node = here; parents = above } in
        let o = candidate_at w base texts trust name a in
        sort_below-IsSorted texts trust (here ∷ above) ns s (note_card w base o s) v
          (note_card-IsSorted o s (candidate_at-IsJudged texts trust name a) v)
    sort_cards-IsSorted texts trust above (other_node ns) s v =
        sort_cards_in-IsSorted texts trust (other_node ns ∷ above) ns s v

    sort_below-IsSorted :
        (texts : List Bytes) (trust : Bool) (above : List Node) (ns : Nodes) (s : Sorted)
        (t : Option Sorted)
        → IsSorted s
        → Held IsSorted t
        → IsSorted (sort_below w base texts trust above ns s t)
    sort_below-IsSorted texts trust above end s none v h = v
    sort_below-IsSorted texts trust above end s (some t) v h = h
    sort_below-IsSorted texts trust above (child n ns) s none v h = v
    sort_below-IsSorted texts trust above (child n ns) s (some t) v h =
        sort_cards_in-IsSorted texts trust above ns (sort_cards w base texts trust above n t)
          (sort_cards-IsSorted texts trust above n t h)

    sort_cards_in-IsSorted :
        (texts : List Bytes) (trust : Bool) (above : List Node) (ns : Nodes) (s : Sorted)
        → IsSorted s
        → IsSorted (sort_cards_in w base texts trust above ns s)
    sort_cards_in-IsSorted texts trust above end s v = v
    sort_cards_in-IsSorted texts trust above (child n ns) s v =
        sort_cards_in-IsSorted texts trust above ns (sort_cards w base texts trust above n s)
          (sort_cards-IsSorted texts trust above n s v)

  abbrev pub IsListing : List Candidate → Type 0
  IsListing cs = IsDistinct (candidate_urls cs) × All IsKept cs

  best_of-IsListing :
      (strong weak : List Candidate)
      → IsListing strong
      → IsListing weak
      → IsListing (best_of strong weak)
  best_of-IsListing [] weak h k = k
  best_of-IsListing (c ∷ strong) weak h k = h

  -- The entries that are read off a page have different addresses; each is what an href resolves to
  -- against the address of the page, is on the host of the page, and has a title that is neither empty
  -- nor made of digits.
  pub extract_candidates-IsListing : (page : Bytes) → IsListing (extract_candidates w page base)
  unfolding extract_candidates sorted_cards candidate_urls
  extract_candidates-IsListing page = elim (Option-cases (w.parse_html page)) [
    | inl e ↦ rw (extract_candidates, e) (tt, tt)
    | inr (doc, e) ↦
        let s = sorted_cards w page base doc in
        let v =
          sort_cards-IsSorted (link_texts w (links doc)) (names_exhibitions w page (some base)) []
            doc (record { strong = []; weak = [] })
            (record { strong_apart = tt; weak_apart = tt; strong_kept = tt; weak_kept = tt }) in
        rw (extract_candidates, e)
          (best_of-IsListing s.strong s.weak (v.strong_apart, v.strong_kept)
            (v.weak_apart, v.weak_kept))
  ]
