-- ===== src/Exhibitions/Candidates/Declared.antt =====
-- pkg/exhibitions/jsonld.go: the exhibitions that a page declares in JSON-LD, and the candidates of
-- both readers.
pub mod Both
use museumscraper.Prelude.{
  ℕ, zero, suc, ◌+◌, ◌-◌, ◌*◌, ◌/◌, ◌%◌, ◌^◌, ◌≤◌, ◌<◌, min, max, String, ◌≡◌, refl, sym, ap, ◌∙◌,
  ◌≢◌, ◌↔◌, ◌⊎◌, inl, inr, Bool, true, false, not, ◌&&◌, ◌||◌, Option, none, some, List, [], ◌∷◌,
  ◌++◌, map, arith, ltb, leb, ◌>>=◌, ◌==◌, if◌then◌else◌, ltb→lt, lt→ltb, leb→le, ==_iff,
  Bool-cases, Option-cases, length, get_elem?, set, length-append, length-set, get_elem?-set_self,
  get_elem?-set_ne, All, take, drop, dec_lt, ℕ_discrete,
}
use museumscraper.Text.Bytes.{Bytes, codes, trim, contains, among, equal}
use museumscraper.Exhibitions.Dates.{DateRange, is_zero}
use museumscraper.Exhibitions.Words.{contains_any}
use museumscraper.Exhibitions.Words.Links.{exhibition_path_hints}
use museumscraper.Exhibitions.Json.{Fields, field_string, field_date, field_event, objects}
use museumscraper.Exhibitions.Page.{
  Node, text_node, element_node, other_node, Nodes, end, child, attr, or_else,
}
use museumscraper.Exhibitions.Title.{clean_title}
use museumscraper.Exhibitions.Links.{Url, Web, lower, target, same_host, names_permanent}
use museumscraper.Exhibitions.Candidates.{
  Candidate, candidate_urls, is_title_length, is_non_exhibition, extract_candidates,
}

-- The text children of a script.
unfoldable pub script_text : Nodes → Bytes
script_text end = []
script_text (child (text_node s) ns) = s ++ script_text ns
script_text (child (element_node name attrs below) ns) = script_text ns
script_text (child (other_node below) ns) = script_text ns

abbrev pub block : Bytes → List Bytes
block [] = []
block (c ∷ s) = (c ∷ s) ∷ []

module _ (w : Web) where
  abbrev pub is_json_script : Bytes → List (Bytes × Bytes) → Bool
  is_json_script name attrs =
      equal name (codes "script")
      && contains (lower w (attr (codes "type") attrs)) (codes "ld+json")

  -- jsonLDBlocks
  unfoldable mutual
    pub blocks : Node → List Bytes
    blocks (text_node s) = []
    blocks (element_node name attrs ns) =
        let under = blocks_in ns in
        if is_json_script name attrs then block (trim (script_text ns)) ++ under else under
    blocks (other_node ns) = blocks_in ns

    pub blocks_in : Nodes → List Bytes
    blocks_in end = []
    blocks_in (child n ns) = blocks n ++ blocks_in ns

  -- The dates of an object; one without any whose description says so is permanent.
  unfoldable pub declared_dates : Fields → DateRange
  declared_dates fs =
      let dates : DateRange = record {
        start = field_date (codes "startDate") fs;
        end = field_date (codes "endDate") fs;
        permanent = false;
      } in
      let permanent = is_zero dates && names_permanent w (field_string (codes "description") fs) in
      record { start = dates.start; end = dates.end; permanent = permanent }

  abbrev pub declared_link : Fields → Bytes
  declared_link fs = or_else (field_string (codes "url") fs) (field_string (codes "@id") fs)

  -- candidateFromJSONLD, past the tests of the type and of the title.
  unfoldable pub judge_declared :
      Url → (trusted : Bool) → (title : Bytes) → Fields → Bytes × Url → Option Candidate
  judge_declared base trusted title fs (url, parsed) =
      if not (same_host w parsed base)
      then none
      else if not trusted && not (contains_any (lower w parsed.path) exhibition_path_hints)
      then none
      else if is_non_exhibition w title
      then none
      else some (record {
        title = title;
        url = url;
        context = title;
        dates = declared_dates fs;
        vouched = false;
      })

  abbrev pub titled : Bytes → Option Bytes
  titled title = if is_title_length title then some title else none

  unfoldable pub candidate_from_json : Url → Fields → Option Candidate
  candidate_from_json base fs = do
    trusted ← field_event (λ s. lower w s) (codes "@type") fs
    title ← titled (clean_title w.alphabet (w.unescape (field_string (codes "name") fs)))
    t ← target w base (declared_link fs)
    judge_declared base trusted title fs t

  -- The function that ExtractJSONLDCandidates gives to walkJSONLD.
  unfoldable pub note_declared : List Candidate → Option Candidate → List Candidate
  note_declared found none = found
  note_declared found (some c) =
      if among (candidate_urls found) c.url then found else found ++ c ∷ []

  unfoldable pub note_objects : Url → List Candidate → List Fields → List Candidate
  note_objects base found [] = found
  note_objects base found (fs ∷ rest) =
      note_objects base (note_declared found (candidate_from_json base fs)) rest

  -- A block that is not JSON is passed over.
  unfoldable pub note_blocks : Url → List Candidate → List Bytes → List Candidate
  note_blocks base found [] = found
  note_blocks base found (b ∷ bs) = elim (w.decode_json b) [
    | none ↦ note_blocks base found bs
    | some v ↦ note_blocks base (note_objects base found (objects v)) bs
  ]

  unfoldable pub extract_declared : Bytes → Url → List Candidate
  extract_declared page base = elim (w.parse_html page) [
    | none ↦ []
    | some doc ↦ note_blocks base [] (blocks doc)
  ]

-- The candidates that are not declared.
unfoldable pub undeclared : List Bytes → List Candidate → List Candidate
undeclared declared [] = []
undeclared declared (c ∷ cs) =
    let rest = undeclared declared cs in if among declared c.url then rest else c ∷ rest

unfoldable pub candidates_on : Web → Bytes → Url → List Candidate
candidates_on w page base =
    let declared = extract_declared w page base in
    declared ++ undeclared (candidate_urls declared) (extract_candidates w page base)
