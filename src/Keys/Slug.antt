-- ===== src/Keys/Slug.antt =====
-- internal/keys/museum.go: what a key is made of.
use museumscraper.Prelude.{
  ℕ, ◌≡◌, refl, sym, ap, ◌∙◌, Bool, true, false, not, ◌&&◌, ◌||◌, List, [], ◌∷◌, ◌++◌, arith, ◌==◌,
  if◌then◌else◌,
}
use mathlib.Core.List.{append_assoc, append-nil}
use museumscraper.Text.Bytes.{Bytes, codes, has_prefix, trim}
use museumscraper.Search.{Letters, normalize}
use museumscraper.Keys.{
  Place, raw_prefix, enriched_prefix, is_plain, slug_of, trim_dashes_left, trim_dashes_right,
  digest, sanitize_key, key_under, path, museum, enriched_museum,
}

-- a–z, 0–9 and the dash.
abbrev pub in_slug : ℕ → Bool
in_slug c = is_plain c || c == b'-'

abbrev pub all_in_slug : Bytes → Bool
all_in_slug [] = true
all_in_slug (c ∷ s) = in_slug c && all_in_slug s

abbrev pub no_text : Bytes → Bool
no_text [] = true
no_text (c ∷ s) = false

slug_of-all : (s : Bytes) → all_in_slug (slug_of s) ≡ true
unfolding slug_of
slug_of-all [] = refl
slug_of-all (c ∷ s) = ground (arith, slug_of-all s)

trim_dashes_left-all : (s : Bytes) → all_in_slug s ≡ true → all_in_slug (trim_dashes_left s) ≡ true
unfolding trim_dashes_left
trim_dashes_left-all [] h = refl
trim_dashes_left-all (c ∷ s) h = ground (arith, h, trim_dashes_left-all s)

cons-trim :
    (c : ℕ) (r : Bytes)
    → in_slug c ≡ true
    → all_in_slug r ≡ true
    → all_in_slug (elim r [ [] ↦ if c == b'-' then [] else c ∷ [] | d ∷ q ↦ c ∷ d ∷ q ]) ≡ true
cons-trim c [] h k = ground (arith, h)
cons-trim c (d ∷ q) h k = ground (arith, h, k)

trim_dashes_right-all :
    (s : Bytes) → all_in_slug s ≡ true → all_in_slug (trim_dashes_right s) ≡ true
unfolding trim_dashes_right
trim_dashes_right-all [] h = refl
trim_dashes_right-all (c ∷ s) h =
    cons-trim c (trim_dashes_right s) (ground (arith, h))
      (trim_dashes_right-all s (ground (arith, h)))

IsSlug-elim :
    (r other : Bytes)
    → all_in_slug r ≡ true
    → (all_in_slug other ≡ true) × (no_text other ≡ false)
    → let it : Bytes = elim r [ [] ↦ other | c ∷ slug ↦ c ∷ slug ] in
      (all_in_slug it ≡ true) × (no_text it ≡ false)
IsSlug-elim [] other h k = k
IsSlug-elim (c ∷ s) other h k = (h, refl)

digest-elim :
    (t hex : Bytes)
    → all_in_slug hex ≡ true
    → let it : Bytes = elim t [ [] ↦ codes "unknown" | _ ∷ _ ↦ codes "x-" ++ hex ] in
      (all_in_slug it ≡ true) × (no_text it ≡ false)
digest-elim [] hex h = (refl, refl)
digest-elim (c ∷ t) hex h = (h, refl)

-- A part of a key is never empty and holds nothing but a–z, 0–9 and dashes, whatever the text, when
-- the hexadecimal digest does.
pub sanitize_key-all_in_slug :
    (l : Letters) (hex_digest : Bytes → Bytes) (s : Bytes)
    → ((t : Bytes) → all_in_slug (hex_digest t) ≡ true)
    → (all_in_slug (sanitize_key l hex_digest s) ≡ true)
      × (no_text (sanitize_key l hex_digest s) ≡ false)
unfolding sanitize_key digest
sanitize_key-all_in_slug l hex_digest s is_hex =
    let slug = slug_of (normalize l s) in
    IsSlug-elim (trim_dashes_right (trim_dashes_left slug)) (digest l hex_digest s)
      (trim_dashes_right-all (trim_dashes_left slug)
        (trim_dashes_left-all slug (slug_of-all (normalize l s))))
      (digest-elim (trim s) (hex_digest s) (is_hex s))

-- strings.Split at the slashes, with the part that the loop is in.
abbrev pub split_slashes : Bytes → Bytes → List Bytes
split_slashes part [] = part ∷ []
split_slashes part (c ∷ s) =
    if c == b'/' then part ∷ split_slashes [] s else split_slashes (part ++ c ∷ []) s

abbrev pub no_slash : Bytes → Bool
no_slash [] = true
no_slash (c ∷ s) = not (c == b'/') && no_slash s

no_slash-slug : (s : Bytes) → all_in_slug s ≡ true → no_slash s ≡ true
no_slash-slug [] h = refl
no_slash-slug (c ∷ s) h = ground (arith, h, no_slash-slug s)

no_slash-append : (s t : Bytes) → no_slash s ≡ true → no_slash t ≡ true → no_slash (s ++ t) ≡ true
no_slash-append [] t h k = k
no_slash-append (c ∷ s) t h k = ground (arith, h, no_slash-append s t (ground (arith, h)) k)

no_slash-head : (c : ℕ) (s : Bytes) → no_slash (c ∷ s) ≡ true → (c == b'/') ≡ false
no_slash-head c s h = ground (arith, h)

split_slashes-append :
    (part x r : Bytes)
    → no_slash x ≡ true
    → split_slashes part (x ++ r) ≡ split_slashes (part ++ x) r
split_slashes-append part [] r h = ap (λ v. split_slashes v r) (sym (append-nil part))
split_slashes-append part (c ∷ x) r h = rw (no_slash-head c x h) (
    split_slashes-append (part ++ c ∷ []) x r (ground (arith, h))
    ∙ ap (λ v. split_slashes v r) (append_assoc part (c ∷ []) x))

-- Three parts with slashes between them are found again.
split_slashes-path :
    (a b c : Bytes)
    → no_slash a ≡ true
    → no_slash b ≡ true
    → no_slash c ≡ true
    → split_slashes [] (path a b c) ≡ a ∷ b ∷ c ∷ []
split_slashes-path a b c h k m =
    split_slashes-append [] a (b'/' ∷ (b ++ (b'/' ∷ c))) h
    ∙ ap (λ vs. a ∷ vs)
        (split_slashes-append [] b (b'/' ∷ c) k
          ∙ ap (λ vs. b ∷ vs)
              (ap (split_slashes []) (sym (append-nil c)) ∙ split_slashes-append [] c [] m))

key_under-split_slashes :
    (l : Letters) (hex_digest : Bytes → Bytes) (prefix : Bytes) (p : Place)
    → ((t : Bytes) → all_in_slug (hex_digest t) ≡ true)
    → no_slash prefix ≡ true
    → split_slashes [] (key_under l hex_digest prefix p)
      ≡ prefix
        ∷ sanitize_key l hex_digest p.country
        ∷ (sanitize_key l hex_digest p.name ++ codes ".json")
        ∷ []
key_under-split_slashes l hex_digest prefix p is_hex h =
    let slug = λ (s : Bytes).
      no_slash-slug (sanitize_key l hex_digest s)
        (sanitize_key-all_in_slug l hex_digest s is_hex).0 in
    split_slashes-path prefix (sanitize_key l hex_digest p.country)
      (sanitize_key l hex_digest p.name ++ codes ".json") h (slug p.country)
      (no_slash-append (sanitize_key l hex_digest p.name) (codes ".json") (slug p.name) refl)

-- The key of a museum, raw or enriched, splits at its slashes into the prefix of its stage, the
-- country and the name with its ending: no text in either can add a folder, when the hexadecimal
-- digest holds nothing but a–z, 0–9 and dashes.
pub museum-split_slashes :
    (l : Letters) (hex_digest : Bytes → Bytes) (p : Place)
    → ((t : Bytes) → all_in_slug (hex_digest t) ≡ true)
    → let country = sanitize_key l hex_digest p.country in
      let file = sanitize_key l hex_digest p.name ++ codes ".json" in
      (split_slashes [] (museum l hex_digest p) ≡ raw_prefix ∷ country ∷ file ∷ [])
      × (split_slashes [] (enriched_museum l hex_digest p) ≡ enriched_prefix ∷ country ∷ file ∷ [])
unfolding museum enriched_museum
museum-split_slashes l hex_digest p is_hex = (
  key_under-split_slashes l hex_digest raw_prefix p is_hex refl,
  key_under-split_slashes l hex_digest enriched_prefix p is_hex refl,
)

-- What the enricher writes never stands under the prefix whose writes are announced to it.
pub enriched_museum-raw_prefix :
    (l : Letters) (hex_digest : Bytes → Bytes) (p : Place)
    → (has_prefix (museum l hex_digest p) raw_prefix ≡ true)
      × (has_prefix (enriched_museum l hex_digest p) raw_prefix ≡ false)
unfolding museum enriched_museum has_prefix
enriched_museum-raw_prefix l hex_digest p = (refl, refl)
