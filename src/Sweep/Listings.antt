-- ===== src/Sweep/Listings.antt =====
-- internal/postgres: the exhibitions table as the sweep writes it. A listing keeps what these
-- statements read and write; the other columns are left out.
pub mod Retiring
use museumscraper.Prelude.{
  ℕ, zero, suc, ◌+◌, ◌-◌, ◌*◌, ◌/◌, ◌%◌, ◌^◌, ◌≤◌, ◌<◌, min, max, String, ◌≡◌, refl, sym, ap, ◌∙◌,
  ◌≢◌, ◌↔◌, ◌⊎◌, inl, inr, Bool, true, false, not, ◌&&◌, ◌||◌, Option, none, some, List, [], ◌∷◌,
  ◌++◌, map, arith, ltb, leb, ◌==◌, if◌then◌else◌, ltb→lt, lt→ltb, leb→le, ==_iff, Bool-cases,
  Option-cases, length, get_elem?, set, length-append, length-set, get_elem?-set_self,
  get_elem?-set_ne, All, dec_lt, ℕ_discrete,
}
use museumscraper.Text.{is_blank}
use text.Mathlib.Text.{◌==◌ as str_eq}

-- exhibitions.Exhibition, of which `site` stands for the key that SaveExhibitions derives from the
-- source page or the URL. `scraped_at` is never the zero time in a reading.
pub record Exhibition : Type 0 where
  pub url : String
  pub title : String
  pub site : String
  pub start : Option ℕ
  pub closing : Option ℕ
  pub permanent : Bool
  pub scraped_at : ℕ

-- A row of the table. `scraped` tells the listings read off a website from submissions.
pub record Listing : Type 0 where
  pub url : String
  pub title : String
  pub site : String
  pub start : Option ℕ
  pub closing : Option ℕ
  pub permanent : Bool
  pub scraped : Bool
  pub first_seen_at : ℕ
  pub last_seen_at : ℕ
  pub retired_at : Option ℕ

-- The row that an INSERT makes.
unfoldable pub fresh : Exhibition → Listing
fresh e = record {
  url = e.url;
  title = e.title;
  site = e.site;
  start = e.start;
  closing = e.closing;
  permanent = e.permanent;
  scraped = true;
  first_seen_at = e.scraped_at;
  last_seen_at = e.scraped_at;
  retired_at = none;
}

-- The row that the ON CONFLICT clause makes of a stored one.
unfoldable pub seen_again : Exhibition → Listing → Listing
seen_again e l = record l {
  title = e.title;
  site = e.site;
  start = e.start;
  closing = e.closing;
  permanent = e.permanent;
  first_seen_at = min l.first_seen_at e.scraped_at;
  last_seen_at = max l.last_seen_at e.scraped_at;
  retired_at = none;
}

-- One statement of the batch; url is the table's key.
unfoldable pub upsert : Exhibition → List Listing → List Listing
upsert e [] = fresh e ∷ []
upsert e (l ∷ ls) = if str_eq l.url e.url then seen_again e l ∷ ls else l ∷ upsert e ls

-- SaveExhibitions, over the rows that the database takes. An entry with no URL is skipped. The texts
-- of an entry are Unicode here, which validUTF8 leaves as it is.
unfoldable pub save_exhibitions : List Exhibition → List Listing → List Listing
unfolding is_blank upsert
save_exhibitions [] ls = ls
save_exhibitions (e ∷ es) ls = save_exhibitions es (if is_blank e.url then ls else upsert e ls)

abbrev pub is_live : Listing → Bool
is_live l = elim l.retired_at [ none ↦ true | some _ ↦ false ]

-- The rows that RetireUnseen's WHERE clause selects.
unfoldable pub is_unseen : String → ℕ → Listing → Bool
is_unseen site seen_from l =
    str_eq l.site site && l.scraped && is_live l && ltb l.last_seen_at seen_from

unfoldable pub retire_unseen : String → ℕ → List Listing → List Listing
unfolding is_unseen
retire_unseen site seen_from =
    map λ l. if is_unseen site seen_from l then record l { retired_at = some seen_from } else l

-- RetireUnseen's RowsAffected.
unfoldable pub count_unseen : String → ℕ → List Listing → ℕ
unfolding is_unseen
count_unseen site seen_from [] = 0
count_unseen site seen_from (l ∷ ls) =
    count_unseen site seen_from ls + (if is_unseen site seen_from l then 1 else 0)

unfoldable pub touch_site : String → ℕ → List Listing → List Listing
touch_site site now =
    map λ l. if str_eq l.site site && is_live l then record l { last_seen_at = now } else l

abbrev earlier : Option ℕ → Option ℕ → Option ℕ
earlier none b = b
earlier (some a) none = some a
earlier (some a) (some b) = some (min a b)

-- The closing date of a row that SoonestClose counts.
abbrev counted_close : String → Listing → Option ℕ
counted_close site l =
    if str_eq l.site site && is_live l && not l.permanent then l.closing else none

-- SoonestClose; the minimum of no rows is null.
unfoldable pub soonest_close : String → List Listing → Option ℕ
soonest_close site [] = none
soonest_close site (l ∷ ls) = earlier (counted_close site l) (soonest_close site ls)
