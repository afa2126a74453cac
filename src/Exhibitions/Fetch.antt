-- ===== src/Exhibitions/Fetch.antt =====
-- pkg/exhibitions/fetch.go: the pages that the fetcher gives, and robots.txt.
pub mod Robots
use museumscraper.Prelude.{
  ℕ, zero, suc, ◌+◌, ◌-◌, ◌*◌, ◌/◌, ◌%◌, ◌^◌, ◌≤◌, ◌<◌, min, max, String, ◌≡◌, refl, sym, ap, ◌∙◌,
  ◌≢◌, ◌↔◌, ◌⊎◌, inl, inr, Bool, true, false, not, ◌&&◌, ◌||◌, Option, none, some, List, [], ◌∷◌,
  ◌++◌, map, arith, ltb, leb, ◌>>=◌, ◌==◌, if◌then◌else◌, ltb→lt, lt→ltb, leb→le, ==_iff,
  Bool-cases, Option-cases, length, get_elem?, set, length-append, length-set, get_elem?-set_self,
  get_elem?-set_ne, All, take, drop, dec_lt, ℕ_discrete,
}
use museumscraper.Text.Bytes.{Bytes, equal}

pub record Validators : Type 0 where
  pub etag : Bytes
  pub last_modified : Bytes

abbrev pub no_validators : Validators
no_validators = record { etag = []; last_modified = [] }

-- `none` of the source.
abbrev pub is_none : Validators → Bool
is_none v = equal v.etag [] && equal v.last_modified []

pub record Page : Type 0 where
  pub body : Bytes
  pub url : Bytes
  pub validators : Validators
  pub unchanged : Bool

-- What the fetcher answers and whether the context is over, by the addresses asked for before.
pub record Network : Type 0 where
  pub fetch : (asked : List Bytes) → Bytes → Validators → Option Page
  pub is_cancelled : (asked : List Bytes) → Bool
