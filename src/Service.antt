-- ===== src/Service.antt =====
-- internal/service/iterator.go: one message's objects and the commit of its offset. The decoding of
-- the JSON, net/url's two decodings and the loader are arguments.
pub mod Commits
pub mod Acknowledged
use museumscraper.Prelude.{
  ℕ, zero, suc, ◌+◌, ◌-◌, ◌*◌, ◌/◌, ◌%◌, ◌^◌, ◌≤◌, ◌<◌, min, max, String, ◌≡◌, refl, sym, ap, ◌∙◌,
  ◌≢◌, ◌↔◌, ◌⊎◌, inl, inr, Bool, true, false, not, ◌&&◌, ◌||◌, Option, none, some, List, [], ◌∷◌,
  ◌++◌, map, arith, ltb, leb, ◌==◌, if◌then◌else◌, ltb→lt, lt→ltb, leb→le, ==_iff, Bool-cases,
  Option-cases, length, get_elem?, set, length-append, length-set, get_elem?-set_self,
  get_elem?-set_ne, All, take, drop, dec_lt, ℕ_discrete,
}
use museumscraper.Text.{is_blank}

-- `commits` says whether there is a function to call.
pub record Acker : Type 0 where
  pub remaining : ℕ
  pub commits : Bool

-- newAcker: the acker, and whether it has committed at once.
unfoldable pub new_acker : ℕ → Acker × Bool
new_acker n =
    if n == 0
    then (record { remaining = 0; commits = false }, true)
    else (record { remaining = n; commits = true }, false)

-- done: the acker, and whether this call commits.
unfoldable pub done : Acker → Acker × Bool
done a =
    if a.remaining == 0
    then (a, false)
    else (record a { remaining = a.remaining - 1 }, (a.remaining - 1 == 0) && a.commits)

-- What objectKey returns.
pub data Key : Type 0 where
  bad_escape empty_key : Key
  key : String → Key

-- A record of a notification: its bucket and the key as it arrives.
pub record Record : Type 0 where
  pub bucket : String
  pub raw_key : String

module _ (query_unescape path_unescape : String → Option String) where
  abbrev pub path_key : Option String → Key
  path_key none = bad_escape
  path_key (some k) = key k

  unfoldable pub object_key : String → Key
  unfolding is_blank
  object_key raw = elim (query_unescape raw) [
    | none ↦ path_key (path_unescape raw)
    | some k ↦ if is_blank k then empty_key else key k
  ]

  module _ {T : Type 0} (loader : String → String → Option T) where
    -- What becomes of a record: an object to hand out, or nothing and a call of done.
    abbrev pub load_key : String → Key → Option T
    load_key bucket bad_escape = none
    load_key bucket empty_key = none
    load_key bucket (key k) = loader bucket k

    abbrev pub put_object : Option T → List T × ℕ → List T × ℕ
    put_object none p = (p.0, p.1 + 1)
    put_object (some t) p = (t ∷ p.0, p.1)

    -- The loop over the records of a message: the objects that are handed out, and how many records
    -- were skipped.
    unfoldable pub objects : List Record → List T × ℕ
    unfolding object_key
    objects [] = ([], 0)
    objects (r ∷ rs) = put_object (load_key r.bucket (object_key r.raw_key)) (objects rs)
