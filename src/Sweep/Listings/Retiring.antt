-- ===== src/Sweep/Listings/Retiring.antt =====
-- What saving, touching and retiring do to a site's listings, taken together.
use museumscraper.Prelude.{
  ◌≢◌, false, refl, Bool-cases, ℕ, ◌≤◌, String, ◌≡◌, refl, ◌≢◌, ◌⊎◌, inl, inr, true, false, Option,
  none, some, List, [], ◌∷◌, arith, if◌then◌else◌, Bool-cases, All,
}
use text.Mathlib.Text.{◌==◌ as str_eq}
use mathlib.Core.Path.{subst}
use native.Mathlib.Nat.{le_refl}
use text.Mathlib.TextEquality.{eq_iff}
use museumscraper.Text.{is_blank}
use museumscraper.Sweep.Listings.{
  Exhibition, Listing, fresh, seen_again, upsert, save_exhibitions, retire_unseen, count_unseen,
  touch_site, earlier, counted_close, soonest_close,
}

-- The table has a live row with this URL, seen at `t` or later.
abbrev pub IsListed : String → ℕ → List Listing → Type 0
IsListed u t [] = ⊥
IsListed u t (l ∷ ls) =
    ((l.url ≡ u) × (l.retired_at ≡ none) × (t ≤ l.last_seen_at)) ⊎ IsListed u t ls

-- The entry is one that the reading stores.
abbrev pub IsFound : String → ℕ → List Exhibition → Type 0
IsFound u t [] = ⊥
IsFound u t (e ∷ es) =
    ((e.url ≡ u) × (is_blank e.url ≡ false) × (t ≤ e.scraped_at)) ⊎ IsFound u t es

-- RetireUnseen counts exactly the rows that it retires: none is left for a second call.
pub count_unseen-retire_unseen :
    (site : String) (t : ℕ) (ls : List Listing) → count_unseen site t (retire_unseen site t ls) ≡ 0
unfolding count_unseen retire_unseen
count_unseen-retire_unseen site t [] = refl
count_unseen-retire_unseen site t (l ∷ ls) = ground (arith, count_unseen-retire_unseen site t ls)

-- After a site has said that nothing changed, retiring what was not seen since an instant no later
-- than that retires nothing of it.
pub count_unseen-touch_site :
    (site : String) (t now : ℕ) (ls : List Listing)
    → t ≤ now
    → count_unseen site t (touch_site site now ls) ≡ 0
unfolding count_unseen touch_site
count_unseen-touch_site site t now [] h = refl
count_unseen-touch_site site t now (l ∷ ls) h =
    ground (arith, count_unseen-touch_site site t now ls h)

upsert-IsListed :
    (e : Exhibition) (t : ℕ) (ls : List Listing) → t ≤ e.scraped_at → IsListed e.url t (upsert e ls)
unfolding upsert fresh seen_again
upsert-IsListed e t [] h = inl (refl, refl, h)
upsert-IsListed e t (l ∷ ls) h = elim (Bool-cases (str_eq l.url e.url)) [
  | inl same ↦ rw same (inl ((eq_iff l.url e.url).0 same, refl, omega arith))
  | inr other ↦ rw other (inr (upsert-IsListed e t ls h))
]

upsert-keeps_IsListed :
    (e : Exhibition) (u : String) (t : ℕ) (ls : List Listing)
    → IsListed u t ls
    → IsListed u t (upsert e ls)
unfolding upsert seen_again
upsert-keeps_IsListed e u t [] h = absurd h
upsert-keeps_IsListed e u t (l ∷ ls) (inl h) = elim (Bool-cases (str_eq l.url e.url)) [
  | inl same ↦ rw same (inl (h.0, refl, omega arith))
  | inr other ↦ rw other (inl h)
]
upsert-keeps_IsListed e u t (l ∷ ls) (inr h) = elim (Bool-cases (str_eq l.url e.url)) [
  | inl same ↦ rw same (inr h)
  | inr other ↦ rw other (inr (upsert-keeps_IsListed e u t ls h))
]

save-keeps_IsListed :
    (es : List Exhibition) (u : String) (t : ℕ) (ls : List Listing)
    → IsListed u t ls
    → IsListed u t (save_exhibitions es ls)
unfolding save_exhibitions
save-keeps_IsListed [] u t ls h = h
save-keeps_IsListed (e ∷ es) u t ls h = elim (Bool-cases (is_blank e.url)) [
  | inl blank ↦ rw blank (save-keeps_IsListed es u t ls h)
  | inr good ↦ rw good (save-keeps_IsListed es u t (upsert e ls) (upsert-keeps_IsListed e u t ls h))
]

pub save-IsListed :
    (es : List Exhibition) (u : String) (t : ℕ) (ls : List Listing)
    → IsFound u t es
    → IsListed u t (save_exhibitions es ls)
unfolding save_exhibitions
save-IsListed [] u t ls h = absurd h
save-IsListed (e ∷ es) u t ls (inl (same, good, late)) =
    let here = upsert-IsListed e t ls late in
    rw good
      (save-keeps_IsListed es u t (upsert e ls) (subst (λ v. IsListed v t (upsert e ls)) same here))
save-IsListed (e ∷ es) u t ls (inr h) =
    save-IsListed es u t (if is_blank e.url then ls else upsert e ls) h

pub retire-keeps_IsListed :
    (site u : String) (t : ℕ) (ls : List Listing)
    → IsListed u t ls
    → IsListed u t (retire_unseen site t ls)
unfolding retire_unseen
retire-keeps_IsListed site u t [] h = absurd h
retire-keeps_IsListed site u t (l ∷ ls) h = ground (arith, retire-keeps_IsListed site u t ls)

pub retire-save-IsListed :
    (site u : String) (t : ℕ) (es : List Exhibition) (ls : List Listing)
    → IsFound u t es
    → IsListed u t (retire_unseen site t (save_exhibitions es ls))
retire-save-IsListed site u t es ls h = retire-keeps_IsListed site u t _ (save-IsListed es u t ls h)

-- Every live listing that was read off the site's pages has been seen since `t`.
abbrev pub IsCurrent : String → ℕ → List Listing → Type 0
IsCurrent site t =
    All λ l. l.site ≡ site → l.scraped ≡ true → l.retired_at ≡ none → t ≤ l.last_seen_at

-- After the retirement no listing of the site is live that was not seen since the reading began,
-- but for submissions.
pub retire_unseen-IsCurrent :
    (site : String) (t : ℕ) (ls : List Listing) → IsCurrent site t (retire_unseen site t ls)
unfolding retire_unseen
retire_unseen-IsCurrent site t [] = tt
retire_unseen-IsCurrent site t (l ∷ ls) =
    (λ s r n. ground (arith, eq_iff l.site site), retire_unseen-IsCurrent site t ls)

-- RetireUnseen changes no listing of another site and no submission.
pub retire_unseen-spares :
    (site : String) (t : ℕ) (ls : List Listing)
    → All (λ l. (l.site ≢ site) ⊎ (l.scraped ≡ false)) ls
    → retire_unseen site t ls ≡ ls
unfolding retire_unseen
retire_unseen-spares site t [] h = refl
retire_unseen-spares site t (l ∷ ls) h =
    ground (arith, h.0, eq_iff l.site site, retire_unseen-spares site t ls h.1)

-- A listing that SoonestClose counts closes on this date.
abbrev pub ClosesAt : String → ℕ → List Listing → Type 0
ClosesAt site d [] = ⊥
ClosesAt site d (l ∷ ls) = (counted_close site l ≡ some d) ⊎ ClosesAt site d ls

abbrev pub IsBy : ℕ → Option ℕ → Type 0
IsBy d none = ⊥
IsBy d (some m) = m ≤ d

earlier-IsBy : (a b : Option ℕ) (d : ℕ) → (IsBy d a) ⊎ (IsBy d b) → IsBy d (earlier a b)
earlier-IsBy none b d (inl h) = absurd h
earlier-IsBy none b d (inr h) = h
earlier-IsBy (some a) none d (inl h) = h
earlier-IsBy (some a) none d (inr h) = absurd h
earlier-IsBy (some a) (some b) d h = omega arith

earlier-cases : (a b : Option ℕ) (m : ℕ) → earlier a b ≡ some m → (a ≡ some m) ⊎ (b ≡ some m)
earlier-cases a b m h = ground arith

-- If a live listing of the site that is not permanent closes on a date, SoonestClose gives a date,
-- and none later than that one.
soonest_close-IsBy :
    (site : String) (ls : List Listing) (d : ℕ)
    → ClosesAt site d ls
    → IsBy d (soonest_close site ls)
unfolding soonest_close
soonest_close-IsBy site [] d h = absurd h
soonest_close-IsBy site (l ∷ ls) d (inl h) =
    earlier-IsBy (counted_close site l) (soonest_close site ls) d (inl (rw h (le_refl d)))
soonest_close-IsBy site (l ∷ ls) d (inr h) =
    earlier-IsBy _ _ d (inr (soonest_close-IsBy site ls d h))

soonest_close-ClosesAt :
    (site : String) (ls : List Listing) (m : ℕ)
    → soonest_close site ls ≡ some m
    → ClosesAt site m ls
unfolding soonest_close
soonest_close-ClosesAt site [] m h = cc
soonest_close-ClosesAt site (l ∷ ls) m h = elim (earlier-cases _ _ m h) [
  | inl e ↦ inl e
  | inr e ↦ inr (soonest_close-ClosesAt site ls m e)
]
