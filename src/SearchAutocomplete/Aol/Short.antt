-- ===== src/SearchAutocomplete/Aol/Short.antt =====
-- The lines that preprocess_aol writes fit the scanner of BuildTrie when the queries of the log are short.
use system_design_implementa.Prelude.{
  ℕ, ◌≤◌, ◌≡◌, ap, Bool, true, ◌&&◌, ◌||◌, List, [], ◌∷◌, none, leb, ltb, arith, All, Bool-cases,
  inl, inr,
}
use system_design_implementa.SearchAutocomplete.Seeder.{same, find}
use system_design_implementa.SearchAutocomplete.Seeder.Index.{is_map, same-eq, same_self}
use system_design_implementa.SearchAutocomplete.Files.{Item, bytes_of, token_limit}
use system_design_implementa.SearchAutocomplete.Files.Laws.{row, IsShort}
use system_design_implementa.SearchAutocomplete.Aol.{Row, Counts, count, frequent}
use system_design_implementa.SearchAutocomplete.Aol.Voting.{voters}

abbrev pub item_of : List ℕ → ℕ → Item
item_of q n = record { phrase = q; freq = n }

abbrev pub fits_line : List ℕ → ℕ → Bool
fits_line q n = ltb (bytes_of (row (item_of q n))) token_limit

-- Each query of some rows that enough users of all rows ask for is written in less than 64 KiB.
abbrev pub short_queries : ℕ → List Row → List Row → Bool
short_queries min_freq whole [] = true
short_queries min_freq whole (r ∷ rs) =
    (ltb (voters r.query whole) min_freq || fits_line r.query (voters r.query whole))
    && short_queries min_freq whole rs

pub asked-fits_line :
    (min_freq : ℕ) (whole rs : List Row) (q : List ℕ)
    → short_queries min_freq whole rs ≡ true
    → 1 ≤ voters q rs
    → min_freq ≤ voters q whole
    → fits_line q (voters q whole) ≡ true
asked-fits_line min_freq whole [] q e p h = absurd (omega arith)
asked-fits_line min_freq whole (r ∷ rs) q e p h = elim (Bool-cases (same r.query q)) [
  | inl y ↦
      let at = same-eq r.query q y in
      let first = ap (λ z. ltb (voters z whole) min_freq || fits_line z (voters z whole)) at in
      ground (arith, e, first, h)
  | inr n ↦ asked-fits_line min_freq whole rs q (ground (arith, e)) (ground (arith, p, n)) h
]

counted-fits_line :
    (min_freq : ℕ) (m : Counts)
    → 1 ≤ min_freq
    → is_map m ≡ true
    → ((q : List ℕ) → min_freq ≤ count q m → fits_line q (count q m) ≡ true)
    → All (λ e. min_freq ≤ e.1 → fits_line e.0 e.1 ≡ true) m
unfolding find
counted-fits_line min_freq [] lo o h = tt
counted-fits_line min_freq ((q, n) ∷ m) lo o h = (
  λ p. ground (arith, h q, same_self q, p),
  counted-fits_line min_freq m lo (ground arith) (λ r p. elim (Bool-cases (same q r)) [
    | inl y ↦
        let at = ap (λ z. find z m) (same-eq q r y) in
        let gone : find r m ≡ none = ground (arith, o, at) in ground (arith, gone, p, lo)
    | inr x ↦ ground (arith, h r, x, p)
  ]),
)

frequent-fits_line :
    (min_freq : ℕ) (m : Counts)
    → All (λ e. min_freq ≤ e.1 → fits_line e.0 e.1 ≡ true) m
    → All IsShort (frequent min_freq m)
unfolding frequent
frequent-fits_line min_freq [] a = tt
frequent-fits_line min_freq ((q, n) ∷ m) (e, a) = elim (Bool-cases (leb min_freq n)) [
  | inl y ↦
      let here = e (ground (arith, y)) in
      rw y (ground (arith, here), frequent-fits_line min_freq m a)
  | inr x ↦ rw x (frequent-fits_line min_freq m a)
]

pub frequent-IsShort :
    (min_freq : ℕ) (m : Counts)
    → 1 ≤ min_freq
    → is_map m ≡ true
    → ((q : List ℕ) → min_freq ≤ count q m → fits_line q (count q m) ≡ true)
    → All IsShort (frequent min_freq m)
frequent-IsShort min_freq m lo o h =
    frequent-fits_line min_freq m (counted-fits_line min_freq m lo o h)
