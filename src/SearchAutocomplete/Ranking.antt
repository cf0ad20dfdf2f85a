-- ===== src/SearchAutocomplete/Ranking.antt =====
-- What the best of some completions are, told without a heap: how many of them have a frequency above
-- each bound.
use system_design_implementa.Prelude.{
  ℕ, ◌≤◌, min, ◌≡◌, refl, Bool, true, ◌&&◌, List, [], ◌∷◌, if◌then◌else◌, arith,
}
use system_design_implementa.Prelude.Int.{ℤ, ◌≤ℤ◌, ltb_ℤ, leb_ℤ}
use system_design_implementa.Prelude.Bags.{total, reverse_onto}
use system_design_implementa.SearchAutocomplete.Trie.{Reco}

abbrev pub above : ℤ → Reco → ℕ
above f r = if ltb_ℤ f r.freq then 1 else 0

-- `out` is the best `k` of the candidates: it takes each no more often than it is there, and above
-- every bound it has all of them, or `k`.
pub record IsTop (k : ℕ) (cands out : List Reco) : Type 0 where
  pub part : (w : Reco → ℕ) → total w out ≤ total w cands
  pub best : (f : ℤ) → total (above f) out ≡ min k (total (above f) cands)
  pub size : total (λ r. 1) out ≡ min k (total (λ r. 1) cands)

abbrev pub all_le : ℤ → List Reco → Bool
all_le f [] = true
all_le f (x ∷ xs) = leb_ℤ x.freq f && all_le f xs

-- No entry has a higher frequency than one before it.
abbrev pub is_desc : List Reco → Bool
is_desc [] = true
is_desc (x ∷ xs) = all_le x.freq xs && is_desc xs

abbrev pub all_ge : ℤ → List Reco → Bool
all_ge f [] = true
all_ge f (x ∷ xs) = leb_ℤ f x.freq && all_ge f xs

abbrev pub is_asc : List Reco → Bool
is_asc [] = true
is_asc (x ∷ xs) = all_ge x.freq xs && is_asc xs

pub all_le-above : (b f : ℤ) (xs : List Reco) → all_le b xs ≡ true → b ≤ℤ f → total (above f) xs ≡ 0
unfolding total
all_le-above b f [] a h = refl
all_le-above b f (x ∷ xs) a h = ground (arith, all_le-above b f xs)

pub above-all_le : (f : ℤ) (xs : List Reco) → total (above f) xs ≡ 0 → all_le f xs ≡ true
unfolding total
above-all_le f [] e = refl
above-all_le f (x ∷ xs) e = ground (arith, above-all_le f xs)

-- How many entries have a frequency below a bound.
abbrev pub beneath : ℤ → Reco → ℕ
beneath f r = if ltb_ℤ r.freq f then 1 else 0

pub beneath-all_ge : (f : ℤ) (xs : List Reco) → total (beneath f) xs ≡ 0 → all_ge f xs ≡ true
unfolding total
beneath-all_ge f [] e = refl
beneath-all_ge f (x ∷ xs) e = ground (arith, beneath-all_ge f xs)

-- Where nothing is below `b`, everything is above a bound below `b`.
pub beneath-above :
    (b f : ℤ) (xs : List Reco)
    → total (beneath b) xs ≡ 0
    → ltb_ℤ f b ≡ true
    → total (above f) xs ≡ total (λ r. 1) xs
unfolding total
beneath-above b f [] e h = refl
beneath-above b f (x ∷ xs) e h = ground (arith, beneath-above b f xs)

pub above-le : (f : ℤ) (xs : List Reco) → total (above f) xs ≤ total (λ r. 1) xs
unfolding total
above-le f [] = omega arith
above-le f (x ∷ xs) = ground (arith, above-le f xs)

-- The best of the best.
pub IsTop-trans : (k : ℕ) (xs ys zs : List Reco) → IsTop k xs ys → IsTop k ys zs → IsTop k xs zs
IsTop-trans k xs ys zs a b = record {
  part = λ w. omega (arith, a.part w, b.part w);
  best = λ f. omega (arith, a.best f, b.best f);
  size = omega (arith, a.size, b.size);
}

all_le_mono : (a b : ℤ) (xs : List Reco) → all_le a xs ≡ true → a ≤ℤ b → all_le b xs ≡ true
all_le_mono a b [] e h = refl
all_le_mono a b (x ∷ xs) e h = ground (arith, all_le_mono a b xs)

is_desc-reverse_onto_bound :
    (b : ℤ) (xs ys : List Reco)
    → all_ge b xs ≡ true
    → all_le b ys ≡ true
    → is_asc xs ≡ true
    → is_desc ys ≡ true
    → is_desc (reverse_onto xs ys) ≡ true
unfolding reverse_onto
is_desc-reverse_onto_bound b [] ys g l a d = d
is_desc-reverse_onto_bound b (x ∷ xs) ys g l a d =
    ground (arith, is_desc-reverse_onto_bound x.freq xs (x ∷ ys), all_le_mono b x.freq ys)

pub is_desc-reverse_onto : (xs : List Reco) → is_asc xs ≡ true → is_desc (reverse_onto xs []) ≡ true
is_desc-reverse_onto [] a = unfold reverse_onto in refl
is_desc-reverse_onto (x ∷ xs) a =
    is_desc-reverse_onto_bound x.freq (x ∷ xs) [] (ground arith) refl a refl

pub no_entry : (xs : List Reco) → total (λ r. 1) xs ≡ 0 → xs ≡ []
unfolding total
no_entry [] e = refl
no_entry (x ∷ xs) e = absurd (omega arith)
