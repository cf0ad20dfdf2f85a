-- ===== src/ConsistentHashing/Order.antt =====
-- The order of the ring, and the hash that a key belongs to told without it.
use system_design_implementa.Prelude.{
  Bool-cases, Option-cases, inl, inr, ℕ, ◌≤◌, ◌<◌, ◌≡◌, ◌≢◌, refl, ap, Bool, true, false, List, [],
  ◌∷◌, ◌++◌, none, some, arith, leb, if◌then◌else◌,
}
use system_design_implementa.ConsistentHashing.Ring.{
  has, place, sort, search, target, first, without,
}

abbrev pub IsSorted : List ℕ → Type 0
IsSorted [] = Unit {0}
IsSorted (x ∷ xs) = ((y : ℕ) → has y xs ≡ true → x ≤ y) × IsSorted xs

-- Going round from `k`, `h` comes no later than `x`.
abbrev pub precedes : ℕ → ℕ → ℕ → Bool
precedes k h x =
    if leb k h then (if leb k x then leb h x else true) else (if leb k x then false else leb h x)

-- `h` is the first of the hashes going round from `k`, whatever their order in the list.
abbrev pub IsTarget : ℕ → List ℕ → ℕ → Type 0
IsTarget k xs h = (has h xs ≡ true) × ((x : ℕ) → has x xs ≡ true → precedes k h x ≡ true)

pub has-append : (h : ℕ) (xs ys : List ℕ) → has h (xs ++ ys) ≡ (if has h xs then true else has h ys)
unfolding has
has-append h [] ys = refl
has-append h (x ∷ xs) ys = ground (arith, has-append h xs ys)

has-place : (h x : ℕ) (xs : List ℕ) → has h (place x xs) ≡ has h (x ∷ xs)
unfolding has place
has-place h x [] = refl
has-place h x (y ∷ ys) = ground (arith, has-place h x ys)

pub has-sort : (h : ℕ) (xs : List ℕ) → has h (sort xs) ≡ has h xs
unfolding has sort
has-sort h [] = refl
has-sort h (x ∷ xs) = ground (arith, has-place h x (sort xs), has-sort h xs)

pub has-without :
    (h : ℕ) (hs xs : List ℕ) → has h (without hs xs) ≡ (if has h hs then false else has h xs)
unfolding has without
has-without h hs [] = ground arith
has-without h hs (x ∷ xs) = ground (arith, has-without h hs xs)

place-IsSorted : (x : ℕ) (xs : List ℕ) → IsSorted xs → IsSorted (place x xs)
unfolding place has
place-IsSorted x [] s = ((λ y e. grind arith), tt)
place-IsSorted x (y ∷ ys) s =
    let rest = place-IsSorted x ys s.1 in
    elim (Bool-cases (leb x y)) [
      | inl t ↦ rw (t) ((λ z e. grind (arith, s.0 z)), s)
      | inr f ↦ rw (f) ((λ z e. grind (arith, s.0 z, has-place z x ys)), rest)
    ]

pub sort-IsSorted : (xs : List ℕ) → IsSorted (sort xs)
unfolding sort
sort-IsSorted [] = tt
sort-IsSorted (x ∷ xs) = place-IsSorted x (sort xs) (sort-IsSorted xs)

pub without-IsSorted : (hs xs : List ℕ) → IsSorted xs → IsSorted (without hs xs)
unfolding without
without-IsSorted hs [] s = tt
without-IsSorted hs (x ∷ xs) s =
    let rest = without-IsSorted hs xs s.1 in
    elim (Bool-cases (has x hs)) [
      | inl t ↦ rw (t) rest
      | inr f ↦ rw (f) ((λ z e. grind (arith, s.0 z, has-without z hs xs)), rest)
    ]

search-some :
    (k h : ℕ) (xs : List ℕ)
    → IsSorted xs
    → search k xs ≡ some h
    → (has h xs ≡ true) × (k ≤ h) × ((y : ℕ) → has y xs ≡ true → k ≤ y → h ≤ y)
unfolding search has
search-some k h [] s e = ground arith
search-some k h (x ∷ xs) s e = elim (Bool-cases (leb k x)) [
  | inl t ↦ ((grind arith), (grind arith), λ y m l. grind (arith, s.0 y))
  | inr f ↦
      let ih = search-some k h xs s.1 (grind arith) in
      ((grind (arith, ih.0)), ih.1, λ y m l. grind (arith, ih.2 y))
]

search-none : (k : ℕ) (xs : List ℕ) → search k xs ≡ none → (y : ℕ) → has y xs ≡ true → y < k
unfolding search has
search-none k [] e y m = ground arith
search-none k (x ∷ xs) e y m = elim (Bool-cases (leb k x)) [
  | inl t ↦ ground arith
  | inr f ↦ let ih = search-none k xs (ground arith) y in grind (arith, ih)
]

first-IsTarget :
    (k h : ℕ) (xs : List ℕ)
    → IsSorted xs
    → ((y : ℕ) → has y xs ≡ true → y < k)
    → first xs ≡ some h
    → IsTarget k xs h
unfolding first has
first-IsTarget k h [] s l e = ground arith
first-IsTarget k h (x ∷ xs) s l e =
    let same : x ≡ h = ground arith in ((grind arith), λ y m. grind (arith, l y m, l x, s.0 y))

pub target-IsTarget : (k h : ℕ) (xs : List ℕ) → IsSorted xs → target k xs ≡ some h → IsTarget k xs h
unfolding target
target-IsTarget k h xs s e = elim (Option-cases (search k xs)) [
  | inl n ↦ first-IsTarget k h xs s (search-none k xs n) (ground (arith, e, n))
  | inr (g, f) ↦
      let found = search-some k g xs s f in
      let same : g ≡ h = ground (arith, e, f) in
      ((rw⁻¹ (same) found.0), λ x m. grind (arith, found.2 x m, found.1, same))
]

pub target_unique : (k g h : ℕ) (xs : List ℕ) → IsTarget k xs g → IsTarget k xs h → g ≡ h
target_unique k g h xs t u = ground (arith, t.1 h u.0, u.1 g t.0)

pub target-none : (k : ℕ) (xs : List ℕ) → target k xs ≡ none → xs ≡ []
unfolding target first
target-none k [] e = refl
target-none k (x ∷ xs) e = ground arith

pub has-target : (k h : ℕ) (xs : List ℕ) → has h xs ≡ true → target k xs ≢ none
unfolding has
has-target k h xs m n = ground (arith, m, ap (λ (l : List ℕ). has h l) (target-none k xs n))
