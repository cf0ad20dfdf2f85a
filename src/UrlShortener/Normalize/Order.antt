-- ===== src/UrlShortener/Normalize/Order.antt =====
-- Sorting what is sorted changes nothing.
use Prim.Native.Char.{code}
use Prim.Native.Nat.{Ordering, compare as compare_ℕ}
use Prim.Native.String as Native
use mathlib.Core.Path.{ap₂}
use system_design_implementa.Prelude.{
  ◌≡◌, ◌∙◌, ap, refl, Bool, true, false, ◌&&◌, List, [], ◌∷◌, map, String, arith, Bool-cases, inl,
  inr,
}
use system_design_implementa.UrlShortener.Normalize.{Values, place, sort, sort_values, str_le}

str_le-total : (s t : String) → str_le s t ≡ false → str_le t s ≡ true
str_le-total String.[] String.[] e = refl
str_le-total String.[] (String.◌∷◌ d t) e =
    let before : Native.compare "" (String.◌∷◌ d t) ≡ Ordering.lt = Native.compare.nil-cons d t in
    absurd (ground (arith, before))
str_le-total (String.◌∷◌ c s) String.[] e =
    let before : Native.compare "" (String.◌∷◌ c s) ≡ Ordering.lt = Native.compare.nil-cons c s in
    ground (arith, before)
str_le-total (String.◌∷◌ c s) (String.◌∷◌ d t) e =
    let one : Native.compare (String.◌∷◌ c s) (String.◌∷◌ d t)
        ≡ Native.then (compare_ℕ (code c) (code d)) (Native.compare s t) =
      Native.compare.cons-cons c d s t in
    let two : Native.compare (String.◌∷◌ d t) (String.◌∷◌ c s)
        ≡ Native.then (compare_ℕ (code d) (code c)) (Native.compare t s) =
      Native.compare.cons-cons d c t s in
    ground (arith, one, two, str_le-total s t)

module _ {ℓ} {A : Type ℓ} (le : A → A → Bool)
    (total : (x y : A) → le x y ≡ false → le y x ≡ true) where
  abbrev first_le : A → List A → Bool
  first_le x [] = true
  first_le x (y ∷ ys) = le x y

  abbrev is_sorted : List A → Bool
  is_sorted [] = true
  is_sorted (x ∷ xs) = first_le x xs && is_sorted xs

  place-sorted :
      (x : A) (ys : List A)
      → is_sorted ys ≡ true
      → (is_sorted (place le x ys) ≡ true)
        × ((z : A) → le z x ≡ true → first_le z ys ≡ true → first_le z (place le x ys) ≡ true)
  unfolding place
  place-sorted x [] s = (refl, λ z h k. h)
  place-sorted x (y ∷ ys) s = elim (Bool-cases (le x y)) [
    | inl e ↦ (ground (arith, e, s), λ z h k. ground (arith, e, h))
    | inr e ↦
        let (rest, first) = place-sorted x ys (ground arith) in
        (ground (arith, e, first y, total x y, rest, s), λ z h k. ground (arith, e, k))
  ]

  sort-sorted : (xs : List A) → is_sorted (sort le xs) ≡ true
  unfolding sort
  sort-sorted [] = refl
  sort-sorted (x ∷ xs) = (place-sorted x (sort le xs) (sort-sorted xs)).0

  sort_of_sorted : (xs : List A) → is_sorted xs ≡ true → sort le xs ≡ xs
  unfolding sort place
  sort_of_sorted [] s = refl
  sort_of_sorted (x ∷ []) s = refl
  sort_of_sorted (x ∷ y ∷ ys) s =
      ap (place le x) (sort_of_sorted (y ∷ ys) (ground arith)) ∙ ground arith

  pub sort_twice : (xs : List A) → sort le (sort le xs) ≡ sort le xs
  sort_twice xs = sort_of_sorted (sort le xs) (sort-sorted xs)

-- What `f` leaves alone, it leaves alone in another order.
map-place :
    {A : Type 0} (le : A → A → Bool) (f : A → A) (x : A) (ys : List A)
    → f x ≡ x
    → map f ys ≡ ys
    → map f (place le x ys) ≡ place le x ys
unfolding place
map-place le f x [] e h = ap (λ z. z ∷ []) e
map-place le f x (y ∷ ys) e h = ground (arith, e, h, map-place le f x ys)

map-sort :
    {A : Type 0} (le : A → A → Bool) (f : A → A) (xs : List A)
    → map f xs ≡ xs
    → map f (sort le xs) ≡ sort le xs
unfolding sort
map-sort le f [] h = refl
map-sort le f (x ∷ xs) h = map-place le f x (sort le xs) (cc) (map-sort le f xs (cc))

map_twice :
    {A : Type 0} (f : A → A) (xs : List A) → ((x : A) → f (f x) ≡ f x) → map f (map f xs) ≡ map f xs
map_twice f [] h = refl
map_twice f (x ∷ xs) h = ap₂ ◌∷◌ (h x) (map_twice f xs h)

pair : String → List String → String × List String
pair k l = (k, l)

pub sort_values_twice : (q : Values) → sort_values (sort_values q) ≡ sort_values q
unfolding sort_values pair
sort_values_twice q =
    let by_key = λ (a b : String × List String). str_le a.0 b.0 in
    let each : String × List String → String × List String = λ e. (e.0, sort str_le e.1) in
    let kept =
      map-sort by_key each (map each q)
        (map_twice each q (λ e. ap (pair e.0) (sort_twice str_le str_le-total e.1))) in
    ap (sort by_key) kept ∙ sort_twice by_key (λ a b. str_le-total a.0 b.0) (map each q)
