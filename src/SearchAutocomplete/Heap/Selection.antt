-- ===== src/SearchAutocomplete/Heap/Selection.antt =====
-- A heap that is a list, from which Pop selects: it has all the laws of a heap.
use system_design_implementa.Prelude.{
  ℕ, ◌+◌, ◌≤◌, ◌≡◌, refl, sym, ap, ◌∙◌, Bool, true, false, List, [], ◌∷◌, Option, none, some,
  if◌then◌else◌, arith, Bool-cases, inl, inr,
}
use system_design_implementa.Prelude.Bags.{total, total-le}
use system_design_implementa.SearchAutocomplete.Heap.{Heap, earlier}

module _ {A : Type 0} (before : A → A → Bool) where
  unfoldable pick : A → List A → A × List A
  pick x [] = (x, [])
  pick x (y ∷ ys) = let (m, r) = pick x ys in if before y m then (y, m ∷ r) else (m, y ∷ r)

  unfoldable pub select : List A → Option (A × List A)
  unfolding pick
  select [] = none
  select (x ∷ xs) = some (pick x xs)

module _ {A : Type 0} (before : A → A → Bool) (irrefl : (x : A) → before x x ≡ false)
    (trans : (x y z : A) → before x y ≡ true → before y z ≡ true → before x z ≡ true) where
  total-pick :
      (w : A → ℕ) (x : A) (xs : List A)
      → w x + total w xs ≡ w (pick before x xs).0 + total w (pick before x xs).1
  unfolding total pick
  total-pick w x [] = refl
  total-pick w x (y ∷ ys) = ground (arith, total-pick w x ys)

  earlier-le : (m y z : A) → before y m ≡ true → earlier before y z ≤ earlier before m z
  earlier-le m y z e = ground (arith, trans z y m)

  pick-first :
      (x : A) (xs : List A)
      → earlier before (pick before x xs).0 x + total (earlier before (pick before x xs).0) xs ≡ 0
  unfolding total pick
  pick-first x [] = ground (arith, irrefl x)
  pick-first x (y ∷ ys) =
      let m = (pick before x ys).0 in
      let ih = pick-first x ys in
      elim (Bool-cases (before y m)) [
        | inl e ↦
            let fewer =
              total-le (earlier before y) (earlier before m) ys (λ z. earlier-le m y z e) in
            ground (arith, ih, fewer, earlier-le m y x e, irrefl y, e)
        | inr e ↦ ground (arith, ih, e)
      ]

  pub select-none : (h : List A) → select before h ≡ none → h ≡ []
  unfolding select
  select-none [] e = refl
  select-none (x ∷ xs) e = ground arith

  some-pair : {B : Type 0} {a b : B} → some a ≡ some b → a ≡ b
  some-pair e = cc

  pub select-some :
      (w : A → ℕ) (x : A) (h h' : List A)
      → select before h ≡ some (x, h')
      → total w h ≡ w x + total w h'
  unfolding select total
  select-some w m [] h' e = ground arith
  select-some w m (x ∷ xs) h' e =
      let p = some-pair e in total-pick w x xs ∙ ap (λ (q : A × List A). w q.0 + total w q.1) p

  pub select-first :
      (m : A) (h h' : List A) → select before h ≡ some (m, h') → total (earlier before m) h ≡ 0
  unfolding select total
  select-first m [] h' e = refl
  select-first m (x ∷ xs) h' e =
      let p = some-pair e in
      ap (λ (q : A × List A). earlier before q.0 x + total (earlier before q.0) xs) (sym p)
      ∙ pick-first x xs

  pub total-cons : (w : A → ℕ) (x : A) (xs : List A) → total w (x ∷ xs) ≡ w x + total w xs
  unfolding total
  total-cons w x xs = refl

  -- The laws hold for every list, in whatever order its entries came.
  unfoldable pub selection : Heap before (List A)
  unfolding select
  selection = record {
    empty = [];
    push = ◌∷◌;
    pop = select before;
    len = total (λ x. 1);
    items = λ h. h;
    items-empty = refl;
    items-push = total-cons;
    pop-none = select-none;
    pop-some = select-some;
    pop-first = select-first;
    len-items = λ h. refl;
  }
