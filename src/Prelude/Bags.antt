-- ===== src/Prelude/Bags.antt =====
-- Lists up to order: a list weighed by a function on its entries. Two lists with the same total for
-- every weight have the same entries, each as often.
use Prim.Native.Nat.{ℕ, ◌+◌, ◌≤◌}
use mathlib.Core.Path.{◌≡◌}
use mathlib.Core.List.{List, [], ◌∷◌, ◌++◌}
use native.Mathlib.Omega.{arith}

module _ {ℓ} {A : Type ℓ} where
  unfoldable pub total : (A → ℕ) → List A → ℕ
  total w [] = 0
  total w (x ∷ xs) = w x + total w xs

  unfoldable pub reverse_onto : List A → List A → List A
  reverse_onto [] ys = ys
  reverse_onto (x ∷ xs) ys = reverse_onto xs (x ∷ ys)

  pub total-append : (w : A → ℕ) (xs ys : List A) → total w (xs ++ ys) ≡ total w xs + total w ys
  unfolding total
  total-append w [] ys = omega arith
  total-append w (x ∷ xs) ys = omega (arith, total-append w xs ys)

  pub total-reverse_onto :
      (w : A → ℕ) (xs ys : List A) → total w (reverse_onto xs ys) ≡ total w xs + total w ys
  unfolding total reverse_onto
  total-reverse_onto w [] ys = omega arith
  total-reverse_onto w (x ∷ xs) ys = omega (arith, total-reverse_onto w xs (x ∷ ys))

  pub total-le : (v w : A → ℕ) (xs : List A) → ((x : A) → v x ≤ w x) → total v xs ≤ total w xs
  unfolding total
  total-le v w [] h = omega arith
  total-le v w (x ∷ xs) h = omega (arith, h x, total-le v w xs h)
