-- ===== src/SearchAutocomplete/Heap.antt =====
-- container/heap as the trie's code relies on it: what a heap holds is a matter of its entries and not
-- of their order, and Pop takes an entry that no other one comes before.
pub mod Selection
use system_design_implementa.Prelude.{
  ℕ, ◌+◌, ◌≡◌, Bool, List, [], ◌∷◌, Option, none, some, if◌then◌else◌,
}
use system_design_implementa.Prelude.Bags.{total}

-- How many entries come before `x`.
abbrev pub earlier : {A : Type 0} → (A → A → Bool) → A → A → ℕ
earlier before x y = if before y x then 1 else 0

-- `before` is the method Less, and Top reads the entry that Pop would take.
pub record Heap {A : Type 0} (before : A → A → Bool) (H : Type 0) : Type 0 where
  pub empty : H
  pub push : A → H → H
  pub pop : H → Option (A × H)
  pub len : H → ℕ
  pub items : H → List A
  pub items-empty : items empty ≡ []
  pub items-push :
      (w : A → ℕ) (x : A) (h : H) → total w (items (push x h)) ≡ w x + total w (items h)
  pub pop-none : (h : H) → pop h ≡ none → items h ≡ []
  pub pop-some :
      (w : A → ℕ) (x : A) (h h' : H)
      → pop h ≡ some (x, h')
      → total w (items h) ≡ w x + total w (items h')
  pub pop-first : (x : A) (h h' : H) → pop h ≡ some (x, h') → total (earlier before x) (items h) ≡ 0
  pub len-items : (h : H) → len h ≡ total (λ x. 1) (items h)
