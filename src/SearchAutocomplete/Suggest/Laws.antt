-- ===== src/SearchAutocomplete/Suggest/Laws.antt =====
-- The walk finds every word.
use system_design_implementa.Prelude.{
  ℕ, ◌≡◌, ◌≢◌, refl, sym, ap, true, false, List, [], ◌∷◌, ◌++◌, none, some, arith, ◌==◌, ==_iff,
  Any, here, there, Bool-cases, Option-cases, inl, inr,
}
use mathlib.Core.Path.{subst}
use system_design_implementa.Prelude.Int.{ℤ}
use system_design_implementa.SearchAutocomplete.Trie.{
  Reco, Node, node, Children, no_child, child, child_at, search, descend,
}
use system_design_implementa.SearchAutocomplete.Trie.Laws.{frequency}
use system_design_implementa.SearchAutocomplete.Suggest.{dfs, dfs_children}

module _ {ℓ κ} {A : Type ℓ} {P : A → Type κ} where
  Any-left : (xs ys : List A) → Any P xs → Any P (xs ++ ys)
  Any-left [] ys a = elim a [ ]
  Any-left (x ∷ xs) ys (here p) = here p
  Any-left (x ∷ xs) ys (there a) = there (Any-left xs ys a)

  Any-right : (xs ys : List A) → Any P ys → Any P (xs ++ ys)
  Any-right [] ys a = a
  Any-right (x ∷ xs) ys a = there (Any-right xs ys a)

pub append_snoc : (p s : List ℕ) (x : ℕ) → (p ++ x ∷ []) ++ s ≡ p ++ x ∷ s
append_snoc [] s x = refl
append_snoc (y ∷ p) s x = ap (λ (l : List ℕ). y ∷ l) (append_snoc p s x)

none-some : {A : Type 0} (x : A) → none ≢ some x
none-some x e = cc

pub append_nil : (p : List ℕ) → p ≡ p ++ []
append_nil [] = refl
append_nil (y ∷ p) = ap (λ (l : List ℕ). y ∷ l) (append_nil p)

dfs_children-Any :
    {P : Reco → Type 0} (p : List ℕ) (x : ℕ) (n : Node) (cs : Children)
    → child_at x cs ≡ some n
    → Any P (dfs (p ++ x ∷ []) n)
    → Any P (dfs_children p cs)
unfolding child_at dfs_children
dfs_children-Any p x n no_child e a = elim (none-some n e) [ ]
dfs_children-Any {P} p x n (child y m cs) e a = elim (Bool-cases (y == x)) [
  | inl i ↦
      let same : m ≡ n = ground (arith, e, i) in
      Any-left (dfs (p ++ y ∷ []) m) (dfs_children p cs) (
        subst (λ (k : Node). Any P (dfs (p ++ y ∷ []) k)) (sym same)
          (subst (λ (z : ℕ). Any P (dfs (p ++ z ∷ []) n)) (sym ((==_iff y x).0 i)) a))
  | inr o ↦
      Any-right (dfs (p ++ y ∷ []) m) (dfs_children p cs)
        (dfs_children-Any p x n cs (ground (arith, e, o)) a)
]

-- DFS lists every word of the trie below the prefix, as the prefix and the rest of the word, with its
-- frequency.
pub dfs_complete :
    (s p : List ℕ) (n : Node) (f : ℤ)
    → frequency s n ≡ some f
    → Any (λ r. r ≡ record { word = p ++ s; freq = f }) (dfs p n)
unfolding frequency search descend dfs
dfs_complete [] p (node true g top cs) f e =
    let same : g ≡ f = ground (arith, e) in here (rw⁻¹ (append_nil p) (rw same refl))
dfs_complete [] p (node false g top cs) f e = elim (none-some f e) [ ]
dfs_complete (x ∷ s) p (node w g top cs) f e = elim (Option-cases (child_at x cs)) [
  | inl n ↦ elim (none-some f (ground (arith, e, n))) [ ]
  | inr (m, found) ↦
      let below = dfs_complete s (p ++ x ∷ []) m f (ground (arith, e, found)) in
      let whole =
        subst (λ (l : List ℕ). Any (λ r. r ≡ record { word = l; freq = f }) (dfs (p ++ x ∷ []) m))
          (append_snoc p s x) below in
      let inside = dfs_children-Any p x m cs found whole in
      elim (Bool-cases w) [ inl t ↦ rw t (there inside) | inr t ↦ rw t inside ]
]
