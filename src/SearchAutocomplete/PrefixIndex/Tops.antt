-- ===== src/SearchAutocomplete/PrefixIndex/Tops.antt =====
-- The completions that walkForIndex makes for a node, against the walk below it.
use mathlib.Core.Path.{subst⁻¹}
use system_design_implementa.Prelude.{
  ℕ, ◌≤◌, ◌≡◌, refl, sym, ap, true, false, List, [], ◌∷◌, ◌++◌, map, arith,
}
use system_design_implementa.Prelude.Int.{ℤ, pos, negsuc, ltb_ℤ}
use system_design_implementa.Prelude.Bags.{total}
use system_design_implementa.SearchAutocomplete.Trie.{Reco, Node, node, Children, no_child, child}
use system_design_implementa.SearchAutocomplete.Heap.{Heap}
use system_design_implementa.SearchAutocomplete.Suggest.{dfs, dfs_children}
use system_design_implementa.SearchAutocomplete.Ranking.{IsTop, above, is_desc, all_le-above}
use system_design_implementa.SearchAutocomplete.Merge.{head_less}
use system_design_implementa.SearchAutocomplete.Cache.{entries, best_of, own}
use system_design_implementa.SearchAutocomplete.Cache.Laws.{
  AreTops, nothing-AreTops, own-AreTops, best_of-IsTop,
}
use system_design_implementa.SearchAutocomplete.Cache.Parallel.{front-AreTops}
use system_design_implementa.SearchAutocomplete.PrefixIndex.{index_top}
use system_design_implementa.SearchAutocomplete.PrefixIndex.Walk.{top_below, tops_below}

module _ {H : Type 0} (q : Heap head_less H) (k : ℕ) (pos : 1 ≤ k) where
  index_top-best_of : (ls : List (List Reco)) → index_top q k ls ≡ entries (best_of q k ls)
  unfolding index_top best_of
  index_top-best_of [] = refl
  index_top-best_of (l ∷ []) = refl
  index_top-best_of (l ∷ l' ∷ ls) = refl

  mutual
    unfolding top_below dfs

    pub top_below-IsTop :
        (prefix : List ℕ) (n : Node)
        → IsTop k (dfs prefix n) (top_below q k prefix n)
          × (is_desc (top_below q k prefix n) ≡ true)
    top_below-IsTop prefix (node is_word freq old cs) =
        let r : Reco = record { word = prefix; freq = freq } in
        let lists = own is_word r (tops_below q k prefix cs) in
        subst⁻¹ (λ l. IsTop k (dfs prefix (node is_word freq old cs)) l × (is_desc l ≡ true))
          (index_top-best_of lists)
          (best_of-IsTop q k pos (dfs prefix (node is_word freq old cs)) lists (
            own-AreTops k is_word r (dfs_children prefix cs) (tops_below q k prefix cs) pos
              (tops_below-AreTops prefix cs)))

    tops_below-AreTops :
        (prefix : List ℕ) (cs : Children)
        → AreTops k (dfs_children prefix cs) (tops_below q k prefix cs)
    tops_below-AreTops prefix no_child = nothing-AreTops k
    tops_below-AreTops prefix (child x n cs) =
        let (t, d) = top_below-IsTop (prefix ++ x ∷ []) n in
        front-AreTops k (dfs (prefix ++ x ∷ []) n) (dfs_children prefix cs)
          (top_below q k (prefix ++ x ∷ []) n) (tops_below q k prefix cs) t d
          (tops_below-AreTops prefix cs)

abbrev pub freqs : List Reco → List ℤ
freqs = map (λ r. r.freq)

same_freq : (a b : ℤ) → ltb_ℤ a b ≡ false → ltb_ℤ b a ≡ false → a ≡ b
same_freq (pos m) (pos n) e f = ap pos (ground arith)
same_freq (pos m) (negsuc n) e f = absurd (ground arith)
same_freq (negsuc m) (pos n) e f = absurd (ground arith)
same_freq (negsuc m) (negsuc n) e f = ap negsuc (ground arith)

not_above :
    (x y : Reco) (xs ys : List Reco)
    → is_desc (y ∷ ys) ≡ true
    → total (above y.freq) (x ∷ xs) ≡ total (above y.freq) (y ∷ ys)
    → ltb_ℤ y.freq x.freq ≡ false
unfolding total
not_above x y xs ys d e = ground (arith, all_le-above y.freq y.freq ys)

-- Two lists in order, with equally many entries above each bound, have the same frequencies.
same_counts-freqs :
    (xs ys : List Reco)
    → is_desc xs ≡ true
    → is_desc ys ≡ true
    → total (λ r. 1) xs ≡ total (λ r. 1) ys
    → ((f : ℤ) → total (above f) xs ≡ total (above f) ys)
    → freqs xs ≡ freqs ys
unfolding total
same_counts-freqs [] [] d e s h = refl
same_counts-freqs [] (y ∷ ys) d e s h = absurd (omega arith)
same_counts-freqs (x ∷ xs) [] d e s h = absurd (omega arith)
same_counts-freqs (x ∷ xs) (y ∷ ys) d e s h =
    let heads =
      same_freq x.freq y.freq (not_above y x ys xs d (sym (h x.freq)))
        (not_above x y xs ys e (h y.freq)) in
    let tails =
      same_counts-freqs xs ys (ground arith) (ground arith) (omega arith)
        (λ f. ground (arith, h f, heads)) in
    λ i. heads i ∷ tails i

-- What is best is unique up to phrases of the same frequency.
pub IsTop-freqs :
    (k : ℕ) (found xs ys : List Reco)
    → IsTop k found xs
    → IsTop k found ys
    → is_desc xs ≡ true
    → is_desc ys ≡ true
    → freqs xs ≡ freqs ys
IsTop-freqs k found xs ys t u d e =
    same_counts-freqs xs ys d e (omega (arith, t.size, u.size))
      (λ f. omega (arith, t.best f, u.best f))
