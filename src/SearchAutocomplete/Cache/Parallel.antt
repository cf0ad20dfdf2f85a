-- ===== src/SearchAutocomplete/Cache/Parallel.antt =====
-- BuildCacheParallel, which Load calls, over a trie whose phrases begin with ASCII.
use mathlib.Core.Path.{subst⁻¹}
use system_design_implementa.Prelude.{
  ℕ, ◌≤◌, ◌≡◌, refl, ◌∙◌, ap, Bool, true, false, ◌&&◌, List, [], ◌∷◌, ◌++◌, none, some, ltb, arith,
}
use system_design_implementa.Prelude.Bags.{total-append}
use system_design_implementa.SearchAutocomplete.Trie.{
  Reco, Node, node, Children, no_child, child, descend,
}
use system_design_implementa.SearchAutocomplete.Heap.{Heap}
use system_design_implementa.SearchAutocomplete.Suggest.{dfs, dfs_children}
use system_design_implementa.SearchAutocomplete.Ranking.{IsTop, above, is_desc}
use system_design_implementa.SearchAutocomplete.TopK.{rec_less}
use system_design_implementa.SearchAutocomplete.Merge.{head_less, merge_top_k}
use system_design_implementa.SearchAutocomplete.Merge.Laws.{joined, merge_top_k_correct}
use system_design_implementa.SearchAutocomplete.Cache.Kept.{
  IsCached, ChildrenCached, is_fresh, all_fresh-ChildrenCached,
}
use system_design_implementa.SearchAutocomplete.Cache.Laws.{
  AreTops, nothing-AreTops, traverse-IsTop, traverse_children-Cached, dfs_children-traverse,
}
use system_design_implementa.SearchAutocomplete.Cache.Answers.{AnswersTop, suggest-AnswersTop}
use system_design_implementa.SearchAutocomplete.Cache.{
  entries, traverse, traverse_children, first_rune, gather, build_cache_parallel, suggest,
}

-- The root is no word and its keys are ASCII.
abbrev ascii_keys : Children → Bool
ascii_keys no_child = true
ascii_keys (child x n cs) = ltb x 128 && ascii_keys cs

abbrev pub is_plain : Node → Bool
is_plain (node true freq top cs) = false
is_plain (node false freq top cs) = ascii_keys cs

first_rune-ascii : (x : ℕ) → ltb x 128 ≡ true → first_rune x ≡ x
unfolding first_rune
first_rune-ascii x h = ground arith

pub front-AreTops :
    (k : ℕ) (xs ys l : List Reco) (ls : List (List Reco))
    → IsTop k xs l
    → is_desc l ≡ true
    → AreTops k ys ls
    → AreTops k (xs ++ ys) (l ∷ ls)
front-AreTops k xs ys l ls t d ts =
    let joins = λ (w : Reco → ℕ). total-append w l (joined ls) in
    let both = λ (w : Reco → ℕ). total-append w xs ys in
    record {
      part = λ w. omega (arith, joins w, both w, t.part w, ts.part w);
      best = λ f. omega (arith, joins (above f), both (above f), t.best f, ts.best f);
      size = omega (arith, joins (λ r. 1), both (λ r. 1), t.size, ts.size);
      desc = ground (arith, ts.desc);
      short = ground (arith, t.size, ts.short);
    }

module _ {H : Type 0} (q : Heap head_less H) (k : ℕ) (pos : 1 ≤ k) where
  gather-children :
      (depth : ℕ) (cs : Children)
      → ascii_keys cs ≡ true
      → (gather q k depth cs).0 ≡ (traverse_children q k depth [] cs).0
  unfolding gather traverse
  gather-children depth no_child a = refl
  gather-children depth (child x n cs) a =
      let same = first_rune-ascii x (ground arith) in
      let rest = gather-children depth cs (ground arith) in
      λ i. child x (traverse q k depth (same i ∷ []) n).0 (rest i)

  gather-AreTops :
      (depth : ℕ) (cs : Children)
      → ascii_keys cs ≡ true
      → AreTops k (dfs_children [] cs) (gather q k depth cs).1
  unfolding gather dfs
  gather-AreTops depth no_child a = nothing-AreTops k
  gather-AreTops depth (child x n cs) a =
      let same = first_rune-ascii x (ground arith) in
      let (t, d) = traverse-IsTop q k pos depth (x ∷ []) n in
      subst⁻¹
        (λ y.
          AreTops k (dfs (x ∷ []) n ++ dfs_children [] cs)
            (entries (traverse q k depth (y ∷ []) n).1 ∷ (gather q k depth cs).1))
        same
        (front-AreTops k (dfs (x ∷ []) n) (dfs_children [] cs)
          (entries (traverse q k depth (x ∷ []) n).1) (gather q k depth cs).1 t d
          (gather-AreTops depth cs (ground arith)))

  parallel-IsCached :
      (depth : ℕ) (t : Node)
      → is_plain t ≡ true
      → is_fresh t ≡ true
      → IsCached k [] (build_cache_parallel q k depth t)
  unfolding build_cache_parallel IsCached is_fresh dfs
  parallel-IsCached depth (node true freq top cs) a f = absurd (cc)
  parallel-IsCached depth (node false freq (some l) cs) a f = absurd (cc)
  parallel-IsCached depth (node false freq none cs) a f =
      let tops = gather-AreTops depth cs a in
      let (m, d) = merge_top_k_correct q (gather q k depth cs).1 k tops.desc in
      let same = gather-children depth cs a in
      let found = ap (dfs_children []) same ∙ dfs_children-traverse q k pos depth [] [] cs in
      let top : IsTop k (dfs_children [] cs) (merge_top_k q (gather q k depth cs).1 k) = record {
        part = λ w. omega (arith, m.part w, tops.part w);
        best = λ f. omega (arith, m.best f, tops.best f);
        size = omega (arith, m.size, tops.size);
      } in
      (
        (subst⁻¹ (λ l. IsTop k l (merge_top_k q (gather q k depth cs).1 k)) found top, d),
        subst⁻¹ (ChildrenCached k []) same
            (traverse_children-Cached q k pos depth [] cs (all_fresh-ChildrenCached k [] cs f)),
      )

-- BuildCacheParallel over a trie with no caches yet, whose root is no word and has ASCII runes only below
-- it: for k at least 1 and a text that leads to a node, Suggest answers with the words of the best k of
-- what the walk finds below that node, the highest frequency first.
pub build_cache_parallel-suggest :
    {H H' : Type 0} (q : Heap head_less H) (q' : Heap rec_less H') (s : List ℕ) (k depth : ℕ)
    (t n : Node)
    → 1 ≤ k
    → is_plain t ≡ true
    → is_fresh t ≡ true
    → descend s (build_cache_parallel q k depth t) ≡ some n
    → AnswersTop k (dfs s n) (suggest q' s k (build_cache_parallel q k depth t))
build_cache_parallel-suggest q q' s k depth t n pos a f found =
    suggest-AnswersTop q' s k (build_cache_parallel q k depth t) n pos
      (parallel-IsCached q k pos depth t a f) found
