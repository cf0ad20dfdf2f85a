-- ===== src/SearchAutocomplete/PrefixIndex.antt =====
-- search_autocomplete/internal/trie/prefix_index.go, index.go and walkForIndex of trie.go: a map from
-- each text of the trie to its best completions. The slice nil and an empty slice are both the empty
-- list here, since nothing that reads the index tells them apart.
pub mod Keys
pub mod Walk
pub mod Tops
pub mod Laws
pub mod Examples
use system_design_implementa.Prelude.{
  ℕ, Bool, List, [], ◌∷◌, ◌++◌, map, Option, none, some, if◌then◌else◌,
}
use system_design_implementa.Prelude.Int.{ℤ}
use system_design_implementa.SearchAutocomplete.Trie.{
  Reco, Node, node, Children, no_child, child, new_node, build_trie,
}
use system_design_implementa.SearchAutocomplete.Heap.{Heap}
use system_design_implementa.SearchAutocomplete.TopK.{rec_less}
use system_design_implementa.SearchAutocomplete.Merge.{head_less, merge_top_k}
use system_design_implementa.SearchAutocomplete.Cache.{own, build_cache_parallel, suggest, words}
use system_design_implementa.SearchAutocomplete.Seeder.{find, put}

abbrev pub PrefixIndex : Type 0
PrefixIndex = List (List ℕ × List Reco)

module _ {H : Type 0} (q : Heap head_less H) (k : ℕ) where
  -- The tests on the number of lists.
  unfoldable pub index_top : List (List Reco) → List Reco
  index_top [] = []
  index_top (l ∷ []) = l
  index_top (l ∷ l' ∷ ls) = merge_top_k q (l ∷ l' ∷ ls) k

  -- walkForIndex: the index afterwards and the best completions below the node.
  unfoldable mutual
    unfolding index_top own put

    pub walk_for_index : List ℕ → Node → PrefixIndex → PrefixIndex × List Reco
    walk_for_index prefix (node is_word freq old cs) pi =
        let (pi', cands) = walk_children prefix cs pi in
        let top = index_top (own is_word (record { word = prefix; freq = freq }) cands) in
        (put prefix top pi', top)

    pub walk_children : List ℕ → Children → PrefixIndex → PrefixIndex × List (List Reco)
    walk_children prefix no_child pi = (pi, [])
    walk_children prefix (child x n cs) pi =
        let (pi', top) = walk_for_index (prefix ++ x ∷ []) n pi in
        let (pi'', cands) = walk_children prefix cs pi' in (pi'', top ∷ cands)

  -- BuildPrefixIndex
  unfoldable pub index_of : Node → PrefixIndex
  unfolding walk_for_index
  index_of root = (walk_for_index [] root []).0

-- PrefixIndex.Suggest; none is the slice nil.
unfoldable pub suggest_in : List ℕ → PrefixIndex → Option (List (List ℕ))
unfolding find
suggest_in prefix pi = elim (find prefix pi) [ none ↦ none | some l ↦ some (words l) ]

-- The implementation that the caller names, and what Load gives for it.
pub data Impl : Type 0 where
  trie_impl prefix_hash other_impl : Impl

pub data Suggester : Type 0 where
  trie_of : Node → Suggester
  index : PrefixIndex → Suggester

module _ {H H' : Type 0} (q : Heap head_less H) (q' : Heap rec_less H') where
  -- Load over the lines that ParseLine accepts; none is the error.
  unfoldable pub load : List (List ℕ × ℤ) → Impl → ℕ → ℕ → Option Suggester
  unfolding build_trie build_cache_parallel index_of
  load lines impl k depth =
      let root = build_cache_parallel q k depth (build_trie lines new_node) in
      elim impl [
        | trie_impl ↦ some (Suggester.trie_of root)
        | prefix_hash ↦ some (Suggester.index (index_of q k root))
        | other_impl ↦ none
      ]

  -- Suggest of the interface Suggester, whose trie has K = k. The outer none is the panic of topK.
  unfoldable pub suggest_by : ℕ → List ℕ → Suggester → Option (Option (List (List ℕ)))
  unfolding suggest suggest_in
  suggest_by k prefix (trie_of root) = suggest q' prefix k root
  suggest_by k prefix (index pi) = some (suggest_in prefix pi)
