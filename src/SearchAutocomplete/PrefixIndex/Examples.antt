-- ===== src/SearchAutocomplete/PrefixIndex/Examples.antt =====
-- The prefix index of the phrases "to", "tea" and "to" again.
use system_design_implementa.Prelude.{◌≡◌, refl, [], ◌∷◌, none, some, arith}
use system_design_implementa.Prelude.Bags.{total}
use system_design_implementa.SearchAutocomplete.Trie.{
  descend, build_trie, insert, new_node, put_child, child_at,
}
use system_design_implementa.SearchAutocomplete.Seeder.{find}
use system_design_implementa.SearchAutocomplete.Heap.Selection.{select, selection}
use system_design_implementa.SearchAutocomplete.Examples.{
  lines, built, to_word, low_first, high_first,
}
use system_design_implementa.SearchAutocomplete.Merge.{merge_top_k}
use system_design_implementa.SearchAutocomplete.Cache.{build_cache_parallel}
use system_design_implementa.SearchAutocomplete.PrefixIndex.{
  index_of, suggest_in, trie_impl, prefix_hash, other_impl, Suggester, load, suggest_by,
}
use system_design_implementa.SearchAutocomplete.PrefixIndex.Keys.{has_key, is_tree}
use system_design_implementa.SearchAutocomplete.PrefixIndex.Laws.{
  Indexes, index_of_correct, Agree, load_agrees,
}

other_impl_test : load high_first low_first lines other_impl 1 2 ≡ none
unfolding load
other_impl_test = refl

suggest_in_test : suggest_in (116 ∷ []) (index_of high_first 1 built) ≡ some (to_word ∷ [])
unfolding suggest_in index_of build_trie insert new_node put_child child_at select total selection
    find merge_top_k
suggest_in_test = refl

suggest_in_other_test : suggest_in (97 ∷ []) (index_of high_first 1 built) ≡ none
unfolding suggest_in index_of build_trie insert new_node put_child child_at select total selection
    find merge_top_k
suggest_in_other_test = refl

index_of_correct_example :
    Indexes 1 (116 ∷ []) (descend (116 ∷ []) built) (find (116 ∷ []) (index_of high_first 1 built))
index_of_correct_example =
    index_of_correct high_first 1 (116 ∷ []) built (omega arith)
      (unfold is_tree has_key build_trie insert new_node put_child child_at in refl)

load_agrees_example :
    (a b : Suggester) × (load high_first low_first lines trie_impl 1 2 ≡ some a)
    × (load high_first low_first lines prefix_hash 1 2 ≡ some b)
    × Agree 1
        (116 ∷ [])
        (suggest_by high_first low_first 1 (116 ∷ []) a)
        (suggest_by high_first low_first 1 (116 ∷ []) b)
        (descend (116 ∷ []) (build_cache_parallel high_first 1 2 (build_trie lines new_node)))
load_agrees_example =
    load_agrees high_first low_first 1 lines 2 (116 ∷ []) (omega arith)
      (unfold build_trie insert new_node put_child child_at in refl)
