-- ===== src/SearchAutocomplete/Cache.antt =====
-- search_autocomplete/internal/trie/cache.go and Suggest of suggest.go: the completions that nodes
-- cache. A path is its runes; none is the slice nil. The trie's K and CacheDepth are arguments.
pub mod Kept
pub mod Laws
pub mod Answers
pub mod Parallel
use system_design_implementa.Prelude.{
  ℕ, ◌%◌, Bool, true, false, List, [], ◌∷◌, ◌++◌, map, length, Option, none, some, if◌then◌else◌,
  leb, ltb, ◌==◌,
}
use system_design_implementa.SearchAutocomplete.Trie.{
  Reco, Node, node, Children, no_child, child, descend,
}
use system_design_implementa.SearchAutocomplete.Heap.{Heap}
use system_design_implementa.SearchAutocomplete.Suggest.{dfs}
use system_design_implementa.SearchAutocomplete.TopK.{rec_less, top_k}
use system_design_implementa.SearchAutocomplete.Merge.{head_less, merge_top_k}

-- What ranging over a slice gives, the slice nil included.
abbrev pub entries : Option (List Reco) → List Reco
entries none = []
entries (some l) = l

-- `if len(childTop) > 0 { cands = append(cands, childTop) }`.
abbrev pub add_list : Option (List Reco) → List (List Reco) → List (List Reco)
add_list none ls = ls
add_list (some []) ls = ls
add_list (some (x ∷ xs)) ls = (x ∷ xs) ∷ ls

-- The list of the node's own word, first.
unfoldable pub own : Bool → Reco → List (List Reco) → List (List Reco)
own is_word r ls = if is_word then (r ∷ []) ∷ ls else ls

module _ {H : Type 0} (q : Heap head_less H) (k : ℕ) where
  -- The switch on the number of lists.
  unfoldable pub best_of : List (List Reco) → Option (List Reco)
  best_of [] = none
  best_of (l ∷ []) = some l
  best_of (l ∷ l' ∷ ls) = some (merge_top_k q (l ∷ l' ∷ ls) k)

  unfoldable mutual
    unfolding best_of own

    -- TraverseAndBuild: the node with its caches, and the completions below it.
    pub traverse : ℕ → List ℕ → Node → Node × Option (List Reco)
    traverse depth path (node is_word freq old cs) =
        let (cs', lists) = traverse_children depth path cs in
        let top = best_of (own is_word (record { word = path; freq = freq }) lists) in
        (node is_word freq (if leb (length path) depth then top else old) cs', top)

    pub traverse_children : ℕ → List ℕ → Children → Children × List (List Reco)
    traverse_children depth path no_child = (no_child, [])
    traverse_children depth path (child x n cs) =
        let (n', top) = traverse depth (path ++ x ∷ []) n in
        let (cs', lists) = traverse_children depth path cs in (child x n' cs', add_list top lists)

-- BuildCache: the K of the trie, 10 for 0, and the trie with its caches.
unfoldable pub default_k : ℕ → ℕ
default_k k = if k == 0 then 10 else k

unfoldable pub build_cache : {H : Type 0} → Heap head_less H → ℕ → ℕ → Node → Node
unfolding traverse default_k
build_cache q k depth root = (traverse q (default_k k) depth [] root).0

-- The path `[]byte{byte(key)}` of BuildCacheParallel, read as runes: a byte from 128 on is no rune by
-- itself and reads as U+FFFD.
unfoldable pub first_rune : ℕ → ℕ
first_rune key = let b = key % 256 in if ltb b 128 then b else 0xFFFD

module _ {H : Type 0} (q : Heap head_less H) (k : ℕ) where
  -- One goroutine for each child of the root; what comes over the channel, in the children's order.
  unfoldable pub gather : ℕ → Children → Children × List (List Reco)
  unfolding first_rune traverse
  gather depth no_child = (no_child, [])
  gather depth (child x n cs) =
      let (n', top) = traverse q k depth (first_rune x ∷ []) n in
      let (cs', lists) = gather depth cs in (child x n' cs', entries top ∷ lists)

  unfoldable pub build_cache_parallel : ℕ → Node → Node
  unfolding gather
  build_cache_parallel depth (node is_word freq old cs) =
      let (cs', lists) = gather depth cs in node is_word freq (some (merge_top_k q lists k)) cs'

-- Suggest. The outer none is the panic of topK, the inner one the slice nil.
abbrev pub words : List Reco → List (List ℕ)
words = map (λ r. r.word)

module _ {H : Type 0} (q : Heap rec_less H) where
  unfoldable pub recos_of : ℕ → List ℕ → Node → Option (List Reco)
  recos_of k s (node is_word freq top cs) = elim top [
    | none ↦ top_k q (dfs s (node is_word freq none cs)) k
    | some l ↦ some l
  ]

  unfoldable pub suggest : List ℕ → ℕ → Node → Option (Option (List (List ℕ)))
  unfolding recos_of
  suggest s k root = if leb k 0 then some none else elim (descend s root) [
    | none ↦ some none
    | some n ↦ elim (recos_of k s n) [ none ↦ none | some l ↦ some (some (words l)) ]
  ]
