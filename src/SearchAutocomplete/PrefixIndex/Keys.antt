-- ===== src/SearchAutocomplete/PrefixIndex/Keys.antt =====
-- No node has two children of one key: what a Go map gives, for a trie that the list of children keeps.
use system_design_implementa.Prelude.{
  ℕ, ◌≡◌, refl, Bool, true, false, not, ◌&&◌, List, [], ◌∷◌, ◌++◌, ◌==◌, arith, ◌||◌,
}
use system_design_implementa.Prelude.Int.{ℤ}
use system_design_implementa.SearchAutocomplete.Trie.{
  Node, node, Children, no_child, child, child_at, new_node, put_child, child_or_new, insert,
  build_trie,
}
use system_design_implementa.SearchAutocomplete.Heap.{Heap}
use system_design_implementa.SearchAutocomplete.Merge.{head_less}
use system_design_implementa.SearchAutocomplete.Cache.{
  traverse, traverse_children, first_rune, gather, build_cache_parallel,
}

unfoldable pub has_key : ℕ → Children → Bool
has_key x no_child = false
has_key x (child y n cs) = y == x || has_key x cs

unfoldable mutual
  unfolding has_key

  pub is_tree : Node → Bool
  is_tree (node is_word freq top cs) = are_trees cs

  pub are_trees : Children → Bool
  are_trees no_child = true
  are_trees (child x n cs) = not (has_key x cs) && is_tree n && are_trees cs

has_key-put_child :
    (x y : ℕ) (n : Node) (cs : Children) → has_key y (put_child x n cs) ≡ (x == y || has_key y cs)
unfolding has_key put_child
has_key-put_child x y n no_child = refl
has_key-put_child x y n (child z m cs) = ground (arith, has_key-put_child x y n cs)

put_child-are_trees :
    (x : ℕ) (n : Node) (cs : Children)
    → is_tree n ≡ true
    → are_trees cs ≡ true
    → are_trees (put_child x n cs) ≡ true
unfolding is_tree put_child has_key
put_child-are_trees x n no_child a e = ground arith
put_child-are_trees x n (child y m cs) a e =
    ground (arith, put_child-are_trees x n cs, has_key-put_child x y n cs)

child_or_new-is_tree :
    (x : ℕ) (cs : Children) → are_trees cs ≡ true → is_tree (child_or_new (child_at x cs)) ≡ true
unfolding is_tree child_or_new new_node child_at
child_or_new-is_tree x no_child e = refl
child_or_new-is_tree x (child y m cs) e = ground (arith, child_or_new-is_tree x cs)

insert-is_tree :
    (xs : List ℕ) (freq : ℤ) (n : Node) → is_tree n ≡ true → is_tree (insert xs freq n) ≡ true
unfolding is_tree insert
insert-is_tree [] freq (node is_word old top cs) e = e
insert-is_tree (x ∷ xs) freq (node is_word old top cs) e =
    put_child-are_trees x (insert xs freq (child_or_new (child_at x cs))) cs
      (insert-is_tree xs freq (child_or_new (child_at x cs)) (child_or_new-is_tree x cs e)) e

build_trie-is_tree :
    (lines : List (List ℕ × ℤ)) (t : Node) → is_tree t ≡ true → is_tree (build_trie lines t) ≡ true
unfolding build_trie
build_trie-is_tree [] t e = e
build_trie-is_tree ((phrase, freq) ∷ lines) t e =
    build_trie-is_tree lines (insert phrase freq t) (insert-is_tree phrase freq t e)

module _ {H : Type 0} (q : Heap head_less H) (k depth : ℕ) where
  has_key-traverse :
      (x : ℕ) (path : List ℕ) (cs : Children)
      → has_key x (traverse_children q k depth path cs).0 ≡ has_key x cs
  unfolding has_key traverse
  has_key-traverse x path no_child = refl
  has_key-traverse x path (child y n cs) = ground (arith, has_key-traverse x path cs)

  mutual
    unfolding is_tree traverse

    traverse-is_tree :
        (path : List ℕ) (n : Node) → is_tree n ≡ true → is_tree (traverse q k depth path n).0 ≡ true
    traverse-is_tree path (node is_word freq old cs) e = traverse-are_trees path cs e

    traverse-are_trees :
        (path : List ℕ) (cs : Children)
        → are_trees cs ≡ true
        → are_trees (traverse_children q k depth path cs).0 ≡ true
    traverse-are_trees path no_child e = refl
    traverse-are_trees path (child x n cs) e = ground (
      arith,
      has_key-traverse x path cs,
      traverse-is_tree (path ++ x ∷ []) n,
      traverse-are_trees path cs,
    )

  has_key-gather : (x : ℕ) (cs : Children) → has_key x (gather q k depth cs).0 ≡ has_key x cs
  unfolding has_key gather
  has_key-gather x no_child = refl
  has_key-gather x (child y n cs) = ground (arith, has_key-gather x cs)

  gather-are_trees :
      (cs : Children) → are_trees cs ≡ true → are_trees (gather q k depth cs).0 ≡ true
  unfolding is_tree gather
  gather-are_trees no_child e = refl
  gather-are_trees (child x n cs) e =
      ground
        (arith, has_key-gather x cs, traverse-is_tree (first_rune x ∷ []) n, gather-are_trees cs)

  parallel-is_tree :
      (t : Node) → is_tree t ≡ true → is_tree (build_cache_parallel q k depth t) ≡ true
  unfolding is_tree build_cache_parallel
  parallel-is_tree (node is_word freq old cs) e = gather-are_trees cs e

  -- The trie that Load makes.
  pub loaded-is_tree :
      (lines : List (List ℕ × ℤ))
      → is_tree (build_cache_parallel q k depth (build_trie lines new_node)) ≡ true
  unfolding is_tree new_node
  loaded-is_tree lines =
      parallel-is_tree (build_trie lines new_node) (build_trie-is_tree lines new_node refl)
