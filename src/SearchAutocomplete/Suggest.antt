-- ===== src/SearchAutocomplete/Suggest.antt =====
-- search_autocomplete/internal/trie/suggest.go: the walk below a prefix. Go ranges over a node's children
-- in any order; the order here is that of the list.
pub mod Laws
pub mod Soundness
use system_design_implementa.Prelude.{ℕ, Bool, List, [], ◌∷◌, ◌++◌, if◌then◌else◌}
use system_design_implementa.Prelude.Int.{ℤ}
use system_design_implementa.SearchAutocomplete.Trie.{Reco, Node, node, Children, no_child, child}

unfoldable mutual
  pub dfs : List ℕ → Node → List Reco
  dfs prefix (node is_word freq top cs) =
      let below = dfs_children prefix cs in
      if is_word then record { word = prefix; freq = freq } ∷ below else below

  pub dfs_children : List ℕ → Children → List Reco
  dfs_children prefix no_child = []
  dfs_children prefix (child x n cs) = dfs (prefix ++ x ∷ []) n ++ dfs_children prefix cs
