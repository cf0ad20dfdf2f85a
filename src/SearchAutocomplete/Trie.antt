-- ===== src/SearchAutocomplete/Trie.antt =====
-- search_autocomplete/internal/trie/trie.go: the trie of phrases with their frequencies. A phrase is its
-- runes.
pub mod Laws
use system_design_implementa.Prelude.{
  ℕ, Bool, true, false, List, [], ◌∷◌, Option, none, some, ◌==◌, if◌then◌else◌, ◌&&◌,
}
use system_design_implementa.Prelude.Int.{ℤ, pos}

-- heap.go
pub record Reco : Type 0 where
  pub word : List ℕ
  pub freq : ℤ

-- A node holds whether it is a word, its frequency, its cached completions (none for the slice nil)
-- and its children.
mutual
  pub data Node : Type 0 where
    node : Bool → ℤ → Option (List Reco) → Children → Node

  pub data Children : Type 0 where
    no_child : Children
    child : ℕ → Node → Children → Children

unfoldable pub new_node : Node
new_node = node false (pos 0) none no_child

unfoldable pub child_at : ℕ → Children → Option Node
child_at x no_child = none
child_at x (child y n cs) = if y == x then some n else child_at x cs

unfoldable pub put_child : ℕ → Node → Children → Children
put_child x n no_child = child x n no_child
put_child x n (child y m cs) = if y == x then child x n cs else child y m (put_child x n cs)

-- The child that Insert goes on with: a new one where there is none.
unfoldable pub child_or_new : Option Node → Node
unfolding new_node
child_or_new none = new_node
child_or_new (some n) = n

unfoldable pub insert : List ℕ → ℤ → Node → Node
unfolding child_or_new
insert [] freq (node is_word old top cs) = node true freq top cs
insert (x ∷ xs) freq (node is_word old top cs) =
    node is_word old top (put_child x (insert xs freq (child_or_new (child_at x cs))) cs)

-- The node that a text leads to, when the text is in the trie.
unfoldable pub descend : List ℕ → Node → Option Node
descend [] n = some n
descend (x ∷ xs) (node is_word freq top cs) = elim (child_at x cs) [
  | none ↦ none
  | some n ↦ descend xs n
]

-- Search: whether the text is in the trie, whether it is a word, and its frequency.
unfoldable pub search : List ℕ → Node → Bool × Bool × ℤ
search s t = elim (descend s t) [
  | none ↦ (false, false, pos 0)
  | some n ↦ elim n [ node is_word freq top cs ↦ (true, is_word, freq) ]
]

-- The loop of BuildTrie over the lines that ParseLine accepts.
unfoldable pub build_trie : List (List ℕ × ℤ) → Node → Node
build_trie [] t = t
build_trie ((phrase, freq) ∷ lines) t = build_trie lines (insert phrase freq t)
