-- ===== src/SearchAutocomplete/Graph.antt =====
-- search_autocomplete/cmd/seeder/graph_builder.go: the graph of the recursion, as the statements that
-- are written to its file. A tooltip is told by what it prints.
use system_design_implementa.Prelude.{
  ℕ, suc, ◌+◌, ◌≡◌, Bool, true, false, ◌&&◌, List, [], ◌∷◌, ◌++◌, ◌==◌, ltb, arith,
}

pub data Tooltip : Type 0 where
  bucket_tip : List ℕ → ℕ → ℕ → Tooltip
  build_tip : List ℕ → ℕ → Tooltip
  split_tip : List ℕ → ℕ → ℕ → ℕ → Tooltip

pub data Shape : Type 0 where
  diamond circle : Shape

-- A node with its number, label, shape and tooltip, or an edge.
pub data Statement : Type 0 where
  node_line : ℕ → List ℕ → Shape → Tooltip → Statement
  edge_line : ℕ → ℕ → Statement

-- RecursionGraph: the statements of the file after its heading, and the next number.
pub record RecursionGraph : Type 0 where
  pub statements : List Statement
  pub next_id : ℕ

unfoldable pub new_graph : RecursionGraph
new_graph = record { statements = []; next_id = 0 }

-- NewNode and Edge
unfoldable pub graph_node : List ℕ → Shape → Tooltip → RecursionGraph → RecursionGraph × ℕ
graph_node label shape tip g = (
  record {
    statements = g.statements ++ node_line g.next_id label shape tip ∷ [];
    next_id = g.next_id + 1;
  },
  g.next_id,
)

unfoldable pub graph_edge : ℕ → ℕ → RecursionGraph → RecursionGraph
graph_edge a b g = record g { statements = g.statements ++ edge_line a b ∷ [] }

unfoldable pub bucket_node : List ℕ → ℕ → ℕ → RecursionGraph → RecursionGraph × ℕ
unfolding graph_node
bucket_node prefix start stop = graph_node prefix diamond (bucket_tip prefix start stop)

unfoldable pub build_node : ℕ → List ℕ → ℕ → RecursionGraph → RecursionGraph
unfolding graph_node graph_edge
build_node parent prefix prefixes g =
    let (g', id) = graph_node prefix circle (build_tip prefix prefixes) g in graph_edge parent id g'

unfoldable pub split_node : ℕ → List ℕ → ℕ → ℕ → ℕ → RecursionGraph → RecursionGraph × ℕ
unfolding graph_node graph_edge
split_node parent prefix start stop prefixes g =
    let (g', id) = graph_node prefix diamond (split_tip prefix start stop prefixes) g in
    (graph_edge parent id g', id)

-- The statements are those of a tree: from number `n` on, each node comes in order, with one edge into
-- it from a node before it; `m` is the number after the last.
abbrev pub grows : ℕ → List Statement → ℕ → Bool
grows n [] m = n == m
grows n (node_line id label shape tip ∷ edge_line a b ∷ rest) m =
    id == n && b == n && ltb a n && grows (suc n) rest m
grows n _ m = false

-- The root, and the tree below it.
abbrev pub is_tree_graph : RecursionGraph → Bool
is_tree_graph g = elim (g.statements) [
  | [] ↦ false
  | st ∷ rest ↦ elim st [
    | node_line id label shape tip ↦ id == 0 && grows 1 rest g.next_id
    | edge_line a b ↦ false
  ]
]

pub grows-snoc :
    (n m : ℕ) (sts : List Statement) (label : List ℕ) (shape : Shape) (tip : Tooltip) (a : ℕ)
    → grows n sts m ≡ true
    → ltb a m ≡ true
    → grows n ((sts ++ node_line m label shape tip ∷ []) ++ edge_line a m ∷ []) (m + 1) ≡ true
grows-snoc n m [] label shape tip a e h = ground arith
grows-snoc n m (edge_line x y ∷ rest) label shape tip a e h = absurd (cc)
grows-snoc n m (node_line id l s t ∷ []) label shape tip a e h = absurd (cc)
grows-snoc n m (node_line id l s t ∷ node_line id' l' s' t' ∷ rest) label shape tip a e h =
    absurd (cc)
grows-snoc n m (node_line id l s t ∷ edge_line x y ∷ rest) label shape tip a e h =
    ground (arith, grows-snoc (suc n) m rest label shape tip a)
