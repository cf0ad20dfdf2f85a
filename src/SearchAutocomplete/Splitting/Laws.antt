-- ===== src/SearchAutocomplete/Splitting/Laws.antt =====
-- processBucket ends, sends only buckets that fit, and draws a tree.
use mathlib.Core.Path.{subst, subst⁻¹, sym}
use mathlib.Core.List.{append-nil}
use system_design_implementa.Prelude.{
  ℕ, zero, suc, ◌+◌, ◌≤◌, ◌<◌, ◌≡◌, refl, Bool, true, false, List, [], ◌∷◌, ◌++◌, length, ltb,
  arith, All,
}
use system_design_implementa.SearchAutocomplete.Graph.{
  Statement, node_line, edge_line, Shape, Tooltip, RecursionGraph, new_graph, graph_node,
  graph_edge, bucket_node, build_node, split_node, is_tree_graph, grows-snoc,
}
use system_design_implementa.SearchAutocomplete.Scan.{Line, Bucket}
use system_design_implementa.SearchAutocomplete.Splitting.{
  lines_between, fits, Work, Progress, out_of_fuel, panicked, worked, and_then, process_child,
  process_children, process_bucket, process_file,
}
use system_design_implementa.SearchAutocomplete.Scan.Laws.{sizes, all_within, scan-chain}
use system_design_implementa.SearchAutocomplete.Splitting.Segments.{
  IsSegment, all_sized, between-segment, stretch-short,
}
use system_design_implementa.SearchAutocomplete.Splitting.Scanned.{scan-segments}
use system_design_implementa.SearchAutocomplete.Splitting.Depth.{
  longest, longest-between, IsChild, scan-children, All-snoc,
}

tree-snoc :
    (g : RecursionGraph) (label : List ℕ) (shape : Shape) (tip : Tooltip) (a : ℕ)
    → is_tree_graph g ≡ true
    → ltb a g.next_id ≡ true
    → is_tree_graph (graph_edge a g.next_id (graph_node label shape tip g).0) ≡ true
unfolding graph_edge graph_node
tree-snoc g label shape tip a e h = on g.statements refl e
  where
    on :
        (sts : List Statement)
        → g.statements ≡ sts
        → is_tree_graph (record g { statements = sts }) ≡ true
        → is_tree_graph (record {
          statements =
              (g.statements ++ node_line g.next_id label shape tip ∷ [])
              ++ edge_line a g.next_id ∷ [];
          next_id = g.next_id + 1;
        })
          ≡ true
    on [] at e = absurd (cc)
    on (edge_line x y ∷ rest) at e = absurd (cc)
    on (node_line id l s t ∷ rest) at e =
        rw at (ground (arith, e, grows-snoc 1 g.next_id rest label shape tip a))

module _ (file : List Line) where
  -- Each job fits in memory and is a stretch of the file whose longer phrases begin with its prefix, and
  -- the graph is a tree.
  pub record IsFair (w : Work) : Type 0 where
    pub stretches : All (IsSegment file) w.jobs
    pub small : All (λ b. fits b ≡ true) w.jobs
    pub tree : is_tree_graph w.graph ≡ true

  -- How processBucket ends: with its work done.
  abbrev Ends : Work → Progress → Type 0
  Ends w out_of_fuel = ⊥
  Ends w panicked = ⊥
  Ends w (worked w') = IsFair w' × (w.graph.next_id ≤ w'.graph.next_id)

  Ends-weaken :
      (w w' : Work) (p : Progress) → w.graph.next_id ≤ w'.graph.next_id → Ends w' p → Ends w p
  Ends-weaken w w' out_of_fuel h e = e
  Ends-weaken w w' panicked h e = e
  Ends-weaken w w' (worked w'') h (f, k) = (f, omega (arith, h, k))

  Ends-and_then :
      (w : Work) (p : Progress) (f : Work → Progress)
      → Ends w p
      → ((w' : Work) → IsFair w' → w.graph.next_id ≤ w'.graph.next_id → Ends w' (f w'))
      → Ends w (and_then p f)
  unfolding and_then
  Ends-and_then w out_of_fuel f e h = e
  Ends-and_then w panicked f e h = e
  Ends-and_then w (worked w') f (fair, k) h = Ends-weaken w w' (f w') k (h w' fair k)

  -- A child of a prefix of `n` runes.
  abbrev IsPart : ℕ → Bucket → Type 0
  IsPart n b = IsChild n (longest file) b × IsSegment file b

  module _ (n : ℕ) (again : Bucket → ℕ → Work → Progress) where
    abbrev AgainEnds : Type 0
    AgainEnds =
        (b : Bucket) (id : ℕ) (w : Work)
        → IsPart n b
        → IsFair w
        → id < w.graph.next_id
        → Ends w (again b id w)

    child-Ends :
        (fit : Bool) (node : ℕ) (b : Bucket) (w : Work)
        → fits b ≡ fit
        → AgainEnds
        → IsPart n b
        → IsFair w
        → node < w.graph.next_id
        → Ends w (process_child again fit node b w)
    unfolding process_child build_node split_node graph_node graph_edge
    child-Ends true node b w y r c f h = (
      record {
        stretches = All-snoc (IsSegment file) w.jobs b f.stretches c.1;
        small = All-snoc (λ z. fits z ≡ true) w.jobs b f.small y;
        tree =
            tree-snoc w.graph b.prefix Shape.circle (Tooltip.build_tip b.prefix b.distinct) node
              f.tree (ground (arith, h));
      },
      omega arith,
    )
    child-Ends false node b w y r c f h =
        let tip = Tooltip.split_tip b.prefix b.start b.stop b.distinct in
        let g = graph_edge node w.graph.next_id (graph_node b.prefix Shape.diamond tip w.graph).0 in
        let w1 : Work = record w { graph = g } in
        let fair : IsFair w1 = record {
          stretches = f.stretches;
          small = f.small;
          tree = tree-snoc w.graph b.prefix Shape.diamond tip node f.tree (ground (arith, h));
        } in
        Ends-weaken w w1 (again b w.graph.next_id w1) (omega arith)
          (r b w.graph.next_id w1 c fair (omega arith))

    children-Ends :
        (node : ℕ) (bs : List Bucket) (w : Work)
        → AgainEnds
        → All (IsChild n (longest file)) bs
        → All (IsSegment file) bs
        → IsFair w
        → node < w.graph.next_id
        → Ends w (process_children again node bs w)
    unfolding process_children
    children-Ends node [] w r a g f h = (f, omega arith)
    children-Ends node (b ∷ bs) w r (c, a) (d, g) f h =
        Ends-and_then w (process_child again (fits b) node b w) (process_children again node bs)
          (child-Ends (fits b) node b w refl r (c, d) f h)
          (λ w' f' k. children-Ends node bs w' r a g f' (omega (arith, h, k)))

  module _ (sized : all_sized file ≡ true) where
    -- `ls` are the lines of the bucket, between others of the file.
    bucket-Ends :
        (fuel : ℕ) (prefix : List ℕ) (start stop node : ℕ) (w : Work) (before ls after : List Line)
        → length prefix ≤ longest file
        → longest file < fuel + length prefix
        → lines_between start stop 0 file ≡ ls
        → file ≡ before ++ (ls ++ after)
        → start ≡ sizes before
        → all_within prefix ls ≡ true
        → IsFair w
        → node < w.graph.next_id
        → Ends w (process_bucket fuel file prefix start stop node w)
    unfolding process_bucket
    bucket-Ends zero prefix start stop node w before ls after short enough at whole from within f
          h =
        omega (arith, short, enough)
    bucket-Ends (suc fuel) prefix start stop node w before ls after short enough at whole from
          within f h =
        let (bs, e, c) =
          scan-chain prefix start ls within (stretch-short file before ls after whole sized) in
        let again = λ (b : Bucket). process_bucket fuel file b.prefix b.start b.stop in
        let out : process_bucket (suc fuel) file prefix start stop node w
            ≡ process_children again node bs w =
          ground (arith, e, at) in
        let few : longest ls ≤ longest file =
          subst (λ z. longest z ≤ longest file) at (longest-between start stop 0 file) in
        subst⁻¹ (Ends w) out (
          children-Ends (length prefix) again node bs w
            (λ b id w' (c', s) f' h'.
              bucket-Ends fuel b.prefix b.start b.stop id w' s.before s.inside s.after
                (omega (arith, c'.0, c'.1)) (omega (arith, c'.0, enough))
                (between-segment file b s sized) s.whole s.from s.within f' h')
            (scan-children prefix start (longest file) ls bs few e)
            (scan-segments file prefix start before ls after bs whole from e) f h)

  worked-IsFair : (w : Work) (p : Progress) → Ends w p → (w' : Work) × (p ≡ worked w') × IsFair w'
  worked-IsFair w out_of_fuel e = absurd e
  worked-IsFair w panicked e = absurd e
  worked-IsFair w (worked w') e = (w', refl, e.0)

  root-within : (ls : List Line) → all_within [] ls ≡ true
  root-within [] = refl
  root-within (l ∷ ls) = ground (arith, root-within ls)

  -- Over a file of valid UTF-8 whose lines all begin before its size, have no carriage return at their ends
  -- and fit the scanner's buffer of 64 KiB, processBucket ends without a panic, and its recursion is no deeper than the runes of the longest phrase, plus one. Every bucket that it sends to
  -- the index builders fits in the memory budget by Scan's count and is a stretch of the file in which
  -- each phrase that is longer than the bucket's prefix begins with it. The graph is a tree: its nodes are
  -- numbered in order, and each but the first has one edge into it, from a node before it.
  pub process_file_ends :
      (size fuel : ℕ)
      → all_sized file ≡ true
      → lines_between 0 size 0 file ≡ file
      → longest file < fuel
      → (w : Work) × (process_file fuel file size ≡ worked w) × IsFair w
  unfolding process_file bucket_node new_graph graph_node
  process_file_ends size fuel sized at h =
      let (g, id) = bucket_node [] 0 size new_graph in
      let w : Work = record { jobs = []; graph = g } in
      worked-IsFair w (process_bucket fuel file [] 0 size 0 w) (
        bucket-Ends sized fuel [] 0 size 0 w [] file [] (omega arith) (omega (arith, h)) at
          (sym (append-nil file)) refl (root-within file)
          (record { stretches = tt; small = tt; tree = refl }) (omega arith))
