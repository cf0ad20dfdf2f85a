-- ===== src/SearchAutocomplete/Splitting.antt =====
-- search_autocomplete/cmd/seeder/main.go: processBucket, which scans a bucket, sends the children that
-- fit in memory to the index builders and calls itself on the others. The file is its lines; a bucket
-- is the lines that begin between its ends, which stand at the starts of lines where Scan counts each line
-- by its bytes on the disk.
pub mod Depth
pub mod Segments
pub mod Scanned
pub mod Laws
pub mod Examples
use system_design_implementa.Prelude.{
  ℕ, zero, suc, ◌+◌, ◌*◌, Bool, true, false, ◌&&◌, List, [], ◌∷◌, ◌++◌, Option, none, some, leb,
  ltb, if◌then◌else◌,
}
use system_design_implementa.SearchAutocomplete.Graph.{
  RecursionGraph, new_graph, bucket_node, build_node, split_node,
}
use system_design_implementa.SearchAutocomplete.Scan.{Line, Bucket, scan}

-- Seek and LimitReader, from the place of the first of the lines.
unfoldable pub lines_between : ℕ → ℕ → ℕ → List Line → List Line
lines_between start stop at [] = []
lines_between start stop at (l ∷ ls) =
    let rest = lines_between start stop (at + l.bytes) ls in
    if leb start at && ltb at stop then l ∷ rest else rest

-- bytesPerPrefix and memoryBudget
unfoldable pub bytes_per_prefix : ℕ
bytes_per_prefix = 125

unfoldable pub memory_budget : ℕ
memory_budget = 524_288_000

unfoldable pub fits : Bucket → Bool
unfolding bytes_per_prefix memory_budget
fits b = leb (b.distinct * bytes_per_prefix) memory_budget

-- What is sent over indexBuildJobs, and the graph.
pub record Work : Type 0 where
  pub jobs : List Bucket
  pub graph : RecursionGraph

pub data Progress : Type 0 where
  out_of_fuel : Progress
  panicked : Progress
  worked : Work → Progress

unfoldable pub and_then : Progress → (Work → Progress) → Progress
and_then out_of_fuel f = out_of_fuel
and_then panicked f = panicked
and_then (worked w) f = f w

-- The loop over the children; `again` is the call of processBucket for a child and its node.
module _ (again : Bucket → ℕ → Work → Progress) where
  unfoldable pub process_child : Bool → ℕ → Bucket → Work → Progress
  unfolding build_node split_node
  process_child true node b w =
      worked
        (record { jobs = w.jobs ++ b ∷ []; graph = build_node node b.prefix b.distinct w.graph })
  process_child false node b w =
      let (g, id) = split_node node b.prefix b.start b.stop b.distinct w.graph in
      again b id (record w { graph = g })

  unfoldable pub process_children : ℕ → List Bucket → Work → Progress
  unfolding fits process_child and_then
  process_children node [] w = worked w
  process_children node (b ∷ bs) w =
      and_then (process_child (fits b) node b w) (process_children node bs)

-- processBucket with the node of its bucket.
unfoldable pub process_bucket : ℕ → List Line → List ℕ → ℕ → ℕ → ℕ → Work → Progress
unfolding process_children lines_between scan
process_bucket zero file prefix start stop node w = out_of_fuel
process_bucket (suc fuel) file prefix start stop node w =
    elim (scan prefix start (lines_between start stop 0 file)) [
      | none ↦ panicked
      | some children ↦
          process_children (λ b. process_bucket fuel file b.prefix b.start b.stop) node children w
    ]

-- The call of Seed: the whole file, and no node yet.
unfoldable pub process_file : ℕ → List Line → ℕ → Progress
unfolding process_bucket bucket_node new_graph
process_file fuel file size =
    let (g, id) = bucket_node [] 0 size new_graph in
    process_bucket fuel file [] 0 size id (record { jobs = []; graph = g })
