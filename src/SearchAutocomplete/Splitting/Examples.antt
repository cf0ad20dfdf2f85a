-- ===== src/SearchAutocomplete/Splitting/Examples.antt =====
-- A file of two lines, whose children fit.
use system_design_implementa.Prelude.{◌≡◌, refl, List, [], ◌∷◌, some, arith, codes}
use system_design_implementa.Prelude.Int.{pos}
use system_design_implementa.SearchAutocomplete.Files.{token_limit}
use system_design_implementa.SearchAutocomplete.Scan.{
  Line, lcp, closed_at, begin_child, count_phrase, scan_line, scan_lines, scan, too_long,
}
use system_design_implementa.SearchAutocomplete.Graph.{
  node_line, edge_line, Shape, Tooltip, new_graph, graph_node, graph_edge, bucket_node, build_node,
}
use system_design_implementa.SearchAutocomplete.Splitting.{
  Work, lines_between, bytes_per_prefix, memory_budget, fits, worked, and_then, process_child,
  process_children, process_bucket, process_file,
}
use system_design_implementa.SearchAutocomplete.Splitting.Laws.{IsFair, process_file_ends}

abbrev two_lines : List Line
two_lines =
    record { size = 6; bytes = 6; parsed = some (record { word = codes "tea"; freq = pos 5 }) }
    ∷ record { size = 5; bytes = 5; parsed = some (record { word = codes "to"; freq = pos 7 }) }
    ∷ []

process_file_test :
    process_file 4 two_lines 11
    ≡ worked (record {
      jobs = record { prefix = codes "t"; start = 0; stop = 11; distinct = 3 } ∷ [];
      graph = record {
        statements =
            node_line 0 [] Shape.diamond (Tooltip.bucket_tip [] 0 11)
            ∷ node_line 1 (codes "t") Shape.circle (Tooltip.build_tip (codes "t") 3)
            ∷ edge_line 0 1
            ∷ [];
        next_id = 2;
      };
    })
unfolding process_file process_bucket too_long token_limit lines_between scan scan_lines scan_line
    begin_child closed_at count_phrase lcp process_children process_child and_then fits
    bytes_per_prefix memory_budget build_node graph_node graph_edge bucket_node new_graph
process_file_test = refl

process_file_ends_example :
    (w : Work) × (process_file 4 two_lines 11 ≡ worked w) × IsFair two_lines w
unfolding lines_between too_long token_limit
process_file_ends_example = process_file_ends two_lines 11 4 refl refl (omega arith)
