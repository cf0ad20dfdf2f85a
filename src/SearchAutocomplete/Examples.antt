-- ===== src/SearchAutocomplete/Examples.antt =====
-- The theorems of the search box at the phrases "to", "tea" and "to" again.
use system_design_implementa.Prelude.{
  ℕ, ◌≡◌, refl, ◌↔◌, Any, some, true, false, List, [], ◌∷◌, ◌++◌, arith,
}
use system_design_implementa.Prelude.Int.{ℤ, pos, negsuc}
use system_design_implementa.Prelude.Bags.{total, reverse_onto}
use system_design_implementa.SearchAutocomplete.Trie.{
  Reco, Node, new_node, insert, put_child, child_at, search, descend, build_trie,
}
use system_design_implementa.SearchAutocomplete.Trie.Laws.{
  frequency, last_freq, begins_one, build_trie_correct,
}
use system_design_implementa.SearchAutocomplete.Suggest.{dfs}
use system_design_implementa.SearchAutocomplete.Suggest.Soundness.{dfs_below_correct}
use system_design_implementa.SearchAutocomplete.Heap.{Heap}
use system_design_implementa.SearchAutocomplete.Heap.Selection.{select, selection}
use system_design_implementa.SearchAutocomplete.Ranking.{IsTop, is_desc}
use system_design_implementa.SearchAutocomplete.TopK.{rec_less, offer, ranked, top_k}
use system_design_implementa.SearchAutocomplete.TopK.Laws.{top_k_correct}
use system_design_implementa.SearchAutocomplete.TopK.Drain.{total-ranked, ranked-desc}
use system_design_implementa.SearchAutocomplete.Seeder.{find, Sorter, seed, Task, done}
use system_design_implementa.SearchAutocomplete.Seeder.Index.{matching}
use system_design_implementa.SearchAutocomplete.Seeder.Seeding.{Records, all_lines, seed_correct}
use system_design_implementa.SearchAutocomplete.Merge.{Head, head_less}
use system_design_implementa.SearchAutocomplete.Cache.{build_cache, build_cache_parallel, suggest}
use system_design_implementa.SearchAutocomplete.Cache.Answers.{AnswersTop, build_cache-suggest}

abbrev pub to_word : List ℕ
to_word = 116 ∷ 111 ∷ []

abbrev pub lines : List (List ℕ × ℤ)
lines = (to_word, pos 3) ∷ (116 ∷ 101 ∷ 97 ∷ [], pos 5) ∷ (to_word, pos 7) ∷ []

abbrev pub built : Node
built = build_trie lines new_node

build_trie_correct_example :
    (frequency to_word (build_trie lines new_node) ≡ last_freq to_word lines)
    × ((search to_word (build_trie lines new_node)).0 ≡ begins_one to_word lines)
build_trie_correct_example = build_trie_correct 116 (111 ∷ []) lines

pub rec_less_irrefl : (x : Reco) → rec_less x x ≡ false
rec_less_irrefl x = ground arith

pub rec_less_trans :
    (x y z : Reco) → rec_less x y ≡ true → rec_less y z ≡ true → rec_less x z ≡ true
rec_less_trans x y z e f = ground arith

pub head_less_irrefl : (x : Head) → head_less x x ≡ false
head_less_irrefl x = ground arith

pub head_less_trans :
    (x y z : Head) → head_less x y ≡ true → head_less y z ≡ true → head_less x z ≡ true
head_less_trans x y z e f = ground arith

abbrev pub low_first : Heap rec_less (List Reco)
low_first = selection rec_less rec_less_irrefl rec_less_trans

abbrev pub high_first : Heap head_less (List Head)
high_first = selection head_less head_less_irrefl head_less_trans

abbrev pub tea : Reco
tea = record { word = 116 ∷ 101 ∷ 97 ∷ []; freq = pos 5 }

abbrev pub to_tea : Reco
to_tea = record { word = to_word; freq = pos 7 }

abbrev team : Reco
team = record { word = 116 ∷ 101 ∷ 97 ∷ 109 ∷ []; freq = negsuc 0 }

top_k_test : top_k low_first (team ∷ to_tea ∷ tea ∷ []) 2 ≡ some (to_tea ∷ tea ∷ [])
unfolding top_k offer ranked select total reverse_onto selection
top_k_test = refl

top_k_correct_example :
    (out : List Reco) × (top_k low_first (team ∷ to_tea ∷ tea ∷ []) 2 ≡ some out)
    × IsTop 2 (team ∷ to_tea ∷ tea ∷ []) out
    × (is_desc out ≡ true)
top_k_correct_example = top_k_correct low_first (team ∷ to_tea ∷ tea ∷ []) 2 (omega arith)

-- The node of the text "t".
below_t : (n : Node) × (descend (116 ∷ []) built ≡ some n)
unfolding descend build_trie insert new_node put_child child_at
below_t = (_, refl)

build_cache-suggest_example :
    AnswersTop 1
      (dfs (116 ∷ []) below_t.0)
      (suggest low_first (116 ∷ []) 1 (build_cache high_first 1 2 (build_trie lines new_node)))
build_cache-suggest_example =
    build_cache-suggest high_first low_first (116 ∷ []) 1 2 lines below_t.0 (omega arith) below_t.1

dfs_below_correct_example : Any (λ q. q ≡ to_tea) (dfs (116 ∷ []) below_t.0) ↔ (
    (rest : List ℕ) × (to_word ≡ 116 ∷ ([] ++ rest))
    × (last_freq (116 ∷ ([] ++ rest)) lines ≡ some (pos 7)))
dfs_below_correct_example = dfs_below_correct 116 [] to_tea lines below_t.0 below_t.1

below_t_parallel :
    (n : Node) × (descend (116 ∷ []) (build_cache_parallel high_first 1 2 built) ≡ some n)
unfolding descend build_trie insert new_node put_child child_at build_cache_parallel select total
    selection
below_t_parallel = (_, refl)

-- Sorting through a heap.
abbrev sorter : Sorter
unfolding selection
sorter = record {
  sort = ranked low_first;
  total-sort = λ w xs. total-ranked low_first w xs;
  sort-desc = ranked-desc low_first;
}

-- A bucket that is read to its end, and whose batches are written.
abbrev quiet : List Reco → Task
quiet rs = record { lines = rs; broken = false; answers = λ i. done }

abbrev tasks : List Task
tasks = quiet (tea ∷ team ∷ []) ∷ quiet (to_tea ∷ []) ∷ []

seed_correct_example :
    (db : List (List ℕ × List Reco)) × (seed low_first sorter 1 tasks [] ≡ some db)
    × ((p : List ℕ) → Records 1 (find p db) (matching p (all_lines tasks)))
seed_correct_example =
    seed_correct low_first sorter 1 (omega arith) tasks ((refl, λ i. refl), ((refl, λ i. refl), tt))
