-- ===== src/SearchAutocomplete/PrefixIndex/Laws.antt =====
-- The prefix index answers as the trie does.
use mathlib.Core.Path.{subst}
use system_design_implementa.Prelude.{
  ℕ, ◌≤◌, ◌≡◌, refl, ap, true, List, [], Option, none, some, arith,
}
use system_design_implementa.Prelude.Int.{ℤ}
use system_design_implementa.SearchAutocomplete.Trie.{Reco, Node, descend, new_node, build_trie}
use system_design_implementa.SearchAutocomplete.Heap.{Heap}
use system_design_implementa.SearchAutocomplete.Suggest.{dfs}
use system_design_implementa.SearchAutocomplete.Ranking.{IsTop, is_desc}
use system_design_implementa.SearchAutocomplete.TopK.{rec_less}
use system_design_implementa.SearchAutocomplete.Merge.{head_less}
use system_design_implementa.SearchAutocomplete.Cache.{build_cache_parallel, suggest, words}
use system_design_implementa.SearchAutocomplete.Cache.Kept.{is_fresh, build_trie-fresh}
use system_design_implementa.SearchAutocomplete.Cache.Answers.{AnswersTop}
use system_design_implementa.SearchAutocomplete.Cache.Parallel.{
  is_plain, build_cache_parallel-suggest,
}
use system_design_implementa.SearchAutocomplete.Seeder.{find}
use system_design_implementa.SearchAutocomplete.PrefixIndex.{
  PrefixIndex, index_of, suggest_in, trie_impl, prefix_hash, Suggester, load, suggest_by,
}
use system_design_implementa.SearchAutocomplete.PrefixIndex.Keys.{is_tree, loaded-is_tree}
use system_design_implementa.SearchAutocomplete.PrefixIndex.Walk.{top_below, find-walk, written}
use system_design_implementa.SearchAutocomplete.PrefixIndex.Tops.{
  top_below-IsTop, freqs, IsTop-freqs,
}

-- What the index has for a text that leads to a node, or to none.
abbrev pub Indexes : ℕ → List ℕ → Option Node → Option (List Reco) → Type 0
Indexes k s none entry = entry ≡ none
Indexes k s (some n) entry =
    (top : List Reco) × (entry ≡ some top) × IsTop k (dfs s n) top × (is_desc top ≡ true)

module _ {H : Type 0} (q : Heap head_less H) (k : ℕ) where
  find-index :
      (s : List ℕ) (t : Node)
      → is_tree t ≡ true
      → find s (index_of q k t) ≡ written q k s (descend s t) none
  unfolding index_of find
  find-index s t e = find-walk q k s [] t [] e

  written-Indexes :
      (pos : 1 ≤ k) (s : List ℕ) (found : Option Node) (entry : Option (List Reco))
      → entry ≡ written q k s found none
      → Indexes k s found entry
  written-Indexes pos s none entry e = e
  written-Indexes pos s (some n) entry e =
      let (t, d) = top_below-IsTop q k pos s n in (top_below q k s n, e, t, d)

  -- BuildPrefixIndex of a trie in which no node has two children of one key, for K at least 1: each text
  -- that leads to a node has an entry, the best K of what the walk finds below that node with the
  -- highest frequency first, and no other text has one.
  pub index_of_correct :
      (s : List ℕ) (t : Node)
      → 1 ≤ k
      → is_tree t ≡ true
      → Indexes k s (descend s t) (find s (index_of q k t))
  index_of_correct s t pos e =
      written-Indexes pos s (descend s t) (find s (index_of q k t)) (find-index s t e)

suggest_in-nothing : (s : List ℕ) (pi : PrefixIndex) → find s pi ≡ none → suggest_in s pi ≡ none
unfolding suggest_in
suggest_in-nothing s pi e = ground arith

suggest_in-found :
    (s : List ℕ) (pi : PrefixIndex) (l : List Reco)
    → find s pi ≡ some l
    → suggest_in s pi ≡ some (words l)
unfolding suggest_in
suggest_in-found s pi l e = ground arith

-- Two answers for a text that leads to a node, or to none: both the slice nil, or each the words of a
-- best K of what the walk finds below the node, the highest frequency first, with equal frequencies.
pub data Agree (k : ℕ) (s : List ℕ) (a b : Option (Option (List (List ℕ))))
    : Option Node → Type 0 where
  both_nil : a ≡ some none → b ≡ some none → Agree k s a b none
  both_found :
      {n : Node} (xs ys : List Reco)
      → a ≡ some (some (words xs))
      → b ≡ some (some (words ys))
      → IsTop k (dfs s n) xs × (is_desc xs ≡ true)
      → IsTop k (dfs s n) ys × (is_desc ys ≡ true)
      → freqs xs ≡ freqs ys
      → Agree k s a b (some n)

module _ {H H' : Type 0} (q : Heap head_less H) (q' : Heap rec_less H') (k : ℕ) where
  suggest-nothing :
      (s : List ℕ) (t : Node) → 1 ≤ k → descend s t ≡ none → suggest q' s k t ≡ some none
  unfolding suggest
  suggest-nothing s t pos e = ground arith

  suggesters-Agree :
      (s : List ℕ) (t : Node) (found : Option Node)
      → 1 ≤ k
      → descend s t ≡ found
      → is_tree t ≡ true
      → ((n : Node) → descend s t ≡ some n → AnswersTop k (dfs s n) (suggest q' s k t))
      → Agree k s (suggest q' s k t) (some (suggest_in s (index_of q k t))) found
  suggesters-Agree s t none pos e tree answers =
      let entry =
        subst (λ o. Indexes k s o (find s (index_of q k t))) e
          (index_of_correct q k s t pos tree) in
      both_nil (suggest-nothing s t pos e) (ap some (suggest_in-nothing s _ entry))
  suggesters-Agree s t (some n) pos e tree answers =
      let (out, a, top, d) = answers n e in
      let (out', entry, top', d') =
        subst (λ o. Indexes k s o (find s (index_of q k t))) e
          (index_of_correct q k s t pos tree) in
      both_found out out' a (ap some (suggest_in-found s _ out' entry)) (top, d) (top', d')
        (IsTop-freqs k (dfs s n) out out' top top' d d')

  -- Load makes a suggester for each of its two implementations. Over lines from which BuildTrie makes a
  -- root that is no word with ASCII runes only below it, and for K at least 1, the two agree on each
  -- prefix. Where it leads to no node of the cached trie both give the slice nil; where it leads to one,
  -- each gives the words of a best K of what the walk finds below that node, with the highest frequency
  -- first, and the two lists have the same frequencies in the same order.
  pub load_agrees :
      (lines : List (List ℕ × ℤ)) (depth : ℕ) (s : List ℕ)
      → 1 ≤ k
      → is_plain (build_trie lines new_node) ≡ true
      → (a b : Suggester) × (load q q' lines trie_impl k depth ≡ some a)
        × (load q q' lines prefix_hash k depth ≡ some b)
        × Agree k s
            (suggest_by q q' k s a)
            (suggest_by q q' k s b)
            (descend s (build_cache_parallel q k depth (build_trie lines new_node)))
  unfolding load suggest_by
  load_agrees lines depth s pos plain =
      let t = build_trie lines new_node in
      let root = build_cache_parallel q k depth t in
      (
        Suggester.trie_of root,
        Suggester.index (index_of q k root),
        refl,
        refl,
        suggesters-Agree s root (descend s root) pos refl (loaded-is_tree q k depth lines) (λ n e.
            build_cache_parallel-suggest q q' s k depth t n pos plain
              (build_trie-fresh lines new_node (unfold is_fresh new_node in refl)) e),
      )
