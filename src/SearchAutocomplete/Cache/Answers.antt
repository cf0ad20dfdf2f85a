-- ===== src/SearchAutocomplete/Cache/Answers.antt =====
-- Suggest over a trie with caches answers as it would over the trie without them.
use mathlib.Core.Path.{subst, subst⁻¹}
use mathlib.Core.List.{append_assoc, append-nil}
use system_design_implementa.Prelude.{
  ℕ, ◌≤◌, ◌≡◌, refl, sym, ap, true, Bool-cases, Option-cases, inl, inr, List, [], ◌∷◌, ◌++◌, Option,
  none, some, ◌==◌, arith,
}
use system_design_implementa.Prelude.Int.{ℤ}
use system_design_implementa.SearchAutocomplete.Trie.{
  Reco, Node, node, Children, no_child, child, child_at, descend, build_trie, new_node,
}
use system_design_implementa.SearchAutocomplete.Heap.{Heap}
use system_design_implementa.SearchAutocomplete.Suggest.{dfs}
use system_design_implementa.SearchAutocomplete.Ranking.{IsTop, is_desc}
use system_design_implementa.SearchAutocomplete.TopK.{rec_less}
use system_design_implementa.SearchAutocomplete.TopK.Laws.{top_k_correct}
use system_design_implementa.SearchAutocomplete.Merge.{head_less}
use system_design_implementa.SearchAutocomplete.Cache.Kept.{
  IsCached, descend-IsCached, fresh-IsCached, build_trie-fresh, is_fresh,
}
use system_design_implementa.SearchAutocomplete.Cache.Laws.{traverse-IsCached, dfs-traverse}
use system_design_implementa.SearchAutocomplete.Cache.{
  traverse, traverse_children, build_cache, default_k, recos_of, suggest, words,
}

-- An answer of Suggest: the words of the best k of what was found, the highest frequency first.
abbrev pub AnswersTop : ℕ → List Reco → Option (Option (List (List ℕ))) → Type 0
AnswersTop k found answer =
    (out : List Reco) × (answer ≡ some (some (words out)))
    × IsTop k found out
    × (is_desc out ≡ true)

module _ {H : Type 0} (q : Heap rec_less H) where
  recos-AnswersTop :
      (k : ℕ) (s : List ℕ) (n : Node)
      → 1 ≤ k
      → IsCached k s n
      → (out : List Reco) × (recos_of q k s n ≡ some out)
        × IsTop k (dfs s n) out
        × (is_desc out ≡ true)
  unfolding recos_of IsCached
  recos-AnswersTop k s (node is_word freq none cs) pos c =
      top_k_correct q (dfs s (node is_word freq none cs)) k pos
  recos-AnswersTop k s (node is_word freq (some l) cs) pos c = (l, refl, c.0.0, c.0.1)

  -- Suggest answers for a text that is in the trie, with k at least 1 and caches that hold what is
  -- below their nodes.
  pub suggest-AnswersTop :
      (s : List ℕ) (k : ℕ) (t n : Node)
      → 1 ≤ k
      → IsCached k [] t
      → descend s t ≡ some n
      → AnswersTop k (dfs s n) (suggest q s k t)
  unfolding suggest
  suggest-AnswersTop s k t n pos c found =
      let (out, e, top, d) = recos-AnswersTop k s n pos (descend-IsCached k [] s t n c found) in
      (out, ground arith, top, d)

module _ {H : Type 0} (q : Heap head_less H) (k depth : ℕ) where
  child_at-traverse :
      (path : List ℕ) (x : ℕ) (cs : Children)
      → child_at x (traverse_children q k depth path cs).0 ≡ elim (child_at x cs) [
        | none ↦ none
        | some m ↦ some (traverse q k depth (path ++ x ∷ []) m).0
      ]
  unfolding child_at traverse
  child_at-traverse path x no_child = refl
  child_at-traverse path x (child y m cs) = elim (Bool-cases (y == x)) [
    | inl same ↦ let at : y ≡ x = ground arith in rw same (rw at refl)
    | inr other ↦ rw other (child_at-traverse path x cs)
  ]

  -- A text leads to a node of the trie with caches if it leads to one of the trie without, and the walk
  -- below finds the same.
  descend-traverse :
      (path s : List ℕ) (t n : Node)
      → descend s t ≡ some n
      → descend s (traverse q k depth path t).0 ≡ some (traverse q k depth (path ++ s) n).0
  unfolding descend traverse
  descend-traverse path [] t n e =
      let it : t ≡ n = cc in
      rw it (ap (λ p. some (traverse q k depth p n).0) (sym (append-nil path)))
  descend-traverse path (x ∷ xs) (node is_word freq top cs) n e =
      elim (Option-cases (child_at x cs)) [
        | inl p ↦ absurd (ground arith)
        | inr (m, p) ↦
            let there = child_at-traverse path x cs in
            let rest = descend-traverse (path ++ x ∷ []) xs m n (ground arith) in
            ground (arith, append_assoc path (x ∷ []) xs)
      ]

-- The whole way: BuildTrie reads the lines, BuildCache fills the caches down to any depth, and for k at
-- least 1 and a text that leads to a node, Suggest answers with the words of the best k of what the
-- walk finds below that node, the highest frequency first.
pub build_cache-suggest :
    {H H' : Type 0} (q : Heap head_less H) (q' : Heap rec_less H') (s : List ℕ) (k depth : ℕ)
    (lines : List (List ℕ × ℤ)) (n : Node)
    → 1 ≤ k
    → descend s (build_trie lines new_node) ≡ some n
    → AnswersTop k (dfs s n) (suggest q' s k (build_cache q k depth (build_trie lines new_node)))
unfolding build_cache
build_cache-suggest q q' s k depth lines n pos found =
    let t = build_trie lines new_node in
    let same : default_k k ≡ k = unfold default_k in ground arith in
    let kept =
      fresh-IsCached k [] t (build_trie-fresh lines new_node (unfold is_fresh new_node in refl)) in
    let there = descend-traverse q k depth [] s t n found in
    subst⁻¹ (λ j. AnswersTop k (dfs s n) (suggest q' s k (traverse q j depth [] t).0)) same
      (subst (λ z. AnswersTop k z (suggest q' s k (traverse q k depth [] t).0))
        (dfs-traverse q k pos depth s s n)
        (suggest-AnswersTop q' s k _ _ pos (traverse-IsCached q k pos depth [] t kept) there))
