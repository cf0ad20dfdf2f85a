-- ===== src/SearchAutocomplete/PrefixIndex/Walk.antt =====
-- What walkForIndex writes: one entry for each text that leads to a node, and nothing else.
use mathlib.Core.Path.{subst, subst⁻¹}
use mathlib.Core.List.{append-nil, append_assoc}
use system_design_implementa.Prelude.{
  ℕ, ◌≡◌, refl, ◌∙◌, ap, true, false, List, [], ◌∷◌, ◌++◌, Option, none, some, ◌==◌, arith,
  Bool-cases, inl, inr,
}
use system_design_implementa.SearchAutocomplete.Trie.{
  Reco, Node, node, Children, no_child, child, child_at, descend,
}
use system_design_implementa.SearchAutocomplete.Heap.{Heap}
use system_design_implementa.SearchAutocomplete.Merge.{head_less}
use system_design_implementa.SearchAutocomplete.Cache.{own}
use system_design_implementa.SearchAutocomplete.Seeder.{same, find}
use system_design_implementa.SearchAutocomplete.Seeder.Index.{starts, find-put, same_self}
use system_design_implementa.SearchAutocomplete.PrefixIndex.{
  PrefixIndex, index_top, walk_for_index, walk_children,
}
use system_design_implementa.SearchAutocomplete.PrefixIndex.Keys.{has_key, is_tree, are_trees}

starts-longer :
    (p : List ℕ) (x : ℕ) (s : List ℕ) → starts p s ≡ false → starts (p ++ x ∷ []) s ≡ false
starts-longer [] x s e = absurd (cc)
starts-longer (y ∷ p) x [] e = refl
starts-longer (y ∷ p) x (z ∷ s) e = ground (arith, starts-longer p x s)

starts-same : (p s : List ℕ) → starts p s ≡ false → same p s ≡ false
starts-same [] s e = absurd (cc)
starts-same (y ∷ p) [] e = refl
starts-same (y ∷ p) (z ∷ s) e = ground (arith, starts-same p s)

starts-sibling :
    (p : List ℕ) (y x : ℕ) (s : List ℕ)
    → (y == x) ≡ false
    → starts (p ++ y ∷ []) (p ++ x ∷ s) ≡ false
starts-sibling [] y x s e = ground arith
starts-sibling (z ∷ p) y x s e = ground (arith, starts-sibling p y x s)

same-longer : (p : List ℕ) (x : ℕ) (s : List ℕ) → same p (p ++ x ∷ s) ≡ false
same-longer [] x s = refl
same-longer (z ∷ p) x s = ground (arith, same-longer p x s)

module _ {H : Type 0} (q : Heap head_less H) (k : ℕ) where
  -- The best completions below a node, with no index.
  unfoldable mutual
    pub top_below : List ℕ → Node → List Reco
    top_below prefix (node is_word freq old cs) =
        index_top q k (own is_word (record { word = prefix; freq = freq }) (tops_below prefix cs))

    pub tops_below : List ℕ → Children → List (List Reco)
    tops_below prefix no_child = []
    tops_below prefix (child x n cs) = top_below (prefix ++ x ∷ []) n ∷ tops_below prefix cs

  mutual
    unfolding walk_for_index top_below

    walk-top :
        (prefix : List ℕ) (n : Node) (pi : PrefixIndex)
        → (walk_for_index q k prefix n pi).1 ≡ top_below prefix n
    walk-top prefix (node is_word freq old cs) pi =
        ap (λ l. index_top q k (own is_word (record { word = prefix; freq = freq }) l))
          (walk-tops prefix cs pi)

    walk-tops :
        (prefix : List ℕ) (cs : Children) (pi : PrefixIndex)
        → (walk_children q k prefix cs pi).1 ≡ tops_below prefix cs
    walk-tops prefix no_child pi = refl
    walk-tops prefix (child x n cs) pi =
        let pi' = (walk_for_index q k (prefix ++ x ∷ []) n pi).0 in
        λ i. walk-top (prefix ++ x ∷ []) n pi i ∷ walk-tops prefix cs pi' i

  mutual
    unfolding walk_for_index

    walk-apart :
        (s prefix : List ℕ) (n : Node) (pi : PrefixIndex)
        → starts prefix s ≡ false
        → find s (walk_for_index q k prefix n pi).0 ≡ find s pi
    walk-apart s prefix (node is_word freq old cs) pi e = ground (
      arith,
      find-put s prefix (walk_for_index q k prefix (node is_word freq old cs) pi).1
          (walk_children q k prefix cs pi).0,
      starts-same prefix s e,
      walk_children-apart s prefix cs pi e,
    )

    walk_children-apart :
        (s prefix : List ℕ) (cs : Children) (pi : PrefixIndex)
        → starts prefix s ≡ false
        → find s (walk_children q k prefix cs pi).0 ≡ find s pi
    walk_children-apart s prefix no_child pi e = refl
    walk_children-apart s prefix (child x n cs) pi e =
        walk_children-apart s prefix cs (walk_for_index q k (prefix ++ x ∷ []) n pi).0 e
        ∙ walk-apart s (prefix ++ x ∷ []) n pi (starts-longer prefix x s e)

  walk-other_key :
      (x : ℕ) (s prefix : List ℕ) (cs : Children) (pi : PrefixIndex)
      → has_key x cs ≡ false
      → find (prefix ++ x ∷ s) (walk_children q k prefix cs pi).0 ≡ find (prefix ++ x ∷ s) pi
  unfolding walk_for_index has_key
  walk-other_key x s prefix no_child pi e = refl
  walk-other_key x s prefix (child y n cs) pi e =
      walk-other_key x s prefix cs (walk_for_index q k (prefix ++ y ∷ []) n pi).0 (ground arith)
      ∙ walk-apart (prefix ++ x ∷ s) (prefix ++ y ∷ []) n pi
          (starts-sibling prefix y x s (ground arith))

  -- The entry of a text below a node: what is best there, or what the index had.
  abbrev pub written : List ℕ → Option Node → Option (List Reco) → Option (List Reco)
  written s none old = old
  written s (some m) old = some (top_below s m)

  mutual
    unfolding walk_for_index top_below is_tree descend child_at has_key

    pub find-walk :
        (rest prefix : List ℕ) (n : Node) (pi : PrefixIndex)
        → is_tree n ≡ true
        → find (prefix ++ rest) (walk_for_index q k prefix n pi).0
          ≡ written (prefix ++ rest) (descend rest n) (find (prefix ++ rest) pi)
    find-walk [] prefix (node is_word freq old cs) pi e =
        let n = node is_word freq old cs in
        let here =
          find-put prefix prefix (walk_for_index q k prefix n pi).1
            (walk_children q k prefix cs pi).0 in
        let at : find prefix (walk_for_index q k prefix n pi).0 ≡ some (top_below prefix n) =
          ground (arith, here, same_self prefix, walk-top prefix n pi) in
        subst⁻¹ (λ p. find p (walk_for_index q k prefix n pi).0 ≡ some (top_below p n))
          (append-nil prefix) at
    find-walk (x ∷ rest) prefix (node is_word freq old cs) pi e =
        let n = node is_word freq old cs in
        let here =
          find-put (prefix ++ x ∷ rest) prefix (walk_for_index q k prefix n pi).1
            (walk_children q k prefix cs pi).0 in
        let below = find-walk_children x rest prefix cs pi e in
        ground (arith, here, same-longer prefix x rest, below)

    find-walk_children :
        (x : ℕ) (rest prefix : List ℕ) (cs : Children) (pi : PrefixIndex)
        → are_trees cs ≡ true
        → find (prefix ++ x ∷ rest) (walk_children q k prefix cs pi).0
          ≡ written
              (prefix ++ x ∷ rest)
              (elim (child_at x cs) [ none ↦ none | some m ↦ descend rest m ])
              (find (prefix ++ x ∷ rest) pi)
    find-walk_children x rest prefix no_child pi e = refl
    find-walk_children x rest prefix (child y n cs) pi e = elim (Bool-cases (y == x)) [
      | inl here ↦
          let at : y ≡ x = ground arith in
          let alone : has_key x cs ≡ false = ground arith in
          let pi' = (walk_for_index q k (prefix ++ y ∷ []) n pi).0 in
          let stays = walk-other_key x rest prefix cs pi' alone in
          let below =
            subst (λ p. find p pi' ≡ written p (descend rest n) (find p pi))
              (append_assoc prefix (y ∷ []) rest)
              (find-walk rest (prefix ++ y ∷ []) n pi (ground arith)) in
          let there : find (prefix ++ x ∷ rest) pi'
              ≡ written (prefix ++ x ∷ rest) (descend rest n) (find (prefix ++ x ∷ rest) pi) =
            subst
              (λ z.
                find (prefix ++ z ∷ rest) pi'
                ≡ written (prefix ++ z ∷ rest) (descend rest n) (find (prefix ++ z ∷ rest) pi))
              at below in
          rw here (stays ∙ there)
      | inr apart ↦
          let pi' = (walk_for_index q k (prefix ++ y ∷ []) n pi).0 in
          let first =
            walk-apart (prefix ++ x ∷ rest) (prefix ++ y ∷ []) n pi
              (starts-sibling prefix y x rest apart) in
          let later = find-walk_children x rest prefix cs pi' (ground arith) in
          rw apart (later ∙ ap (written (prefix ++ x ∷ rest) _) first)
    ]
