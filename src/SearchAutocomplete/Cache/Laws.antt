-- ===== src/SearchAutocomplete/Cache/Laws.antt =====
-- TraverseAndBuild fills each cache with the best k of what is below its node.
use mathlib.Core.Path.{ap₂, subst⁻¹}
use mathlib.Core.List.{append-nil}
use system_design_implementa.Prelude.{
  ℕ, ◌+◌, ◌≤◌, min, ◌≡◌, refl, ap, Bool, true, false, ◌&&◌, List, [], ◌∷◌, ◌++◌, Option, none, some,
  if◌then◌else◌, leb, length, arith,
}
use system_design_implementa.Prelude.Int.{ℤ}
use system_design_implementa.Prelude.Bags.{total, total-append}
use system_design_implementa.SearchAutocomplete.Trie.{Reco, Node, node, Children, no_child, child}
use system_design_implementa.SearchAutocomplete.Heap.{Heap}
use system_design_implementa.SearchAutocomplete.Suggest.{dfs, dfs_children}
use system_design_implementa.SearchAutocomplete.Ranking.{IsTop, above, above-le, is_desc}
use system_design_implementa.SearchAutocomplete.Merge.{head_less}
use system_design_implementa.SearchAutocomplete.Merge.Laws.{joined, all_desc, merge_top_k_correct}
use system_design_implementa.SearchAutocomplete.Cache.Kept.{Keeps, IsCached, ChildrenCached}
use system_design_implementa.SearchAutocomplete.Cache.{
  entries, add_list, best_of, own, traverse, traverse_children,
}

abbrev pub all_short : ℕ → List (List Reco) → Bool
all_short k [] = true
all_short k (l ∷ ls) = leb (total (λ r. 1) l) k && all_short k ls

-- Lists in order and of at most k entries that together have the best k of what was found.
pub record AreTops (k : ℕ) (found : List Reco) (lists : List (List Reco)) : Type 0 where
  pub part : (w : Reco → ℕ) → total w (joined lists) ≤ total w found
  pub best : (f : ℤ) → min k (total (above f) (joined lists)) ≡ min k (total (above f) found)
  pub size : min k (total (λ r. 1) (joined lists)) ≡ min k (total (λ r. 1) found)
  pub desc : all_desc lists ≡ true
  pub short : all_short k lists ≡ true

pub nothing-AreTops : (k : ℕ) → AreTops k [] []
nothing-AreTops k = record {
  part = λ w. omega arith;
  best = λ f. refl;
  size = refl;
  desc = refl;
  short = refl;
}

pub own-AreTops :
    (k : ℕ) (is_word : Bool) (r : Reco) (found : List Reco) (lists : List (List Reco))
    → 1 ≤ k
    → AreTops k found lists
    → AreTops k (if is_word then r ∷ found else found) (own is_word r lists)
unfolding own total
own-AreTops k false r found lists pos t = t
own-AreTops k true r found lists pos t = record {
  part = λ w. omega (arith, t.part w);
  best = λ f. omega (arith, t.best f);
  size = omega (arith, t.size);
  desc = t.desc;
  short = ground (arith, t.short);
}

joined-add_list :
    (w : Reco → ℕ) (top : Option (List Reco)) (ls : List (List Reco))
    → total w (joined (add_list top ls)) ≡ total w (entries top) + total w (joined ls)
unfolding total
joined-add_list w none ls = omega arith
joined-add_list w (some []) ls = omega arith
joined-add_list w (some (x ∷ xs)) ls = total-append w (x ∷ xs) (joined ls)

add_list-desc :
    (k : ℕ) (top : Option (List Reco)) (ls : List (List Reco))
    → is_desc (entries top) ≡ true
    → total (λ r. 1) (entries top) ≤ k
    → all_desc ls ≡ true
    → all_short k ls ≡ true
    → (all_desc (add_list top ls) ≡ true) × (all_short k (add_list top ls) ≡ true)
add_list-desc k none ls d s ds ss = (ds, ss)
add_list-desc k (some []) ls d s ds ss = (ds, ss)
add_list-desc k (some (x ∷ xs)) ls d s ds ss = (ground arith, ground arith)

-- The best of a child beside those of the children after it.
add_list-AreTops :
    (k : ℕ) (xs ys : List Reco) (top : Option (List Reco)) (ls : List (List Reco))
    → IsTop k xs (entries top)
    → is_desc (entries top) ≡ true
    → AreTops k ys ls
    → AreTops k (xs ++ ys) (add_list top ls)
add_list-AreTops k xs ys top ls t d ts =
    let joins = λ (w : Reco → ℕ). joined-add_list w top ls in
    let both = λ (w : Reco → ℕ). total-append w xs ys in
    let order = add_list-desc k top ls d (omega (arith, t.size)) ts.desc ts.short in
    record {
      part = λ w. omega (arith, joins w, both w, t.part w, ts.part w);
      best = λ f. omega (arith, joins (above f), both (above f), t.best f, ts.best f);
      size = omega (arith, joins (λ r. 1), both (λ r. 1), t.size, ts.size);
      desc = order.0;
      short = order.1;
    }

module _ {H : Type 0} (q : Heap head_less H) (k : ℕ) (pos : 1 ≤ k) where
  pub best_of-IsTop :
      (found : List Reco) (ls : List (List Reco))
      → AreTops k found ls
      → IsTop k found (entries (best_of q k ls)) × (is_desc (entries (best_of q k ls)) ≡ true)
  unfolding best_of total
  best_of-IsTop found [] t = (
    record { part = t.part; best = λ f. omega (arith, t.best f); size = omega (arith, t.size) },
    refl,
  )
  best_of-IsTop found (l ∷ []) t =
      let alone = λ (w : Reco → ℕ). ap (total w) (append-nil l) in
      let few : total (λ r. 1) l ≤ k = ground (arith, t.short) in
      (
        record {
          part = λ w. omega (arith, t.part w, alone w);
          best = λ f. omega (arith, t.best f, alone (above f), above-le f l, few);
          size = omega (arith, t.size, alone (λ r. 1), few);
        },
        ground (arith, t.desc),
      )
  best_of-IsTop found (l ∷ l' ∷ ls) t =
      let (m, d) = merge_top_k_correct q (l ∷ l' ∷ ls) k t.desc in
      (
        record {
          part = λ w. omega (arith, t.part w, m.part w);
          best = λ f. omega (arith, t.best f, m.best f);
          size = omega (arith, t.size, m.size);
        },
        d,
      )

  mutual
    unfolding traverse dfs

    pub traverse-IsTop :
        (depth : ℕ) (path : List ℕ) (n : Node)
        → IsTop k (dfs path n) (entries (traverse q k depth path n).1)
          × (is_desc (entries (traverse q k depth path n).1) ≡ true)
    traverse-IsTop depth path (node is_word freq old cs) =
        best_of-IsTop (dfs path (node is_word freq old cs))
          (own is_word (record { word = path; freq = freq })
            (traverse_children q k depth path cs).1)
          (own-AreTops k is_word (record { word = path; freq = freq }) (dfs_children path cs)
            (traverse_children q k depth path cs).1 pos (children-AreTops depth path cs))

    children-AreTops :
        (depth : ℕ) (path : List ℕ) (cs : Children)
        → AreTops k (dfs_children path cs) (traverse_children q k depth path cs).1
    children-AreTops depth path no_child = nothing-AreTops k
    children-AreTops depth path (child x n cs) =
        let (t, d) = traverse-IsTop depth (path ++ x ∷ []) n in
        add_list-AreTops k (dfs (path ++ x ∷ []) n) (dfs_children path cs)
          (traverse q k depth (path ++ x ∷ []) n).1 (traverse_children q k depth path cs).1 t d
          (children-AreTops depth path cs)

  mutual
    unfolding traverse dfs

    -- The walk finds the same below a node with caches.
    pub dfs-traverse :
        (depth : ℕ) (at path : List ℕ) (n : Node) → dfs at (traverse q k depth path n).0 ≡ dfs at n
    dfs-traverse depth at path (node is_word freq old cs) =
        ap (λ l. if is_word then record { word = at; freq = freq } ∷ l else l)
          (dfs_children-traverse depth at path cs)

    pub dfs_children-traverse :
        (depth : ℕ) (at path : List ℕ) (cs : Children)
        → dfs_children at (traverse_children q k depth path cs).0 ≡ dfs_children at cs
    dfs_children-traverse depth at path no_child = refl
    dfs_children-traverse depth at path (child x n cs) =
        ap₂ ◌++◌ (dfs-traverse depth (at ++ x ∷ []) (path ++ x ∷ []) n)
          (dfs_children-traverse depth at path cs)

  stored-Keeps :
      (fits : Bool) (top old : Option (List Reco)) (found : List Reco)
      → IsTop k found (entries top)
      → is_desc (entries top) ≡ true
      → Keeps k old found
      → Keeps k (if fits then top else old) found
  stored-Keeps false top old found t d kept = kept
  stored-Keeps true none old found t d kept = tt
  stored-Keeps true (some l) old found t d kept = (t, d)

  mutual
    unfolding traverse IsCached

    -- After the traversal each cache, new or old, holds the best k of what the walk finds below.
    pub traverse-IsCached :
        (depth : ℕ) (path : List ℕ) (n : Node)
        → IsCached k path n
        → IsCached k path (traverse q k depth path n).0
    traverse-IsCached depth path (node is_word freq old cs) c =
        let (t, d) = traverse-IsTop depth path (node is_word freq old cs) in
        (
          subst⁻¹ (Keeps k _) (dfs-traverse depth path path (node is_word freq old cs))
              (stored-Keeps (leb (length path) depth) _ old _ t d c.0),
          traverse_children-Cached depth path cs c.1,
        )

    pub traverse_children-Cached :
        (depth : ℕ) (path : List ℕ) (cs : Children)
        → ChildrenCached k path cs
        → ChildrenCached k path (traverse_children q k depth path cs).0
    traverse_children-Cached depth path no_child c = tt
    traverse_children-Cached depth path (child x n cs) c =
        (traverse-IsCached depth (path ++ x ∷ []) n c.0, traverse_children-Cached depth path cs c.1)
