-- ===== src/SearchAutocomplete/Cache/Kept.antt =====
-- A trie whose caches hold what the walk below each node finds.
use mathlib.Core.Path.{subst}
use mathlib.Core.List.{append-nil, append_assoc}
use system_design_implementa.Prelude.{
  Option-cases, ℕ, ◌≡◌, refl, sym, Bool, true, false, ◌&&◌, Bool-cases, inl, inr, List, [], ◌∷◌,
  ◌++◌, Option, none, some, ◌==◌, arith,
}
use system_design_implementa.Prelude.Int.{ℤ}
use system_design_implementa.SearchAutocomplete.Trie.{
  Reco, Node, node, Children, no_child, child, child_at, descend, new_node, put_child, child_or_new,
  insert, build_trie,
}
use system_design_implementa.SearchAutocomplete.Suggest.{dfs}
use system_design_implementa.SearchAutocomplete.Ranking.{IsTop, is_desc}

-- A cache of the best k, the highest frequency first, or none.
abbrev pub Keeps : ℕ → Option (List Reco) → List Reco → Type 0
Keeps k none found = Unit {0}
Keeps k (some l) found = IsTop k found l × (is_desc l ≡ true)

unfoldable mutual
  pub IsCached : ℕ → List ℕ → Node → Type 0
  IsCached k path (node is_word freq top cs) =
      Keeps k top (dfs path (node is_word freq top cs)) × ChildrenCached k path cs

  pub ChildrenCached : ℕ → List ℕ → Children → Type 0
  ChildrenCached k path no_child = Unit {0}
  ChildrenCached k path (child x n cs) = IsCached k (path ++ x ∷ []) n × ChildrenCached k path cs

-- No node has a cache.
unfoldable mutual
  pub is_fresh : Node → Bool
  is_fresh (node is_word freq none cs) = all_fresh cs
  is_fresh (node is_word freq (some l) cs) = false

  pub all_fresh : Children → Bool
  all_fresh no_child = true
  all_fresh (child x n cs) = is_fresh n && all_fresh cs

mutual
  unfolding is_fresh IsCached

  pub fresh-IsCached : (k : ℕ) (path : List ℕ) (n : Node) → is_fresh n ≡ true → IsCached k path n
  fresh-IsCached k path (node is_word freq none cs) e = (tt, all_fresh-ChildrenCached k path cs e)
  fresh-IsCached k path (node is_word freq (some l) cs) e = absurd (cc)

  pub all_fresh-ChildrenCached :
      (k : ℕ) (path : List ℕ) (cs : Children) → all_fresh cs ≡ true → ChildrenCached k path cs
  all_fresh-ChildrenCached k path no_child e = tt
  all_fresh-ChildrenCached k path (child x n cs) e = (
    fresh-IsCached k (path ++ x ∷ []) n (ground arith),
    all_fresh-ChildrenCached k path cs (ground arith),
  )

put_child-fresh :
    (x : ℕ) (n : Node) (cs : Children)
    → is_fresh n ≡ true
    → all_fresh cs ≡ true
    → all_fresh (put_child x n cs) ≡ true
unfolding is_fresh put_child
put_child-fresh x n no_child f g = ground arith
put_child-fresh x n (child y m cs) f g = ground (arith, put_child-fresh x n cs)

child_or_new-fresh :
    (x : ℕ) (cs : Children) → all_fresh cs ≡ true → is_fresh (child_or_new (child_at x cs)) ≡ true
unfolding is_fresh child_or_new new_node child_at
child_or_new-fresh x no_child f = refl
child_or_new-fresh x (child y m cs) f = ground (arith, child_or_new-fresh x cs)

insert-fresh :
    (xs : List ℕ) (freq : ℤ) (n : Node) → is_fresh n ≡ true → is_fresh (insert xs freq n) ≡ true
unfolding is_fresh insert
insert-fresh [] freq (node is_word old none cs) f = f
insert-fresh (x ∷ xs) freq (node is_word old none cs) f =
    put_child-fresh x (insert xs freq (child_or_new (child_at x cs))) cs
      (insert-fresh xs freq (child_or_new (child_at x cs)) (child_or_new-fresh x cs f)) f
insert-fresh xs freq (node is_word old (some l) cs) f = absurd (cc)

pub build_trie-fresh :
    (lines : List (List ℕ × ℤ)) (t : Node)
    → is_fresh t ≡ true
    → is_fresh (build_trie lines t) ≡ true
unfolding build_trie
build_trie-fresh [] t f = f
build_trie-fresh ((phrase, freq) ∷ lines) t f =
    build_trie-fresh lines (insert phrase freq t) (insert-fresh phrase freq t f)

child_at-IsCached :
    (k : ℕ) (path : List ℕ) (x : ℕ) (cs : Children) (n : Node)
    → ChildrenCached k path cs
    → child_at x cs ≡ some n
    → IsCached k (path ++ x ∷ []) n
unfolding IsCached child_at
child_at-IsCached k path x no_child n c e = absurd (cc)
child_at-IsCached k path x (child y m cs) n c e = elim (Bool-cases (y == x)) [
  | inl same ↦
      let at : y ≡ x = ground arith in
      let it : m ≡ n = ground arith in
      subst (λ z. IsCached k (path ++ z ∷ []) n) at
        (subst (λ z. IsCached k (path ++ y ∷ []) z) it c.0)
  | inr other ↦ child_at-IsCached k path x cs n c.1 (ground arith)
]

-- What a node caches is found below it, under the text that leads there.
pub descend-IsCached :
    (k : ℕ) (path s : List ℕ) (t n : Node)
    → IsCached k path t
    → descend s t ≡ some n
    → IsCached k (path ++ s) n
unfolding descend
descend-IsCached k path [] t n c e =
    let it : t ≡ n = cc in
    subst (λ z. IsCached k (path ++ []) z) it
      (subst (λ z. IsCached k z t) (sym (append-nil path)) c)
descend-IsCached k path (x ∷ xs) (node is_word freq top cs) n c e =
    elim (Option-cases (child_at x cs)) [
      | inl p ↦ absurd (ground arith)
      | inr (m, p) ↦
          let below = child_at-IsCached k path x cs m (unfold IsCached in c.1) p in
          let rest = descend-IsCached k (path ++ x ∷ []) xs m n below (ground arith) in
          subst (λ z. IsCached k z n) (append_assoc path (x ∷ []) xs) rest
    ]
