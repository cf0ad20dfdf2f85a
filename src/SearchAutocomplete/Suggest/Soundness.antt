-- ===== src/SearchAutocomplete/Suggest/Soundness.antt =====
-- The walk finds nothing but words: a trie that is built has one child for each rune at most.
use mathlib.Core.Path.{subst}
use system_design_implementa.Prelude.{
  ℕ, ◌≡◌, ◌⊎◌, ◌↔◌, refl, sym, ap, ◌∙◌, true, false, List, [], ◌∷◌, ◌++◌, Option, none, some, arith,
  ◌==◌, Any, here, there, Bool-cases, Option-cases, inl, inr,
}
use system_design_implementa.Prelude.Int.{ℤ}
use system_design_implementa.SearchAutocomplete.Trie.{
  Reco, Node, node, Children, no_child, child, new_node, child_at, put_child, child_or_new, insert,
  search, descend, build_trie,
}
use system_design_implementa.SearchAutocomplete.Trie.Laws.{
  frequency, last_freq, child_at-put_child, build_trie_correct,
}
use system_design_implementa.SearchAutocomplete.Suggest.{dfs, dfs_children}
use system_design_implementa.SearchAutocomplete.Suggest.Laws.{append_nil, append_snoc, dfs_complete}

unfoldable mutual
  pub IsTidy : Node → Type 0
  IsTidy (node w f top cs) = AreTidy cs

  pub AreTidy : Children → Type 0
  AreTidy no_child = Unit {0}
  AreTidy (child x n cs) = (child_at x cs ≡ none) × IsTidy n × AreTidy cs

put_child-AreTidy :
    (x : ℕ) (n : Node) (cs : Children) → IsTidy n → AreTidy cs → AreTidy (put_child x n cs)
unfolding AreTidy put_child child_at
put_child-AreTidy x n no_child t u = (refl, t, tt)
put_child-AreTidy x n (child y m cs) t u = elim (Bool-cases (y == x)) [
  | inl e ↦ rw e (ground (arith, u.0, e), t, u.2)
  | inr e ↦
      rw e
        (ground (arith, child_at-put_child x y n cs, u.0, e), u.1, put_child-AreTidy x n cs t u.2)
]

child_at-IsTidy : (x : ℕ) (cs : Children) → AreTidy cs → IsTidy (child_or_new (child_at x cs))
unfolding AreTidy child_at child_or_new new_node
child_at-IsTidy x no_child u = tt
child_at-IsTidy x (child y m cs) u = elim (Bool-cases (y == x)) [
  | inl e ↦ rw e u.1
  | inr e ↦ rw e (child_at-IsTidy x cs u.2)
]

insert-IsTidy : (s : List ℕ) (f : ℤ) (n : Node) → IsTidy n → IsTidy (insert s f n)
unfolding IsTidy insert
insert-IsTidy [] f (node w g top cs) t = t
insert-IsTidy (x ∷ s) f (node w g top cs) t =
    put_child-AreTidy x _ cs
      (insert-IsTidy s f (child_or_new (child_at x cs)) (child_at-IsTidy x cs t)) t

build-IsTidy : (lines : List (List ℕ × ℤ)) (n : Node) → IsTidy n → IsTidy (build_trie lines n)
unfolding build_trie
build-IsTidy [] n t = t
build-IsTidy ((s, f) ∷ lines) n t = build-IsTidy lines (insert s f n) (insert-IsTidy s f n t)

-- The frequency of a word below a child.
abbrev below : ℕ → List ℕ → Children → Option ℤ
below x s cs = elim (child_at x cs) [ none ↦ none | some m ↦ frequency s m ]

Any-append :
    {A : Type 0} {P : A → Type 0} (xs ys : List A) → Any P (xs ++ ys) → (Any P xs) ⊎ (Any P ys)
Any-append [] ys a = inr a
Any-append (x ∷ xs) ys (here p) = inl (here p)
Any-append (x ∷ xs) ys (there a) = elim (Any-append xs ys a) [
  | inl b ↦ inl (there b)
  | inr b ↦ inr b
]

mutual
  unfolding IsTidy dfs frequency search descend child_at

  dfs_sound :
      (r : Reco) (p : List ℕ) (n : Node)
      → IsTidy n
      → Any (λ q. q ≡ r) (dfs p n)
      → (s : List ℕ) × (r.word ≡ p ++ s) × (frequency s n ≡ some r.freq)
  dfs_sound r p (node true f top cs) t (here e) =
      ([], sym (ap (λ q. q.word) e) ∙ append_nil p, ap some (ap (λ q. q.freq) e))
  dfs_sound r p (node true f top cs) t (there a) =
      let (x, s, e, g) = children_sound r p cs t a in (x ∷ s, e, ground (arith, g))
  dfs_sound r p (node false f top cs) t a =
      let (x, s, e, g) = children_sound r p cs t a in (x ∷ s, e, ground (arith, g))

  children_sound :
      (r : Reco) (p : List ℕ) (cs : Children)
      → AreTidy cs
      → Any (λ q. q ≡ r) (dfs_children p cs)
      → (x : ℕ) × (s : List ℕ) × (r.word ≡ p ++ x ∷ s) × (below x s cs ≡ some r.freq)
  children_sound r p no_child t a = elim a [ ]
  children_sound r p (child y m cs) t a =
      elim (Any-append (dfs (p ++ y ∷ []) m) (dfs_children p cs) a) [
        | inl b ↦
            let (s, e, f) = dfs_sound r (p ++ y ∷ []) m t.1 b in
            (y, s, e ∙ append_snoc p s y, ground (arith, f))
        | inr b ↦
            let (x, s, e, f) = children_sound r p cs t.2 b in (x, s, e, ground (arith, f, t.0))
      ]

descend-IsTidy : (s : List ℕ) (t n : Node) → IsTidy t → descend s t ≡ some n → IsTidy n
unfolding descend IsTidy
descend-IsTidy [] t n u e = let it : t ≡ n = cc in subst IsTidy it u
descend-IsTidy (x ∷ xs) (node w f top cs) n u e = elim (Option-cases (child_at x cs)) [
  | inl p ↦ absurd (ground arith)
  | inr (m, p) ↦
      let tidy = child_at-IsTidy x cs u in
      let it : child_or_new (child_at x cs) ≡ m = unfold child_or_new in rw p refl in
      descend-IsTidy xs m n (subst IsTidy it tidy) (ground arith)
]

descend-append :
    (s rest : List ℕ) (t n : Node) → descend s t ≡ some n → descend (s ++ rest) t ≡ descend rest n
unfolding descend
descend-append [] rest t n e = let it : t ≡ n = cc in ap (descend rest) it
descend-append (x ∷ xs) rest (node w f top cs) n e = elim (Option-cases (child_at x cs)) [
  | inl p ↦ absurd (ground arith)
  | inr (m, p) ↦ ground (arith, descend-append xs rest m n)
]

frequency-descend :
    (s rest : List ℕ) (t n : Node)
    → descend s t ≡ some n
    → frequency (s ++ rest) t ≡ frequency rest n
unfolding frequency search
frequency-descend s rest t n e = ground (arith, descend-append s rest t n e)

reco_eq : (w : List ℕ) (r : Reco) → r.word ≡ w → record { word = w; freq = r.freq } ≡ r
reco_eq w r e = ground arith

-- What the walk finds below the node that a text, not empty, leads to in the trie that BuildTrie makes:
-- exactly the phrases that begin with the text, each with the frequency on the last line that has it.
pub dfs_below_correct :
    (x : ℕ) (xs : List ℕ) (r : Reco) (lines : List (List ℕ × ℤ)) (n : Node)
    → descend (x ∷ xs) (build_trie lines new_node) ≡ some n
    → Any (λ q. q ≡ r) (dfs (x ∷ xs) n) ↔ (
        (rest : List ℕ) × (r.word ≡ x ∷ (xs ++ rest))
        × (last_freq (x ∷ (xs ++ rest)) lines ≡ some r.freq))
dfs_below_correct x xs r lines n found =
    let t = build_trie lines new_node in
    let tidy : IsTidy t = build-IsTidy lines new_node (unfold IsTidy new_node in tt) in
    let known = λ (rest : List ℕ). (build_trie_correct x (xs ++ rest) lines).0 in
    let same = λ (rest : List ℕ). frequency-descend (x ∷ xs) rest t n found in
    (
      (λ a.
          let (s, e, g) = dfs_sound r (x ∷ xs) n (descend-IsTidy (x ∷ xs) t n tidy found) a in
          (s, e, sym (known s) ∙ same s ∙ g)),
      (λ (s, e, g).
          subst (λ (z : Reco). Any (λ q. q ≡ z) (dfs (x ∷ xs) n)) (reco_eq (x ∷ (xs ++ s)) r e)
            (dfs_complete s (x ∷ xs) n r.freq (sym (same s) ∙ known s ∙ g))),
    )

-- The walk over the trie that BuildTrie makes lists exactly the words of its lines: a text that is not
-- empty is listed with a frequency if and only if that is the frequency on the last line that has it.
pub dfs_correct :
    (x : ℕ) (xs : List ℕ) (f : ℤ) (lines : List (List ℕ × ℤ))
    → Any (λ r. r ≡ record { word = x ∷ xs; freq = f }) (dfs [] (build_trie lines new_node))
      ↔ (last_freq (x ∷ xs) lines ≡ some f)
dfs_correct x xs f lines =
    let t = build_trie lines new_node in
    let known = (build_trie_correct x xs lines).0 in
    (
      (λ a.
          let tidy : IsTidy t = build-IsTidy lines new_node (unfold IsTidy new_node in tt) in
          let (s, e, g) = dfs_sound (record { word = x ∷ xs; freq = f }) [] t tidy a in
          sym known ∙ ap (λ (l : List ℕ). frequency l t) e ∙ g),
      (λ e. dfs_complete (x ∷ xs) [] t f (known ∙ e)),
    )
