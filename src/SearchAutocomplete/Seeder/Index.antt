-- ===== src/SearchAutocomplete/Seeder/Index.antt =====
-- buildPrefixIndex keeps, under each prefix, the best k of the phrases that begin with it.
use mathlib.Core.Path.{subst, subst⁻¹}
use system_design_implementa.Prelude.{
  ℕ, ◌+◌, ◌≤◌, ◌≡◌, refl, sym, ◌∙◌, ap, Bool, true, false, List, [], ◌∷◌, map, Option, none, some,
  ◌==◌, ==_iff, if◌then◌else◌, arith, Bool-cases, inl, inr,
}
use system_design_implementa.Prelude.Bags.{total}
pub use system_design_implementa.Prelude.Runes.{starts}
use system_design_implementa.SearchAutocomplete.Trie.{Reco}
use system_design_implementa.SearchAutocomplete.Heap.{Heap}
use system_design_implementa.SearchAutocomplete.Ranking.{IsTop, no_entry}
use system_design_implementa.SearchAutocomplete.TopK.{rec_less}
use system_design_implementa.SearchAutocomplete.TopK.Laws.{offer-IsTop, nothing-IsTop, IsTop-same}
use system_design_implementa.SearchAutocomplete.Seeder.{
  same, find, put, prefixes, add_at, add_all, index_lines, build_prefix_index,
}

pub same-eq : (p q : List ℕ) → same p q ≡ true → p ≡ q
same-eq [] [] e = refl
same-eq [] (y ∷ ys) e = absurd (cc)
same-eq (x ∷ xs) [] e = absurd (cc)
same-eq (x ∷ xs) (y ∷ ys) e = ground (arith, same-eq xs ys)

same-sym : (p q : List ℕ) → same p q ≡ same q p
same-sym [] [] = refl
same-sym [] (y ∷ ys) = refl
same-sym (x ∷ xs) [] = refl
same-sym (x ∷ xs) (y ∷ ys) = ground (arith, same-sym xs ys)

pub same_self : (p : List ℕ) → same p p ≡ true
same_self [] = refl
same_self (x ∷ xs) = ground (arith, same_self xs)

pub find-put :
    {V : Type 0} (p q : List ℕ) (v : V) (m : List (List ℕ × V))
    → find p (put q v m) ≡ (if same q p then some v else find p m)
unfolding find put
find-put p q v [] = refl
find-put p q v ((j, w) ∷ m) = elim (Bool-cases (same j q)) [
  | inl e ↦ rw e (ground (arith, same-eq j q e, e))
  | inr e ↦ rw e (elim (Bool-cases (same q p)) [
    | inl f ↦ ground (arith, find-put p q v m, same-eq q p f, e, f)
    | inr f ↦ ground (arith, find-put p q v m, f)
  ])
]

-- No key stands twice in a map.
abbrev pub is_map : {V : Type 0} → List (List ℕ × V) → Bool
is_map [] = true
is_map ((p, v) ∷ m) = elim (find p m) [ none ↦ is_map m | some u ↦ false ]

pub put-map :
    {V : Type 0} (p : List ℕ) (v : V) (m : List (List ℕ × V))
    → is_map m ≡ true
    → is_map (put p v m) ≡ true
unfolding put find
put-map p v [] e = refl
put-map p v ((q, w) ∷ m) e = elim (Bool-cases (same q p)) [
  | inl y ↦ rw y (ground (arith, e))
  | inr n ↦ rw n (ground (arith, put-map p v m, find-put q p v m, same-sym p q, n, e))
]

-- Whether a text that is not empty begins with one, and the phrases that begin with it.
abbrev pub begins : List ℕ → List ℕ → Bool
begins [] ys = false
begins (x ∷ xs) ys = starts (x ∷ xs) ys

abbrev pub matching : List ℕ → List Reco → List Reco
matching p [] = []
matching p (r ∷ rs) = if begins p r.word then r ∷ matching p rs else matching p rs

-- The same phrases, as the loop takes them in.
abbrev listed : List ℕ → List Reco → List Reco → List Reco
listed p [] seen = seen
listed p (r ∷ rs) seen = listed p rs (if begins p r.word then r ∷ seen else seen)

total-listed :
    (w : Reco → ℕ) (p : List ℕ) (rs seen : List Reco)
    → total w (listed p rs seen) ≡ total w (matching p rs) + total w seen
unfolding total
total-listed w p [] seen = omega arith
total-listed w p (r ∷ rs) seen =
    ground (arith, total-listed w p rs seen, total-listed w p rs (r ∷ seen))

-- A record taken in at each of the prefixes, as the heap under `p` sees it.
abbrev taken : List ℕ → Reco → List (List ℕ) → List Reco → List Reco
taken p r [] base = base
taken p r (q ∷ ps) base = taken p r ps (if same q p then r ∷ base else base)

taken-map :
    (x y : ℕ) (p : List ℕ) (r : Reco) (ps : List (List ℕ)) (base : List Reco)
    → taken (y ∷ p) r (map (λ q. x ∷ q) ps) base ≡ (if x == y then taken p r ps base else base)
taken-map x y p r [] base = ground arith
taken-map x y p r (q ∷ ps) base =
    ground (arith, taken-map x y p r ps base, taken-map x y p r ps (r ∷ base))

taken-map_nil :
    (x : ℕ) (r : Reco) (ps : List (List ℕ)) (base : List Reco)
    → taken [] r (map (λ q. x ∷ q) ps) base ≡ base
taken-map_nil x r [] base = refl
taken-map_nil x r (q ∷ ps) base = taken-map_nil x r ps base

taken-prefixes :
    (p w : List ℕ) (r : Reco) (base : List Reco)
    → taken p r (prefixes w) base ≡ (if begins p w then r ∷ base else base)
unfolding prefixes
taken-prefixes [] [] r base = refl
taken-prefixes (y ∷ p) [] r base = refl
taken-prefixes [] (x ∷ w) r base = taken-map_nil x r (prefixes w) base
taken-prefixes (y ∷ []) (x ∷ w) r base = ground (
  arith,
  taken-map x y [] r (prefixes w) base,
  taken-map x y [] r (prefixes w) (r ∷ base),
  taken-prefixes [] w r base,
  taken-prefixes [] w r (r ∷ base),
  ==_iff x y,
  ==_iff y x,
)
taken-prefixes (y ∷ z ∷ p) (x ∷ w) r base = ground (
  arith,
  taken-map x y (z ∷ p) r (prefixes w) base,
  taken-prefixes (z ∷ p) w r base,
  ==_iff x y,
  ==_iff y x,
)

module _ {H : Type 0} (q : Heap rec_less H) (k : ℕ) (pos : 1 ≤ k) where
  -- What the heap under a prefix has, when what it was offered is `seen`.
  abbrev pub Holds : Option H → List Reco → Type 0
  Holds none seen = seen ≡ []
  Holds (some h) seen = IsTop k seen (q.items h)

  abbrev found : Option H → H
  found none = q.empty
  found (some h) = h

  found-IsTop : (o : Option H) (seen : List Reco) → Holds o seen → IsTop k seen (q.items (found o))
  found-IsTop none seen e = subst⁻¹ (λ l. IsTop k l (q.items q.empty)) e (nothing-IsTop q k)
  found-IsTop (some h) seen t = t

  add_at-Holds :
      (r : Reco) (p0 : List ℕ) (pi : List (List ℕ × H)) (seen : List ℕ → List Reco)
      → ((p : List ℕ) → Holds (find p pi) (seen p))
      → is_map pi ≡ true
      → (pi' : List (List ℕ × H)) × (add_at q k r p0 pi ≡ some pi')
        × ((p : List ℕ) → Holds (find p pi') (if same p0 p then r ∷ seen p else seen p))
        × (is_map pi' ≡ true)
  unfolding add_at
  add_at-Holds r p0 pi seen h m =
      let (h', e, t) =
        offer-IsTop q k r (found (find p0 pi)) (seen p0) pos
          (found-IsTop (find p0 pi) (seen p0) (h p0)) in
      (
        put p0 h' pi,
        ground (arith, e),
        λ p.
            let there = find-put p p0 h' pi in
            elim (Bool-cases (same p0 p)) [
              | inl y ↦
                  subst⁻¹ (λ o. Holds o (if same p0 p then r ∷ seen p else seen p)) there
                    (rw y (subst (λ z. IsTop k (r ∷ seen z) (q.items h')) (same-eq p0 p y) t))
              | inr n ↦
                  subst⁻¹ (λ o. Holds o (if same p0 p then r ∷ seen p else seen p)) there
                    (rw n (h p))
            ],
        put-map p0 h' pi m,
      )

  add_all-Holds :
      (r : Reco) (ps : List (List ℕ)) (pi : List (List ℕ × H)) (seen : List ℕ → List Reco)
      → ((p : List ℕ) → Holds (find p pi) (seen p))
      → is_map pi ≡ true
      → (pi' : List (List ℕ × H)) × (add_all q k r ps pi ≡ some pi')
        × ((p : List ℕ) → Holds (find p pi') (taken p r ps (seen p)))
        × (is_map pi' ≡ true)
  unfolding add_all
  add_all-Holds r [] pi seen h m = (pi, refl, h, m)
  add_all-Holds r (p0 ∷ ps) pi seen h m =
      let (pi1, e1, h1, m1) = add_at-Holds r p0 pi seen h m in
      let (pi2, e2, h2, m2) =
        add_all-Holds r ps pi1 (λ p. if same p0 p then r ∷ seen p else seen p) h1 m1 in
      (pi2, ground (arith, e1, e2), h2, m2)

  index_lines-Holds :
      (rs : List Reco) (pi : List (List ℕ × H)) (seen : List ℕ → List Reco)
      → ((p : List ℕ) → Holds (find p pi) (seen p))
      → is_map pi ≡ true
      → (pi' : List (List ℕ × H)) × (index_lines q k rs pi ≡ some pi')
        × ((p : List ℕ) → Holds (find p pi') (listed p rs (seen p)))
        × (is_map pi' ≡ true)
  unfolding index_lines
  index_lines-Holds [] pi seen h m = (pi, refl, h, m)
  index_lines-Holds (r ∷ rs) pi seen h m =
      let (pi1, e1, h1, m1) = add_all-Holds r (prefixes r.word) pi seen h m in
      let (pi2, e2, h2, m2) =
        index_lines-Holds rs pi1 (λ p. if begins p r.word then r ∷ seen p else seen p)
          (λ p. subst (Holds (find p pi1)) (taken-prefixes p r.word r (seen p)) (h1 p)) m1 in
      (pi2, ground (arith, e1, e2), h2, m2)

  Holds-same :
      (o : Option H) (xs ys : List Reco)
      → ((w : Reco → ℕ) → total w xs ≡ total w ys)
      → Holds o xs
      → Holds o ys
  Holds-same none xs ys e h =
      no_entry ys (sym (e (λ r. 1)) ∙ ap (total (λ r. 1)) h ∙ unfold total in refl)
  Holds-same (some h) xs ys e t = IsTop-same k xs ys (q.items h) e t

  -- For k at least 1 the index of a bucket whose lines are read to the end is built without a read of an empty heap. It has a heap under
  -- each text, not empty, that a phrase of the bucket begins with, which holds the best k of those
  -- phrases, and none under any other, and no text has two.
  pub build_prefix_index_correct :
      (lines : List Reco)
      → (pi : List (List ℕ × H)) × (build_prefix_index q k false lines ≡ some pi)
        × ((p : List ℕ) → Holds (find p pi) (matching p lines))
        × (is_map pi ≡ true)
  unfolding build_prefix_index find total
  build_prefix_index_correct lines =
      let (pi, e, h, m) = index_lines-Holds lines [] (λ p. []) (λ p. refl) refl in
      (
        pi,
        ground (arith, e),
        λ p.
            Holds-same (find p pi) (listed p lines []) (matching p lines)
              (λ w. omega (arith, total-listed w p lines [])) (h p),
        m,
      )
