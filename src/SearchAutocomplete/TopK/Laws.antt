-- ===== src/SearchAutocomplete/TopK/Laws.antt =====
-- topK answers with the best k.
use system_design_implementa.Prelude.{
  ℕ, ◌≤◌, ◌≡◌, refl, true, false, Bool-cases, Option-cases, inl, inr, List, [], ◌∷◌, some, ltb,
  arith,
}
use system_design_implementa.Prelude.Int.{ltb_ℤ}
use system_design_implementa.Prelude.Bags.{total, total-reverse_onto, reverse_onto}
use system_design_implementa.SearchAutocomplete.Trie.{Reco}
use system_design_implementa.SearchAutocomplete.Heap.{Heap}
use system_design_implementa.SearchAutocomplete.Ranking.{
  IsTop, above, is_desc, beneath-above, above-le,
}
use system_design_implementa.SearchAutocomplete.TopK.Drain.{total-ranked, ranked-desc}
use system_design_implementa.SearchAutocomplete.TopK.{rec_less, offer, offer_all, ranked, top_k}

pub IsTop-same :
    (k : ℕ) (xs ys out : List Reco)
    → ((w : Reco → ℕ) → total w xs ≡ total w ys)
    → IsTop k xs out
    → IsTop k ys out
IsTop-same k xs ys out e t = record {
  part = λ w. omega (arith, t.part w, e w);
  best = λ f. omega (arith, t.best f, e (above f));
  size = omega (arith, t.size, e (λ r. 1));
}

-- The same entries in another order.
pub IsTop-order :
    (k : ℕ) (xs out out' : List Reco)
    → ((w : Reco → ℕ) → total w out' ≡ total w out)
    → IsTop k xs out
    → IsTop k xs out'
IsTop-order k xs out out' e t = record {
  part = λ w. omega (arith, t.part w, e w);
  best = λ f. omega (arith, t.best f, e (above f));
  size = omega (arith, t.size, e (λ r. 1));
}

module _ {H : Type 0} (q : Heap rec_less H) where
  pushed-IsTop :
      (k : ℕ) (r : Reco) (h : H) (seen : List Reco)
      → IsTop k seen (q.items h)
      → ltb (q.len h) k ≡ true
      → IsTop k (r ∷ seen) (q.items (q.push r h))
  unfolding total
  pushed-IsTop k r h seen t e = record {
    part = λ w. omega (arith, t.part w, q.items-push w r h);
    best = λ f.
        ground
          (arith, t.best f, t.size, q.items-push (above f) r h, q.len-items h, above-le f seen);
    size = ground (arith, t.size, q.items-push (λ x. 1) r h, q.len-items h);
  }

  full :
      (k : ℕ) (h : H) (seen : List Reco)
      → IsTop k seen (q.items h)
      → ltb (q.len h) k ≡ false
      → total (λ x. 1) (q.items h) ≡ k
  full k h seen t e = ground (arith, t.size, q.len-items h)

  kept-IsTop :
      (k : ℕ) (r x : Reco) (h h' : H) (seen : List Reco)
      → IsTop k seen (q.items h)
      → ltb (q.len h) k ≡ false
      → q.pop h ≡ some (x, h')
      → ltb_ℤ x.freq r.freq ≡ false
      → IsTop k (r ∷ seen) (q.items h)
  unfolding total
  kept-IsTop k r x h h' seen t e p low = record {
    part = λ w. omega (arith, t.part w);
    best = λ f. ground (
      arith,
      t.best f,
      full k h seen t e,
      beneath-above x.freq f (q.items h) (q.pop-first x h h' p),
    );
    size = omega (arith, t.size, full k h seen t e);
  }

  swapped-IsTop :
      (k : ℕ) (r x : Reco) (h h' : H) (seen : List Reco)
      → IsTop k seen (q.items h)
      → ltb (q.len h) k ≡ false
      → q.pop h ≡ some (x, h')
      → ltb_ℤ x.freq r.freq ≡ true
      → IsTop k (r ∷ seen) (q.items (q.push r h'))
  unfolding total
  swapped-IsTop k r x h h' seen t e p high = record {
    part = λ w. omega (arith, t.part w, q.items-push w r h', q.pop-some w x h h' p);
    best = λ f. ground (
      arith,
      t.best f,
      full k h seen t e,
      beneath-above x.freq f (q.items h) (q.pop-first x h h' p),
      q.items-push (above f) r h',
      q.pop-some (above f) x h h' p,
      q.pop-some (λ (y : Reco). 1) x h h' p,
      above-le f (q.items h),
      above-le f (q.items h'),
      t.size,
    );
    size = omega (
      arith,
      t.size,
      full k h seen t e,
      q.items-push (λ y. 1) r h',
      q.pop-some (λ y. 1) x h h' p,
    );
  }

  -- With room for one entry, an offer keeps the best of what came.
  pub offer-IsTop :
      (k : ℕ) (r : Reco) (h : H) (seen : List Reco)
      → 1 ≤ k
      → IsTop k seen (q.items h)
      → (h' : H) × (offer q k r h ≡ some h') × IsTop k (r ∷ seen) (q.items h')
  unfolding offer total
  offer-IsTop k r h seen pos t = elim (Bool-cases (ltb (q.len h) k)) [
    | inl e ↦ (q.push r h, rw e, pushed-IsTop k r h seen t e)
    | inr e ↦ elim (Option-cases (q.pop h)) [
      | inl p ↦ absurd (ground (arith, q.pop-none h p, t.size, full k h seen t e))
      | inr ((x, h'), p) ↦ elim (Bool-cases (ltb_ℤ x.freq r.freq)) [
        | inl high ↦ (q.push r h', ground arith, swapped-IsTop k r x h h' seen t e p high)
        | inr low ↦ (h, ground arith, kept-IsTop k r x h h' seen t e p low)
      ]
    ]
  ]

  pub offer_all-IsTop :
      (k : ℕ) (rs : List Reco) (h : H) (seen : List Reco)
      → 1 ≤ k
      → IsTop k seen (q.items h)
      → (h' : H) × (offer_all q k rs h ≡ some h') × IsTop k (reverse_onto rs seen) (q.items h')
  unfolding offer_all reverse_onto
  offer_all-IsTop k [] h seen pos t = (h, refl, t)
  offer_all-IsTop k (r ∷ rs) h seen pos t =
      let (h1, e1, t1) = offer-IsTop k r h seen pos t in
      let (h2, e2, t2) = offer_all-IsTop k rs h1 (r ∷ seen) pos t1 in (h2, ground arith, t2)

  pub nothing-IsTop : (k : ℕ) → IsTop k [] (q.items q.empty)
  unfolding total
  nothing-IsTop k =
      rw q.items-empty
        (record { part = λ w. omega arith; best = λ f. omega arith; size = omega arith })

  -- For k ≥ 1 topK reads the top of no empty heap, and over any heap that has the laws it answers with
  -- the best k of the candidates (as many as there are, up to k, each taken no more often than it was
  -- given, and above every frequency all of them or k), the highest frequency first.
  pub top_k_correct :
      (cands : List Reco) (k : ℕ)
      → 1 ≤ k
      → (out : List Reco) × (top_k q cands k ≡ some out) × IsTop k cands out × (is_desc out ≡ true)
  unfolding top_k total
  top_k_correct cands k pos =
      let (h, e, t) = offer_all-IsTop k cands q.empty [] pos (nothing-IsTop k) in
      let all =
        IsTop-same k (reverse_onto cands []) cands (q.items h)
          (λ w. omega (arith, total-reverse_onto w cands [])) t in
      (
        ranked q h,
        ground arith,
        IsTop-order k cands (q.items h) (ranked q h) (λ w. total-ranked q w h) all,
        ranked-desc q h,
      )
