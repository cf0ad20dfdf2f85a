-- ===== src/SearchAutocomplete/Merge/Laws.antt =====
-- mergeTopK answers with the best k of all lists.
use system_design_implementa.Prelude.{
  ℕ, zero, suc, ◌+◌, ◌≤◌, min, ◌≡◌, refl, ap, Bool, true, false, ◌&&◌, Option-cases, inl, inr, List,
  [], ◌∷◌, ◌++◌, none, some, if◌then◌else◌, arith,
}
use system_design_implementa.Prelude.Int.{ℤ, ltb_ℤ, ◌≤ℤ◌}
use system_design_implementa.Prelude.Bags.{total, total-append}
use system_design_implementa.SearchAutocomplete.Trie.{Reco}
use system_design_implementa.SearchAutocomplete.Heap.{Heap, earlier}
use system_design_implementa.SearchAutocomplete.Ranking.{
  IsTop, above, is_desc, all_le, all_le-above, above-all_le,
}
use system_design_implementa.SearchAutocomplete.Merge.{
  Head, head_less, enter, enter_all, race, merge_top_k,
}

abbrev pub joined : List (List Reco) → List Reco
joined [] = []
joined (l ∷ ls) = l ++ joined ls

abbrev pub all_desc : List (List Reco) → Bool
all_desc [] = true
all_desc (l ∷ ls) = is_desc l && all_desc ls

-- What is left of a list weighs, and whether it is out of order.
abbrev left : (Reco → ℕ) → Head → ℕ
left w t = w t.at + total w t.rest

abbrev bad : Head → ℕ
bad t = if all_le t.at.freq t.rest && is_desc t.rest then 0 else 1

-- With the heads in order, nothing is left above the first of them.
nothing_above :
    (f : ℤ) (t : Head) (hs : List Head)
    → total (earlier head_less t) hs ≡ 0
    → total bad hs ≡ 0
    → t.at.freq ≤ℤ f
    → total (left (above f)) hs ≡ 0
unfolding total
nothing_above f t [] e b h = refl
nothing_above f t (x ∷ hs) e b h =
    ground (arith, nothing_above f t hs, all_le-above x.at.freq f x.rest)

module _ {H : Type 0} (q : Heap head_less H) where
  left-enter :
      (w : Reco → ℕ) (l : List Reco) (h : H)
      → total (left w) (q.items (enter q l h)) ≡ total w l + total (left w) (q.items h)
  unfolding enter total
  left-enter w [] h = omega arith
  left-enter w (x ∷ xs) h = q.items-push (left w) (record { at = x; rest = xs }) h

  bad-enter :
      (l : List Reco) (h : H)
      → is_desc l ≡ true
      → total bad (q.items h) ≡ 0
      → total bad (q.items (enter q l h)) ≡ 0
  unfolding enter
  bad-enter [] h d e = e
  bad-enter (x ∷ xs) h d e =
      let p = q.items-push bad (record { at = x; rest = xs }) h in ground arith

  left-enter_all :
      (w : Reco → ℕ) (ls : List (List Reco)) (h : H)
      → total (left w) (q.items (enter_all q ls h))
        ≡ total w (joined ls) + total (left w) (q.items h)
  unfolding enter_all total
  left-enter_all w [] h = omega arith
  left-enter_all w (l ∷ ls) h =
      omega
        (arith, left-enter_all w ls (enter q l h), left-enter w l h, total-append w l (joined ls))

  bad-enter_all :
      (ls : List (List Reco)) (h : H)
      → all_desc ls ≡ true
      → total bad (q.items h) ≡ 0
      → total bad (q.items (enter_all q ls h)) ≡ 0
  unfolding enter_all
  bad-enter_all [] h d e = e
  bad-enter_all (l ∷ ls) h d e =
      bad-enter_all ls (enter q l h) (ground arith) (bad-enter l h (ground arith) e)

  -- What a round leaves: the first entry is gone, and the rest is in order.
  module _ (t : Head) (h h' : H) (p : q.pop h ≡ some (t, h')) where
    left-round :
        (w : Reco → ℕ)
        → total (left w) (q.items h) ≡ w t.at + total (left w) (q.items (enter q t.rest h'))
    left-round w = omega (arith, q.pop-some (left w) t h h' p, left-enter w t.rest h')

    bad-round : total bad (q.items h) ≡ 0 → total bad (q.items (enter q t.rest h')) ≡ 0
    bad-round e = ground (arith, q.pop-some bad t h h' p, bad-enter t.rest h')

    first-round :
        (f : ℤ)
        → total bad (q.items h) ≡ 0
        → ltb_ℤ f t.at.freq ≡ false
        → total (left (above f)) (q.items h) ≡ 0
    first-round f e low = nothing_above f t (q.items h) (q.pop-first t h h' p) e (ground arith)

  nothing-left : (w : Reco → ℕ) (h : H) → q.pop h ≡ none → total (left w) (q.items h) ≡ 0
  unfolding total
  nothing-left w h p = ap (total (left w)) (q.pop-none h p)

  race-part : (w : Reco → ℕ) (k : ℕ) (h : H) → total w (race q k h) ≤ total (left w) (q.items h)
  unfolding race total
  race-part w zero h = omega arith
  race-part w (suc k) h = elim (Option-cases (q.pop h)) [
    | inl p ↦ ground arith
    | inr ((t, h'), p) ↦ ground (arith, left-round t h h' p w, race-part w k (enter q t.rest h'))
  ]

  race-size :
      (k : ℕ) (h : H) → total (λ r. 1) (race q k h) ≡ min k (total (left (λ r. 1)) (q.items h))
  unfolding race total
  race-size zero h = omega arith
  race-size (suc k) h = elim (Option-cases (q.pop h)) [
    | inl p ↦ ground (arith, nothing-left (λ (r : Reco). 1) h p)
    | inr ((t, h'), p) ↦
        ground (arith, left-round t h h' p (λ (r : Reco). 1), race-size k (enter q t.rest h'))
  ]

  race-best :
      (f : ℤ) (k : ℕ) (h : H)
      → total bad (q.items h) ≡ 0
      → total (above f) (race q k h) ≡ min k (total (left (above f)) (q.items h))
  unfolding race total
  race-best f zero h e = omega arith
  race-best f (suc k) h e = elim (Option-cases (q.pop h)) [
    | inl p ↦ ground (arith, nothing-left (above f) h p)
    | inr ((t, h'), p) ↦ ground (
      arith,
      left-round t h h' p (above f),
      bad-round t h h' p,
      first-round t h h' p f,
      race-best f k (enter q t.rest h'),
    )
  ]

  race-desc : (k : ℕ) (h : H) → total bad (q.items h) ≡ 0 → is_desc (race q k h) ≡ true
  unfolding race
  race-desc zero h e = refl
  race-desc (suc k) h e = elim (Option-cases (q.pop h)) [
    | inl p ↦ ground arith
    | inr ((t, h'), p) ↦
        let below = first-round t h h' p t.at.freq e (ground arith) in
        ground (
          arith,
          left-round t h h' p (above t.at.freq),
          bad-round t h h' p,
          race-best t.at.freq k (enter q t.rest h'),
          race-desc k (enter q t.rest h'),
          above-all_le t.at.freq (race q k (enter q t.rest h')),
        )
  ]

  left-empty : (w : Head → ℕ) → total w (q.items q.empty) ≡ 0
  unfolding total
  left-empty w = ap (total w) q.items-empty

  -- From lists that each have the highest frequency first, mergeTopK makes, over any heap that has the
  -- laws, the best k of all their entries, the highest frequency first.
  pub merge_top_k_correct :
      (lists : List (List Reco)) (k : ℕ)
      → all_desc lists ≡ true
      → IsTop k (joined lists) (merge_top_k q lists k) × (is_desc (merge_top_k q lists k) ≡ true)
  unfolding merge_top_k
  merge_top_k_correct lists k d =
      let h = enter_all q lists q.empty in
      let e = bad-enter_all lists q.empty d (left-empty bad) in
      let whole = λ (w : Reco → ℕ). left-enter_all w lists q.empty in
      let none_yet = λ (w : Reco → ℕ). left-empty (left w) in
      (
        record {
          part = λ w. omega (arith, race-part w k h, whole w, none_yet w);
          best = λ f. omega (arith, race-best f k h e, whole (above f), none_yet (above f));
          size = omega (arith, race-size k h, whole (λ r. 1), none_yet (λ r. 1));
        },
        race-desc k h e,
      )
