-- ===== src/SearchAutocomplete/TopK/Drain.antt =====
-- topK empties its heap: every entry comes out, the lowest frequency first.
use system_design_implementa.Prelude.{
  ℕ, zero, suc, ◌≡◌, refl, sym, ap, true, Option-cases, inl, inr, [], arith,
}
use system_design_implementa.Prelude.Bags.{total, total-reverse_onto}
use system_design_implementa.SearchAutocomplete.Trie.{Reco}
use system_design_implementa.SearchAutocomplete.Heap.{Heap}
use system_design_implementa.SearchAutocomplete.Ranking.{
  is_desc, is_asc, beneath, beneath-all_ge, is_desc-reverse_onto, no_entry,
}
use system_design_implementa.SearchAutocomplete.TopK.{rec_less, drain, ranked}

module _ {H : Type 0} (q : Heap rec_less H) where
  total-drain :
      (w : Reco → ℕ) (n : ℕ) (h : H)
      → total (λ r. 1) (q.items h) ≡ n
      → total w (drain q n h) ≡ total w (q.items h)
  unfolding drain total
  total-drain w zero h e = rw (no_entry (q.items h) e)
  total-drain w (suc n) h e = elim (Option-cases (q.pop h)) [
    | inl p ↦ absurd (let none_left = ap (total (λ (r : Reco). 1)) (q.pop-none h p) in ground arith)
    | inr ((x, h'), p) ↦
        ground
          (arith, q.pop-some w x h h' p, q.pop-some (λ (r : Reco). 1) x h h' p, total-drain w n h')
  ]

  drain-asc : (n : ℕ) (h : H) → total (λ r. 1) (q.items h) ≡ n → is_asc (drain q n h) ≡ true
  unfolding drain
  drain-asc zero h e = refl
  drain-asc (suc n) h e = elim (Option-cases (q.pop h)) [
    | inl p ↦ ground arith
    | inr ((x, h'), p) ↦
        let fewer = q.pop-some (λ (r : Reco). 1) x h h' p in
        let first : total (beneath x.freq) (q.items h) ≡ 0 = q.pop-first x h h' p in
        let left = total-drain (beneath x.freq) n h' (omega arith) in
        ground (
          arith,
          drain-asc n h',
          q.pop-some (beneath x.freq) x h h' p,
          beneath-all_ge x.freq (drain q n h'),
        )
  ]

  pub total-ranked : (w : Reco → ℕ) (h : H) → total w (ranked q h) ≡ total w (q.items h)
  unfolding ranked total
  total-ranked w h = omega (
    arith,
    total-drain w (q.len h) h (sym (q.len-items h)),
    total-reverse_onto w (drain q (q.len h) h) [],
  )

  pub ranked-desc : (h : H) → is_desc (ranked q h) ≡ true
  unfolding ranked
  ranked-desc h =
      is_desc-reverse_onto (drain q (q.len h) h) (drain-asc (q.len h) h (sym (q.len-items h)))
