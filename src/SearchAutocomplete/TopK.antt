-- ===== src/SearchAutocomplete/TopK.antt =====
-- search_autocomplete/internal/trie/suggest.go: topK, over any heap of completions by frequency.
pub mod Drain
pub mod Laws
use system_design_implementa.Prelude.{
  ℕ, zero, suc, Bool, List, [], ◌∷◌, Option, none, some, ltb, if◌then◌else◌,
}
use system_design_implementa.Prelude.Int.{ltb_ℤ}
use system_design_implementa.Prelude.Bags.{reverse_onto}
use system_design_implementa.SearchAutocomplete.Trie.{Reco}
use system_design_implementa.SearchAutocomplete.Heap.{Heap}

-- RecHeap.Less: the lowest frequency comes first.
abbrev pub rec_less : Reco → Reco → Bool
rec_less a b = ltb_ℤ a.freq b.freq

module _ {H : Type 0} (q : Heap rec_less H) where
  -- The body of the loop; none for the panic of Top on a heap with no entry.
  unfoldable pub offer : ℕ → Reco → H → Option H
  offer k r h = if ltb (q.len h) k then some (q.push r h) else elim (q.pop h) [
    | none ↦ none
    | some (x, h') ↦ some (if ltb_ℤ x.freq r.freq then q.push r h' else h)
  ]

  unfoldable pub offer_all : ℕ → List Reco → H → Option H
  offer_all k [] h = some h
  offer_all k (r ∷ rs) h = elim (offer k r h) [ none ↦ none | some h' ↦ offer_all k rs h' ]

  -- Pop as long as there are entries, of which there are at most `n`.
  unfoldable pub drain : ℕ → H → List Reco
  drain zero h = []
  drain (suc n) h = elim (q.pop h) [ none ↦ [] | some (x, h') ↦ x ∷ drain n h' ]

  -- The entries, the highest frequency first.
  unfoldable pub ranked : H → List Reco
  unfolding drain
  ranked h = reverse_onto (drain (q.len h) h) []

  unfoldable pub top_k : List Reco → ℕ → Option (List Reco)
  unfolding offer_all ranked
  top_k cands k = elim (offer_all k cands q.empty) [ none ↦ none | some h ↦ some (ranked h) ]
