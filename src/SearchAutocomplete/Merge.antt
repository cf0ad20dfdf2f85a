-- ===== src/SearchAutocomplete/Merge.antt =====
-- search_autocomplete/internal/trie/cache.go: mergeTopK, over any heap of list heads.
pub mod Laws
use system_design_implementa.Prelude.{
  ℕ, zero, suc, Bool, true, false, List, [], ◌∷◌, Option, none, some, ◌&&◌,
}
use system_design_implementa.Prelude.Int.{ltb_ℤ}
use system_design_implementa.SearchAutocomplete.Trie.{Reco}
use system_design_implementa.SearchAutocomplete.Heap.{Heap}

-- heap.go: an index into a list, as the entry there and the entries after it.
pub record Head : Type 0 where
  pub at : Reco
  pub rest : List Reco

-- headHeap.Less: the highest frequency comes first.
abbrev pub head_less : Head → Head → Bool
head_less a b = ltb_ℤ b.at.freq a.at.freq

module _ {H : Type 0} (q : Heap head_less H) where
  -- The head of a list, when it has one, is put in the race.
  unfoldable pub enter : List Reco → H → H
  enter [] h = h
  enter (x ∷ xs) h = q.push (record { at = x; rest = xs }) h

  unfoldable pub enter_all : List (List Reco) → H → H
  unfolding enter
  enter_all [] h = h
  enter_all (l ∷ ls) h = enter_all ls (enter l h)

  unfoldable pub race : ℕ → H → List Reco
  unfolding enter
  race zero h = []
  race (suc k) h = elim (q.pop h) [ none ↦ [] | some (t, h') ↦ t.at ∷ race k (enter t.rest h') ]

  unfoldable pub merge_top_k : List (List Reco) → ℕ → List Reco
  unfolding enter_all race
  merge_top_k lists k = race k (enter_all lists q.empty)
