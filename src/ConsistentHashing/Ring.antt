-- ===== src/ConsistentHashing/Ring.antt =====
-- The ring: a sorted list of hashes, searched for the first one at or after a key's.
use system_design_implementa.Prelude.{
  ℕ, Bool, true, false, List, [], ◌∷◌, Option, none, some, leb, ◌==◌, if◌then◌else◌,
}

unfoldable pub has : ℕ → List ℕ → Bool
has h [] = false
has h (x ∷ xs) = if x == h then true else has h xs

unfoldable pub place : ℕ → List ℕ → List ℕ
place h [] = h ∷ []
place h (x ∷ xs) = if leb h x then h ∷ x ∷ xs else x ∷ place h xs

-- slices.Sort.
unfoldable pub sort : List ℕ → List ℕ
sort [] = []
sort (x ∷ xs) = place x (sort xs)

-- sort.Search for the first hash that is at least the key's.
unfoldable pub search : ℕ → List ℕ → Option ℕ
search k [] = none
search k (x ∷ xs) = if leb k x then some x else search k xs

unfoldable pub first : List ℕ → Option ℕ
first [] = none
first (x ∷ xs) = some x

-- The hash that a key belongs to: past the last one, the first.
unfoldable pub target : ℕ → List ℕ → Option ℕ
unfolding first
target k xs = elim (search k xs) [ none ↦ first xs | some h ↦ some h ]

-- The hashes that are not to be removed, in their order.
unfoldable pub without : List ℕ → List ℕ → List ℕ
without hs [] = []
without hs (x ∷ xs) = if has x hs then without hs xs else x ∷ without hs xs
