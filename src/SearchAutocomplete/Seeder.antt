-- ===== src/SearchAutocomplete/Seeder.antt =====
-- search_autocomplete/cmd/seeder/main.go: buildPrefixIndex, mergeTop and mergeIntoMongo. A phrase is its
-- runes, and a line is what ParseLine makes of it.
pub mod Index
pub mod Laws
pub mod Seeding
use system_design_implementa.Prelude.{
  ℕ, zero, suc, Bool, true, false, List, [], ◌∷◌, ◌++◌, map, take, length, Option, none, some, ◌==◌,
  ◌&&◌, ◌≡◌, ◌+◌, if◌then◌else◌,
}
use system_design_implementa.Prelude.Bags.{total}
use system_design_implementa.SearchAutocomplete.Trie.{Reco}
use system_design_implementa.SearchAutocomplete.Heap.{Heap}
use system_design_implementa.SearchAutocomplete.Ranking.{is_desc}
use system_design_implementa.SearchAutocomplete.TopK.{rec_less, offer, ranked}

abbrev pub same : List ℕ → List ℕ → Bool
same [] [] = true
same [] (y ∷ ys) = false
same (x ∷ xs) [] = false
same (x ∷ xs) (y ∷ ys) = x == y && same xs ys

-- A Go map whose keys are phrases.
module _ {V : Type 0} where
  unfoldable pub find : List ℕ → List (List ℕ × V) → Option V
  find p [] = none
  find p ((q, v) ∷ m) = if same q p then some v else find p m

  unfoldable pub put : List ℕ → V → List (List ℕ × V) → List (List ℕ × V)
  put p v [] = (p, v) ∷ []
  put p v ((q, w) ∷ m) = if same q p then (q, v) ∷ m else (q, w) ∷ put p v m

-- runeList[:i] for each i from 1.
unfoldable pub prefixes : List ℕ → List (List ℕ)
prefixes [] = []
prefixes (x ∷ xs) = (x ∷ []) ∷ map (λ p. x ∷ p) (prefixes xs)

module _ {H : Type 0} (q : Heap rec_less H) (k : ℕ) where
  -- The body of the inner loop; none for the panic of Top on a heap with no entry.
  unfoldable pub add_at : Reco → List ℕ → List (List ℕ × H) → Option (List (List ℕ × H))
  unfolding find put offer
  add_at r p pi = elim (offer q k r (elim (find p pi) [ none ↦ q.empty | some h ↦ h ])) [
    | none ↦ none
    | some h ↦ some (put p h pi)
  ]

  unfoldable pub add_all : Reco → List (List ℕ) → List (List ℕ × H) → Option (List (List ℕ × H))
  unfolding add_at
  add_all r [] pi = some pi
  add_all r (p ∷ ps) pi = elim (add_at r p pi) [ none ↦ none | some pi' ↦ add_all r ps pi' ]

  -- buildPrefixIndex over the lines of a bucket, from the index so far.
  unfoldable pub index_lines : List Reco → List (List ℕ × H) → Option (List (List ℕ × H))
  unfolding add_all prefixes
  index_lines [] pi = some pi
  index_lines (r ∷ rs) pi = elim (add_all r (prefixes r.word) pi) [
    | none ↦ none
    | some pi' ↦ index_lines rs pi'
  ]

  -- The whole; `broken` says that the scanner ended with an error, which is a panic after the loop.
  unfoldable pub build_prefix_index : Bool → List Reco → Option (List (List ℕ × H))
  unfolding index_lines
  build_prefix_index broken lines = elim (index_lines lines []) [
    | none ↦ none
    | some pi ↦ if broken then none else some pi
  ]

-- sort.Slice by frequency, the highest first: the same entries in an order of its choice.
pub record Sorter : Type 0 where
  pub sort : List Reco → List Reco
  pub total-sort : (w : Reco → ℕ) (xs : List Reco) → total w (sort xs) ≡ total w xs
  pub sort-desc : (xs : List Reco) → is_desc (sort xs) ≡ true

unfoldable pub merge_top : Sorter → List Reco → List Reco → ℕ → List Reco
merge_top s a b k = take k (s.sort (a ++ b))

-- mergeIntoMongo for one record: an insert, or an update of the record under the prefix.
unfoldable pub merge_record :
    Sorter → ℕ → List ℕ → List Reco → List (List ℕ × List Reco) → List (List ℕ × List Reco)
unfolding find put merge_top
merge_record s k p top db = elim (find p db) [
  | none ↦ put p top db
  | some old ↦ put p (merge_top s old top k) db
]

-- What the database does with a batch: it writes every record, or a call fails when it has written so
-- many; a read that fails has written none.
pub data Answer : Type 0 where
  done : Answer
  fails_after : ℕ → Answer

-- The collection, and whether an error is returned.
pub data Merged : Type 0 where
  stored failed : List (List ℕ × List Reco) → Merged

unfoldable pub write_batch :
    Sorter → ℕ → List (List ℕ × List Reco) → List (List ℕ × List Reco) → List (List ℕ × List Reco)
unfolding merge_record
write_batch s k [] db = db
write_batch s k ((p, top) ∷ batch) db = write_batch s k batch (merge_record s k p top db)

-- The closure flush. The prefixes of a batch differ, so that each record is read as the batch begins.
unfoldable pub flush :
    Sorter → ℕ → Answer → List (List ℕ × List Reco) → List (List ℕ × List Reco) → Merged
unfolding write_batch
flush s k answer [] db = stored db
flush s k done (r ∷ batch) db = stored (write_batch s k (r ∷ batch) db)
flush s k (fails_after n) (r ∷ batch) db = failed (write_batch s k (take n (r ∷ batch)) db)

-- batchSize
unfoldable pub batch_size : ℕ
batch_size = 1000

-- The loop over the heaps of the index, each emptied with the highest frequency first, and the flush
-- after it; `answers` gives what the database does with the i-th batch.
unfoldable pub merge_loop :
    {H : Type 0}
    → Heap rec_less H
    → Sorter
    → ℕ
    → (ℕ → Answer)
    → ℕ
    → List (List ℕ × H)
    → List (List ℕ × List Reco)
    → List (List ℕ × List Reco)
    → Merged
unfolding flush ranked batch_size
merge_loop q s k answers i [] batch db = flush s k (answers i) batch db
merge_loop q s k answers i ((p, h) ∷ pi) batch db =
    let grown = batch ++ (p, ranked q h) ∷ [] in
    elim (length grown == batch_size) [
      | false ↦ merge_loop q s k answers i pi grown db
      | true ↦ elim (flush s k (answers i) grown db) [
        | failed db' ↦ failed db'
        | stored db' ↦ merge_loop q s k answers (i + 1) pi [] db'
      ]
    ]

-- mergeIntoMongo
unfoldable pub merge_into_mongo :
    {H : Type 0}
    → Heap rec_less H
    → Sorter
    → ℕ
    → (ℕ → Answer)
    → List (List ℕ × H)
    → List (List ℕ × List Reco)
    → Merged
unfolding merge_loop
merge_into_mongo q s k answers [] db = stored db
merge_into_mongo q s k answers (e ∷ pi) db = merge_loop q s k answers 0 (e ∷ pi) [] db

-- A bucket as the workers meet it: what its lines parse to, whether the scanner fails, and what the
-- database does with each batch.
pub record Task : Type 0 where
  pub lines : List Reco
  pub broken : Bool
  pub answers : ℕ → Answer

-- MongoMergeWorker drops the error.
abbrev pub left_by : Merged → List (List ℕ × List Reco)
left_by (stored db) = db
left_by (failed db) = db

-- Seed and its workers: the index of each bucket is merged, in the order in which the indexes arrive,
-- and each of them does arrive.
unfoldable pub seed :
    {H : Type 0}
    → Heap rec_less H
    → Sorter
    → ℕ
    → List Task
    → List (List ℕ × List Reco)
    → Option (List (List ℕ × List Reco))
unfolding build_prefix_index merge_into_mongo
seed q s k [] db = some db
seed q s k (b ∷ buckets) db = elim (build_prefix_index q k b.broken b.lines) [
  | none ↦ none
  | some pi ↦ seed q s k buckets (left_by (merge_into_mongo q s k b.answers pi db))
]
