-- ===== src/SearchAutocomplete/Seeder/Laws.antt =====
-- mergeTop and mergeIntoMongo keep the best k of what came under each prefix.
use system_design_implementa.Prelude.{
  ℕ, zero, suc, ◌+◌, ◌==◌, ◌∙◌, length, ◌≤◌, min, ◌≡◌, refl, ap, true, List, [], ◌∷◌, ◌++◌, take,
  none, some, if◌then◌else◌, arith, Bool-cases, Option-cases, inl, inr,
}
use system_design_implementa.Prelude.Int.{ℤ}
use system_design_implementa.Prelude.Bags.{total}
use system_design_implementa.SearchAutocomplete.Trie.{Reco}
use system_design_implementa.SearchAutocomplete.Heap.{Heap}
use system_design_implementa.SearchAutocomplete.Ranking.{
  IsTop, above, is_desc, all_le, all_le-above,
}
use system_design_implementa.SearchAutocomplete.TopK.{rec_less, ranked}
use system_design_implementa.SearchAutocomplete.Seeder.{
  same, find, Sorter, merge_top, merge_record, merge_into_mongo, Answer, done, stored, write_batch,
  flush, batch_size, merge_loop,
}
use system_design_implementa.SearchAutocomplete.Seeder.Index.{find-put, same-eq, is_map}

all_le-take : (f : ℤ) (k : ℕ) (xs : List Reco) → all_le f xs ≡ true → all_le f (take k xs) ≡ true
all_le-take f zero xs e = refl
all_le-take f (suc k) [] e = refl
all_le-take f (suc k) (x ∷ xs) e = ground (arith, all_le-take f k xs)

take-desc : (k : ℕ) (xs : List Reco) → is_desc xs ≡ true → is_desc (take k xs) ≡ true
take-desc zero xs e = refl
take-desc (suc k) [] e = refl
take-desc (suc k) (x ∷ xs) e = ground (arith, take-desc k xs, all_le-take x.freq k xs)

total-take : (w : Reco → ℕ) (k : ℕ) (xs : List Reco) → total w (take k xs) ≤ total w xs
unfolding total
total-take w zero xs = omega arith
total-take w (suc k) [] = omega arith
total-take w (suc k) (x ∷ xs) = omega (arith, total-take w k xs)

take-size : (k : ℕ) (xs : List Reco) → total (λ r. 1) (take k xs) ≡ min k (total (λ r. 1) xs)
unfolding total
take-size zero xs = omega arith
take-size (suc k) [] = omega arith
take-size (suc k) (x ∷ xs) = omega (arith, take-size k xs)

take-best :
    (f : ℤ) (k : ℕ) (xs : List Reco)
    → is_desc xs ≡ true
    → total (above f) (take k xs) ≡ min k (total (above f) xs)
unfolding total
take-best f zero xs d = omega arith
take-best f (suc k) [] d = omega arith
take-best f (suc k) (x ∷ xs) d = ground (
  arith,
  take-best f k xs,
  all_le-above x.freq f xs,
  all_le-above x.freq f (take k xs),
  all_le-take x.freq k xs,
)

-- mergeTop makes the best k of both lists, the highest frequency first, whatever order of equal
-- frequencies the sort chooses.
pub merge_top_correct :
    (s : Sorter) (a b : List Reco) (k : ℕ)
    → IsTop k (a ++ b) (merge_top s a b k) × (is_desc (merge_top s a b k) ≡ true)
unfolding merge_top
merge_top_correct s a b k =
    let xs = s.sort (a ++ b) in
    let d = s.sort-desc (a ++ b) in
    (
      record {
        part = λ w. omega (arith, total-take w k xs, s.total-sort w (a ++ b));
        best = λ f. omega (arith, take-best f k xs d, s.total-sort (above f) (a ++ b));
        size = omega (arith, take-size k xs, s.total-sort (λ r. 1) (a ++ b));
      },
      take-desc k xs d,
    )

find-merge_record :
    (s : Sorter) (k : ℕ) (p p0 : List ℕ) (top : List Reco) (db : List (List ℕ × List Reco))
    → find p (merge_record s k p0 top db) ≡ (
        if same p0 p
        then some (elim (find p0 db) [ none ↦ top | some old ↦ merge_top s old top k ])
        else find p db)
unfolding merge_record
find-merge_record s k p p0 top db = elim (Option-cases (find p0 db)) [
  | inl e ↦ ground (arith, e, find-put p p0 top db)
  | inr (old, e) ↦ ground (arith, e, find-put p p0 (merge_top s old top k) db)
]

-- The heaps of an index merged one by one, without batches.
unfoldable pub merge_all :
    {H : Type 0}
    → Heap rec_less H
    → Sorter
    → ℕ
    → List (List ℕ × H)
    → List (List ℕ × List Reco)
    → List (List ℕ × List Reco)
unfolding merge_record ranked
merge_all q s k [] db = db
merge_all q s k ((p, h) ∷ pi) db = merge_all q s k pi (merge_record s k p (ranked q h) db)

-- Under a text the merge leaves the record that was there, or the ranked heap, or the merge of both.
pub find-merge_all :
    {H : Type 0} (q : Heap rec_less H) (s : Sorter) (k : ℕ) (p : List ℕ) (pi : List (List ℕ × H))
    (db : List (List ℕ × List Reco))
    → is_map pi ≡ true
    → find p (merge_all q s k pi db) ≡ elim (find p pi) [
      | none ↦ find p db
      | some h ↦
          some (elim (find p db) [ none ↦ ranked q h | some old ↦ merge_top s old (ranked q h) k ])
    ]
unfolding merge_all find
find-merge_all q s k p [] db m = refl
find-merge_all q s k p ((p0, h) ∷ pi) db m =
    let ih = find-merge_all q s k p pi (merge_record s k p0 (ranked q h) db) in
    let one = find-merge_record s k p p0 (ranked q h) db in
    elim (Bool-cases (same p0 p)) [
      | inl e ↦
          let there = same-eq p0 p e in
          ground (arith, ih, one, e, there, ap (λ z. find z pi) there, ap (λ z. find z db) there)
      | inr e ↦ ground (arith, ih, one, e)
    ]

write_batch-snoc :
    (s : Sorter) (k : ℕ) (batch : List (List ℕ × List Reco)) (p : List ℕ) (top : List Reco)
    (db : List (List ℕ × List Reco))
    → write_batch s k (batch ++ (p, top) ∷ []) db
      ≡ merge_record s k p top (write_batch s k batch db)
unfolding write_batch
write_batch-snoc s k [] p top db = refl
write_batch-snoc s k ((p0, top0) ∷ batch) p top db =
    write_batch-snoc s k batch p top (merge_record s k p0 top0 db)

flush-stored :
    (s : Sorter) (k : ℕ) (answer : Answer) (batch db : List (List ℕ × List Reco))
    → answer ≡ done
    → flush s k answer batch db ≡ stored (write_batch s k batch db)
unfolding flush write_batch
flush-stored s k answer [] db e = refl
flush-stored s k answer (r ∷ batch) db e = rw e refl

merge_loop-stored :
    {H : Type 0} (q : Heap rec_less H) (s : Sorter) (k : ℕ) (answers : ℕ → Answer) (i : ℕ)
    (pi : List (List ℕ × H)) (batch db : List (List ℕ × List Reco))
    → ((j : ℕ) → answers j ≡ done)
    → merge_loop q s k answers i pi batch db
      ≡ stored (merge_all q s k pi (write_batch s k batch db))
unfolding merge_loop merge_all write_batch
merge_loop-stored q s k answers i [] batch db a = flush-stored s k (answers i) batch db (a i)
merge_loop-stored q s k answers i ((p, h) ∷ pi) batch db a =
    let grown = batch ++ (p, ranked q h) ∷ [] in
    let same_db =
      ap (λ d. stored (merge_all q s k pi d)) (write_batch-snoc s k batch p (ranked q h) db) in
    elim (Bool-cases (length grown == batch_size)) [
      | inl full ↦
          let written = flush-stored s k (answers i) grown db (a i) in
          let rest =
            merge_loop-stored q s k answers (i + 1) pi [] (write_batch s k grown db) a ∙ same_db in
          ground (arith, full, written, rest)
      | inr more ↦
          let rest = merge_loop-stored q s k answers i pi grown db a ∙ same_db in
          ground (arith, more, rest)
    ]

-- Where the database writes each batch, mergeIntoMongo merges the heaps one by one.
pub merge_into_mongo-stored :
    {H : Type 0} (q : Heap rec_less H) (s : Sorter) (k : ℕ) (answers : ℕ → Answer)
    (pi : List (List ℕ × H)) (db : List (List ℕ × List Reco))
    → ((j : ℕ) → answers j ≡ done)
    → merge_into_mongo q s k answers pi db ≡ stored (merge_all q s k pi db)
unfolding merge_into_mongo merge_all write_batch
merge_into_mongo-stored q s k answers [] db a = refl
merge_into_mongo-stored q s k answers (e ∷ pi) db a =
    merge_loop-stored q s k answers 0 (e ∷ pi) [] db a
