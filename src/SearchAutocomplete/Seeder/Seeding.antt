-- ===== src/SearchAutocomplete/Seeder/Seeding.antt =====
-- The records that all buckets leave in the collection.
use mathlib.Core.Path.{subst, subst⁻¹}
use mathlib.Core.List.{append-nil, append_assoc}
use system_design_implementa.Prelude.{
  ℕ, ◌≤◌, ◌≡◌, refl, sym, ◌∙◌, ap, true, false, All, List, [], ◌∷◌, ◌++◌, Option, none, some, arith,
}
use system_design_implementa.Prelude.Bags.{total-append}
use system_design_implementa.SearchAutocomplete.Trie.{Reco}
use system_design_implementa.SearchAutocomplete.Heap.{Heap}
use system_design_implementa.SearchAutocomplete.Ranking.{IsTop, above, is_desc}
use system_design_implementa.SearchAutocomplete.TopK.{rec_less, ranked}
use system_design_implementa.SearchAutocomplete.TopK.Laws.{IsTop-order}
use system_design_implementa.SearchAutocomplete.TopK.Drain.{total-ranked, ranked-desc}
use system_design_implementa.SearchAutocomplete.Seeder.{find, Sorter, merge_top, done, Task, seed}
use system_design_implementa.SearchAutocomplete.Seeder.Index.{
  matching, is_map, Holds, build_prefix_index_correct,
}
use system_design_implementa.SearchAutocomplete.Seeder.Laws.{
  merge_top_correct, find-merge_all, merge_all, merge_into_mongo-stored,
}

-- A record holds the best k of what came under its prefix; nothing came where there is none.
abbrev pub Records : ℕ → Option (List Reco) → List Reco → Type 0
Records k none seen = seen ≡ []
Records k (some top) seen = IsTop k seen top × (is_desc top ≡ true)

-- The lines of all buckets.
abbrev pub all_lines : List Task → List Reco
all_lines [] = []
all_lines (b ∷ bs) = b.lines ++ all_lines bs

-- The scanner and the database do not fail.
abbrev pub IsQuiet : Task → Type 0
IsQuiet b = (b.broken ≡ false) × ((i : ℕ) → b.answers i ≡ done)

matching-append :
    (p : List ℕ) (xs ys : List Reco) → matching p (xs ++ ys) ≡ matching p xs ++ matching p ys
matching-append p [] ys = refl
matching-append p (x ∷ xs) ys = ground (arith, matching-append p xs ys)

module _ {H : Type 0} (q : Heap rec_less H) (s : Sorter) (k : ℕ) (pos : 1 ≤ k) where
  abbrev merged : Option (List Reco) → Option H → Option (List Reco)
  merged o none = o
  merged o (some h) =
      some (elim o [ none ↦ ranked q h | some old ↦ merge_top s old (ranked q h) k ])

  ranked-IsTop : (xs : List Reco) (h : H) → IsTop k xs (q.items h) → IsTop k xs (ranked q h)
  ranked-IsTop xs h t = IsTop-order k xs (q.items h) (ranked q h) (λ w. total-ranked q w h) t

  merged-Records :
      (o : Option (List Reco)) (i : Option H) (xs ys : List Reco)
      → Records k o xs
      → Holds q k pos i ys
      → Records k (merged o i) (xs ++ ys)
  merged-Records o none xs ys r e = subst⁻¹ (Records k o) (ap (λ l. xs ++ l) e ∙ append-nil xs) r
  merged-Records none (some h) xs ys r t =
      (subst⁻¹ (λ l. IsTop k (l ++ ys) (ranked q h)) r (ranked-IsTop ys h t), ranked-desc q h)
  merged-Records (some old) (some h) xs ys (a, d) t =
      let (m, e) = merge_top_correct s old (ranked q h) k in
      let b = ranked-IsTop ys h t in
      let both = λ (w : Reco → ℕ). total-append w xs ys in
      let olds = λ (w : Reco → ℕ). total-append w old (ranked q h) in
      (
        record {
          part = λ w. omega (arith, m.part w, a.part w, b.part w, both w, olds w);
          best = λ f. omega (arith, m.best f, a.best f, b.best f, both (above f), olds (above f));
          size = omega (arith, m.size, a.size, b.size, both (λ r. 1), olds (λ r. 1));
        },
        e,
      )

  bucket-Records :
      (p : List ℕ) (pi : List (List ℕ × H)) (db : List (List ℕ × List Reco)) (xs ys : List Reco)
      → is_map pi ≡ true
      → Records k (find p db) xs
      → Holds q k pos (find p pi) ys
      → Records k (find p (merge_all q s k pi db)) (xs ++ ys)
  bucket-Records p pi db xs ys m r h =
      subst⁻¹ (λ o. Records k o (xs ++ ys)) (find-merge_all q s k p pi db m)
        (merged-Records (find p db) (find p pi) xs ys r h)

  seed-Records :
      (buckets : List Task) (db : List (List ℕ × List Reco)) (seen : List ℕ → List Reco)
      → All IsQuiet buckets
      → ((p : List ℕ) → Records k (find p db) (seen p))
      → (db' : List (List ℕ × List Reco)) × (seed q s k buckets db ≡ some db')
        × ((p : List ℕ) → Records k (find p db') (seen p ++ matching p (all_lines buckets)))
  unfolding seed
  seed-Records [] db seen a r =
      (db, refl, λ p. subst⁻¹ (Records k (find p db)) (append-nil (seen p)) (r p))
  seed-Records (b ∷ bs) db seen ((whole, fine), a) r =
      let (pi, e, h, m) = build_prefix_index_correct q k pos b.lines in
      let merged_db = merge_into_mongo-stored q s k b.answers pi db fine in
      let (db', e', r') =
        seed-Records bs (merge_all q s k pi db) (λ p. seen p ++ matching p b.lines) a
          (λ p. bucket-Records p pi db (seen p) (matching p b.lines) m (r p) (h p)) in
      let all_seen = λ (p : List ℕ).
        append_assoc (seen p) (matching p b.lines) (matching p (all_lines bs))
        ∙ ap (λ l. seen p ++ l) (sym (matching-append p b.lines (all_lines bs))) in
      (
        db',
        ground (arith, whole, e, merged_db, e'),
        λ p. subst (Records k (find p db')) (all_seen p) (r' p),
      )

  -- For k at least 1, when every bucket is read to its end, the database writes every batch and every
  -- index reaches the merge worker, the seeder merges the indexes of all buckets into an empty collection
  -- without a read of an empty heap, whatever the buckets and their order: each text, not empty, that a
  -- phrase begins with then has the best k of all those phrases, the highest frequency first, and no
  -- other text has a record.
  pub seed_correct :
      (buckets : List Task)
      → All IsQuiet buckets
      → (db : List (List ℕ × List Reco)) × (seed q s k buckets [] ≡ some db)
        × ((p : List ℕ) → Records k (find p db) (matching p (all_lines buckets)))
  unfolding find
  seed_correct buckets a = seed-Records buckets [] (λ p. []) a (λ p. refl)
