-- ===== src/SearchAutocomplete/Aol/Phrases.antt =====
-- What processFile puts into the map: each query once, and only queries that clean has made.
use mathlib.Core.Path.{subst}
use system_design_implementa.Prelude.{
  ℕ, ◌+◌, ◌≡◌, Bool, true, false, List, [], ◌∷◌, map, Option, none, some, if◌then◌else◌, arith, All,
  Bool-cases, Option-cases, inl, inr,
}
use system_design_implementa.SearchAutocomplete.Text.{
  is_empty, fields, join_words, trim_space, split,
}
use system_design_implementa.SearchAutocomplete.Text.Words.{IsPhrase, joined-spaced}
use system_design_implementa.SearchAutocomplete.Seeder.{same, put}
use system_design_implementa.SearchAutocomplete.Seeder.Index.{is_map, put-map}
use system_design_implementa.SearchAutocomplete.Aol.{
  accept_query, clean, row_with, row_of, Row, accepted_row, Counts, count, bump, Votes, bump_all,
  queries, flush_user, member, see, change_user, vote, take_lines, process_file,
}

-- Each key of the counts stands once and is a phrase.
pub record AreCounts (m : Counts) : Type 0 where
  pub once : is_map m ≡ true
  pub keys : All (λ e. IsPhrase e.0) m

put-keys :
    (q : List ℕ) (n : ℕ) (m : Counts)
    → IsPhrase q
    → All (λ e. IsPhrase e.0) m
    → All (λ e. IsPhrase e.0) (put q n m)
unfolding put
put-keys q n [] p a = (p, tt)
put-keys q n ((r, k) ∷ m) p (b, a) = elim (Bool-cases (same r q)) [
  | inl y ↦ rw y (b, a)
  | inr x ↦ rw x (b, put-keys q n m p a)
]

bump-AreCounts : (q : List ℕ) (m : Counts) → IsPhrase q → AreCounts m → AreCounts (bump q m)
unfolding bump
bump-AreCounts q m p c = record {
  once = put-map q (count q m + 1) m c.once;
  keys = put-keys q (count q m + 1) m p c.keys;
}

bump_all-AreCounts :
    (qs : List (List ℕ)) (m : Counts) → All IsPhrase qs → AreCounts m → AreCounts (bump_all qs m)
unfolding bump_all
bump_all-AreCounts [] m a c = c
bump_all-AreCounts (q ∷ qs) m (p, a) c = bump_all-AreCounts qs (bump q m) a (bump-AreCounts q m p c)

accept_query-same :
    (is_letter : ℕ → Bool) (s q : List ℕ)
    → accept_query is_letter s ≡ some q
    → (s ≡ q) × (is_empty s ≡ false)
unfolding accept_query
accept_query-same is_letter s q e = (ground arith, ground arith)

pub clean-IsPhrase :
    (lower : ℕ → ℕ) (is_letter : ℕ → Bool) (s q : List ℕ)
    → clean lower is_letter s ≡ some q
    → IsPhrase q
unfolding clean
clean-IsPhrase lower is_letter s q e =
    let spaced = join_words (fields (map lower (trim_space s))) in
    let (at, full) = accept_query-same is_letter spaced q e in
    subst IsPhrase at
      (record { spaced = joined-spaced (map lower (trim_space s)); some_word = full })

row_with-IsPhrase :
    (user : List ℕ) (o : Option (List ℕ)) (r : Row)
    → ((q : List ℕ) → o ≡ some q → IsPhrase q)
    → row_with user o ≡ some r
    → IsPhrase r.query
row_with-IsPhrase user none r h e = absurd (cc)
row_with-IsPhrase user (some q) r h e = h r.query (ground arith)

row_of-IsPhrase :
    (cleaned : List ℕ → Option (List ℕ)) (cols : List (List ℕ)) (r : Row)
    → ((s q : List ℕ) → cleaned s ≡ some q → IsPhrase q)
    → row_of cleaned cols ≡ some r
    → IsPhrase r.query
row_of-IsPhrase cleaned [] r h e = absurd (cc)
row_of-IsPhrase cleaned (u ∷ []) r h e = absurd (cc)
row_of-IsPhrase cleaned (u ∷ s ∷ []) r h e = absurd (cc)
row_of-IsPhrase cleaned (u ∷ s ∷ t ∷ more) r h e =
    row_with-IsPhrase u (cleaned s) r (h s) (ground arith)

accepted_row-IsPhrase :
    (lower : ℕ → ℕ) (is_letter : ℕ → Bool) (line : List ℕ) (r : Row)
    → accepted_row lower is_letter line ≡ some r
    → IsPhrase r.query
unfolding accepted_row
accepted_row-IsPhrase lower is_letter line r e =
    row_of-IsPhrase (clean lower is_letter) (split 9 line) r (clean-IsPhrase lower is_letter) e

-- The variables of processFile.
record AreVotes (v : Votes) : Type 0 where
  counted : AreCounts v.global
  waiting : All IsPhrase (queries v.seen)

flush_user-AreCounts : (v : Votes) → AreVotes v → AreCounts (flush_user v).global
unfolding flush_user
flush_user-AreCounts v a = bump_all-AreCounts (queries v.seen) v.global a.waiting a.counted

change_user-AreVotes : (u : List ℕ) (v : Votes) → AreVotes v → AreVotes (change_user u v)
unfolding change_user flush_user
change_user-AreVotes u v a = elim (Bool-cases (same u v.user)) [
  | inl y ↦ rw y a
  | inr n ↦ rw n (record {
    counted = bump_all-AreCounts (queries v.seen) v.global a.waiting a.counted;
    waiting = tt;
  })
]

seen-phrases :
    (q : List ℕ) (qs : List (List ℕ))
    → IsPhrase q
    → All IsPhrase qs
    → All IsPhrase (if member q qs then qs else q ∷ qs)
seen-phrases q qs p a = elim (Bool-cases (member q qs)) [ inl y ↦ rw y a | inr n ↦ rw n (p, a) ]

see-AreVotes :
    (q : List ℕ) (v v' : Votes) → IsPhrase q → AreVotes v → see q v ≡ some v' → AreVotes v'
unfolding see
see-AreVotes q v v' p a e = elim (Option-cases (v.seen)) [
  | inl n ↦ absurd (ground arith)
  | inr (qs, y) ↦
      let old : All IsPhrase qs = subst (λ o. All IsPhrase (queries o)) y a.waiting in
      let at : record v { seen = some (if member q qs then qs else q ∷ qs) } ≡ v' = ground arith in
      subst AreVotes at (record { counted = a.counted; waiting = seen-phrases q qs p old })
]

vote-AreVotes :
    (raw : Bool) (r : Row) (v v' : Votes)
    → IsPhrase r.query
    → AreVotes v
    → vote raw r v ≡ some v'
    → AreVotes v'
unfolding vote
vote-AreVotes true r v v' p a e =
    let at : record v { global = bump r.query v.global } ≡ v' = ground arith in
    subst AreVotes at
      (record { counted = bump-AreCounts r.query v.global p a.counted; waiting = a.waiting })
vote-AreVotes false r v v' p a e =
    see-AreVotes r.query (change_user r.user v) v' p (change_user-AreVotes r.user v a) e

module _ (lower : ℕ → ℕ) (is_letter : ℕ → Bool) where
  take_lines-AreVotes :
      (raw : Bool) (ls : List (List ℕ)) (v v' : Votes)
      → AreVotes v
      → take_lines lower is_letter raw ls v ≡ some v'
      → AreVotes v'
  unfolding take_lines
  take_lines-AreVotes raw [] v v' a e = let at : v ≡ v' = ground arith in subst AreVotes at a
  take_lines-AreVotes raw (l ∷ ls) v v' a e = elim (Option-cases (accepted_row lower is_letter l)) [
    | inl n ↦ take_lines-AreVotes raw ls v v' a (ground arith)
    | inr (r, y) ↦ elim (Option-cases (vote raw r v)) [
      | inl n ↦ absurd (ground arith)
      | inr (v1, z) ↦
          let p = accepted_row-IsPhrase lower is_letter l r y in
          take_lines-AreVotes raw ls v1 v' (vote-AreVotes raw r v v1 p a z) (ground arith)
    ]
  ]

  pub process_file-AreCounts :
      (raw : Bool) (lines : List (List ℕ)) (m m' : Counts)
      → AreCounts m
      → process_file lower is_letter raw lines m ≡ some m'
      → AreCounts m'
  unfolding process_file
  process_file-AreCounts raw lines m m' c e =
      let start : Votes = record { global = m; user = []; seen = none } in
      elim (Option-cases (take_lines lower is_letter raw lines start)) [
        | inl n ↦ absurd (ground arith)
        | inr (v, y) ↦
            let a =
              take_lines-AreVotes raw lines start v (record { counted = c; waiting = tt }) y in
            let at : (flush_user v).global ≡ m' = ground arith in
            subst AreCounts at (flush_user-AreCounts v a)
      ]
