-- ===== src/SearchAutocomplete/Aol/Counting.antt =====
-- processFile as a whole: users in the mode "user", lines in the mode "raw", and the line that panics.
use system_design_implementa.Prelude.{
  ℕ, ◌+◌, ◌≡◌, refl, sym, ◌∙◌, ap, Bool, true, false, List, [], ◌∷◌, Option, none, some, arith,
  Option-cases, inl, inr,
}
use system_design_implementa.SearchAutocomplete.Aol.{
  Row, accepted_row, Counts, count, bump, Votes, bump_all, queries, flush_user, see, change_user,
  vote, take_lines, process_file,
}
use system_design_implementa.SearchAutocomplete.Aol.Voting.{
  is_set, count-bump, count-bump_all, has_user, voters, askings, grouped_from, is_grouped, ready,
  pending, vote-user,
}

module _ (lower : ℕ → ℕ) (is_letter : ℕ → Bool) where
  -- The rows of a file: what its lines count for.
  abbrev pub rows : List (List ℕ) → List Row
  rows [] = []
  rows (l ∷ ls) = elim (accepted_row lower is_letter l) [ none ↦ rows ls | some r ↦ r ∷ rows ls ]

  take_lines-user :
      (ls : List (List ℕ)) (v : Votes)
      → ready v.user v.seen (rows ls) ≡ true
      → grouped_from v.user (rows ls) ≡ true
      → (v' : Votes) × (take_lines lower is_letter false ls v ≡ some v')
        × (ready v'.user v'.seen [] ≡ true)
        × ((q : List ℕ)
            → count q v'.global + pending q v' []
              ≡ count q v.global + voters q (rows ls) + pending q v (rows ls))
  unfolding take_lines
  take_lines-user [] v ok g = (v, refl, ok, λ q. omega arith)
  take_lines-user (l ∷ ls) v ok g = elim (Option-cases (accepted_row lower is_letter l)) [
    | inl e ↦
        let (v', t, ok', h) = take_lines-user ls v (ground (arith, e, ok)) (ground (arith, e, g)) in
        (v', ground (arith, e, t), ok', λ q. ground (arith, e, h q))
    | inr (r, e) ↦
        let here : rows (l ∷ ls) ≡ r ∷ rows ls = ground (arith, e) in
        let (v1, t1, ok1, u1, h1) =
          vote-user r (rows ls) v (ap (ready v.user v.seen) (sym here) ∙ ok)
            (ap (grouped_from v.user) (sym here) ∙ g) in
        let later : grouped_from r.user (rows ls) ≡ true = ground (arith, g, e) in
        let (v2, t2, ok2, h2) =
          take_lines-user ls v1 ok1 (ap (λ u. grouped_from u (rows ls)) u1 ∙ later) in
        (
          v2,
          ground (arith, e, t1, t2),
          ok2,
          λ q. h2 q ∙ h1 q ∙ ap (λ rs. count q v.global + voters q rs + pending q v rs) (sym here),
        )
  ]

  seen-is_set :
      (u : List ℕ) (o : Option (List (List ℕ))) → ready u o [] ≡ true → is_set (queries o) ≡ true
  seen-is_set u none e = refl
  seen-is_set u (some qs) e = e

  grouped-from_start :
      (rs : List Row) → has_user [] rs ≡ false → is_grouped rs ≡ true → grouped_from [] rs ≡ true
  grouped-from_start [] e g = refl
  grouped-from_start (r ∷ rs) e g = ground arith

  -- processFile in the mode "user", of a file with no empty user whose rows are together user by user:
  -- it does not panic, and raises the count of each query by the number of users who ask for it.
  pub process_file-voters :
      (lines : List (List ℕ)) (m : Counts)
      → has_user [] (rows lines) ≡ false
      → is_grouped (rows lines) ≡ true
      → (m' : Counts) × (process_file lower is_letter false lines m ≡ some m')
        × ((q : List ℕ) → count q m' ≡ count q m + voters q (rows lines))
  unfolding process_file flush_user
  process_file-voters lines m named g =
      let start : Votes = record { global = m; user = []; seen = none } in
      let (v, t, ok, h) =
        take_lines-user lines start (ground (arith, named))
          (grouped-from_start (rows lines) named g) in
      (
        bump_all (queries v.seen) v.global,
        ground (arith, t),
        λ q.
            ground (
              arith,
              count-bump_all q (queries v.seen) v.global (seen-is_set v.user v.seen ok),
              h q,
            ),
      )

  take_lines-raw :
      (ls : List (List ℕ)) (v : Votes)
      → v.seen ≡ none
      → (v' : Votes) × (take_lines lower is_letter true ls v ≡ some v')
        × (v'.seen ≡ none)
        × ((q : List ℕ) → count q v'.global ≡ count q v.global + askings q (rows ls))
  unfolding take_lines vote
  take_lines-raw [] v e = (v, refl, e, λ q. omega arith)
  take_lines-raw (l ∷ ls) v s = elim (Option-cases (accepted_row lower is_letter l)) [
    | inl e ↦
        let (v', t, s', h) = take_lines-raw ls v s in
        (v', ground (arith, e, t), s', λ q. ground (arith, e, h q))
    | inr (r, e) ↦
        let v1 : Votes = record v { global = bump r.query v.global } in
        let (v', t, s', h) = take_lines-raw ls v1 s in
        (v', ground (arith, e, t), s', λ q. ground (arith, e, h q, count-bump q r.query v.global))
  ]

  -- processFile in the mode "raw" raises the count of each query by the number of lines that ask for it.
  pub process_file-askings :
      (lines : List (List ℕ)) (m : Counts)
      → (m' : Counts) × (process_file lower is_letter true lines m ≡ some m')
        × ((q : List ℕ) → count q m' ≡ count q m + askings q (rows lines))
  unfolding process_file flush_user bump_all
  process_file-askings lines m =
      let start : Votes = record { global = m; user = []; seen = none } in
      let (v, t, s, h) = take_lines-raw lines start refl in (v.global, ground (arith, t, s), h)

  vote-panics :
      (r : Row) (v : Votes) → r.user ≡ [] → v.user ≡ [] → v.seen ≡ none → vote false r v ≡ none
  unfolding vote see change_user
  vote-panics r v e a b = ground (arith, e, a, b)

  take_lines-panics :
      (ls : List (List ℕ)) (v : Votes) (r : Row) (rest : List Row)
      → r.user ≡ []
      → v.user ≡ []
      → v.seen ≡ none
      → rows ls ≡ r ∷ rest
      → take_lines lower is_letter false ls v ≡ none
  unfolding take_lines
  take_lines-panics [] v r rest u a b e = absurd (cc)
  take_lines-panics (l ∷ ls) v r rest u a b e =
      elim (Option-cases (accepted_row lower is_letter l)) [
        | inl n ↦ ground (arith, n, take_lines-panics ls v r rest u a b (ground (arith, n, e)))
        | inr (r', y) ↦
            let here : r' ≡ r = ground (arith, y, e) in
            ground (arith, y, vote-panics r' v (ap (λ z. z.user) here ∙ u) a b)
      ]

  -- A file whose first row has an empty user makes processFile panic in the mode "user".
  pub empty_user_panics :
      (lines : List (List ℕ)) (m : Counts) (r : Row) (rest : List Row)
      → rows lines ≡ r ∷ rest
      → r.user ≡ []
      → process_file lower is_letter false lines m ≡ none
  unfolding process_file
  empty_user_panics lines m r rest e u =
      let start : Votes = record { global = m; user = []; seen = none } in
      ground (arith, take_lines-panics lines start r rest u refl refl e)
