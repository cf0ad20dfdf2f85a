-- ===== src/SearchAutocomplete/Ngrams/Groups.antt =====
-- The streaming group-by against grouping the rows first.
use system_design_implementa.Prelude.{ℕ, Bool, ◌&&◌, List, [], ◌∷◌, none, some, if◌then◌else◌}
use system_design_implementa.Prelude.Int.{ℤ}
use system_design_implementa.SearchAutocomplete.Seeder.{same}
use system_design_implementa.SearchAutocomplete.Text.{split}
use system_design_implementa.SearchAutocomplete.Ngrams.{
  Agg, none_yet, add_agg, parse_counts, Totals, add_total, Grouping, is_enough, phrase_of,
}

-- A row is a phrase and its counts; a run is a phrase and the counts of rows that follow each other.
abbrev Rows : Type 0
Rows = List (List ℕ × Agg)

abbrev pub Runs : Type 0
Runs = List (List ℕ × List Agg)

-- The rows of the lines that parseCounts accepts.
abbrev pub rows : List (List ℕ) → Rows
rows [] = []
rows (l ∷ ls) = elim (parse_counts (split 9 l)) [
  | none ↦ rows ls
  | some a ↦ (phrase_of (split 9 l), a) ∷ rows ls
]

abbrev pub joined_run : List ℕ → Agg → Runs → Runs
joined_run p a [] = (p, a ∷ []) ∷ []
joined_run p a ((q, l) ∷ gs) = if same q p then (q, a ∷ l) ∷ gs else (p, a ∷ []) ∷ (q, l) ∷ gs

-- The longest runs of rows with one phrase.
abbrev pub runs : Rows → Runs
runs [] = []
runs ((p, a) ∷ rs) = joined_run p a (runs rs)

-- The sum of a run, one row after the other.
abbrev pub sum_from : Agg → List Agg → Agg
sum_from s [] = s
sum_from s (a ∷ l) = sum_from (add_agg s a) l

module _ (keep : List ℕ → Bool) (min_vol min_match : ℤ) where
  -- A run counts when its phrase is kept and its sums are large enough.
  abbrev pub count_run : List ℕ → Agg → Totals → Totals
  count_run p s acc = if keep p && is_enough min_vol min_match s then add_total p s acc else acc

  abbrev pub count_runs : Runs → Totals → Totals
  count_runs [] acc = acc
  count_runs ((p, l) ∷ gs) acc = count_runs gs (count_run p (sum_from none_yet l) acc)

  -- The same from within a run of the phrase `p` with the sum `s`.
  abbrev count_on : List ℕ → Agg → Runs → Totals → Totals
  count_on p s [] acc = count_run p s acc
  count_on p s ((q, l) ∷ gs) acc =
      if same q p
      then count_runs gs (count_run p (sum_from s l) acc)
      else count_runs ((q, l) ∷ gs) (count_run p s acc)

  -- The variables within a run of the phrase `p` with the sum `s`.
  abbrev within : List ℕ → Agg → Totals → Grouping
  within p s acc = record {
    acc = acc;
    phrase = p;
    sum = if keep p then s else none_yet;
    is_accepted = keep p;
  }
