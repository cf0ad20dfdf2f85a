-- ===== src/SearchAutocomplete/Ngrams.antt =====
-- search_autocomplete/cmd/preprocess_ngrams/main.go: the totals of the phrases of the Google Books files.
-- A file is its lines, in runes. The tables of unicode.IsLetter and unicode.Latin and the score, which
-- the source computes in float64, are parameters.
pub mod Groups
pub mod Examples
use system_design_implementa.Prelude.{
  ℕ, suc, ◌+◌, ◌*◌, Bool, true, false, not, ◌&&◌, ◌||◌, List, [], ◌∷◌, length, Option, none, some,
  if◌then◌else◌, ltb, leb, ◌==◌,
}
use system_design_implementa.Prelude.Int.{ℤ, pos, ◌+ℤ◌, wrap64, ltb_ℤ, leb_ℤ}
use system_design_implementa.SearchAutocomplete.Seeder.{same, find, put}
use system_design_implementa.SearchAutocomplete.Text.{is_empty, fields, split, atoi}

-- agg: the matches and the volumes of a phrase, in int64.
pub record Agg : Type 0 where
  pub match_count : ℤ
  pub volume_count : ℤ

abbrev pub none_yet : Agg
none_yet = record { match_count = pos 0; volume_count = pos 0 }

unfoldable pub add_agg : Agg → Agg → Agg
add_agg a b = record {
  match_count = wrap64 (a.match_count +ℤ b.match_count);
  volume_count = wrap64 (a.volume_count +ℤ b.volume_count);
}

-- parseCounts over the columns of a line.
abbrev both_counts : Option ℤ → Option ℤ → Option Agg
both_counts (some m) (some v) = some (record { match_count = m; volume_count = v })
both_counts _ _ = none

unfoldable pub parse_counts : List (List ℕ) → Option Agg
unfolding atoi
parse_counts (phrase ∷ year ∷ m ∷ v ∷ []) = both_counts (atoi m) (atoi v)
parse_counts (phrase ∷ year ∷ m ∷ page ∷ v ∷ []) = both_counts (atoi m) (atoi v)
parse_counts _ = none

-- keepPhrase: what the loop finds in the runes of a word.
pub record Marks : Type 0 where
  pub letter : Bool
  pub underscore : Bool
  pub foreign : Bool

module _ (is_letter is_latin : ℕ → Bool) where
  unfoldable pub mark : ℕ → Marks → Marks
  mark c m =
      if c == b'_'
      then record m { underscore = true }
      else if is_letter c
      then record m { letter = true; foreign = m.foreign || not (is_latin c) }
      else m

  unfoldable pub marks_of : List ℕ → Marks → Marks
  unfolding mark
  marks_of [] m = m
  marks_of (c ∷ w) m = marks_of w (mark c m)

  -- The loop over the words, with the words counted so far; none where one of them rules the phrase out.
  unfoldable pub count_words : List (List ℕ) → ℕ → Option ℕ
  unfolding marks_of
  count_words [] n = some n
  count_words (w ∷ ws) n =
      let m = marks_of w (record { letter = false; underscore = false; foreign = false }) in
      let rest = count_words ws (if m.letter then n + 1 else n) in
      if m.underscore || m.foreign then none else rest

  unfoldable pub keep_phrase : ℕ → List ℕ → Bool
  unfolding count_words fields
  keep_phrase max_words phrase =
      let words = fields phrase in
      if is_empty phrase || length words == 0 || (ltb 0 max_words && ltb max_words (length words))
      then false
      else elim (count_words words 0) [
        | none ↦ false
        | some n ↦ leb 1 n && leb (length words) (n * 2)
      ]

-- map[string]*agg
abbrev pub Totals : Type 0
Totals = List (List ℕ × Agg)

unfoldable pub add_total : List ℕ → Agg → Totals → Totals
unfolding find put add_agg
add_total p a acc = elim (find p acc) [ none ↦ put p a acc | some b ↦ put p (add_agg b a) acc ]

-- The variables of processFile.
pub record Grouping : Type 0 where
  pub acc : Totals
  pub phrase : List ℕ
  pub sum : Agg
  pub is_accepted : Bool

abbrev pub phrase_of : List (List ℕ) → List ℕ
phrase_of [] = []
phrase_of (p ∷ cols) = p

-- The thresholds of flush.
unfoldable pub is_enough : ℤ → ℤ → Agg → Bool
is_enough min_vol min_match a = leb_ℤ min_vol a.volume_count && leb_ℤ min_match a.match_count

unfoldable pub count_row : Agg → Grouping → Grouping
unfolding add_agg
count_row a g = if g.is_accepted then record g { sum = add_agg g.sum a } else g

module _ (keep : List ℕ → Bool) (min_vol min_match : ℤ) where
  unfoldable pub flush : Grouping → Grouping
  unfolding is_enough add_total
  flush g = record {
    acc =
        if g.is_accepted && is_enough min_vol min_match g.sum
        then add_total g.phrase g.sum g.acc
        else g.acc;
    phrase = [];
    sum = none_yet;
    is_accepted = false;
  }

  unfoldable pub change_phrase : List ℕ → Grouping → Grouping
  unfolding flush
  change_phrase p g =
      if same p g.phrase then g else record (flush g) { phrase = p; is_accepted = keep p }

  -- A round of the loop.
  unfoldable pub group_line : List ℕ → Grouping → Grouping
  unfolding change_phrase count_row parse_counts
  group_line line g =
      let cols = split 9 line in
      elim (parse_counts cols) [
        | none ↦ g
        | some a ↦ count_row a (change_phrase (phrase_of cols) g)
      ]

  unfoldable pub group_lines : List (List ℕ) → Grouping → Grouping
  unfolding group_line
  group_lines [] g = g
  group_lines (l ∷ ls) g = group_lines ls (group_line l g)

  unfoldable pub process_file : List (List ℕ) → Totals → Totals
  unfolding group_lines flush
  process_file lines acc =
      (flush (
        group_lines lines
          (record { acc = acc; phrase = []; sum = none_yet; is_accepted = false }))).acc

  -- The loop of main over the files.
  unfoldable pub process_files : List (List (List ℕ)) → Totals → Totals
  unfolding process_file
  process_files [] acc = acc
  process_files (f ∷ fs) acc = process_files fs (process_file f acc)

-- scoreAndFilter; `score` is the rounded product of the volumes and the logarithm.
unfoldable pub score_and_filter : (Agg → ℤ) → ℤ → ℤ → Totals → List (List ℕ × ℤ)
score_and_filter score min_vol min_match [] = []
score_and_filter score min_vol min_match ((p, a) ∷ acc) =
    let rest = score_and_filter score min_vol min_match acc in
    if ltb_ℤ a.volume_count min_vol || ltb_ℤ a.match_count min_match || leb_ℤ a.volume_count (pos 0)
    then rest
    else (p, score a) ∷ rest
