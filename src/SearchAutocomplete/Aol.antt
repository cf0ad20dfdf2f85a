-- ===== src/SearchAutocomplete/Aol.antt =====
-- search_autocomplete/cmd/preprocess_aol/main.go: counting the queries of a log. A line is its runes, a
-- count is a number (a log has fewer than 2 ^ 63 lines). The tables of unicode.ToLower and
-- unicode.IsLetter are parameters, and so is what sort.Slice does.
pub mod Voting
pub mod Counting
pub mod Phrases
pub mod Output
pub mod Short
pub mod Pipeline
pub mod Examples
use system_design_implementa.Prelude.{
  ℕ, suc, ◌+◌, ◌≡◌, Bool, true, false, not, ◌&&◌, ◌||◌, List, [], ◌∷◌, ◌++◌, map, take, length,
  Option, none, some, if◌then◌else◌, ltb, leb, ◌==◌,
}
use system_design_implementa.Prelude.Bags.{total}
use system_design_implementa.SearchAutocomplete.Seeder.{same, find, put}
use system_design_implementa.Prelude.Runes.{starts, contains}
use system_design_implementa.SearchAutocomplete.Text.{
  is_empty, fields, join_words, trim_space, split,
}
use system_design_implementa.SearchAutocomplete.Files.{Item, write_out}

abbrev http : List ℕ
http = b'h' ∷ b't' ∷ b't' ∷ b'p' ∷ []

abbrev www : List ℕ
www = b'w' ∷ b'w' ∷ b'w' ∷ b'.' ∷ []

abbrev query_header : List ℕ
query_header = b'Q' ∷ b'u' ∷ b'e' ∷ b'r' ∷ b'y' ∷ []

unfoldable pub has_letter : (ℕ → Bool) → List ℕ → Bool
has_letter is_letter [] = false
has_letter is_letter (c ∷ s) = is_letter c || has_letter is_letter s

-- The tests of clean on the normalized query.
unfoldable pub accept_query : (ℕ → Bool) → List ℕ → Option (List ℕ)
unfolding contains has_letter
accept_query is_letter s =
    if is_empty s || ltb (length s) 2
    then none
    else if contains http s || starts www s
    then none
    else if has_letter is_letter s
    then some s
    else none

unfoldable pub clean : (ℕ → ℕ) → (ℕ → Bool) → List ℕ → Option (List ℕ)
unfolding accept_query
clean lower is_letter s = accept_query is_letter (join_words (fields (map lower (trim_space s))))

-- What a line counts for: a user and a query.
pub record Row : Type 0 where
  pub user : List ℕ
  pub query : List ℕ

abbrev row_with : List ℕ → Option (List ℕ) → Option Row
row_with user none = none
row_with user (some q) = some (record { user = user; query = q })

abbrev row_of : (List ℕ → Option (List ℕ)) → List (List ℕ) → Option Row
row_of cleaned (user ∷ query ∷ third ∷ more) =
    if same query query_header then none else row_with user (cleaned query)
row_of cleaned _ = none

unfoldable pub accepted_row : (ℕ → ℕ) → (ℕ → Bool) → List ℕ → Option Row
unfolding clean
accepted_row lower is_letter line = row_of (clean lower is_letter) (split 9 line)

-- map[string]int64
abbrev pub Counts : Type 0
Counts = List (List ℕ × ℕ)

abbrev pub count : List ℕ → Counts → ℕ
count q m = elim (find q m) [ none ↦ 0 | some n ↦ n ]

unfoldable pub bump : List ℕ → Counts → Counts
unfolding find put
bump q m = put q (count q m + 1) m

-- The variables of processFile; none is the nil map of the queries that the current user has asked.
pub record Votes : Type 0 where
  pub global : Counts
  pub user : List ℕ
  pub seen : Option (List (List ℕ))

unfoldable pub bump_all : List (List ℕ) → Counts → Counts
unfolding bump
bump_all [] m = m
bump_all (q ∷ qs) m = bump_all qs (bump q m)

abbrev pub queries : Option (List (List ℕ)) → List (List ℕ)
queries none = []
queries (some qs) = qs

-- flushUser
unfoldable pub flush_user : Votes → Votes
unfolding bump_all
flush_user v = record v { global = bump_all (queries v.seen) v.global; seen = none }

abbrev pub member : List ℕ → List (List ℕ) → Bool
member q [] = false
member q (p ∷ ps) = same p q || member q ps

-- The write into the set; none is the panic of a write into the nil map.
unfoldable pub see : List ℕ → Votes → Option Votes
see q v = elim (v.seen) [
  | none ↦ none
  | some qs ↦ some (record v { seen = some (if member q qs then qs else q ∷ qs) })
]

unfoldable pub change_user : List ℕ → Votes → Votes
unfolding flush_user
change_user u v = if same u v.user then v else record (flush_user v) { user = u; seen = some [] }

unfoldable pub vote : Bool → Row → Votes → Option Votes
unfolding bump see change_user
vote raw r v =
    if raw
    then some (record v { global = bump r.query v.global })
    else see r.query (change_user r.user v)

-- How a file is processed: with a panic, with an error, or with the counts.
pub data Processed : Type 0 where
  panicked failed : Processed
  counted : Counts → Processed

module _ (lower : ℕ → ℕ) (is_letter : ℕ → Bool) where
  unfoldable pub take_lines : Bool → List (List ℕ) → Votes → Option Votes
  unfolding vote accepted_row
  take_lines raw [] v = some v
  take_lines raw (l ∷ ls) v = elim (accepted_row lower is_letter l) [
    | none ↦ take_lines raw ls v
    | some r ↦ elim (vote raw r v) [ none ↦ none | some v' ↦ take_lines raw ls v' ]
  ]

  -- processFile up to its last test, over the lines that the scanner gives: the counts; none is a panic.
  unfoldable pub process_file : Bool → List (List ℕ) → Counts → Option Counts
  unfolding take_lines flush_user
  process_file raw lines m =
      elim (take_lines raw lines (record { global = m; user = []; seen = none })) [
        | none ↦ none
        | some v ↦ some ((flush_user v).global)
      ]

  -- The whole of processFile; `broken` says that the scanner ended with an error, as it does at a line
  -- of 1 MiB or more. main ends the program then, so the counts so far are lost.
  unfoldable pub process_log : Bool → Bool → List (List ℕ) → Counts → Processed
  unfolding process_file
  process_log raw broken lines m = elim (process_file raw lines m) [
    | none ↦ panicked
    | some m' ↦ if broken then failed else counted m'
  ]

  -- The loop of main over the files.
  unfoldable pub process_logs : Bool → List (Bool × List (List ℕ)) → Counts → Processed
  unfolding process_log
  process_logs raw [] m = counted m
  process_logs raw ((broken, lines) ∷ fs) m = elim (process_log raw broken lines m) [
    | panicked ↦ panicked
    | failed ↦ failed
    | counted m' ↦ process_logs raw fs m'
  ]

-- The rest of main: the queries that are asked often enough, sorted, and the first of them.
unfoldable pub frequent : ℕ → Counts → List Item
frequent min_freq [] = []
frequent min_freq ((q, n) ∷ m) =
    if leb min_freq n
    then record { phrase = q; freq = n } ∷ frequent min_freq m
    else frequent min_freq m

-- sort.Slice: the same entries in another order.
pub record ItemSorter : Type 0 where
  pub sort : List Item → List Item
  pub total-sort : (w : Item → ℕ) (xs : List Item) → total w (sort xs) ≡ total w xs

unfoldable pub first_items : ℕ → List Item → List Item
first_items top_n its = if ltb 0 top_n && ltb top_n (length its) then take top_n its else its

unfoldable pub output : ItemSorter → ℕ → ℕ → Counts → List ℕ
unfolding frequent first_items write_out
output s min_freq top_n m = write_out (first_items top_n (s.sort (frequent min_freq m)))
