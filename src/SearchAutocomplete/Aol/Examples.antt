-- ===== src/SearchAutocomplete/Aol/Examples.antt =====
-- A log of two users who ask for one query, and a line with no user.
use system_design_implementa.Prelude.{
  ℕ, ◌+◌, ◌≡◌, refl, Bool, true, false, ◌&&◌, List, [], ◌∷◌, none, some, if◌then◌else◌, leb, arith,
  codes,
}
use system_design_implementa.Prelude.Int.{pos}
use system_design_implementa.Prelude.Runes.{contains}
use system_design_implementa.SearchAutocomplete.Trie.{Node, build_trie, new_node}
use system_design_implementa.SearchAutocomplete.Trie.Laws.{frequency}
use system_design_implementa.SearchAutocomplete.Text.{
  is_space, trim_left, trim_right, trim_space, fields_from, fields, join_words, split_from, split,
  cut_last_tab, read_digits, atoi, decimal,
}
use system_design_implementa.SearchAutocomplete.Files.{
  Item, read_trie, write_out, parse_line, parsed_at, rune_bytes, token_limit,
}
use system_design_implementa.SearchAutocomplete.Files.Laws.{read_trie-write_out}
use system_design_implementa.SearchAutocomplete.Aol.{
  has_letter, accept_query, clean, Row, accepted_row, Counts, process_file, ItemSorter, output,
  process_log, counted, failed, take_lines, flush_user, bump_all,
}
use system_design_implementa.SearchAutocomplete.Aol.Voting.{has_user, voters, is_grouped}
use system_design_implementa.SearchAutocomplete.Aol.Counting.{rows, empty_user_panics}
use system_design_implementa.SearchAutocomplete.Aol.Short.{short_queries}
use system_design_implementa.SearchAutocomplete.Aol.Pipeline.{user_log_correct}

abbrev lower : ℕ → ℕ
lower c = if leb 65 c && leb c 90 then c + 32 else c

abbrev letter : ℕ → Bool
letter c = leb 97 c && leb c 122

abbrev tab : List ℕ → List ℕ → List ℕ
tab [] b = 9 ∷ b
tab (c ∷ a) b = c ∷ tab a b

abbrev log_line : List ℕ → List ℕ → List ℕ
log_line u q = tab u (tab q (codes "10:00"))

abbrev tea_shop : List ℕ
tea_shop = codes "tea shop"

abbrev log_lines : List (List ℕ)
log_lines =
    log_line (codes "AnonID") (codes "Query")
    ∷ log_line (codes "1") (codes " Tea  Shop")
    ∷ log_line (codes "1") tea_shop
    ∷ log_line (codes "1") (codes "www.tea.com")
    ∷ log_line (codes "2") (codes "TEA SHOP")
    ∷ []

abbrev row_at : List ℕ → List ℕ → Row
row_at u q = record { user = u; query = q }

abbrev log_rows : List Row
log_rows =
    row_at (codes "1") tea_shop ∷ row_at (codes "1") tea_shop ∷ row_at (codes "2") tea_shop ∷ []

log_rows_lem : rows lower letter log_lines ≡ log_rows
unfolding accepted_row clean accept_query contains has_letter trim_space trim_left trim_right fields
    fields_from join_words split split_from is_space
log_rows_lem = refl

log_is_named : has_user [] (rows lower letter log_lines) ≡ false
log_is_named = rw log_rows_lem refl

log_is_grouped : is_grouped (rows lower letter log_lines) ≡ true
log_is_grouped = rw log_rows_lem refl

voters_test : voters tea_shop log_rows ≡ 2
voters_test = refl

abbrev nameless : List (List ℕ)
nameless = log_line [] tea_shop ∷ []

nameless-rows : rows lower letter nameless ≡ row_at [] tea_shop ∷ []
unfolding accepted_row clean accept_query contains has_letter trim_space trim_left trim_right fields
    fields_from join_words split split_from is_space
nameless-rows = refl

empty_user_panics_example : process_file lower letter false nameless [] ≡ none
empty_user_panics_example =
    empty_user_panics lower letter nameless [] (row_at [] tea_shop) [] nameless-rows refl

abbrev as_given : ItemSorter
as_given = record { sort = λ xs. xs; total-sort = λ w xs. refl }

log_is_short : short_queries 2 (rows lower letter log_lines) (rows lower letter log_lines) ≡ true
unfolding rune_bytes token_limit decimal
log_is_short = rw log_rows_lem refl

user_log_correct_example :
    (m : Counts) × (t : Node) × (process_log lower letter false false log_lines [] ≡ counted m)
    × (read_trie (some (output as_given 2 0 m)) ≡ some t)
    × (let n = voters tea_shop (rows lower letter log_lines) in
        frequency tea_shop t ≡ (if leb 2 n then some (pos n) else none))
user_log_correct_example =
    user_log_correct lower letter as_given 2 log_lines b't' (codes "ea shop") (omega arith)
      log_is_named log_is_grouped (omega arith) log_is_short

abbrev item_at : List ℕ → ℕ → Item
item_at p n = record { phrase = p; freq = n }

parse_line_test : parse_line (tab (codes " tea   shop") (codes " +12 ")) ≡ some (tea_shop, pos 12)
unfolding parse_line parsed_at cut_last_tab fields fields_from is_space join_words trim_space
    trim_left trim_right atoi read_digits
parse_line_test = refl

-- A log that the scanner does not read to its end leaves no counts.
process_log_test : process_log lower letter true true [] [] ≡ failed
unfolding process_log process_file take_lines flush_user bump_all
process_log_test = refl

read_trie-write_out_example :
    read_trie (some (write_out (item_at tea_shop 12 ∷ [])))
    ≡ some (build_trie ((tea_shop, pos 12) ∷ []) new_node)
unfolding fields fields_from is_space join_words
read_trie-write_out_example =
    read_trie-write_out (item_at tea_shop 12 ∷ [])
      ((record { spaced = refl; some_word = refl }, omega arith), tt)
      (unfold rune_bytes token_limit decimal in omega arith, tt)
