-- ===== src/SearchAutocomplete/Aol/Pipeline.antt =====
-- preprocess_aol and BuildTrie together: from a log of queries to the frequencies of the trie.
use system_design_implementa.Prelude.{
  ℕ, ◌≤◌, ◌<◌, ◌≡◌, refl, ◌∙◌, ap, Bool, true, false, not, ◌&&◌, List, [], ◌∷◌, map, length, none,
  some, if◌then◌else◌, ltb, leb, arith, All, Bool-cases, Option-cases, inl, inr,
}
use system_design_implementa.Prelude.Int.{pos, two_63}
use system_design_implementa.Prelude.Bags.{total}
use system_design_implementa.SearchAutocomplete.Trie.{Node, new_node, build_trie}
use system_design_implementa.SearchAutocomplete.Trie.Laws.{frequency, build_trie_correct}
use system_design_implementa.SearchAutocomplete.Seeder.{same, find}
use system_design_implementa.SearchAutocomplete.Seeder.Index.{same-eq, same_self}
use system_design_implementa.SearchAutocomplete.Text.{is_empty, fields, join_words}
use system_design_implementa.SearchAutocomplete.Files.{
  Item, read_trie, write_out, bytes_of, token_limit,
}
use system_design_implementa.SearchAutocomplete.Files.Laws.{
  IsReadable, IsShort, row, read_trie-write_out,
}
use system_design_implementa.SearchAutocomplete.Aol.{
  Row, accepted_row, Counts, count, frequent, ItemSorter, first_items, output, process_log, counted,
}
use system_design_implementa.SearchAutocomplete.Aol.Voting.{has_user, voters, is_grouped}
use system_design_implementa.SearchAutocomplete.Aol.Counting.{rows, process_file-voters}
use system_design_implementa.SearchAutocomplete.Aol.Phrases.{AreCounts, process_file-AreCounts}
use system_design_implementa.SearchAutocomplete.Aol.Short.{
  fits_line, short_queries, asked-fits_line, frequent-IsShort,
}
use system_design_implementa.SearchAutocomplete.Aol.Output.{
  sorted-last_freq, small-counts, frequent-IsReadable, entry,
}

-- Whether an item can be read back, as a test: such a test survives sorting.
abbrev readable : Item → Bool
readable it =
    same (join_words (fields it.phrase)) it.phrase
    && not (is_empty it.phrase)
    && ltb it.freq two_63
    && ltb (bytes_of (row it)) token_limit

abbrev unreadable : Item → ℕ
unreadable it = if readable it then 0 else 1

abbrev BothWays : Item → Type 0
BothWays it = IsReadable it × IsShort it

readable-IsReadable : (it : Item) → readable it ≡ true → BothWays it
readable-IsReadable it e = (
  (
    record { spaced = same-eq _ _ (ground (arith, e)); some_word = ground (arith, e) },
    ground (arith, e),
  ),
  ground (arith, e),
)

IsReadable-readable : (it : Item) → IsReadable it → IsShort it → readable it ≡ true
IsReadable-readable it (p, h) f =
    let spaced = ap (λ z. same z it.phrase) p.spaced ∙ same_self it.phrase in
    ground (arith, spaced, p.some_word, h, f)

none_unreadable :
    (its : List Item) → All IsReadable its → All IsShort its → total unreadable its ≡ 0
unfolding total
none_unreadable [] a b = refl
none_unreadable (it ∷ its) (r, a) (f, b) =
    ground (arith, IsReadable-readable it r f, none_unreadable its a b)

all-IsReadable : (its : List Item) → total unreadable its ≡ 0 → All IsReadable its × All IsShort its
unfolding total
all-IsReadable [] e = (tt, tt)
all-IsReadable (it ∷ its) e =
    let (r, f) =
      readable-IsReadable it
        (elim (Bool-cases (readable it)) [ inl y ↦ y | inr n ↦ absurd (ground (arith, e, n)) ]) in
    let (a, b) = all-IsReadable its (ground (arith, e)) in ((r, a), (f, b))

module _ (s : ItemSorter) (min_freq : ℕ) (lo : 1 ≤ min_freq) where
  all_items :
      (m : Counts) → first_items 0 (s.sort (frequent min_freq m)) ≡ s.sort (frequent min_freq m)
  unfolding first_items
  all_items m = ground arith

  read-output :
      (m : Counts)
      → AreCounts m
      → ((q : List ℕ) → count q m < two_63)
      → ((q : List ℕ) → min_freq ≤ count q m → fits_line q (count q m) ≡ true)
      → read_trie (some (output s min_freq 0 m))
        ≡ some (build_trie (map entry (s.sort (frequent min_freq m))) new_node)
  unfolding output
  read-output m c h w =
      let its = frequent min_freq m in
      let fit = frequent-IsReadable min_freq m (small-counts m c.once c.keys h) in
      let short = frequent-IsShort min_freq m lo c.once w in
      let (sorted, short') =
        all-IsReadable (s.sort its) (s.total-sort unreadable its ∙ none_unreadable its fit short) in
      ap (λ l. read_trie (some (write_out l))) (all_items m)
      ∙ read_trie-write_out (s.sort its) sorted short'

  -- The trie that is read from the output has the counts that reach the bound.
  pub frequency-output :
      (m : Counts) (x : ℕ) (xs : List ℕ)
      → AreCounts m
      → ((q : List ℕ) → count q m < two_63)
      → ((q : List ℕ) → min_freq ≤ count q m → fits_line q (count q m) ≡ true)
      → (t : Node) × (read_trie (some (output s min_freq 0 m)) ≡ some t)
        × (frequency (x ∷ xs) t
            ≡ (if leb min_freq (count (x ∷ xs) m) then some (pos (count (x ∷ xs) m)) else none))
  frequency-output m x xs c h w =
      let its = map entry (s.sort (frequent min_freq m)) in
      (
        build_trie its new_node,
        read-output m c h w,
        (build_trie_correct x xs its).0 ∙ sorted-last_freq s (x ∷ xs) min_freq m lo c.once,
      )

voters-le : (q : List ℕ) (rs : List Row) → voters q rs ≤ length rs
voters-le q [] = omega arith
voters-le q (r ∷ rs) = ground (arith, voters-le q rs)

module _ (lower : ℕ → ℕ) (is_letter : ℕ → Bool) where
  rows-le : (ls : List (List ℕ)) → length (rows lower is_letter ls) ≤ length ls
  rows-le [] = omega arith
  rows-le (l ∷ ls) = elim (Option-cases (accepted_row lower is_letter l)) [
    | inl n ↦ ground (arith, n, rows-le ls)
    | inr (r, y) ↦ ground (arith, y, rows-le ls)
  ]

  -- From a log to the trie: of a file with no empty user, whose rows are together user by user, whose
  -- lines are fewer than 2 ^ 63 and are read without an error of the scanner, preprocess_aol in the mode
  -- "user", with a bound of at least 1 and every query kept that reaches it, writes a file from which
  -- BuildTrie makes a trie, if each query that reaches the bound makes a line of less than 64 KiB. A query
  -- that is not empty is a word of that trie if at least that many users ask for it, with their number as
  -- its frequency, and is no word of it otherwise.
  pub user_log_correct :
      (s : ItemSorter) (min_freq : ℕ) (lines : List (List ℕ)) (x : ℕ) (xs : List ℕ)
      → 1 ≤ min_freq
      → has_user [] (rows lower is_letter lines) ≡ false
      → is_grouped (rows lower is_letter lines) ≡ true
      → length lines < two_63
      → short_queries min_freq (rows lower is_letter lines) (rows lower is_letter lines) ≡ true
      → (m : Counts) × (t : Node) × (process_log lower is_letter false false lines [] ≡ counted m)
        × (read_trie (some (output s min_freq 0 m)) ≡ some t)
        × (let n = voters (x ∷ xs) (rows lower is_letter lines) in
            frequency (x ∷ xs) t ≡ (if leb min_freq n then some (pos n) else none))
  unfolding find process_log
  user_log_correct s min_freq lines x xs lo named g few short =
      let rs = rows lower is_letter lines in
      let (m, e, h) = process_file-voters lower is_letter lines [] named g in
      let c =
        process_file-AreCounts lower is_letter false lines [] m (record { once = refl; keys = tt })
          e in
      let counts : (q : List ℕ) → count q m ≡ voters q rs = λ q. omega (arith, h q) in
      let small : (q : List ℕ) → count q m < two_63 =
        λ q. omega (arith, counts q, voters-le q rs, rows-le lines) in
      let fit : (q : List ℕ) → min_freq ≤ count q m → fits_line q (count q m) ≡ true = λ q p.
        ap (fits_line q) (counts q)
        ∙ asked-fits_line min_freq rs rs q short (omega (arith, lo, p, counts q))
            (omega (arith, p, counts q)) in
      let (t, r, f) = frequency-output s min_freq lo m x xs c small fit in
      (
        m,
        t,
        ground (arith, e),
        r,
        f ∙ ap (λ n. if leb min_freq n then some (pos n) else none) (counts (x ∷ xs)),
      )
