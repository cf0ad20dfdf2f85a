-- ===== src/SearchAutocomplete/Files.antt =====
-- search_autocomplete/internal/trie/trie.go: ParseLine and BuildTrie; writeOut of cmd/preprocess_aol and
-- cmd/preprocess_ngrams, which writes what BuildTrie reads. A file is its runes,
-- of valid UTF-8.
pub mod Laws
use system_design_implementa.Prelude.{
  ℕ, ◌+◌, ◌≡◌, ◌&&◌, ltb, Bool, true, false, List, [], ◌∷◌, ◌++◌, Option, none, some, if◌then◌else◌,
  ◌==◌,
}
use system_design_implementa.Prelude.Int.{ℤ}
use system_design_implementa.SearchAutocomplete.Trie.{Node, new_node, build_trie}
use system_design_implementa.SearchAutocomplete.Text.{
  is_empty, fields, join_words, trim_space, cut_last_tab, atoi, decimal,
}

-- ParseLine between the tab and the result.
unfoldable pub parsed_at : List ℕ → Option ℤ → Option (List ℕ × ℤ)
parsed_at phrase none = none
parsed_at phrase (some freq) = if is_empty phrase then none else some (phrase, freq)

unfoldable pub parse_line : List ℕ → Option (List ℕ × ℤ)
unfolding parsed_at cut_last_tab fields join_words trim_space atoi
parse_line line = elim (cut_last_tab line) [
  | none ↦ none
  | some (before, after) ↦ parsed_at (join_words (fields before)) (atoi (trim_space after))
]

-- bufio.ScanLines: the lines of a file, each without its newline and a carriage return before that.
unfoldable pub strip_cr : List ℕ → List ℕ
strip_cr [] = []
strip_cr (c ∷ []) = if c == 13 then [] else c ∷ []
strip_cr (c ∷ d ∷ s) = c ∷ strip_cr (d ∷ s)

abbrev pub last_line : List ℕ → List (List ℕ)
last_line [] = []
last_line (c ∷ s) = strip_cr (c ∷ s) ∷ []

unfoldable pub lines_from : List ℕ → List ℕ → List (List ℕ)
unfolding strip_cr
lines_from line [] = last_line line
lines_from line (c ∷ s) =
    let ends = strip_cr line ∷ lines_from [] s in
    let grows = lines_from (line ++ c ∷ []) s in if c == 10 then ends else grows

unfoldable pub lines_of : List ℕ → List (List ℕ)
unfolding lines_from
lines_of s = lines_from [] s

-- The phrases that the loop of BuildTrie inserts.
unfoldable pub accepted : List (List ℕ) → List (List ℕ × ℤ)
unfolding parse_line trim_space
accepted [] = []
accepted (l ∷ ls) = elim (parse_line (trim_space l)) [
  | none ↦ accepted ls
  | some r ↦ r ∷ accepted ls
]

-- The bytes of a rune and of a text in UTF-8.
unfoldable pub rune_bytes : ℕ → ℕ
rune_bytes c = if ltb c 0x80 then 1 else if ltb c 0x800 then 2 else if ltb c 0x1_0000 then 3 else 4

abbrev pub bytes_of : List ℕ → ℕ
bytes_of [] = 0
bytes_of (c ∷ s) = rune_bytes c + bytes_of s

-- bufio.MaxScanTokenSize: the scanner fails at a line of this many bytes, without its newline, or more.
unfoldable pub token_limit : ℕ
token_limit = 65_536

-- Whether the scanner reads a text to its end, with `n` bytes of the line so far.
unfoldable pub all_fit : ℕ → List ℕ → Bool
unfolding token_limit rune_bytes
all_fit n [] = ltb n token_limit
all_fit n (c ∷ s) =
    (if c == 10 then ltb n token_limit else true)
    && all_fit (if c == 10 then 0 else n + rune_bytes c) s

-- BuildTrie; none is the panic where the file cannot be opened or the scanner fails.
unfoldable pub read_trie : Option (List ℕ) → Option Node
unfolding build_trie accepted lines_of all_fit
read_trie none = none
read_trie (some file) =
    if all_fit 0 file then some (build_trie (accepted (lines_of file)) new_node) else none

-- item of the two preprocessors
pub record Item : Type 0 where
  pub phrase : List ℕ
  pub freq : ℕ

-- writeOut
unfoldable pub write_out : List Item → List ℕ
unfolding decimal
write_out [] = []
write_out (it ∷ its) = it.phrase ++ 9 ∷ (decimal it.freq ++ 10 ∷ write_out its)
