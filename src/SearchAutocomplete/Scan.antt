-- ===== src/SearchAutocomplete/Scan.antt =====
-- search_autocomplete/cmd/seeder/main.go: Scan, which cuts a bucket of the sorted file into the buckets
-- of its longer prefixes. The file is valid UTF-8, so that a phrase is its runes; the lines are those
-- that the reader gives between the bucket's ends.
pub mod Laws
pub mod Examples
use system_design_implementa.Prelude.{
  ℕ, zero, suc, ◌+◌, ◌-◌, max, Bool, true, false, not, List, [], ◌∷◌, ◌++◌, take, length, Option,
  none, some, ◌==◌, leb, ltb, if◌then◌else◌,
}
use system_design_implementa.SearchAutocomplete.Trie.{Reco}
use system_design_implementa.SearchAutocomplete.Files.{token_limit}
use system_design_implementa.SearchAutocomplete.Seeder.{same}
use system_design_implementa.SearchAutocomplete.Seeder.Index.{starts}

-- `size` is len(text) + 1, as Scan counts it. `bytes` is what the line has on the disk with its newline,
-- which the last line counts even where it has none: a carriage return before the newline is in `bytes`
-- and not in `size`. `parsed` is what ParseLine makes of the text.
pub record Line : Type 0 where
  pub size : ℕ
  pub bytes : ℕ
  pub parsed : Option Reco

-- The scanner's buffer has to hold the line with its newline.
unfoldable pub too_long : Line → Bool
unfolding token_limit
too_long l = ltb token_limit l.bytes

unfoldable pub lcp : List ℕ → List ℕ → ℕ
lcp [] ys = 0
lcp (x ∷ xs) [] = 0
lcp (x ∷ xs) (y ∷ ys) = let rest = lcp xs ys in if x == y then rest + 1 else 0

-- BucketMetrics
pub record Bucket : Type 0 where
  pub prefix : List ℕ
  pub start : ℕ
  pub stop : ℕ
  pub distinct : ℕ

-- The variables of Scan; the empty text stands for no current child.
pub record Scanning : Type 0 where
  pub children : List Bucket
  pub current : List ℕ
  pub child_start : ℕ
  pub child_dp : ℕ
  pub prev : List ℕ
  pub offset : ℕ

-- The current child, when there is one, closed at a place of the file.
unfoldable pub closed_at : ℕ → Scanning → List Bucket
closed_at at s =
    if same s.current []
    then s.children
    else s.children
      ++ record { prefix = s.current; start = s.child_start; stop = at; distinct = s.child_dp } ∷ []

unfoldable pub begin_child : List ℕ → ℕ → Scanning → Scanning
unfolding closed_at
begin_child child at s = record s {
  children = closed_at at s;
  current = child;
  child_start = at;
  child_dp = 0;
  prev = [];
}

unfoldable pub count_phrase : ℕ → List ℕ → Scanning → Scanning
unfolding lcp
count_phrase prefix_len phrase s = record s {
  child_dp = s.child_dp + (length phrase - max (prefix_len + 1) (lcp phrase s.prev));
  prev = phrase;
}

-- One round of the loop; none is the panic at a phrase outside the bucket.
unfoldable pub scan_line : List ℕ → ℕ → Line → Scanning → Option Scanning
unfolding begin_child count_phrase
scan_line prefix start line s =
    let s' = record s { offset = s.offset + line.size } in
    elim (line.parsed) [
      | none ↦ some s'
      | some r ↦
          if leb (length r.word) (length prefix)
          then some s'
          else if not (starts prefix r.word)
          then none
          else let child = take (length prefix + 1) r.word in
            some (
              count_phrase (length prefix) r.word
                (if same child s.current then s' else begin_child child (start + s.offset) s'))
    ]

-- The loop, with the panic for an error of the scanner after it.
unfoldable pub scan_lines : List ℕ → ℕ → List Line → Scanning → Option Scanning
unfolding too_long scan_line
scan_lines prefix start [] s = some s
scan_lines prefix start (l ∷ ls) s =
    if too_long l
    then none
    else elim (scan_line prefix start l s) [ none ↦ none | some s' ↦ scan_lines prefix start ls s' ]

unfoldable pub scan : List ℕ → ℕ → List Line → Option (List Bucket)
unfolding scan_lines closed_at
scan prefix start lines =
    let fresh : Scanning = record {
      children = [];
      current = [];
      child_start = 0;
      child_dp = 1;
      prev = [];
      offset = 0;
    } in
    elim (scan_lines prefix start lines fresh) [
      | none ↦ none
      | some s ↦ some (closed_at (start + s.offset) s)
    ]
