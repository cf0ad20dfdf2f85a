-- ===== src/SearchAutocomplete/Scan/Examples.antt =====
-- Scan of the bucket of "t" with the phrases "t", "tea", "ten" and "to", from the place 10.
use system_design_implementa.Prelude.{ℕ, ◌+◌, ◌≡◌, refl, true, List, [], ◌∷◌, some, none}
use system_design_implementa.Prelude.Int.{pos}
use system_design_implementa.SearchAutocomplete.Files.{token_limit}
use system_design_implementa.SearchAutocomplete.Scan.{Line, Bucket, scan, too_long}
use system_design_implementa.SearchAutocomplete.Scan.Laws.{chain, lead, sizes, scan-chain}

abbrev line : List ℕ → ℕ → Line
line phrase size = record {
  size = size;
  bytes = size;
  parsed = some (record { word = phrase; freq = pos 1 });
}

abbrev lines : List Line
lines =
    line (116 ∷ []) 4
    ∷ line (116 ∷ 101 ∷ 97 ∷ []) 6
    ∷ line (116 ∷ 101 ∷ 110 ∷ []) 6
    ∷ line (116 ∷ 111 ∷ []) 5
    ∷ []

-- The phrase "t" goes into neither child; a child's own prefix is not counted.
scan_test :
    scan (116 ∷ []) 10 lines
    ≡ some (
        record { prefix = 116 ∷ 101 ∷ []; start = 14; stop = 26; distinct = 2 }
        ∷ record { prefix = 116 ∷ 111 ∷ []; start = 26; stop = 31; distinct = 0 }
        ∷ [])
unfolding scan too_long token_limit
scan_test = refl

-- A line that does not fit the scanner's buffer.
scan_long_test : scan [] 0 (record { size = 70_000; bytes = 70_000; parsed = none } ∷ []) ≡ none
unfolding scan too_long token_limit
scan_long_test = refl

scan-chain_example :
    (buckets : List Bucket) × (scan (116 ∷ []) 10 lines ≡ some buckets)
    × (chain (10 + lead (116 ∷ []) lines) buckets (10 + sizes lines) ≡ true)
scan-chain_example = scan-chain (116 ∷ []) 10 lines refl (unfold too_long token_limit in refl)
