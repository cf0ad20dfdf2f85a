-- ===== src/SearchAutocomplete/Ngrams/Examples.antt =====
-- Rows of both releases, and a word that rules its phrase out.
use system_design_implementa.Prelude.{
  ℕ, ◌≡◌, refl, Bool, false, ◌&&◌, ◌||◌, List, [], ◌∷◌, ◌++◌, leb, codes,
}
use system_design_implementa.Prelude.Int.{pos, ◌+ℤ◌, wrap64, to_signed}
use system_design_implementa.SearchAutocomplete.Seeder.{find, put}
use system_design_implementa.SearchAutocomplete.Text.{
  is_space, fields, fields_from, split, split_from, atoi, read_digits,
}
use system_design_implementa.SearchAutocomplete.Ngrams.{
  add_agg, add_total, parse_counts, mark, marks_of, count_words, keep_phrase, is_enough, flush,
  change_phrase, count_row, group_line, group_lines, process_file,
}

abbrev letter : ℕ → Bool
letter c = leb 97 c && leb c 122 || leb 0x400 c

abbrev latin : ℕ → Bool
latin c = leb c 0x24f

abbrev row_of : List ℕ → List ℕ → List ℕ
row_of p rest = p ++ 9 ∷ rest

abbrev ngram_lines : List (List ℕ)
ngram_lines =
    row_of (codes "red tea") (row_of (codes "1990") (row_of (codes "30") (codes "4")))
    ∷ row_of (codes "red tea")
        (row_of (codes "1991") (row_of (codes "5") (row_of (codes "5") (codes "2"))))
    ∷ row_of (codes "_END_ tea") (row_of (codes "1991") (row_of (codes "90") (codes "9")))
    ∷ codes "red tea"
    ∷ []

process_file_test :
    process_file (keep_phrase letter latin 0) (pos 5) (pos 20) ngram_lines []
    ≡ (codes "red tea", record { match_count = pos 35; volume_count = pos 6 }) ∷ []
unfolding process_file group_lines group_line flush change_phrase count_row parse_counts split
    split_from atoi read_digits keep_phrase fields fields_from is_space count_words marks_of mark
    is_enough add_total add_agg find put wrap64 to_signed ◌+ℤ◌
process_file_test = refl

keep_phrase_test : keep_phrase letter latin 1 (codes "red tea") ≡ false
unfolding keep_phrase fields fields_from is_space count_words marks_of mark
keep_phrase_test = refl

foreign_test : keep_phrase letter latin 0 (codes "чай") ≡ false
unfolding keep_phrase fields fields_from is_space count_words marks_of mark
foreign_test = refl
