-- ===== src/SearchAutocomplete/Files/Laws.antt =====
-- What writeOut writes, BuildTrie reads.
use mathlib.Core.List.{append-nil, append_assoc}
use system_design_implementa.Prelude.{
  ℕ, ◌+◌, ◌<◌, ◌≡◌, refl, sym, ◌∙◌, ap, Bool, true, false, not, ◌&&◌, List, [], ◌∷◌, ◌++◌, map,
  some, ◌==◌, ==_iff, arith, All, Bool-cases, inl, inr,
}
use system_design_implementa.Prelude.Int.{ℤ, pos, two_63}
use system_design_implementa.SearchAutocomplete.Trie.{new_node, build_trie}
use system_design_implementa.SearchAutocomplete.Text.{is_space, is_empty, trim_space, atoi, decimal}
use system_design_implementa.SearchAutocomplete.Text.Words.{
  IsPhrase, only_spaces, phrase-only_spaces, trim_space-phrase, cut_last_tab-append,
  trim_space-word,
}
use system_design_implementa.SearchAutocomplete.Text.Numbers.{
  all_digits, decimal-digits, atoi-decimal, digits-no_space, digits-no_tab,
}
use system_design_implementa.SearchAutocomplete.Files.{
  parsed_at, parse_line, strip_cr, lines_from, lines_of, accepted, read_trie, Item, write_out,
  rune_bytes, bytes_of, token_limit, all_fit,
}

-- The line of an item.
abbrev pub row : Item → List ℕ
row it = it.phrase ++ 9 ∷ decimal it.freq

abbrev pub IsReadable : Item → Type 0
IsReadable it = IsPhrase it.phrase × (it.freq < two_63)

-- The line of an item fits the scanner's buffer.
abbrev pub IsShort : Item → Type 0
IsShort it = bytes_of (row it) < token_limit

parsed_at-row :
    (phrase : List ℕ) (freq : ℤ)
    → is_empty phrase ≡ false
    → parsed_at phrase (some freq) ≡ some (phrase, freq)
unfolding parsed_at
parsed_at-row phrase freq e = ground arith

parse_line-row : (it : Item) → IsReadable it → parse_line (row it) ≡ some (it.phrase, pos it.freq)
unfolding parse_line
parse_line-row it (p, h) =
    let (d, e) = decimal-digits it.freq in
    let cut = cut_last_tab-append it.phrase (decimal it.freq) (digits-no_tab (decimal it.freq) d) in
    let trimmed = trim_space-word (decimal it.freq) (digits-no_space (decimal it.freq) d) in
    let read = ap atoi trimmed ∙ atoi-decimal it.freq h in
    ground (arith, cut, p.spaced, read, parsed_at-row it.phrase (pos it.freq) p.some_word)

trim_space-digits :
    (s d : List ℕ)
    → IsPhrase s
    → all_digits d ≡ true
    → is_empty d ≡ false
    → trim_space (s ++ 9 ∷ d) ≡ s ++ 9 ∷ d
trim_space-digits s [] p a e = absurd (cc)
trim_space-digits s (c ∷ d) p a e = trim_space-phrase s 9 c d p (digits-no_space (c ∷ d) a)

-- A text of one line.
abbrev one_line : List ℕ → Bool
one_line [] = true
one_line (c ∷ s) = not (c == 10) && not (c == 13) && one_line s

one_line-append : (a b : List ℕ) → one_line a ≡ true → one_line b ≡ true → one_line (a ++ b) ≡ true
one_line-append [] b e f = f
one_line-append (c ∷ a) b e f = ground (arith, one_line-append a b)

letter-one_line : (c x : ℕ) → is_space x ≡ true → is_space c ≡ false → (c == x) ≡ false
letter-one_line c x e f = elim (Bool-cases (c == x)) [
  | inl same ↦ let at = ap is_space ((==_iff c x).0 same) in absurd (cc)
  | inr other ↦ other
]

newline-is_space : (is_space 10 ≡ true) × (is_space 13 ≡ true)
unfolding is_space
newline-is_space = (refl, refl)

only_spaces-one_line : (s : List ℕ) → only_spaces s ≡ true → one_line s ≡ true
only_spaces-one_line [] e = refl
only_spaces-one_line (c ∷ s) e = ground (
  arith,
  only_spaces-one_line s,
  letter-one_line c 10 newline-is_space.0,
  letter-one_line c 13 newline-is_space.1,
)

digits-one_line : (s : List ℕ) → all_digits s ≡ true → one_line s ≡ true
digits-one_line [] e = refl
digits-one_line (c ∷ s) e = ground (arith, digits-one_line s)

strip_cr-one_line : (s : List ℕ) → one_line s ≡ true → strip_cr s ≡ s
unfolding strip_cr
strip_cr-one_line [] e = refl
strip_cr-one_line (c ∷ []) e = ground arith
strip_cr-one_line (c ∷ d ∷ s) e = ground (arith, strip_cr-one_line (d ∷ s))

lines_from-letter :
    (part : List ℕ) (c : ℕ) (s : List ℕ)
    → (c == 10) ≡ false
    → lines_from part (c ∷ s) ≡ lines_from (part ++ c ∷ []) s
unfolding lines_from
lines_from-letter part c s e = ground arith

lines_from-line :
    (part a rest : List ℕ)
    → one_line part ≡ true
    → one_line a ≡ true
    → lines_from part (a ++ 10 ∷ rest) ≡ (part ++ a) ∷ lines_from [] rest
unfolding lines_from
lines_from-line part [] rest e f =
    ap (λ z. z ∷ lines_from [] rest) (strip_cr-one_line part e ∙ sym (append-nil part))
lines_from-line part (c ∷ a) rest e f =
    lines_from-letter part c (a ++ 10 ∷ rest) (ground arith)
    ∙ lines_from-line (part ++ c ∷ []) a rest (one_line-append part (c ∷ []) e (ground arith))
        (ground arith)
    ∙ ap (λ z. z ∷ lines_from [] rest) (append_assoc part (c ∷ []) a)

row-one_line : (it : Item) → IsReadable it → one_line (row it) ≡ true
row-one_line it (p, h) =
    let (d, e) = decimal-digits it.freq in
    one_line-append it.phrase (9 ∷ decimal it.freq)
      (only_spaces-one_line it.phrase (phrase-only_spaces it.phrase p))
      (digits-one_line (decimal it.freq) d)

lines_of-write_out : (its : List Item) → All IsReadable its → lines_of (write_out its) ≡ map row its
unfolding lines_of write_out
lines_of-write_out [] a = unfold lines_from in refl
lines_of-write_out (it ∷ its) (r, a) =
    ap (lines_from []) (sym (append_assoc it.phrase (9 ∷ decimal it.freq) (10 ∷ write_out its)))
    ∙ lines_from-line [] (row it) (write_out its) refl (row-one_line it r)
    ∙ ap (λ z. row it ∷ z) (lines_of-write_out its a)

accepted-rows :
    (its : List Item)
    → All IsReadable its
    → accepted (map row its) ≡ map (λ it. (it.phrase, pos it.freq)) its
unfolding accepted
accepted-rows [] a = refl
accepted-rows (it ∷ its) (r, a) =
    let (d, e) = decimal-digits it.freq in
    let read =
      ap parse_line (trim_space-digits it.phrase (decimal it.freq) r.0 d e) ∙ parse_line-row it r in
    ground (arith, read, accepted-rows its a)

all_fit-line :
    (n : ℕ) (a rest : List ℕ)
    → one_line a ≡ true
    → n + bytes_of a < token_limit
    → all_fit n (a ++ 10 ∷ rest) ≡ all_fit 0 rest
unfolding all_fit
all_fit-line n [] rest e h = ground (arith, h)
all_fit-line n (c ∷ a) rest e h =
    let letter : (c == 10) ≡ false = ground (arith, e) in
    rw letter (all_fit-line (n + rune_bytes c) a rest (ground (arith, e)) (omega (arith, h)))

all_fit-write_out :
    (its : List Item) → All IsReadable its → All IsShort its → all_fit 0 (write_out its) ≡ true
unfolding write_out
all_fit-write_out [] a b = unfold all_fit token_limit in refl
all_fit-write_out (it ∷ its) (r, a) (f, b) =
    ap (all_fit 0) (sym (append_assoc it.phrase (9 ∷ decimal it.freq) (10 ∷ write_out its)))
    ∙ all_fit-line 0 (row it) (write_out its) (row-one_line it r) (omega (arith, f))
    ∙ all_fit-write_out its a b

-- What writeOut writes BuildTrie reads back, without a panic: the trie of a written file is the one that
-- Insert makes of the items in their order, each with its phrase and its frequency. The items' phrases
-- are not empty and have single spaces between their words, the frequencies fit int64, and each line
-- that is written has less than 64 KiB in UTF-8.
pub read_trie-write_out :
    (its : List Item)
    → All IsReadable its
    → All IsShort its
    → read_trie (some (write_out its))
      ≡ some (build_trie (map (λ it. (it.phrase, pos it.freq)) its) new_node)
unfolding read_trie
read_trie-write_out its a b =
    let read =
      ap (λ ls. some (build_trie (accepted ls) new_node)) (lines_of-write_out its a)
      ∙ ap (λ ls. some (build_trie ls new_node)) (accepted-rows its a) in
    rw (all_fit-write_out its a b) read
