-- ===== src/SearchAutocomplete/Text.antt =====
-- What the parsers of search_autocomplete use of the packages strings and strconv. A text is its runes.
pub mod Words
pub mod Numbers
use system_design_implementa.Prelude.{
  ℕ, zero, suc, ◌+◌, ◌-◌, ◌*◌, ◌/◌, ◌%◌, Bool, true, false, ◌&&◌, ◌||◌, List, [], ◌∷◌, ◌++◌, Option,
  none, some, if◌then◌else◌, ltb, leb, ◌==◌,
}
use system_design_implementa.Prelude.Int.{ℤ, pos, negsuc, two_63}

-- unicode.IsSpace
unfoldable pub is_space : ℕ → Bool
is_space c =
    (leb 9 c && leb c 13)
    || c == 32
    || c == 0x85
    || c == 0xA0
    || c == 0x1680
    || (leb 0x2000 c && leb c 0x200a)
    || c == 0x2028
    || c == 0x2029
    || c == 0x202f
    || c == 0x205f
    || c == 0x3000

abbrev pub is_empty : List ℕ → Bool
is_empty [] = true
is_empty (c ∷ cs) = false

unfoldable pub trim_left : List ℕ → List ℕ
unfolding is_space
trim_left [] = []
trim_left (c ∷ cs) = if is_space c then trim_left cs else c ∷ cs

unfoldable pub trim_right : List ℕ → List ℕ
unfolding is_space
trim_right [] = []
trim_right (c ∷ cs) =
    let rest = trim_right cs in if is_space c && is_empty rest then [] else c ∷ rest

-- strings.TrimSpace
unfoldable pub trim_space : List ℕ → List ℕ
unfolding trim_left trim_right
trim_space s = trim_right (trim_left s)

-- strings.Fields, with the word that has begun.
abbrev pub end_word : List ℕ → List (List ℕ) → List (List ℕ)
end_word [] ws = ws
end_word (c ∷ cs) ws = (c ∷ cs) ∷ ws

unfoldable pub fields_from : List ℕ → List ℕ → List (List ℕ)
unfolding is_space
fields_from word [] = end_word word []
fields_from word (c ∷ cs) =
    let ends = end_word word (fields_from [] cs) in
    let grows = fields_from (word ++ c ∷ []) cs in if is_space c then ends else grows

unfoldable pub fields : List ℕ → List (List ℕ)
unfolding fields_from
fields s = fields_from [] s

-- strings.Join with one space.
unfoldable pub join_words : List (List ℕ) → List ℕ
join_words [] = []
join_words (w ∷ []) = w
join_words (w ∷ v ∷ ws) = w ++ 32 ∷ join_words (v ∷ ws)

-- strings.Split by a separator of one rune.
unfoldable pub split_from : ℕ → List ℕ → List ℕ → List (List ℕ)
split_from sep part [] = part ∷ []
split_from sep part (c ∷ cs) =
    let ends = part ∷ split_from sep [] cs in
    let grows = split_from sep (part ++ c ∷ []) cs in if c == sep then ends else grows

unfoldable pub split : ℕ → List ℕ → List (List ℕ)
unfolding split_from
split sep s = split_from sep [] s

-- What stands before and after the last tab: strings.LastIndexByte and the two slices.
unfoldable pub cut_last_tab : List ℕ → Option (List ℕ × List ℕ)
cut_last_tab [] = none
cut_last_tab (c ∷ cs) = elim (cut_last_tab cs) [
  | some (a, b) ↦ some (c ∷ a, b)
  | none ↦ if c == 9 then some ([], cs) else none
]

abbrev pub is_digit : ℕ → Bool
is_digit c = leb 48 c && leb c 57

unfoldable pub read_digits : ℕ → List ℕ → Option ℕ
read_digits n [] = some n
read_digits n (c ∷ cs) = if is_digit c then read_digits (n * 10 + (c - 48)) cs else none

abbrev pub unsigned : List ℕ → Option ℕ
unsigned [] = none
unsigned (c ∷ cs) = read_digits 0 (c ∷ cs)

-- An integer of 64 bits by its sign and its size.
abbrev pub below_63 : Option ℕ → Option ℤ
below_63 none = none
below_63 (some n) = if ltb n two_63 then some (pos n) else none

abbrev pub negated : Option ℕ → Option ℤ
negated none = none
negated (some n) =
    if n == 0 then some (pos 0) else if leb n two_63 then some (negsuc (n - 1)) else none

-- strconv.Atoi
unfoldable pub atoi : List ℕ → Option ℤ
unfolding read_digits
atoi [] = none
atoi (c ∷ cs) =
    if c == b'-'
    then negated (unsigned cs)
    else if c == b'+'
    then below_63 (unsigned cs)
    else below_63 (unsigned (c ∷ cs))

-- The digits of a number before those that are written; `fuel` above the number is enough.
unfoldable pub write_digits : ℕ → ℕ → List ℕ → List ℕ
write_digits zero n written = written
write_digits (suc fuel) n written =
    let written' = (48 + n % 10) ∷ written in
    let rest = write_digits fuel (n / 10) written' in if ltb n 10 then written' else rest

-- %d of a number that is not negative
unfoldable pub decimal : ℕ → List ℕ
unfolding write_digits
decimal n = write_digits (suc n) n []
