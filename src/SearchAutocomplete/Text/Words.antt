-- ===== src/SearchAutocomplete/Text/Words.antt =====
-- Texts whose words are apart by single spaces: what Join makes of Fields.
use mathlib.Core.List.{append-nil, append_assoc}
use system_design_implementa.Prelude.{
  ℕ, ◌≡◌, refl, sym, ◌∙◌, ap, Bool, true, false, not, ◌&&◌, ◌||◌, List, [], ◌∷◌, ◌++◌, none, some,
  ◌==◌, arith, Bool-cases, inl, inr,
}
use system_design_implementa.SearchAutocomplete.Text.{
  is_space, is_empty, trim_left, trim_right, trim_space, end_word, fields_from, fields, join_words,
  cut_last_tab,
}

abbrev pub no_space : List ℕ → Bool
no_space [] = true
no_space (c ∷ cs) = not (is_space c) && no_space cs

abbrev pub are_words : List (List ℕ) → Bool
are_words [] = true
are_words (w ∷ ws) = not (is_empty w) && no_space w && are_words ws

no_space-append : (a b : List ℕ) → no_space a ≡ true → no_space b ≡ true → no_space (a ++ b) ≡ true
no_space-append [] b e f = f
no_space-append (c ∷ a) b e f = ground (arith, no_space-append a b)

end_word-are_words :
    (w : List ℕ) (ws : List (List ℕ))
    → no_space w ≡ true
    → are_words ws ≡ true
    → are_words (end_word w ws) ≡ true
end_word-are_words [] ws e f = f
end_word-are_words (c ∷ w) ws e f = ground arith

fields_from-space :
    (w : List ℕ) (c : ℕ) (s : List ℕ)
    → is_space c ≡ true
    → fields_from w (c ∷ s) ≡ end_word w (fields_from [] s)
unfolding fields_from
fields_from-space w c s e = ground arith

fields_from-letter :
    (w : List ℕ) (c : ℕ) (s : List ℕ)
    → is_space c ≡ false
    → fields_from w (c ∷ s) ≡ fields_from (w ++ c ∷ []) s
unfolding fields_from
fields_from-letter w c s e = ground arith

fields_from-are_words : (w s : List ℕ) → no_space w ≡ true → are_words (fields_from w s) ≡ true
unfolding fields_from
fields_from-are_words w [] e = end_word-are_words w [] e refl
fields_from-are_words w (c ∷ s) e = elim (Bool-cases (is_space c)) [
  | inl space ↦
      rw (fields_from-space w c s space)
        (end_word-are_words w (fields_from [] s) e (fields_from-are_words [] s refl))
  | inr letter ↦
      rw (fields_from-letter w c s letter)
        (fields_from-are_words (w ++ c ∷ []) s (no_space-append w (c ∷ []) e (ground arith)))
]

space-is_space : is_space 32 ≡ true
unfolding is_space
space-is_space = refl

pub fields-are_words : (s : List ℕ) → are_words (fields s) ≡ true
unfolding fields
fields-are_words s = fields_from-are_words [] s refl

fields_from-word :
    (w v s : List ℕ) → no_space v ≡ true → fields_from w (v ++ s) ≡ fields_from (w ++ v) s
unfolding fields_from
fields_from-word w [] s e = ap (λ z. fields_from z s) (sym (append-nil w))
fields_from-word w (c ∷ v) s e =
    let letter : is_space c ≡ false = ground arith in
    fields_from-letter w c (v ++ s) letter
    ∙ fields_from-word (w ++ c ∷ []) v s (ground arith)
    ∙ ap (λ z. fields_from z s) (append_assoc w (c ∷ []) v)

end_word-some : (w : List ℕ) (ws : List (List ℕ)) → is_empty w ≡ false → end_word w ws ≡ w ∷ ws
end_word-some [] ws e = absurd (cc)
end_word-some (c ∷ w) ws e = refl

fields_from-join :
    (w : List ℕ) (ws : List (List ℕ))
    → are_words (w ∷ ws) ≡ true
    → fields_from [] (join_words (w ∷ ws)) ≡ w ∷ ws
unfolding fields_from join_words
fields_from-join w [] e =
    ap (fields_from []) (sym (append-nil w))
    ∙ fields_from-word [] w [] (ground arith)
    ∙ end_word-some w [] (ground arith)
fields_from-join w (v ∷ ws) e =
    fields_from-word [] w (32 ∷ join_words (v ∷ ws)) (ground arith)
    ∙ fields_from-space w 32 (join_words (v ∷ ws)) space-is_space
    ∙ end_word-some w (fields_from [] (join_words (v ∷ ws))) (ground arith)
    ∙ ap (λ z. w ∷ z) (fields_from-join v ws (ground arith))

pub fields-join_words : (ws : List (List ℕ)) → are_words ws ≡ true → fields (join_words ws) ≡ ws
unfolding fields join_words fields_from
fields-join_words [] e = refl
fields-join_words (w ∷ ws) e = fields_from-join w ws e

-- A text that Join has made of Fields, and is not empty.
pub record IsPhrase (s : List ℕ) : Type 0 where
  pub spaced : join_words (fields s) ≡ s
  pub some_word : is_empty s ≡ false

pub joined-spaced :
    (s : List ℕ) → join_words (fields (join_words (fields s))) ≡ join_words (fields s)
joined-spaced s = ap join_words (fields-join_words (fields s) (fields-are_words s))

-- The runes of such a text: no white space but spaces, and no space first.
abbrev pub only_spaces : List ℕ → Bool
only_spaces [] = true
only_spaces (c ∷ cs) = (not (is_space c) || c == 32) && only_spaces cs

abbrev starts_word : List ℕ → Bool
starts_word [] = false
starts_word (c ∷ cs) = not (is_space c)

no_space-only_spaces : (a : List ℕ) → no_space a ≡ true → only_spaces a ≡ true
no_space-only_spaces [] e = refl
no_space-only_spaces (c ∷ a) e = ground (arith, no_space-only_spaces a)

pub only_spaces-append :
    (a b : List ℕ) → only_spaces a ≡ true → only_spaces b ≡ true → only_spaces (a ++ b) ≡ true
only_spaces-append [] b e f = f
only_spaces-append (c ∷ a) b e f = ground (arith, only_spaces-append a b)

join-only_spaces : (ws : List (List ℕ)) → are_words ws ≡ true → only_spaces (join_words ws) ≡ true
unfolding join_words is_space
join-only_spaces [] e = refl
join-only_spaces (w ∷ []) e = no_space-only_spaces w (ground arith)
join-only_spaces (w ∷ v ∷ ws) e =
    only_spaces-append w (32 ∷ join_words (v ∷ ws)) (no_space-only_spaces w (ground arith))
      (join-only_spaces (v ∷ ws) (ground arith))

join-starts_word :
    (w : List ℕ) (ws : List (List ℕ))
    → are_words (w ∷ ws) ≡ true
    → starts_word (join_words (w ∷ ws)) ≡ true
unfolding join_words
join-starts_word [] ws e = absurd (cc)
join-starts_word (c ∷ w) [] e = ground arith
join-starts_word (c ∷ w) (v ∷ ws) e = ground arith

pub phrase-only_spaces : (s : List ℕ) → IsPhrase s → only_spaces s ≡ true
phrase-only_spaces s p =
    ap only_spaces (sym p.spaced) ∙ join-only_spaces (fields s) (fields-are_words s)

no_words-empty : (s : List ℕ) → join_words [] ≡ s → is_empty s ≡ true
unfolding join_words
no_words-empty [] e = refl
no_words-empty (c ∷ s) e = absurd (cc)

words-start :
    (s : List ℕ) (ws : List (List ℕ))
    → are_words ws ≡ true
    → join_words ws ≡ s
    → is_empty s ≡ false
    → starts_word s ≡ true
words-start s [] a e f = let no = no_words-empty s e in absurd (cc)
words-start s (w ∷ ws) a e f = ap starts_word (sym e) ∙ join-starts_word w ws a

phrase-starts_word : (s : List ℕ) → IsPhrase s → starts_word s ≡ true
phrase-starts_word s p = words-start s (fields s) (fields-are_words s) p.spaced p.some_word

trim_right-no_space : (b : List ℕ) → no_space b ≡ true → trim_right b ≡ b
unfolding trim_right
trim_right-no_space [] e = refl
trim_right-no_space (c ∷ b) e = ground (arith, trim_right-no_space b)

trim_right-append :
    (a : List ℕ) (c : ℕ) (b : List ℕ)
    → no_space (c ∷ b) ≡ true
    → trim_right (a ++ c ∷ b) ≡ a ++ c ∷ b
unfolding trim_right
trim_right-append [] c b e = trim_right-no_space (c ∷ b) e
trim_right-append (d ∷ []) c b e = ground (arith, trim_right-append [] c b e)
trim_right-append (d ∷ d' ∷ a) c b e = ground (arith, trim_right-append (d' ∷ a) c b e)

-- A text that begins and ends with no white space is left as it is.
pub trim_space-phrase :
    (s : List ℕ) (x c : ℕ) (b : List ℕ)
    → IsPhrase s
    → no_space (c ∷ b) ≡ true
    → trim_space (s ++ x ∷ c ∷ b) ≡ s ++ x ∷ c ∷ b
unfolding trim_space trim_left
trim_space-phrase [] x c b p e = let no = p.some_word in absurd (cc)
trim_space-phrase (d ∷ s) x c b p e =
    let first = phrase-starts_word (d ∷ s) p in
    let letter : is_space d ≡ false = ground arith in
    rw letter (
      ap trim_right (sym (append_assoc (d ∷ s) (x ∷ []) (c ∷ b)))
      ∙ trim_right-append ((d ∷ s) ++ x ∷ []) c b e
      ∙ append_assoc (d ∷ s) (x ∷ []) (c ∷ b))

pub trim_space-word : (b : List ℕ) → no_space b ≡ true → trim_space b ≡ b
unfolding trim_space trim_left
trim_space-word [] e = trim_right-no_space [] refl
trim_space-word (c ∷ b) e =
    let letter : is_space c ≡ false = ground arith in rw letter (trim_right-no_space (c ∷ b) e)

abbrev pub no_tab : List ℕ → Bool
no_tab [] = true
no_tab (c ∷ cs) = not (c == 9) && no_tab cs

cut-none : (b : List ℕ) → no_tab b ≡ true → cut_last_tab b ≡ none
unfolding cut_last_tab
cut-none [] e = refl
cut-none (c ∷ b) e = ground (arith, cut-none b)

pub cut_last_tab-append : (a b : List ℕ) → no_tab b ≡ true → cut_last_tab (a ++ 9 ∷ b) ≡ some (a, b)
unfolding cut_last_tab
cut_last_tab-append [] b e = ground (arith, cut-none b e)
cut_last_tab-append (c ∷ a) b e = ground (arith, cut_last_tab-append a b e)
