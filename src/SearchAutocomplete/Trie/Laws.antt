-- ===== src/SearchAutocomplete/Trie/Laws.antt =====
-- The trie is a map from phrases to frequencies.
use system_design_implementa.Prelude.{
  ℕ, ◌≡◌, refl, Bool, true, false, List, [], ◌∷◌, Option, none, some, arith, ◌==◌, ==_iff,
  if◌then◌else◌, ◌&&◌, ◌||◌, Bool-cases, Option-cases, inl, inr,
}
use system_design_implementa.Prelude.Int.{ℤ, pos}
use system_design_implementa.SearchAutocomplete.Trie.{
  Node, node, Children, no_child, child, new_node, child_at, put_child, child_or_new, insert,
  descend, search, build_trie,
}

unfoldable pub same_text : List ℕ → List ℕ → Bool
same_text [] [] = true
same_text [] (y ∷ ys) = false
same_text (x ∷ xs) [] = false
same_text (x ∷ xs) (y ∷ ys) = x == y && same_text xs ys

unfoldable pub is_prefix : List ℕ → List ℕ → Bool
is_prefix [] ys = true
is_prefix (x ∷ xs) [] = false
is_prefix (x ∷ xs) (y ∷ ys) = x == y && is_prefix xs ys

pub child_at-put_child :
    (x y : ℕ) (n : Node) (cs : Children)
    → child_at y (put_child x n cs) ≡ (if x == y then some n else child_at y cs)
unfolding child_at put_child
child_at-put_child x y n no_child = ground arith
child_at-put_child x y n (child z m cs) = ground (arith, child_at-put_child x y n cs)

empty_text-is_prefix : (xs ys : List ℕ) → same_text xs [] ≡ true → is_prefix xs ys ≡ true
unfolding same_text is_prefix
empty_text-is_prefix [] ys e = refl
empty_text-is_prefix (x ∷ xs) ys e = ground arith

same_text-is_prefix : (xs ys : List ℕ) → same_text xs ys ≡ true → is_prefix xs ys ≡ true
unfolding same_text is_prefix
same_text-is_prefix [] ys e = refl
same_text-is_prefix (x ∷ xs) [] e = ground arith
same_text-is_prefix (x ∷ xs) (y ∷ ys) e = ground (arith, same_text-is_prefix xs ys)

search-new_node :
    (s : List ℕ)
    → search s new_node ≡ (if same_text s [] then (true, false, pos 0) else (false, false, pos 0))
unfolding search descend new_node same_text child_at
search-new_node [] = refl
search-new_node (x ∷ xs) = refl

-- Search after Insert: the inserted phrase is a word with its new frequency; each of its proper
-- prefixes is in the trie, and a word with a frequency exactly as before; every other text is
-- found as before.
pub search-insert :
    (s phrase : List ℕ) (freq : ℤ) (t : Node)
    → search s (insert phrase freq t) ≡ (
        if same_text s phrase
        then (true, true, freq)
        else if is_prefix s phrase
        then (true, (search s t).1, (search s t).2)
        else search s t)
unfolding search descend insert same_text is_prefix
search-insert [] [] freq (node w old top cs) = refl
search-insert [] (y ∷ ys) freq (node w old top cs) = refl
search-insert (x ∷ xs) [] freq (node w old top cs) = refl
search-insert (x ∷ xs) (y ∷ ys) freq (node w old top cs) =
    let below = child_or_new (child_at y cs) in
    let ih = search-insert xs ys freq below in
    let found = child_at-put_child y x (insert ys freq below) cs in
    elim (Bool-cases (x == y)) [
      | inr e ↦ ground (arith, found, e)
      | inl e ↦
          let same = (==_iff x y).0 e in
          elim (Option-cases (child_at y cs)) [
            | inl n ↦
                ground (arith, found, same, n, ih, search-new_node xs, empty_text-is_prefix xs ys)
            | inr (c, n) ↦ ground (arith, found, same, n, ih)
          ]
    ]

-- The frequency of a text that is a word.
unfoldable pub frequency : List ℕ → Node → Option ℤ
frequency s t = if (search s t).1 then some (search s t).2 else none

frequency-insert :
    (s phrase : List ℕ) (freq : ℤ) (t : Node)
    → frequency s (insert phrase freq t) ≡ (if same_text s phrase then some freq else frequency s t)
unfolding frequency
frequency-insert s phrase freq t =
    ground (arith, search-insert s phrase freq t, same_text-is_prefix s phrase)

-- The frequency on the last line that has the phrase.
unfoldable pub last_freq : List ℕ → List (List ℕ × ℤ) → Option ℤ
last_freq s [] = none
last_freq s ((phrase, freq) ∷ lines) = elim (last_freq s lines) [
  | none ↦ if same_text s phrase then some freq else none
  | some f ↦ some f
]

-- Whether some line has a phrase that the text begins.
unfoldable pub begins_one : List ℕ → List (List ℕ × ℤ) → Bool
begins_one s [] = false
begins_one s ((phrase, freq) ∷ lines) = is_prefix s phrase || begins_one s lines

build-frequency :
    (s : List ℕ) (lines : List (List ℕ × ℤ)) (t : Node)
    → frequency s (build_trie lines t)
      ≡ elim (last_freq s lines) [ none ↦ frequency s t | some f ↦ some f ]
unfolding build_trie last_freq
build-frequency s [] t = refl
build-frequency s ((phrase, freq) ∷ lines) t =
    ground (arith, build-frequency s lines (insert phrase freq t), frequency-insert s phrase freq t)

build-found :
    (s : List ℕ) (lines : List (List ℕ × ℤ)) (t : Node)
    → (search s (build_trie lines t)).0 ≡ (begins_one s lines || (search s t).0)
unfolding build_trie begins_one
build-found s [] t = refl
build-found s ((phrase, freq) ∷ lines) t = ground (
  arith,
  build-found s lines (insert phrase freq t),
  search-insert s phrase freq t,
  same_text-is_prefix s phrase,
)

-- The trie that BuildTrie makes of the lines is the map of the last frequency of each phrase: a
-- text that is not empty is a word of it exactly when some line has it, with the frequency of the
-- last such line, and it is found in it exactly when it begins a phrase.
pub build_trie_correct :
    (x : ℕ) (xs : List ℕ) (lines : List (List ℕ × ℤ))
    → (frequency (x ∷ xs) (build_trie lines new_node) ≡ last_freq (x ∷ xs) lines)
      × ((search (x ∷ xs) (build_trie lines new_node)).0 ≡ begins_one (x ∷ xs) lines)
unfolding frequency
build_trie_correct x xs lines =
    let nothing : search (x ∷ xs) new_node ≡ (false, false, pos 0) =
      unfold same_text in search-new_node (x ∷ xs) in
    (
      ground (arith, build-frequency (x ∷ xs) lines new_node, nothing),
      ground (arith, build-found (x ∷ xs) lines new_node, nothing),
    )
