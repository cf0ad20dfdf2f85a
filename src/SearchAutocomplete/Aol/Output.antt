-- ===== src/SearchAutocomplete/Aol/Output.antt =====
-- From a log to the trie: what preprocess_aol counts is what the trie finds.
use system_design_implementa.Prelude.{
  ℕ, ◌≤◌, ◌<◌, ◌≡◌, refl, ◌∙◌, ap, true, List, [], ◌∷◌, map, Option, none, some, if◌then◌else◌, leb,
  ◌==◌, ==_iff, arith, All, Bool-cases, Option-cases, inl, inr,
}
use system_design_implementa.Prelude.Int.{ℤ, pos, two_63}
use system_design_implementa.Prelude.Bags.{total}
use system_design_implementa.SearchAutocomplete.Trie.Laws.{same_text, last_freq}
use system_design_implementa.SearchAutocomplete.Seeder.{same, find}
use system_design_implementa.SearchAutocomplete.Seeder.Index.{is_map, same-eq, same_self}
use system_design_implementa.SearchAutocomplete.Text.Words.{IsPhrase}
use system_design_implementa.SearchAutocomplete.Files.{Item}
use system_design_implementa.SearchAutocomplete.Files.Laws.{IsReadable}
use system_design_implementa.SearchAutocomplete.Aol.{Counts, count, frequent, ItemSorter}

same_text-same : (s p : List ℕ) → same_text s p ≡ same p s
unfolding same_text
same_text-same [] [] = refl
same_text-same [] (y ∷ p) = refl
same_text-same (x ∷ s) [] = refl
same_text-same (x ∷ s) (y ∷ p) = ground (arith, same_text-same s p, ==_iff x y, ==_iff y x)

-- The items of one phrase, weighed by their frequencies.
abbrev under : List ℕ → (ℕ → ℕ) → Item → ℕ
under p v it = if same it.phrase p then v it.freq else 0

abbrev equals : ℕ → ℕ → ℕ
equals n k = if k == n then 1 else 0

abbrev kept : ℕ → (ℕ → ℕ) → Option ℕ → ℕ
kept min_freq v none = 0
kept min_freq v (some n) = if leb min_freq n then v n else 0

total-frequent :
    (p : List ℕ) (v : ℕ → ℕ) (min_freq : ℕ) (m : Counts)
    → is_map m ≡ true
    → total (under p v) (frequent min_freq m) ≡ kept min_freq v (find p m)
unfolding total frequent find
total-frequent p v min_freq [] e = refl
total-frequent p v min_freq ((q, n) ∷ m) e =
    let rest = total-frequent p v min_freq m (ground arith) in
    elim (Bool-cases (same q p)) [
      | inl y ↦
          let at = ap (λ z. find z m) (same-eq q p y) in
          let gone : find p m ≡ none = ground (arith, e, at) in ground (arith, rest, gone, y)
      | inr x ↦ ground (arith, rest, x)
    ]

abbrev pub entry : Item → List ℕ × ℤ
entry it = (it.phrase, pos it.freq)

absent-last_freq :
    (p : List ℕ) (its : List Item)
    → total (under p (λ k. 1)) its ≡ 0
    → last_freq p (map entry its) ≡ none
unfolding total last_freq
absent-last_freq p [] e = refl
absent-last_freq p (it ∷ its) e = ground (arith, absent-last_freq p its, same_text-same p it.phrase)

equals-le :
    (p : List ℕ) (n : ℕ) (its : List Item)
    → total (under p (equals n)) its ≤ total (under p (λ k. 1)) its
unfolding total
equals-le p n [] = omega arith
equals-le p n (it ∷ its) = ground (arith, equals-le p n its)

single-last_freq :
    (p : List ℕ) (n : ℕ) (its : List Item)
    → total (under p (λ k. 1)) its ≡ 1
    → total (under p (equals n)) its ≡ 1
    → last_freq p (map entry its) ≡ some (pos n)
unfolding total last_freq
single-last_freq p n [] e f = absurd (omega arith)
single-last_freq p n (it ∷ its) e f = elim (Bool-cases (same it.phrase p)) [
  | inl y ↦
      let none_left : total (under p (λ k. 1)) its ≡ 0 = ground (arith, e, y) in
      let at : it.freq ≡ n = ground (arith, f, y, none_left, equals-le p n its) in
      ground (arith, y, absent-last_freq p its none_left, same_text-same p it.phrase, ap pos at)
  | inr x ↦ ground (arith, x, e, f, single-last_freq p n its, same_text-same p it.phrase)
]

pub sorted-last_freq :
    (s : ItemSorter) (p : List ℕ) (min_freq : ℕ) (m : Counts)
    → 1 ≤ min_freq
    → is_map m ≡ true
    → last_freq p (map entry (s.sort (frequent min_freq m)))
      ≡ (if leb min_freq (count p m) then some (pos (count p m)) else none)
sorted-last_freq s p min_freq m lo e =
    let its = s.sort (frequent min_freq m) in
    let ones =
      s.total-sort (under p (λ k. 1)) (frequent min_freq m)
      ∙ total-frequent p (λ k. 1) min_freq m e in
    let nothing = absent-last_freq p its in
    elim (Option-cases (find p m)) [
      | inl x ↦ ground (arith, ones, x, nothing)
      | inr (n, y) ↦
          let here =
            s.total-sort (under p (equals n)) (frequent min_freq m)
            ∙ total-frequent p (equals n) min_freq m e in
          ground (arith, ones, here, y, nothing, single-last_freq p n its)
    ]

pub small-counts :
    (m : Counts)
    → is_map m ≡ true
    → All (λ e. IsPhrase e.0) m
    → ((q : List ℕ) → count q m < two_63)
    → All (λ e. IsPhrase e.0 × (e.1 < two_63)) m
unfolding find
small-counts [] o k h = tt
small-counts ((q, n) ∷ m) o (p, k) h = (
  (p, ground (arith, h q, same_self q)),
  small-counts m (ground arith) k (λ r. elim (Bool-cases (same q r)) [
    | inl y ↦
        let at = ap (λ z. find z m) (same-eq q r y) in
        let gone : find r m ≡ none = ground (arith, o, at) in ground (arith, gone)
    | inr x ↦ ground (arith, h r, x)
  ]),
)

pub frequent-IsReadable :
    (min_freq : ℕ) (m : Counts)
    → All (λ e. IsPhrase e.0 × (e.1 < two_63)) m
    → All IsReadable (frequent min_freq m)
unfolding frequent
frequent-IsReadable min_freq [] a = tt
frequent-IsReadable min_freq ((q, n) ∷ m) (e, a) = elim (Bool-cases (leb min_freq n)) [
  | inl y ↦ rw y (e, frequent-IsReadable min_freq m a)
  | inr x ↦ rw x (frequent-IsReadable min_freq m a)
]
