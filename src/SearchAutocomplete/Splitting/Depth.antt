-- ===== src/SearchAutocomplete/Splitting/Depth.antt =====
-- The prefixes of the children of a bucket: one rune longer, and no longer than the longest phrase.
use mathlib.Core.Path.{subst}
use system_design_implementa.Prelude.{
  ℕ, zero, suc, ◌+◌, ◌≤◌, max, ◌≡◌, refl, ap, ◌∙◌, false, List, [], ◌∷◌, ◌++◌, take, length, none,
  some, leb, arith, All, Bool-cases, Option-cases, inl, inr,
}
use system_design_implementa.SearchAutocomplete.Seeder.{same}
use system_design_implementa.SearchAutocomplete.Seeder.Index.{starts}
use system_design_implementa.SearchAutocomplete.Scan.{
  Line, Bucket, Scanning, closed_at, begin_child, count_phrase, scan_line, scan_lines, scan,
}
use system_design_implementa.SearchAutocomplete.Splitting.{lines_between}

-- The runes of the longest phrase.
abbrev pub longest : List Line → ℕ
longest [] = 0
longest (l ∷ ls) =
    let rest = longest ls in elim (l.parsed) [ none ↦ rest | some r ↦ max (length r.word) rest ]

pub longest-between :
    (start stop at : ℕ) (ls : List Line) → longest (lines_between start stop at ls) ≤ longest ls
unfolding lines_between
longest-between start stop at [] = omega arith
longest-between start stop at (l ∷ ls) =
    ground (arith, longest-between start stop (at + l.bytes) ls)

pub length-take :
    (n : ℕ) (xs : List ℕ) → leb (length xs) n ≡ false → length (take (suc n) xs) ≡ suc n
length-take zero [] e = absurd (ground arith)
length-take zero (x ∷ xs) e = refl
length-take (suc n) [] e = absurd (ground arith)
length-take (suc n) (x ∷ xs) e =
    let rest = length-take n xs (ground (arith, e)) in omega (arith, rest)

-- A child of a prefix of `n` runes, in a bucket whose phrases have at most `top`.
abbrev pub IsChild : ℕ → ℕ → Bucket → Type 0
IsChild n top b = (length b.prefix ≡ suc n) × (suc n ≤ top)

abbrev AreChildren : ℕ → ℕ → Scanning → Type 0
AreChildren n top s =
    All (IsChild n top) s.children
    × (same s.current [] ≡ false → (length s.current ≡ suc n) × (suc n ≤ top))

pub All-snoc :
    (P : Bucket → Type 0) (bs : List Bucket) (b : Bucket) → All P bs → P b → All P (bs ++ b ∷ [])
All-snoc P [] b a p = (p, tt)
All-snoc P (x ∷ bs) b (q, a) p = (q, All-snoc P bs b a p)

closed_at-children :
    (n top at : ℕ) (s : Scanning) → AreChildren n top s → All (IsChild n top) (closed_at at s)
unfolding closed_at
closed_at-children n top at s (a, c) = elim (Bool-cases (same s.current [])) [
  | inl y ↦ rw y a
  | inr x ↦ rw x (
      All-snoc (IsChild n top) s.children
        (record { prefix = s.current; start = s.child_start; stop = at; distinct = s.child_dp }) a
        (c x))
]

module _ (prefix : List ℕ) (start top : ℕ) where
  line-children :
      (l : Line) (s s' : Scanning)
      → longest (l ∷ []) ≤ top
      → AreChildren (length prefix) top s
      → scan_line prefix start l s ≡ some s'
      → AreChildren (length prefix) top s'
  unfolding scan_line begin_child count_phrase
  line-children l s s' h (a, c) e = elim (Option-cases (l.parsed)) [
    | inl p ↦
        let at : record s { offset = s.offset + l.size } ≡ s' = ground arith in
        subst (AreChildren (length prefix) top) at (a, c)
    | inr (r, p) ↦ elim (Bool-cases (leb (length r.word) (length prefix))) [
      | inl short ↦
          let at : record s { offset = s.offset + l.size } ≡ s' = ground arith in
          subst (AreChildren (length prefix) top) at (a, c)
      | inr long ↦ elim (Bool-cases (starts prefix r.word)) [
        | inr out ↦ absurd (ground arith)
        | inl inside ↦
            let s0 : Scanning = record s { offset = s.offset + l.size } in
            let child = take (length prefix + 1) r.word in
            let next : length prefix + 1 ≡ suc (length prefix) = omega arith in
            let size : length child ≡ suc (length prefix) =
              ap (λ k. length (take k r.word)) next ∙ length-take (length prefix) r.word long in
            let fits_in : suc (length prefix) ≤ top = ground (arith, h, p, long) in
            elim (Bool-cases (same child s.current)) [
              | inl y ↦
                  let at : count_phrase (length prefix) r.word s0 ≡ s' = ground arith in
                  subst (AreChildren (length prefix) top) at (a, c)
              | inr x ↦
                  let at : count_phrase (length prefix) r.word
                        (begin_child child (start + s.offset) s0)
                      ≡ s' =
                    ground arith in
                  subst (AreChildren (length prefix) top) at (
                    closed_at-children (length prefix) top (start + s.offset) s0 (a, c),
                    λ z. (size, fits_in),
                  )
            ]
      ]
    ]
  ]

  lines-children :
      (ls : List Line) (s s' : Scanning)
      → longest ls ≤ top
      → AreChildren (length prefix) top s
      → scan_lines prefix start ls s ≡ some s'
      → AreChildren (length prefix) top s'
  unfolding scan_lines
  lines-children [] s s' h a e =
      let at : s ≡ s' = ground arith in subst (AreChildren (length prefix) top) at a
  lines-children (l ∷ ls) s s' h a e = elim (Option-cases (scan_line prefix start l s)) [
    | inl n ↦ absurd (ground arith)
    | inr (s1, p) ↦
        lines-children ls s1 s' (ground (arith, h)) (line-children l s s1 (ground (arith, h)) a p)
          (ground arith)
  ]

  pub scan-children :
      (ls : List Line) (bs : List Bucket)
      → longest ls ≤ top
      → scan prefix start ls ≡ some bs
      → All (IsChild (length prefix) top) bs
  unfolding scan
  scan-children ls bs h e =
      let fresh : Scanning = record {
        children = [];
        current = [];
        child_start = 0;
        child_dp = 1;
        prev = [];
        offset = 0;
      } in
      elim (Option-cases (scan_lines prefix start ls fresh)) [
        | inl n ↦ absurd (ground arith)
        | inr (s, p) ↦
            let a = lines-children ls fresh s h (tt, λ z. absurd (cc)) p in
            let at : closed_at (start + s.offset) s ≡ bs = ground arith in
            subst (All (IsChild (length prefix) top)) at
              (closed_at-children (length prefix) top (start + s.offset) s a)
      ]
