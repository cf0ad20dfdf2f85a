-- ===== src/SearchAutocomplete/Scan/Laws.antt =====
-- The buckets that Scan makes lie one behind the other.
use mathlib.Core.Path.{subst, subst⁻¹}
use system_design_implementa.Prelude.{
  ℕ, suc, ◌+◌, ◌≡◌, refl, Bool, true, false, not, ◌&&◌, List, [], ◌∷◌, ◌++◌, take, length, none,
  some, ◌==◌, leb, if◌then◌else◌, arith, Bool-cases, Option-cases, inl, inr,
}
use system_design_implementa.SearchAutocomplete.Seeder.{same}
use system_design_implementa.SearchAutocomplete.Seeder.Index.{starts}
use system_design_implementa.SearchAutocomplete.Scan.{
  Line, Bucket, Scanning, closed_at, begin_child, count_phrase, scan_line, scan_lines, scan,
  too_long,
}

-- Each bucket begins where the one before it ends, from `a` to `z`.
abbrev pub chain : ℕ → List Bucket → ℕ → Bool
chain a [] z = a == z
chain a (b ∷ bs) z = (b.start == a) && chain b.stop bs z

chain-snoc :
    (a m : ℕ) (bs : List Bucket) (b : Bucket)
    → chain a bs m ≡ true
    → b.start ≡ m
    → chain a (bs ++ b ∷ []) b.stop ≡ true
chain-snoc a m [] b c e = ground arith
chain-snoc a m (x ∷ bs) b c e = ground (arith, chain-snoc x.stop m bs b)

-- Whether Scan passes over a line, and the size of such lines before the first other one.
abbrev pub is_passed : List ℕ → Line → Bool
is_passed prefix l = elim (l.parsed) [ none ↦ true | some r ↦ leb (length r.word) (length prefix) ]

abbrev pub lead : List ℕ → List Line → ℕ
lead prefix [] = 0
lead prefix (l ∷ ls) = let rest = lead prefix ls in if is_passed prefix l then l.size + rest else 0

abbrev pub sizes : List Line → ℕ
sizes [] = 0
sizes (l ∷ ls) = l.size + sizes ls

-- Each phrase that is longer than the prefix begins with it.
abbrev pub all_within : List ℕ → List Line → Bool
all_within prefix [] = true
all_within prefix (l ∷ ls) =
    elim (l.parsed) [
      | none ↦ true
      | some r ↦ if leb (length r.word) (length prefix) then true else starts prefix r.word
    ]
    && all_within prefix ls

-- No line is too long for the scanner.
abbrev pub all_short : List Line → Bool
all_short [] = true
all_short (l ∷ ls) = not (too_long l) && all_short ls

module _ (prefix : List ℕ) (start : ℕ) where
  -- In a child: closing it now gives a chain up to here.
  abbrev InChild : ℕ → Scanning → Type 0
  InChild a s = (same s.current [] ≡ false) × (chain a s.children s.child_start ≡ true)

  take-some : (n : ℕ) (xs : List ℕ) → leb (length xs) n ≡ false → same (take (n + 1) xs) [] ≡ false
  take-some n [] e = absurd (ground arith)
  take-some n (x ∷ xs) e = let next : n + 1 ≡ suc n = omega arith in rw next refl

  closed-chain : (a at : ℕ) (s : Scanning) → InChild a s → chain a (closed_at at s) at ≡ true
  unfolding closed_at
  closed-chain a at s (c, h) = rw c (
      chain-snoc a s.child_start s.children
        (record { prefix = s.current; start = s.child_start; stop = at; distinct = s.child_dp }) h
        refl)

  line-InChild :
      (a : ℕ) (l : Line) (s : Scanning)
      → all_within prefix (l ∷ []) ≡ true
      → InChild a s
      → (s' : Scanning) × (scan_line prefix start l s ≡ some s')
        × InChild a s'
        × (s'.offset ≡ s.offset + l.size)
  unfolding scan_line begin_child closed_at count_phrase
  line-InChild a l s w (c, h) =
      let s' = record s { offset = s.offset + l.size } in
      elim (Option-cases (l.parsed)) [
        | inl p ↦ (s', ground (arith, p), (c, h), refl)
        | inr (r, p) ↦ elim (Bool-cases (leb (length r.word) (length prefix))) [
          | inl short ↦ (s', ground (arith, p, short), (c, h), refl)
          | inr long ↦
              let inside : starts prefix r.word ≡ true = ground (arith, p, long) in
              let child = take (length prefix + 1) r.word in
              elim (Bool-cases (same child s.current)) [
                | inl y ↦ (
                  count_phrase (length prefix) r.word s',
                  ground (arith, p, long, inside, y),
                  (c, h),
                  refl,
                )
                | inr n ↦ (
                  count_phrase (length prefix) r.word (begin_child child (start + s.offset) s'),
                  ground (arith, p, long, inside, n),
                  (
                    take-some (length prefix) r.word long,
                    closed-chain a (start + s.offset) s' (c, h),
                  ),
                  refl,
                )
              ]
        ]
      ]

  lines-InChild :
      (a : ℕ) (ls : List Line) (s : Scanning)
      → all_within prefix ls ≡ true
      → all_short ls ≡ true
      → InChild a s
      → (s' : Scanning) × (scan_lines prefix start ls s ≡ some s')
        × InChild a s'
        × (s'.offset ≡ s.offset + sizes ls)
  unfolding scan_lines
  lines-InChild a [] s w q i = (s, refl, i, omega arith)
  lines-InChild a (l ∷ ls) s w q i =
      let (s1, e1, i1, o1) = line-InChild a l s (ground arith) i in
      let (s2, e2, i2, o2) = lines-InChild a ls s1 (ground arith) (ground arith) i1 in
      (s2, ground (arith, e1, e2), i2, omega (arith, o1, o2))

  lines-chain :
      (ls : List Line) (s : Scanning)
      → all_within prefix ls ≡ true
      → all_short ls ≡ true
      → s.current ≡ []
      → s.children ≡ []
      → (s' : Scanning) × (scan_lines prefix start ls s ≡ some s')
        × (chain
              (start + s.offset + lead prefix ls)
              (closed_at (start + s'.offset) s')
              (start + s'.offset)
            ≡ true)
        × (s'.offset ≡ s.offset + sizes ls)
  unfolding scan_lines scan_line begin_child count_phrase closed_at
  lines-chain [] s w q c h = (s, refl, ground (arith, c, h), omega arith)
  lines-chain (l ∷ ls) s w q c h =
      let s' = record s { offset = s.offset + l.size } in
      elim (Bool-cases (is_passed prefix l)) [
        | inl y ↦
            let (s2, e2, i2, o2) = lines-chain ls s' (ground arith) (ground arith) c h in
            let moved : start + s.offset + (l.size + lead prefix ls)
                ≡ start + s'.offset + lead prefix ls =
              omega arith in
            let whole : chain (start + s.offset + (l.size + lead prefix ls))
                  (closed_at (start + s2.offset) s2) (start + s2.offset)
                ≡ true =
              subst⁻¹ (λ z. chain z (closed_at (start + s2.offset) s2) (start + s2.offset) ≡ true)
                moved i2 in
            (s2, ground (arith, e2, y), rw y whole, omega (arith, o2))
        | inr n ↦ elim (Option-cases (l.parsed)) [
          | inl p ↦ absurd (ground (arith, p, n))
          | inr (r, p) ↦
              let long : leb (length r.word) (length prefix) ≡ false = ground (arith, p, n) in
              let inside : starts prefix r.word ≡ true = ground (arith, p, long) in
              let child = take (length prefix + 1) r.word in
              let some_child = take-some (length prefix) r.word long in
              let at = start + s.offset in
              let s1 = count_phrase (length prefix) r.word (begin_child child at s') in
              let new : same child s.current ≡ false = ground (arith, c, some_child) in
              let one : scan_line prefix start l s ≡ some s1 =
                ground (arith, p, long, inside, new) in
              let empty : chain at (closed_at at s') at ≡ true = ground (arith, c, h) in
              let (s2, e2, i2, o2) =
                lines-InChild at ls s1 (ground arith) (ground arith) (some_child, empty) in
              let whole = closed-chain at (start + s2.offset) s2 i2 in
              let none_led : at + 0 ≡ at = omega arith in
              (
                s2,
                ground (arith, one, e2),
                rw n (
                    subst⁻¹
                      (λ z. chain z (closed_at (start + s2.offset) s2) (start + s2.offset) ≡ true)
                      none_led whole),
                omega (arith, o2),
              )
        ]
      ]

-- Over lines that all fit the scanner's buffer of 64 KiB, when every phrase that is longer than the
-- bucket's prefix begins with it, Scan does not panic, and the buckets that it makes lie one behind the
-- other without a gap: from the first line that has a longer phrase to the end of the last line, each
-- line counted as its text and a newline.
pub scan-chain :
    (prefix : List ℕ) (start : ℕ) (lines : List Line)
    → all_within prefix lines ≡ true
    → all_short lines ≡ true
    → (buckets : List Bucket) × (scan prefix start lines ≡ some buckets)
      × (chain (start + lead prefix lines) buckets (start + sizes lines) ≡ true)
unfolding scan
scan-chain prefix start lines w q =
    let fresh : Scanning = record {
      children = [];
      current = [];
      child_start = 0;
      child_dp = 1;
      prev = [];
      offset = 0;
    } in
    let (s, e, c, o) = lines-chain prefix start lines fresh w q refl refl in
    let from : start + 0 + lead prefix lines ≡ start + lead prefix lines = omega arith in
    let to : start + s.offset ≡ start + sizes lines = omega (arith, o) in
    (
      closed_at (start + s.offset) s,
      ground (arith, e),
      subst (λ z. chain z (closed_at (start + s.offset) s) (start + sizes lines) ≡ true) from
          (subst
            (λ z. chain (start + 0 + lead prefix lines) (closed_at (start + s.offset) s) z ≡ true)
            to c),
    )
