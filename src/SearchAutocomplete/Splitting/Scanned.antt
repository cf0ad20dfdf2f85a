-- ===== src/SearchAutocomplete/Splitting/Scanned.antt =====
-- Scan over a stretch of the file makes stretches of its children.
use mathlib.Core.Path.{subst}
use mathlib.Core.List.{append_assoc}
use system_design_implementa.Prelude.{
  ℕ, suc, ◌+◌, ◌<◌, ◌≡◌, refl, ap, ◌∙◌, sym, true, List, [], ◌∷◌, ◌++◌, take, length, some, leb,
  arith, All, Bool-cases, Option-cases, inl, inr,
}
use system_design_implementa.SearchAutocomplete.Seeder.{same}
use system_design_implementa.SearchAutocomplete.Seeder.Index.{starts, same-eq}
use system_design_implementa.SearchAutocomplete.Scan.{
  Line, Bucket, Scanning, closed_at, begin_child, count_phrase, scan_line, scan_lines, scan,
}
use system_design_implementa.SearchAutocomplete.Scan.Laws.{sizes, all_within}
use system_design_implementa.SearchAutocomplete.Splitting.Depth.{length-take}
use system_design_implementa.SearchAutocomplete.Splitting.Segments.{
  sizes-append, IsSegment, starts-take, within-append, InChild, Scanned, closed_at-segments,
}

-- The offset after one more line.
seen-offset :
    (start : ℕ) (seen : List Line) (l : Line) (s : Scanning)
    → start + s.offset ≡ sizes seen
    → start + (s.offset + l.size) ≡ sizes (seen ++ l ∷ [])
seen-offset start seen l s o = omega (arith, o, sizes-append seen (l ∷ []))

-- A line that the current child takes in.
grown :
    (seen : List Line) (l : Line) (s s' : Scanning)
    → InChild seen s
    → s'.current ≡ s.current
    → s'.child_start ≡ s.child_start
    → all_within s.current (l ∷ []) ≡ true
    → InChild (seen ++ l ∷ []) s'
grown seen l s s' i e f w = record {
  first = i.first;
  since = i.since ++ l ∷ [];
  all_seen = ap (λ z. z ++ l ∷ []) i.all_seen ∙ append_assoc i.first i.since (l ∷ []);
  began = f ∙ i.began;
  inner =
      ap (λ z. all_within z (i.since ++ l ∷ [])) e
      ∙ within-append s.current i.since (l ∷ []) i.inner w;
}

module _ (file : List Line) (prefix : List ℕ) (start : ℕ) where
  passed-Scanned :
      (seen : List Line) (l : Line) (s : Scanning)
      → ((n : ℕ) → length prefix < n → (p : List ℕ) → length p ≡ n → all_within p (l ∷ []) ≡ true)
      → Scanned file seen prefix start s
      → Scanned file (seen ++ l ∷ []) prefix start (record s { offset = s.offset + l.size })
  passed-Scanned seen l s w (a, o, c) = (
    a,
    seen-offset start seen l s o,
    λ n.
        let (i, h) = c n in
        (grown seen l s _ i refl refl (w (length s.current) h s.current refl), h),
  )

  line-Scanned :
      (seen rest : List Line) (l : Line) (s s' : Scanning)
      → file ≡ seen ++ l ∷ rest
      → Scanned file seen prefix start s
      → scan_line prefix start l s ≡ some s'
      → Scanned file (seen ++ l ∷ []) prefix start s'
  unfolding scan_line begin_child count_phrase
  line-Scanned seen rest l s s' f (a, o, c) e = elim (Option-cases (l.parsed)) [
    | inl p ↦
        let at : record s { offset = s.offset + l.size } ≡ s' = ground arith in
        subst (Scanned file (seen ++ l ∷ []) prefix start) at
          (passed-Scanned seen l s (λ n h q z. ground (arith, p)) (a, o, c))
    | inr (r, p) ↦ elim (Bool-cases (leb (length r.word) (length prefix))) [
      | inl short ↦
          let at : record s { offset = s.offset + l.size } ≡ s' = ground arith in
          subst (Scanned file (seen ++ l ∷ []) prefix start) at
            (passed-Scanned seen l s (λ n h q z. ground (arith, p, short, h, z)) (a, o, c))
      | inr long ↦ elim (Bool-cases (starts prefix r.word)) [
        | inr out ↦ absurd (ground arith)
        | inl inside ↦
            let s0 : Scanning = record s { offset = s.offset + l.size } in
            let child = take (length prefix + 1) r.word in
            let next : length prefix + 1 ≡ suc (length prefix) = omega arith in
            let size : length child ≡ suc (length prefix) =
              ap (λ k. length (take k r.word)) next ∙ length-take (length prefix) r.word long in
            let begins = starts-take (length prefix + 1) r.word in
            let own : all_within child (l ∷ []) ≡ true = ground (arith, p, begins) in
            elim (Bool-cases (same child s.current)) [
              | inl y ↦
                  let s1 = count_phrase (length prefix) r.word s0 in
                  let at : s1 ≡ s' = ground arith in
                  let here = same-eq child s.current y in
                  subst (Scanned file (seen ++ l ∷ []) prefix start) at (
                    a,
                    seen-offset start seen l s o,
                    λ n.
                        let (i, h) = c n in
                        (
                          grown seen l s s1 i refl refl
                              (subst (λ z. all_within z (l ∷ []) ≡ true) here own),
                          h,
                        ),
                  )
              | inr x ↦
                  let s1 =
                    count_phrase (length prefix) r.word (begin_child child (start + s.offset) s0) in
                  let at : s1 ≡ s' = ground arith in
                  subst (Scanned file (seen ++ l ∷ []) prefix start) at (
                    closed_at-segments file seen (l ∷ rest) prefix start s f (a, o, c),
                    seen-offset start seen l s o,
                    λ n. (
                      record {
                        first = seen;
                        since = l ∷ [];
                        all_seen = refl;
                        began = o;
                        inner = own;
                      },
                      omega (arith, size),
                    ),
                  )
            ]
      ]
    ]
  ]

  lines-Scanned :
      (seen ls rest : List Line) (s s' : Scanning)
      → file ≡ seen ++ (ls ++ rest)
      → Scanned file seen prefix start s
      → scan_lines prefix start ls s ≡ some s'
      → All (IsSegment file) (closed_at (start + s'.offset) s')
  unfolding scan_lines
  lines-Scanned seen [] rest s s' f a e =
      let at : s ≡ s' = ground arith in
      subst (λ z. All (IsSegment file) (closed_at (start + z.offset) z)) at
        (closed_at-segments file seen rest prefix start s f a)
  lines-Scanned seen (l ∷ ls) rest s s' f a e = elim (Option-cases (scan_line prefix start l s)) [
    | inl n ↦ absurd (ground arith)
    | inr (s1, p) ↦
        lines-Scanned (seen ++ l ∷ []) ls rest s1 s'
          (f ∙ sym (append_assoc seen (l ∷ []) (ls ++ rest)))
          (line-Scanned seen (ls ++ rest) l s s1 f a p) (ground arith)
  ]

  pub scan-segments :
      (before ls after : List Line) (bs : List Bucket)
      → file ≡ before ++ (ls ++ after)
      → start ≡ sizes before
      → scan prefix start ls ≡ some bs
      → All (IsSegment file) bs
  unfolding scan
  scan-segments before ls after bs f o e =
      let fresh : Scanning = record {
        children = [];
        current = [];
        child_start = 0;
        child_dp = 1;
        prev = [];
        offset = 0;
      } in
      elim (Option-cases (scan_lines prefix start ls fresh)) [
        | inl n ↦ absurd (ground arith)
        | inr (s, p) ↦
            let at : closed_at (start + s.offset) s ≡ bs = ground arith in
            subst (All (IsSegment file)) at
              (lines-Scanned before ls after fresh s f (tt, omega (arith, o), λ n. absurd (cc)) p)
      ]
