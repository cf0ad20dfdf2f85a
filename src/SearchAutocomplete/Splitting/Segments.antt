-- ===== src/SearchAutocomplete/Splitting/Segments.antt =====
-- The children of a bucket are stretches of the file in which every longer phrase begins with the
-- child's prefix.
use mathlib.Core.List.{append_assoc, append-nil}
use system_design_implementa.Prelude.{
  ℕ, zero, suc, ◌+◌, ◌≤◌, ◌<◌, ◌≡◌, refl, ap, ◌∙◌, sym, Bool, true, false, not, ◌&&◌, ◌==◌, List,
  [], ◌∷◌, ◌++◌, take, length, leb, ltb, arith, All, Bool-cases, inl, inr,
}
use system_design_implementa.SearchAutocomplete.Seeder.{same}
use system_design_implementa.SearchAutocomplete.Seeder.Index.{starts}
use system_design_implementa.SearchAutocomplete.Scan.{Line, Bucket, Scanning, closed_at, too_long}
use system_design_implementa.SearchAutocomplete.Scan.Laws.{sizes, all_within, all_short}
use system_design_implementa.SearchAutocomplete.Splitting.{lines_between}
use system_design_implementa.SearchAutocomplete.Splitting.Depth.{All-snoc}

-- A line has at least its newline, has no carriage return, so that its bytes are as many as Scan counts,
-- and fits the scanner's buffer.
abbrev pub all_sized : List Line → Bool
all_sized [] = true
all_sized (l ∷ ls) = leb 1 l.size && l.bytes == l.size && not (too_long l) && all_sized ls

sized-short : (ls : List Line) → all_sized ls ≡ true → all_short ls ≡ true
sized-short [] e = refl
sized-short (l ∷ ls) e = ground (arith, sized-short ls)

pub sizes-append : (xs ys : List Line) → sizes (xs ++ ys) ≡ sizes xs + sizes ys
sizes-append [] ys = omega arith
sizes-append (x ∷ xs) ys = omega (arith, sizes-append xs ys)

between-append :
    (a z at : ℕ) (xs ys : List Line)
    → all_sized xs ≡ true
    → lines_between a z at (xs ++ ys)
      ≡ lines_between a z at xs ++ lines_between a z (at + sizes xs) ys
unfolding lines_between
between-append a z at [] ys e =
    let same : at ≡ at + 0 = omega arith in ap (λ p. lines_between a z p ys) same
between-append a z at (x ∷ xs) ys e =
    let moved : at + x.bytes + sizes xs ≡ at + (x.size + sizes xs) = ground (arith, e) in
    let rest =
      between-append a z (at + x.bytes) xs ys (ground arith)
      ∙ ap (λ p. lines_between a z (at + x.bytes) xs ++ lines_between a z p ys) moved in
    elim (Bool-cases (leb a at && ltb at z)) [
      | inl y ↦ rw y (ap (λ l. x ∷ l) rest)
      | inr n ↦ rw n rest
    ]

between-after : (a z at : ℕ) (xs : List Line) → z ≤ at → lines_between a z at xs ≡ []
unfolding lines_between
between-after a z at [] h = refl
between-after a z at (x ∷ xs) h = ground (arith, between-after a z (at + x.bytes) xs)

between-before :
    (a z at : ℕ) (xs : List Line)
    → all_sized xs ≡ true
    → at + sizes xs ≤ a
    → lines_between a z at xs ≡ []
unfolding lines_between
between-before a z at [] e h = refl
between-before a z at (x ∷ xs) e h = ground (arith, between-before a z (at + x.bytes) xs)

between-inside :
    (a z at : ℕ) (xs : List Line)
    → all_sized xs ≡ true
    → a ≤ at
    → at + sizes xs ≤ z
    → lines_between a z at xs ≡ xs
unfolding lines_between
between-inside a z at [] e h k = refl
between-inside a z at (x ∷ xs) e h k = ground (arith, between-inside a z (at + x.bytes) xs)

sized-append :
    (xs ys : List Line)
    → all_sized (xs ++ ys) ≡ true
    → (all_sized xs ≡ true) × (all_sized ys ≡ true)
sized-append [] ys e = (refl, e)
sized-append (x ∷ xs) ys e =
    let (a, b) = sized-append xs ys (ground (arith, e)) in (ground (arith, e, a), b)

pub stretch-short :
    (file before ls after : List Line)
    → file ≡ before ++ (ls ++ after)
    → all_sized file ≡ true
    → all_short ls ≡ true
stretch-short file before ls after whole e =
    let (e1, e2) = sized-append before (ls ++ after) (ap all_sized (sym whole) ∙ e) in
    sized-short ls (sized-append ls after e2).0

-- A bucket over a stretch of the file.
pub record IsSegment (file : List Line) (b : Bucket) : Type 0 where
  pub before : List Line
  pub inside : List Line
  pub after : List Line
  pub whole : file ≡ before ++ (inside ++ after)
  pub from : b.start ≡ sizes before
  pub to : b.stop ≡ b.start + sizes inside
  pub within : all_within b.prefix inside ≡ true

-- The reader gives the lines of the stretch.
pub between-segment :
    (file : List Line) (b : Bucket) (s : IsSegment file b)
    → all_sized file ≡ true
    → lines_between b.start b.stop 0 file ≡ s.inside
between-segment file b s e =
    let (e1, e2) = sized-append s.before (s.inside ++ s.after) (ap all_sized (sym s.whole) ∙ e) in
    let (e3, e4) = sized-append s.inside s.after e2 in
    ap (lines_between b.start b.stop 0) s.whole
    ∙ between-append b.start b.stop 0 s.before (s.inside ++ s.after) e1
    ∙ ap (λ l. l ++ lines_between b.start b.stop (0 + sizes s.before) (s.inside ++ s.after))
        (between-before b.start b.stop 0 s.before e1 (omega (arith, s.from)))
    ∙ between-append b.start b.stop (0 + sizes s.before) s.inside s.after e3
    ∙ ap (λ l. l ++ lines_between b.start b.stop (0 + sizes s.before + sizes s.inside) s.after)
        (between-inside b.start b.stop (0 + sizes s.before) s.inside e3 (omega (arith, s.from))
          (omega (arith, s.from, s.to)))
    ∙ ap (λ l. s.inside ++ l)
        (between-after b.start b.stop (0 + sizes s.before + sizes s.inside) s.after
          (omega (arith, s.from, s.to)))
    ∙ append-nil s.inside

pub starts-take : (n : ℕ) (w : List ℕ) → starts (take n w) w ≡ true
starts-take zero w = refl
starts-take (suc n) [] = refl
starts-take (suc n) (x ∷ w) = ground (arith, starts-take n w)

pub within-append :
    (p : List ℕ) (xs ys : List Line)
    → all_within p xs ≡ true
    → all_within p ys ≡ true
    → all_within p (xs ++ ys) ≡ true
within-append p [] ys e f = f
within-append p (x ∷ xs) ys e f = ground (arith, within-append p xs ys)

-- The child that Scan is in: the lines since its start, of those that are seen.
pub record InChild (seen : List Line) (s : Scanning) : Type 0 where
  pub first : List Line
  pub since : List Line
  pub all_seen : seen ≡ first ++ since
  pub began : s.child_start ≡ sizes first
  pub inner : all_within s.current since ≡ true

abbrev pub Scanned : List Line → List Line → List ℕ → ℕ → Scanning → Type 0
Scanned file seen prefix start s =
    All (IsSegment file) s.children
    × (start + s.offset ≡ sizes seen)
    × (same s.current [] ≡ false → InChild seen s × (length prefix < length s.current))

pub closed_at-segments :
    (file seen rest : List Line) (prefix : List ℕ) (start : ℕ) (s : Scanning)
    → file ≡ seen ++ rest
    → Scanned file seen prefix start s
    → All (IsSegment file) (closed_at (start + s.offset) s)
unfolding closed_at
closed_at-segments file seen rest prefix start s e (a, o, c) =
    elim (Bool-cases (same s.current [])) [
      | inl y ↦ rw y a
      | inr n ↦
          let (i, _) = c n in
          let b : Bucket = record {
            prefix = s.current;
            start = s.child_start;
            stop = start + s.offset;
            distinct = s.child_dp;
          } in
          rw n (
            All-snoc (IsSegment file) s.children b a (record {
              before = i.first;
              inside = i.since;
              after = rest;
              whole = e ∙ ap (λ l. l ++ rest) i.all_seen ∙ append_assoc i.first i.since rest;
              from = i.began;
              to = omega (arith, o, ap sizes i.all_seen, sizes-append i.first i.since, i.began);
              within = i.inner;
            }))
    ]
