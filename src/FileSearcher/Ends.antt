-- ===== src/FileSearcher/Ends.antt =====
-- Runs of the search: they are safe, they end, and they print what is there.
use mathlib.Core.Path.{subst}
use system_design_implementa.Prelude.{
  ℕ, zero, suc, ◌+◌, ◌≤◌, ◌≡◌, ◌≢◌, refl, ◌∙◌, sym, ap, Bool, true, false, List, [], ◌∷◌, some,
  arith, Bool-cases, inl, inr,
}
use system_design_implementa.Prelude.Bags.{total}
use system_design_implementa.FileSearcher.{
  Dir, Task, waiting, State, panics, went, Step, Run, here, next, start,
}
use system_design_implementa.FileSearcher.Invariant.{
  found_below, left, steps_below, steps_left, holds_slot, one_each, to_do, IsSound,
}
use system_design_implementa.FileSearcher.Progress.{CanGo, goes_on}
use system_design_implementa.FileSearcher.Runs.{Step-LeadsOn, Run-IsSound}

abbrev is_empty : List ℕ → Bool
is_empty [] = true
is_empty (c ∷ s) = false

abbrev start_of : List ℕ → Dir → State
start_of path root = record {
  tasks = waiting path root ∷ [];
  wg = 1;
  used = 0;
  printed = [];
  closed = false;
  ended = false;
}

no_start :
    (query path : List ℕ) (root : Dir) {s : State}
    → is_empty query ≡ true
    → start query path root ≢ some s
unfolding start
no_start [] path root e f = absurd (cc)
no_start (c ∷ query) path root e f = absurd (cc)

started :
    (query path : List ℕ) (root : Dir)
    → is_empty query ≡ false
    → start query path root ≡ some (start_of path root)
unfolding start
started [] path root e = absurd (cc)
started (c ∷ query) path root e = refl

module _ (join : List ℕ → List ℕ → List ℕ) (query : List ℕ) where
  module _ (all : List (List ℕ)) (s : State) (i : IsSound join query all s) where
    no_tasks : (ts : List Task) → total one_each ts ≡ 0 → ts ≡ []
    unfolding total
    no_tasks [] e = refl
    no_tasks (t ∷ ts) e = absurd (omega (arith, e))

    -- When main has ended nothing is left, and all that is there is printed.
    ended-done :
        s.ended ≡ true → (to_do s ≡ 0) × ((w : List ℕ → ℕ) → total w s.printed ≡ total w all)
    ended-done e =
        let c = i.last e in
        let empty = no_tasks s.tasks (sym i.counted ∙ i.over c) in
        let nothing : (w : Task → ℕ) → total w s.tasks ≡ 0 =
          λ w. ap (total w) empty ∙ unfold total in refl in
        (
          ground (arith, e, c, nothing steps_left),
          λ w. omega (arith, i.found w, nothing (left join query w)),
        )

  before_run :
      {s u t : State} {m : ℕ}
      → Step join query s (went u)
      → Run join query u m t
      → Run join query s (suc m) t
  before_run st here = next _ here st
  before_run st (next v r st') = next v (before_run st r) st'

  -- From a sound state main ends: the steps that are left are enough.
  run_to_end :
      (all : List (List ℕ)) (fuel : ℕ) (s : State)
      → IsSound join query all s
      → to_do s ≤ fuel
      → (m : ℕ) × (t : State) × Run join query s m t × (t.ended ≡ true) × IsSound join query all t
  run_to_end all zero s i e = elim (Bool-cases (s.ended)) [
    | inl y ↦ (0, s, here, y, i)
    | inr x ↦
        let (u, st) = goes_on join query all s i x in
        let (j, f) = Step-LeadsOn join query all st i in absurd (omega (arith, e, f))
  ]
  run_to_end all (suc fuel) s i e = elim (Bool-cases (s.ended)) [
    | inl y ↦ (0, s, here, y, i)
    | inr x ↦
        let (u, st) = goes_on join query all s i x in
        let (j, f) = Step-LeadsOn join query all st i in
        let (m, t, r, y, k) = run_to_end all fuel u j (omega (arith, e, f)) in
        (suc m, t, before_run st r, y, k)
  ]

  start-IsSound :
      (path : List ℕ) (root : Dir) (s : State)
      → start query path root ≡ some s
      → IsSound join query (found_below join query path root) s × (to_do s ≡ steps_below root + 2)
  unfolding start total holds_slot steps_left left
  start-IsSound path root s e = elim (Bool-cases (is_empty query)) [
    | inl y ↦ absurd (no_start query path root y e)
    | inr n ↦
        let at = started query path root n in
        let same : start_of path root ≡ s = ground (arith, at, e) in
        subst
          (λ z.
            IsSound join query (found_below join query path root) z
            × (to_do z ≡ steps_below root + 2))
          same
          (
            record {
              counted = refl;
              slots = refl;
              few = omega arith;
              over = λ y. absurd (cc);
              last = λ y. absurd (cc);
              found = λ w. omega arith;
            },
            omega arith,
          )
  ]

  -- Whatever the order of the goroutines, of which at most 100 are past the semaphore at once: none
  -- panics by a send on the closed channel or by a counter below 0, and each file is printed at most as
  -- often as it is below the root with a name that contains the query, under the path that Join makes.
  pub search_safe :
      (path : List ℕ) (root : Dir) (s t : State) (n : ℕ)
      → start query path root ≡ some s
      → Run join query s n t
      → (t.used ≤ 100)
        × ¬ Step join query t panics
        × ((w : List ℕ → ℕ) → total w t.printed ≤ total w (found_below join query path root))
  search_safe path root s t n e r =
      let all = found_below join query path root in
      let (i, d) = start-IsSound path root s e in
      let (j, f) = Run-IsSound join query all r i in
      (j.few, λ st. Step-LeadsOn join query all st j, λ w. omega (arith, j.found w))

  -- Every run of the search ends: no run has more steps than there are in all, which are three for each
  -- folder, one for each entry, one for the closing of the channel and one for the end of main's loop, and
  -- a run that cannot go on has exactly so many and has ended main.
  pub search_terminates :
      (path : List ℕ) (root : Dir) (s t : State) (n : ℕ)
      → start query path root ≡ some s
      → Run join query s n t
      → (n ≤ steps_below root + 2)
        × (¬ CanGo join query t → (n ≡ steps_below root + 2) × (t.ended ≡ true))
  search_terminates path root s t n e r =
      let all = found_below join query path root in
      let (i, d) = start-IsSound path root s e in
      let (j, f) = Run-IsSound join query all r i in
      (
        omega (arith, d, f),
        λ stuck. elim (Bool-cases (t.ended)) [
          | inl y ↦ let (z, p) = ended-done all t j y in (omega (arith, d, f, z), y)
          | inr x ↦ absurd (stuck (goes_on join query all t j x))
        ],
      )

  -- No order of the goroutines leads to a deadlock: every run can be continued until main ends, and
  -- where main has ended it has printed the path of each file below the root whose name contains the
  -- query, once for each time it is there, and nothing else.
  pub search_completes :
      (path : List ℕ) (root : Dir) (s t : State) (n : ℕ)
      → start query path root ≡ some s
      → Run join query s n t
      → ((m : ℕ) × (u : State) × Run join query t m u × (u.ended ≡ true))
        × (t.ended ≡ true
            → (w : List ℕ → ℕ) → total w t.printed ≡ total w (found_below join query path root))
  search_completes path root s t n e r =
      let all = found_below join query path root in
      let (i, d) = start-IsSound path root s e in
      let (j, f) = Run-IsSound join query all r i in
      let (m, u, r', y, k) = run_to_end all (to_do t) t j (omega arith) in
      ((m, u, r', y), λ z. (ended-done all t j z).1)
