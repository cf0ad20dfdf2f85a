-- ===== src/FileSearcher/Runs.antt =====
-- The invariant along a run.
use mathlib.Core.Path.{subst}
use system_design_implementa.Prelude.{ℕ, ◌+◌, ◌≡◌, refl, List, arith, ◌==◌, Bool-cases, inl, inr}
use system_design_implementa.FileSearcher.{
  State, Outcome, closer, main_loop, Step, by_task, by_closer, by_main, Run, here, next,
}
use system_design_implementa.FileSearcher.Invariant.{to_do, IsSound, LeadsOn}
use system_design_implementa.FileSearcher.Steps.{turn-LeadsOn}

module _ (join : List ℕ → List ℕ → List ℕ) (query : List ℕ) (all : List (List ℕ)) where
  closer-LeadsOn : (s : State) → IsSound join query all s → LeadsOn join query all s (closer s)
  unfolding closer
  closer-LeadsOn s i = elim (Bool-cases (s.closed)) [
    | inl y ↦ rw y tt
    | inr n ↦ elim (Bool-cases (s.wg == 0)) [
      | inr more ↦ simp (n, more) tt
      | inl y ↦
          simp (n, y)
            (
              record {
                counted = i.counted;
                slots = i.slots;
                few = i.few;
                over = λ z. ground (arith, y);
                last = λ z. refl;
                found = i.found;
              },
              ground (arith, n),
            )
    ]
  ]

  main_loop-LeadsOn :
      (s : State) → IsSound join query all s → LeadsOn join query all s (main_loop s)
  unfolding main_loop
  main_loop-LeadsOn s i = elim (Bool-cases (s.ended)) [
    | inl y ↦ rw y tt
    | inr n ↦ elim (Bool-cases (s.closed)) [
      | inr more ↦ simp (n, more) tt
      | inl y ↦
          simp (n, y)
            (
              record {
                counted = i.counted;
                slots = i.slots;
                few = i.few;
                over = λ z. i.over y;
                last = λ z. refl;
                found = i.found;
              },
              ground (arith, n),
            )
    ]
  ]

  pub Step-LeadsOn :
      {s : State} {o : Outcome}
      → Step join query s o
      → IsSound join query all s
      → LeadsOn join query all s o
  Step-LeadsOn {s} (by_task before after t e r) i =
      subst (LeadsOn join query all s) r (turn-LeadsOn join query all before after s t e i)
  Step-LeadsOn {s} (by_closer r) i = subst (LeadsOn join query all s) r (closer-LeadsOn s i)
  Step-LeadsOn {s} (by_main r) i = subst (LeadsOn join query all s) r (main_loop-LeadsOn s i)

  pub Run-IsSound :
      {s t : State} {n : ℕ}
      → Run join query s n t
      → IsSound join query all s
      → IsSound join query all t × (to_do s ≡ n + to_do t)
  Run-IsSound here i = (i, omega arith)
  Run-IsSound (next u r st) i =
      let (j, e) = Run-IsSound r i in let (k, f) = Step-LeadsOn st j in (k, omega (arith, e, f))
