-- ===== src/FileSearcher/Progress.antt =====
-- A search that has not ended can go on: no order of the goroutines leads to a deadlock.
use system_design_implementa.Prelude.{
  ℕ, ◌<◌, ◌≡◌, ◌≢◌, refl, ◌∙◌, ap, true, false, List, [], ◌∷◌, ◌++◌, arith, Bool-cases, inl, inr,
}
use system_design_implementa.Prelude.Bags.{total}
use system_design_implementa.FileSearcher.{
  Dir, no_entry, file, folder, Task, waiting, walking, released, State, Outcome, blocked, panics,
  went, turn, closer, main_loop, Step, by_task, by_closer, by_main,
}
use system_design_implementa.FileSearcher.Invariant.{holds_slot, one_each, IsSound, LeadsOn}
use system_design_implementa.FileSearcher.Steps.{turn-LeadsOn}

-- All the tasks wait, or one of them, between the others, can move on as soon as there is a slot.
data Movable (s : State) : Type 0 where
  movable :
      (before after : List Task) (t : Task)
      → s.tasks ≡ before ++ t ∷ after
      → ((path : List ℕ) (d : Dir) → t ≡ waiting path d → s.used < 100)
      → Movable s
  no_task : s.tasks ≡ [] → Movable s

data Turn (ts : List Task) : Type 0 where
  moving :
      (before after : List Task) (t : Task)
      → ts ≡ before ++ t ∷ after
      → ((path : List ℕ) (d : Dir) → t ≢ waiting path d)
      → Turn ts
  all_wait : total holds_slot ts ≡ 0 → Turn ts

turns : (ts : List Task) → Turn ts
unfolding total holds_slot
turns [] = all_wait refl
turns (released ∷ ts) = moving [] ts released refl (λ path d e. cc)
turns (walking path es ∷ ts) = moving [] ts (walking path es) refl (λ path' d e. cc)
turns (waiting path d ∷ ts) = elim (turns ts) [
  | moving before after t e n ↦
      moving (waiting path d ∷ before) after t (ap (λ l. waiting path d ∷ l) e) n
  | all_wait e ↦ all_wait (omega (arith, e))
]

module _ (join : List ℕ → List ℕ → List ℕ) (query : List ℕ) where
  -- Some step of some goroutine can be taken.
  abbrev pub CanGo : State → Type 0
  CanGo s = (u : State) × Step join query s (went u)

  module _ (all : List (List ℕ)) (s : State) (i : IsSound join query all s) where
    finds_task : Movable s
    finds_task = elim (turns s.tasks) [
      | moving before after t e n ↦ movable before after t e (λ path d w. absurd (n path d w))
      | all_wait e ↦ let free : s.used < 100 = omega (arith, i.slots, e) in head s.tasks refl free
    ]
      where
        head : (ts : List Task) → s.tasks ≡ ts → s.used < 100 → Movable s
        head [] e free = no_task e
        head (t ∷ ts) e free = movable [] ts t e (λ path d w. free)

    unblocked :
        (o : Outcome) → LeadsOn join query all s o → o ≢ blocked → (u : State) × (o ≡ went u)
    unblocked blocked l n = absurd (n refl)
    unblocked panics l n = absurd l
    unblocked (went u) l n = (u, refl)

    turn-ne-blocked :
        (before after : List Task) (t : Task)
        → ((path : List ℕ) (d : Dir) → t ≡ waiting path d → s.used < 100)
        → turn join query before t after s ≢ blocked
    unfolding turn
    turn-ne-blocked before after (waiting path d) w e =
        let free = w path d refl in ground (arith, free, e)
    turn-ne-blocked before after (walking path no_entry) w e = cc
    turn-ne-blocked before after (walking path (file name es)) w e = ground (arith, e)
    turn-ne-blocked before after (walking path (folder name d es)) w e = cc
    turn-ne-blocked before after released w e = ground (arith, e)

    main-goes : s.ended ≡ false → s.closed ≡ true → CanGo s
    unfolding main_loop
    main-goes e c = (record s { ended = true }, by_main (ground (arith, e, c)))

    closer-goes : s.closed ≡ false → s.wg ≡ 0 → CanGo s
    unfolding closer
    closer-goes c z = (record s { closed = true }, by_closer (ground (arith, c, z)))

    -- As long as main has not ended, some goroutine can go on.
    pub goes_on : s.ended ≡ false → CanGo s
    goes_on e = elim finds_task [
      | movable before after t at w ↦
          let (u, o) =
            unblocked (turn join query before t after s)
              (turn-LeadsOn join query all before after s t at i)
              (turn-ne-blocked before after t w) in
          (u, by_task before after t at o)
      | no_task n ↦
          let none_left : s.wg ≡ 0 = i.counted ∙ ap (total one_each) n ∙ unfold total in refl in
          elim (Bool-cases (s.closed)) [ inl y ↦ main-goes e y | inr x ↦ closer-goes x none_left ]
    ]
