-- ===== src/FileSearcher/Invariant.antt =====
-- What holds while the goroutines run, whatever their order.
use system_design_implementa.Prelude.{
  ℕ, suc, ◌+◌, ◌≤◌, ◌≡◌, true, List, [], ◌∷◌, ◌++◌, arith, if◌then◌else◌,
}
use system_design_implementa.Prelude.Runes.{contains}
use system_design_implementa.Prelude.Bags.{total, total-append}
use system_design_implementa.FileSearcher.{
  Dir, unreadable, dir, Entries, no_entry, file, folder, Task, waiting, walking, released, State,
  Outcome, blocked, panics, went,
}

module _ (join : List ℕ → List ℕ → List ℕ) (query : List ℕ) where
  -- The files below a folder whose names contain the query.
  unfoldable mutual
    pub found_below : List ℕ → Dir → List (List ℕ)
    found_below path unreadable = []
    found_below path (dir es) = found_among path es

    pub found_among : List ℕ → Entries → List (List ℕ)
    found_among path no_entry = []
    found_among path (file name es) =
        let rest = found_among path es in
        if contains query name then join path name ∷ rest else rest
    found_among path (folder name d es) = found_below (join path name) d ++ found_among path es

  -- What a goroutine, and those that it starts, have still to send.
  unfoldable pub left : (List ℕ → ℕ) → Task → ℕ
  left w (waiting path d) = total w (found_below path d)
  left w (walking path es) = total w (found_among path es)
  left w released = 0

-- The steps that are still to be done below a folder.
unfoldable mutual
  pub steps_below : Dir → ℕ
  steps_below unreadable = 3
  steps_below (dir es) = 3 + steps_among es

  pub steps_among : Entries → ℕ
  steps_among no_entry = 0
  steps_among (file name es) = 1 + steps_among es
  steps_among (folder name d es) = 1 + steps_below d + steps_among es

unfoldable pub steps_left : Task → ℕ
steps_left (waiting path d) = steps_below d
steps_left (walking path es) = 2 + steps_among es
steps_left released = 1

unfoldable pub holds_slot : Task → ℕ
holds_slot (waiting path d) = 0
holds_slot (walking path es) = 1
holds_slot released = 0

abbrev pub one_each : Task → ℕ
one_each t = 1

-- All that is left for the goroutines, the closer and main.
abbrev pub to_do : State → ℕ
to_do s = total steps_left s.tasks + (if s.closed then 0 else 1) + (if s.ended then 0 else 1)

pub total-middle :
    (w : Task → ℕ) (before after : List Task) (t : Task)
    → total w (before ++ t ∷ after) ≡ w t + (total w before + total w after)
unfolding total
total-middle w before after t = omega (arith, total-append w before (t ∷ after))

pub total-middle_two :
    (w : Task → ℕ) (before after : List Task) (t u : Task)
    → total w (before ++ t ∷ u ∷ after) ≡ w t + w u + (total w before + total w after)
unfolding total
total-middle_two w before after t u = omega (arith, total-append w before (t ∷ u ∷ after))

module _ (join : List ℕ → List ℕ → List ℕ) (query : List ℕ) where
  -- The counter counts the goroutines, the slots those that have one, at most 100 at once; nothing runs
  -- when results is closed; and what is printed and what is left make `all`.
  pub record IsSound (all : List (List ℕ)) (s : State) : Type 0 where
    pub counted : s.wg ≡ total one_each s.tasks
    pub slots : s.used ≡ total holds_slot s.tasks
    pub few : s.used ≤ 100
    pub over : s.closed ≡ true → s.wg ≡ 0
    pub last : s.ended ≡ true → s.closed ≡ true
    pub found :
        (w : List ℕ → ℕ) → total w s.printed + total (left join query w) s.tasks ≡ total w all

  -- What a step leads to: a sound state with one step less to do.
  abbrev pub LeadsOn : List (List ℕ) → State → Outcome → Type 0
  LeadsOn all s blocked = Unit {0}
  LeadsOn all s panics = ⊥
  LeadsOn all s (went s') = IsSound all s' × (to_do s ≡ suc (to_do s'))
