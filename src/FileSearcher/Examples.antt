-- ===== src/FileSearcher/Examples.antt =====
-- The search for "ab" in a root folder with the files "cab" and "x" and a folder "d" with a file "ab".
use system_design_implementa.Prelude.{
  ℕ, ◌+◌, ◌≤◌, ◌≡◌, refl, true, false, List, [], ◌∷◌, ◌++◌, some, codes,
}
use system_design_implementa.Prelude.Runes.{contains}
use system_design_implementa.Prelude.Bags.{total}
use system_design_implementa.FileSearcher.{
  Dir, unreadable, dir, no_entry, file, folder, waiting, walking, State, panics, turn, Step,
  by_task, Run, here, next, start,
}
use system_design_implementa.FileSearcher.Invariant.{found_below, steps_below}
use system_design_implementa.FileSearcher.Progress.{CanGo}
use system_design_implementa.FileSearcher.Ends.{search_safe, search_terminates, search_completes}

abbrev join : List ℕ → List ℕ → List ℕ
join path name = path ++ b'/' ∷ name

abbrev query : List ℕ
query = codes "ab"

abbrev root : Dir
root = dir (
    file (codes "cab") (
      folder (codes "d") (dir (file (codes "ab") no_entry))
        (folder (codes "e") unreadable no_entry)))

found_test : found_below join query (codes ".") root ≡ codes "./cab" ∷ codes "./d/ab" ∷ []
unfolding found_below contains
found_test = refl

steps_test : steps_below root ≡ 13
unfolding steps_below
steps_test = refl

abbrev begun : State
begun = record {
  tasks = waiting (codes ".") root ∷ [];
  wg = 1;
  used = 0;
  printed = [];
  closed = false;
  ended = false;
}

begun_lem : start query (codes ".") root ≡ some begun
unfolding start
begun_lem = refl

abbrev looping : State
looping = record begun {
  tasks =
      walking (codes ".") (
        file (codes "cab") (
          folder (codes "d") (dir (file (codes "ab") no_entry))
            (folder (codes "e") unreadable no_entry)))
      ∷ [];
  used = 1;
}

abbrev sent : State
sent = record looping {
  tasks =
      walking (codes ".") (
        folder (codes "d") (dir (file (codes "ab") no_entry))
          (folder (codes "e") unreadable no_entry))
      ∷ [];
  printed = codes "./cab" ∷ [];
}

run : Run join query begun 2 sent
unfolding turn contains
run = next sent (next looping here (by_task [] [] (waiting (codes ".") root) refl refl)) (
    by_task [] []
      (walking (codes ".") (
        file (codes "cab") (
          folder (codes "d") (dir (file (codes "ab") no_entry))
            (folder (codes "e") unreadable no_entry))))
      refl refl)

search_safe_example :
    (sent.used ≤ 100)
    × ¬ Step join query sent panics
    × ((w : List ℕ → ℕ)
        → total w (sent.printed) ≤ total w (found_below join query (codes ".") root))
search_safe_example = search_safe join query (codes ".") root begun sent 2 begun_lem run

search_terminates_example :
    (2 ≤ steps_below root + 2)
    × (¬ CanGo join query sent → (2 ≡ steps_below root + 2) × (sent.ended ≡ true))
search_terminates_example = search_terminates join query (codes ".") root begun sent 2 begun_lem run

search_completes_example :
    ((m : ℕ) × (u : State) × Run join query sent m u × (u.ended ≡ true))
    × (sent.ended ≡ true
        → (w : List ℕ → ℕ)
        → total w (sent.printed) ≡ total w (found_below join query (codes ".") root))
search_completes_example = search_completes join query (codes ".") root begun sent 2 begun_lem run
