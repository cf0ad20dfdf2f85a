-- ===== src/FileSearcher.antt =====
-- concurrent_file_searcher/cmd/api/main.go: goroutines that search a tree of folders, one step of one
-- goroutine at a time. A name and a path are their runes; filepath.Join is a parameter.
pub mod Invariant
pub mod Steps
pub mod Runs
pub mod Progress
pub mod Ends
pub mod Examples
use system_design_implementa.Prelude.{
  ℕ, suc, ◌+◌, ◌-◌, ◌≡◌, Bool, true, false, List, [], ◌∷◌, ◌++◌, Option, none, some, if◌then◌else◌,
  ltb, ◌==◌,
}
use system_design_implementa.Prelude.Runes.{contains}

-- What os.ReadDir finds: an error, or the entries.
mutual
  pub data Dir : Type 0 where
    unreadable : Dir
    dir : Entries → Dir

  pub data Entries : Type 0 where
    no_entry : Entries
    file : List ℕ → Entries → Entries
    folder : List ℕ → Dir → Entries → Entries

-- A goroutine of searchDir: before it has a slot, in its loop with the entries that are left, and after
-- the release of its slot.
pub data Task : Type 0 where
  waiting : List ℕ → Dir → Task
  walking : List ℕ → Entries → Task
  released : Task

-- The goroutines, the counter of the WaitGroup, the slots that are taken, what main has printed,
-- whether results is closed and whether main has left its loop.
pub record State : Type 0 where
  pub tasks : List Task
  pub wg : ℕ
  pub used : ℕ
  pub printed : List (List ℕ)
  pub closed : Bool
  pub ended : Bool

pub data Outcome : Type 0 where
  blocked : Outcome
  panics : Outcome
  went : State → Outcome

abbrev pub entries_of : Dir → Entries
entries_of unreadable = no_entry
entries_of (dir es) = es

-- The goroutine that waits for the others and closes results, and the end of main's loop.
unfoldable pub closer : State → Outcome
closer s =
    if s.closed then blocked else if s.wg == 0 then went (record s { closed = true }) else blocked

unfoldable pub main_loop : State → Outcome
main_loop s =
    if s.ended then blocked else if s.closed then went (record s { ended = true }) else blocked

module _ (join : List ℕ → List ℕ → List ℕ) (query : List ℕ) where
  -- A step of searchDir in the goroutine between the others. results has no buffer: a send is done when
  -- main receives, and main does nothing else.
  unfoldable pub turn : List Task → Task → List Task → State → Outcome
  unfolding contains
  turn before (waiting path d) after s =
      if ltb s.used 100
      then went
          (record s { tasks = before ++ walking path (entries_of d) ∷ after; used = s.used + 1 })
      else blocked
  turn before (walking path no_entry) after s =
      went (record s { tasks = before ++ released ∷ after; used = s.used - 1 })
  turn before (walking path (folder name d es)) after s = went (record s {
    tasks = before ++ walking path es ∷ waiting (join path name) d ∷ after;
    wg = s.wg + 1;
  })
  turn before (walking path (file name es)) after s =
      let s' = record s { tasks = before ++ walking path es ∷ after } in
      if contains query name
      then (if s.closed
          then panics
          else went (record s' { printed = s.printed ++ join path name ∷ [] }))
      else went s'
  turn before released after s =
      if s.wg == 0 then panics else went (record s { tasks = before ++ after; wg = s.wg - 1 })

  -- A step of any of the goroutines.
  pub data Step (s : State) (o : Outcome) : Type 0 where
    by_task :
        (before after : List Task) (t : Task)
        → s.tasks ≡ before ++ t ∷ after
        → turn before t after s ≡ o
        → Step s o
    by_closer : closer s ≡ o → Step s o
    by_main : main_loop s ≡ o → Step s o

  -- A run of a number of steps.
  pub data Run (s : State) : ℕ → State → Type 0 where
    here : Run s 0 s
    next : {n : ℕ} {t : State} (u : State) → Run s n t → Step t (went u) → Run s (suc n) u

-- main up to its loop; none is the error for a query that is missing.
unfoldable pub start : List ℕ → List ℕ → Dir → Option State
start [] path root = none
start (c ∷ query) path root = some (record {
  tasks = waiting path root ∷ [];
  wg = 1;
  used = 0;
  printed = [];
  closed = false;
  ended = false;
})
