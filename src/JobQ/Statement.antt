-- ===== src/JobQ/Statement.antt =====
-- The writes of jobq/src/internal/storage as single statements: any interleaving of the methods of
-- any number of servers and workers is a list of these, since each statement is atomic. The check
-- of MarkFailure only reads, so its write stands here alone.
use system_design_implementa.Prelude.{
  ℕ, Bool, true, false, none, some, List, [], ◌∷◌, ◌++◌, ◌&&◌, String, not,
}
use system_design_implementa.Prelude.Int.{ℤ}
use system_design_implementa.JobQ.Job.{Job, dead}
use system_design_implementa.JobQ.Table.{Table, update, find, has_id}
use system_design_implementa.JobQ.Store.Claim.{
  NewJob, new_row, is_claimable, first_by_order, claim_row,
}
use system_design_implementa.JobQ.Store.Finish.{holds_lease, complete_row, bury_row, retry_row}
use system_design_implementa.JobQ.Store.Lease.{is_expired, reap_row, owns_lease, extend_row}
use system_design_implementa.JobQ.Store.Admin.{is_dead_row, reset_row}

pub data Statement : Type 0 where
  inserts : ℕ → ℕ → NewJob → Statement
  claims : (Job → Bool) → ℕ → List String → String → ℤ → Statement
  completes : ℕ → ℕ → ℤ → Statement
  buries : ℕ → ℕ → ℤ → String → Statement
  retries : ℕ → ℕ → ℤ → ℕ → String → Statement
  reaps : ℕ → Statement
  extends : ℕ → ℕ → ℤ → ℤ → String → Statement
  kills : ℕ → Statement
  resets : ℕ → ℕ → Statement

-- An INSERT under a key that exists fails. The database draws a fresh uuid.
unfoldable pub exec : Statement → Table → Table
exec (inserts id now d) t = elim (find id t) [ none ↦ t ++ new_row id now d ∷ [] | some _ ↦ t ]
exec (claims locked now queues worker seconds) t =
    elim (first_by_order (λ j. is_claimable queues now j && not (locked j)) t) [
      | none ↦ t
      | some j ↦ update (has_id j.id) (claim_row now worker seconds) t
    ]
exec (completes now id token) t = update (holds_lease id token) (complete_row now) t
exec (buries now id token message) t = update (holds_lease id token) (bury_row now message) t
exec (retries now id token delay message) t =
    update (holds_lease id token) (retry_row now delay message) t
exec (reaps now) t = update (is_expired now) (reap_row now) t
exec (extends now id token seconds worker) t =
    update (owns_lease id token worker) (extend_row now seconds) t
exec (kills id) t = update (has_id id) (λ j. record j { status = dead }) t
exec (resets now id) t = update (is_dead_row id) (reset_row now) t

unfoldable pub run : List Statement → Table → Table
run [] t = t
run (s ∷ ss) t = run ss (exec s t)

-- The two statements of an operator, by their kind.
abbrev pub is_reset : Statement → Bool
is_reset (resets now id) = true
is_reset _ = false

abbrev pub is_kill : Statement → Bool
is_kill (kills id) = true
is_kill _ = false
