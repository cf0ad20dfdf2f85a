-- ===== src/JobQ/Proofs/Effects.antt =====
-- Each method of the store against a specification on single rows: the table is a partial function
-- from keys to rows, a call changes its value at one key, and the error depends on that value.
use system_design_implementa.Prelude.{
  ℕ, ◌+◌, ◌≡◌, refl, Bool, true, false, Option, none, some, ◌&&◌, ◌||◌, arith, ◌==◌, ==_iff,
  if◌then◌else◌, Bool-cases, Option-cases, inl, inr, String, leb,
}
use system_design_implementa.Prelude.Int.{ℤ, pos}
use system_design_implementa.JobQ.Job.{
  Job, pending, completed, dead, is_dead, Result, ok, err, stale_lease_token, job_not_found,
  job_not_dead, StoreError,
}
use system_design_implementa.JobQ.Table.{Table, update, find, alone}
use system_design_implementa.JobQ.Table.Laws.{
  IsUnique, keyed, find-update, affected-keyed, select-keyed,
}
use system_design_implementa.JobQ.Config.{Config}
use system_design_implementa.JobQ.Backoff.{compute_backoff}
use system_design_implementa.JobQ.Store.Finish.{
  is_leased, mark_complete, complete_row, mark_failure, bury_row, retry_row,
}
use system_design_implementa.JobQ.Store.Lease.{extend_lease, extend_row, is_owner}
use system_design_implementa.JobQ.Store.Admin.{reset_dead_job, reset_row}

-- The call succeeds and puts `row` at `id`, or fails with `e` and changes nothing.
pub data Outcome : Type 0 where
  writes : Job → Outcome
  fails : StoreError → Outcome

-- A call that meets the specified outcome at a table.
abbrev pub Meets : Outcome → ℕ → Table → Table × Result (Unit {0}) → Type 0
Meets (writes row) id t r =
    (r.1 ≡ ok tt) × ((i : ℕ) → find i r.0 ≡ (if i == id then some row else find i t))
Meets (fails e) id t r = r ≡ (t, err e)

-- The specification of a write that is conditional on the row.
abbrev pub outcome : (Job → Bool) → (Job → Job) → StoreError → Option Job → Outcome
outcome q f e none = fails job_not_found
outcome q f e (some j) = if q j then writes (f j) else fails e

-- `g j` is the write that a call which has read the row `j` makes.
module _ (q : Job → Bool) (g : Job → Job → Job) (keeps : (k j : Job) → (g k j).id ≡ j.id)
    (e : StoreError) (id : ℕ) (t : Table) where
  -- The shape that the methods share: an UPDATE by key, and a SELECT when it touched nothing.
  keyed_write :
      (r : Table × Result (Unit {0}))
      → ((j : Job) → find id t ≡ some j → q j ≡ true → r ≡ (update (keyed id q) (g j) t, ok tt))
      → ((j : Job) → find id t ≡ some j → q j ≡ false → r ≡ (t, err e))
      → (find id t ≡ none → r ≡ (t, err job_not_found))
      → Meets (outcome q (λ j. g j j) e (find id t)) id t r
  keyed_write r hit miss gone = elim (Option-cases (find id t)) [
    | inl absent ↦ rw absent (gone absent)
    | inr (j, found) ↦ elim (Bool-cases (q j)) [
      | inl held ↦ rw (found, held, hit j found held) (refl, λ i. at i j found held)
      | inr free ↦ rw (found, free) (miss j found free)
    ]
  ]
    where
      at :
          (i : ℕ) (j : Job)
          → find id t ≡ some j
          → q j ≡ true
          → find i (update (keyed id q) (g j) t) ≡ (if i == id then some (g j j) else find i t)
      at i j found held = elim (Bool-cases (i == id)) [
        | inl same ↦
            rw (find-update q (g j) (keeps j) i id t, same, (==_iff i id).0 same, found)
              (ground arith)
        | inr other ↦ rw (find-update q (g j) (keeps j) i id t, other)
      ]

-- MarkComplete, met by no fault in a table with unique keys: the row whose running lease carries
-- the token becomes completed at that time, with no deadline and all else as it was; another row under that key is refused as stale, a missing one as not
-- found, and no other row changes.
pub mark_complete_correct :
    (now id : ℕ) (token : ℤ) (t : Table)
    → IsUnique t
    → Meets
        (outcome
          (is_leased token)
          (λ j. record j { status = completed; lease_until = none; updated_at = now })
          stale_lease_token
          (find id t))
        id
        t
        (mark_complete alone now id token t)
unfolding mark_complete complete_row
mark_complete_correct now id token t u =
    let n = affected-keyed id (is_leased token) t u in
    keyed_write (is_leased token)
      (λ k j. record j { status = completed; lease_until = none; updated_at = now }) (λ k j. refl)
      stale_lease_token id t _ (λ j found held. ground arith) (λ j found free. ground arith)
      (λ absent. ground arith)

-- ExtendLease, met by no fault in a table with unique keys: the row whose running lease carries the
-- token and the worker gets the new deadline; another row under that key is refused as stale, a
-- missing one as not found, and no other row changes.
pub extend_lease_correct :
    (now id : ℕ) (token seconds : ℤ) (worker : String) (t : Table)
    → IsUnique t
    → Meets
        (outcome
          (λ j. is_leased token j && is_owner worker j.lease_owner)
          (extend_row now seconds)
          stale_lease_token
          (find id t))
        id
        t
        (extend_lease alone now id token seconds worker t)
unfolding extend_lease
extend_lease_correct now id token seconds worker t u =
    let q = λ (j : Job). is_leased token j && is_owner worker j.lease_owner in
    let n = affected-keyed id q t u in
    keyed_write q (λ k. extend_row now seconds) (λ k j. refl) stale_lease_token id t _
      (λ j found held. ground arith) (λ j found free. ground arith) (λ absent. ground arith)

-- ResetDeadJob, met by no fault in a table with unique keys: a dead row starts again with no
-- attempts, no lease and token 0; another row under that key is refused as not dead, a missing one
-- as not found, and no other row changes.
pub reset_dead_job_correct :
    (now id : ℕ) (t : Table)
    → IsUnique t
    → Meets
        (outcome (λ j. is_dead j.status) (reset_row now) job_not_dead (find id t))
        id
        t
        (reset_dead_job alone now id t)
unfolding reset_dead_job
reset_dead_job_correct now id t u =
    let q = λ (j : Job). is_dead j.status in
    let n = affected-keyed id q t u in
    keyed_write q (λ k. reset_row now) (λ k j. refl) job_not_dead id t _
      (λ j found held. ground arith) (λ j found free. ground arith) (λ absent. ground arith)

-- A row that is dead of an error since `now`, with no owner and no deadline.
abbrev pub dead_of : ℕ → String → Job → Job
dead_of now message j = record j {
  status = dead;
  last_error = some message;
  lease_owner = none;
  lease_until = none;
  updated_at = now;
}

-- A row that waits for another attempt, which may begin `delay` after `now`.
abbrev pub waiting_for : ℕ → ℕ → String → Job → Job
waiting_for now delay message j = record j {
  status = pending;
  run_at = now + delay;
  last_error = some message;
  lease_owner = none;
  lease_until = none;
  updated_at = now;
}

-- A failure of a row whose attempts are `read`.
abbrev pub failure_write : ℕ → String → Bool → ℕ → Job → Job → Job
failure_write now message permanent delay read =
    if permanent || leb read.max_attempts read.attempts
    then dead_of now message
    else waiting_for now delay message

failure_write-id :
    (now : ℕ) (message : String) (permanent : Bool) (delay : ℕ) (k j : Job)
    → (failure_write now message permanent delay k j).id ≡ j.id
failure_write-id now message permanent delay k j =
    elim (Bool-cases (permanent || leb k.max_attempts k.attempts)) [ inl e ↦ rw e | inr e ↦ rw e ]

module _ (draw : ℕ → ℕ) (cfg : Config) (now id : ℕ) (token : ℤ) (message : String)
    (permanent : Bool) (t : Table) (unique : IsUnique t) (delay : Job → ℕ)
    (drawn : (j : Job)
      → compute_backoff draw (pos j.attempts) (pos 0) (pos 0) (some cfg) ≡ some (delay j)) where
  -- MarkFailure, met by no fault in a table with unique keys and with a backoff that is computed:
  -- the row whose running lease carries the token becomes dead when the failure is permanent or the
  -- attempts are used up, and else becomes pending, to run when the delay is over; either way it
  -- keeps the error text and loses its owner and its deadline. Another row is refused as stale, a missing one as not found, and no other row changes.
  pub mark_failure_correct :
      Meets
        (outcome
          (is_leased token)
          (λ j. failure_write now message permanent (delay j) j j)
          stale_lease_token
          (find id t))
        id
        t
        (mark_failure alone draw cfg now id token message permanent t)
  unfolding mark_failure bury_row retry_row
  mark_failure_correct =
      let q = is_leased token in
      let n = affected-keyed id q t unique in
      let sel = select-keyed id q t unique in
      keyed_write q (λ k. failure_write now message permanent (delay k) k)
        (λ k j. failure_write-id now message permanent (delay k) k j) stale_lease_token id t _
        (λ j found held. ground (arith, drawn j)) (λ j found free. ground arith)
        (λ absent. ground arith)

-- MarkFailure of a permanent failure, met by no fault in a table with unique keys, needs no
-- backoff: the row whose running lease carries the token is buried as dead; another row under that
-- key is refused as stale, a missing one as not found, and no other row changes.
pub mark_failure-permanent :
    (draw : ℕ → ℕ) (cfg : Config) (now id : ℕ) (token : ℤ) (message : String) (t : Table)
    → IsUnique t
    → Meets
        (outcome (is_leased token) (dead_of now message) stale_lease_token (find id t))
        id
        t
        (mark_failure alone draw cfg now id token message true t)
unfolding mark_failure bury_row
mark_failure-permanent draw cfg now id token message t u =
    let q = is_leased token in
    let n = affected-keyed id q t u in
    let sel = select-keyed id q t u in
    keyed_write q (λ k. dead_of now message) (λ k j. refl) stale_lease_token id t _
      (λ j found held. ground arith) (λ j found free. ground arith) (λ absent. ground arith)
