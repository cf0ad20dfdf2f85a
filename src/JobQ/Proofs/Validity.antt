-- ===== src/JobQ/Proofs/Validity.antt =====
-- The invariant of the whole table.
use system_design_implementa.Prelude.{
  ℕ, ◌≡◌, refl, Bool, not, none, some, List, [], ◌∷◌, ◌&&◌, ◌==◌, if◌then◌else◌, Bool-cases,
  Option-cases, inl, inr,
}
use system_design_implementa.JobQ.Job.{Job, dead}
use system_design_implementa.JobQ.Table.{Table, find, has_id, update, select}
use system_design_implementa.JobQ.Table.Laws.{IsUnique, find-update_any, find-append}
use system_design_implementa.JobQ.Store.Claim.{
  new_row, NewJob, claim_row, is_claimable, first_by_order,
}
use system_design_implementa.JobQ.Store.Finish.{complete_row, bury_row, retry_row, holds_lease}
use system_design_implementa.JobQ.Store.Lease.{reap_row, extend_row, is_expired, owns_lease}
use system_design_implementa.JobQ.Store.Admin.{reset_row, is_dead_row}
use system_design_implementa.JobQ.Statement.{
  Statement, inserts, claims, completes, buries, retries, reaps, extends, kills, resets, exec, run,
}
use system_design_implementa.JobQ.Proofs.Rows.{exec-Steps, exec-IsUnique}
use system_design_implementa.JobQ.Proofs.Histories.{
  RowIsValid, new_row-RowIsValid, RowStep-RowIsValid,
}

pub record IsValid (t : Table) : Type 0 where
  pub unique : IsUnique t
  pub valid : (i : ℕ) (j : Job) → find i t ≡ some j → RowIsValid j

-- A key that was absent holds nothing, or a new row.
data Appears (i : ℕ) (t : Table) : Type 0 where
  stays_absent : find i t ≡ none → Appears i t
  arrives : (id now : ℕ) (d : NewJob) → find i t ≡ some (new_row id now d) → Appears i t

update-Appears :
    (p : Job → Bool) (f : Job → Job) (keeps : (j : Job) → (f j).id ≡ j.id) (i : ℕ) (t : Table)
    → find i t ≡ none
    → Appears i (update p f t)
update-Appears p f keeps i t absent = stays_absent (rw (find-update_any p f keeps i t, absent))

inserts-Appears :
    (id now : ℕ) (d : NewJob) (i : ℕ) (t : Table)
    → find i t ≡ none
    → Appears i (exec (inserts id now d) t)
inserts-Appears id now d i t absent = elim (Option-cases (find id t)) [
  | inr (k, taken) ↦ stays_absent (unfold exec in rw (taken, exec) absent)
  | inl free ↦ elim (Bool-cases (i == id)) [
    | inl e ↦ arrives id now d (rw (placed free, e))
    | inr e ↦ stays_absent (rw (placed free, e) absent)
  ]
]
  where
    placed :
        find id t ≡ none
        → find i (exec (inserts id now d) t)
          ≡ (if i == id then some (new_row id now d) else find i t)
    placed free = unfold exec new_row in rw (free, exec) (find-append i t (new_row id now d) free)

exec-Appears : (s : Statement) (i : ℕ) (t : Table) → find i t ≡ none → Appears i (exec s t)
unfolding exec claim_row complete_row bury_row retry_row reap_row extend_row reset_row
exec-Appears (inserts id now d) i t h = inserts-Appears id now d i t h
exec-Appears (claims locked now queues worker seconds) i t h =
    elim (Option-cases (first_by_order (λ j. is_claimable queues now j && not (locked j)) t)) [
      | inl e ↦ rw (e, exec) (stays_absent h)
      | inr (c, e) ↦
          rw (e, exec)
            (update-Appears (has_id c.id) (claim_row now worker seconds) (λ k. refl) i t h)
    ]
exec-Appears (completes now id token) i t h =
    update-Appears (holds_lease id token) (complete_row now) (λ k. refl) i t h
exec-Appears (buries now id token message) i t h =
    update-Appears (holds_lease id token) (bury_row now message) (λ k. refl) i t h
exec-Appears (retries now id token delay message) i t h =
    update-Appears (holds_lease id token) (retry_row now delay message) (λ k. refl) i t h
exec-Appears (reaps now) i t h = update-Appears (is_expired now) (reap_row now) (λ k. refl) i t h
exec-Appears (extends now id token seconds worker) i t h =
    update-Appears (owns_lease id token worker) (extend_row now seconds) (λ k. refl) i t h
exec-Appears (kills id) i t h =
    update-Appears (has_id id) (λ k. record k { status = dead }) (λ k. refl) i t h
exec-Appears (resets now id) i t h =
    update-Appears (is_dead_row id) (reset_row now) (λ k. refl) i t h

appeared-RowIsValid : (i : ℕ) (t : Table) (k : Job) → Appears i t → find i t ≡ some k → RowIsValid k
appeared-RowIsValid i t k (stays_absent e) found = cc
appeared-RowIsValid i t k (arrives id now d e) found =
    let same : k ≡ new_row id now d = cc in rw same (new_row-RowIsValid id now d)

-- Every statement keeps the invariant: keys are unique; attempts stay within a positive bound; a
-- running row has an attempt, a token, a lease and its owner; a pending row has no lease.
pub exec-IsValid : (s : Statement) (t : Table) → IsValid t → IsValid (exec s t)
exec-IsValid s t v = record { unique = exec-IsUnique s t v.unique; valid = rows }
  where
    rows : (i : ℕ) (k : Job) → find i (exec s t) ≡ some k → RowIsValid k
    rows i k found = elim (Option-cases (find i t)) [
      | inl absent ↦ appeared-RowIsValid i (exec s t) k (exec-Appears s i t absent) found
      | inr (j, was) ↦
          let (l, at, step) = exec-Steps s t i j v.unique was in
          let same : k ≡ l = cc (found, at) in
          rw same (RowStep-RowIsValid _ _ j l step (v.valid i j was))
    ]

pub run-IsValid : (ss : List Statement) (t : Table) → IsValid t → IsValid (run ss t)
unfolding run
run-IsValid [] t v = v
run-IsValid (s ∷ ss) t v = run-IsValid ss (exec s t) (exec-IsValid s t v)

-- After any history of statements on an empty table, the invariant holds.
pub run_empty-IsValid : (ss : List Statement) → IsValid (run ss [])
run_empty-IsValid ss = run-IsValid ss [] (record { unique = tt; valid = λ i j e. nothing i j e })
  where
    nothing : (i : ℕ) (j : Job) → find i [] ≡ some j → RowIsValid j
    nothing i j e = unfold select in cc
