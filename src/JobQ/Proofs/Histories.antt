-- ===== src/JobQ/Proofs/Histories.antt =====
-- What holds of a row over every history of statements.
use system_design_implementa.Prelude.{
  ℕ, ◌≤◌, ◌≡◌, refl, Bool, true, false, Option, none, some, List, [], ◌∷◌, arith, All, String,
}
use system_design_implementa.JobQ.Job.{Job, is_running, is_pending}
use system_design_implementa.JobQ.Table.{Table, find, alone}
use system_design_implementa.JobQ.Table.Laws.{IsUnique, update-IsUnique, find-update_any}
use system_design_implementa.JobQ.Store.Claim.{new_row, NewJob, claim_row, is_claimable}
use system_design_implementa.JobQ.Store.Finish.{complete_row, bury_row, retry_row}
use system_design_implementa.JobQ.Store.Lease.{
  reap_row, extend_row, is_expired, reap_expired_leases,
}
use system_design_implementa.JobQ.Store.Admin.{reset_row}
use system_design_implementa.JobQ.Statement.{Statement, exec, run, is_reset, is_kill}
use system_design_implementa.JobQ.Proofs.Rows.{
  RowStep, same, claimed, completed, buried, retried, reaped, extended, killed, reset, exec-Steps,
  exec-IsUnique,
}

RowStep-token : (b : Bool) (j k : Job) → RowStep false b j k → j.lease_token ≤ k.lease_token
unfolding claim_row complete_row bury_row retry_row reap_row extend_row reset_row
RowStep-token b j k (same e) = rw e (omega arith)
RowStep-token b j k (claimed now w s p l e) = rw e (omega arith)
RowStep-token b j k (completed now n l e) = rw e (omega arith)
RowStep-token b j k (buried now n m l e) = rw e (omega arith)
RowStep-token b j k (retried now d n m l e) = rw e (omega arith)
RowStep-token b j k (reaped now l e) = rw e (omega arith)
RowStep-token b j k (extended now n s l e) = rw e (omega arith)
RowStep-token b j k (killed c e) = rw e (omega arith)
RowStep-token b j k (reset c now l e) = cc

-- No history without a reset takes the token of a row back, or loses the row.
pub run-token :
    (ss : List Statement) (t : Table) (i : ℕ) (j : Job)
    → IsUnique t
    → All (λ s. is_reset s ≡ false) ss
    → find i t ≡ some j
    → (k : Job) × (find i (run ss t) ≡ some k) × (j.lease_token ≤ k.lease_token)
unfolding run
run-token [] t i j u a found = (j, found, omega arith)
run-token (s ∷ ss) t i j u a found =
    let (k, at, step) = exec-Steps s t i j u found in
    let (l, final, le) = run-token ss (exec s t) i k (exec-IsUnique s t u) a.1 at in
    let step' : RowStep false (is_kill s) j k = rw a.0 at step in
    (l, final, omega (arith, RowStep-token (is_kill s) j k step'))

pub run-IsUnique : (ss : List Statement) (t : Table) → IsUnique t → IsUnique (run ss t)
unfolding run
run-IsUnique [] t u = u
run-IsUnique (s ∷ ss) t u = run-IsUnique ss (exec s t) (exec-IsUnique s t u)

abbrev pub IsSome : {A : Type 0} → Option A → Type 0
IsSome none = ⊥
IsSome (some a) = Unit

-- A pending row whose attempts are used up.
abbrev pub IsStranded : Job → Type 0
IsStranded j = (is_pending j.status ≡ true) × (j.max_attempts ≤ j.attempts)

RowStep-stranded : (a : Bool) (j k : Job) → RowStep a false j k → IsStranded j → k ≡ j
RowStep-stranded a j k (same e) h = e
RowStep-stranded a j k (claimed now w s p l e) h = absurd (omega arith)
RowStep-stranded a j k (completed now n l e) h = ground arith
RowStep-stranded a j k (buried now n m l e) h = ground arith
RowStep-stranded a j k (retried now d n m l e) h = ground arith
RowStep-stranded a j k (reaped now l e) h = ground arith
RowStep-stranded a j k (extended now n s l e) h = ground arith
RowStep-stranded a j k (killed c e) h = cc
RowStep-stranded a j k (reset c now l e) h = ground arith

-- In a table with unique keys, a pending row whose attempts are used up stays as it is under every
-- history of statements in which nothing calls MarkDead, and it is claimable at no time for no
-- queues.
pub stranded_forever :
    (ss : List Statement) (t : Table) (i : ℕ) (j : Job)
    → IsUnique t
    → All (λ s. is_kill s ≡ false) ss
    → find i t ≡ some j
    → IsStranded j
    → (find i (run ss t) ≡ some j)
      × ((queues : List String) (now : ℕ) → is_claimable queues now j ≡ false)
unfolding run
stranded_forever [] t i j u a found h = (found, λ queues now. ground arith)
stranded_forever (s ∷ ss) t i j u a found h =
    let (k, at, step) = exec-Steps s t i j u found in
    let step' : RowStep (is_reset s) false j k = rw a.0 at step in
    let kept : k ≡ j = RowStep-stranded (is_reset s) j k step' h in
    stranded_forever ss (exec s t) i j (exec-IsUnique s t u) a.1 (rw kept at at) h

-- When the reaper, met by no fault in a table with unique keys, finds a running row whose lease has
-- run out and whose attempts are all used up, the row becomes pending and then keeps that state
-- under every history of statements in which nothing calls MarkDead.
pub reap_strands :
    (now : ℕ) (ss : List Statement) (t : Table) (i : ℕ) (j : Job)
    → IsUnique t
    → All (λ s. is_kill s ≡ false) ss
    → find i t ≡ some j
    → is_expired now j ≡ true
    → j.attempts ≡ j.max_attempts
    → find i (run ss (reap_expired_leases alone now t).0) ≡ some (reap_row now j)
unfolding reap_expired_leases reap_row
reap_strands now ss t i j u a found expired used =
    (stranded_forever ss (reap_expired_leases alone now t).0 i (reap_row now j)
      (update-IsUnique (is_expired now) (reap_row now) (λ k. refl) t u) a
      (rw (find-update_any (is_expired now) (reap_row now) (λ k. refl) i t, found, expired))
      (refl, omega arith)).0

-- What the columns of a row promise one another.
pub record RowIsValid (j : Job) : Type 0 where
  pub room : 1 ≤ j.max_attempts
  pub attempted : j.attempts ≤ j.max_attempts
  pub leased :
      is_running j.status ≡ true
      → (1 ≤ j.attempts) × (1 ≤ j.lease_token) × IsSome j.lease_until × IsSome j.lease_owner
  pub free : is_pending j.status ≡ true → (j.lease_until ≡ none) × (j.lease_owner ≡ none)

pub new_row-RowIsValid : (id now : ℕ) (d : NewJob) → RowIsValid (new_row id now d)
unfolding new_row
new_row-RowIsValid id now d = ground arith

pub RowStep-RowIsValid : (a b : Bool) (j k : Job) → RowStep a b j k → RowIsValid j → RowIsValid k
unfolding claim_row complete_row bury_row retry_row reap_row extend_row reset_row
RowStep-RowIsValid a b j k (same e) v = rw e v
RowStep-RowIsValid a b j k (claimed now w s p l e) v = rw e (ground arith)
RowStep-RowIsValid a b j k (completed now n l e) v = rw e (ground arith)
RowStep-RowIsValid a b j k (buried now n m l e) v = rw e (ground arith)
RowStep-RowIsValid a b j k (retried now d n m l e) v = rw e (ground arith)
RowStep-RowIsValid a b j k (reaped now l e) v = rw e (ground arith)
RowStep-RowIsValid a b j k (extended now n s l e) v = rw e (ground arith)
RowStep-RowIsValid a b j k (killed c e) v = rw e (ground arith)
RowStep-RowIsValid a b j k (reset c now l e) v = rw e (ground arith)
