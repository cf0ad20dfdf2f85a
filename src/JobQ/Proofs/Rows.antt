-- ===== src/JobQ/Proofs/Rows.antt =====
-- What one statement can do to one row.
use mathlib.Core.Option
use system_design_implementa.Prelude.{
  ℕ, ◌<◌, ◌≡◌, refl, Bool, true, false, not, Option, none, some, List, ◌&&◌, arith, ◌==◌, ==_iff,
  if◌then◌else◌, Bool-cases, Option-cases, inl, inr, String,
}
use system_design_implementa.Prelude.Int.{ℤ}
use system_design_implementa.JobQ.Job.{Job, dead, is_running, is_dead, is_pending}
use system_design_implementa.JobQ.Table.{Table, update, find, has_id}
use system_design_implementa.JobQ.Table.Laws.{
  IsUnique, find-update_any, find-append, find-id, update-IsUnique, append-IsUnique,
}
use system_design_implementa.JobQ.Store.Claim.{
  NewJob, new_row, is_claimable, first_by_order, claim_row,
}
use system_design_implementa.JobQ.Store.Finish.{
  is_leased, complete_row, bury_row, retry_row, holds_lease,
}
use system_design_implementa.JobQ.Store.Lease.{is_expired, reap_row, extend_row, owns_lease}
use system_design_implementa.JobQ.Store.Admin.{reset_row, is_dead_row}
use system_design_implementa.JobQ.Statement.{
  Statement, inserts, claims, completes, buries, retries, reaps, extends, kills, resets, exec,
  is_reset, is_kill,
}
use system_design_implementa.JobQ.Proofs.Claiming.{first_by_order_lem, find_of_mem, Firsts}

-- The life of a row: its edges, each with its guard.
pub data RowStep (resetting killing : Bool) (j k : Job) : Type 0 where
  same : k ≡ j → RowStep resetting killing j k
  claimed :
      (now : ℕ) (worker : String) (seconds : ℤ)
      → is_pending j.status ≡ true
      → j.attempts < j.max_attempts
      → k ≡ claim_row now worker seconds j
      → RowStep resetting killing j k
  completed :
      (now : ℕ) (token : ℤ)
      → is_leased token j ≡ true
      → k ≡ complete_row now j
      → RowStep resetting killing j k
  buried :
      (now : ℕ) (token : ℤ) (message : String)
      → is_leased token j ≡ true
      → k ≡ bury_row now message j
      → RowStep resetting killing j k
  retried :
      (now delay : ℕ) (token : ℤ) (message : String)
      → is_leased token j ≡ true
      → k ≡ retry_row now delay message j
      → RowStep resetting killing j k
  reaped :
      (now : ℕ) → is_running j.status ≡ true → k ≡ reap_row now j → RowStep resetting killing j k
  extended :
      (now : ℕ) (token seconds : ℤ)
      → is_leased token j ≡ true
      → k ≡ extend_row now seconds j
      → RowStep resetting killing j k
  killed : killing ≡ true → k ≡ record j { status = dead } → RowStep resetting killing j k
  reset :
      resetting ≡ true
      → (now : ℕ) → is_dead j.status ≡ true
      → k ≡ reset_row now j
      → RowStep resetting killing j k

-- A row stays under its key, and takes one step.
abbrev pub Steps : Bool → Bool → ℕ → Job → Table → Type 0
Steps resetting killing i j t = (k : Job) × (find i t ≡ some k) × RowStep resetting killing j k

module _ (p : Job → Bool) (f : Job → Job) (keeps : (j : Job) → (f j).id ≡ j.id) where
  update-Steps :
      (a b : Bool) (i : ℕ) (j : Job) (t : Table)
      → find i t ≡ some j
      → (p j ≡ true → RowStep a b j (f j))
      → Steps a b i j (update p f t)
  update-Steps a b i j t found step = elim (Bool-cases (p j)) [
    | inl e ↦ (f j, rw (find-update_any p f keeps i t, found, Option.map, e), step e)
    | inr e ↦ (j, rw (find-update_any p f keeps i t, found, Option.map, e), same refl)
  ]

inserts-Steps :
    (id now : ℕ) (d : NewJob) (t : Table) (i : ℕ) (j : Job)
    → find i t ≡ some j
    → Steps false false i j (exec (inserts id now d) t)
unfolding exec new_row
inserts-Steps id now d t i j found = elim (Option-cases (find id t)) [
  | inl free ↦ (j, rw (free, exec, find-append i t (new_row id now d) free) (other free), same refl)
  | inr (k, taken) ↦ (j, rw (taken, exec) found, same refl)
]
  where
    other : find id t ≡ none → (if i == id then some (new_row id now d) else find i t) ≡ some j
    other free = elim (Bool-cases (i == id)) [
      | inl e ↦ cc (free, found, (==_iff i id).0 e)
      | inr e ↦ rw (e, found)
    ]

claims-Steps :
    (locked : Job → Bool) (now : ℕ) (queues : List String) (worker : String) (seconds : ℤ)
    (t : Table) (i : ℕ) (j : Job)
    → IsUnique t
    → find i t ≡ some j
    → Steps false false i j (exec (claims locked now queues worker seconds) t)
unfolding exec
claims-Steps locked now queues worker seconds t i j u found =
    split (first_by_order p t) refl (first_by_order_lem p t)
  where
    p : Job → Bool
    p k = is_claimable queues now k && not (locked k)

    guards : (k : Job) → p k ≡ true → (is_pending k.status ≡ true) × (k.attempts < k.max_attempts)
    guards k e = ground arith

    step :
        (c : Job)
        → find c.id t ≡ some c
        → p c ≡ true
        → has_id c.id j ≡ true
        → RowStep false false j (claim_row now worker seconds j)
    step c at e own =
        let same_id : j.id ≡ c.id = (==_iff j.id c.id).0 own in
        let key : j.id ≡ i = find-id i t found in
        let row : c ≡ j = cc (at, found, same_id, key) in
        let g = guards j (rw row at e) in claimed now worker seconds g.0 g.1 refl

    split :
        (o : Option Job)
        → first_by_order p t ≡ o
        → Firsts p t o
        → Steps false false i j (exec (claims locked now queues worker seconds) t)
    split none e h = rw (e, exec) (j, found, same refl)
    split (some c) e h =
        rw (e, exec)
          (unfold claim_row in
            update-Steps (has_id c.id) (claim_row now worker seconds) (λ k. refl) false false i j t
              found (step c (find_of_mem t u h.0) h.1))

pub exec-Steps :
    (s : Statement) (t : Table) (i : ℕ) (j : Job)
    → IsUnique t
    → find i t ≡ some j
    → Steps (is_reset s) (is_kill s) i j (exec s t)
unfolding exec complete_row bury_row retry_row reap_row extend_row reset_row
exec-Steps (inserts id now d) t i j u found = inserts-Steps id now d t i j found
exec-Steps (claims locked now queues worker seconds) t i j u found =
    claims-Steps locked now queues worker seconds t i j u found
exec-Steps (completes now id token) t i j u found =
    update-Steps (holds_lease id token) (complete_row now) (λ k. refl) false false i j t found
      (λ e. completed now token (ground arith) refl)
exec-Steps (buries now id token message) t i j u found =
    update-Steps (holds_lease id token) (bury_row now message) (λ k. refl) false false i j t found
      (λ e. buried now token message (ground arith) refl)
exec-Steps (retries now id token delay message) t i j u found =
    update-Steps (holds_lease id token) (retry_row now delay message) (λ k. refl) false false i j t
      found (λ e. retried now delay token message (ground arith) refl)
exec-Steps (reaps now) t i j u found =
    update-Steps (is_expired now) (reap_row now) (λ k. refl) false false i j t found
      (λ e. reaped now (ground arith) refl)
exec-Steps (extends now id token seconds worker) t i j u found =
    update-Steps (owns_lease id token worker) (extend_row now seconds) (λ k. refl) false false i j t
      found (λ e. extended now token seconds (ground arith) refl)
exec-Steps (kills id) t i j u found =
    update-Steps (has_id id) (λ k. record k { status = dead }) (λ k. refl) false true i j t found
      (λ e. killed refl refl)
exec-Steps (resets now id) t i j u found =
    update-Steps (is_dead_row id) (reset_row now) (λ k. refl) true false i j t found
      (λ e. reset refl now (ground arith) refl)

-- No statement breaks the primary key.
pub exec-IsUnique : (s : Statement) (t : Table) → IsUnique t → IsUnique (exec s t)
unfolding exec new_row claim_row complete_row bury_row retry_row reap_row extend_row reset_row
exec-IsUnique (inserts id now d) t u = elim (Option-cases (find id t)) [
  | inl free ↦ rw (free, exec) (append-IsUnique t (new_row id now d) u free)
  | inr (k, taken) ↦ rw (taken, exec) u
]
exec-IsUnique (claims locked now queues worker seconds) t u =
    elim (Option-cases (first_by_order (λ j. is_claimable queues now j && not (locked j)) t)) [
      | inl e ↦ rw (e, exec) u
      | inr (c, e) ↦
          rw (e, exec)
            (update-IsUnique (has_id c.id) (claim_row now worker seconds) (λ k. refl) t u)
    ]
exec-IsUnique (completes now id token) t u =
    update-IsUnique (holds_lease id token) (complete_row now) (λ k. refl) t u
exec-IsUnique (buries now id token message) t u =
    update-IsUnique (holds_lease id token) (bury_row now message) (λ k. refl) t u
exec-IsUnique (retries now id token delay message) t u =
    update-IsUnique (holds_lease id token) (retry_row now delay message) (λ k. refl) t u
exec-IsUnique (reaps now) t u = update-IsUnique (is_expired now) (reap_row now) (λ k. refl) t u
exec-IsUnique (extends now id token seconds worker) t u =
    update-IsUnique (owns_lease id token worker) (extend_row now seconds) (λ k. refl) t u
exec-IsUnique (kills id) t u =
    update-IsUnique (has_id id) (λ k. record k { status = dead }) (λ k. refl) t u
exec-IsUnique (resets now id) t u = update-IsUnique (is_dead_row id) (reset_row now) (λ k. refl) t u
