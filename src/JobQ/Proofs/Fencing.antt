-- ===== src/JobQ/Proofs/Fencing.antt =====
-- Fencing tokens: who may finish a job.
use system_design_implementa.Prelude.{
  ℕ, ◌+◌, ◌<◌, ◌≡◌, refl, ap, Bool, true, false, some, List, ◌&&◌, arith, All, String,
}
use system_design_implementa.Prelude.Int.{ℤ, pos}
use system_design_implementa.JobQ.Job.{
  Job, Result, ok, err, stale_lease_token, is_dead, is_running, job_not_dead,
}
use system_design_implementa.JobQ.Table.{Table, find, alone}
use system_design_implementa.JobQ.Table.Laws.{
  IsUnique, update-IsUnique, affected-keyed, select-keyed,
}
use system_design_implementa.JobQ.Config.{Config}
use system_design_implementa.JobQ.Store.Claim.{claim_pending_job, claim_row}
use system_design_implementa.JobQ.Store.Finish.{mark_complete, mark_failure, is_leased}
use system_design_implementa.JobQ.Store.Lease.{extend_lease, is_owner}
use system_design_implementa.JobQ.Store.Admin.{reset_dead_job, reset_row, is_dead_row}
use system_design_implementa.JobQ.Statement.{Statement, claims, exec, run, is_reset}
use system_design_implementa.JobQ.Proofs.Claiming.{Claims, takes, idles, claim_correct, find_of_mem}
use system_design_implementa.JobQ.Proofs.Effects.{outcome, writes, reset_dead_job_correct}
use system_design_implementa.JobQ.Proofs.Rows.{exec-IsUnique}
use system_design_implementa.JobQ.Proofs.Histories.{run-token, run-IsUnique}

-- A worker's token is refused by all three calls, and nothing changes.
pub record IsFencedOff (id n : ℕ) (t : Table) : Type 0 where
  pub ack : (now : ℕ) → mark_complete alone now id (pos n) t ≡ (t, err stale_lease_token)
  pub nack :
      (draw : ℕ → ℕ) (cfg : Config) (now : ℕ) (message : String) (permanent : Bool)
      → mark_failure alone draw cfg now id (pos n) message permanent t ≡ (t, err stale_lease_token)
  pub heartbeat :
      (now : ℕ) (seconds : ℤ) (worker : String)
      → extend_lease alone now id (pos n) seconds worker t ≡ (t, err stale_lease_token)

-- A token below that of the row is fenced off.
below-IsFencedOff :
    (id n : ℕ) (t : Table) (j : Job)
    → IsUnique t
    → find id t ≡ some j
    → n < j.lease_token
    → IsFencedOff id n t
below-IsFencedOff id n t j u found lt = record {
  ack = λ now. ack now;
  nack = λ draw cfg now message permanent. nack draw cfg now message permanent;
  heartbeat = λ now seconds worker. beat now seconds worker;
}
  where
    ack : (now : ℕ) → mark_complete alone now id (pos n) t ≡ (t, err stale_lease_token)
    ack now = unfold mark_complete in ground (arith, affected-keyed id (is_leased (pos n)) t u)

    nack :
        (draw : ℕ → ℕ) (cfg : Config) (now : ℕ) (message : String) (permanent : Bool)
        → mark_failure alone draw cfg now id (pos n) message permanent t
          ≡ (t, err stale_lease_token)
    nack draw cfg now message permanent =
        unfold mark_failure in ground (arith, select-keyed id (is_leased (pos n)) t u)

    beat :
        (now : ℕ) (seconds : ℤ) (worker : String)
        → extend_lease alone now id (pos n) seconds worker t ≡ (t, err stale_lease_token)
    beat now seconds worker =
        unfold extend_lease in
        ground
          (arith, affected-keyed id (λ k. is_leased (pos n) k && is_owner worker k.lease_owner) t u)

-- A claim that returned `r`: what the row was, and what it is now.
record Granted (t t' : Table) (r : Job) : Type 0 where
  before : Job
  found : find r.id t ≡ some before
  raised : r.lease_token ≡ before.lease_token + 1
  placed : find r.id t' ≡ some r
  runs : is_running r.status ≡ true

module _ (locked : Job → Bool) (now : ℕ) (queues : List String) (worker : String)
    (seconds : ℤ) where
  claim-Granted :
      (t t' : Table) (r : Job)
      → IsUnique t
      → claim_pending_job alone locked now queues worker seconds t ≡ (t', ok r)
      → Granted t t' r
  claim-Granted t t' r u e = granted (claim_correct locked now queues worker seconds t u)
    where
      granted :
          {p : Job → Bool}
          → Claims p
              (claim_row now worker seconds)
              t
              (claim_pending_job alone locked now queues worker seconds t)
          → Granted t t' r
      granted (takes j m s f result at) =
          unfold claim_row in
          let same : r ≡ claim_row now worker seconds j = cc (e, result) in
          let table : (claim_pending_job alone locked now queues worker seconds t).0 ≡ t' = cc e in
          rw same (record {
            before = j;
            found = find_of_mem t u m;
            raised = refl;
            placed = ground (arith, at j.id);
            runs = refl;
          })
      granted (idles none_left result) = cc (e, result)

  claim-exec :
      (t : Table)
      → (claim_pending_job alone locked now queues worker seconds t).0
        ≡ exec (claims locked now queues worker seconds) t
  unfolding claim_pending_job exec
  claim-exec t = ground arith

  claim-IsUnique :
      (t t' : Table) {x : Result Job}
      → IsUnique t
      → claim_pending_job alone locked now queues worker seconds t ≡ (t', x)
      → IsUnique t'
  claim-IsUnique t t' u e =
      let same : exec (claims locked now queues worker seconds) t ≡ t' = cc (e, claim-exec t) in
      rw same at (exec-IsUnique (claims locked now queues worker seconds) t u)

-- In a table with unique keys, once a job has been claimed again, a call of Ack, NAck or Heartbeat with
-- its first claimant's token that meets no fault is refused with the stale-token error, and nothing
-- changes: in every history of statements between and after the two claims in which no dead job is
-- reset.
pub reclaimed-IsFencedOff :
    (locked₁ locked₂ : Job → Bool) (now₁ now₂ : ℕ) (queues₁ queues₂ : List String)
    (worker₁ worker₂ : String) (seconds₁ seconds₂ : ℤ) (between after : List Statement)
    (t t₁ t₂ : Table) (r₁ r₂ : Job)
    → IsUnique t
    → All (λ s. is_reset s ≡ false) between
    → All (λ s. is_reset s ≡ false) after
    → claim_pending_job alone locked₁ now₁ queues₁ worker₁ seconds₁ t ≡ (t₁, ok r₁)
    → claim_pending_job alone locked₂ now₂ queues₂ worker₂ seconds₂ (run between t₁) ≡ (t₂, ok r₂)
    → r₂.id ≡ r₁.id
    → IsFencedOff r₁.id r₁.lease_token (run after t₂)
reclaimed-IsFencedOff locked₁ locked₂ now₁ now₂ queues₁ queues₂ worker₁ worker₂ seconds₁ seconds₂
      between after t t₁ t₂ r₁ r₂ u no₁ no₂ e₁ e₂ same =
    let u₁ = claim-IsUnique locked₁ now₁ queues₁ worker₁ seconds₁ t t₁ u e₁ in
    let v₁ = run-IsUnique between t₁ u₁ in
    let u₂ = claim-IsUnique locked₂ now₂ queues₂ worker₂ seconds₂ (run between t₁) t₂ v₁ e₂ in
    let g₁ = claim-Granted locked₁ now₁ queues₁ worker₁ seconds₁ t t₁ r₁ u e₁ in
    let g₂ = claim-Granted locked₂ now₂ queues₂ worker₂ seconds₂ (run between t₁) t₂ r₂ v₁ e₂ in
    let (k, at, le) = run-token between t₁ r₁.id r₁ u₁ no₁ g₁.placed in
    let (l, end, lt) = run-token after t₂ r₂.id r₂ u₂ no₂ g₂.placed in
    let held : k ≡ g₂.before = cc (at, g₂.found, same) in
    below-IsFencedOff r₁.id r₁.lease_token (run after t₂) l (run-IsUnique after t₂ u₂)
      (rw same at end) (omega (arith, g₂.raised, ap (λ (x : Job). x.lease_token) held))

reset-IsUnique : (now id : ℕ) (t : Table) → IsUnique t → IsUnique (reset_dead_job alone now id t).0
unfolding reset_dead_job
reset-IsUnique now id t u =
    ground (arith, update-IsUnique (is_dead_row id) (reset_row now) (λ k. refl) t u)

reset-find :
    (now id : ℕ) (t : Table) (j : Job)
    → IsUnique t
    → find id t ≡ some j
    → is_dead j.status ≡ true
    → find id (reset_dead_job alone now id t).0 ≡ some (reset_row now j)
reset-find now id t j u found dead =
    let o : outcome (λ k. is_dead k.status) (reset_row now) job_not_dead (find id t)
        ≡ writes (reset_row now j) =
      rw (found, dead) in
    let m = rw o at (reset_dead_job_correct now id t u) in ground (arith, m.1 id)

-- In a table with unique keys, after a dead job is reset and claimed again, with no fault and
-- nothing in between, the token of the new claim is 1, whatever token the job had, and Ack with
-- token 1 succeeds.
pub reset_reuses_token :
    (locked : Job → Bool) (now now' now'' id : ℕ) (queues : List String) (worker : String)
    (seconds : ℤ) (t t' : Table) (j r : Job)
    → IsUnique t
    → find id t ≡ some j
    → is_dead j.status ≡ true
    → claim_pending_job alone locked now' queues worker seconds (reset_dead_job alone now id t).0
      ≡ (t', ok r)
    → r.id ≡ id
    → (r.lease_token ≡ 1) × ((mark_complete alone now'' id (pos 1) t').1 ≡ ok tt)
reset_reuses_token locked now now' now'' id queues worker seconds t t' j r u found dead e same =
    let t₀ = (reset_dead_job alone now id t).0 in
    let g = claim-Granted locked now' queues worker seconds t₀ t' r (reset-IsUnique now id t u) e in
    let row : g.before ≡ reset_row now j = cc (g.found, reset-find now id t j u found dead, same) in
    let one : r.lease_token ≡ 1 =
      unfold reset_row in omega (arith, g.raised, ap (λ (x : Job). x.lease_token) row) in
    let v = claim-IsUnique locked now' queues worker seconds t₀ t' (reset-IsUnique now id t u) e in
    let at : find id t' ≡ some r = cc (g.placed, same) in
    (
      one,
      unfold mark_complete in
          ground (arith, g.runs, at, affected-keyed id (is_leased (pos 1)) t' v),
    )
