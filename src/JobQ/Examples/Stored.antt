-- ===== src/JobQ/Examples/Stored.antt =====
-- The store's theorems at concrete tables.
use system_design_implementa.Prelude.{
  ℕ, ◌+◌, ◌-◌, ◌*◌, ◌≡◌, refl, false, List, [], ◌∷◌, String, none, some, arith, ◌&&◌, not,
}
use system_design_implementa.Prelude.Int.{pos, ◌≤ℤ◌, two_63, wrap64, ◌*ℤ◌, to_signed}
use system_design_implementa.JobQ.Job.{Job, ok, stale_lease_token, running, completed}
use system_design_implementa.JobQ.Table.{Table, find, select, update, affected, alone}
use system_design_implementa.JobQ.Table.Laws.{IsUnique}
use system_design_implementa.JobQ.Backoff.{compute_backoff, max_delay_of, default_to, from_config}
use system_design_implementa.JobQ.Backoff.Bounds.{compute_backoff_bounded, IsDraw}
use system_design_implementa.JobQ.Store.Claim.{
  NewJob, claim_pending_job, claim_row, first_by_order, is_claimable,
}
use system_design_implementa.JobQ.Store.Finish.{mark_complete, mark_failure, is_leased}
use system_design_implementa.JobQ.Store.Lease.{reap_expired_leases, reap_row}
use system_design_implementa.JobQ.Store.Admin.{reset_dead_job, reset_row}
use system_design_implementa.JobQ.Statement.{run, exec, reaps}
use system_design_implementa.JobQ.Proofs.Effects.{
  Meets, outcome, mark_complete_correct, mark_failure_correct, failure_write,
}
use system_design_implementa.JobQ.Proofs.Claiming.{Claims, claim_correct}
use system_design_implementa.JobQ.Proofs.Histories.{reap_strands}
use system_design_implementa.JobQ.Proofs.Validity.{IsValid}
use system_design_implementa.JobQ.Proofs.Calls.{
  creates, takes_one, sweeps, call, Reached, empty, called, Reached-IsValid,
}
use system_design_implementa.JobQ.Proofs.Fencing.{
  IsFencedOff, reclaimed-IsFencedOff, reset_reuses_token,
}
use system_design_implementa.JobQ.Examples.Data.{
  at_time, waiting, working, buried, rows, settings, middle, unlocked,
}

pub rows-IsUnique : IsUnique rows
unfolding select
rows-IsUnique = (refl, (refl, (refl, tt)))

middle-IsDraw : IsDraw middle
middle-IsDraw n p = omega arith

mark_complete_correct_example :
    Meets
      (outcome
        (is_leased (pos 2))
        (λ j. record j { status = completed; lease_until = none; updated_at = at_time })
        stale_lease_token
        (find 2 rows))
      2
      rows
      (mark_complete alone at_time 2 (pos 2) rows)
mark_complete_correct_example = mark_complete_correct at_time 2 (pos 2) rows rows-IsUnique

claim_correct_example :
    Claims
      (λ j. is_claimable ("mail" ∷ []) at_time j && not (unlocked j))
      (claim_row at_time "v" (pos 30))
      rows
      (claim_pending_job alone unlocked at_time ("mail" ∷ []) "v" (pos 30) rows)
claim_correct_example = claim_correct unlocked at_time ("mail" ∷ []) "v" (pos 30) rows rows-IsUnique

pub working-found : find 2 rows ≡ some working
unfolding select
working-found = refl

reap_strands_example :
    find 2 (run [] (reap_expired_leases alone at_time rows).0) ≡ some (reap_row at_time working)
reap_strands_example =
    reap_strands at_time [] rows 2 working rows-IsUnique tt working-found refl refl

-- A job whose attempts are used up.
abbrev stuck : Job
stuck = record waiting { attempts = 2 }

stuck-found : find 1 (stuck ∷ []) ≡ some stuck
unfolding select
stuck-found = refl

alone_row-IsUnique : (j : Job) → IsUnique (j ∷ [])
unfolding select
alone_row-IsUnique j = (refl, tt)

-- The row that a claim makes of `waiting`, and the row that a second one makes of it after the reaper.
abbrev claimed_once : Job
claimed_once = record waiting {
  status = running;
  attempts = 1;
  lease_owner = some "w";
  lease_until = some (at_time + 30_000_000_000);
  lease_token = 1;
  updated_at = at_time;
}

abbrev reaped_at : ℕ
reaped_at = 2 * at_time

abbrev claimed_twice : Job
claimed_twice = record waiting {
  status = running;
  attempts = 2;
  lease_owner = some "v";
  lease_until = some (reaped_at + 30_000_000_000);
  lease_token = 2;
  updated_at = reaped_at;
}

abbrev mail : List String
mail = "mail" ∷ []

first_claim :
    claim_pending_job alone unlocked at_time mail "w" (pos 30) (waiting ∷ [])
    ≡ (claimed_once ∷ [], ok claimed_once)
unfolding claim_pending_job first_by_order claim_row update
first_claim = refl

second_claim :
    claim_pending_job alone unlocked reaped_at mail "v"
      (pos 30)
      (run (reaps reaped_at ∷ []) (claimed_once ∷ []))
    ≡ (claimed_twice ∷ [], ok claimed_twice)
unfolding claim_pending_job first_by_order claim_row update run exec reap_row
second_claim = refl

reclaimed-IsFencedOff_example : IsFencedOff 1 1 (run [] (claimed_twice ∷ []))
reclaimed-IsFencedOff_example =
    reclaimed-IsFencedOff unlocked unlocked at_time reaped_at mail mail "w" "v" (pos 30) (pos 30)
      (reaps reaped_at ∷ []) [] (waiting ∷ []) (claimed_once ∷ []) (claimed_twice ∷ []) claimed_once
      claimed_twice (alone_row-IsUnique waiting) (refl, tt) tt first_claim second_claim refl

abbrev claimed_anew : Job
claimed_anew = record buried {
  status = running;
  attempts = 1;
  lease_owner = some "v";
  lease_until = some (reaped_at + 30_000_000_000);
  lease_token = 1;
  last_error = none;
  run_at = at_time;
  updated_at = reaped_at;
}

buried-found : find 3 (buried ∷ []) ≡ some buried
unfolding select
buried-found = refl

claim_after_reset :
    claim_pending_job alone unlocked reaped_at mail "v"
      (pos 30)
      (reset_dead_job alone at_time 3 (buried ∷ [])).0
    ≡ (claimed_anew ∷ [], ok claimed_anew)
unfolding claim_pending_job first_by_order claim_row update reset_dead_job reset_row affected select
claim_after_reset = refl

reset_reuses_token_example :
    (claimed_anew.lease_token ≡ 1)
    × ((mark_complete alone reaped_at 3 (pos 1) (claimed_anew ∷ [])).1 ≡ ok tt)
reset_reuses_token_example =
    reset_reuses_token unlocked at_time reaped_at reaped_at 3 mail "v" (pos 30) (buried ∷ [])
      (claimed_anew ∷ []) buried claimed_anew (alone_row-IsUnique buried) buried-found refl
      claim_after_reset refl

limit_fits : max_delay_of (pos 0) (some settings) ≤ℤ pos (two_63 - 2)
unfolding max_delay_of from_config default_to wrap64 ◌*ℤ◌ to_signed
limit_fits = omega arith

drawn_delay :
    (j : Job)
    → (d : ℕ) × (compute_backoff middle (pos j.attempts) (pos 0) (pos 0) (some settings) ≡ some d)
drawn_delay j =
    let (d, e, bound) =
      compute_backoff_bounded middle (pos j.attempts) (pos 0) (pos 0) (some settings) middle-IsDraw
        limit_fits in
    (d, e)

mark_failure_correct_example :
    Meets
      (outcome
        (is_leased (pos 2))
        (λ j. failure_write at_time "no" false (drawn_delay j).0 j j)
        stale_lease_token
        (find 2 rows))
      2
      rows
      (mark_failure alone middle settings at_time 2 (pos 2) "no" false rows)
mark_failure_correct_example =
    mark_failure_correct middle settings at_time 2 (pos 2) "no" false rows rows-IsUnique
      (λ j. (drawn_delay j).0) (λ j. (drawn_delay j).1)

abbrev new_mail : NewJob
new_mail = record {
  queue = "mail";
  job_type = "send";
  payload = [];
  priority = pos 0;
  max_attempts = pos 2;
  run_at = none;
}

-- A job is created and claimed, and the lease is reaped.
abbrev three_calls : Table
three_calls = call alone (sweeps reaped_at) (
    call alone (takes_one unlocked at_time mail "w" (pos 30))
      (call alone (creates 1 0 new_mail) []))

three_calls-Reached : Reached three_calls
unfolding run select
three_calls-Reached =
    called alone [] (sweeps reaped_at) _ (λ u. refl) tt
      (called alone [] (takes_one unlocked at_time mail "w" (pos 30)) _ (λ u. refl) tt
        (called alone [] (creates 1 0 new_mail) [] (λ u. refl) refl empty))

Reached-IsValid_example : IsValid three_calls
Reached-IsValid_example = Reached-IsValid three_calls three_calls-Reached
