-- ===== src/JobQ/Store/Claim.antt =====
-- CreateJob, GetJob and ClaimPendingJob of jobq/src/internal/storage/job.go.
use system_design_implementa.Prelude.{
  ℕ, ◌+◌, Bool, Option, none, some, List, [], ◌∷◌, ◌++◌, ◌&&◌, ◌||◌, not, String, ltb, leb,
  if◌then◌else◌, str_eq, str_mem,
}
use system_design_implementa.Prelude.Int.{ℤ, pos, ltb_ℤ, leb_ℤ, pos_part}
use system_design_implementa.JobQ.Job.{
  Job, pending, running, is_pending, Result, ok, err, query_failed, job_not_found, no_job_available,
}
use system_design_implementa.JobQ.Table.{Table, update, find, has_id, add_seconds, Session}

-- What the handler passes to CreateJob; a zero time is `none`.
pub record NewJob : Type 0 where
  pub queue : String
  pub job_type : String
  pub payload : List ℕ
  pub priority : ℤ
  pub max_attempts : ℤ
  pub run_at : Option ℕ

-- The row that the INSERT adds, with the defaults of the columns that it does not name. `id` is
-- the uuid that the database generates.
unfoldable pub new_row : ℕ → ℕ → NewJob → Job
new_row id now d = record {
  id = id;
  queue = if str_eq d.queue "" then "default" else d.queue;
  job_type = d.job_type;
  payload = d.payload;
  status = pending;
  priority = d.priority;
  attempts = 0;
  max_attempts = if leb_ℤ d.max_attempts (pos 0) then 5 else pos_part d.max_attempts;
  lease_owner = none;
  lease_until = none;
  lease_token = 0;
  last_error = none;
  run_at = elim d.run_at [ none ↦ now | some t ↦ t ];
  created_at = now;
  updated_at = now;
}

unfoldable pub create_job : Session → ℕ → ℕ → NewJob → Table → Table × Result ℕ
unfolding new_row
create_job s id now d t =
    if s.first_fails then (t, err query_failed) else (t ++ new_row id now d ∷ [], ok id)

unfoldable pub get_job : Session → ℕ → Table → Result Job
get_job s id t =
    if s.first_fails
    then err query_failed
    else elim (find id t) [ none ↦ err job_not_found | some j ↦ ok j ]

-- The WHERE of the claim, and the rows that other sessions hold locked, which it skips.
abbrev pub is_claimable : List String → ℕ → Job → Bool
is_claimable queues now j =
    is_pending j.status
    && leb j.run_at now
    && ltb j.attempts j.max_attempts
    && str_mem j.queue queues

-- ORDER BY priority DESC, created_at ASC
abbrev pub goes_before : Job → Job → Bool
goes_before i j =
    ltb_ℤ j.priority i.priority || (leb_ℤ j.priority i.priority && ltb i.created_at j.created_at)

abbrev pub better_of : Job → Option Job → Job
better_of i none = i
better_of i (some j) = if goes_before j i then j else i

-- LIMIT 1: the first row of the ordering among those that `p` selects.
unfoldable pub first_by_order : (Job → Bool) → Table → Option Job
first_by_order p [] = none
first_by_order p (j ∷ t) =
    let rest = first_by_order p t in if p j then some (better_of j rest) else rest

unfoldable pub claim_row : ℕ → String → ℤ → Job → Job
claim_row now worker seconds j = record j {
  status = running;
  lease_owner = some worker;
  lease_until = some (add_seconds now seconds);
  attempts = j.attempts + 1;
  lease_token = j.lease_token + 1;
  updated_at = now;
}

unfoldable pub claim_pending_job :
    Session → (Job → Bool) → ℕ → List String → String → ℤ → Table → Table × Result Job
unfolding claim_row
claim_pending_job s locked now queues worker seconds t =
    if s.first_fails
    then (t, err query_failed)
    else elim (first_by_order (λ j. is_claimable queues now j && not (locked j)) t) [
      | none ↦ (t, err no_job_available)
      | some j ↦ (
        update (has_id j.id) (claim_row now worker seconds) t,
        ok (claim_row now worker seconds j),
      )
    ]
