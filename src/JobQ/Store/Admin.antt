-- ===== src/JobQ/Store/Admin.antt =====
-- MarkDead, ResetDeadJob and GetDeadLetteredJobs of jobq/src/internal/storage/job.go, and GetStats
-- of stats.go.
use system_design_implementa.Prelude.{
  ℕ, Bool, true, none, some, List, [], ◌∷◌, ◌&&◌, String, leb, ◌==◌, if◌then◌else◌, str_eq, take,
}
use system_design_implementa.JobQ.Job.{
  Job, Status, pending, dead, is_pending, is_running, is_completed, is_failed, is_dead, Result, ok,
  err, query_failed, job_not_found, job_not_dead,
}
use system_design_implementa.JobQ.Table.{Table, update, affected, find, has_id, Session}

unfoldable pub mark_dead : Session → ℕ → Table → Table × Result (Unit {0})
mark_dead s id t =
    if s.first_fails
    then (t, err query_failed)
    else if affected (has_id id) t == 0
    then (t, err query_failed)
    else (update (has_id id) (λ j. record j { status = dead }) t, ok tt)

unfoldable pub reset_row : ℕ → Job → Job
reset_row now j = record j {
  status = pending;
  attempts = 0;
  lease_owner = none;
  lease_until = none;
  lease_token = 0;
  run_at = now;
  updated_at = now;
}

abbrev pub is_dead_row : ℕ → Job → Bool
is_dead_row id j = has_id id j && is_dead j.status

unfoldable pub reset_dead_job : Session → ℕ → ℕ → Table → Table × Result (Unit {0})
unfolding reset_row
reset_dead_job s now id t =
    let u = s.meanwhile t in
    if s.first_fails
    then (t, err query_failed)
    else if affected (is_dead_row id) t == 0
    then (if s.second_fails
        then (u, err query_failed)
        else elim (find id u) [ none ↦ (u, err job_not_found) | some j ↦ (u, err job_not_dead) ])
    else (update (is_dead_row id) (reset_row now) t, ok tt)

-- ORDER BY updated_at DESC, by insertion.
pub insert_by_update : Job → List Job → List Job
insert_by_update j [] = j ∷ []
insert_by_update j (k ∷ ks) =
    let rest = k ∷ insert_by_update j ks in
    if leb k.updated_at j.updated_at then j ∷ k ∷ ks else rest

pub dead_letters : String → Table → List Job
unfolding insert_by_update
dead_letters queue [] = []
dead_letters queue (j ∷ t) =
    let rest = dead_letters queue t in
    if str_eq j.queue queue && is_dead j.status then insert_by_update j rest else rest

unfoldable pub get_dead_lettered_jobs : Session → String → Table → Result (List Job)
unfolding dead_letters
get_dead_lettered_jobs s queue t =
    if s.first_fails then err query_failed else ok (take 100 (dead_letters queue t))

pub record QueueStats : Type 0 where
  pub queue : String
  pub n_pending : ℕ
  pub n_running : ℕ
  pub n_completed : ℕ
  pub n_failed : ℕ
  pub n_dead_lettered : ℕ
  pub n_total : ℕ

-- An aggregate with no GROUP BY has exactly one row, so the method never reports ErrQueueNotFound.
unfoldable pub get_stats : Session → String → Table → Result QueueStats
get_stats s queue t =
    let at = λ (p : Status → Bool). affected (λ j. str_eq j.queue queue && p j.status) t in
    if s.first_fails
    then err query_failed
    else ok (record {
      queue = queue;
      n_pending = at is_pending;
      n_running = at is_running;
      n_completed = at is_completed;
      n_failed = at is_failed;
      n_dead_lettered = at is_dead;
      n_total = at (λ _. true);
    })
