-- ===== src/JobQ/Store/Finish.antt =====
-- MarkComplete and MarkFailure of jobq/src/internal/storage/job.go.
use system_design_implementa.Prelude.{
  ℕ, ◌+◌, Bool, false, none, some, ◌&&◌, ◌||◌, String, leb, ◌==◌, if◌then◌else◌,
}
use system_design_implementa.Prelude.Int.{ℤ, pos, negsuc}
use system_design_implementa.JobQ.Job.{
  Job, pending, completed, dead, is_running, StoreError, Result, ok, err, query_failed,
  job_not_found, stale_lease_token, panicked,
}
use system_design_implementa.JobQ.Table.{Table, update, affected, select, find, has_id, Session}
use system_design_implementa.JobQ.Config.{Config}
use system_design_implementa.JobQ.Backoff.{compute_backoff}

-- lease_token = $n, where the argument is a Go int.
abbrev pub is_token : ℤ → ℕ → Bool
is_token (pos n) token = token == n
is_token (negsuc n) token = false

-- WHERE id = $1 AND lease_token = $n AND status = 'running'
abbrev pub is_leased : ℤ → Job → Bool
is_leased token j = is_running j.status && is_token token j.lease_token

abbrev pub holds_lease : ℕ → ℤ → Job → Bool
holds_lease id token j = has_id id j && is_leased token j

-- The second SELECT, by which a statement that touched no row finds out why.
unfoldable pub diagnose : Session → ℕ → Table → StoreError
diagnose s id t =
    if s.second_fails
    then query_failed
    else elim (find id t) [ none ↦ job_not_found | some j ↦ stale_lease_token ]

unfoldable pub complete_row : ℕ → Job → Job
complete_row now j = record j { status = completed; lease_until = none; updated_at = now }

unfoldable pub mark_complete : Session → ℕ → ℕ → ℤ → Table → Table × Result (Unit {0})
unfolding diagnose complete_row
mark_complete s now id token t =
    if s.first_fails
    then (t, err query_failed)
    else if affected (holds_lease id token) t == 0
    then (let u = s.meanwhile t in (u, err (diagnose s id u)))
    else (update (holds_lease id token) (complete_row now) t, ok tt)

unfoldable pub bury_row : ℕ → String → Job → Job
bury_row now message j = record j {
  status = dead;
  last_error = some message;
  lease_owner = none;
  lease_until = none;
  updated_at = now;
}

unfoldable pub retry_row : ℕ → ℕ → String → Job → Job
retry_row now delay message j = record j {
  status = pending;
  run_at = now + delay;
  last_error = some message;
  lease_owner = none;
  lease_until = none;
  updated_at = now;
}

-- An UPDATE of the row whose lease the caller holds, which may have gone since the check.
unfoldable pub update_held : Session → ℕ → ℤ → (Job → Job) → Table → Table × Result (Unit {0})
update_held s id token f u =
    if s.second_fails
    then (u, err query_failed)
    else if affected (holds_lease id token) u == 0
    then (u, err stale_lease_token)
    else (update (holds_lease id token) f u, ok tt)

-- `draw` is the source of the jitter.
unfoldable pub mark_failure :
    Session → (ℕ → ℕ) → Config → ℕ → ℕ → ℤ → String → Bool → Table → Table × Result (Unit {0})
unfolding diagnose bury_row retry_row update_held
mark_failure s draw cfg now id token message permanent t =
    let u = s.meanwhile t in
    if s.first_fails then (t, err query_failed) else elim (select (holds_lease id token) t) [
      | none ↦ (u, err (diagnose s id u))
      | some j ↦
          if permanent || leb j.max_attempts j.attempts
          then update_held s id token (bury_row now message) u
          else elim (compute_backoff draw (pos j.attempts) (pos 0) (pos 0) (some cfg)) [
            | none ↦ (u, err panicked)
            | some delay ↦ update_held s id token (retry_row now delay message) u
          ]
    ]
