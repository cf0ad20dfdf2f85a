-- ===== src/JobQ/Store/Lease.antt =====
-- ReapExpiredLeases and ExtendLease of jobq/src/internal/storage/job.go, and the loop of
-- jobq/src/internal/leaser/reaper.go.
use system_design_implementa.Prelude.{
  ℕ, Bool, false, Option, none, some, List, [], ◌∷◌, ◌&&◌, String, ltb, ◌==◌, if◌then◌else◌, str_eq,
}
use system_design_implementa.Prelude.Int.{ℤ}
use system_design_implementa.JobQ.Job.{Job, pending, is_running, Result, ok, err, query_failed}
use system_design_implementa.JobQ.Table.{Table, update, affected, has_id, add_seconds, Session}
use system_design_implementa.JobQ.Store.Finish.{is_leased, diagnose}

-- WHERE status = 'running' AND lease_until < now(); a NULL passes no comparison.
abbrev pub is_before : Option ℕ → ℕ → Bool
is_before none now = false
is_before (some u) now = ltb u now

abbrev pub is_expired : ℕ → Job → Bool
is_expired now j = is_running j.status && is_before j.lease_until now

unfoldable pub reap_row : ℕ → Job → Job
reap_row now j = record j {
  status = pending;
  lease_owner = none;
  lease_until = none;
  updated_at = now;
}

unfoldable pub reap_expired_leases : Session → ℕ → Table → Table × Result ℕ
unfolding reap_row
reap_expired_leases s now t =
    if s.first_fails
    then (t, err query_failed)
    else (update (is_expired now) (reap_row now) t, ok (affected (is_expired now) t))

-- The reaper's ticks: each runs at a time of its own, and an error is logged and skipped.
unfoldable pub reaper : List (Session × ℕ) → Table → Table
reaper [] t = t
reaper ((s, now) ∷ ticks) t = reaper ticks (reap_expired_leases s now t).0

abbrev pub is_owner : String → Option String → Bool
is_owner worker none = false
is_owner worker (some w) = str_eq w worker

abbrev pub owns_lease : ℕ → ℤ → String → Job → Bool
owns_lease id token worker j = has_id id j && (is_leased token j && is_owner worker j.lease_owner)

unfoldable pub extend_row : ℕ → ℤ → Job → Job
extend_row now seconds j = record j {
  lease_until = some (add_seconds now seconds);
  updated_at = now;
}

unfoldable pub extend_lease : Session → ℕ → ℕ → ℤ → ℤ → String → Table → Table × Result (Unit {0})
unfolding diagnose extend_row
extend_lease s now id token seconds worker t =
    if s.first_fails
    then (t, err query_failed)
    else if affected (owns_lease id token worker) t == 0
    then (let u = s.meanwhile t in (u, err (diagnose s id u)))
    else (update (owns_lease id token worker) (extend_row now seconds) t, ok tt)
