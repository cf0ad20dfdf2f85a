-- ===== src/JobQ/Sdk/Client.antt =====
-- jobq/src/sdk/go/client.go and errors.go: how the client reads the server's responses.
use system_design_implementa.Prelude.{ℕ, List, Option, none, some, ◌||◌, ◌==◌, if◌then◌else◌}
use system_design_implementa.JobQ.Job.{Job}
use system_design_implementa.JobQ.Store.Admin.{QueueStats}
use system_design_implementa.JobQ.Http.Handlers.{Response, Body, one_job, job_id, jobs, stats}

-- The sentinel errors of the SDK; `unexpected` carries the status, `transport` is a request that
-- found no answer, and `undecodable` a body of another form.
pub data ClientError : Type 0 where
  no_job_available job_not_found stale_lease_token job_not_dead : ClientError
  unexpected : ℕ → ClientError
  transport undecodable : ClientError

pub data Reply {ℓ} (A : Type ℓ) : Type ℓ where
  good : A → Reply A
  bad : ClientError → Reply A

abbrev pub decode_job : Body → Reply Job
decode_job (one_job j) = good j
decode_job _ = bad undecodable

abbrev pub decode_id : Body → Reply ℕ
decode_id (job_id i) = good i
decode_id _ = bad undecodable

abbrev pub decode_jobs : Body → Reply (List Job)
decode_jobs (jobs js) = good js
decode_jobs _ = bad undecodable

abbrev pub decode_stats : Body → Reply QueueStats
decode_stats (stats q) = good q
decode_stats _ = bad undecodable

-- The `switch` on the status that Ack, NAck, Heartbeat and, with another conflict, RetryDeadJob
-- share. `none` is a request that could not be sent.
pub read_status : ClientError → Option Response → Reply (Unit {0})
read_status conflict none = bad transport
read_status conflict (some r) =
    if r.status == 204 || r.status == 200
    then good tt
    else if r.status == 404
    then bad job_not_found
    else if r.status == 409
    then bad conflict
    else bad (unexpected r.status)

unfoldable pub ack_reply : Option Response → Reply (Unit {0})
unfolding read_status
ack_reply = read_status stale_lease_token

unfoldable pub nack_reply : Option Response → Reply (Unit {0})
unfolding read_status
nack_reply = read_status stale_lease_token

unfoldable pub heartbeat_reply : Option Response → Reply (Unit {0})
unfolding read_status
heartbeat_reply = read_status stale_lease_token

unfoldable pub retry_reply : Option Response → Reply (Unit {0})
unfolding read_status
retry_reply = read_status job_not_dead

unfoldable pub claim_reply : Option Response → Reply Job
claim_reply none = bad transport
claim_reply (some r) =
    if r.status == 204
    then bad no_job_available
    else if r.status == 200
    then decode_job r.body
    else bad (unexpected r.status)

unfoldable pub submit_reply : Option Response → Reply ℕ
submit_reply none = bad transport
submit_reply (some r) = if r.status == 201 then decode_id r.body else bad (unexpected r.status)

unfoldable pub get_job_reply : Option Response → Reply Job
get_job_reply none = bad transport
get_job_reply (some r) = if r.status == 200 then decode_job r.body else bad (unexpected r.status)

unfoldable pub stats_reply : Option Response → Reply QueueStats
stats_reply none = bad transport
stats_reply (some r) = if r.status == 200 then decode_stats r.body else bad (unexpected r.status)

unfoldable pub dead_letters_reply : Option Response → Reply (List Job)
dead_letters_reply none = bad transport
dead_letters_reply (some r) =
    if r.status == 200 then decode_jobs r.body else bad (unexpected r.status)
