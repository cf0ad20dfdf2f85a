-- ===== src/JobQ/Http/Handlers.antt =====
-- jobq/src/internal/httpapi: the handlers. A path's id and a body come as what uuid.Parse and the
-- JSON decoder made of them, `none` where that failed. Writing a response body does not fail.
use system_design_implementa.Prelude.{ℕ, Bool, List, String, Option, none, some, if◌then◌else◌}
use system_design_implementa.Prelude.Int.{ℤ, pos, ltb_ℤ, leb_ℤ}
use system_design_implementa.JobQ.Config.{Config}
use system_design_implementa.JobQ.Validator.{Validator, valid, is_valid_queue_name}
use system_design_implementa.JobQ.Job.{
  Job, Result, ok, err, StoreError, job_not_found, stale_lease_token, no_job_available,
  job_not_dead, queue_not_found,
}
use system_design_implementa.JobQ.Table.{Table, Session, add_seconds}
use system_design_implementa.JobQ.Store.Claim.{NewJob, create_job, get_job, claim_pending_job}
use system_design_implementa.JobQ.Store.Finish.{mark_complete, mark_failure}
use system_design_implementa.JobQ.Store.Lease.{extend_lease}
use system_design_implementa.JobQ.Store.Admin.{
  reset_dead_job, get_dead_lettered_jobs, get_stats, QueueStats,
}
use system_design_implementa.JobQ.Http.Requests.{
  ClaimJobRequest, AckRequest, NAckRequest, SubmitJobRequest, ExtendLeaseRequest, validate_claim,
  validate_ack, validate_nack, validate_submit, validate_extend,
}

pub data Body : Type 0 where
  no_body : Body
  message : String → Body
  fields : List (String × String) → Body
  one_job : Job → Body
  job_id : ℕ → Body
  jobs : List Job → Body
  stats : QueueStats → Body
  message_and_null : String → Body

pub record Response : Type 0 where
  pub status : ℕ
  pub body : Body

abbrev pub respond : ℕ → Body → Response
respond status body = record { status = status; body = body }

-- What a call meets: its session with the database, the time, the settings, the jitter, the locked
-- rows, the uuid that an INSERT would draw, and json.Valid.
pub record Server : Type 0 where
  pub config : Config
  pub session : Session
  pub now : ℕ
  pub draw : ℕ → ℕ
  pub locked : Job → Bool
  pub fresh : ℕ
  pub json_valid : List ℕ → Bool

-- errors.go
abbrev pub server_error : Response
server_error =
    respond 500 (message "the server encountered a problem and could not process your request")

abbrev pub not_found : Response
not_found = respond 404 (message "the requested resource could not be found")

abbrev pub bad_request : String → Response
bad_request text = respond 400 (message text)

abbrev pub failed_validation : Validator → Response
failed_validation v = respond 422 (fields v.errors)

abbrev pub bad_id : Response
bad_id = bad_request "invalid job id: must be a valid uuid"

-- readJSONAndValidate of helpers.go, and what follows it. The decoder's own text is not modelled.
abbrev pub with_valid :
    {R : Type 0} → Option R → (R → Validator) → Table → (R → Table × Response) → Table × Response
with_valid none validate t k = (t, bad_request "malformed body")
with_valid (some r) validate t k =
    if valid (validate r) then k r else (t, failed_validation (validate r))

abbrev pub with_id : Option ℕ → Table → (ℕ → Table × Response) → Table × Response
with_id none t k = (t, bad_id)
with_id (some id) t k = k id

-- The `switch` on the error that Ack, NAck and ExtendLease share.
abbrev pub lease_error : StoreError → Response
lease_error job_not_found = not_found
lease_error stale_lease_token = respond 409 no_body
lease_error _ = server_error

abbrev pub lease_reply : Result (Unit {0}) → Response
lease_reply (ok _) = respond 204 no_body
lease_reply (err e) = lease_error e

unfoldable pub ack : Server → Option ℕ → Option AckRequest → Table → Table × Response
ack s path body t = with_id path t λ id. with_valid body validate_ack t λ r.
    let (u, result) = mark_complete s.session s.now id r.lease_token t in (u, lease_reply result)

unfoldable pub nack : Server → Option ℕ → Option NAckRequest → Table → Table × Response
nack s path body t = with_id path t λ id. with_valid body validate_nack t λ r.
    let (u, result) =
      mark_failure s.session s.draw s.config s.now id r.lease_token r.error r.permanent t in
    (u, lease_reply result)

-- The duration that a heartbeat asks for, as the handler changes it.
unfoldable pub heartbeat_duration : Config → ℤ → ℤ
heartbeat_duration cfg asked =
    let d₁ = if leb_ℤ asked (pos 0) then cfg.lease_duration_increment else asked in
    let d₂ = if ltb_ℤ d₁ (pos 5) then cfg.min_lease_duration_seconds else d₁ in
    if ltb_ℤ (pos 600) d₂ then cfg.max_lease_duration_seconds else d₂

unfoldable pub heartbeat : Server → Option ℕ → Option ExtendLeaseRequest → Table → Table × Response
unfolding heartbeat_duration
heartbeat s path body t = with_id path t λ id. with_valid body validate_extend t λ r.
    let d = heartbeat_duration s.config r.lease_duration_seconds in
    let (u, result) = extend_lease s.session s.now id r.lease_token d r.worker_id t in
    (u, lease_reply result)

abbrev pub claim_reply : Result Job → Response
claim_reply (ok j) = respond 200 (one_job j)
claim_reply (err no_job_available) = respond 204 no_body
claim_reply (err _) = server_error

unfoldable pub claim : Server → Option ClaimJobRequest → Table → Table × Response
claim s body t = with_valid body (validate_claim s.config) t λ r.
    let (u, result) =
      claim_pending_job s.session s.locked s.now r.queues r.worker_id r.lease_duration_seconds t in
    (u, claim_reply result)

abbrev pub submit_reply : Result ℕ → Response
submit_reply (ok id) = respond 201 (job_id id)
submit_reply (err _) = server_error

-- The time at which a submitted job may run first; `none` leaves it to CreateJob.
unfoldable pub submit_run_at : ℕ → SubmitJobRequest → Option ℕ
submit_run_at now r = elim r.run_at [
  | some t ↦ some t
  | none ↦ if ltb_ℤ (pos 0) r.delay_seconds then some (add_seconds now r.delay_seconds) else none
]

unfoldable pub submit : Server → Option SubmitJobRequest → Table → Table × Response
unfolding submit_run_at
submit s body t = with_valid body (validate_submit s.json_valid) t λ r.
    let d : NewJob = record {
      queue = r.queue;
      job_type = r.job_type;
      payload = r.payload;
      priority = r.priority;
      max_attempts = r.max_attempts;
      run_at = submit_run_at s.now r;
    } in
    let (u, result) = create_job s.session s.fresh s.now d t in (u, submit_reply result)

abbrev pub job_reply : Result Job → Response
job_reply (ok j) = respond 200 (one_job j)
job_reply (err job_not_found) = not_found
job_reply (err _) = server_error

unfoldable pub get_job_status : Server → Option ℕ → Table → Table × Response
get_job_status s path t = with_id path t λ id. (t, job_reply (get_job s.session id t))

abbrev pub bad_queue : Response
bad_queue = bad_request "invalid queue name: only alphanumeric, hyphens, and underscores allowed"

-- After ErrQueueNotFound the handler does not return, and writes a null behind the message.
abbrev pub stats_reply : Result QueueStats → Response
stats_reply (ok q) = respond 200 (stats q)
stats_reply (err queue_not_found) =
    respond 404 (message_and_null "the requested resource could not be found")
stats_reply (err _) = server_error

unfoldable pub get_queue_stats : Server → String → Table → Table × Response
get_queue_stats s name t =
    if is_valid_queue_name name
    then (t, stats_reply (get_stats s.session name t))
    else (t, bad_queue)

abbrev pub retry_reply : Result (Unit {0}) → Response
retry_reply (ok _) = respond 204 no_body
retry_reply (err job_not_found) = not_found
retry_reply (err job_not_dead) = respond 409 (message "job is not in dead status")
retry_reply (err _) = server_error

unfoldable pub retry_dead_job : Server → Option ℕ → Table → Table × Response
retry_dead_job s path t =
    with_id path t
      λ id. let (u, result) = reset_dead_job s.session s.now id t in (u, retry_reply result)

abbrev pub jobs_reply : Result (List Job) → Response
jobs_reply (ok js) = respond 200 (jobs js)
jobs_reply (err _) = server_error

unfoldable pub list_dead_letters : Server → String → Table → Table × Response
list_dead_letters s name t =
    if is_valid_queue_name name
    then (t, jobs_reply (get_dead_lettered_jobs s.session name t))
    else (t, bad_queue)
