-- ===== src/JobQ/Sdk/Contract.antt =====
-- The client over the server: what the SDK's callers see of the store's results.
use system_design_implementa.Prelude.{
  ℕ, ◌≡◌, Bool, String, Option, some, arith, str_eq, not, ◌&&◌, if◌then◌else◌,
}
use system_design_implementa.Prelude.Int.{ℤ, pos, ltb_ℤ}
use system_design_implementa.JobQ.Job.{
  Job, Result, ok, err, StoreError, query_failed, panicked, queue_not_found,
}
use system_design_implementa.JobQ.Job
use system_design_implementa.JobQ.Table.{Table}
use system_design_implementa.JobQ.Store.Finish.{mark_complete, mark_failure}
use system_design_implementa.JobQ.Store.Lease.{extend_lease}
use system_design_implementa.JobQ.Http.Requests.{validate_ack, validate_nack, validate_extend}
use system_design_implementa.JobQ.Validator.{valid, check}
use system_design_implementa.JobQ.Http.Handlers.{
  Server, Response, ack, nack, heartbeat, heartbeat_duration,
}
use system_design_implementa.JobQ.Sdk.Client.{
  Reply, good, bad, ClientError, unexpected, ack_reply, nack_reply, heartbeat_reply, claim_reply,
}
use system_design_implementa.JobQ.Sdk.Client

-- The store's error, as the SDK names it.
abbrev pub seen : Result (Unit {0}) → Reply (Unit {0})
seen (ok _) = good tt
seen (err Job.StoreError.job_not_found) = bad Client.ClientError.job_not_found
seen (err Job.StoreError.stale_lease_token) = bad Client.ClientError.stale_lease_token
seen (err _) = bad (unexpected 500)

-- What a caller gets of a call over the wire: the table, and the reply as the SDK reads it.
abbrev pub over_wire {ℓ} : {A : Type ℓ} → (Option Response → A) → Table × Response → Table × A
over_wire read (t, r) = (t, read (some r))

-- A store's result, as the caller gets it.
abbrev pub through : Table × Result (Unit {0}) → Table × Reply (Unit {0})
through (t, r) = (t, seen r)

module _ (s : Server) (id : ℕ) (token : ℤ) (t : Table) where
  -- Ack over the wire is MarkComplete: success, not found and stale arrive under the SDK's own names
  -- and any other failure as status 500; but a token that is not positive is refused with status 422
  -- and changes nothing.
  pub ack_contract :
      over_wire ack_reply (ack s (some id) (some (record { lease_token = token })) t) ≡ (
        if ltb_ℤ (pos 0) token
        then through (mark_complete s.session s.now id token t)
        else (t, bad (unexpected 422)))
  unfolding ack ack_reply valid check validate_ack
  ack_contract = ground arith

  -- NAck over the wire is MarkFailure, when the token is positive and the error has a text; else it
  -- is refused with status 422 and changes nothing.
  pub nack_contract :
      (text : String) (permanent : Bool)
      → over_wire nack_reply (
          nack s
            (some id)
            (some (record { lease_token = token; error = text; permanent = permanent }))
            t)
        ≡ (if ltb_ℤ (pos 0) token && not (str_eq text "")
            then through (mark_failure s.session s.draw s.config s.now id token text permanent t)
            else (t, bad (unexpected 422)))
  unfolding nack nack_reply valid check validate_nack
  nack_contract text permanent = ground arith

  -- Heartbeat over the wire is ExtendLease with the duration that the server settles on, when the
  -- token is positive; else it is refused with status 422 and changes nothing.
  pub heartbeat_contract :
      (seconds : ℤ) (worker : String)
      → over_wire heartbeat_reply (
          heartbeat s
            (some id)
            (some (record {
              worker_id = worker;
              lease_token = token;
              lease_duration_seconds = seconds;
            }))
            t)
        ≡ (if ltb_ℤ (pos 0) token
            then through (
                extend_lease s.session s.now id token
                  (heartbeat_duration s.config seconds)
                  worker
                  t)
            else (t, bad (unexpected 422)))
  unfolding heartbeat heartbeat_reply valid check validate_extend
  heartbeat_contract seconds worker = ground arith
