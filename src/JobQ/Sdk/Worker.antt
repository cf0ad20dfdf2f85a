-- ===== src/JobQ/Sdk/Worker.antt =====
-- jobq/src/sdk/go/worker.go: what a worker does with a job that it has claimed.
use system_design_implementa.Prelude.{
  ℕ, ◌/◌, ◌+◌, Bool, true, false, List, [], ◌∷◌, String, Option, none, some, str_eq, if◌then◌else◌,
}
use system_design_implementa.Prelude.Int.{ℤ, pos, leb_ℤ, pos_part}
use system_design_implementa.JobQ.Job.{Job}
use system_design_implementa.JobQ.Sdk.Client.{
  Reply, good, bad, ClientError, stale_lease_token, job_not_found,
}

-- Durations in nanoseconds; an empty id is drawn by the SDK, as `drawn_id`.
pub record WorkerConfig : Type 0 where
  pub worker_id : String
  pub queues : List String
  pub concurrency : ℤ
  pub poll_interval : ℤ
  pub lease_duration : ℤ
  pub heartbeat_interval : ℤ
  pub job_timeout : ℤ

abbrev positive_or : ℤ → ℤ → ℤ
positive_or d fallback = if leb_ℤ d (pos 0) then fallback else d

-- The lease duration is positive here, so `/ 3` is the quotient of natural numbers.
unfoldable pub with_defaults : String → WorkerConfig → WorkerConfig
with_defaults drawn_id c =
    let lease = positive_or c.lease_duration (pos 30_000_000_000) in
    record {
      worker_id = if str_eq c.worker_id "" then drawn_id else c.worker_id;
      queues = c.queues;
      concurrency = positive_or c.concurrency (pos 1);
      poll_interval = positive_or c.poll_interval (pos 500_000_000);
      lease_duration = lease;
      heartbeat_interval = positive_or c.heartbeat_interval (pos (pos_part lease / 3));
      job_timeout = positive_or c.job_timeout (pos 600_000_000_000);
    }

-- int(w.config.LeaseDuration.Seconds()), of a duration that is positive.
unfoldable pub lease_seconds : WorkerConfig → ℤ
lease_seconds c = pos (pos_part c.lease_duration / 1_000_000_000)

-- A handler returns the text of its error, or nothing; Handle adds or replaces one.
abbrev pub Handler : Type 0
Handler = List ℕ → Option String

unfoldable pub handle : String → Handler → List (String × Handler) → List (String × Handler)
handle job_type h [] = (job_type, h) ∷ []
handle job_type h ((k, g) ∷ hs) =
    if str_eq k job_type then (job_type, h) ∷ hs else (k, g) ∷ handle job_type h hs

unfoldable pub handler_of : String → List (String × Handler) → Option Handler
handler_of job_type [] = none
handler_of job_type ((k, g) ∷ hs) = if str_eq k job_type then some g else handler_of job_type hs

-- The call with which a worker reports a job.
pub data Report : Type 0 where
  acks : Report
  nacks : String → Bool → Report

-- What `execute` returns.
pub data Outcome : Type 0 where
  done : Outcome
  nack_failed ack_failed : ClientError → Outcome
  handler_failed : String → Outcome

-- `describe` formats "no handlers registered for job type: %s". The second part is the report sent.
abbrev pub report : (String → String) → List (String × Handler) → Job → Report
report describe hs j = elim (handler_of j.job_type hs) [
  | none ↦ nacks (describe j.job_type) true
  | some h ↦ elim (h j.payload) [ none ↦ acks | some text ↦ nacks text false ]
]

abbrev pub settle : Report → Reply (Unit {0}) → Outcome
settle acks (good _) = done
settle acks (bad e) = ack_failed e
settle (nacks text permanent) (bad e) = nack_failed e
settle (nacks text true) (good _) = done
settle (nacks text false) (good _) = handler_failed text

unfoldable pub execute :
    (String → String) → List (String × Handler) → (Report → Reply (Unit {0})) → Job → Outcome
unfolding handler_of
execute describe hs send j = let r = report describe hs j in settle r (send r)

-- One tick of the heartbeat loop: whether the loop goes on, and else the job is cancelled.
unfoldable pub heartbeat_goes_on : Reply (Unit {0}) → Bool
heartbeat_goes_on (bad stale_lease_token) = false
heartbeat_goes_on (bad job_not_found) = false
heartbeat_goes_on _ = true

-- The loop over the replies to its ticks: how many heartbeats are sent before it stops or the job
-- ends.
unfoldable pub heartbeat_loop : List (Reply (Unit {0})) → ℕ
unfolding heartbeat_goes_on
heartbeat_loop [] = 0
heartbeat_loop (r ∷ rs) =
    let rest = heartbeat_loop rs + 1 in if heartbeat_goes_on r then rest else 1
