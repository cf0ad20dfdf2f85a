-- ===== src/JobQ/Examples/Served.antt =====
-- The theorems on the configuration, the server and the SDK at concrete requests.
use system_design_implementa.Prelude.{
  ℕ, ◌≡◌, refl, List, [], ◌∷◌, String, none, some, arith, if◌then◌else◌, ◌==◌,
}
use system_design_implementa.Prelude.Int.{pos}
use system_design_implementa.JobQ.Job.{completed}
use system_design_implementa.JobQ.Table.{find}
use system_design_implementa.JobQ.Config.{Config, Env, IsSane, load}
use system_design_implementa.JobQ.Config.Loading.{load-IsSane}
use system_design_implementa.JobQ.Http.Requests.{ClaimJobRequest}
use system_design_implementa.JobQ.Sdk.Client.{unexpected}
use system_design_implementa.JobQ.Sdk.Worker.{Handler, WorkerConfig, done, nack_failed, handler_of}
use system_design_implementa.JobQ.Sdk.Life.{
  run_job, success_completes, silent_error_lost, unregistered_buries,
}
use system_design_implementa.JobQ.Proofs.Effects.{dead_of}
use system_design_implementa.JobQ.Examples.Data.{at_time, working, rows, settings, server}
use system_design_implementa.JobQ.Examples.Stored.{rows-IsUnique, working-found}

-- An environment that sets every variable to a text that reads as 7.
abbrev sevens : Env
sevens = record { lookup_env = λ key. some "7"; atoi = λ value. some (pos 7) }

load-IsSane_example : IsSane (load sevens)
load-IsSane_example = load-IsSane sevens (λ key value i l e. ground arith)

settings-IsSane : IsSane settings
settings-IsSane = record {
  min_lease_positive = omega arith;
  lease_range = omega arith;
  increment_positive = omega arith;
  poll_positive = omega arith;
  base_positive = omega arith;
  delay_range = omega arith;
  attempts_range = (omega arith, omega arith);
}

abbrev narrow : Config
narrow = record settings {
  min_lease_duration_seconds = pos 20;
  max_lease_duration_seconds = pos 40;
}

abbrev request : ClaimJobRequest
request = record { queues = "mail" ∷ []; worker_id = "w"; lease_duration_seconds = pos 0 }

abbrev describe : String → String
describe kind = "no handler"

abbrev succeeding : List (String × Handler)
succeeding = ("send", λ payload. none) ∷ []

abbrev silent : List (String × Handler)
silent = ("send", λ payload. some "") ∷ []

succeeding-found : handler_of "send" succeeding ≡ some (λ payload. none)
unfolding handler_of
succeeding-found = refl

silent-found : handler_of "send" silent ≡ some (λ payload. some "")
unfolding handler_of
silent-found = refl

nothing-found : handler_of "send" [] ≡ none
unfolding handler_of
nothing-found = refl

success_completes_example :
    ((run_job describe succeeding server working rows).1 ≡ done)
    × ((i : ℕ)
        → find i (run_job describe succeeding server working rows).0 ≡ (
            if i == 2
            then some
                (record working { status = completed; lease_until = none; updated_at = at_time })
            else find i rows))
success_completes_example =
    success_completes describe succeeding server working rows (λ payload. none) working refl
      rows-IsUnique succeeding-found refl working-found refl (omega arith)

unregistered_buries_example :
    ((run_job describe [] server working rows).1 ≡ done)
    × ((i : ℕ)
        → find i (run_job describe [] server working rows).0
          ≡ (if i == 2 then some (dead_of at_time "no handler" working) else find i rows))
unregistered_buries_example =
    unregistered_buries describe [] server working rows working refl rows-IsUnique nothing-found
      refl working-found refl (omega arith)

silent_error_lost_example :
    run_job describe silent server working rows ≡ (rows, nack_failed (unexpected 422))
silent_error_lost_example =
    silent_error_lost describe silent server working rows (λ payload. some "") silent-found refl

abbrev brief : WorkerConfig
brief = record {
  worker_id = "w";
  queues = "mail" ∷ [];
  concurrency = pos 1;
  poll_interval = pos 0;
  lease_duration = pos 500_000_000;
  heartbeat_interval = pos 0;
  job_timeout = pos 0;
}
