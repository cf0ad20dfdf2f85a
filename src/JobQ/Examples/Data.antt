-- ===== src/JobQ/Examples/Data.antt =====
-- Rows, tables and settings for the tests.
use system_design_implementa.Prelude.{ℕ, Bool, true, false, [], ◌∷◌, none, some}
use system_design_implementa.Prelude.Int.{pos}
use system_design_implementa.JobQ.Job.{Job, pending, running, dead}
use system_design_implementa.JobQ.Table.{Table, alone}
use system_design_implementa.JobQ.Config.{Config}
use system_design_implementa.JobQ.Http.Handlers.{Server}

abbrev pub at_time : ℕ
at_time = 1_000_000_000_000

abbrev pub waiting : Job
waiting = record {
  id = 1;
  queue = "mail";
  job_type = "send";
  payload = [];
  status = pending;
  priority = pos 0;
  attempts = 0;
  max_attempts = 2;
  lease_owner = none;
  lease_until = none;
  lease_token = 0;
  last_error = none;
  run_at = 0;
  created_at = 0;
  updated_at = 0;
}

-- On its last attempt, under a lease that is over.
abbrev pub working : Job
working = record waiting {
  id = 2;
  status = running;
  attempts = 2;
  lease_owner = some "w";
  lease_until = some 5;
  lease_token = 2;
}

abbrev pub buried : Job
buried = record waiting { id = 3; status = dead; attempts = 2; lease_token = 7 }

abbrev pub rows : Table
rows = waiting ∷ working ∷ buried ∷ []

abbrev pub settings : Config
settings = record {
  db = record {
    database_url = "";
    max_open_conn = pos 25;
    max_idle_conn = pos 25;
    max_idle_time = "15m";
  };
  min_lease_duration_seconds = pos 5;
  max_lease_duration_seconds = pos 600;
  reaper_poll_duration = pos 15;
  lease_duration_increment = pos 30;
  base_delay_seconds = pos 1;
  max_delay_seconds = pos 300;
  global_max_attempts = pos 30;
}

abbrev pub middle : ℕ → ℕ
middle n = 0

abbrev pub unlocked : Job → Bool
unlocked j = false

abbrev pub server : Server
server = record {
  config = settings;
  session = alone;
  now = at_time;
  draw = middle;
  locked = unlocked;
  fresh = 9;
  json_valid = λ p. true;
}
