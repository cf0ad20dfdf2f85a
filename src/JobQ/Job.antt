-- ===== src/JobQ/Job.antt =====
-- The row type of the `jobs` table: jobq/src/internal/storage/job.go, errors.go and the migrations.
use system_design_implementa.Prelude.{ℕ, String, Option, List, Bool, true, false}
use system_design_implementa.Prelude.Int.{ℤ}

-- The values that the CHECK constraint of the table admits.
pub data Status : Type 0 where
  pending running completed failed dead cancelled : Status

abbrev pub is_pending : Status → Bool
is_pending pending = true
is_pending _ = false

abbrev pub is_running : Status → Bool
is_running running = true
is_running _ = false

abbrev pub is_completed : Status → Bool
is_completed completed = true
is_completed _ = false

abbrev pub is_failed : Status → Bool
is_failed failed = true
is_failed _ = false

abbrev pub is_dead : Status → Bool
is_dead dead = true
is_dead _ = false

-- A uuid is a number, a time is in nanoseconds, and a payload is its code points. `attempts`,
-- `max_attempts` and `lease_token` are never negative in a row, so they are natural numbers.
pub record Job : Type 0 where
  pub id : ℕ
  pub queue : String
  pub job_type : String
  pub payload : List ℕ
  pub status : Status
  pub priority : ℤ
  pub attempts : ℕ
  pub max_attempts : ℕ
  pub lease_owner : Option String
  pub lease_until : Option ℕ
  pub lease_token : ℕ
  pub last_error : Option String
  pub run_at : ℕ
  pub created_at : ℕ
  pub updated_at : ℕ

-- The sentinel errors of errors.go; every other error that a method wraps is `query_failed`, and
-- `panicked` is a panic that leaves the method.
pub data StoreError : Type 0 where
  job_not_found no_job_available queue_not_found stale_lease_token job_not_dead : StoreError
  query_failed panicked : StoreError

pub data Result {ℓ} (A : Type ℓ) : Type ℓ where
  ok : A → Result A
  err : StoreError → Result A
