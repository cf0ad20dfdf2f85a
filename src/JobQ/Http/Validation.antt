-- ===== src/JobQ/Http/Validation.antt =====
-- Which requests pass, and what the heartbeat handler makes of a duration.
use system_design_implementa.Prelude.{
  ℕ, ◌<◌, ◌≡◌, refl, Bool, true, false, arith, List, [], ◌∷◌, String, str_eq, length, not, ◌&&◌,
  ltb, if◌then◌else◌,
}
use system_design_implementa.Prelude.Int.{ℤ, pos, ◌≤ℤ◌, leb_ℤ}
use system_design_implementa.JobQ.Config.{Config, IsSane}
use system_design_implementa.JobQ.Job.{Job}
use system_design_implementa.JobQ.Validator.{
  Validator, valid, check, new_validator, has_key, is_empty,
}
use system_design_implementa.JobQ.Store.Claim.{claim_row}
use system_design_implementa.JobQ.Store.Lease.{is_expired}
use system_design_implementa.JobQ.Http.Requests.{ClaimJobRequest, validate_claim}
use system_design_implementa.JobQ.Http.Handlers.{heartbeat_duration}

has_key_nonempty :
    (k : String) (es : List (String × String)) → has_key k es ≡ true → is_empty es ≡ false
has_key_nonempty k [] h = cc
has_key_nonempty k (e ∷ es) h = refl

new_valid : valid new_validator ≡ true
unfolding valid
new_valid = refl

-- A check that fails leaves an error behind, also when its key has one already.
valid-check : (b : Bool) (k m : String) (v : Validator) → valid (check b k m v) ≡ (valid v && b)
unfolding valid check
valid-check b k m v = ground (arith, has_key_nonempty k v.errors)

-- A claim passes validation exactly when it names a queue and a worker, and its lease duration is 0
-- or within the configured range.
pub validate_claim-valid :
    (cfg : Config) (r : ClaimJobRequest)
    → valid (validate_claim cfg r) ≡ (
        ltb 0 (length r.queues)
        && not (str_eq r.worker_id "")
        && (if leb_ℤ r.lease_duration_seconds (pos 0) && leb_ℤ (pos 0) r.lease_duration_seconds
            then true
            else leb_ℤ cfg.min_lease_duration_seconds r.lease_duration_seconds
              && leb_ℤ r.lease_duration_seconds cfg.max_lease_duration_seconds))
unfolding validate_claim
validate_claim-valid cfg r =
    let b₁ = ltb 0 (length r.queues) in
    let b₂ = not (str_eq r.worker_id "") in
    let b₃ = leb_ℤ cfg.min_lease_duration_seconds r.lease_duration_seconds in
    let v₁ = check b₁ "queues" "must provide at least one queue" new_validator in
    let v₂ = check b₂ "worker_id" "worker id must not be empty" v₁ in
    let v₃ = check b₃ "lease_duration_seconds" "must be at least 5s" v₂ in
    ground (
      arith,
      new_valid,
      valid-check b₁ "queues" "must provide at least one queue" new_validator,
      valid-check b₂ "worker_id" "worker id must not be empty" v₁,
      valid-check b₃ "lease_duration_seconds" "must be at least 5s" v₂,
      valid-check (leb_ℤ r.lease_duration_seconds cfg.max_lease_duration_seconds)
          "lease_duration_seconds" "cannot exceed 600s" v₃,
    )

-- Under a sane configuration with the default range of 5 to 600 seconds, every heartbeat extends
-- the lease by a duration in that range, whatever the worker asks for.
pub heartbeat_duration_range :
    (cfg : Config) (asked : ℤ)
    → IsSane cfg
    → cfg.min_lease_duration_seconds ≡ pos 5
    → cfg.max_lease_duration_seconds ≡ pos 600
    → (pos 5 ≤ℤ heartbeat_duration cfg asked) × (heartbeat_duration cfg asked ≤ℤ pos 600)
unfolding heartbeat_duration
heartbeat_duration_range cfg asked s lo hi = ground arith

-- A heartbeat's duration from 5 to 600 seconds is taken as it is, also where the configured minimum
-- and maximum exclude it.
pub heartbeat_duration_unconfigured :
    (cfg : Config) (asked : ℤ)
    → pos 5 ≤ℤ asked
    → asked ≤ℤ pos 600
    → heartbeat_duration cfg asked ≡ asked
unfolding heartbeat_duration
heartbeat_duration_unconfigured cfg asked lo hi = ground arith

-- A claim that names a queue and a worker and has duration 0 passes validation, and the row that it
-- takes is expired at any later time.
pub zero_lease_expires :
    (cfg : Config) (r : ClaimJobRequest) (now later : ℕ) (j : Job)
    → 0 < length r.queues
    → str_eq r.worker_id "" ≡ false
    → r.lease_duration_seconds ≡ pos 0
    → now < later
    → (valid (validate_claim cfg r) ≡ true)
      × (is_expired later (claim_row now r.worker_id r.lease_duration_seconds j) ≡ true)
unfolding valid validate_claim check claim_row
zero_lease_expires cfg r now later j q w z l = ground arith
