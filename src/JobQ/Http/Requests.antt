-- ===== src/JobQ/Http/Requests.antt =====
-- jobq/src/internal/httpapi/types.go: the request bodies and their rules.
use system_design_implementa.Prelude.{
  codes, ℕ, Bool, true, false, not, List, [], ◌∷◌, ◌&&◌, ◌||◌, String, Option, str_eq, ltb, ◌==◌,
  if◌then◌else◌, length,
}
use mathlib.Core.List.{reverse}
use system_design_implementa.Prelude.Int.{ℤ, pos, ltb_ℤ, leb_ℤ}
use system_design_implementa.JobQ.Config.{Config}
use system_design_implementa.JobQ.Validator.{
  Validator, new_validator, check, is_valid_queue_name, is_between,
}

pub record ClaimJobRequest : Type 0 where
  pub queues : List String
  pub worker_id : String
  pub lease_duration_seconds : ℤ

abbrev eq_zero : ℤ → Bool
eq_zero i = leb_ℤ i (pos 0) && leb_ℤ (pos 0) i

unfoldable pub validate_claim : Config → ClaimJobRequest → Validator
validate_claim cfg r =
    let v₁ =
      check (ltb 0 (length r.queues)) "queues" "must provide at least one queue" new_validator in
    let v₂ = check (not (str_eq r.worker_id "")) "worker_id" "worker id must not be empty" v₁ in
    let d = r.lease_duration_seconds in
    if eq_zero d
    then v₂
    else check (leb_ℤ d cfg.max_lease_duration_seconds) "lease_duration_seconds"
        "cannot exceed 600s"
        (check (leb_ℤ cfg.min_lease_duration_seconds d) "lease_duration_seconds"
          "must be at least 5s" v₂)

pub record AckRequest : Type 0 where
  pub lease_token : ℤ

unfoldable pub validate_ack : AckRequest → Validator
validate_ack a =
    check (ltb_ℤ (pos 0) a.lease_token) "lease_token" "lease token must be greater than 0"
      new_validator

pub record NAckRequest : Type 0 where
  pub lease_token : ℤ
  pub error : String
  pub permanent : Bool

unfoldable pub validate_nack : NAckRequest → Validator
validate_nack nk = check (not (str_eq nk.error "")) "error" "error cannot be an empty string" (
    check (ltb_ℤ (pos 0) nk.lease_token) "lease_token" "lease token must be greater than 0"
      new_validator)

pub record SubmitJobRequest : Type 0 where
  pub queue : String
  pub job_type : String
  pub payload : List ℕ
  pub priority : ℤ
  pub max_attempts : ℤ
  pub run_at : Option ℕ
  pub delay_seconds : ℤ

-- Unicode White_Space, which strings.TrimSpace cuts off.
abbrev pub is_space : ℕ → Bool
is_space c =
    is_between 0x9 0xd c
    || c == 0x20
    || c == 0x85
    || c == 0xa0
    || c == 0x1680
    || is_between 0x2000 0x200a c
    || is_between 0x2028 0x2029 c
    || c == 0x202f
    || c == 0x205f
    || c == 0x3000

abbrev pub trim_left : List ℕ → List ℕ
trim_left [] = []
trim_left (c ∷ cs) = if is_space c then trim_left cs else c ∷ cs

pub trim_space : List ℕ → List ℕ
trim_space cs = reverse (trim_left (reverse (trim_left cs)))

abbrev pub starts_with : ℕ → List ℕ → Bool
starts_with c [] = false
starts_with c (d ∷ _) = d == c

abbrev pub same_text : List ℕ → List ℕ → Bool
same_text [] [] = true
same_text (c ∷ cs) (d ∷ ds) = c == d && same_text cs ds
same_text _ _ = false

-- `json_valid` is json.Valid of the standard library.
unfoldable pub validate_submit : (List ℕ → Bool) → SubmitJobRequest → Validator
unfolding trim_space
validate_submit json_valid r =
    let text = trim_space r.payload in
    let v₁ =
      if str_eq r.queue ""
      then new_validator
      else check (is_valid_queue_name r.queue) "queue"
          "queue name must only contain alphanumeric characters,hyphens, or underscores"
          new_validator in
    let v₂ = check (not (str_eq r.job_type "")) "job_type" "job type cannot be empty" v₁ in
    let v₃ =
      check (not (same_text text []) && not (same_text text (codes "null"))) "payload"
        "payload cannot be empty or null" v₂ in
    let v₄ = check (json_valid r.payload) "payload" "payload must be valid JSON" v₃ in
    check (starts_with b'{' text && starts_with b'}' (reverse text)) "payload"
      "payload must be a JSON object" v₄

pub record ExtendLeaseRequest : Type 0 where
  pub worker_id : String
  pub lease_token : ℤ
  pub lease_duration_seconds : ℤ

unfoldable pub validate_extend : ExtendLeaseRequest → Validator
validate_extend el =
    check (ltb_ℤ (pos 0) el.lease_token) "lease_token" "lease token must be greater than 0"
      new_validator
