-- ===== src/JobQ/Config/Loading.antt =====
-- What `Load` guarantees to the rest of the server.
use system_design_implementa.Prelude.{
  ℕ, ◌*◌, ◌≤◌, ◌<◌, ◌≡◌, ap, ◌∙◌, some, String, arith, Option-cases, inl, inr,
}
use system_design_implementa.Prelude.Int.{
  ℤ, pos, negsuc, ◌*ℤ◌, ◌≤ℤ◌, pos_part, wrap64, wrap64-pos, pos-*ℤ-pos, two_63,
}
use system_design_implementa.JobQ.Config.{
  Env, load, IsSane, get_env_int, positive_or, above_or, clip_attempts, max_ℤ,
}

abbrev pub bound : ℤ
bound = pos 100_000_000_000_000_000

-- No variable of the environment reads as a number that a product with a small factor overflows.
abbrev pub IsModest : Env → Type 0
IsModest e =
    (key value : String) (i : ℤ)
    → e.lookup_env key ≡ some value
    → e.atoi value ≡ some i
    → i ≤ℤ bound

get_env_int-le :
    (e : Env) (key : String) (fallback : ℤ)
    → IsModest e
    → fallback ≤ℤ bound
    → get_env_int e key fallback ≤ℤ bound
unfolding get_env_int
get_env_int-le e key fallback m h = elim (Option-cases (e.lookup_env key)) [
  | inl absent ↦ rw (absent, get_env_int) h
  | inr (value, found) ↦ elim (Option-cases (e.atoi value)) [
    | inl bad ↦ rw (found, get_env_int, bad) h
    | inr (i, good) ↦ rw (found, get_env_int, good) (m key value i found good)
  ]
]

positive_or_range :
    (i fallback : ℤ)
    → i ≤ℤ bound
    → pos 1 ≤ℤ fallback
    → fallback ≤ℤ bound
    → (pos 1 ≤ℤ positive_or i fallback) × (positive_or i fallback ≤ℤ bound)
unfolding positive_or
positive_or_range i fallback h f g = ground arith

product : (n factor : ℕ) → n ≤ pos_part bound → factor ≤ 10 → n * factor < two_63
product n factor h g = grind arith

scaled : (n factor : ℕ) → 1 ≤ n → 2 ≤ factor → n < n * factor
scaled n factor h g = grind arith

lower-le-above_or :
    (upper lower : ℤ) (factor least : ℕ)
    → pos 1 ≤ℤ lower
    → lower ≤ℤ bound
    → 2 ≤ factor
    → factor ≤ 10
    → lower ≤ℤ above_or upper lower (pos factor) (pos least)
unfolding above_or max_ℤ
lower-le-above_or upper (pos n) factor least h b f g =
    let value : wrap64 (pos n *ℤ pos factor) ≡ pos (n * factor) =
      ap wrap64 (pos-*ℤ-pos n factor)
      ∙ wrap64-pos (n * factor) (product n factor (omega arith) g) in
    ground (arith, value, scaled n factor (omega arith) f)
lower-le-above_or upper (negsuc n) factor least h b f g = absurd (omega arith)

clip_attempts_range : (n : ℤ) → (pos 1 ≤ℤ clip_attempts n) × (clip_attempts n ≤ℤ pos 30)
unfolding clip_attempts
clip_attempts_range n = ground arith

-- When no variable of the environment reads as a number above 10^17, `Load` gives durations and
-- limits that are positive and in order, whatever else the environment holds: the minimum lease
-- does not exceed the maximum, nor the base delay the maximum delay, and the attempts lie between 1
-- and 30.
pub load-IsSane : (e : Env) → IsModest e → IsSane (load e)
unfolding load
load-IsSane e m =
    let lease =
      positive_or_range (get_env_int e "MIN_LEASE_DURATION" (pos 5)) (pos 5)
        (get_env_int-le e "MIN_LEASE_DURATION" (pos 5) m (omega arith)) (omega arith)
        (omega arith) in
    let base =
      positive_or_range (get_env_int e "BASE_DELAY_SECONDS" (pos 1)) (pos 1)
        (get_env_int-le e "BASE_DELAY_SECONDS" (pos 1) m (omega arith)) (omega arith)
        (omega arith) in
    let poll =
      positive_or_range (get_env_int e "REAPER_POLL_DURATION" (pos 5)) (pos 5)
        (get_env_int-le e "REAPER_POLL_DURATION" (pos 5) m (omega arith)) (omega arith)
        (omega arith) in
    let step =
      positive_or_range (get_env_int e "LEASE_DURATION_INCREMENT" (pos 30)) (pos 30)
        (get_env_int-le e "LEASE_DURATION_INCREMENT" (pos 30) m (omega arith)) (omega arith)
        (omega arith) in
    record {
      min_lease_positive = lease.0;
      lease_range =
          lower-le-above_or (get_env_int e "MAX_LEASE_DURATION" (pos 600))
            (positive_or (get_env_int e "MIN_LEASE_DURATION" (pos 5)) (pos 5)) 3 600 lease.0 lease.1
            (omega arith) (omega arith);
      increment_positive = step.0;
      poll_positive = poll.0;
      base_positive = base.0;
      delay_range =
          lower-le-above_or (get_env_int e "MAX_DELAY_SECONDS" (pos 60))
            (positive_or (get_env_int e "BASE_DELAY_SECONDS" (pos 1)) (pos 1)) 10 60 base.0 base.1
            (omega arith) (omega arith);
      attempts_range = clip_attempts_range (get_env_int e "GLOBAL_MAX_ATTEMPTS" (pos 30));
    }
