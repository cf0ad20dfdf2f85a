-- ===== src/JobQ/Backoff.antt =====
-- jobq/src/internal/scheduler/backoff.go: exponential backoff with full jitter. Durations are in
-- nanoseconds, as int64.
pub mod Bounds
use system_design_implementa.Prelude.{
  ℕ, suc, ◌+◌, ◌-◌, ◌*◌, ◌%◌, ◌^◌, ◌≤◌, ◌<◌, ◌≡◌, refl, Bool, true, false, Option, none, some, ◌||◌,
  ◌&&◌, arith, if◌then◌else◌, ltb, leb, min,
}
use system_design_implementa.Prelude.Int.{
  ℤ, pos, negsuc, pos_part, ◌*ℤ◌, ◌+ℤ◌, leb_ℤ, ltb_ℤ, wrap64, two_63,
}
use system_design_implementa.JobQ.Config.{Config}

-- A duration that is not positive is taken from the configuration, and then from a default.
unfoldable pub from_config : ℤ → (Config → ℤ) → Option Config → ℤ
from_config d seconds none = d
from_config d seconds (some cfg) =
    if leb_ℤ d (pos 0) then wrap64 (seconds cfg *ℤ pos 1_000_000_000) else d

unfoldable pub default_to : ℤ → ℤ → ℤ
default_to d fallback = if leb_ℤ d (pos 0) then fallback else d

pub base_delay_of : ℤ → Option Config → ℤ
unfolding from_config default_to
base_delay_of base cfg =
    default_to (from_config base (λ c. c.base_delay_seconds) cfg) (pos 1_000_000_000)

unfoldable pub max_delay_of : ℤ → Option Config → ℤ
unfolding from_config default_to
max_delay_of limit cfg =
    default_to (from_config limit (λ c. c.max_delay_seconds) cfg) (pos 60_000_000_000)

pub attempts_limit : Option Config → ℤ
attempts_limit none = pos 30
attempts_limit (some cfg) =
    if ltb_ℤ (pos 0) cfg.global_max_attempts then cfg.global_max_attempts else pos 30

pub clamp_attempts : ℤ → Option Config → ℤ
unfolding attempts_limit
clamp_attempts attempts cfg =
    let a = if ltb_ℤ attempts (pos 0) then pos 0 else attempts in
    if ltb_ℤ (attempts_limit cfg) a then attempts_limit cfg else a

-- The delay before the jitter. A shift by 64 or more gives 0, and so does 2 ^ n as an int64.
unfoldable pub window : ℤ → ℤ → ℤ → ℤ
window base limit attempts =
    let delay = wrap64 (base *ℤ pos (2 ^ pos_part attempts)) in
    if ltb_ℤ limit delay || leb_ℤ delay (pos 0) then limit else delay

-- `draw n` is what rand.Int64N answers to n; it panics unless n, an int64, is positive.
unfoldable pub int64_n : (ℕ → ℕ) → ℤ → Option ℕ
int64_n draw n = if ltb_ℤ (pos 0) n then some (draw (pos_part n)) else none

unfoldable pub compute_backoff : (ℕ → ℕ) → ℤ → ℤ → ℤ → Option Config → Option ℕ
unfolding base_delay_of max_delay_of clamp_attempts window int64_n
compute_backoff draw attempts base limit cfg = int64_n draw (
    wrap64 (
      window (base_delay_of base cfg) (max_delay_of limit cfg) (clamp_attempts attempts cfg)
      +ℤ pos 1))
