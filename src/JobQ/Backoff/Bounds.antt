-- ===== src/JobQ/Backoff/Bounds.antt =====
-- The backoff never passes its maximum, whatever the inputs and however the products wrap.
use system_design_implementa.Prelude.{
  ℕ, ◌+◌, ◌-◌, ◌*◌, ◌^◌, ◌<◌, ◌≡◌, ap, ◌∙◌, Option, none, some, arith, min,
}
use system_design_implementa.Prelude.Int.{
  ℤ, pos, negsuc, ◌*ℤ◌, ◌+ℤ◌, ◌≤ℤ◌, wrap64, wrap64-pos, pos-+ℤ-pos, pos-*ℤ-pos, two_63,
}
use system_design_implementa.JobQ.Config.{Config}
use system_design_implementa.JobQ.Backoff.{
  default_to, base_delay_of, max_delay_of, clamp_attempts, attempts_limit, window, int64_n,
  compute_backoff, from_config,
}

-- What math/rand documents of Int64N: the answer to a positive n lies below n.
abbrev pub IsDraw : (ℕ → ℕ) → Type 0
IsDraw draw = (n : ℕ) → 0 < n → draw n < n

default_to-positive : (d fallback : ℤ) → pos 1 ≤ℤ fallback → pos 1 ≤ℤ default_to d fallback
unfolding default_to
default_to-positive d fallback h = ground arith

max_delay_of-positive : (limit : ℤ) (cfg : Option Config) → pos 1 ≤ℤ max_delay_of limit cfg
unfolding max_delay_of
max_delay_of-positive limit cfg =
    default_to-positive (from_config limit (λ c. c.max_delay_seconds) cfg) (pos 60_000_000_000)
      (omega arith)

window_range :
    (base limit attempts : ℤ)
    → pos 1 ≤ℤ limit
    → (pos 1 ≤ℤ window base limit attempts) × (window base limit attempts ≤ℤ limit)
unfolding window
window_range base limit attempts h = ground arith

drawn :
    (draw : ℕ → ℕ) (w limit : ℤ)
    → IsDraw draw
    → pos 1 ≤ℤ w
    → w ≤ℤ limit
    → limit ≤ℤ pos (two_63 - 2)
    → (d : ℕ) × (int64_n draw (wrap64 (w +ℤ pos 1)) ≡ some d) × (pos d ≤ℤ limit)
unfolding int64_n
drawn draw (negsuc w) limit law h l b = absurd (omega arith)
drawn draw (pos w) limit law h l b =
    let value : wrap64 (pos w +ℤ pos 1) ≡ pos (w + 1) =
      ap wrap64 (pos-+ℤ-pos w 1) ∙ wrap64-pos (w + 1) (omega arith) in
    (draw (w + 1), rw value (ground arith), omega (arith, law (w + 1)))

-- ComputeBackoff answers with a delay of at most its maximum, for every number of attempts, every
-- base and maximum and every configuration, when the random draw stays below its bound and the
-- maximum is not the last int64.
pub compute_backoff_bounded :
    (draw : ℕ → ℕ) (attempts base limit : ℤ) (cfg : Option Config)
    → IsDraw draw
    → max_delay_of limit cfg ≤ℤ pos (two_63 - 2)
    → (d : ℕ) × (compute_backoff draw attempts base limit cfg ≡ some d)
      × (pos d ≤ℤ max_delay_of limit cfg)
unfolding compute_backoff
compute_backoff_bounded draw attempts base limit cfg law h =
    let m = max_delay_of limit cfg in
    let w =
      window_range (base_delay_of base cfg) m (clamp_attempts attempts cfg)
        (max_delay_of-positive limit cfg) in
    drawn draw (window (base_delay_of base cfg) m (clamp_attempts attempts cfg)) m law w.0 w.1 h

-- The number of doublings lies between 0 and the limit.
pub clamp_attempts_range :
    (attempts : ℤ) (cfg : Option Config)
    → (pos 0 ≤ℤ clamp_attempts attempts cfg) × (clamp_attempts attempts cfg ≤ℤ attempts_limit cfg)
unfolding clamp_attempts attempts_limit
clamp_attempts_range attempts none = ground arith
clamp_attempts_range attempts (some cfg) = ground arith

-- When the base times two to the attempts is positive and fits an int64, the window before the
-- jitter is that product, cut off at the maximum.
pub window-exact :
    (b limit n : ℕ)
    → 0 < b * 2 ^ n
    → b * 2 ^ n < two_63
    → window (pos b) (pos limit) (pos n) ≡ pos (min (b * 2 ^ n) limit)
unfolding window
window-exact b limit n h f =
    let value : wrap64 (pos b *ℤ pos (2 ^ n)) ≡ pos (b * 2 ^ n) =
      ap wrap64 (pos-*ℤ-pos b (2 ^ n)) ∙ wrap64-pos (b * 2 ^ n) f in
    rw value (ground arith)
