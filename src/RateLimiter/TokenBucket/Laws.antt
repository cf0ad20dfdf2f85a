-- ===== src/RateLimiter/TokenBucket/Laws.antt =====
-- How much a token bucket lets through, and when.
use system_design_implementa.Prelude.{
  ℕ, ◌+◌, ◌-◌, ◌*◌, ◌≤◌, ◌<◌, ◌≡◌, ap, ◌∙◌, true, List, [], ◌∷◌, arith,
}
use system_design_implementa.RateLimiter.Clock.{unit, IsClock, end_of, tally}
use system_design_implementa.RateLimiter.TokenBucket.{
  Bucket, Limiter, allow, serve, refilled, new_bucket,
}

pub allow-capacity :
    (now : ℕ) (b : Bucket)
    → ((allow now b).0.capacity ≡ b.capacity)
      × ((allow now b).0.rate ≡ b.rate)
      × ((allow now b).0.last_refill ≡ now)
unfolding allow
allow-capacity now b = ground arith

-- Tokens are never made up: what is left and what was let through came from the refill.
allow-budget :
    (now : ℕ) (b : Bucket)
    → (allow now b).0.tokens + tally (allow now b).1 0 * unit
      ≤ b.tokens + (now - b.last_refill) * b.rate
unfolding allow
allow-budget now b = ground arith

-- The tokens never exceed the capacity.
pub allow-tokens-le : (now : ℕ) (b : Bucket) → (allow now b).0.tokens ≤ b.capacity
unfolding allow
allow-tokens-le now b = ground arith

end-le : (t : ℕ) (ts : List ℕ) → IsClock t ts → t ≤ end_of t ts
end-le t [] c = omega arith
end-le t (s ∷ ts) c = omega (arith, end-le s ts c.1)

-- The refills of two spans of time are the refill of both.
spans : (a b c r : ℕ) → a ≤ b → b ≤ c → (b - a) * r + (c - b) * r ≡ (c - a) * r
spans a b c r h k =
    let e : (b - a) + (c - b) ≡ c - a = omega arith in omega (arith, ap (λ (n : ℕ). n * r) e)

-- In exact amounts, which float64 only comes near: over requests at times that do not run backwards, the
-- requests served cost at most the tokens at the start and the refill of the time that passed.
serve-budget :
    (last rate : ℕ) (b : Bucket) (ts : List ℕ)
    → b.last_refill ≡ last
    → b.rate ≡ rate
    → IsClock last ts
    → (serve b ts).0.tokens + (serve b ts).1 * unit ≤ b.tokens + (end_of last ts - last) * rate
unfolding serve
serve-budget last rate b [] l r c = omega arith
serve-budget last rate b (t ∷ ts) l r c =
    let kept = allow-capacity t b in
    let ih = serve-budget t rate (allow t b).0 ts kept.2 (kept.1 ∙ r) c.1 in
    let step = rw (l, r) at (allow-budget t b) in
    ground (arith, ih, step, spans last t (end_of t ts) rate c.0 (end-le t ts c.1))

-- A request to a bucket with room for a token that comes when the refill since the last one is
-- worth a token is served.
pub patient_served :
    (now : ℕ) (b : Bucket)
    → unit ≤ b.capacity
    → unit ≤ (now - b.last_refill) * b.rate
    → (allow now b).1 ≡ true
unfolding allow
patient_served now b h w = ground arith

mul_mono : (a b r : ℕ) → a ≤ b → a * r ≤ b * r
mul_mono a b r h = grind arith

refilled_full :
    (b : Bucket) (now : ℕ)
    → b.capacity ≤ b.tokens + (now - b.last_refill) * b.rate
    → refilled b now ≡ b.capacity
refilled_full b now h = ground arith

-- Two buckets that are full at `now` and agree otherwise answer alike.
allow-full :
    (b c : Bucket) (now : ℕ)
    → refilled b now ≡ b.capacity
    → refilled c now ≡ c.capacity
    → b.capacity ≡ c.capacity
    → b.rate ≡ c.rate
    → allow now b ≡ allow now c
unfolding allow
allow-full b c now f g e r = ground arith

-- When the limiter's ttl times its rate reaches its capacity, a bucket of that capacity and rate
-- that was idle for longer than the ttl answers a later request exactly as a new bucket made after
-- the eviction, and both are then the same.
pub eviction_unseen :
    (l : Limiter) (b : Bucket) (now created then_now : ℕ)
    → b.capacity ≡ l.capacity
    → b.rate ≡ l.refill_rate
    → b.last_refill ≡ b.last_seen
    → l.capacity ≤ l.ttl * l.refill_rate
    → b.last_seen + l.ttl < now
    → now ≤ created
    → created ≤ then_now
    → allow then_now b ≡ allow then_now (new_bucket l created)
unfolding new_bucket
eviction_unseen l b now created then_now c r s full idle p q =
    let idle_for = mul_mono l.ttl (then_now - b.last_refill) l.refill_rate (omega arith) in
    let same : (then_now - b.last_refill) * b.rate ≡ (then_now - b.last_refill) * l.refill_rate =
      ap (λ (n : ℕ). (then_now - b.last_refill) * n) r in
    allow-full b (new_bucket l created) then_now (refilled_full b then_now (omega arith))
      (refilled_full (new_bucket l created) then_now (omega arith)) c r
