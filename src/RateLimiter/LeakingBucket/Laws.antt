-- ===== src/RateLimiter/LeakingBucket/Laws.antt =====
-- How much a leaking bucket lets through.
use system_design_implementa.Prelude.{
  ℕ, ◌+◌, ◌-◌, ◌*◌, ◌≤◌, ◌≡◌, refl, ap, ◌∙◌, true, List, [], ◌∷◌, arith, min,
}
use system_design_implementa.RateLimiter.Clock.{unit, IsClock, end_of, tally}
use system_design_implementa.RateLimiter.LeakingBucket.{Bucket, allow, serve, epsilon}

-- The level after a request stays within the capacity and epsilon.
pub allow-level-le : (now : ℕ) (b : Bucket) → (allow now b).0.level ≤ b.capacity + epsilon
unfolding allow
allow-level-le now b = ground arith

allow-kept :
    (now : ℕ) (b : Bucket)
    → ((allow now b).0.capacity ≡ b.capacity)
      × ((allow now b).0.leak_rate ≡ b.leak_rate)
      × ((allow now b).0.last_drain ≡ now)
unfolding allow
allow-kept now b = ground arith

-- What counts of the level: the part within the capacity.
abbrev held : Bucket → ℕ
held b = min b.level b.capacity

allow-budget :
    (now : ℕ) (b : Bucket)
    → held b + tally (allow now b).1 0 * (unit - epsilon)
      ≤ held (allow now b).0 + b.leak_rate * (now - b.last_drain)
unfolding allow
allow-budget now b = ground arith

end-le : (t : ℕ) (ts : List ℕ) → IsClock t ts → t ≤ end_of t ts
end-le t [] c = omega arith
end-le t (s ∷ ts) c = omega (arith, end-le s ts c.1)

spans : (a b c r : ℕ) → a ≤ b → b ≤ c → r * (b - a) + r * (c - b) ≡ r * (c - a)
spans a b c r h k =
    let e : (b - a) + (c - b) ≡ c - a = omega arith in omega (arith, ap (λ (n : ℕ). r * n) e)

serve-budget :
    (last rate : ℕ) (b : Bucket) (ts : List ℕ)
    → b.last_drain ≡ last
    → b.leak_rate ≡ rate
    → IsClock last ts
    → held b + (serve b ts).1 * (unit - epsilon)
      ≤ held (serve b ts).0 + rate * (end_of last ts - last)
unfolding serve
serve-budget last rate b [] l r c = omega arith
serve-budget last rate b (t ∷ ts) l r c =
    let kept = allow-kept t b in
    let ih = serve-budget t rate (allow t b).0 ts kept.2 (kept.1 ∙ r) c.1 in
    let step = rw (l, r) at (allow-budget t b) in
    ground (arith, ih, step, spans last t (end_of t ts) rate c.0 (end-le t ts c.1))

serve-capacity : (b : Bucket) (ts : List ℕ) → (serve b ts).0.capacity ≡ b.capacity
unfolding serve
serve-capacity b [] = refl
serve-capacity b (t ∷ ts) = serve-capacity (allow t b).0 ts ∙ (allow-kept t b).0

-- Over any sequence of requests at times that do not run backwards, the requests served, each worth
-- a unit less epsilon, fit the capacity and what leaked in the time that passed.
pub serve-le_leak :
    (b : Bucket) (ts : List ℕ)
    → IsClock b.last_drain ts
    → (serve b ts).1 * (unit - epsilon)
      ≤ b.capacity + b.leak_rate * (end_of b.last_drain ts - b.last_drain)
serve-le_leak b ts c =
    omega (arith, serve-budget b.last_drain b.leak_rate b ts refl refl c, serve-capacity b ts)

-- An empty bucket with room for a request serves one.
pub empty_serves : (now : ℕ) (b : Bucket) → b.level ≡ 0 → unit ≤ b.capacity → (allow now b).1 ≡ true
unfolding allow
empty_serves now b e h = ground arith
