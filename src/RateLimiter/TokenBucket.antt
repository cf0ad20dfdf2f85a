-- ===== src/RateLimiter/TokenBucket.antt =====
-- rate_limiter/token_bucket/main.go. The amounts are floats in the source; here they are exact, in
-- thousand-millionths of a token, and the rate is a whole number of tokens a second.
pub mod Laws
use system_design_implementa.Prelude.{
  ℕ, ◌+◌, ◌-◌, ◌*◌, Bool, true, false, not, List, [], ◌∷◌, String, Option, none, some, ltb, leb,
  if◌then◌else◌,
}
use system_design_implementa.Prelude.Assoc.{lookup, insert, retain}
use system_design_implementa.RateLimiter.Clock.{unit, tally}

pub record Bucket : Type 0 where
  pub capacity : ℕ
  pub tokens : ℕ
  pub rate : ℕ
  pub last_refill : ℕ
  pub last_seen : ℕ

pub record Limiter : Type 0 where
  pub store : List (String × Bucket)
  pub ttl : ℕ
  pub capacity : ℕ
  pub refill_rate : ℕ

abbrev pub new_limiter : ℕ → ℕ → ℕ → Limiter
new_limiter ttl capacity refill_rate = record {
  store = [];
  ttl = ttl;
  capacity = capacity;
  refill_rate = refill_rate;
}

-- The amount after the refill, cut off at the capacity.
abbrev pub refilled : Bucket → ℕ → ℕ
refilled b now =
    let t = b.tokens + (now - b.last_refill) * b.rate in if ltb b.capacity t then b.capacity else t

unfoldable pub allow : ℕ → Bucket → Bucket × Bool
allow now b =
    let tokens = refilled b now in
    if leb unit tokens
    then (record b { tokens = tokens - unit; last_refill = now; last_seen = now }, true)
    else (record b { tokens = tokens; last_refill = now; last_seen = now }, false)

-- The bucket of a host that the limiter meets at `now`.
unfoldable pub new_bucket : Limiter → ℕ → Bucket
new_bucket l now = record {
  capacity = l.capacity;
  tokens = l.capacity;
  rate = l.refill_rate;
  last_refill = now;
  last_seen = now;
}

unfoldable pub bucket_of : String → ℕ → Limiter → Bucket
bucket_of host now l = elim (lookup host l.store) [ none ↦ new_bucket l now | some b ↦ b ]

-- A request of `host`: the clock reads `now` when the bucket is looked up, and `then_now` in `allow`.
-- The answer is whether the request is served; else the status is 429.
unfoldable pub middleware : String → ℕ → ℕ → Limiter → Limiter × Bool
unfolding new_bucket bucket_of
middleware host now then_now l =
    let (b, served) = allow then_now (bucket_of host now l) in
    (record l { store = insert host b l.store }, served)

-- The buckets that have been idle for longer than the ttl go.
unfoldable pub evict_expired : ℕ → Limiter → Limiter
evict_expired now l = record l { store = retain (λ b. not (ltb l.ttl (now - b.last_seen))) l.store }

-- A sequence of requests to one bucket: how many are served.
unfoldable pub serve : Bucket → List ℕ → Bucket × ℕ
serve b [] = (b, 0)
serve b (t ∷ ts) =
    let (b', served) = allow t b in let (b'', n) = serve b' ts in (b'', tally served n)
