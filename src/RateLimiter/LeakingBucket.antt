-- ===== src/RateLimiter/LeakingBucket.antt =====
-- rate_limiter/leaking_bucket/main.go. The amounts are floats in the source; here they are exact, in
-- thousand-millionths of a request, so that `epsilon` is 1, and the leak rate is a whole number of
-- requests a second.
pub mod Laws
use system_design_implementa.Prelude.{
  ℕ, ◌+◌, ◌-◌, ◌*◌, Bool, true, false, List, [], ◌∷◌, String, Option, none, some, ltb,
  if◌then◌else◌,
}
use system_design_implementa.Prelude.Assoc.{lookup, insert, remove}
use system_design_implementa.RateLimiter.Clock.{unit, tally}

abbrev pub epsilon : ℕ
epsilon = 1

pub record Bucket : Type 0 where
  pub capacity : ℕ
  pub level : ℕ
  pub leak_rate : ℕ
  pub last_drain : ℕ
  pub last_seen : ℕ

pub record Limiter : Type 0 where
  pub store : List (String × Bucket)
  pub capacity : ℕ
  pub leak_rate : ℕ
  pub ttl : ℕ

abbrev pub new_limiter : ℕ → ℕ → ℕ → Limiter
new_limiter capacity leak_rate ttl = record {
  store = [];
  capacity = capacity;
  leak_rate = leak_rate;
  ttl = ttl;
}

-- The level after the leak: `-` on ℕ is the source's max(0, level - drained).
abbrev pub drained : Bucket → ℕ → ℕ
drained b now =
    let level = b.level - b.leak_rate * (now - b.last_drain) in
    if ltb b.capacity level then b.capacity else level

unfoldable pub allow : ℕ → Bucket → Bucket × Bool
allow now b =
    let level = drained b now in
    if ltb (b.capacity + epsilon) (level + unit)
    then (record b { level = level; last_drain = now; last_seen = now }, false)
    else (record b { level = level + unit; last_drain = now; last_seen = now }, true)

-- The clock is read twice for the two times.
unfoldable pub new_bucket : Limiter → ℕ → ℕ → Bucket
new_bucket l drain_now seen_now = record {
  capacity = l.capacity;
  level = 0;
  leak_rate = l.leak_rate;
  last_drain = drain_now;
  last_seen = seen_now;
}

-- The readings of the clock in one request, in the order in which they are taken.
pub record Readings : Type 0 where
  pub looked_up : ℕ
  pub drain : ℕ
  pub seen : ℕ
  pub allowed : ℕ

-- The bucket that serves the host: a bucket that was idle for longer than the ttl is replaced.
unfoldable pub bucket_of : Limiter → Readings → Option Bucket → Bucket
unfolding new_bucket
bucket_of l r none = new_bucket l r.drain r.seen
bucket_of l r (some b) =
    if ltb l.ttl (r.looked_up - b.last_seen) then new_bucket l r.drain r.seen else b

unfoldable pub middleware : String → Readings → Limiter → Limiter × Bool
unfolding bucket_of
middleware host r l =
    let (b, served) = allow r.allowed (bucket_of l r (lookup host l.store)) in
    (record l { store = insert host b l.store }, served)

unfoldable pub serve : Bucket → List ℕ → Bucket × ℕ
serve b [] = (b, 0)
serve b (t ∷ ts) =
    let (b', served) = allow t b in let (b'', n) = serve b' ts in (b'', tally served n)
