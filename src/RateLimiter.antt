-- ===== src/RateLimiter.antt =====
-- rate_limiter: four limiters behind an HTTP middleware. Time is in nanoseconds and is an argument
-- of each call; the clock is Go's, which does not run backwards.
pub mod Clock
pub mod Examples
pub mod TokenBucket
pub mod LeakingBucket
pub mod FixedWindow
pub mod SlidingWindow
