-- ===== src/RateLimiter/Examples.antt =====
-- The limiters at concrete requests.
use system_design_implementa.Prelude.{ℕ, ◌*◌, ◌≤◌, ◌≡◌, refl, List, [], ◌∷◌, arith}
use system_design_implementa.RateLimiter.Clock.{unit, IsClock}
use system_design_implementa.RateLimiter.TokenBucket
use system_design_implementa.RateLimiter.FixedWindow
use system_design_implementa.RateLimiter.FixedWindow.Laws.{served_in-le}

abbrev times : List ℕ
times = 1 ∷ 1 ∷ 2 ∷ 2_000_000_000 ∷ []

times-IsClock : IsClock 0 times
times-IsClock = (omega arith, (omega arith, (omega arith, (omega arith, tt))))

-- Two tokens, refilled by one a second.
abbrev tokens : TokenBucket.Bucket
tokens = record { capacity = 2 * unit; tokens = 2 * unit; rate = 1; last_refill = 0; last_seen = 0 }

token_bucket_test : (TokenBucket.serve tokens times).1 ≡ 3
unfolding TokenBucket.serve TokenBucket.allow
token_bucket_test = refl

abbrev fixed : FixedWindow.WindowManager
fixed = record {
  window_size = 5;
  limit = 2;
  counter = record { window_id = 0; count = 0 };
  last_seen = 0;
}

fixed_window_test : FixedWindow.served_in 0 fixed times ≡ 2
unfolding FixedWindow.served_in FixedWindow.allow
fixed_window_test = refl

served_in-le_example : FixedWindow.served_in 0 fixed times ≤ 2
served_in-le_example = served_in-le 0 0 fixed times (omega arith) (omega arith) times-IsClock
