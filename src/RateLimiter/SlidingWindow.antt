-- ===== src/RateLimiter/SlidingWindow.antt =====
-- rate_limiter/sliding_window_counter/main.go, for requests of a host that come one after another.
-- The source weighs the window before in floating point and cuts the sum to an integer; the weight
-- here is the exact fraction, which is cut to the same integer up to rounding.
pub mod Laws
use system_design_implementa.Prelude.{
  ℕ, ◌+◌, ◌-◌, ◌/◌, ◌*◌, Bool, true, false, List, [], ◌∷◌, String, Option, none, some, leb, ◌==◌,
  if◌then◌else◌,
}
use system_design_implementa.Prelude.Assoc.{lookup, insert}
use system_design_implementa.RateLimiter.Clock.{unit, tally}

pub record WindowCounter : Type 0 where
  pub window_id : ℕ
  pub current_count : ℕ
  pub prev_count : ℕ

pub record WindowManager : Type 0 where
  pub window_size : ℕ
  pub limit : ℕ
  pub counter : WindowCounter
  pub last_seen : ℕ

pub record Limiter : Type 0 where
  pub store : List (String × WindowManager)
  pub window_size : ℕ
  pub limit : ℕ
  pub ttl : ℕ

-- The constructor panics unless the window size is positive.
unfoldable pub new_limiter : ℕ → ℕ → ℕ → Option Limiter
new_limiter window_size limit ttl =
    if window_size == 0
    then none
    else some (record { store = []; window_size = window_size; limit = limit; ttl = ttl })

-- now.Unix(): whole seconds.
abbrev pub unix : ℕ → ℕ
unix now = now / unit

unfoldable pub expired : ℕ → ℕ → WindowManager → Bool
expired now ttl wm = leb ttl (now - wm.last_seen)

-- The three branches on the window's number.
unfoldable pub turn : ℕ → WindowCounter → WindowCounter
turn id c =
    if c.window_id == id
    then c
    else if id == c.window_id + 1
    then record { window_id = id; current_count = 0; prev_count = c.current_count }
    else record { window_id = id; current_count = 0; prev_count = 0 }

-- The count with the part of the window before that the rolling window still covers.
unfoldable pub estimate : ℕ → ℕ → WindowCounter → ℕ
estimate now size c =
    let elapsed = unix now - unix now / size * size in
    c.current_count + c.prev_count * (size - elapsed) / size

unfoldable pub allow : ℕ → WindowManager → WindowManager × Bool
unfolding turn estimate
allow now wm =
    let c = turn (unix now / wm.window_size) wm.counter in
    if leb wm.limit (estimate now wm.window_size c)
    then (record wm { counter = c; last_seen = now }, false)
    else (
      record wm { counter = record c { current_count = c.current_count + 1 }; last_seen = now },
      true,
    )

unfoldable pub new_manager : Limiter → ℕ → WindowManager
new_manager l now = record {
  window_size = l.window_size;
  limit = l.limit;
  counter = record { window_id = 0; current_count = 0; prev_count = 0 };
  last_seen = now;
}

-- The manager that serves the host: an expired one is replaced.
unfoldable pub manager_of : Limiter → ℕ → Option WindowManager → WindowManager
unfolding new_manager expired
manager_of l now none = new_manager l now
manager_of l now (some wm) = if expired now l.ttl wm then new_manager l now else wm

unfoldable pub middleware : String → ℕ → ℕ → Limiter → Limiter × Bool
unfolding manager_of
middleware host now then_now l =
    let (wm, served) = allow then_now (manager_of l now (lookup host l.store)) in
    (record l { store = insert host wm l.store }, served)

-- How many of a sequence of requests are served in the window `w`.
unfoldable pub served_in : ℕ → WindowManager → List ℕ → ℕ
served_in w wm [] = 0
served_in w wm (t ∷ ts) =
    let (wm', served) = allow t wm in
    let n = served_in w wm' ts in if unix t / wm.window_size == w then tally served n else n
