-- ===== src/RateLimiter/FixedWindow.antt =====
-- rate_limiter/fixed_window_counter/main.go, for requests of a host that come one after another.
pub mod Laws
use system_design_implementa.Prelude.{
  ℕ, suc, ◌+◌, ◌-◌, ◌/◌, ◌*◌, Bool, true, false, List, [], ◌∷◌, String, Option, none, some, ltb,
  leb, ◌==◌, if◌then◌else◌,
}
use system_design_implementa.Prelude.Assoc.{lookup, insert, remove}
use system_design_implementa.RateLimiter.Clock.{unit, tally}

pub record WindowCounter : Type 0 where
  pub window_id : ℕ
  pub count : ℕ

pub record WindowManager : Type 0 where
  pub window_size : ℕ
  pub limit : ℕ
  pub counter : WindowCounter
  pub last_seen : ℕ

pub record Limiter : Type 0 where
  pub store : List (String × WindowManager)
  pub window_size : ℕ
  pub limit : ℕ
  pub ttl : ℕ

-- The constructor panics unless the window size is positive.
unfoldable pub new_limiter : ℕ → ℕ → ℕ → Option Limiter
new_limiter window_size limit ttl =
    if window_size == 0
    then none
    else some (record { store = []; window_size = window_size; limit = limit; ttl = ttl })

-- now.Unix(): whole seconds.
abbrev pub unix : ℕ → ℕ
unix now = now / unit

unfoldable pub expired : ℕ → ℕ → WindowManager → Bool
expired now ttl wm = leb ttl (now - wm.last_seen)

-- The counter, reset where the window has changed.
abbrev pub current : ℕ → WindowManager → WindowCounter
current id wm =
    if wm.counter.window_id == id then wm.counter else record { window_id = id; count = 0 }

unfoldable pub allow : ℕ → WindowManager → WindowManager × Bool
allow now wm =
    let c = current (unix now / wm.window_size) wm in
    if leb wm.limit c.count
    then (record wm { counter = c; last_seen = now }, false)
    else (record wm { counter = record c { count = c.count + 1 }; last_seen = now }, true)

unfoldable pub new_manager : Limiter → ℕ → WindowManager
new_manager l now = record {
  window_size = l.window_size;
  limit = l.limit;
  counter = record { window_id = 0; count = 0 };
  last_seen = now;
}

-- The manager that serves the host: an expired one is replaced.
unfoldable pub manager_of : Limiter → ℕ → Option WindowManager → WindowManager
unfolding new_manager expired
manager_of l now none = new_manager l now
manager_of l now (some wm) = if expired now l.ttl wm then new_manager l now else wm

unfoldable pub middleware : String → ℕ → ℕ → Limiter → Limiter × Bool
unfolding manager_of
middleware host now then_now l =
    let (wm, served) = allow then_now (manager_of l now (lookup host l.store)) in
    (record l { store = insert host wm l.store }, served)

-- How many of a sequence of requests are served in the window `w`.
unfoldable pub served_in : ℕ → WindowManager → List ℕ → ℕ
served_in w wm [] = 0
served_in w wm (t ∷ ts) =
    let (wm', served) = allow t wm in
    let n = served_in w wm' ts in if unix t / wm.window_size == w then tally served n else n
