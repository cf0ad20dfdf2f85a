-- ===== src/RateLimiter/FixedWindow/Laws.antt =====
-- The limit of a window, and what the ttl may do to it.
use system_design_implementa.Prelude.{
  ℕ, ◌+◌, ◌-◌, ◌/◌, ◌≤◌, ◌<◌, ◌≡◌, ap, Bool, true, false, List, [], ◌∷◌, arith, ltb, ◌==◌,
  if◌then◌else◌,
}
use system_design_implementa.RateLimiter.Clock.{IsClock, tally}
use system_design_implementa.RateLimiter.FixedWindow.{WindowManager, allow, served_in, unix}

allow-kept :
    (now : ℕ) (wm : WindowManager)
    → ((allow now wm).0.window_size ≡ wm.window_size)
      × ((allow now wm).0.limit ≡ wm.limit)
      × ((allow now wm).0.counter.window_id ≡ unix now / wm.window_size)
unfolding allow
allow-kept now wm = ground arith

-- What the window `w` has left.
abbrev room : ℕ → ℕ → WindowManager → ℕ
room limit w wm =
    if wm.counter.window_id == w
    then limit - wm.counter.count
    else if ltb wm.counter.window_id w
    then limit
    else 0

allow-room :
    (w now : ℕ) (wm : WindowManager)
    → wm.counter.window_id ≤ unix now / wm.window_size
    → (if unix now / wm.window_size == w then tally (allow now wm).1 0 else 0)
        + room wm.limit w (allow now wm).0
      ≤ room wm.limit w wm
unfolding allow
allow-room w now wm h = ground arith

pub div-le : (a b n : ℕ) → a ≤ b → a / n ≤ b / n
div-le a b n h = grind arith

later_window : (a b size : ℕ) → a ≤ b → unix a / size ≤ unix b / size
later_window a b size h = div-le (unix a) (unix b) size (omega arith)

pub weigh :
    (here served : Bool) (n left all : ℕ)
    → n ≤ left
    → (if here then tally served 0 else 0) + left ≤ all
    → (if here then tally served n else n) ≤ all
weigh false served n left all h k = omega arith
weigh true false n left all h k = omega arith
weigh true true n left all h k = omega arith

served_in-room :
    (w last : ℕ) (wm : WindowManager) (ts : List ℕ)
    → wm.counter.window_id ≤ unix last / wm.window_size
    → IsClock last ts
    → served_in w wm ts ≤ room wm.limit w wm
unfolding served_in
served_in-room w last wm [] h c = omega arith
served_in-room w last wm (t ∷ ts) h c =
    let kept = allow-kept t wm in
    let size = ap (λ (n : ℕ). unix t / n) (kept.0) in
    let ih = served_in-room w t (allow t wm).0 ts (omega (arith, kept.2, size)) c.1 in
    let same_room = ap (λ (n : ℕ). room n w (allow t wm).0) (kept.1) in
    let step = allow-room w t wm (omega (arith, later_window last t wm.window_size c.0)) in
    weigh (unix t / wm.window_size == w) (allow t wm).1 (served_in w (allow t wm).0 ts)
      (room wm.limit w (allow t wm).0) (room wm.limit w wm) (omega (arith, ih, same_room)) step

-- A manager with a positive window size serves at most `limit` requests in any one window, over requests
-- one after another at times that do not run backwards and start no earlier than the counter's window.
pub served_in-le :
    (w last : ℕ) (wm : WindowManager) (ts : List ℕ)
    → 0 < wm.window_size
    → wm.counter.window_id ≤ unix last / wm.window_size
    → IsClock last ts
    → served_in w wm ts ≤ wm.limit
served_in-le w last wm ts p h c = ground (arith, served_in-room w last wm ts h c)
