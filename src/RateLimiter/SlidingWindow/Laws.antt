-- ===== src/RateLimiter/SlidingWindow/Laws.antt =====
-- The limit of a window that slides, and what the window before leaves of it.
use system_design_implementa.Prelude.{
  ℕ, ◌+◌, ◌-◌, ◌*◌, ◌/◌, ◌≤◌, ◌<◌, ◌≡◌, ap, ◌∙◌, false, List, [], ◌∷◌, arith, ltb, ◌==◌,
  if◌then◌else◌,
}
use native.Mathlib.Nat.{mul-div_left}
use system_design_implementa.RateLimiter.Clock.{unit, IsClock, tally}
use system_design_implementa.RateLimiter.FixedWindow.Laws.{weigh, div-le}
use system_design_implementa.RateLimiter.SlidingWindow.{WindowManager, allow, served_in, unix}

allow-kept :
    (now : ℕ) (wm : WindowManager)
    → ((allow now wm).0.window_size ≡ wm.window_size)
      × ((allow now wm).0.limit ≡ wm.limit)
      × ((allow now wm).0.counter.window_id ≡ unix now / wm.window_size)
unfolding allow
allow-kept now wm = ground arith

-- No window's count exceeds the limit.
pub allow-IsWithin :
    (now : ℕ) (wm : WindowManager)
    → wm.counter.current_count ≤ wm.limit
    → wm.counter.prev_count ≤ wm.limit
    → ((allow now wm).0.counter.current_count ≤ wm.limit)
      × ((allow now wm).0.counter.prev_count ≤ wm.limit)
unfolding allow
allow-IsWithin now wm h k = ground arith

-- What the window `w` has left.
abbrev room : ℕ → ℕ → WindowManager → ℕ
room limit w wm =
    if wm.counter.window_id == w
    then limit - wm.counter.current_count
    else if ltb wm.counter.window_id w
    then limit
    else 0

allow-room :
    (w now : ℕ) (wm : WindowManager)
    → wm.counter.window_id ≤ unix now / wm.window_size
    → (if unix now / wm.window_size == w then tally (allow now wm).1 0 else 0)
        + room wm.limit w (allow now wm).0
      ≤ room wm.limit w wm
unfolding allow
allow-room w now wm h = ground arith

served_in-room :
    (w last : ℕ) (wm : WindowManager) (ts : List ℕ)
    → wm.counter.window_id ≤ unix last / wm.window_size
    → IsClock last ts
    → served_in w wm ts ≤ room wm.limit w wm
unfolding served_in
served_in-room w last wm [] h c = omega arith
served_in-room w last wm (t ∷ ts) h c =
    let kept = allow-kept t wm in
    let size = ap (λ (n : ℕ). unix t / n) (kept.0) in
    let ih = served_in-room w t (allow t wm).0 ts (omega (arith, kept.2, size)) c.1 in
    let same_room = ap (λ (n : ℕ). room n w (allow t wm).0) (kept.1) in
    let later = div-le (unix last) (unix t) wm.window_size (div-le last t unit c.0) in
    let step = allow-room w t wm (omega (arith, later)) in
    weigh (unix t / wm.window_size == w) (allow t wm).1 (served_in w (allow t wm).0 ts)
      (room wm.limit w (allow t wm).0) (room wm.limit w wm) (omega (arith, ih, same_room)) step

-- In any one window at most `limit` requests are served, at times that do not run backwards and
-- start no earlier than the counter's window.
pub sliding_served_in-le :
    (w last : ℕ) (wm : WindowManager) (ts : List ℕ)
    → wm.counter.window_id ≤ unix last / wm.window_size
    → IsClock last ts
    → served_in w wm ts ≤ wm.limit
sliding_served_in-le w last wm ts h c = ground (arith, served_in-room w last wm ts h c)

-- A request within the first second of the window right after the counter's is refused when the
-- counter's window was served up to the limit.
pub boundary_burst :
    (now : ℕ) (wm : WindowManager)
    → 0 < wm.window_size
    → unix now ≡ (wm.counter.window_id + 1) * wm.window_size
    → wm.limit ≤ wm.counter.current_count
    → (allow now wm).1 ≡ false
unfolding allow
boundary_burst now wm h e f =
    let size = wm.window_size in
    let id : unix now / size ≡ wm.counter.window_id + 1 =
      ap (λ (n : ℕ). n / size) e ∙ mul-div_left (wm.counter.window_id + 1) h in
    let start : size - (unix now - unix now / size * size) ≡ size =
      omega (arith, e, ap (λ (n : ℕ). n * size) id) in
    let whole : wm.counter.current_count * (size - (unix now - unix now / size * size)) / size
        ≡ wm.counter.current_count =
      ap (λ (n : ℕ). wm.counter.current_count * n / size) start
      ∙ mul-div_left wm.counter.current_count h in
    ground (arith, id, whole)
