-- ===== src/RateLimiter/Clock.antt =====
-- Readings of a clock, and the scale of the limiters' amounts.
use system_design_implementa.Prelude.{ℕ, ◌≤◌, suc, List, [], ◌∷◌, Bool, true, false}

-- One token, or one request in a bucket: amounts are kept in thousand-millionths, so that a rate of
-- whole units a second is the amount for each nanosecond.
abbrev pub unit : ℕ
unit = 1_000_000_000

-- Readings that do not run backwards from `last` on.
abbrev pub IsClock : ℕ → List ℕ → Type 0
IsClock last [] = Unit {0}
IsClock last (t ∷ ts) = (last ≤ t) × IsClock t ts

abbrev pub end_of : ℕ → List ℕ → ℕ
end_of last [] = last
end_of last (t ∷ ts) = end_of t ts

abbrev pub tally : Bool → ℕ → ℕ
tally true n = suc n
tally false n = n
