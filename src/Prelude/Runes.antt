-- ===== src/Prelude/Runes.antt =====
-- Texts as lists of runes: what the packages strings and slices test of them.
use Prim.Native.Nat.{ℕ}
use mathlib.Core.Bool.{Bool, true, false, ◌&&◌, ◌||◌}
use mathlib.Core.List.{List, [], ◌∷◌}
use system_design_implementa.Prelude.Tests.{◌==◌}

-- Whether a text begins with another: strings.HasPrefix.
abbrev pub starts : List ℕ → List ℕ → Bool
starts [] ys = true
starts (x ∷ xs) [] = false
starts (x ∷ xs) (y ∷ ys) = x == y && starts xs ys

-- strings.Contains
unfoldable pub contains : List ℕ → List ℕ → Bool
contains p [] = starts p []
contains p (c ∷ s) = starts p (c ∷ s) || contains p s
