-- ===== src/Chat/Print.antt =====
-- What chat_system uses of fmt.Sprintf: texts one after the other, and %d.
use system_design_implementa.Prelude.{
  ℕ, zero, suc, ◌+◌, ◌/◌, ◌%◌, List, [], ◌∷◌, String, if◌then◌else◌, ltb, ◌≡◌, refl,
}
use Prim.Native.String as Native

abbrev pub concat : List String → String
concat [] = ""
concat (s ∷ ss) = Native.◌++◌ s (concat ss)

-- The digits of a number before those that are written already; `fuel` above the number is enough.
digits : ℕ → ℕ → String → String
digits zero n written = written
digits (suc fuel) n written =
    let written' = Native.◌++◌ (Native.slice "0123456789" (n % 10) (n % 10 + 1)) written in
    let rest = digits fuel (n / 10) written' in if ltb n 10 then written' else rest

unfoldable pub decimal : ℕ → String
unfolding digits
decimal n = digits (suc n) n ""

decimal_test : decimal 1204 ≡ "1204"
unfolding decimal
decimal_test = refl
