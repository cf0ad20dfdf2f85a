-- ===== src/SearchAutocomplete/Text/Numbers.antt =====
-- Numbers are read back as they are printed.
use system_design_implementa.Prelude.{
  ℕ, zero, suc, ◌+◌, ◌/◌, ◌%◌, ◌<◌, ◌≡◌, refl, Bool, true, false, ◌&&◌, List, [], ◌∷◌, some, arith,
}
use system_design_implementa.Prelude.Int.{pos, two_63}
use system_design_implementa.SearchAutocomplete.Text.{
  is_space, is_empty, is_digit, read_digits, atoi, write_digits, decimal,
}
use system_design_implementa.SearchAutocomplete.Text.Words.{no_space, no_tab}

read-write_digits :
    (fuel n : ℕ) (w : List ℕ) → n < fuel → read_digits 0 (write_digits fuel n w) ≡ read_digits n w
unfolding read_digits write_digits
read-write_digits zero n w h = absurd (omega arith)
read-write_digits (suc fuel) n w h =
    ground (arith, read-write_digits fuel (n / 10) ((48 + n % 10) ∷ w))

abbrev pub all_digits : List ℕ → Bool
all_digits [] = true
all_digits (c ∷ cs) = is_digit c && all_digits cs

write-all_digits :
    (fuel n : ℕ) (w : List ℕ) → all_digits w ≡ true → all_digits (write_digits fuel n w) ≡ true
unfolding write_digits
write-all_digits zero n w e = e
write-all_digits (suc fuel) n w e =
    ground (arith, write-all_digits fuel (n / 10) ((48 + n % 10) ∷ w))

write-not_empty : (fuel n : ℕ) (c : ℕ) (w : List ℕ) → is_empty (write_digits fuel n (c ∷ w)) ≡ false
unfolding write_digits
write-not_empty zero n c w = refl
write-not_empty (suc fuel) n c w =
    ground (arith, write-not_empty fuel (n / 10) (48 + n % 10) (c ∷ w))

-- The digits of a number: at least one, and nothing else.
pub decimal-digits : (n : ℕ) → (all_digits (decimal n) ≡ true) × (is_empty (decimal n) ≡ false)
unfolding decimal write_digits
decimal-digits n = (
  write-all_digits (suc n) n [] refl,
  ground (arith, write-not_empty n (n / 10) (48 + n % 10) []),
)

digits-atoi :
    (n : ℕ) (s : List ℕ)
    → n < two_63
    → all_digits s ≡ true
    → is_empty s ≡ false
    → read_digits 0 s ≡ some n
    → atoi s ≡ some (pos n)
unfolding atoi
digits-atoi n [] h a e r = absurd (cc)
digits-atoi n (c ∷ s) h a e r = ground arith

pub atoi-decimal : (n : ℕ) → n < two_63 → atoi (decimal n) ≡ some (pos n)
unfolding decimal read_digits
atoi-decimal n h =
    let (a, e) = decimal-digits n in
    digits-atoi n (decimal n) h a e (read-write_digits (suc n) n [] (omega arith))

pub digits-no_space : (s : List ℕ) → all_digits s ≡ true → no_space s ≡ true
unfolding is_space
digits-no_space [] e = refl
digits-no_space (c ∷ s) e = ground (arith, digits-no_space s)

pub digits-no_tab : (s : List ℕ) → all_digits s ≡ true → no_tab s ≡ true
digits-no_tab [] e = refl
digits-no_tab (c ∷ s) e = ground (arith, digits-no_tab s)
