-- ===== src/JobQ/Validator.antt =====
-- jobq/src/internal/validator/validator.go.
use system_design_implementa.Prelude.{
  ℕ, Bool, true, false, List, [], ◌∷◌, ◌&&◌, ◌||◌, String, str_eq, leb, ◌==◌, if◌then◌else◌, length,
  codes,
}

-- The map of errors, by key.
pub record Validator : Type 0 where
  pub errors : List (String × String)

abbrev pub new_validator : Validator
new_validator = record { errors = [] }

abbrev pub is_empty : List (String × String) → Bool
is_empty [] = true
is_empty (_ ∷ _) = false

unfoldable pub valid : Validator → Bool
valid v = is_empty v.errors

abbrev pub has_key : String → List (String × String) → Bool
has_key k [] = false
has_key k ((j, m) ∷ es) = str_eq j k || has_key k es

-- The first message under a key stays.
unfoldable pub add_error : String → String → Validator → Validator
add_error key message v =
    if has_key key v.errors then v else record v { errors = (key, message) ∷ v.errors }

unfoldable pub check : Bool → String → String → Validator → Validator
unfolding add_error
check passes key message v = if passes then v else add_error key message v

abbrev pub is_between : ℕ → ℕ → ℕ → Bool
is_between lo hi c = leb lo c && leb c hi

-- [a-zA-Z0-9_-]
abbrev pub is_name_char : ℕ → Bool
is_name_char c =
    is_between b'a' b'z' c
    || is_between b'A' b'Z' c
    || is_between b'0' b'9' c
    || c == b'_'
    || c == b'-'

abbrev pub all_name_chars : List ℕ → Bool
all_name_chars [] = true
all_name_chars (c ∷ cs) = is_name_char c && all_name_chars cs

-- QueueNameRX: ^[a-zA-Z0-9_-]{1,100}$
unfoldable pub is_valid_queue_name : String → Bool
is_valid_queue_name name = is_between 1 100 (length (codes name)) && all_name_chars (codes name)
