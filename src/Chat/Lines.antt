-- ===== src/Chat/Lines.antt =====
-- chat_system/cmd/api/main.go: what handleConn makes of a line.
pub mod Laws
use Prim.Native.Char.{Char, code}
use system_design_implementa.Prelude.{
  ℕ, ◌+◌, ◌≡◌, ◌≢◌, refl, ap, Bool, true, false, not, ◌&&◌, ◌||◌, List, [], ◌∷◌, Option, none, some,
  String, str_eq, str_eq_iff, if◌then◌else◌, ◌==◌, leb, arith, Bool-cases, Option-cases, inl, inr,
}
use system_design_implementa.Chat.Broadcast.{Kind, Message}

-- unicode.IsSpace
unfoldable pub is_space : ℕ → Bool
is_space c =
    (leb 9 c && leb c 13)
    || c == 32
    || c == 0x85
    || c == 0xA0
    || c == 0x1680
    || (leb 0x2000 c && leb c 0x200a)
    || c == 0x2028
    || c == 0x2029
    || c == 0x202f
    || c == 0x205f
    || c == 0x3000

unfoldable pub trim_left : String → String
trim_left String.[] = ""
trim_left (String.◌∷◌ c s) =
    let rest = trim_left s in if is_space (code c) then rest else String.◌∷◌ c s

abbrev pub is_empty : String → Bool
is_empty String.[] = true
is_empty (String.◌∷◌ c s) = false

unfoldable pub trim_right : String → String
trim_right String.[] = ""
trim_right (String.◌∷◌ c s) =
    let rest = trim_right s in if is_space (code c) && is_empty rest then "" else String.◌∷◌ c rest

-- strings.TrimSpace
unfoldable pub trim_space : String → String
unfolding trim_left trim_right
trim_space s = trim_right (trim_left s)

-- What follows a prefix, when it is there: HasPrefix and TrimPrefix.
unfoldable pub after_prefix : String → String → Option String
after_prefix String.[] s = some s
after_prefix (String.◌∷◌ c p) String.[] = none
after_prefix (String.◌∷◌ c p) (String.◌∷◌ d s) = if code c == code d then after_prefix p s else none

-- The message for a line; none for a line of spaces.
unfoldable pub message_of : String → String → Option Message
unfolding trim_space after_prefix
message_of name line =
    let text = trim_space line in
    elim (after_prefix "#join " text) [
      | some room ↦ some (record { client_name = name; kind = Kind.cmd_join; text = room })
      | none ↦
          if str_eq text "#leave"
          then some (record { client_name = name; kind = Kind.cmd_leave; text = "" })
          else if str_eq text "#getrooms"
          then some (record { client_name = name; kind = Kind.cmd_getrooms; text = "" })
          else if str_eq text ""
          then none
          else some (record { client_name = name; kind = Kind.msg; text = text })
    ]

join_test :
    message_of "a" "  #join  den \r\n"
    ≡ some (record { client_name = "a"; kind = Kind.cmd_join; text = " den" })
unfolding message_of is_space
join_test = refl
