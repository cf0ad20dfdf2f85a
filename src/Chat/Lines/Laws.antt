-- ===== src/Chat/Lines/Laws.antt =====
-- What handleConn sends is in order: it joins no room without a name.
use Prim.Native.Char.{code}
use system_design_implementa.Prelude.{
  ◌≡◌, ◌≢◌, refl, ap, ◌∙◌, Bool, true, false, some, String, str_eq, str_eq_iff, if◌then◌else◌, ◌==◌,
  arith, Bool-cases, Option-cases, inl, inr,
}
use system_design_implementa.Chat.Rooms.{State}
use system_design_implementa.Chat.Broadcast.{Message}
use system_design_implementa.Chat.Events.{message}
use system_design_implementa.Chat.Events.Invariant.{is_present, is_orderly}
use system_design_implementa.Chat.Lines.{
  is_space, is_empty, trim_left, trim_right, trim_space, after_prefix, message_of,
}

-- Whether a text ends in a space.
abbrev ends_spaced : String → Bool
ends_spaced String.[] = false
ends_spaced (String.◌∷◌ c s) =
    let rest = ends_spaced s in if is_empty s then is_space (code c) else rest

trim_right-ends : (s : String) → ends_spaced (trim_right s) ≡ false
unfolding trim_right
trim_right-ends String.[] = refl
trim_right-ends (String.◌∷◌ c s) = elim (Bool-cases (is_space (code c))) [
  | inl e ↦ elim (Bool-cases (is_empty (trim_right s))) [
    | inl f ↦ rw e (rw f refl)
    | inr f ↦ rw e (rw f (rw f (trim_right-ends s)))
  ]
  | inr e ↦ ground (arith, trim_right-ends s, e)
]

empty-eq : (s : String) → is_empty s ≡ true → s ≡ ""
empty-eq String.[] e = refl
empty-eq (String.◌∷◌ c s) e = absurd (cc)

-- A text that is a prefix and nothing more ends like the prefix.
after_prefix-nothing :
    (p s : String)
    → after_prefix p s ≡ some ""
    → (is_empty s ≡ is_empty p) × (ends_spaced s ≡ ends_spaced p)
unfolding after_prefix
after_prefix-nothing String.[] s e =
    let none_left : s ≡ "" = cc in (ap is_empty none_left, ap ends_spaced none_left)
after_prefix-nothing (String.◌∷◌ c p) String.[] e = absurd (cc)
after_prefix-nothing (String.◌∷◌ c p) (String.◌∷◌ d s) e = elim (Bool-cases (code c == code d)) [
  | inl same ↦
      let (x, y) = after_prefix-nothing p s (ground arith) in
      let w : code c ≡ code d = ground arith in (refl, ground (arith, x, y, ap is_space w))
  | inr other ↦ absurd (ground arith)
]

join_named : (line : String) → after_prefix "#join " (trim_space line) ≢ some ""
unfolding trim_space
join_named line e =
    let same = (after_prefix-nothing "#join " (trim_right (trim_left line)) e).1 in
    let spaced : ends_spaced "#join " ≡ true = unfold is_space in refl in
    absurd (cc (same, spaced, trim_right-ends (trim_left line)))

-- Whatever line a client sends that has a location, the event loop gets an orderly message.
pub message_of-orderly :
    (name line : String) (m : Message) (s : State)
    → message_of name line ≡ some m
    → is_present name s ≡ true
    → is_orderly (message m) s ≡ true
unfolding message_of is_orderly
message_of-orderly name line m s e p =
    elim (Option-cases (after_prefix "#join " (trim_space line))) [
      | inl n ↦ ground arith
      | inr (room, j) ↦
          let named : str_eq room "" ≡ false = elim (Bool-cases (str_eq room "")) [
            | inl x ↦ absurd (join_named line (j ∙ ap some ((str_eq_iff room "").0 x)))
            | inr x ↦ x
          ] in
          ground arith
    ]
