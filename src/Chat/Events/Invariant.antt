-- ===== src/Chat/Events/Invariant.antt =====
-- The rooms and the locations agree: each client is in the one room that its location names.
use system_design_implementa.Prelude.{
  ◌≡◌, Bool, true, false, not, ◌&&◌, List, Option, none, some, String, str_eq, str_eq_iff,
  if◌then◌else◌, arith,
}
use system_design_implementa.Prelude.Assoc.{lookup, insert, lookup-insert, lookup-remove}
use system_design_implementa.Chat.Rooms.{
  Client, Hub, State, member, member_or_zero, has_room, drop_member, put_member, location,
}
use system_design_implementa.Chat.Rooms.Laws.{
  member-drop_member, has_room-drop_member, put_member_lem,
}
use system_design_implementa.Chat.Broadcast.{Kind}
use system_design_implementa.Chat.Events.{
  Event, comer, leaver, dead, message, Outcome, went_on, stuck, panicked, default, forget,
}

-- A client as StartServer makes it: a connection under its name, and a channel.
abbrev pub is_live : String → Client → Bool
is_live name c =
    str_eq c.name name
    && elim (c.conn) [ none ↦ false | some addr ↦ str_eq addr name ]
    && elim (c.channel) [ none ↦ false | some ch ↦ true ]

abbrev pub is_at : Option String → String → Bool
is_at none room = false
is_at (some r) room = str_eq r room

-- What a room has under a name, given the location of that name.
abbrev pub fits : String → String → Option Client → Option String → Bool
fits room name none at = not (is_at at room)
fits room name (some c) at = is_at at room && is_live name c

pub record IsPlaced (s : State) : Type 0 where
  pub lobby : has_room default s.rooms ≡ true
  pub unnamed : has_room "" s.rooms ≡ false
  pub agree : (r n : String) → fits r n (member r n s.rooms) (lookup n s.locations) ≡ true

unfoldable pub is_present : String → State → Bool
is_present name s = elim (lookup name s.locations) [ none ↦ false | some room ↦ true ]

-- What the goroutines of a connection send while it is up: a live client comes that is not there yet,
-- a kicked client has a connection, and who sends a command is there and joins no room without a name.
unfoldable pub is_orderly : Event → State → Bool
unfolding is_present
is_orderly (comer c) s = is_live c.name c && not (is_present c.name s)
is_orderly (leaver c) s = true
is_orderly (dead c) s = elim (c.conn) [ none ↦ false | some addr ↦ true ]
is_orderly (message m) s = elim (m.kind) [
  | Kind.cmd_join ↦ is_present m.client_name s && not (str_eq m.text "")
  | Kind.cmd_leave ↦ is_present m.client_name s
  | Kind.cmd_getrooms ↦ is_present m.client_name s
  | _ ↦ true
]

-- The state of the next round, when there is one.
abbrev pub next : Outcome → Option State
next (went_on s done) = some s
next (stuck s done) = none
next panicked = none

-- The loop goes on, with a state that satisfies `P`.
abbrev pub GoesOn : (State → Type 0) → Outcome → Type 0
GoesOn P o = (s : State) × (next o ≡ some s) × P s

abbrev pub Others : String → List (String × Hub) → List (String × Hub) → Type 0
Others name rooms rooms' =
    (r n : String) → member r n rooms' ≡ (if str_eq name n then none else member r n rooms)

module _ (s : State) (v : IsPlaced s) where
  -- Without the client that its location names, no room has it.
  pub Others-drop_member :
      (name : String) → Others name s.rooms (drop_member (location name s.locations) name s.rooms)
  unfolding location
  Others-drop_member name r n = ground (
    arith,
    member-drop_member r n (location name s.locations) name s.rooms,
    v.agree r n,
    str_eq_iff name n,
    str_eq_iff (location name s.locations) r,
  )

  -- A name with no location is in no room.
  pub Others-absent : (name : String) → lookup name s.locations ≡ none → Others name s.rooms s.rooms
  Others-absent name e r n = ground (arith, v.agree r n, str_eq_iff name n)

  pub forget-IsPlaced : (name : String) → IsPlaced (forget name s)
  unfolding forget
  forget-IsPlaced name = record {
    lobby =
        ground
          (arith, v.lobby, has_room-drop_member default (location name s.locations) name s.rooms);
    unnamed =
        ground (arith, v.unnamed, has_room-drop_member "" (location name s.locations) name s.rooms);
    agree = λ r n.
        ground (arith, Others-drop_member name r n, lookup-remove name n s.locations, v.agree r n);
  }

  -- A live client is put into a room, after it was taken from the others.
  pub settle :
      (room name : String) (c : Client) (rooms : List (String × Hub))
      → has_room room rooms ≡ true
      → has_room default rooms ≡ true
      → has_room "" rooms ≡ false
      → is_live name c ≡ true
      → Others name s.rooms rooms
      → (rooms' : List (String × Hub)) × (put_member room name c rooms ≡ some rooms')
        × IsPlaced (record { rooms = rooms'; locations = insert name room s.locations })
  settle room name c rooms h d u l o =
      let (rooms', e, members, same) = put_member_lem room name c rooms h in
      (
        rooms',
        e,
        record {
          lobby = ground (arith, same default, d);
          unnamed = ground (arith, same "", u);
          agree = λ r n. ground (
            arith,
            members r n,
            o r n,
            lookup-insert name n room s.locations,
            v.agree r n,
            str_eq_iff room r,
            str_eq_iff name n,
          );
        },
      )

  -- The client of a name with a location is live.
  pub present-live :
      (name : String)
      → is_present name s ≡ true
      → is_live name (member_or_zero (location name s.locations) name s.rooms) ≡ true
  unfolding is_present location member_or_zero
  present-live name p = ground (
    arith,
    v.agree (location name s.locations) name,
    str_eq_iff (location name s.locations) (location name s.locations),
  )
