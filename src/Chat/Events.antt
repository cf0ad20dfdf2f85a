-- ===== src/Chat/Events.antt =====
-- chat_system/cmd/api/main.go: EventHandler, one event at a time.
pub mod Invariant
pub mod Keeping
pub mod Workers
pub mod Rounds
pub mod Runs
pub mod Absent
use system_design_implementa.Prelude.{
  ℕ, Bool, true, false, List, [], ◌∷◌, ◌++◌, map, Option, none, some, String, str_eq, if◌then◌else◌,
  length,
}
use system_design_implementa.Prelude.Assoc.{lookup, insert, remove}
use system_design_implementa.Chat.Rooms.{
  Client, Hub, State, no_client, hub, member, member_or_zero, drop_member, put_member, ensure_room,
  location,
}
use system_design_implementa.Chat.Broadcast.{Kind, Message, room_chunks}
use system_design_implementa.Chat.Print.{concat, decimal}

pub data Event : Type 0 where
  comer leaver dead : Client → Event
  message : Message → Event

-- A worker is started, a text is sent to a personal channel (the loop waits until the channel has
-- room), or a connection is closed.
pub data Effect : Type 0 where
  started : List Client → Message → Effect
  told : ℕ → String → Effect
  closed : String → Effect

-- The loop goes on to the next event, waits for ever on a nil channel, or panics.
pub data Outcome : Type 0 where
  went_on stuck : State → List Effect → Outcome
  panicked : Outcome

abbrev pub default : String
default = "default"

-- `for _, roomChunk := range getRoomChunks(room, name, 1000) { go broadcastWorker(roomChunk, m) }`.
unfoldable pub broadcast : State → String → String → Message → List Effect
unfolding room_chunks hub
broadcast s room name m = map (λ chunk. started chunk m) (room_chunks (hub room s.rooms) name 1000)

-- A send to a personal channel, after the effects so far.
unfoldable pub tell : State → List Effect → Client → String → Outcome
tell s done c text = elim (c.channel) [
  | none ↦ stuck s done
  | some ch ↦ went_on s (done ++ told ch text ∷ [])
]

unfoldable pub on_comer : Client → State → Outcome
unfolding broadcast
on_comer c s = elim (c.conn) [
  | none ↦ panicked
  | some name ↦ elim (put_member default name c s.rooms) [
    | none ↦ panicked
    | some rooms ↦
        let s' : State = record { rooms = rooms; locations = insert name default s.locations } in
        went_on s' (
          broadcast s' default name (record {
            client_name = name;
            kind = Kind.join;
            text = concat (name ∷ " has joined the chat\n" ∷ []);
          }))
  ]
]

unfoldable pub forget : String → State → State
forget name s = record {
  rooms = drop_member (location name s.locations) name s.rooms;
  locations = remove name s.locations;
}

unfoldable pub on_leaver : Client → State → Outcome
unfolding broadcast forget
on_leaver c s =
    let s' = forget c.name s in
    went_on s' (
      broadcast s' (location c.name s.locations) c.name (record {
        client_name = c.name;
        kind = Kind.leave;
        text = concat (c.name ∷ " has left the chat\n" ∷ []);
      }))

unfoldable pub on_dead : Client → State → Outcome
unfolding forget
on_dead c s = elim (c.conn) [
  | none ↦ panicked
  | some addr ↦ went_on (forget c.name s) (closed addr ∷ [])
]

unfoldable pub on_msg : Message → State → Outcome
unfolding broadcast tell
on_msg m s =
    let room = location m.client_name s.locations in
    let done = broadcast s room m.client_name (record {
      client_name = m.client_name;
      kind = Kind.msg;
      text = concat ("[" ∷ room ∷ "] " ∷ m.client_name ∷ ": " ∷ m.text ∷ "\n" ∷ []);
    }) in
    elim (member room m.client_name s.rooms) [
      | none ↦ went_on s done
      | some c ↦ tell s done c (concat ("[" ∷ room ∷ "]> " ∷ []))
    ]

abbrev pub joined_text : String → String
joined_text room = concat ("Joined " ∷ room ∷ "!\n[" ∷ room ∷ "]> " ∷ [])

unfoldable pub on_join : Message → State → Outcome
unfolding broadcast tell
on_join m s =
    let name = m.client_name in
    let room = location name s.locations in
    let c = member_or_zero room name s.rooms in
    let goodbye =
      if str_eq room default
      then []
      else broadcast s room name (record {
        client_name = "";
        kind = Kind.leave;
        text = concat (name ∷ " left for " ∷ m.text ∷ "\n" ∷ []);
      }) in
    elim (put_member m.text name c (ensure_room m.text (drop_member room name s.rooms))) [
      | none ↦ panicked
      | some rooms ↦
          let s' : State = record { rooms = rooms; locations = insert name m.text s.locations } in
          tell s'
            (goodbye
              ++ broadcast s' m.text name (record {
                client_name = "";
                kind = Kind.join;
                text = concat (name ∷ " joined\n" ∷ []);
              }))
            c (joined_text m.text)
    ]

unfoldable pub on_leave : Message → State → Outcome
unfolding broadcast tell
on_leave m s =
    let name = m.client_name in
    let room = location name s.locations in
    let c = member_or_zero room name s.rooms in
    if str_eq room default
    then tell s [] c "You are already in the default room.\n[default]> "
    else let done =
        broadcast s room name (record {
          client_name = "";
          kind = Kind.join;
          text = concat (name ∷ " joined\n" ∷ []);
        }) in
      elim (put_member default name c (drop_member room name s.rooms)) [
        | none ↦ panicked
        | some rooms ↦
            tell (record { rooms = rooms; locations = insert name default s.locations }) done c
              (joined_text default)
      ]

unfoldable pub room_list : List (String × Hub) → String
room_list [] = ""
room_list ((room, clients) ∷ rooms) =
    concat ("- " ∷ room ∷ " (" ∷ decimal (length clients) ∷ " users)\n" ∷ room_list rooms ∷ [])

unfoldable pub on_getrooms : Message → State → Outcome
unfolding tell room_list
on_getrooms m s =
    let room = location m.client_name s.locations in
    tell s [] (member_or_zero room m.client_name s.rooms)
      (concat ("Available Rooms:\n" ∷ room_list s.rooms ∷ "[" ∷ room ∷ "]> " ∷ []))

-- The switch on the type of a message; the types JOIN and LEAVE have no case.
unfoldable pub on_message : Message → State → Outcome
unfolding on_msg on_join on_leave on_getrooms
on_message m s = elim (m.kind) [
  | Kind.msg ↦ on_msg m s
  | Kind.cmd_join ↦ on_join m s
  | Kind.cmd_leave ↦ on_leave m s
  | Kind.cmd_getrooms ↦ on_getrooms m s
  | Kind.join ↦ went_on s []
  | Kind.leave ↦ went_on s []
]

-- One round of the loop.
unfoldable pub handle : Event → State → Outcome
unfolding on_comer on_leaver on_dead on_message
handle (comer c) s = on_comer c s
handle (leaver c) s = on_leaver c s
handle (dead c) s = on_dead c s
handle (message m) s = on_message m s

-- The state that the loop starts with.
unfoldable pub start : State
start = record { rooms = (default, []) ∷ []; locations = [] }
