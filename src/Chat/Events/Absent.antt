-- ===== src/Chat/Events/Absent.antt =====
-- Commands of a client that was kicked or has left, which its connection may still have buffered.
use system_design_implementa.Prelude.{
  ℕ, ◌≡◌, ◌≢◌, ◌∙◌, ap, Bool, true, false, not, ◌&&◌, ◌||◌, List, [], ◌∷◌, ◌++◌, map, none, some,
  String, str_eq, str_eq_iff, arith, Any, here, there, Bool-cases, inl, inr, if◌then◌else◌,
}
use system_design_implementa.Prelude.Assoc.{lookup, insert, lookup-insert}
use system_design_implementa.Chat.Rooms.{
  Client, Hub, State, no_client, hub, member, member_or_zero, has_room, drop_member, put_member,
  ensure_room, location,
}
use system_design_implementa.Chat.Rooms.Laws.{
  has_room-drop_member, has_room-ensure_room, put_member_lem,
}
use system_design_implementa.Chat.Broadcast.{
  Kind, Message, deliver, room_chunks, panics, waits, unheard_worker,
}
use system_design_implementa.Chat.Broadcast.Laws.{heard, any_nil, flat, room_chunks_correct}
use system_design_implementa.Chat.Print.{concat}
use system_design_implementa.Chat.Events.{
  message, Effect, started, Outcome, went_on, stuck, panicked, default, tell, broadcast, on_join,
  on_leave, on_getrooms, on_message, handle,
}
use system_design_implementa.Chat.Events.Invariant.{IsPlaced, is_present}
use system_design_implementa.Chat.Events.Workers.{any_nil-append}

abbrev pub is_stuck : Outcome → Bool
is_stuck (stuck s es) = true
is_stuck (went_on s es) = false
is_stuck panicked = false

abbrev pub is_command : Kind → Bool
is_command Kind.cmd_join = true
is_command Kind.cmd_leave = true
is_command Kind.cmd_getrooms = true
is_command Kind.join = false
is_command Kind.leave = false
is_command Kind.msg = false

module _ (s : State) (v : IsPlaced s) (name : String) (gone : is_present name s ≡ false) where
  absent-zero : member_or_zero (location name s.locations) name s.rooms ≡ no_client
  unfolding member_or_zero member hub location is_present lookup has_room
  absent-zero = ground (arith, v.unnamed, gone)

  absent-location : location name s.locations ≡ ""
  unfolding location is_present
  absent-location = ground (arith, gone)

-- Where rooms and locations agree, a command of a client with no location makes the loop wait for ever
-- on a nil channel, with no room or name excepted.
pub absent_command_stuck :
    (m : Message) (s : State)
    → IsPlaced s
    → is_present m.client_name s ≡ false
    → is_command m.kind ≡ true
    → is_stuck (handle (message m) s) ≡ true
unfolding handle on_message on_join on_leave on_getrooms tell
absent_command_stuck m s v gone k =
    let zero = absent-zero s v m.client_name gone in
    let at = absent-location s v m.client_name gone in
    let dropped = drop_member (location m.client_name s.locations) m.client_name s.rooms in
    let (rooms, put, members, same) =
      put_member_lem m.text m.client_name no_client (ensure_room m.text dropped)
        (ground (arith, has_room-ensure_room m.text m.text dropped, str_eq_iff m.text m.text)) in
    let (rooms', put', members', same') = put_member_lem default m.client_name no_client dropped (
      ground (
        arith,
        v.lobby,
        has_room-drop_member default (location m.client_name s.locations) m.client_name s.rooms,
      )) in
    ground (arith, k, zero, at, put, put')

-- Whether a client that is not the sender comes before the first nil connection and has no room.
abbrev pub held_up : (ℕ → Bool) → String → List Client → Bool
held_up free sender [] = false
held_up free sender (c ∷ cs) = elim (c.conn) [
  | none ↦ false
  | some addr ↦
      not (str_eq addr sender) && elim (c.channel) [ none ↦ true | some ch ↦ not (free ch) ]
      || held_up free sender cs
]

unheard_worker-nil :
    (free : ℕ → Bool) (sender : String) (cs : List Client)
    → any_nil cs ≡ true
    → unheard_worker free sender cs ≡ (if held_up free sender cs then waits else panics)
unfolding unheard_worker deliver
unheard_worker-nil free sender [] e = absurd (cc)
unheard_worker-nil free sender (c ∷ cs) e = ground (arith, unheard_worker-nil free sender cs)

-- An effect that starts a worker which, when the loop takes no more kicks, waits for ever if a client
-- before the first nil connection has no room in its channel, and panics if each has.
pub data StartsDoomed : Effect → Type 0 where
  starts :
      {cs : List Client} {m : Message}
      → ((free : ℕ → Bool)
          → unheard_worker free m.client_name cs
            ≡ (if held_up free m.client_name cs then waits else panics))
      → StartsDoomed (started cs m)

any_nil-insert :
    (name : String) (h : Hub) → name ≢ "" → any_nil (heard name (insert name no_client h)) ≡ true
unfolding insert
any_nil-insert name [] n = ground (arith, str_eq_iff "" name)
any_nil-insert name ((key, c) ∷ h) n = ground (arith, any_nil-insert name h, str_eq_iff "" name)

any_nil-chunk :
    (m : Message) (chunks : List (List Client))
    → any_nil (flat chunks) ≡ true
    → Any StartsDoomed (map (λ chunk. started chunk m) chunks)
any_nil-chunk m [] e = absurd (cc)
any_nil-chunk m (c ∷ cs) e = elim (Bool-cases (any_nil c)) [
  | inl n ↦ here (starts (λ free. unheard_worker-nil free m.client_name c n))
  | inr n ↦ there (any_nil-chunk m cs (ground (arith, any_nil-append c (flat cs))))
]

Any-after : {A : Type 0} {P : A → Type 0} (xs ys : List A) → Any P ys → Any P (xs ++ ys)
Any-after [] ys a = a
Any-after (x ∷ xs) ys a = there (Any-after xs ys a)

broadcast-dooms :
    (s : State) (room name : String) (h : Hub) (m : Message)
    → hub room s.rooms ≡ insert name no_client h
    → name ≢ ""
    → Any StartsDoomed (broadcast s room name m)
unfolding broadcast
broadcast-dooms s room name h m e n =
    let clients = hub room s.rooms in
    any_nil-chunk m (room_chunks clients name 1000) (
      ap any_nil ((room_chunks_correct clients name 1000 (omega arith)).0 ∙ ap (heard name) e)
      ∙ any_nil-insert name h n)

put-there :
    (room name : String) (c : Client) (rooms : List (String × Hub))
    → has_room room rooms ≡ true
    → (put_member room name c rooms ≡ some (insert room (insert name c (hub room rooms)) rooms))
      × (hub room (insert room (insert name c (hub room rooms)) rooms)
          ≡ insert name c (hub room rooms))
unfolding put_member hub has_room
put-there room name c rooms h =
    ground
      (arith, lookup-insert room room (insert name c (hub room rooms)) rooms, str_eq_iff room room)

-- Where rooms and locations agree, a join by a client with no location, whatever its name but the empty
-- one, puts a client with no connection into the room, and the loop waits for ever. A worker that it
-- started never finishes its chunk: whatever channels have room, it panics at a nil connection if each client
-- before that has room or is the sender, and else waits for ever to hand over the first that has none.
pub absent_join_dooms :
    (m : Message) (s : State)
    → IsPlaced s
    → is_present m.client_name s ≡ false
    → m.kind ≡ Kind.cmd_join
    → m.client_name ≢ ""
    → (s' : State) × (done : List Effect) × (handle (message m) s ≡ stuck s' done)
      × Any StartsDoomed done
unfolding handle on_message on_join tell
absent_join_dooms m s v gone k n =
    let name = m.client_name in
    let room = location name s.locations in
    let rooms = ensure_room m.text (drop_member room name s.rooms) in
    let made : has_room m.text rooms ≡ true = ground (
      arith,
      has_room-ensure_room m.text m.text (drop_member room name s.rooms),
      str_eq_iff m.text m.text,
    ) in
    let (put, holds) = put-there m.text name no_client rooms made in
    let s' : State = record {
      rooms = insert m.text (insert name no_client (hub m.text rooms)) rooms;
      locations = insert name m.text s.locations;
    } in
    let goodbye =
      if str_eq room default
      then []
      else broadcast s room name (record {
        client_name = "";
        kind = Kind.leave;
        text = concat (name ∷ " left for " ∷ m.text ∷ "\n" ∷ []);
      }) in
    let joined : Message = record {
      client_name = "";
      kind = Kind.join;
      text = concat (name ∷ " joined\n" ∷ []);
    } in
    (
      s',
      goodbye ++ broadcast s' m.text name joined,
      ground (arith, absent-zero s v name gone, put),
      Any-after goodbye (broadcast s' m.text name joined)
          (broadcast-dooms s' m.text name (hub m.text rooms) joined holds n),
    )
