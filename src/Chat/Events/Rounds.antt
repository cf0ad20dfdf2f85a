-- ===== src/Chat/Events/Rounds.antt =====
-- No worker that a round on an orderly event starts has a client without a connection.
use system_design_implementa.Prelude.{
  ◌≡◌, refl, true, [], ◌∷◌, ◌++◌, String, str_eq, if◌then◌else◌, arith, inl, inr, Option-cases,
}
use system_design_implementa.Prelude.Assoc.{insert}
use system_design_implementa.Chat.Rooms.{
  Client, State, member, member_or_zero, drop_member, put_member, ensure_room, location,
}
use system_design_implementa.Chat.Broadcast.{Kind, Message}
use system_design_implementa.Chat.Events.{
  Event, comer, leaver, dead, message, default, broadcast, on_comer, on_leaver, on_dead, forget,
  on_msg, on_join, on_leave, on_getrooms, on_message, handle, joined_text,
}
use system_design_implementa.Chat.Print.{concat}
use system_design_implementa.Chat.Events.Invariant.{
  is_live, is_present, is_orderly, IsPlaced, present-live,
}
use system_design_implementa.Chat.Events.Workers.{
  all_connected, all_safe, outcome_safe, has_conn, put_member-connected, drop_member-connected,
  ensure_room-connected, tell-safe, all_safe-append, broadcast-safe,
}

on_comer-safe :
    (c : Client) (s : State) → all_connected s.rooms ≡ true → outcome_safe (on_comer c s) ≡ true
unfolding on_comer
on_comer-safe c s e = elim (Option-cases (c.conn)) [
  | inl n ↦ ground arith
  | inr (name, p) ↦ elim (Option-cases (put_member default name c s.rooms)) [
    | inl q ↦ ground arith
    | inr (rooms, q) ↦
        let s' : State = record { rooms = rooms; locations = insert name default s.locations } in
        let kept = put_member-connected default name c s.rooms rooms (ground arith) e q in
        ground (
          arith,
          broadcast-safe s' default name (record {
            client_name = name;
            kind = Kind.join;
            text = concat (name ∷ " has joined the chat\n" ∷ []);
          }),
        )
  ]
]

on_leaver-safe :
    (c : Client) (s : State) → all_connected s.rooms ≡ true → outcome_safe (on_leaver c s) ≡ true
unfolding on_leaver forget
on_leaver-safe c s e =
    let kept = drop_member-connected (location c.name s.locations) c.name s.rooms e in
    let told_all =
      broadcast-safe (forget c.name s) (location c.name s.locations) c.name
        (record {
          client_name = c.name;
          kind = Kind.leave;
          text = concat (c.name ∷ " has left the chat\n" ∷ []);
        })
        kept in
    ground arith

on_dead-safe :
    (c : Client) (s : State) → all_connected s.rooms ≡ true → outcome_safe (on_dead c s) ≡ true
unfolding on_dead forget
on_dead-safe c s e =
    ground (arith, drop_member-connected (location c.name s.locations) c.name s.rooms)

on_msg-safe :
    (m : Message) (s : State) → all_connected s.rooms ≡ true → outcome_safe (on_msg m s) ≡ true
unfolding on_msg
on_msg-safe m s e =
    let room = location m.client_name s.locations in
    let spoken : Message = record {
      client_name = m.client_name;
      kind = Kind.msg;
      text = concat ("[" ∷ room ∷ "] " ∷ m.client_name ∷ ": " ∷ m.text ∷ "\n" ∷ []);
    } in
    let done = broadcast s room m.client_name spoken in
    let d = broadcast-safe s room m.client_name spoken e in
    elim (Option-cases (member room m.client_name s.rooms)) [
      | inl n ↦ ground arith
      | inr (c, p) ↦ ground (arith, tell-safe s done c (concat ("[" ∷ room ∷ "]> " ∷ [])))
    ]

live-conn : (name : String) (c : Client) → is_live name c ≡ true → has_conn c ≡ true
live-conn name c l = ground arith

on_join-safe :
    (m : Message) (s : State)
    → IsPlaced s
    → is_present m.client_name s ≡ true
    → all_connected s.rooms ≡ true
    → outcome_safe (on_join m s) ≡ true
unfolding on_join
on_join-safe m s v p e =
    let name = m.client_name in
    let room = location name s.locations in
    let c = member_or_zero room name s.rooms in
    let live = live-conn name c (present-live s v name p) in
    let left : Message = record {
      client_name = "";
      kind = Kind.leave;
      text = concat (name ∷ " left for " ∷ m.text ∷ "\n" ∷ []);
    } in
    let joined : Message = record {
      client_name = "";
      kind = Kind.join;
      text = concat (name ∷ " joined\n" ∷ []);
    } in
    let goodbye = if str_eq room default then [] else broadcast s room name left in
    let polite : all_safe goodbye ≡ true = ground (arith, broadcast-safe s room name left e) in
    let dropped = ensure_room m.text (drop_member room name s.rooms) in
    let kept =
      ensure_room-connected m.text (drop_member room name s.rooms)
        (drop_member-connected room name s.rooms e) in
    elim (Option-cases (put_member m.text name c dropped)) [
      | inl n ↦ ground arith
      | inr (rooms, q) ↦
          let s' : State = record { rooms = rooms; locations = insert name m.text s.locations } in
          let kept' = put_member-connected m.text name c dropped rooms live kept q in
          let hello = broadcast s' m.text name joined in
          let done : all_safe (goodbye ++ hello) ≡ true = ground (
            arith,
            all_safe-append goodbye hello,
            broadcast-safe s' m.text name joined kept',
            polite,
          ) in
          ground (arith, tell-safe s' (goodbye ++ hello) c (joined_text m.text) kept' done, q)
    ]

on_leave-safe :
    (m : Message) (s : State)
    → IsPlaced s
    → is_present m.client_name s ≡ true
    → all_connected s.rooms ≡ true
    → outcome_safe (on_leave m s) ≡ true
unfolding on_leave
on_leave-safe m s v p e =
    let name = m.client_name in
    let room = location name s.locations in
    let c = member_or_zero room name s.rooms in
    let live = live-conn name c (present-live s v name p) in
    let joined : Message = record {
      client_name = "";
      kind = Kind.join;
      text = concat (name ∷ " joined\n" ∷ []);
    } in
    let dropped = drop_member room name s.rooms in
    let kept = drop_member-connected room name s.rooms e in
    elim (Option-cases (put_member default name c dropped)) [
      | inl n ↦ ground (arith, tell-safe s [] c "You are already in the default room.\n[default]> ")
      | inr (rooms, q) ↦
          let s' : State = record { rooms = rooms; locations = insert name default s.locations } in
          let kept' = put_member-connected default name c dropped rooms live kept q in
          let done = broadcast s room name joined in
          let d = broadcast-safe s room name joined e in
          ground (
            arith,
            tell-safe s' done c (joined_text default) kept' d,
            q,
            tell-safe s [] c "You are already in the default room.\n[default]> ",
          )
    ]

on_getrooms-safe :
    (m : Message) (s : State) → all_connected s.rooms ≡ true → outcome_safe (on_getrooms m s) ≡ true
unfolding on_getrooms
on_getrooms-safe m s e =
    tell-safe s [] (member_or_zero (location m.client_name s.locations) m.client_name s.rooms) _ e
      refl

on_message-safe :
    (m : Message) (s : State)
    → IsPlaced s
    → is_orderly (message m) s ≡ true
    → all_connected s.rooms ≡ true
    → outcome_safe (on_message m s) ≡ true
unfolding is_orderly on_message
on_message-safe m s v o e =
    ground (arith, on_msg-safe m s, on_join-safe m s v, on_leave-safe m s v, on_getrooms-safe m s)

-- No worker that a round on an orderly event starts panics on a nil connection.
pub handle-safe :
    (e : Event) (s : State)
    → IsPlaced s
    → is_orderly e s ≡ true
    → all_connected s.rooms ≡ true
    → outcome_safe (handle e s) ≡ true
unfolding handle
handle-safe (comer c) s v o k = on_comer-safe c s k
handle-safe (leaver c) s v o k = on_leaver-safe c s k
handle-safe (dead c) s v o k = on_dead-safe c s k
handle-safe (message m) s v o k = on_message-safe m s v o k
