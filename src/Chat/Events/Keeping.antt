-- ===== src/Chat/Events/Keeping.antt =====
-- Every round of the event loop on an orderly event keeps rooms and locations in agreement.
use mathlib.Core.Path.{subst⁻¹}
use system_design_implementa.Prelude.{
  ◌≡◌, refl, true, false, not, ◌&&◌, List, [], none, some, String, str_eq, str_eq_iff, arith,
  Option-cases, Bool-cases, inl, inr,
}
use system_design_implementa.Prelude.Assoc.{lookup, insert}
use system_design_implementa.Chat.Rooms.{
  Client, State, hub, member, member_or_zero, has_room, drop_member, ensure_room, location,
}
use system_design_implementa.Chat.Rooms.Laws.{
  has_room-drop_member, has_room-ensure_room, member-ensure_room,
}
use system_design_implementa.Chat.Broadcast.{Kind, Message}
use system_design_implementa.Chat.Events.{
  Event, comer, leaver, dead, message, Effect, went_on, default, tell, on_comer, on_leaver, on_dead,
  forget, on_msg, on_join, on_leave, on_getrooms, on_message, handle, start,
}
use system_design_implementa.Chat.Events.Invariant.{
  is_live, IsPlaced, is_present, is_orderly, next, GoesOn, Others-drop_member, Others-absent,
  forget-IsPlaced, settle, present-live,
}

next-tell :
    (name : String) (s : State) (done : List Effect) (c : Client) (text : String)
    → is_live name c ≡ true
    → next (tell s done c text) ≡ some s
unfolding tell
next-tell name s done c text l = ground arith

on_comer-IsPlaced :
    (c : Client) (s : State)
    → IsPlaced s
    → is_orderly (comer c) s ≡ true
    → GoesOn IsPlaced (on_comer c s)
unfolding is_orderly on_comer
on_comer-IsPlaced c s v o = elim (Option-cases (c.conn)) [
  | inl e ↦ absurd (ground arith)
  | inr (name, e) ↦
      let named : name ≡ c.name = ground (arith, str_eq_iff name c.name) in
      let live : is_live name c ≡ true = subst⁻¹ (λ z. is_live z c ≡ true) named (ground arith) in
      let absent : lookup name s.locations ≡ none = ground arith in
      let (rooms, put, v') =
        settle s v default name c s.rooms v.lobby v.lobby v.unnamed live
          (Others-absent s v name absent) in
      (record { rooms = rooms; locations = insert name default s.locations }, ground arith, v')
]

on_dead-IsPlaced :
    (c : Client) (s : State)
    → IsPlaced s
    → is_orderly (dead c) s ≡ true
    → GoesOn IsPlaced (on_dead c s)
unfolding is_orderly on_dead
on_dead-IsPlaced c s v o = (forget c.name s, ground arith, forget-IsPlaced s v c.name)

on_msg-IsPlaced : (m : Message) (s : State) → IsPlaced s → GoesOn IsPlaced (on_msg m s)
unfolding on_msg location tell
on_msg-IsPlaced m s v =
    (s, ground (arith, v.agree (location m.client_name s.locations) m.client_name), v)

on_join-IsPlaced :
    (m : Message) (s : State)
    → IsPlaced s
    → is_present m.client_name s ≡ true
    → str_eq m.text "" ≡ false
    → GoesOn IsPlaced (on_join m s)
unfolding on_join
on_join-IsPlaced m s v p t =
    let name = m.client_name in
    let room = location name s.locations in
    let c = member_or_zero room name s.rooms in
    let dropped = drop_member room name s.rooms in
    let rooms0 = ensure_room m.text dropped in
    let kept = λ (r : String). has_room-ensure_room r m.text dropped in
    let kept' = λ (r : String). has_room-drop_member r room name s.rooms in
    let live = present-live s v name p in
    let (rooms, put, v') =
      settle s v m.text name c rooms0 (ground (arith, kept m.text, str_eq_iff m.text m.text))
        (ground (arith, kept default, kept' default, v.lobby))
        (ground (arith, kept "", kept' "", v.unnamed)) live
        (λ r n.
          ground (arith, member-ensure_room r n m.text dropped, Others-drop_member s v name r n)) in
    let s' : State = record { rooms = rooms; locations = insert name m.text s.locations } in
    (
      s',
      ground
          (arith, put, λ (done : List Effect) (text : String). next-tell name s' done c text live),
      v',
    )

on_leave-IsPlaced :
    (m : Message) (s : State)
    → IsPlaced s
    → is_present m.client_name s ≡ true
    → GoesOn IsPlaced (on_leave m s)
unfolding on_leave
on_leave-IsPlaced m s v p =
    let name = m.client_name in
    let room = location name s.locations in
    let c = member_or_zero room name s.rooms in
    let dropped = drop_member room name s.rooms in
    let kept' = λ (r : String). has_room-drop_member r room name s.rooms in
    let live = present-live s v name p in
    elim (Bool-cases (str_eq room default)) [
      | inl e ↦ (s, ground (arith, e), v)
      | inr e ↦
          let (rooms, put, v') =
            settle s v default name c dropped (ground (arith, kept' default, v.lobby))
              (ground (arith, kept' default, v.lobby)) (ground (arith, kept' "", v.unnamed)) live
              (λ r n. Others-drop_member s v name r n) in
          let s' : State = record { rooms = rooms; locations = insert name default s.locations } in
          (
            s',
            ground (
              arith,
              e,
              put,
              λ (done : List Effect) (text : String). next-tell name s' done c text live,
            ),
            v',
          )
    ]

on_getrooms-IsPlaced :
    (m : Message) (s : State)
    → IsPlaced s
    → is_present m.client_name s ≡ true
    → GoesOn IsPlaced (on_getrooms m s)
unfolding on_getrooms
on_getrooms-IsPlaced m s v p =
    (s, next-tell m.client_name s [] _ _ (present-live s v m.client_name p), v)

on_message-IsPlaced :
    (m : Message) (s : State)
    → IsPlaced s
    → is_orderly (message m) s ≡ true
    → GoesOn IsPlaced (on_message m s)
unfolding is_orderly on_message
on_message-IsPlaced m s v o =
    elim (m.kind)
        as (λ k.
          elim k [
            | Kind.cmd_join ↦ is_present m.client_name s && not (str_eq m.text "")
            | Kind.cmd_leave ↦ is_present m.client_name s
            | Kind.cmd_getrooms ↦ is_present m.client_name s
            | _ ↦ true
          ]
            ≡ true
          → GoesOn IsPlaced (elim k [
            | Kind.msg ↦ on_msg m s
            | Kind.cmd_join ↦ on_join m s
            | Kind.cmd_leave ↦ on_leave m s
            | Kind.cmd_getrooms ↦ on_getrooms m s
            | Kind.join ↦ went_on s []
            | Kind.leave ↦ went_on s []
          ])) [
            | Kind.msg ↦ λ h. on_msg-IsPlaced m s v
            | Kind.cmd_join ↦ λ h. on_join-IsPlaced m s v (ground arith) (ground arith)
            | Kind.cmd_leave ↦ λ h. on_leave-IsPlaced m s v h
            | Kind.cmd_getrooms ↦ λ h. on_getrooms-IsPlaced m s v h
            | Kind.join ↦ λ h. (s, refl, v)
            | Kind.leave ↦ λ h. (s, refl, v)
          ]
      o

-- A round on an orderly event neither waits for ever nor panics, and leaves rooms and locations that
-- agree.
pub handle-IsPlaced :
    (e : Event) (s : State) → IsPlaced s → is_orderly e s ≡ true → GoesOn IsPlaced (handle e s)
unfolding handle on_leaver
handle-IsPlaced (comer c) s v o = on_comer-IsPlaced c s v o
handle-IsPlaced (leaver c) s v o = (forget c.name s, refl, forget-IsPlaced s v c.name)
handle-IsPlaced (dead c) s v o = on_dead-IsPlaced c s v o
handle-IsPlaced (message m) s v o = on_message-IsPlaced m s v o

pub start-IsPlaced : IsPlaced start
unfolding start has_room member hub lookup
start-IsPlaced = record { lobby = refl; unnamed = refl; agree = λ r n. ground arith }
