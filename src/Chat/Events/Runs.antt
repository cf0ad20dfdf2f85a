-- ===== src/Chat/Events/Runs.antt =====
-- The loop over any sequence of events.
use mathlib.Core.Path.{subst}
use system_design_implementa.Prelude.{
  ◌≡◌, refl, true, [], ◌∷◌, some, String, str_eq_iff, arith, ap, ◌∙◌, map, Option-cases, inl, inr,
}
use system_design_implementa.Prelude.Assoc.{lookup-remove}
use system_design_implementa.Chat.Rooms.{Client, State, member, location, hub, has_room}
use system_design_implementa.Chat.Broadcast.{Message, Kind, room_chunks, chunk_loop, close_chunks}
use system_design_implementa.Chat.Print.{concat}
use system_design_implementa.Chat.Events.{
  Event, leaver, dead, started, closed, Outcome, went_on, stuck, panicked, handle, start, forget,
  on_leaver, on_dead, broadcast,
}
use system_design_implementa.Chat.Events.Invariant.{
  IsPlaced, forget-IsPlaced, GoesOn, next, is_orderly,
}
use system_design_implementa.Chat.Events.Keeping.{handle-IsPlaced, start-IsPlaced}
use system_design_implementa.Chat.Events.Workers.{all_connected, outcome_safe}
use system_design_implementa.Chat.Events.Rounds.{handle-safe}

-- The states that a sequence of orderly events leads to.
pub data Run : State → Type 0 where
  begun : Run start
  round :
      {s : State} (e : Event) (s' : State)
      → Run s
      → is_orderly e s ≡ true
      → next (handle e s) ≡ some s'
      → Run s'

next-safe :
    (o : Outcome) (s : State)
    → next o ≡ some s
    → outcome_safe o ≡ true
    → all_connected s.rooms ≡ true
next-safe (went_on t es) s e k =
    let it : t ≡ s = cc in subst (λ z. all_connected z.rooms ≡ true) it (ground arith)
next-safe (stuck t es) s e k = absurd (cc)
next-safe panicked s e k = absurd (cc)

Run-sound : {s : State} → Run s → IsPlaced s × (all_connected s.rooms ≡ true)
unfolding start
Run-sound begun = (start-IsPlaced, refl)
Run-sound (round {s} e s' r o n) =
    let (v, k) = Run-sound r in
    let (t, n', v') = handle-IsPlaced e s v o in
    (
      let it : t ≡ s' = cc in subst IsPlaced it v',
      next-safe (handle e s) s' n (handle-safe e s v o k),
    )

-- From the start and over any sequence of orderly events, the loop goes on at each further orderly event
-- (it neither waits for ever on a nil channel nor panics), rooms and locations agree after it, and no
-- worker that it starts has a client without a connection.
pub Run-safe :
    {s : State} (r : Run s) (e : Event)
    → is_orderly e s ≡ true
    → GoesOn IsPlaced (handle e s) × (outcome_safe (handle e s) ≡ true)
Run-safe {s} r e o = let (v, k) = Run-sound r in (handle-IsPlaced e s v o, handle-safe e s v o k)

-- Over any sequence of orderly events, a client that a room has is in the room that its location names,
-- so in no other, under its own name, and with a connection under that name.
pub Run-one_room :
    {s : State} (r : Run s) (room name : String) (c : Client)
    → member room name s.rooms ≡ some c
    → (room ≡ location name s.locations) × (c.name ≡ name) × (c.conn ≡ some name)
unfolding location
Run-one_room {s} r room name c e =
    let v = (Run-sound r).0 in
    (
      ground (arith, v.agree room name, str_eq_iff (location name s.locations) room),
      ground (arith, v.agree room name, str_eq_iff c.name name),
      elim (Option-cases (c.conn)) [
        | inl n ↦ absurd (ground (arith, v.agree room name))
        | inr (addr, q) ↦ ground (arith, v.agree room name, str_eq_iff addr name, q)
      ],
    )

broadcast-nowhere :
    (s : State) → IsPlaced s → (name : String) (m : Message) → broadcast s "" name m ≡ []
unfolding broadcast room_chunks chunk_loop close_chunks has_room hub
broadcast-nowhere s v name m =
    let empty : hub "" s.rooms ≡ [] = ground (arith, v.unnamed) in
    ap (λ h. map (λ chunk. started chunk m) (room_chunks h name 1000)) empty

location-forget : (name : String) (s : State) → location name (forget name s).locations ≡ ""
unfolding forget location
location-forget name s = ground (arith, lookup-remove name name s.locations, str_eq_iff name name)

-- A kicked client leaves unannounced: in a state where rooms and locations agree, the round that kicks a
-- client closes its connection and starts no worker, and the round on the leave that follows starts none
-- either.
pub kicked_unannounced :
    (c : Client) (s : State) (addr : String)
    → IsPlaced s
    → c.conn ≡ some addr
    → (handle (dead c) s ≡ went_on (forget c.name s) (closed addr ∷ []))
      × (handle (leaver c) (forget c.name s) ≡ went_on (forget c.name (forget c.name s)) [])
unfolding handle on_dead on_leaver
kicked_unannounced c s addr v e =
    let gone : Message = record {
      client_name = c.name;
      kind = Kind.leave;
      text = concat (c.name ∷ " has left the chat\n" ∷ []);
    } in
    let nowhere = location-forget c.name s in
    let twice = forget-IsPlaced (forget c.name s) (forget-IsPlaced s v c.name) c.name in
    (
      ground arith,
      ap (went_on (forget c.name (forget c.name s))) (
          ap (λ room. broadcast (forget c.name (forget c.name s)) room c.name gone) nowhere
          ∙ broadcast-nowhere (forget c.name (forget c.name s)) twice c.name gone),
    )
