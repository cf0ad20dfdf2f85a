-- ===== src/Chat/Examples.antt =====
-- The chat server's theorems at a client that joins a room, and at one that was kicked.
use system_design_implementa.Prelude.{◌≡◌, refl, true, List, [], ◌∷◌, some, Any}
use system_design_implementa.Prelude.Assoc.{lookup, insert}
use system_design_implementa.Chat.Rooms.{Client, State, hub, member, put_member, location}
use system_design_implementa.Chat.Broadcast.{Kind, Message}
use system_design_implementa.Chat.Events.{
  Effect, comer, leaver, dead, message, closed, went_on, stuck, handle, start, forget, default,
}
use system_design_implementa.Chat.Events.Invariant.{IsPlaced, GoesOn, is_present, is_orderly}
use system_design_implementa.Chat.Events.Keeping.{start-IsPlaced}
use system_design_implementa.Chat.Events.Workers.{outcome_safe}
use system_design_implementa.Chat.Events.Runs.{
  Run, begun, round, Run-safe, Run-one_room, kicked_unannounced,
}
use system_design_implementa.Chat.Events.Absent.{
  is_stuck, StartsDoomed, absent_command_stuck, absent_join_dooms,
}

abbrev ann : Client
ann = record { conn = some "1.1.1.1:5"; name = "1.1.1.1:5"; channel = some 1 }

abbrev bob : Client
bob = record { conn = some "2.2.2.2:5"; name = "2.2.2.2:5"; channel = some 2 }

abbrev to_den : Message
to_den = record { client_name = "1.1.1.1:5"; kind = Kind.cmd_join; text = "den" }

-- After Ann has come.
abbrev with_ann : State
with_ann = record {
  rooms = (default, ("1.1.1.1:5", ann) ∷ []) ∷ [];
  locations = ("1.1.1.1:5", default) ∷ [];
}

ann_came : Run with_ann
unfolding start is_orderly handle put_member insert lookup
ann_came = round (comer ann) with_ann begun refl refl

Run-safe_example :
    GoesOn IsPlaced (handle (message to_den) with_ann)
    × (outcome_safe (handle (message to_den) with_ann) ≡ true)
Run-safe_example = Run-safe ann_came (message to_den) (unfold is_orderly lookup in refl)

Run-one_room_example :
    (default ≡ location "1.1.1.1:5" with_ann.locations)
    × (ann.name ≡ "1.1.1.1:5")
    × (ann.conn ≡ some "1.1.1.1:5")
Run-one_room_example =
    Run-one_room ann_came default "1.1.1.1:5" ann (unfold member hub lookup in refl)

kicked_unannounced_example :
    (handle (dead bob) start ≡ went_on (forget "2.2.2.2:5" start) (closed "2.2.2.2:5" ∷ []))
    × (handle (leaver bob) (forget "2.2.2.2:5" start)
        ≡ went_on (forget "2.2.2.2:5" (forget "2.2.2.2:5" start)) [])
kicked_unannounced_example = kicked_unannounced bob start "2.2.2.2:5" start-IsPlaced refl

absent_command_stuck_example : is_stuck (handle (message to_den) start) ≡ true
absent_command_stuck_example =
    absent_command_stuck to_den start start-IsPlaced (unfold is_present start lookup in refl) refl

absent_join_dooms_example :
    (s' : State) × (done : List Effect) × (handle (message to_den) start ≡ stuck s' done)
    × Any StartsDoomed done
absent_join_dooms_example =
    absent_join_dooms to_den start start-IsPlaced (unfold is_present start lookup in refl) refl
      (λ e. cc (e))
