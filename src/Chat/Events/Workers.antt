-- ===== src/Chat/Events/Workers.antt =====
-- Hubs whose clients all have a connection, and the workers started over them.
use system_design_implementa.Prelude.{
  ◌≡◌, refl, ◌∙◌, ap, Bool, true, false, not, ◌&&◌, ◌||◌, List, [], ◌∷◌, ◌++◌, map, none, some,
  String, arith, inl, inr, Option-cases,
}
use system_design_implementa.Prelude.Assoc.{lookup, insert, remove}
use system_design_implementa.Chat.Rooms.{
  Client, Hub, State, hub, drop_member, put_member, ensure_room,
}
use system_design_implementa.Chat.Broadcast.{Message, room_chunks}
use system_design_implementa.Chat.Broadcast.Laws.{heard, flat, any_nil, room_chunks_correct}
use system_design_implementa.Chat.Events.{
  Effect, started, told, closed, Outcome, went_on, stuck, panicked, broadcast, tell,
}

abbrev pub connected : Hub → Bool
connected [] = true
connected ((key, c) ∷ cs) = elim (c.conn) [ none ↦ false | some addr ↦ connected cs ]

-- Every client of every room has a connection.
abbrev pub all_connected : List (String × Hub) → Bool
all_connected [] = true
all_connected ((room, h) ∷ rooms) = connected h && all_connected rooms

-- No started worker has a client with no connection.
abbrev pub all_safe : List Effect → Bool
all_safe [] = true
all_safe (started cs m ∷ es) = not (any_nil cs) && all_safe es
all_safe (told ch text ∷ es) = all_safe es
all_safe (closed addr ∷ es) = all_safe es

abbrev pub outcome_safe : Outcome → Bool
outcome_safe (went_on s es) = all_connected s.rooms && all_safe es
outcome_safe (stuck s es) = all_connected s.rooms && all_safe es
outcome_safe panicked = true

abbrev pub has_conn : Client → Bool
has_conn c = elim (c.conn) [ none ↦ false | some addr ↦ true ]

insert-connected :
    (name : String) (c : Client) (h : Hub)
    → has_conn c ≡ true
    → connected h ≡ true
    → connected (insert name c h) ≡ true
unfolding insert
insert-connected name c [] l e = ground arith
insert-connected name c ((key, d) ∷ h) l e = ground (arith, insert-connected name c h)

remove-connected : (name : String) (h : Hub) → connected h ≡ true → connected (remove name h) ≡ true
unfolding remove
remove-connected name [] e = refl
remove-connected name ((key, d) ∷ h) e = ground (arith, remove-connected name h)

insert-all_connected :
    (room : String) (h : Hub) (rooms : List (String × Hub))
    → connected h ≡ true
    → all_connected rooms ≡ true
    → all_connected (insert room h rooms) ≡ true
unfolding insert
insert-all_connected room h [] l e = ground arith
insert-all_connected room h ((r, d) ∷ rooms) l e = ground (arith, insert-all_connected room h rooms)

hub-connected :
    (room : String) (rooms : List (String × Hub))
    → all_connected rooms ≡ true
    → connected (hub room rooms) ≡ true
unfolding hub lookup
hub-connected room [] e = refl
hub-connected room ((r, d) ∷ rooms) e = ground (arith, hub-connected room rooms)

pub drop_member-connected :
    (room name : String) (rooms : List (String × Hub))
    → all_connected rooms ≡ true
    → all_connected (drop_member room name rooms) ≡ true
unfolding drop_member hub
drop_member-connected room name rooms e = ground (
  arith,
  hub-connected room rooms,
  remove-connected name (hub room rooms),
  insert-all_connected room (remove name (hub room rooms)) rooms,
)

pub ensure_room-connected :
    (room : String) (rooms : List (String × Hub))
    → all_connected rooms ≡ true
    → all_connected (ensure_room room rooms) ≡ true
unfolding ensure_room
ensure_room-connected room rooms e = ground (arith, insert-all_connected room [] rooms)

pub put_member-connected :
    (room name : String) (c : Client) (rooms rooms' : List (String × Hub))
    → has_conn c ≡ true
    → all_connected rooms ≡ true
    → put_member room name c rooms ≡ some rooms'
    → all_connected rooms' ≡ true
unfolding put_member hub
put_member-connected room name c rooms rooms' l e p = ground (
  arith,
  hub-connected room rooms,
  insert-connected name c (hub room rooms),
  insert-all_connected room (insert name c (hub room rooms)) rooms,
)

heard-connected :
    (ignored : String) (h : Hub) → connected h ≡ true → any_nil (heard ignored h) ≡ false
heard-connected ignored [] e = refl
heard-connected ignored ((key, c) ∷ h) e = ground (arith, heard-connected ignored h)

pub any_nil-append : (xs ys : List Client) → any_nil (xs ++ ys) ≡ (any_nil xs || any_nil ys)
any_nil-append [] ys = refl
any_nil-append (x ∷ xs) ys = ground (arith, any_nil-append xs ys)

started-safe :
    (m : Message) (chunks : List (List Client))
    → any_nil (flat chunks) ≡ false
    → all_safe (map (λ chunk. started chunk m) chunks) ≡ true
started-safe m [] e = refl
started-safe m (c ∷ cs) e = ground (arith, any_nil-append c (flat cs), started-safe m cs)

pub all_safe-append : (xs ys : List Effect) → all_safe (xs ++ ys) ≡ (all_safe xs && all_safe ys)
all_safe-append [] ys = refl
all_safe-append (started c m ∷ xs) ys = ground (arith, all_safe-append xs ys)
all_safe-append (told ch text ∷ xs) ys = all_safe-append xs ys
all_safe-append (closed addr ∷ xs) ys = all_safe-append xs ys

pub broadcast-safe :
    (s : State) (room name : String) (m : Message)
    → all_connected s.rooms ≡ true
    → all_safe (broadcast s room name m) ≡ true
unfolding broadcast
broadcast-safe s room name m e =
    let clients = hub room s.rooms in
    let whole = (room_chunks_correct clients name 1000 (omega arith)).0 in
    started-safe m (room_chunks clients name 1000)
      (ap any_nil whole ∙ heard-connected name clients (hub-connected room s.rooms e))

pub tell-safe :
    (s : State) (done : List Effect) (c : Client) (text : String)
    → all_connected s.rooms ≡ true
    → all_safe done ≡ true
    → outcome_safe (tell s done c text) ≡ true
unfolding tell
tell-safe s done c text e d = elim (Option-cases (c.channel)) [
  | inl n ↦ ground arith
  | inr (ch, p) ↦ ground (arith, all_safe-append done (told ch text ∷ []))
]
