-- ===== src/Chat/Rooms/Laws.antt =====
-- What each change of the rooms leaves in which room.
use system_design_implementa.Prelude.{
  ◌≡◌, true, ◌&&◌, ◌||◌, List, [], none, some, String, str_eq, str_eq_iff, if◌then◌else◌, arith,
}
use system_design_implementa.Prelude.Assoc.{lookup, insert, remove, lookup-insert, lookup-remove}
use system_design_implementa.Chat.Rooms.{
  Client, Hub, hub, member, has_room, drop_member, put_member, ensure_room,
}

pub member-drop_member :
    (r n room name : String) (rooms : List (String × Hub))
    → member r n (drop_member room name rooms)
      ≡ (if str_eq room r && str_eq name n then none else member r n rooms)
unfolding member drop_member hub lookup
member-drop_member r n room name rooms = ground (
  arith,
  lookup-insert room r (remove name (hub room rooms)) rooms,
  lookup-remove name n (hub room rooms),
  str_eq_iff room r,
)

pub has_room-drop_member :
    (r room name : String) (rooms : List (String × Hub))
    → has_room r (drop_member room name rooms) ≡ has_room r rooms
unfolding has_room drop_member hub
has_room-drop_member r room name rooms =
    ground (arith, lookup-insert room r (remove name (hub room rooms)) rooms, str_eq_iff room r)

pub has_room-ensure_room :
    (r room : String) (rooms : List (String × Hub))
    → has_room r (ensure_room room rooms) ≡ (str_eq room r || has_room r rooms)
unfolding has_room ensure_room
has_room-ensure_room r room rooms = ground (arith, lookup-insert room r [] rooms, str_eq_iff room r)

pub member-ensure_room :
    (r n room : String) (rooms : List (String × Hub))
    → member r n (ensure_room room rooms) ≡ member r n rooms
unfolding member hub ensure_room lookup
member-ensure_room r n room rooms = ground (arith, lookup-insert room r [] rooms, str_eq_iff room r)

-- A client is put into a room that is there.
pub put_member_lem :
    (room name : String) (client : Client) (rooms : List (String × Hub))
    → has_room room rooms ≡ true
    → (rooms' : List (String × Hub)) × (put_member room name client rooms ≡ some rooms')
      × ((r n : String)
          → member r n rooms'
            ≡ (if str_eq room r && str_eq name n then some client else member r n rooms))
      × ((r : String) → has_room r rooms' ≡ has_room r rooms)
unfolding has_room put_member member hub
put_member_lem room name client rooms h =
    let at = hub room rooms in
    let rooms' = insert room (insert name client at) rooms in
    (
      rooms',
      ground arith,
      (λ r n. ground (
        arith,
        lookup-insert room r (insert name client at) rooms,
        lookup-insert name n client at,
        str_eq_iff room r,
      )),
      (λ r. ground (arith, lookup-insert room r (insert name client at) rooms, str_eq_iff room r)),
    )
