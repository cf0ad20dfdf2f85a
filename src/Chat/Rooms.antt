-- ===== src/Chat/Rooms.antt =====
-- chat_system/internals/data/chat.go, and the maps Rooms and ClientLocations of cmd/api/main.go.
pub mod Laws
use system_design_implementa.Prelude.{
  ℕ, Bool, true, false, List, [], ◌∷◌, Option, none, some, String,
}
use system_design_implementa.Prelude.Assoc.{lookup, insert, remove}

-- A connection is its remote address, and a personal channel its number; none is nil.
pub record Client : Type 0 where
  pub conn : Option String
  pub name : String
  pub channel : Option ℕ

-- What a read of a missing key gives.
abbrev pub no_client : Client
no_client = record { conn = none; name = ""; channel = none }

abbrev pub Hub : Type 0
Hub = List (String × Client)

pub record State : Type 0 where
  pub rooms : List (String × Hub)
  pub locations : List (String × String)

-- Rooms[room], the nil map where the room is missing.
unfoldable pub hub : String → List (String × Hub) → Hub
hub room rooms = elim (lookup room rooms) [ none ↦ [] | some h ↦ h ]

-- Rooms[room][name], when it is there.
unfoldable pub member : String → String → List (String × Hub) → Option Client
unfolding hub
member room name rooms = lookup name (hub room rooms)

unfoldable pub member_or_zero : String → String → List (String × Hub) → Client
unfolding member
member_or_zero room name rooms = elim (member room name rooms) [ none ↦ no_client | some c ↦ c ]

unfoldable pub has_room : String → List (String × Hub) → Bool
has_room room rooms = elim (lookup room rooms) [ none ↦ false | some h ↦ true ]

-- delete(Rooms[room], name), which does nothing to a nil map.
unfoldable pub drop_member : String → String → List (String × Hub) → List (String × Hub)
drop_member room name rooms = elim (lookup room rooms) [
  | none ↦ rooms
  | some h ↦ insert room (remove name h) rooms
]

-- Rooms[room][name] = client; none is the panic of a write to a nil map.
unfoldable pub put_member :
    String → String → Client → List (String × Hub) → Option (List (String × Hub))
put_member room name client rooms = elim (lookup room rooms) [
  | none ↦ none
  | some h ↦ some (insert room (insert name client h) rooms)
]

-- `if Rooms[newRoom] == nil { Rooms[newRoom] = make(data.Hub) }`.
unfoldable pub ensure_room : String → List (String × Hub) → List (String × Hub)
ensure_room room rooms = elim (lookup room rooms) [ none ↦ insert room [] rooms | some h ↦ rooms ]

-- ClientLocations[name], "" where the name is missing.
unfoldable pub location : String → List (String × String) → String
location name locations = elim (lookup name locations) [ none ↦ "" | some room ↦ room ]
