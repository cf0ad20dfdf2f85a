-- ===== src/Chat/Broadcast.antt =====
-- chat_system/cmd/api/main.go: getRoomChunks and broadcastWorker.
pub mod Laws
use system_design_implementa.Prelude.{
  ℕ, Bool, true, false, List, [], ◌∷◌, ◌++◌, Option, none, some, String, str_eq, if◌then◌else◌,
  ◌==◌, length,
}
use system_design_implementa.Chat.Rooms.{Client, Hub}
use Prim.Native.String as Native

pub data Kind : Type 0 where
  join leave msg cmd_join cmd_leave cmd_getrooms : Kind

pub record Message : Type 0 where
  pub client_name : String
  pub kind : Kind
  pub text : String

abbrev pub kind_text : Kind → String
kind_text Kind.join = "JOIN"
kind_text Kind.leave = "LEAVE"
kind_text Kind.msg = "MSG"
kind_text Kind.cmd_join = "CMD_JOIN"
kind_text Kind.cmd_leave = "CMD_LEAVE"
kind_text Kind.cmd_getrooms = "CMD_GETROOMS"

-- The chunk that is being filled, after the chunks that are full.
abbrev pub Chunks : Type 0
Chunks = List (List Client) × List Client

unfoldable pub add_client : String → ℕ → Client → Chunks → Chunks
add_client ignored size c (full, current) =
    if str_eq c.name ignored
    then (full, current)
    else if length (current ++ c ∷ []) == size
    then (full ++ (current ++ c ∷ []) ∷ [], [])
    else (full, current ++ c ∷ [])

unfoldable pub chunk_loop : String → ℕ → Hub → Chunks → Chunks
unfolding add_client
chunk_loop ignored size [] chunks = chunks
chunk_loop ignored size ((key, c) ∷ cs) chunks =
    chunk_loop ignored size cs (add_client ignored size c chunks)

-- The last chunk counts when it is not empty.
unfoldable pub close_chunks : Chunks → List (List Client)
close_chunks (full, []) = full
close_chunks (full, c ∷ cs) = full ++ (c ∷ cs) ∷ []

-- getRoomChunks over the clients of a room, in the order of the list; Go ranges over them in any order.
unfoldable pub room_chunks : Hub → String → ℕ → List (List Client)
unfolding chunk_loop close_chunks
room_chunks clients ignored size = close_chunks (chunk_loop ignored size clients ([], []))

-- What a worker does with a client: it queues a text on the client's channel, or hands the client over
-- to be kicked.
pub data Delivery : Type 0 where
  queued : ℕ → String → Delivery
  kicked : Client → Delivery

-- A send that does not wait: `free` tells which channels have room, and the nil channel has none.
unfoldable pub deliver : (ℕ → Bool) → String → Client → Delivery
deliver free text c = elim (c.channel) [
  | none ↦ kicked c
  | some ch ↦ if free ch then queued ch text else kicked c
]

-- broadcastWorker, when the loop goes on and takes each kick from the channel, which has no buffer;
-- none is the panic of RemoteAddr on a nil connection.
unfoldable pub worker : (ℕ → Bool) → String → String → List Client → Option (List Delivery)
unfolding deliver
worker free text sender [] = some []
worker free text sender (c ∷ cs) =
    let rest = worker free text sender cs in
    elim (c.conn) [
      | none ↦ none
      | some addr ↦ elim rest [
        | none ↦ none
        | some ds ↦ some (if str_eq addr sender then ds else deliver free text c ∷ ds)
      ]
    ]

unfoldable pub broadcast_worker : (ℕ → Bool) → List Client → Message → Option (List Delivery)
unfolding worker
broadcast_worker free clients m =
    worker free (Native.◌++◌ (kind_text m.kind) (Native.◌++◌ ": " m.text)) m.client_name clients

-- broadcastWorker, when the loop takes no more kicks: it ends, panics, or waits for ever at a kick.
pub data WorkerEnd : Type 0 where
  finishes panics waits : WorkerEnd

unfoldable pub unheard_worker : (ℕ → Bool) → String → List Client → WorkerEnd
unfolding deliver
unheard_worker free sender [] = finishes
unheard_worker free sender (c ∷ cs) =
    let rest = unheard_worker free sender cs in
    elim (c.conn) [
      | none ↦ panics
      | some addr ↦
          if str_eq addr sender
          then rest
          else elim (deliver free "" c) [ queued ch text ↦ rest | kicked d ↦ waits ]
    ]
