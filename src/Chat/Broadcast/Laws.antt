-- ===== src/Chat/Broadcast/Laws.antt =====
-- The chunks of a room hold each of its clients but the ignored one, once.
use mathlib.Core.List.{append-nil, append_assoc}
use Prim.Native.String as Native
use system_design_implementa.Prelude.{
  ℕ, ◌+◌, ◌≤◌, ◌≡◌, ◌∙◌, sym, ap, refl, Bool, true, false, ◌&&◌, List, [], ◌∷◌, ◌++◌, none, some,
  String, str_eq, if◌then◌else◌, leb, ltb, length, arith,
}
use system_design_implementa.Chat.Rooms.{Client, Hub}
use system_design_implementa.Chat.Broadcast.{
  kind_text, Message, Chunks, add_client, chunk_loop, close_chunks, room_chunks, Delivery, deliver,
  worker, broadcast_worker,
}

-- The clients of a room whose name is not the ignored one, in order.
abbrev pub heard : String → Hub → List Client
heard ignored [] = []
heard ignored ((key, c) ∷ cs) =
    if str_eq c.name ignored then heard ignored cs else c ∷ heard ignored cs

abbrev pub flat : List (List Client) → List Client
flat [] = []
flat (c ∷ cs) = c ++ flat cs

flat-append : (xs ys : List (List Client)) → flat (xs ++ ys) ≡ flat xs ++ flat ys
flat-append [] ys = refl
flat-append (x ∷ xs) ys = ground (arith, flat-append xs ys, append_assoc x (flat xs) (flat ys))

-- Each chunk has at least one client and at most `size`.
abbrev pub fit_chunks : ℕ → List (List Client) → Bool
fit_chunks size [] = true
fit_chunks size (c ∷ cs) = leb 1 (length c) && leb (length c) size && fit_chunks size cs

fit_chunks-append :
    (size : ℕ) (xs ys : List (List Client))
    → fit_chunks size xs ≡ true
    → fit_chunks size ys ≡ true
    → fit_chunks size (xs ++ ys) ≡ true
fit_chunks-append size [] ys f g = g
fit_chunks-append size (x ∷ xs) ys f g = ground (arith, fit_chunks-append size xs ys)

length-snoc : (xs : List Client) (c : Client) → length (xs ++ c ∷ []) ≡ length xs + 1
length-snoc [] c = omega arith
length-snoc (x ∷ xs) c = omega (arith, length-snoc xs c)

abbrev so_far : Chunks → List Client
so_far (full, current) = flat full ++ current

add_client-flat :
    (ignored : String) (size : ℕ) (c : Client) (full : List (List Client)) (current : List Client)
    → so_far (add_client ignored size c (full, current))
      ≡ (flat full ++ current) ++ (if str_eq c.name ignored then [] else c ∷ [])
unfolding add_client
add_client-flat ignored size c full current = ground (
  arith,
  flat-append full ((current ++ c ∷ []) ∷ []),
  append_assoc (flat full) current (c ∷ []),
  append-nil (flat full ++ current),
  append-nil (flat full ++ (current ++ c ∷ [])),
  append-nil (current ++ c ∷ []),
)

-- Full chunks have the right size, and the current one is not full.
abbrev filling : ℕ → Chunks → Bool
filling size (full, current) = fit_chunks size full && ltb (length current) size

add_client-filling :
    (ignored : String) (size : ℕ) (c : Client) (full : List (List Client)) (current : List Client)
    → filling size (full, current) ≡ true
    → filling size (add_client ignored size c (full, current)) ≡ true
unfolding add_client
add_client-filling ignored size c full current f =
    ground (arith, length-snoc current c, fit_chunks-append size full ((current ++ c ∷ []) ∷ []))

chunk_loop-flat :
    (ignored : String) (size : ℕ) (cs : Hub) (chunks : Chunks)
    → so_far (chunk_loop ignored size cs chunks) ≡ so_far chunks ++ heard ignored cs
unfolding chunk_loop
chunk_loop-flat ignored size [] (full, current) = sym (append-nil (flat full ++ current))
chunk_loop-flat ignored size ((key, c) ∷ cs) (full, current) = ground (
  arith,
  chunk_loop-flat ignored size cs (add_client ignored size c (full, current)),
  add_client-flat ignored size c full current,
  append_assoc (flat full ++ current) (c ∷ []) (heard ignored cs),
  append-nil (flat full ++ current),
)

chunk_loop-filling :
    (ignored : String) (size : ℕ) (cs : Hub) (chunks : Chunks)
    → filling size chunks ≡ true
    → filling size (chunk_loop ignored size cs chunks) ≡ true
unfolding chunk_loop
chunk_loop-filling ignored size [] chunks f = f
chunk_loop-filling ignored size ((key, c) ∷ cs) (full, current) f =
    chunk_loop-filling ignored size cs (add_client ignored size c (full, current))
      (add_client-filling ignored size c full current f)

close_chunks-flat : (chunks : Chunks) → flat (close_chunks chunks) ≡ so_far chunks
unfolding close_chunks
close_chunks-flat (full, []) = sym (append-nil (flat full))
close_chunks-flat (full, c ∷ cs) =
    flat-append full ((c ∷ cs) ∷ []) ∙ ap (λ l. flat full ++ l) (append-nil (c ∷ cs))

close_chunks-fit :
    (size : ℕ) (chunks : Chunks)
    → filling size chunks ≡ true
    → fit_chunks size (close_chunks chunks) ≡ true
unfolding close_chunks
close_chunks-fit size (full, []) f = ground arith
close_chunks-fit size (full, c ∷ cs) f = ground (arith, fit_chunks-append size full ((c ∷ cs) ∷ []))

-- getRoomChunks, for a chunk size of at least 1: the chunks together are the clients of the room in
-- order, each once, but those with the ignored name, and each chunk has at least one client and at most
-- the chunk size.
pub room_chunks_correct :
    (clients : Hub) (ignored : String) (size : ℕ)
    → 1 ≤ size
    → (flat (room_chunks clients ignored size) ≡ heard ignored clients)
      × (fit_chunks size (room_chunks clients ignored size) ≡ true)
unfolding room_chunks
room_chunks_correct clients ignored size pos =
    let chunks = chunk_loop ignored size clients ([], []) in
    (
      close_chunks-flat chunks ∙ chunk_loop-flat ignored size clients ([], []),
      close_chunks-fit size chunks
          (chunk_loop-filling ignored size clients ([], []) (ground arith)),
    )

-- Whether a client has no connection.
abbrev pub any_nil : List Client → Bool
any_nil [] = false
any_nil (c ∷ cs) = elim (c.conn) [ none ↦ true | some addr ↦ any_nil cs ]

worker-nil :
    (free : ℕ → Bool) (text sender : String) (cs : List Client)
    → any_nil cs ≡ true
    → worker free text sender cs ≡ none
unfolding worker
worker-nil free text sender [] e = absurd (cc)
worker-nil free text sender (c ∷ cs) e = ground (arith, worker-nil free text sender cs)

-- What a worker does with the clients, where all have a connection: the sender is passed over.
abbrev pub deliveries : (ℕ → Bool) → String → String → List Client → List Delivery
deliveries free text sender [] = []
deliveries free text sender (c ∷ cs) =
    let rest = deliveries free text sender cs in
    elim (c.conn) [
      | none ↦ rest
      | some addr ↦ if str_eq addr sender then rest else deliver free text c ∷ rest
    ]

worker-some :
    (free : ℕ → Bool) (text sender : String) (cs : List Client)
    → any_nil cs ≡ false
    → worker free text sender cs ≡ some (deliveries free text sender cs)
unfolding worker
worker-some free text sender [] e = refl
worker-some free text sender (c ∷ cs) e = ground (arith, worker-some free text sender cs)

-- A worker panics, whatever channels have room, when one of its clients has no connection; else it comes
-- to an end and passes over the sender, sends to each other client whose channel has room, and hands each
-- other one over to be kicked.
pub broadcast_worker_correct :
    (free : ℕ → Bool) (cs : List Client) (m : Message)
    → broadcast_worker free cs m ≡ (
        if any_nil cs
        then none
        else some (
            deliveries free
              (Native.◌++◌ (kind_text m.kind) (Native.◌++◌ ": " m.text))
              m.client_name
              cs))
unfolding broadcast_worker
broadcast_worker_correct free cs m =
    let text = Native.◌++◌ (kind_text m.kind) (Native.◌++◌ ": " m.text) in
    ground (arith, worker-nil free text m.client_name cs, worker-some free text m.client_name cs)
