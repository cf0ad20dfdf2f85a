-- ===== src/ConsistentHashing/Upkeep.antt =====
-- What the methods keep of the ring, the map of nodes and the servers.
use mathlib.Core.Path.{subst}
use system_design_implementa.Prelude.{
  ℕ, ◌≡◌, ◌≢◌, sym, ◌∙◌, ap, ◌⊎◌, inl, inr, true, false, Bool-cases, Option-cases, List, [], ◌∷◌,
  ◌++◌, some, String, arith, if◌then◌else◌,
}
use system_design_implementa.ConsistentHashing.IntMap.{get, put, delete, get-put, get-delete}
use system_design_implementa.ConsistentHashing.Ring.{has, target}
use system_design_implementa.ConsistentHashing.Hasher.{
  Env, Server, VirtualNode, ConsistentHasher, get_new_hasher, server_at, get_server, node_hashes,
  add_server, remove_server, drop_server, Action, add, drop, act, act_all,
}
use system_design_implementa.ConsistentHashing.Order.{
  IsSorted, has-without, sort-IsSorted, without-IsSorted, target-IsTarget, target-none,
}
use system_design_implementa.ConsistentHashing.Placement.{
  added, get-add_nodes_other, get-add_nodes_own, get-delete_all, has-sort_append,
}

-- The node that a hash of the ring has: its server is there under its own name, and the hash is one
-- of the hashes of that server.
pub record HasNode (e : Env) (ch : ConsistentHasher) (h : ℕ) : Type 0 where
  pub node : VirtualNode
  pub found : get h ch.node_map ≡ some node
  pub live :
      get node.server_id ch.servers
      ≡ some (record { id = node.server_id; name = e.server_name node.server_id })
  pub own :
      has h (node_hashes e (e.server_name node.server_id) 0 ch.virtual_nodes_per_server) ≡ true

-- The server of each number is there under the number and its name.
abbrev pub IsNamed : Env → List (ℕ × Server) → Type 0
IsNamed e servers =
    (id : ℕ) (s : Server)
    → get id servers ≡ some s
    → s ≡ record { id = id; name = e.server_name id }

-- The ring is sorted, every hash on it leads to a node of a live server, and the servers are named.
abbrev pub IsSound : Env → ConsistentHasher → Type 0
IsSound e ch =
    IsSorted ch.hash_ring
    × ((h : ℕ) → has h ch.hash_ring ≡ true → HasNode e ch h)
    × IsNamed e ch.servers

-- In a sound ring that is not empty, a key's server is a server that is there, under its own name.
pub get_server-live :
    (e : Env) (key : String) (ch : ConsistentHasher)
    → IsSound e ch
    → (ch.hash_ring ≡ [])
      ⊎ ((id : ℕ) × (get id ch.servers ≡ some (record { id = id; name = e.server_name id }))
          × (get_server e key ch ≡ some (e.server_name id)))
unfolding get_server server_at
get_server-live e key ch s = elim (Option-cases (target (e.get_hash key) ch.hash_ring)) [
  | inl n ↦ inl (target-none (e.get_hash key) ch.hash_ring n)
  | inr (h, p) ↦
      let n = s.1 h (target-IsTarget (e.get_hash key) h ch.hash_ring s.0 p).0 in
      inr (n.node.server_id, n.live, ground (arith, p, n.found, n.live))
]

add_server-HasNode :
    (e : Env) (ch : ConsistentHasher) (h : ℕ)
    → (has h ch.hash_ring ≡ true → HasNode e ch h)
    → (if has h ch.hash_ring then true else has h (added e ch)) ≡ true
    → HasNode e (add_server e ch).0 h
unfolding add_server
add_server-HasNode e ch h old m =
    let id = ch.next_server_id in
    let name = e.server_name id in
    let server : Server = record { id = id; name = name } in
    let n = ch.virtual_nodes_per_server in
    elim (Bool-cases (has h (added e ch))) [
      | inl t ↦
          let (v, found, own) = get-add_nodes_own e name id 0 n h ch.node_map t in
          record {
            node = v;
            found = found;
            live = rw (own) (ground (arith, get-put id id server ch.servers));
            own = rw (own) t;
          }
      | inr f ↦
          let was = old (ground (arith, m, f)) in
          record {
            node = was.node;
            found = get-add_nodes_other e name id 0 n h ch.node_map f ∙ was.found;
            live = ground (arith, was.live, get-put id was.node.server_id server ch.servers);
            own = was.own;
          }
    ]

put-IsNamed :
    (e : Env) (id : ℕ) (servers : List (ℕ × Server))
    → IsNamed e servers
    → IsNamed e (put id (record { id = id; name = e.server_name id }) servers)
put-IsNamed e id servers named j s m =
    ground (arith, named j s, m, get-put id j (record { id = id; name = e.server_name id }) servers)

delete-IsNamed :
    (e : Env) (id : ℕ) (servers : List (ℕ × Server))
    → IsNamed e servers
    → IsNamed e (delete id servers)
delete-IsNamed e id servers named j s m = ground (arith, named j s, m, get-delete id j servers)

-- AddServer keeps a ring sound, collisions of hashes included.
pub add_server-IsSound :
    (e : Env) (ch : ConsistentHasher) → IsSound e ch → IsSound e (add_server e ch).0
unfolding add_server
add_server-IsSound e ch s = (
  sort-IsSorted (ch.hash_ring ++ added e ch),
  (λ h m.
      add_server-HasNode e ch h (s.1 h) (sym (has-sort_append h ch.hash_ring (added e ch)) ∙ m)),
  put-IsNamed e ch.next_server_id ch.servers s.2,
)

-- A hash that is not one of a server's belongs to another.
pub server-other :
    (e : Env) (id h : ℕ) (s : Server) (ch : ConsistentHasher)
    → get id ch.servers ≡ some s
    → has h (node_hashes e s.name 0 ch.virtual_nodes_per_server) ≡ false
    → (was : HasNode e ch h) → was.node.server_id ≢ id
server-other e id h s ch there f was same =
    let named : e.server_name was.node.server_id ≡ s.name = ground (arith, same, there, was.live) in
    ground (
      arith,
      f,
      was.own,
      ap (λ (n : String). has h (node_hashes e n 0 ch.virtual_nodes_per_server)) named,
    )

drop_server-HasNode :
    (e : Env) (id h : ℕ) (s : Server) (ch : ConsistentHasher)
    → get id ch.servers ≡ some s
    → has h (node_hashes e s.name 0 ch.virtual_nodes_per_server) ≡ false
    → HasNode e ch h
    → HasNode e (drop_server e id s ch) h
unfolding drop_server
drop_server-HasNode e id h s ch there f was =
    let hashes = node_hashes e s.name 0 ch.virtual_nodes_per_server in
    let other = server-other e id h s ch there f was in
    record {
      node = was.node;
      found = ground (arith, f, was.found, get-delete_all h hashes ch.node_map);
      live = ground (arith, other, was.live, get-delete id was.node.server_id ch.servers);
      own = was.own;
    }

drop_server-IsSound :
    (e : Env) (id : ℕ) (s : Server) (ch : ConsistentHasher)
    → get id ch.servers ≡ some s
    → IsSound e ch
    → IsSound e (drop_server e id s ch)
unfolding drop_server
drop_server-IsSound e id s ch there sound =
    let hashes = node_hashes e s.name 0 ch.virtual_nodes_per_server in
    (
      without-IsSorted hashes ch.hash_ring sound.0,
      (λ h m.
          let left = has-without h hashes ch.hash_ring in
          drop_server-HasNode e id h s ch there (ground (arith, left, m))
            (sound.1 h (ground (arith, left, m)))),
      delete-IsNamed e id ch.servers sound.2,
    )

pub remove_server-cases :
    (e : Env) (id : ℕ) (ch : ConsistentHasher)
    → ((remove_server e id ch).0 ≡ ch)
      ⊎ ((s : Server) × (get id ch.servers ≡ some s)
          × ((remove_server e id ch).0 ≡ drop_server e id s ch))
unfolding remove_server
remove_server-cases e id ch = elim (Option-cases (get id ch.servers)) [
  | inl n ↦ inl (ground (arith, n))
  | inr (s, there) ↦ inr (s, there, ground (arith, there))
]

-- RemoveServer keeps a ring sound, whether the server is there or not.
pub remove_server-IsSound :
    (e : Env) (id : ℕ) (ch : ConsistentHasher) → IsSound e ch → IsSound e (remove_server e id ch).0
remove_server-IsSound e id ch sound = elim (remove_server-cases e id ch) [
  | inl same ↦ subst (IsSound e) (sym same) sound
  | inr (s, there, gone) ↦ subst (IsSound e) (sym gone) (drop_server-IsSound e id s ch there sound)
]

acts-IsSound :
    (e : Env) (actions : List Action) (ch : ConsistentHasher)
    → IsSound e ch
    → IsSound e (act_all e actions ch)
unfolding act_all act
acts-IsSound e [] ch s = s
acts-IsSound e (add ∷ actions) ch s =
    acts-IsSound e actions (add_server e ch).0 (add_server-IsSound e ch s)
acts-IsSound e (drop id ∷ actions) ch s =
    acts-IsSound e actions (remove_server e id ch).0 (remove_server-IsSound e id ch s)

-- From a new hasher on, whatever servers are added and removed and whatever hashes collide, the ring
-- is sound: sorted, every hash on it leads to a node of a server that is there, and each server is
-- there under its number and its name.
pub act_all-IsSound :
    (e : Env) (per_server : ℕ) (actions : List Action)
    → IsSound e (act_all e actions (get_new_hasher per_server))
unfolding get_new_hasher has get
act_all-IsSound e per_server actions =
    acts-IsSound e actions (get_new_hasher per_server)
      (tt, (λ h m. ground arith), λ id s m. ground arith)
