-- ===== src/ConsistentHashing/Hasher.antt =====
-- ConsistentHasher, each method under its lock.
use system_design_implementa.Prelude.{
  ℕ, zero, suc, ◌+◌, Bool, true, false, List, [], ◌∷◌, ◌++◌, Option, none, some, String, length,
}
use system_design_implementa.ConsistentHashing.IntMap.{get, put, delete}
use system_design_implementa.ConsistentHashing.Ring.{sort, target, without}

-- What the methods take from outside: the names that fmt.Sprintf makes of a server's number and of a
-- virtual node's, and the first four bytes of a text's MD5 sum.
pub record Env : Type 0 where
  pub server_name : ℕ → String
  pub node_name : String → ℕ → String
  pub get_hash : String → ℕ

pub record Server : Type 0 where
  pub id : ℕ
  pub name : String

pub record VirtualNode : Type 0 where
  pub server_id : ℕ
  pub vnid : ℕ

pub record ConsistentHasher : Type 0 where
  pub hash_ring : List ℕ
  pub node_map : List (ℕ × VirtualNode)
  pub servers : List (ℕ × Server)
  pub virtual_nodes_per_server : ℕ
  pub next_server_id : ℕ

unfoldable pub get_new_hasher : ℕ → ConsistentHasher
get_new_hasher per_server = record {
  hash_ring = [];
  node_map = [];
  servers = [];
  virtual_nodes_per_server = per_server;
  next_server_id = 0;
}

-- A missing entry of a Go map reads as the zero value.
abbrev pub node_or_zero : Option VirtualNode → VirtualNode
node_or_zero none = record { server_id = 0; vnid = 0 }
node_or_zero (some v) = v

abbrev pub name_or_empty : Option Server → String
name_or_empty none = ""
name_or_empty (some s) = s.name

-- The name of the server that a hash of the ring leads to.
unfoldable pub server_at : ConsistentHasher → ℕ → String
server_at ch h = name_or_empty (get (node_or_zero (get h ch.node_map)).server_id ch.servers)

-- Get; none for the error that no servers exist.
unfoldable pub get_server : Env → String → ConsistentHasher → Option String
get_server e key ch = elim (target (e.get_hash key) ch.hash_ring) [
  | none ↦ none
  | some h ↦ some (server_at ch h)
]

-- The hashes of `n` virtual nodes of a server, from the one after `i`.
unfoldable pub node_hashes : Env → String → ℕ → ℕ → List ℕ
node_hashes e name i zero = []
node_hashes e name i (suc n) = e.get_hash (e.node_name name (i + 1)) ∷ node_hashes e name (i + 1) n

-- The loop of AddServer over the virtual nodes, its writes to the map of nodes.
unfoldable pub add_nodes :
    Env → String → ℕ → ℕ → ℕ → List (ℕ × VirtualNode) → List (ℕ × VirtualNode)
add_nodes e name id i zero m = m
add_nodes e name id i (suc n) m =
    add_nodes e name id (i + 1) n
      (put (e.get_hash (e.node_name name (i + 1))) (record { server_id = id; vnid = i + 1 }) m)

unfoldable pub add_server : Env → ConsistentHasher → ConsistentHasher × ℕ
add_server e ch =
    let id = ch.next_server_id in
    let name = e.server_name id in
    let servers = put id (record { id = id; name = name }) ch.servers in
    (
      record ch {
        hash_ring = sort (ch.hash_ring ++ node_hashes e name 0 ch.virtual_nodes_per_server);
        node_map = add_nodes e name id 0 ch.virtual_nodes_per_server ch.node_map;
        servers = servers;
        next_server_id = id + 1;
      },
      length servers,
    )

unfoldable pub delete_all : List ℕ → List (ℕ × VirtualNode) → List (ℕ × VirtualNode)
delete_all [] m = m
delete_all (h ∷ hs) m = delete_all hs (delete h m)

-- The writes of RemoveServer.
unfoldable pub drop_server : Env → ℕ → Server → ConsistentHasher → ConsistentHasher
drop_server e id s ch =
    let hashes = node_hashes e s.name 0 ch.virtual_nodes_per_server in
    record ch {
      hash_ring = without hashes ch.hash_ring;
      node_map = delete_all hashes ch.node_map;
      servers = delete id ch.servers;
    }

-- RemoveServer: the number of servers left, and whether there was such a server.
unfoldable pub remove_server : Env → ℕ → ConsistentHasher → ConsistentHasher × ℕ × Bool
remove_server e id ch = elim (get id ch.servers) [
  | none ↦ (ch, length ch.servers, false)
  | some s ↦ let left = drop_server e id s ch in (left, length left.servers, true)
]

-- What the menu of cmd/api/main.go does to the hasher.
pub data Action : Type 0 where
  add : Action
  drop : ℕ → Action

unfoldable pub act : Env → Action → ConsistentHasher → ConsistentHasher
act e add ch = (add_server e ch).0
act e (drop id) ch = (remove_server e id ch).0

unfoldable pub act_all : Env → List Action → ConsistentHasher → ConsistentHasher
act_all e [] ch = ch
act_all e (a ∷ actions) ch = act_all e actions (act e a ch)
