-- ===== src/ConsistentHashing/Placement.antt =====
-- Where keys go when a server comes or leaves.
use system_design_implementa.Prelude.{
  ℕ, zero, suc, ◌+◌, ◌≡◌, refl, ◌∙◌, ◌⊎◌, ◌≢◌, inl, inr, true, false, Bool-cases, Option-cases,
  List, [], ◌∷◌, ◌++◌, none, some, String, arith, if◌then◌else◌,
}
use system_design_implementa.ConsistentHashing.IntMap.{get, put, delete, get-put, get-delete}
use system_design_implementa.ConsistentHashing.Ring.{has, sort, target}
use system_design_implementa.ConsistentHashing.Hasher.{
  Env, Server, VirtualNode, ConsistentHasher, server_at, get_server, node_hashes, add_nodes,
  add_server, delete_all, node_or_zero,
}
use system_design_implementa.ConsistentHashing.Order.{
  IsSorted, has-append, has-sort, sort-IsSorted, target-IsTarget, target_unique, has-target,
}

-- The map of nodes after the loop of AddServer, at a hash of the new server and at another.
pub get-add_nodes_other :
    (e : Env) (name : String) (id i n h : ℕ) (m : List (ℕ × VirtualNode))
    → has h (node_hashes e name i n) ≡ false
    → get h (add_nodes e name id i n m) ≡ get h m
unfolding add_nodes node_hashes has
get-add_nodes_other e name id i zero h m f = refl
get-add_nodes_other e name id i (suc n) h m f =
    let x = e.get_hash (e.node_name name (i + 1)) in
    let v : VirtualNode = record { server_id = id; vnid = i + 1 } in
    ground (arith, f, get-put x h v m, get-add_nodes_other e name id (i + 1) n h (put x v m))

pub get-add_nodes_own :
    (e : Env) (name : String) (id i n h : ℕ) (m : List (ℕ × VirtualNode))
    → has h (node_hashes e name i n) ≡ true
    → (v : VirtualNode) × (get h (add_nodes e name id i n m) ≡ some v) × (v.server_id ≡ id)
unfolding add_nodes node_hashes has
get-add_nodes_own e name id i zero h m f = ground arith
get-add_nodes_own e name id i (suc n) h m f =
    let x = e.get_hash (e.node_name name (i + 1)) in
    let v : VirtualNode = record { server_id = id; vnid = i + 1 } in
    elim (Bool-cases (has h (node_hashes e name (i + 1) n))) [
      | inl t ↦ get-add_nodes_own e name id (i + 1) n h (put x v m) t
      | inr o ↦
          let kept = get-add_nodes_other e name id (i + 1) n h (put x v m) o in
          (v, ground (arith, f, o, kept, get-put x h v m), refl)
    ]

pub get-delete_all :
    (h : ℕ) (hs : List ℕ) (m : List (ℕ × VirtualNode))
    → get h (delete_all hs m) ≡ (if has h hs then none else get h m)
unfolding delete_all has
get-delete_all h [] m = refl
get-delete_all h (x ∷ hs) m = ground (arith, get-delete x h m, get-delete_all h hs (delete x m))

-- The hashes that AddServer adds.
abbrev pub added : Env → ConsistentHasher → List ℕ
added e ch = node_hashes e (e.server_name ch.next_server_id) 0 ch.virtual_nodes_per_server

server_at-added :
    (e : Env) (ch : ConsistentHasher) (h : ℕ)
    → has h (added e ch) ≡ true
    → server_at (add_server e ch).0 h ≡ e.server_name ch.next_server_id
unfolding server_at add_server
server_at-added e ch h f =
    let id = ch.next_server_id in
    let server : Server = record { id = id; name = e.server_name id } in
    let (v, found, own) =
      get-add_nodes_own e (e.server_name id) id 0 ch.virtual_nodes_per_server h ch.node_map f in
    ground (arith, found, own, get-put id v.server_id server ch.servers)

server_at-kept :
    (e : Env) (ch : ConsistentHasher) (h : ℕ)
    → has h (added e ch) ≡ false
    → (server_at (add_server e ch).0 h ≡ server_at ch h)
      ⊎ (server_at (add_server e ch).0 h ≡ e.server_name ch.next_server_id)
unfolding server_at add_server
server_at-kept e ch h f =
    let id = ch.next_server_id in
    let server : Server = record { id = id; name = e.server_name id } in
    let same =
      get-add_nodes_other e (e.server_name id) id 0 ch.virtual_nodes_per_server h ch.node_map f in
    ground (arith, same, get-put id (node_or_zero (get h ch.node_map)).server_id server ch.servers)

pub has-sort_append :
    (x : ℕ) (ring hs : List ℕ) → has x (sort (ring ++ hs)) ≡ (if has x ring then true else has x hs)
has-sort_append x ring hs = has-sort x (ring ++ hs) ∙ has-append x ring hs

-- Of the hashes that a ring and some new ones make, the one a key belongs to is new or is the old one.
target-sort :
    (k g h : ℕ) (ring hs : List ℕ)
    → IsSorted ring
    → target k ring ≡ some g
    → target k (sort (ring ++ hs)) ≡ some h
    → has h hs ≡ false
    → g ≡ h
target-sort k g h ring hs s p q f =
    let t = target-IsTarget k h (sort (ring ++ hs)) (sort-IsSorted (ring ++ hs)) q in
    let mine : has h ring ≡ true = ground (arith, t.0, has-sort_append h ring hs, f) in
    target_unique k g h ring (target-IsTarget k g ring s p)
      (mine, λ x m. t.1 x (ground (arith, has-sort_append x ring hs, m)))

target-sort-some :
    (k g : ℕ) (ring hs : List ℕ)
    → IsSorted ring
    → target k ring ≡ some g
    → target k (sort (ring ++ hs)) ≢ none
target-sort-some k g ring hs s p =
    let t = target-IsTarget k g ring s p in
    has-target k g (sort (ring ++ hs)) (ground (arith, t.0, has-sort_append g ring hs))

-- With a sorted ring, a key that has a server either keeps it when a server is added, or moves to the new one.
pub add_server_moves :
    (e : Env) (key : String) (ch : ConsistentHasher)
    → IsSorted ch.hash_ring
    → (get_server e key ch ≡ none)
      ⊎ (get_server e key (add_server e ch).0 ≡ get_server e key ch)
      ⊎ (get_server e key (add_server e ch).0 ≡ some (e.server_name ch.next_server_id))
unfolding get_server add_server
add_server_moves e key ch s =
    let k = e.get_hash key in
    let hs = added e ch in
    elim (Option-cases (target k ch.hash_ring)) [
      | inl n ↦ inl (ground (arith, n))
      | inr (g, p) ↦ elim (Option-cases (target k (sort (ch.hash_ring ++ hs)))) [
        | inl n ↦ elim (target-sort-some k g ch.hash_ring hs s p n) [ ]
        | inr (h, q) ↦ elim (Bool-cases (has h hs)) [
          | inl t ↦ inr (inr (ground (arith, q, server_at-added e ch h t)))
          | inr f ↦
              let same = target-sort k g h ch.hash_ring hs s p q f in
              elim (server_at-kept e ch h f) [
                | inl kept ↦ inr (inl (ground (arith, p, q, same, kept)))
                | inr new ↦ inr (inr (ground (arith, q, new)))
              ]
        ]
      ]
    ]
