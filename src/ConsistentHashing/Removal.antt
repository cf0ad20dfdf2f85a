-- ===== src/ConsistentHashing/Removal.antt =====
-- Where keys go when a server is removed.
use system_design_implementa.Prelude.{
  ℕ, ◌≡◌, ◌∙◌, ap, inl, inr, true, false, Option-cases, some, String, arith,
}
use system_design_implementa.ConsistentHashing.IntMap.{get, get-delete}
use system_design_implementa.ConsistentHashing.Ring.{has, target, without}
use system_design_implementa.ConsistentHashing.Hasher.{
  Env, Server, ConsistentHasher, server_at, get_server, node_hashes, remove_server, drop_server,
}
use system_design_implementa.ConsistentHashing.Order.{
  has-without, without-IsSorted, target-IsTarget, target_unique, has-target,
}
use system_design_implementa.ConsistentHashing.Placement.{get-delete_all}
use system_design_implementa.ConsistentHashing.Upkeep.{
  HasNode, IsSound, server-other, remove_server-cases,
}

server_at-drop :
    (e : Env) (id h : ℕ) (s : Server) (ch : ConsistentHasher)
    → get id ch.servers ≡ some s
    → has h (node_hashes e s.name 0 ch.virtual_nodes_per_server) ≡ false
    → HasNode e ch h
    → server_at (drop_server e id s ch) h ≡ server_at ch h
unfolding server_at drop_server
server_at-drop e id h s ch there f was =
    let hashes = node_hashes e s.name 0 ch.virtual_nodes_per_server in
    let other = server-other e id h s ch there f was in
    ground (
      arith,
      was.found,
      was.live,
      f,
      other,
      get-delete_all h hashes ch.node_map,
      get-delete id was.node.server_id ch.servers,
    )

target-drop :
    (k : ℕ) (e : Env) (id h : ℕ) (s : Server) (ch : ConsistentHasher)
    → IsSound e ch
    → target k ch.hash_ring ≡ some h
    → has h (node_hashes e s.name 0 ch.virtual_nodes_per_server) ≡ false
    → target k (drop_server e id s ch).hash_ring ≡ some h
unfolding drop_server has
target-drop k e id h s ch sound p f =
    let hashes = node_hashes e s.name 0 ch.virtual_nodes_per_server in
    let ring = without hashes ch.hash_ring in
    let t = target-IsTarget k h ch.hash_ring sound.0 p in
    let here : has h ring ≡ true = ground (arith, t.0, f, has-without h hashes ch.hash_ring) in
    elim (Option-cases (target k ring)) [
      | inl n ↦ elim (has-target k h ring here n) [ ]
      | inr (g, q) ↦
          let first = target-IsTarget k g ring (without-IsSorted hashes ch.hash_ring sound.0) q in
          let same =
            target_unique k g h ring first
              (here, λ x m. t.1 x (ground (arith, m, has-without x hashes ch.hash_ring))) in
          q ∙ ap some same
    ]

-- A key of a sound ring keeps its server when a server is removed whose hashes do not include the
-- hash that the key belongs to.
pub remove_server_keeps :
    (e : Env) (key : String) (id h : ℕ) (ch : ConsistentHasher)
    → IsSound e ch
    → target (e.get_hash key) ch.hash_ring ≡ some h
    → has h (node_hashes e (e.server_name id) 0 ch.virtual_nodes_per_server) ≡ false
    → get_server e key (remove_server e id ch).0 ≡ get_server e key ch
unfolding get_server
remove_server_keeps e key id h ch sound p f = elim (remove_server-cases e id ch) [
  | inl same ↦ ground (arith, same)
  | inr (s, there, gone) ↦
      let named : s.name ≡ e.server_name id = ground (arith, sound.2 id s there) in
      let clear : has h (node_hashes e s.name 0 ch.virtual_nodes_per_server) ≡ false =
        rw (named) f in
      let stays = target-drop (e.get_hash key) e id h s ch sound p clear in
      let found = sound.1 h (target-IsTarget (e.get_hash key) h ch.hash_ring sound.0 p).0 in
      let same = server_at-drop e id h s ch there clear found in
      rw (gone) (ground (arith, p, stays, same))
]
