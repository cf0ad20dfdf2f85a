-- ===== src/ConsistentHashing/Examples.antt =====
-- The hasher's theorems at a ring of one server and of two.
use system_design_implementa.Prelude.{
  length, List, String, ◌≡◌, refl, ◌⊎◌, false, [], ◌∷◌, none, some, ◌==◌, str_eq, if◌then◌else◌,
}
use system_design_implementa.ConsistentHashing.Ring.{has, sort, place, search, target}
use system_design_implementa.ConsistentHashing.Hasher.{
  Env, ConsistentHasher, add, drop, act, act_all, get_new_hasher, get_server, add_server,
  remove_server, node_hashes,
}
use system_design_implementa.ConsistentHashing.Distribution.{
  Distribution, keys_at, sent_to, sum, drawn, visualize, visualize_correct,
}
use system_design_implementa.ConsistentHashing.Placement.{add_server_moves}
use system_design_implementa.ConsistentHashing.Upkeep.{IsSound, act_all-IsSound}
use system_design_implementa.ConsistentHashing.Removal.{remove_server_keeps}

-- Two servers with two virtual nodes each, at 10, 20 and at 15, 25; every key hashes to 12.
abbrev e : Env
e = record {
  server_name = λ id. if id == 0 then "a" else "b";
  node_name = λ name i.
      if str_eq name "a" then (if i == 1 then "a1" else "a2") else (if i == 1 then "b1" else "b2");
  get_hash = λ text.
      if str_eq text "a1"
      then 10
      else if str_eq text "a2"
      then 20
      else if str_eq text "b1"
      then 15
      else if str_eq text "b2"
      then 25
      else 12;
}

abbrev both : ConsistentHasher
both = act_all e (add ∷ add ∷ []) (get_new_hasher 2)

both-IsSound : IsSound e both
both-IsSound = act_all-IsSound e 2 (add ∷ add ∷ [])

act_all-IsSound_example : IsSound e (act_all e (add ∷ add ∷ drop 0 ∷ []) (get_new_hasher 2))
act_all-IsSound_example = act_all-IsSound e 2 (add ∷ add ∷ drop 0 ∷ [])

add_server_moves_example :
    (get_server e "k" both ≡ none)
    ⊎ (get_server e "k" (add_server e both).0 ≡ get_server e "k" both)
    ⊎ (get_server e "k" (add_server e both).0 ≡ some (e.server_name both.next_server_id))
add_server_moves_example = add_server_moves e "k" both both-IsSound.0

both-target : target (e.get_hash "k") both.hash_ring ≡ some 15
unfolding target search act_all act add_server get_new_hasher sort place node_hashes
both-target = refl

both-clear : has 15 (node_hashes e (e.server_name 0) 0 both.virtual_nodes_per_server) ≡ false
unfolding has node_hashes act_all act add_server get_new_hasher
both-clear = refl

remove_server_keeps_example : get_server e "k" (remove_server e 0 both).0 ≡ get_server e "k" both
remove_server_keeps_example =
    remove_server_keeps e "k" 0 15 both both-IsSound both-target both-clear

both-ring : both.hash_ring ≡ 10 ∷ 15 ∷ 20 ∷ 25 ∷ []
unfolding act_all act add_server get_new_hasher sort place node_hashes
both-ring = refl

abbrev two_keys : List String
two_keys = "k" ∷ "l" ∷ []

visualize_correct_example :
    (m : Distribution) × (visualize e both (some two_keys) ≡ drawn m)
    × ((name : String) → keys_at name m ≡ sent_to e both name two_keys)
    × (sum m ≡ length two_keys)
visualize_correct_example = visualize_correct e both 10 (15 ∷ 20 ∷ 25 ∷ []) both-ring two_keys
