-- ===== src/ConsistentHashing/Distribution.antt =====
-- consistent_hashing/internal/data/elements.go: Visualize up to the chart, which counts the keys of a
-- file by the servers that Get names for them.
use system_design_implementa.Prelude.{
  ℕ, ◌+◌, ◌≡◌, refl, ap, List, [], ◌∷◌, Option, none, some, String, str_eq, str_eq_iff,
  if◌then◌else◌, arith, length, Option-cases, Bool-cases, inl, inr,
}
use system_design_implementa.Prelude.Assoc.{lookup, insert, lookup-insert}
use system_design_implementa.ConsistentHashing.Ring.{target, search, first}
use system_design_implementa.ConsistentHashing.Hasher.{Env, ConsistentHasher, get_server, server_at}

-- map[string]int
abbrev pub Distribution : Type 0
Distribution = List (String × ℕ)

abbrev pub keys_at : String → Distribution → ℕ
keys_at name m = elim (lookup name m) [ none ↦ 0 | some n ↦ n ]

-- The loop over the lines; none is log.Fatal, where Get gives an error.
unfoldable pub distribute :
    Env → ConsistentHasher → List String → Distribution → Option Distribution
unfolding get_server lookup insert
distribute e ch [] m = some m
distribute e ch (key ∷ keys) m = elim (get_server e key ch) [
  | none ↦ none
  | some name ↦ distribute e ch keys (insert name (keys_at name m + 1) m)
]

-- Visualize; `lines` is none where the file cannot be read.
pub data Chart : Type 0 where
  no_file : Chart
  fatal : Chart
  drawn : Distribution → Chart

unfoldable pub visualize : Env → ConsistentHasher → Option (List String) → Chart
unfolding distribute
visualize e ch none = no_file
visualize e ch (some keys) = elim (distribute e ch keys []) [ none ↦ fatal | some m ↦ drawn m ]

-- How many of the keys Get sends to a server.
abbrev pub sent_to : Env → ConsistentHasher → String → List String → ℕ
sent_to e ch name [] = 0
sent_to e ch name (key ∷ keys) =
    (elim (get_server e key ch) [ none ↦ 0 | some s ↦ if str_eq s name then 1 else 0 ])
    + sent_to e ch name keys

abbrev pub sum : Distribution → ℕ
sum [] = 0
sum ((name, n) ∷ m) = n + sum m

keys_at-insert :
    (name other : String) (n : ℕ) (m : Distribution)
    → keys_at other (insert name n m) ≡ (if str_eq name other then n else keys_at other m)
keys_at-insert name other n m = ground (arith, lookup-insert name other n m)

sum-insert :
    (name : String) (m : Distribution) → sum (insert name (keys_at name m + 1) m) ≡ sum m + 1
unfolding insert lookup
sum-insert name [] = omega arith
sum-insert name ((s, n) ∷ m) = elim (Bool-cases (str_eq s name)) [
  | inl y ↦ ground (arith, y)
  | inr x ↦ ground (arith, x, sum-insert name m)
]

target-some : (k h : ℕ) (hs : List ℕ) → (x : ℕ) × (target k (h ∷ hs) ≡ some x)
unfolding target first
target-some k h hs = elim (Option-cases (search k (h ∷ hs))) [
  | inl n ↦ (h, ground (arith, n))
  | inr (x, y) ↦ (x, ground (arith, y))
]

module _ (e : Env) (ch : ConsistentHasher) (h : ℕ) (hs : List ℕ)
    (ring : ch.hash_ring ≡ h ∷ hs) where
  gets_server : (key : String) → (name : String) × (get_server e key ch ≡ some name)
  unfolding get_server
  gets_server key =
      let (x, y) = target-some (e.get_hash key) h hs in
      (server_at ch x, ground (arith, y, ap (target (e.get_hash key)) ring))

  distribute-counts :
      (keys : List String) (m : Distribution)
      → (m' : Distribution) × (distribute e ch keys m ≡ some m')
        × ((name : String) → keys_at name m' ≡ keys_at name m + sent_to e ch name keys)
        × (sum m' ≡ sum m + length keys)
  unfolding distribute
  distribute-counts [] m = (m, refl, λ name. omega arith, omega arith)
  distribute-counts (key ∷ keys) m =
      let (s, found) = gets_server key in
      let m1 = insert s (keys_at s m + 1) m in
      let (m', done, counts, whole) = distribute-counts keys m1 in
      (
        m',
        ground (arith, found, done),
        λ name.
            let first_key = keys_at-insert s name (keys_at s m + 1) m in
            elim (Bool-cases (str_eq s name)) [
              | inl y ↦
                  let same = (str_eq_iff s name).0 y in
                  ground (arith, found, counts name, first_key, y, ap (λ z. keys_at z m) same)
              | inr n ↦ ground (arith, found, counts name, first_key, n)
            ],
        omega (arith, whole, sum-insert s m),
      )

  -- Over a ring that is not empty, Visualize draws a distribution for any keys: each server's bar is the
  -- number of the keys that Get sends to it, and the bars together are as many as the keys.
  pub visualize_correct :
      (keys : List String)
      → (m : Distribution) × (visualize e ch (some keys) ≡ drawn m)
        × ((name : String) → keys_at name m ≡ sent_to e ch name keys)
        × (sum m ≡ length keys)
  unfolding visualize lookup
  visualize_correct keys =
      let (m, done, counts, whole) = distribute-counts keys [] in
      (m, ground (arith, done), λ name. omega (arith, counts name), omega (arith, whole))
