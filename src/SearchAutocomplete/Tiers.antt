-- ===== src/SearchAutocomplete/Tiers.antt =====
-- search_autocomplete/internal/store: the suggester over memory, Redis and MongoDB. A failure of a call
-- is an argument, and a Redis value is the list whose JSON it holds.
pub mod Laws
pub mod Examples
use system_design_implementa.Prelude.{
  ℕ, zero, suc, Bool, true, false, List, [], ◌∷◌, Option, none, some, leb, ltb, if◌then◌else◌, ◌&&◌,
  ◌+◌,
}
use system_design_implementa.SearchAutocomplete.Trie.{Reco}
use system_design_implementa.SearchAutocomplete.Cache.{words}
use system_design_implementa.SearchAutocomplete.Seeder.{find, put}

abbrev pub Entries : Type 0
Entries = List (List ℕ × List Reco)

pub record Tiers : Type 0 where
  pub memory : Entries
  pub redis : Entries
  pub mongo : Entries

-- MongoStore.Get: the nil slice for a prefix that is not there, none for a failure.
unfoldable pub get_mongo : Bool → List ℕ → Tiers → Option (List Reco)
unfolding find
get_mongo ok p t = if ok then some (elim (find p t.mongo) [ none ↦ [] | some l ↦ l ]) else none

unfoldable pub get_redis : Bool → List ℕ → Tiers → Option (List Reco)
unfolding find
get_redis ok p t = if ok then find p t.redis else none

unfoldable pub set_redis : Bool → List ℕ → List Reco → Tiers → Tiers
unfolding put
set_redis ok p l t = if ok then record t { redis = put p l t.redis } else t

pub data Source : Type 0 where
  in_memory cache db nowhere : Source

-- Suggest: the tiers afterwards, the suggestions and where they come from. The write to Redis is done
-- when it returns.
unfoldable pub answer : Bool → Bool → Bool → List ℕ → Tiers → Tiers × List (List ℕ) × Source
unfolding find get_mongo get_redis set_redis
answer redis_ok mongo_ok set_ok p t = elim (find p t.memory) [
  | some l ↦ (t, words l, Source.in_memory)
  | none ↦ elim (get_redis redis_ok p t) [
    | some l ↦ (t, words l, Source.cache)
    | none ↦ elim (get_mongo mongo_ok p t) [
      | none ↦ (t, [], Source.nowhere)
      | some l ↦ (set_redis set_ok p l t, words l, Source.db)
    ]
  ]
]

-- The loop of Init over the records, from the i-th; `flushed i` is whether the pipeline of the i-th
-- record gets through.
unfoldable pub load_records : (ℕ → Bool) → ℕ → ℕ → Entries → Tiers → Tiers
unfolding set_redis
load_records flushed mem_units i [] t = t
load_records flushed mem_units i ((p, l) ∷ rs) t = load_records flushed mem_units (i + 1) rs (
    set_redis (flushed i) p l
      (if ltb i mem_units then record t { memory = put p l t.memory } else t))

-- Init; `top_prefixes` is GetTopPrefixes, whose order MongoDB chooses. None is an error.
unfoldable pub init : (ℕ → Option Entries) → (ℕ → Bool) → ℕ → ℕ → Tiers → Option Tiers
unfolding load_records
init top_prefixes flushed mem_units redis_units t =
    if leb redis_units mem_units then none else elim (top_prefixes redis_units) [
      | none ↦ none
      | some rs ↦ some (load_records flushed mem_units 0 rs t)
    ]
