-- ===== src/SearchAutocomplete/Tiers/Laws.antt =====
-- The tiers answer as MongoDB alone would.
use mathlib.Core.Path.{subst⁻¹}
use system_design_implementa.Prelude.{
  ℕ, ◌+◌, ◌<◌, ◌≡◌, ◌⊎◌, refl, ◌∙◌, ap, Bool, true, false, List, [], ◌∷◌, Option, none, some, ltb,
  if◌then◌else◌, arith, Bool-cases, Option-cases, inl, inr, All,
}
use system_design_implementa.SearchAutocomplete.Trie.{Reco}
use system_design_implementa.SearchAutocomplete.Cache.{words}
use system_design_implementa.SearchAutocomplete.Seeder.{same, find, put}
use system_design_implementa.SearchAutocomplete.Seeder.Index.{find-put, same-eq}
use system_design_implementa.SearchAutocomplete.Tiers.{
  Entries, Tiers, get_mongo, get_redis, set_redis, Source, answer, load_records, init,
}

-- What a tier has under a prefix, the empty list where it has nothing.
abbrev pub held : List ℕ → Entries → List Reco
held p m = elim (find p m) [ none ↦ [] | some l ↦ l ]

abbrev pub stored : List ℕ → Tiers → List Reco
stored p t = held p t.mongo

-- Memory and Redis have no other completions than MongoDB.
pub record IsCoherent (t : Tiers) : Type 0 where
  pub memory_same : (p : List ℕ) (l : List Reco) → find p t.memory ≡ some l → l ≡ stored p t
  pub redis_same : (p : List ℕ) (l : List Reco) → find p t.redis ≡ some l → l ≡ stored p t

set_redis-IsCoherent :
    (ok : Bool) (p : List ℕ) (l : List Reco) (t : Tiers)
    → IsCoherent t
    → l ≡ stored p t
    → IsCoherent (set_redis ok p l t)
unfolding set_redis
set_redis-IsCoherent false p l t c e = c
set_redis-IsCoherent true p l t c e = record {
  memory_same = c.memory_same;
  redis_same = λ p' l' h.
      let f = find-put p' p l t.redis in
      elim (Bool-cases (same p p')) [
        | inl y ↦ let at = same-eq p p' y in ground (arith, f, h, y, e, ap (λ z. stored z t) at)
        | inr n ↦ ground (arith, f, h, n, c.redis_same p' l')
      ];
}

abbrev pub AnswersAsStored : Bool → List ℕ → Tiers → Tiers × List (List ℕ) × Source → Type 0
AnswersAsStored mongo_ok p t r =
    ((r.1 ≡ words (stored p t)) ⊎ ((r.1 ≡ []) × (r.2 ≡ Source.nowhere) × (mongo_ok ≡ false)))
    × IsCoherent r.0
    × (r.0.mongo ≡ t.mongo)

set_redis-mongo :
    (ok : Bool) (p : List ℕ) (l : List Reco) (t : Tiers) → (set_redis ok p l t).mongo ≡ t.mongo
unfolding set_redis
set_redis-mongo false p l t = refl
set_redis-mongo true p l t = refl

-- From coherent tiers Suggest answers with the completions that MongoDB has, also when Redis fails, or
-- with none and no source when MongoDB fails; the tiers stay coherent, and what MongoDB has stays as it
-- is.
pub answer_correct :
    (redis_ok mongo_ok set_ok : Bool) (p : List ℕ) (t : Tiers)
    → IsCoherent t
    → AnswersAsStored mongo_ok p t (answer redis_ok mongo_ok set_ok p t)
unfolding answer get_mongo
answer_correct redis_ok mongo_ok set_ok p t c = elim (Option-cases (find p t.memory)) [
  | inr (l, m) ↦
      let at : answer redis_ok mongo_ok set_ok p t ≡ (t, words l, Source.in_memory) =
        ground (arith, m) in
      subst⁻¹ (AnswersAsStored mongo_ok p t) at (inl (ap words (c.memory_same p l m)), c, refl)
  | inl m ↦ elim (Option-cases (get_redis redis_ok p t)) [
    | inr (l, r) ↦
        let at : answer redis_ok mongo_ok set_ok p t ≡ (t, words l, Source.cache) =
          ground (arith, m, r) in
        let cached : find p t.redis ≡ some l = unfold get_redis in ground (arith, r) in
        subst⁻¹ (AnswersAsStored mongo_ok p t) at
          (inl (ap words (c.redis_same p l cached)), c, refl)
    | inl r ↦ elim (Bool-cases mongo_ok) [
      | inl y ↦
          let l = stored p t in
          let at : answer redis_ok mongo_ok set_ok p t
              ≡ (set_redis set_ok p l t, words l, Source.db) =
            ground (arith, m, r, y) in
          subst⁻¹ (AnswersAsStored mongo_ok p t) at
            (inl refl, set_redis-IsCoherent set_ok p l t c refl, set_redis-mongo set_ok p l t)
      | inr n ↦
          let at : answer redis_ok mongo_ok set_ok p t ≡ (t, [], Source.nowhere) =
            ground (arith, m, r, n) in
          subst⁻¹ (AnswersAsStored mongo_ok p t) at (inr (refl, refl, n), c, refl)
    ]
  ]
]

set_memory-IsCoherent :
    (b : Bool) (p : List ℕ) (l : List Reco) (t : Tiers)
    → IsCoherent t
    → l ≡ stored p t
    → IsCoherent (if b then record t { memory = put p l t.memory } else t)
set_memory-IsCoherent false p l t c e = c
set_memory-IsCoherent true p l t c e = record {
  memory_same = λ p' l' h.
      let f = find-put p' p l t.memory in
      elim (Bool-cases (same p p')) [
        | inl y ↦ let at = same-eq p p' y in ground (arith, f, h, y, e, ap (λ z. stored z t) at)
        | inr n ↦ ground (arith, f, h, n, c.memory_same p' l')
      ];
  redis_same = c.redis_same;
}

set_memory-mongo :
    (b : Bool) (p : List ℕ) (l : List Reco) (t : Tiers)
    → (if b then record t { memory = put p l t.memory } else t).mongo ≡ t.mongo
set_memory-mongo false p l t = refl
set_memory-mongo true p l t = refl

load-IsCoherent :
    (flushed : ℕ → Bool) (mem_units i : ℕ) (rs : Entries) (t : Tiers)
    → IsCoherent t
    → All (λ r. find r.0 t.mongo ≡ some r.1) rs
    → IsCoherent (load_records flushed mem_units i rs t)
      × ((load_records flushed mem_units i rs t).mongo ≡ t.mongo)
unfolding load_records
load-IsCoherent flushed mem_units i [] t c a = (c, refl)
load-IsCoherent flushed mem_units i ((p, l) ∷ rs) t c (e, a) =
    let t1 = if ltb i mem_units then record t { memory = put p l t.memory } else t in
    let c1 = set_memory-IsCoherent (ltb i mem_units) p l t c (ground (arith, e)) in
    let m1 = set_memory-mongo (ltb i mem_units) p l t in
    let here : l ≡ stored p t1 = subst⁻¹ (λ m. l ≡ held p m) m1 (ground (arith, e)) in
    let c2 = set_redis-IsCoherent (flushed i) p l t1 c1 here in
    let m2 = set_redis-mongo (flushed i) p l t1 ∙ m1 in
    let (c3, m3) =
      load-IsCoherent flushed mem_units (i + 1) rs (set_redis (flushed i) p l t1) c2
        (subst⁻¹ (λ m. All (λ r. find r.0 m ≡ some r.1) rs) m2 a) in
    (c3, m3 ∙ m2)

-- Init succeeds when it asks for fewer records in memory than in Redis and MongoDB gives the records. If
-- these are records of MongoDB and the tiers are coherent, as they are with empty caches, they are
-- coherent afterwards, whichever records reach Redis.
pub init-IsCoherent :
    (top_prefixes : ℕ → Option Entries) (flushed : ℕ → Bool) (mem_units redis_units : ℕ)
    (rs : Entries) (t : Tiers)
    → mem_units < redis_units
    → top_prefixes redis_units ≡ some rs
    → All (λ r. find r.0 t.mongo ≡ some r.1) rs
    → IsCoherent t
    → (t' : Tiers) × (init top_prefixes flushed mem_units redis_units t ≡ some t')
      × IsCoherent t'
      × (t'.mongo ≡ t.mongo)
unfolding init
init-IsCoherent top_prefixes flushed mem_units redis_units rs t lt e a c =
    let (c', m) = load-IsCoherent flushed mem_units 0 rs t c a in
    (load_records flushed mem_units 0 rs t, ground (arith, e), c', m)
