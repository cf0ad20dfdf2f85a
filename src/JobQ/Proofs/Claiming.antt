-- ===== src/JobQ/Proofs/Claiming.antt =====
-- ClaimPendingJob picks the claimable row that the ORDER BY puts first, and takes that row only.
use mathlib.Core.Path.{subst}
use mathlib.Core.List.{Memᴰ}
use system_design_implementa.Prelude.{
  ℕ, ◌≡◌, refl, sym, Bool, true, false, not, Option, none, some, List, [], ◌∷◌, ◌&&◌, arith, ◌==◌,
  ==_iff, if◌then◌else◌, Bool-cases, Option-cases, inl, inr, String, All,
}
use system_design_implementa.Prelude.Int.{ℤ}
use system_design_implementa.JobQ.Job.{Job, Result, ok, err, no_job_available}
use system_design_implementa.JobQ.Table.{Table, update, find, has_id, select, alone}
use system_design_implementa.JobQ.Table.Laws.{IsUnique, find-update_any, find-id}
use system_design_implementa.JobQ.Store.Claim.{
  is_claimable, goes_before, first_by_order, claim_row, claim_pending_job, better_of,
}

-- Nothing that `p` selects stands before `j` in the ordering.
abbrev pub IsFirst : (Job → Bool) → Job → Table → Type 0
IsFirst p j = All (λ k. p k ≡ true → goes_before k j ≡ false)

goes_before_trans :
    (i j k : Job) → goes_before k j ≡ false → goes_before j i ≡ false → goes_before k i ≡ false
goes_before_trans i j k h g = ground arith

goes_before_asym : (i j : Job) → goes_before j i ≡ true → goes_before i j ≡ false
goes_before_asym i j h = ground arith

goes_before_irrefl : (i : Job) → goes_before i i ≡ false
goes_before_irrefl i = ground arith

IsFirst-mono :
    (p : Job → Bool) (i j : Job) (t : Table)
    → goes_before j i ≡ false
    → IsFirst p j t
    → IsFirst p i t
IsFirst-mono p i j [] h a = tt
IsFirst-mono p i j (k ∷ t) h a =
    (λ s. goes_before_trans i j k (a.0 s) h, IsFirst-mono p i j t h a.1)

All-false : (p : Job → Bool) (i : Job) (t : Table) → All (λ k. p k ≡ false) t → IsFirst p i t
All-false p i [] a = tt
All-false p i (k ∷ t) a = (λ s. cc, All-false p i t a.1)

-- What LIMIT 1 gives.
abbrev pub Firsts : (Job → Bool) → Table → Option Job → Type 0
Firsts p t none = All (λ k. p k ≡ false) t
Firsts p t (some j) = Memᴰ j t × (p j ≡ true) × IsFirst p j t

add_row :
    (p : Job → Bool) (k : Job) (t : Table) (rest : Option Job)
    → p k ≡ true
    → Firsts p t rest
    → Firsts p (k ∷ t) (some (better_of k rest))
add_row p k t none e f = (Memᴰ.head refl, e, (λ s. goes_before_irrefl k, All-false p k t f))
add_row p k t (some j) e f = elim (Bool-cases (goes_before j k)) [
  | inl b ↦
      let kept : j ≡ better_of k (some j) = rw b in
      subst (λ x. Firsts p (k ∷ t) (some x)) kept
        (Memᴰ.tail f.0, f.1, (λ s. goes_before_asym k j b, f.2))
  | inr b ↦
      let new : k ≡ better_of k (some j) = rw b in
      subst (λ x. Firsts p (k ∷ t) (some x)) new
        (Memᴰ.head refl, e, (λ s. goes_before_irrefl k, IsFirst-mono p k j t b f.2))
]

skip_row :
    (p : Job → Bool) (k : Job) (t : Table) (rest : Option Job)
    → p k ≡ false
    → Firsts p t rest
    → Firsts p (k ∷ t) rest
skip_row p k t none e f = (e, f)
skip_row p k t (some j) e f = (Memᴰ.tail f.0, f.1, (λ s. cc, f.2))

pub first_by_order_lem : (p : Job → Bool) (t : Table) → Firsts p t (first_by_order p t)
unfolding first_by_order
first_by_order_lem p [] = tt
first_by_order_lem p (k ∷ t) = elim (Bool-cases (p k)) [
  | inl e ↦ rw e (add_row p k t (first_by_order p t) e (first_by_order_lem p t))
  | inr e ↦ rw e (skip_row p k t (first_by_order p t) e (first_by_order_lem p t))
]

absent : (i : ℕ) (t : Table) {j : Job} → find i t ≡ none → Memᴰ j t → j.id ≡ i → ⊥
unfolding select
absent i [] h m s = elim m [ ]
absent i (k ∷ t) {j} h (Memᴰ.head e) s = ground arith
absent i (k ∷ t) {j} h (Memᴰ.tail m) s = absent i t (ground arith) m s

pub find_of_mem : (t : Table) {j : Job} → IsUnique t → Memᴰ j t → find j.id t ≡ some j
unfolding select
find_of_mem [] u m = elim m [ ]
find_of_mem (k ∷ t) {j} u (Memᴰ.head e) = ground arith
find_of_mem (k ∷ t) {j} u (Memᴰ.tail m) = elim (Bool-cases (k.id == j.id)) [
  | inl e ↦ absurd (absent k.id t {j = j} u.0 m (sym ((==_iff k.id j.id).0 e)))
  | inr e ↦ rw e (find_of_mem t u.1 m)
]

-- What a claim does: it takes the first claimable row, or there is none.
pub data Claims (p : Job → Bool) (f : Job → Job) (t : Table) (r : Table × Result Job) : Type 0 where
  takes :
      (j : Job)
      → Memᴰ j t
      → p j ≡ true
      → IsFirst p j t
      → r.1 ≡ ok (f j)
      → ((i : ℕ) → find i r.0 ≡ (if i == j.id then some (f j) else find i t))
      → Claims p f t r
  idles : All (λ k. p k ≡ false) t → r ≡ (t, err no_job_available) → Claims p f t r

-- ClaimPendingJob, met by no fault in a table with unique keys: either it takes and returns a row
-- that is claimable for these queues at this time and not locked, than which no other such row goes
-- before by priority and age, and changes no other row; or no row is claimable and unlocked, and it
-- changes nothing.
pub claim_correct :
    (locked : Job → Bool) (now : ℕ) (queues : List String) (worker : String) (seconds : ℤ)
    (t : Table)
    → IsUnique t
    → Claims
        (λ j. is_claimable queues now j && not (locked j))
        (claim_row now worker seconds)
        t
        (claim_pending_job alone locked now queues worker seconds t)
unfolding claim_pending_job
claim_correct locked now queues worker seconds t u =
    split (first_by_order p t) refl (first_by_order_lem p t)
  where
    p : Job → Bool
    p j = is_claimable queues now j && not (locked j)

    f : Job → Job
    f = claim_row now worker seconds

    at :
        (i : ℕ) (j : Job)
        → find j.id t ≡ some j
        → find i (update (has_id j.id) f t) ≡ (if i == j.id then some (f j) else find i t)
    at i j found =
        rw (find-update_any (has_id j.id) f (λ k. refl) i t) (elim (Bool-cases (i == j.id)) [
          | inl e ↦ rw (e, (==_iff i j.id).0 e, found) (ground arith)
          | inr e ↦ elim (Option-cases (find i t)) [
            | inl o ↦ rw (e, o)
            | inr (k, o) ↦ rw (e, o) (ground (arith, find-id i t o))
          ]
        ])

    split :
        (o : Option Job)
        → first_by_order p t ≡ o
        → Firsts p t o
        → Claims p f t (claim_pending_job alone locked now queues worker seconds t)
    split none e h = idles h (rw (e, claim_pending_job))
    split (some j) e h =
        rw (e, claim_pending_job) (takes j h.0 h.1 h.2 refl (λ i. at i j (find_of_mem t u h.0)))
