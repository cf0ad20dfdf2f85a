-- ===== src/JobQ/Table/Laws.antt =====
-- Laws of the statements: what a lookup by primary key finds after them, and what they keep.
use system_design_implementa.Prelude.{
  ℕ, ◌≡◌, refl, Bool, true, Option, none, some, [], ◌∷◌, ◌++◌, ◌&&◌, arith, ◌==◌, ==_iff,
  if◌then◌else◌, All, Bool-cases, Option-cases, inl, inr,
}
use mathlib.Core.Option
use system_design_implementa.JobQ.Job.{Job}
use system_design_implementa.JobQ.Table.{Table, update, affected, select, find, has_id}

-- `id` is the primary key.
abbrev pub IsUnique : Table → Type 0
IsUnique [] = Unit {0}
IsUnique (j ∷ t) = (find j.id t ≡ none) × IsUnique t

-- A statement on one row by its key, under a further condition `q`.
abbrev pub keyed : ℕ → (Job → Bool) → Job → Bool
keyed id q j = has_id id j && q j

abbrev pub apply_if : (Job → Bool) → (Job → Job) → Job → Job
apply_if q f j = if q j then f j else j

module _ (q : Job → Bool) (f : Job → Job) (keeps : (j : Job) → (f j).id ≡ j.id) where
  pub find-update_any :
      (i : ℕ) (t : Table) → find i (update q f t) ≡ Option.map (apply_if q f) (find i t)
  unfolding update select
  find-update_any i [] = refl
  find-update_any i (j ∷ t) = ground (arith, keeps j, find-update_any i t)

  pub update-IsUnique : (t : Table) → IsUnique t → IsUnique (update q f t)
  unfolding update
  update-IsUnique [] u = tt
  update-IsUnique (j ∷ t) u = elim (Bool-cases (q j)) [
    | inl e ↦ (rw (e, keeps j, find-update_any j.id t, u.0), update-IsUnique t u.1)
    | inr e ↦ (rw (e, find-update_any j.id t, u.0), update-IsUnique t u.1)
  ]

pub find-id : (i : ℕ) (t : Table) {j : Job} → find i t ≡ some j → j.id ≡ i
unfolding select
find-id i [] h = cc
find-id i (k ∷ t) {j} h = ground (arith, find-id i t {j = j})

-- What the statement leaves of the row that it looks up.
abbrev pub keep_if : (Job → Bool) → Option Job → Option Job
keep_if q none = none
keep_if q (some j) = if q j then some j else none

abbrev pub rows : Option Job → ℕ
rows none = 0
rows (some _) = 1

select-keyed-none :
    (k : ℕ) (q : Job → Bool) (t : Table) → find k t ≡ none → select (keyed k q) t ≡ none
unfolding select
select-keyed-none k q [] h = refl
select-keyed-none k q (j ∷ t) h = ground (arith, select-keyed-none k q t)

pub select-keyed :
    (k : ℕ) (q : Job → Bool) (t : Table) → IsUnique t → select (keyed k q) t ≡ keep_if q (find k t)
unfolding select
select-keyed k q [] u = refl
select-keyed k q (j ∷ t) u = elim (Bool-cases (j.id == k)) [
  | inl e ↦
      let same : j.id ≡ k = (==_iff j.id k).0 e in
      ground (arith, select-keyed-none k q t (rw same at u.0))
  | inr e ↦ ground (arith, select-keyed k q t u.1)
]

affected-keyed-none :
    (k : ℕ) (q : Job → Bool) (t : Table) → find k t ≡ none → affected (keyed k q) t ≡ 0
unfolding select affected
affected-keyed-none k q [] h = refl
affected-keyed-none k q (j ∷ t) h = ground (arith, affected-keyed-none k q t)

-- By key a statement touches one row or none.
pub affected-keyed :
    (k : ℕ) (q : Job → Bool) (t : Table)
    → IsUnique t
    → affected (keyed k q) t ≡ rows (keep_if q (find k t))
unfolding select affected
affected-keyed k q [] u = refl
affected-keyed k q (j ∷ t) u = elim (Bool-cases (j.id == k)) [
  | inl e ↦
      let same : j.id ≡ k = (==_iff j.id k).0 e in
      ground (arith, affected-keyed-none k q t (rw same at u.0))
  | inr e ↦ ground (arith, affected-keyed k q t u.1)
]

module _ (q : Job → Bool) (f : Job → Job) (keeps : (j : Job) → (f j).id ≡ j.id) where
  -- By key a statement changes the row with that key and no other.
  pub find-update :
      (i k : ℕ) (t : Table)
      → find i (update (keyed k q) f t)
        ≡ (if i == k then Option.map (apply_if q f) (find i t) else find i t)
  find-update i k t = elim (Option-cases (find i t)) [
    | inl e ↦ rw (find-update_any (keyed k q) f keeps i t, e) (ground arith)
    | inr (j, e) ↦ rw (find-update_any (keyed k q) f keeps i t, e) (ground (arith, find-id i t e))
  ]

-- A statement keeps what it keeps of each row.
pub All-update {κ} :
    (P : Job → Type κ) (p : Job → Bool) (f : Job → Job)
    → ((j : Job) → p j ≡ true → P j → P (f j))
    → (t : Table) → All P t
    → All P (update p f t)
unfolding update
All-update P p f keep [] a = tt
All-update P p f keep (j ∷ t) a = elim (Bool-cases (p j)) [
  | inl e ↦ (rw e (keep j e a.0), All-update P p f keep t a.1)
  | inr e ↦ (rw e a.0, All-update P p f keep t a.1)
]

pub All-find {κ} :
    (P : Job → Type κ) (i : ℕ) (t : Table) {j : Job} → All P t → find i t ≡ some j → P j
unfolding select
All-find P i [] a h = cc
All-find P i (k ∷ t) {j} a h = ground (arith, All-find P i t {j = j} a.1)

pub All-append {κ} : (P : Job → Type κ) (t : Table) (j : Job) → All P t → P j → All P (t ++ j ∷ [])
All-append P [] j a p = (p, tt)
All-append P (k ∷ t) j a p = (a.0, All-append P t j a.1 p)

-- An INSERT under a fresh key.
pub find-append :
    (i : ℕ) (t : Table) (j : Job)
    → find j.id t ≡ none
    → find i (t ++ j ∷ []) ≡ (if i == j.id then some j else find i t)
unfolding select
find-append i [] j h = ground arith
find-append i (k ∷ t) j h = ground (arith, find-append i t j)

pub append-IsUnique :
    (t : Table) (j : Job) → IsUnique t → find j.id t ≡ none → IsUnique (t ++ j ∷ [])
unfolding select
append-IsUnique [] j u h = (refl, tt)
append-IsUnique (k ∷ t) j u h =
    (ground (arith, find-append k.id t j), append-IsUnique t j u.1 (ground arith))
