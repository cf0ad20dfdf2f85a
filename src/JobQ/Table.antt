-- ===== src/JobQ/Table.antt =====
-- The table that the statements of jobq/src/internal/storage run on: a list of rows. A statement
-- is atomic, as PostgreSQL documents: it applies to every row that its WHERE selects, or fails and
-- changes nothing.
pub mod Laws
use system_design_implementa.Prelude.{
  ℕ, suc, ◌+◌, ◌*◌, ◌-◌, ◌≡◌, refl, Bool, true, false, Option, none, some, List, [], ◌∷◌, arith,
  ◌==◌, if◌then◌else◌,
}
use system_design_implementa.Prelude.Int.{ℤ, pos, negsuc}
use system_design_implementa.JobQ.Job.{Job}

abbrev pub Table : Type 0
Table = List Job

-- UPDATE jobs SET f WHERE p
unfoldable pub update : (Job → Bool) → (Job → Job) → Table → Table
update p f [] = []
update p f (j ∷ t) = (if p j then f j else j) ∷ update p f t

-- RowsAffected of that statement
unfoldable pub affected : (Job → Bool) → Table → ℕ
affected p [] = 0
affected p (j ∷ t) = if p j then suc (affected p t) else affected p t

-- The first row that WHERE selects. With `id`, the primary key, in the WHERE there is one at most.
unfoldable pub select : (Job → Bool) → Table → Option Job
select p [] = none
select p (j ∷ t) = if p j then some j else select p t

abbrev pub has_id : ℕ → Job → Bool
has_id i j = j.id == i

abbrev pub find : ℕ → Table → Option Job
find i = select (has_id i)

abbrev pub second : ℕ
second = 1_000_000_000

-- now() + (n * INTERVAL '1 second')
abbrev pub add_seconds : ℕ → ℤ → ℕ
add_seconds now (pos n) = now + n * second
add_seconds now (negsuc n) = now - suc n * second

-- What surrounds the statements of one call: whether the first and the second fail, and what other
-- sessions do to the table in between.
pub record Session : Type 0 where
  pub first_fails : Bool
  pub second_fails : Bool
  pub meanwhile : Table → Table

-- A session that meets no fault and is alone.
abbrev pub alone : Session
alone = record { first_fails = false; second_fails = false; meanwhile = λ t. t }
