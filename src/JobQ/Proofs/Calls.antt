-- ===== src/JobQ/Proofs/Calls.antt =====
-- The methods of jobq/src/internal/storage as calls, with faults and other sessions' statements in
-- between, and the tables that they can reach.
use system_design_implementa.Prelude.{
  ℕ, ◌≡◌, sym, Bool, none, some, List, [], Option-cases, ◌⊎◌, inl, inr, String, arith,
}
use mathlib.Core.Path.{subst}
use system_design_implementa.Prelude.Int.{ℤ, pos}
use system_design_implementa.JobQ.Job.{Job}
use system_design_implementa.JobQ.Table.{Table, Session, find, select}
use system_design_implementa.JobQ.Config.{Config}
use system_design_implementa.JobQ.Backoff.{compute_backoff}
use system_design_implementa.JobQ.Store.Claim.{NewJob, create_job, claim_pending_job}
use system_design_implementa.JobQ.Store.Finish.{
  mark_complete, mark_failure, update_held, holds_lease,
}
use system_design_implementa.JobQ.Store.Lease.{reap_expired_leases, extend_lease}
use system_design_implementa.JobQ.Store.Admin.{mark_dead, reset_dead_job}
use system_design_implementa.JobQ.Statement.{
  Statement, inserts, claims, completes, buries, retries, reaps, extends, kills, resets, exec, run,
}
use system_design_implementa.JobQ.Proofs.Validity.{
  IsValid, exec-IsValid, run-IsValid, run_empty-IsValid,
}

pub data Call : Type 0 where
  creates : ℕ → ℕ → NewJob → Call
  takes_one : (Job → Bool) → ℕ → List String → String → ℤ → Call
  finishes : ℕ → ℕ → ℤ → Call
  gives_up : (ℕ → ℕ) → Config → ℕ → ℕ → ℤ → String → Bool → Call
  sweeps : ℕ → Call
  prolongs : ℕ → ℕ → ℤ → ℤ → String → Call
  buries_one : ℕ → Call
  revives : ℕ → ℕ → Call

-- The table that a call leaves.
unfoldable pub call : Session → Call → Table → Table
call s (creates id now d) t = (create_job s id now d t).0
call s (takes_one locked now queues worker seconds) t =
    (claim_pending_job s locked now queues worker seconds t).0
call s (finishes now id token) t = (mark_complete s now id token t).0
call s (gives_up draw cfg now id token message permanent) t =
    (mark_failure s draw cfg now id token message permanent t).0
call s (sweeps now) t = (reap_expired_leases s now t).0
call s (prolongs now id token seconds worker) t = (extend_lease s now id token seconds worker t).0
call s (buries_one id) t = (mark_dead s id t).0
call s (revives now id) t = (reset_dead_job s now id t).0

-- A uuid that the database draws is new.
abbrev pub IsFresh : Call → Table → Type 0
IsFresh (creates id now d) t = find id t ≡ none
IsFresh _ t = Unit {0}

-- The tables that calls reach from the empty one; what happens in the middle of a call are other
-- sessions' statements.
pub data Reached : Table → Type 0 where
  empty : Reached []
  called :
      (s : Session) (others : List Statement) (c : Call) (t : Table)
      → ((u : Table) → s.meanwhile u ≡ run others u)
      → IsFresh c t
      → Reached t
      → Reached (call s c t)

-- A call leaves one of the tables that its statements can leave.
one_of-IsValid :
    {u : Table} (a b c : Table)
    → (u ≡ a) ⊎ (u ≡ b) ⊎ (u ≡ c)
    → IsValid a
    → IsValid b
    → IsValid c
    → IsValid u
one_of-IsValid a b c (inl e) v w k = subst IsValid (sym e) v
one_of-IsValid a b c (inr (inl e)) v w k = subst IsValid (sym e) w
one_of-IsValid a b c (inr (inr e)) v w k = subst IsValid (sym e) k

choose-IsValid :
    {u : Table} (a b c d : Table)
    → (u ≡ a) ⊎ (u ≡ b) ⊎ (u ≡ c) ⊎ (u ≡ d)
    → IsValid a
    → IsValid b
    → IsValid c
    → IsValid d
    → IsValid u
choose-IsValid a b c d (inl e) v w k l = subst IsValid (sym e) v
choose-IsValid a b c d (inr r) v w k l = one_of-IsValid b c d r w k l

module _ (s : Session) (t : Table) (v : IsValid t) (m : IsValid (s.meanwhile t)) where
  failure-IsValid :
      (draw : ℕ → ℕ) (cfg : Config) (now id : ℕ) (token : ℤ) (message : String) (permanent : Bool)
      → IsValid (mark_failure s draw cfg now id token message permanent t).0
  unfolding mark_failure update_held exec
  failure-IsValid draw cfg now id token message permanent =
      let u = s.meanwhile t in
      let bury = exec-IsValid (buries now id token message) u m in
      elim (Option-cases (select (holds_lease id token) t)) [
        | inl e ↦ one_of-IsValid t u u (ground (arith, e)) v m m
        | inr (j, e) ↦
            elim (Option-cases (compute_backoff draw (pos j.attempts) (pos 0) (pos 0) (some cfg))) [
              | inl n ↦
                  choose-IsValid t u (exec (buries now id token message) u) u (ground (arith, e, n))
                    v m bury m
              | inr (d, n) ↦
                  choose-IsValid t u (exec (buries now id token message) u)
                    (exec (retries now id token d message) u) (ground (arith, e, n)) v m bury
                    (exec-IsValid (retries now id token d message) u m)
            ]
      ]

  call-IsValid : (c : Call) → IsFresh c t → IsValid (call s c t)
  unfolding call create_job claim_pending_job mark_complete reap_expired_leases extend_lease
      mark_dead reset_dead_job exec
  call-IsValid (creates id now d) fresh =
      one_of-IsValid t t (exec (inserts id now d) t) (ground arith) v v
        (exec-IsValid (inserts id now d) t v)
  call-IsValid (takes_one locked now queues worker seconds) _ =
      one_of-IsValid t t (exec (claims locked now queues worker seconds) t) (ground arith) v v
        (exec-IsValid (claims locked now queues worker seconds) t v)
  call-IsValid (finishes now id token) _ =
      one_of-IsValid t (s.meanwhile t) (exec (completes now id token) t) (ground arith) v m
        (exec-IsValid (completes now id token) t v)
  call-IsValid (gives_up draw cfg now id token message permanent) _ =
      failure-IsValid draw cfg now id token message permanent
  call-IsValid (sweeps now) _ =
      one_of-IsValid t t (exec (reaps now) t) (ground arith) v v (exec-IsValid (reaps now) t v)
  call-IsValid (prolongs now id token seconds worker) _ =
      one_of-IsValid t (s.meanwhile t) (exec (extends now id token seconds worker) t) (ground arith)
        v m (exec-IsValid (extends now id token seconds worker) t v)
  call-IsValid (buries_one id) _ =
      one_of-IsValid t t (exec (kills id) t) (ground arith) v v (exec-IsValid (kills id) t v)
  call-IsValid (revives now id) _ =
      one_of-IsValid t (s.meanwhile t) (exec (resets now id) t) (ground arith) v m
        (exec-IsValid (resets now id) t v)

-- Every table that the store's methods reach from the empty one, with fresh keys for new jobs,
-- satisfies the invariant, whatever statements fail and whatever statements of other sessions run
-- in the middle of a call: keys are unique, and each row has attempts within its limit, an owner, a
-- deadline and a token while it runs, and neither owner nor deadline while it is pending.
pub Reached-IsValid : (t : Table) → Reached t → IsValid t
unfolding run
Reached-IsValid [] empty = run_empty-IsValid []
Reached-IsValid _ (called s others c t same fresh r) =
    let v = Reached-IsValid t r in
    call-IsValid s t v (subst IsValid (sym (same t)) (run-IsValid others t v)) c fresh
