-- ===== src/JobQ/Sdk/Life.antt =====
-- A worker, the server and the store together: what becomes of a claimed job.
use system_design_implementa.Prelude.{
  ℕ, ◌<◌, ◌≡◌, ap, ◌∙◌, true, false, not, ◌&&◌, List, String, none, some, arith, str_eq, ◌==◌,
  if◌then◌else◌,
}
use system_design_implementa.Prelude.Int.{pos, ltb_ℤ}
use system_design_implementa.JobQ.Job.{Job, completed, stale_lease_token}
use system_design_implementa.JobQ.Table.{Table, find, alone}
use system_design_implementa.JobQ.Table.Laws.{IsUnique}
use system_design_implementa.JobQ.Store.Finish.{mark_complete, mark_failure, is_leased}
use system_design_implementa.JobQ.Http.Handlers.{Server, ack, nack}
use system_design_implementa.JobQ.Sdk.Client.{Reply, bad, unexpected, ack_reply, nack_reply}
use system_design_implementa.JobQ.Sdk.Worker.{
  Report, acks, nacks, report, settle, Outcome, done, nack_failed, Handler, handler_of, execute,
  WorkerConfig, with_defaults, lease_seconds,
}
use system_design_implementa.JobQ.Sdk.Contract.{over_wire, through, ack_contract, nack_contract}
use system_design_implementa.JobQ.Proofs.Effects.{
  outcome, writes, dead_of, mark_complete_correct, mark_failure-permanent,
}

-- A report travels to the server that the worker claimed from, with the token of the claim.
abbrev pub deliver : Server → Job → Table → Report → Table × Reply (Unit {0})
deliver s j t acks =
    over_wire ack_reply (ack s (some j.id) (some (record { lease_token = pos j.lease_token })) t)
deliver s j t (nacks text permanent) = over_wire nack_reply (
    nack s (some j.id)
      (some (record { lease_token = pos j.lease_token; error = text; permanent = permanent })) t)

-- `execute` against a server: the table afterwards, and what the worker is told.
unfoldable pub run_job :
    (String → String) → List (String × Handler) → Server → Job → Table → Table × Outcome
unfolding execute
run_job describe hs s j t =
    let sent = deliver s j t (report describe hs j) in
    (sent.0, execute describe hs (λ r. (deliver s j t r).1) j)

-- What the worker is told once a report has been answered.
abbrev after_report : Report → Table × Reply (Unit {0}) → Table × Outcome
after_report r (t, reply) = (t, settle r reply)

module _ (describe : String → String) (hs : List (String × Handler)) (s : Server) (j : Job)
    (t : Table) where
  run_job-report :
      (r : Report)
      → report describe hs j ≡ r
      → run_job describe hs s j t ≡ after_report r (deliver s j t r)
  unfolding run_job
  run_job-report r e = rw (e, run_job)

  -- A handler error whose text is empty is never recorded: the server refuses the report with
  -- status 422, the table stays as it is, and the worker is told that the report failed.
  pub silent_error_lost :
      (h : Handler)
      → handler_of j.job_type hs ≡ some h
      → h j.payload ≡ some ""
      → run_job describe hs s j t ≡ (t, nack_failed (unexpected 422))
  silent_error_lost h found fails =
      let sent : report describe hs j ≡ nacks "" false = ground arith in
      run_job-report (nacks "" false) sent
      ∙ ap (after_report (nacks "" false))
          (nack_contract s j.id (pos j.lease_token) t "" false ∙ refused)
    where
      refused :
          (if ltb_ℤ (pos 0) (pos j.lease_token) && not (str_eq "" "")
            then through
                (mark_failure s.session s.draw s.config s.now j.id (pos j.lease_token) "" false t)
            else (t, bad (unexpected 422)))
          ≡ (t, bad (unexpected 422))
      refused = ground arith

  -- When the handler of the job's type succeeds, the server meets no fault, keys are unique and the
  -- job's positive token holds the lease of its row, the worker is told that all went well, that
  -- row is completed as of the server's time, with no deadline and all else as it was, and no other
  -- row changes.
  pub success_completes :
      (h : Handler) (row : Job)
      → s.session ≡ alone
      → IsUnique t
      → handler_of j.job_type hs ≡ some h
      → h j.payload ≡ none
      → find j.id t ≡ some row
      → is_leased (pos j.lease_token) row ≡ true
      → 0 < j.lease_token
      → ((run_job describe hs s j t).1 ≡ done)
        × ((i : ℕ)
            → find i (run_job describe hs s j t).0 ≡ (
                if i == j.id
                then some
                    (record row { status = completed; lease_until = none; updated_at = s.now })
                else find i t))
  success_completes h row quiet u found works here held positive =
      let sent : report describe hs j ≡ acks = ground arith in
      let told : run_job describe hs s j t
          ≡ after_report acks (through (mark_complete alone s.now j.id (pos j.lease_token) t)) =
        run_job-report acks sent
        ∙ ap (after_report acks) (ack_contract s j.id (pos j.lease_token) t ∙ accepted) in
      let o : outcome (is_leased (pos j.lease_token))
            (λ k. record k { status = completed; lease_until = none; updated_at = s.now })
            stale_lease_token (find j.id t)
          ≡ writes (record row { status = completed; lease_until = none; updated_at = s.now }) =
        rw (here, held) in
      let m = rw o at (mark_complete_correct s.now j.id (pos j.lease_token) t u) in
      (ground (arith, m.0), λ i. ground (arith, m.1 i))
    where
      accepted :
          (if ltb_ℤ (pos 0) (pos j.lease_token)
            then through (mark_complete s.session s.now j.id (pos j.lease_token) t)
            else (t, bad (unexpected 422)))
          ≡ through (mark_complete alone s.now j.id (pos j.lease_token) t)
      accepted = ground arith

  -- When no handler is registered for the job's type, the text that names the type is not empty,
  -- the server meets no fault, keys are unique and the job's positive token holds the lease of its
  -- row, the row is dead as of the server's time with that text as its error, no owner and no
  -- deadline, the worker is told that all went well, and no other row changes.
  pub unregistered_buries :
      (row : Job)
      → s.session ≡ alone
      → IsUnique t
      → handler_of j.job_type hs ≡ none
      → str_eq (describe j.job_type) "" ≡ false
      → find j.id t ≡ some row
      → is_leased (pos j.lease_token) row ≡ true
      → 0 < j.lease_token
      → ((run_job describe hs s j t).1 ≡ done)
        × ((i : ℕ)
            → find i (run_job describe hs s j t).0
              ≡ (if i == j.id then some (dead_of s.now (describe j.job_type) row) else find i t))
  unfolding run_job
  unregistered_buries row quiet u absent named here held positive =
      let text = describe j.job_type in
      let token = pos j.lease_token in
      let told : run_job describe hs s j t
          ≡ after_report (nacks text true)
              (through (mark_failure alone s.draw s.config s.now j.id token text true t)) =
        run_job-report (nacks text true) (ground arith)
        ∙ ap (after_report (nacks text true)) (nack_contract s j.id token t text true ∙ accepted) in
      let o : outcome (is_leased token) (dead_of s.now text) stale_lease_token (find j.id t)
          ≡ writes (dead_of s.now text row) =
        rw (here, held) in
      let m = rw o at (mark_failure-permanent s.draw s.config s.now j.id token text t u) in
      (ground (arith, m.0), λ i. ground (arith, m.1 i))
    where
      accepted :
          (if ltb_ℤ (pos 0) (pos j.lease_token) && not (str_eq (describe j.job_type) "")
            then through (
                mark_failure s.session s.draw s.config s.now j.id
                  (pos j.lease_token)
                  (describe j.job_type)
                  true
                  t)
            else (t, bad (unexpected 422)))
          ≡ through (
              mark_failure alone s.draw s.config s.now j.id
                (pos j.lease_token)
                (describe j.job_type)
                true
                t)
      accepted = ground arith

-- A worker that is configured with a lease of less than a second asks for leases of 0 seconds.
pub sub_second_lease :
    (drawn : String) (c : WorkerConfig) (ns : ℕ)
    → c.lease_duration ≡ pos ns
    → 0 < ns
    → ns < 1_000_000_000
    → lease_seconds (with_defaults drawn c) ≡ pos 0
unfolding lease_seconds with_defaults
sub_second_lease drawn c ns e p l = ground arith
