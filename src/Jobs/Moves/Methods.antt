-- ===== src/Jobs/Moves/Methods.antt =====
-- Each method of `DerivationJobStore` (src/jobs/service.ts) as a run of moves, where the UPDATEs that
-- it makes follow the law `R`.
use agent_recall.Common.{ℕ, ◌+◌, String, true, Option, none, some, List, [], ◌∷◌, ◌≡◌, get_or}
use agent_recall.Jobs.Rows.{JobRow, JobDb, RunRow}
use agent_recall.Jobs.Store.{
  Ending, can_claim, claimed, can_cancel, cancel_requested, can_finalize, finalized, checkpointed,
  can_renew, renewed, lease_expired, reaped,
}
use agent_recall.Jobs.Service.{
  EnqueueInput, StageInput, FinishInput, OutputDescriptor, default_lease_ttl_ms, or_disappeared,
  enqueue_with, enqueue, reap, claim_result, claim, list_claimable, start_stage_on, start_stage,
  job_of_run, run_job_id, write_cursor, write_output, write_outputs, or_vanished, finish_rest,
  finish_stage,
}
use agent_recall.Jobs.Endings.{
  or_not_found, end_job, plain_ending, failed_ending, complete, fail, request_cancel,
  mark_cancelled,
}
use agent_recall.Jobs.Rows.{TerminalState}
use agent_recall.Jobs.Ops.{
  Op, enqueue_op, reap_op, claim_op, list_op, start_op, finish_op, complete_op, fail_op, cancel_op,
  mark_op, checkpoint_op, renew_op, step, run_ops,
}
use agent_recall.Jobs.Moves.{Moves, stop, Moves-append, Traced, trace_rules, Traced-bind}
use agent_recall.Jobs.Moves.Statements.{
  insert_rules, reap-Traced, claim_job-Traced, request_job_cancel-Traced, finalize_job-Traced,
  checkpoint_job-Traced, renew_job_lease-Traced,
}

module _ {R : JobRow → JobRow → Type 0} where
  or_disappeared-Traced : (row : Option JobRow) → Traced R (or_disappeared row)
  or_disappeared-Traced none = search trace_rules
  or_disappeared-Traced (some row) = search trace_rules

  enqueue_with-Traced :
      (input : EnqueueInput) (job_id : String) (now : ℕ) (existing : Option JobRow)
      → Traced R (enqueue_with input job_id now existing)
  unfolding enqueue_with
  enqueue_with-Traced input job_id now (some existing) = search trace_rules
  enqueue_with-Traced input job_id now none =
      search (trace_rules, insert_rules, or_disappeared-Traced)

  enqueue-Traced :
      (input : EnqueueInput) (job_id : String) (now : ℕ) → Traced R (enqueue input job_id now)
  unfolding enqueue
  enqueue-Traced input job_id now = search (trace_rules, enqueue_with-Traced)

  claim_result-Traced : (expires : ℕ) (row : Option JobRow) → Traced R (claim_result expires row)
  claim_result-Traced expires none = search trace_rules
  claim_result-Traced expires (some row) = search trace_rules

  start_stage_on-Traced :
      (input : StageInput) (run_id : String) (now : ℕ) (job : Option JobRow)
      → Traced R (start_stage_on input run_id now job)
  unfolding start_stage_on
  start_stage_on-Traced input run_id now none = search trace_rules
  start_stage_on-Traced input run_id now (some job) = search (trace_rules, insert_rules)

  start_stage-Traced :
      (input : StageInput) (run_id : String) (now : ℕ) → Traced R (start_stage input run_id now)
  unfolding start_stage
  start_stage-Traced input run_id now = search (trace_rules, start_stage_on-Traced)

  job_of_run-Traced : (run : Option RunRow) → Traced R (job_of_run run)
  job_of_run-Traced none = search trace_rules
  job_of_run-Traced (some run) = search trace_rules

  run_job_id-Traced : (run_id : String) → Traced R (run_job_id run_id)
  unfolding run_job_id
  run_job_id-Traced run_id = search (trace_rules, job_of_run-Traced)

  write_output-Traced :
      (run_id : String) (out : OutputDescriptor) (now : ℕ) → Traced R (write_output run_id out now)
  unfolding write_output
  write_output-Traced run_id out now = search (trace_rules, insert_rules, run_job_id-Traced)

  write_outputs-Traced :
      (run_id : String) (outs : List OutputDescriptor) (now : ℕ)
      → Traced R (write_outputs run_id outs now)
  unfolding write_outputs
  write_outputs-Traced run_id [] now = search trace_rules
  write_outputs-Traced run_id (out ∷ rest) now =
      Traced-bind (write_output run_id out now) (λ _. write_outputs run_id rest now)
        (write_output-Traced run_id out now) (λ _. write_outputs-Traced run_id rest now)

  or_vanished-Traced : (run : Option RunRow) → Traced R (or_vanished run)
  or_vanished-Traced none = search trace_rules
  or_vanished-Traced (some run) = search trace_rules

  or_not_found-Traced : (row : Option JobRow) → Traced R (or_not_found row)
  or_not_found-Traced none = search trace_rules
  or_not_found-Traced (some row) = search trace_rules

-- the UPDATE of each method, as a law that `R` has to have
module _ (R : JobRow → JobRow → Type 0) where
  abbrev pub ReapLaw : ℕ → Type 0
  ReapLaw now = (row : JobRow) → lease_expired now row ≡ true → R row (reaped now row)

  abbrev pub ClaimLaw : String → String → ℕ → ℕ → Type 0
  ClaimLaw id owner expires now =
      (row : JobRow) → can_claim id now row ≡ true → R row (claimed owner expires now now row)

  abbrev pub EndLaw : String → Ending → ℕ → Type 0
  EndLaw id ending now =
      (row : JobRow) → can_finalize id row ≡ true → R row (finalized ending now row)

  abbrev pub CursorLaw : Type 0
  CursorLaw =
      (id cursor : String) (now : ℕ) (row : JobRow)
      → can_finalize id row ≡ true
      → R row (checkpointed cursor now row)

  abbrev pub CancelLaw : String → ℕ → Type 0
  CancelLaw id now = (row : JobRow) → can_cancel id row ≡ true → R row (cancel_requested now row)

  abbrev pub RenewLaw : String → String → ℕ → ℕ → Type 0
  RenewLaw id owner expires now =
      (row : JobRow) → can_renew id owner now row ≡ true → R row (renewed owner expires now row)

  abbrev pub Lawful : (Option String → String) → Op → Type 0
  Lawful redact (enqueue_op input job_id now) = Unit {0}
  Lawful redact (reap_op now) = ReapLaw now
  Lawful redact (claim_op job_id owner ttl now) =
      ReapLaw now × ClaimLaw job_id owner (now + get_or ttl default_lease_ttl_ms) now
  Lawful redact (list_op kind now limit) = ReapLaw now
  Lawful redact (start_op input run_id now) = Unit {0}
  Lawful redact (finish_op input now) = CursorLaw
  Lawful redact (complete_op job_id now) = EndLaw job_id (plain_ending TerminalState.succeeded) now
  Lawful redact (fail_op job_id code message retry now) =
      EndLaw job_id (failed_ending code (redact message) retry) now
  Lawful redact (cancel_op job_id now) = CancelLaw job_id now
  Lawful redact (mark_op job_id now) = EndLaw job_id (plain_ending TerminalState.cancelled) now
  Lawful redact (checkpoint_op job_id cursor now) = CursorLaw
  Lawful redact (renew_op job_id owner expires now) = RenewLaw job_id owner expires now

  abbrev pub AllLawful : (Option String → String) → List Op → Type 0
  AllLawful redact [] = Unit {0}
  AllLawful redact (op ∷ ops) = Lawful redact op × AllLawful redact ops

module _ {R : JobRow → JobRow → Type 0} where
  claim-Traced :
      (job_id owner : String) (ttl : Option ℕ) (now : ℕ)
      → ReapLaw R now
      → ClaimLaw R job_id owner (now + get_or ttl default_lease_ttl_ms) now
      → Traced R (claim job_id owner ttl now)
  unfolding claim
  claim-Traced job_id owner ttl now reaps claims =
      search (trace_rules, reap-Traced, claim_job-Traced, claim_result-Traced)

  list_claimable-Traced :
      (kind : Option String) (now limit : ℕ)
      → ReapLaw R now
      → Traced R (list_claimable kind now limit)
  unfolding list_claimable
  list_claimable-Traced kind now limit reaps = search (trace_rules, reap-Traced)

  write_cursor-Traced :
      (run_id : String) (cursor : Option String) (now : ℕ)
      → CursorLaw R
      → Traced R (write_cursor run_id cursor now)
  unfolding write_cursor
  write_cursor-Traced run_id none now law = search trace_rules
  write_cursor-Traced run_id (some cursor) now law =
      search (trace_rules, checkpoint_job-Traced, run_job_id-Traced)

  pub finish_rest-Traced :
      (input : FinishInput) (now : ℕ) → CursorLaw R → Traced R (finish_rest input now)
  unfolding finish_rest
  finish_rest-Traced input now law =
      search
        (
          trace_rules, run_job_id-Traced, write_cursor-Traced, write_outputs-Traced,
          or_vanished-Traced,
        )
        depth 9

  finish_stage-Traced :
      (input : FinishInput) (now : ℕ) → CursorLaw R → Traced R (finish_stage input now)
  unfolding finish_stage
  finish_stage-Traced input now law = search (trace_rules, insert_rules, finish_rest-Traced)

  end_job-Traced :
      (job_id : String) (ending : Ending) (now : ℕ)
      → EndLaw R job_id ending now
      → Traced R (end_job job_id ending now)
  unfolding end_job
  end_job-Traced job_id ending now law =
      search (trace_rules, finalize_job-Traced, or_not_found-Traced)

module _ {R : JobRow → JobRow → Type 0} (redact : Option String → String) where
  -- every operation is a run of moves
  pub step-Moves : (op : Op) (db : JobDb) → Lawful R redact op → Moves R db (step redact op db)
  unfolding step complete fail request_cancel mark_cancelled reap
  step-Moves (enqueue_op input job_id now) db law = (enqueue-Traced input job_id now).at db
  step-Moves (reap_op now) db law = (reap-Traced now law).at db
  step-Moves (claim_op job_id owner ttl now) db law =
      (claim-Traced job_id owner ttl now law.0 law.1).at db
  step-Moves (list_op kind now limit) db law = (list_claimable-Traced kind now limit law).at db
  step-Moves (start_op input run_id now) db law = (start_stage-Traced input run_id now).at db
  step-Moves (finish_op input now) db law = (finish_stage-Traced input now law).at db
  step-Moves (complete_op job_id now) db law = (end_job-Traced job_id _ now law).at db
  step-Moves (fail_op job_id code message retry now) db law =
      (end_job-Traced job_id _ now law).at db
  step-Moves (cancel_op job_id now) db law = (request_job_cancel-Traced now job_id law).at db
  step-Moves (mark_op job_id now) db law = (end_job-Traced job_id _ now law).at db
  step-Moves (checkpoint_op job_id cursor now) db law =
      (checkpoint_job-Traced now job_id cursor (law job_id cursor now)).at db
  step-Moves (renew_op job_id owner expires now) db law =
      (renew_job_lease-Traced now job_id owner expires law).at db

  -- so is every schedule
  pub run_ops-Moves :
      (ops : List Op) (db : JobDb) → AllLawful R redact ops → Moves R db (run_ops redact ops db)
  unfolding run_ops
  run_ops-Moves [] db law = stop
  run_ops-Moves (op ∷ ops) db law =
      Moves-append (step-Moves op db law.0) (run_ops-Moves ops (step redact op db) law.1)
