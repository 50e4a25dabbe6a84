-- ===== src/Jobs/Runner/Tests.antt =====
-- `runOnce` on one queued job.
use agent_recall.Common.{
  ℕ, String, true, false, Option, none, some, List, [], ◌∷◌, ◌≡◌, refl, get_or, str_eq,
}
use agent_recall.Common.Effect.{returned, thrown}
use agent_recall.Common.Table.{insert_row, exists_where, first_where, update_where, select_where}
use agent_recall.Common.Order.{order_with}
use agent_recall.Jobs.Rows.{JobScope, JobErrorCode, JobDb}
use agent_recall.Jobs.Store.{
  coded, claimed, claim_job, list_claimable_jobs, reap_expired_leases, finalize_job, finalized,
}
use agent_recall.Jobs.Service.{EnqueueInput, enqueue, queued_row, list_claimable, claim}
use agent_recall.Jobs.Ops.{Op, enqueue_op, complete_op, run_ops, step}
use agent_recall.Jobs.Runner.{
  Turn, Pass, RunOnceOptions, RunOnceResult, succeeded, run_once, job_succeeded, no_jobs,
  add_verdict, take_turn,
}
use agent_recall.Jobs.Runner.Turns.{TurnCounts, jobs_of, take_turn_counts}
use agent_recall.Jobs.Invariant.{IsConsistent}
use agent_recall.Jobs.Invariant.Preserved.{run_ops-IsConsistent}
use agent_recall.Jobs.Runner.Ends.{EndedAfter, run_once_single}

abbrev no_text : Option String → String
no_text message = get_or message ""

abbrev distil_job : EnqueueInput
distil_job = record {
  kind = "distill";
  scope = JobScope.global;
  project_id = none;
  creator_actor_id = "alice";
  idempotency_key = "k1";
  input_digest = "d1";
  config_digest = "c1";
  initial_cursor = none;
  next_retry_at = none;
}

abbrev one_job : JobDb
unfolding queued_row
one_job = record { jobs = queued_row distil_job "j1" 10 ∷ []; runs = []; outputs = [] }

abbrev one_pass : RunOnceOptions
one_pass = record {
  kind = none;
  lease_owner = "w1";
  lease_ttl_ms = none;
  max_jobs = some 2;
  poll_ms = none;
  stop_after_empty_passes = some (some 1);
  has_executor = λ kind. str_eq kind "distill";
}

-- the executor succeeds, after `ops` of others
abbrev turn_with : List Op → Turn
turn_with ops = record {
  aborted = false;
  list_throws = false;
  listed_at = 20;
  before_claim = [];
  claim_throws = false;
  claimed_at = 20;
  while_executing = ops;
  executor_end = succeeded;
  ended_at = 30;
  store_message = "job_not_found";
}

abbrev passes_with : List Op → ℕ → Pass
passes_with ops n = record {
  aborted_before = false;
  turns = λ i. turn_with ops;
  aborted_after = false;
}

abbrev aborted_passes : ℕ → Pass
aborted_passes n = record { aborted_before = true; turns = λ i. turn_with []; aborted_after = true }

abbrev one_success : RunOnceResult
one_success = record {
  tally = record { attempted = 1; succeeded = 1; failed = 0; cancelled = 0 };
  passes = 1;
  loop_exit_reason = none;
}

one_job_succeeds :
    (run_once no_text one_pass 1 (passes_with []) one_job).0 ≡ returned (some one_success)
unfolding run_once list_claimable list_claimable_jobs order_with select_where reap_expired_leases
    update_where one_job claim claim_job first_where run_ops finalize_job step claimed finalized
one_job_succeeds = refl

-- where another worker ended the job meanwhile, the error leaves `runOnce`
ended_elsewhere :
    (run_once no_text one_pass 1 (passes_with (complete_op "j1" 25 ∷ [])) one_job).0
    ≡ thrown (coded JobErrorCode.job_not_found)
unfolding run_once list_claimable list_claimable_jobs order_with select_where reap_expired_leases
    update_where one_job claim claim_job first_where run_ops finalize_job step claimed finalized
ended_elsewhere = refl

abbrev no_jobs_db : JobDb
no_jobs_db = record { jobs = []; runs = []; outputs = [] }

no_jobs_db-IsConsistent : IsConsistent no_jobs_db
no_jobs_db-IsConsistent = record {
  rows = tt;
  ids = tt;
  keys = tt;
  run_ids = tt;
  outputs = tt;
  run_jobs = tt;
  output_jobs = tt;
  output_runs = tt;
}

abbrev queued_db : JobDb
queued_db = run_ops no_text (enqueue_op distil_job "j1" 10 ∷ []) no_jobs_db

queued_db-IsConsistent : IsConsistent queued_db
queued_db-IsConsistent =
    run_ops-IsConsistent no_text (enqueue_op distil_job "j1" 10 ∷ []) no_jobs_db
      no_jobs_db-IsConsistent

one_turn : (take_turn no_text one_pass (turn_with []) queued_db).0 ≡ returned job_succeeded
unfolding take_turn list_claimable list_claimable_jobs order_with select_where reap_expired_leases
    update_where claim claim_job first_where run_ops finalize_job step claimed finalized enqueue
    exists_where insert_row
one_turn = refl

take_turn_counts_example :
    TurnCounts no_text one_pass
      (turn_with [])
      no_jobs
      (add_verdict job_succeeded no_jobs)
      (jobs_of no_text one_pass
        (turn_with [])
        (list_claimable one_pass.kind (turn_with []).listed_at 1 queued_db).0)
      (list_claimable one_pass.kind (turn_with []).listed_at 1 queued_db).1
      (take_turn no_text one_pass (turn_with []) queued_db).1
take_turn_counts_example =
    take_turn_counts no_text one_pass (turn_with []) queued_db job_succeeded no_jobs
      queued_db-IsConsistent one_turn

run_once_single_example : EndedAfter 1 (some one_success)
run_once_single_example =
    run_once_single no_text one_pass 0 (passes_with []) one_job (some one_success) refl
      one_job_succeeds
