-- ===== src/Jobs/Tests.antt =====
-- Runs of the job store on small tables, and its theorems at concrete inputs.
use mathlib.Core.Option
use agent_recall.Common.{
  ◌+◌, String, false, Option, none, some, List, [], ◌∷◌, ◌≡◌, refl, arith, get_or,
}
use agent_recall.Common.Effect.{returned, thrown}
use agent_recall.Common.Table.{
  first_where, exists_where, update_where, insert_row, count_where, select_where,
}
use agent_recall.Jobs.Rows.{
  JobState, JobScope, JobErrorCode, JobRow, RunRow, RunStatus, JobDb, TerminalState,
}
use agent_recall.Jobs.Store.{Ending, coded, get_job, checkpoint_job}
use agent_recall.Jobs.Runs.{completed}
use agent_recall.Jobs.Service.{EnqueueInput, FinishInput, enqueue, queued_row, claim, finish_stage}
use agent_recall.Jobs.Endings.{end_job, complete, plain_ending}
use agent_recall.Jobs.Endings.Exact.{end_reply, end_row, end_job_lem, stale_worker_completes}
use agent_recall.Jobs.Ops.{
  Op, enqueue_op, reap_op, claim_op, finish_op, complete_op, cancel_op, run_ops,
}
use agent_recall.Jobs.History.{Evolves, run_ops-Evolves}
use agent_recall.Jobs.Invariant.{IsWellFormed, IsConsistent}
use agent_recall.Jobs.Invariant.Preserved.{run_ops-IsConsistent}
use agent_recall.Jobs.Lease.{Holds}
use agent_recall.Jobs.Claim.Exact.{taken_reply, after_take, claim_lem}
use agent_recall.Jobs.Claim.Exclusive.{Taken, claim_takes_over, lease_exclusive}
use agent_recall.Jobs.Replay.Idempotent.{retry_reply, enqueue_idempotent}
use agent_recall.Jobs.Stages.{finish_stage_once}

abbrev no_error : Option String → String
no_error message = get_or message ""

abbrev empty_db : JobDb
empty_db = record { jobs = []; runs = []; outputs = [] }

abbrev distil : EnqueueInput
distil = record {
  kind = "distill";
  scope = JobScope.global;
  project_id = none;
  creator_actor_id = "alice";
  idempotency_key = "k1";
  input_digest = "d1";
  config_digest = "c1";
  initial_cursor = none;
  next_retry_at = none;
}

-- a running job, leased to worker w1 until 100
abbrev held_row : JobRow
held_row = record {
  job_id = "j1";
  kind = "distill";
  state = JobState.running;
  scope = JobScope.global;
  project_id = none;
  creator_actor_id = "alice";
  idempotency_key = "k1";
  input_digest = "d1";
  config_digest = "c1";
  cursor_json = "{}";
  attempt_count = 1;
  lease_owner = some "w1";
  lease_expires_at = some 100;
  cancel_requested_at = none;
  next_retry_at = none;
  error_code = none;
  redacted_error = none;
  created_at = 10;
  started_at = some 20;
  updated_at = 20;
  finished_at = none;
}

abbrev open_run : RunRow
open_run = record {
  run_id = "r1";
  job_id = "j1";
  stage = "extract";
  status = RunStatus.started;
  input_refs_json = "[]";
  output_refs_json = "[]";
  provider_id = none;
  model_id = none;
  prompt_template_version = none;
  prompt_hash = none;
  policy_version = "p1";
  result_digest = none;
  started_at = 21;
  finished_at = none;
}

abbrev held_db : JobDb
held_db = record { jobs = held_row ∷ []; runs = open_run ∷ []; outputs = [] }

held_row-IsWellFormed : IsWellFormed held_row
held_row-IsWellFormed = ground arith

held_db-IsConsistent : IsConsistent held_db
unfolding exists_where
held_db-IsConsistent = record {
  rows = (held_row-IsWellFormed, tt);
  ids = (refl, tt);
  keys = (refl, tt);
  run_ids = (refl, tt);
  outputs = tt;
  run_jobs = (refl, tt);
  output_jobs = tt;
  output_runs = tt;
}

empty_db-IsConsistent : IsConsistent empty_db
empty_db-IsConsistent = record {
  rows = tt;
  ids = tt;
  keys = tt;
  run_ids = tt;
  outputs = tt;
  run_jobs = tt;
  output_jobs = tt;
  output_runs = tt;
}

held_db-Holds : Holds "j1" "w1" 100 held_db
unfolding first_where
held_db-Holds = record {
  row = held_row;
  found = refl;
  leased = record { same_id = refl; running = refl; leased_to = refl; leased_until = refl };
}

abbrev schedule : List Op
schedule = claim_op "j1" "w2" none 150 ∷ complete_op "j1" 160 ∷ reap_op 900 ∷ []

run_ops-Evolves_example :
    (new : JobRow) × (get_job "j1" (run_ops no_error schedule held_db) ≡ some new)
    × Evolves held_row new
unfolding first_where
run_ops-Evolves_example = run_ops-Evolves no_error schedule held_db "j1" held_row refl

run_ops-IsConsistent_example : IsConsistent (run_ops no_error schedule held_db)
run_ops-IsConsistent_example = run_ops-IsConsistent no_error schedule held_db held_db-IsConsistent

claim_lem_example :
    ((claim "j1" "w2" (some 50) 150 held_db).0
      ≡ returned (taken_reply "w2" (150 + 50) 150 (get_job "j1" held_db)))
    × (get_job "j1" (claim "j1" "w2" (some 50) 150 held_db).1
        ≡ Option.map (after_take "w2" (150 + 50) 150) (get_job "j1" held_db))
claim_lem_example = claim_lem "j1" "w2" (some 50) 150 held_db held_db-IsConsistent

claim_takes_over_example : Taken "j1" "w2" (some 50) 150 held_db 1
unfolding held_db-Holds
claim_takes_over_example =
    claim_takes_over "j1" "w1" "w2" 100 (some 50) 150 held_db held_db-IsConsistent held_db-Holds
      (omega arith)

abbrev crowd : List Op
crowd = claim_op "j1" "w2" none 30 ∷ cancel_op "j1" 40 ∷ reap_op 99 ∷ []

lease_exclusive_example :
    Holds "j1" "w1" 100 (run_ops no_error crowd held_db)
    × ((claim "j1" "w3" none 99 (run_ops no_error crowd held_db)).0 ≡ returned none)
lease_exclusive_example =
    lease_exclusive no_error "j1" "w1" "w3" 100 none 99 crowd held_db held_db-IsConsistent
      held_db-Holds (omega arith) (omega arith)

first_enqueue :
    (enqueue distil "j1" 10 empty_db).0
    ≡ returned (record { job = queued_row distil "j1" 10; replayed = false })
unfolding enqueue first_where exists_where insert_row
first_enqueue = refl

abbrev script : List Op
script = claim_op "j1" "w1" none 20 ∷ complete_op "j1" 30 ∷ []

enqueue_idempotent_example :
    (row : JobRow) × (row.job_id ≡ "j1")
    × (enqueue distil "j2" 40 (run_ops no_error (enqueue_op distil "j1" 10 ∷ script) empty_db) ≡ (
      retry_reply distil distil row,
      run_ops no_error (enqueue_op distil "j1" 10 ∷ script) empty_db,
    ))
unfolding queued_row
enqueue_idempotent_example =
    enqueue_idempotent no_error distil distil "j1" "j2" 10 40 script empty_db
      (record { job = queued_row distil "j1" 10; replayed = false }) empty_db-IsConsistent
      first_enqueue (record { creator = refl; kind = refl; key = refl }) refl

abbrev finish : FinishInput
finish = record {
  run_id = "r1";
  status = TerminalState.succeeded;
  output_refs = none;
  outputs = [];
  cursor = some "{1}";
  result_digest = none;
}

abbrev closed_run : RunRow
closed_run = record open_run { status = RunStatus.succeeded; finished_at = some 25 }

first_finish : (finish_stage finish 25 held_db).0 ≡ returned closed_run
unfolding finish_stage first_where exists_where insert_row update_where count_where select_where
    completed checkpoint_job
first_finish = refl

finish_stage_once_example :
    finish_stage finish 90 (run_ops no_error (finish_op finish 25 ∷ schedule) held_db) ≡ (
      thrown (coded JobErrorCode.internal_error),
      run_ops no_error (finish_op finish 25 ∷ schedule) held_db,
    )
finish_stage_once_example =
    finish_stage_once no_error finish finish 25 90 schedule closed_run held_db held_db-IsConsistent
      first_finish refl

abbrev success : Ending
success = plain_ending TerminalState.succeeded

end_job_lem_example :
    ((end_job "j1" success 50 held_db).0 ≡ end_reply success 50 (get_job "j1" held_db))
    × ((j : String)
        → get_job j (end_job "j1" success 50 held_db).1
          ≡ Option.map (end_row "j1" success 50) (get_job j held_db))
    × ((end_job "j1" success 50 held_db).1.runs ≡ held_db.runs)
    × ((end_job "j1" success 50 held_db).1.outputs ≡ held_db.outputs)
end_job_lem_example = end_job_lem "j1" success 50 held_db held_db-IsConsistent

stale_worker_completes_example :
    (row : JobRow) × ((complete "j1" 170 (claim "j1" "w2" none 150 held_db).1).0 ≡ returned row)
    × (row.state ≡ JobState.succeeded)
    × (row.lease_owner ≡ none)
stale_worker_completes_example =
    stale_worker_completes "j1" "w1" "w2" 100 none 150 170 held_db held_db-IsConsistent
      held_db-Holds (omega arith)
