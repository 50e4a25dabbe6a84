-- ===== src/Jobs/Ops.antt =====
-- Everything that workers, callers and the sweep do to the job tables, as one type of operations.
-- A schedule is a list of them in the order in which the database runs them, whoever sent them.
use agent_recall.Common.{ℕ, String, Option, List, [], ◌∷◌}
use agent_recall.Jobs.Rows.{JobErrorCode, JobDb}
use agent_recall.Jobs.Store.{checkpoint_job, renew_job_lease}
use agent_recall.Jobs.Service.{
  EnqueueInput, StageInput, FinishInput, enqueue, reap, claim, list_claimable, start_stage,
  finish_stage,
}
use agent_recall.Jobs.Endings.{complete, fail, request_cancel, mark_cancelled}

pub data Op : Type 0 where
  enqueue_op : EnqueueInput → String → ℕ → Op
  reap_op : ℕ → Op
  claim_op : String → String → Option ℕ → ℕ → Op
  list_op : Option String → ℕ → ℕ → Op
  start_op : StageInput → String → ℕ → Op
  finish_op : FinishInput → ℕ → Op
  complete_op : String → ℕ → Op
  fail_op : String → JobErrorCode → Option String → Option ℕ → ℕ → Op
  cancel_op : String → ℕ → Op
  mark_op : String → ℕ → Op
  checkpoint_op : String → String → ℕ → Op
  renew_op : String → String → ℕ → ℕ → Op

module _ (redact : Option String → String) where
  -- the tables after the operation, whether it returned or threw
  unfoldable pub step : Op → JobDb → JobDb
  step (enqueue_op input job_id now) db = (enqueue input job_id now db).1
  step (reap_op now) db = (reap now db).1
  step (claim_op job_id owner ttl now) db = (claim job_id owner ttl now db).1
  step (list_op kind now limit) db = (list_claimable kind now limit db).1
  step (start_op input run_id now) db = (start_stage input run_id now db).1
  step (finish_op input now) db = (finish_stage input now db).1
  step (complete_op job_id now) db = (complete job_id now db).1
  step (fail_op job_id code message retry now) db = (fail redact job_id code message retry now db).1
  step (cancel_op job_id now) db = (request_cancel job_id now db).1
  step (mark_op job_id now) db = (mark_cancelled job_id now db).1
  step (checkpoint_op job_id cursor now) db = (checkpoint_job job_id cursor now db).1
  step (renew_op job_id owner expires now) db = (renew_job_lease job_id owner expires now db).1

  unfoldable pub run_ops : List Op → JobDb → JobDb
  run_ops [] db = db
  run_ops (op ∷ ops) db = run_ops ops (step op db)
