-- ===== src/Plans/Ops.antt =====
-- What callers do to the maintenance plans, as one type of operations. `markRejected` is left out:
-- `applyMaintenance` (src/memory-service.ts) calls it for a plan that it refuses to apply.
use agent_recall.Common.{ℕ, String, Option, List, [], ◌∷◌}
use agent_recall.Plans.Rows.{PlanDb, AppliedResult, Runtime}
use agent_recall.Plans.Store.{expire_old_plans}
use agent_recall.Plans.Service.{
  CreatePlanInput, Revision, create, validate, mark_applying, mark_completed,
}

pub data PlanOp (Evidence : Type 0) : Type 0 where
  create_op : CreatePlanInput Evidence → String → ℕ → PlanOp Evidence
  expire_op : ℕ → PlanOp Evidence
  validate_op : String → (String → Option Revision) → String → ℕ → PlanOp Evidence
  applying_op : String → PlanOp Evidence
  completed_op : String → String → AppliedResult → ℕ → PlanOp Evidence

module _ {Evidence : Type 0} (runtime : Runtime Evidence) where
  -- the tables after the operation, whether it returned or threw
  unfoldable pub plan_step : PlanOp Evidence → PlanDb → PlanDb
  plan_step (create_op input plan_id now) db = (create runtime input plan_id now db).1
  plan_step (expire_op now) db = (expire_old_plans now db).1
  plan_step (validate_op id current key now) db = (validate runtime id current key now db).1
  plan_step (applying_op id) db = (mark_applying id db).1
  plan_step (completed_op id key result now) db = mark_completed runtime id key result now db

  unfoldable pub run_plan_ops : List (PlanOp Evidence) → PlanDb → PlanDb
  run_plan_ops [] db = db
  run_plan_ops (op ∷ ops) db = run_plan_ops ops (plan_step op db)
