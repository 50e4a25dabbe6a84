-- ===== src/Plans/Tests.antt =====
-- Validations on a small table of plans, and the theorems on them at concrete inputs.
use agent_recall.Common.{String, true, false, Option, none, some, [], ◌∷◌, ◌≡◌, refl, str_eq}
use agent_recall.Common.Table.{first_where, select_where}
use agent_recall.Common.Order.{order_with, insert_with}
use agent_recall.Plans.Rows.{
  PlanState, PlanRisk, PlanScope, ActionType, PlanRow, ItemRow, PlanDb, AppliedResult, Runtime,
}
use agent_recall.Plans.Store.{get_row, get_items, applied_keys, keys_of_events}
use agent_recall.Plans.Service.{
  Revision, at_revision, valid, plan_from_row, validate, validate_items, validate_pending,
  mark_completed,
}
use agent_recall.Plans.Ops.{expire_op, applying_op, run_plan_ops}
use agent_recall.Plans.Replay.{applied_row, replay_answer, apply_replay}
use agent_recall.Common.{true, arith}
use agent_recall.Plans.Accepted.Complete.{key_allowed, accepts_valid_plan}
use agent_recall.Plans.Accepted.{IsAccepted, validate-IsAccepted}

-- evidence is its own text, and a result is written as the number of applied items
abbrev toy_result : String → Option AppliedResult
toy_result text = elim (str_eq text "one") [
  | true ↦ some (record { applied = 1; rejected = 0 })
  | false ↦ none
]

abbrev toy_runtime : Runtime String
toy_runtime = record {
  read_evidence = λ text. some text;
  write_evidence = λ text. text;
  no_evidence = "";
  read_summary = λ text. some (text ∷ []);
  write_summary = λ lines. "";
  read_meta = λ text. none;
  read_result = toy_result;
  write_result = λ result. "one";
  hash_items = λ items. elim items [ [] ↦ "none" | x ∷ xs ↦ x.target_memory_id ];
  js_lt = λ a b. false;
  sql_le = λ a b. true;
}

abbrev plan_in : PlanState → PlanRow
plan_in state = record {
  plan_id = "p1";
  plan_hash = "m1";
  creator_actor_id = "alice";
  created_at = 0;
  expires_at = 100;
  completed_at = none;
  applied_result_json = none;
  idempotency_key_used = none;
  state = state;
  summary_json = "merge two";
  scope = PlanScope.global;
  project_id = none;
  risk = PlanRisk.low;
}

abbrev merge_item : ItemRow
merge_item = record {
  plan_id = "p1";
  target_memory_id = "m1";
  expected_revision = 3;
  action_type = ActionType.merge;
  evidence_json = "";
  risk = PlanRisk.high;
}

abbrev plans_in : PlanState → PlanDb
plans_in state = record { plans = plan_in state ∷ []; items = merge_item ∷ []; audit_events = [] }

abbrev at_three : String → Option Revision
at_three id = some (at_revision 3)

abbrev one_applied : AppliedResult
one_applied = record { applied = 1; rejected = 0 }

accepts_pending : validate toy_runtime "p1" at_three "key" 50 (plans_in PlanState.pending) ≡ (
  valid (plan_from_row toy_runtime (plan_in PlanState.pending) (merge_item ∷ [])) none,
  plans_in PlanState.pending,
)
unfolding validate validate_pending validate_items get_items order_with insert_with select_where
    first_where applied_keys keys_of_events
accepts_pending = refl

validate-IsAccepted_example :
    (row : PlanRow) × (IsAccepted toy_runtime "p1" at_three 50
        (plan_from_row toy_runtime (plan_in PlanState.pending) (merge_item ∷ []))
        (plans_in PlanState.pending)
        row
      × (plans_in PlanState.pending ≡ plans_in PlanState.pending))
validate-IsAccepted_example =
    validate-IsAccepted toy_runtime "p1" at_three "key" 50
      (plan_from_row toy_runtime (plan_in PlanState.pending) (merge_item ∷ []))
      (plans_in PlanState.pending) (plans_in PlanState.pending) accepts_pending

-- the plan is applied, swept, and marked applying again
abbrev plans_later : PlanDb
plans_later =
    run_plan_ops toy_runtime (expire_op 60 ∷ applying_op "p1" ∷ [])
      (mark_completed toy_runtime "p1" "key" one_applied 50 (plans_in PlanState.applying))

found_applying : get_row "p1" (plans_in PlanState.applying) ≡ some (plan_in PlanState.applying)
unfolding first_where
found_applying = refl

apply_replay_example : validate toy_runtime "p1" at_three "key" 70 plans_later ≡ (
  replay_answer toy_runtime "p1" "key" "key" one_applied 70
      (applied_row toy_runtime "key" one_applied 50 (plan_in PlanState.applying))
      plans_later,
  plans_later,
)
apply_replay_example =
    apply_replay toy_runtime "p1" "key" "key" at_three one_applied 50 70
      (plan_in PlanState.applying) (plans_in PlanState.applying)
      (expire_op 60 ∷ applying_op "p1" ∷ []) refl found_applying refl

no_key_used : key_allowed toy_runtime "p1" "key" (plans_in PlanState.pending) ≡ true
unfolding applied_keys keys_of_events
no_key_used = refl

items_of_plan : get_items toy_runtime "p1" (plans_in PlanState.pending) ≡ merge_item ∷ []
unfolding get_items order_with insert_with select_where
items_of_plan = refl

found_pending : get_row "p1" (plans_in PlanState.pending) ≡ some (plan_in PlanState.pending)
unfolding first_where
found_pending = refl

plan_IsAccepted :
    IsAccepted toy_runtime "p1" at_three 50
      (plan_from_row toy_runtime (plan_in PlanState.pending) (merge_item ∷ []))
      (plans_in PlanState.pending)
      (plan_in PlanState.pending)
plan_IsAccepted = record {
  found = found_pending;
  state = refl;
  in_time = omega arith;
  hash = rw items_of_plan refl;
  fresh = rw items_of_plan (refl, tt);
  planned = rw items_of_plan refl;
}

accepts_valid_plan_example :
    validate toy_runtime "p1" at_three "key" 50 (plans_in PlanState.pending) ≡ (
      valid (plan_from_row toy_runtime (plan_in PlanState.pending) (merge_item ∷ [])) none,
      plans_in PlanState.pending,
    )
accepts_valid_plan_example =
    accepts_valid_plan toy_runtime "p1" at_three "key" 50
      (plan_from_row toy_runtime (plan_in PlanState.pending) (merge_item ∷ []))
      (plans_in PlanState.pending) (plan_in PlanState.pending) plan_IsAccepted no_key_used
