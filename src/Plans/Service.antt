-- ===== src/Plans/Service.antt =====
-- `MaintenancePlanStore` of src/maintenance-plan-store.ts. The minted plan id and the clock are
-- arguments.
use agent_recall.Common.{
  ℕ, ◌+◌, ◌*◌, String, Bool, true, false, ◌&&◌, ◌||◌, not, Option, none, some, List, [], ◌∷◌, ◌==◌,
  leb, if◌then◌else◌, is_some, get_or, map, str_eq,
}
use agent_recall.Common.Effect.{◌>>=◌, ◌>>◌, pure, stateful}
use agent_recall.Common.Table.{select_where, exists_where}
use agent_recall.Common.Order.{order_with}
use agent_recall.Plans.Rows.{
  PlanState, pending, applying, completed, expired, rejected, PlanRisk, ActionType, PlanScope,
  PlanRow, ItemRow, PlanDb, HashedItem, AppliedResult, Runtime, is_pending, is_expired,
}
use agent_recall.Plans.Store.{
  PlanEffect, create_plan, get_row, set_state, mark_plan_applying, mark_plan_completed,
  expire_old_plans, get_items, applied_result, applied_keys,
}

pub record PlanAction (Evidence : Type 0) : Type 0 where
  pub kind : ActionType
  pub target_memory_id : String
  pub expected_revision : ℕ
  pub evidence : Evidence
  pub risk : PlanRisk

pub record MaintenancePlan (Evidence : Type 0) : Type 0 where
  pub plan_id : String
  pub scope : PlanScope
  pub project_id : Option String
  pub risk : PlanRisk
  pub created_at : ℕ
  pub expires_at : ℕ
  pub expected_revisions : List (String × ℕ)
  pub proposed_actions : List (PlanAction Evidence)
  pub summary : List String
  pub plan_hash : String

pub record CreatePlanInput (Evidence : Type 0) : Type 0 where
  pub scope : PlanScope
  pub project_id : Option String
  pub risk : PlanRisk
  pub creator_actor_id : String
  pub ttl_seconds : Option ℕ
  pub expected_revisions : List (String × ℕ)
  pub proposed_actions : List (PlanAction Evidence)
  pub summary : List String

abbrev pub default_ttl_seconds : ℕ
default_ttl_seconds = 86400

-- a caller's revision of a memory; `applyMaintenance` passes -1 for one that it does not see
pub data Revision : Type 0 where
  at_revision : ℕ → Revision
  minus_one : Revision

pub data PlanError : Type 0 where
  plan_not_found plan_expired plan_completed plan_hash_drift stale_revision : PlanError
  idempotency_mismatch unplanned_target : PlanError

pub data Details : Type 0 where
  no_details in_applying_state in_rejected_state : Details
  expired_at : ℕ → Details
  completed_with_keys : List String → Details
  unplanned_memory_ids drifted_memory_ids : List String → Details
  applied_under : List String → String → Details

pub data Validation (Evidence : Type 0) : Type 0 where
  valid : MaintenancePlan Evidence → Option AppliedResult → Validation Evidence
  refused : PlanError → Details → Validation Evidence

abbrev pub action_hashed : {Evidence : Type 0} → PlanAction Evidence → HashedItem
action_hashed a = record {
  target_memory_id = a.target_memory_id;
  expected_revision = a.expected_revision;
  action_type = a.kind;
  risk = a.risk;
}

abbrev pub item_hashed : ItemRow → HashedItem
item_hashed i = record {
  target_memory_id = i.target_memory_id;
  expected_revision = i.expected_revision;
  action_type = i.action_type;
  risk = i.risk;
}

abbrev pub same_revision : ℕ → Revision → Bool
same_revision expected (at_revision n) = n == expected
same_revision expected minus_one = false

abbrev pub differs : ℕ → Option Revision → Bool
differs expected none = false
differs expected (some revision) = not (same_revision expected revision)

module _ (current : String → Option Revision) where
  -- the caller gave no revision for the target
  abbrev pub is_unplanned : ItemRow → Bool
  is_unplanned item = not (is_some (current item.target_memory_id))

  abbrev pub is_drifted : ItemRow → Bool
  is_drifted item = differs item.expected_revision (current item.target_memory_id)

abbrev pub targets : List ItemRow → List String
targets = map (λ item. item.target_memory_id)

abbrev pub is_nil : {A : Type 0} → List A → Bool
is_nil [] = true
is_nil (x ∷ xs) = false

module _ {Evidence : Type 0} (runtime : Runtime Evidence) where
  abbrev pub action_of_item : ItemRow → PlanAction Evidence
  action_of_item i = record {
    kind = i.action_type;
    target_memory_id = i.target_memory_id;
    expected_revision = i.expected_revision;
    evidence = get_or (runtime.read_evidence i.evidence_json) runtime.no_evidence;
    risk = i.risk;
  }

  unfoldable pub plan_from_row : PlanRow → List ItemRow → MaintenancePlan Evidence
  plan_from_row row items = record {
    plan_id = row.plan_id;
    scope = row.scope;
    project_id = row.project_id;
    risk = row.risk;
    created_at = row.created_at;
    expires_at = row.expires_at;
    expected_revisions = map (λ i. (i.target_memory_id, i.expected_revision)) items;
    proposed_actions = map action_of_item items;
    summary = get_or (runtime.read_summary row.summary_json) [];
    plan_hash = row.plan_hash;
  }

  abbrev pub sorted_actions : List (PlanAction Evidence) → List (PlanAction Evidence)
  sorted_actions = order_with (λ a b. not (runtime.js_lt b.target_memory_id a.target_memory_id))

  unfoldable pub pending_plan : CreatePlanInput Evidence → String → ℕ → PlanRow
  pending_plan input plan_id now = record {
    plan_id = plan_id;
    plan_hash = runtime.hash_items (map action_hashed (sorted_actions input.proposed_actions));
    creator_actor_id = input.creator_actor_id;
    created_at = now;
    expires_at = now + get_or input.ttl_seconds default_ttl_seconds * 1000;
    completed_at = none;
    applied_result_json = none;
    idempotency_key_used = none;
    state = pending;
    summary_json = runtime.write_summary input.summary;
    scope = input.scope;
    project_id = input.project_id;
    risk = input.risk;
  }

  abbrev pub item_of_action : String → PlanAction Evidence → ItemRow
  item_of_action plan_id a = record {
    plan_id = plan_id;
    target_memory_id = a.target_memory_id;
    expected_revision = a.expected_revision;
    action_type = a.kind;
    evidence_json = runtime.write_evidence a.evidence;
    risk = a.risk;
  }

  abbrev pub created : CreatePlanInput Evidence → PlanRow → MaintenancePlan Evidence
  created input row = record {
    plan_id = row.plan_id;
    scope = input.scope;
    project_id = input.project_id;
    risk = input.risk;
    created_at = row.created_at;
    expires_at = row.expires_at;
    expected_revisions = input.expected_revisions;
    proposed_actions = sorted_actions input.proposed_actions;
    summary = input.summary;
    plan_hash = row.plan_hash;
  }

  unfoldable pub create :
      CreatePlanInput Evidence → String → ℕ → PlanEffect (MaintenancePlan Evidence)
  unfolding create_plan
  create input plan_id now = do
    _ ← stateful (expire_old_plans now)
    create_plan (pending_plan input plan_id now)
        (map (item_of_action plan_id) (sorted_actions input.proposed_actions))
    pure (created input (pending_plan input plan_id now))

  abbrev pub plan_of : String → PlanDb → Option PlanRow → Option (MaintenancePlan Evidence)
  plan_of id db none = none
  plan_of id db (some row) = some (plan_from_row row (get_items runtime id db))

  unfoldable pub get : String → PlanDb → Option (MaintenancePlan Evidence)
  get id db = plan_of id db (get_row id db)

  abbrev pub or_mismatch : String → PlanRow → PlanDb → Option AppliedResult → Validation Evidence
  or_mismatch id row db (some stored) =
      valid (plan_from_row row (get_items runtime id db)) (some stored)
  or_mismatch id row db none =
      refused idempotency_mismatch (completed_with_keys (applied_keys runtime id db))

  -- the items' revisions and the keys under which the plan was applied
  unfoldable pub validate_items :
      String → (String → Option Revision) → String → PlanRow → PlanDb → Validation Evidence
  validate_items id current key row db =
      let items = get_items runtime id db in
      let keys = applied_keys runtime id db in
      if not (is_nil (select_where (is_unplanned current) items))
      then refused unplanned_target
          (unplanned_memory_ids (targets (select_where (is_unplanned current) items)))
      else if not (is_nil (select_where (is_drifted current) items))
      then refused stale_revision
          (drifted_memory_ids (targets (select_where (is_drifted current) items)))
      else if not (is_nil keys) && not (exists_where (λ k. str_eq k key) keys)
      then refused idempotency_mismatch (applied_under keys key)
      else valid (plan_from_row row items) none

  unfoldable pub validate_pending :
      String → (String → Option Revision) → String → PlanRow → PlanDb → Validation Evidence × PlanDb
  unfolding validate_items
  validate_pending id current key row db =
      if str_eq (runtime.hash_items (map item_hashed (get_items runtime id db))) row.plan_hash
      then (validate_items id current key row db, db)
      else (refused plan_hash_drift no_details, set_state id rejected db)

  -- a row that is not expired
  abbrev pub validate_live :
      PlanState
      → String
      → (String → Option Revision)
      → String
      → PlanRow
      → PlanDb
      → Validation Evidence × PlanDb
  validate_live completed id current key row db =
      (or_mismatch id row db (applied_result runtime id key db), db)
  validate_live applying id current key row db = (refused plan_expired in_applying_state, db)
  validate_live rejected id current key row db = (refused plan_hash_drift in_rejected_state, db)
  validate_live _ id current key row db = validate_pending id current key row db

  abbrev pub validate_row :
      String
      → (String → Option Revision)
      → String
      → ℕ
      → PlanDb
      → Option PlanRow
      → Validation Evidence × PlanDb
  validate_row id current key now db none = (refused plan_not_found no_details, db)
  validate_row id current key now db (some row) =
      if is_expired row.state || leb row.expires_at now
      then (
        refused plan_expired (expired_at row.expires_at),
        if is_pending row.state then set_state id expired db else db,
      )
      else validate_live row.state id current key row db

  unfoldable pub validate :
      String → (String → Option Revision) → String → ℕ → PlanDb → Validation Evidence × PlanDb
  unfolding validate_pending
  validate id current key now db = validate_row id current key now db (get_row id db)

  unfoldable pub mark_completed : String → String → AppliedResult → ℕ → PlanDb → PlanDb
  mark_completed id key result now = mark_plan_completed id key (runtime.write_result result) now

abbrev pub mark_applying : String → PlanDb → Bool × PlanDb
mark_applying = mark_plan_applying

abbrev pub mark_rejected : String → PlanDb → PlanDb
mark_rejected id = set_state id rejected
