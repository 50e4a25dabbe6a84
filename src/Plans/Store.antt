-- ===== src/Plans/Store.antt =====
-- The statements of src/sqlite-store.ts on the maintenance plans.
use agent_recall.Common.{
  ℕ, String, Bool, false, ◌&&◌, Option, none, some, List, [], ◌∷◌, ◌==◌, leb, if◌then◌else◌, str_eq,
}
use agent_recall.Common.Effect.{Effect, returned, thrown, ◌>>=◌, pure}
use agent_recall.Common.Table.{
  first_where, select_where, update_where, count_where, exists_where, insert_row,
}
use agent_recall.Common.Order.{order_with}
use agent_recall.Plans.Rows.{
  PlanState, PlanRow, ItemRow, AuditRow, PlanDb, AppliedResult, AuditMeta, Runtime, is_pending,
  is_applying, is_completed,
}

-- the error of a PRIMARY KEY that is there already
pub data PlanFailure : Type 0 where
  constraint_failed : PlanFailure

abbrev pub PlanEffect : Type 0 → Type 0
PlanEffect A = Effect PlanDb PlanFailure A

abbrev pub has_plan_id : String → PlanRow → Bool
has_plan_id id row = str_eq row.plan_id id

abbrev pub of_plan : String → ItemRow → Bool
of_plan id item = str_eq item.plan_id id

abbrev pub same_item : ItemRow → ItemRow → Bool
same_item a b = str_eq b.plan_id a.plan_id && str_eq b.target_memory_id a.target_memory_id

-- the first statement of `createMaintenancePlan`
unfoldable pub insert_plan : PlanRow → PlanEffect (Unit {0})
insert_plan row db =
    if exists_where (has_plan_id row.plan_id) db.plans
    then (thrown constraint_failed, db)
    else (returned tt, record db { plans = insert_row row db.plans })

unfoldable pub insert_item : ItemRow → PlanEffect (Unit {0})
insert_item item db =
    if exists_where (same_item item) db.items
    then (thrown constraint_failed, db)
    else (returned tt, record db { items = insert_row item db.items })

unfoldable pub insert_items : List ItemRow → PlanEffect (Unit {0})
unfolding insert_item
insert_items [] = pure tt
insert_items (item ∷ items) = insert_item item >>= λ _. insert_items items

-- The inserts are committed one by one.
unfoldable pub create_plan : PlanRow → List ItemRow → PlanEffect (Unit {0})
unfolding insert_plan insert_items
create_plan row items = insert_plan row >>= λ _. insert_items items

abbrev pub get_row : String → PlanDb → Option PlanRow
get_row id db = first_where (has_plan_id id) db.plans

abbrev pub with_state : PlanState → PlanRow → PlanRow
with_state state row = record row { state = state }

unfoldable pub set_state : String → PlanState → PlanDb → PlanDb
set_state id state db = record db {
  plans = update_where (has_plan_id id) (with_state state) db.plans;
}

abbrev pub can_apply : String → PlanRow → Bool
can_apply id row = has_plan_id id row && is_pending row.state

unfoldable pub mark_plan_applying : String → PlanDb → Bool × PlanDb
mark_plan_applying id db = (
  count_where (can_apply id) db.plans == 1,
  record db { plans = update_where (can_apply id) (with_state PlanState.applying) db.plans },
)

abbrev pub can_complete_plan : String → PlanRow → Bool
can_complete_plan id row = has_plan_id id row && is_applying row.state

abbrev pub plan_completed_at : String → String → ℕ → PlanRow → PlanRow
plan_completed_at key result_json at row = record row {
  state = PlanState.completed;
  completed_at = some at;
  applied_result_json = some result_json;
  idempotency_key_used = some key;
}

unfoldable pub mark_plan_completed : String → String → String → ℕ → PlanDb → PlanDb
mark_plan_completed id key result_json at db = record db {
  plans = update_where (can_complete_plan id) (plan_completed_at key result_json at) db.plans;
}

abbrev pub is_due : ℕ → PlanRow → Bool
is_due now row = is_pending row.state && leb row.expires_at now

unfoldable pub expire_old_plans : ℕ → PlanDb → ℕ × PlanDb
expire_old_plans now db = (
  count_where (is_due now) db.plans,
  record db { plans = update_where (is_due now) (with_state PlanState.expired) db.plans },
)

abbrev pub equals_text : Option String → String → Bool
equals_text none text = false
equals_text (some value) text = str_eq value text

module _ {Evidence : Type 0} (runtime : Runtime Evidence) where
  -- the items of `getMaintenancePlan`
  unfoldable pub get_items : String → PlanDb → List ItemRow
  get_items id db =
      order_with (λ a b. runtime.sql_le a.target_memory_id b.target_memory_id)
        (select_where (of_plan id) db.items)

  -- a completed row has its result, so NULL is never read
  abbrev pub read_stored : Option String → Option AppliedResult
  read_stored none = none
  read_stored (some json) = runtime.read_result json

  abbrev pub result_of_row : String → Option PlanRow → Option AppliedResult
  result_of_row key none = none
  result_of_row key (some row) =
      if equals_text row.idempotency_key_used key then read_stored row.applied_result_json else none

  unfoldable pub applied_result : String → String → PlanDb → Option AppliedResult
  applied_result id key db =
      result_of_row key (first_where (λ row. has_plan_id id row && is_completed row.state) db.plans)

  -- the key of one audit event, where it says that this plan was applied
  abbrev pub applied_key : String → Option AuditMeta → Option String
  applied_key id none = none
  applied_key id (some meta) =
      if equals_text meta.plan_id id && meta.ok then meta.idempotency_key else none

  abbrev pub push_key : Option String → List String → List String
  push_key none keys = keys
  push_key (some key) keys = key ∷ keys

  unfoldable pub keys_of_events : String → List AuditRow → List String
  keys_of_events id [] = []
  keys_of_events id (row ∷ rows) =
      let keys = keys_of_events id rows in
      if str_eq row.event "apply_maintenance"
      then push_key (applied_key id (runtime.read_meta row.metadata_json)) keys
      else keys

  unfoldable pub applied_keys : String → PlanDb → List String
  unfolding keys_of_events
  applied_keys id db = keys_of_events id db.audit_events
