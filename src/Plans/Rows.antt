-- ===== src/Plans/Rows.antt =====
-- The rows of `maintenance_plans`, `maintenance_plan_items` and `audit_events`
-- (src/sqlite-store.ts) and the types of src/maintenance-plan-store.ts.
use agent_recall.Common.{ℕ, String, Bool, true, false, Option, List}

pub data PlanState : Type 0 where
  pending applying completed expired rejected : PlanState

pub data PlanRisk : Type 0 where
  low medium high : PlanRisk

pub data ActionType : Type 0 where
  supersede merge forget update retain : ActionType

pub data PlanScope : Type 0 where
  global project : PlanScope

pub record PlanRow : Type 0 where
  pub plan_id : String
  pub plan_hash : String
  pub creator_actor_id : String
  pub created_at : ℕ
  pub expires_at : ℕ
  pub completed_at : Option ℕ
  pub applied_result_json : Option String
  pub idempotency_key_used : Option String
  pub state : PlanState
  pub summary_json : String
  pub scope : PlanScope
  pub project_id : Option String
  pub risk : PlanRisk

pub record ItemRow : Type 0 where
  pub plan_id : String
  pub target_memory_id : String
  pub expected_revision : ℕ
  pub action_type : ActionType
  pub evidence_json : String
  pub risk : PlanRisk

-- the columns of an audit event that are read here
pub record AuditRow : Type 0 where
  pub event : String
  pub metadata_json : String

pub record PlanDb : Type 0 where
  pub plans : List PlanRow
  pub items : List ItemRow
  pub audit_events : List AuditRow

-- what `computePlanHash` keeps of an item
pub record HashedItem : Type 0 where
  pub target_memory_id : String
  pub expected_revision : ℕ
  pub action_type : ActionType
  pub risk : PlanRisk

-- the fields of an event's metadata that are strings, and whether `ok` is `true`
pub record AuditMeta : Type 0 where
  pub plan_id : Option String
  pub idempotency_key : Option String
  pub ok : Bool

pub record AppliedResult : Type 0 where
  pub applied : ℕ
  pub rejected : ℕ

abbrev pub is_pending : PlanState → Bool
is_pending pending = true
is_pending _ = false

abbrev pub is_applying : PlanState → Bool
is_applying applying = true
is_applying _ = false

abbrev pub is_completed : PlanState → Bool
is_completed completed = true
is_completed _ = false

abbrev pub is_expired : PlanState → Bool
is_expired expired = true
is_expired _ = false

-- JSON text, SHA-256 and the orders of strings, which the runtime and SQLite supply.
-- `read_...` is `none` where `JSON.parse` throws or the value has another shape.
pub record Runtime (Evidence : Type 0) : Type 0 where
  pub read_evidence : String → Option Evidence
  pub write_evidence : Evidence → String
  pub no_evidence : Evidence
  pub read_summary : String → Option (List String)
  pub write_summary : List String → String
  pub read_meta : String → Option AuditMeta
  pub read_result : String → Option AppliedResult
  pub write_result : AppliedResult → String
  pub hash_items : List HashedItem → String
  -- `<` of JavaScript
  pub js_lt : String → String → Bool
  -- the order of ORDER BY
  pub sql_le : String → String → Bool
