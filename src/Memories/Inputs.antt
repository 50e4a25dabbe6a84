-- ===== src/Memories/Inputs.antt =====
-- What the callers of src/services/memory-write-service.ts give and get: the validated inputs of
-- src/write-validator.ts, the request context, and the results.
use agent_recall.Common.{ℕ, String, Bool, Option, List}
use agent_recall.Budget.Rows.{MemoryStatus, SourceKind}
use agent_recall.Scopes.Inputs.{MemoryScope, ScopeInput}
use agent_recall.Memories.Rows.{MemoryType, MemoryTier, MemorySensitivity, MemoryTrustLevel}

pub data WritableStatus : Type 0 where
  active archived : WritableStatus

pub record ValidatedRememberInput : Type 0 where
  pub scope_input : ScopeInput
  pub type : MemoryType
  pub topic : String
  pub title : String
  pub body : String
  pub tags : List String
  pub source_kind : SourceKind
  pub source_ref : Option String
  pub importance : ℕ
  pub confidence : ℕ
  pub status : WritableStatus
  pub expires_at : Option String
  pub review_after : Option String
  pub supersedes : List String
  pub token_estimate : ℕ
  pub char_count : ℕ
  pub pinned : Bool
  pub trust_level : MemoryTrustLevel
  pub sensitivity : MemorySensitivity
  pub tier : MemoryTier
  pub valid_from : Option String
  pub valid_until : Option String

-- What is read before the validation. The validator reads the other fields too, which stand in `rest`
-- as the caller wrote them.
pub record RememberInput : Type 0 where
  pub scope : MemoryScope
  pub project_id : Option String
  pub supersedes : Option (List String)
  pub confirm_write : Bool
  pub trust_level : Option MemoryTrustLevel
  pub sensitivity : Option MemorySensitivity
  pub capability : Option String
  pub rest : String

pub record UpdateInput : Type 0 where
  pub topic : Option String
  pub title : Option String
  pub body : Option String
  pub tags : Option (List String)
  pub importance : Option ℕ
  pub confidence : Option ℕ
  pub status : Option WritableStatus
  pub expires_at : Option String
  pub review_after : Option String
  pub tier : Option MemoryTier
  pub pinned : Option Bool
  pub valid_from : Option String
  pub valid_until : Option String
  pub sensitivity : Option MemorySensitivity
  pub trust_level : Option MemoryTrustLevel
  pub capability : Option String
  pub expected_revision : Option ℕ

pub record RequestContext : Type 0 where
  pub actor_id : String
  pub request_id : String

pub data CapabilityType : Type 0 where
  trust_promotion sensitivity_restricted : CapabilityType

pub data WriteError : Type 0 where
  not_found invalid_state invalid_schema invalid_scope secret_detected unauthorized : WriteError
  capacity_exceeded duplicate_candidate stale_revision project_identity_conflict : WriteError
  idempotency_mismatch idempotency_in_flight : WriteError

-- the code, as the audit log has it
abbrev pub error_name : WriteError → String
error_name not_found = "not_found"
error_name invalid_state = "invalid_state"
error_name invalid_schema = "invalid_schema"
error_name invalid_scope = "invalid_scope"
error_name secret_detected = "secret_detected"
error_name unauthorized = "unauthorized"
error_name capacity_exceeded = "capacity_exceeded"
error_name duplicate_candidate = "duplicate_candidate"
error_name stale_revision = "stale_revision"
error_name project_identity_conflict = "project_identity_conflict"
error_name idempotency_mismatch = "idempotency_mismatch"
error_name idempotency_in_flight = "idempotency_in_flight"

pub data Result (A : Type 0) : Type 0 where
  ok : A → Result A
  err : WriteError → Result A

abbrev pub stored_status : WritableStatus → MemoryStatus
stored_status active = MemoryStatus.active
stored_status archived = MemoryStatus.archived
