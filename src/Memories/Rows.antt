-- ===== src/Memories/Rows.antt =====
-- The rows of `memory_entries`, `memory_revisions`, `memory_fts`, `audit_events` and `project_scopes` of
-- src/sqlite-store.ts, with the types of src/domain.ts.
use agent_recall.Common.{ℕ, String, Bool, ◌&&◌, Option, List, ◌==◌, str_eq}
use agent_recall.Common.Table.{first_where}
use agent_recall.Common.Effect.{Effect}
use agent_recall.Budget.Rows.{MemoryStatus, SourceKind, MemoryBudget, MemoryEntry, Candidate}
use agent_recall.Scopes.Inputs.{MemoryScope}
use agent_recall.Scopes.Rows.{ScopeDb}

pub data MemoryType : Type 0 where
  preference procedure fact decision lesson debugging constraint : MemoryType

pub data MemoryTier : Type 0 where
  core working archival : MemoryTier

pub data MemorySensitivity : Type 0 where
  normal private restricted : MemorySensitivity

pub data MemoryTrustLevel : Type 0 where
  user_confirmed agent_observed inferred imported : MemoryTrustLevel

-- a row of `memory_entries`, decoded; the per-actor access times are in another table
pub record EntryRow : Type 0 where
  pub id : String
  pub scope : MemoryScope
  pub project_id : Option String
  pub project_path : Option String
  pub type : MemoryType
  pub topic : String
  pub title : String
  pub body : String
  pub tags : List String
  pub source_kind : SourceKind
  pub source_ref : Option String
  pub importance : ℕ
  pub confidence : ℕ
  pub status : MemoryStatus
  pub created_at : String
  pub updated_at : String
  pub last_accessed_at : Option String
  pub access_count : ℕ
  pub expires_at : Option String
  pub review_after : Option String
  pub supersedes : List String
  pub superseded_by : Option String
  pub token_estimate : ℕ
  pub char_count : ℕ
  pub revision : ℕ
  pub writer_actor_id : String
  pub content_hash : Option String
  pub pinned : Bool
  pub trust_level : MemoryTrustLevel
  pub sensitivity : MemorySensitivity
  pub tier : MemoryTier
  pub valid_from : Option String
  pub valid_until : Option String
  pub deleted_at : Option String
  pub metadata_json : String

-- the snapshot is the entry that `JSON.stringify` gets
pub record RevisionRow : Type 0 where
  pub memory_id : String
  pub revision : ℕ
  pub snapshot : EntryRow
  pub changed_by : String
  pub request_id : String
  pub change_reason : Option String
  pub created_at : String

pub record FtsRow : Type 0 where
  pub id : String
  pub scope : MemoryScope
  pub project_id : String
  pub topic : String
  pub title : String
  pub body : String
  pub tags : String

pub data AuditEventName : Type 0 where
  created updated archived superseded forgotten write_rejected : AuditEventName

-- without the random id and the metadata
pub record AuditRow : Type 0 where
  pub memory_id : Option String
  pub scope : MemoryScope
  pub project_id : Option String
  pub event : AuditEventName
  pub reason : Option String
  pub actor : String
  pub created_at : String

pub record ProjectScope : Type 0 where
  pub project_id : String
  pub canonical_path : String
  pub display_name : String
  pub created_at : String
  pub updated_at : String
  pub budget : MemoryBudget

pub record MemoryDb : Type 0 where
  pub entries : List EntryRow
  pub revisions : List RevisionRow
  pub fts : List FtsRow
  pub audit : List AuditRow
  pub projects : List ProjectScope
  pub scopes : ScopeDb

pub data MemoryError : Type 0 where
  constraint_failed concurrent_revision scope_error : MemoryError

abbrev pub MemoryEffect : Type 0 → Type 0
MemoryEffect A = Effect MemoryDb MemoryError A

abbrev pub has_id : String → EntryRow → Bool
has_id id row = str_eq row.id id

abbrev pub get_entry : String → MemoryDb → Option EntryRow
get_entry id db = first_where (has_id id) db.entries

abbrev pub is_revision : String → ℕ → RevisionRow → Bool
is_revision id n row = str_eq row.memory_id id && row.revision == n

abbrev pub is_indexed : String → FtsRow → Bool
is_indexed id row = str_eq row.id id

abbrev pub is_project : String → ProjectScope → Bool
is_project id row = str_eq row.project_id id

-- the fields that the budget governor reads
abbrev pub budget_entry : EntryRow → MemoryEntry
budget_entry row = record {
  id = row.id;
  topic = row.topic;
  title = row.title;
  body = row.body;
  tags = row.tags;
  source_kind = row.source_kind;
  importance = row.importance;
  confidence = row.confidence;
  status = row.status;
  updated_at = row.updated_at;
  access_count = row.access_count;
  expires_at = row.expires_at;
  review_after = row.review_after;
  char_count = row.char_count;
}

abbrev pub budget_candidate : EntryRow → Candidate
budget_candidate row = record {
  topic = row.topic;
  title = row.title;
  body = row.body;
  tags = row.tags;
  status = row.status;
  char_count = row.char_count;
}
