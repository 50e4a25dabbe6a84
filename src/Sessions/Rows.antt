-- ===== src/Sessions/Rows.antt =====
-- The bundles of src/sessions/service.ts, the tables `sessions`, `session_events` and
-- `session_event_blobs`, and the statements of src/sqlite-store.ts on them. A JSON column holds the value
-- that its text stands for.
use agent_recall.Common.{
  ℕ, ◌==◌, String, Bool, ◌&&◌, ◌||◌, not, Option, List, str_eq, if◌then◌else◌,
}
use agent_recall.Common.Table.{first_where, exists_where, insert_row}
use agent_recall.Common.Effect.{Effect, returned, thrown}
use agent_recall.Scopes.Rows.{ScopeDb}

pub data SessionScope : Type 0 where
  global project : SessionScope

pub data Sensitivity : Type 0 where
  normal private restricted : Sensitivity

pub data RedactionFlag : Type 0 where
  contains_secret risk_injection truncated : RedactionFlag

pub record NormalisedEvent : Type 0 where
  pub event_id : String
  pub sequence : ℕ
  pub turn_id : String
  pub event_type : String
  pub role : Option String
  pub content : Option String
  pub content_ref_digest : Option String
  pub content_digest : String
  pub tool_name : Option String
  pub tool_call_id : Option String
  pub tool_status : Option String
  pub timestamp : String
  pub sensitivity : Sensitivity
  pub metadata : String

pub record NormalisedBundle : Type 0 where
  pub bundle_id : String
  pub source_kind : String
  pub source_version : String
  pub source_instance_id : String
  pub source_session_id : String
  pub project_id : Option String
  pub actor_id : String
  pub client_name : String
  pub client_version : String
  pub scope : SessionScope
  pub sensitivity : Sensitivity
  pub started_at : String
  pub ended_at : Option String
  pub adapter_id : String
  pub adapter_version : String
  pub events : List NormalisedEvent

pub record PlanCounts : Type 0 where
  pub accepted : ℕ
  pub redacted : ℕ
  pub skipped : ℕ
  pub rejected : ℕ

pub record RedactionSummary : Type 0 where
  pub per_event_cap_bytes : ℕ
  pub per_session_cap_bytes : ℕ
  pub events_with_secret : ℕ

pub record SessionRow : Type 0 where
  pub session_id : String
  pub source_kind : String
  pub source_version : String
  pub source_instance_id : String
  pub source_session_id : String
  pub scope : SessionScope
  pub project_id : Option String
  pub actor_id : String
  pub client_name : String
  pub client_version : String
  pub started_at : String
  pub ended_at : Option String
  pub sensitivity : Sensitivity
  pub bundle_hash : String
  pub adapter_id : String
  pub adapter_version : String
  pub ingestion_plan : PlanCounts
  pub redaction_summary : RedactionSummary
  pub ingested_at : String
  pub retention_until : Option String

pub record SessionEventRow : Type 0 where
  pub event_id : String
  pub session_id : String
  pub sequence : ℕ
  pub turn_id : String
  pub event_type : String
  pub role : Option String
  pub content_digest : String
  pub content_blob_ref : Option String
  pub tool_name : Option String
  pub tool_call_id : Option String
  pub tool_status : Option String
  pub timestamp : String
  pub sensitivity : Sensitivity
  pub redaction_flags : List RedactionFlag
  pub metadata : String

pub record BlobRow : Type 0 where
  pub digest : String
  pub size_bytes : ℕ
  pub head_bytes : String
  pub tail_bytes : String
  pub truncated : Bool
  pub stored_at : String

-- the tables, and the counters of the safety surface
pub record SessionDb : Type 0 where
  pub sessions : List SessionRow
  pub session_events : List SessionEventRow
  pub blobs : List BlobRow
  pub scopes : ScopeDb
  pub secret_leak_count : ℕ
  pub injection_bypass_count : ℕ

pub data IngestError : Type 0 where
  internal_error usage_error bundle_hash_drift constraint_failed : IngestError

abbrev pub SessionEffect : Type 0 → Type 0
SessionEffect A = Effect SessionDb IngestError A

abbrev pub has_session_id : String → SessionRow → Bool
has_session_id id row = str_eq row.session_id id

abbrev pub has_source : String → String → String → String → SessionRow → Bool
has_source kind version instance session row =
    str_eq row.source_kind kind
    && str_eq row.source_version version
    && str_eq row.source_instance_id instance
    && str_eq row.source_session_id session

abbrev pub of_bundle : NormalisedBundle → SessionRow → Bool
of_bundle b = has_source b.source_kind b.source_version b.source_instance_id b.source_session_id

unfoldable pub get_session_by_source_identity : NormalisedBundle → SessionDb → Option SessionRow
get_session_by_source_identity b db = first_where (of_bundle b) db.sessions

unfoldable pub get_session : String → SessionDb → Option SessionRow
get_session id db = first_where (has_session_id id) db.sessions

-- the PRIMARY KEY or the UNIQUE source identity is taken
abbrev pub breaks_session_key : SessionRow → SessionRow → Bool
breaks_session_key new row =
    has_session_id new.session_id row
    || has_source new.source_kind new.source_version new.source_instance_id new.source_session_id
        row

unfoldable pub insert_session : SessionRow → SessionEffect (Unit {0})
insert_session row db =
    if exists_where (breaks_session_key row) db.sessions
    then (thrown constraint_failed, db)
    else (returned tt, record db { sessions = insert_row row db.sessions })

abbrev pub breaks_event_key : SessionEventRow → SessionEventRow → Bool
breaks_event_key new row =
    str_eq row.event_id new.event_id
    || (str_eq row.session_id new.session_id && row.sequence == new.sequence)

-- a key is taken, or the FOREIGN KEY on the session is broken
abbrev pub breaks_event_rules : SessionEventRow → SessionDb → Bool
breaks_event_rules row db =
    exists_where (breaks_event_key row) db.session_events
    || not (exists_where (has_session_id row.session_id) db.sessions)

unfoldable pub insert_session_event : SessionEventRow → SessionEffect (Unit {0})
insert_session_event row db =
    if breaks_event_rules row db
    then (thrown constraint_failed, db)
    else (returned tt, record db { session_events = insert_row row db.session_events })

abbrev pub has_digest : String → BlobRow → Bool
has_digest digest row = str_eq row.digest digest

-- `ON CONFLICT(digest) DO NOTHING`
unfoldable pub upsert_session_event_blob : BlobRow → SessionDb → SessionDb
upsert_session_event_blob row db =
    if exists_where (has_digest row.digest) db.blobs
    then db
    else record db { blobs = insert_row row db.blobs }
