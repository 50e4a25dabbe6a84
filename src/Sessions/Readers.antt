-- ===== src/Sessions/Readers.antt =====
-- `inspect`, `getEventBody`, `list` and `forget` of src/sessions/service.ts.
use agent_recall.Common.{String, Bool, not, Option, none, some, List, ltb, str_eq, if◌then◌else◌}
use Prim.Native.String
use agent_recall.Common.Table.{first_where, select_where, count_where, exists_where}
use agent_recall.Sessions.Rows.{
  PlanCounts, SessionRow, SessionEventRow, BlobRow, SessionDb, get_session, has_session_id,
  has_digest,
}
use agent_recall.Sessions.Ingest.{list_session_events, of_session}

pub record SessionInspection : Type 0 where
  pub session : SessionRow
  pub events : List SessionEventRow
  pub plan : PlanCounts

unfoldable pub inspect_session : String → SessionDb → Option SessionInspection
unfolding get_session list_session_events
inspect_session id db = elim (get_session id db) [
  | none ↦ none
  | some row ↦
      some (record { session = row; events = list_session_events id db; plan = row.ingestion_plan })
]

abbrev pub joined_body : BlobRow → String
joined_body blob =
    if str_eq blob.tail_bytes ""
    then blob.head_bytes
    else String.◌++◌ blob.head_bytes (String.◌++◌ "\n...[truncated]...\n" blob.tail_bytes)

abbrev pub body_at : Option String → SessionDb → Option String
body_at none db = none
body_at (some digest) db = elim (first_where (has_digest digest) db.blobs) [
  | none ↦ none
  | some blob ↦ some (joined_body blob)
]

abbrev pub has_event_id : String → SessionEventRow → Bool
has_event_id id row = str_eq row.event_id id

unfoldable pub get_event_body : String → String → SessionDb → Option String
unfolding list_session_events
get_event_body session_id event_id db =
    elim (first_where (has_event_id event_id) (list_session_events session_id db)) [
      | none ↦ none
      | some row ↦ body_at row.content_blob_ref db
    ]

-- `DELETE` with the cascade to the events; blobs stay
unfoldable pub forget_session : String → SessionDb → Bool × SessionDb
forget_session id db = (
  ltb 0 (count_where (has_session_id id) db.sessions),
  record db {
    sessions = select_where (λ row. not (has_session_id id row)) db.sessions;
    session_events =
        if exists_where (has_session_id id) db.sessions
        then select_where (λ row. not (of_session id row)) db.session_events
        else db.session_events;
  },
)
