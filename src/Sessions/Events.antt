-- ===== src/Sessions/Events.antt =====
-- `persistEvent` and `splitForBlob` of src/sessions/service.ts.
use agent_recall.Common.{
  ℕ, ◌+◌, ◌*◌, String, Bool, true, false, Option, none, some, List, [], ◌∷◌, ◌++◌, ltb,
  if◌then◌else◌,
}
use Prim.Native.String
use agent_recall.Common.Effect.{◌>>=◌, ◌>>◌, pure, stateful}
use agent_recall.Sessions.Rows.{
  RedactionFlag, contains_secret, risk_injection, truncated, NormalisedEvent, NormalisedBundle,
  SessionEventRow, BlobRow, SessionDb, SessionEffect, insert_session_event,
  upsert_session_event_blob,
}
use agent_recall.Sessions.Plan.{head_tail_window_bytes}

-- what the platform and the detectors compute
pub record Runtime : Type 0 where
  -- SHA-256 of the JSON text of a bundle
  pub hash_bundle : NormalisedBundle → String
  pub detect_secrets : String → Bool
  pub matches_injection : String → Bool
  -- `slice(0, n)` and `slice(-n)`, which count UTF-16 units
  pub slice_head : ℕ → String → String
  pub slice_tail : ℕ → String → String

module _ (rt : Runtime) where
  abbrev pub is_long : String → Bool
  is_long body = ltb (head_tail_window_bytes * 2) (String.len body)

  -- `splitForBlob`
  unfoldable pub blob_of : String → String → String → BlobRow
  blob_of digest body now = record {
    digest = digest;
    size_bytes = String.len body;
    head_bytes = if is_long body then rt.slice_head head_tail_window_bytes body else body;
    tail_bytes = if is_long body then rt.slice_tail head_tail_window_bytes body else "";
    truncated = is_long body;
    stored_at = now;
  }

  abbrev pub flag_if : Bool → RedactionFlag → List RedactionFlag
  flag_if true flag = flag ∷ []
  flag_if false flag = []

  abbrev pub flags_of : Option String → List RedactionFlag
  flags_of none = []
  flags_of (some body) =
      flag_if (rt.detect_secrets body) contains_secret
      ++ flag_if (rt.matches_injection body) risk_injection
      ++ flag_if (is_long body) truncated

  unfoldable pub event_row : String → NormalisedEvent → SessionEventRow
  event_row session_id ev = record {
    event_id = ev.event_id;
    session_id = session_id;
    sequence = ev.sequence;
    turn_id = ev.turn_id;
    event_type = ev.event_type;
    role = ev.role;
    content_digest = ev.content_digest;
    content_blob_ref = some ev.content_digest;
    tool_name = ev.tool_name;
    tool_call_id = ev.tool_call_id;
    tool_status = ev.tool_status;
    timestamp = ev.timestamp;
    sensitivity = ev.sensitivity;
    redaction_flags = flags_of ev.content;
    metadata = ev.metadata;
  }

  abbrev pub count_if : Bool → ℕ → ℕ
  count_if true n = n + 1
  count_if false n = n

  -- the counters and the blob
  unfoldable pub keep_content : NormalisedEvent → String → Option String → SessionDb → SessionDb
  unfolding blob_of upsert_session_event_blob
  keep_content ev now none db = db
  keep_content ev now (some body) db =
      upsert_session_event_blob (blob_of ev.content_digest body now) (record db {
        secret_leak_count = count_if (rt.detect_secrets body) db.secret_leak_count;
        injection_bypass_count = count_if (rt.matches_injection body) db.injection_bypass_count;
      })

  unfoldable pub persist_event : String → String → NormalisedEvent → SessionEffect (Unit {0})
  unfolding keep_content event_row insert_session_event
  persist_event session_id now ev = do
    _ ← stateful (λ db. (tt, keep_content ev now ev.content db))
    insert_session_event (event_row session_id ev)

  unfoldable pub persist_events : String → String → List NormalisedEvent → SessionEffect (Unit {0})
  unfolding persist_event
  persist_events session_id now [] = pure tt
  persist_events session_id now (ev ∷ events) =
      persist_event session_id now ev >> persist_events session_id now events
