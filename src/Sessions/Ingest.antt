-- ===== src/Sessions/Ingest.antt =====
-- `ingest` of src/sessions/service.ts. Each statement commits by itself:
-- `ingest` opens no transaction.
pub mod Twice
pub mod Complete
pub mod Registered
use agent_recall.Sessions.Events.{
  Runtime, is_long, blob_of, flag_if, flags_of, event_row, count_if, keep_content, persist_event,
  persist_events,
}
use agent_recall.Common.{
  ℕ, suc, ◌+◌, ◌*◌, String, Bool, true, false, not, ◌&&◌, ◌==◌, Option, none, some, List, [], ◌∷◌,
  ◌++◌, ltb, leb, str_eq, get_or, is_some, if◌then◌else◌,
}
use Prim.Native.String
use agent_recall.Common.Table.{select_where}
use agent_recall.Common.Order.{order_with}
use agent_recall.Common.Effect.{
  Effect, Outcome, returned, thrown, ◌>>=◌, ◌>>◌, pure, throw, gets, stateful,
}
use agent_recall.Scopes.Rows.{DbError}
use agent_recall.Scopes.Resolver.{
  Host, Stamp, strict_existing, Resolution, resolved, refused, resolve,
}
use agent_recall.Sessions.Rows.{
  SessionScope, project, RedactionFlag, contains_secret, risk_injection, truncated, NormalisedEvent,
  NormalisedBundle, PlanCounts, SessionRow, SessionEventRow, BlobRow, SessionDb, IngestError,
  internal_error, usage_error, bundle_hash_drift, SessionEffect, get_session_by_source_identity,
  get_session, insert_session, insert_session_event, upsert_session_event_blob,
}
use agent_recall.Sessions.Plan.{head_tail_window_bytes, holds_secret, plan_bundle}

-- the `identityResolver` of the constructor
pub record IdentityResolver : Type 0 where
  pub host : Host
  pub allow_unbound : Bool
  pub stamp : Stamp

pub record IngestOptions : Type 0 where
  pub max_per_event_bytes : Option ℕ
  pub max_per_session_bytes : Option ℕ
  pub retention_until : Option String

-- the id and the time that are minted for a new session
pub record Minted : Type 0 where
  pub session_id : String
  pub now : String

pub record IngestResult : Type 0 where
  pub session_id : String
  pub bundle_hash : String
  pub replayed : Bool
  pub plan : PlanCounts

abbrev pub is_project : SessionScope → Bool
is_project project = true
is_project _ = false

abbrev pub is_ok : Outcome DbError Resolution → Bool
is_ok (returned (resolved r)) = true
is_ok _ = false

-- `resolution.ok` of the strict lookup; without a resolver nothing is looked up
unfoldable pub is_registered : Option IdentityResolver → Option String → SessionDb → Bool
unfolding resolve
is_registered none id db = true
is_registered (some r) id db =
    is_ok
      (resolve r.host strict_existing r.allow_unbound
        (record { scope = "project"; project_id = id; project_path = none }) r.stamp db.scopes).0

abbrev pub has_events : List NormalisedEvent → Bool
has_events [] = false
has_events (ev ∷ events) = true

-- the checks before anything is read or written
unfoldable pub check_bundle :
    Option IdentityResolver → NormalisedBundle → SessionDb → Option IngestError
unfolding is_registered
check_bundle resolver b db =
    if is_project b.scope && not (is_some b.project_id)
    then some internal_error
    else if not (has_events b.events)
    then some usage_error
    else if is_project b.scope && not (is_registered resolver b.project_id db)
    then some usage_error
    else none

abbrev pub sequence_le : NormalisedEvent → NormalisedEvent → Bool
sequence_le a b = leb a.sequence b.sequence

module _ (rt : Runtime) where
  unfoldable pub canonical_bundle_hash : NormalisedBundle → String
  canonical_bundle_hash b = rt.hash_bundle (record b { events = order_with sequence_le b.events })

  unfoldable pub count_secrets : List NormalisedEvent → ℕ
  count_secrets [] = 0
  count_secrets (ev ∷ events) =
      count_if rt (holds_secret rt.detect_secrets ev.content) (count_secrets events)

  abbrev pub event_cap : IngestOptions → ℕ
  event_cap opts = get_or opts.max_per_event_bytes (256 * 1024)

  abbrev pub session_cap : IngestOptions → ℕ
  session_cap opts = get_or opts.max_per_session_bytes (8 * 1024 * 1024)

  unfoldable pub plan_of : NormalisedBundle → IngestOptions → PlanCounts
  unfolding plan_bundle
  plan_of b opts = plan_bundle rt.detect_secrets b.events (event_cap opts) (session_cap opts)

  unfoldable pub session_row : NormalisedBundle → IngestOptions → Minted → SessionRow
  unfolding plan_of count_secrets canonical_bundle_hash
  session_row b opts m = record {
    session_id = m.session_id;
    source_kind = b.source_kind;
    source_version = b.source_version;
    source_instance_id = b.source_instance_id;
    source_session_id = b.source_session_id;
    scope = b.scope;
    project_id = b.project_id;
    actor_id = b.actor_id;
    client_name = b.client_name;
    client_version = b.client_version;
    started_at = b.started_at;
    ended_at = b.ended_at;
    sensitivity = b.sensitivity;
    bundle_hash = canonical_bundle_hash b;
    adapter_id = b.adapter_id;
    adapter_version = b.adapter_version;
    ingestion_plan = plan_of b opts;
    redaction_summary = record {
      per_event_cap_bytes = event_cap opts;
      per_session_cap_bytes = session_cap opts;
      events_with_secret = if ltb 0 (plan_of b opts).accepted then count_secrets b.events else 0;
    };
    ingested_at = m.now;
    retention_until = opts.retention_until;
  }

  abbrev pub fresh_result : NormalisedBundle → IngestOptions → Minted → IngestResult
  fresh_result b opts m = record {
    session_id = m.session_id;
    bundle_hash = canonical_bundle_hash b;
    replayed = false;
    plan = plan_of b opts;
  }

  abbrev pub replay_result : SessionRow → IngestResult
  replay_result row = record {
    session_id = row.session_id;
    bundle_hash = row.bundle_hash;
    replayed = true;
    plan = row.ingestion_plan;
  }

  -- with the session of the same source, where there is one
  unfoldable pub ingest_source :
      NormalisedBundle → IngestOptions → Minted → Option SessionRow → SessionEffect IngestResult
  unfolding session_row persist_events insert_session
  ingest_source b opts m (some row) =
      if str_eq row.bundle_hash (canonical_bundle_hash b)
      then pure (replay_result row)
      else throw bundle_hash_drift
  ingest_source b opts m none =
      insert_session (session_row b opts m)
      >> (persist_events rt m.session_id m.now b.events >> pure (fresh_result b opts m))

  abbrev pub unless_refused :
      Option IngestError → SessionEffect IngestResult → SessionEffect IngestResult
  unless_refused none m = m
  unless_refused (some e) m = throw e

  unfoldable pub ingest :
      Option IdentityResolver
      → NormalisedBundle
      → IngestOptions
      → Minted
      → SessionEffect IngestResult
  unfolding ingest_source check_bundle get_session_by_source_identity
  ingest resolver b opts m db =
      unless_refused (check_bundle resolver b db)
        (ingest_source b opts m (get_session_by_source_identity b db)) db

abbrev pub row_le : SessionEventRow → SessionEventRow → Bool
row_le a b = leb a.sequence b.sequence

abbrev pub of_session : String → SessionEventRow → Bool
of_session id row = str_eq row.session_id id

-- `listSessionEvents`; the sequence numbers of a session are distinct
unfoldable pub list_session_events : String → SessionDb → List SessionEventRow
list_session_events id db = order_with row_le (select_where (of_session id) db.session_events)
