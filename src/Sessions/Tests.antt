-- ===== src/Sessions/Tests.antt =====
-- Ingesting a bundle of two events.
use agent_recall.Common.{
  ℕ, String, false, Option, none, some, List, [], ◌∷◌, ◌++◌, map, ◌≡◌, refl, str_eq,
}
use agent_recall.Common.Effect.{returned, thrown}
use agent_recall.Common.Table.{first_where, exists_where, insert_row, select_where}
use agent_recall.Scopes.Rows.{ScopeDb, IdentityRow, get_project_identity}
use agent_recall.Sessions.Rows.{
  global, project, normal, NormalisedEvent, NormalisedBundle, SessionDb, constraint_failed,
  get_session_by_source_identity,
}
use agent_recall.Sessions.Plan.{plan_bundle}
use agent_recall.Sessions.Events.{Runtime, event_row}
use agent_recall.Sessions.Ingest.{
  IdentityResolver, IngestOptions, Minted, ingest, check_bundle, session_row, fresh_result,
  replay_result, of_session,
}
use agent_recall.Sessions.Ingest.Twice.{ingest_twice}
use agent_recall.Sessions.Ingest.Complete.{ingest_complete}
use agent_recall.Sessions.Ingest.Registered.{ingest-HasIdentity}

abbrev plain : Runtime
plain = record {
  hash_bundle = λ b. b.bundle_id;
  detect_secrets = λ text. str_eq text "token";
  matches_injection = λ text. false;
  slice_head = λ n text. text;
  slice_tail = λ n text. text;
}

abbrev event : String → ℕ → String → NormalisedEvent
event id sequence text = record {
  event_id = id;
  sequence = sequence;
  turn_id = "t1";
  event_type = "user_message";
  role = some "user";
  content = some text;
  content_ref_digest = none;
  content_digest = text;
  tool_name = none;
  tool_call_id = none;
  tool_status = none;
  timestamp = "2026-01-01";
  sensitivity = normal;
  metadata = "{}";
}

abbrev bundle_of : Option String → List NormalisedEvent → NormalisedBundle
bundle_of id events = record {
  bundle_id = "b1";
  source_kind = "jsonl";
  source_version = "1";
  source_instance_id = "host";
  source_session_id = "s1";
  project_id = id;
  actor_id = "alice";
  client_name = "cli";
  client_version = "1";
  scope = elim id [ none ↦ global | some name ↦ project ];
  sensitivity = normal;
  started_at = "2026-01-01";
  ended_at = none;
  adapter_id = "jsonl";
  adapter_version = "1";
  events = events;
}

abbrev two_events : NormalisedBundle
two_events = bundle_of none (event "e1" 1 "hello" ∷ event "e2" 2 "token" ∷ [])

-- two events with one sequence number
abbrev clashing : NormalisedBundle
clashing = bundle_of none (event "e1" 1 "hello" ∷ event "e2" 1 "token" ∷ [])

abbrev known_project : ScopeDb
known_project = record {
  identities =
      record {
        project_id = "p";
        canonical_path = "/p";
        created_by = "a";
        created_at = "2026-01-01";
      }
      ∷ [];
  aliases = [];
}

abbrev empty_sessions : SessionDb
empty_sessions = record {
  sessions = [];
  session_events = [];
  blobs = [];
  scopes = known_project;
  secret_leak_count = 0;
  injection_bypass_count = 0;
}

abbrev strict_resolver : IdentityResolver
strict_resolver = record {
  host = record {
    trim = λ text. text;
    canonicalize_path = λ text. text;
    basename = λ text. text;
    hash = λ text. text;
    is_windows = false;
    to_lower_case = λ text. text;
    git_head_for = λ text. none;
  };
  allow_unbound = false;
  stamp = record { recorded_by = "a"; now_iso = "2026-01-01"; now_ms = 1 };
}

abbrev defaults : IngestOptions
defaults = record {
  max_per_event_bytes = none;
  max_per_session_bytes = none;
  retention_until = none;
}

abbrev tiny : IngestOptions
tiny = record { max_per_event_bytes = none; max_per_session_bytes = some 6; retention_until = none }

abbrev first_id : Minted
first_id = record { session_id = "sess_1"; now = "2026-01-02" }

abbrev second_id : Minted
second_id = record { session_id = "sess_2"; now = "2026-01-03" }

abbrev project_bundle : NormalisedBundle
project_bundle = bundle_of (some "p") (event "e1" 1 "hello" ∷ [])

-- the second event goes past the cap of the session
tiny_plan :
    plan_bundle plain.detect_secrets two_events.events 9 6
    ≡ record { accepted = 1; redacted = 0; skipped = 1; rejected = 0 }
unfolding plan_bundle
tiny_plan = refl

first_ingest :
    (ingest plain none two_events tiny first_id empty_sessions).0
    ≡ returned (fresh_result plain two_events tiny first_id)
unfolding ingest first_where exists_where insert_row
first_ingest = refl

-- it stops after the first event, which stays stored with the session
stopped_ingest :
    (ingest plain none clashing defaults first_id empty_sessions).0 ≡ thrown constraint_failed
unfolding ingest first_where exists_where insert_row
stopped_ingest = refl

project_ingest :
    (ingest plain (some strict_resolver) project_bundle defaults first_id empty_sessions).0
    ≡ returned (fresh_result plain project_bundle defaults first_id)
unfolding ingest first_where exists_where insert_row
project_ingest = refl

accepted_bundle : check_bundle none clashing empty_sessions ≡ none
unfolding check_bundle
accepted_bundle = refl

new_source : get_session_by_source_identity clashing empty_sessions ≡ none
unfolding get_session_by_source_identity first_where
new_source = refl

ingest_twice_example :
    ingest plain none clashing tiny second_id
      (ingest plain none clashing defaults first_id empty_sessions).1
    ≡ (
      returned (replay_result plain (session_row plain clashing defaults first_id)),
      (ingest plain none clashing defaults first_id empty_sessions).1,
    )
unfolding exists_where
ingest_twice_example =
    ingest_twice plain none clashing defaults first_id empty_sessions accepted_bundle new_source
      refl tiny second_id

ingest_complete_example :
    select_where
      (of_session "sess_1")
      (ingest plain none two_events tiny first_id empty_sessions).1.session_events
    ≡ select_where (of_session "sess_1") empty_sessions.session_events
      ++ map (event_row plain "sess_1") two_events.events
ingest_complete_example =
    ingest_complete plain none two_events tiny first_id empty_sessions
      (fresh_result plain two_events tiny first_id) first_ingest refl

ingest-HasIdentity_example :
    (row : IdentityRow) × (get_project_identity "p" empty_sessions.scopes ≡ some row)
ingest-HasIdentity_example =
    ingest-HasIdentity plain strict_resolver project_bundle defaults first_id empty_sessions "p"
      (fresh_result plain project_bundle defaults first_id) refl refl refl project_ingest
