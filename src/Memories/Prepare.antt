-- ===== src/Memories/Prepare.antt =====
-- `resolveRememberInput`, `configureProjectBudget` and `commitPreparedRemember` of
-- src/services/memory-write-service.ts, with `buildEntry` and `ensureProjectScope`.
use agent_recall.Common.{String, Bool, ◌&&◌, Option, none, some, get_or, if◌then◌else◌}
use agent_recall.Common.Table.{exists_where, insert_row, update_where}
use agent_recall.Common.Effect.{Outcome, returned, thrown, ◌>>=◌, ◌>>◌, pure, gets}
use agent_recall.Budget.Rows.{MemoryBudget}
use agent_recall.Scopes.Inputs.{
  MemoryScope, project, register, ResolvedScope, ResolveError, invalid_scope as bad_scope,
  project_identity_conflict as conflict, Resolution, resolved, refused, Stamp,
}
use agent_recall.Scopes.Rows.{DbError, ScopeEffect, create_project_identity}
use agent_recall.Scopes.Resolver.{resolve}
use agent_recall.Memories.Rows.{
  EntryRow, AuditEventName, ProjectScope, MemoryError, scope_error, MemoryEffect, is_project,
}
use agent_recall.Memories.Store.{insert_entry, record_revision_for_create}
use agent_recall.Memories.Inputs.{
  ValidatedRememberInput, RememberInput, RequestContext, WriteError, invalid_scope,
  project_identity_conflict, Result, ok, err, stored_status,
}
use agent_recall.Memories.Context.{WriteContext, caller, request_of, refuse, audit_entry}
use agent_recall.Memories.Room.{
  default_global_budget, default_project_budget, same_scope, optional_eq, get_project_scope,
}

-- `buildEntry`
abbrev pub build_entry : ValidatedRememberInput → ResolvedScope → String → String → EntryRow
build_entry input scope now id = record {
  id = id;
  scope = scope.scope;
  project_id = scope.project_id;
  project_path = scope.project_path;
  type = input.type;
  topic = input.topic;
  title = input.title;
  body = input.body;
  tags = input.tags;
  source_kind = input.source_kind;
  source_ref = input.source_ref;
  importance = input.importance;
  confidence = input.confidence;
  status = stored_status input.status;
  created_at = now;
  updated_at = now;
  last_accessed_at = none;
  access_count = 0;
  expires_at = input.expires_at;
  review_after = input.review_after;
  supersedes = input.supersedes;
  superseded_by = none;
  token_estimate = input.token_estimate;
  char_count = input.char_count;
  revision = 1;
  writer_actor_id = "agent:pending";
  content_hash = none;
  pinned = input.pinned;
  trust_level = input.trust_level;
  sensitivity = input.sensitivity;
  tier = input.tier;
  valid_from = input.valid_from;
  valid_until = input.valid_until;
  deleted_at = none;
  metadata_json = "{}";
}

pub record ResolvedRemember : Type 0 where
  pub entry : EntryRow
  pub project_path : Option String
  pub display_name : Option String

abbrev pub refusal : ResolveError → WriteError
refusal bad_scope = invalid_scope
refusal conflict = project_identity_conflict

-- a project without an id
abbrev pub lacks_id : ResolvedScope → Bool
lacks_id scope = same_scope scope.scope project && optional_eq scope.project_id none

-- the scope resolver works on the same connection
abbrev pub scope_outcome : {A : Type 0} → Outcome DbError A → Outcome MemoryError A
scope_outcome (returned a) = returned a
scope_outcome (thrown e) = thrown scope_error

abbrev pub on_scopes : {A : Type 0} → ScopeEffect A → MemoryEffect A
on_scopes m db = (scope_outcome (m db.scopes).0, record db { scopes = (m db.scopes).1 })

-- `ON CONFLICT(project_id) DO UPDATE` keeps the time of creation
abbrev pub upsert_project_scope : ProjectScope → MemoryEffect (Unit {0})
upsert_project_scope scope db = (
  returned tt,
  record db {
    projects =
        if exists_where (is_project scope.project_id) db.projects
        then update_where (is_project scope.project_id)
            (λ row. record scope { created_at = row.created_at }) db.projects
        else insert_row scope db.projects;
  },
)

abbrev pub created_at_of : Option ProjectScope → String → String
created_at_of none now = now
created_at_of (some scope) now = scope.created_at

module _ (w : WriteContext) where
  -- `configureProjectBudget`
  unfoldable pub configure_project_budget :
      String → MemoryBudget → String → String → String → MemoryEffect MemoryBudget
  configure_project_budget id budget path name now = do
    created_at ← gets (λ db. created_at_of (get_project_scope id db) now)
    on_scopes (
        create_project_identity (record {
          project_id = id;
          canonical_path = path;
          created_by = w.default_actor;
          created_at = created_at;
        }))
    upsert_project_scope (record {
      project_id = id;
      canonical_path = path;
      display_name = name;
      created_at = created_at;
      updated_at = now;
      budget = budget;
    })
    pure budget

  abbrev pub budget_or_configure :
      String → String → String → String → Option ProjectScope → MemoryEffect MemoryBudget
  budget_or_configure id path name now none =
      configure_project_budget id default_project_budget path name now
  budget_or_configure id path name now (some scope) = pure scope.budget

  -- `ensureProjectScope`, for its budget
  abbrev pub ensure_project_scope : String → String → String → String → MemoryEffect MemoryBudget
  ensure_project_scope id path name now db =
      budget_or_configure id path name now (get_project_scope id db) db

  -- The budget of the scope. A project without an id was refused before.
  abbrev pub scope_budget :
      MemoryScope → Option String → ResolvedRemember → String → MemoryEffect MemoryBudget
  scope_budget project (some id) r now =
      ensure_project_scope id (get_or r.project_path "") (get_or r.display_name id) now
  scope_budget _ _ r now = pure default_global_budget

  abbrev pub resolved_input :
      RememberInput
      → ValidatedRememberInput
      → String
      → Stamp
      → Resolution
      → MemoryEffect (Result ResolvedRemember)
  resolved_input input validated id stamp (refused e) = refuse w input (refusal e) stamp.now_iso
  resolved_input input validated id stamp (resolved scope) =
      if lacks_id scope
      then refuse w input invalid_scope stamp.now_iso
      else pure (
          ok (record {
            entry = build_entry validated scope stamp.now_iso id;
            project_path = scope.project_path;
            display_name = scope.display_name;
          }))

  abbrev pub resolve_validated :
      RememberInput
      → String
      → Stamp
      → Result ValidatedRememberInput
      → MemoryEffect (Result ResolvedRemember)
  resolve_validated input id stamp (err e) = refuse w input e stamp.now_iso
  resolve_validated input id stamp (ok validated) =
      on_scopes (resolve w.host register w.allow_unbound validated.scope_input stamp)
      >>= resolved_input input validated id stamp

  -- `resolveRememberInput`; `id` is the fresh id
  unfoldable pub resolve_remember_input :
      RememberInput → String → Stamp → MemoryEffect (Result ResolvedRemember)
  resolve_remember_input input id stamp =
      resolve_validated input id stamp (w.validate_remember input)

  -- `commitPreparedRemember`
  unfoldable pub commit_prepared_remember :
      EntryRow → Option RequestContext → String → MemoryEffect (Unit {0})
  unfolding insert_entry record_revision_for_create
  commit_prepared_remember entry ctx now = do
    insert_entry (record entry { writer_actor_id = caller w ctx })
    record_revision_for_create entry.id (caller w ctx) (request_of w ctx) now
    audit_entry w entry AuditEventName.created none (caller w ctx) now
