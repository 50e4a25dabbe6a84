-- ===== src/Memories/Replace.antt =====
-- `supersedeMemory` and `mergeMemories` of src/services/memory-write-service.ts. Their replacement does
-- not pass the capability gate.
use agent_recall.Memories.Remember.{and_then, check_budget}
use agent_recall.Common.{
  String, Bool, true, false, ◌&&◌, not, Option, none, some, List, [], ◌∷◌, str_eq, if◌then◌else◌,
}
use agent_recall.Common.Table.{exists_where, select_where}
use agent_recall.Common.Effect.{◌>>◌, pure}
use agent_recall.Budget.Rows.{superseded, is_active}
use agent_recall.Idempotency.Rows.{Args}
use agent_recall.Idempotency.Service.{Json, on_tables}
use agent_recall.Scopes.Inputs.{global, Stamp}
use agent_recall.Memories.Rows.{EntryRow, AuditEventName, MemoryEffect, get_entry}
use agent_recall.Memories.Store.{EntryPatch, is_open, update_entry}
use agent_recall.Memories.Inputs.{
  RememberInput, RequestContext, not_found, invalid_state, invalid_schema, invalid_scope,
  capacity_exceeded, Result, ok,
}
use agent_recall.Memories.Context.{
  WriteEffect, WriteContext, caller, revision_context, refuse, refuse_entry, refuse_scope,
  audit_entry, probe, keyed,
}
use agent_recall.Memories.Room.{same_scope, optional_eq}
use agent_recall.Memories.Prepare.{
  ResolvedRemember, resolve_remember_input, commit_prepared_remember,
}

-- `matchesReplacementScope`
abbrev pub matches_replacement_scope : EntryRow → EntryRow → Bool
matches_replacement_scope replacement old =
    same_scope old.scope replacement.scope
    && (if same_scope old.scope global
        then true
        else optional_eq old.project_id replacement.project_id)

abbrev pub supersede_patch : String → String → EntryPatch
supersede_patch new_id now = record {
  topic = none;
  title = none;
  body = none;
  tags = none;
  importance = none;
  confidence = none;
  status = some superseded;
  expires_at = none;
  review_after = none;
  superseded_by = some new_id;
  token_estimate = none;
  char_count = none;
  tier = none;
  pinned = none;
  valid_from = none;
  valid_until = none;
  sensitivity = none;
  trust_level = none;
  updated_at = now;
}

-- `[...new Set(ids)]`
unfoldable pub unique : List String → List String
unique [] = []
unique (id ∷ ids) = id ∷ select_where (λ other. not (str_eq other id)) (unique ids)

-- the ids of the active rows
abbrev pub is_active_in : List EntryRow → String → Bool
is_active_in olds id = exists_where (λ row. str_eq row.id id && is_active row.status) olds

-- the two methods that replace memories, and the reason in their revisions
pub data Replacing : Type 0 where
  superseding merging : Replacing

abbrev pub change_reason_of : Replacing → String
change_reason_of superseding = "supersede"
change_reason_of merging = "merge"

-- one id at least, and none blank; two ids at least
abbrev pub accepts_ids : (String → String) → Replacing → List String → Bool
accepts_ids trim superseding [] = false
accepts_ids trim superseding ids = not (exists_where (λ id. str_eq (trim id) "") ids)
accepts_ids trim merging [] = false
accepts_ids trim merging (id ∷ []) = false
accepts_ids trim merging (id ∷ other ∷ ids) = true

module _ (w : WriteContext) where
  -- the old memories, each of them there and open
  abbrev pub open_or_refuse : EntryRow → String → Option EntryRow → MemoryEffect (Result EntryRow)
  open_or_refuse replacement now none =
      refuse_scope w replacement.scope replacement.project_id not_found now
  open_or_refuse replacement now (some old) =
      if not (is_open old.status) then refuse_entry w old invalid_state now else pure (ok old)

  unfoldable pub load_old : EntryRow → String → List String → MemoryEffect (Result (List EntryRow))
  load_old replacement now [] = pure (ok [])
  load_old replacement now (id ∷ ids) =
      let rest = load_old replacement now ids in
      and_then (λ db. open_or_refuse replacement now (get_entry id db) db)
        λ old. and_then rest λ olds. pure (ok (old ∷ olds))

  -- every old memory is of the replacement's scope
  unfoldable pub check_scopes : EntryRow → String → List EntryRow → MemoryEffect (Result (Unit {0}))
  check_scopes replacement now [] = pure (ok tt)
  check_scopes replacement now (old ∷ olds) =
      let rest = check_scopes replacement now olds in
      if not (matches_replacement_scope replacement old)
      then refuse_entry w old invalid_scope now
      else rest

  -- the loop of `runApply`
  unfoldable pub supersede_all :
      Replacing
      → String
      → String
      → Option RequestContext
      → String
      → List EntryRow
      → MemoryEffect (Unit {0})
  unfolding update_entry
  supersede_all kind new_id reason ctx now [] = pure tt
  supersede_all kind new_id reason ctx now (old ∷ olds) = do
    update_entry old.id (supersede_patch new_id now)
        (revision_context w ctx (change_reason_of kind)) now
    audit_entry w old AuditEventName.superseded (some reason) (caller w ctx) now
    supersede_all kind new_id reason ctx now olds

  -- `runApply`
  unfoldable pub run_replace :
      Replacing
      → String
      → Option RequestContext
      → String
      → EntryRow × List EntryRow
      → MemoryEffect (Result String)
  unfolding commit_prepared_remember supersede_all
  run_replace kind reason ctx now (replacement, olds) = do
    commit_prepared_remember w replacement ctx now
    supersede_all kind replacement.id reason ctx now olds
    pure (ok replacement.id)

  abbrev pub check_replacement :
      ResolvedRemember → String → List EntryRow → MemoryEffect (Result (EntryRow × List EntryRow))
  check_replacement r now olds =
      and_then
        (check_budget w r (is_active_in olds)
          (refuse_scope w r.entry.scope r.entry.project_id capacity_exceeded now) now)
        λ _. pure (ok (r.entry, olds))

  abbrev pub check_old :
      ResolvedRemember → String → List EntryRow → MemoryEffect (Result (EntryRow × List EntryRow))
  check_old r now olds = and_then (check_scopes r.entry now olds) λ _. check_replacement r now olds

  -- the checks of both methods
  unfoldable pub prepare_replace :
      Replacing
      → RememberInput
      → List String
      → String
      → Stamp
      → MemoryEffect (Result (EntryRow × List EntryRow))
  unfolding resolve_remember_input load_old check_scopes check_budget
  prepare_replace kind input ids id stamp =
      if not (accepts_ids w.host.trim kind ids)
      then refuse w input invalid_schema stamp.now_iso
      else and_then (resolve_remember_input w (record input { supersedes = some ids }) id stamp)
          λ r. and_then (load_old r.entry stamp.now_iso ids) (check_old r stamp.now_iso)

  -- `supersedeMemory` and `mergeMemories`
  unfoldable pub replace_memories :
      Replacing
      → Json (Result String)
      → List String
      → RememberInput
      → String
      → String
      → Option Args
      → Option RequestContext
      → Stamp
      → WriteEffect (Result String)
  unfolding prepare_replace run_replace
  replace_memories kind json old_ids input reason id args ctx stamp = probe json args (
      and_then (on_tables (prepare_replace kind input (unique old_ids) id stamp)) λ prepared.
        keyed json args stamp.now_ms (run_replace kind reason ctx stamp.now_iso prepared))

  abbrev pub supersede_memory :
      Json (Result String)
      → List String
      → RememberInput
      → String
      → String
      → Option Args
      → Option RequestContext
      → Stamp
      → WriteEffect (Result String)
  supersede_memory = replace_memories superseding

  abbrev pub merge_memories :
      Json (Result String)
      → List String
      → RememberInput
      → String
      → String
      → Option Args
      → Option RequestContext
      → Stamp
      → WriteEffect (Result String)
  merge_memories = replace_memories merging
