-- ===== src/Memories/Forget.antt =====
-- `forgetMemory` of src/services/memory-write-service.ts.
use agent_recall.Common.{ℕ, String, Bool, true, false, Option, none, some, [], if◌then◌else◌}
use agent_recall.Common.Effect.{◌>>=◌, ◌>>◌, pure}
use agent_recall.Budget.Rows.{forgotten, is_active}
use agent_recall.Idempotency.Rows.{Args}
use agent_recall.Idempotency.Service.{Json}
use agent_recall.Scopes.Inputs.{Stamp}
use agent_recall.Memories.Rows.{EntryRow, AuditEventName, MemoryEffect, get_entry}
use agent_recall.Memories.Store.{EntryPatch, update_entry, update_entry_with_revision}
use agent_recall.Memories.Inputs.{RequestContext, not_found, Result, ok, err}
use agent_recall.Memories.Context.{
  WriteEffect, WriteContext, caller, revision_context, audit_entry, probe, keyed,
}

-- a memory that was forgotten keeps its title
abbrev pub forget_patch : String → EntryPatch
forget_patch now = record {
  topic = none;
  title = none;
  body = some "";
  tags = some [];
  importance = none;
  confidence = none;
  status = some forgotten;
  expires_at = none;
  review_after = none;
  superseded_by = none;
  token_estimate = some 0;
  char_count = some 0;
  tier = none;
  pinned = none;
  valid_from = none;
  valid_until = none;
  sensitivity = none;
  trust_level = none;
  updated_at = now;
}

module _ (w : WriteContext) where
  -- the writes of `forgetMemory`; the answer has the characters that it releases
  abbrev pub after_forget :
      String
      → EntryRow
      → String
      → Option RequestContext
      → String
      → Bool
      → MemoryEffect (Result (String × ℕ))
  after_forget id current reason ctx now true =
      audit_entry w current AuditEventName.forgotten (some reason) (caller w ctx) now
      >> pure (ok (id, if is_active current.status then current.char_count else 0))
  after_forget id current reason ctx now false = pure (err not_found)

  unfoldable pub run_forget :
      String
      → EntryRow
      → String
      → Option ℕ
      → Option RequestContext
      → String
      → MemoryEffect (Result (String × ℕ))
  unfolding update_entry update_entry_with_revision
  run_forget id current reason none ctx now = do
    update_entry id (forget_patch now) (revision_context w ctx reason) now
    after_forget id current reason ctx now true
  run_forget id current reason (some expected) ctx now = do
    applied ←
        update_entry_with_revision id (forget_patch now) expected (revision_context w ctx reason)
          now
    after_forget id current reason ctx now applied

  abbrev pub forget_present :
      Json (Result (String × ℕ))
      → String
      → String
      → Option ℕ
      → Option Args
      → Option RequestContext
      → Stamp
      → Option EntryRow
      → WriteEffect (Result (String × ℕ))
  forget_present json id reason expected args ctx stamp none = pure (err not_found)
  forget_present json id reason expected args ctx stamp (some current) =
      keyed json args stamp.now_ms (run_forget id current reason expected ctx stamp.now_iso)

  -- `forgetMemory`
  unfoldable pub forget_memory :
      Json (Result (String × ℕ))
      → String
      → String
      → Option ℕ
      → Option Args
      → Option RequestContext
      → Stamp
      → WriteEffect (Result (String × ℕ))
  unfolding run_forget
  forget_memory json id reason expected args ctx stamp =
      probe json args
        λ db. forget_present json id reason expected args ctx stamp (get_entry id db.tables) db
