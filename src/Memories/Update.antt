-- ===== src/Memories/Update.antt =====
-- `updateMemory` of src/services/memory-write-service.ts.
use agent_recall.Common.{
  ℕ, ◌+◌, String, Bool, true, false, ◌&&◌, ◌||◌, not, ltb, Option, none, some, List, str_eq, get_or,
  is_some, if◌then◌else◌,
}
use Prim.Native.Nat.{◌/◌}
use Prim.Native.Char.{code}
use mathlib.Core.Option
use agent_recall.Common.Effect.{◌>>=◌, ◌>>◌, pure}
use agent_recall.Budget.Rows.{MemoryStatus, is_active, join_tags}
use agent_recall.Budget.Within.{is_accepted}
use agent_recall.Idempotency.Rows.{Args}
use agent_recall.Idempotency.Service.{Json, on_tables}
use agent_recall.Scopes.Inputs.{Stamp}
use agent_recall.Memories.Rows.{
  EntryRow, AuditEventName, updated, archived, MemoryEffect, get_entry,
}
use agent_recall.Memories.Store.{
  EntryPatch, patched, is_open, update_entry, update_entry_with_revision,
}
use agent_recall.Memories.Inputs.{
  UpdateInput, RequestContext, not_found, invalid_state, unauthorized, capacity_exceeded,
  stale_revision, Result, ok, err, stored_status,
}
use agent_recall.Memories.Context.{
  WriteEffect, WriteContext, is_authorized, caller, revision_context, refuse_entry, audit_entry,
  keyed,
}
use agent_recall.Memories.Room.{budget_for, evaluate_entry_budget}

-- `text.length`: a character beyond U+FFFF is two UTF-16 units
unfoldable pub utf16_length : String → ℕ
utf16_length String.[] = 0
utf16_length (String.◌∷◌ c text) = utf16_length text + (if ltb (code c) 65536 then 1 else 2)

-- `computeEntrySize` of src/domain.ts
unfoldable pub char_count_of : String → String → List String → ℕ
unfolding utf16_length join_tags
char_count_of title body tags =
    utf16_length title + utf16_length body + utf16_length (join_tags tags)

-- a quarter of the three texts and the two line breaks between them, rounded up
unfoldable pub token_estimate_of : String → String → List String → ℕ
unfolding char_count_of
token_estimate_of title body tags = (char_count_of title body tags + 2 + 3) / 4

-- The sizes are computed where the body or the tags change, and with the title that is stored.
abbrev pub resized : UpdateInput → EntryRow → (String → String → List String → ℕ) → Option ℕ
resized input current size =
    if is_some input.body || is_some input.tags
    then some (size current.title (get_or input.body current.body) (get_or input.tags current.tags))
    else none

abbrev pub patch_of : UpdateInput → EntryRow → String → EntryPatch
patch_of input current now = record {
  topic = input.topic;
  title = input.title;
  body = input.body;
  tags = input.tags;
  importance = input.importance;
  confidence = input.confidence;
  status = Option.map stored_status input.status;
  expires_at = input.expires_at;
  review_after = input.review_after;
  superseded_by = none;
  token_estimate = resized input current token_estimate_of;
  char_count = resized input current char_count_of;
  tier = input.tier;
  pinned = input.pinned;
  valid_from = input.valid_from;
  valid_until = input.valid_until;
  sensitivity = input.sensitivity;
  trust_level = input.trust_level;
  updated_at = now;
}

abbrev pub is_archival : Option MemoryStatus → Bool
is_archival (some MemoryStatus.archived) = true
is_archival _ = false

abbrev pub update_event : EntryRow → EntryPatch → AuditEventName
update_event current patch =
    if is_active current.status && is_archival patch.status then archived else updated

abbrev pub event_name : EntryRow → EntryPatch → String
event_name current patch =
    if is_active current.status && is_archival patch.status then "archived" else "updated"

module _ (w : WriteContext) where
  -- `runUpdate`, once the compare-and-swap has answered
  abbrev pub after_cas :
      String
      → EntryRow
      → EntryPatch
      → Option RequestContext
      → String
      → Bool
      → MemoryEffect (Result String)
  after_cas id current patch ctx now true =
      audit_entry w current (update_event current patch) none (caller w ctx) now >> pure (ok id)
  after_cas id current patch ctx now false = refuse_entry w current stale_revision now

  -- `runUpdate`
  unfoldable pub run_update :
      String
      → EntryRow
      → EntryPatch
      → Option ℕ
      → Option RequestContext
      → String
      → MemoryEffect (Result String)
  unfolding update_entry update_entry_with_revision
  run_update id current patch none ctx now = do
    update_entry id patch (revision_context w ctx (event_name current patch)) now
    audit_entry w current (update_event current patch) none (caller w ctx) now
    pure (ok id)
  run_update id current patch (some expected) ctx now = do
    applied ←
        update_entry_with_revision id patch expected
          (revision_context w ctx (event_name current patch)) now
    after_cas id current patch ctx now applied

  abbrev pub is_one : String → String → Bool
  is_one id other = str_eq other id

  -- the checks after the validation, and the update
  unfoldable pub update_checked :
      Json (Result String)
      → String
      → EntryRow
      → UpdateInput
      → Option Args
      → Option RequestContext
      → Stamp
      → WriteEffect (Result String)
  unfolding is_authorized evaluate_entry_budget run_update
  update_checked json id current input args ctx stamp db =
      let patch = patch_of input current stamp.now_iso in
      let next = patched patch current in
      if not (is_authorized w input.trust_level input.sensitivity input.capability)
      then on_tables (refuse_entry w current unauthorized stamp.now_iso) db
      else if not (
          is_accepted
            (evaluate_entry_budget w next (budget_for next db.tables) (is_one id) db.tables))
      then on_tables (refuse_entry w current capacity_exceeded stamp.now_iso) db
      else keyed json args stamp.now_ms
          (run_update id current patch input.expected_revision ctx stamp.now_iso) db

  abbrev pub update_validated :
      Json (Result String)
      → String
      → EntryRow
      → Option Args
      → Option RequestContext
      → Stamp
      → Result UpdateInput
      → WriteEffect (Result String)
  update_validated json id current args ctx stamp (err error) =
      on_tables (refuse_entry w current error stamp.now_iso)
  update_validated json id current args ctx stamp (ok input) =
      update_checked json id current input args ctx stamp

  abbrev pub update_present :
      Json (Result String)
      → String
      → UpdateInput
      → Option Args
      → Option RequestContext
      → Stamp
      → Option EntryRow
      → WriteEffect (Result String)
  update_present json id input args ctx stamp none = pure (err not_found)
  update_present json id input args ctx stamp (some current) =
      if not (is_open current.status)
      then on_tables (refuse_entry w current invalid_state stamp.now_iso)
      else update_validated json id current args ctx stamp (w.validate_update input)

  -- `updateMemory`; the key comes with the hash of the validated patch
  unfoldable pub update_memory :
      Json (Result String)
      → String
      → UpdateInput
      → Option Args
      → Option RequestContext
      → Stamp
      → WriteEffect (Result String)
  unfolding update_checked
  update_memory json id input args ctx stamp db =
      update_present json id input args ctx stamp (get_entry id db.tables) db
