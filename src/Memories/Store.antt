-- ===== src/Memories/Store.antt =====
-- The statements of src/sqlite-store.ts on memories: `insertEntry`, `updateEntry`,
-- `updateEntryWithRevision`, `upsertFts`, `recordRevisionRow`, `appendAudit`.
use agent_recall.Common.{
  ℕ, suc, String, Bool, true, false, not, ◌&&◌, Option, none, some, List, ◌==◌, str_eq, get_or,
  if◌then◌else◌,
}
use agent_recall.Common.Table.{exists_where, select_where, insert_row, update_where, count_where}
use agent_recall.Common.Effect.{returned, thrown, ◌>>◌, pure}
use agent_recall.Budget.Rows.{MemoryStatus, active, archived, join_tags}
use agent_recall.Memories.Rows.{
  MemoryTier, MemorySensitivity, MemoryTrustLevel, EntryRow, FtsRow, AuditRow, constraint_failed,
  concurrent_revision, MemoryEffect, has_id, get_entry, is_revision, is_indexed,
}

-- the statuses that a write may set, and that a write may change
abbrev pub is_open : MemoryStatus → Bool
is_open active = true
is_open archived = true
is_open _ = false

-- `EntryPatch`: the fields of ENTRY_PATCH_FIELDS, and the time
pub record EntryPatch : Type 0 where
  pub topic : Option String
  pub title : Option String
  pub body : Option String
  pub tags : Option (List String)
  pub importance : Option ℕ
  pub confidence : Option ℕ
  pub status : Option MemoryStatus
  pub expires_at : Option String
  pub review_after : Option String
  pub superseded_by : Option String
  pub token_estimate : Option ℕ
  pub char_count : Option ℕ
  pub tier : Option MemoryTier
  pub pinned : Option Bool
  pub valid_from : Option String
  pub valid_until : Option String
  pub sensitivity : Option MemorySensitivity
  pub trust_level : Option MemoryTrustLevel
  pub updated_at : String

-- an optional field of a patch leaves an optional field of the row as it is
abbrev pub or_kept : {A : Type 0} → Option A → Option A → Option A
or_kept none kept = kept
or_kept (some a) kept = some a

-- `{ ...current, ...sanitizeEntryPatch(patch), id, revision: current.revision + 1 }`
abbrev pub patched : EntryPatch → EntryRow → EntryRow
patched patch row = record row {
  topic = get_or patch.topic row.topic;
  title = get_or patch.title row.title;
  body = get_or patch.body row.body;
  tags = get_or patch.tags row.tags;
  importance = get_or patch.importance row.importance;
  confidence = get_or patch.confidence row.confidence;
  status = get_or patch.status row.status;
  updated_at = patch.updated_at;
  expires_at = or_kept patch.expires_at row.expires_at;
  review_after = or_kept patch.review_after row.review_after;
  superseded_by = or_kept patch.superseded_by row.superseded_by;
  token_estimate = get_or patch.token_estimate row.token_estimate;
  char_count = get_or patch.char_count row.char_count;
  revision = suc row.revision;
  pinned = get_or patch.pinned row.pinned;
  trust_level = get_or patch.trust_level row.trust_level;
  sensitivity = get_or patch.sensitivity row.sensitivity;
  tier = get_or patch.tier row.tier;
  valid_from = or_kept patch.valid_from row.valid_from;
  valid_until = or_kept patch.valid_until row.valid_until;
}

-- who changed a memory, for which request, and why
pub record RevisionContext : Type 0 where
  pub changed_by : String
  pub request_id : Option String
  pub change_reason : String

abbrev pub fts_row : EntryRow → FtsRow
fts_row entry = record {
  id = entry.id;
  scope = entry.scope;
  project_id = get_or entry.project_id "";
  topic = entry.topic;
  title = entry.title;
  body = entry.body;
  tags = join_tags entry.tags;
}

-- DELETE, then INSERT
unfoldable pub upsert_fts : EntryRow → List FtsRow → List FtsRow
upsert_fts entry fts =
    insert_row (fts_row entry) (select_where (λ row. not (is_indexed entry.id row)) fts)

unfoldable pub insert_entry : EntryRow → MemoryEffect (Unit {0})
unfolding upsert_fts
insert_entry entry db =
    if exists_where (has_id entry.id) db.entries then (thrown constraint_failed, db) else (
      returned tt,
      record db { entries = insert_row entry db.entries; fts = upsert_fts entry db.fts },
    )

-- (memory_id, revision) is the primary key
unfoldable pub record_revision_row :
    String → ℕ → EntryRow → RevisionContext → String → MemoryEffect (Unit {0})
record_revision_row id revision snapshot ctx now db =
    if exists_where (is_revision id revision) db.revisions
    then (thrown constraint_failed, db)
    else (
      returned tt,
      record db {
        revisions =
            insert_row
              (record {
                memory_id = id;
                revision = revision;
                snapshot = snapshot;
                changed_by = ctx.changed_by;
                request_id = get_or ctx.request_id "";
                change_reason = some ctx.change_reason;
                created_at = now;
              })
              db.revisions;
      },
    )

-- One transaction: the UPDATE of the rows that `where_row` picks, the search index, and the revision.
abbrev pub write_row :
    (EntryRow → Bool)
    → (EntryRow → EntryRow)
    → EntryRow
    → RevisionContext
    → String
    → MemoryEffect (Unit {0})
write_row where_row set next ctx now db =
    record_revision_row next.id next.revision next ctx now
      (record db { entries = update_where where_row set db.entries; fts = upsert_fts next db.fts })

abbrev pub update_found :
    EntryPatch → RevisionContext → String → Option EntryRow → MemoryEffect (Unit {0})
update_found patch ctx now none = pure tt
update_found patch ctx now (some current) =
    write_row (has_id current.id) (λ _. patched patch current) (patched patch current) ctx now

-- nothing happens where there is no such memory
unfoldable pub update_entry :
    String → EntryPatch → RevisionContext → String → MemoryEffect (Unit {0})
unfolding record_revision_row upsert_fts
update_entry id patch ctx now db = update_found patch ctx now (get_entry id db) db

abbrev pub at_revision : String → ℕ → EntryRow → Bool
at_revision id revision row = str_eq row.id id && row.revision == revision

-- `updated_at` is the time of the call, whatever the patch says
abbrev pub patched_now : EntryPatch → String → EntryRow → EntryRow
patched_now patch now current = record (patched patch current) { updated_at = now }

-- the UPDATE of the compare-and-swap sets every column but `tier`
abbrev pub all_but_tier : EntryRow → EntryRow → EntryRow
all_but_tier next row = record next { tier = row.tier }

abbrev pub cas_found :
    EntryPatch → ℕ → RevisionContext → String → Option EntryRow → MemoryEffect Bool
cas_found patch expected ctx now none db = (returned false, db)
cas_found patch expected ctx now (some current) db =
    if not (current.revision == expected)
    then (returned false, db)
    else if count_where (at_revision current.id expected) db.entries == 0
    then (thrown concurrent_revision, db)
    else (write_row (at_revision current.id expected) (all_but_tier (patched_now patch now current))
            (patched_now patch now current) ctx now
          >> pure true)
        db

-- `false` where there is no such memory, or its revision is another one
unfoldable pub update_entry_with_revision :
    String → EntryPatch → ℕ → RevisionContext → String → MemoryEffect Bool
unfolding record_revision_row upsert_fts
update_entry_with_revision id patch expected ctx now db =
    cas_found patch expected ctx now (get_entry id db) db

unfoldable pub append_audit : AuditRow → MemoryEffect (Unit {0})
append_audit row db = (returned tt, record db { audit = insert_row row db.audit })

-- The placeholder where the row is not there cannot arise: the INSERT has just been made.
abbrev pub record_created :
    String → Option String → String → Option EntryRow → MemoryEffect (Unit {0})
record_created changed_by request_id now none = pure tt
record_created changed_by request_id now (some entry) =
    record_revision_row entry.id 1 entry
      (record { changed_by = changed_by; request_id = request_id; change_reason = "created" }) now

unfoldable pub record_revision_for_create :
    String → String → Option String → String → MemoryEffect (Unit {0})
unfolding record_revision_row
record_revision_for_create id changed_by request_id now db =
    record_created changed_by request_id now (get_entry id db) db
