-- ===== src/Memories/Moves/Steps.antt =====
-- The writes of memories as a step relation: what a new memory and a change are, and that the statements
-- of one transaction make such steps.
use agent_recall.Common.{
  ℕ, suc, ◌==◌, String, Bool, true, false, none, some, [], ◌≡◌, refl, sym, ap, subst, ◌∙◌, arith,
  eq_iff, eq_refl,
}
use mathlib.Core.Option
use agent_recall.Common.Table.{
  first_where-insert_row, first_where, count_where, first_where_narrow, count_where_pos,
  first_where-none, first_where_sound,
}
use agent_recall.Common.Effect.{returned, bind_returned, pure}
use agent_recall.Budget.Rows.{MemoryStatus, active, archived, superseded, forgotten}
use agent_recall.Memories.Rows.{EntryRow, RevisionRow, is_revision, MemoryDb, has_id, get_entry}
use agent_recall.Memories.Store.{
  record_revision_row, EntryPatch, patched, patched_now, all_but_tier, at_revision, is_open,
  RevisionContext, update_entry, update_entry_with_revision, write_row,
}
use agent_recall.Memories.Moves.{Writes, has_revision, write_row_lem, written}

-- what may become of a memory: while it is active or archived, anything; a superseded one stays so or is
-- forgotten; a forgotten one stays forgotten
abbrev pub may_become : MemoryStatus → MemoryStatus → Bool
may_become active later = true
may_become archived later = true
may_become superseded superseded = true
may_become superseded forgotten = true
may_become superseded _ = false
may_become forgotten forgotten = true
may_become forgotten _ = false

-- no text is left of the body
pub record IsErased (row : EntryRow) : Type 0 where
  pub body : row.body ≡ ""
  pub tags : row.tags ≡ []
  pub char_count : row.char_count ≡ 0

-- a change of `row` to `next`
pub record IsChange (row next : EntryRow) : Type 0 where
  pub same_id : next.id ≡ row.id
  pub same_scope : next.scope ≡ row.scope
  pub same_project : next.project_id ≡ row.project_id
  pub next_revision : next.revision ≡ suc row.revision
  pub allowed : may_become row.status next.status ≡ true
  pub erased : next.status ≡ forgotten → IsErased next

pub data Step (db db' : MemoryDb) : Type 0 where
  created :
      (entry : EntryRow)
      → get_entry entry.id db ≡ none
      → entry.revision ≡ 1
      → is_open entry.status ≡ true
      → Writes entry db db'
      → Step db db'
  changed :
      (row next : EntryRow)
      → get_entry row.id db ≡ some row
      → IsChange row next
      → Writes next db db'
      → Step db db'
  -- the audit log, the projects and the identities
  noted : db'.entries ≡ db.entries → db'.revisions ≡ db.revisions → db'.fts ≡ db.fts → Step db db'

pub data Steps (db : MemoryDb) : MemoryDb → Type 0 where
  here : Steps db db
  after : {db' db'' : MemoryDb} → Steps db db' → Step db' db'' → Steps db db''

pub Steps-trans : {a b c : MemoryDb} → Steps a b → Steps b c → Steps a c
Steps-trans r here = r
Steps-trans r (after s t) = after (Steps-trans r s) t

-- a row that is found by an id has it
pub found_id :
    (id : String) (row : EntryRow) (db : MemoryDb) → get_entry id db ≡ some row → row.id ≡ id
found_id id row db found = (eq_iff row.id id).0 (first_where_sound (has_id id) db.entries row found)

pub found_own :
    (id : String) (row : EntryRow) (db : MemoryDb)
    → get_entry id db ≡ some row
    → get_entry row.id db ≡ some row
found_own id row db found =
    subst (λ i. get_entry i db ≡ some row) (sym (found_id id row db found)) found

module _ (id : String) (row : EntryRow) (db : MemoryDb) (found : get_entry id db ≡ some row)
    (patch : EntryPatch) (ctx : RevisionContext) (now : String) where
  -- `updateEntry` writes the patched row, where it returns
  pub update_entry-Writes :
      (update_entry id patch ctx now db).0 ≡ returned tt
      → Writes (patched patch row) db (update_entry id patch ctx now db).1
  unfolding update_entry
  update_entry-Writes h = rw found (
      write_row_lem (has_id row.id) (λ _. patched patch row) row (patched patch row) db
        (λ x e. (eq_iff x.id row.id).0 e) (eq_refl row.id) (λ x. refl) (found_own id row db found)
        refl refl refl ctx now (rw found at h))

  -- it returns, where the next revision is free
  pub update_entry_returns :
      has_revision row.id (suc row.revision) db ≡ false
      → (update_entry id patch ctx now db).0 ≡ returned tt
  unfolding update_entry
  update_entry_returns free = rw found (
      written (has_id row.id) (λ _. patched patch row) row (patched patch row) db
        (λ x e. (eq_iff x.id row.id).0 e) (eq_refl row.id) (λ x. refl) (found_own id row db found)
        refl refl refl ctx now free)

module _ (id : String) (row : EntryRow) (db : MemoryDb) (found : get_entry id db ≡ some row)
    (patch : EntryPatch) (expected : ℕ) (ctx : RevisionContext) (now : String) where
  -- another revision than the expected one: nothing is written
  pub cas_refused :
      row.revision == expected ≡ false
      → update_entry_with_revision id patch expected ctx now db ≡ (returned false, db)
  unfolding update_entry_with_revision
  cas_refused other = rw (found, other) refl

  own_revision : row.revision == expected ≡ true → at_revision row.id expected row ≡ true
  own_revision at = rw (eq_refl row.id, at) refl

  at_own : (x : EntryRow) → at_revision row.id expected x ≡ true → x.id ≡ row.id
  at_own x h = (eq_iff x.id row.id).0 (ground arith)

  some_row :
      row.revision == expected ≡ true
      → count_where (at_revision row.id expected) db.entries == 0 ≡ false
  some_row at =
      let there =
        first_where_narrow (has_id row.id) (at_revision row.id expected) db.entries row
          (λ x h. ground arith) (found_own id row db found) (own_revision at) in
      let pos = count_where_pos (at_revision row.id expected) db.entries row there in ground arith

  -- the expected revision: the row is written, but not its tier
  pub cas-Writes :
      row.revision == expected ≡ true
      → (a : Bool) → (update_entry_with_revision id patch expected ctx now db).0 ≡ returned a
      → (a ≡ true)
        × Writes
            (all_but_tier (patched_now patch now row) row)
            db
            (update_entry_with_revision id patch expected ctx now db).1
  unfolding update_entry_with_revision
  cas-Writes at a h =
      let (u, wrote, rest) =
        bind_returned
          (write_row (at_revision row.id expected) (all_but_tier (patched_now patch now row))
            (patched_now patch now row) ctx now db)
          (λ _. pure true) a (rw (found, at, some_row at) at h) in
      (
        cc (rw (found, at, some_row at) at h),
        rw (found, at, some_row at)
            (rw rest (
              write_row_lem (at_revision row.id expected) (all_but_tier (patched_now patch now row))
                row (patched_now patch now row) db at_own (own_revision at) (λ x. refl)
                (found_own id row db found) refl refl refl ctx now wrote)),
      )

  pub cas_returns :
      row.revision == expected ≡ true
      → has_revision row.id (suc row.revision) db ≡ false
      → (update_entry_with_revision id patch expected ctx now db).0 ≡ returned true
  unfolding update_entry_with_revision
  cas_returns at free =
      let wrote =
        written (at_revision row.id expected) (all_but_tier (patched_now patch now row)) row
          (patched_now patch now row) db at_own (own_revision at) (λ x. refl)
          (found_own id row db found) refl refl refl ctx now free in
      rw (found, at, some_row at) (rw wrote refl)

  -- the revision that is recorded has all of the patch
  pub cas_recorded :
      row.revision == expected ≡ true
      → has_revision row.id (suc row.revision) db ≡ false
      → Option.map
          (λ (r : RevisionRow). r.snapshot)
          (first_where
            (is_revision row.id (suc row.revision))
            (update_entry_with_revision id patch expected ctx now db).1.revisions)
        ≡ some (patched_now patch now row)
  unfolding update_entry_with_revision record_revision_row
  cas_recorded at free =
      let self : suc row.revision == suc row.revision ≡ true = ground arith in
      rw (found, at, some_row at)
        (rw free (
          ap (Option.map (λ (r : RevisionRow). r.snapshot))
            (first_where-insert_row (is_revision row.id (suc row.revision)) _ db.revisions)
          ∙ rw
              (
                first_where-none (is_revision row.id (suc row.revision)) db.revisions free,
                eq_refl row.id,
                self,
              )
              refl))
