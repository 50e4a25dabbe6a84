-- ===== src/Memories/Moves/Commit.antt =====
-- `commitPreparedRemember` and the loop of `supersedeMemory` and `mergeMemories` as steps.
use agent_recall.Common.{
  String, true, Option, none, some, List, [], ◌∷◌, All, ◌≡◌, refl, subst, ◌∙◌, arith, str_eq,
  eq_iff, eq_refl, if◌then◌else◌, Bool-cases, inl, inr,
}
use agent_recall.Common.Table.{
  first_where, exists_where, insert_row, first_where-insert_row, first_where-none,
}
use agent_recall.Common.Effect.{returned}
use agent_recall.Budget.Rows.{superseded}
use agent_recall.Memories.Rows.{EntryRow, MemoryDb, has_id, get_entry, is_revision}
use agent_recall.Memories.Store.{
  patched, is_open, append_audit, update_entry, insert_entry, record_revision_row,
  record_revision_for_create,
}
use agent_recall.Memories.Inputs.{RequestContext}
use agent_recall.Memories.Context.{WriteContext, caller, revision_context}
use agent_recall.Memories.Prepare.{commit_prepared_remember}
use agent_recall.Memories.Replace.{
  Replacing, change_reason_of, supersede_patch, supersede_all, run_replace,
}
use agent_recall.Memories.Moves.{Writes, indexed-upsert_fts, recorded_row}
use agent_recall.Memories.Moves.Steps.{
  may_become, IsChange, created, changed, Steps-trans, here, after, found_own, update_entry-Writes,
}
use agent_recall.Memories.Moves.Methods.{Makes, bind-Makes, same-Writes, open_becomes}

-- the row with the writer's id
abbrev pub stamped : WriteContext → Option RequestContext → EntryRow → EntryRow
stamped w ctx entry = record entry { writer_actor_id = caller w ctx }

stored_new :
    (entry : EntryRow) (id : String) (db : MemoryDb)
    → get_entry entry.id db ≡ none
    → first_where (has_id id) (insert_row entry db.entries)
      ≡ (if str_eq entry.id id then some entry else get_entry id db)
stored_new entry id db missing = elim (Bool-cases (str_eq entry.id id)) [
  | inl t ↦
      let key : entry.id ≡ id = (eq_iff entry.id id).0 t in
      let free : get_entry id db ≡ none = subst (λ i. get_entry i db ≡ none) key missing in
      first_where-insert_row (has_id id) entry db.entries ∙ rw (free, t) refl
  | inr t ↦ first_where-insert_row (has_id id) entry db.entries ∙ ground (arith, t)
]

module _ (w : WriteContext) (entry : EntryRow) (first : entry.revision ≡ 1)
    (ctx : Option RequestContext) (now : String) (db : MemoryDb) where
  -- where the transaction returns, the id was free, and the entry is stored with revision 1
  pub commit-Writes :
      (commit_prepared_remember w entry ctx now db).0 ≡ returned tt
      → (get_entry entry.id db ≡ none)
        × Writes (stamped w ctx entry) db (commit_prepared_remember w entry ctx now db).1
  unfolding commit_prepared_remember insert_entry record_revision_for_create record_revision_row
      append_audit
  commit-Writes h = elim (Bool-cases (exists_where (has_id entry.id) db.entries)) [
    | inl e ↦ absurd (cc (rw e at h))
    | inr e ↦
        let missing = first_where-none (has_id entry.id) db.entries e in
        let there : first_where (has_id entry.id) (insert_row (stamped w ctx entry) db.entries)
            ≡ some (stamped w ctx entry) =
          stored_new (stamped w ctx entry) entry.id db missing ∙ rw (eq_refl entry.id) refl in
        elim (Bool-cases (exists_where (is_revision entry.id 1) db.revisions)) [
          | inl k ↦ absurd (cc (rw (e, there, k) at h))
          | inr k ↦ (
            missing,
            rw (e, there, k)
                (record {
                  stored = λ id. stored_new (stamped w ctx entry) id db missing;
                  recorded = λ id n. recorded_row db.revisions _ id n ∙ rw first refl;
                  searched = λ id. indexed-upsert_fts (stamped w ctx entry) id db.fts;
                }),
          )
        ]
  ]

  -- a new memory that is open is one step
  pub commit-Steps :
      is_open entry.status ≡ true → Makes db (commit_prepared_remember w entry ctx now db)
  commit-Steps opens a h =
      let (missing, writes) = commit-Writes h in
      after here (created (stamped w ctx entry) missing first opens writes)

-- the memory is there and may be superseded
abbrev pub Replaceable : String → MemoryDb → Type 0
Replaceable id db =
    (row : EntryRow) × (get_entry id db ≡ some row) × (may_become row.status superseded ≡ true)

abbrev pub AllReplaceable : List EntryRow → MemoryDb → Type 0
AllReplaceable olds db = All (λ old. Replaceable old.id db) olds

Replaceable-Writes :
    {entry : EntryRow} {db db' : MemoryDb}
    → Writes entry db db'
    → may_become entry.status superseded ≡ true
    → (id : String) → Replaceable id db
    → Replaceable id db'
Replaceable-Writes {entry} w may id (row, found, allowed) = elim (Bool-cases (str_eq entry.id id)) [
  | inl t ↦ (entry, w.stored id ∙ rw t refl, may)
  | inr t ↦ (row, w.stored id ∙ rw t found, allowed)
]

pub AllReplaceable-Writes :
    {entry : EntryRow} {db db' : MemoryDb}
    → Writes entry db db'
    → may_become entry.status superseded ≡ true
    → (olds : List EntryRow) → AllReplaceable olds db
    → AllReplaceable olds db'
AllReplaceable-Writes w may [] h = tt
AllReplaceable-Writes w may (old ∷ olds) h =
    (Replaceable-Writes w may old.id h.0, AllReplaceable-Writes w may olds h.1)

supersede-IsChange :
    (new_id now : String) (row : EntryRow)
    → may_become row.status superseded ≡ true
    → IsChange row (patched (supersede_patch new_id now) row)
supersede-IsChange new_id now row may = record {
  same_id = refl;
  same_scope = refl;
  same_project = refl;
  next_revision = refl;
  allowed = may;
  erased = λ gone. absurd (cc gone);
}

module _ (w : WriteContext) (kind : Replacing) (reason : String) (ctx : Option RequestContext)
    (now : String) where
  pub supersede_all-Steps :
      (new_id : String) (olds : List EntryRow) (db : MemoryDb)
      → AllReplaceable olds db
      → Makes db (supersede_all w kind new_id reason ctx now olds db)
  unfolding supersede_all append_audit
  supersede_all-Steps new_id [] db h a k = here
  supersede_all-Steps new_id (old ∷ olds) db h a k =
      let (row, found, may) = h.0 in
      let why = revision_context w ctx (change_reason_of kind) in
      let patch = supersede_patch new_id now in
      bind-Makes db (update_entry old.id patch why now db) _ a k (λ u wrote rest.
        let writes = update_entry-Writes old.id row db found patch why now wrote in
        let still = AllReplaceable-Writes writes refl olds h.1 in
        Steps-trans
          (after here (
            changed row (patched patch row) (found_own old.id row db found)
              (supersede-IsChange new_id now row may) (same-Writes writes)))
          (supersede_all-Steps new_id olds _ still a rest))

  pub run_replace-Steps :
      (replacement : EntryRow) (olds : List EntryRow) (db : MemoryDb)
      → replacement.revision ≡ 1
      → is_open replacement.status ≡ true
      → AllReplaceable olds db
      → Makes db (run_replace w kind reason ctx now (replacement, olds) db)
  unfolding run_replace
  run_replace-Steps replacement olds db first opens h a k =
      bind-Makes db (commit_prepared_remember w replacement ctx now db) _ a k (λ u wrote rest.
        let (missing, writes) = commit-Writes w replacement first ctx now db wrote in
        let one = commit-Steps w replacement first ctx now db opens u wrote in
        let still =
          AllReplaceable-Writes writes (open_becomes replacement.status superseded opens) olds h in
        Steps-trans one (
          bind-Makes _ (supersede_all w kind replacement.id reason ctx now olds _) _ a rest
            (λ v done last. supersede_all-Steps replacement.id olds _ still v done)))
