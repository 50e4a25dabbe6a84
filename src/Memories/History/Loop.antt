-- ===== src/Memories/History/Loop.antt =====
-- The transaction of `supersedeMemory` and `mergeMemories`: the commit, and the loop over the old memories.
use agent_recall.Common.{
  String, false, Option, none, some, List, [], ◌∷◌, All, ◌≡◌, refl, sym, ap, ◌∙◌, subst, str_eq,
  eq_iff, eq_refl, Bool-cases, inl, inr,
}
use agent_recall.Common.Effect.{returned, bind_returned}
use agent_recall.Budget.Rows.{superseded}
use agent_recall.Memories.Rows.{EntryRow, MemoryDb, get_entry}
use agent_recall.Memories.Store.{append_audit, update_entry}
use agent_recall.Memories.Inputs.{RequestContext, ok}
use agent_recall.Memories.Context.{WriteContext, revision_context}
use agent_recall.Memories.Prepare.{commit_prepared_remember}
use agent_recall.Memories.Replace.{
  Replacing, change_reason_of, supersede_patch, supersede_all, run_replace,
}
use agent_recall.Memories.Moves.{Writes}
use agent_recall.Memories.Moves.Steps.{found_id, update_entry-Writes}
use agent_recall.Memories.Moves.Commit.{
  stamped, commit-Writes, AllReplaceable, AllReplaceable-Writes,
}
use agent_recall.Memories.Moves.Methods.{open_becomes, same-Writes}
use agent_recall.Memories.Moves.Passed.{IsNew, same_value}

-- superseded by the memory with this id
pub record IsReplaced (new_id id : String) (db : MemoryDb) : Type 0 where
  pub row : EntryRow
  pub found : get_entry id db ≡ some row
  pub status : row.status ≡ superseded
  pub link : row.superseded_by ≡ some new_id

-- what the loop does
record Superseded (new_id : String) (olds : List EntryRow) (db db' : MemoryDb) : Type 0 where
  links : All (λ old. IsReplaced new_id old.id db') olds
  kept : (id : String) → IsReplaced new_id id db → IsReplaced new_id id db'
  others :
      (id : String)
      → All (λ old. str_eq old.id id ≡ false) olds
      → get_entry id db' ≡ get_entry id db

IsReplaced-Writes :
    {entry : EntryRow} {db db' : MemoryDb} (new_id id : String)
    → Writes entry db db'
    → entry.status ≡ superseded
    → entry.superseded_by ≡ some new_id
    → IsReplaced new_id id db
    → IsReplaced new_id id db'
IsReplaced-Writes {entry} new_id id w status link r = elim (Bool-cases (str_eq entry.id id)) [
  | inl t ↦ record { row = entry; found = w.stored id ∙ rw t refl; status = status; link = link }
  | inr t ↦ record {
    row = r.row;
    found = w.stored id ∙ rw t r.found;
    status = r.status;
    link = r.link;
  }
]

own_link :
    {entry : EntryRow} {db db' : MemoryDb} (new_id id : String)
    → Writes entry db db'
    → entry.status ≡ superseded
    → entry.superseded_by ≡ some new_id
    → entry.id ≡ id
    → IsReplaced new_id id db'
own_link {entry} new_id id w status link key = record {
  row = entry;
  found = w.stored id ∙ rw ((eq_iff entry.id id).1 key) refl;
  status = status;
  link = link;
}

module _ (w : WriteContext) (kind : Replacing) (reason : String) (ctx : Option RequestContext)
    (now new_id : String) where
  supersede_all_links :
      (olds : List EntryRow) (db : MemoryDb)
      → AllReplaceable olds db
      → (supersede_all w kind new_id reason ctx now olds db).0 ≡ returned tt
      → Superseded new_id olds db (supersede_all w kind new_id reason ctx now olds db).1
  unfolding supersede_all append_audit
  supersede_all_links [] db h k = record {
    links = tt;
    kept = λ id r. r;
    others = λ id none_of. refl;
  }
  supersede_all_links (old ∷ olds) db h k =
      let (row, found, may) = h.0 in
      let why = revision_context w ctx (change_reason_of kind) in
      let patch = supersede_patch new_id now in
      let (u, wrote, rest) = bind_returned (update_entry old.id patch why now db) _ tt k in
      let writes = update_entry-Writes old.id row db found patch why now wrote in
      let still = AllReplaceable-Writes writes refl olds h.1 in
      let later = supersede_all_links olds _ still (sym (ap (λ p. p.0) rest) ∙ k) in
      let key : row.id ≡ old.id = found_id old.id row db found in
      rw rest (record {
        links = (
          later.kept old.id (own_link new_id old.id (same-Writes writes) refl refl key),
          later.links,
        );
        kept = λ id r. later.kept id (IsReplaced-Writes new_id id (same-Writes writes) refl refl r);
        others = λ id none_of.
            later.others id none_of.1
            ∙ writes.stored id
            ∙ rw (ap (λ (k : String). str_eq k id) key ∙ none_of.0) refl;
      })

-- a memory that is not there yet has none of the ids of those that are
not_among :
    (new_id : String) (olds : List EntryRow) (db : MemoryDb)
    → get_entry new_id db ≡ none
    → AllReplaceable olds db
    → All (λ old. str_eq old.id new_id ≡ false) olds
not_among new_id [] db missing h = tt
not_among new_id (old ∷ olds) db missing h = (
  elim (Bool-cases (str_eq old.id new_id)) [
    | inr e ↦ e
    | inl e ↦
        let key : old.id ≡ new_id = (eq_iff old.id new_id).0 e in
        absurd (cc (subst (λ i. get_entry i db ≡ some h.0.0) key h.0.1, missing))
  ],
  not_among new_id olds db missing h.1,
)

-- The new memory is stored, and each old one is superseded by it.
pub record Replaces (new_id : String) (entry : EntryRow) (olds : List EntryRow) (db db' : MemoryDb)
    : Type 0 where
  pub fresh_id : get_entry entry.id db ≡ none
  pub answer : entry.id ≡ new_id
  pub stored : get_entry entry.id db' ≡ some entry
  pub links : All (λ old. IsReplaced entry.id old.id db') olds

module _ (w : WriteContext) (kind : Replacing) (reason : String) (ctx : Option RequestContext)
    (now : String) where
  pub run_replace_links :
      (replacement : EntryRow) (olds : List EntryRow) (db : MemoryDb) (new_id : String)
      → IsNew replacement
      → AllReplaceable olds db
      → (run_replace w kind reason ctx now (replacement, olds) db).0 ≡ returned (ok new_id)
      → Replaces new_id
          (stamped w ctx replacement)
          olds
          db
          (run_replace w kind reason ctx now (replacement, olds) db).1
  unfolding run_replace
  run_replace_links replacement olds db new_id new h k =
      let (u, wrote, rest) =
        bind_returned (commit_prepared_remember w replacement ctx now db) _ (ok new_id) k in
      let (missing, writes) = commit-Writes w replacement new.first ctx now db wrote in
      let still =
        AllReplaceable-Writes writes (open_becomes replacement.status superseded new.opens) olds
          h in
      let mid = (commit_prepared_remember w replacement ctx now db).1 in
      let (v, done, last) =
        bind_returned (supersede_all w kind replacement.id reason ctx now olds mid) _ (ok new_id)
          (sym (ap (λ p. p.0) rest) ∙ k) in
      let loop = supersede_all_links w kind reason ctx now replacement.id olds mid still done in
      rw (rest, last)
        (record {
          fresh_id = missing;
          answer = same_value (sym (ap (λ p. p.0) (rest ∙ last)) ∙ k);
          stored =
              loop.others replacement.id (not_among replacement.id olds db missing h)
              ∙ writes.stored replacement.id
              ∙ rw (eq_refl replacement.id) refl;
          links = loop.links;
        })
