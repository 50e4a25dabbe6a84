-- ===== src/Memories/Moves.antt =====
-- What the statements of src/sqlite-store.ts on memories do to the memory with each id, to its revisions
-- and to its row in the search index.
pub mod Steps
pub mod Sound
pub mod Survival
pub mod Methods
pub mod Commit
pub mod Quiet
pub mod Passed
pub mod Landing
pub mod Services
use agent_recall.Common.{
  ℕ, suc, ◌==◌, String, Bool, true, false, not, ◌&&◌, ◌||◌, Option, none, some, List, [], ◌∷◌, ◌≡◌,
  refl, sym, ap, subst, ◌∙◌, arith, str_eq, eq_iff, eq_refl, if◌then◌else◌, Bool-cases,
  Option-cases, inl, inr,
}
use mathlib.Core.Option
use agent_recall.Common.Table.{
  first_where, exists_where, select_where, insert_row, update_where, count_where,
  first_where-update_where, first_where-insert_row, exists_where-insert_row, first_where_sound,
  exists_where-some, first_where-none,
}
use agent_recall.Common.Effect.{Outcome, returned, thrown, bind_returned}
use agent_recall.Budget.Rows.{MemoryStatus, active, archived, superseded, forgotten}
use agent_recall.Memories.Rows.{
  EntryRow, RevisionRow, FtsRow, MemoryDb, MemoryError, has_id, get_entry, is_revision, is_indexed,
}
use agent_recall.Memories.Store.{
  RevisionContext, fts_row, upsert_fts, record_revision_row, write_row, insert_entry,
}

abbrev pub has_revision : String → ℕ → MemoryDb → Bool
has_revision id n db = exists_where (is_revision id n) db.revisions

-- all rows of the search index with the id
abbrev pub indexed : String → MemoryDb → List FtsRow
indexed id db = select_where (is_indexed id) db.fts

-- `entry` is stored, searched by its texts, and has a revision of its number; all else is as before
pub record Writes (entry : EntryRow) (db db' : MemoryDb) : Type 0 where
  pub stored :
      (id : String)
      → get_entry id db' ≡ (if str_eq entry.id id then some entry else get_entry id db)
  pub recorded :
      (id : String) (n : ℕ)
      → has_revision id n db'
        ≡ (if has_revision id n db then true else str_eq entry.id id && entry.revision == n)
  pub searched :
      (id : String)
      → indexed id db' ≡ (if str_eq entry.id id then fts_row entry ∷ [] else indexed id db)

other_rows :
    (entry : EntryRow) (id : String) (fts : List FtsRow)
    → select_where (is_indexed id) (select_where (λ row. not (is_indexed entry.id row)) fts)
      ≡ (if str_eq entry.id id then [] else select_where (is_indexed id) fts)
unfolding select_where
other_rows entry id [] = ground arith
other_rows entry id (row ∷ rows) =
    ground (
      arith,
      other_rows entry id rows,
      eq_iff entry.id id,
      eq_iff row.id id,
      eq_iff row.id entry.id,
    )

inserted_rows :
    (id : String) (row : FtsRow) (fts : List FtsRow)
    → select_where (is_indexed id) fts ≡ []
    → select_where (is_indexed id) (insert_row row fts)
      ≡ (if str_eq row.id id then row ∷ [] else [])
unfolding select_where insert_row
inserted_rows id row [] h = refl
inserted_rows id row (other ∷ fts) h = elim (Bool-cases (is_indexed id other)) [
  | inl e ↦ absurd (cc (rw e at h))
  | inr e ↦ rw e (inserted_rows id row fts (rw e at h))
]

other_inserted :
    (id : String) (row : FtsRow) (fts : List FtsRow)
    → str_eq row.id id ≡ false
    → select_where (is_indexed id) (insert_row row fts) ≡ select_where (is_indexed id) fts
unfolding select_where insert_row
other_inserted id row [] h = rw h refl
other_inserted id row (other ∷ fts) h = rw (other_inserted id row fts h) refl

pub indexed-upsert_fts :
    (entry : EntryRow) (id : String) (fts : List FtsRow)
    → select_where (is_indexed id) (upsert_fts entry fts)
      ≡ (if str_eq entry.id id then fts_row entry ∷ [] else select_where (is_indexed id) fts)
unfolding upsert_fts
indexed-upsert_fts entry id fts =
    let others = select_where (λ row. not (is_indexed entry.id row)) fts in
    elim (Bool-cases (str_eq entry.id id)) [
      | inl e ↦
          let none_left : select_where (is_indexed id) others ≡ [] =
            other_rows entry id fts ∙ rw e refl in
          inserted_rows id (fts_row entry) others none_left ∙ rw e refl
      | inr e ↦ other_inserted id (fts_row entry) others e ∙ other_rows entry id fts ∙ rw e refl
    ]

-- an UPDATE that sets one row and keeps its id
module _ (picked : EntryRow → Bool) (set : EntryRow → EntryRow) (row : EntryRow) (db : MemoryDb)
    (narrow : (x : EntryRow) → picked x ≡ true → x.id ≡ row.id) (own : picked row ≡ true)
    (same : (x : EntryRow) → (set x).id ≡ row.id) (found : get_entry row.id db ≡ some row) where
  same_key : (id : String) (x : EntryRow) → picked x ≡ true → has_id id (set x) ≡ has_id id x
  same_key id x h = ap (λ (other : String). str_eq other id) (same x ∙ sym (narrow x h))

  updated_at :
      (id : String) (o : Option EntryRow)
      → get_entry id db ≡ o
      → Option.map (λ x. if picked x then set x else x) o
        ≡ (if str_eq row.id id then some (set row) else o)
  updated_at id none e = elim (Bool-cases (str_eq row.id id)) [
    | inr t ↦ rw t refl
    | inl t ↦
        let same_id : row.id ≡ id = (eq_iff row.id id).0 t in
        absurd (cc (subst (λ i. get_entry i db ≡ some row) same_id found, e))
  ]
  updated_at id (some x) e = elim (Bool-cases (str_eq row.id id)) [
    | inl t ↦
        let same_id : row.id ≡ id = (eq_iff row.id id).0 t in
        let there = subst (λ i. get_entry i db ≡ some row) same_id found in
        let is_row : x ≡ row = cc (there, e) in rw (t, is_row) (rw own refl)
    | inr t ↦ elim (Bool-cases (picked x)) [
      | inr k ↦ rw (t, k) refl
      | inl k ↦
          let key = (eq_iff x.id id).0 (first_where_sound (has_id id) db.entries x e) in
          absurd (cc (t, (eq_iff row.id id).1 (sym (narrow x k) ∙ key)))
    ]
  ]

  get_entry-update :
      (id : String)
      → first_where (has_id id) (update_where picked set db.entries)
        ≡ (if str_eq row.id id then some (set row) else get_entry id db)
  get_entry-update id =
      first_where-update_where (has_id id) picked set db.entries (same_key id)
      ∙ updated_at id (get_entry id db) refl

pub recorded_row :
    (revisions : List RevisionRow) (row : RevisionRow) (id : String) (n : ℕ)
    → exists_where (is_revision id n) (insert_row row revisions) ≡ (
        if exists_where (is_revision id n) revisions
        then true
        else str_eq row.memory_id id && row.revision == n)
recorded_row revisions row id n = exists_where-insert_row (is_revision id n) row revisions

-- the UPDATE with its index row and its revision row, where the latter is new
module _ (picked : EntryRow → Bool) (set : EntryRow → EntryRow) (row next : EntryRow)
    (db : MemoryDb) (narrow : (x : EntryRow) → picked x ≡ true → x.id ≡ row.id)
    (own : picked row ≡ true) (same : (x : EntryRow) → (set x).id ≡ row.id)
    (found : get_entry row.id db ≡ some row) (key : next.id ≡ row.id)
    (texts : fts_row (set row) ≡ fts_row next) (number : (set row).revision ≡ next.revision)
    (ctx : RevisionContext) (now : String) where
  written :
      has_revision next.id next.revision db ≡ false
      → (write_row picked set next ctx now db).0 ≡ returned tt
  unfolding record_revision_row
  written free = rw free refl

  write_row_lem :
      (write_row picked set next ctx now db).0 ≡ returned tt
      → Writes (set row) db (write_row picked set next ctx now db).1
  unfolding record_revision_row
  write_row_lem h = elim (Bool-cases (has_revision next.id next.revision db)) [
    | inl e ↦ absurd (cc (rw e at h))
    | inr e ↦
        let set_id : (set row).id ≡ row.id = same row in
        rw e (record {
          stored = λ id.
              get_entry-update picked set row db narrow own same found id
              ∙ ap (λ (k : String). if str_eq k id then some (set row) else get_entry id db)
                  (sym set_id);
          recorded =
              λ id n. recorded_row db.revisions _ id n ∙ rw (key ∙ sym set_id, sym number) refl;
          searched = λ id.
              indexed-upsert_fts next id db.fts
              ∙ ap (λ (k : String). if str_eq k id then fts_row next ∷ [] else indexed id db)
                  (key ∙ sym set_id)
              ∙ ap (λ (r : FtsRow). if str_eq (set row).id id then r ∷ [] else indexed id db)
                  (sym texts);
        })
  ]
