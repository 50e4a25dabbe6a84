-- ===== src/Memories/Moves/Sound.antt =====
-- What every step of the memories keeps.
use agent_recall.Common.{
  ℕ, suc, ◌==◌, String, Bool, true, false, ◌&&◌, Option, none, some, List, [], ◌∷◌, ◌≡◌, ◌⊎◌, refl,
  sym, ap, subst, ◌∙◌, arith, str_eq, eq_iff, ltb, leb, if◌then◌else◌, Bool-cases, inl, inr,
}
use agent_recall.Budget.Rows.{MemoryStatus, active, archived, superseded, forgotten}
use agent_recall.Memories.Rows.{EntryRow, FtsRow, MemoryDb, get_entry}
use agent_recall.Memories.Store.{fts_row, is_open}
use agent_recall.Memories.Moves.{Writes, has_revision, indexed}
use agent_recall.Memories.Moves.Steps.{IsErased, Step, created, changed, noted, Steps, here, after}

abbrev pub index_rows : Option EntryRow → List FtsRow
index_rows none = []
index_rows (some entry) = fts_row entry ∷ []

pub record IsSound (db : MemoryDb) : Type 0 where
  -- no revisions without their memory
  pub owned : (id : String) (n : ℕ) → get_entry id db ≡ none → has_revision id n db ≡ false
  -- the revisions of a memory are 1 to its own number
  pub counted :
      (id : String) (row : EntryRow) (n : ℕ)
      → get_entry id db ≡ some row
      → has_revision id n db ≡ (ltb 0 n && leb n row.revision)
  -- the search index has one row for each memory, with its texts, and none for another id
  pub searchable : (id : String) → indexed id db ≡ index_rows (get_entry id db)
  -- a forgotten memory has no text
  pub erased :
      (id : String) (row : EntryRow)
      → get_entry id db ≡ some row
      → row.status ≡ forgotten
      → IsErased row

pub same_some : {A : Type 0} {a b : A} → ◌≡◌ {A = Option A} (some a) (some b) → a ≡ b
same_some h = cc

-- an entry is written: what is then found by an id
written_or_old :
    {entry : EntryRow} {db db' : MemoryDb}
    → Writes entry db db'
    → (id : String) (row : EntryRow) → get_entry id db' ≡ some row
    → ((str_eq entry.id id ≡ true) × (entry ≡ row))
      ⊎ ((str_eq entry.id id ≡ false) × (get_entry id db ≡ some row))
written_or_old {entry} w id row found =
    let e = sym (w.stored id) ∙ found in
    elim (Bool-cases (str_eq entry.id id)) [
      | inl t ↦ inl (t, same_some (rw t at e))
      | inr t ↦ inr (t, rw t at e)
    ]

none_before :
    {entry : EntryRow} {db db' : MemoryDb}
    → Writes entry db db'
    → (id : String) → get_entry id db' ≡ none
    → (str_eq entry.id id ≡ false) × (get_entry id db ≡ none)
none_before {entry} w id missing =
    let e = sym (w.stored id) ∙ missing in
    elim (Bool-cases (str_eq entry.id id)) [
      | inl t ↦ absurd (cc (rw t at e))
      | inr t ↦ (t, rw t at e)
    ]

searchable_after :
    {entry : EntryRow} {db db' : MemoryDb}
    → Writes entry db db'
    → IsSound db
    → (id : String) → indexed id db' ≡ index_rows (get_entry id db')
searchable_after {entry} {db} {db'} w s id = elim (Bool-cases (str_eq entry.id id)) [
  | inl t ↦
      let now : get_entry id db' ≡ some entry = w.stored id ∙ rw t refl in
      w.searched id ∙ rw (t, now) refl
  | inr t ↦
      let kept : get_entry id db' ≡ get_entry id db = w.stored id ∙ rw t refl in
      w.searched id ∙ rw (t, kept) (s.searchable id)
]

-- the numbers 1 to n and n + 1 are the numbers 1 to n + 1
one_more :
    (before : Bool) (r m n : ℕ)
    → before ≡ (ltb 0 n && leb n r)
    → m ≡ suc r
    → (if before then true else m == n) ≡ (ltb 0 n && leb n m)
one_more before r m n h e = ground arith

first_number :
    (before : Bool) (m n : ℕ)
    → before ≡ false
    → m ≡ 1
    → (if before then true else m == n) ≡ (ltb 0 n && leb n m)
first_number before m n h e = ground arith

-- the revisions of a memory other than the one that is written
others_counted :
    {entry : EntryRow} {db db' : MemoryDb}
    → Writes entry db db'
    → IsSound db
    → (id : String) (n : ℕ) → str_eq entry.id id ≡ false
    → has_revision id n db' ≡ has_revision id n db
others_counted w s id n other = w.recorded id n ∙ ground (arith, other)

own_counted :
    {entry : EntryRow} {db db' : MemoryDb}
    → Writes entry db db'
    → (id : String) (n : ℕ) → str_eq entry.id id ≡ true
    → has_revision id n db' ≡ (if has_revision id n db then true else entry.revision == n)
own_counted w id n own = w.recorded id n ∙ rw own refl

module _ {entry : EntryRow} {db db' : MemoryDb} (w : Writes entry db db') (s : IsSound db)
    (own_numbers : (n : ℕ)
      → (if has_revision entry.id n db then true else entry.revision == n)
        ≡ (ltb 0 n && leb n entry.revision))
    (own_text : entry.status ≡ forgotten → IsErased entry) where
  counted_after :
      (id : String) (row : EntryRow) (n : ℕ)
      → get_entry id db' ≡ some row
      → has_revision id n db' ≡ (ltb 0 n && leb n row.revision)
  counted_after id row n found = elim (written_or_old w id row found) [
    | inl (t, same) ↦
        let key : entry.id ≡ id = (eq_iff entry.id id).0 t in
        own_counted w id n t
        ∙ subst
            (λ (i : String).
              (if has_revision i n db then true else entry.revision == n)
              ≡ (ltb 0 n && leb n row.revision))
            key
            (subst
              (λ (r : EntryRow).
                (if has_revision entry.id n db then true else entry.revision == n)
                ≡ (ltb 0 n && leb n r.revision))
              same (own_numbers n))
    | inr (t, old) ↦ others_counted w s id n t ∙ s.counted id row n old
  ]

  Writes-IsSound : IsSound db'
  Writes-IsSound = record {
    owned = λ id n missing.
        let (t, before) = none_before w id missing in
        others_counted w s id n t ∙ s.owned id n before;
    counted = counted_after;
    searchable = searchable_after w s;
    erased = λ id row found gone. elim (written_or_old w id row found) [
      | inl (t, same) ↦ subst IsErased same (own_text (ap (λ (r : EntryRow). r.status) same ∙ gone))
      | inr (t, old) ↦ s.erased id row old gone
    ];
  }

open_not_forgotten : (status : MemoryStatus) → is_open status ≡ true → status ≡ forgotten → ⊥
open_not_forgotten active h e = cc
open_not_forgotten archived h e = cc
open_not_forgotten superseded h e = cc
open_not_forgotten forgotten h e = cc

pub Step-IsSound : {db db' : MemoryDb} → Step db db' → IsSound db → IsSound db'
Step-IsSound {db} {db'} (created entry missing number opens w) s =
    Writes-IsSound w s
      (λ n.
        first_number (has_revision entry.id n db) entry.revision n (s.owned entry.id n missing)
          number)
      (λ gone. absurd (open_not_forgotten entry.status opens gone))
Step-IsSound {db} {db'} (changed row next found change w) s =
    Writes-IsSound w s
      (λ n.
        one_more (has_revision next.id n db) row.revision next.revision n
          (ap (λ (i : String). has_revision i n db) change.same_id ∙ s.counted row.id row n found)
          change.next_revision)
      change.erased
Step-IsSound {db} {db'} (noted entries revisions fts) s = record {
  owned = λ id n missing. rw revisions (s.owned id n (rw entries at missing));
  counted = λ id row n found. rw revisions (s.counted id row n (rw entries at found));
  searchable = λ id. rw (fts, entries) (s.searchable id);
  erased = λ id row found gone. s.erased id row (rw entries at found) gone;
}

pub Steps-IsSound : {db db' : MemoryDb} → Steps db db' → IsSound db → IsSound db'
Steps-IsSound here s = s
Steps-IsSound (after r st) s = Step-IsSound st (Steps-IsSound r s)
