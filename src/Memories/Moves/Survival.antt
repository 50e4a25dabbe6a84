-- ===== src/Memories/Moves/Survival.antt =====
-- A memory that is stored stays, whatever the statements do.
use agent_recall.Common.{
  ◌≤◌, String, true, false, none, some, ◌≡◌, refl, sym, ap, subst, ◌∙◌, arith, str_eq, eq_iff,
  eq_refl, Bool-cases, inl, inr,
}
use agent_recall.Budget.Rows.{MemoryStatus, active, archived, superseded, forgotten}
use agent_recall.Memories.Rows.{EntryRow, MemoryDb, get_entry}
use agent_recall.Memories.Moves.{Writes}
use agent_recall.Memories.Moves.Steps.{
  IsChange, may_become, Step, created, changed, noted, Steps, here, after, found_id,
}
use agent_recall.Memories.Moves.Sound.{same_some}

-- a memory is still there, in its scope, and came by allowed changes to a revision as high
pub record Survives (row : EntryRow) (db : MemoryDb) : Type 0 where
  pub survivor : EntryRow
  pub found : get_entry row.id db ≡ some survivor
  pub same_scope : survivor.scope ≡ row.scope
  pub same_project : survivor.project_id ≡ row.project_id
  pub allowed : may_become row.status survivor.status ≡ true
  pub later : row.revision ≤ survivor.revision

may_become_same : (status : MemoryStatus) → may_become status status ≡ true
may_become_same active = refl
may_become_same archived = refl
may_become_same superseded = refl
may_become_same forgotten = refl

may_become_trans :
    (a b c : MemoryStatus) → may_become a b ≡ true → may_become b c ≡ true → may_become a c ≡ true
may_become_trans active b c h k = refl
may_become_trans archived b c h k = refl
may_become_trans superseded active c h k = absurd (cc h)
may_become_trans superseded archived c h k = absurd (cc h)
may_become_trans superseded superseded c h k = k
may_become_trans superseded forgotten active h k = absurd (cc k)
may_become_trans superseded forgotten archived h k = absurd (cc k)
may_become_trans superseded forgotten superseded h k = refl
may_become_trans superseded forgotten forgotten h k = refl
may_become_trans forgotten active c h k = absurd (cc h)
may_become_trans forgotten archived c h k = absurd (cc h)
may_become_trans forgotten superseded c h k = absurd (cc h)
may_become_trans forgotten forgotten c h k = k

-- a memory that is found as it was
Survives-as_is : (row : EntryRow) (db : MemoryDb) → get_entry row.id db ≡ some row → Survives row db
Survives-as_is row db found = record {
  survivor = row;
  found = found;
  same_scope = refl;
  same_project = refl;
  allowed = may_become_same row.status;
  later = omega arith;
}

Survives-trans :
    {row : EntryRow} {db db' : MemoryDb}
    → (s : Survives row db) → s.survivor.id ≡ row.id
    → Survives s.survivor db'
    → Survives row db'
Survives-trans {row} {db} {db'} s key t = record {
  survivor = t.survivor;
  found = subst (λ i. get_entry i db' ≡ some t.survivor) key t.found;
  same_scope = t.same_scope ∙ s.same_scope;
  same_project = t.same_project ∙ s.same_project;
  allowed = may_become_trans row.status s.survivor.status t.survivor.status s.allowed t.allowed;
  later = omega (arith, s.later, t.later);
}

Survives-change :
    (row changed_row : EntryRow) (db : MemoryDb)
    → IsChange row changed_row
    → get_entry changed_row.id db ≡ some changed_row
    → Survives row db
Survives-change row changed_row db c found = record {
  survivor = changed_row;
  found = subst (λ i. get_entry i db ≡ some changed_row) c.same_id found;
  same_scope = c.same_scope;
  same_project = c.same_project;
  allowed = c.allowed;
  later = omega (arith, c.next_revision);
}

own_entry :
    {entry : EntryRow} {db db' : MemoryDb}
    → Writes entry db db'
    → get_entry entry.id db' ≡ some entry
own_entry {entry} w = w.stored entry.id ∙ rw (eq_refl entry.id) refl

other_entry :
    {entry : EntryRow} {db db' : MemoryDb}
    → Writes entry db db'
    → (id : String) → str_eq entry.id id ≡ false
    → get_entry id db' ≡ get_entry id db
other_entry w id t = w.stored id ∙ rw t refl

-- a memory that is there stays, by its own id
pub Step-Follows :
    {db db' : MemoryDb}
    → Step db db'
    → (row : EntryRow) → get_entry row.id db ≡ some row
    → Survives row db'
Step-Follows {db} {db'} (created entry missing number opens w) row found =
    elim (Bool-cases (str_eq entry.id row.id)) [
      | inl t ↦
          let key : entry.id ≡ row.id = (eq_iff entry.id row.id).0 t in
          absurd (cc (subst (λ i. get_entry i db ≡ none) key missing, found))
      | inr t ↦ Survives-as_is row db' (other_entry w row.id t ∙ found)
    ]
Step-Follows {db} {db'} (changed old changed_row there change w) row found =
    elim (Bool-cases (str_eq changed_row.id row.id)) [
      | inl t ↦
          let key : old.id ≡ row.id = sym change.same_id ∙ (eq_iff changed_row.id row.id).0 t in
          let same : old ≡ row =
            same_some (sym there ∙ ap (λ (i : String). get_entry i db) key ∙ found) in
          subst (λ r. Survives r db') same
            (Survives-change old changed_row db' change (own_entry w))
      | inr t ↦ Survives-as_is row db' (other_entry w row.id t ∙ found)
    ]
Step-Follows {db} {db'} (noted entries revisions fts) row found =
    Survives-as_is row db' (rw entries found)

pub Steps-Follows :
    {db db' : MemoryDb}
    → Steps db db'
    → (row : EntryRow) → get_entry row.id db ≡ some row
    → Survives row db'
Steps-Follows {db} {db'} here row found = Survives-as_is row db' found
Steps-Follows (after {db'} r st) row found =
    let s = Steps-Follows r row found in
    let key = found_id row.id s.survivor db' s.found in
    Survives-trans s key (
      Step-Follows st s.survivor (subst (λ i. get_entry i db' ≡ some s.survivor) (sym key) s.found))
