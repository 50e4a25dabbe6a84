-- ===== src/Memories/Moves/Methods.antt =====
-- The transactions of the write service as steps.
use agent_recall.Common.{
  ℕ, String, true, Option, none, some, List, ◌≡◌, refl, get_or, Bool-cases, inl, inr, ◌==◌,
}
use agent_recall.Common.Effect.{Outcome, returned, thrown, continue_with}
use agent_recall.Budget.Rows.{MemoryStatus, active, archived, superseded, forgotten}
use agent_recall.Memories.Rows.{EntryRow, AuditRow, MemoryDb, MemoryError, MemoryEffect, get_entry}
use agent_recall.Memories.Store.{
  EntryPatch, patched, patched_now, all_but_tier, is_open, append_audit, update_entry,
  update_entry_with_revision,
}
use agent_recall.Memories.Inputs.{RequestContext}
use agent_recall.Memories.Context.{WriteContext, revision_context}
use agent_recall.Memories.Update.{event_name, run_update}
use agent_recall.Memories.Forget.{forget_patch, run_forget}
use agent_recall.Memories.Moves.{Writes}
use agent_recall.Memories.Moves.Steps.{
  may_become, IsChange, changed, noted, Steps, here, after, found_own, update_entry-Writes,
  cas-Writes, cas_refused,
}

-- the same memories, revisions and index
pub same-Writes :
    {entry : EntryRow} {db db' : MemoryDb} {audit : List AuditRow}
    → Writes entry db db'
    → Writes entry db (record db' { audit = audit })
same-Writes w = record { stored = w.stored; recorded = w.recorded; searched = w.searched }

-- what a transaction that returns does
abbrev pub Makes : {A : Type 0} → MemoryDb → Outcome MemoryError A × MemoryDb → Type 0
Makes {A} db p = (a : A) → p.0 ≡ returned a → Steps db p.1

pub bind-Makes :
    {A B : Type 0} (db : MemoryDb) (p : Outcome MemoryError A × MemoryDb) (f : A → MemoryEffect B)
    (b : B)
    → (continue_with p.0 p.1 f).0 ≡ returned b
    → ((a : A) → p.0 ≡ returned a → (f a p.1).0 ≡ returned b → Steps db (f a p.1).1)
    → Steps db (continue_with p.0 p.1 f).1
bind-Makes db (returned a, s) f b h k = k a refl h
bind-Makes db (thrown e, s) f b h k = absurd (cc h)

pub open_becomes : (a b : MemoryStatus) → is_open a ≡ true → may_become a b ≡ true
open_becomes active b h = refl
open_becomes archived b h = refl
open_becomes superseded b h = absurd (cc h)
open_becomes forgotten b h = absurd (cc h)

all_forgettable : (a : MemoryStatus) → may_become a forgotten ≡ true
all_forgettable active = refl
all_forgettable archived = refl
all_forgettable superseded = refl
all_forgettable forgotten = refl

open_not_forgotten : (status : MemoryStatus) → is_open status ≡ true → status ≡ forgotten → ⊥
open_not_forgotten active h e = cc
open_not_forgotten archived h e = cc
open_not_forgotten superseded h e = cc
open_not_forgotten forgotten h e = cc

-- a patch that leaves an open memory open
pub open-IsChange :
    (patch : EntryPatch) (row : EntryRow)
    → is_open row.status ≡ true
    → is_open (get_or patch.status row.status) ≡ true
    → IsChange row (patched patch row)
open-IsChange patch row opens stays = record {
  same_id = refl;
  same_scope = refl;
  same_project = refl;
  next_revision = refl;
  allowed = open_becomes row.status (get_or patch.status row.status) opens;
  erased = λ gone. absurd (open_not_forgotten (get_or patch.status row.status) stays gone);
}

forget-IsChange : (now : String) (row : EntryRow) → IsChange row (patched (forget_patch now) row)
forget-IsChange now row = record {
  same_id = refl;
  same_scope = refl;
  same_project = refl;
  next_revision = refl;
  allowed = all_forgettable row.status;
  erased = λ gone. record { body = refl; tags = refl; char_count = refl };
}

-- what the compare-and-swap stores is the same change, less the tier
cas-IsChange :
    (patch : EntryPatch) (now : String) (row : EntryRow)
    → IsChange row (patched patch row)
    → IsChange row (all_but_tier (patched_now patch now row) row)
cas-IsChange patch now row c = record {
  same_id = c.same_id;
  same_scope = c.same_scope;
  same_project = c.same_project;
  next_revision = c.next_revision;
  allowed = c.allowed;
  erased = λ gone.
      let e = c.erased gone in record { body = e.body; tags = e.tags; char_count = e.char_count };
}

module _ (w : WriteContext) (id : String) (current : EntryRow) (db : MemoryDb)
    (found : get_entry id db ≡ some current) (ctx : Option RequestContext) (now : String) where
  pub run_update-Steps :
      (patch : EntryPatch) (expected : Option ℕ)
      → IsChange current (patched patch current)
      → Makes db (run_update w id current patch expected ctx now db)
  unfolding run_update append_audit
  run_update-Steps patch none c a h =
      let why = revision_context w ctx (event_name current patch) in
      bind-Makes db (update_entry id patch why now db) _ a h (λ u wrote rest. after here (
        changed current (patched patch current) (found_own id current db found) c
          (same-Writes (update_entry-Writes id current db found patch why now wrote))))
  run_update-Steps patch (some expected) c a h =
      let why = revision_context w ctx (event_name current patch) in
      elim (Bool-cases (current.revision == expected)) [
        | inr other ↦
            rw (cas_refused id current db found patch expected why now other)
              (after here (noted refl refl refl))
        | inl at ↦
            bind-Makes db (update_entry_with_revision id patch expected why now db) _ a h
              (λ b wrote rest.
                let (done, writes) =
                  cas-Writes id current db found patch expected why now at b wrote in
                rw done (
                  after here (
                    changed current (all_but_tier (patched_now patch now current) current)
                      (found_own id current db found) (cas-IsChange patch now current c)
                      (same-Writes writes))))
      ]

  pub run_forget-Steps :
      (reason : String) (expected : Option ℕ)
      → Makes db (run_forget w id current reason expected ctx now db)
  unfolding run_forget append_audit
  run_forget-Steps reason none a h =
      let why = revision_context w ctx reason in
      let patch = forget_patch now in
      bind-Makes db (update_entry id patch why now db) _ a h (λ u wrote rest. after here (
        changed current (patched patch current) (found_own id current db found)
          (forget-IsChange now current)
          (same-Writes (update_entry-Writes id current db found patch why now wrote))))
  run_forget-Steps reason (some expected) a h =
      let why = revision_context w ctx reason in
      let patch = forget_patch now in
      elim (Bool-cases (current.revision == expected)) [
        | inr other ↦ rw (cas_refused id current db found patch expected why now other) here
        | inl at ↦
            bind-Makes db (update_entry_with_revision id patch expected why now db) _ a h
              (λ b wrote rest.
                let (done, writes) =
                  cas-Writes id current db found patch expected why now at b wrote in
                rw done (
                  after here (
                    changed current (all_but_tier (patched_now patch now current) current)
                      (found_own id current db found)
                      (cas-IsChange patch now current (forget-IsChange now current))
                      (same-Writes writes))))
      ]
