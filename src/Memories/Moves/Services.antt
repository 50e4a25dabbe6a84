-- ===== src/Memories/Moves/Services.antt =====
-- The public methods of the write service as steps of the memories, whether they return or throw.
use agent_recall.Memories.Moves.Landing.{Lands, stays, keyed-Lands, probe-Lands}
use agent_recall.Common.{
  ℕ, String, true, Option, none, some, List, ◌≡◌, refl, sym, get_or, Bool-cases, Option-cases, inl,
  inr,
}
use mathlib.Core.Option
use agent_recall.Common.Effect.{Outcome, returned, thrown, continue_with}
use agent_recall.Budget.Within.{is_accepted}
use agent_recall.Idempotency.Rows.{Db, Args}
use agent_recall.Idempotency.Service.{Json, on_tables}
use agent_recall.Scopes.Inputs.{Stamp}
use agent_recall.Memories.Rows.{EntryRow, MemoryDb, MemoryError, get_entry}
use agent_recall.Memories.Store.{patched, is_open}
use agent_recall.Memories.Inputs.{
  WritableStatus, UpdateInput, RememberInput, RequestContext, WriteError, invalid_state,
  unauthorized, capacity_exceeded, Result, ok, err, stored_status,
}
use agent_recall.Memories.Context.{WriteEffect, WriteContext, is_authorized, refuse_entry}
use agent_recall.Memories.Room.{budget_for, evaluate_entry_budget}
use agent_recall.Memories.Update.{patch_of, update_checked, update_validated, update_memory, is_one}
use agent_recall.Memories.Forget.{forget_memory}
use agent_recall.Memories.Replace.{
  Replacing, unique, prepare_replace, run_replace, replace_memories,
}
use agent_recall.Memories.Remember.{on_ok, prepare, commit_entry, remember}
use agent_recall.Memories.Prepare.{commit_prepared_remember}
use agent_recall.Memories.Moves.Steps.{Steps-trans}
use agent_recall.Memories.Moves.Methods.{
  Makes, bind-Makes, open-IsChange, run_update-Steps, run_forget-Steps,
}
use agent_recall.Memories.Moves.Commit.{commit-Steps, run_replace-Steps}
use agent_recall.Memories.Moves.Quiet.{
  SameMemories, same-Steps, refuse_entry-IsQuiet, prepare-IsQuiet,
}
use agent_recall.Memories.Moves.Passed.{
  IsNew, prepare-IsNew, prepare_replace-IsQuiet, prepare_replace-IsFit,
}

still_open :
    (status : Option WritableStatus) (entry : EntryRow)
    → is_open entry.status ≡ true
    → is_open (get_or (Option.map stored_status status) entry.status) ≡ true
still_open none entry opens = opens
still_open (some WritableStatus.active) entry opens = refl
still_open (some WritableStatus.archived) entry opens = refl

module _ (w : WriteContext) (args : Option Args) (ctx : Option RequestContext) (stamp : Stamp)
    (db : Db MemoryDb) (depth : db.transaction_depth ≡ 0) where
  refused-Lands :
      (A : Type 0) (entry : EntryRow) (e : WriteError)
      → Lands db (on_tables (refuse_entry w {A = A} entry e stamp.now_iso) db).1
  refused-Lands A entry e = record {
    closed = depth;
    steps = same-Steps (refuse_entry-IsQuiet w A entry e stamp.now_iso db.tables);
  }

  update_checked-Lands :
      (json : Json (Result String)) (id : String) (current : EntryRow) (input : UpdateInput)
      → get_entry id db.tables ≡ some current
      → is_open current.status ≡ true
      → Lands db (update_checked w json id current input args ctx stamp db).1
  unfolding update_checked
  update_checked-Lands json id current input found opens =
      let patch = patch_of input current stamp.now_iso in
      let next = patched patch current in
      elim (Bool-cases (is_authorized w input.trust_level input.sensitivity input.capability)) [
        | inr e ↦ rw e (refused-Lands String current unauthorized)
        | inl e ↦
            elim (Bool-cases (
              is_accepted (
                evaluate_entry_budget w next (budget_for next db.tables) (is_one w id)
                  db.tables))) [
                    | inr k ↦ rw (e, k) (refused-Lands String current capacity_exceeded)
                    | inl k ↦
                        rw (e, k)
                          (keyed-Lands json args stamp.now_ms _ db depth (
                            run_update-Steps w id current db.tables found ctx stamp.now_iso patch
                              input.expected_revision
                              (open-IsChange patch current opens
                                (still_open input.status current opens))))
                  ]
      ]

  pub update_memory-Lands :
      (json : Json (Result String)) (id : String) (input : UpdateInput)
      → Lands db (update_memory w json id input args ctx stamp db).1
  unfolding update_memory
  update_memory-Lands json id input = elim (Option-cases (get_entry id db.tables)) [
    | inl missing ↦ rw missing (stays db depth)
    | inr (current, found) ↦ rw found (elim (Bool-cases (is_open current.status)) [
      | inr e ↦ rw e (refused-Lands String current invalid_state)
      | inl e ↦ rw e (validated json id current found e (w.validate_update input))
    ])
  ]
    where
      validated :
          (json : Json (Result String)) (id : String) (current : EntryRow)
          → get_entry id db.tables ≡ some current
          → is_open current.status ≡ true
          → (v : Result UpdateInput)
          → Lands db (update_validated w json id current args ctx stamp v db).1
      validated json id current found opens (err e) = refused-Lands String current e
      validated json id current found opens (ok input) =
          update_checked-Lands json id current input found opens

  pub forget_memory-Lands :
      (json : Json (Result (String × ℕ))) (id reason : String) (expected : Option ℕ)
      → Lands db (forget_memory w json id reason expected args ctx stamp db).1
  unfolding forget_memory
  forget_memory-Lands json id reason expected =
      probe-Lands json args _ db depth (elim (Option-cases (get_entry id db.tables)) [
        | inl missing ↦ rw missing (stays db depth)
        | inr (current, found) ↦ rw found (
            keyed-Lands json args stamp.now_ms _ db depth
              (run_forget-Steps w id current db.tables found ctx stamp.now_iso reason expected))
      ])

-- checks that write no memory, and then the transaction
checked-Lands :
    {A B : Type 0} (db : Db MemoryDb) (p : Outcome MemoryError (Result A) × MemoryDb)
    (f : A → WriteEffect (Result B))
    → db.transaction_depth ≡ 0
    → SameMemories db.tables p.1
    → ((a : A)
        → p.0 ≡ returned (ok a)
        → Lands (record db { tables = p.1 }) (f a (record db { tables = p.1 })).1)
    → Lands db (continue_with p.0 (record db { tables = p.1 }) (on_ok f)).1
checked-Lands db (returned (ok a), later) f depth quiet k =
    let l = k a refl in record { closed = l.closed; steps = Steps-trans (same-Steps quiet) l.steps }
checked-Lands db (returned (err e), later) f depth quiet k = record {
  closed = depth;
  steps = same-Steps quiet;
}
checked-Lands db (thrown e, later) f depth quiet k = record {
  closed = depth;
  steps = same-Steps quiet;
}

module _ (w : WriteContext) (args : Option Args) (ctx : Option RequestContext) (stamp : Stamp)
    (db : Db MemoryDb) (depth : db.transaction_depth ≡ 0) (json : Json (Result String)) where
  commit_entry-Makes :
      (entry : EntryRow) (tables : MemoryDb)
      → IsNew entry
      → Makes tables (commit_entry w ctx stamp.now_iso entry tables)
  commit_entry-Makes entry tables new a h =
      bind-Makes tables (commit_prepared_remember w entry ctx stamp.now_iso tables) _ a h
        (λ u wrote rest. commit-Steps w entry new.first ctx stamp.now_iso tables new.opens u wrote)

  pub remember-Lands :
      (input : RememberInput) (id : String)
      → Lands db (remember w json input id args ctx stamp db).1
  unfolding remember
  remember-Lands input id = probe-Lands json args _ db depth (
      checked-Lands db (prepare w input id stamp db.tables) _ depth
        (prepare-IsQuiet w input id stamp db.tables)
        (λ entry passed.
          keyed-Lands json args stamp.now_ms (commit_entry w ctx stamp.now_iso entry) _ depth
            (commit_entry-Makes entry _ (prepare-IsNew w input id stamp db.tables entry passed))))

  pub replace_memories-Lands :
      (kind : Replacing) (old_ids : List String) (input : RememberInput) (reason id : String)
      → Lands db (replace_memories w kind json old_ids input reason id args ctx stamp db).1
  unfolding replace_memories
  replace_memories-Lands kind old_ids input reason id =
      let prepared = prepare_replace w kind input (unique old_ids) id stamp db.tables in
      let quiet = prepare_replace-IsQuiet w kind input (unique old_ids) id stamp db.tables in
      probe-Lands json args _ db depth (
        checked-Lands db prepared _ depth quiet (λ fit passed.
          let (new, there) =
            prepare_replace-IsFit w kind input (unique old_ids) id stamp db.tables fit passed in
          keyed-Lands json args stamp.now_ms (run_replace w kind reason ctx stamp.now_iso fit) _
            depth
            (run_replace-Steps w kind reason ctx stamp.now_iso fit.0 fit.1 _ new.first new.opens
              (rw (sym quiet.entries) at there))))
