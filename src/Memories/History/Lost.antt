-- ===== src/Memories/History/Lost.antt =====
-- Updates that expect a revision, and what their compare-and-swap stores.
use agent_recall.Common.{
  ℕ, suc, ◌==◌, String, true, Option, none, some, List, ◌≡◌, ◌≢◌, refl, sym, ap, ◌∙◌, subst, arith,
  str_eq, eq_iff, Bool-cases, Option-cases, inl, inr,
}
use agent_recall.Common.Effect.{Outcome, returned, thrown, bind_returned}
use agent_recall.Budget.Within.{is_accepted}
use agent_recall.Idempotency.Rows.{Db, close_transaction}
use agent_recall.Idempotency.Service.{Json, on_tables}
use agent_recall.Scopes.Inputs.{Stamp}
use agent_recall.Memories.Rows.{EntryRow, MemoryDb, MemoryError, get_entry}
use agent_recall.Memories.Store.{
  EntryPatch, patched, patched_now, all_but_tier, is_open, append_audit, update_entry_with_revision,
}
use agent_recall.Memories.Inputs.{UpdateInput, RequestContext, Result, ok}
use agent_recall.Memories.Context.{WriteContext, is_authorized, revision_context}
use agent_recall.Memories.Room.{budget_for, evaluate_entry_budget}
use agent_recall.Memories.Update.{
  patch_of, event_name, after_cas, run_update, update_checked, update_memory, is_one,
}
use agent_recall.Memories.Moves.Steps.{found_id, cas_refused, cas-Writes}
use agent_recall.Memories.Moves.Services.{update_memory-Lands}
use agent_recall.Memories.Moves.Landing.{transaction_lem}
use agent_recall.Memories.History.{Call, Request, after_calls, calls-Lands, after_calls-Survives}

-- the memory was at the expected revision and is at the next one
pub record Advances (id : String) (expected : ℕ) (db db' : MemoryDb) : Type 0 where
  pub before : EntryRow
  pub found : get_entry id db ≡ some before
  pub at_expected : before.revision == expected ≡ true
  pub later : EntryRow
  pub stored : get_entry id db' ≡ some later
  pub next : later.revision ≡ suc before.revision

-- what COMMIT or ROLLBACK gives back
pub close_returned :
    {A : Type 0} (before : Db MemoryDb) (p : Outcome MemoryError A × Db MemoryDb) (a : A)
    → (close_transaction before p).0 ≡ returned a
    → (p.0 ≡ returned a) × ((close_transaction before p).1.tables ≡ p.1.tables)
close_returned before (returned b, later) a h = (h, refl)
close_returned before (thrown e, later) a h = absurd (cc h)

module _ (w : WriteContext) (id : String) (current : EntryRow) (patch : EntryPatch) (expected : ℕ)
    (ctx : Option RequestContext) (now : String) (db : MemoryDb)
    (found : get_entry id db ≡ some current) where
  run_update_ok :
      (answer : String)
      → (run_update w id current patch (some expected) ctx now db).0 ≡ returned (ok answer)
      → Advances id expected db (run_update w id current patch (some expected) ctx now db).1
  unfolding run_update append_audit
  run_update_ok answer h =
      let why = revision_context w ctx (event_name current patch) in
      elim (Bool-cases (current.revision == expected)) [
        | inr other ↦
            absurd (cc (rw (cas_refused id current db found patch expected why now other) at h))
        | inl at ↦
            let (b, wrote, rest) =
              bind_returned (update_entry_with_revision id patch expected why now db)
                (after_cas w id current patch ctx now) (ok answer) h in
            let (done, writes) = cas-Writes id current db found patch expected why now at b wrote in
            let next = all_but_tier (patched_now patch now current) current in
            let own : str_eq current.id id ≡ true =
              (eq_iff current.id id).1 (found_id id current db found) in
            rw (rest, done)
              (record {
                before = current;
                found = found;
                at_expected = at;
                later = next;
                stored = writes.stored id ∙ rw own refl;
                next = refl;
              })
      ]

  expecting_ok :
      (revision : Option ℕ) (answer : String)
      → revision ≡ some expected
      → (run_update w id current patch revision ctx now db).0 ≡ returned (ok answer)
      → Advances id expected db (run_update w id current patch revision ctx now db).1
  expecting_ok revision answer e =
      subst
        (λ (r : Option ℕ).
          (run_update w id current patch r ctx now db).0 ≡ returned (ok answer)
          → Advances id expected db (run_update w id current patch r ctx now db).1)
        (sym e) (run_update_ok answer)

module _ (w : WriteContext) (json : Json (Result String)) (id : String)
    (ctx : Option RequestContext) (stamp : Stamp) (expected : ℕ) (db : Db MemoryDb)
    (depth : db.transaction_depth ≡ 0) where
  checked_ok :
      (current : EntryRow) (input : UpdateInput) (answer : String)
      → get_entry id db.tables ≡ some current
      → input.expected_revision ≡ some expected
      → (update_checked w json id current input none ctx stamp db).0 ≡ returned (ok answer)
      → Advances id expected db.tables
          (update_checked w json id current input none ctx stamp db).1.tables
  unfolding update_checked append_audit
  checked_ok current input answer found expects h =
      let patch = patch_of input current stamp.now_iso in
      let next = patched patch current in
      let work = run_update w id current patch input.expected_revision ctx stamp.now_iso in
      elim (Bool-cases (is_authorized w input.trust_level input.sensitivity input.capability)) [
        | inr e ↦ absurd (cc (rw e at h))
        | inl e ↦
            elim (Bool-cases (
              is_accepted (
                evaluate_entry_budget w next (budget_for next db.tables) (is_one w id)
                  db.tables))) [
                    | inr k ↦ absurd (cc (rw (e, k) at h))
                    | inl k ↦
                        let closed = transaction_lem json (on_tables work) db depth in
                        let (done, kept) =
                          close_returned db (on_tables work (record db { transaction_depth = 1 }))
                            (ok answer) (rw closed at (rw (e, k) at h)) in
                        rw (e, k)
                          (rw (closed, kept)
                            (expecting_ok w id current patch expected ctx stamp.now_iso db.tables
                              found input.expected_revision answer expects done))
                  ]
      ]

  -- an update that names a revision and is accepted
  update_ok :
      (input checked : UpdateInput) (answer : String)
      → w.validate_update input ≡ ok checked
      → checked.expected_revision ≡ some expected
      → (update_memory w json id input none ctx stamp db).0 ≡ returned (ok answer)
      → Advances id expected db.tables (update_memory w json id input none ctx stamp db).1.tables
  unfolding update_memory append_audit
  update_ok input checked answer valid expects h = elim (Option-cases (get_entry id db.tables)) [
    | inl missing ↦ absurd (cc (rw missing at h))
    | inr (current, found) ↦ elim (Bool-cases (is_open current.status)) [
      | inr e ↦ absurd (cc (rw e at (rw found at h)))
      | inl e ↦ rw found (
          rw (e, valid)
            (checked_ok current checked answer found expects (rw (e, valid) at (rw found at h))))
    ]
  ]

-- Two updates of a memory that name the same revision are never both accepted, whatever calls of
-- `remember`, `updateMemory`, `supersedeMemory`, `mergeMemories` and `forgetMemory` come between them; the first is made outside a transaction, and the two carry no idempotency key.
pub no_lost_update :
    (w : WriteContext) (json : Json (Result String)) (forget_json : Json (Result (String × ℕ)))
    (id : String) (input input' checked checked' : UpdateInput) (expected : ℕ)
    (ctx ctx' : Option RequestContext) (stamp stamp' : Stamp) (answer answer' : String)
    (calls : List (Call × Request)) (db : Db MemoryDb)
    → db.transaction_depth ≡ 0
    → w.validate_update input ≡ ok checked
    → w.validate_update input' ≡ ok checked'
    → checked.expected_revision ≡ some expected
    → checked'.expected_revision ≡ some expected
    → (update_memory w json id input none ctx stamp db).0 ≡ returned (ok answer)
    → let db' =
        after_calls w json forget_json calls (update_memory w json id input none ctx stamp db).1 in
      (update_memory w json id input' none ctx' stamp' db').0 ≢ returned (ok answer')
no_lost_update w json forget_json id input input' checked checked' expected ctx ctx' stamp stamp'
      answer answer' calls db depth valid valid' expects expects' first second =
    let db1 = (update_memory w json id input none ctx stamp db).1 in
    let one =
      update_ok w json id ctx stamp expected db depth input checked answer valid expects first in
    let closed = (update_memory-Lands w none ctx stamp db depth json id input).closed in
    let key : one.later.id ≡ id = found_id id one.later db1.tables one.stored in
    let there = subst (λ i. get_entry i db1.tables ≡ some one.later) (sym key) one.stored in
    let s = after_calls-Survives w json forget_json calls db1 one.later closed there in
    let db2 = after_calls w json forget_json calls db1 in
    let again =
      update_ok w json id ctx' stamp' expected db2
        (calls-Lands w json forget_json calls db1 closed).closed input' checked' answer' valid'
        expects' second in
    let same : s.survivor ≡ again.before =
      cc (subst (λ i. get_entry i db2.tables ≡ some s.survivor) key s.found, again.found) in
    ground (
      arith,
      one.next,
      one.at_expected,
      again.at_expected,
      s.later,
      ap (λ (r : EntryRow). r.revision) same,
    )
