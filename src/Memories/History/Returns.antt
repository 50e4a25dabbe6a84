-- ===== src/Memories/History/Returns.antt =====
-- Updates of a sound store return, and what the compare-and-swap does with the tier.
use agent_recall.Common.{
  ℕ, suc, ◌==◌, String, true, false, Option, none, some, ◌≡◌, refl, ap, ◌∙◌, arith, str_eq, eq_iff,
  if◌then◌else◌, Bool-cases, Option-cases, inl, inr, get_or,
}
use agent_recall.Common.Effect.{Outcome, returned}
use agent_recall.Budget.Rows.{is_active}
use mathlib.Core.Option
use agent_recall.Common.Table.{first_where}
use agent_recall.Budget.Within.{is_accepted}
use agent_recall.Idempotency.Rows.{Db, transaction}
use agent_recall.Idempotency.Service.{Json, on_tables}
use agent_recall.Scopes.Inputs.{Stamp}
use agent_recall.Memories.Rows.{
  MemoryTier, EntryRow, RevisionRow, is_revision, MemoryDb, MemoryError, get_entry,
}
use agent_recall.Memories.Store.{
  EntryPatch, patched, is_open, append_audit, RevisionContext, update_entry_with_revision,
  all_but_tier, patched_now,
}
use agent_recall.Memories.Inputs.{
  UpdateInput, RequestContext, not_found, invalid_state, unauthorized, capacity_exceeded, Result,
  ok, err,
}
use agent_recall.Memories.Context.{WriteContext, is_authorized, revision_context}
use agent_recall.Memories.Room.{budget_for, evaluate_entry_budget}
use agent_recall.Memories.Update.{
  patch_of, event_name, run_update, update_checked, update_validated, update_memory, is_one,
}
use agent_recall.Memories.Forget.{forget_patch, run_forget, forget_memory}
use agent_recall.Memories.Moves.{has_revision}
use agent_recall.Memories.Moves.Steps.{
  found_id, found_own, cas_refused, cas_returns, cas_recorded, cas-Writes, update_entry_returns,
}
use agent_recall.Memories.Moves.Sound.{IsSound}
use agent_recall.Memories.Moves.Landing.{transaction_lem}

abbrev pub Returns : {A S : Type 0} → Outcome MemoryError A × S → Type 0
Returns {A} p = (a : A) × (p.0 ≡ returned a)

-- the next revision of a memory is free
next_free :
    (id : String) (row : EntryRow) (db : MemoryDb)
    → IsSound db
    → get_entry id db ≡ some row
    → has_revision row.id (suc row.revision) db ≡ false
next_free id row db s found =
    s.counted row.id row (suc row.revision) (found_own id row db found) ∙ ground arith

module _ (w : WriteContext) (id : String) (current : EntryRow) (ctx : Option RequestContext)
    (now : String) (db : MemoryDb) (s : IsSound db) (found : get_entry id db ≡ some current) where
  run_update-Returns :
      (patch : EntryPatch) (expected : Option ℕ)
      → Returns (run_update w id current patch expected ctx now db)
  unfolding run_update append_audit
  run_update-Returns patch none =
      let why = revision_context w ctx (event_name current patch) in
      (
        ok id,
        rw
            (update_entry_returns id current db found patch why now
              (next_free id current db s found))
            refl,
      )
  run_update-Returns patch (some expected) =
      let why = revision_context w ctx (event_name current patch) in
      elim (Bool-cases (current.revision == expected)) [
        | inl at ↦ (
          ok id,
          rw
              (cas_returns id current db found patch expected why now at
                (next_free id current db s found))
              refl,
        )
        | inr other ↦ rw (cas_refused id current db found patch expected why now other) (_, refl)
      ]

  run_forget-Returns :
      (reason : String) (expected : Option ℕ)
      → Returns (run_forget w id current reason expected ctx now db)
  unfolding run_forget append_audit
  run_forget-Returns reason none =
      let why = revision_context w ctx reason in
      (
        ok (id, if is_active current.status then current.char_count else 0),
        rw
            (update_entry_returns id current db found (forget_patch now) why now
              (next_free id current db s found))
            refl,
      )
  run_forget-Returns reason (some expected) =
      let why = revision_context w ctx reason in
      elim (Bool-cases (current.revision == expected)) [
        | inl at ↦ (
          ok (id, if is_active current.status then current.char_count else 0),
          rw
              (cas_returns id current db found (forget_patch now) expected why now at
                (next_free id current db s found))
              refl,
        )
        | inr other ↦
            rw (cas_refused id current db found (forget_patch now) expected why now other) (_, refl)
      ]

committed :
    {A : Type 0} (json : Json (Result A))
    (work : MemoryDb → Outcome MemoryError (Result A) × MemoryDb) (db : Db MemoryDb)
    → db.transaction_depth ≡ 0
    → Returns (work db.tables)
    → Returns (transaction (on_tables work) db)
committed json work db depth (answer, done) =
    (answer, rw (transaction_lem json (on_tables work) db depth) (rw done refl))

module _ (w : WriteContext) (id : String) (ctx : Option RequestContext) (stamp : Stamp)
    (db : Db MemoryDb) (depth : db.transaction_depth ≡ 0) (s : IsSound db.tables) where
  checked-Returns :
      (json : Json (Result String)) (current : EntryRow) (input : UpdateInput)
      → get_entry id db.tables ≡ some current
      → Returns (update_checked w json id current input none ctx stamp db)
  unfolding update_checked append_audit
  checked-Returns json current input found =
      let patch = patch_of input current stamp.now_iso in
      let next = patched patch current in
      elim (Bool-cases (is_authorized w input.trust_level input.sensitivity input.capability)) [
        | inr e ↦ rw e (err unauthorized, refl)
        | inl e ↦
            elim (Bool-cases (
              is_accepted (
                evaluate_entry_budget w next (budget_for next db.tables) (is_one w id)
                  db.tables))) [
                    | inr k ↦ rw (e, k) (err capacity_exceeded, refl)
                    | inl k ↦
                        rw (e, k)
                          (committed json _ db depth (
                            run_update-Returns w id current ctx stamp.now_iso db.tables s found
                              patch input.expected_revision))
                  ]
      ]

  validated-Returns :
      (json : Json (Result String)) (current : EntryRow) (v : Result UpdateInput)
      → get_entry id db.tables ≡ some current
      → Returns (update_validated w json id current none ctx stamp v db)
  unfolding append_audit
  validated-Returns json current (err e) found = (err e, refl)
  validated-Returns json current (ok input) found = checked-Returns json current input found

  -- On a store that is sound, outside a transaction, an update and a forget without an idempotency key
  -- return a result; neither breaks a constraint of the tables nor throws for a concurrent revision.
  pub updates_return :
      (json : Json (Result String)) (forget_json : Json (Result (String × ℕ))) (input : UpdateInput)
      (reason : String) (expected : Option ℕ)
      → Returns (update_memory w json id input none ctx stamp db)
        × Returns (forget_memory w forget_json id reason expected none ctx stamp db)
  unfolding update_memory forget_memory append_audit
  updates_return json forget_json input reason expected =
      elim (Option-cases (get_entry id db.tables)) [
        | inl missing ↦ rw missing ((err not_found, refl), (err not_found, refl))
        | inr (current, found) ↦ rw found (
          elim (Bool-cases (is_open current.status)) [
            | inr e ↦ rw e (err invalid_state, refl)
            | inl e ↦ rw e (validated-Returns json current (w.validate_update input) found)
          ],
          committed forget_json _ db depth
              (run_forget-Returns w id current ctx stamp.now_iso db.tables s found reason expected),
        )
      ]

tier_of :
    (o : Option RevisionRow) (entry : EntryRow)
    → Option.map (λ (r : RevisionRow). r.snapshot) o ≡ some entry
    → Option.map (λ (r : RevisionRow). r.snapshot.tier) o ≡ some entry.tier
tier_of none entry h = cc
tier_of (some r) entry h = ap (Option.map (λ (x : EntryRow). x.tier)) h

-- On a store that is sound, a patch of the tier that names the revision of the memory is applied and
-- recorded as a new revision with that tier, while the memory that is stored keeps its old tier.
pub cas_keeps_tier :
    (id : String) (row : EntryRow) (patch : EntryPatch) (tier : MemoryTier) (ctx : RevisionContext)
    (now : String) (db : MemoryDb)
    → IsSound db
    → get_entry id db ≡ some row
    → patch.tier ≡ some tier
    → let db' = (update_entry_with_revision id patch row.revision ctx now db).1 in
      ((update_entry_with_revision id patch row.revision ctx now db).0 ≡ returned true)
      × ((stored : EntryRow) × (get_entry id db' ≡ some stored) × (stored.tier ≡ row.tier))
      × (Option.map
            (λ (r : RevisionRow). r.snapshot.tier)
            (first_where (is_revision row.id (suc row.revision)) db'.revisions)
          ≡ some tier)
cas_keeps_tier id row patch tier ctx now db s found wants =
    let at : row.revision == row.revision ≡ true = ground arith in
    let free = next_free id row db s found in
    let done = cas_returns id row db found patch row.revision ctx now at free in
    let (b, writes) = cas-Writes id row db found patch row.revision ctx now at true done in
    let stored = all_but_tier (patched_now patch now row) row in
    let own : str_eq row.id id ≡ true = (eq_iff row.id id).1 (found_id id row db found) in
    (
      done,
      (stored, writes.stored id ∙ rw own refl, refl),
      tier_of _ _ (cas_recorded id row db found patch row.revision ctx now at free)
          ∙ ap (λ (t : Option MemoryTier). some (get_or t row.tier)) wants,
    )
