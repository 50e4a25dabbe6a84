-- ===== src/Plans/Replay.antt =====
-- What `validate` says of a plan that was applied.
use agent_recall.Common.{
  ℕ, String, ◌&&◌, Option, none, some, List, ◌≡◌, refl, ◌∙◌, arith, if◌then◌else◌, leb, Bool-cases,
  str_eq, inl, inr, ap,
}
use agent_recall.Common.Table.{first_where_sound, first_where-update_where, first_where_narrow}
use agent_recall.Plans.Rows.{applying, PlanRow, PlanDb, AppliedResult, Runtime, is_completed}
use agent_recall.Plans.Store.{
  has_plan_id, get_row, can_complete_plan, plan_completed_at, mark_plan_completed, get_items,
  applied_result, applied_keys, result_of_row,
}
use agent_recall.Plans.Service.{
  Revision, Validation, valid, refused, plan_expired, idempotency_mismatch, expired_at,
  completed_with_keys, plan_from_row, validate, mark_completed,
}
use agent_recall.Plans.Ops.{PlanOp, run_plan_ops}
use agent_recall.Plans.Final.{Settled, Settled-run}

module _ {Evidence : Type 0} (runtime : Runtime Evidence) where
  -- the row after `markCompleted`
  abbrev pub applied_row : String → AppliedResult → ℕ → PlanRow → PlanRow
  applied_row key result at row = plan_completed_at key (runtime.write_result result) at row

  -- the answer to a call with `retry` for a plan applied under `key`
  abbrev pub replay_answer :
      String → String → String → AppliedResult → ℕ → PlanRow → PlanDb → Validation Evidence
  replay_answer id key retry result now row db =
      if leb row.expires_at now
      then refused plan_expired (expired_at row.expires_at)
      else if str_eq key retry
      then valid (plan_from_row runtime row (get_items runtime id db)) (some result)
      else refused idempotency_mismatch (completed_with_keys (applied_keys runtime id db))

  mark_completed-Settled :
      (id key : String) (result : AppliedResult) (at : ℕ) (row : PlanRow) (db : PlanDb)
      → get_row id db ≡ some row
      → row.state ≡ applying
      → Settled id (applied_row key result at row) (mark_completed runtime id key result at db)
  unfolding mark_completed mark_plan_completed
  mark_completed-Settled id key result at row db found state =
      let owned = first_where_sound (has_plan_id id) db.plans row found in
      record {
        found =
            first_where-update_where (has_plan_id id) (can_complete_plan id)
              (plan_completed_at key (runtime.write_result result) at) db.plans (λ x _. refl)
            ∙ rw (found, owned, state) refl;
        is_done = refl;
      }

  applied_result_lem :
      (id key retry : String) (result : AppliedResult) (at : ℕ) (row : PlanRow) (db : PlanDb)
      → runtime.read_result (runtime.write_result result) ≡ some result
      → Settled id (applied_row key result at row) db
      → applied_result runtime id retry db ≡ (if str_eq key retry then some result else none)
  unfolding applied_result
  applied_result_lem id key retry result at row db trip s =
      let owned = first_where_sound (has_plan_id id) db.plans _ s.found in
      ap (result_of_row runtime retry) (
        first_where_narrow (has_plan_id id) (λ r. has_plan_id id r && is_completed r.state) db.plans
          (applied_row key result at row) (λ y h. ground arith) s.found (rw owned refl))
      ∙ rw trip refl

  validate-Settled :
      (id key retry : String) (current : String → Option Revision) (result : AppliedResult)
      (at now : ℕ) (row : PlanRow) (db : PlanDb)
      → runtime.read_result (runtime.write_result result) ≡ some result
      → Settled id (applied_row key result at row) db
      → validate runtime id current retry now db
        ≡ (replay_answer id key retry result now (applied_row key result at row) db, db)
  unfolding validate
  validate-Settled id key retry current result at now row db trip s =
      rw s.found (elim (Bool-cases (leb row.expires_at now)) [
        | inl e ↦ rw e refl
        | inr e ↦
            rw (e, applied_result_lem id key retry result at row db trip s)
              (elim (Bool-cases (str_eq key retry)) [ inl k ↦ rw k refl | inr k ↦ rw k refl ])
      ])

  -- A plan in the state `applying` is marked completed under a key, and then operations other than
  -- `markRejected` run, by anybody. `validate` changes nothing and answers, as long as the plan has
  -- not expired, a call with the same key with the stored result, and a call with another key with
  -- `idempotency_mismatch`. From the expiry on it answers `plan_expired` to both. Results read back
  -- from their JSON text as they were written.
  pub apply_replay :
      (id key retry : String) (current : String → Option Revision) (result : AppliedResult)
      (at now : ℕ) (row : PlanRow) (db : PlanDb) (ops : List (PlanOp Evidence))
      → runtime.read_result (runtime.write_result result) ≡ some result
      → get_row id db ≡ some row
      → row.state ≡ applying
      → validate runtime id current retry now
          (run_plan_ops runtime ops (mark_completed runtime id key result at db))
        ≡ (
          replay_answer id key retry result now
              (applied_row key result at row)
              (run_plan_ops runtime ops (mark_completed runtime id key result at db)),
          run_plan_ops runtime ops (mark_completed runtime id key result at db),
        )
  apply_replay id key retry current result at now row db ops trip found state =
      validate-Settled id key retry current result at now row _ trip (
        Settled-run runtime id _ ops _ (mark_completed-Settled id key result at row db found state))
