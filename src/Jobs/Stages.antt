-- ===== src/Jobs/Stages.antt =====
-- The stages of a job: `finishStage` of src/jobs/service.ts on open and closed runs.
use agent_recall.Common.{
  ℕ, String, true, false, Option, none, some, List, ◌∷◌, ◌≡◌, refl, ap, subst, ◌∙◌, arith, str_eq,
  eq_iff, lt→ltb, inl, inr, Bool-cases, Option-cases, get_or, eq_refl,
}
use agent_recall.Common.Effect.{returned, thrown}
use agent_recall.Common.Table.{
  first_where, first_where-update_where, first_where-insert_row, first_where_and, Distinct,
  count_where_zero, update_where_idle, first_where_sound, first_where_key, count_where_pos,
}
use agent_recall.Jobs.Rows.{JobErrorCode, RunRow, JobDb, TerminalState, is_started, has_run_id}
use agent_recall.Jobs.Store.{coded}
use agent_recall.Jobs.Runs.{get_run, can_complete, completed, complete_run}
use agent_recall.Jobs.Service.{FinishInput, finish_rest, finish_stage}
use agent_recall.Jobs.Ops.{Op, finish_op, run_ops, step}
use agent_recall.Jobs.Moves.{
  Move, update_jobs, add_job, add_run, update_runs, add_output, Moves, Moves_keep,
}
use agent_recall.Jobs.Moves.Methods.{run_ops-Moves, finish_rest-Traced}
use agent_recall.Jobs.History.{Evolves, Evolves-Lawful, Evolves-AllLawful}
use agent_recall.Jobs.Invariant.{IsConsistent, same_run_as}
use agent_recall.Jobs.Invariant.Preserved.{run_ops-IsConsistent, str_eq-flip}

-- the run is there, and closed
abbrev pub IsClosedRun : String → RunRow → JobDb → Type 0
IsClosedRun id run db = (get_run id db ≡ some run) × (is_started run.status ≡ false)

module _ (id : String) (run : RunRow) where
  Move-IsClosedRun : (a b : JobDb) → Move Evolves a b → IsClosedRun id run a → IsClosedRun id run b
  Move-IsClosedRun a b (update_jobs _ q f law) h = h
  Move-IsClosedRun a b (add_job _ input job_id now fresh) h = h
  Move-IsClosedRun a b (add_run _ new_run new job) h =
      (rw (first_where-insert_row (has_run_id id) new_run a.runs, h.0) refl, h.1)
  Move-IsClosedRun a b (update_runs _ q f pending same_id same_job) h = (
    rw
        (
          first_where-update_where (has_run_id id) q f a.runs
              (λ r _. ap (λ (s : String). str_eq s id) (same_id r)),
          h.0,
        )
        (elim (Bool-cases (q run)) [ inl e ↦ cc (pending run e, h.1) | inr e ↦ rw e refl ]),
    h.1,
  )
  Move-IsClosedRun a b (add_output _ out new job r) h = h

  Moves-IsClosedRun :
      {a b : JobDb} → Moves Evolves a b → IsClosedRun id run a → IsClosedRun id run b
  Moves-IsClosedRun m h = Moves_keep (IsClosedRun id run) Move-IsClosedRun m h

  -- A run that has succeeded, failed or was cancelled never changes again, whatever operations run.
  pub run_ops-IsClosedRun :
      (redact : Option String → String) (ops : List Op) (db : JobDb)
      → IsClosedRun id run db
      → IsClosedRun id run (run_ops redact ops db)
  run_ops-IsClosedRun redact ops db h =
      Moves-IsClosedRun (run_ops-Moves redact ops db (Evolves-AllLawful redact ops)) h

same_run_as_key :
    (id : String) (a b : RunRow)
    → has_run_id id a ≡ true
    → has_run_id id b ≡ true
    → same_run_as a b ≡ true
same_run_as_key id a b h k =
    ground (arith, eq_iff a.run_id id, eq_iff b.run_id id, eq_iff b.run_id a.run_id)

no_open_run :
    (id : String) (run : RunRow) (db : JobDb)
    → Distinct same_run_as db.runs
    → IsClosedRun id run db
    → first_where (can_complete id) db.runs ≡ none
no_open_run id run db d h =
    first_where_and same_run_as (has_run_id id) (λ r. is_started r.status) db.runs
      (same_run_as_key id) d
    ∙ rw (h.0, h.1) refl

finish_stage_refused :
    (input : FinishInput) (now : ℕ) (run : RunRow) (db : JobDb)
    → IsConsistent db
    → IsClosedRun input.run_id run db
    → finish_stage input now db ≡ (thrown (coded JobErrorCode.internal_error), db)
unfolding finish_stage
finish_stage_refused input now run db c h =
    let idle = no_open_run input.run_id run db c.run_ids h in
    rw (
      count_where_zero (can_complete input.run_id) db.runs idle,
      update_where_idle (can_complete input.run_id) _ db.runs idle,
    )

completed_closed :
    (status : TerminalState) (refs : String) (digest : Option String) (now : ℕ) (run : RunRow)
    → is_started (completed status refs digest now run).status ≡ false
unfolding completed
completed_closed status refs digest now run = ground arith

completed_id :
    (status : TerminalState) (refs : String) (digest : Option String) (now : ℕ) (run : RunRow)
    → (completed status refs digest now run).run_id ≡ run.run_id
unfolding completed
completed_id status refs digest now run = refl

-- an UPDATE of the run that changed a row has closed the run
complete_run-IsClosedRun :
    (id : String) (status : TerminalState) (refs : String) (digest : Option String) (now : ℕ)
    (run : RunRow) (db : JobDb)
    → first_where (can_complete id) db.runs ≡ some run
    → get_run id db ≡ some run
    → IsClosedRun id
        (completed status refs digest now run)
        (complete_run id status refs digest now db).1
unfolding complete_run
complete_run-IsClosedRun id status refs digest now run db pending found = (
  rw
      (
        first_where-update_where (has_run_id id) (can_complete id)
            (completed status refs digest now) db.runs
            (λ r _. ap (λ (s : String). str_eq s id) (completed_id status refs digest now r)),
        found,
        first_where_sound (can_complete id) db.runs run pending,
      )
      refl,
  completed_closed status refs digest now run,
)

can_complete_id : (id : String) (run : RunRow) → can_complete id run ≡ true → run.run_id ≡ id
can_complete_id id run h = ground (arith, eq_iff run.run_id id)

open_run_found :
    (id : String) (run : RunRow) (db : JobDb)
    → Distinct same_run_as db.runs
    → first_where (can_complete id) db.runs ≡ some run
    → get_run id db ≡ some run
open_run_found id run db d h =
    subst (λ (s : String). get_run s db ≡ some run)
      (can_complete_id id run (first_where_sound (can_complete id) db.runs run h))
      (first_where_key same_run_as (can_complete id) db.runs run (eq_refl run.run_id)
        (λ a b. str_eq-flip b.run_id a.run_id) d h)

module _ (input : FinishInput) (now : ℕ) (db : JobDb) where
  abbrev refs_of : String
  refs_of = get_or input.output_refs "[]"

  finish_stage_idle :
      first_where (can_complete input.run_id) db.runs ≡ none
      → (finish_stage input now db).0 ≡ thrown (coded JobErrorCode.internal_error)
  unfolding finish_stage
  finish_stage_idle idle = rw (count_where_zero (can_complete input.run_id) db.runs idle)

  finish_stage_goes_on :
      (run : RunRow)
      → first_where (can_complete input.run_id) db.runs ≡ some run
      → finish_stage input now db
        ≡ finish_rest input now
            (complete_run input.run_id input.status refs_of input.result_digest now db).1
  unfolding finish_stage
  finish_stage_goes_on run pending =
      rw (lt→ltb 0 _ (count_where_pos (can_complete input.run_id) db.runs run pending))

  finish_stage_closes :
      (done : RunRow)
      → IsConsistent db
      → (finish_stage input now db).0 ≡ returned done
      → (run : RunRow) × IsClosedRun input.run_id run (finish_stage input now db).1
  finish_stage_closes done c ret =
      elim (Option-cases (first_where (can_complete input.run_id) db.runs)) [
        | inl idle ↦ absurd (cc (finish_stage_idle idle, ret))
        | inr (run, pending) ↦ (
          completed input.status refs_of input.result_digest now run,
          rw (finish_stage_goes_on run pending) (
              Moves-IsClosedRun input.run_id _
                ((finish_rest-Traced {R = Evolves} input now
                    (Evolves-Lawful (λ m. "") (finish_op input now))).at
                  _)
                (complete_run-IsClosedRun input.run_id input.status refs_of input.result_digest now
                  run db pending (open_run_found input.run_id run db c.run_ids pending))),
        )
      ]

-- A stage is finished once. After a `finishStage` on consistent tables has returned, another one
-- for the same run throws `internal_error` and writes nothing (no status, cursor or output),
-- whatever operations ran in between.
pub finish_stage_once :
    (redact : Option String → String) (input again : FinishInput) (now later : ℕ) (ops : List Op)
    (done : RunRow) (db : JobDb)
    → IsConsistent db
    → (finish_stage input now db).0 ≡ returned done
    → again.run_id ≡ input.run_id
    → finish_stage again later (run_ops redact (finish_op input now ∷ ops) db)
      ≡ (thrown (coded JobErrorCode.internal_error), run_ops redact (finish_op input now ∷ ops) db)
unfolding run_ops step
finish_stage_once redact input again now later ops done db c ret same =
    let (run, closed) = finish_stage_closes input now db done c ret in
    finish_stage_refused again later run _
      (run_ops-IsConsistent redact (finish_op input now ∷ ops) db c)
      (rw same (run_ops-IsClosedRun input.run_id run redact ops _ closed))
