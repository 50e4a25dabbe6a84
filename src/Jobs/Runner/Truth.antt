-- ===== src/Jobs/Runner/Truth.antt =====
-- How `runOnce` of src/jobs/runner.ts ends an attempt, and what the job store then has.
use agent_recall.Common.{
  ℕ, String, Bool, true, false, Option, none, some, ◌≡◌, refl, sym, ap, ◌∙◌, subst, inl, inr,
  Bool-cases, Option-cases,
}
use agent_recall.Common.Table.{first_where_sound}
use agent_recall.Common.Effect.{Outcome, returned, thrown, bind_returned}
use agent_recall.Jobs.Rows.{JobState, JobRow, JobDb, has_id, is_running}
use agent_recall.Jobs.Store.{JobError, Ending, get_job}
use agent_recall.Jobs.Service.{JobEffect}
use agent_recall.Jobs.Endings.{end_job, complete, fail, mark_cancelled}
use agent_recall.Jobs.Endings.Exact.{final_state, ended_as, end_job_lem}
use agent_recall.Jobs.Ops.{run_ops}
use agent_recall.Jobs.Invariant.{IsConsistent}
use agent_recall.Jobs.Invariant.Preserved.{run_ops-IsConsistent}
use agent_recall.Jobs.Runner.{
  thrown_text, ExecutorEnd, succeeded, failed, cancelled, threw, Turn, RunOnceOptions, Verdict,
  job_succeeded, job_failed, job_cancelled, as_verdict, recover, recover_with, fail_with,
  record_end, finish_job, execute,
}
use agent_recall.Jobs.Runner.Schedule.{record_end-IsScheduled}

-- the job is stored in this state, and nobody holds a lease on it
pub record StandsIn (state : JobState) (id : String) (db : JobDb) : Type 0 where
  pub row : JobRow
  pub found : get_job id db ≡ some row
  pub in_state : row.state ≡ state
  pub free : row.lease_owner ≡ none

-- how an attempt may have ended
abbrev pub Told : Verdict → String → JobDb → Type 0
Told job_succeeded id db = StandsIn JobState.succeeded id db
Told job_failed id db = StandsIn JobState.failed id db
Told job_cancelled id db = StandsIn JobState.cancelled id db
Told _ id db = ⊥

ended-StandsIn :
    (id : String) (ending : Ending) (now : ℕ) (db : JobDb) (row : JobRow)
    → IsConsistent db
    → (end_job id ending now db).0 ≡ returned row
    → StandsIn (final_state ending.terminal_state) id (end_job id ending now db).1
ended-StandsIn id ending now db row c h =
    let (reply, stored, runs, outputs) = end_job_lem id ending now db c in
    elim (Option-cases (get_job id db)) [
      | inl e ↦ absurd (cc (rw e at (sym reply ∙ h)))
      | inr (old, e) ↦ elim (Bool-cases (is_running old.state)) [
        | inr k ↦ absurd (cc (rw (e, k) at (sym reply ∙ h)))
        | inl k ↦
            let own : has_id id old ≡ true = first_where_sound (has_id id) db.jobs old e in
            record {
              row = ended_as ending now old;
              found = stored id ∙ rw (e, own, k) refl;
              in_state = refl;
              free = refl;
            }
      ]
    ]

pub same_verdict :
    {a b : Verdict} → ◌≡◌ {A = Outcome JobError Verdict} (returned a) (returned b) → a ≡ b
same_verdict h = cc

recorded :
    (v w : Verdict) (id : String) (ending : Ending) (now : ℕ) (db : JobDb)
    → IsConsistent db
    → (as_verdict v (end_job id ending now) db).0 ≡ returned w
    → (v ≡ w)
      × StandsIn (final_state ending.terminal_state) id (as_verdict v (end_job id ending now) db).1
recorded v w id ending now db c h =
    let (row, done, rest) = bind_returned (end_job id ending now db) _ w h in
    (
      same_verdict (sym (ap (λ p. p.0) rest) ∙ h),
      rw rest (ended-StandsIn id ending now db row c done),
    )

module _ (redact : Option String → String) (opts : RunOnceOptions) (t : Turn) (id : String) where
  fail_with-Told :
      (message : Option String) (db : JobDb) (w : Verdict)
      → IsConsistent db
      → (fail_with redact opts id message t.ended_at db).0 ≡ returned w
      → Told w id (fail_with redact opts id message t.ended_at db).1
  unfolding fail
  fail_with-Told message db w c h =
      let (e, stands) = recorded job_failed w id _ t.ended_at db c h in
      subst (λ x. Told x id (fail_with redact opts id message t.ended_at db).1) e stands

  record_end-Told :
      (end : ExecutorEnd) (db : JobDb) (w : Verdict)
      → IsConsistent db
      → (record_end redact opts t id end db).0 ≡ returned w
      → Told w id (record_end redact opts t id end db).1
  unfolding record_end complete fail mark_cancelled
  record_end-Told succeeded db w c h =
      let (e, stands) = recorded job_succeeded w id _ t.ended_at db c h in
      subst (λ x. Told x id (record_end redact opts t id succeeded db).1) e stands
  record_end-Told cancelled db w c h =
      let (e, stands) = recorded job_cancelled w id _ t.ended_at db c h in
      subst (λ x. Told x id (record_end redact opts t id cancelled db).1) e stands
  record_end-Told (failed code message retry) db w c h =
      let (e, stands) = recorded job_failed w id _ t.ended_at db c h in
      subst (λ x. Told x id (record_end redact opts t id (failed code message retry) db).1) e stands
  record_end-Told (threw message) db w c h = fail_with-Told (thrown_text message) db w c h

  recovered-Told :
      (p : Outcome JobError Verdict × JobDb) (h : JobEffect Verdict) (w : Verdict)
      → (p.0 ≡ returned w → Told w id p.1)
      → ((h p.1).0 ≡ returned w → Told w id (h p.1).1)
      → (recover_with h p).0 ≡ returned w
      → Told w id (recover_with h p).1
  recovered-Told (returned v, db) h w one two k = one k
  recovered-Told (thrown e, db) h w one two k = two k

  kept-Told :
      (end : ExecutorEnd) (db : JobDb) (w : Verdict)
      → IsConsistent db
      → (recover
          (record_end redact opts t id end)
          (fail_with redact opts id (thrown_text t.store_message) t.ended_at)
          db).0
        ≡ returned w
      → Told w id
          (recover
            (record_end redact opts t id end)
            (fail_with redact opts id (thrown_text t.store_message) t.ended_at)
            db).1
  kept-Told end db w c h =
      let (ops, e) = record_end-IsScheduled redact opts t id end db in
      let after : IsConsistent (record_end redact opts t id end db).1 =
        rw e (run_ops-IsConsistent redact ops db c) in
      recovered-Told (record_end redact opts t id end db)
        (fail_with redact opts id (thrown_text t.store_message) t.ended_at) w
        (record_end-Told end db w c)
        (fail_with-Told (thrown_text t.store_message) (record_end redact opts t id end db).1 w
          after)
        h

  finish_job-Told :
      (end : ExecutorEnd) (db : JobDb) (w : Verdict)
      → IsConsistent db
      → (finish_job redact opts t id end db).0 ≡ returned w
      → Told w id (finish_job redact opts t id end db).1
  unfolding finish_job
  finish_job-Told succeeded db w c h = kept-Told succeeded db w c h
  finish_job-Told cancelled db w c h = kept-Told cancelled db w c h
  finish_job-Told (failed code message retry) db w c h =
      kept-Told (failed code message retry) db w c h
  finish_job-Told (threw message) db w c h = record_end-Told (threw message) db w c h

module _ (redact : Option String → String) (opts : RunOnceOptions) (t : Turn) where
  pub execute-Told :
      (job : JobRow) (known : Bool) (db : JobDb) (w : Verdict)
      → IsConsistent db
      → (execute redact opts t job known db).0 ≡ returned w
      → Told w job.job_id (execute redact opts t job known db).1
  unfolding execute
  execute-Told job false db w c h = fail_with-Told redact opts t job.job_id _ db w c h
  execute-Told job true db w c h =
      finish_job-Told redact opts t job.job_id t.executor_end (run_ops redact t.while_executing db)
        w (run_ops-IsConsistent redact t.while_executing db c) h
