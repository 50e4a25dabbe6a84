-- ===== src/Jobs/Moves/Statements.antt =====
-- Each statement of src/sqlite-store.ts is one move.
use agent_recall.Common.{
  ℕ, String, Bool, true, false, ◌&&◌, ◌||◌, not, Option, ◌≡◌, refl, arith, inl, inr, Bool-cases,
}
use agent_recall.Common.Effect.{stateful}
use agent_recall.Common.Table.{exists_where}
use agent_recall.Jobs.Rows.{
  JobRow, RunRow, OutputRow, TerminalState, has_id, has_key, has_run_id, same_output,
}
use agent_recall.Jobs.Store.{
  Ending, insert_job, can_claim, claimed, claim_job, can_cancel, cancel_requested,
  request_job_cancel, can_finalize, finalized, finalize_job, checkpointed, checkpoint_job,
  can_renew, renewed, renew_job_lease, lease_expired, reaped, reap_expired_leases,
}
use agent_recall.Jobs.Runs.{insert_run, can_complete, completed, complete_run, insert_output}
use agent_recall.Jobs.Service.{EnqueueInput, queued_row}
use agent_recall.Jobs.Moves.{
  update_jobs, add_job, add_run, update_runs, add_output, stop, go, Traced,
}

and_left : (a b : Bool) → (a && b) ≡ true → a ≡ true
and_left a b h = ground arith

and_right : (a b : Bool) → (a && b) ≡ true → b ≡ true
and_right a b h = ground arith

or_left : (a b : Bool) → (a || b) ≡ false → a ≡ false
or_left a b h = ground arith

or_right : (a b : Bool) → (a || b) ≡ false → b ≡ false
or_right a b h = ground arith

not-false : (a : Bool) → not a ≡ false → a ≡ true
not-false a h = ground arith

module _ {R : JobRow → JobRow → Type 0} (now : ℕ) where
  pub reap-Traced :
      ((row : JobRow) → lease_expired now row ≡ true → R row (reaped now row))
      → Traced R (stateful (reap_expired_leases now))
  unfolding reap_expired_leases
  reap-Traced law = record {
    at = λ db. go (update_jobs db (lease_expired now) (reaped now) law) stop;
  }

  pub claim_job-Traced :
      (id owner : String) (expires started : ℕ)
      → ((row : JobRow)
          → can_claim id now row ≡ true
          → R row (claimed owner expires started now row))
      → Traced R (stateful (claim_job id owner expires started now))
  unfolding claim_job
  claim_job-Traced id owner expires started law = record {
    at = λ db. go (update_jobs db (can_claim id now) (claimed owner expires started now) law) stop;
  }

  pub request_job_cancel-Traced :
      (id : String)
      → ((row : JobRow) → can_cancel id row ≡ true → R row (cancel_requested now row))
      → Traced R (stateful (request_job_cancel id now))
  unfolding request_job_cancel
  request_job_cancel-Traced id law = record {
    at = λ db. go (update_jobs db (can_cancel id) (cancel_requested now) law) stop;
  }

  pub finalize_job-Traced :
      (id : String) (ending : Ending)
      → ((row : JobRow) → can_finalize id row ≡ true → R row (finalized ending now row))
      → Traced R (stateful (finalize_job id ending now))
  unfolding finalize_job
  finalize_job-Traced id ending law = record {
    at = λ db. go (update_jobs db (can_finalize id) (finalized ending now) law) stop;
  }

  pub checkpoint_job-Traced :
      (id cursor : String)
      → ((row : JobRow) → can_finalize id row ≡ true → R row (checkpointed cursor now row))
      → Traced R (stateful (checkpoint_job id cursor now))
  unfolding checkpoint_job
  checkpoint_job-Traced id cursor law = record {
    at = λ db. go (update_jobs db (can_finalize id) (checkpointed cursor now) law) stop;
  }

  pub renew_job_lease-Traced :
      (id owner : String) (expires : ℕ)
      → ((row : JobRow) → can_renew id owner now row ≡ true → R row (renewed owner expires now row))
      → Traced R (stateful (renew_job_lease id owner expires now))
  unfolding renew_job_lease
  renew_job_lease-Traced id owner expires law = record {
    at = λ db. go (update_jobs db (can_renew id owner now) (renewed owner expires now) law) stop;
  }

  pub insert_job-Traced :
      (input : EnqueueInput) (job_id : String) → Traced R (insert_job (queued_row input job_id now))
  unfolding insert_job
  insert_job-Traced input job_id =
      let row = queued_row input job_id now in
      record {
        at = λ db.
            let ids = exists_where (has_id row.job_id) db.jobs in
            let keys =
              exists_where (has_key row.creator_actor_id row.kind row.idempotency_key) db.jobs in
            elim (Bool-cases (ids || keys)) [
              | inl e ↦ rw e stop
              | inr e ↦ rw e (
                  go
                    (add_job db input job_id now
                      (record { new_id = or_left ids keys e; new_key = or_right ids keys e }))
                    stop)
            ];
      }

  pub complete_run-Traced :
      (id : String) (status : TerminalState) (refs : String) (digest : Option String)
      → Traced R (stateful (complete_run id status refs digest now))
  unfolding complete_run completed
  complete_run-Traced id status refs digest = record {
    at = λ db.
        go
          (update_runs db (can_complete id) (completed status refs digest now)
            (λ run h. and_right (has_run_id id run) _ h) (λ run. refl) (λ run. refl))
          stop;
  }

module _ {R : JobRow → JobRow → Type 0} where
  pub insert_run-Traced : (row : RunRow) → Traced R (insert_run row)
  unfolding insert_run
  insert_run-Traced row = record {
    at = λ db.
        let ids = exists_where (has_run_id row.run_id) db.runs in
        let jobs = exists_where (has_id row.job_id) db.jobs in
        elim (Bool-cases (ids || not jobs)) [
          | inl e ↦ rw e stop
          | inr e ↦ rw e (
              go (add_run db row (or_left ids _ e) (not-false jobs (or_right ids (not jobs) e)))
                stop)
        ];
  }

  pub insert_output-Traced : (row : OutputRow) → Traced R (insert_output row)
  unfolding insert_output
  insert_output-Traced row = record {
    at = λ db.
        let dup = exists_where (same_output row) db.outputs in
        let jobs = exists_where (has_id row.job_id) db.jobs in
        let runs = exists_where (has_run_id row.run_id) db.runs in
        elim (Bool-cases dup) [
          | inl e ↦ rw e stop
          | inr e ↦ elim (Bool-cases (jobs && runs)) [
            | inl k ↦
                rw (e, k)
                  (go (add_output db row e (and_left jobs runs k) (and_right jobs runs k)) stop)
            | inr k ↦ rw (e, k) stop
          ]
        ];
  }

pub ruleset insert_rules =
    (insert_job-Traced, insert_run-Traced, insert_output-Traced, complete_run-Traced)
