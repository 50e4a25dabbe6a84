-- ===== src/Jobs/Invariant.antt =====
-- What holds of the job tables between two operations.
pub mod Preserved
use agent_recall.Common.{
  ℕ, ◌+◌, ◌<◌, String, Bool, true, false, ◌&&◌, Option, none, some, List, [], ◌∷◌, ◌≡◌, refl, ◌∙◌,
  ap, arith, if◌then◌else◌, inl, inr, Bool-cases, is_some, str_eq, eq_iff, All, All-append, sym,
}
use agent_recall.Common.Table.{
  first_where, update_where, insert_row, exists_where, Distinct, Distinct-insert_row,
  Distinct-update_where, All-update_where, exists_where-update_where, exists_where-insert_row,
}
use agent_recall.Jobs.Rows.{
  JobState, JobRow, RunRow, OutputRow, OutputKind, JobDb, is_running, is_open, has_id, has_key,
  has_run_id, same_output, same_kind,
}
use agent_recall.Jobs.Store.{claimed, cancel_requested, finalized, checkpointed, renewed, reaped}
use agent_recall.Jobs.Service.{EnqueueInput, queued_row}
use agent_recall.Jobs.Ops.{
  Op, enqueue_op, reap_op, claim_op, list_op, start_op, finish_op, complete_op, fail_op, cancel_op,
  mark_op, checkpoint_op, renew_op, run_ops,
}
use agent_recall.Jobs.Moves.{
  Move, update_jobs, add_job, add_run, update_runs, add_output, Moves, Moves_keep,
}
use agent_recall.Jobs.Moves.Methods.{Lawful, AllLawful, run_ops-Moves}

-- A running job has an owner, an expiry, a start and an attempt; any other job has no lease; an
-- ended job has an end, a start and an attempt.
pub record IsWellFormed (row : JobRow) : Type 0 where
  pub leased :
      is_running row.state ≡ true
      → (is_some row.lease_owner ≡ true) × (is_some row.lease_expires_at ≡ true)
  pub free : is_running row.state ≡ false → (row.lease_owner ≡ none) × (row.lease_expires_at ≡ none)
  pub begun :
      is_running row.state ≡ true → (is_some row.started_at ≡ true) × (0 < row.attempt_count)
  pub ended :
      is_open row.state ≡ false
      → (is_some row.started_at ≡ true) × (0 < row.attempt_count) × (is_some row.finished_at ≡ true)

-- the UPDATEs keep that, the id and the unique key
pub record Keeps (old new : JobRow) : Type 0 where
  pub same_id : new.job_id ≡ old.job_id
  pub same_creator : new.creator_actor_id ≡ old.creator_actor_id
  pub same_kind_of_job : new.kind ≡ old.kind
  pub same_key : new.idempotency_key ≡ old.idempotency_key
  pub well_formed : IsWellFormed old → IsWellFormed new

Keeps-Lawful : (redact : Option String → String) (op : Op) → Lawful Keeps redact op
unfolding claimed cancel_requested finalized checkpointed renewed reaped
Keeps-Lawful redact (enqueue_op input job_id now) = tt
Keeps-Lawful redact (reap_op now) = λ row h. ground arith
Keeps-Lawful redact (claim_op job_id owner ttl now) = (λ row h. ground arith, λ row h. ground arith)
Keeps-Lawful redact (list_op kind now limit) = λ row h. ground arith
Keeps-Lawful redact (start_op input run_id now) = tt
Keeps-Lawful redact (finish_op input now) = λ id cursor now row h. ground arith
Keeps-Lawful redact (complete_op job_id now) = λ row h. ground arith
Keeps-Lawful redact (fail_op job_id code message retry now) = λ row h. ground arith
Keeps-Lawful redact (cancel_op job_id now) = λ row h. ground arith
Keeps-Lawful redact (mark_op job_id now) = λ row h. ground arith
Keeps-Lawful redact (checkpoint_op job_id cursor now) = λ id cursor now row h. ground arith
Keeps-Lawful redact (renew_op job_id owner expires now) = λ row h. ground arith

Keeps-AllLawful : (redact : Option String → String) (ops : List Op) → AllLawful Keeps redact ops
Keeps-AllLawful redact [] = tt
Keeps-AllLawful redact (op ∷ ops) = (Keeps-Lawful redact op, Keeps-AllLawful redact ops)

abbrev pub same_id_as : JobRow → JobRow → Bool
same_id_as a b = has_id a.job_id b

abbrev pub same_key_as : JobRow → JobRow → Bool
same_key_as a b = has_key a.creator_actor_id a.kind a.idempotency_key b

abbrev pub same_run_as : RunRow → RunRow → Bool
same_run_as a b = has_run_id a.run_id b

-- The three tables obey their PRIMARY KEY, UNIQUE and FOREIGN KEY constraints, and each job is
-- well formed.
pub record IsConsistent (db : JobDb) : Type 0 where
  pub rows : All IsWellFormed db.jobs
  pub ids : Distinct same_id_as db.jobs
  pub keys : Distinct same_key_as db.jobs
  pub run_ids : Distinct same_run_as db.runs
  pub outputs : Distinct same_output db.outputs
  pub run_jobs : All (λ run. exists_where (has_id run.job_id) db.jobs ≡ true) db.runs
  pub output_jobs : All (λ out. exists_where (has_id out.job_id) db.jobs ≡ true) db.outputs
  pub output_runs : All (λ out. exists_where (has_run_id out.run_id) db.runs ≡ true) db.outputs
