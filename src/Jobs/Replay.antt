-- ===== src/Jobs/Replay.antt =====
-- `enqueue` of src/jobs/service.ts by its key (creator_actor_id, kind, idempotency_key).
pub mod Idempotent
use agent_recall.Common.{
  ℕ, String, Bool, true, false, ◌&&◌, ◌||◌, not, Option, none, some, List, ◌≡◌, refl, sym, ap, ◌∙◌,
  arith, if◌then◌else◌, is_some, str_eq, eq_iff, eq_refl, inl, inr, Bool-cases, Option-cases,
}
use agent_recall.Common.Effect.{returned, thrown}
use agent_recall.Common.Table.{
  first_where, exists_where, insert_row, first_where-insert_row, first_where_key, first_where-none,
  first_where_sound, none-exists_where,
}
use agent_recall.Jobs.Rows.{JobErrorCode, JobRow, JobDb, is_project, has_id, has_key}
use agent_recall.Jobs.Store.{
  JobError, coded, constraint_failed, get_job, get_job_by_idempotency, insert_job,
}
use agent_recall.Jobs.Service.{
  EnqueueInput, EnqueueResult, queued_row, digests_match, or_disappeared, enqueue_with, enqueue,
}
use agent_recall.Jobs.Ops.{Op, enqueue_op, run_ops, step}
use agent_recall.Jobs.History.{Evolves, Survives, run_ops-Evolves}
use agent_recall.Jobs.Invariant.{IsConsistent, same_id_as, same_key_as}
use agent_recall.Jobs.Invariant.Preserved.{run_ops-IsConsistent, str_eq-flip, same_key_as-flip}

-- a project job names its project
abbrev pub IsAddressed : EnqueueInput → Type 0
IsAddressed input = (is_project input.scope && not (is_some input.project_id)) ≡ false

abbrev pub job_for : EnqueueInput → JobDb → Option JobRow
job_for input db = get_job_by_idempotency input.creator_actor_id input.kind input.idempotency_key db

module _ (input : EnqueueInput) (job_id : String) (now : ℕ) (db : JobDb) where
  -- A job with the key is there: it is returned as a replay, or the digests differ and the call
  -- throws. Nothing is written.
  pub enqueue_found :
      (row : JobRow)
      → IsAddressed input
      → job_for input db ≡ some row
      → enqueue input job_id now db ≡ (
        if digests_match input row
            then returned (record { job = row; replayed = true })
            else thrown (coded JobErrorCode.idempotency_digest_mismatch),
        db,
      )
  unfolding enqueue
  enqueue_found row ok found = elim (Bool-cases (digests_match input row)) [
    | inl e ↦ rw (ok, found, e)
    | inr e ↦ rw (ok, found, e)
  ]

  insert_fresh :
      exists_where (has_id job_id) db.jobs ≡ false
      → exists_where (has_key input.creator_actor_id input.kind input.idempotency_key) db.jobs
        ≡ false
      → insert_job (queued_row input job_id now) db
        ≡ (returned tt, record db { jobs = insert_row (queued_row input job_id now) db.jobs })
  unfolding insert_job queued_row
  insert_fresh new_id new_key = rw (new_id, new_key)

  pub read_back :
      exists_where (has_id job_id) db.jobs ≡ false
      → first_where (has_id job_id) (insert_row (queued_row input job_id now) db.jobs)
        ≡ some (queued_row input job_id now)
  unfolding queued_row
  read_back new = rw (
    first_where-insert_row (has_id job_id) (queued_row input job_id now) db.jobs,
    first_where-none (has_id job_id) db.jobs new,
    eq_refl job_id,
  )

  enqueue_with_new :
      exists_where (has_id job_id) db.jobs ≡ false
      → exists_where (has_key input.creator_actor_id input.kind input.idempotency_key) db.jobs
        ≡ false
      → enqueue_with input job_id now none db ≡ (
        returned (record { job = queued_row input job_id now; replayed = false }),
        record db { jobs = insert_row (queued_row input job_id now) db.jobs },
      )
  unfolding enqueue_with
  enqueue_with_new new_id new_key = rw (insert_fresh new_id new_key) (rw (read_back new_id))

  -- No job has the key, and the minted id is new: the new row is stored and returned.
  pub enqueue_new :
      IsAddressed input
      → job_for input db ≡ none
      → exists_where (has_id job_id) db.jobs ≡ false
      → enqueue input job_id now db ≡ (
        returned (record { job = queued_row input job_id now; replayed = false }),
        record db { jobs = insert_row (queued_row input job_id now) db.jobs },
      )
  unfolding enqueue
  enqueue_new ok found new =
      rw (ok, found) (enqueue_with_new new (none-exists_where _ db.jobs found))

  clash_with :
      exists_where (has_id job_id) db.jobs ≡ true
      → enqueue_with input job_id now none db ≡ (thrown constraint_failed, db)
  unfolding enqueue_with insert_job queued_row
  clash_with taken = rw taken

  -- The minted id is taken: the INSERT throws, and nothing is written.
  pub enqueue_clash :
      IsAddressed input
      → job_for input db ≡ none
      → exists_where (has_id job_id) db.jobs ≡ true
      → enqueue input job_id now db ≡ (thrown constraint_failed, db)
  unfolding enqueue
  enqueue_clash ok found taken = rw (ok, found) (clash_with taken)

  pub enqueue_unaddressed :
      (is_project input.scope && not (is_some input.project_id)) ≡ true
      → enqueue input job_id now db ≡ (thrown (coded JobErrorCode.internal_error), db)
  unfolding enqueue
  enqueue_unaddressed bad = rw bad
