-- ===== src/Jobs/Endings/Exact.antt =====
-- When `complete`, `fail` and `markCancelled` of src/jobs/service.ts end a job, and for whom.
use mathlib.Core.Option
use agent_recall.Common.{
  ℕ, ◌≤◌, String, ◌&&◌, coalesce, get_or, Option, none, some, [], ◌∷◌, ◌≡◌, refl, ap, ◌∙◌, arith,
  if◌then◌else◌, str_eq,
}
use agent_recall.Common.Effect.{Outcome, returned, thrown}
use agent_recall.Common.Table.{first_where-update_where, first_where_and, only_if}
use agent_recall.Jobs.Rows.{
  JobState, JobErrorCode, JobRow, JobDb, TerminalState, job_state, has_id, is_running,
}
use agent_recall.Jobs.Store.{
  JobError, coded, Ending, or_column, get_job, can_finalize, finalized, finalize_job,
}
use agent_recall.Jobs.Service.{claim}
use agent_recall.Jobs.Ops.{claim_op, run_ops, step}
use agent_recall.Jobs.Endings.{or_not_found, end_job, complete, plain_ending}
use agent_recall.Jobs.Invariant.{IsConsistent, same_id_as}
use agent_recall.Jobs.Invariant.Preserved.{run_ops-IsConsistent}
use agent_recall.Jobs.Lease.{Holds}
use agent_recall.Jobs.Claim.{same_id_as_key}
use agent_recall.Jobs.Claim.Exclusive.{claim_takes_over}

-- the reply for the row under the id, or for none
abbrev pub ended_reply : Ending → ℕ → Option JobRow → Outcome JobError JobRow
ended_reply ending now none = thrown (coded JobErrorCode.job_not_found)
ended_reply ending now (some row) =
    if is_running row.state
    then returned (finalized ending now row)
    else thrown (coded JobErrorCode.job_not_found)

-- the stored row afterwards
abbrev pub ended_row : String → Ending → ℕ → JobRow → JobRow
ended_row id ending now row = if can_finalize id row then finalized ending now row else row

finalized_id :
    (ending : Ending) (now : ℕ) (row : JobRow) → (finalized ending now row).job_id ≡ row.job_id
unfolding finalized
finalized_id ending now row = refl

module _ (id : String) (ending : Ending) (now : ℕ) (db : JobDb) where
  reply_cases :
      (row : Option JobRow) (after : JobDb)
      → (or_not_found
          (Option.map (finalized ending now) (only_if (λ r. is_running r.state) row))
          after).0
        ≡ ended_reply ending now row
  reply_cases none after = refl
  reply_cases (some row) after = ground arith

  state_cases : (row : Option JobRow) (after : JobDb) → (or_not_found row after).1 ≡ after
  state_cases none after = refl
  state_cases (some row) after = refl

  finalize_job_row :
      IsConsistent db
      → (finalize_job id ending now db).0
        ≡ Option.map (finalized ending now) (only_if (λ r. is_running r.state) (get_job id db))
  unfolding finalize_job
  finalize_job_row c = ap (Option.map (finalized ending now)) (
      first_where_and same_id_as (has_id id) (λ r. is_running r.state) db.jobs (same_id_as_key id)
        c.ids)

  get_job-finalize_job :
      (j : String)
      → get_job j (finalize_job id ending now db).1
        ≡ Option.map (ended_row id ending now) (get_job j db)
  unfolding finalize_job
  get_job-finalize_job j =
      first_where-update_where (has_id j) (can_finalize id) (finalized ending now) db.jobs
        (λ r e. ap (λ (s : String). str_eq s j) (finalized_id ending now r))

  -- in terms of the ending
  ended :
      IsConsistent db
      → ((end_job id ending now db).0 ≡ ended_reply ending now (get_job id db))
        × ((j : String)
            → get_job j (end_job id ending now db).1
              ≡ Option.map (ended_row id ending now) (get_job j db))
  unfolding end_job
  ended c = (
    rw (finalize_job_row c) (reply_cases (get_job id db) _),
    λ j. rw (state_cases _ (finalize_job id ending now db).1) (get_job-finalize_job j),
  )

  other_tables :
      ((end_job id ending now db).1.runs ≡ db.runs)
      × ((end_job id ending now db).1.outputs ≡ db.outputs)
  unfolding end_job finalize_job
  other_tables =
      let after = (finalize_job id ending now db).1 in
      rw (state_cases (finalize_job id ending now db).0 after) (refl, refl)

abbrev pub final_state : TerminalState → JobState
final_state TerminalState.succeeded = JobState.succeeded
final_state TerminalState.failed = JobState.failed
final_state TerminalState.cancelled = JobState.cancelled

-- the row of a job that has ended, column by column
abbrev pub ended_as : Ending → ℕ → JobRow → JobRow
ended_as ending now row = record {
  job_id = row.job_id;
  kind = row.kind;
  state = final_state ending.terminal_state;
  scope = row.scope;
  project_id = row.project_id;
  creator_actor_id = row.creator_actor_id;
  idempotency_key = row.idempotency_key;
  input_digest = row.input_digest;
  config_digest = row.config_digest;
  cursor_json = get_or ending.cursor_json row.cursor_json;
  attempt_count = row.attempt_count;
  lease_owner = none;
  lease_expires_at = none;
  cancel_requested_at = row.cancel_requested_at;
  next_retry_at = ending.next_retry_at;
  error_code = ending.error_code;
  redacted_error = ending.redacted_error;
  created_at = row.created_at;
  started_at = row.started_at;
  updated_at = now;
  finished_at = some (get_or row.finished_at now);
}

terminal_final : (state : TerminalState) → job_state state ≡ final_state state
terminal_final TerminalState.succeeded = refl
terminal_final TerminalState.failed = refl
terminal_final TerminalState.cancelled = refl

cursor_kept :
    (cursor : Option String) (column : String) → or_column cursor column ≡ get_or cursor column
cursor_kept none column = refl
cursor_kept (some text) column = refl

first_end : (o : Option ℕ) (now : ℕ) → coalesce o (some now) ≡ some (get_or o now)
first_end none now = refl
first_end (some t) now = refl

finalized_ended :
    (ending : Ending) (now : ℕ) (row : JobRow) → finalized ending now row ≡ ended_as ending now row
unfolding finalized
finalized_ended ending now row =
    rw
      (
        terminal_final ending.terminal_state,
        cursor_kept ending.cursor_json row.cursor_json,
        first_end row.finished_at now,
      )
      refl

-- the row of a job that runs is returned as ended
abbrev pub end_reply : Ending → ℕ → Option JobRow → Outcome JobError JobRow
end_reply ending now none = thrown (coded JobErrorCode.job_not_found)
end_reply ending now (some row) =
    if is_running row.state
    then returned (ended_as ending now row)
    else thrown (coded JobErrorCode.job_not_found)

abbrev pub end_row : String → Ending → ℕ → JobRow → JobRow
end_row id ending now row =
    if str_eq row.job_id id && is_running row.state then ended_as ending now row else row

reply_ended :
    (ending : Ending) (now : ℕ) (row : Option JobRow)
    → ended_reply ending now row ≡ end_reply ending now row
reply_ended ending now none = refl
reply_ended ending now (some row) = rw (finalized_ended ending now row) refl

stored_ended :
    (id : String) (ending : Ending) (now : ℕ) (row : Option JobRow)
    → Option.map (ended_row id ending now) row ≡ Option.map (end_row id ending now) row
stored_ended id ending now none = refl
stored_ended id ending now (some row) = rw (finalized_ended ending now row) refl

-- On consistent tables an ending returns the ended row if the job is running, and throws `job_not_found`
-- both for an unknown id and for a job that is not running. Under every id the stored row is the one
-- before, but for the running job with this id: that has the final state, the error and the retry time
-- that it is given, no lease, its first end or else this one, and the cursor that is given or else its
-- own; its other columns but `updated_at` are as before. Runs and outputs are as before.
pub end_job_lem :
    (id : String) (ending : Ending) (now : ℕ) (db : JobDb)
    → IsConsistent db
    → ((end_job id ending now db).0 ≡ end_reply ending now (get_job id db))
      × ((j : String)
          → get_job j (end_job id ending now db).1
            ≡ Option.map (end_row id ending now) (get_job j db))
      × ((end_job id ending now db).1.runs ≡ db.runs)
      × ((end_job id ending now db).1.outputs ≡ db.outputs)
end_job_lem id ending now db c =
    let (reply, stored) = ended id ending now db c in
    (
      reply ∙ reply_ended ending now (get_job id db),
      λ j. stored j ∙ stored_ended id ending now (get_job j db),
      (other_tables id ending now db).0,
      (other_tables id ending now db).1,
    )

succeeded_row :
    (now : ℕ) (row : JobRow)
    → ((finalized (plain_ending TerminalState.succeeded) now row).state ≡ JobState.succeeded)
      × ((finalized (plain_ending TerminalState.succeeded) now row).lease_owner ≡ none)
unfolding finalized
succeeded_row now row = (refl, refl)

complete_held :
    (id owner : String) (expires now : ℕ) (db : JobDb)
    → IsConsistent db
    → Holds id owner expires db
    → (row : JobRow) × ((complete id now db).0 ≡ returned row)
      × (row.state ≡ JobState.succeeded)
      × (row.lease_owner ≡ none)
unfolding complete
complete_held id owner expires now db c h = (
  finalized (plain_ending TerminalState.succeeded) now h.row,
  (ended id (plain_ending TerminalState.succeeded) now db c).0
      ∙ rw (h.found, h.leased.running) refl,
  (succeeded_row now h.row).0,
  (succeeded_row now h.row).1,
)

-- Ending a job does not ask who holds its lease. When a second worker has taken over a job whose
-- first lease ran out, `complete` still succeeds at any later time for whoever calls it, the first
-- worker included: it returns the job as succeeded and takes the second worker's lease away.
pub stale_worker_completes :
    (id worker owner : String) (expires : ℕ) (ttl : Option ℕ) (now later : ℕ) (db : JobDb)
    → IsConsistent db
    → Holds id worker expires db
    → expires ≤ now
    → (row : JobRow) × ((complete id later (claim id owner ttl now db).1).0 ≡ returned row)
      × (row.state ≡ JobState.succeeded)
      × (row.lease_owner ≡ none)
stale_worker_completes id worker owner expires ttl now later db c h late =
    complete_held id owner _ later (claim id owner ttl now db).1
      (unfold run_ops step in run_ops-IsConsistent (λ m. "") (claim_op id owner ttl now ∷ []) db c)
      (claim_takes_over id worker owner expires ttl now db c h late).holds
