-- ===== src/Jobs/Service.antt =====
-- `DerivationJobStore` of src/jobs/service.ts. Minted ids, the clock and the text of a serialised
-- cursor are arguments; `redact` stands for `redactError` of src/jobs/redactor.ts.
use agent_recall.Common.{
  ℕ, ◌+◌, String, Bool, true, false, ◌&&◌, not, Option, none, some, List, [], ◌∷◌, if◌then◌else◌,
  is_some, get_or, str_eq,
}
use agent_recall.Common.Effect.{Effect, ◌>>=◌, ◌>>◌, pure, throw, gets, stateful}
use agent_recall.Common.Table.{first_where}
use agent_recall.Jobs.Rows.{
  JobState, JobScope, JobErrorCode, JobRow, RunRow, RunStatus, OutputKind, OutputDisposition,
  OutputRow, JobDb, TerminalState, is_running, is_project, has_run_id,
}
use agent_recall.Jobs.Store.{
  JobError, coded, get_job, get_job_by_idempotency, insert_job, claim_job, list_claimable_jobs,
  checkpoint_job, reap_expired_leases,
}
use agent_recall.Jobs.Runs.{get_run, insert_run, complete_run, insert_output, list_runs}

abbrev pub JobEffect : Type 0 → Type 0
JobEffect A = Effect JobDb JobError A

pub record EnqueueInput : Type 0 where
  pub kind : String
  pub scope : JobScope
  pub project_id : Option String
  pub creator_actor_id : String
  pub idempotency_key : String
  pub input_digest : String
  pub config_digest : String
  pub initial_cursor : Option String
  pub next_retry_at : Option ℕ

pub record EnqueueResult : Type 0 where
  pub job : JobRow
  pub replayed : Bool

-- the row that `enqueue` inserts
unfoldable pub queued_row : EnqueueInput → String → ℕ → JobRow
queued_row input job_id now = record {
  job_id = job_id;
  kind = input.kind;
  state = JobState.queued;
  scope = input.scope;
  project_id = input.project_id;
  creator_actor_id = input.creator_actor_id;
  idempotency_key = input.idempotency_key;
  input_digest = input.input_digest;
  config_digest = input.config_digest;
  cursor_json = get_or input.initial_cursor "{}";
  attempt_count = 0;
  lease_owner = none;
  lease_expires_at = none;
  cancel_requested_at = none;
  next_retry_at = input.next_retry_at;
  error_code = none;
  redacted_error = none;
  created_at = now;
  started_at = none;
  updated_at = now;
  finished_at = none;
}

abbrev pub digests_match : EnqueueInput → JobRow → Bool
digests_match input row =
    str_eq row.input_digest input.input_digest && str_eq row.config_digest input.config_digest

-- the row is read back after the insert
abbrev pub or_disappeared : Option JobRow → JobEffect EnqueueResult
or_disappeared none = throw (coded JobErrorCode.internal_error)
or_disappeared (some row) = pure (record { job = row; replayed = false })

unfoldable pub enqueue_with : EnqueueInput → String → ℕ → Option JobRow → JobEffect EnqueueResult
enqueue_with input job_id now (some existing) =
    if digests_match input existing
    then pure (record { job = existing; replayed = true })
    else throw (coded JobErrorCode.idempotency_digest_mismatch)
enqueue_with input job_id now none = do
  insert_job (queued_row input job_id now)
  stored ← gets (get_job job_id)
  or_disappeared stored

unfoldable pub enqueue : EnqueueInput → String → ℕ → JobEffect EnqueueResult
unfolding enqueue_with queued_row insert_job
enqueue input job_id now =
    if is_project input.scope && not (is_some input.project_id)
    then throw (coded JobErrorCode.internal_error)
    else do
      existing ←
          gets (get_job_by_idempotency input.creator_actor_id input.kind input.idempotency_key)
      enqueue_with input job_id now existing

unfoldable pub reap : ℕ → JobEffect ℕ
reap now = stateful (reap_expired_leases now)

pub record Claim : Type 0 where
  pub job : JobRow
  pub lease_expires_at : ℕ

abbrev pub default_lease_ttl_ms : ℕ
default_lease_ttl_ms = 30000

-- `none` is the result `not_claimable`
abbrev pub claim_result : ℕ → Option JobRow → JobEffect (Option Claim)
claim_result expires none = pure none
claim_result expires (some row) = pure (some (record { job = row; lease_expires_at = expires }))

unfoldable pub claim : String → String → Option ℕ → ℕ → JobEffect (Option Claim)
unfolding reap
claim job_id owner ttl now = do
  _ ← reap now
  let expires = now + get_or ttl default_lease_ttl_ms
  job ← stateful (claim_job job_id owner expires now now)
  claim_result expires job

unfoldable pub list_claimable : Option String → ℕ → ℕ → JobEffect (List JobRow)
unfolding reap
list_claimable kind now limit = do _ ← reap now; gets (list_claimable_jobs kind now limit)

pub record StageInput : Type 0 where
  pub job_id : String
  pub stage : String
  pub input_refs : String
  pub policy_version : String
  pub provider_id : Option String
  pub model_id : Option String
  pub prompt_template_version : Option String
  pub prompt_hash : Option String

unfoldable pub started_run : StageInput → String → ℕ → RunRow
started_run input run_id now = record {
  run_id = run_id;
  job_id = input.job_id;
  stage = input.stage;
  status = RunStatus.started;
  input_refs_json = input.input_refs;
  output_refs_json = "[]";
  provider_id = input.provider_id;
  model_id = input.model_id;
  prompt_template_version = input.prompt_template_version;
  prompt_hash = input.prompt_hash;
  policy_version = input.policy_version;
  result_digest = none;
  started_at = now;
  finished_at = none;
}

unfoldable pub start_stage_on : StageInput → String → ℕ → Option JobRow → JobEffect RunRow
start_stage_on input run_id now none = throw (coded JobErrorCode.job_not_found)
start_stage_on input run_id now (some job) =
    if is_running job.state
    then (do insert_run (started_run input run_id now); pure (started_run input run_id now))
    else throw (coded JobErrorCode.internal_error)

unfoldable pub start_stage : StageInput → String → ℕ → JobEffect RunRow
unfolding start_stage_on started_run insert_run
start_stage input run_id now = do
  job ← gets (get_job input.job_id)
  start_stage_on input run_id now job

pub record OutputDescriptor : Type 0 where
  pub output_kind : OutputKind
  pub output_id : String
  pub disposition : OutputDisposition

pub record FinishInput : Type 0 where
  pub run_id : String
  pub status : TerminalState
  pub output_refs : Option String
  pub outputs : List OutputDescriptor
  pub cursor : Option String
  pub result_digest : Option String

abbrev pub job_of_run : Option RunRow → JobEffect String
job_of_run none = throw (coded JobErrorCode.internal_error)
job_of_run (some run) = pure run.job_id

unfoldable pub run_job_id : String → JobEffect String
run_job_id run_id = do run ← gets (get_run run_id); job_of_run run

unfoldable pub write_cursor : String → Option String → ℕ → JobEffect (Unit {0})
unfolding run_job_id
write_cursor run_id none now = pure tt
write_cursor run_id (some cursor) now = do
  job_id ← run_job_id run_id
  _ ← stateful (checkpoint_job job_id cursor now)
  pure tt

abbrev pub output_row : String → String → OutputDescriptor → ℕ → OutputRow
output_row job_id run_id out now = record {
  job_id = job_id;
  run_id = run_id;
  output_kind = out.output_kind;
  output_id = out.output_id;
  disposition = out.disposition;
  created_at = now;
}

-- one round of the loop over `input.outputs`
unfoldable pub write_output : String → OutputDescriptor → ℕ → JobEffect Bool
unfolding run_job_id insert_output
write_output run_id out now = do
  job_id ← run_job_id run_id
  insert_output (output_row job_id run_id out now)

unfoldable pub write_outputs : String → List OutputDescriptor → ℕ → JobEffect (Unit {0})
unfolding write_output
write_outputs run_id [] now = pure tt
write_outputs run_id (out ∷ rest) now =
    write_output run_id out now >>= λ _. write_outputs run_id rest now

abbrev pub or_vanished : Option RunRow → JobEffect RunRow
or_vanished none = throw (coded JobErrorCode.internal_error)
or_vanished (some run) = pure run

-- what follows the UPDATE of the run
unfoldable pub finish_rest : FinishInput → ℕ → JobEffect RunRow
unfolding write_cursor write_outputs run_job_id
finish_rest input now = do
  write_cursor input.run_id input.cursor now
  write_outputs input.run_id input.outputs now
  job_id ← run_job_id input.run_id
  updated ← gets (list_runs job_id)
  or_vanished (first_where (has_run_id input.run_id) updated)

-- Each statement is committed on its own: the method opens no transaction.
unfoldable pub finish_stage : FinishInput → ℕ → JobEffect RunRow
unfolding finish_rest complete_run
finish_stage input now = do
  done ← stateful (
      complete_run input.run_id input.status (get_or input.output_refs "[]") input.result_digest
        now)
  if done then finish_rest input now else throw (coded JobErrorCode.internal_error)
