-- ===== src/Jobs/Rows.antt =====
-- The rows of `derivation_jobs`, `derivation_runs` and `derivation_outputs` (src/sqlite-store.ts)
-- and the error codes of src/jobs/service.ts. Times are Unix milliseconds; NULL is `none`; a JSON
-- column holds its text.
use agent_recall.Common.{ℕ, String, Bool, true, false, ◌&&◌, Option, List, str_eq}

pub data JobState : Type 0 where
  queued running succeeded failed cancelled : JobState

pub data JobScope : Type 0 where
  global project : JobScope

pub data JobErrorCode : Type 0 where
  idempotency_digest_mismatch not_claimable job_not_found job_already_terminal : JobErrorCode
  stage_validation_failed provider_timeout provider_invalid_output : JobErrorCode
  policy_version_mismatch internal_error : JobErrorCode

pub record JobRow : Type 0 where
  pub job_id : String
  pub kind : String
  pub state : JobState
  pub scope : JobScope
  pub project_id : Option String
  pub creator_actor_id : String
  pub idempotency_key : String
  pub input_digest : String
  pub config_digest : String
  pub cursor_json : String
  pub attempt_count : ℕ
  pub lease_owner : Option String
  pub lease_expires_at : Option ℕ
  pub cancel_requested_at : Option ℕ
  pub next_retry_at : Option ℕ
  pub error_code : Option JobErrorCode
  pub redacted_error : Option String
  pub created_at : ℕ
  pub started_at : Option ℕ
  pub updated_at : ℕ
  pub finished_at : Option ℕ

pub data RunStatus : Type 0 where
  started succeeded failed cancelled : RunStatus

pub record RunRow : Type 0 where
  pub run_id : String
  pub job_id : String
  pub stage : String
  pub status : RunStatus
  pub input_refs_json : String
  pub output_refs_json : String
  pub provider_id : Option String
  pub model_id : Option String
  pub prompt_template_version : Option String
  pub prompt_hash : Option String
  pub policy_version : String
  pub result_digest : Option String
  pub started_at : ℕ
  pub finished_at : Option ℕ

pub data OutputKind : Type 0 where
  candidate skill_draft bootstrap_plan external_ref applied_memory applied_asset : OutputKind

pub data OutputDisposition : Type 0 where
  proposed applied rejected superseded : OutputDisposition

pub record OutputRow : Type 0 where
  pub job_id : String
  pub run_id : String
  pub output_kind : OutputKind
  pub output_id : String
  pub disposition : OutputDisposition
  pub created_at : ℕ

-- The three tables of one database.
pub record JobDb : Type 0 where
  pub jobs : List JobRow
  pub runs : List RunRow
  pub outputs : List OutputRow

-- `Extract<DerivationJobState, "succeeded" | "failed" | "cancelled">`, and the same of a run
pub data TerminalState : Type 0 where
  succeeded failed cancelled : TerminalState

abbrev pub job_state : TerminalState → JobState
job_state TerminalState.succeeded = JobState.succeeded
job_state TerminalState.failed = JobState.failed
job_state TerminalState.cancelled = JobState.cancelled

abbrev pub run_status : TerminalState → RunStatus
run_status TerminalState.succeeded = RunStatus.succeeded
run_status TerminalState.failed = RunStatus.failed
run_status TerminalState.cancelled = RunStatus.cancelled

abbrev pub is_running : JobState → Bool
is_running JobState.running = true
is_running _ = false

abbrev pub is_started : RunStatus → Bool
is_started RunStatus.started = true
is_started _ = false

abbrev pub is_project : JobScope → Bool
is_project JobScope.project = true
is_project _ = false

-- `state NOT IN ('succeeded', 'failed', 'cancelled')`
abbrev pub is_open : JobState → Bool
is_open JobState.queued = true
is_open JobState.running = true
is_open _ = false

abbrev pub same_kind : OutputKind → OutputKind → Bool
same_kind candidate candidate = true
same_kind skill_draft skill_draft = true
same_kind bootstrap_plan bootstrap_plan = true
same_kind external_ref external_ref = true
same_kind applied_memory applied_memory = true
same_kind applied_asset applied_asset = true
same_kind _ _ = false

-- `WHERE job_id = ?`
abbrev pub has_id : String → JobRow → Bool
has_id id row = str_eq row.job_id id

-- `WHERE creator_actor_id = ? AND kind = ? AND idempotency_key = ?`
abbrev pub has_key : String → String → String → JobRow → Bool
has_key creator kind key row =
    str_eq row.creator_actor_id creator && str_eq row.kind kind && str_eq row.idempotency_key key

-- `WHERE run_id = ?`
abbrev pub has_run_id : String → RunRow → Bool
has_run_id id run = str_eq run.run_id id

-- the primary key (job_id, output_kind, output_id)
abbrev pub same_output : OutputRow → OutputRow → Bool
same_output new old =
    str_eq old.job_id new.job_id
    && same_kind old.output_kind new.output_kind
    && str_eq old.output_id new.output_id
