-- ===== src/Jobs/Endings.antt =====
-- The methods of `DerivationJobStore` (src/jobs/service.ts) that end a job, and its readers.
pub mod Exact
use agent_recall.Common.{
  ℕ, String, Bool, true, Option, none, some, List, ◌&&◌, str_eq, get_or, take,
}
use agent_recall.Common.Effect.{◌>>=◌, pure, throw, stateful}
use mathlib.Core.List.{reverse}
use agent_recall.Jobs.Rows.{JobState, JobErrorCode, JobRow, RunRow, OutputRow, JobDb, TerminalState}
use agent_recall.Jobs.Store.{coded, Ending, get_job, finalize_job, request_job_cancel, kind_matches}
use agent_recall.Jobs.Runs.{list_runs, list_outputs}
use agent_recall.Jobs.Service.{JobEffect}

abbrev pub or_not_found : Option JobRow → JobEffect JobRow
or_not_found none = throw (coded JobErrorCode.job_not_found)
or_not_found (some row) = pure row

-- `finalizeDerivationJob`, and the error of its three callers
unfoldable pub end_job : String → Ending → ℕ → JobEffect JobRow
end_job job_id ending now = do
  updated ← stateful (finalize_job job_id ending now)
  or_not_found updated

abbrev pub plain_ending : TerminalState → Ending
plain_ending status = record {
  terminal_state = status;
  cursor_json = none;
  error_code = none;
  redacted_error = none;
  next_retry_at = none;
}

unfoldable pub complete : String → ℕ → JobEffect JobRow
unfolding end_job
complete job_id now = end_job job_id (plain_ending TerminalState.succeeded) now

abbrev pub failed_ending : JobErrorCode → String → Option ℕ → Ending
failed_ending code message retry = record {
  terminal_state = TerminalState.failed;
  cursor_json = none;
  error_code = some code;
  redacted_error = some message;
  next_retry_at = retry;
}

-- `redact` stands for `redactError`
unfoldable pub fail :
    (Option String → String)
    → String
    → JobErrorCode
    → Option String
    → Option ℕ
    → ℕ
    → JobEffect JobRow
unfolding end_job
fail redact job_id code message retry now =
    end_job job_id (failed_ending code (redact message) retry) now

unfoldable pub request_cancel : String → ℕ → JobEffect Bool
request_cancel job_id now = stateful (request_job_cancel job_id now)

unfoldable pub mark_cancelled : String → ℕ → JobEffect JobRow
unfolding end_job
mark_cancelled job_id now = end_job job_id (plain_ending TerminalState.cancelled) now

pub record JobInspection : Type 0 where
  pub job : JobRow
  pub runs : List RunRow
  pub outputs : List OutputRow

-- the two lists in rowid order
abbrev pub inspect_job : JobDb → Option JobRow → Option JobInspection
inspect_job db none = none
inspect_job db (some row) =
    some
      (record { job = row; runs = list_runs row.job_id db; outputs = list_outputs row.job_id db })

unfoldable pub inspect : String → JobDb → Option JobInspection
inspect job_id db = inspect_job db (get_job job_id db)
