-- ===== src/Jobs/Runs.antt =====
-- The statements of src/sqlite-store.ts on `derivation_runs` and `derivation_outputs`.
use agent_recall.Common.{
  ℕ, String, Bool, true, false, ◌&&◌, ◌||◌, not, Option, some, List, ltb, if◌then◌else◌, str_eq,
}
use agent_recall.Common.Effect.{Outcome, returned, thrown}
use agent_recall.Common.Table.{
  first_where, select_where, update_where, count_where, exists_where, insert_row,
}
use agent_recall.Jobs.Rows.{
  RunRow, OutputRow, JobDb, TerminalState, run_status, is_started, has_id, has_run_id, same_output,
}
use agent_recall.Jobs.Store.{JobError, constraint_failed}

abbrev pub get_run : String → JobDb → Option RunRow
get_run id db = first_where (has_run_id id) db.runs

-- `job_id` references `derivation_jobs`
unfoldable pub insert_run : RunRow → JobDb → Outcome JobError (Unit {0}) × JobDb
insert_run row db =
    if exists_where (has_run_id row.run_id) db.runs
      || not (exists_where (has_id row.job_id) db.jobs)
    then (thrown constraint_failed, db)
    else (returned tt, record db { runs = insert_row row db.runs })

abbrev pub can_complete : String → RunRow → Bool
can_complete id run = has_run_id id run && is_started run.status

unfoldable pub completed : TerminalState → String → Option String → ℕ → RunRow → RunRow
completed status refs digest now run = record run {
  status = run_status status;
  output_refs_json = refs;
  result_digest = digest;
  finished_at = some now;
}

unfoldable pub complete_run :
    String → TerminalState → String → Option String → ℕ → JobDb → Bool × JobDb
complete_run id status refs digest now db = (
  ltb 0 (count_where (can_complete id) db.runs),
  record db { runs = update_where (can_complete id) (completed status refs digest now) db.runs },
)

-- A second row with the same primary key is not inserted: the method returns false. The two
-- foreign keys are checked after that.
unfoldable pub insert_output : OutputRow → JobDb → Outcome JobError Bool × JobDb
insert_output row db =
    if exists_where (same_output row) db.outputs
    then (returned false, db)
    else if exists_where (has_id row.job_id) db.jobs && exists_where (has_run_id row.run_id) db.runs
    then (returned true, record db { outputs = insert_row row db.outputs })
    else (thrown constraint_failed, db)

abbrev pub list_runs : String → JobDb → List RunRow
list_runs id db = select_where (λ run. str_eq run.job_id id) db.runs

abbrev pub list_outputs : String → JobDb → List OutputRow
list_outputs id db = select_where (λ row. str_eq row.job_id id) db.outputs
