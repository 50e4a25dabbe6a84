-- ===== src/Jobs/Store.antt =====
-- The statements that src/sqlite-store.ts runs on the job tables: each method is a function from
-- the tables to its result and the new tables. An INSERT that breaks a PRIMARY KEY, UNIQUE or
-- FOREIGN KEY constraint throws and writes nothing.
use mathlib.Core.Option
use agent_recall.Common.{
  ℕ, ◌+◌, String, Bool, true, false, ◌&&◌, ◌||◌, Option, none, some, List, ltb, leb, if◌then◌else◌,
  coalesce, str_eq, take,
}
use agent_recall.Common.Effect.{Outcome, returned, thrown}
use agent_recall.Common.Table.{
  first_where, select_where, update_where, count_where, exists_where, insert_row,
}
use agent_recall.Common.Order.{order_by}
use agent_recall.Jobs.Rows.{
  JobState, JobRow, JobErrorCode, JobDb, TerminalState, job_state, is_running, is_open, has_id,
  has_key,
}

-- What a method of the store or of the service throws.
pub data JobError : Type 0 where
  coded : JobErrorCode → JobError
  constraint_failed : JobError

abbrev pub get_job : String → JobDb → Option JobRow
get_job id db = first_where (has_id id) db.jobs

abbrev pub get_job_by_idempotency : String → String → String → JobDb → Option JobRow
get_job_by_idempotency creator kind key db = first_where (has_key creator kind key) db.jobs

unfoldable pub insert_job : JobRow → JobDb → Outcome JobError (Unit {0}) × JobDb
insert_job row db =
    if exists_where (has_id row.job_id) db.jobs
      || exists_where (has_key row.creator_actor_id row.kind row.idempotency_key) db.jobs
    then (thrown constraint_failed, db)
    else (returned tt, record db { jobs = insert_row row db.jobs })

-- `column IS NOT NULL AND column <= now`
abbrev pub due : Option ℕ → ℕ → Bool
due none now = false
due (some t) now = leb t now

abbrev pub claimable_state : JobState → Option ℕ → ℕ → Bool
claimable_state JobState.queued retry now = true
claimable_state JobState.failed retry now = due retry now
claimable_state _ retry now = false

-- `lease_owner IS NULL OR lease_expires_at IS NULL OR lease_expires_at <= now`
abbrev pub lease_free : Option String → Option ℕ → ℕ → Bool
lease_free none expires now = true
lease_free (some owner) none now = true
lease_free (some owner) (some t) now = leb t now

abbrev pub is_claimable : ℕ → JobRow → Bool
is_claimable now row =
    claimable_state row.state row.next_retry_at now
    && lease_free row.lease_owner row.lease_expires_at now

abbrev pub can_claim : String → ℕ → JobRow → Bool
can_claim id now row = has_id id row && is_claimable now row

-- the SET list of the claim; `started_at` is given the time of the claim
unfoldable pub claimed : String → ℕ → ℕ → ℕ → JobRow → JobRow
claimed owner expires started now row = record row {
  lease_owner = some owner;
  lease_expires_at = some expires;
  attempt_count = row.attempt_count + 1;
  state = JobState.running;
  started_at = coalesce row.started_at (some started);
  updated_at = now;
}

unfoldable pub claim_job : String → String → ℕ → ℕ → ℕ → JobDb → Option JobRow × JobDb
claim_job id owner expires started now db = (
  Option.map (claimed owner expires started now) (first_where (can_claim id now) db.jobs),
  record db { jobs = update_where (can_claim id now) (claimed owner expires started now) db.jobs },
)

abbrev pub kind_matches : Option String → JobRow → Bool
kind_matches none row = true
kind_matches (some kind) row = str_eq row.kind kind

unfoldable pub list_claimable_jobs : Option String → ℕ → ℕ → JobDb → List JobRow
list_claimable_jobs kind now limit db = take limit (
    order_by (λ row. row.created_at)
      (select_where (λ row. is_claimable now row && kind_matches kind row) db.jobs))

abbrev pub can_cancel : String → JobRow → Bool
can_cancel id row = has_id id row && is_open row.state

unfoldable pub cancel_requested : ℕ → JobRow → JobRow
cancel_requested now row = record row { cancel_requested_at = some now; updated_at = now }

unfoldable pub request_job_cancel : String → ℕ → JobDb → Bool × JobDb
request_job_cancel id now db = (
  ltb 0 (count_where (can_cancel id) db.jobs),
  record db { jobs = update_where (can_cancel id) (cancel_requested now) db.jobs },
)

abbrev pub can_finalize : String → JobRow → Bool
can_finalize id row = has_id id row && is_running row.state

-- The optional arguments of `finalizeDerivationJob`.
pub record Ending : Type 0 where
  pub terminal_state : TerminalState
  pub cursor_json : Option String
  pub error_code : Option JobErrorCode
  pub redacted_error : Option String
  pub next_retry_at : Option ℕ

abbrev pub or_column : Option String → String → String
or_column none column = column
or_column (some text) column = text

unfoldable pub finalized : Ending → ℕ → JobRow → JobRow
finalized ending now row = record row {
  state = job_state ending.terminal_state;
  cursor_json = or_column ending.cursor_json row.cursor_json;
  error_code = ending.error_code;
  redacted_error = ending.redacted_error;
  next_retry_at = ending.next_retry_at;
  lease_owner = none;
  lease_expires_at = none;
  finished_at = coalesce row.finished_at (some now);
  updated_at = now;
}

unfoldable pub finalize_job : String → Ending → ℕ → JobDb → Option JobRow × JobDb
finalize_job id ending now db = (
  Option.map (finalized ending now) (first_where (can_finalize id) db.jobs),
  record db { jobs = update_where (can_finalize id) (finalized ending now) db.jobs },
)

unfoldable pub checkpointed : String → ℕ → JobRow → JobRow
checkpointed cursor now row = record row { cursor_json = cursor; updated_at = now }

unfoldable pub checkpoint_job : String → String → ℕ → JobDb → Bool × JobDb
checkpoint_job id cursor now db = (
  ltb 0 (count_where (can_finalize id) db.jobs),
  record db { jobs = update_where (can_finalize id) (checkpointed cursor now) db.jobs },
)

-- `column = ?`, false on NULL
abbrev pub column_is : Option String → String → Bool
column_is none text = false
column_is (some value) text = str_eq value text

-- `cancel_requested_at IS NULL OR cancel_requested_at > now`
abbrev pub not_cancelled : Option ℕ → ℕ → Bool
not_cancelled none now = true
not_cancelled (some t) now = ltb now t

abbrev pub can_renew : String → String → ℕ → JobRow → Bool
can_renew id owner now row =
    has_id id row
    && is_running row.state
    && column_is row.lease_owner owner
    && not_cancelled row.cancel_requested_at now

unfoldable pub renewed : String → ℕ → ℕ → JobRow → JobRow
renewed owner expires now row = record row {
  lease_owner = some owner;
  lease_expires_at = some expires;
  updated_at = now;
}

unfoldable pub renew_job_lease : String → String → ℕ → ℕ → JobDb → Bool × JobDb
renew_job_lease id owner expires now db = (
  ltb 0 (count_where (can_renew id owner now) db.jobs),
  record db { jobs = update_where (can_renew id owner now) (renewed owner expires now) db.jobs },
)

abbrev pub lease_expired : ℕ → JobRow → Bool
lease_expired now row = is_running row.state && due row.lease_expires_at now

unfoldable pub reaped : ℕ → JobRow → JobRow
reaped now row = record row {
  state = JobState.queued;
  lease_owner = none;
  lease_expires_at = none;
  updated_at = now;
}

unfoldable pub reap_expired_leases : ℕ → JobDb → ℕ × JobDb
reap_expired_leases now db = (
  count_where (lease_expired now) db.jobs,
  record db { jobs = update_where (lease_expired now) (reaped now) db.jobs },
)
