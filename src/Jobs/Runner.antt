-- ===== src/Jobs/Runner.antt =====
-- `runOnce` of src/jobs/runner.ts. What lies outside it is given turn by turn: the clock, the abort
-- signal, the errors of the database, what an executor returns or throws, and everything that it and
-- other workers do to the job tables meanwhile.
pub mod Compose
pub mod Schedule
pub mod Truth
pub mod Turns
pub mod Counts
pub mod Ends
mod Tests
use Prim.Native.String
use agent_recall.Common.{
  ℕ, zero, suc, ◌+◌, ◌==◌, String, Bool, true, false, Option, none, some, List, [], ◌∷◌,
  if◌then◌else◌, leb, get_or, is_some, not,
}
use agent_recall.Common.Order.{head}
use agent_recall.Common.Effect.{Outcome, returned, thrown, Effect, ◌>>=◌, ◌>>◌, pure, stateful}
use agent_recall.Jobs.Rows.{JobErrorCode, JobRow, JobDb}
use agent_recall.Jobs.Store.{JobError}
use agent_recall.Jobs.Service.{JobEffect, Claim, claim, list_claimable}
use agent_recall.Jobs.Endings.{complete, fail, mark_cancelled}
use agent_recall.Jobs.Ops.{Op, run_ops}

-- `DerivationJobOutcome`, or the message of what the executor threw
pub data ExecutorEnd : Type 0 where
  succeeded cancelled : ExecutorEnd
  failed : Option JobErrorCode → Option String → Option ℕ → ExecutorEnd
  threw : String → ExecutorEnd

-- what happens from one claim to the next
pub record Turn : Type 0 where
  pub aborted : Bool
  pub list_throws : Bool
  pub listed_at : ℕ
  pub before_claim : List Op
  pub claim_throws : Bool
  pub claimed_at : ℕ
  pub while_executing : List Op
  pub executor_end : ExecutorEnd
  pub ended_at : ℕ
  -- the message of an error that `complete`, `fail` or `markCancelled` throws
  pub store_message : String

-- one round of the outer loop
pub record Pass : Type 0 where
  pub aborted_before : Bool
  pub turns : ℕ → Turn
  pub aborted_after : Bool

pub record RunOnceOptions : Type 0 where
  pub kind : Option String
  pub lease_owner : String
  pub lease_ttl_ms : Option ℕ
  pub max_jobs : Option ℕ
  pub poll_ms : Option ℕ
  -- `some none` is infinity
  pub stop_after_empty_passes : Option (Option ℕ)
  -- the kinds with a registered executor
  pub has_executor : String → Bool

pub record Tally : Type 0 where
  pub attempted : ℕ
  pub succeeded : ℕ
  pub failed : ℕ
  pub cancelled : ℕ

pub data Verdict : Type 0 where
  stopped store_failed not_claimed : Verdict
  job_succeeded job_failed job_cancelled : Verdict

pub data ExitReason : Type 0 where
  signal stop_after_empty store_error : ExitReason

pub record RunOnceResult : Type 0 where
  pub tally : Tally
  pub passes : ℕ
  pub loop_exit_reason : Option ExitReason

abbrev pub no_jobs : Tally
no_jobs = record { attempted = 0; succeeded = 0; failed = 0; cancelled = 0 }

-- `pass_attempted += 1`, once the claim has succeeded
abbrev pub count_attempt : Verdict → Tally → Tally
count_attempt stopped t = t
count_attempt store_failed t = t
count_attempt not_claimed t = t
count_attempt _ t = record t { attempted = t.attempted + 1 }

-- the counter of how the attempt ended, which the code raises after the job store has recorded it
abbrev pub count_end : Verdict → Tally → Tally
count_end job_succeeded t = record t { succeeded = t.succeeded + 1 }
count_end job_failed t = record t { failed = t.failed + 1 }
count_end job_cancelled t = record t { cancelled = t.cancelled + 1 }
count_end _ t = t

-- An error that leaves the method between the two takes all counters with it.
abbrev pub add_verdict : Verdict → Tally → Tally
add_verdict v t = count_end v (count_attempt v t)

abbrev pub add_tally : Tally → Tally → Tally
add_tally s t = record {
  attempted = s.attempted + t.attempted;
  succeeded = s.succeeded + t.succeeded;
  failed = s.failed + t.failed;
  cancelled = s.cancelled + t.cancelled;
}

-- `try m catch (e) h`
abbrev pub recover_with :
    {A : Type 0} → JobEffect A → Outcome JobError A × JobDb → Outcome JobError A × JobDb
recover_with h (returned a, db) = (returned a, db)
recover_with h (thrown e, db) = h db

abbrev pub recover : {A : Type 0} → JobEffect A → JobEffect A → JobEffect A
recover m h db = recover_with h (m db)

abbrev pub thrown_text : String → Option String
thrown_text message = some (String.◌++◌ "executor threw: " message)

abbrev unknown_text : String → Option String
unknown_text kind = some (String.◌++◌ "no executor registered for kind '" (String.◌++◌ kind "'"))

abbrev pub as_verdict : {A : Type 0} → Verdict → JobEffect A → JobEffect Verdict
as_verdict v m = do _ ← m; pure v

module _ (redact : Option String → String) (opts : RunOnceOptions) where
  -- what others do to the tables
  abbrev pub meanwhile : List Op → JobEffect (Unit {0})
  meanwhile ops = stateful (λ db. (tt, run_ops redact ops db))

  abbrev pub fail_with : String → Option String → ℕ → JobEffect Verdict
  fail_with job_id message now =
      as_verdict job_failed (fail redact job_id JobErrorCode.internal_error message none now)

  -- the switch on the outcome
  unfoldable pub record_end : Turn → String → ExecutorEnd → JobEffect Verdict
  unfolding complete fail mark_cancelled
  record_end t job_id succeeded = as_verdict job_succeeded (complete job_id t.ended_at)
  record_end t job_id cancelled = as_verdict job_cancelled (mark_cancelled job_id t.ended_at)
  record_end t job_id (failed code message retry) =
      as_verdict job_failed
        (fail redact job_id (get_or code JobErrorCode.internal_error) message retry t.ended_at)
  record_end t job_id (threw message) = fail_with job_id (thrown_text message) t.ended_at

  -- the `catch` records a failure, also of a call in the switch; what the executor threw goes there at once
  unfoldable pub finish_job : Turn → String → ExecutorEnd → JobEffect Verdict
  unfolding record_end
  finish_job t job_id (threw message) = record_end t job_id (threw message)
  finish_job t job_id end =
      recover (record_end t job_id end) (fail_with job_id (thrown_text t.store_message) t.ended_at)

  unfoldable pub execute : Turn → JobRow → Bool → JobEffect Verdict
  unfolding finish_job
  execute t job false = fail_with job.job_id (unknown_text job.kind) t.ended_at
  execute t job true = meanwhile t.while_executing >> finish_job t job.job_id t.executor_end

  abbrev pub on_claim : Turn → JobRow → Option Claim → JobEffect Verdict
  on_claim t job none = pure not_claimed
  on_claim t job (some c) = execute t c.job (opts.has_executor job.kind)

  abbrev pub unless : Bool → Verdict → JobEffect Verdict → JobEffect Verdict
  unless true v m = pure v
  unless false v m = m

  abbrev pub on_candidate : Turn → Option JobRow → JobEffect Verdict
  on_candidate t none = pure stopped
  on_candidate t (some job) = do
    _ ← meanwhile t.before_claim
    unless t.claim_throws store_failed
        (claim job.job_id opts.lease_owner opts.lease_ttl_ms t.claimed_at >>= on_claim t job)

  -- the body of the loop over the jobs of a pass
  unfoldable pub take_turn : Turn → JobEffect Verdict
  unfolding execute
  take_turn t = unless t.aborted stopped (
      unless t.list_throws store_failed
        (list_claimable opts.kind t.listed_at 1 >>= λ jobs. on_candidate t (head jobs)))

  abbrev pub after_turn :
      (Tally → JobEffect (Tally × Bool)) → Tally → Verdict → JobEffect (Tally × Bool)
  after_turn rest t stopped = pure (t, false)
  after_turn rest t store_failed = pure (t, true)
  after_turn rest t v = rest (add_verdict v t)

  -- the tally of a pass, and whether the store threw; at most as many turns as the first argument says
  unfoldable pub run_turns : ℕ → (ℕ → Turn) → Tally → JobEffect (Tally × Bool)
  unfolding take_turn
  run_turns zero turns t = pure (t, false)
  run_turns (suc n) turns t =
      take_turn (turns 0) >>= after_turn (run_turns n (λ i. turns (suc i))) t

  abbrev pub cap : ℕ
  cap = get_or opts.max_jobs 16

  abbrev pub exits : Tally → ℕ → ExitReason → JobEffect (Option RunOnceResult)
  exits t passes reason =
      pure (some (record { tally = t; passes = passes; loop_exit_reason = some reason }))

  abbrev pub enough_empty : ℕ → Bool
  enough_empty empty = elim (get_or opts.stop_after_empty_passes (some 1)) [
    | none ↦ false
    | some n ↦ leb n empty
  ]

  abbrev pub poll_again :
      (ℕ → JobEffect (Option RunOnceResult))
      → Tally
      → ℕ
      → ℕ
      → Option ℕ
      → JobEffect (Option RunOnceResult)
  poll_again rest t passes empty (some ms) = rest empty
  poll_again rest t passes empty none =
      pure (some (record { tally = t; passes = passes; loop_exit_reason = none }))

  -- what follows a pass
  abbrev pub after_pass :
      (Tally → ℕ → JobEffect (Option RunOnceResult))
      → Pass
      → Tally
      → ℕ
      → ℕ
      → Tally × Bool
      → JobEffect (Option RunOnceResult)
  after_pass rest p total passes empty (t, true) = exits (add_tally total t) passes store_error
  after_pass rest p total passes empty (t, false) =
      let sum = add_tally total t in
      let empty' = if t.attempted == 0 then suc empty else 0 in
      if p.aborted_after
      then exits sum passes signal
      else if t.attempted == 0
      then (if enough_empty empty'
          then exits sum passes stop_after_empty
          else poll_again (rest sum) sum passes empty' opts.poll_ms)
      else poll_again (rest sum) sum passes empty' opts.poll_ms

  -- The outer loop, on fuel. `none` is a loop that has not ended yet.
  unfoldable pub run_passes : ℕ → (ℕ → Pass) → Tally → ℕ → ℕ → JobEffect (Option RunOnceResult)
  unfolding run_turns
  run_passes zero ps total passes empty = pure none
  run_passes (suc fuel) ps total passes empty =
      let rest = run_passes fuel (λ i. ps (suc i)) in
      if (ps 0).aborted_before
      then exits total (suc passes) signal
      else run_turns cap (ps 0).turns no_jobs
        >>= after_pass (λ t. rest t (suc passes)) (ps 0) total (suc passes) empty

  unfoldable pub run_once : ℕ → (ℕ → Pass) → JobEffect (Option RunOnceResult)
  unfolding run_passes
  run_once fuel ps = run_passes fuel ps no_jobs 0 0
