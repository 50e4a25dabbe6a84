-- ===== src/Jobs/Runner/Schedule.antt =====
-- What `runOnce` does to the job tables, as a schedule of operations.
use agent_recall.Jobs.Runner.Compose.{
  IsScheduled, Scheduled-refl, bind-IsScheduled, recover_with-Scheduled, as_verdict-IsScheduled,
}
use agent_recall.Common.{
  ℕ, zero, suc, ◌==◌, String, Bool, true, false, Option, none, some, List, [], ◌∷◌, ◌≡◌, refl,
  if_lem, if◌then◌else◌,
}
use agent_recall.Common.Order.{head}
use agent_recall.Common.Effect.{◌>>=◌}
use agent_recall.Jobs.Rows.{JobErrorCode, JobRow, JobDb}
use agent_recall.Jobs.Service.{JobEffect, Claim, claim, list_claimable}
use agent_recall.Jobs.Endings.{complete, fail, mark_cancelled}
use agent_recall.Jobs.Ops.{Op, run_ops, step, claim_op, list_op, complete_op, fail_op, mark_op}
use agent_recall.Jobs.Runner.{
  thrown_text, ExecutorEnd, succeeded, failed, cancelled, threw, Turn, Pass, RunOnceOptions, Tally,
  Verdict, stopped, store_failed, not_claimed, job_succeeded, job_failed, job_cancelled,
  RunOnceResult, no_jobs, add_tally, recover, meanwhile, fail_with, record_end, finish_job, execute,
  on_claim, unless, on_candidate, take_turn, after_turn, run_turns, cap, enough_empty, poll_again,
  after_pass, run_passes, run_once,
}

module _ (redact : Option String → String) (opts : RunOnceOptions) where
  one_op :
      {A : Type 0} (m : JobEffect A) (op : Op)
      → ((db : JobDb) → (m db).1 ≡ step redact op db)
      → IsScheduled redact m
  unfolding run_ops
  one_op m op h db = (op ∷ [], h db)

  fail-IsScheduled :
      (id : String) (code : JobErrorCode) (message : Option String) (retry : Option ℕ) (now : ℕ)
      → IsScheduled redact (fail redact id code message retry now)
  unfolding step
  fail-IsScheduled id code message retry now =
      one_op (fail redact id code message retry now) (fail_op id code message retry now)
        (λ db. refl)

  pub record_end-IsScheduled :
      (t : Turn) (id : String) (end : ExecutorEnd)
      → IsScheduled redact (record_end redact opts t id end)
  unfolding record_end step
  record_end-IsScheduled t id succeeded =
      as_verdict-IsScheduled redact _ _
        (one_op (complete id t.ended_at) (complete_op id t.ended_at) (λ db. refl))
  record_end-IsScheduled t id cancelled =
      as_verdict-IsScheduled redact _ _
        (one_op (mark_cancelled id t.ended_at) (mark_op id t.ended_at) (λ db. refl))
  record_end-IsScheduled t id (failed code message retry) =
      as_verdict-IsScheduled redact _ _ (fail-IsScheduled id _ message retry t.ended_at)
  record_end-IsScheduled t id (threw message) =
      as_verdict-IsScheduled redact _ _
        (fail-IsScheduled id _ (thrown_text message) none t.ended_at)

  recovered-IsScheduled :
      (t : Turn) (id : String) (end : ExecutorEnd)
      → IsScheduled redact (
          recover
            (record_end redact opts t id end)
            (fail_with redact opts id (thrown_text t.store_message) t.ended_at))
  recovered-IsScheduled t id end db =
      recover_with-Scheduled redact
        (fail_with redact opts id (thrown_text t.store_message) t.ended_at)
        (record_end redact opts t id end db) db
        (as_verdict-IsScheduled redact _ _
          (fail-IsScheduled id _ (thrown_text t.store_message) none t.ended_at))
        (record_end-IsScheduled t id end db)

  finish_job-IsScheduled :
      (t : Turn) (id : String) (end : ExecutorEnd)
      → IsScheduled redact (finish_job redact opts t id end)
  unfolding finish_job
  finish_job-IsScheduled t id (threw message) = record_end-IsScheduled t id (threw message)
  finish_job-IsScheduled t id succeeded = recovered-IsScheduled t id succeeded
  finish_job-IsScheduled t id cancelled = recovered-IsScheduled t id cancelled
  finish_job-IsScheduled t id (failed code message retry) =
      recovered-IsScheduled t id (failed code message retry)

  execute-IsScheduled :
      (t : Turn) (job : JobRow) (b : Bool) → IsScheduled redact (execute redact opts t job b)
  unfolding execute
  execute-IsScheduled t job false =
      as_verdict-IsScheduled redact _ _ (fail-IsScheduled job.job_id _ _ none t.ended_at)
  execute-IsScheduled t job true =
      bind-IsScheduled redact (meanwhile redact opts t.while_executing)
        (λ _. finish_job redact opts t job.job_id t.executor_end) (λ db. (t.while_executing, refl))
        (λ _. finish_job-IsScheduled t job.job_id t.executor_end)

  on_claim-IsScheduled :
      (t : Turn) (job : JobRow) (c : Option Claim)
      → IsScheduled redact (on_claim redact opts t job c)
  on_claim-IsScheduled t job none = Scheduled-refl redact
  on_claim-IsScheduled t job (some c) = execute-IsScheduled t c.job (opts.has_executor job.kind)

  unless-IsScheduled :
      (b : Bool) (v : Verdict) (m : JobEffect Verdict)
      → IsScheduled redact m
      → IsScheduled redact (unless redact opts b v m)
  unless-IsScheduled true v m h = Scheduled-refl redact
  unless-IsScheduled false v m h = h

  on_candidate-IsScheduled :
      (t : Turn) (job : Option JobRow) → IsScheduled redact (on_candidate redact opts t job)
  unfolding step
  on_candidate-IsScheduled t none = Scheduled-refl redact
  on_candidate-IsScheduled t (some job) =
      let claiming = claim job.job_id opts.lease_owner opts.lease_ttl_ms t.claimed_at in
      let claimed =
        bind-IsScheduled redact claiming (on_claim redact opts t job)
          (one_op claiming (claim_op job.job_id opts.lease_owner opts.lease_ttl_ms t.claimed_at)
            (λ db. refl))
          (on_claim-IsScheduled t job) in
      bind-IsScheduled redact (meanwhile redact opts t.before_claim)
        (λ _.
          unless redact opts t.claim_throws store_failed (claiming >>= on_claim redact opts t job))
        (λ db. (t.before_claim, refl))
        (λ _. unless-IsScheduled t.claim_throws store_failed _ claimed)

  take_turn-IsScheduled : (t : Turn) → IsScheduled redact (take_turn redact opts t)
  unfolding take_turn step
  take_turn-IsScheduled t =
      let listing = list_claimable opts.kind t.listed_at 1 in
      unless-IsScheduled t.aborted stopped _ (
        unless-IsScheduled t.list_throws store_failed _ (
          bind-IsScheduled redact listing (λ jobs. on_candidate redact opts t (head jobs))
            (one_op listing (list_op opts.kind t.listed_at 1) (λ db. refl))
            (λ jobs. on_candidate-IsScheduled t (head jobs))))

  after_turn-IsScheduled :
      (rest : Tally → JobEffect (Tally × Bool)) (t : Tally)
      → ((s : Tally) → IsScheduled redact (rest s))
      → (v : Verdict) → IsScheduled redact (after_turn redact opts rest t v)
  after_turn-IsScheduled rest t h stopped = Scheduled-refl redact
  after_turn-IsScheduled rest t h store_failed = Scheduled-refl redact
  after_turn-IsScheduled rest t h not_claimed = h t
  after_turn-IsScheduled rest t h job_succeeded = h _
  after_turn-IsScheduled rest t h job_failed = h _
  after_turn-IsScheduled rest t h job_cancelled = h _

  run_turns-IsScheduled :
      (n : ℕ) (turns : ℕ → Turn) (t : Tally) → IsScheduled redact (run_turns redact opts n turns t)
  unfolding run_turns
  run_turns-IsScheduled zero turns t = Scheduled-refl redact
  run_turns-IsScheduled (suc n) turns t =
      bind-IsScheduled redact (take_turn redact opts (turns 0)) _ (take_turn-IsScheduled (turns 0))
        (after_turn-IsScheduled (run_turns redact opts n (λ i. turns (suc i))) t
          (run_turns-IsScheduled n (λ i. turns (suc i))))

  poll_again-IsScheduled :
      (rest : ℕ → JobEffect (Option RunOnceResult)) (t : Tally) (passes empty : ℕ) (ms : Option ℕ)
      → ((e : ℕ) → IsScheduled redact (rest e))
      → IsScheduled redact (poll_again redact opts rest t passes empty ms)
  poll_again-IsScheduled rest t passes empty none h = Scheduled-refl redact
  poll_again-IsScheduled rest t passes empty (some ms) h = h empty

  after_pass-IsScheduled :
      (rest : Tally → ℕ → JobEffect (Option RunOnceResult)) (p : Pass) (total : Tally)
      (passes empty : ℕ)
      → ((s : Tally) (e : ℕ) → IsScheduled redact (rest s e))
      → (r : Tally × Bool) → IsScheduled redact (after_pass redact opts rest p total passes empty r)
  after_pass-IsScheduled rest p total passes empty h (t, true) = Scheduled-refl redact
  after_pass-IsScheduled rest p total passes empty h (t, false) =
      let polled : (e : ℕ)
          → IsScheduled redact (
              poll_again redact opts (rest (add_tally total t)) (add_tally total t) passes e
                opts.poll_ms) =
        λ e.
          poll_again-IsScheduled (rest (add_tally total t)) (add_tally total t) passes e
            opts.poll_ms (h (add_tally total t)) in
      if_lem (IsScheduled redact) p.aborted_after _ _ (Scheduled-refl redact) (
        if_lem (IsScheduled redact) (t.attempted == 0) _ _
          (if_lem (IsScheduled redact)
            (enough_empty redact opts (if t.attempted == 0 then suc empty else 0)) _ _
            (Scheduled-refl redact) (polled _))
          (polled _))

  run_passes-IsScheduled :
      (fuel : ℕ) (ps : ℕ → Pass) (total : Tally) (passes empty : ℕ)
      → IsScheduled redact (run_passes redact opts fuel ps total passes empty)
  unfolding run_passes
  run_passes-IsScheduled zero ps total passes empty = Scheduled-refl redact
  run_passes-IsScheduled (suc fuel) ps total passes empty =
      if_lem (IsScheduled redact) (ps 0).aborted_before _ _ (Scheduled-refl redact) (
        bind-IsScheduled redact (run_turns redact opts (cap redact opts) (ps 0).turns no_jobs) _
          (run_turns-IsScheduled (cap redact opts) (ps 0).turns no_jobs)
          (after_pass-IsScheduled
            (λ t. run_passes redact opts fuel (λ i. ps (suc i)) t (suc passes)) (ps 0) total
            (suc passes) empty
            (λ t e. run_passes-IsScheduled fuel (λ i. ps (suc i)) t (suc passes) e)))

  -- Whatever a run of the worker does to the job tables is a schedule of the operations of the job store
  -- and of what others did meanwhile: so all that holds of every schedule holds of every run.
  pub run_once-Scheduled :
      (fuel : ℕ) (ps : ℕ → Pass) (db : JobDb)
      → (ops : List Op) × ((run_once redact opts fuel ps db).1 ≡ run_ops redact ops db)
  unfolding run_once
  run_once-Scheduled fuel ps db = run_passes-IsScheduled fuel ps no_jobs 0 0 db
