-- ===== src/Jobs/Runner/Turns.antt =====
-- What one turn of `runOnce` of src/jobs/runner.ts counts.
use agent_recall.Common.{
  ℕ, ◌+◌, String, Bool, true, false, Option, none, some, List, [], ◌∷◌, ◌≡◌, ◌⊎◌, refl, sym, ap,
  ◌∙◌, subst, eq_iff, inl, inr, Bool-cases, Option-cases,
}
use agent_recall.Common.Order.{head}
use agent_recall.Common.Table.{first_where_sound}
use agent_recall.Common.Effect.{Outcome, returned, thrown, bind_returned, ◌>>=◌}
use agent_recall.Jobs.Rows.{JobState, JobRow, JobDb, has_id}
use agent_recall.Jobs.Store.{JobError, get_job}
use agent_recall.Jobs.Service.{JobEffect, Claim, claim, list_claimable}
use agent_recall.Jobs.Claim.Exact.{may_take, claim_lem}
use agent_recall.Jobs.Ops.{run_ops, step, list_op, claim_op}
use agent_recall.Jobs.Invariant.{IsConsistent}
use agent_recall.Jobs.Invariant.Preserved.{run_ops-IsConsistent}
use agent_recall.Jobs.Runner.{
  Turn, RunOnceOptions, Tally, Verdict, stopped, store_failed, not_claimed, job_succeeded,
  job_failed, job_cancelled, add_verdict, execute, on_claim, unless, on_candidate, take_turn,
}
use agent_recall.Jobs.Runner.Truth.{Told, StandsIn, same_verdict, execute-Told}

same_claim :
    {a b : Claim}
    → ◌≡◌ {A = Outcome JobError (Option Claim)} (returned (some a)) (returned (some b))
    → a ≡ b
same_claim h = cc

same_job :
    {a b : Claim}
    → ◌≡◌ {A = Outcome JobError (Option Claim)} (returned (some a)) (returned (some b))
    → b.job.job_id ≡ a.job.job_id
same_job h = ap (λ (c : Claim). c.job.job_id) (same_claim (sym h))

claimed_id :
    (id owner : String) (ttl : Option ℕ) (now : ℕ) (db : JobDb) (c : Claim)
    → IsConsistent db
    → (claim id owner ttl now db).0 ≡ returned (some c)
    → c.job.job_id ≡ id
claimed_id id owner ttl now db c ok h =
    let (reply, stored) = claim_lem id owner ttl now db ok in
    elim (Option-cases (get_job id db)) [
      | inl e ↦ absurd (cc (rw e at (sym reply ∙ h)))
      | inr (row, e) ↦ elim (Bool-cases (may_take now row)) [
        | inr k ↦ absurd (cc (rw (e, k) at (sym reply ∙ h)))
        | inl k ↦
            same_job (rw (e, k) at (sym reply ∙ h))
            ∙ (eq_iff row.job_id id).0 (first_where_sound (has_id id) db.jobs row e)
      ]
    ]

-- one attempt of the job with this id: one counter is raised, and it is the one of the state in which the
-- job store then has the job
abbrev pub IsCounted : String → Tally → Tally → JobDb → Type 0
IsCounted id old new db =
    (new.attempted ≡ old.attempted + 1)
    × ((StandsIn JobState.succeeded id db
          × (new.succeeded ≡ old.succeeded + 1)
          × (new.failed ≡ old.failed)
          × (new.cancelled ≡ old.cancelled))
        ⊎ ((StandsIn JobState.failed id db
              × (new.succeeded ≡ old.succeeded)
              × (new.failed ≡ old.failed + 1)
              × (new.cancelled ≡ old.cancelled))
            ⊎ (StandsIn JobState.cancelled id db
                × (new.succeeded ≡ old.succeeded)
                × (new.failed ≡ old.failed)
                × (new.cancelled ≡ old.cancelled + 1))))

Told-IsCounted :
    (v : Verdict) (id : String) (tally : Tally) (db : JobDb)
    → Told v id db
    → IsCounted id tally (add_verdict v tally) db
Told-IsCounted stopped id tally db h = absurd h
Told-IsCounted store_failed id tally db h = absurd h
Told-IsCounted not_claimed id tally db h = absurd h
Told-IsCounted job_succeeded id tally db h = (refl, inl (h, refl, refl, refl))
Told-IsCounted job_failed id tally db h = (refl, inr (inl (h, refl, refl, refl)))
Told-IsCounted job_cancelled id tally db h = (refl, inr (inr (h, refl, refl, refl)))

module _ (redact : Option String → String) (opts : RunOnceOptions) (t : Turn) where
  -- why a turn attempts no job: an abort, an error of the database, an empty list, or a claim of the job
  -- listed first that is refused, on the tables as others have left them since
  abbrev pub TakesNone : List JobRow → JobDb → Type 0
  TakesNone jobs listed =
      (t.aborted ≡ true)
      ⊎ ((t.list_throws ≡ true)
          ⊎ ((head jobs ≡ none)
              ⊎ ((t.claim_throws ≡ true)
                  ⊎ ((job : JobRow) × (head jobs ≡ some job)
                      × ((claim job.job_id opts.lease_owner opts.lease_ttl_ms t.claimed_at
                            (run_ops redact t.before_claim listed)).0
                          ≡ returned none)))))

  -- a turn counts nothing where it takes no job, and else an attempt of the job that it listed first
  abbrev pub TurnCounts : Tally → Tally → List JobRow → JobDb → JobDb → Type 0
  TurnCounts old new jobs listed db =
      (TakesNone jobs listed × (new ≡ old))
      ⊎ ((job : JobRow) × (head jobs ≡ some job) × IsCounted job.job_id old new db)

  on_claim_counts :
      (job : JobRow) (o : Option Claim) (reply : Outcome JobError (Option Claim)) (db : JobDb)
      (v : Verdict) (tally : Tally)
      → reply ≡ returned o
      → IsConsistent db
      → ((c : Claim) → o ≡ some c → c.job.job_id ≡ job.job_id)
      → (on_claim redact opts t job o db).0 ≡ returned v
      → ((reply ≡ returned none) × (add_verdict v tally ≡ tally))
        ⊎ IsCounted job.job_id tally (add_verdict v tally) (on_claim redact opts t job o db).1
  on_claim_counts job none reply db v tally e c same h =
      inl (e, ap (λ x. add_verdict x tally) (sym (same_verdict h)))
  on_claim_counts job (some claimed) reply db v tally e c same h =
      let after = (execute redact opts t claimed.job (opts.has_executor job.kind) db).1 in
      inr (
        subst (λ (i : String). IsCounted i tally (add_verdict v tally) after) (same claimed refl)
          (Told-IsCounted v claimed.job.job_id tally after
            (execute-Told redact opts t claimed.job (opts.has_executor job.kind) db v c h)))

  abbrev pub jobs_of : Outcome JobError (List JobRow) → List JobRow
  jobs_of (returned jobs) = jobs
  jobs_of (thrown e) = []

  unless_cases :
      (P : JobDb → Type 0) (b : Bool) (v w : Verdict) (m : JobEffect Verdict) (db : JobDb)
      → (b ≡ true → v ≡ w → P db)
      → ((m db).0 ≡ returned w → P (m db).1)
      → (unless redact opts b v m db).0 ≡ returned w
      → P (unless redact opts b v m db).1
  unless_cases P true v w m db one two h = one refl (same_verdict h)
  unless_cases P false v w m db one two h = two h

  claiming_counts :
      (job : JobRow) (db : JobDb) (v : Verdict) (tally : Tally)
      → IsConsistent db
      → let m =
          claim job.job_id opts.lease_owner opts.lease_ttl_ms t.claimed_at
          >>= on_claim redact opts t job in
        (m db).0 ≡ returned v
        → (((claim job.job_id opts.lease_owner opts.lease_ttl_ms t.claimed_at db).0 ≡ returned none)
            × (add_verdict v tally ≡ tally))
          ⊎ IsCounted job.job_id tally (add_verdict v tally) (m db).1
  unfolding step
  claiming_counts job db v tally c h =
      let claiming = claim job.job_id opts.lease_owner opts.lease_ttl_ms t.claimed_at db in
      let (o, claimed, rest) = bind_returned claiming (on_claim redact opts t job) v h in
      let later : IsConsistent claiming.1 =
        unfold run_ops in
        run_ops-IsConsistent redact
          (claim_op job.job_id opts.lease_owner opts.lease_ttl_ms t.claimed_at ∷ []) db c in
      rw rest (
        on_claim_counts job o claiming.0 claiming.1 v tally claimed later
          (λ k same.
            claimed_id job.job_id opts.lease_owner opts.lease_ttl_ms t.claimed_at db k c
              (claimed ∙ ap returned same))
          (sym (ap (λ p. p.0) rest) ∙ h))

  first_counts :
      {old new : Tally} {db : JobDb} (job : JobRow) (jobs : List JobRow) (listed : JobDb)
      → (((claim job.job_id opts.lease_owner opts.lease_ttl_ms t.claimed_at
              (run_ops redact t.before_claim listed)).0
            ≡ returned none)
          × (new ≡ old))
        ⊎ IsCounted job.job_id old new db
      → TurnCounts old new (job ∷ jobs) listed db
  first_counts job jobs listed (inl (refused, same)) =
      inl (inr (inr (inr (inr (job, refl, refused)))), same)
  first_counts job jobs listed (inr one) = inr (job, refl, one)

  uncounted :
      (v w : Verdict) (tally : Tally) (jobs : List JobRow) (listed db : JobDb)
      → add_verdict v tally ≡ tally
      → TakesNone jobs listed
      → v ≡ w
      → TurnCounts tally (add_verdict w tally) jobs listed db
  uncounted v w tally jobs listed db unchanged none_taken e =
      inl (none_taken, ap (λ x. add_verdict x tally) (sym e) ∙ unchanged)

  on_candidate_counts :
      (jobs : List JobRow) (db : JobDb) (v : Verdict) (tally : Tally)
      → IsConsistent db
      → (on_candidate redact opts t (head jobs) db).0 ≡ returned v
      → TurnCounts tally (add_verdict v tally) jobs db (on_candidate redact opts t (head jobs) db).1
  on_candidate_counts [] db v tally c h =
      uncounted stopped v tally [] db db refl (inr (inr (inl refl))) (same_verdict h)
  on_candidate_counts (job ∷ jobs) db v tally c h =
      let before = run_ops redact t.before_claim db in
      let fine = run_ops-IsConsistent redact t.before_claim db c in
      unless_cases (TurnCounts tally (add_verdict v tally) (job ∷ jobs) db) t.claim_throws
        store_failed v
        (claim job.job_id opts.lease_owner opts.lease_ttl_ms t.claimed_at
          >>= on_claim redact opts t job)
        before
        (λ threw.
          uncounted store_failed v tally (job ∷ jobs) db before refl (inr (inr (inr (inl threw)))))
        (λ k. first_counts job jobs db (claiming_counts job before v tally fine k)) h

  listing_counts :
      (db : JobDb) (v : Verdict) (tally : Tally)
      → IsConsistent db
      → let lists =
          list_claimable opts.kind t.listed_at 1 >>= λ js. on_candidate redact opts t (head js) in
        (lists db).0 ≡ returned v
        → TurnCounts tally
            (add_verdict v tally)
            (jobs_of (list_claimable opts.kind t.listed_at 1 db).0)
            (list_claimable opts.kind t.listed_at 1 db).1
            (lists db).1
  unfolding step
  listing_counts db v tally c h =
      let listing = list_claimable opts.kind t.listed_at 1 db in
      let (jobs, listed, rest) =
        bind_returned listing (λ js. on_candidate redact opts t (head js)) v h in
      let fine : IsConsistent listing.1 =
        unfold run_ops in run_ops-IsConsistent redact (list_op opts.kind t.listed_at 1 ∷ []) db c in
      rw (rest, listed)
        (on_candidate_counts jobs listing.1 v tally fine (sym (ap (λ p. p.0) rest) ∙ h))

  -- A turn of the worker on consistent tables that throws nothing does one of two things. It counts
  -- nothing, and then an abort, an error of the database, an empty list or a refused claim of the job
  -- listed first is the reason. Or it counts exactly one attempt, of the job listed first: as a success
  -- where the store then has this job as succeeded, as a failure where it has it as failed, as a
  -- cancellation where it has it as cancelled, in each case without a lease. The other counters are as
  -- before.
  pub take_turn_counts :
      (db : JobDb) (v : Verdict) (tally : Tally)
      → IsConsistent db
      → (take_turn redact opts t db).0 ≡ returned v
      → TurnCounts tally
          (add_verdict v tally)
          (jobs_of (list_claimable opts.kind t.listed_at 1 db).0)
          (list_claimable opts.kind t.listed_at 1 db).1
          (take_turn redact opts t db).1
  unfolding take_turn step
  take_turn_counts db v tally c h =
      let listing = list_claimable opts.kind t.listed_at 1 db in
      let counts = TurnCounts tally (add_verdict v tally) (jobs_of listing.0) listing.1 in
      let lists =
        list_claimable opts.kind t.listed_at 1 >>= λ js. on_candidate redact opts t (head js) in
      unless_cases counts t.aborted stopped v (unless redact opts t.list_throws store_failed lists)
        db
        (λ aborted. uncounted stopped v tally (jobs_of listing.0) listing.1 db refl (inl aborted))
        (unless_cases counts t.list_throws store_failed v lists db
          (λ threw.
            uncounted store_failed v tally (jobs_of listing.0) listing.1 db refl (inr (inl threw)))
          (listing_counts db v tally c))
        h
