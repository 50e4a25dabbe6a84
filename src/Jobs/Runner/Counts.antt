-- ===== src/Jobs/Runner/Counts.antt =====
-- The counters of `runOnce`.
use agent_recall.Common.{
  ℕ, zero, suc, ◌+◌, ◌*◌, ◌≤◌, ◌==◌, String, Bool, true, false, Option, none, some, ◌≡◌, subst,
  arith, if_lem, if◌then◌else◌,
}
use agent_recall.Common.Effect.{Outcome, returned, thrown, continue_with}
use agent_recall.Jobs.Rows.{JobDb}
use agent_recall.Jobs.Store.{JobError}
use agent_recall.Jobs.Service.{JobEffect}
use agent_recall.Jobs.Runner.{
  Turn, Pass, RunOnceOptions, Tally, Verdict, stopped, store_failed, not_claimed, job_succeeded,
  job_failed, job_cancelled, RunOnceResult, no_jobs, add_verdict, add_tally, take_turn, after_turn,
  run_turns, cap, enough_empty, poll_again, after_pass, run_passes, run_once,
}

-- what holds of the value, where one is returned
abbrev pub Post {ℓ} : {A : Type 0} → (A → Type ℓ) → Outcome JobError A × JobDb → Type ℓ
Post P (returned a, db) = P a
Post P (thrown e, db) = Unit

module _ {ℓ κ} {A B : Type 0} (Q : A → Type κ) (P : B → Type ℓ) where
  pub Post-bind :
      (p : Outcome JobError A × JobDb) (f : A → JobEffect B)
      → Post Q p
      → ((a : A) (db : JobDb) → Q a → Post P (f a db))
      → Post P (continue_with p.0 p.1 f)
  Post-bind (returned a, db) f h k = k a db h
  Post-bind (thrown e, db) f h k = tt

module _ {ℓ} {A : Type 0} (P : A → Type ℓ) where
  pub Post-returned : (p : Outcome JobError A × JobDb) → Post P p → (a : A) → p.0 ≡ returned a → P a
  Post-returned (returned b, db) h a e = subst P (cc e) h
  Post-returned (thrown x, db) h a e = absurd (cc e)

pub any-Post : {A : Type 0} (p : Outcome JobError A × JobDb) → Post (λ _. Unit {0}) p
any-Post (returned a, db) = tt
any-Post (thrown e, db) = tt

-- every attempt is counted once more, by how it ended; and there are at most `n`
pub record IsTallied (n : ℕ) (t : Tally) : Type 0 where
  pub balanced : t.attempted ≡ t.succeeded + t.failed + t.cancelled
  pub bounded : t.attempted ≤ n

module _ (redact : Option String → String) (opts : RunOnceOptions) where
  counted : (n : ℕ) (v : Verdict) (t : Tally) → IsTallied n t → IsTallied (suc n) (add_verdict v t)
  counted n stopped t h = record { balanced = h.balanced; bounded = omega (arith, h.bounded) }
  counted n store_failed t h = record { balanced = h.balanced; bounded = omega (arith, h.bounded) }
  counted n not_claimed t h = record { balanced = h.balanced; bounded = omega (arith, h.bounded) }
  counted n job_succeeded t h = record {
    balanced = omega (arith, h.balanced);
    bounded = omega (arith, h.bounded);
  }
  counted n job_failed t h = record {
    balanced = omega (arith, h.balanced);
    bounded = omega (arith, h.bounded);
  }
  counted n job_cancelled t h = record {
    balanced = omega (arith, h.balanced);
    bounded = omega (arith, h.bounded);
  }

  wider : (m n : ℕ) (t : Tally) → m ≤ n → IsTallied m t → IsTallied n t
  wider m n t le h = record { balanced = h.balanced; bounded = omega (arith, h.bounded, le) }

  after_turn-IsTallied :
      (m k : ℕ) (rest : Tally → JobEffect (Tally × Bool)) (t : Tally) (v : Verdict) (db : JobDb)
      → m ≤ k
      → ((s : Tally) (db : JobDb) → IsTallied (suc m) s → Post (λ r. IsTallied k r.0) (rest s db))
      → IsTallied m t
      → Post (λ r. IsTallied k r.0) (after_turn redact opts rest t v db)
  after_turn-IsTallied m k rest t stopped db le h tallied = wider m k t le tallied
  after_turn-IsTallied m k rest t store_failed db le h tallied = wider m k t le tallied
  after_turn-IsTallied m k rest t not_claimed db le h tallied =
      h _ db (counted m not_claimed t tallied)
  after_turn-IsTallied m k rest t job_succeeded db le h tallied =
      h _ db (counted m job_succeeded t tallied)
  after_turn-IsTallied m k rest t job_failed db le h tallied =
      h _ db (counted m job_failed t tallied)
  after_turn-IsTallied m k rest t job_cancelled db le h tallied =
      h _ db (counted m job_cancelled t tallied)

  run_turns-IsTallied :
      (n m k : ℕ) (turns : ℕ → Turn) (t : Tally) (db : JobDb)
      → m + n ≤ k
      → IsTallied m t
      → Post (λ r. IsTallied k r.0) (run_turns redact opts n turns t db)
  unfolding run_turns
  run_turns-IsTallied zero m k turns t db le h = wider m k t (omega (arith, le)) h
  run_turns-IsTallied (suc n) m k turns t db le h =
      let rest : Tally → JobEffect (Tally × Bool) = run_turns redact opts n (λ i. turns (suc i)) in
      Post-bind (λ _. Unit {0}) (λ r. IsTallied k r.0) (take_turn redact opts (turns 0) db)
        (after_turn redact opts rest t) (any-Post (take_turn redact opts (turns 0) db))
        (λ v after _.
          after_turn-IsTallied m k rest t v after (omega (arith, le))
            (λ s db' tallied.
              run_turns-IsTallied n (suc m) k (λ i. turns (suc i)) s db' (omega (arith, le))
                tallied)
            h)

  abbrev RunTallied : Option RunOnceResult → Type 0
  RunTallied none = Unit
  RunTallied (some r) = IsTallied (r.passes * cap redact opts) r.tally

  add_tally-IsTallied :
      (passes : ℕ) (total t : Tally)
      → IsTallied (passes * cap redact opts) total
      → IsTallied (cap redact opts) t
      → IsTallied (suc passes * cap redact opts) (add_tally total t)
  add_tally-IsTallied passes total t h k = record {
    balanced = omega (arith, h.balanced, k.balanced);
    bounded = omega (arith, h.bounded, k.bounded);
  }

  poll_again-RunTallied :
      (rest : ℕ → JobEffect (Option RunOnceResult)) (t : Tally) (passes empty : ℕ) (ms : Option ℕ)
      (db : JobDb)
      → IsTallied (passes * cap redact opts) t
      → ((e : ℕ) → Post RunTallied (rest e db))
      → Post RunTallied (poll_again redact opts rest t passes empty ms db)
  poll_again-RunTallied rest t passes empty none db h k = h
  poll_again-RunTallied rest t passes empty (some ms) db h k = k empty

  after_pass-RunTallied :
      (rest : Tally → ℕ → JobEffect (Option RunOnceResult)) (p : Pass) (total : Tally)
      (passes empty : ℕ) (r : Tally × Bool) (db : JobDb)
      → IsTallied (passes * cap redact opts) (add_tally total r.0)
      → ((e : ℕ) → Post RunTallied (rest (add_tally total r.0) e db))
      → Post RunTallied (after_pass redact opts rest p total passes empty r db)
  after_pass-RunTallied rest p total passes empty (t, true) db h k = h
  after_pass-RunTallied rest p total passes empty (t, false) db h k =
      let P : JobEffect (Option RunOnceResult) → Type 0 = λ m. Post RunTallied (m db) in
      let polled : (e : ℕ)
          → Post RunTallied (
              poll_again redact opts (rest (add_tally total t)) (add_tally total t) passes e
                opts.poll_ms db) =
        λ e.
          poll_again-RunTallied (rest (add_tally total t)) (add_tally total t) passes e opts.poll_ms
            db h k in
      if_lem P p.aborted_after _ _ h (
        if_lem P (t.attempted == 0) _ _
          (if_lem P (enough_empty redact opts (if t.attempted == 0 then suc empty else 0)) _ _ h
            (polled (if t.attempted == 0 then suc empty else 0)))
          (polled (if t.attempted == 0 then suc empty else 0)))

  run_passes-RunTallied :
      (fuel : ℕ) (ps : ℕ → Pass) (total : Tally) (passes empty : ℕ) (db : JobDb)
      → IsTallied (passes * cap redact opts) total
      → Post RunTallied (run_passes redact opts fuel ps total passes empty db)
  unfolding run_passes
  run_passes-RunTallied zero ps total passes empty db h = tt
  run_passes-RunTallied (suc fuel) ps total passes empty db h =
      let rest : Tally → ℕ → JobEffect (Option RunOnceResult) =
        λ t. run_passes redact opts fuel (λ i. ps (suc i)) t (suc passes) in
      let turns : JobEffect (Tally × Bool) =
        run_turns redact opts (cap redact opts) (ps 0).turns no_jobs in
      if_lem (λ (m : JobEffect (Option RunOnceResult)). Post RunTallied (m db))
        (ps 0).aborted_before _ _ (wider _ _ total (omega arith) h)
        (Post-bind (λ r. IsTallied (cap redact opts) r.0) RunTallied (turns db)
          (after_pass redact opts rest (ps 0) total (suc passes) empty)
          (run_turns-IsTallied (cap redact opts) 0 (cap redact opts) (ps 0).turns no_jobs db
            (omega arith) (record { balanced = omega arith; bounded = omega arith }))
          (λ r after tallied.
            after_pass-RunTallied rest (ps 0) total (suc passes) empty r after
              (add_tally-IsTallied passes total r.0 h tallied)
              (λ e.
                run_passes-RunTallied fuel (λ i. ps (suc i)) (add_tally total r.0) (suc passes) e
                  after (add_tally-IsTallied passes total r.0 h tallied))))

  -- What a run returns counts every attempt exactly once more, as a success, a failure or a
  -- cancellation; and a run attempts at most `max_jobs` jobs in each of its passes.
  pub run_once-IsTallied :
      (fuel : ℕ) (ps : ℕ → Pass) (db : JobDb) (r : RunOnceResult)
      → (run_once redact opts fuel ps db).0 ≡ returned (some r)
      → IsTallied (r.passes * cap redact opts) r.tally
  unfolding run_once
  run_once-IsTallied fuel ps db r h =
      Post-returned RunTallied (run_passes redact opts fuel ps no_jobs 0 0 db)
        (run_passes-RunTallied fuel ps no_jobs 0 0 db
          (record { balanced = omega arith; bounded = omega arith }))
        (some r) h
