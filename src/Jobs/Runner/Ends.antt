-- ===== src/Jobs/Runner/Ends.antt =====
-- The passes after which `runOnce` has ended.
use agent_recall.Common.{
  ℕ, zero, suc, ◌<◌, ◌==◌, String, Bool, true, false, Option, none, some, is_some, ◌≡◌, ◌≢◌, refl,
  arith, if_lem, if◌then◌else◌, Bool-cases, inl, inr,
}
use agent_recall.Common.Effect.{returned}
use agent_recall.Jobs.Rows.{JobDb}
use agent_recall.Jobs.Service.{JobEffect}
use agent_recall.Jobs.Runner.{
  Pass, RunOnceOptions, Tally, RunOnceResult, no_jobs, add_tally, run_turns, cap, enough_empty,
  poll_again, after_pass, run_passes, run_once,
}
use agent_recall.Jobs.Runner.Counts.{Post, Post-bind, Post-returned, any-Post}

abbrev pub Ended : Option RunOnceResult → Type 0
Ended o = is_some o ≡ true

abbrev pub EndedAfter : ℕ → Option RunOnceResult → Type 0
EndedAfter n none = ⊥
EndedAfter n (some r) = r.passes ≡ n

module _ (redact : Option String → String) (opts : RunOnceOptions) where
  -- a fact on the result that holds where the loop ends here and where it goes on
  module _ (P : Option RunOnceResult → Type 0) where
    Post-poll_again :
        (rest : ℕ → JobEffect (Option RunOnceResult)) (t : Tally) (passes empty : ℕ) (ms : Option ℕ)
        (db : JobDb)
        → ((r : RunOnceResult) → r.passes ≡ passes → P (some r))
        → ((e : ℕ) → is_some ms ≡ true → Post P (rest e db))
        → Post P (poll_again redact opts rest t passes empty ms db)
    Post-poll_again rest t passes empty none db h k = h _ refl
    Post-poll_again rest t passes empty (some ms) db h k = k empty refl

    Post-after_pass :
        (rest : Tally → ℕ → JobEffect (Option RunOnceResult)) (p : Pass) (total : Tally)
        (passes empty : ℕ) (r : Tally × Bool) (db : JobDb)
        → ((s : RunOnceResult) → s.passes ≡ passes → P (some s))
        → ((s : Tally) (e : ℕ) → is_some opts.poll_ms ≡ true → Post P (rest s e db))
        → Post P (after_pass redact opts rest p total passes empty r db)
    Post-after_pass rest p total passes empty (t, true) db h k = h _ refl
    Post-after_pass rest p total passes empty (t, false) db h k =
        let Q : JobEffect (Option RunOnceResult) → Type 0 = λ m. Post P (m db) in
        let sum = add_tally total t in
        let e : ℕ = if t.attempted == 0 then suc empty else 0 in
        let polled : Post P (poll_again redact opts (rest sum) sum passes e opts.poll_ms db) =
          Post-poll_again (rest sum) sum passes e opts.poll_ms db h (k sum) in
        if_lem Q p.aborted_after _ _ (h _ refl) (
          if_lem Q (t.attempted == 0) _ _
            (if_lem Q (enough_empty redact opts e) _ _ (h _ refl) polled) polled)

    Post-run_passes :
        (fuel : ℕ) (ps : ℕ → Pass) (total : Tally) (passes empty : ℕ) (db : JobDb)
        → ((s : RunOnceResult) → s.passes ≡ suc passes → P (some s))
        → ((ps 0).aborted_before ≡ false
            → is_some opts.poll_ms ≡ true
            → (s : Tally) (e : ℕ) (after : JobDb)
            → Post P (run_passes redact opts fuel (λ i. ps (suc i)) s (suc passes) e after))
        → Post P (run_passes redact opts (suc fuel) ps total passes empty db)
    unfolding run_passes
    Post-run_passes fuel ps total passes empty db h k =
        let rest : Tally → ℕ → JobEffect (Option RunOnceResult) =
          λ t. run_passes redact opts fuel (λ i. ps (suc i)) t (suc passes) in
        let turns : JobEffect (Tally × Bool) =
          run_turns redact opts (cap redact opts) (ps 0).turns no_jobs in
        elim (Bool-cases (ps 0).aborted_before) [
          | inl e ↦ rw e (h _ refl)
          | inr e ↦ rw e (
              Post-bind (λ _. Unit {0}) P (turns db)
                (after_pass redact opts rest (ps 0) total (suc passes) empty) (any-Post (turns db))
                (λ r after _.
                  Post-after_pass rest (ps 0) total (suc passes) empty r after h
                    (λ s i polls. k e polls s i after)))
        ]

  aborted :
      (n fuel : ℕ) (ps : ℕ → Pass) (total : Tally) (passes empty : ℕ) (db : JobDb)
      → (ps n).aborted_before ≡ true
      → n < fuel
      → Post Ended (run_passes redact opts fuel ps total passes empty db)
  aborted n zero ps total passes empty db h lt = absurd (omega (arith, lt))
  aborted zero (suc fuel) ps total passes empty db h lt =
      Post-run_passes Ended fuel ps total passes empty db (λ s _. refl)
        (λ runs _ s e after. absurd (cc (h, runs)))
  aborted (suc n) (suc fuel) ps total passes empty db h lt =
      Post-run_passes Ended fuel ps total passes empty db (λ s _. refl)
        (λ _ _ s e after.
          aborted n fuel (λ i. ps (suc i)) s (suc passes) e after h (omega (arith, lt)))

  -- A run ends, by returning a result or by throwing, in the pass at whose start the signal is aborted, at
  -- the latest: that many passes of fuel are enough.
  pub run_once_ends :
      (n fuel : ℕ) (ps : ℕ → Pass) (db : JobDb)
      → (ps n).aborted_before ≡ true
      → n < fuel
      → (run_once redact opts fuel ps db).0 ≢ returned none
  unfolding run_once
  run_once_ends n fuel ps db h lt e = absurd (
      cc (
        Post-returned Ended (run_passes redact opts fuel ps no_jobs 0 0 db)
          (aborted n fuel ps no_jobs 0 0 db h lt) none e))

  -- A run that does not poll makes one pass: with fuel for one, it throws or returns a result that
  -- counts one pass.
  pub run_once_single :
      (fuel : ℕ) (ps : ℕ → Pass) (db : JobDb) (o : Option RunOnceResult)
      → opts.poll_ms ≡ none
      → (run_once redact opts (suc fuel) ps db).0 ≡ returned o
      → EndedAfter 1 o
  unfolding run_once
  run_once_single fuel ps db o still e =
      Post-returned (EndedAfter 1) (run_passes redact opts (suc fuel) ps no_jobs 0 0 db)
        (Post-run_passes (EndedAfter 1) fuel ps no_jobs 0 0 db (λ s h. h)
          (λ _ polls s i after. absurd (cc (rw still at polls))))
        o e
