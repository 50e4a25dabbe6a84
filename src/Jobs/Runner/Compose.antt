-- ===== src/Jobs/Runner/Compose.antt =====
-- Code of the worker whose effect on the job tables is a schedule of operations.
use agent_recall.Common.{String, Option, List, [], ◌∷◌, ◌++◌, ◌≡◌, refl, sym, ap, ◌∙◌}
use agent_recall.Common.Effect.{Outcome, returned, thrown, ◌>>=◌, continue_with}
use agent_recall.Jobs.Rows.{JobDb}
use agent_recall.Jobs.Store.{JobError}
use agent_recall.Jobs.Service.{JobEffect}
use agent_recall.Jobs.Ops.{Op, run_ops, step}
use agent_recall.Jobs.Runner.{Verdict, recover_with, as_verdict}

module _ (redact : Option String → String) where
  -- the tables end as after some schedule of operations
  abbrev pub Scheduled : JobDb → JobDb → Type 0
  Scheduled old new = (ops : List Op) × (new ≡ run_ops redact ops old)

  pub Scheduled-refl : (db : JobDb) → Scheduled db db
  unfolding run_ops
  Scheduled-refl db = ([], refl)

  run_ops-append :
      (ops more : List Op) (db : JobDb)
      → run_ops redact (ops ++ more) db ≡ run_ops redact more (run_ops redact ops db)
  unfolding run_ops
  run_ops-append [] more db = refl
  run_ops-append (op ∷ ops) more db = run_ops-append ops more (step redact op db)

  pub Scheduled-trans : (a b c : JobDb) → Scheduled a b → Scheduled b c → Scheduled a c
  Scheduled-trans a b c (ops, h) (more, k) =
      (ops ++ more, k ∙ ap (run_ops redact more) h ∙ sym (run_ops-append ops more a))

  abbrev pub IsScheduled : {A : Type 0} → JobEffect A → Type 0
  IsScheduled m = (db : JobDb) → Scheduled db (m db).1

module _ {A B : Type 0} (redact : Option String → String) where
  continue-Scheduled :
      (o : Outcome JobError A) (db : JobDb) (f : A → JobEffect B)
      → ((a : A) → IsScheduled redact (f a))
      → Scheduled redact db (continue_with o db f).1
  continue-Scheduled (returned a) db f k = k a db
  continue-Scheduled (thrown e) db f k = Scheduled-refl redact db

  pub bind-IsScheduled :
      (m : JobEffect A) (f : A → JobEffect B)
      → IsScheduled redact m
      → ((a : A) → IsScheduled redact (f a))
      → IsScheduled redact (m >>= f)
  bind-IsScheduled m f h k db =
      Scheduled-trans redact _ _ _ (h db) (continue-Scheduled (m db).0 (m db).1 f k)

module _ {A : Type 0} (redact : Option String → String) where
  pub recover_with-Scheduled :
      (h : JobEffect A) (p : Outcome JobError A × JobDb) (old : JobDb)
      → IsScheduled redact h
      → Scheduled redact old p.1
      → Scheduled redact old (recover_with h p).1
  recover_with-Scheduled h (returned a, db) old k s = s
  recover_with-Scheduled h (thrown e, db) old k s = Scheduled-trans redact old db _ s (k db)

  pub as_verdict-IsScheduled :
      (v : Verdict) (m : JobEffect A) → IsScheduled redact m → IsScheduled redact (as_verdict v m)
  as_verdict-IsScheduled v m h = bind-IsScheduled redact m _ h (λ a db. Scheduled-refl redact db)
