-- ===== src/Jobs/Moves.antt =====
-- What the methods of the job store (src/jobs/service.ts, src/sqlite-store.ts) do to the tables,
-- as runs of single statements. `R` says how an UPDATE may change a row of `derivation_jobs`.
pub mod Statements
pub mod Methods
use agent_recall.Common.{ℕ, String, Bool, true, false, List, [], ◌∷◌, ◌≡◌, if◌then◌else◌}
use agent_recall.Common.Effect.{Outcome, returned, thrown, ◌>>=◌, pure, throw, gets}
use agent_recall.Common.Table.{update_where, insert_row, exists_where}
use agent_recall.Jobs.Rows.{
  JobRow, RunRow, OutputRow, JobDb, has_id, has_key, has_run_id, same_output, is_started,
}
use agent_recall.Jobs.Store.{JobError}
use agent_recall.Jobs.Service.{JobEffect, EnqueueInput, queued_row}

-- no constraint of `derivation_jobs` stops the new row
pub record IsFresh (row : JobRow) (db : JobDb) : Type 0 where
  pub new_id : exists_where (has_id row.job_id) db.jobs ≡ false
  pub new_key :
      exists_where (has_key row.creator_actor_id row.kind row.idempotency_key) db.jobs ≡ false

pub data Move (R : JobRow → JobRow → Type 0) : JobDb → JobDb → Type 0 where
  update_jobs :
      (db : JobDb) (q : JobRow → Bool) (f : JobRow → JobRow)
      → ((row : JobRow) → q row ≡ true → R row (f row))
      → Move R db (record db { jobs = update_where q f db.jobs })
  add_job :
      (db : JobDb) (input : EnqueueInput) (job_id : String) (now : ℕ)
      → IsFresh (queued_row input job_id now) db
      → Move R db (record db { jobs = insert_row (queued_row input job_id now) db.jobs })
  add_run :
      (db : JobDb) (run : RunRow)
      → exists_where (has_run_id run.run_id) db.runs ≡ false
      → exists_where (has_id run.job_id) db.jobs ≡ true
      → Move R db (record db { runs = insert_row run db.runs })
  update_runs :
      (db : JobDb) (q : RunRow → Bool) (f : RunRow → RunRow)
      → ((run : RunRow) → q run ≡ true → is_started run.status ≡ true)
      → ((run : RunRow) → (f run).run_id ≡ run.run_id)
      → ((run : RunRow) → (f run).job_id ≡ run.job_id)
      → Move R db (record db { runs = update_where q f db.runs })
  add_output :
      (db : JobDb) (row : OutputRow)
      → exists_where (same_output row) db.outputs ≡ false
      → exists_where (has_id row.job_id) db.jobs ≡ true
      → exists_where (has_run_id row.run_id) db.runs ≡ true
      → Move R db (record db { outputs = insert_row row db.outputs })

pub data Moves (R : JobRow → JobRow → Type 0) : JobDb → JobDb → Type 0 where
  stop : {a : JobDb} → Moves R a a
  go : {a b c : JobDb} → Move R a b → Moves R b c → Moves R a c

module _ {R : JobRow → JobRow → Type 0} where
  pub Moves-append : {a b c : JobDb} → Moves R a b → Moves R b c → Moves R a c
  Moves-append stop t = t
  Moves-append (go s r) t = go s (Moves-append r t)

  -- an invariant of each statement is one of every run
  pub Moves_keep :
      (P : JobDb → Type 0)
      → ((a b : JobDb) → Move R a b → P a → P b)
      → {a b : JobDb} → Moves R a b
      → P a
      → P b
  Moves_keep P keep stop h = h
  Moves_keep P keep (go {a} {b} s r) h = Moves_keep P keep r (keep a b s h)

-- `m` runs such statements and nothing else, whether it returns or throws
pub record Traced (R : JobRow → JobRow → Type 0) {A : Type 0} (m : JobEffect A) : Type 0 where
  pub at : (db : JobDb) → Moves R db (m db).1

module _ {R : JobRow → JobRow → Type 0} {A : Type 0} where
  pub Traced-pure : (a : A) → Traced R (pure {S = JobDb} {E = JobError} a)
  Traced-pure a = record { at = λ db. stop }

  pub Traced-throw : (e : JobError) → Traced R (throw {S = JobDb} {A = A} e)
  Traced-throw e = record { at = λ db. stop }

  pub Traced-gets : (f : JobDb → A) → Traced R (gets {E = JobError} f)
  Traced-gets f = record { at = λ db. stop }

  pub Traced-if :
      (b : Bool) (m n : JobEffect A) → Traced R m → Traced R n → Traced R (if b then m else n)
  Traced-if true m n h k = h
  Traced-if false m n h k = k

module _ {R : JobRow → JobRow → Type 0} {A B : Type 0} where
  continue-Traced :
      (r : Outcome JobError A) (db : JobDb) (f : A → JobEffect B)
      → ((a : A) → Traced R (f a))
      → Moves R db (((λ (s : JobDb). (r, s)) >>= f) db).1
  continue-Traced (returned a) db f h = (h a).at db
  continue-Traced (thrown e) db f h = stop

  pub Traced-bind :
      (m : JobEffect A) (f : A → JobEffect B)
      → Traced R m
      → ((a : A) → Traced R (f a))
      → Traced R (m >>= f)
  Traced-bind m f h k = record {
    at = λ db. Moves-append (h.at db) (continue-Traced (m db).0 (m db).1 f k);
  }

pub ruleset trace_rules = (Traced-pure, Traced-throw, Traced-gets, Traced-if, Traced-bind)
