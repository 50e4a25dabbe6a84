-- ===== src/Jobs/Invariant/Preserved.antt =====
-- The consistency of the job tables under every operation.
use agent_recall.Common.{
  String, Bool, true, false, Option, List, ◌≡◌, ◌∙◌, ap, arith, str_eq, eq_iff, All-mono, ℕ,
}
use agent_recall.Common.Table.{
  update_where, insert_row, exists_where, Distinct-insert_row, Distinct-update_where,
  All-update_where, All-insert_row, exists_where-update_where, exists_where-insert_row,
}
use agent_recall.Jobs.Rows.{
  JobRow, RunRow, OutputRow, OutputKind, JobDb, has_id, has_run_id, same_output, same_kind,
}
use agent_recall.Jobs.Service.{EnqueueInput, queued_row}
use agent_recall.Jobs.Ops.{Op, run_ops}
use agent_recall.Jobs.Moves.{
  Move, update_jobs, add_job, add_run, update_runs, add_output, IsFresh, Moves_keep,
}
use agent_recall.Jobs.Moves.Methods.{run_ops-Moves}
use agent_recall.Jobs.Invariant.{
  IsWellFormed, Keeps, Keeps-AllLawful, same_id_as, same_key_as, same_run_as, IsConsistent,
}

pub str_eq-flip : (a b : String) → str_eq a b ≡ str_eq b a
str_eq-flip a b = ground (arith, eq_iff a b, eq_iff b a)

pub same_key_as-flip : (a b : JobRow) → same_key_as a b ≡ same_key_as b a
same_key_as-flip a b = rw (
  str_eq-flip b.creator_actor_id a.creator_actor_id,
  str_eq-flip b.kind a.kind,
  str_eq-flip b.idempotency_key a.idempotency_key,
)

same_kind-flip : (a b : OutputKind) → same_kind a b ≡ same_kind b a
same_kind-flip a b = ground arith

same_output-flip : (a b : OutputRow) → same_output a b ≡ same_output b a
same_output-flip a b = rw (
  str_eq-flip b.job_id a.job_id,
  same_kind-flip b.output_kind a.output_kind,
  str_eq-flip b.output_id a.output_id,
)

queued_row-IsWellFormed :
    (input : EnqueueInput) (job_id : String) (now : ℕ) → IsWellFormed (queued_row input job_id now)
unfolding queued_row
queued_row-IsWellFormed input job_id now = ground arith

exists-insert_row :
    {A : Type 0} (p : A → Bool) (x : A) (xs : List A)
    → exists_where p xs ≡ true
    → exists_where p (insert_row x xs) ≡ true
exists-insert_row p x xs h = exists_where-insert_row p x xs ∙ rw h

module _ (db : JobDb) (c : IsConsistent db) where
  update_jobs-IsConsistent :
      (q : JobRow → Bool) (f : JobRow → JobRow)
      → ((row : JobRow) → q row ≡ true → Keeps row (f row))
      → IsConsistent (record db { jobs = update_where q f db.jobs })
  update_jobs-IsConsistent q f law = record {
    rows = All-update_where IsWellFormed q f db.jobs (λ r w e. (law r e).well_formed w) c.rows;
    ids =
        Distinct-update_where same_id_as q f db.jobs
          (λ a b e. ap (λ (s : String). str_eq b.job_id s) (law a e).same_id)
          (λ a b e. ap (λ (s : String). str_eq s a.job_id) (law b e).same_id) c.ids;
    keys =
        Distinct-update_where same_key_as q f db.jobs
          (λ a b e. rw ((law a e).same_creator, (law a e).same_kind_of_job, (law a e).same_key))
          (λ a b e. rw ((law b e).same_creator, (law b e).same_kind_of_job, (law b e).same_key))
          c.keys;
    run_ids = c.run_ids;
    outputs = c.outputs;
    run_jobs = All-mono db.runs (λ run e. exists_after run.job_id ∙ e) c.run_jobs;
    output_jobs = All-mono db.outputs (λ out e. exists_after out.job_id ∙ e) c.output_jobs;
    output_runs = c.output_runs;
  }
    where
      exists_after :
          (id : String)
          → exists_where (has_id id) (update_where q f db.jobs) ≡ exists_where (has_id id) db.jobs
      exists_after id =
          exists_where-update_where (has_id id) q f db.jobs
            (λ r e. ap (λ (s : String). str_eq s id) (law r e).same_id)

  add_job-IsConsistent :
      (row : JobRow)
      → IsWellFormed row
      → IsFresh row db
      → IsConsistent (record db { jobs = insert_row row db.jobs })
  add_job-IsConsistent row w fresh = record {
    rows = All-insert_row IsWellFormed row db.jobs c.rows w;
    ids =
        Distinct-insert_row same_id_as row db.jobs (λ a b. str_eq-flip b.job_id a.job_id)
          fresh.new_id c.ids;
    keys = Distinct-insert_row same_key_as row db.jobs same_key_as-flip fresh.new_key c.keys;
    run_ids = c.run_ids;
    outputs = c.outputs;
    run_jobs =
        All-mono db.runs (λ run e. exists-insert_row (has_id run.job_id) row db.jobs e) c.run_jobs;
    output_jobs =
        All-mono db.outputs (λ out e. exists-insert_row (has_id out.job_id) row db.jobs e)
          c.output_jobs;
    output_runs = c.output_runs;
  }

  add_run-IsConsistent :
      (run : RunRow)
      → exists_where (has_run_id run.run_id) db.runs ≡ false
      → exists_where (has_id run.job_id) db.jobs ≡ true
      → IsConsistent (record db { runs = insert_row run db.runs })
  add_run-IsConsistent run new job = record {
    rows = c.rows;
    ids = c.ids;
    keys = c.keys;
    run_ids =
        Distinct-insert_row same_run_as run db.runs (λ a b. str_eq-flip b.run_id a.run_id) new
          c.run_ids;
    outputs = c.outputs;
    run_jobs =
        All-insert_row (λ run. exists_where (has_id run.job_id) db.jobs ≡ true) run db.runs
          c.run_jobs job;
    output_jobs = c.output_jobs;
    output_runs =
        All-mono db.outputs (λ out e. exists-insert_row (has_run_id out.run_id) run db.runs e)
          c.output_runs;
  }

  update_runs-IsConsistent :
      (q : RunRow → Bool) (f : RunRow → RunRow)
      → ((run : RunRow) → (f run).run_id ≡ run.run_id)
      → ((run : RunRow) → (f run).job_id ≡ run.job_id)
      → IsConsistent (record db { runs = update_where q f db.runs })
  update_runs-IsConsistent q f same_id same_job = record {
    rows = c.rows;
    ids = c.ids;
    keys = c.keys;
    run_ids =
        Distinct-update_where same_run_as q f db.runs
          (λ a b e. ap (λ (s : String). str_eq b.run_id s) (same_id a))
          (λ a b e. ap (λ (s : String). str_eq s a.run_id) (same_id b)) c.run_ids;
    outputs = c.outputs;
    run_jobs =
        All-update_where (λ run. exists_where (has_id run.job_id) db.jobs ≡ true) q f db.runs
          (λ run h e. ap (λ (s : String). exists_where (has_id s) db.jobs) (same_job run) ∙ h)
          c.run_jobs;
    output_jobs = c.output_jobs;
    output_runs =
        All-mono db.outputs
          (λ out e.
            exists_where-update_where (has_run_id out.run_id) q f db.runs
              (λ run _. ap (λ (s : String). str_eq s out.run_id) (same_id run))
            ∙ e)
          c.output_runs;
  }

  add_output-IsConsistent :
      (out : OutputRow)
      → exists_where (same_output out) db.outputs ≡ false
      → exists_where (has_id out.job_id) db.jobs ≡ true
      → exists_where (has_run_id out.run_id) db.runs ≡ true
      → IsConsistent (record db { outputs = insert_row out db.outputs })
  add_output-IsConsistent out new job run = record {
    rows = c.rows;
    ids = c.ids;
    keys = c.keys;
    run_ids = c.run_ids;
    outputs = Distinct-insert_row same_output out db.outputs same_output-flip new c.outputs;
    run_jobs = c.run_jobs;
    output_jobs =
        All-insert_row (λ out. exists_where (has_id out.job_id) db.jobs ≡ true) out db.outputs
          c.output_jobs job;
    output_runs =
        All-insert_row (λ out. exists_where (has_run_id out.run_id) db.runs ≡ true) out db.outputs
          c.output_runs run;
  }

Move-IsConsistent : (a b : JobDb) → Move Keeps a b → IsConsistent a → IsConsistent b
Move-IsConsistent a b (update_jobs _ q f law) c = update_jobs-IsConsistent a c q f law
Move-IsConsistent a b (add_job _ input job_id now fresh) c =
    add_job-IsConsistent a c (queued_row input job_id now)
      (queued_row-IsWellFormed input job_id now) fresh
Move-IsConsistent a b (add_run _ run new job) c = add_run-IsConsistent a c run new job
Move-IsConsistent a b (update_runs _ q f pending same_id same_job) c =
    update_runs-IsConsistent a c q f same_id same_job
Move-IsConsistent a b (add_output _ out new job run) c = add_output-IsConsistent a c out new job run

-- Any schedule of operations keeps the tables consistent: ids, idempotency keys, run ids and
-- outputs stay distinct, runs and outputs refer to rows that exist, and every job is well formed (a
-- running job has an owner, an expiry, a start and a positive attempt count; any other job has no
-- lease; an ended job has a start, an end and a positive attempt count).
pub run_ops-IsConsistent :
    (redact : Option String → String) (ops : List Op) (db : JobDb)
    → IsConsistent db
    → IsConsistent (run_ops redact ops db)
run_ops-IsConsistent redact ops db c =
    Moves_keep IsConsistent Move-IsConsistent
      (run_ops-Moves redact ops db (Keeps-AllLawful redact ops)) c
