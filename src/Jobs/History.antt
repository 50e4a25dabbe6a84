-- ===== src/Jobs/History.antt =====
-- How a row of `derivation_jobs` may change.
use agent_recall.Common.{
  ℕ, ◌≤◌, String, Bool, true, false, Option, none, some, List, [], ◌∷◌, ◌≡◌, refl, ap, ◌∙◌, arith,
  if◌then◌else◌, inl, inr, Bool-cases, str_eq,
}
use agent_recall.Common.Table.{update_where, first_where-update_where, first_where-insert_row}
use agent_recall.Jobs.Rows.{JobState, JobRow, JobDb, has_id}
use agent_recall.Jobs.Store.{
  get_job, claimed, cancel_requested, finalized, checkpointed, renewed, reaped,
}
use agent_recall.Jobs.Ops.{
  Op, enqueue_op, reap_op, claim_op, list_op, start_op, finish_op, complete_op, fail_op, cancel_op,
  mark_op, checkpoint_op, renew_op, run_ops,
}
use agent_recall.Jobs.Moves.{
  Move, update_jobs, add_job, add_run, update_runs, add_output, Moves, stop, go,
}
use agent_recall.Jobs.Moves.Methods.{Lawful, AllLawful, run_ops-Moves}

abbrev pub settled_state : JobState → Option ℕ → Bool
settled_state JobState.succeeded retry = true
settled_state JobState.cancelled retry = true
settled_state JobState.failed none = true
settled_state _ retry = false

-- ended, with no retry window
abbrev pub is_settled : JobRow → Bool
is_settled row = settled_state row.state row.next_retry_at

-- a row and what may have become of it later
pub record Evolves (old new : JobRow) : Type 0 where
  pub job_id : new.job_id ≡ old.job_id
  pub kind : new.kind ≡ old.kind
  pub scope : new.scope ≡ old.scope
  pub project_id : new.project_id ≡ old.project_id
  pub creator_actor_id : new.creator_actor_id ≡ old.creator_actor_id
  pub idempotency_key : new.idempotency_key ≡ old.idempotency_key
  pub input_digest : new.input_digest ≡ old.input_digest
  pub config_digest : new.config_digest ≡ old.config_digest
  pub created_at : new.created_at ≡ old.created_at
  pub attempts : old.attempt_count ≤ new.attempt_count
  pub settled : is_settled old ≡ true → new ≡ old

pub Evolves-refl : (row : JobRow) → Evolves row row
Evolves-refl row = ground arith

settled_trans :
    (a b c : JobRow)
    → (is_settled a ≡ true → b ≡ a)
    → (is_settled b ≡ true → c ≡ b)
    → is_settled a ≡ true
    → c ≡ a
settled_trans a b c h k s = k (rw (h s) s) ∙ h s

pub Evolves-trans : {a b c : JobRow} → Evolves a b → Evolves b c → Evolves a c
Evolves-trans {a} {b} {c} h k = record {
  job_id = k.job_id ∙ h.job_id;
  kind = k.kind ∙ h.kind;
  scope = k.scope ∙ h.scope;
  project_id = k.project_id ∙ h.project_id;
  creator_actor_id = k.creator_actor_id ∙ h.creator_actor_id;
  idempotency_key = k.idempotency_key ∙ h.idempotency_key;
  input_digest = k.input_digest ∙ h.input_digest;
  config_digest = k.config_digest ∙ h.config_digest;
  created_at = k.created_at ∙ h.created_at;
  attempts = omega arith;
  settled = settled_trans a b c h.settled k.settled;
}

module _ (redact : Option String → String) where
  pub Evolves-Lawful : (op : Op) → Lawful Evolves redact op
  unfolding claimed cancel_requested finalized checkpointed renewed reaped
  Evolves-Lawful (enqueue_op input job_id now) = tt
  Evolves-Lawful (reap_op now) = λ row h. ground arith
  Evolves-Lawful (claim_op job_id owner ttl now) = (λ row h. ground arith, λ row h. ground arith)
  Evolves-Lawful (list_op kind now limit) = λ row h. ground arith
  Evolves-Lawful (start_op input run_id now) = tt
  Evolves-Lawful (finish_op input now) = λ id cursor now row h. ground arith
  Evolves-Lawful (complete_op job_id now) = λ row h. ground arith
  Evolves-Lawful (fail_op job_id code message retry now) = λ row h. ground arith
  Evolves-Lawful (cancel_op job_id now) = λ row h. ground arith
  Evolves-Lawful (mark_op job_id now) = λ row h. ground arith
  Evolves-Lawful (checkpoint_op job_id cursor now) = λ id cursor now row h. ground arith
  Evolves-Lawful (renew_op job_id owner expires now) = λ row h. ground arith

  pub Evolves-AllLawful : (ops : List Op) → AllLawful Evolves redact ops
  Evolves-AllLawful [] = tt
  Evolves-AllLawful (op ∷ ops) = (Evolves-Lawful op, Evolves-AllLawful ops)

-- the row under this id is still there, and has evolved
abbrev pub Survives : String → JobRow → JobDb → Type 0
Survives id old db = (new : JobRow) × (get_job id db ≡ some new) × Evolves old new

Survives-update :
    (id : String) (db : JobDb) (q : JobRow → Bool) (f : JobRow → JobRow) (row : JobRow)
    → ((row : JobRow) → q row ≡ true → Evolves row (f row))
    → get_job id db ≡ some row
    → Survives id row (record db { jobs = update_where q f db.jobs })
Survives-update id db q f row law found = (
  (if q row then f row else row),
  rw
      (
        first_where-update_where (has_id id) q f db.jobs
            (λ r e. ap (λ (s : String). str_eq s id) (law r e).job_id),
        found,
      )
      refl,
  elim (Bool-cases (q row)) [ inl e ↦ rw e (law row e) | inr e ↦ rw e (Evolves-refl row) ],
)

Move-Survives :
    {a b : JobDb} (id : String) (row : JobRow)
    → Move Evolves a b
    → get_job id a ≡ some row
    → Survives id row b
Move-Survives id row (update_jobs db q f law) found = Survives-update id db q f row law found
Move-Survives id row (add_job db input job_id now fresh) found =
    (row, rw (first_where-insert_row (has_id id) _ db.jobs, found) refl, Evolves-refl row)
Move-Survives id row (add_run db run new job) found = (row, found, Evolves-refl row)
Move-Survives id row (update_runs db q f pending same_id same_job) found =
    (row, found, Evolves-refl row)
Move-Survives id row (add_output db out new job run) found = (row, found, Evolves-refl row)

Moves-Survives :
    {a b : JobDb} (id : String) (row : JobRow)
    → Moves Evolves a b
    → get_job id a ≡ some row
    → Survives id row b
Moves-Survives id row stop found = (row, found, Evolves-refl row)
Moves-Survives id row (go s r) found =
    let (mid, found', h) = Move-Survives id row s found in
    let (new, found'', k) = Moves-Survives id mid r found' in (new, found'', Evolves-trans h k)

-- Whatever operations run on the tables, in any order, a job that is there stays there under its id
-- with its kind, scope, project, creator, key, digests and creation time; its attempt count does
-- not fall; and if it had succeeded, was cancelled, or failed with no retry window, its whole row
-- stays as it is.
pub run_ops-Evolves :
    (redact : Option String → String) (ops : List Op) (db : JobDb) (id : String) (row : JobRow)
    → get_job id db ≡ some row
    → (new : JobRow) × (get_job id (run_ops redact ops db) ≡ some new) × Evolves row new
run_ops-Evolves redact ops db id row found =
    Moves-Survives id row (run_ops-Moves redact ops db (Evolves-AllLawful redact ops)) found
