-- ===== src/Jobs/Lease.antt =====
-- A live lease under the operations of other workers.
use agent_recall.Common.{
  ℕ, ◌<◌, String, Bool, true, false, Option, some, List, [], ◌∷◌, ◌≡◌, refl, ap, arith,
  if◌then◌else◌, inl, inr, Bool-cases, str_eq, eq_iff, ◌⊎◌,
}
use agent_recall.Common.Table.{update_where, first_where-update_where, first_where-insert_row}
use agent_recall.Jobs.Rows.{JobState, JobRow, JobDb, has_id}
use agent_recall.Jobs.Store.{
  get_job, claimed, cancel_requested, finalized, checkpointed, renewed, reaped,
}
use agent_recall.Jobs.Ops.{
  Op, enqueue_op, reap_op, claim_op, list_op, start_op, finish_op, complete_op, fail_op, cancel_op,
  mark_op, checkpoint_op, renew_op, run_ops,
}
use agent_recall.Jobs.Moves.{
  Move, update_jobs, add_job, add_run, update_runs, add_output, Moves_keep,
}
use agent_recall.Jobs.Moves.Methods.{Lawful, AllLawful, run_ops-Moves}

module _ (id owner : String) (expires : ℕ) where
  -- this row is the job, running under this lease
  pub record IsLeased (row : JobRow) : Type 0 where
    pub same_id : row.job_id ≡ id
    pub running : row.state ≡ JobState.running
    pub leased_to : row.lease_owner ≡ some owner
    pub leased_until : row.lease_expires_at ≡ some expires

  -- the job is in the table, and runs under this lease
  pub record Holds (db : JobDb) : Type 0 where
    pub row : JobRow
    pub found : get_job id db ≡ some row
    pub leased : IsLeased row

  -- the UPDATE keeps ids, and this lease
  pub record KeepsLease (old new : JobRow) : Type 0 where
    pub kept_id : new.job_id ≡ old.job_id
    pub kept_lease : IsLeased old → IsLeased new

  -- The operation comes before the lease ends, does not end the job, and does not renew its lease:
  -- what other workers may do.
  abbrev pub Respects : Op → Type 0
  Respects (reap_op now) = now < expires
  Respects (claim_op job_id other ttl now) = now < expires
  Respects (list_op kind now limit) = now < expires
  Respects (complete_op job_id now) = str_eq job_id id ≡ false
  Respects (fail_op job_id code message retry now) = str_eq job_id id ≡ false
  Respects (mark_op job_id now) = str_eq job_id id ≡ false
  Respects (renew_op job_id other until now) =
      (str_eq job_id id ≡ false) ⊎ (str_eq owner other ≡ false)
  Respects _ = Unit {0}

  abbrev pub AllRespect : List Op → Type 0
  AllRespect [] = Unit {0}
  AllRespect (op ∷ ops) = Respects op × AllRespect ops

  KeepsLease-Lawful :
      (redact : Option String → String) (op : Op) → Respects op → Lawful KeepsLease redact op
  unfolding claimed cancel_requested finalized checkpointed renewed reaped
  KeepsLease-Lawful redact (enqueue_op input job_id now) r = tt
  KeepsLease-Lawful redact (reap_op now) r = λ row h. ground arith
  KeepsLease-Lawful redact (claim_op job_id other ttl now) r =
      (λ row h. ground arith, λ row h. ground arith)
  KeepsLease-Lawful redact (list_op kind now limit) r = λ row h. ground arith
  KeepsLease-Lawful redact (start_op input run_id now) r = tt
  KeepsLease-Lawful redact (finish_op input now) r = λ id cursor now row h. ground arith
  KeepsLease-Lawful redact (complete_op job_id now) r =
      λ row h. ground (arith, eq_iff row.job_id job_id, eq_iff job_id id)
  KeepsLease-Lawful redact (fail_op job_id code message retry now) r =
      λ row h. ground (arith, eq_iff row.job_id job_id, eq_iff job_id id)
  KeepsLease-Lawful redact (cancel_op job_id now) r = λ row h. ground arith
  KeepsLease-Lawful redact (mark_op job_id now) r =
      λ row h. ground (arith, eq_iff row.job_id job_id, eq_iff job_id id)
  KeepsLease-Lawful redact (checkpoint_op job_id cursor now) r = λ id cursor now row h. ground arith
  KeepsLease-Lawful redact (renew_op job_id other until now) r =
      λ row h. ground (arith, eq_iff row.job_id job_id, eq_iff job_id id)

  KeepsLease-AllLawful :
      (redact : Option String → String) (ops : List Op)
      → AllRespect ops
      → AllLawful KeepsLease redact ops
  KeepsLease-AllLawful redact [] r = tt
  KeepsLease-AllLawful redact (op ∷ ops) r =
      (KeepsLease-Lawful redact op r.0, KeepsLease-AllLawful redact ops r.1)

  update-Holds :
      (db : JobDb) (q : JobRow → Bool) (f : JobRow → JobRow)
      → ((row : JobRow) → q row ≡ true → KeepsLease row (f row))
      → Holds db
      → Holds (record db { jobs = update_where q f db.jobs })
  update-Holds db q f law h = record {
    row = if q h.row then f h.row else h.row;
    found =
        rw
          (
            first_where-update_where (has_id id) q f db.jobs
                (λ r e. ap (λ (s : String). str_eq s id) (law r e).kept_id),
            h.found,
          )
          refl;
    leased = elim (Bool-cases (q h.row)) [
      | inl e ↦ rw e ((law h.row e).kept_lease h.leased)
      | inr e ↦ rw e h.leased
    ];
  }

  Move-Holds : (a b : JobDb) → Move KeepsLease a b → Holds a → Holds b
  Move-Holds a b (update_jobs _ q f law) h = update-Holds a q f law h
  Move-Holds a b (add_job _ input job_id now fresh) h = record {
    row = h.row;
    found = rw (first_where-insert_row (has_id id) _ a.jobs, h.found) refl;
    leased = h.leased;
  }
  Move-Holds a b (add_run _ run new job) h = record {
    row = h.row;
    found = h.found;
    leased = h.leased;
  }
  Move-Holds a b (update_runs _ q f pending same_id same_job) h = record {
    row = h.row;
    found = h.found;
    leased = h.leased;
  }
  Move-Holds a b (add_output _ out new job run) h = record {
    row = h.row;
    found = h.found;
    leased = h.leased;
  }

  pub run_ops-Holds :
      (redact : Option String → String) (ops : List Op) (db : JobDb)
      → AllRespect ops
      → Holds db
      → Holds (run_ops redact ops db)
  run_ops-Holds redact ops db r h =
      Moves_keep Holds Move-Holds (run_ops-Moves redact ops db (KeepsLease-AllLawful redact ops r))
        h
