-- ===== src/Jobs/Replay/Idempotent.antt =====
-- A retried `enqueue`, after other operations.
use agent_recall.Common.{
  ℕ, String, Bool, true, false, ◌&&◌, not, Option, some, List, ◌∷◌, ◌≡◌, refl, subst, ◌∙◌, arith,
  if◌then◌else◌, is_some, str_eq, eq_iff, eq_refl, inl, inr, Bool-cases, Option-cases,
}
use agent_recall.Common.Effect.{Outcome, returned, thrown}
use agent_recall.Common.Table.{
  exists_where, insert_row, first_where_key, first_where_sound, first_where-insert_row,
  first_where-none,
}
use agent_recall.Jobs.Rows.{JobErrorCode, JobRow, JobDb, is_project, has_id, has_key}
use agent_recall.Jobs.Store.{JobError, coded, get_job}
use agent_recall.Jobs.Service.{EnqueueInput, EnqueueResult, queued_row, digests_match, enqueue}
use agent_recall.Jobs.Ops.{Op, enqueue_op, run_ops, step}
use agent_recall.Jobs.History.{Evolves, run_ops-Evolves}
use agent_recall.Jobs.Invariant.{IsConsistent, same_id_as, same_key_as}
use agent_recall.Jobs.Invariant.Preserved.{run_ops-IsConsistent, str_eq-flip, same_key_as-flip}
use agent_recall.Jobs.Replay.{
  IsAddressed, job_for, enqueue_found, enqueue_new, enqueue_clash, enqueue_unaddressed,
}

-- the row is stored, and is a job for this input
pub record Recorded (input : EnqueueInput) (row : JobRow) (db : JobDb) : Type 0 where
  pub found : get_job row.job_id db ≡ some row
  pub creator : row.creator_actor_id ≡ input.creator_actor_id
  pub kind : row.kind ≡ input.kind
  pub key : row.idempotency_key ≡ input.idempotency_key
  pub input_digest : row.input_digest ≡ input.input_digest
  pub config_digest : row.config_digest ≡ input.config_digest

reply_job :
    (a b : EnqueueResult)
    → ◌≡◌ {A = Outcome JobError EnqueueResult} (returned a) (returned b)
    → a.job ≡ b.job
reply_job a b h = ground arith

same_key_as_refl : (row : JobRow) → same_key_as row row ≡ true
same_key_as_refl row =
    rw (eq_refl row.creator_actor_id, eq_refl row.kind, eq_refl row.idempotency_key)

module _ (input : EnqueueInput) where
  existing_Recorded :
      (db : JobDb) (row : JobRow)
      → IsConsistent db
      → job_for input db ≡ some row
      → digests_match input row ≡ true
      → Recorded input row db
  existing_Recorded db row c found match =
      let keyed =
        first_where_sound (has_key input.creator_actor_id input.kind input.idempotency_key) db.jobs
          row found in
      record {
        found =
            first_where_key same_id_as _ db.jobs row (eq_refl row.job_id)
              (λ a b. str_eq-flip b.job_id a.job_id) c.ids found;
        creator = ground (arith, keyed, eq_iff row.creator_actor_id input.creator_actor_id);
        kind = ground (arith, keyed, eq_iff row.kind input.kind);
        key = ground (arith, keyed, eq_iff row.idempotency_key input.idempotency_key);
        input_digest = ground (arith, eq_iff row.input_digest input.input_digest);
        config_digest = ground (arith, eq_iff row.config_digest input.config_digest);
      }

  new_Recorded :
      (job_id : String) (now : ℕ) (db : JobDb)
      → exists_where (has_id job_id) db.jobs ≡ false
      → Recorded input
          (queued_row input job_id now)
          (record db { jobs = insert_row (queued_row input job_id now) db.jobs })
  unfolding queued_row
  new_Recorded job_id now db new = record {
    found = rw (
      first_where-insert_row (has_id job_id) _ db.jobs,
      first_where-none (has_id job_id) db.jobs new,
      eq_refl job_id,
    );
    creator = refl;
    kind = refl;
    key = refl;
    input_digest = refl;
    config_digest = refl;
  }

  -- the reply and the tables of a call that returns
  abbrev Records : Outcome JobError EnqueueResult × JobDb → Type 0
  Records call =
      (result : EnqueueResult) → call.0 ≡ returned result → Recorded input result.job call.1

  module _ (job_id : String) (now : ℕ) (db : JobDb) (c : IsConsistent db) where
    found_Records :
        (row : JobRow)
        → job_for input db ≡ some row
        → (b : Bool) → digests_match input row ≡ b
        → Records (
          if b
              then returned (record { job = row; replayed = true })
              else thrown (coded JobErrorCode.idempotency_digest_mismatch),
          db,
        )
    found_Records row found true match result h =
        subst (λ (r : JobRow). Recorded input r db) (reply_job _ result h)
          (existing_Recorded db row c found match)
    found_Records row found false match result h = cc

    enqueue-Records : Records (enqueue input job_id now db)
    enqueue-Records = elim (Bool-cases (is_project input.scope && not (is_some input.project_id))) [
      | inl bad ↦ rw (enqueue_unaddressed input job_id now db bad) (λ result h. cc)
      | inr ok ↦ elim (Option-cases (job_for input db)) [
        | inr (row, found) ↦
            rw (enqueue_found input job_id now db row ok found) (found_Records row found _ refl)
        | inl found ↦ elim (Bool-cases (exists_where (has_id job_id) db.jobs)) [
          | inl taken ↦ rw (enqueue_clash input job_id now db ok found taken) (λ result h. cc)
          | inr new ↦ rw (enqueue_new input job_id now db ok found new) (λ result h.
              subst
                (λ (r : JobRow).
                  Recorded input r
                    (record db { jobs = insert_row (queued_row input job_id now) db.jobs }))
                (reply_job _ result h) (new_Recorded job_id now db new))
        ]
      ]
    ]

-- the digests of the two inputs are the same
abbrev pub same_digests : EnqueueInput → EnqueueInput → Bool
same_digests input again =
    str_eq input.input_digest again.input_digest && str_eq input.config_digest again.config_digest

-- what a second call returns
abbrev pub retry_reply : EnqueueInput → EnqueueInput → JobRow → Outcome JobError EnqueueResult
retry_reply input again row =
    if same_digests input again
    then returned (record { job = row; replayed = true })
    else thrown (coded JobErrorCode.idempotency_digest_mismatch)

-- the second input asks for the same (creator_actor_id, kind, idempotency_key)
pub record SameTriple (input again : EnqueueInput) : Type 0 where
  pub creator : again.creator_actor_id ≡ input.creator_actor_id
  pub kind : again.kind ≡ input.kind
  pub key : again.idempotency_key ≡ input.idempotency_key

job_for-evolved :
    (input again : EnqueueInput) (old new : JobRow) (before db : JobDb)
    → IsConsistent db
    → SameTriple input again
    → Recorded input old before
    → Evolves old new
    → get_job old.job_id db ≡ some new
    → job_for again db ≡ some new
job_for-evolved input again old new before db c same r e found =
    rw
      (
        same.creator,
        same.kind,
        same.key,
        ← r.creator,
        ← r.kind,
        ← r.key,
        ← e.creator_actor_id,
        ← e.kind,
        ← e.idempotency_key,
      )
      (first_where_key same_key_as (has_id old.job_id) db.jobs new (same_key_as_refl new)
        same_key_as-flip c.keys found)

digests_match-evolved :
    (input again : EnqueueInput) (old new : JobRow) (before : JobDb)
    → Recorded input old before
    → Evolves old new
    → digests_match again new ≡ same_digests input again
digests_match-evolved input again old new before r e =
    rw (e.input_digest, e.config_digest, r.input_digest, r.config_digest)

-- Once an `enqueue` on consistent tables has returned a job, a later `enqueue` with the same
-- creator, kind and idempotency key writes nothing, whatever operations ran in between: with the
-- same two digests it returns that job, as it is by then, under the same job id and marked as a
-- replay; with another digest it throws `idempotency_digest_mismatch`.
pub enqueue_idempotent :
    (redact : Option String → String) (input again : EnqueueInput) (job_id retry_id : String)
    (now later : ℕ) (ops : List Op) (db : JobDb) (result : EnqueueResult)
    → IsConsistent db
    → (enqueue input job_id now db).0 ≡ returned result
    → SameTriple input again
    → IsAddressed again
    → (row : JobRow) × (row.job_id ≡ result.job.job_id)
      × (enqueue again retry_id later (run_ops redact (enqueue_op input job_id now ∷ ops) db)
          ≡ (retry_reply input again row, run_ops redact (enqueue_op input job_id now ∷ ops) db))
unfolding run_ops step
enqueue_idempotent redact input again job_id retry_id now later ops db result c done same ok =
    let first = enqueue-Records input job_id now db c result done in
    let after = (enqueue input job_id now db).1 in
    let (row, found, e) =
      run_ops-Evolves redact ops after result.job.job_id result.job first.found in
    let c' = run_ops-IsConsistent redact (enqueue_op input job_id now ∷ ops) db c in
    (
      row,
      e.job_id,
      enqueue_found again retry_id later _ row ok
            (job_for-evolved input again result.job row after _ c' same first e found)
          ∙ rw (digests_match-evolved input again result.job row after first e) refl,
    )
