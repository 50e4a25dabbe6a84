-- ===== src/Jobs/Claim.antt =====
-- `claim` of src/jobs/service.ts: when a job is claimed, and what the claim writes.
pub mod Exact
pub mod Exclusive
use mathlib.Core.Option
use agent_recall.Common.{
  ℕ, ◌+◌, ◌<◌, ◌≤◌, String, Bool, true, false, ◌&&◌, Option, none, some, ◌≡◌, refl, ◌∙◌, ap, sym,
  arith, if◌then◌else◌, inl, inr, Bool-cases, str_eq, eq_iff, get_or, leb, is_some,
}
use agent_recall.Common.Effect.{Outcome, returned}
use agent_recall.Common.Table.{
  first_where, update_where, first_where-update_where, first_where_and, only_if, Distinct,
  Distinct-update_where, first_where_sound,
}
use agent_recall.Jobs.Rows.{JobState, JobRow, JobDb, has_id, is_running}
use agent_recall.Jobs.Store.{
  JobError, get_job, is_claimable, can_claim, claimed, claim_job, lease_expired, reaped,
  reap_expired_leases, claimable_state,
}
use agent_recall.Jobs.Service.{Claim, claim, claim_result, reap, default_lease_ttl_ms}
use agent_recall.Jobs.Invariant.{IsWellFormed, IsConsistent, same_id_as}
use agent_recall.Jobs.Lease.{Holds, IsLeased}

pub same_id_as_key :
    (id : String) (a b : JobRow) → has_id id a ≡ true → has_id id b ≡ true → same_id_as a b ≡ true
same_id_as_key id a b h k =
    ground (arith, eq_iff a.job_id id, eq_iff b.job_id id, eq_iff b.job_id a.job_id)

-- a row after the sweep
abbrev pub swept : ℕ → JobRow → JobRow
swept now row = if lease_expired now row then reaped now row else row

reaped_id : (now : ℕ) (row : JobRow) → (reaped now row).job_id ≡ row.job_id
unfolding reaped
reaped_id now row = refl

claimed_id :
    (owner : String) (expires started now : ℕ) (row : JobRow)
    → (claimed owner expires started now row).job_id ≡ row.job_id
unfolding claimed
claimed_id owner expires started now row = refl

module _ (db : JobDb) (now : ℕ) where
  get_job-reap :
      (id : String)
      → get_job id (reap_expired_leases now db).1 ≡ Option.map (swept now) (get_job id db)
  unfolding reap_expired_leases
  get_job-reap id =
      first_where-update_where (has_id id) (lease_expired now) (reaped now) db.jobs
        (λ r e. ap (λ (s : String). str_eq s id) (reaped_id now r))

  ids-reap : Distinct same_id_as db.jobs → Distinct same_id_as (reap_expired_leases now db).1.jobs
  unfolding reap_expired_leases
  ids-reap h =
      Distinct-update_where same_id_as (lease_expired now) (reaped now) db.jobs
        (λ a b e. ap (λ (s : String). str_eq b.job_id s) (reaped_id now a))
        (λ a b e. ap (λ (s : String). str_eq s a.job_id) (reaped_id now b)) h

module _ (id owner : String) (expires now : ℕ) (db : JobDb) where
  claim_job_row :
      Distinct same_id_as db.jobs
      → (claim_job id owner expires now now db).0
        ≡ Option.map (claimed owner expires now now) (only_if (is_claimable now) (get_job id db))
  unfolding claim_job
  claim_job_row h =
      ap (Option.map (claimed owner expires now now))
        (first_where_and same_id_as (has_id id) (is_claimable now) db.jobs (same_id_as_key id) h)

  get_job-claim_job :
      get_job id (claim_job id owner expires now now db).1
      ≡ Option.map
          (λ row. if can_claim id now row then claimed owner expires now now row else row)
          (get_job id db)
  unfolding claim_job
  get_job-claim_job =
      first_where-update_where (has_id id) (can_claim id now) (claimed owner expires now now)
        db.jobs (λ r e. ap (λ (s : String). str_eq s id) (claimed_id owner expires now now r))

-- the result for the row under the id, or for none
abbrev pub claim_of : String → ℕ → ℕ → Option JobRow → Option Claim
claim_of owner expires now none = none
claim_of owner expires now (some row) =
    if is_claimable now (swept now row)
    then some
        (record { job = claimed owner expires now now (swept now row); lease_expires_at = expires })
    else none

module _ (id owner : String) (ttl : Option ℕ) (now : ℕ) (db : JobDb) where
  abbrev pub lease_end : ℕ
  lease_end = now + get_or ttl default_lease_ttl_ms

  claim_of-cases :
      (row : Option JobRow) (after : JobDb)
      → (claim_result lease_end
          (Option.map
            (claimed owner lease_end now now)
            (only_if (is_claimable now) (Option.map (swept now) row)))
          after).0
        ≡ returned (claim_of owner lease_end now row)
  claim_of-cases none after = refl
  claim_of-cases (some row) after = ground arith

  claim_value :
      Distinct same_id_as db.jobs
      → (claim id owner ttl now db).0 ≡ returned (claim_of owner lease_end now (get_job id db))
  unfolding claim
  claim_value h =
      rw
        (
          claim_job_row id owner lease_end now (reap_expired_leases now db).1 (ids-reap db now h),
          get_job-reap db now id,
        )
        (claim_of-cases (get_job id db) _)

  claim_result_state :
      (row : Option JobRow) (after : JobDb) → (claim_result lease_end row after).1 ≡ after
  claim_result_state none after = refl
  claim_result_state (some row) after = refl

  -- the row after the call
  abbrev pub row_after_claim : JobRow → JobRow
  row_after_claim row =
      if is_claimable now (swept now row)
      then claimed owner lease_end now now (swept now row)
      else swept now row

  has_swept_id : (row : JobRow) → has_id id (swept now row) ≡ has_id id row
  unfolding reaped
  has_swept_id row = ground arith

  after_claim_cases :
      (row : Option JobRow)
      → row ≡ get_job id db
      → Option.map
          (λ r. if can_claim id now r then claimed owner lease_end now now r else r)
          (Option.map (swept now) row)
        ≡ Option.map row_after_claim row
  after_claim_cases none h = refl
  after_claim_cases (some row) h =
      rw (has_swept_id row, first_where_sound (has_id id) db.jobs row (sym h))

  get_job-claim :
      get_job id (claim id owner ttl now db).1 ≡ Option.map row_after_claim (get_job id db)
  unfolding claim
  get_job-claim =
      rw
        (
          claim_result_state _
              (claim_job id owner lease_end now now (reap_expired_leases now db).1).1,
          get_job-claim_job id owner lease_end now (reap_expired_leases now db).1,
          get_job-reap db now id,
        )
        (after_claim_cases (get_job id db) refl)

  -- in terms of the sweep and the claim
  pub claim_swept :
      IsConsistent db
      → ((claim id owner ttl now db).0 ≡ returned (claim_of owner lease_end now (get_job id db)))
        × (get_job id (claim id owner ttl now db).1 ≡ Option.map row_after_claim (get_job id db))
  claim_swept c = (claim_value c.ids, get_job-claim)
