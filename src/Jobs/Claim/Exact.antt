-- ===== src/Jobs/Claim/Exact.antt =====
-- `claim` of src/jobs/service.ts against a description of the row that is written out.
use mathlib.Core.Option
use agent_recall.Common.{
  ℕ, ◌+◌, String, Bool, true, false, ◌&&◌, Option, none, some, ◌≡◌, refl, ◌∙◌, ap, arith,
  if◌then◌else◌, inl, inr, Bool-cases, Option-cases, get_or, leb,
}
use agent_recall.Common.Effect.{returned}
use agent_recall.Jobs.Rows.{JobState, JobRow, JobDb}
use agent_recall.Jobs.Store.{get_job, is_claimable, claimed, lease_expired, reaped}
use agent_recall.Jobs.Service.{Claim, claim, default_lease_ttl_ms}
use agent_recall.Jobs.Invariant.{IsConsistent}
use agent_recall.Jobs.Claim.{swept, claim_of, row_after_claim, claim_swept}

-- a time that is set and not in the future
abbrev pub is_past : Option ℕ → ℕ → Bool
is_past none now = false
is_past (some t) now = leb t now

-- no owner, no expiry, or an expiry that is past
abbrev pub has_no_lease : Option String → Option ℕ → ℕ → Bool
has_no_lease none expires now = true
has_no_lease (some owner) none now = true
has_no_lease (some owner) (some t) now = leb t now

-- which rows a claim may take: by state, lease owner, lease expiry and retry time
abbrev pub is_free : JobState → Option String → Option ℕ → Option ℕ → ℕ → Bool
is_free JobState.queued owner expires retry now = has_no_lease owner expires now
is_free JobState.failed owner expires retry now =
    is_past retry now && has_no_lease owner expires now
is_free JobState.running owner expires retry now = is_past expires now
is_free _ owner expires retry now = false

abbrev pub may_take : ℕ → JobRow → Bool
may_take now row = is_free row.state row.lease_owner row.lease_expires_at row.next_retry_at now

-- the row under its new worker, column by column
abbrev pub taken : String → ℕ → ℕ → JobRow → JobRow
taken owner expires now row = record {
  job_id = row.job_id;
  kind = row.kind;
  state = JobState.running;
  scope = row.scope;
  project_id = row.project_id;
  creator_actor_id = row.creator_actor_id;
  idempotency_key = row.idempotency_key;
  input_digest = row.input_digest;
  config_digest = row.config_digest;
  cursor_json = row.cursor_json;
  attempt_count = row.attempt_count + 1;
  lease_owner = some owner;
  lease_expires_at = some expires;
  cancel_requested_at = row.cancel_requested_at;
  next_retry_at = row.next_retry_at;
  error_code = row.error_code;
  redacted_error = row.redacted_error;
  created_at = row.created_at;
  started_at = some (get_or row.started_at now);
  updated_at = now;
  finished_at = row.finished_at;
}

claimable_free : (now : ℕ) (row : JobRow) → is_claimable now (swept now row) ≡ may_take now row
unfolding reaped
claimable_free now row = elim (Bool-cases (lease_expired now row)) [
  | inl e ↦ rw e (ground arith)
  | inr e ↦ rw e (ground arith)
]

claimed-taken :
    (owner : String) (expires now : ℕ) (row : JobRow)
    → claimed owner expires now now (swept now row) ≡ taken owner expires now row
unfolding claimed reaped
claimed-taken owner expires now row = elim (Option-cases row.started_at) [
  | inl k ↦ elim (Bool-cases (lease_expired now row)) [
    | inl e ↦ rw (e, k) refl
    | inr e ↦ rw (e, k) refl
  ]
  | inr (t, k) ↦ elim (Bool-cases (lease_expired now row)) [
    | inl e ↦ rw (e, k) refl
    | inr e ↦ rw (e, k) refl
  ]
]

-- a row that is refused is not swept either
refused_same : (now : ℕ) (row : JobRow) → may_take now row ≡ false → swept now row ≡ row
refused_same now row h = elim (Bool-cases (lease_expired now row)) [
  | inl e ↦ absurd (ground arith)
  | inr e ↦ rw e refl
]

-- the reply for the row under the id, or for none
abbrev pub taken_reply : String → ℕ → ℕ → Option JobRow → Option Claim
taken_reply owner expires now none = none
taken_reply owner expires now (some row) =
    if may_take now row
    then some (record { job = taken owner expires now row; lease_expires_at = expires })
    else none

-- the stored row afterwards
abbrev pub after_take : String → ℕ → ℕ → JobRow → JobRow
after_take owner expires now row = if may_take now row then taken owner expires now row else row

reply_taken :
    (owner : String) (expires now : ℕ) (row : Option JobRow)
    → claim_of owner expires now row ≡ taken_reply owner expires now row
reply_taken owner expires now none = refl
reply_taken owner expires now (some row) =
    rw (claimable_free now row, claimed-taken owner expires now row) refl

stored_taken :
    (id owner : String) (ttl : Option ℕ) (now : ℕ) (db : JobDb) (row : Option JobRow)
    → Option.map (row_after_claim id owner ttl now db) row
      ≡ Option.map (after_take owner (now + get_or ttl default_lease_ttl_ms) now) row
stored_taken id owner ttl now db none = refl
stored_taken id owner ttl now db (some row) = elim (Bool-cases (may_take now row)) [
  | inl e ↦
      rw
        (
          claimable_free now row,
          e,
          claimed-taken owner (now + get_or ttl default_lease_ttl_ms) now row,
        )
        refl
  | inr e ↦ rw (claimable_free now row, e, refused_same now row e) refl
]

-- On consistent tables a claim never throws. It takes a queued job without a live lease, a failed one
-- whose retry time has come and that has no live lease, and a running one whose lease is over; it refuses
-- any other job and an unknown id as not claimable. A job that is taken is returned and stored running
-- under the new owner and expiry with one more attempt, and with its first start or else this one; its
-- other columns but `updated_at` are as before. A job that is refused is stored as before.
pub claim_lem :
    (id owner : String) (ttl : Option ℕ) (now : ℕ) (db : JobDb)
    → IsConsistent db
    → let expires = now + get_or ttl default_lease_ttl_ms in
      ((claim id owner ttl now db).0 ≡ returned (taken_reply owner expires now (get_job id db)))
      × (get_job id (claim id owner ttl now db).1
          ≡ Option.map (after_take owner expires now) (get_job id db))
claim_lem id owner ttl now db c =
    let (value, stored) = claim_swept id owner ttl now db c in
    (
      value ∙ ap returned (reply_taken owner _ now (get_job id db)),
      stored ∙ stored_taken id owner ttl now db (get_job id db),
    )
