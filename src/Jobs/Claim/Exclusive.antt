-- ===== src/Jobs/Claim/Exclusive.antt =====
-- Leases as the workers see them, before and after the expiry.
use agent_recall.Common.{
  ℕ, ◌+◌, ◌<◌, ◌≤◌, String, true, false, Option, none, some, List, ◌≡◌, refl, ◌∙◌, arith, get_or,
  eq_iff,
}
use agent_recall.Common.Effect.{returned}
use agent_recall.Common.Table.{first_where_sound}
use agent_recall.Jobs.Rows.{JobRow, JobDb, has_id}
use agent_recall.Jobs.Store.{get_job, is_claimable, claimed, reaped}
use agent_recall.Jobs.Service.{claim, default_lease_ttl_ms}
use agent_recall.Jobs.Ops.{Op, run_ops}
use agent_recall.Jobs.Invariant.{IsConsistent}
use agent_recall.Jobs.Invariant.Preserved.{run_ops-IsConsistent}
use agent_recall.Jobs.Lease.{IsLeased, Holds, AllRespect, run_ops-Holds}
use agent_recall.Jobs.Claim.{swept, claim_swept}

-- a running row with a live lease is not claimable, and one with an expired lease is
live_not_claimable :
    (id owner : String) (expires now : ℕ) (row : JobRow)
    → IsLeased id owner expires row
    → now < expires
    → is_claimable now (swept now row) ≡ false
unfolding reaped
live_not_claimable id owner expires now row h early = ground arith

late_claimable :
    (id owner : String) (expires now : ℕ) (row : JobRow)
    → IsLeased id owner expires row
    → expires ≤ now
    → is_claimable now (swept now row) ≡ true
unfolding reaped
late_claimable id owner expires now row h late = ground arith

-- what a successful claim stores
stored_lease :
    (id owner : String) (ttl : Option ℕ) (now : ℕ) (row : JobRow)
    → has_id id row ≡ true
    → IsLeased id owner
        (now + get_or ttl default_lease_ttl_ms)
        (claimed owner (now + get_or ttl default_lease_ttl_ms) now now (swept now row))
unfolding claimed reaped
stored_lease id owner ttl now row h = ground (arith, eq_iff row.job_id id)

attempts_after :
    (owner : String) (expires now : ℕ) (row : JobRow)
    → (claimed owner expires now now (swept now row)).attempt_count ≡ row.attempt_count + 1
unfolding claimed reaped
attempts_after owner expires now row = ground arith

-- the worker holds the lease, on the row that the claim returned, with one more attempt than before
pub record Taken (id owner : String) (ttl : Option ℕ) (now : ℕ) (db : JobDb) (attempts : ℕ)
    : Type 0 where
  pub holds : Holds id owner (now + get_or ttl default_lease_ttl_ms) (claim id owner ttl now db).1
  pub reply :
      (claim id owner ttl now db).0
      ≡ returned (
          some
            (record { job = holds.row; lease_expires_at = now + get_or ttl default_lease_ttl_ms }))
  pub counted : holds.row.attempt_count ≡ attempts + 1

take_lease :
    (id owner : String) (ttl : Option ℕ) (now : ℕ) (db : JobDb) (row : JobRow)
    → IsConsistent db
    → get_job id db ≡ some row
    → is_claimable now (swept now row) ≡ true
    → Taken id owner ttl now db row.attempt_count
take_lease id owner ttl now db row c found ready =
    let (value, stored) = claim_swept id owner ttl now db c in
    record {
      holds = record {
        row = claimed owner (now + get_or ttl default_lease_ttl_ms) now now (swept now row);
        found = stored ∙ rw (found, ready) refl;
        leased =
            stored_lease id owner ttl now row (first_where_sound (has_id id) db.jobs row found);
      };
      reply = value ∙ rw (found, ready) refl;
      counted = attempts_after owner _ now row;
    }

-- A job whose worker let its lease run out goes to the next worker that claims it: the claim
-- returns the job, which is stored running under the new owner and expiry, with one more attempt.
pub claim_takes_over :
    (id worker owner : String) (expires : ℕ) (ttl : Option ℕ) (now : ℕ) (db : JobDb)
    → IsConsistent db
    → (h : Holds id worker expires db) → expires ≤ now
    → Taken id owner ttl now db h.row.attempt_count
claim_takes_over id worker owner expires ttl now db c h late =
    take_lease id owner ttl now db h.row c h.found
      (late_claimable id worker expires now h.row h.leased late)

-- While a lease lasts it is exclusive. After any schedule of operations that come before its end,
-- do not end the job and do not renew the lease in the owner's name, the owner still holds the job
-- under the same expiry, and a claim by any worker before the expiry is refused as not claimable.
pub lease_exclusive :
    (redact : Option String → String) (id owner other : String) (expires : ℕ) (ttl : Option ℕ)
    (now : ℕ) (ops : List Op) (db : JobDb)
    → IsConsistent db
    → Holds id owner expires db
    → AllRespect id owner expires ops
    → now < expires
    → Holds id owner expires (run_ops redact ops db)
      × ((claim id other ttl now (run_ops redact ops db)).0 ≡ returned none)
lease_exclusive redact id owner other expires ttl now ops db c h r early =
    let after = run_ops-Holds id owner expires redact ops db r h in
    (
      after,
      (claim_swept id other ttl now _ (run_ops-IsConsistent redact ops db c)).0
          ∙ rw (after.found, live_not_claimable id owner expires now after.row after.leased early)
              refl,
    )
