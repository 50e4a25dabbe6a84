-- ===== src/Idempotency/Probe.antt =====
-- The probe that reads only, and the reservation.
use agent_recall.Common.{ℕ, Option, none, some, Option-cases, ◌≡◌, refl, Bool-cases, inl, inr}
use agent_recall.Common.Table.{exists_where, first_where-none}
use agent_recall.Idempotency.Rows.{Db, Args, RequestRow, has_args, lookup_request, try_reserve}
use agent_recall.Idempotency.Service.{Json, hit_of, probed_hit, reserve, try_replay_only}

module _ {T : Type 0} (json : Json T) where
  -- the two copies of the classification, on each row
  pub probed_hit_lem :
      (args : Args) (found : Option RequestRow)
      → probed_hit json args found ≡ hit_of json args found
  probed_hit_lem args none = refl
  probed_hit_lem args (some row) = elim (Option-cases (json.parse row.result_json)) [
    | inl e ↦ rw e refl
    | inr (result, e) ↦ rw e refl
  ]

module _ {Tables T : Type 0} (json : Json T) where
  -- `tryReplayOnly` and `reserveIdempotency`, which each have their own code for it, classify every request
  -- on every table in the same way.
  pub probe_agrees :
      (args : Args) (now : ℕ) (db : Db Tables)
      → try_replay_only json args db ≡ (reserve json args now db).0
  unfolding try_replay_only reserve try_reserve
  probe_agrees args now db = elim (Bool-cases (exists_where (has_args args) db.requests)) [
    | inl e ↦ rw e (probed_hit_lem json args (lookup_request args db))
    | inr e ↦ rw (e, first_where-none (has_args args) db.requests e) refl
  ]
