-- ===== src/Idempotency/Service.antt =====
-- `reserveIdempotency`, `completeIdempotency`, `runWithIdempotentMutation` and `tryReplayOnly` of
-- src/services/idempotency.ts. The clock is an argument.
use agent_recall.Common.{
  ℕ, String, Bool, true, false, not, Option, none, some, if◌then◌else◌, str_eq, List, [], ◌∷◌,
}
use agent_recall.Common.Effect.{Effect, returned, ◌>>=◌, stateful}
use agent_recall.Idempotency.Rows.{
  RequestRow, Db, Args, request_pending, try_reserve, complete_request, lookup_request, transaction,
}

pub data Hit (T : Type 0) : Type 0 where
  fresh rejected in_flight : Hit T
  replay : T → Hit T

abbrev pub is_fresh : {T : Type 0} → Hit T → Bool
is_fresh fresh = true
is_fresh _ = false

-- JSON: `parse` takes the column `result_json`, NULL too, and is `none` where `JSON.parse` throws
pub record Json (T : Type 0) : Type 0 where
  pub parse : Option String → Option T
  pub stringify : T → String

-- the callback, on the tables other than the requests
abbrev pub Work : Type 0 → Type 0 → Type 0 → Type 0
Work Tables E T = Hit T → Effect Tables E T

abbrev pub replay_of : {T : Type 0} → Option T → Hit T
replay_of none = fresh
replay_of (some result) = replay result

-- a call of some caller
pub record Call (Tables E T : Type 0) : Type 0 where
  pub args : Args
  pub work : Work Tables E T
  pub now : ℕ

module _ {T : Type 0} (json : Json T) where
  -- the classification of `reserveIdempotency`
  abbrev pub hit_of : Args → Option RequestRow → Hit T
  hit_of args none = fresh
  hit_of args (some row) =
      if not (str_eq row.request_hash args.request_hash)
      then rejected
      else if request_pending row.state
      then in_flight
      else replay_of (json.parse row.result_json)

  -- the classification of `tryReplayOnly`, which the source writes out again
  abbrev pub probed_hit : Args → Option RequestRow → Hit T
  probed_hit args none = fresh
  probed_hit args (some row) =
      if not (str_eq row.request_hash args.request_hash)
      then rejected
      else if request_pending row.state
      then in_flight
      else elim (json.parse row.result_json) [ none ↦ fresh | some result ↦ replay result ]

module _ {Tables T : Type 0} (json : Json T) where
  unfoldable pub reserve : Args → ℕ → Db Tables → Hit T × Db Tables
  unfolding try_reserve
  reserve args now db =
      let inserted = try_reserve args now db in
      if inserted.0
      then (fresh, inserted.1)
      else (hit_of json args (lookup_request args inserted.1), inserted.1)

  unfoldable pub try_replay_only : Args → Db Tables → Hit T
  try_replay_only args db = probed_hit json args (lookup_request args db)

  abbrev pub complete_mutation : Args → T → ℕ → Db Tables → Db Tables
  complete_mutation args result now = complete_request args (json.stringify result) now

module _ {Tables E T : Type 0} where
  -- the callback runs on the open connection
  abbrev pub on_tables : Effect Tables E T → Effect (Db Tables) E T
  on_tables work db = ((work db.tables).0, record db { tables = (work db.tables).1 })

module _ {Tables E T : Type 0} (json : Json T) where
  abbrev pub complete_fresh : Args → Hit T → T → ℕ → Effect (Db Tables) E T
  complete_fresh args hit result now db =
      (returned result, if is_fresh hit then complete_mutation json args result now db else db)

  unfoldable pub mutation : Args → Work Tables E T → ℕ → Effect (Db Tables) E T
  unfolding reserve complete_request
  mutation args work now = do
    hit ← stateful (reserve json args now)
    result ← on_tables (work hit)
    complete_fresh args hit result now

  unfoldable pub run_with_idempotent_mutation : Args → Work Tables E T → ℕ → Effect (Db Tables) E T
  unfolding mutation transaction
  run_with_idempotent_mutation args work now = transaction (mutation args work now)

  -- calls one after another, whether they return or throw
  unfoldable pub run_calls : List (Call Tables E T) → Db Tables → Db Tables
  unfolding run_with_idempotent_mutation
  run_calls [] db = db
  run_calls (call ∷ calls) db =
      run_calls calls (run_with_idempotent_mutation call.args call.work call.now db).1
