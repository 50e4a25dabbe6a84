-- ===== src/Idempotency/Rows.antt =====
-- `mutation_requests_v2` and the transactions of src/sqlite-store.ts.
use agent_recall.Common.{
  ℕ, String, Bool, true, false, ◌&&◌, Option, none, some, List, ltb, if◌then◌else◌, str_eq,
}
use agent_recall.Common.Effect.{Effect, Outcome, returned, thrown}
use agent_recall.Common.Table.{first_where, update_where, exists_where, insert_row}

pub data RequestState : Type 0 where
  pending completed : RequestState

abbrev pub request_pending : RequestState → Bool
request_pending pending = true
request_pending completed = false

pub record RequestRow : Type 0 where
  pub actor_id : String
  pub tool_name : String
  pub idempotency_key : String
  pub state : RequestState
  pub request_hash : String
  pub result_json : Option String
  pub request_id : String
  pub created_at : ℕ
  pub completed_at : Option ℕ

-- the store: the requests, every other table, and the depth of the open transactions
pub record Db (Tables : Type 0) : Type 0 where
  pub requests : List RequestRow
  pub tables : Tables
  pub transaction_depth : ℕ

-- the arguments of a mutation
pub record Args : Type 0 where
  pub actor : String
  pub tool : String
  pub key : String
  pub request_hash : String
  pub request_id : String

-- the primary key
abbrev pub has_args : Args → RequestRow → Bool
has_args args row =
    str_eq row.actor_id args.actor
    && str_eq row.tool_name args.tool
    && str_eq row.idempotency_key args.key

abbrev pub reserved_row : Args → ℕ → RequestRow
reserved_row args now = record {
  actor_id = args.actor;
  tool_name = args.tool;
  idempotency_key = args.key;
  state = pending;
  request_hash = args.request_hash;
  result_json = none;
  request_id = args.request_id;
  created_at = now;
  completed_at = none;
}

abbrev pub row_completed : String → ℕ → RequestRow → RequestRow
row_completed result_json now row = record row {
  state = completed;
  result_json = some result_json;
  completed_at = some now;
}

module _ {Tables : Type 0} where
  unfoldable pub try_reserve : Args → ℕ → Db Tables → Bool × Db Tables
  try_reserve args now db =
      if exists_where (has_args args) db.requests
      then (false, db)
      else (true, record db { requests = insert_row (reserved_row args now) db.requests })

  unfoldable pub complete_request : Args → String → ℕ → Db Tables → Db Tables
  complete_request args result_json now db = record db {
    requests = update_where (has_args args) (row_completed result_json now) db.requests;
  }

  abbrev pub lookup_request : Args → Db Tables → Option RequestRow
  lookup_request args db = first_where (has_args args) db.requests

module _ {Tables E A : Type 0} where
  -- COMMIT, or ROLLBACK to the tables before
  abbrev pub close_transaction : Db Tables → Outcome E A × Db Tables → Outcome E A × Db Tables
  close_transaction before (returned a, after) =
      (returned a, record after { transaction_depth = 0 })
  close_transaction before (thrown e, after) = (thrown e, record before { transaction_depth = 0 })

  unfoldable pub transaction : Effect (Db Tables) E A → Effect (Db Tables) E A
  transaction work db =
      if ltb 0 db.transaction_depth
      then work db
      else close_transaction db (work (record db { transaction_depth = 1 }))
