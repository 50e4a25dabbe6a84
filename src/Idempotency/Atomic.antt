-- ===== src/Idempotency/Atomic.antt =====
-- What a call leaves in the tables when it returns and when it throws.
use agent_recall.Common.{
  ℕ, String, true, false, Option, none, some, List, [], ◌∷◌, ◌≡◌, refl, sym, ◌∙◌, str_eq, eq_refl,
  Bool-cases, inl, inr, ap,
}
use agent_recall.Common.Effect.{Outcome, returned, thrown, continue_with}
use agent_recall.Common.Table.{update_where, exists_where}
use agent_recall.Idempotency.Rows.{
  completed, RequestRow, Db, Args, has_args, reserved_row, row_completed, try_reserve,
  complete_request, lookup_request, close_transaction,
}
use agent_recall.Idempotency.Service.{
  Hit, fresh, in_flight, Json, Work, Call, reserve, hit_of, replay_of, is_fresh, complete_fresh,
  mutation, run_with_idempotent_mutation, run_calls,
}
use agent_recall.Common.{All, All-mono, ◌≢◌}
use agent_recall.Idempotency.Service.{try_replay_only}
use agent_recall.Common.Table.{All-insert_row, All-first_where}
use agent_recall.Idempotency.Replay.Kept.{run-closed, depth-run}

abbrev pub AllCompleted : {Tables : Type 0} → Db Tables → Type 0
AllCompleted db = All (λ row. row.state ≡ completed) db.requests

-- every row but that of the call is completed
abbrev OthersCompleted : Args → List RequestRow → Type 0
OthersCompleted args rows = All (λ row. has_args args row ≡ false → row.state ≡ completed) rows

update_where-All :
    (args : Args) (text : String) (now : ℕ) (rows : List RequestRow)
    → OthersCompleted args rows
    → All
        (λ row. row.state ≡ completed)
        (update_where (has_args args) (row_completed text now) rows)
unfolding update_where
update_where-All args text now [] h = tt
update_where-All args text now (row ∷ rows) h = elim (Bool-cases (has_args args row)) [
  | inl e ↦ (rw e refl, update_where-All args text now rows h.1)
  | inr e ↦ (rw e (h.0 e), update_where-All args text now rows h.1)
]

has_args_reserved : (args : Args) (now : ℕ) → has_args args (reserved_row args now) ≡ true
has_args_reserved args now = rw (eq_refl args.actor, eq_refl args.tool, eq_refl args.key) refl

replay_not_in_flight : {T : Type 0} (o : Option T) → replay_of o ≡ in_flight → ⊥
replay_not_in_flight none h = cc
replay_not_in_flight (some result) h = cc

not_in_flight :
    {T : Type 0} (json : Json T) (args : Args) (found : Option RequestRow)
    → ((row : RequestRow) → found ≡ some row → row.state ≡ completed)
    → hit_of json args found ≡ in_flight
    → ⊥
not_in_flight json args none done h = cc
not_in_flight json args (some row) done h =
    elim (Bool-cases (str_eq row.request_hash args.request_hash)) [
      | inr e ↦ cc (rw e at h)
      | inl e ↦ replay_not_in_flight (json.parse row.result_json) (rw (e, done row refl) at h)
    ]

module _ {Tables E T : Type 0} (json : Json T) where
  -- A call outside a transaction that throws leaves the requests and all other tables as they were.
  pub throw_rolls_back :
      (args : Args) (work : Work Tables E T) (now : ℕ) (e : E) (db db1 : Db Tables)
      → db.transaction_depth ≡ 0
      → run_with_idempotent_mutation json args work now db ≡ (thrown e, db1)
      → (db1.requests ≡ db.requests) × (db1.tables ≡ db.tables)
  throw_rolls_back args work now e db db1 depth h =
      rolled_back _ (sym (run-closed json args work now db depth) ∙ h)
    where
      rolled_back :
          (answer : Outcome E T × Db Tables)
          → close_transaction db answer ≡ (thrown e, db1)
          → (db1.requests ≡ db.requests) × (db1.tables ≡ db.tables)
      rolled_back (returned r, after) k = absurd (cc)
      rolled_back (thrown e', after) k = (
        sym (ap (λ (p : Outcome E T × Db Tables). p.1.requests) k),
        sym (ap (λ (p : Outcome E T × Db Tables). p.1.tables) k),
      )

  finished :
      (args : Args) (now : ℕ) (hit : Hit T) (o : Outcome E T) (before db : Db Tables)
      → AllCompleted before
      → OthersCompleted args db.requests
      → (is_fresh hit ≡ false → AllCompleted db)
      → AllCompleted
          (close_transaction before
            (continue_with o db (λ r. complete_fresh json args hit r now))).1
  unfolding complete_request
  finished args now hit (thrown e) before db c others rest = c
  finished args now hit (returned r) before db c others rest = elim (Bool-cases (is_fresh hit)) [
    | inl e ↦ rw e (update_where-All args (json.stringify r) now db.requests others)
    | inr e ↦ rw e (rest e)
  ]

  run-AllCompleted :
      (args : Args) (work : Work Tables E T) (now : ℕ) (db : Db Tables)
      → db.transaction_depth ≡ 0
      → AllCompleted db
      → AllCompleted (run_with_idempotent_mutation json args work now db).1
  unfolding mutation reserve try_reserve
  run-AllCompleted args work now db depth c =
      rw (run-closed json args work now db depth)
        (elim (Bool-cases (exists_where (has_args args) db.requests)) [
          | inl e ↦ rw e (
              finished args now (hit_of json args (lookup_request args db)) _ db _ c
                (All-mono db.requests (λ row h _. h) c) (λ _. c))
          | inr e ↦ rw e (
              finished args now fresh _ db _ c
                (All-insert_row _ (reserved_row args now) db.requests
                  (All-mono db.requests (λ row h _. h) c)
                  (λ k. absurd (cc (k, has_args_reserved args now))))
                (λ k. absurd (cc)))
        ])

  calls-AllCompleted :
      (calls : List (Call Tables E T)) (db : Db Tables)
      → db.transaction_depth ≡ 0
      → AllCompleted db
      → AllCompleted (run_calls json calls db)
  unfolding run_calls
  calls-AllCompleted [] db depth c = c
  calls-AllCompleted (call ∷ calls) db depth c =
      calls-AllCompleted calls (run_with_idempotent_mutation json call.args call.work call.now db).1
        (depth-run json call.args call.work call.now db depth)
        (run-AllCompleted call.args call.work call.now db depth c)

  -- From a table without pending requests, no sequence of calls, which may throw, leaves a pending
  -- request, and the probe answers `in_flight` to no request.
  pub never_in_flight :
      (calls : List (Call Tables E T)) (args : Args) (db : Db Tables)
      → db.transaction_depth ≡ 0
      → AllCompleted db
      → AllCompleted (run_calls json calls db)
        × (try_replay_only json args (run_calls json calls db) ≢ in_flight)
  unfolding try_replay_only
  never_in_flight calls args db depth c =
      let after = calls-AllCompleted calls db depth c in
      (
        after,
        not_in_flight json args (lookup_request args (run_calls json calls db))
            (λ row h. All-first_where _ (has_args args) _ row after h),
      )
