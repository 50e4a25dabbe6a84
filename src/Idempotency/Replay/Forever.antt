-- ===== src/Idempotency/Replay/Forever.antt =====
-- Calls with the key of a mutation that returned.
use agent_recall.Common.{
  ℕ, true, none, some, List, [], ◌∷◌, ◌≡◌, refl, sym, ◌∙◌, eq_refl, ap, subst,
}
use agent_recall.Common.Effect.{Outcome, returned, thrown, continue_with}
use agent_recall.Common.Table.{
  insert_row, first_where-update_where, first_where-insert_row, none-exists_where,
}
use agent_recall.Idempotency.Rows.{
  RequestRow, Db, Args, has_args, reserved_row, row_completed, try_reserve, complete_request,
  lookup_request, transaction, close_transaction,
}
use agent_recall.Idempotency.Service.{
  fresh, Json, Work, Call, reserve, on_tables, complete_fresh, mutation,
  run_with_idempotent_mutation, run_calls,
}
use agent_recall.Idempotency.Replay.{Stored, SameKey, stored_hit}
use agent_recall.Idempotency.Replay.Kept.{mutation-Stored, run-keeps, run-closed, depth-run}

-- the row of a call that returned
abbrev first_row : {T : Type 0} → Json T → Args → T → ℕ → RequestRow
first_row json args result now = row_completed (json.stringify result) now (reserved_row args now)

has_args_refl : (args : Args) (now : ℕ) → has_args args (reserved_row args now) ≡ true
has_args_refl args now = rw (eq_refl args.actor, eq_refl args.tool, eq_refl args.key) refl

module _ {Tables E T : Type 0} (json : Json T) where
  -- the outcome of the callback decides that of the call
  first_answer :
      (args : Args) (now : ℕ) (result : T) (o : Outcome E T) (db db1 after : Db Tables)
      → lookup_request args db ≡ some (reserved_row args now)
      → close_transaction after (continue_with o db (λ r. complete_fresh json args fresh r now))
        ≡ (returned result, db1)
      → lookup_request args db1 ≡ some (first_row json args result now)
  unfolding complete_request
  first_answer args now result (thrown e) db db1 after found h = absurd (cc)
  first_answer args now result (returned r) db db1 after found h =
      let same : r ≡ result = cc in
      let stored : lookup_request args (complete_request args (json.stringify r) now db)
          ≡ some (first_row json args r now) =
        first_where-update_where (has_args args) (has_args args)
          (row_completed (json.stringify r) now) db.requests (λ x _. refl)
        ∙ rw (found, has_args_refl args now) refl in
      let requests = ap (λ (p : Outcome E T × Db Tables). p.1.requests) h in
      rw (sym requests, sym same) stored

  run-Stored :
      (args : Args) (work : Work Tables E T) (now : ℕ) (result : T) (db db1 : Db Tables)
      → db.transaction_depth ≡ 0
      → lookup_request args db ≡ none
      → run_with_idempotent_mutation json args work now db ≡ (returned result, db1)
      → json.parse (some (json.stringify result)) ≡ some result
      → Stored json args result (first_row json args result now) db1
  unfolding mutation reserve try_reserve
  run-Stored args work now result db db1 depth fresh_key h trip =
      let absent = none-exists_where (has_args args) db.requests fresh_key in
      record {
        found =
            first_answer args now result (work fresh db.tables).0
              (record db {
                requests = insert_row (reserved_row args now) db.requests;
                tables = (work fresh db.tables).1;
                transaction_depth = 1;
              })
              db1 db
              (first_where-insert_row (has_args args) (reserved_row args now) db.requests
                ∙ rw (fresh_key, has_args_refl args now) refl)
              (rw absent at (sym (run-closed json args work now db depth) ∙ h));
        hash = refl;
        state = refl;
        parses = trip;
      }

  calls-keep :
      (args : Args) (row : RequestRow) (result : T) (calls : List (Call Tables E T))
      (db : Db Tables)
      → db.transaction_depth ≡ 0
      → Stored json args result row db
      → ((run_calls json calls db).transaction_depth ≡ 0)
        × Stored json args result row (run_calls json calls db)
  unfolding run_calls
  calls-keep args row result [] db depth s = (depth, s)
  calls-keep args row result (call ∷ calls) db depth s =
      calls-keep args row result calls
        (run_with_idempotent_mutation json call.args call.work call.now db).1
        (depth-run json call.args call.work call.now db depth)
        (run-keeps json args row call result db depth s)

  -- A call with a new key, outside a transaction, returned a result. Whatever calls come after it,
  -- with any keys and callbacks, a further call with its actor, tool and key runs its callback in a
  -- transaction with the stored result where the request hash is the same, and with `rejected`
  -- where it is not, and writes no request. A result reads back from its JSON text.
  pub replay_forever :
      (args retry : Args) (work again : Work Tables E T) (now later : ℕ) (result : T)
      (db db1 : Db Tables) (calls : List (Call Tables E T))
      → db.transaction_depth ≡ 0
      → lookup_request args db ≡ none
      → run_with_idempotent_mutation json args work now db ≡ (returned result, db1)
      → json.parse (some (json.stringify result)) ≡ some result
      → SameKey retry args
      → run_with_idempotent_mutation json retry again later (run_calls json calls db1)
        ≡ transaction
            (on_tables (again (stored_hit args.request_hash retry result)))
            (run_calls json calls db1)
  unfolding transaction
  replay_forever args retry work again now later result db db1 calls depth new_key h trip same =
      let closed : db1.transaction_depth ≡ 0 =
        subst (λ (p : Outcome E T × Db Tables). p.1.transaction_depth ≡ 0) h
          (depth-run json args work now db depth) in
      let kept =
        calls-keep args (first_row json args result now) result calls db1 closed
          (run-Stored args work now result db db1 depth new_key h trip) in
      run-closed json retry again later (run_calls json calls db1) kept.0
      ∙ rw
          (
            mutation-Stored json args retry again result (first_row json args result now) later
                (record (run_calls json calls db1) { transaction_depth = 1 }) same
                (record {
                  found = kept.1.found;
                  hash = kept.1.hash;
                  state = kept.1.state;
                  parses = kept.1.parses;
                }),
            kept.0,
          )
          refl
