-- ===== src/Idempotency/Replay/Kept.antt =====
-- The request of a mutation that returned, under further calls.
use agent_recall.Common.{ℕ, String, false, some, ◌≡◌, refl, ◌∙◌, str_eq, Bool-cases, inl, inr}
use agent_recall.Common.Effect.{Outcome, returned, thrown, continue_with}
use agent_recall.Common.Table.{
  exists_where, first_where-update_where, first_where-insert_row, first_where_sound,
}
use agent_recall.Idempotency.Rows.{
  RequestRow, Db, Args, has_args, reserved_row, row_completed, try_reserve, complete_request,
  lookup_request, transaction, close_transaction,
}
use agent_recall.Idempotency.Service.{
  Hit, Json, Work, Call, reserve, is_fresh, on_tables, complete_fresh, mutation,
  run_with_idempotent_mutation,
}
use agent_recall.Idempotency.Replay.{Stored, SameKey, has_args_same, stored_hit, reserve-Stored}

-- what follows a callback whose result is not stored
pub complete_nothing :
    {S E T : Type 0} (o : Outcome E T) (s : S)
    → continue_with {S = S} {E = E} {A = T} {B = T} o s (λ result db. (returned result, db))
      ≡ (o, s)
complete_nothing (returned result) s = refl
complete_nothing (thrown e) s = refl

module _ {Tables E T : Type 0} (json : Json T) where
  pub mutation-Stored :
      (args retry : Args) (work : Work Tables E T) (result : T) (row : RequestRow) (now : ℕ)
      (db : Db Tables)
      → SameKey retry args
      → Stored json args result row db
      → mutation json retry work now db
        ≡ on_tables (work (stored_hit args.request_hash retry result)) db
  unfolding mutation
  mutation-Stored args retry work result row now db same s =
      rw (reserve-Stored json args retry result row now db same s)
        (elim (Bool-cases (str_eq args.request_hash retry.request_hash)) [
          | inl e ↦ rw e (complete_nothing _ _)
          | inr e ↦ rw e (complete_nothing _ _)
        ])

module _ {Tables T : Type 0} (json : Json T) where
  reserve-keeps :
      (args other : Args) (row : RequestRow) (now : ℕ) (db : Db Tables)
      → lookup_request args db ≡ some row
      → lookup_request args (reserve json other now db).1 ≡ some row
  unfolding reserve try_reserve
  reserve-keeps args other row now db found =
      elim (Bool-cases (exists_where (has_args other) db.requests)) [
        | inl e ↦ rw e found
        | inr e ↦ rw e (
            first_where-insert_row (has_args args) (reserved_row other now) db.requests
            ∙ rw found refl)
      ]

  complete_mutation-keeps :
      (args other : Args) (text : String) (row : RequestRow) (now : ℕ) (db : Db Tables)
      → lookup_request args db ≡ some row
      → has_args other row ≡ false
      → lookup_request args (complete_request other text now db) ≡ some row
  unfolding complete_request
  complete_mutation-keeps args other text row now db found miss =
      first_where-update_where (has_args args) (has_args other) (row_completed text now) db.requests
        (λ x _. refl)
      ∙ rw (found, miss) refl

module _ {Tables E T : Type 0} (json : Json T) where
  after_work-keeps :
      (args other : Args) (row : RequestRow) (now : ℕ) (hit : Hit T) (o : Outcome E T)
      (db : Db Tables)
      → lookup_request args db ≡ some row
      → has_args other row ≡ false
      → lookup_request args (continue_with o db (λ r. complete_fresh json other hit r now)).1
        ≡ some row
  after_work-keeps args other row now hit (thrown e) db found miss = found
  after_work-keeps args other row now hit (returned r) db found miss =
      elim (Bool-cases (is_fresh hit)) [
        | inl e ↦
            rw e (complete_mutation-keeps json args other (json.stringify r) row now db found miss)
        | inr e ↦ rw e found
      ]

  mutation-keeps :
      (args other : Args) (work : Work Tables E T) (row : RequestRow) (now : ℕ) (db : Db Tables)
      → lookup_request args db ≡ some row
      → has_args other row ≡ false
      → lookup_request args (mutation json other work now db).1 ≡ some row
  unfolding mutation
  mutation-keeps args other work row now db found miss =
      after_work-keeps args other row now _ _ _ (reserve-keeps json args other row now db found)
        miss

  close-keeps :
      (args : Args) (row : RequestRow) (before : Db Tables) (answer : Outcome E T × Db Tables)
      → lookup_request args before ≡ some row
      → lookup_request args answer.1 ≡ some row
      → lookup_request args (close_transaction before answer).1 ≡ some row
  close-keeps args row before (returned r, after) h k = k
  close-keeps args row before (thrown e, after) h k = h

  pub close-depth :
      (before : Db Tables) (answer : Outcome E T × Db Tables)
      → (close_transaction before answer).1.transaction_depth ≡ 0
  close-depth before (returned r, after) = refl
  close-depth before (thrown e, after) = refl

  pub run-closed :
      (args : Args) (work : Work Tables E T) (now : ℕ) (db : Db Tables)
      → db.transaction_depth ≡ 0
      → run_with_idempotent_mutation json args work now db
        ≡ close_transaction db (mutation json args work now (record db { transaction_depth = 1 }))
  unfolding run_with_idempotent_mutation transaction
  run-closed args work now db h = rw h refl

  pub depth-run :
      (args : Args) (work : Work Tables E T) (now : ℕ) (db : Db Tables)
      → db.transaction_depth ≡ 0
      → (run_with_idempotent_mutation json args work now db).1.transaction_depth ≡ 0
  depth-run args work now db depth =
      rw (run-closed args work now db depth)
        (close-depth db (mutation json args work now (record db { transaction_depth = 1 })))

  pub run-keeps :
      (args : Args) (row : RequestRow) (call : Call Tables E T) (result : T) (db : Db Tables)
      → db.transaction_depth ≡ 0
      → Stored json args result row db
      → Stored json args result row
          (run_with_idempotent_mutation json call.args call.work call.now db).1
  run-keeps args row call result db depth s = record {
    found = rw (run-closed call.args call.work call.now db depth) (
        close-keeps args row db
          (mutation json call.args call.work call.now (record db { transaction_depth = 1 })) s.found
          (elim (Bool-cases (has_args call.args row)) [
            | inr e ↦
                mutation-keeps args call.args call.work row call.now
                  (record db { transaction_depth = 1 }) s.found e
            | inl e ↦
                rw
                  (mutation-Stored json args call.args call.work result row call.now
                    (record db { transaction_depth = 1 })
                    (has_args_same call.args args row e
                      (first_where_sound (has_args args) db.requests row s.found))
                    (record { found = s.found; hash = s.hash; state = s.state; parses = s.parses }))
                  s.found
          ]));
    hash = s.hash;
    state = s.state;
    parses = s.parses;
  }
