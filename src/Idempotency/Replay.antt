-- ===== src/Idempotency/Replay.antt =====
-- The stored request of a mutation that returned, and what a call with its key finds.
pub mod Kept
pub mod Forever
use agent_recall.Common.{
  ℕ, String, Bool, true, false, ◌&&◌, not, Option, none, some, List, [], ◌∷◌, ◌≡◌, refl, sym, ◌∙◌,
  arith, ltb, if◌then◌else◌, str_eq, eq_iff, eq_refl, Bool-cases, Option-cases, inl, inr, ap, subst,
}
use agent_recall.Common.Effect.{Effect, Outcome, returned, thrown, continue_with}
use agent_recall.Common.Table.{
  first_where, update_where, exists_where, insert_row, first_where-update_where,
  first_where-insert_row, first_where-none, first_where_sound, none-exists_where,
}
use agent_recall.Idempotency.Rows.{
  RequestState, pending, completed, RequestRow, Db, Args, has_args, reserved_row, row_completed,
  try_reserve, complete_request, lookup_request, transaction, close_transaction, request_pending,
}
use agent_recall.Idempotency.Service.{
  Hit, fresh, rejected, in_flight, replay, Json, Work, Call, reserve, hit_of, replay_of, is_fresh,
  on_tables, complete_mutation, complete_fresh, mutation, run_with_idempotent_mutation, run_calls,
}

-- the completed request of a mutation that returned `result`
pub record Stored {Tables T : Type 0} (json : Json T) (args : Args) (result : T) (row : RequestRow)
    (db : Db Tables) : Type 0 where
  pub found : lookup_request args db ≡ some row
  pub hash : row.request_hash ≡ args.request_hash
  pub state : row.state ≡ completed
  pub parses : json.parse row.result_json ≡ some result

abbrev pub SameKey : Args → Args → Type 0
SameKey a b = (a.actor ≡ b.actor) × ((a.tool ≡ b.tool) × (a.key ≡ b.key))

some_exists :
    {A : Type 0} (p : A → Bool) (xs : List A) (x : A)
    → first_where p xs ≡ some x
    → exists_where p xs ≡ true
unfolding first_where exists_where
some_exists p [] x h = cc
some_exists p (y ∷ ys) x h = ground (arith, some_exists p ys x)

-- the row that both keys find
pub has_args_same :
    (a b : Args) (row : RequestRow) → has_args a row ≡ true → has_args b row ≡ true → SameKey a b
has_args_same a b row h k = (
  sym ((eq_iff row.actor_id a.actor).0 (ground arith))
      ∙ (eq_iff row.actor_id b.actor).0 (ground arith),
  (
    sym ((eq_iff row.tool_name a.tool).0 (ground arith))
        ∙ (eq_iff row.tool_name b.tool).0 (ground arith),
    sym ((eq_iff row.idempotency_key a.key).0 (ground arith))
        ∙ (eq_iff row.idempotency_key b.key).0 (ground arith),
  ),
)

-- the hit for a request whose key is stored
abbrev pub stored_hit : {T : Type 0} → String → Args → T → Hit T
stored_hit stored_hash retry result =
    if str_eq stored_hash retry.request_hash then replay result else rejected

module _ {Tables T : Type 0} (json : Json T) where
  lookup-SameKey :
      (a b : Args) (db : Db Tables) → SameKey a b → lookup_request a db ≡ lookup_request b db
  lookup-SameKey a b db h = rw (h.0, h.1.0, h.1.1) refl

  pub reserve-Stored :
      (args retry : Args) (result : T) (row : RequestRow) (now : ℕ) (db : Db Tables)
      → SameKey retry args
      → Stored json args result row db
      → reserve json retry now db ≡ (stored_hit args.request_hash retry result, db)
  unfolding reserve try_reserve
  reserve-Stored args retry result row now db same s =
      let there : lookup_request retry db ≡ some row =
        lookup-SameKey retry args db same ∙ s.found in
      rw (some_exists (has_args retry) db.requests row there, there, s.hash, s.state, s.parses)
        (elim (Bool-cases (str_eq args.request_hash retry.request_hash)) [
          | inl e ↦ rw e refl
          | inr e ↦ rw e refl
        ])
