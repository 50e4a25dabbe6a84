-- ===== src/Memories/Moves/Landing.antt =====
-- What a method leaves behind when its transaction is over, with an idempotency key or without.
use agent_recall.Common.{ℕ, Option, none, some, ◌≡◌, refl, Bool-cases, inl, inr}
use agent_recall.Common.Table.{exists_where}
use agent_recall.Common.Effect.{Outcome, returned, thrown, continue_with}
use agent_recall.Idempotency.Rows.{
  Db, Args, has_args, try_reserve, complete_request, lookup_request, close_transaction, transaction,
}
use agent_recall.Idempotency.Service.{
  Hit, fresh, rejected, in_flight, replay, Json, try_replay_only, reserve, hit_of, is_fresh,
  complete_fresh, mutation, on_tables,
}
use agent_recall.Idempotency.Replay.Kept.{run-closed}
use agent_recall.Memories.Rows.{MemoryDb, MemoryError, MemoryEffect}
use agent_recall.Memories.Inputs.{Result}
use agent_recall.Memories.Context.{WriteEffect, by_hit, probe, keyed}
use agent_recall.Memories.Moves.Steps.{Steps, here}
use agent_recall.Memories.Moves.Methods.{Makes}

-- no transaction is open, and the memories went from the one state to the other by steps
pub record Lands (before after : Db MemoryDb) : Type 0 where
  pub closed : after.transaction_depth ≡ 0
  pub steps : Steps before.tables after.tables

pub stays : (db : Db MemoryDb) → db.transaction_depth ≡ 0 → Lands db db
stays db depth = record { closed = depth; steps = here }

close-Lands :
    {A : Type 0} (before : Db MemoryDb) (p : Outcome MemoryError A × Db MemoryDb)
    → ((a : A) → p.0 ≡ returned a → Steps before.tables p.1.tables)
    → Lands before (close_transaction before p).1
close-Lands before (returned a, later) m = record { closed = refl; steps = m a refl }
close-Lands before (thrown e, later) m = record { closed = refl; steps = here }

module _ {A : Type 0} (json : Json (Result A)) where
  by_hit-Makes :
      (hit : Hit (Result A)) (work : MemoryEffect (Result A)) (db : MemoryDb)
      → Makes db (work db)
      → Makes db (by_hit hit work db)
  by_hit-Makes fresh work db m a h = m a h
  by_hit-Makes rejected work db m a h = here
  by_hit-Makes in_flight work db m a h = here
  by_hit-Makes (replay r) work db m a h = here

  -- the rest of a mutation leaves the memories to the callback
  completed-Steps :
      (args : Args) (hit : Hit (Result A)) (now : ℕ) (before : MemoryDb)
      (o : Outcome MemoryError (Result A)) (db : Db MemoryDb)
      → ((a : Result A) → o ≡ returned a → Steps before db.tables)
      → (a : Result A)
      → (continue_with o db (λ r. complete_fresh json args hit r now)).0 ≡ returned a
      → Steps before (continue_with o db (λ r. complete_fresh json args hit r now)).1.tables
  unfolding complete_request
  completed-Steps args hit now before (returned r) db m a h = elim (Bool-cases (is_fresh hit)) [
    | inl e ↦ rw e (m r refl)
    | inr e ↦ rw e (m r refl)
  ]
  completed-Steps args hit now before (thrown e) db m a h = absurd (cc h)

  mutation-Steps :
      (args : Args) (now : ℕ) (work : MemoryEffect (Result A)) (db : Db MemoryDb)
      → Makes db.tables (work db.tables)
      → (a : Result A) → (mutation json args (λ hit. by_hit hit work) now db).0 ≡ returned a
      → Steps db.tables (mutation json args (λ hit. by_hit hit work) now db).1.tables
  unfolding mutation reserve try_reserve
  mutation-Steps args now work db m a h =
      elim (Bool-cases (exists_where (has_args args) db.requests)) [
        | inl e ↦
            let hit = hit_of json args (lookup_request args db) in
            rw e (
              completed-Steps args hit now db.tables _ _ (by_hit-Makes hit work db.tables m) a
                (rw e at h))
        | inr e ↦ rw e (completed-Steps args fresh now db.tables _ _ m a (rw e at h))
      ]

  pub transaction_lem :
      (work : WriteEffect (Result A)) (db : Db MemoryDb)
      → db.transaction_depth ≡ 0
      → transaction work db ≡ close_transaction db (work (record db { transaction_depth = 1 }))
  unfolding transaction
  transaction_lem work db depth = rw depth refl

  -- the writes of a method land where the transaction of its work does
  pub keyed-Lands :
      (args : Option Args) (now : ℕ) (work : MemoryEffect (Result A)) (db : Db MemoryDb)
      → db.transaction_depth ≡ 0
      → Makes db.tables (work db.tables)
      → Lands db (keyed json args now work db).1
  keyed-Lands none now work db depth m =
      rw (transaction_lem (on_tables work) db depth) (close-Lands db _ m)
  keyed-Lands (some args) now work db depth m =
      rw (run-closed json args (λ hit. by_hit hit work) now db depth)
        (close-Lands db _ (mutation-Steps args now work (record db { transaction_depth = 1 }) m))

  pub probe-Lands :
      (args : Option Args) (rest : WriteEffect (Result A)) (db : Db MemoryDb)
      → db.transaction_depth ≡ 0
      → Lands db (rest db).1
      → Lands db (probe json args rest db).1
  probe-Lands none rest db depth h = h
  probe-Lands (some args) rest db depth h = by_probe (try_replay_only json args db)
    where
      by_probe : (hit : Hit (Result A)) → Lands db (by_hit hit rest db).1
      by_probe fresh = h
      by_probe rejected = stays db depth
      by_probe in_flight = stays db depth
      by_probe (replay r) = stays db depth
