-- ===== src/Idempotency/Tests.antt =====
-- Mutations on a counter, and the theorems on them at concrete inputs.
use agent_recall.Common.{ℕ, suc, String, none, List, [], ◌∷◌, ◌≡◌, refl, ◌≢◌}
use agent_recall.Common.Effect.{returned, thrown}
use agent_recall.Common.Table.{first_where, update_where, exists_where, insert_row}
use agent_recall.Idempotency.Rows.{
  Db, Args, reserved_row, row_completed, lookup_request, try_reserve, complete_request, transaction,
}
use agent_recall.Idempotency.Service.{
  fresh, replay, rejected, in_flight, Json, Work, Call, reserve, mutation, try_replay_only,
  on_tables, run_with_idempotent_mutation, run_calls,
}
use agent_recall.Idempotency.Probe.{probe_agrees}
use agent_recall.Idempotency.Replay.{stored_hit}
use agent_recall.Idempotency.Replay.Forever.{replay_forever}
use agent_recall.Idempotency.Atomic.{AllCompleted, throw_rolls_back, never_in_flight}

-- a text is its own JSON
abbrev plain : Json String
plain = record { parse = λ text. text; stringify = λ text. text }

-- counts, once per key
abbrev count : Work ℕ String String
count fresh n = (returned "counted", suc n)
count (replay text) n = (returned text, n)
count rejected n = (thrown "rejected", n)
count in_flight n = (thrown "in flight", n)

-- counts, and then throws
abbrev break_off : Work ℕ String String
break_off hit n = (thrown "broken", suc n)

abbrev args_for : String → Args
args_for key = record {
  actor = "alice";
  tool = "remember";
  key = key;
  request_hash = "h1";
  request_id = "r1";
}

abbrev no_requests : Db ℕ
no_requests = record { requests = []; tables = 0; transaction_depth = 0 }

abbrev counted_once : Db ℕ
counted_once = record {
  requests = row_completed "counted" 5 (reserved_row (args_for "k1") 5) ∷ [];
  tables = 1;
  transaction_depth = 0;
}

counts_once :
    run_with_idempotent_mutation plain (args_for "k1") count 5 no_requests
    ≡ (returned "counted", counted_once)
unfolding run_with_idempotent_mutation transaction mutation reserve try_reserve complete_request
    first_where exists_where update_where insert_row
counts_once = refl

no_key : lookup_request (args_for "k1") no_requests ≡ none
unfolding first_where
no_key = refl

abbrev other_calls : List (Call ℕ String String)
other_calls =
    record { args = args_for "k2"; work = count; now = 6 }
    ∷ record { args = args_for "k1"; work = break_off; now = 7 }
    ∷ []

replay_forever_example :
    run_with_idempotent_mutation plain
      (args_for "k1")
      count
      8
      (run_calls plain other_calls counted_once)
    ≡ transaction
        (on_tables (count (stored_hit "h1" (args_for "k1") "counted")))
        (run_calls plain other_calls counted_once)
replay_forever_example =
    replay_forever plain (args_for "k1") (args_for "k1") count count 5 8 "counted" no_requests
      counted_once other_calls refl no_key counts_once refl (refl, (refl, refl))

breaks_off :
    run_with_idempotent_mutation plain (args_for "k1") break_off 5 no_requests
    ≡ (thrown "broken", no_requests)
unfolding run_with_idempotent_mutation transaction mutation reserve try_reserve exists_where
    insert_row
breaks_off = refl

throw_rolls_back_example :
    (no_requests.requests ≡ no_requests.requests) × (no_requests.tables ≡ no_requests.tables)
throw_rolls_back_example =
    throw_rolls_back plain (args_for "k1") break_off 5 "broken" no_requests no_requests refl
      breaks_off

never_in_flight_example :
    AllCompleted (run_calls plain other_calls counted_once)
    × (try_replay_only plain (args_for "k2") (run_calls plain other_calls counted_once) ≢ in_flight)
never_in_flight_example =
    never_in_flight plain other_calls (args_for "k2") counted_once refl (refl, tt)

probe_agrees_example :
    try_replay_only plain (args_for "k1") counted_once
    ≡ (reserve plain (args_for "k1") 9 counted_once).0
probe_agrees_example = probe_agrees plain (args_for "k1") 9 counted_once
