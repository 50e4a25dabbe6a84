-- ===== src/Budget/Tests.antt =====
-- The budget governor on concrete memories.
use agent_recall.Common.{Bool, true, none, some, [], ◌∷◌, ◌≡◌, refl, arith, str_eq}
use agent_recall.Common.Assoc.{value_at, set_value}
use agent_recall.Common.Order.{order_with}
use agent_recall.Common.Table.{select_where}
use agent_recall.Budget.Rows.{
  MemoryEntry, Candidate, MemoryBudget, BudgetUsage, active, agent, estimate_index_chars,
}
use agent_recall.Budget.Cleanup.{Clock, rank_cleanup_candidates, archive}
use agent_recall.Budget.Evaluate.{Similarity}
use agent_recall.Budget.Within.{IsWithin, Write, govern, govern-IsWithin}

abbrev fixed_clock : Clock
fixed_clock = record { parse_date = λ text. some 1; locale_le = λ a b. true }

abbrev exact_match : Similarity
exact_match = record {
  Score = Bool;
  text_similarity = str_eq;
  max = λ a b. a;
  at_threshold = λ a. a;
  folded = λ text. text;
}

abbrev small_budget : MemoryBudget
small_budget = record {
  max_active_entries = 2;
  max_total_chars = 100;
  max_topic_chars = some 40;
  max_index_chars = 90;
}

abbrev unused : BudgetUsage
unused = record { active_entries = 0; active_chars = 0; topic_chars = []; index_chars = 0 }

abbrev unused-IsWithin : IsWithin small_budget unused
unfolding value_at
unused-IsWithin = record {
  entries = omega arith;
  total = omega arith;
  index = omega arith;
  topics = λ topic. refl;
}

abbrev note : MemoryEntry
note = record {
  id = "m1";
  topic = "build";
  title = "tests";
  body = "run them";
  tags = "ci" ∷ "node" ∷ [];
  source_kind = agent;
  importance = 2;
  confidence = 3;
  status = active;
  updated_at = "2026-01-01";
  access_count = 0;
  expires_at = none;
  review_after = none;
  char_count = 30;
}

abbrev note_candidate : Candidate
note_candidate = record {
  topic = "build";
  title = "tests";
  body = "run them";
  tags = "ci" ∷ "node" ∷ [];
  status = active;
  char_count = 30;
}

abbrev one_write : Write
one_write = record { candidate = note_candidate; entries = note ∷ []; now = "2026-02-01" }

index_size : estimate_index_chars "tests" "build" ("ci" ∷ "node" ∷ []) ≡ 33
unfolding estimate_index_chars
index_size = refl

-- the second write to the topic would take it to 60 characters
second_write :
    (govern exact_match fixed_clock small_budget (one_write ∷ one_write ∷ []) unused).active_entries
    ≡ 1
unfolding govern estimate_index_chars value_at set_value
second_write = refl

proposal :
    rank_cleanup_candidates fixed_clock (note ∷ []) "2026-02-01"
    ≡ record { action = archive; memory_id = "m1" } ∷ []
unfolding rank_cleanup_candidates order_with select_where
proposal = refl

govern-IsWithin_example :
    IsWithin small_budget
      (govern exact_match fixed_clock small_budget (one_write ∷ one_write ∷ []) unused)
govern-IsWithin_example =
    govern-IsWithin exact_match fixed_clock small_budget (one_write ∷ one_write ∷ []) unused
      unused-IsWithin
