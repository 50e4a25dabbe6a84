-- ===== src/Budget/Evaluate.antt =====
-- `evaluateBudget` of src/budget-governor.ts. The similarity of texts is a score of floating-point
-- numbers (src/text-similarity.ts): its type and its operations are a parameter.
use agent_recall.Common.{
  ℕ, ◌+◌, String, Bool, false, ◌||◌, not, Option, none, some, List, [], ◌∷◌, ltb, str_eq,
  if◌then◌else◌,
}
use agent_recall.Common.Assoc.{set_value}
use agent_recall.Budget.Rows.{
  MemoryEntry, Candidate, MemoryBudget, BudgetUsage, TopicChars, char_total, no_number, chars_of,
  plus_chars, is_active, estimate_index_chars,
}
use agent_recall.Budget.Cleanup.{Clock, CleanupCandidate, rank_cleanup_candidates}

pub record Similarity : Type 1 where
  pub Score : Type 0
  pub text_similarity : String → String → Score
  pub max : Score → Score → Score
  pub at_threshold : Score → Bool
  -- `trim().toLowerCase()`
  pub folded : String → String

module _ (s : Similarity) where
  open s use {Score, text_similarity, max, at_threshold, folded}

  pub data BudgetWarning : Type 0 where
    duplicate_candidate : String → BudgetWarning
    near_duplicate : String → Score → BudgetWarning

  abbrev pub same_text : String → String → Bool
  same_text a b = str_eq (folded a) (folded b)

  abbrev pub best_score : MemoryEntry → Candidate → Score
  best_score entry candidate =
      max (text_similarity entry.title candidate.title) (text_similarity entry.body candidate.body)

  -- the loop over the existing entries
  unfoldable pub duplicate_warnings : List MemoryEntry → Candidate → List BudgetWarning
  duplicate_warnings [] candidate = []
  duplicate_warnings (entry ∷ entries) candidate =
      let rest = duplicate_warnings entries candidate in
      if not (is_active entry.status)
      then rest
      else if same_text entry.title candidate.title || same_text entry.body candidate.body
      then duplicate_candidate entry.id ∷ rest
      else if at_threshold (best_score entry candidate)
      then near_duplicate entry.id (best_score entry candidate) ∷ rest
      else rest

abbrev pub if_active : Candidate → ℕ → ℕ
if_active candidate n = if is_active candidate.status then n else 0

unfoldable pub budget_after : BudgetUsage → Candidate → BudgetUsage
budget_after usage candidate = record {
  active_entries = usage.active_entries + if_active candidate 1;
  active_chars = usage.active_chars + if_active candidate candidate.char_count;
  topic_chars =
      if is_active candidate.status
      then set_value usage.topic_chars candidate.topic
          (plus_chars (chars_of candidate.topic usage.topic_chars) candidate.char_count)
      else usage.topic_chars;
  index_chars =
      usage.index_chars
      + if_active candidate (estimate_index_chars candidate.title candidate.topic candidate.tags);
}

-- no limit where the budget sets none; a text is not greater than a number
abbrev pub over_limit : Option ℕ → TopicChars → Bool
over_limit none chars = false
over_limit (some limit) no_number = false
over_limit (some limit) (char_total n) = ltb limit n

unfoldable pub exceeds_budget : MemoryBudget → BudgetUsage → String → Bool
exceeds_budget budget after topic =
    ltb budget.max_active_entries after.active_entries
    || ltb budget.max_total_chars after.active_chars
    || ltb budget.max_index_chars after.index_chars
    || over_limit budget.max_topic_chars (chars_of topic after.topic_chars)

pub data Evaluation (Warning : Type 0) : Type 0 where
  accepted : List Warning → BudgetUsage → Evaluation Warning
  -- with the usage, the usage after, the warnings, and what to remove instead
  capacity_exceeded :
      BudgetUsage → BudgetUsage → List Warning → List CleanupCandidate → Evaluation Warning

module _ (s : Similarity) (clock : Clock) where
  unfoldable pub evaluate_budget :
      MemoryBudget
      → BudgetUsage
      → Candidate
      → List MemoryEntry
      → String
      → Evaluation (BudgetWarning s)
  unfolding duplicate_warnings budget_after exceeds_budget
  evaluate_budget budget usage candidate entries now =
      let warnings = duplicate_warnings s entries candidate in
      let after = budget_after usage candidate in
      if not (exceeds_budget budget after candidate.topic)
      then accepted warnings after
      else capacity_exceeded usage after warnings (rank_cleanup_candidates clock entries now)
