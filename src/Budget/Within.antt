-- ===== src/Budget/Within.antt =====
-- Usages within a budget, under `evaluateBudget` of src/budget-governor.ts.
use agent_recall.Common.{
  ℕ, ◌≤◌, String, Bool, true, false, Option, none, some, leb, List, [], ◌∷◌, ◌≡◌, ◌↔◌, refl, arith,
  str_eq, eq_refl, if◌then◌else◌, Bool-cases, inl, inr,
}
use agent_recall.Common.Assoc.{set_value, value_at-set_value}
use agent_recall.Budget.Rows.{
  MemoryEntry, Candidate, MemoryBudget, BudgetUsage, TopicChars, char_total, no_number, chars_of,
  plus_chars, is_active,
}
use agent_recall.Budget.Cleanup.{Clock}
use agent_recall.Budget.Evaluate.{
  Similarity, BudgetWarning, budget_after, over_limit, exceeds_budget, Evaluation, accepted,
  capacity_exceeded, evaluate_budget,
}

-- a number, and not over the limit
abbrev pub within_limit : Option ℕ → TopicChars → Bool
within_limit none chars = true
within_limit (some limit) no_number = false
within_limit (some limit) (char_total n) = leb n limit

pub record IsWithin (budget : MemoryBudget) (usage : BudgetUsage) : Type 0 where
  pub entries : usage.active_entries ≤ budget.max_active_entries
  pub total : usage.active_chars ≤ budget.max_total_chars
  pub index : usage.index_chars ≤ budget.max_index_chars
  pub topics :
      (topic : String)
      → within_limit budget.max_topic_chars (chars_of topic usage.topic_chars) ≡ true

abbrev pub is_accepted : {W : Type 0} → Evaluation W → Bool
is_accepted (accepted warnings after) = true
is_accepted (capacity_exceeded usage after warnings candidates) = false

pub chars_of-set_value :
    (topic other : String) (n : TopicChars) (chars : List (String × TopicChars))
    → chars_of other (set_value chars topic n)
      ≡ (if str_eq topic other then n else chars_of other chars)
chars_of-set_value topic other n chars =
    rw (value_at-set_value chars topic other n)
      (elim (Bool-cases (str_eq topic other)) [ inl e ↦ rw e refl | inr e ↦ rw e refl ])

module _ (budget : MemoryBudget) (usage : BudgetUsage) (candidate : Candidate) where
  -- the other topics are as before
  -- within the limit before, and not over it after
  added_within :
      (limit : Option ℕ) (before : TopicChars) (n : ℕ)
      → within_limit limit before ≡ true
      → over_limit limit (plus_chars before n) ≡ false
      → within_limit limit (plus_chars before n) ≡ true
  added_within none before n h k = refl
  added_within (some limit) (char_total m) n h k = ground arith
  added_within (some limit) no_number n h k = absurd (cc h)

  within_not_over :
      (limit : Option ℕ) (chars : TopicChars)
      → within_limit limit chars ≡ true
      → over_limit limit chars ≡ false
  within_not_over none chars h = refl
  within_not_over (some limit) (char_total m) h = ground arith
  within_not_over (some limit) no_number h = refl

  topics_after :
      ((topic : String)
        → within_limit budget.max_topic_chars (chars_of topic usage.topic_chars) ≡ true)
      → over_limit budget.max_topic_chars
          (chars_of candidate.topic (budget_after usage candidate).topic_chars)
        ≡ false
      → (topic : String)
      → within_limit budget.max_topic_chars
          (chars_of topic (budget_after usage candidate).topic_chars)
        ≡ true
  unfolding budget_after
  topics_after before own topic =
      let old = chars_of candidate.topic usage.topic_chars in
      let written = plus_chars old candidate.char_count in
      elim (Bool-cases (is_active candidate.status)) [
        | inr k ↦ rw k (before topic)
        | inl k ↦
            let own' : over_limit budget.max_topic_chars written ≡ false =
              rw
                (
                  k,
                  chars_of-set_value candidate.topic candidate.topic written usage.topic_chars,
                  eq_refl candidate.topic,
                )
                at own in
            rw (k, chars_of-set_value candidate.topic topic written usage.topic_chars)
              (elim (Bool-cases (str_eq candidate.topic topic)) [
                | inl e ↦ rw e (
                    added_within budget.max_topic_chars old candidate.char_count
                      (before candidate.topic) own')
                | inr e ↦ rw e (before topic)
              ])
      ]

  within_after :
      IsWithin budget usage
      → exceeds_budget budget (budget_after usage candidate) candidate.topic ≡ false
      → IsWithin budget (budget_after usage candidate)
  unfolding exceeds_budget
  within_after w h = record {
    entries = ground arith;
    total = ground arith;
    index = ground arith;
    topics = topics_after w.topics (ground arith);
  }

  not_exceeding :
      IsWithin budget (budget_after usage candidate)
      → exceeds_budget budget (budget_after usage candidate) candidate.topic ≡ false
  unfolding exceeds_budget
  not_exceeding w = ground (
    arith,
    within_not_over budget.max_topic_chars
        (chars_of candidate.topic (budget_after usage candidate).topic_chars)
        (w.topics candidate.topic),
  )

-- one write, with the entries and the time at which it is evaluated
pub record Write : Type 0 where
  pub candidate : Candidate
  pub entries : List MemoryEntry
  pub now : String

module _ (s : Similarity) (clock : Clock) (budget : MemoryBudget) where
  abbrev pub usage_of : BudgetUsage → Evaluation (BudgetWarning s) → BudgetUsage
  usage_of usage (accepted warnings after) = after
  usage_of usage (capacity_exceeded before after warnings candidates) = usage

  -- writes one after another, each stored where it is accepted
  unfoldable pub govern : List Write → BudgetUsage → BudgetUsage
  unfolding evaluate_budget
  govern [] usage = usage
  govern (w ∷ writes) usage =
      govern writes
        (usage_of usage (evaluate_budget s clock budget usage w.candidate w.entries w.now))

  -- On a usage within the budget, a write is accepted exactly where the usage after it is within the
  -- budget: in its entries, its characters, its index, and the characters of every topic.
  pub evaluate_budget_lem :
      (usage : BudgetUsage) (candidate : Candidate) (entries : List MemoryEntry) (now : String)
      → IsWithin budget usage
      → (is_accepted (evaluate_budget s clock budget usage candidate entries now) ≡ true)
        ↔ IsWithin budget (budget_after usage candidate)
  unfolding evaluate_budget
  evaluate_budget_lem usage candidate entries now w =
      elim (Bool-cases (exceeds_budget budget (budget_after usage candidate) candidate.topic)) [
        | inl e ↦ (
          λ h. absurd (cc (rw e at h)),
          λ after. absurd (cc (e, not_exceeding budget usage candidate after)),
        )
        | inr e ↦ (λ _. within_after budget usage candidate w e, λ _. rw e refl)
      ]

  write_keeps :
      (usage : BudgetUsage) (w : Write)
      → IsWithin budget usage
      → IsWithin budget
          (usage_of usage (evaluate_budget s clock budget usage w.candidate w.entries w.now))
  unfolding evaluate_budget
  write_keeps usage w within =
      elim (Bool-cases (exceeds_budget budget (budget_after usage w.candidate) w.candidate.topic)) [
        | inl e ↦ rw e within
        | inr e ↦ rw e (within_after budget usage w.candidate within e)
      ]

  -- No sequence of writes, each stored where it is accepted, takes a usage out of its budget: its entries,
  -- its characters, its index, and the characters of every topic, which are a number wherever there is a
  -- limit on them.
  pub govern-IsWithin :
      (writes : List Write) (usage : BudgetUsage)
      → IsWithin budget usage
      → IsWithin budget (govern writes usage)
  unfolding govern
  govern-IsWithin [] usage w = w
  govern-IsWithin (write ∷ writes) usage w = govern-IsWithin writes _ (write_keeps usage write w)
