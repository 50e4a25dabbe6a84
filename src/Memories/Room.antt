-- ===== src/Memories/Room.antt =====
-- The budget that a memory is checked against: `budgetFor`, `activeEntriesFor`, `usageFromActiveEntries`
-- and `evaluateEntryBudget` of src/services/memory-service-helpers.ts.
use agent_recall.Common.{
  suc, ◌+◌, String, Bool, true, false, ◌&&◌, not, Option, none, some, List, [], ◌∷◌, str_eq, get_or,
  if◌then◌else◌,
}
use agent_recall.Common.Assoc.{value_at, set_value}
use agent_recall.Common.Table.{exists_where, first_where, select_where}
use agent_recall.Budget.Rows.{
  TopicChars, char_total, no_number, plus_chars, MemoryBudget, MemoryEntry, BudgetUsage, is_active,
  estimate_index_chars,
}
use agent_recall.Budget.Evaluate.{BudgetWarning, Evaluation, evaluate_budget}
use agent_recall.Scopes.Inputs.{MemoryScope, global, project}
use agent_recall.Memories.Rows.{
  EntryRow, ProjectScope, MemoryDb, is_project, budget_entry, budget_candidate,
}
use agent_recall.Memories.Context.{WriteContext}

abbrev pub default_global_budget : MemoryBudget
default_global_budget = record {
  max_active_entries = 500;
  max_total_chars = 250000;
  max_topic_chars = none;
  max_index_chars = 25000;
}

abbrev pub default_project_budget : MemoryBudget
default_project_budget = record {
  max_active_entries = 300;
  max_total_chars = 150000;
  max_topic_chars = some 30000;
  max_index_chars = 25000;
}

abbrev pub same_scope : MemoryScope → MemoryScope → Bool
same_scope global global = true
same_scope project project = true
same_scope _ _ = false

abbrev pub optional_eq : Option String → Option String → Bool
optional_eq none none = true
optional_eq (some a) (some b) = str_eq a b
optional_eq _ _ = false

abbrev pub get_project_scope : String → MemoryDb → Option ProjectScope
get_project_scope id db = first_where (is_project id) db.projects

abbrev pub budget_of : Option ProjectScope → MemoryBudget
budget_of none = default_project_budget
budget_of (some scope) = scope.budget

abbrev pub budget_for : EntryRow → MemoryDb → MemoryBudget
budget_for entry db =
    if same_scope entry.scope global
    then default_global_budget
    else budget_of (get_project_scope (get_or entry.project_id "") db)

-- no filter by project where there is no id
abbrev pub in_project : Option String → EntryRow → Bool
in_project none row = true
in_project (some id) row = optional_eq row.project_id (some id)

-- the rows of `listEntries` for the scope of an entry
abbrev pub is_active_beside : EntryRow → EntryRow → Bool
is_active_beside entry row =
    same_scope row.scope entry.scope && in_project entry.project_id row && is_active row.status

-- the names that an object `{}` inherits from Object.prototype
abbrev pub inherited_names : List String
inherited_names =
    "__proto__" ∷ "__defineGetter__" ∷ "__defineSetter__" ∷ "__lookupGetter__" ∷ "__lookupSetter__"
    ∷ "constructor" ∷ "hasOwnProperty" ∷ "isPrototypeOf" ∷ "propertyIsEnumerable" ∷ "toLocaleString"
    ∷ "toString" ∷ "valueOf" ∷ []

abbrev pub is_inherited : String → Bool
is_inherited name = exists_where (str_eq name) inherited_names

-- `topic_chars[topic] ?? 0` of an object `{}`
abbrev pub read_property : String → List (String × TopicChars) → TopicChars
read_property name object =
    get_or (value_at object name) (if is_inherited name then no_number else char_total 0)

-- `topic_chars[topic] = value`; what is no object is not stored as `__proto__`
abbrev pub write_property :
    String → TopicChars → List (String × TopicChars) → List (String × TopicChars)
write_property name value object =
    if str_eq name "__proto__" then object else set_value object name value

abbrev pub with_entry : BudgetUsage → EntryRow → BudgetUsage
with_entry usage entry = record {
  active_entries = suc usage.active_entries;
  active_chars = usage.active_chars + entry.char_count;
  topic_chars =
      write_property entry.topic
        (plus_chars (read_property entry.topic usage.topic_chars) entry.char_count)
        usage.topic_chars;
  index_chars = usage.index_chars + estimate_index_chars entry.title entry.topic entry.tags;
}

-- the loop of `usageFromActiveEntries`
unfoldable pub add_entries : BudgetUsage → List EntryRow → BudgetUsage
add_entries usage [] = usage
add_entries usage (entry ∷ entries) = add_entries (with_entry usage entry) entries

unfoldable pub usage_from_active_entries : List EntryRow → BudgetUsage
unfolding add_entries
usage_from_active_entries entries =
    add_entries (record { active_entries = 0; active_chars = 0; topic_chars = []; index_chars = 0 })
      entries

abbrev pub budget_entries : List EntryRow → List MemoryEntry
budget_entries [] = []
budget_entries (row ∷ rows) = budget_entry row ∷ budget_entries rows

module _ (w : WriteContext) where
  -- the active entries of the scope that are not excluded
  unfoldable pub existing_entries : EntryRow → (String → Bool) → MemoryDb → List EntryRow
  existing_entries entry excluded db =
      select_where (λ row. not (excluded row.id))
        (w.newest_first 10000 (select_where (is_active_beside entry) db.entries))

  unfoldable pub evaluate_entry_budget :
      EntryRow → MemoryBudget → (String → Bool) → MemoryDb → Evaluation (BudgetWarning w.similarity)
  unfolding existing_entries usage_from_active_entries evaluate_budget
  evaluate_entry_budget entry budget excluded db =
      let existing = existing_entries entry excluded db in
      evaluate_budget w.similarity w.clock budget (usage_from_active_entries existing)
        (budget_candidate entry) (budget_entries existing) entry.updated_at
