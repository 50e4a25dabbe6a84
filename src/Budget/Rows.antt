-- ===== src/Budget/Rows.antt =====
-- The entries, budgets and usages that src/budget-governor.ts reads, and sizes of texts.
use agent_recall.Common.{ℕ, suc, ◌+◌, String, Bool, true, false, Option, List, [], ◌∷◌, get_or}
use agent_recall.Common.Assoc.{value_at}
use Prim.Native.String

pub data MemoryStatus : Type 0 where
  active archived superseded forgotten : MemoryStatus

pub data SourceKind : Type 0 where
  user agent tool file command external : SourceKind

-- the fields of a `MemoryEntry` that the governor reads
pub record MemoryEntry : Type 0 where
  pub id : String
  pub topic : String
  pub title : String
  pub body : String
  pub tags : List String
  pub source_kind : SourceKind
  pub importance : ℕ
  pub confidence : ℕ
  pub status : MemoryStatus
  pub updated_at : String
  pub access_count : ℕ
  pub expires_at : Option String
  pub review_after : Option String
  pub char_count : ℕ

pub record Candidate : Type 0 where
  pub topic : String
  pub title : String
  pub body : String
  pub tags : List String
  pub status : MemoryStatus
  pub char_count : ℕ

pub record MemoryBudget : Type 0 where
  pub max_active_entries : ℕ
  pub max_total_chars : ℕ
  pub max_topic_chars : Option ℕ
  pub max_index_chars : ℕ

-- The characters of a topic. What a JavaScript object inherits is no number: it becomes a text with the
-- first sum and stays one.
pub data TopicChars : Type 0 where
  char_total : ℕ → TopicChars
  no_number : TopicChars

pub record BudgetUsage : Type 0 where
  pub active_entries : ℕ
  pub active_chars : ℕ
  pub topic_chars : List (String × TopicChars)
  pub index_chars : ℕ

-- `topic_chars[topic] ?? 0` of an object without a prototype
abbrev pub chars_of : String → List (String × TopicChars) → TopicChars
chars_of topic chars = get_or (value_at chars topic) (char_total 0)

-- `value + n`
abbrev pub plus_chars : TopicChars → ℕ → TopicChars
plus_chars (char_total m) n = char_total (m + n)
plus_chars no_number n = no_number

abbrev pub is_active : MemoryStatus → Bool
is_active active = true
is_active _ = false

unfoldable pub code_point_count : String → ℕ
code_point_count String.[] = 0
code_point_count (String.◌∷◌ c text) = suc (code_point_count text)

-- `tags.join(" ")`
unfoldable pub join_tags : List String → String
join_tags [] = ""
join_tags (tag ∷ []) = tag
join_tags (tag ∷ next ∷ tags) = String.◌++◌ tag (String.◌++◌ " " (join_tags (next ∷ tags)))

unfoldable pub estimate_index_chars : String → String → List String → ℕ
unfolding code_point_count join_tags
estimate_index_chars title topic tags =
    code_point_count title + code_point_count topic + code_point_count (join_tags tags) + 16
