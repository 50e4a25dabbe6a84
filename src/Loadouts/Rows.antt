-- ===== src/Loadouts/Rows.antt =====
-- The rows of `agent_loadouts`, `loadout_rules` and `loadout_bindings` (src/sqlite-store.ts) and
-- the error codes of src/loadouts/service.ts.
use agent_recall.Common.{ℕ, String, Bool, true, false, Option, List, leb}

-- a priority, which may be negative; `below n` is -(n + 1)
pub data Priority : Type 0 where
  above below : ℕ → Priority

abbrev pub priority_le : Priority → Priority → Bool
priority_le (above a) (above b) = leb a b
priority_le (above a) (below b) = false
priority_le (below a) (above b) = true
priority_le (below a) (below b) = leb b a

pub data Lifecycle : Type 0 where
  draft active deprecated archived : Lifecycle

pub data LoadoutScope : Type 0 where
  global project : LoadoutScope

pub data Channel : Type 0 where
  bootstrap query tool_only : Channel

pub data OrderingPolicy : Type 0 where
  rule_then_score score_only rule_only : OrderingPolicy

pub data Tier : Type 0 where
  core working archival : Tier

pub record LoadoutRow : Type 0 where
  pub loadout_id : String
  pub name : String
  pub version : ℕ
  pub lifecycle_state : Lifecycle
  pub match_actor_id : Option String
  pub match_client_name : Option String
  pub scope : LoadoutScope
  pub project_id : Option String
  pub task_mode : Option String
  pub created_by_actor_id : String
  pub created_at : ℕ
  pub updated_at : ℕ

pub record RuleRow : Type 0 where
  pub loadout_id : String
  pub version : ℕ
  pub channel : Channel
  pub include_asset_ids : List String
  pub include_memory_ids : List String
  pub include_types : List String
  pub include_tiers : List Tier
  pub include_tags : List String
  pub include_topics : List String
  pub exclude_asset_ids : List String
  pub exclude_memory_ids : List String
  pub exclude_tags : List String
  pub required_refs : List String
  pub max_items : ℕ
  pub max_chars : ℕ
  pub max_tokens : Option ℕ
  pub timeout_ms : ℕ
  pub ordering_policy : OrderingPolicy

pub record BindingRow : Type 0 where
  pub binding_id : String
  pub loadout_id : String
  pub loadout_version : ℕ
  pub actor_id : Option String
  pub client_name : Option String
  pub project_id : Option String
  pub task_mode : Option String
  pub priority : Priority
  pub created_at : ℕ

pub record LoadoutDb : Type 0 where
  pub loadouts : List LoadoutRow
  pub rules : List RuleRow
  pub bindings : List BindingRow

-- `lifecycle_state IN ('draft', 'active')`
abbrev pub is_live : Lifecycle → Bool
is_live draft = true
is_live active = true
is_live _ = false

abbrev pub is_active : Lifecycle → Bool
is_active active = true
is_active _ = false

abbrev pub is_global : LoadoutScope → Bool
is_global global = true
is_global project = false

abbrev pub same_channel : Channel → Channel → Bool
same_channel bootstrap bootstrap = true
same_channel query query = true
same_channel tool_only tool_only = true
same_channel _ _ = false

pub data LoadoutErrorCode : Type 0 where
  loadout_not_found cas_mismatch binding_ambiguous invalid_scope : LoadoutErrorCode
  project_id_required project_id_must_be_null duplicate_loadout duplicate_binding : LoadoutErrorCode

-- what a method throws: a coded error, or that of a broken constraint
pub data LoadoutError : Type 0 where
  coded : LoadoutErrorCode → LoadoutError
  constraint_failed : LoadoutError
