-- ===== src/Loadouts/Bindings.antt =====
-- `bind`, `unbind` and `resolve` of src/loadouts/service.ts.
pub mod Fallback
pub mod Unbind
use agent_recall.Common.{
  ℕ, String, Bool, true, false, Option, none, some, List, [], ◌∷◌, map, if◌then◌else◌, get_or,
}
use agent_recall.Common.Effect.{Effect, Outcome, returned, thrown, ◌>>=◌, pure, throw, gets}
use agent_recall.Loadouts.Rows.{
  Priority, Lifecycle, LoadoutScope, Channel, OrderingPolicy, LoadoutRow, RuleRow, BindingRow,
  LoadoutDb, LoadoutErrorCode, LoadoutError, coded, is_active,
}
use agent_recall.Loadouts.Store.{
  get_loadout, rules_for_version, MatchedRule, ResolveInput, Resolution, resolve_loadout,
}
use agent_recall.Loadouts.Service.{
  LoadoutEffect, RulePatch, patched_rule, insert_binding, or_not_found,
}

pub record BindInput : Type 0 where
  pub loadout_id : String
  pub actor_id : Option String
  pub client_name : Option String
  pub project_id : Option String
  pub task_mode : Option String
  pub priority : Option Priority

abbrev pub bound_row : BindInput → String → LoadoutRow → ℕ → BindingRow
bound_row input id loadout now = record {
  binding_id = id;
  loadout_id = input.loadout_id;
  loadout_version = loadout.version;
  actor_id = input.actor_id;
  client_name = input.client_name;
  project_id = input.project_id;
  task_mode = input.task_mode;
  priority = get_or input.priority (Priority.above 0);
  created_at = now;
}

unfoldable pub bind : BindInput → String → ℕ → LoadoutEffect String
unfolding insert_binding
bind input id now = do
  found ← gets (get_loadout input.loadout_id)
  loadout ← or_not_found found
  inserted ← insert_binding (bound_row input id loadout now)
  if inserted then pure id else throw (coded LoadoutErrorCode.duplicate_binding)

pub record ResolveResult : Type 0 where
  pub loadout : LoadoutRow
  pub rules : List RuleRow
  pub binding : Option BindingRow
  pub matched_rule : MatchedRule

abbrev pub legacy_fallback_id : String
legacy_fallback_id = "legacy-inject-all-active"

-- the rule of a patch that sets nothing has the same limits
abbrev pub no_filters : Channel → RulePatch
no_filters channel = record {
  channel = channel;
  include_asset_ids = none;
  include_memory_ids = none;
  include_types = none;
  include_tiers = none;
  include_tags = none;
  include_topics = none;
  exclude_asset_ids = none;
  exclude_memory_ids = none;
  exclude_tags = none;
  required_refs = none;
  max_items = none;
  max_chars = none;
  max_tokens = none;
  timeout_ms = none;
  ordering_policy = none;
}

unfoldable pub legacy_fallback : ℕ → ResolveResult
legacy_fallback now = record {
  loadout = record {
    loadout_id = legacy_fallback_id;
    name = "Built-in legacy fallback (legacy-inject-all-active)";
    version = 1;
    lifecycle_state = Lifecycle.active;
    match_actor_id = none;
    match_client_name = none;
    scope = LoadoutScope.global;
    project_id = none;
    task_mode = none;
    created_by_actor_id = "system";
    created_at = now;
    updated_at = now;
  };
  rules =
      map (λ channel. patched_rule legacy_fallback_id 1 (no_filters channel))
        (Channel.bootstrap ∷ Channel.query ∷ Channel.tool_only ∷ []);
  binding = none;
  matched_rule = MatchedRule.built_in_legacy_fallback;
}

abbrev pub only_active : Option LoadoutRow → Option LoadoutRow
only_active none = none
only_active (some loadout) = if is_active loadout.lifecycle_state then some loadout else none

-- the loadout that the call names, where it is active
abbrev pub explicit_loadout : Option String → LoadoutDb → Option LoadoutRow
explicit_loadout none db = none
explicit_loadout (some id) db = only_active (get_loadout id db)

abbrev pub or_legacy : ℕ → Option Resolution → ResolveResult
or_legacy now none = legacy_fallback now
or_legacy now (some r) = record {
  loadout = r.loadout;
  rules = r.rules;
  binding = some r.binding;
  matched_rule = r.matched_rule;
}

abbrev pub or_resolved : ResolveInput → ℕ → LoadoutDb → Option LoadoutRow → ResolveResult
or_resolved input now db (some loadout) = record {
  loadout = loadout;
  rules = rules_for_version loadout.loadout_id loadout.version db;
  binding = none;
  matched_rule = MatchedRule.explicit_loadout_id;
}
or_resolved input now db none = or_legacy now (resolve_loadout input db)

unfoldable pub resolve : ResolveInput → Option String → ℕ → LoadoutDb → ResolveResult
resolve input explicit now db = or_resolved input now db (explicit_loadout explicit db)
