-- ===== src/Loadouts/Tests.antt =====
-- Resolutions on small tables, and the theorems on precedence at concrete inputs.
use agent_recall.Common.{String, Option, none, some, [], ◌∷◌, ◌≡◌, refl, ◌⊎◌}
use agent_recall.Common.Effect.{returned}
use agent_recall.Common.Table.{insert_row, exists_where, first_where, select_where}
use agent_recall.Common.Order.{order_with, insert_with}
use agent_recall.Loadouts.Rows.{
  Priority, Lifecycle, LoadoutScope, LoadoutRow, BindingRow, LoadoutDb,
}
use agent_recall.Loadouts.Store.{
  MatchedRule, ResolveInput, Resolution, level_rows, resolve_levels, resolve_loadout,
}
use agent_recall.Common.{true, false}
use agent_recall.Loadouts.Rows.{Channel}
use agent_recall.Loadouts.Service.{
  RulePatch, insert_binding, remove_binding, same_rule, patched_rule,
}
use agent_recall.Loadouts.Store.{get_loadout}
use agent_recall.Loadouts.Update.{Updated, Refused, update_rules_all_or_nothing}
use agent_recall.Loadouts.Bindings.{BindInput, bound_row, bind, no_filters}
use agent_recall.Loadouts.Bindings.Unbind.{unbind_after_bind}
use agent_recall.Loadouts.Precedence.{IsBest}
use agent_recall.Loadouts.Precedence.Levels.{resolve_loadout-IsBest, defaults_unreachable}

abbrev team_loadout : LoadoutRow
team_loadout = record {
  loadout_id = "l1";
  name = "team";
  version = 1;
  lifecycle_state = Lifecycle.active;
  match_actor_id = none;
  match_client_name = none;
  scope = LoadoutScope.global;
  project_id = none;
  task_mode = none;
  created_by_actor_id = "alice";
  created_at = 1;
  updated_at = 1;
}

abbrev binding_for : String → Option String → Priority → BindingRow
binding_for id actor priority = record {
  binding_id = id;
  loadout_id = "l1";
  loadout_version = 1;
  actor_id = actor;
  client_name = none;
  project_id = none;
  task_mode = none;
  priority = priority;
  created_at = 1;
}

-- alice's own binding, and a default of a greater priority
abbrev mine : BindingRow
mine = binding_for "b1" (some "alice") (Priority.above 1)

abbrev default_binding : BindingRow
default_binding = binding_for "b2" none (Priority.above 5)

abbrev two_bindings : LoadoutDb
two_bindings = record {
  loadouts = team_loadout ∷ [];
  rules = [];
  bindings = mine ∷ default_binding ∷ [];
}

abbrev for_alice : ResolveInput
for_alice = record {
  actor_id = some "alice";
  client_name = none;
  project_id = none;
  task_mode = none;
}

abbrev default_wins : Resolution
default_wins = record {
  binding = default_binding;
  loadout = team_loadout;
  rules = [];
  matched_rule = MatchedRule.actor_project;
}

-- the default binding beats the actor's own one, at the level `actor_project`
resolves_default : resolve_loadout for_alice two_bindings ≡ some default_wins
unfolding resolve_loadout resolve_levels level_rows order_with insert_with select_where first_where
resolves_default = refl

resolve_loadout-IsBest_example : IsBest for_alice two_bindings default_wins
resolve_loadout-IsBest_example =
    resolve_loadout-IsBest for_alice two_bindings default_wins resolves_default

defaults_unreachable_example :
    (default_wins.matched_rule ≡ MatchedRule.actor_project_task)
    ⊎ (default_wins.matched_rule ≡ MatchedRule.actor_project)
defaults_unreachable_example =
    defaults_unreachable for_alice two_bindings default_wins resolves_default

abbrev query_patch : RulePatch
query_patch = no_filters Channel.query

found_team : get_loadout "l1" two_bindings ≡ some team_loadout
unfolding first_where
found_team = refl

no_rule_yet : exists_where (same_rule (patched_rule "l1" 2 query_patch)) two_bindings.rules ≡ false
unfolding exists_where
no_rule_yet = refl

-- two patches of one channel break the primary key of the rules
update_rules_all_or_nothing_example :
    Updated "l1" (query_patch ∷ query_patch ∷ []) (some 1) 9 two_bindings
    ⊎ Refused "l1" (query_patch ∷ query_patch ∷ []) (some 1) 9 two_bindings
update_rules_all_or_nothing_example =
    update_rules_all_or_nothing "l1" (query_patch ∷ query_patch ∷ []) (some 1) 9 two_bindings

abbrev bind_team : BindInput
bind_team = record {
  loadout_id = "l1";
  actor_id = some "bob";
  client_name = none;
  project_id = none;
  task_mode = none;
  priority = none;
}

abbrev three_bindings : LoadoutDb
three_bindings = record {
  loadouts = team_loadout ∷ [];
  rules = [];
  bindings = mine ∷ default_binding ∷ bound_row bind_team "b3" team_loadout 9 ∷ [];
}

binds_bob : bind bind_team "b3" 9 two_bindings ≡ (returned "b3", three_bindings)
unfolding bind insert_binding first_where exists_where insert_row
binds_bob = refl

unbind_after_bind_example :
    (◌≡◌ {A = String} "b3" "b3") × (remove_binding "b3" three_bindings ≡ (true, two_bindings))
unbind_after_bind_example =
    unbind_after_bind bind_team "b3" 9 two_bindings "b3" three_bindings binds_bob
