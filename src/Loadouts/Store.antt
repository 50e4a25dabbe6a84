-- ===== src/Loadouts/Store.antt =====
-- The statements of src/sqlite-store.ts on the loadout tables, and `resolveLoadout`.
use agent_recall.Common.{
  ℕ, String, Bool, true, false, ◌&&◌, Option, none, some, List, [], ◌∷◌, leb, if◌then◌else◌, get_or,
  is_some, not, str_eq, take, ◌==◌,
}
use agent_recall.Common.Table.{first_where, select_where}
use agent_recall.Common.Order.{order_with, head}
use agent_recall.Loadouts.Rows.{
  priority_le, LoadoutRow, RuleRow, BindingRow, LoadoutDb, is_live, is_global,
}

abbrev pub has_loadout_id : String → LoadoutRow → Bool
has_loadout_id id row = str_eq row.loadout_id id

abbrev pub get_loadout : String → LoadoutDb → Option LoadoutRow
get_loadout id db = first_where (has_loadout_id id) db.loadouts

abbrev pub rule_of : String → ℕ → RuleRow → Bool
rule_of id version rule = str_eq rule.loadout_id id && rule.version == version

abbrev pub rules_for_version : String → ℕ → LoadoutDb → List RuleRow
rules_for_version id version db = select_where (rule_of id version) db.rules

pub data MatchedRule : Type 0 where
  actor_project_task actor_project project_default global_default : MatchedRule
  explicit_loadout_id built_in_legacy_fallback : MatchedRule

pub record ResolveInput : Type 0 where
  pub actor_id : Option String
  pub client_name : Option String
  pub project_id : Option String
  pub task_mode : Option String

-- `column = ?`, which no NULL on either side satisfies
abbrev pub equals : Option String → Option String → Bool
equals none value = false
equals (some column) none = false
equals (some column) (some value) = str_eq column value

-- `column = ? OR column IS NULL`
abbrev pub equals_or_null : Option String → Option String → Bool
equals_or_null none value = true
equals_or_null (some column) none = false
equals_or_null (some column) (some value) = str_eq column value

abbrev pub is_null : Option String → Bool
is_null column = not (is_some column)

abbrev pub live_loadout : Option LoadoutRow → Bool
live_loadout none = false
live_loadout (some loadout) = is_live loadout.lifecycle_state

abbrev pub global_loadout : Option LoadoutRow → Bool
global_loadout none = false
global_loadout (some loadout) = is_global loadout.scope

-- The WHERE of each level's query. The JOIN goes to the one loadout with the binding's id.
abbrev pub level_where : MatchedRule → ResolveInput → LoadoutDb → BindingRow → Bool
level_where actor_project_task input db b =
    equals_or_null b.actor_id input.actor_id
    && equals_or_null b.client_name input.client_name
    && equals_or_null b.project_id input.project_id
    && equals b.task_mode (some (get_or input.task_mode ""))
    && live_loadout (get_loadout b.loadout_id db)
level_where actor_project input db b =
    equals_or_null b.actor_id input.actor_id
    && equals_or_null b.client_name input.client_name
    && equals_or_null b.project_id input.project_id
    && is_null b.task_mode
    && live_loadout (get_loadout b.loadout_id db)
level_where project_default input db b =
    is_null b.actor_id
    && is_null b.client_name
    && equals_or_null b.project_id input.project_id
    && is_null b.task_mode
    && live_loadout (get_loadout b.loadout_id db)
level_where global_default input db b =
    is_null b.actor_id
    && is_null b.client_name
    && is_null b.project_id
    && is_null b.task_mode
    && global_loadout (get_loadout b.loadout_id db)
    && live_loadout (get_loadout b.loadout_id db)
level_where _ input db b = false

-- `ORDER BY b.priority DESC, b.created_at ASC`
abbrev pub comes_first : BindingRow → BindingRow → Bool
comes_first a b =
    if priority_le a.priority b.priority
    then (if priority_le b.priority a.priority then leb a.created_at b.created_at else false)
    else true

unfoldable pub level_rows : MatchedRule → ResolveInput → LoadoutDb → List BindingRow
level_rows rule input db =
    take 10 (order_with comes_first (select_where (level_where rule input db) db.bindings))

pub record Resolution : Type 0 where
  pub binding : BindingRow
  pub loadout : LoadoutRow
  pub rules : List RuleRow
  pub matched_rule : MatchedRule

-- level 1 is queried only with a task mode
abbrev pub is_skipped : MatchedRule → ResolveInput → Bool
is_skipped actor_project_task input = not (is_some input.task_mode)
is_skipped _ input = false

abbrev pub level_result :
    MatchedRule → LoadoutDb → Option BindingRow → Option Resolution → Option Resolution
level_result rule db none later = later
level_result rule db (some b) later = elim (get_loadout b.loadout_id db) [
  | none ↦ later
  | some loadout ↦ some (record {
    binding = b;
    loadout = loadout;
    rules = rules_for_version loadout.loadout_id loadout.version db;
    matched_rule = rule;
  })
]

-- the loop over `levelQueries`
unfoldable pub resolve_levels : List MatchedRule → ResolveInput → LoadoutDb → Option Resolution
resolve_levels [] input db = none
resolve_levels (rule ∷ rules) input db =
    let later = resolve_levels rules input db in
    if is_skipped rule input
    then later
    else level_result rule db (head (level_rows rule input db)) later

unfoldable pub resolve_loadout : ResolveInput → LoadoutDb → Option Resolution
unfolding resolve_levels
resolve_loadout =
    resolve_levels (actor_project_task ∷ actor_project ∷ project_default ∷ global_default ∷ [])
