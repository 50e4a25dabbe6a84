-- ===== src/Loadouts/Service.antt =====
-- `LoadoutService` of src/loadouts/service.ts. Minted ids and the clock are arguments. A method
-- runs without others in between, outside any transaction.
use agent_recall.Common.{
  ℕ, ◌+◌, String, Bool, true, false, ◌&&◌, ◌||◌, not, Option, none, some, List, [], ◌∷◌, ◌==◌, ltb,
  map, if◌then◌else◌, is_some, get_or, str_eq,
}
use agent_recall.Common.Effect.{
  Effect, Outcome, returned, thrown, ◌>>=◌, ◌>>◌, pure, throw, gets, stateful,
}
use agent_recall.Common.Table.{select_where, update_where, count_where, exists_where, insert_row}
use agent_recall.Loadouts.Rows.{
  Lifecycle, LoadoutScope, Channel, OrderingPolicy, Tier, LoadoutRow, RuleRow, BindingRow,
  LoadoutDb, LoadoutErrorCode, LoadoutError, coded, constraint_failed, is_global, same_channel,
}
use agent_recall.Loadouts.Store.{has_loadout_id, get_loadout}

abbrev pub LoadoutEffect : Type 0 → Type 0
LoadoutEffect A = Effect LoadoutDb LoadoutError A

unfoldable pub insert_loadout : LoadoutRow → LoadoutDb → Bool × LoadoutDb
insert_loadout row db =
    if exists_where (has_loadout_id row.loadout_id) db.loadouts
    then (false, db)
    else (true, record db { loadouts = insert_row row db.loadouts })

abbrev pub same_rule : RuleRow → RuleRow → Bool
same_rule a b =
    str_eq b.loadout_id a.loadout_id && b.version == a.version && same_channel b.channel a.channel

-- the PRIMARY KEY and the FOREIGN KEY throw
unfoldable pub insert_rule : RuleRow → LoadoutEffect (Unit {0})
insert_rule rule db =
    if exists_where (same_rule rule) db.rules || not (is_some (get_loadout rule.loadout_id db))
    then (thrown constraint_failed, db)
    else (returned tt, record db { rules = insert_row rule db.rules })

abbrev pub has_version : String → ℕ → LoadoutRow → Bool
has_version id version row = has_loadout_id id row && row.version == version

-- the UPDATE of `updateRules`, and whether it changed a row
unfoldable pub bump_version : String → ℕ → ℕ → ℕ → LoadoutDb → Bool × LoadoutDb
bump_version id version new_version now db = (
  ltb 0 (count_where (has_version id version) db.loadouts),
  record db {
    loadouts =
        update_where (has_version id version)
          (λ row. record row { version = new_version; updated_at = now }) db.loadouts;
  },
)

abbrev pub has_binding_id : String → BindingRow → Bool
has_binding_id id row = str_eq row.binding_id id

-- the FOREIGN KEY throws, the PRIMARY KEY returns false
unfoldable pub insert_binding : BindingRow → LoadoutEffect Bool
insert_binding row db =
    if exists_where (has_binding_id row.binding_id) db.bindings
    then (returned false, db)
    else if is_some (get_loadout row.loadout_id db)
    then (returned true, record db { bindings = insert_row row db.bindings })
    else (thrown constraint_failed, db)

unfoldable pub remove_binding : String → LoadoutDb → Bool × LoadoutDb
remove_binding id db = (
  ltb 0 (count_where (has_binding_id id) db.bindings),
  record db { bindings = select_where (λ row. not (has_binding_id id row)) db.bindings },
)

-- BEGIN IMMEDIATE, and COMMIT or ROLLBACK
abbrev pub commit_or_rollback :
    {A : Type 0}
    → LoadoutDb
    → Outcome LoadoutError A × LoadoutDb
    → Outcome LoadoutError A × LoadoutDb
commit_or_rollback before (returned a, after) = (returned a, after)
commit_or_rollback before (thrown e, after) = (thrown e, before)

pub record CreateInput : Type 0 where
  pub name : String
  pub scope : LoadoutScope
  pub project_id : Option String
  pub match_actor_id : Option String
  pub match_client_name : Option String
  pub task_mode : Option String
  pub created_by_actor_id : String

abbrev pub draft_row : CreateInput → String → ℕ → LoadoutRow
draft_row input id now = record {
  loadout_id = id;
  name = input.name;
  version = 1;
  lifecycle_state = Lifecycle.draft;
  match_actor_id = input.match_actor_id;
  match_client_name = input.match_client_name;
  scope = input.scope;
  project_id = input.project_id;
  task_mode = input.task_mode;
  created_by_actor_id = input.created_by_actor_id;
  created_at = now;
  updated_at = now;
}

unfoldable pub create_loadout : CreateInput → String → ℕ → LoadoutEffect String
unfolding insert_loadout
create_loadout input id now =
    if not (is_global input.scope) && not (is_some input.project_id)
    then throw (coded LoadoutErrorCode.project_id_required)
    else if is_global input.scope && is_some input.project_id
    then throw (coded LoadoutErrorCode.project_id_must_be_null)
    else do
      inserted ← stateful (insert_loadout (draft_row input id now))
      if inserted then pure id else throw (coded LoadoutErrorCode.duplicate_loadout)

pub record RulePatch : Type 0 where
  pub channel : Channel
  pub include_asset_ids : Option (List String)
  pub include_memory_ids : Option (List String)
  pub include_types : Option (List String)
  pub include_tiers : Option (List Tier)
  pub include_tags : Option (List String)
  pub include_topics : Option (List String)
  pub exclude_asset_ids : Option (List String)
  pub exclude_memory_ids : Option (List String)
  pub exclude_tags : Option (List String)
  pub required_refs : Option (List String)
  pub max_items : Option ℕ
  pub max_chars : Option ℕ
  pub max_tokens : Option ℕ
  pub timeout_ms : Option ℕ
  pub ordering_policy : Option OrderingPolicy

abbrev pub patched_rule : String → ℕ → RulePatch → RuleRow
patched_rule id version patch = record {
  loadout_id = id;
  version = version;
  channel = patch.channel;
  include_asset_ids = get_or patch.include_asset_ids [];
  include_memory_ids = get_or patch.include_memory_ids [];
  include_types = get_or patch.include_types [];
  include_tiers = get_or patch.include_tiers [];
  include_tags = get_or patch.include_tags [];
  include_topics = get_or patch.include_topics [];
  exclude_asset_ids = get_or patch.exclude_asset_ids [];
  exclude_memory_ids = get_or patch.exclude_memory_ids [];
  exclude_tags = get_or patch.exclude_tags [];
  required_refs = get_or patch.required_refs [];
  max_items = get_or patch.max_items 32;
  max_chars = get_or patch.max_chars 8000;
  max_tokens = patch.max_tokens;
  timeout_ms = get_or patch.timeout_ms 5000;
  ordering_policy = get_or patch.ordering_policy OrderingPolicy.rule_then_score;
}

unfoldable pub insert_all_rules : List RuleRow → LoadoutEffect (Unit {0})
unfolding insert_rule
insert_all_rules [] = pure tt
insert_all_rules (rule ∷ rules) = insert_rule rule >>= λ _. insert_all_rules rules

-- the body of the transaction
unfoldable pub write_rules : String → List RulePatch → ℕ → ℕ → LoadoutEffect (Unit {0})
unfolding insert_all_rules bump_version
write_rules id patches version now = do
  insert_all_rules (map (patched_rule id (version + 1)) patches)
  bumped ← stateful (bump_version id version (version + 1) now)
  if bumped then pure tt else throw (coded LoadoutErrorCode.cas_mismatch)

abbrev pub or_not_found : Option LoadoutRow → LoadoutEffect LoadoutRow
or_not_found none = throw (coded LoadoutErrorCode.loadout_not_found)
or_not_found (some row) = pure row

abbrev pub expects_other : Option ℕ → ℕ → Bool
expects_other none version = false
expects_other (some expected) version = not (version == expected)

abbrev pub write_and_read : String → List RulePatch → ℕ → ℕ → LoadoutEffect LoadoutRow
write_and_read id patches version now = do
  (λ db. commit_or_rollback db (write_rules id patches version now db))
  updated ← gets (get_loadout id)
  or_not_found updated

unfoldable pub update_rules : String → List RulePatch → Option ℕ → ℕ → LoadoutEffect LoadoutRow
unfolding write_rules
update_rules id [] expected now = throw (coded LoadoutErrorCode.invalid_scope)
update_rules id (patch ∷ patches) expected now = do
  found ← gets (get_loadout id)
  current ← or_not_found found
  if expects_other expected current.version
      then throw (coded LoadoutErrorCode.cas_mismatch)
      else write_and_read id (patch ∷ patches) current.version now
