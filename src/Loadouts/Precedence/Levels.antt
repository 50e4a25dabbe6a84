-- ===== src/Loadouts/Precedence/Levels.antt =====
-- The four levels of `resolveLoadout` in order.
use agent_recall.Common.{
  true, Option, none, some, List, [], ◌∷◌, ◌≡◌, refl, sym, ◌∙◌, ◌⊎◌, inl, inr, subst, arith,
  Bool-cases, Option-cases,
}
use agent_recall.Common.Order.{head, select_where_nil}
use agent_recall.Loadouts.Rows.{LoadoutRow, BindingRow, LoadoutDb}
use agent_recall.Loadouts.Store.{
  get_loadout, rules_for_version, MatchedRule, actor_project_task, actor_project, project_default,
  global_default, ResolveInput, level_where, level_rows, Resolution, is_skipped, level_result,
  resolve_levels, resolve_loadout,
}
use agent_recall.Loadouts.Precedence.{
  IsBest, level_rows-none, level_rows_empty, level_rows_matches, level_rows_greatest,
  matching_is_live, live_is_there,
}

-- the level finds a binding: its loadout is there, and the level's result is the best binding
pub record Found (rule : MatchedRule) (input : ResolveInput) (db : LoadoutDb) (b : BindingRow)
    : Type 0 where
  pub value : Resolution
  pub result : (later : Option Resolution) → level_result rule db (some b) later ≡ some value
  pub of_level : value.matched_rule ≡ rule
  pub best : IsBest input db value

Found-intro :
    (rule : MatchedRule) (input : ResolveInput) (db : LoadoutDb) (b : BindingRow) (l : LoadoutRow)
    → get_loadout b.loadout_id db ≡ some l
    → head (level_rows rule input db) ≡ some b
    → Found rule input db b
Found-intro rule input db b l found h = record {
  value = record {
    binding = b;
    loadout = l;
    rules = rules_for_version l.loadout_id l.version db;
    matched_rule = rule;
  };
  result = λ later. rw (level_result, found) refl;
  of_level = refl;
  best = record {
    matches = level_rows_matches rule input db b h;
    greatest = level_rows_greatest rule input db b h;
    loadout = found;
    rules = refl;
  };
}

level_Found :
    (rule : MatchedRule) (input : ResolveInput) (db : LoadoutDb) (b : BindingRow)
    → head (level_rows rule input db) ≡ some b
    → Found rule input db b
level_Found rule input db b h =
    let there =
      live_is_there (get_loadout b.loadout_id db)
        (matching_is_live rule input db b (level_rows_matches rule input db b h)) in
    Found-intro rule input db b there.0 there.1 h

of_some : {A : Type 0} {a b : A} → ◌≡◌ {A = Option A} (some a) (some b) → a ≡ b
of_some h = cc

module _ (input : ResolveInput) (db : LoadoutDb) where
  resolve_levels-IsBest :
      (rules : List MatchedRule) (r : Resolution)
      → resolve_levels rules input db ≡ some r
      → IsBest input db r
  unfolding resolve_levels
  resolve_levels-IsBest [] r h = cc
  resolve_levels-IsBest (rule ∷ rules) r h = elim (Bool-cases (is_skipped rule input)) [
    | inl e ↦ resolve_levels-IsBest rules r (rw e at h)
    | inr e ↦ elim (Option-cases (head (level_rows rule input db))) [
      | inl k ↦ resolve_levels-IsBest rules r (rw (e, k) at h)
      | inr (b, k) ↦
          let found = level_Found rule input db b k in
          subst (λ (x : Resolution). IsBest input db x)
            (of_some (sym (found.result (resolve_levels rules input db)) ∙ (rw (e, k) at h)))
            found.best
    ]
  ]

  -- A resolved binding meets the WHERE of the level it is reported at, no binding that meets that
  -- has a greater priority, its loadout exists, and the rules are those of the loadout's current
  -- version.
  pub resolve_loadout-IsBest :
      (r : Resolution) → resolve_loadout input db ≡ some r → IsBest input db r
  unfolding resolve_loadout
  resolve_loadout-IsBest r h =
      resolve_levels-IsBest
        (actor_project_task ∷ actor_project ∷ project_default ∷ global_default ∷ []) r h

  -- a level whose WHERE is narrower finds nothing where the wider one finds nothing
  empty_below :
      (wide narrow : MatchedRule)
      → ((b : BindingRow)
          → level_where narrow input db b ≡ true
          → level_where wide input db b ≡ true)
      → head (level_rows wide input db) ≡ none
      → head (level_rows narrow input db) ≡ none
  empty_below wide narrow w h = level_rows_empty narrow input db (
      select_where_nil (level_where wide input db) (level_where narrow input db) db.bindings w
        (level_rows-none wide input db h))

  project_in_actor :
      (b : BindingRow)
      → level_where project_default input db b ≡ true
      → level_where actor_project input db b ≡ true
  project_in_actor b h = ground arith

  global_in_actor :
      (b : BindingRow)
      → level_where global_default input db b ≡ true
      → level_where actor_project input db b ≡ true
  global_in_actor b h = ground arith

  no_default :
      head (level_rows actor_project input db) ≡ none
      → resolve_levels (actor_project ∷ project_default ∷ global_default ∷ []) input db ≡ none
  unfolding resolve_levels
  no_default h = rw (
    h,
    empty_below actor_project project_default project_in_actor h,
    empty_below actor_project global_default global_in_actor h,
  )

  level_two :
      (r : Resolution)
      → resolve_levels (actor_project ∷ project_default ∷ global_default ∷ []) input db ≡ some r
      → r.matched_rule ≡ actor_project
  unfolding resolve_levels
  level_two r h = elim (Option-cases (head (level_rows actor_project input db))) [
    | inl k ↦ absurd (cc (no_default k, h))
    | inr (b, k) ↦
        let found = level_Found actor_project input db b k in
        subst (λ (x : Resolution). x.matched_rule ≡ actor_project)
          (of_some (sym (found.result _) ∙ (rw k at h))) found.of_level
  ]

  -- A resolution is never reported as `project_default` or `global_default`: every binding that
  -- those levels match is matched by the query of level 2, so it comes out as `actor_project`,
  -- or as `actor_project_task` where the call has a task mode.
  pub defaults_unreachable :
      (r : Resolution)
      → resolve_loadout input db ≡ some r
      → (r.matched_rule ≡ actor_project_task) ⊎ (r.matched_rule ≡ actor_project)
  unfolding resolve_loadout
  defaults_unreachable r h = elim (Bool-cases (is_skipped actor_project_task input)) [
    | inl e ↦ inr (level_two r (rw e at h))
    | inr e ↦ elim (Option-cases (head (level_rows actor_project_task input db))) [
      | inl k ↦ inr (level_two r (rw (e, k) at h))
      | inr (b, k) ↦
          let found = level_Found actor_project_task input db b k in
          inl (
            subst (λ (x : Resolution). x.matched_rule ≡ actor_project_task)
              (of_some (sym (found.result _) ∙ (rw (e, k) at h))) found.of_level)
    ]
  ]
