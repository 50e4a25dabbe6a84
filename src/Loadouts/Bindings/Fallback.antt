-- ===== src/Loadouts/Bindings/Fallback.antt =====
-- When `resolve` answers with the built-in loadout, and bindings that come and go.
use agent_recall.Common.{ℕ, String, Option, none, some, ◌≡◌, ◌⊎◌, ◌↔◌, refl, inl, inr}
use agent_recall.Loadouts.Rows.{LoadoutRow, LoadoutDb}
use agent_recall.Loadouts.Store.{
  MatchedRule, actor_project_task, actor_project, built_in_legacy_fallback, ResolveInput,
  Resolution, resolve_loadout,
}
use agent_recall.Loadouts.Bindings.{legacy_fallback, explicit_loadout, or_resolved, resolve}
use agent_recall.Loadouts.Precedence.Levels.{defaults_unreachable}

level_is_no_fallback :
    (rule : MatchedRule)
    → (rule ≡ actor_project_task) ⊎ (rule ≡ actor_project)
    → rule ≡ built_in_legacy_fallback
    → ⊥
level_is_no_fallback rule (inl h) k = cc
level_is_no_fallback rule (inr h) k = cc

or_resolved_falls_back :
    (input : ResolveInput) (now : ℕ) (db : LoadoutDb) (named : Option LoadoutRow)
    (found : Option Resolution)
    → resolve_loadout input db ≡ found
    → ((or_resolved input now db named).matched_rule ≡ built_in_legacy_fallback)
      ↔ ((named ≡ none) × (found ≡ none))
unfolding legacy_fallback
or_resolved_falls_back input now db (some loadout) found e =
    (λ h. absurd (cc), λ h. absurd (cc (h.0)))
or_resolved_falls_back input now db none none e = (λ h. (refl, refl), λ h. rw e refl)
or_resolved_falls_back input now db none (some r) e = (
  λ h. absurd (level_is_no_fallback r.matched_rule (defaults_unreachable input db r e) (rw e at h)),
  λ h. absurd (cc (h.1)),
)

-- `resolve` answers every call. It answers with the built-in loadout exactly where the call names no
-- active loadout and no level of the stored bindings matches.
pub resolve_falls_back :
    (input : ResolveInput) (explicit : Option String) (now : ℕ) (db : LoadoutDb)
    → ((resolve input explicit now db).matched_rule ≡ built_in_legacy_fallback)
      ↔ ((explicit_loadout explicit db ≡ none) × (resolve_loadout input db ≡ none))
unfolding resolve
resolve_falls_back input explicit now db =
    or_resolved_falls_back input now db (explicit_loadout explicit db) (resolve_loadout input db)
      refl
