-- ===== src/Assets/Tests.antt =====
-- Two versions of a skill.
use agent_recall.Common.{String, Bool, true, false, none, List, [], ◌∷◌, ◌≡◌, refl}
use agent_recall.Common.Effect.{thrown}
use agent_recall.Common.Table.{first_where, exists_where, insert_row, update_where}
use agent_recall.Assets.Rows.{
  skill, AssetDb, AssetScope, manual, archived, active, cas_mismatch, asset_already_terminal,
  constraint_failed,
}
use agent_recall.Assets.Service.{
  AssetInput, MemoryRefInput, AppendInput, append_skill_version, create_skill_version,
  set_lifecycle, create_memory_ref,
}
use agent_recall.Assets.Invariant.{HasAllVersions}
use agent_recall.Assets.Invariant.Calls.{
  Call, create_skill_call, append_call, lifecycle_call, after_calls, after_calls-HasAllVersions,
}

abbrev no_assets : AssetDb
no_assets = record { assets = []; versions = []; bindings = [] }

abbrev anything : String → Bool
anything text = true

abbrev nothing : String → Bool
nothing text = false

abbrev lint_skill : AssetInput
lint_skill = record {
  asset_type = skill;
  scope = AssetScope.global;
  project_id = none;
  owner_actor_id = "alice";
  trust_level = "user_confirmed";
  sensitivity = "normal";
  content_hash = "h1";
  manifest_json = "{}";
  provenance_kind = manual;
  provenance_ref = none;
}

abbrev second_body : AppendInput
second_body = record {
  asset_id = "a1";
  expected_previous_version = 1;
  body_hash = "h2";
  manifest_json = "{}";
  created_by_actor_id = "alice";
  provenance_kind = none;
  provenance_ref = none;
}

abbrev unknown_memory : MemoryRefInput
unknown_memory = record {
  asset = lint_skill;
  memory_id = "m1";
  memory_revision = 1;
  binding_rule = none;
  note = none;
}

abbrev two_versions : List Call
two_versions =
    create_skill_call lint_skill "a1" "t1"
    ∷ append_call second_body "t2"
    ∷ lifecycle_call "a1" archived "t3"
    ∷ []

-- the same append again is refused
append_again :
    (append_skill_version anything second_body "t4"
      (after_calls anything anything two_versions no_assets)).0
    ≡ thrown cas_mismatch
unfolding append_skill_version first_where after_calls set_lifecycle create_skill_version
    exists_where insert_row update_where
append_again = refl

activate_again :
    (set_lifecycle "a1" active "t4" (after_calls anything anything two_versions no_assets)).0
    ≡ thrown asset_already_terminal
unfolding append_skill_version first_where after_calls set_lifecycle create_skill_version
    exists_where insert_row update_where
activate_again = refl

-- the reference is refused after its asset and version 1 are stored
dangling_reference :
    (create_memory_ref nothing unknown_memory "a2" "t1" no_assets).0 ≡ thrown constraint_failed
unfolding create_memory_ref exists_where insert_row first_where
dangling_reference = refl

no_assets-HasAllVersions : HasAllVersions no_assets
unfolding first_where exists_where
no_assets-HasAllVersions = record {
  owned = λ id n free. refl;
  counted = λ id row n found. absurd (cc found);
}

after_calls-HasAllVersions_example :
    HasAllVersions (after_calls anything anything two_versions no_assets)
after_calls-HasAllVersions_example =
    after_calls-HasAllVersions anything anything two_versions no_assets no_assets-HasAllVersions
