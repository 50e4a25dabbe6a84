-- ===== src/Assets/Service.antt =====
-- `AssetService` of src/assets/service.ts. The minted id and the time, the content hash and the manifest
-- (SHA-256 and JSON of the input), and the test of the form of a body hash are arguments.
use agent_recall.Common.{
  ℕ, ◌+◌, ◌==◌, String, Bool, true, false, ◌&&◌, ◌||◌, not, Option, none, some, List, str_eq, leb,
  get_or, is_some,
}
use agent_recall.Common.Table.{select_where}
use agent_recall.Common.Order.{order_with}
use agent_recall.Common.Effect.{◌>>=◌, pure, throw, gets, stateful}
use agent_recall.Assets.Rows.{
  AssetType, memory_ref, skill, AssetLifecycleState, draft, AssetScope, ProvenanceKind, manual,
  AssetRow, AssetVersionRow, MemoryRefBindingRow, AssetDb, AssetError, asset_not_found,
  asset_already_terminal, cas_mismatch, binding_invalid, asset_id_collision, append_failed,
  AssetEffect, is_archived, is_global, get_asset, insert_asset, append_asset_version,
  set_asset_lifecycle, insert_memory_ref_binding,
}

pub record AssetInput : Type 0 where
  pub asset_type : AssetType
  pub scope : AssetScope
  pub project_id : Option String
  pub owner_actor_id : String
  pub trust_level : String
  pub sensitivity : String
  pub content_hash : String
  pub manifest_json : String
  pub provenance_kind : ProvenanceKind
  pub provenance_ref : Option String

pub record MemoryRefInput : Type 0 where
  pub asset : AssetInput
  pub memory_id : String
  pub memory_revision : ℕ
  pub binding_rule : Option String
  pub note : Option String

pub record AppendInput : Type 0 where
  pub asset_id : String
  pub expected_previous_version : ℕ
  pub body_hash : String
  pub manifest_json : String
  pub created_by_actor_id : String
  pub provenance_kind : Option ProvenanceKind
  pub provenance_ref : Option String

pub record CreateResult : Type 0 where
  pub asset_id : String
  pub version : ℕ
  pub content_hash : String

abbrev pub lacks_project : AssetInput → Bool
lacks_project input = not (is_global input.scope) && not (is_some input.project_id)

abbrev pub envelope : AssetInput → String → String → AssetRow
envelope input id now = record {
  asset_id = id;
  asset_type = input.asset_type;
  scope = input.scope;
  project_id = input.project_id;
  owner_actor_id = input.owner_actor_id;
  lifecycle_state = draft;
  current_version = 0;
  trust_level = input.trust_level;
  sensitivity = input.sensitivity;
  metadata_json = "{}";
  created_at = now;
  updated_at = now;
  archived_at = none;
}

abbrev pub first_version : AssetInput → String → String → AssetVersionRow
first_version input id now = record {
  asset_id = id;
  version = 1;
  schema_version = "1";
  content_hash = input.content_hash;
  manifest_json = input.manifest_json;
  created_by_actor_id = input.owner_actor_id;
  provenance_kind = input.provenance_kind;
  provenance_ref = input.provenance_ref;
  created_at = now;
}

abbrev pub require : Bool → AssetError → AssetEffect (Unit {0})
require true e = pure tt
require false e = throw e

abbrev pub or_error : Option AssetRow → AssetError → AssetEffect AssetRow
or_error none e = throw e
or_error (some row) e = pure row

-- the envelope and version 1, which both ways to create an asset write
unfoldable pub create_asset : AssetInput → String → String → AssetEffect CreateResult
unfolding insert_asset append_asset_version
create_asset input id now = do
  inserted ← insert_asset (envelope input id now)
  _ ← require inserted asset_id_collision
  updated ← append_asset_version (first_version input id now) 0
  _ ← or_error updated append_failed
  pure (record { asset_id = id; version = 1; content_hash = input.content_hash })

abbrev pub binding_row : MemoryRefInput → String → MemoryRefBindingRow
binding_row input id = record {
  asset_id = id;
  version = 1;
  memory_id = input.memory_id;
  memory_revision = input.memory_revision;
  binding_rule = input.binding_rule;
  note = input.note;
}

abbrev pub as_memory_ref : AssetInput → AssetInput
as_memory_ref input = record input {
  asset_type = memory_ref;
  provenance_kind = manual;
  provenance_ref = none;
}

unfoldable pub create_memory_ref :
    (String → Bool) → MemoryRefInput → String → String → AssetEffect CreateResult
unfolding create_asset insert_memory_ref_binding
create_memory_ref memory_exists input id now = do
  _ ← require (not (lacks_project input.asset)) binding_invalid
  _ ← require (not (str_eq input.memory_id "" || input.memory_revision == 0)) binding_invalid
  result ← create_asset (as_memory_ref input.asset) id now
  _ ← insert_memory_ref_binding memory_exists (binding_row input id)
  pure result

module _ (is_body_hash : String → Bool) where
  abbrev pub as_skill : AssetInput → AssetInput
  as_skill input = record input { asset_type = skill }

  unfoldable pub create_skill_version : AssetInput → String → String → AssetEffect CreateResult
  unfolding create_asset
  create_skill_version input id now = do
    _ ← require (not (lacks_project input)) binding_invalid
    _ ← require (is_body_hash input.content_hash) binding_invalid
    create_asset (as_skill input) id now

  abbrev pub is_skill : AssetType → Bool
  is_skill skill = true
  is_skill _ = false

  abbrev pub next_version : AppendInput → ℕ → String → AssetVersionRow
  next_version input version now = record {
    asset_id = input.asset_id;
    version = version;
    schema_version = "1";
    content_hash = input.body_hash;
    manifest_json = input.manifest_json;
    created_by_actor_id = input.created_by_actor_id;
    provenance_kind = get_or input.provenance_kind manual;
    provenance_ref = input.provenance_ref;
    created_at = now;
  }

  unfoldable pub append_skill_version : AppendInput → String → AssetEffect CreateResult
  unfolding append_asset_version
  append_skill_version input now = do
    _ ← require (is_body_hash input.body_hash) binding_invalid
    found ← gets (get_asset input.asset_id)
    asset ← or_error found asset_not_found
    _ ← require (is_skill asset.asset_type) binding_invalid
    _ ← require (asset.current_version == input.expected_previous_version) cas_mismatch
    updated ←
        append_asset_version (next_version input (asset.current_version + 1) now)
          input.expected_previous_version
    _ ← or_error updated cas_mismatch
    pure (record {
      asset_id = input.asset_id;
      version = asset.current_version + 1;
      content_hash = input.body_hash;
    })

unfoldable pub set_lifecycle : String → AssetLifecycleState → String → AssetEffect AssetRow
unfolding set_asset_lifecycle
set_lifecycle id state now = do
  found ← gets (get_asset id)
  asset ← or_error found asset_not_found
  _ ←
      require (not (is_archived asset.lifecycle_state && not (is_archived state)))
        asset_already_terminal
  updated ← stateful (set_asset_lifecycle id asset.lifecycle_state state now)
  or_error updated cas_mismatch

abbrev pub of_asset : String → AssetVersionRow → Bool
of_asset id row = str_eq row.asset_id id

abbrev pub version_le : AssetVersionRow → AssetVersionRow → Bool
version_le a b = leb a.version b.version

-- `listAssetVersions`
unfoldable pub history : String → AssetDb → List AssetVersionRow
history id db = order_with version_le (select_where (of_asset id) db.versions)
