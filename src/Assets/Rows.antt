-- ===== src/Assets/Rows.antt =====
-- The tables `assets`, `asset_versions` and `memory_ref_bindings`, and the statements of
-- src/sqlite-store.ts on them.
use agent_recall.Common.{
  ℕ, ◌==◌, String, Bool, true, false, ◌&&◌, ◌||◌, not, Option, none, some, List, str_eq, ltb,
  is_some, if◌then◌else◌,
}
use mathlib.Core.Option
use agent_recall.Common.Table.{first_where, exists_where, insert_row, update_where}
use agent_recall.Common.Effect.{Effect, returned, thrown}

pub data AssetType : Type 0 where
  memory_ref skill context_pack external_reference : AssetType

pub data AssetLifecycleState : Type 0 where
  draft active deprecated archived : AssetLifecycleState

pub data AssetScope : Type 0 where
  global project : AssetScope

pub data ProvenanceKind : Type 0 where
  manual derivation_run import_batch external : ProvenanceKind

pub record AssetRow : Type 0 where
  pub asset_id : String
  pub asset_type : AssetType
  pub scope : AssetScope
  pub project_id : Option String
  pub owner_actor_id : String
  pub lifecycle_state : AssetLifecycleState
  pub current_version : ℕ
  pub trust_level : String
  pub sensitivity : String
  pub metadata_json : String
  pub created_at : String
  pub updated_at : String
  pub archived_at : Option String

pub record AssetVersionRow : Type 0 where
  pub asset_id : String
  pub version : ℕ
  pub schema_version : String
  pub content_hash : String
  pub manifest_json : String
  pub created_by_actor_id : String
  pub provenance_kind : ProvenanceKind
  pub provenance_ref : Option String
  pub created_at : String

pub record MemoryRefBindingRow : Type 0 where
  pub asset_id : String
  pub version : ℕ
  pub memory_id : String
  pub memory_revision : ℕ
  pub binding_rule : Option String
  pub note : Option String

pub record AssetDb : Type 0 where
  pub assets : List AssetRow
  pub versions : List AssetVersionRow
  pub bindings : List MemoryRefBindingRow

pub data AssetError : Type 0 where
  asset_not_found asset_already_terminal cas_mismatch binding_invalid : AssetError
  asset_id_collision append_failed constraint_failed : AssetError

abbrev pub AssetEffect : Type 0 → Type 0
AssetEffect A = Effect AssetDb AssetError A

abbrev pub same_state : AssetLifecycleState → AssetLifecycleState → Bool
same_state draft draft = true
same_state active active = true
same_state deprecated deprecated = true
same_state archived archived = true
same_state _ _ = false

abbrev pub is_archived : AssetLifecycleState → Bool
is_archived archived = true
is_archived _ = false

abbrev pub is_global : AssetScope → Bool
is_global global = true
is_global _ = false

abbrev pub has_asset_id : String → AssetRow → Bool
has_asset_id id row = str_eq row.asset_id id

abbrev pub get_asset : String → AssetDb → Option AssetRow
get_asset id db = first_where (has_asset_id id) db.assets

-- the two CHECKs on a row of `assets`
abbrev pub breaks_check : AssetRow → Bool
breaks_check row =
    (if is_global row.scope then is_some row.project_id else not (is_some row.project_id))
    || (is_archived row.lifecycle_state && not (is_some row.archived_at))

-- `false` where the id is taken
unfoldable pub insert_asset : AssetRow → AssetEffect Bool
insert_asset row db =
    if breaks_check row
    then (thrown constraint_failed, db)
    else if exists_where (has_asset_id row.asset_id) db.assets
    then (returned false, db)
    else (returned true, record db { assets = insert_row row db.assets })

abbrev pub is_version : String → ℕ → AssetVersionRow → Bool
is_version id version row = str_eq row.asset_id id && row.version == version

-- the PRIMARY KEY, the FOREIGN KEY and the CHECK of a version
abbrev pub breaks_version_rules : AssetVersionRow → AssetDb → Bool
breaks_version_rules row db =
    exists_where (is_version row.asset_id row.version) db.versions
    || not (exists_where (has_asset_id row.asset_id) db.assets)
    || not (ltb 0 row.version)

abbrev pub at_version : String → ℕ → AssetRow → Bool
at_version id version row = str_eq row.asset_id id && row.current_version == version

abbrev pub advanced : ℕ → String → AssetRow → AssetRow
advanced version now row = record row { current_version = version; updated_at = now }

-- One transaction. It commits also where the UPDATE meets no row.
unfoldable pub append_asset_version : AssetVersionRow → ℕ → AssetEffect (Option AssetRow)
append_asset_version row expected db =
    if breaks_version_rules row db then (thrown constraint_failed, db) else (
      returned (
          Option.map (advanced row.version row.created_at)
            (first_where (at_version row.asset_id expected) db.assets)),
      record db {
        assets =
            update_where (at_version row.asset_id expected) (advanced row.version row.created_at)
              db.assets;
        versions = insert_row row db.versions;
      },
    )

abbrev pub in_state : String → AssetLifecycleState → AssetRow → Bool
in_state id state row = str_eq row.asset_id id && same_state row.lifecycle_state state

abbrev pub moved : AssetLifecycleState → String → AssetRow → AssetRow
moved state now row = record row {
  lifecycle_state = state;
  archived_at = if is_archived state then some now else none;
  updated_at = now;
}

unfoldable pub set_asset_lifecycle :
    String
    → AssetLifecycleState
    → AssetLifecycleState
    → String
    → AssetDb
    → Option AssetRow × AssetDb
set_asset_lifecycle id expected state now db = (
  Option.map (moved state now) (first_where (in_state id expected) db.assets),
  record db { assets = update_where (in_state id expected) (moved state now) db.assets },
)

abbrev pub is_binding_of : MemoryRefBindingRow → MemoryRefBindingRow → Bool
is_binding_of new row = str_eq row.asset_id new.asset_id && row.version == new.version

-- `false` where the version has a binding. The FOREIGN KEY goes to the memory entries, another table.
unfoldable pub insert_memory_ref_binding : (String → Bool) → MemoryRefBindingRow → AssetEffect Bool
insert_memory_ref_binding memory_exists row db =
    if exists_where (is_binding_of row) db.bindings
    then (returned false, db)
    else if not (memory_exists row.memory_id) || not (ltb 0 row.memory_revision)
    then (thrown constraint_failed, db)
    else (returned true, record db { bindings = insert_row row db.bindings })
