-- ===== src/Scopes/Rows.antt =====
-- `project_identities` and `project_aliases_new` with the statements of src/sqlite-store.ts on them.
use agent_recall.Common.{ℕ, String, Bool, Option, List, str_eq, if◌then◌else◌}
use agent_recall.Common.Table.{first_where, exists_where, insert_row}
use agent_recall.Common.Effect.{Effect, returned, thrown}

pub record IdentityRow : Type 0 where
  pub project_id : String
  pub canonical_path : String
  pub created_by : String
  pub created_at : String

pub data AliasKind : Type 0 where
  path git_head worktree : AliasKind

pub record AliasRow : Type 0 where
  pub alias : String
  pub project_id : String
  pub canonical_path : String
  pub alias_kind : AliasKind
  pub recorded_by : String
  pub recorded_at : ℕ

pub record ScopeDb : Type 0 where
  pub identities : List IdentityRow
  pub aliases : List AliasRow

pub data DbError : Type 0 where
  foreign_key_failed : DbError

abbrev pub ScopeEffect : Type 0 → Type 0
ScopeEffect A = Effect ScopeDb DbError A

abbrev pub has_project_id : String → IdentityRow → Bool
has_project_id id row = str_eq row.project_id id

abbrev pub has_alias : String → AliasRow → Bool
has_alias alias row = str_eq row.alias alias

abbrev pub get_project_identity : String → ScopeDb → Option IdentityRow
get_project_identity id db = first_where (has_project_id id) db.identities

abbrev pub get_project_alias_by_path : String → ScopeDb → Option AliasRow
get_project_alias_by_path alias db = first_where (has_alias alias) db.aliases

-- `INSERT OR IGNORE`
unfoldable pub create_project_identity : IdentityRow → ScopeEffect (Unit {0})
create_project_identity row db =
    if exists_where (has_project_id row.project_id) db.identities
    then (returned tt, db)
    else (returned tt, record db { identities = insert_row row db.identities })

-- `INSERT OR IGNORE`, which does not ignore a broken FOREIGN KEY
unfoldable pub create_project_alias : AliasRow → ScopeEffect (Unit {0})
create_project_alias row db =
    if exists_where (has_alias row.alias) db.aliases
    then (returned tt, db)
    else if exists_where (has_project_id row.project_id) db.identities
    then (returned tt, record db { aliases = insert_row row db.aliases })
    else (thrown foreign_key_failed, db)
