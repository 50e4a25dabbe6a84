-- ===== src/Scopes/Resolver.antt =====
-- `ProjectIdentityResolver` and `resolveMemoryScopeWithStore` of src/scope-resolver.ts.
pub mod Cases
pub mod Reads
pub mod Grows
pub mod Registered
pub mod Again
pub mod Kept
pub use agent_recall.Scopes.Inputs.{
  MemoryScope, IdentityStatus, Mode, ScopeInput, ResolvedScope, ResolveError, Resolution, Host,
  Stamp, truthy, or_text, drop_end_dots, global_scope, is_lookup, bound_elsewhere, global, project,
  bound, unbound, absent, lookup, register, strict_existing, invalid_scope,
  project_identity_conflict, resolved, refused,
}
use agent_recall.Common.{
  ℕ, String, Bool, true, false, ◌&&◌, ◌||◌, not, Option, none, some, str_eq, if◌then◌else◌, get_or,
}
use agent_recall.Common.Effect.{Effect, Outcome, returned, thrown, ◌>>=◌, ◌>>◌, pure, gets}
use Prim.Native.String
use agent_recall.Scopes.Names.{
  any_char, is_alphanumeric, ends_with_dot, is_windows_unsafe, sanitize_project_id,
  normalize_project_id,
}
use agent_recall.Scopes.Rows.{
  IdentityRow, AliasKind, path, worktree, AliasRow, ScopeDb, DbError, ScopeEffect,
  get_project_identity, get_project_alias_by_path, create_project_identity, create_project_alias,
}

module _ (host : Host) where
  abbrev pub alias_key : String → String
  alias_key text = if host.is_windows then host.to_lower_case text else text

  unfoldable pub sanitize_derived_project_name : String → String
  unfolding drop_end_dots
  sanitize_derived_project_name value =
      let sanitized = drop_end_dots (sanitize_project_id host.trim value) in
      if any_char is_alphanumeric sanitized && not (is_windows_unsafe sanitized)
      then sanitized
      else "project"

  unfoldable pub derive_project_id : String → String
  unfolding sanitize_derived_project_name
  derive_project_id canonical =
      String.◌++◌ (sanitize_derived_project_name (or_text (host.basename canonical) "project"))
        (String.◌++◌ "-" (host.hash canonical))

  -- a scope with its path
  abbrev pub located : String → String → IdentityStatus → ResolvedScope
  located id canonical status = record {
    scope = project;
    project_id = some id;
    project_path = some canonical;
    display_name = some (host.basename canonical);
    identity_status = some status;
  }

  abbrev pub bound_to : String → IdentityRow → Resolution
  bound_to id row = resolved (located id row.canonical_path bound)

  abbrev pub or_absent : String → String → Option IdentityRow → Resolution
  or_absent requested canonical none = resolved (located requested canonical absent)
  or_absent requested canonical (some row) = bound_to requested row

  abbrev pub or_conflict : String → Option IdentityRow → Resolution
  or_conflict requested none = refused project_identity_conflict
  or_conflict requested (some row) = bound_to requested row

  abbrev pub bound_or : Option IdentityRow → String → Resolution → Resolution
  bound_or none id other = other
  bound_or (some row) id other = bound_to id row

  unfoldable pub lookup_identity :
      ScopeDb → String → String → Option AliasRow → Option IdentityRow → Resolution
  lookup_identity db requested canonical none existing = or_absent requested canonical existing
  lookup_identity db requested canonical (some alias) existing =
      if str_eq alias.project_id requested
      then bound_or (get_project_identity alias.project_id db) alias.project_id
          (or_absent requested canonical existing)
      else or_absent requested canonical existing

  unfoldable pub strict_existing_identity :
      ScopeDb → String → Option AliasRow → Option IdentityRow → Resolution
  strict_existing_identity db requested none existing = or_conflict requested existing
  strict_existing_identity db requested (some alias) existing =
      bound_or (get_project_identity alias.project_id db) alias.project_id
        (or_conflict requested existing)

  abbrev pub identity_row : String → String → Stamp → IdentityRow
  identity_row id canonical stamp = record {
    project_id = id;
    canonical_path = canonical;
    created_by = stamp.recorded_by;
    created_at = stamp.now_iso;
  }

  abbrev pub keep_or_create : String → String → Stamp → Option IdentityRow → ScopeEffect String
  keep_or_create id canonical stamp (some row) = pure row.canonical_path
  keep_or_create id canonical stamp none = do
    _ ← create_project_identity (identity_row id canonical stamp)
    pure canonical

  unfoldable pub upsert_project_identity : String → String → Stamp → ScopeEffect String
  unfolding create_project_identity
  upsert_project_identity id canonical stamp = do
    existing ← gets (get_project_identity id)
    keep_or_create id canonical stamp existing

  unfoldable pub register_alias :
      String → String → String → AliasKind → Stamp → ScopeEffect (Unit {0})
  unfolding create_project_alias
  register_alias alias id canonical kind stamp = create_project_alias record {
    alias = alias;
    project_id = id;
    canonical_path = canonical;
    alias_kind = kind;
    recorded_by = stamp.recorded_by;
    recorded_at = stamp.now_ms;
  }

  abbrev pub same_head : Option String → Option String → Bool
  same_head (some a) (some b) = str_eq b a
  same_head _ _ = false

  abbrev pub is_missing : Option AliasRow → Bool
  is_missing none = true
  is_missing (some alias) = false

  -- a statement under an `if`
  abbrev pub when : Bool → ScopeEffect (Unit {0}) → ScopeEffect (Unit {0})
  when true m = m
  when false m = pure tt

  unfoldable pub register_identity :
      String → String → Stamp → Option AliasRow → ScopeEffect Resolution
  unfolding upsert_project_identity register_alias
  register_identity requested project_path stamp alias = do
    canonical ← upsert_project_identity requested project_path stamp
    _ ←
        when (is_missing alias)
          (register_alias (alias_key project_path) requested canonical path stamp)
    _ ←
        when
          (not (str_eq canonical project_path)
            && same_head (host.git_head_for project_path) (host.git_head_for canonical))
          (register_alias (alias_key project_path) requested canonical worktree stamp)
    pure (resolved (located requested canonical bound))

  -- the branch of a mode, once the id is known
  unfoldable pub resolve_in_mode :
      Mode → String → String → Stamp → Option AliasRow → ScopeEffect Resolution
  unfolding register_identity strict_existing_identity lookup_identity
  resolve_in_mode register requested canonical stamp alias =
      register_identity requested canonical stamp alias
  resolve_in_mode strict_existing requested canonical stamp alias =
      gets (λ db. strict_existing_identity db requested alias (get_project_identity requested db))
  resolve_in_mode lookup requested canonical stamp alias =
      gets (λ db. lookup_identity db requested canonical alias (get_project_identity requested db))

  abbrev pub gives_id : Option String → Bool
  gives_id none = false
  gives_id (some id) = true

  abbrev pub requested_id : Option String → String → Option String
  requested_id none canonical = some (derive_project_id canonical)
  requested_id (some id) canonical = normalize_project_id host.trim id

  abbrev pub unless_conflict : Bool → ScopeEffect Resolution → ScopeEffect Resolution
  unless_conflict true m = pure (refused project_identity_conflict)
  unless_conflict false m = m

  unfoldable pub resolve_requested :
      Mode → Bool → Option String → String → Stamp → ScopeEffect Resolution
  unfolding resolve_in_mode
  resolve_requested mode given none canonical stamp = pure (refused invalid_scope)
  resolve_requested mode given (some requested) canonical stamp = do
    alias ← gets (get_project_alias_by_path (alias_key canonical))
    unless_conflict (not (is_lookup mode) && given && bound_elsewhere requested alias)
        (resolve_in_mode mode requested canonical stamp alias)

  -- `resolveMemoryScopeWithStore` on a path
  unfoldable pub resolve_path : Mode → Option String → String → Stamp → ScopeEffect Resolution
  unfolding resolve_requested
  resolve_path mode id text stamp =
      let canonical = host.canonicalize_path text in
      resolve_requested mode (gives_id id) (requested_id id canonical) canonical stamp

  abbrev pub unlocated : String → IdentityStatus → Resolution
  unlocated id status = resolved record {
    scope = project;
    project_id = some id;
    project_path = none;
    display_name = none;
    identity_status = some status;
  }

  abbrev pub unregistered : Mode → Bool → String → Resolution
  unregistered lookup allow_unbound id = unlocated id absent
  unregistered _ allow_unbound id =
      if allow_unbound then unlocated id unbound else refused invalid_scope

  unfoldable pub resolve_id : Mode → Bool → String → ScopeDb → Resolution
  resolve_id mode allow_unbound id db =
      bound_or (get_project_identity id db) id (unregistered mode allow_unbound id)

  abbrev pub resolve_project :
      Mode → Bool → Option String → Option String → Stamp → ScopeEffect Resolution
  resolve_project mode allow_unbound id (some text) stamp = resolve_path mode id text stamp
  resolve_project mode allow_unbound (some id) none stamp = gets (resolve_id mode allow_unbound id)
  resolve_project mode allow_unbound none none stamp = pure (refused invalid_scope)

  -- `ProjectIdentityResolver.resolve`
  unfoldable pub resolve : Mode → Bool → ScopeInput → Stamp → ScopeEffect Resolution
  unfolding resolve_path resolve_id
  resolve mode allow_unbound input stamp =
      if str_eq input.scope "global"
      then pure (resolved global_scope)
      else if str_eq input.scope "project"
      then resolve_project mode allow_unbound input.project_id (truthy input.project_path) stamp
      else pure (refused invalid_scope)
