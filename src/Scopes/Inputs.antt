-- ===== src/Scopes/Inputs.antt =====
-- What the resolver of src/scope-resolver.ts is given and what it answers.
use agent_recall.Common.{
  ℕ, String, Bool, true, false, ◌&&◌, not, Option, none, some, str_eq, if◌then◌else◌,
}
use agent_recall.Scopes.Names.{ends_with_dot}
use agent_recall.Scopes.Rows.{AliasRow}

pub data MemoryScope : Type 0 where
  global project : MemoryScope

pub data IdentityStatus : Type 0 where
  bound unbound absent : IdentityStatus

pub data Mode : Type 0 where
  lookup register strict_existing : Mode

pub record ScopeInput : Type 0 where
  pub scope : String
  pub project_id : Option String
  pub project_path : Option String

pub record ResolvedScope : Type 0 where
  pub scope : MemoryScope
  pub project_id : Option String
  pub project_path : Option String
  pub display_name : Option String
  pub identity_status : Option IdentityStatus

pub data ResolveError : Type 0 where
  invalid_scope project_identity_conflict : ResolveError

pub data Resolution : Type 0 where
  resolved : ResolvedScope → Resolution
  refused : ResolveError → Resolution

-- what the operating system, git and the hash give
pub record Host : Type 0 where
  pub trim : String → String
  pub canonicalize_path : String → String
  pub basename : String → String
  -- the first twelve hexadecimal digits of the SHA-256
  pub hash : String → String
  pub is_windows : Bool
  pub to_lower_case : String → String
  pub git_head_for : String → Option String

-- who records, and the two clocks
pub record Stamp : Type 0 where
  pub recorded_by : String
  pub now_iso : String
  pub now_ms : ℕ

-- JavaScript takes the empty text for a missing one
abbrev pub truthy : Option String → Option String
truthy none = none
truthy (some text) = if str_eq text "" then none else some text

abbrev pub or_text : String → String → String
or_text text other = if str_eq text "" then other else text

-- `replace(/\.+$/g, "")`
unfoldable pub drop_end_dots : String → String
unfolding ends_with_dot
drop_end_dots String.[] = ""
drop_end_dots (String.◌∷◌ c text) =
    let rest = drop_end_dots text in
    if str_eq rest "" && ends_with_dot (String.◌∷◌ c "") then "" else String.◌∷◌ c rest

abbrev pub global_scope : ResolvedScope
global_scope = record {
  scope = global;
  project_id = none;
  project_path = none;
  display_name = none;
  identity_status = none;
}

abbrev pub is_lookup : Mode → Bool
is_lookup lookup = true
is_lookup _ = false

-- an alias that binds the path to another project
abbrev pub bound_elsewhere : String → Option AliasRow → Bool
bound_elsewhere requested none = false
bound_elsewhere requested (some alias) = not (str_eq alias.project_id requested)
