-- ===== src/Scopes/Tests.antt =====
-- The scope resolver on a concrete host and database.
use agent_recall.Common.{true, false, none, some, List, [], ◌∷◌, ◌≡◌, refl}
use agent_recall.Common.Effect.{returned}
use agent_recall.Common.Table.{first_where, exists_where, insert_row}
use agent_recall.Scopes.Names.{
  sanitize_project_id, normalize_project_id, any_char, is_windows_unsafe,
}
use agent_recall.Scopes.Names.Safe.{IsUsable, normalize_project_id-IsUsable}
use agent_recall.Scopes.Rows.{ScopeDb, IdentityRow, AliasRow, path}
use agent_recall.Scopes.Resolver.{
  Host, Stamp, register, strict_existing, resolved, refused, ResolvedScope, derive_project_id,
  project_identity_conflict, located, bound, resolve,
}
use agent_recall.Scopes.Resolver.Again.{project_input, resolve_again}
use agent_recall.Scopes.Resolver.Kept.{Call, resolve_all, resolve_all-Keeps, resolve-IsRegistered}
use agent_recall.Scopes.Resolver.Grows.{Keeps}
use agent_recall.Scopes.Resolver.Cases.{IsRegistered}

abbrev posix : Host
posix = record {
  trim = λ text. text;
  canonicalize_path = λ text. text;
  basename = λ text. "repo";
  hash = λ text. "0123456789ab";
  is_windows = false;
  to_lower_case = λ text. text;
  git_head_for = λ text. none;
}

abbrev stamp : Stamp
stamp = record { recorded_by = "agent:a"; now_iso = "2026-01-01"; now_ms = 7 }

abbrev empty_db : ScopeDb
empty_db = record { identities = []; aliases = [] }

abbrev phoenix_identity : IdentityRow
phoenix_identity = record {
  project_id = "phoenix";
  canonical_path = "/repo";
  created_by = "agent:a";
  created_at = "2026-01-01";
}

abbrev phoenix_alias : AliasRow
phoenix_alias = record {
  alias = "/repo";
  project_id = "phoenix";
  canonical_path = "/repo";
  alias_kind = path;
  recorded_by = "agent:a";
  recorded_at = 7;
}

abbrev phoenix_db : ScopeDb
phoenix_db = record { identities = phoenix_identity ∷ []; aliases = phoenix_alias ∷ [] }

abbrev phoenix : ResolvedScope
phoenix = located posix "phoenix" "/repo" bound

-- unsafe characters become one dash
normalized : normalize_project_id (λ text. text) "a / b" ≡ some "a-b"
unfolding normalize_project_id
normalized = refl

reserved : normalize_project_id (λ text. text) "com1.x" ≡ none
unfolding normalize_project_id
reserved = refl

first_registration :
    resolve posix register false (project_input "phoenix" "/repo") stamp empty_db
    ≡ (returned (resolved phoenix), phoenix_db)
unfolding resolve normalize_project_id insert_row first_where exists_where
first_registration = refl

-- a path of one project is refused to another
second_project :
    (resolve posix register false (project_input "other" "/repo") stamp phoenix_db).0
    ≡ returned (refused project_identity_conflict)
unfolding resolve normalize_project_id first_where
second_project = refl

-- the path alone gives another id, with an identity of its own
path_alone :
    (resolve posix register false
      (record { scope = "project"; project_id = none; project_path = some "/repo" })
      stamp
      phoenix_db).0
    ≡ returned (resolved (located posix "repo-0123456789ab" "/repo" bound))
unfolding resolve derive_project_id first_where exists_where insert_row any_char sanitize_project_id
    is_windows_unsafe
path_alone = refl

resolve_again_example :
    resolve posix strict_existing true (project_input "phoenix" "/repo") stamp phoenix_db
    ≡ (returned (resolved phoenix), phoenix_db)
resolve_again_example =
    resolve_again posix strict_existing false true stamp stamp "phoenix" "/repo" phoenix empty_db
      phoenix_db refl first_registration

resolve-IsRegistered_example : IsRegistered phoenix phoenix_db
resolve-IsRegistered_example =
    resolve-IsRegistered posix register false (project_input "phoenix" "/repo") stamp empty_db
      phoenix phoenix_db first_registration refl

abbrev two_calls : List Call
two_calls =
    record {
      mode = register;
      allow_unbound = false;
      input = project_input "phoenix" "/repo";
      stamp = stamp;
    }
    ∷ record {
      mode = register;
      allow_unbound = false;
      input = project_input "other" "/other";
      stamp = stamp;
    }
    ∷ []

resolve_all-Keeps_example : Keeps phoenix_db (resolve_all posix two_calls phoenix_db)
resolve_all-Keeps_example = resolve_all-Keeps posix two_calls phoenix_db

normalize_project_id-IsUsable_example : IsUsable "a-b"
normalize_project_id-IsUsable_example =
    normalize_project_id-IsUsable (λ text. text) "a / b" "a-b" normalized
