-- ===== src/Scopes/Resolver/Cases.antt =====
-- The two things that a resolution can do: read, or register.
use agent_recall.Common.{
  String, Bool, true, false, not, ◌&&◌, Option, none, some, ◌≡◌, refl, str_eq, Bool-cases,
  Option-cases, inl, inr,
}
use agent_recall.Common.Effect.{Outcome, returned}
use agent_recall.Scopes.Rows.{
  ScopeDb, DbError, AliasRow, IdentityRow, get_project_alias_by_path, get_project_identity,
}
use agent_recall.Scopes.Resolver.{
  Host, Stamp, Mode, register, lookup, strict_existing, ScopeInput, Resolution, resolved, refused,
  ResolvedScope, bound, bound_to, or_absent, or_conflict, bound_or, lookup_identity,
  strict_existing_identity, unregistered, resolve_id, resolve, resolve_path, resolve_requested,
  resolve_project, resolve_in_mode, alias_key, register_identity, is_lookup, bound_elsewhere,
}

abbrev pub is_register : Mode → Bool
is_register register = true
is_register _ = false

-- the identity row behind a scope
pub record IsRegistered (r : ResolvedScope) (db : ScopeDb) : Type 0 where
  pub id : String
  pub row : IdentityRow
  pub names : r.project_id ≡ some id
  pub found : get_project_identity id db ≡ some row
  pub located_at : r.project_path ≡ some row.canonical_path

abbrev pub IsBacked : Resolution → ScopeDb → Type 0
IsBacked (refused e) db = Unit
IsBacked (resolved r) db = r.identity_status ≡ some bound → IsRegistered r db

module _ (host : Host) (db : ScopeDb) where
  pub bound_to-IsBacked :
      (id : String) (row : IdentityRow)
      → get_project_identity id db ≡ some row
      → IsBacked (bound_to host id row) db
  bound_to-IsBacked id row h _ = record {
    id = id;
    row = row;
    names = refl;
    found = h;
    located_at = refl;
  }

  or_absent-IsBacked :
      (id canonical : String)
      → IsBacked (or_absent host id canonical (get_project_identity id db)) db
  or_absent-IsBacked id canonical = elim (Option-cases (get_project_identity id db)) [
    | inl e ↦ rw e (λ h. absurd (cc (h)))
    | inr (row, e) ↦ rw e (bound_to-IsBacked id row e)
  ]

  or_conflict-IsBacked :
      (id : String) → IsBacked (or_conflict host id (get_project_identity id db)) db
  or_conflict-IsBacked id = elim (Option-cases (get_project_identity id db)) [
    | inl e ↦ rw e tt
    | inr (row, e) ↦ rw e (bound_to-IsBacked id row e)
  ]

  bound_or-IsBacked :
      (id : String) (other : Resolution)
      → IsBacked other db
      → IsBacked (bound_or host (get_project_identity id db) id other) db
  bound_or-IsBacked id other h = elim (Option-cases (get_project_identity id db)) [
    | inl e ↦ rw e h
    | inr (row, e) ↦ rw e (bound_to-IsBacked id row e)
  ]

  lookup_identity-IsBacked :
      (id canonical : String) (alias : Option AliasRow)
      → IsBacked (lookup_identity host db id canonical alias (get_project_identity id db)) db
  unfolding lookup_identity
  lookup_identity-IsBacked id canonical none = or_absent-IsBacked id canonical
  lookup_identity-IsBacked id canonical (some alias) =
      elim (Bool-cases (str_eq alias.project_id id)) [
        | inl e ↦ rw e (bound_or-IsBacked alias.project_id _ (or_absent-IsBacked id canonical))
        | inr e ↦ rw e (or_absent-IsBacked id canonical)
      ]

  strict_existing_identity-IsBacked :
      (id : String) (alias : Option AliasRow)
      → IsBacked (strict_existing_identity host db id alias (get_project_identity id db)) db
  unfolding strict_existing_identity
  strict_existing_identity-IsBacked id none = or_conflict-IsBacked id
  strict_existing_identity-IsBacked id (some alias) =
      bound_or-IsBacked alias.project_id _ (or_conflict-IsBacked id)

  unregistered-IsBacked :
      (mode : Mode) (allow_unbound : Bool) (id : String)
      → IsBacked (unregistered host mode allow_unbound id) db
  unregistered-IsBacked lookup allow_unbound id = λ h. absurd (cc h)
  unregistered-IsBacked register true id = λ h. absurd (cc h)
  unregistered-IsBacked register false id = tt
  unregistered-IsBacked strict_existing true id = λ h. absurd (cc h)
  unregistered-IsBacked strict_existing false id = tt

  resolve_id-IsBacked :
      (mode : Mode) (allow_unbound : Bool) (id : String)
      → IsBacked (resolve_id host mode allow_unbound id db) db
  unfolding resolve_id
  resolve_id-IsBacked mode allow_unbound id =
      bound_or-IsBacked id _ (unregistered-IsBacked mode allow_unbound id)

module _ (host : Host) (mode : Mode) (stamp : Stamp) (db : ScopeDb)
    (Q : Outcome DbError Resolution × ScopeDb → Type 0)
    (reading : (r : Resolution) → IsBacked r db → Q (returned r, db)) where
  in_mode :
      (requested canonical : String) (alias : Option AliasRow)
      → (is_register mode ≡ true → Q (register_identity host requested canonical stamp alias db))
      → Q (resolve_in_mode host mode requested canonical stamp alias db)
  unfolding resolve_in_mode
  in_mode requested canonical alias registering =
      elim mode
          as (λ m.
            (is_register m ≡ true → Q (register_identity host requested canonical stamp alias db))
            → Q (resolve_in_mode host m requested canonical stamp alias db)) [
              | register ↦ λ h. h refl
              | strict_existing ↦
                  λ h. reading _ (strict_existing_identity-IsBacked host db requested alias)
              | lookup ↦ λ h. reading _ (lookup_identity-IsBacked host db requested canonical alias)
            ]
        registering

  on_requested :
      (given : Bool) (requested : Option String) (canonical : String)
      → ((id : String)
          → is_register mode ≡ true
          → Q (
              register_identity host id canonical stamp
                (get_project_alias_by_path (alias_key host canonical) db)
                db))
      → Q (resolve_requested host mode given requested canonical stamp db)
  unfolding resolve_requested
  on_requested given none canonical registering = reading _ tt
  on_requested given (some id) canonical registering =
      let alias = get_project_alias_by_path (alias_key host canonical) db in
      elim (Bool-cases (not (is_lookup mode) && given && bound_elsewhere id alias)) [
        | inl e ↦ rw e (reading _ tt)
        | inr e ↦ rw e (in_mode id canonical alias (registering id))
      ]

  on_project :
      (allow_unbound : Bool) (id text : Option String)
      → ((id canonical : String)
          → is_register mode ≡ true
          → Q (
              register_identity host id canonical stamp
                (get_project_alias_by_path (alias_key host canonical) db)
                db))
      → Q (resolve_project host mode allow_unbound id text stamp db)
  unfolding resolve_path
  on_project allow_unbound id (some text) registering = on_requested _ _ _ (λ id. registering id _)
  on_project allow_unbound (some id) none registering =
      reading _ (resolve_id-IsBacked host db mode allow_unbound id)
  on_project allow_unbound none none registering = reading _ tt

  -- what holds where nothing is written and where a path is registered holds of every resolution
  pub resolve_cases :
      (allow_unbound : Bool) (input : ScopeInput)
      → ((id canonical : String)
          → is_register mode ≡ true
          → Q (
              register_identity host id canonical stamp
                (get_project_alias_by_path (alias_key host canonical) db)
                db))
      → Q (resolve host mode allow_unbound input stamp db)
  unfolding resolve
  resolve_cases allow_unbound input registering = elim (Bool-cases (str_eq input.scope "global")) [
    | inl e ↦ rw e (reading _ (λ h. absurd (cc (h))))
    | inr e ↦ elim (Bool-cases (str_eq input.scope "project")) [
      | inl k ↦ rw (e, k) (on_project allow_unbound _ _ registering)
      | inr k ↦ rw (e, k) (reading _ tt)
    ]
  ]
