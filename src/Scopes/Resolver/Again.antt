-- ===== src/Scopes/Resolver/Again.antt =====
-- Resolving a path again after it was registered.
use agent_recall.Common.{
  String, Bool, true, false, Option, none, some, ◌≡◌, refl, sym, ap, subst, ◌∙◌, arith, str_eq,
  eq_iff, eq_refl, Bool-cases, Option-cases, inl, inr,
}
use agent_recall.Common.Table.{exists_where-some, exists_where}
use agent_recall.Common.Effect.{returned}
use agent_recall.Scopes.Rows.{
  ScopeDb, IdentityRow, AliasRow, path, get_project_identity, get_project_alias_by_path,
  create_project_identity, create_project_alias, has_project_id,
}
use agent_recall.Scopes.Resolver.{
  Host, Stamp, Mode, lookup, register, strict_existing, ScopeInput, ResolvedScope, Resolution,
  resolved, located, bound, resolve_in_mode, resolve_requested, resolve_path, resolve_project,
  resolve, identity_row, alias_key, bound_elsewhere, lookup_identity, strict_existing_identity,
}
use agent_recall.Scopes.Resolver.Grows.{
  identity_after, alias_again, alias_created, create_project_alias-Keeps,
  create_project_identity-Keeps,
}
use agent_recall.Scopes.Resolver.Registered.{
  canonical, identified, alias_row, registered, has_identity, has_alias_row, same_aliases,
  register_identity_lem,
}

-- a call that gives both the id and the path
abbrev pub project_input : String → String → ScopeInput
project_input id text = record { scope = "project"; project_id = some id; project_path = some text }

identity_again :
    (row : IdentityRow) (db : ScopeDb)
    → exists_where (has_project_id row.project_id) db.identities ≡ true
    → create_project_identity row db ≡ (returned tt, db)
unfolding create_project_identity
identity_again row db h = rw h refl

module _ (host : Host) (id project_path : String) (stamp : Stamp) (db : ScopeDb)
    (free : bound_elsewhere id (get_project_alias_by_path (alias_key host project_path) db)
      ≡ false) where
  identity_found :
      (row : IdentityRow) × (get_project_identity id (registered host id project_path stamp db)
        ≡ some row)
      × (row.canonical_path ≡ canonical host id project_path stamp db)
  identity_found =
      let (row, found, same) = identity_after host id project_path stamp db in
      (
        row,
        (create_project_alias-Keeps (alias_row host id project_path stamp db path)
              (identified host id project_path stamp db)).identities
            id row found,
        same,
      )

  new_alias :
      get_project_alias_by_path (alias_key host project_path) db ≡ none
      → get_project_alias_by_path
          (alias_key host project_path)
          (registered host id project_path stamp db)
        ≡ some (alias_row host id project_path stamp db path)
  new_alias e =
      alias_created (alias_row host id project_path stamp db path)
        (identified host id project_path stamp db)
        (rw (same_aliases host id project_path stamp db) e)
        (has_identity host id project_path stamp db)

  alias_found :
      (a : AliasRow) × (get_project_alias_by_path
          (alias_key host project_path)
          (registered host id project_path stamp db)
        ≡ some a)
      × (a.project_id ≡ id)
  alias_found = elim (Option-cases (get_project_alias_by_path (alias_key host project_path) db)) [
    | inl e ↦ (alias_row host id project_path stamp db path, new_alias e, refl)
    | inr (a, e) ↦ (
      a,
      (create_project_alias-Keeps (alias_row host id project_path stamp db path)
            (identified host id project_path stamp db)).aliases
          (alias_key host project_path) a
          ((create_project_identity-Keeps (identity_row host id project_path stamp) db).aliases
            (alias_key host project_path) a e),
      ground (arith, eq_iff a.project_id id, rw e at free),
    )
  ]

  registered_again :
      (stamp' : Stamp)
      → registered host id project_path stamp' (registered host id project_path stamp db)
        ≡ registered host id project_path stamp db
  registered_again stamp' =
      let db' = registered host id project_path stamp db in
      let (row, found, same) = identity_found in
      ap (λ p. (create_project_alias (alias_row host id project_path stamp' db' path) p.1).1)
        (identity_again (identity_row host id project_path stamp') db'
          (exists_where-some (has_project_id id) db'.identities row found))
      ∙ ap (λ p. p.1)
          (alias_again (alias_row host id project_path stamp' db' path) db'
            (has_alias_row host id project_path stamp db))

  abbrev scope_found : Resolution
  scope_found = resolved (located host id (canonical host id project_path stamp db) bound)

  again_in_mode :
      (mode : Mode) (stamp' : Stamp)
      → resolve_in_mode host mode id project_path stamp'
          (get_project_alias_by_path
            (alias_key host project_path)
            (registered host id project_path stamp db))
          (registered host id project_path stamp db)
        ≡ (returned scope_found, registered host id project_path stamp db)
  unfolding resolve_in_mode lookup_identity strict_existing_identity
  again_in_mode register stamp' =
      let (row, found, same) = identity_found in
      let db' = registered host id project_path stamp db in
      let first : canonical host id project_path stamp' db'
          ≡ canonical host id project_path stamp db =
        rw found same in
      register_identity_lem host id project_path stamp' db'
      ∙ ap
          (λ c. (
            returned (resolved (located host id c bound)),
            registered host id project_path stamp' db',
          ))
          first
      ∙ ap (λ d. (returned scope_found, d)) (registered_again stamp')
  again_in_mode strict_existing stamp' =
      let (row, found, same) = identity_found in
      let (a, kept, names) = alias_found in rw kept (rw names (rw (found, same) refl))
  again_in_mode lookup stamp' =
      let (row, found, same) = identity_found in
      let (a, kept, names) = alias_found in rw kept (rw (names, eq_refl id) (rw (found, same) refl))

  no_conflict :
      bound_elsewhere id (
        get_project_alias_by_path
          (alias_key host project_path)
          (registered host id project_path stamp db))
      ≡ false
  no_conflict = let (a, kept, names) = alias_found in rw kept (rw (names, eq_refl id) refl)

  found_again :
      (mode : Mode) (stamp' : Stamp)
      → resolve_requested host mode true
          (some id)
          project_path
          stamp'
          (registered host id project_path stamp db)
        ≡ (returned scope_found, registered host id project_path stamp db)
  unfolding resolve_requested
  found_again register stamp' = rw no_conflict (again_in_mode register stamp')
  found_again strict_existing stamp' = rw no_conflict (again_in_mode strict_existing stamp')
  found_again lookup stamp' = again_in_mode lookup stamp'

module _ (host : Host) (stamp stamp' : Stamp) (mode : Mode) (db after : ScopeDb)
    (r : ResolvedScope) where
  in_mode_again :
      (id canonical : String)
      → bound_elsewhere id (get_project_alias_by_path (alias_key host canonical) db) ≡ false
      → resolve_in_mode host register id canonical stamp
          (get_project_alias_by_path (alias_key host canonical) db)
          db
        ≡ (returned (resolved r), after)
      → resolve_requested host mode true (some id) canonical stamp' after
        ≡ (returned (resolved r), after)
  unfolding resolve_in_mode
  in_mode_again id canonical free h =
      subst (λ p. resolve_requested host mode true (some id) canonical stamp' p.1 ≡ p)
        (sym (register_identity_lem host id canonical stamp db) ∙ h)
        (found_again host id canonical stamp db free mode stamp')

  requested_again :
      (requested : Option String) (canonical : String)
      → resolve_requested host register true requested canonical stamp db
        ≡ (returned (resolved r), after)
      → resolve_requested host mode true requested canonical stamp' after
        ≡ (returned (resolved r), after)
  unfolding resolve_requested
  requested_again none canonical h = absurd (cc h)
  requested_again (some id) canonical h =
      elim (Bool-cases
        (bound_elsewhere id (get_project_alias_by_path (alias_key host canonical) db))) [
          | inl e ↦ absurd (cc (rw e at h))
          | inr e ↦ in_mode_again id canonical e (rw e at h)
        ]

  project_again :
      (allow_unbound allow' : Bool) (id text : String)
      → resolve_project host register allow_unbound (some id) (some text) stamp db
        ≡ (returned (resolved r), after)
      → resolve_project host mode allow' (some id) (some text) stamp' after
        ≡ (returned (resolved r), after)
  unfolding resolve_path
  project_again allow_unbound allow' id text h = requested_again _ _ h

-- Where registering a project id with a path gives a scope, resolving the same id and path again gives
-- that scope and leaves the database as it is: in every mode, whoever asks, and whether or not unbound ids
-- are allowed.
pub resolve_again :
    (host : Host) (mode : Mode) (allow_unbound allow' : Bool) (stamp stamp' : Stamp)
    (id text : String) (r : ResolvedScope) (db after : ScopeDb)
    → str_eq text "" ≡ false
    → resolve host register allow_unbound (project_input id text) stamp db
      ≡ (returned (resolved r), after)
    → resolve host mode allow' (project_input id text) stamp' after ≡ (returned (resolved r), after)
unfolding resolve
resolve_again host mode allow_unbound allow' stamp stamp' id text r db after named h =
    rw named
      (project_again host stamp stamp' mode db after r allow_unbound allow' id text (rw named at h))
