-- ===== src/Scopes/Resolver/Kept.antt =====
-- Sequences of resolutions.
use agent_recall.Common.{String, Bool, some, List, [], ◌∷◌, ◌≡◌, refl, subst, sym, ap, ◌∙◌}
use agent_recall.Common.Effect.{Outcome, returned}
use agent_recall.Scopes.Rows.{ScopeDb, DbError, path}
use agent_recall.Scopes.Resolver.{
  Host, Stamp, Mode, ScopeInput, Resolution, ResolvedScope, resolved, bound, located, resolve,
  identity_row,
}
use agent_recall.Scopes.Resolver.Cases.{IsBacked, IsRegistered, resolve_cases}
use agent_recall.Scopes.Resolver.Grows.{
  Keeps, Keeps-refl, Keeps-trans, create_project_identity-Keeps, create_project_alias-Keeps,
  identity_after,
}
use agent_recall.Scopes.Resolver.Registered.{
  canonical, identified, alias_row, registered, register_identity_lem,
}

-- a step that returns, keeps every row, and gives a scope with the row that it names
pub record Settles (db : ScopeDb) (p : Outcome DbError Resolution × ScopeDb) : Type 0 where
  pub resolution : Resolution
  pub returns : p.0 ≡ returned resolution
  pub keeps : Keeps db p.1
  pub backed : IsBacked resolution p.1

same_resolution :
    {q r : Resolution} → ◌≡◌ {A = Outcome DbError Resolution} (returned q) (returned r) → q ≡ r
same_resolution h = cc

IsBacked-of :
    (db : ScopeDb) (p : Outcome DbError Resolution × ScopeDb) (r : ResolvedScope) (after : ScopeDb)
    → Settles db p
    → p ≡ (returned (resolved r), after)
    → IsBacked (resolved r) after
IsBacked-of db p r after s h =
    subst (IsBacked (resolved r)) (ap (λ q. q.1) h)
      (subst (λ q. IsBacked q p.1) (same_resolution (sym s.returns ∙ ap (λ q. q.0) h)) s.backed)

module _ (host : Host) (id project_path : String) (stamp : Stamp) (db : ScopeDb) where
  registered-Keeps : Keeps db (registered host id project_path stamp db)
  registered-Keeps =
      Keeps-trans _ _ _ (create_project_identity-Keeps (identity_row host id project_path stamp) db)
        (create_project_alias-Keeps (alias_row host id project_path stamp db path)
          (identified host id project_path stamp db))

  registered-IsRegistered :
      IsRegistered
        (located host id (canonical host id project_path stamp db) bound)
        (registered host id project_path stamp db)
  registered-IsRegistered =
      let (row, found, same) = identity_after host id project_path stamp db in
      record {
        id = id;
        row = row;
        names = refl;
        found =
            (create_project_alias-Keeps (alias_row host id project_path stamp db path)
                (identified host id project_path stamp db)).identities
              id row found;
        located_at = ap some (sym same);
      }

  registered-Settles : Settles db (
    returned (resolved (located host id (canonical host id project_path stamp db) bound)),
    registered host id project_path stamp db,
  )
  registered-Settles = record {
    resolution = resolved (located host id (canonical host id project_path stamp db) bound);
    returns = refl;
    keeps = registered-Keeps;
    backed = λ _. registered-IsRegistered;
  }

module _ (host : Host) (mode : Mode) (allow_unbound : Bool) (input : ScopeInput) (stamp : Stamp)
    (db : ScopeDb) where
  resolve-Settles : Settles db (resolve host mode allow_unbound input stamp db)
  resolve-Settles =
      resolve_cases host mode stamp db (Settles db)
        (λ r backed. record {
          resolution = r;
          returns = refl;
          keeps = Keeps-refl db;
          backed = backed;
        })
        allow_unbound input
        (λ id canonical _.
          subst (Settles db) (sym (register_identity_lem host id canonical stamp db))
            (registered-Settles host id canonical stamp db))

  -- No resolution throws: an alias is recorded only for a project that has an identity.
  pub resolve_returns :
      (r : Resolution) × ((resolve host mode allow_unbound input stamp db).0 ≡ returned r)
  resolve_returns = (resolve-Settles.resolution, resolve-Settles.returns)

  -- A scope that is reported as bound names a project that has an identity in the database, and its path
  -- is the canonical path of that identity.
  pub resolve-IsRegistered :
      (r : ResolvedScope) (after : ScopeDb)
      → resolve host mode allow_unbound input stamp db ≡ (returned (resolved r), after)
      → r.identity_status ≡ some bound
      → IsRegistered r after
  resolve-IsRegistered r after h status =
      IsBacked-of db (resolve host mode allow_unbound input stamp db) r after resolve-Settles h
        status

pub record Call : Type 0 where
  pub mode : Mode
  pub allow_unbound : Bool
  pub input : ScopeInput
  pub stamp : Stamp

module _ (host : Host) where
  -- one resolution after another
  unfoldable pub resolve_all : List Call → ScopeDb → ScopeDb
  unfolding resolve
  resolve_all [] db = db
  resolve_all (c ∷ calls) db =
      resolve_all calls (resolve host c.mode c.allow_unbound c.input c.stamp db).1

  -- No sequence of resolutions, in whatever modes, changes or removes a row that is there: a project
  -- keeps its first canonical path, and a path stays bound to its first project.
  pub resolve_all-Keeps : (calls : List Call) (db : ScopeDb) → Keeps db (resolve_all calls db)
  unfolding resolve_all
  resolve_all-Keeps [] db = Keeps-refl db
  resolve_all-Keeps (c ∷ calls) db =
      Keeps-trans _ _ _ (resolve-Settles host c.mode c.allow_unbound c.input c.stamp db).keeps
        (resolve_all-Keeps calls (resolve host c.mode c.allow_unbound c.input c.stamp db).1)
