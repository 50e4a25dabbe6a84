-- ===== src/Scopes/Resolver/Registered.antt =====
-- The database after `registerIdentity`, in closed form.
use agent_recall.Common.{
  String, Bool, true, false, ◌≡◌, refl, sym, ap, arith, Option-cases, inl, inr,
}
use agent_recall.Common.Table.{exists_where-some, exists_where}
use agent_recall.Common.Effect.{returned}
use agent_recall.Scopes.Rows.{
  ScopeDb, AliasRow, AliasKind, path, worktree, get_project_identity, get_project_alias_by_path,
  create_project_identity, create_project_alias, has_project_id, has_alias,
}
use agent_recall.Scopes.Resolver.{
  Host, Stamp, resolved, located, bound, register_identity, register_alias, identity_row, when,
  is_missing, alias_key,
}
use agent_recall.Scopes.Resolver.Grows.{
  canonical_of, upsert_lem, identity_after, alias_after, alias_again,
}

module _ (host : Host) (id project_path : String) (stamp : Stamp) (db : ScopeDb) where
  abbrev pub canonical : String
  canonical = canonical_of project_path (get_project_identity id db)

  abbrev pub identified : ScopeDb
  identified = (create_project_identity (identity_row host id project_path stamp) db).1

  abbrev pub alias_row : AliasKind → AliasRow
  alias_row kind = record {
    alias = alias_key host project_path;
    project_id = id;
    canonical_path = canonical;
    alias_kind = kind;
    recorded_by = stamp.recorded_by;
    recorded_at = stamp.now_ms;
  }

  abbrev pub registered : ScopeDb
  registered = (create_project_alias (alias_row path) identified).1

  pub has_identity : exists_where (has_project_id id) identified.identities ≡ true
  has_identity =
      let (row, found, same) = identity_after host id project_path stamp db in
      exists_where-some (has_project_id id) identified.identities row found

  pub has_alias_row :
      exists_where (has_alias (alias_key host project_path)) registered.aliases ≡ true
  has_alias_row = (alias_after (alias_row path) identified has_identity).1

  pub same_aliases : identified.aliases ≡ db.aliases
  unfolding create_project_identity
  same_aliases = ground arith

  first_alias :
      when host
        (is_missing host (get_project_alias_by_path (alias_key host project_path) db))
        (register_alias host (alias_key host project_path) id canonical path stamp)
        identified
      ≡ (returned tt, registered)
  unfolding register_alias
  first_alias = elim (Option-cases (get_project_alias_by_path (alias_key host project_path) db)) [
    | inl e ↦
        rw e (ap (λ o. (o, registered)) (alias_after (alias_row path) identified has_identity).0)
    | inr (old, e) ↦
        let taken = exists_where-some (has_alias (alias_key host project_path)) db.aliases old e in
        rw e (
          ap (λ p. (returned tt, p.1))
            (sym (alias_again (alias_row path) identified (rw same_aliases taken))))
  ]

  second_alias :
      (b : Bool)
      → when host b
          (register_alias host (alias_key host project_path) id canonical worktree stamp)
          registered
        ≡ (returned tt, registered)
  unfolding register_alias
  second_alias true = alias_again (alias_row worktree) registered has_alias_row
  second_alias false = refl

  pub register_identity_lem :
      register_identity host id project_path stamp
        (get_project_alias_by_path (alias_key host project_path) db)
        db
      ≡ (returned (resolved (located host id canonical bound)), registered)
  unfolding register_identity
  register_identity_lem =
      rw (upsert_lem host id project_path stamp db) (rw first_alias (rw (second_alias _) refl))
