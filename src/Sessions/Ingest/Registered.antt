-- ===== src/Sessions/Ingest/Registered.antt =====
-- The project of a session that was ingested, with the scope resolver.
use agent_recall.Common.{String, false, none, some, ◌≡◌, refl, not, if_lem, Option-cases, inl, inr}
use agent_recall.Common.Effect.{returned}
use agent_recall.Scopes.Rows.{IdentityRow, get_project_identity}
use agent_recall.Scopes.Resolver.{resolve_id}
use agent_recall.Sessions.Rows.{NormalisedBundle, project, usage_error, SessionDb}
use agent_recall.Sessions.Events.{Runtime}
use agent_recall.Sessions.Ingest.{
  IdentityResolver, IngestOptions, Minted, IngestResult, is_registered, check_bundle, ingest,
  has_events,
}

unregistered :
    (r : IdentityResolver) (id : String) (db : SessionDb)
    → r.allow_unbound ≡ false
    → get_project_identity id db.scopes ≡ none
    → is_registered (some r) (some id) db ≡ false
unfolding is_registered resolve_id
unregistered r id db strict missing = rw missing (rw strict refl)

refused_bundle :
    (r : IdentityResolver) (b : NormalisedBundle) (db : SessionDb) (id : String)
    → b.scope ≡ project
    → b.project_id ≡ some id
    → is_registered (some r) (some id) db ≡ false
    → check_bundle (some r) b db ≡ some usage_error
unfolding check_bundle
refused_bundle r b db id scope names refused =
    rw (scope, names)
      (rw refused (if_lem (λ e. e ≡ some usage_error) (not (has_events b.events)) _ _ refl refl))

-- Where the resolver does not allow unbound ids, a bundle is ingested for a project only if the project
-- has an identity in the database.
pub ingest-HasIdentity :
    (rt : Runtime) (r : IdentityResolver) (b : NormalisedBundle) (opts : IngestOptions) (m : Minted)
    (db : SessionDb) (id : String) (result : IngestResult)
    → r.allow_unbound ≡ false
    → b.scope ≡ project
    → b.project_id ≡ some id
    → (ingest rt (some r) b opts m db).0 ≡ returned result
    → (row : IdentityRow) × (get_project_identity id db.scopes ≡ some row)
unfolding ingest check_bundle
ingest-HasIdentity rt r b opts m db id result strict scope names h =
    elim (Option-cases (get_project_identity id db.scopes)) [
      | inr found ↦ found
      | inl e ↦
          let refused = unregistered r id db strict e in
          absurd (cc (rw (refused_bundle r b db id scope names refused) at h))
    ]
