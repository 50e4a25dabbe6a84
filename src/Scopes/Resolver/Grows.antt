-- ===== src/Scopes/Resolver/Grows.antt =====
-- What a resolution does to the rows that are there, and that it never throws.
use agent_recall.Common.{
  String, Bool, true, Option, none, some, List, ◌≡◌, refl, ◌∙◌, eq_refl, Bool-cases, Option-cases,
  inl, inr,
}
use agent_recall.Common.Table.{
  exists_where-some, first_where, exists_where, insert_row, first_where-insert_row,
  exists_where-insert_row, none-exists_where,
}
use agent_recall.Common.Effect.{returned}
use agent_recall.Scopes.Rows.{
  ScopeDb, IdentityRow, AliasRow, get_project_identity, get_project_alias_by_path,
  create_project_identity, create_project_alias, has_project_id, has_alias,
}
use agent_recall.Scopes.Resolver.{Host, Stamp, upsert_project_identity, identity_row}

-- every row that a lookup finds is found unchanged later
pub record Keeps (old new : ScopeDb) : Type 0 where
  pub identities :
      (id : String) (row : IdentityRow)
      → get_project_identity id old ≡ some row
      → get_project_identity id new ≡ some row
  pub aliases :
      (alias : String) (row : AliasRow)
      → get_project_alias_by_path alias old ≡ some row
      → get_project_alias_by_path alias new ≡ some row

pub Keeps-refl : (db : ScopeDb) → Keeps db db
Keeps-refl db = record { identities = λ id row h. h; aliases = λ alias row h. h }

pub Keeps-trans : (a b c : ScopeDb) → Keeps a b → Keeps b c → Keeps a c
Keeps-trans a b c h k = record {
  identities = λ id row e. k.identities id row (h.identities id row e);
  aliases = λ alias row e. k.aliases alias row (h.aliases alias row e);
}

-- an INSERT keeps what a search finds
found_after :
    {A : Type 0} (p : A → Bool) (x y : A) (rows : List A)
    → first_where p rows ≡ some y
    → first_where p (insert_row x rows) ≡ some y
found_after p x y rows h = rw (first_where-insert_row p x rows, h) refl

pub create_project_identity-Keeps :
    (row : IdentityRow) (db : ScopeDb) → Keeps db (create_project_identity row db).1
unfolding create_project_identity
create_project_identity-Keeps row db =
    elim (Bool-cases (exists_where (has_project_id row.project_id) db.identities)) [
      | inl e ↦ rw e (Keeps-refl db)
      | inr e ↦ rw e (record {
        identities = λ id kept h. found_after (has_project_id id) row kept db.identities h;
        aliases = λ alias kept h. h;
      })
    ]

pub create_project_alias-Keeps :
    (row : AliasRow) (db : ScopeDb) → Keeps db (create_project_alias row db).1
unfolding create_project_alias
create_project_alias-Keeps row db =
    elim (Bool-cases (exists_where (has_alias row.alias) db.aliases)) [
      | inl e ↦ rw e (Keeps-refl db)
      | inr e ↦ elim (Bool-cases (exists_where (has_project_id row.project_id) db.identities)) [
        | inr k ↦ rw (e, k) (Keeps-refl db)
        | inl k ↦
            rw (e, k)
              (record {
                identities = λ id kept h. h;
                aliases = λ alias kept h. found_after (has_alias alias) row kept db.aliases h;
              })
      ]
    ]

-- the canonical path of a project: the first one
abbrev pub canonical_of : String → Option IdentityRow → String
canonical_of path none = path
canonical_of path (some row) = row.canonical_path

module _ (host : Host) (id path : String) (stamp : Stamp) (db : ScopeDb) where
  pub upsert_lem : upsert_project_identity host id path stamp db ≡ (
    returned (canonical_of path (get_project_identity id db)),
    (create_project_identity (identity_row host id path stamp) db).1,
  )
  unfolding upsert_project_identity
  upsert_lem = elim (Option-cases (get_project_identity id db)) [
    | inl e ↦
        let free = none-exists_where (has_project_id id) db.identities e in rw e (rw free refl)
    | inr (row, e) ↦
        let taken = exists_where-some (has_project_id id) db.identities row e in
        rw e (rw taken refl)
  ]

  created :
      get_project_identity id db ≡ none
      → get_project_identity id (create_project_identity (identity_row host id path stamp) db).1
        ≡ some (identity_row host id path stamp)
  unfolding create_project_identity
  created e =
      let free = none-exists_where (has_project_id id) db.identities e in
      rw free (
        first_where-insert_row (has_project_id id) (identity_row host id path stamp) db.identities
        ∙ rw (e, eq_refl id) refl)

  -- the project has an identity with that canonical path afterwards
  pub identity_after :
      (row : IdentityRow) × (get_project_identity id
          (create_project_identity (identity_row host id path stamp) db).1
        ≡ some row)
      × (row.canonical_path ≡ canonical_of path (get_project_identity id db))
  unfolding create_project_identity
  identity_after = elim (Option-cases (get_project_identity id db)) [
    | inl e ↦ (identity_row host id path stamp, created e, rw e refl)
    | inr (row, e) ↦ (
      row,
      (create_project_identity-Keeps (identity_row host id path stamp) db).identities id row e,
      rw e refl,
    )
  ]

-- an alias that is recorded for a project with an identity is there afterwards
pub alias_after :
    (row : AliasRow) (db : ScopeDb)
    → exists_where (has_project_id row.project_id) db.identities ≡ true
    → ((create_project_alias row db).0 ≡ returned tt)
      × (exists_where (has_alias row.alias) (create_project_alias row db).1.aliases ≡ true)
unfolding create_project_alias
alias_after row db h = elim (Bool-cases (exists_where (has_alias row.alias) db.aliases)) [
  | inl e ↦ rw e (refl, e)
  | inr e ↦
      rw (e, h)
        (
          refl,
          exists_where-insert_row (has_alias row.alias) row db.aliases
              ∙ rw (e, eq_refl row.alias) refl,
        )
]

-- recording an alias that is there does nothing
pub alias_again :
    (row : AliasRow) (db : ScopeDb)
    → exists_where (has_alias row.alias) db.aliases ≡ true
    → create_project_alias row db ≡ (returned tt, db)
unfolding create_project_alias
alias_again row db h = rw h refl

-- a new alias is found
pub alias_created :
    (row : AliasRow) (db : ScopeDb)
    → get_project_alias_by_path row.alias db ≡ none
    → exists_where (has_project_id row.project_id) db.identities ≡ true
    → get_project_alias_by_path row.alias (create_project_alias row db).1 ≡ some row
unfolding create_project_alias
alias_created row db e h =
    let free = none-exists_where (has_alias row.alias) db.aliases e in
    rw (free, h)
      (first_where-insert_row (has_alias row.alias) row db.aliases ∙ rw (e, eq_refl row.alias) refl)
