-- ===== src/Assets/Invariant.antt =====
-- The version rows of an asset are 1 to its current version.
pub mod Append
pub mod Calls
use agent_recall.Common.{
  ℕ, suc, ◌+◌, ◌≤◌, ◌<◌, ◌==◌, String, Bool, true, false, ◌&&◌, ◌||◌, not, Option, none, some, List,
  ◌≡◌, refl, sym, ap, subst, ◌∙◌, arith, str_eq, eq_iff, eq_refl, ltb, leb, if◌then◌else◌, if_lem,
  ◌⊎◌, Bool-cases, Option-cases, inl, inr,
}
use agent_recall.Common.Table.{
  first_where, exists_where, insert_row, update_where, first_where-update_where,
  first_where-insert_row, exists_where-insert_row, exists_where-update_where, exists_where-some,
  first_where_sound, none-exists_where,
}
use agent_recall.Common.Effect.{Outcome, returned, thrown}
use agent_recall.Assets.Rows.{
  AssetRow, AssetVersionRow, AssetDb, AssetError, AssetLifecycleState, has_asset_id, get_asset,
  is_version, breaks_check, breaks_version_rules, at_version, advanced, in_state, moved,
  insert_asset, append_asset_version, set_asset_lifecycle,
}

pub record HasAllVersions (db : AssetDb) : Type 0 where
  pub owned :
      (id : String) (n : ℕ)
      → exists_where (has_asset_id id) db.assets ≡ false
      → exists_where (is_version id n) db.versions ≡ false
  pub counted :
      (id : String) (row : AssetRow) (n : ℕ)
      → get_asset id db ≡ some row
      → exists_where (is_version id n) db.versions ≡ (ltb 0 n && leb n row.current_version)

pub same_some : {A : Type 0} {a b : A} → ◌≡◌ {A = Option A} (some a) (some b) → a ≡ b
same_some h = cc

no_version :
    (row kept : AssetRow) (n : ℕ)
    → row ≡ kept
    → row.current_version ≡ 0
    → false ≡ (ltb 0 n && leb n kept.current_version)
no_version row kept n same zero =
    let e : kept.current_version ≡ 0 = ap (λ (r : AssetRow). r.current_version) (sym same) ∙ zero in
    ground (arith, e)

-- the rows of a table after an INSERT
missing_before :
    {A : Type 0} (p : A → Bool) (x : A) (xs : List A)
    → exists_where p (insert_row x xs) ≡ false
    → exists_where p xs ≡ false
missing_before p x xs h = ground (arith, exists_where-insert_row p x xs, h)

found_in :
    {A : Type 0} (p : A → Bool) (x y : A) (xs : List A)
    → first_where p (insert_row x xs) ≡ some y
    → (first_where p xs ≡ some y) ⊎ ((first_where p xs ≡ none) × (x ≡ y) × (p x ≡ true))
found_in p x y xs h =
    let e = sym (first_where-insert_row p x xs) ∙ h in
    elim (Option-cases (first_where p xs)) [
      | inr (z, k) ↦ inl (k ∙ rw k at e)
      | inl k ↦ elim (Bool-cases (p x)) [
        | inl t ↦ inr (k, same_some (rw (k, t) at e), t)
        | inr t ↦ absurd (cc (rw (k, t) at e))
      ]
    ]

pub insert_asset-HasAllVersions :
    (row : AssetRow) (db : AssetDb)
    → row.current_version ≡ 0
    → HasAllVersions db
    → HasAllVersions (insert_asset row db).1
unfolding insert_asset
insert_asset-HasAllVersions row db zero h = elim (Bool-cases (breaks_check row)) [
  | inl e ↦ rw e h
  | inr e ↦ elim (Bool-cases (exists_where (has_asset_id row.asset_id) db.assets)) [
    | inl k ↦ rw (e, k) h
    | inr k ↦
        rw (e, k)
          (record {
            owned = λ id n free. h.owned id n (missing_before (has_asset_id id) row db.assets free);
            counted = λ id kept n found.
                elim (found_in (has_asset_id id) row kept db.assets found) [
                  | inl old ↦ h.counted id kept n old
                  | inr (none_before, same, own) ↦
                      h.owned id n (none-exists_where (has_asset_id id) db.assets none_before)
                      ∙ no_version row kept n same zero
                ];
          })
  ]
]

pub set_asset_lifecycle-HasAllVersions :
    (id : String) (expected state : AssetLifecycleState) (now : String) (db : AssetDb)
    → HasAllVersions db
    → HasAllVersions (set_asset_lifecycle id expected state now db).1
unfolding set_asset_lifecycle
set_asset_lifecycle-HasAllVersions id expected state now db h = record {
  owned = λ i n free. h.owned i n (
      sym (
        exists_where-update_where (has_asset_id i) (in_state id expected) (moved state now)
          db.assets (λ x _. refl))
      ∙ free);
  counted = λ i kept n found.
      let e =
        sym (
          first_where-update_where (has_asset_id i) (in_state id expected) (moved state now)
            db.assets (λ x _. refl))
        ∙ found in
      elim (Option-cases (get_asset i db)) [
        | inl missing ↦ absurd (cc (rw missing at e))
        | inr (y, before) ↦
            let same : (if in_state id expected y then moved state now y else y) ≡ kept =
              same_some (rw before at e) in
            let version : kept.current_version ≡ y.current_version =
              ap (λ (r : AssetRow). r.current_version) (sym same)
              ∙ if_lem (λ (r : AssetRow). r.current_version ≡ y.current_version)
                  (in_state id expected y) _ _ refl refl in
            rw version (h.counted i y n before)
      ];
}
