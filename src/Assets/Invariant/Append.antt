-- ===== src/Assets/Invariant/Append.antt =====
-- An append of a version.
use agent_recall.Common.{
  ℕ, suc, ◌≤◌, String, true, false, ◌&&◌, some, ◌≡◌, refl, sym, ap, subst, ◌∙◌, arith, str_eq,
  eq_iff, ltb, leb, if◌then◌else◌, Bool-cases, Option-cases, inl, inr,
}
use agent_recall.Common.Table.{
  first_where, exists_where, insert_row, update_where, first_where-update_where,
  exists_where-insert_row, exists_where-update_where, exists_where-some, first_where_sound,
  none-exists_where,
}
use agent_recall.Assets.Rows.{
  AssetRow, AssetVersionRow, AssetDb, has_asset_id, get_asset, is_version, breaks_version_rules,
  at_version, advanced, append_asset_version,
}
use agent_recall.Assets.Invariant.{HasAllVersions, same_some}

module _ (row : AssetVersionRow) (expected : ℕ) (old : AssetRow) (db : AssetDb)
    (next : row.version ≡ suc expected) (found : get_asset row.asset_id db ≡ some old)
    (le : expected ≤ old.current_version) (h : HasAllVersions db) where
  -- the version is new only if the asset is at the expected one
  at_expected :
      exists_where (is_version row.asset_id row.version) db.versions ≡ false
      → old.current_version ≡ expected
  at_expected free =
      let all = h.counted row.asset_id old row.version found in ground (arith, all, free, next, le)

  same_assets :
      (id : String)
      → exists_where (has_asset_id id) (
          update_where
            (at_version row.asset_id expected)
            (advanced row.version row.created_at)
            db.assets)
        ≡ exists_where (has_asset_id id) db.assets
  same_assets id =
      exists_where-update_where (has_asset_id id) (at_version row.asset_id expected)
        (advanced row.version row.created_at) db.assets (λ x _. refl)

  not_own :
      (id : String)
      → exists_where (has_asset_id id) db.assets ≡ false
      → str_eq row.asset_id id ≡ false
  not_own id free = elim (Bool-cases (str_eq row.asset_id id)) [
    | inr e ↦ e
    | inl e ↦
        let same : row.asset_id ≡ id = (eq_iff row.asset_id id).0 e in
        let there =
          exists_where-some (has_asset_id id) db.assets old
            (subst (λ i. get_asset i db ≡ some old) same found) in
        absurd (cc (there, free))
  ]

  -- what the UPDATE makes of a row
  abbrev updated : AssetRow → AssetRow
  updated x =
      if at_version row.asset_id expected x then advanced row.version row.created_at x else x

  updated_row :
      (id : String) (x kept : AssetRow)
      → first_where (has_asset_id id) db.assets ≡ some x
      → first_where (has_asset_id id) (
          update_where
            (at_version row.asset_id expected)
            (advanced row.version row.created_at)
            db.assets)
        ≡ some kept
      → updated x ≡ kept
  updated_row id x kept before after =
      let e =
        sym (
          first_where-update_where (has_asset_id id) (at_version row.asset_id expected)
            (advanced row.version row.created_at) db.assets (λ y _. refl))
        ∙ after in
      same_some (rw before at e)

  still_owned :
      (id : String) (n : ℕ)
      → exists_where (has_asset_id id) db.assets ≡ false
      → exists_where (is_version id n) (insert_row row db.versions) ≡ false
  still_owned id n free =
      let none_yet = h.owned id n free in
      let other = not_own id free in
      exists_where-insert_row (is_version id n) row db.versions ∙ rw (none_yet, other) refl

  still_counted :
      old.current_version ≡ expected
      → (id : String) (kept : AssetRow) (n : ℕ)
      → first_where (has_asset_id id) (
          update_where
            (at_version row.asset_id expected)
            (advanced row.version row.created_at)
            db.assets)
        ≡ some kept
      → exists_where (is_version id n) (insert_row row db.versions)
        ≡ (ltb 0 n && leb n kept.current_version)
  still_counted at id kept n e = elim (Bool-cases (str_eq row.asset_id id)) [
    | inl own ↦
        let same : row.asset_id ≡ id = (eq_iff row.asset_id id).0 own in
        let before : get_asset id db ≡ some old =
          subst (λ i. get_asset i db ≡ some old) same found in
        let named = first_where_sound (has_asset_id row.asset_id) db.assets old found in
        let here : at_version row.asset_id expected old ≡ true = rw named (ground (arith, at)) in
        let new : advanced row.version row.created_at old ≡ kept =
          rw here at (updated_row id old kept before e) in
        let version : kept.current_version ≡ row.version =
          ap (λ (r : AssetRow). r.current_version) (sym new) in
        ground (
          arith,
          exists_where-insert_row (is_version id n) row db.versions,
          h.counted id old n before,
          own,
          version,
          next,
          at,
        )
    | inr other ↦ elim (Option-cases (get_asset id db)) [
      | inl missing ↦ absurd (
          cc (
            rw missing at (
              sym (
                first_where-update_where (has_asset_id id) (at_version row.asset_id expected)
                  (advanced row.version row.created_at) db.assets (λ y _. refl))
              ∙ e)))
      | inr (y, before) ↦
          let named = first_where_sound (has_asset_id id) db.assets y before in
          let elsewhere : at_version row.asset_id expected y ≡ false = ground (
            arith,
            named,
            other,
            eq_iff y.asset_id id,
            eq_iff y.asset_id row.asset_id,
            eq_iff row.asset_id id,
          ) in
          let same : y ≡ kept = rw elsewhere at (updated_row id y kept before e) in
          let version : kept.current_version ≡ y.current_version =
            ap (λ (r : AssetRow). r.current_version) (sym same) in
          ground (
            arith,
            exists_where-insert_row (is_version id n) row db.versions,
            h.counted id y n before,
            other,
            version,
          )
    ]
  ]

  append_asset_version-HasAllVersions : HasAllVersions (append_asset_version row expected db).1
  unfolding append_asset_version
  append_asset_version-HasAllVersions = elim (Bool-cases (breaks_version_rules row db)) [
    | inl e ↦ rw e h
    | inr e ↦
        let at = at_expected (ground (arith, e)) in
        rw e (record {
          owned = λ id n free. still_owned id n (sym (same_assets id) ∙ free);
          counted = λ id kept n found'. still_counted at id kept n found';
        })
  ]

-- An append that expects the current version of the asset, or an earlier one, or finds no asset.
pub append-HasAllVersions :
    (row : AssetVersionRow) (expected : ℕ) (db : AssetDb)
    → row.version ≡ suc expected
    → ((old : AssetRow) → get_asset row.asset_id db ≡ some old → expected ≤ old.current_version)
    → HasAllVersions db
    → HasAllVersions (append_asset_version row expected db).1
unfolding append_asset_version
append-HasAllVersions row expected db next le h = elim (Option-cases (get_asset row.asset_id db)) [
  | inr (old, found) ↦
      append_asset_version-HasAllVersions row expected old db next found (le old found) h
  | inl missing ↦
      let orphan = none-exists_where (has_asset_id row.asset_id) db.assets missing in
      let refused : breaks_version_rules row db ≡ true = ground (arith, orphan) in rw refused h
]
