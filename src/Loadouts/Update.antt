-- ===== src/Loadouts/Update.antt =====
-- `updateRules` of src/loadouts/service.ts: what it writes, and what it leaves.
use agent_recall.Common.{
  ℕ, ◌+◌, String, true, false, ◌||◌, not, Option, some, List, [], ◌∷◌, ◌++◌, ◌≡◌, ◌⊎◌, refl, ◌∙◌,
  ap, arith, ltb, lt→ltb, map, is_some, inl, inr, Bool-cases, Option-cases,
}
use agent_recall.Common.Effect.{returned, thrown}
use agent_recall.Common.Table.{
  update_where, count_where, exists_where, insert_row, first_where-update_where, first_where_narrow,
  first_where_sound, count_where_pos,
}
use agent_recall.Loadouts.Rows.{
  LoadoutRow, RuleRow, LoadoutDb, LoadoutErrorCode, LoadoutError, coded, constraint_failed,
}
use agent_recall.Loadouts.Store.{has_loadout_id, get_loadout}
use agent_recall.Loadouts.Service.{
  RulePatch, patched_rule, same_rule, has_version, insert_rule, insert_all_rules, bump_version,
  write_rules, write_and_read, expects_other, update_rules,
}

++-assoc : {A : Type 0} (xs ys zs : List A) → (xs ++ ys) ++ zs ≡ xs ++ (ys ++ zs)
++-assoc [] ys zs = refl
++-assoc (x ∷ xs) ys zs = ap (λ l. x ∷ l) (++-assoc xs ys zs)

++-nil : {A : Type 0} (xs : List A) → xs ++ [] ≡ xs
++-nil [] = refl
++-nil (x ∷ xs) = ap (λ l. x ∷ l) (++-nil xs)

abbrev with_rules : List RuleRow → LoadoutDb → LoadoutDb
with_rules rules db = record db { rules = db.rules ++ rules }

-- all rules are appended, or the INSERT of one throws
insert_all_rules_cases :
    (rules : List RuleRow) (db : LoadoutDb)
    → (insert_all_rules rules db ≡ (returned tt, with_rules rules db))
      ⊎ ((insert_all_rules rules db).0 ≡ thrown constraint_failed)
unfolding insert_all_rules insert_rule insert_row
insert_all_rules_cases [] db = inl (rw (++-nil db.rules) refl)
insert_all_rules_cases (rule ∷ rules) db =
    elim (Bool-cases
      (exists_where (same_rule rule) db.rules || not (is_some (get_loadout rule.loadout_id db)))) [
        | inl e ↦ inr (rw e refl)
        | inr e ↦ elim (insert_all_rules_cases rules (with_rules (rule ∷ []) db)) [
          | inl k ↦ inl (rw (e, k, ++-assoc db.rules (rule ∷ []) rules) refl)
          | inr k ↦ inr (rw e k)
        ]
      ]

module _ (id : String) (current : LoadoutRow) (now : ℕ) where
  abbrev pub bumped : LoadoutRow → LoadoutRow
  bumped row = record row { version = current.version + 1; updated_at = now }

  -- the tables after the call: the new rules follow the old ones, and the version is the next one
  abbrev pub updated_db : List RulePatch → LoadoutDb → LoadoutDb
  updated_db patches db = record db {
    rules = db.rules ++ map (patched_rule id (current.version + 1)) patches;
    loadouts = update_where (has_version id current.version) bumped db.loadouts;
  }

  current_version :
      (db : LoadoutDb)
      → get_loadout id db ≡ some current
      → has_version id current.version current ≡ true
  current_version db found =
      let owned = first_where_sound (has_loadout_id id) db.loadouts current found in
      rw owned (ground arith)

  is_bumped :
      (db : LoadoutDb)
      → get_loadout id db ≡ some current
      → ltb 0 (count_where (has_version id current.version) db.loadouts) ≡ true
  is_bumped db found = lt→ltb 0 _ (
      count_where_pos (has_version id current.version) db.loadouts current (
        first_where_narrow (has_loadout_id id) (has_version id current.version) db.loadouts current
          (λ y h. ground arith) found (current_version db found)))

  write_rules_cases :
      (patches : List RulePatch) (db : LoadoutDb)
      → get_loadout id db ≡ some current
      → (write_rules id patches current.version now db ≡ (returned tt, updated_db patches db))
        ⊎ ((write_rules id patches current.version now db).0 ≡ thrown constraint_failed)
  unfolding write_rules bump_version
  write_rules_cases patches db found =
      elim (insert_all_rules_cases (map (patched_rule id (current.version + 1)) patches) db) [
        | inl e ↦ inl (rw (e, is_bumped db found) refl)
        | inr e ↦ inr (rw e refl)
      ]

  stored_after :
      (patches : List RulePatch) (db : LoadoutDb)
      → get_loadout id db ≡ some current
      → get_loadout id (updated_db patches db) ≡ some (bumped current)
  stored_after patches db found =
      first_where-update_where (has_loadout_id id) (has_version id current.version) bumped
        db.loadouts (λ x _. refl)
      ∙ rw (found, current_version db found) refl

  -- the transaction commits all or rolls back
  write_and_read_cases :
      (patches : List RulePatch) (db : LoadoutDb)
      → get_loadout id db ≡ some current
      → (write_and_read id patches current.version now db
          ≡ (returned (bumped current), updated_db patches db))
        ⊎ (write_and_read id patches current.version now db ≡ (thrown constraint_failed, db))
  write_and_read_cases patches db found = elim (write_rules_cases patches db found) [
    | inl e ↦ inl (rw (e, stored_after patches db found) refl)
    | inr e ↦ inr (rw e refl)
  ]

module _ (id : String) (patches : List RulePatch) (expected : Option ℕ) (now : ℕ)
    (db : LoadoutDb) where
  -- the answer of a call that wrote the new version
  pub record Updated : Type 0 where
    pub current : LoadoutRow
    pub found : get_loadout id db ≡ some current
    pub as_expected : expects_other expected current.version ≡ false
    pub answer :
        update_rules id patches expected now db
        ≡ (returned (bumped id current now current), updated_db id current now patches db)

  abbrev pub Refused : Type 0
  Refused = (e : LoadoutError) × (update_rules id patches expected now db ≡ (thrown e, db))

-- `updateRules` either does all of it or nothing: it appends the rules of every patch under the
-- next version, sets that version and the time on the loadout's row, leaves all earlier rules and
-- the bindings, and returns the new row, where the loadout is there at the version that the caller
-- expects, if the caller names one; or it throws, and the tables are as they were.
pub update_rules_all_or_nothing :
    (id : String) (patches : List RulePatch) (expected : Option ℕ) (now : ℕ) (db : LoadoutDb)
    → Updated id patches expected now db ⊎ Refused id patches expected now db
unfolding update_rules
update_rules_all_or_nothing id [] expected now db = inr (coded LoadoutErrorCode.invalid_scope, refl)
update_rules_all_or_nothing id (patch ∷ patches) expected now db =
    elim (Option-cases (get_loadout id db)) [
      | inl none_there ↦ inr (coded LoadoutErrorCode.loadout_not_found, rw none_there refl)
      | inr (current, found) ↦ elim (Bool-cases (expects_other expected current.version)) [
        | inl e ↦ inr (coded LoadoutErrorCode.cas_mismatch, rw (found, e) refl)
        | inr e ↦ elim (write_and_read_cases id current now (patch ∷ patches) db found) [
          | inl k ↦ inl (record {
            current = current;
            found = found;
            as_expected = e;
            answer = rw (found, e) k;
          })
          | inr k ↦ inr (constraint_failed, rw (found, e) k)
        ]
      ]
    ]

-- A call with one patch returns the loadout at its next version, where the loadout is there, at the
-- version that the caller expects, and has no rule for the patch's channel at the next version.
pub update_rules_succeeds :
    (id : String) (patch : RulePatch) (expected : Option ℕ) (now : ℕ) (current : LoadoutRow)
    (db : LoadoutDb)
    → get_loadout id db ≡ some current
    → expects_other expected current.version ≡ false
    → exists_where (same_rule (patched_rule id (current.version + 1) patch)) db.rules ≡ false
    → update_rules id (patch ∷ []) expected now db
      ≡ (returned (bumped id current now current), updated_db id current now (patch ∷ []) db)
unfolding update_rules write_rules insert_all_rules insert_rule bump_version insert_row
update_rules_succeeds id patch expected now current db found e new =
    rw (found, e, new, found, is_bumped id current now db found)
      (rw (stored_after id current now (patch ∷ []) db found) refl)
