-- ===== src/Plans/Accepted/Complete.antt =====
-- The plans that `validate` lets through.
use agent_recall.Common.{
  ℕ, String, Bool, true, false, ◌||◌, Option, none, some, List, [], ◌∷◌, ◌≡◌, refl, arith, str_eq,
  eq_iff, All, lt→leb_false,
}
use agent_recall.Common.Table.{select_where, exists_where}
use agent_recall.Plans.Rows.{PlanRow, ItemRow, PlanDb, Runtime}
use agent_recall.Plans.Store.{applied_keys}
use agent_recall.Plans.Service.{
  MaintenancePlan, Revision, at_revision, valid, is_unplanned, is_drifted, is_nil, validate_items,
  validate_pending, validate,
}
use agent_recall.Plans.Accepted.{IsAccepted}

is_nil-select_where :
    {A : Type 0} (p : A → Bool) (xs : List A)
    → All (λ x. p x ≡ false) xs
    → is_nil (select_where p xs) ≡ true
unfolding select_where
is_nil-select_where p [] h = refl
is_nil-select_where p (x ∷ xs) h = rw h.0 (is_nil-select_where p xs h.1)

module _ (current : String → Option Revision) where
  fresh_planned :
      (items : List ItemRow)
      → All
          (λ item. current item.target_memory_id ≡ some (at_revision item.expected_revision))
          items
      → All (λ item. is_unplanned current item ≡ false) items
  fresh_planned [] h = tt
  fresh_planned (item ∷ items) h = (rw h.0 refl, fresh_planned items h.1)

  fresh_level :
      (items : List ItemRow)
      → All
          (λ item. current item.target_memory_id ≡ some (at_revision item.expected_revision))
          items
      → All (λ item. is_drifted current item ≡ false) items
  fresh_level [] h = tt
  fresh_level (item ∷ items) h = (rw h.0 (ground arith), fresh_level items h.1)

-- no audit event says that the plan was applied, or one says that it was under this key
abbrev pub key_allowed : {Evidence : Type 0} → Runtime Evidence → String → String → PlanDb → Bool
key_allowed runtime id key db =
    is_nil (applied_keys runtime id db)
    || exists_where (λ k. str_eq k key) (applied_keys runtime id db)

module _ {Evidence : Type 0} (runtime : Runtime Evidence) (id : String)
    (current : String → Option Revision) (key : String) (now : ℕ) (plan : MaintenancePlan Evidence)
    (db : PlanDb) where
  -- A plan that is pending and in time, whose items have its hash and are all at the caller's
  -- revisions, and that was not applied under other keys only, is let through, and the tables stay
  -- as they are.
  pub accepts_valid_plan :
      (row : PlanRow)
      → IsAccepted runtime id current now plan db row
      → key_allowed runtime id key db ≡ true
      → validate runtime id current key now db ≡ (valid plan none, db)
  unfolding validate validate_pending validate_items
  accepts_valid_plan row a allowed =
      let hash = (eq_iff _ row.plan_hash).1 a.hash in
      rw
        (
          a.found,
          a.state,
          lt→leb_false row.expires_at now a.in_time,
          hash,
          is_nil-select_where (is_unplanned current) _ (fresh_planned current _ a.fresh),
          is_nil-select_where (is_drifted current) _ (fresh_level current _ a.fresh),
          a.planned,
        )
        (ground (arith, allowed))
