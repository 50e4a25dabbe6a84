-- ===== src/Plans/Accepted.antt =====
-- What holds of a plan that `validate` lets through to be applied.
pub mod Complete
use agent_recall.Common.{
  ℕ, String, Bool, true, false, ◌&&◌, ◌||◌, not, Option, none, some, List, [], ◌∷◌, ◌≡◌, refl, ◌<◌,
  arith, if◌then◌else◌, leb, is_some, Bool-cases, str_eq, eq_iff, inl, inr, All, map,
}
use agent_recall.Common.Table.{select_where, exists_where}
use agent_recall.Plans.Rows.{
  PlanState, pending, applying, completed, expired, rejected, PlanRow, ItemRow, PlanDb,
  AppliedResult, Runtime, is_expired,
}
use agent_recall.Plans.Store.{get_row, get_items, applied_result, applied_keys}
use agent_recall.Plans.Service.{
  MaintenancePlan, Revision, at_revision, minus_one, Validation, valid, refused, is_unplanned,
  is_drifted, is_nil, item_hashed, plan_from_row, or_mismatch, validate_items, validate_pending,
  validate_live, validate_row, validate, differs, idempotency_mismatch, applied_under,
}

module _ {Evidence : Type 0} (runtime : Runtime Evidence) (id : String)
    (current : String → Option Revision) (now : ℕ) (plan : MaintenancePlan Evidence)
    (db : PlanDb) where
  -- the stored plan is pending and in time, its items have the hash of the plan, and every item is
  -- at the revision that the plan expects
  pub record IsAccepted (row : PlanRow) : Type 0 where
    pub found : get_row id db ≡ some row
    pub state : row.state ≡ pending
    pub in_time : now < row.expires_at
    pub hash : runtime.hash_items (map item_hashed (get_items runtime id db)) ≡ row.plan_hash
    pub fresh :
        All
          (λ item. current item.target_memory_id ≡ some (at_revision item.expected_revision))
          (get_items runtime id db)
    pub planned : plan ≡ plan_from_row runtime row (get_items runtime id db)

is_nil_lem : {A : Type 0} (xs : List A) → is_nil xs ≡ true → xs ≡ []
is_nil_lem [] h = refl
is_nil_lem (x ∷ xs) h = cc

All-unselected :
    {A : Type 0} (p : A → Bool) (xs : List A)
    → is_nil (select_where p xs) ≡ true
    → All (λ x. p x ≡ false) xs
unfolding select_where
All-unselected p [] h = tt
All-unselected p (x ∷ xs) h = elim (Bool-cases (p x)) [
  | inl e ↦ absurd (cc (rw e at h))
  | inr e ↦ (e, All-unselected p xs (rw e at h))
]

is_fresh :
    (expected : ℕ) (found : Option Revision)
    → not (is_some found) ≡ false
    → differs expected found ≡ false
    → found ≡ some (at_revision expected)
is_fresh expected none h k = cc
is_fresh expected (some minus_one) h k = cc
is_fresh expected (some (at_revision n)) h k = grind arith

module _ {Evidence : Type 0} (runtime : Runtime Evidence) (id : String)
    (current : String → Option Revision) (key : String) (now : ℕ) (plan : MaintenancePlan Evidence)
    (db db' : PlanDb) where
  -- the answer lets the plan through, and the tables are as they were
  abbrev Accepts : Validation Evidence × PlanDb → Type 0
  Accepts answer = answer ≡ (valid plan none, db')

  abbrev Result : PlanRow → Type 0
  Result row = IsAccepted runtime id current now plan db row × (db' ≡ db)

  items_fresh :
      (items : List ItemRow)
      → All (λ item. is_unplanned current item ≡ false) items
      → All (λ item. is_drifted current item ≡ false) items
      → All
          (λ item. current item.target_memory_id ≡ some (at_revision item.expected_revision))
          items
  items_fresh [] h k = tt
  items_fresh (item ∷ items) h k = (
    is_fresh item.expected_revision (current item.target_memory_id) h.0 k.0,
    items_fresh items h.1 k.1,
  )

  valid_same :
      (found : MaintenancePlan Evidence)
      → Accepts (valid found none, db)
      → (plan ≡ found) × (db' ≡ db)
  valid_same found h = (cc, cc)

  abbrev Fresh : Type 0
  Fresh =
      All (λ item. current item.target_memory_id ≡ some (at_revision item.expected_revision))
        (get_items runtime id db)

  keys_accepted :
      (row : PlanRow) (clash : Bool)
      → Accepts (
        if clash
            then refused idempotency_mismatch (applied_under (applied_keys runtime id db) key)
            else valid (plan_from_row runtime row (get_items runtime id db)) none,
        db,
      )
      → (plan ≡ plan_from_row runtime row (get_items runtime id db)) × (db' ≡ db)
  keys_accepted row clash h = elim (Bool-cases clash) [
    | inl e ↦ absurd (cc (rw e at h))
    | inr e ↦ valid_same _ (rw e at h)
  ]

  items_accepted :
      (row : PlanRow)
      → Accepts (validate_items runtime id current key row db, db)
      → Fresh × ((plan ≡ plan_from_row runtime row (get_items runtime id db)) × (db' ≡ db))
  unfolding validate_items
  items_accepted row h =
      elim (Bool-cases (is_nil (select_where (is_unplanned current) (get_items runtime id db)))) [
        | inr e ↦ absurd (cc (rw e at h))
        | inl e ↦
            elim (Bool-cases
              (is_nil (select_where (is_drifted current) (get_items runtime id db)))) [
                | inr k ↦ absurd (cc (rw (e, k) at h))
                | inl k ↦ (
                  items_fresh _ (All-unselected _ _ e) (All-unselected _ _ k),
                  keys_accepted row
                      (not (is_nil (applied_keys runtime id db))
                        && not (exists_where (λ k. str_eq k key) (applied_keys runtime id db)))
                      (rw (e, k) at h),
                )
              ]
      ]

  pending_accepted :
      (row : PlanRow)
      → get_row id db ≡ some row
      → row.state ≡ pending
      → leb row.expires_at now ≡ false
      → Accepts (validate_pending runtime id current key row db)
      → Result row
  unfolding validate_pending
  pending_accepted row found state in_time h =
      elim (Bool-cases
        (str_eq (runtime.hash_items (map item_hashed (get_items runtime id db))) row.plan_hash)) [
          | inr e ↦ absurd (cc (rw e at h))
          | inl e ↦
              let checked = items_accepted row (rw e at h) in
              (
                record {
                  found = found;
                  state = state;
                  in_time = ground arith;
                  hash = (eq_iff _ row.plan_hash).0 e;
                  fresh = checked.0;
                  planned = checked.1.0;
                },
                checked.1.1,
              )
        ]

  -- a completed plan is never let through afresh
  replays :
      (stored : Option AppliedResult) (row : PlanRow)
      → Accepts (or_mismatch runtime id row db stored, db)
      → ⊥
  replays none row h = cc
  replays (some result) row h = cc

  live_accepted :
      (state : PlanState) (row : PlanRow)
      → row.state ≡ state
      → get_row id db ≡ some row
      → is_expired state ≡ false
      → leb row.expires_at now ≡ false
      → Accepts (validate_live runtime state id current key row db)
      → Result row
  live_accepted pending row e found live in_time h = pending_accepted row found e in_time h
  live_accepted applying row e found live in_time h = absurd (cc)
  live_accepted completed row e found live in_time h =
      absurd (replays (applied_result runtime id key db) row h)
  live_accepted expired row e found live in_time h = cc
  live_accepted rejected row e found live in_time h = absurd (cc)

  row_accepted :
      (found : Option PlanRow)
      → get_row id db ≡ found
      → Accepts (validate_row runtime id current key now db found)
      → (row : PlanRow) × Result row
  row_accepted none e h = absurd (cc)
  row_accepted (some row) e h = elim (Bool-cases (is_expired row.state || leb row.expires_at now)) [
    | inl k ↦ absurd (cc (rw k at h))
    | inr k ↦ (row, live_accepted row.state row refl e (ground arith) (ground arith) (rw k at h))
  ]

  -- Where `validate` answers that the plan may be applied, the tables are as they were; the stored
  -- plan is pending and has not expired; its items have the plan's hash; the caller's revision of
  -- every item's memory is the one that the plan expects; and the plan returned is the stored one.
  pub validate-IsAccepted :
      validate runtime id current key now db ≡ (valid plan none, db')
      → (row : PlanRow) × (IsAccepted runtime id current now plan db row × (db' ≡ db))
  unfolding validate
  validate-IsAccepted h = row_accepted (get_row id db) refl h
