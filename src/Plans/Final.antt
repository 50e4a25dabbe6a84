-- ===== src/Plans/Final.antt =====
-- The row of a completed plan under every operation.
use agent_recall.Common.{
  ℕ, String, Bool, true, false, ◌||◌, Option, none, some, List, [], ◌∷◌, ◌≡◌, refl, sym, ◌∙◌, arith,
  leb, Bool-cases, str_eq, eq_iff, inl, inr, map,
}
use agent_recall.Common.Effect.{Outcome, returned, thrown, continue_with, pure}
use agent_recall.Common.Table.{
  update_where, exists_where, insert_row, first_where-update_where, first_where-insert_row,
  first_where_sound,
}
use agent_recall.Plans.Rows.{
  PlanState, pending, applying, completed, expired, rejected, PlanRow, ItemRow, PlanDb, Runtime,
  is_completed, is_expired, is_pending,
}
use agent_recall.Plans.Store.{
  PlanFailure, has_plan_id, same_item, insert_plan, insert_item, insert_items, create_plan, get_row,
  set_state, can_apply, mark_plan_applying, can_complete_plan, mark_plan_completed, is_due,
  expire_old_plans, get_items,
}
use agent_recall.Plans.Service.{
  CreatePlanInput, Revision, create, created, validate, validate_row, validate_live,
  validate_pending, mark_completed, item_hashed, item_of_action, pending_plan, sorted_actions,
}
use agent_recall.Plans.Ops.{
  PlanOp, create_op, expire_op, validate_op, applying_op, completed_op, plan_step, run_plan_ops,
}

-- the row with the id is this one, and is completed
pub record Settled (id : String) (row : PlanRow) (db : PlanDb) : Type 0 where
  pub found : get_row id db ≡ some row
  pub is_done : is_completed row.state ≡ true

plans-insert_item : (item : ItemRow) (db : PlanDb) → (insert_item item db).1.plans ≡ db.plans
unfolding insert_item
plans-insert_item item db = ground arith

plans-insert_items :
    (items : List ItemRow) (db : PlanDb) → (insert_items items db).1.plans ≡ db.plans
unfolding insert_items insert_item
plans-insert_items [] db = refl
plans-insert_items (item ∷ items) db = elim (Bool-cases (exists_where (same_item item) db.items)) [
  | inl e ↦ rw e refl
  | inr e ↦ rw e (plans-insert_items items (record db { items = insert_row item db.items }))
]

-- what follows an operation and writes nothing leaves its state
state_after_pure :
    {S E A B : Type 0} (o : Outcome E A) (s : S) (b : B)
    → (continue_with {S = S} {E = E} {A = A} {B = B} o s (λ _. pure b)).1 ≡ s
state_after_pure (returned a) s b = refl
state_after_pure (thrown e) s b = refl

pending_is_open : (state : PlanState) → is_pending state ≡ true → is_completed state ≡ false
pending_is_open state h = ground arith

module _ (id : String) (row : PlanRow) where
  -- an UPDATE that misses the row
  Settled-update :
      (db : PlanDb) (q : PlanRow → Bool) (f : PlanRow → PlanRow)
      → ((x : PlanRow) → (f x).plan_id ≡ x.plan_id)
      → q row ≡ false
      → Settled id row db
      → Settled id row (record db { plans = update_where q f db.plans })
  Settled-update db q f keeps miss s = record {
    found =
        first_where-update_where (has_plan_id id) q f db.plans (λ x _. rw (keeps x) refl)
        ∙ rw (s.found, miss) refl;
    is_done = s.is_done;
  }

  -- a row that is not completed is another plan's
  other_row :
      (db : PlanDb) (other : String) (found : PlanRow)
      → Settled id row db
      → get_row other db ≡ some found
      → is_completed found.state ≡ false
      → has_plan_id other row ≡ false
  other_row db other found s h undone = elim (Bool-cases (has_plan_id other row)) [
    | inr e ↦ e
    | inl e ↦
        let same = first_where_sound (has_plan_id id) db.plans row s.found in
        let ids : other ≡ id =
          sym ((eq_iff row.plan_id other).0 e) ∙ (eq_iff row.plan_id id).0 same in
        let at_id : get_row id db ≡ some found = rw ids at h in
        absurd (cc (at_id, s.found, s.is_done, undone))
  ]

  Settled-set_state :
      (db : PlanDb) (other : String) (state : PlanState) (found : PlanRow)
      → get_row other db ≡ some found
      → is_completed found.state ≡ false
      → Settled id row db
      → Settled id row (set_state other state db)
  unfolding set_state
  Settled-set_state db other state found h undone s =
      Settled-update db (has_plan_id other) _ (λ x. refl) (other_row db other found s h undone) s

  Settled-create_plan :
      (plan : PlanRow) (items : List ItemRow) (db : PlanDb)
      → Settled id row db
      → Settled id row (create_plan plan items db).1
  unfolding create_plan insert_plan
  Settled-create_plan plan items db s =
      elim (Bool-cases (exists_where (has_plan_id plan.plan_id) db.plans)) [
        | inl e ↦ rw e s
        | inr e ↦ rw e (record {
          found =
              rw (plans-insert_items items (record db { plans = insert_row plan db.plans }))
                (first_where-insert_row (has_plan_id id) plan db.plans ∙ rw s.found refl);
          is_done = s.is_done;
        })
      ]

  Settled-expire :
      (now : ℕ) (db : PlanDb) → Settled id row db → Settled id row (expire_old_plans now db).1
  unfolding expire_old_plans
  Settled-expire now db s =
      Settled-update db (is_due now) _ (λ x. refl) (ground (arith, s.is_done)) s

module _ {Evidence : Type 0} (runtime : Runtime Evidence) (id : String) (row : PlanRow) where
  abbrev inserted :
      CreatePlanInput Evidence → String → ℕ → PlanDb → Outcome PlanFailure (Unit {0}) × PlanDb
  inserted input plan_id now db =
      create_plan (pending_plan runtime input plan_id now)
        (map (item_of_action runtime plan_id) (sorted_actions runtime input.proposed_actions))
        (expire_old_plans now db).1

  Settled-create :
      (input : CreatePlanInput Evidence) (plan_id : String) (now : ℕ) (db : PlanDb)
      → Settled id row db
      → Settled id row (create runtime input plan_id now db).1
  unfolding create
  Settled-create input plan_id now db s =
      rw
        (state_after_pure (inserted input plan_id now db).0 (inserted input plan_id now db).1
          (created runtime input (pending_plan runtime input plan_id now)))
        (Settled-create_plan id row (pending_plan runtime input plan_id now)
          (map (item_of_action runtime plan_id) (sorted_actions runtime input.proposed_actions))
          (expire_old_plans now db).1 (Settled-expire id row now db s))

  Settled-validate_pending :
      (other : String) (current : String → Option Revision) (key : String) (found : PlanRow)
      (db : PlanDb)
      → get_row other db ≡ some found
      → is_completed found.state ≡ false
      → Settled id row db
      → Settled id row (validate_pending runtime other current key found db).1
  unfolding validate_pending
  Settled-validate_pending other current key found db h undone s =
      elim (Bool-cases (
        str_eq (runtime.hash_items (map item_hashed (get_items runtime other db)))
          found.plan_hash)) [
            | inl e ↦ rw e s
            | inr e ↦ rw e (Settled-set_state id row db other rejected found h undone s)
          ]

  Settled-validate_live :
      (state : PlanState) (other : String) (current : String → Option Revision) (key : String)
      (found : PlanRow) (db : PlanDb)
      → found.state ≡ state
      → get_row other db ≡ some found
      → Settled id row db
      → Settled id row (validate_live runtime state other current key found db).1
  Settled-validate_live pending other current key found db e h s =
      Settled-validate_pending other current key found db h (rw e refl) s
  Settled-validate_live applying other current key found db e h s = s
  Settled-validate_live completed other current key found db e h s = s
  Settled-validate_live expired other current key found db e h s =
      Settled-validate_pending other current key found db h (rw e refl) s
  Settled-validate_live rejected other current key found db e h s = s

  Settled-validate_row :
      (found : Option PlanRow) (other : String) (current : String → Option Revision) (key : String)
      (now : ℕ) (db : PlanDb)
      → get_row other db ≡ found
      → Settled id row db
      → Settled id row (validate_row runtime other current key now db found).1
  Settled-validate_row none other current key now db h s = s
  Settled-validate_row (some found) other current key now db h s =
      elim (Bool-cases (is_expired found.state || leb found.expires_at now)) [
        | inr e ↦ rw e (Settled-validate_live found.state other current key found db refl h s)
        | inl e ↦ elim (Bool-cases (is_pending found.state)) [
          | inr k ↦ rw (e, k) s
          | inl k ↦
              rw (e, k)
                (Settled-set_state id row db other expired found h (pending_is_open found.state k)
                  s)
        ]
      ]

  Settled-step :
      (op : PlanOp Evidence) (db : PlanDb)
      → Settled id row db
      → Settled id row (plan_step runtime op db)
  unfolding plan_step validate mark_plan_applying mark_completed mark_plan_completed
  Settled-step (create_op input plan_id now) db s = Settled-create input plan_id now db s
  Settled-step (expire_op now) db s = Settled-expire id row now db s
  Settled-step (validate_op other current key now) db s =
      Settled-validate_row (get_row other db) other current key now db refl s
  Settled-step (applying_op other) db s =
      Settled-update id row db (can_apply other) _ (λ x. refl) (ground (arith, s.is_done)) s
  Settled-step (completed_op other key result now) db s =
      Settled-update id row db (can_complete_plan other) _ (λ x. refl) (ground (arith, s.is_done)) s

  pub Settled-run :
      (ops : List (PlanOp Evidence)) (db : PlanDb)
      → Settled id row db
      → Settled id row (run_plan_ops runtime ops db)
  unfolding run_plan_ops
  Settled-run [] db s = s
  Settled-run (op ∷ ops) db s = Settled-run ops (plan_step runtime op db) (Settled-step op db s)
