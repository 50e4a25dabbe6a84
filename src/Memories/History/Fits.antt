-- ===== src/Memories/History/Fits.antt =====
-- What the budget and the duplicate checks of `remember` let through.
use agent_recall.Common.{
  String, Bool, true, false, not, ◌&&◌, Option, none, some, List, ◌≡◌, refl, sym, ap, ◌∙◌, subst,
  eq_refl, get_or, Bool-cases, Option-cases, inl, inr, if◌then◌else◌,
}
use agent_recall.Common.Table.{
  first_where, exists_where, insert_row, first_where-insert_row, none-exists_where,
}
use agent_recall.Common.Effect.{Outcome, returned, bind_returned}
use agent_recall.Budget.Rows.{MemoryBudget}
use agent_recall.Budget.Evaluate.{
  BudgetWarning, Evaluation, accepted, capacity_exceeded as over_budget,
}
use agent_recall.Budget.Within.{is_accepted}
use agent_recall.Scopes.Inputs.{MemoryScope, global, project}
use agent_recall.Scopes.Rows.{has_project_id, create_project_identity}
use agent_recall.Memories.Rows.{EntryRow, ProjectScope, MemoryDb, MemoryError, is_project}
use agent_recall.Memories.Store.{append_audit}
use agent_recall.Memories.Inputs.{RememberInput, ok, capacity_exceeded}
use agent_recall.Memories.Context.{WriteContext, refuse}
use agent_recall.Memories.Room.{
  default_global_budget, default_project_budget, same_scope, optional_eq, get_project_scope,
  budget_of, budget_for, existing_entries, evaluate_entry_budget,
}
use agent_recall.Memories.Prepare.{
  ResolvedRemember, configure_project_budget, ensure_project_scope, scope_budget,
}
use agent_recall.Memories.Remember.{
  is_duplicate, within_budget, check_budget, unless_duplicate, check_new,
}
use agent_recall.Memories.Moves.Passed.{IsNew, same_value, unless_duplicate_keeps}
use agent_recall.Memories.Moves.Quiet.{scope_budget-IsQuiet}
use agent_recall.Memories.History.Links.{checked_ok}

same_budget :
    {a b : MemoryBudget}
    → ◌≡◌ {A = Outcome MemoryError MemoryBudget} (returned a) (returned b)
    → a ≡ b
same_budget h = cc

inserted_budget :
    (scope : ProjectScope) (scopes : List ProjectScope)
    → first_where (is_project scope.project_id) scopes ≡ none
    → budget_of (first_where (is_project scope.project_id) (insert_row scope scopes)) ≡ scope.budget
inserted_budget scope scopes missing =
    ap budget_of (first_where-insert_row (is_project scope.project_id) scope scopes)
    ∙ rw (missing, eq_refl scope.project_id) refl

-- the budget that is found or configured is the one that stands in the table afterwards
module _ (w : WriteContext) (id path name now : String) (db : MemoryDb)
    (budget : MemoryBudget) where
  configured :
      get_project_scope id db ≡ none
      → (configure_project_budget w id default_project_budget path name now db).0 ≡ returned budget
      → budget_of (
          get_project_scope id
            (configure_project_budget w id default_project_budget path name now db).1)
        ≡ budget
  unfolding configure_project_budget create_project_identity
  configured missing h = elim (Bool-cases (exists_where (has_project_id id) db.scopes.identities)) [
    | inl e ↦
        rw (e, none-exists_where (is_project id) db.projects missing)
          (inserted_budget _ db.projects missing ∙ same_budget (rw e at h))
    | inr e ↦
        rw (e, none-exists_where (is_project id) db.projects missing)
          (inserted_budget _ db.projects missing ∙ same_budget (rw e at h))
  ]

  ensured :
      (ensure_project_scope w id path name now db).0 ≡ returned budget
      → budget_of (get_project_scope id (ensure_project_scope w id path name now db).1) ≡ budget
  ensured h = elim (Option-cases (get_project_scope id db)) [
    | inl e ↦ rw e (configured e (rw e at h))
    | inr (scope, e) ↦ rw (e, e) (same_budget (rw e at h))
  ]

module _ (w : WriteContext) (r : ResolvedRemember) (now : String) (db : MemoryDb)
    (budget : MemoryBudget) where
  scope_budget_lem :
      (scope : MemoryScope) (id : Option String)
      → same_scope scope project && optional_eq id none ≡ false
      → (scope_budget w scope id r now db).0 ≡ returned budget
      → (if same_scope scope global
          then default_global_budget
          else budget_of (get_project_scope (get_or id "") (scope_budget w scope id r now db).1))
        ≡ budget
  scope_budget_lem global none placed h = same_budget h
  scope_budget_lem global (some id) placed h = same_budget h
  scope_budget_lem project none placed h = absurd (cc placed)
  scope_budget_lem project (some id) placed h = ensured w id _ _ now db budget h

-- the governor reads no table but the memories
evaluate_entries :
    (w : WriteContext) (entry : EntryRow) (budget : MemoryBudget) (excluded : String → Bool)
    (db db' : MemoryDb)
    → db'.entries ≡ db.entries
    → evaluate_entry_budget w entry budget excluded db'
      ≡ evaluate_entry_budget w entry budget excluded db
unfolding evaluate_entry_budget existing_entries
evaluate_entries w entry budget excluded db db' same =
    ap
      (λ (rows : List EntryRow).
        evaluate_entry_budget w entry budget excluded (record db { entries = rows }))
      same

abbrev pub warnings_of : {W : Type 0} → Evaluation W → List W
warnings_of (accepted warnings after) = warnings
warnings_of (over_budget usage after warnings candidates) = warnings

within_ok :
    (w : WriteContext) (input : RememberInput) (now : String)
    (evaluation : Evaluation (BudgetWarning w.similarity)) (db : MemoryDb)
    (warnings : List (BudgetWarning w.similarity))
    → (within_budget w (refuse w input capacity_exceeded now) evaluation db).0
      ≡ returned (ok warnings)
    → (is_accepted evaluation ≡ true)
      × (warnings_of evaluation ≡ warnings)
      × ((within_budget w (refuse w input capacity_exceeded now) evaluation db).1 ≡ db)
unfolding append_audit
within_ok w input now (accepted ws after) db warnings h = (refl, same_value h, refl)
within_ok w input now (over_budget u a ws candidates) db warnings h = absurd (cc h)

-- accepted by the budget of its scope, as it stands in `db'`, beside the memories of `db`; and without the
-- title or the body of one of them, unless the caller confirmed
pub record HasRoom (w : WriteContext) (input : RememberInput) (entry : EntryRow) (db db' : MemoryDb)
    : Type 0 where
  pub fits :
      is_accepted (evaluate_entry_budget w entry (budget_for entry db') (λ _. false) db) ≡ true
  pub distinct :
      not input.confirm_write
        && exists_where
            (is_duplicate w)
            (warnings_of (evaluate_entry_budget w entry (budget_for entry db') (λ _. false) db))
      ≡ false

pub HasRoom-before :
    (w : WriteContext) (input : RememberInput) (entry : EntryRow) (db later db' : MemoryDb)
    → later.entries ≡ db.entries
    → HasRoom w input entry later db'
    → HasRoom w input entry db db'
HasRoom-before w input entry db later db' same room =
    let e = evaluate_entries w entry (budget_for entry db') (λ _. false) db later same in
    record { fits = rw e at room.fits; distinct = rw e at room.distinct }

module _ (w : WriteContext) (input : RememberInput) (now : String) where
  unless_duplicate_lem :
      (entry passed : EntryRow) (warnings : List (BudgetWarning w.similarity)) (db : MemoryDb)
      → (unless_duplicate w input entry now warnings db).0 ≡ returned (ok passed)
      → (not input.confirm_write && exists_where (is_duplicate w) warnings ≡ false)
        × ((unless_duplicate w input entry now warnings db).1 ≡ db)
  unfolding append_audit
  unless_duplicate_lem entry passed warnings db h =
      elim (Bool-cases (not input.confirm_write && exists_where (is_duplicate w) warnings)) [
        | inl e ↦ absurd (cc (rw e at h))
        | inr e ↦ rw e (refl, refl)
      ]

  -- the budget is checked with what the table has, and the check itself writes nothing more
  check_budget_lem :
      (r : ResolvedRemember) (db : MemoryDb) (warnings : List (BudgetWarning w.similarity))
      → same_scope r.entry.scope project && optional_eq r.entry.project_id none ≡ false
      → let p = check_budget w r (λ _. false) (refuse w input capacity_exceeded now) now db in
        p.0 ≡ returned (ok warnings)
        → let evaluation =
            evaluate_entry_budget w r.entry (budget_for r.entry p.1) (λ _. false) db in
          (is_accepted evaluation ≡ true) × (warnings_of evaluation ≡ warnings)
  unfolding check_budget
  check_budget_lem r db warnings placed h =
      let first = scope_budget w r.entry.scope r.entry.project_id r now db in
      let (budget, found, rest) = bind_returned first _ (ok warnings) h in
      let own = scope_budget_lem w r now db budget r.entry.scope r.entry.project_id placed found in
      let here = evaluate_entry_budget w r.entry budget (λ _. false) first.1 in
      let (fits, same, quiet) =
        within_ok w input now here first.1 warnings (sym (ap (λ p. p.0) rest) ∙ h) in
      let memories = (scope_budget-IsQuiet w r.entry.scope r.entry.project_id r now db).entries in
      rw
        (rest, quiet, own, sym (evaluate_entries w r.entry budget (λ _. false) db first.1 memories))
        (fits, same)

  pub check_new_lem :
      (r : ResolvedRemember) (entry : EntryRow) (db : MemoryDb)
      → IsNew r.entry
      → (check_new w input now r db).0 ≡ returned (ok entry)
      → IsNew entry × HasRoom w input entry db (check_new w input now r db).1
  check_new_lem r entry db new h =
      let p = check_budget w r (λ _. false) (refuse w input capacity_exceeded now) now db in
      let (warnings, passed, rest) = checked_ok p (unless_duplicate w input r.entry now) entry h in
      let last = sym (ap (λ q. q.0) rest) ∙ h in
      let (distinct, quiet) = unless_duplicate_lem r.entry entry warnings p.1 last in
      let (fits, same) = check_budget_lem r db warnings new.placed passed in
      subst (λ (x : EntryRow). IsNew x × HasRoom w input x db (check_new w input now r db).1)
        (unless_duplicate_keeps w input r.entry entry now warnings p.1 last)
        (new, rw (rest, quiet) (record { fits = fits; distinct = rw same distinct }))
