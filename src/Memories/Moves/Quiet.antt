-- ===== src/Memories/Moves/Quiet.antt =====
-- The checks before a transaction write nothing but the audit log, the projects and the identities, and
-- what they let through is fit for the transaction.
use agent_recall.Common.{
  String, Bool, false, not, ◌&&◌, Option, none, some, List, [], ◌∷◌, ◌≡◌, refl, ◌∙◌, Bool-cases,
  Option-cases, inl, inr,
}
use agent_recall.Common.Table.{exists_where}
use agent_recall.Common.Effect.{Outcome, returned, thrown, continue_with, ◌>>=◌}
use agent_recall.Budget.Rows.{MemoryBudget}
use agent_recall.Budget.Evaluate.{BudgetWarning, Evaluation, accepted, capacity_exceeded}
use agent_recall.Scopes.Inputs.{
  MemoryScope, global, project, register, Resolution, resolved, refused, Stamp,
}
use agent_recall.Scopes.Resolver.{resolve}
use agent_recall.Scopes.Rows.{ScopeDb, create_project_identity}
use agent_recall.Memories.Rows.{
  EntryRow, AuditRow, ProjectScope, MemoryDb, MemoryError, MemoryEffect, get_entry,
}
use agent_recall.Memories.Store.{append_audit, is_open}
use agent_recall.Memories.Inputs.{
  ValidatedRememberInput, RememberInput, WriteError, not_found, invalid_state, invalid_scope,
  unauthorized, capacity_exceeded as over_capacity, duplicate_candidate, Result, ok, err,
}
use agent_recall.Memories.Context.{WriteContext, is_authorized, refuse, refuse_entry, refuse_scope}
use agent_recall.Memories.Room.{get_project_scope}
use agent_recall.Memories.Prepare.{
  ResolvedRemember, lacks_id, refusal, scope_budget, on_scopes, created_at_of,
  configure_project_budget, resolved_input, resolve_validated, resolve_remember_input,
}
use agent_recall.Memories.Replace.{
  matches_replacement_scope, open_or_refuse, load_old, check_scopes,
}
use agent_recall.Memories.Remember.{
  is_duplicate, on_ok, and_then, check_new, within_budget, check_budget, unless_duplicate, prepare,
}
use agent_recall.Memories.Moves.Steps.{noted, Steps, here, after}

pub record SameMemories (db db' : MemoryDb) : Type 0 where
  pub entries : db'.entries ≡ db.entries
  pub revisions : db'.revisions ≡ db.revisions
  pub fts : db'.fts ≡ db.fts

abbrev pub IsQuiet : {A : Type 0} → MemoryEffect A → Type 0
IsQuiet m = (db : MemoryDb) → SameMemories db (m db).1

pub same :
    {db : MemoryDb} {audit : List AuditRow} {projects : List ProjectScope} {scopes : ScopeDb}
    → SameMemories db (record db { audit = audit; projects = projects; scopes = scopes })
same = record { entries = refl; revisions = refl; fts = refl }

pub same-Steps : {db db' : MemoryDb} → SameMemories db db' → Steps db db'
same-Steps s = after here (noted s.entries s.revisions s.fts)

same_trans : {a b c : MemoryDb} → SameMemories a b → SameMemories b c → SameMemories a c
same_trans s t = record {
  entries = t.entries ∙ s.entries;
  revisions = t.revisions ∙ s.revisions;
  fts = t.fts ∙ s.fts;
}

continue-same :
    {A B : Type 0} (db : MemoryDb) (p : Outcome MemoryError A × MemoryDb) (f : A → MemoryEffect B)
    → SameMemories db p.1
    → ((a : A) → IsQuiet (f a))
    → SameMemories db (continue_with p.0 p.1 f).1
continue-same db (returned a, s) f h k = same_trans h (k a s)
continue-same db (thrown e, s) f h k = h

bind-IsQuiet :
    {A B : Type 0} (m : MemoryEffect A) (f : A → MemoryEffect B)
    → IsQuiet m
    → ((a : A) → IsQuiet (f a))
    → IsQuiet (m >>= f)
bind-IsQuiet m f h k db = continue-same db (m db) f (h db) k

on_ok-IsQuiet :
    {A B : Type 0} (f : A → MemoryEffect (Result B))
    → ((a : A) → IsQuiet (f a))
    → (r : Result A) → IsQuiet (on_ok f r)
on_ok-IsQuiet f k (ok a) db = k a db
on_ok-IsQuiet f k (err e) db = same

pub and_then-IsQuiet :
    {A B : Type 0} (m : MemoryEffect (Result A)) (f : A → MemoryEffect (Result B))
    → IsQuiet m
    → ((a : A) → IsQuiet (f a))
    → IsQuiet (and_then m f)
and_then-IsQuiet m f h k = bind-IsQuiet m (on_ok f) h (on_ok-IsQuiet f k)

-- a call that went on was not refused
pub and_then_ok :
    {A B : Type 0} (p : Outcome MemoryError (Result A) × MemoryDb) (f : A → MemoryEffect (Result B))
    (b : B)
    → (continue_with p.0 p.1 (on_ok f)).0 ≡ returned (ok b)
    → (a : A) × (p.0 ≡ returned (ok a)) × ((f a p.1).0 ≡ returned (ok b))
and_then_ok (returned (ok a), s) f b h = (a, refl, h)
and_then_ok (returned (err e), s) f b h = absurd (cc h)
and_then_ok (thrown e, s) f b h = absurd (cc h)

module _ (w : WriteContext) where
  pub refuse_scope-IsQuiet :
      (A : Type 0) (scope : MemoryScope) (id : Option String) (e : WriteError) (now : String)
      → IsQuiet (refuse_scope w {A = A} scope id e now)
  unfolding append_audit
  refuse_scope-IsQuiet A scope id e now db = same

  pub refuse_entry-IsQuiet :
      (A : Type 0) (entry : EntryRow) (e : WriteError) (now : String)
      → IsQuiet (refuse_entry w {A = A} entry e now)
  unfolding append_audit
  refuse_entry-IsQuiet A entry e now db = same

  configure_project_budget-IsQuiet :
      (id : String) (budget : MemoryBudget) (path name now : String)
      → IsQuiet (configure_project_budget w id budget path name now)
  unfolding configure_project_budget
  configure_project_budget-IsQuiet id budget path name now db =
      bind-IsQuiet
        (on_scopes (
          create_project_identity (record {
            project_id = id;
            canonical_path = path;
            created_by = w.default_actor;
            created_at = created_at_of (get_project_scope id db) now;
          })))
        _ (λ before. same) (λ u s. same) db

  pub scope_budget-IsQuiet :
      (scope : MemoryScope) (id : Option String) (r : ResolvedRemember) (now : String)
      → IsQuiet (scope_budget w scope id r now)
  scope_budget-IsQuiet global none r now db = same
  scope_budget-IsQuiet global (some id) r now db = same
  scope_budget-IsQuiet project none r now db = same
  scope_budget-IsQuiet project (some id) r now db = elim (Option-cases (get_project_scope id db)) [
    | inl e ↦ rw e (configure_project_budget-IsQuiet id _ _ _ now db)
    | inr (scope, e) ↦ rw e same
  ]

  resolved_input-IsQuiet :
      (input : RememberInput) (validated : ValidatedRememberInput) (id : String) (stamp : Stamp)
      (answer : Resolution)
      → IsQuiet (resolved_input w input validated id stamp answer)
  resolved_input-IsQuiet input validated id stamp (refused e) db =
      refuse_scope-IsQuiet ResolvedRemember input.scope input.project_id (refusal e) stamp.now_iso
        db
  resolved_input-IsQuiet input validated id stamp (resolved scope) db =
      elim (Bool-cases (lacks_id scope)) [
        | inl e ↦ rw e (
            refuse_scope-IsQuiet ResolvedRemember input.scope input.project_id invalid_scope
              stamp.now_iso db)
        | inr e ↦ rw e same
      ]

  resolve_validated-IsQuiet :
      (input : RememberInput) (id : String) (stamp : Stamp) (r : Result ValidatedRememberInput)
      → IsQuiet (resolve_validated w input id stamp r)
  resolve_validated-IsQuiet input id stamp (err e) db =
      refuse_scope-IsQuiet ResolvedRemember input.scope input.project_id e stamp.now_iso db
  resolve_validated-IsQuiet input id stamp (ok validated) db =
      bind-IsQuiet (on_scopes (resolve w.host register w.allow_unbound validated.scope_input stamp))
        _ (λ before. same) (resolved_input-IsQuiet input validated id stamp) db

  pub resolve_remember_input-IsQuiet :
      (input : RememberInput) (id : String) (stamp : Stamp)
      → IsQuiet (resolve_remember_input w input id stamp)
  unfolding resolve_remember_input
  resolve_remember_input-IsQuiet input id stamp =
      resolve_validated-IsQuiet input id stamp (w.validate_remember input)

  within_budget-IsQuiet :
      (refused_call : MemoryEffect (Result (List (BudgetWarning w.similarity))))
      → IsQuiet refused_call
      → (evaluation : Evaluation (BudgetWarning w.similarity))
      → IsQuiet (within_budget w refused_call evaluation)
  within_budget-IsQuiet refused_call h (accepted warnings usage) db = same
  within_budget-IsQuiet refused_call h (capacity_exceeded usage next warnings candidates) db = h db

  pub check_budget-IsQuiet :
      (r : ResolvedRemember) (excluded : String → Bool)
      (refused_call : MemoryEffect (Result (List (BudgetWarning w.similarity)))) (now : String)
      → IsQuiet refused_call
      → IsQuiet (check_budget w r excluded refused_call now)
  unfolding check_budget
  check_budget-IsQuiet r excluded refused_call now h =
      bind-IsQuiet (scope_budget w r.entry.scope r.entry.project_id r now) _
        (scope_budget-IsQuiet r.entry.scope r.entry.project_id r now)
        (λ budget db. within_budget-IsQuiet refused_call h _ db)

  unless_duplicate-IsQuiet :
      (input : RememberInput) (entry : EntryRow) (now : String)
      (warnings : List (BudgetWarning w.similarity))
      → IsQuiet (unless_duplicate w input entry now warnings)
  unless_duplicate-IsQuiet input entry now warnings db =
      elim (Bool-cases (not input.confirm_write && exists_where (is_duplicate w) warnings)) [
        | inl e ↦
            rw e (
              refuse_scope-IsQuiet EntryRow input.scope input.project_id duplicate_candidate now db)
        | inr e ↦ rw e same
      ]

  check_new-IsQuiet :
      (input : RememberInput) (now : String) (r : ResolvedRemember)
      → IsQuiet (check_new w input now r)
  check_new-IsQuiet input now r =
      let refused_call = refuse w {A = List (BudgetWarning w.similarity)} input over_capacity now in
      and_then-IsQuiet (check_budget w r (λ _. false) refused_call now)
        (unless_duplicate w input r.entry now)
        (check_budget-IsQuiet r (λ _. false) refused_call now
          (refuse_scope-IsQuiet (List (BudgetWarning w.similarity)) input.scope input.project_id
            over_capacity now))
        (unless_duplicate-IsQuiet input r.entry now)

  pub prepare-IsQuiet :
      (input : RememberInput) (id : String) (stamp : Stamp) → IsQuiet (prepare w input id stamp)
  unfolding prepare
  prepare-IsQuiet input id stamp db =
      elim (Bool-cases (is_authorized w input.trust_level input.sensitivity input.capability)) [
        | inr e ↦ rw e (
            refuse_scope-IsQuiet EntryRow input.scope input.project_id unauthorized stamp.now_iso
              db)
        | inl e ↦ rw e (
            and_then-IsQuiet (resolve_remember_input w input id stamp)
              (check_new w input stamp.now_iso) (resolve_remember_input-IsQuiet input id stamp)
              (check_new-IsQuiet input stamp.now_iso) db)
      ]

  pub open_or_refuse-IsQuiet :
      (replacement : EntryRow) (now : String) (found : Option EntryRow)
      → IsQuiet (open_or_refuse w replacement now found)
  open_or_refuse-IsQuiet replacement now none db =
      refuse_scope-IsQuiet EntryRow replacement.scope replacement.project_id not_found now db
  open_or_refuse-IsQuiet replacement now (some old) db = elim (Bool-cases (is_open old.status)) [
    | inl e ↦ rw e same
    | inr e ↦ rw e (refuse_entry-IsQuiet EntryRow old invalid_state now db)
  ]

  pub check_scopes-IsQuiet :
      (replacement : EntryRow) (now : String) (olds : List EntryRow)
      → IsQuiet (check_scopes w replacement now olds)
  unfolding check_scopes
  check_scopes-IsQuiet replacement now [] db = same
  check_scopes-IsQuiet replacement now (old ∷ olds) db =
      elim (Bool-cases (matches_replacement_scope replacement old)) [
        | inl e ↦ rw e (check_scopes-IsQuiet replacement now olds db)
        | inr e ↦ rw e (refuse_entry-IsQuiet (Unit {0}) old invalid_scope now db)
      ]

  pub load_old-IsQuiet :
      (replacement : EntryRow) (now : String) (ids : List String)
      → IsQuiet (load_old w replacement now ids)
  unfolding load_old
  load_old-IsQuiet replacement now [] db = same
  load_old-IsQuiet replacement now (id ∷ ids) db =
      and_then-IsQuiet (λ db. open_or_refuse w replacement now (get_entry id db) db) _
        (λ db. open_or_refuse-IsQuiet replacement now (get_entry id db) db)
        (λ old.
          and_then-IsQuiet (load_old w replacement now ids) _ (load_old-IsQuiet replacement now ids)
            (λ olds later. same))
        db
