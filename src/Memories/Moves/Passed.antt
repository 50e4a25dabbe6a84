-- ===== src/Memories/Moves/Passed.antt =====
-- What the checks before a transaction let through: a new entry at revision 1 that is active or
-- archived, and old memories that are there and not forgotten.
use agent_recall.Common.{
  String, true, false, not, ◌&&◌, Option, none, some, List, [], ◌∷◌, ◌≡◌, refl, sym, ap, subst, ◌∙◌,
  Bool-cases, inl, inr,
}
use agent_recall.Common.Table.{exists_where}
use agent_recall.Common.Effect.{Outcome, returned, bind_returned, pure}
use agent_recall.Budget.Rows.{superseded}
use agent_recall.Budget.Evaluate.{BudgetWarning}
use agent_recall.Scopes.Inputs.{project, Resolution, resolved, refused, register, Stamp}
use agent_recall.Scopes.Resolver.{resolve}
use agent_recall.Memories.Rows.{EntryRow, MemoryDb, MemoryError, get_entry}
use agent_recall.Memories.Store.{append_audit, is_open}
use agent_recall.Memories.Inputs.{
  WritableStatus, ValidatedRememberInput, RememberInput, Result, ok, err, stored_status,
  capacity_exceeded, invalid_schema,
}
use agent_recall.Memories.Context.{WriteContext, is_authorized, refuse_scope}
use agent_recall.Memories.Room.{same_scope, optional_eq}
use agent_recall.Memories.Prepare.{
  ResolvedRemember, on_scopes, lacks_id, resolved_input, resolve_validated, resolve_remember_input,
}
use agent_recall.Memories.Replace.{
  Replacing, accepts_ids, is_active_in, check_replacement, check_old, open_or_refuse, load_old,
  check_scopes, prepare_replace,
}
use agent_recall.Memories.Remember.{
  is_duplicate, and_then, check_budget, check_new, unless_duplicate, prepare,
}
use agent_recall.Memories.Moves.Methods.{open_becomes}
use agent_recall.Memories.Moves.Steps.{found_own}
use agent_recall.Memories.Moves.Commit.{AllReplaceable}
use agent_recall.Memories.Moves.Quiet.{
  SameMemories, IsQuiet, and_then-IsQuiet, and_then_ok, check_budget-IsQuiet, check_scopes-IsQuiet,
  load_old-IsQuiet, open_or_refuse-IsQuiet, resolve_remember_input-IsQuiet, refuse_scope-IsQuiet,
  same,
}

-- a first revision, active or archived, and with an id where it is of a project
pub record IsNew (entry : EntryRow) : Type 0 where
  pub first : entry.revision ≡ 1
  pub opens : is_open entry.status ≡ true
  pub placed : same_scope entry.scope project && optional_eq entry.project_id none ≡ false

stored_status_open : (status : WritableStatus) → is_open (stored_status status) ≡ true
stored_status_open WritableStatus.active = refl
stored_status_open WritableStatus.archived = refl

pub same_value :
    {A : Type 0} {a b : A}
    → ◌≡◌ {A = Outcome MemoryError (Result A)} (returned (ok a)) (returned (ok b))
    → a ≡ b
same_value h = cc

module _ (w : WriteContext) where
  resolved_input-IsNew :
      (input : RememberInput) (validated : ValidatedRememberInput) (id : String) (stamp : Stamp)
      (answer : Resolution) (db : MemoryDb) (r : ResolvedRemember)
      → (resolved_input w input validated id stamp answer db).0 ≡ returned (ok r)
      → IsNew r.entry
  unfolding append_audit
  resolved_input-IsNew input validated id stamp (refused e) db r h = absurd (cc h)
  resolved_input-IsNew input validated id stamp (resolved scope) db r h =
      elim (Bool-cases (lacks_id scope)) [
        | inl e ↦ absurd (cc (rw e at h))
        | inr e ↦
            subst (λ (x : ResolvedRemember). IsNew x.entry) (same_value (rw e at h))
              (record { first = refl; opens = stored_status_open validated.status; placed = e })
      ]

  resolve_validated-IsNew :
      (input : RememberInput) (id : String) (stamp : Stamp) (v : Result ValidatedRememberInput)
      (db : MemoryDb) (r : ResolvedRemember)
      → (resolve_validated w input id stamp v db).0 ≡ returned (ok r)
      → IsNew r.entry
  unfolding append_audit
  resolve_validated-IsNew input id stamp (err e) db r h = absurd (cc h)
  resolve_validated-IsNew input id stamp (ok validated) db r h =
      let (answer, resolved_to, rest) =
        bind_returned
          (on_scopes (resolve w.host register w.allow_unbound validated.scope_input stamp) db)
          (resolved_input w input validated id stamp) (ok r) h in
      resolved_input-IsNew input validated id stamp answer _ r (sym (ap (λ p. p.0) rest) ∙ h)

  pub resolve-IsNew :
      (input : RememberInput) (id : String) (stamp : Stamp) (db : MemoryDb) (r : ResolvedRemember)
      → (resolve_remember_input w input id stamp db).0 ≡ returned (ok r)
      → IsNew r.entry
  unfolding resolve_remember_input
  resolve-IsNew input id stamp = resolve_validated-IsNew input id stamp (w.validate_remember input)

  pub unless_duplicate_keeps :
      (input : RememberInput) (entry passed : EntryRow) (now : String)
      (warnings : List (BudgetWarning w.similarity)) (db : MemoryDb)
      → (unless_duplicate w input entry now warnings db).0 ≡ returned (ok passed)
      → entry ≡ passed
  unfolding append_audit
  unless_duplicate_keeps input entry passed now warnings db h =
      elim (Bool-cases (not input.confirm_write && exists_where (is_duplicate w) warnings)) [
        | inl e ↦ absurd (cc (rw e at h))
        | inr e ↦ same_value (rw e at h)
      ]

  -- what `remember` stores
  pub prepare-IsNew :
      (input : RememberInput) (id : String) (stamp : Stamp) (db : MemoryDb) (entry : EntryRow)
      → (prepare w input id stamp db).0 ≡ returned (ok entry)
      → IsNew entry
  unfolding prepare append_audit
  prepare-IsNew input id stamp db entry h =
      elim (Bool-cases (is_authorized w input.trust_level input.sensitivity input.capability)) [
        | inr e ↦ absurd (cc (rw e at h))
        | inl e ↦
            let (r, resolved_to, rest) =
              and_then_ok (resolve_remember_input w input id stamp db)
                (check_new w input stamp.now_iso) entry (rw e at h) in
            let (warnings, fits, last) =
              and_then_ok _ (unless_duplicate w input r.entry stamp.now_iso) entry rest in
            subst IsNew (unless_duplicate_keeps input r.entry entry stamp.now_iso warnings _ last)
              (resolve-IsNew input id stamp db r resolved_to)
      ]

  pub open_or_refuse_keeps :
      (replacement old : EntryRow) (now : String) (found : Option EntryRow) (db : MemoryDb)
      → (open_or_refuse w replacement now found db).0 ≡ returned (ok old)
      → (found ≡ some old) × (is_open old.status ≡ true)
  unfolding append_audit
  open_or_refuse_keeps replacement old now none db h = absurd (cc h)
  open_or_refuse_keeps replacement old now (some row) db h =
      elim (Bool-cases (is_open row.status)) [
        | inl e ↦
            let same_row : row ≡ old = same_value (rw e at h) in
            (ap some same_row, ap (λ (x : EntryRow). is_open x.status) (sym same_row) ∙ e)
        | inr e ↦ absurd (cc (rw e at h))
      ]

  -- the memories that `supersedeMemory` and `mergeMemories` go on with
  load_old-AllReplaceable :
      (replacement : EntryRow) (now : String) (ids : List String) (db : MemoryDb)
      (olds : List EntryRow)
      → (load_old w replacement now ids db).0 ≡ returned (ok olds)
      → AllReplaceable olds db
  unfolding load_old
  load_old-AllReplaceable replacement now [] db olds h =
      subst (λ (l : List EntryRow). AllReplaceable l db) (same_value h) tt
  load_old-AllReplaceable replacement now (id ∷ ids) db olds h =
      let looked = open_or_refuse w replacement now (get_entry id db) db in
      let (old, found, rest) = and_then_ok looked _ olds h in
      let (there, opens) = open_or_refuse_keeps replacement old now (get_entry id db) db found in
      let quiet = open_or_refuse-IsQuiet w replacement now (get_entry id db) db in
      let (others, loaded, last) =
        and_then_ok (load_old w replacement now ids looked.1) _ olds rest in
      let later = load_old-AllReplaceable replacement now ids looked.1 others loaded in
      subst (λ (l : List EntryRow). AllReplaceable l db) (same_value last)
        (
          (old, found_own id old db there, open_becomes old.status superseded opens),
          rw quiet.entries at later,
        )

  abbrev IsFit : EntryRow × List EntryRow → MemoryDb → Type 0
  IsFit prepared db = IsNew prepared.0 × AllReplaceable prepared.1 db

  pub check_old_keeps :
      (r : ResolvedRemember) (now : String) (olds : List EntryRow) (db : MemoryDb)
      (prepared : EntryRow × List EntryRow)
      → (check_old w r now olds db).0 ≡ returned (ok prepared)
      → ◌≡◌ {A = EntryRow × List EntryRow} (r.entry, olds) prepared
  check_old_keeps r now olds db prepared h =
      let (u, matched, rest) = and_then_ok (check_scopes w r.entry now olds db) _ prepared h in
      let refused_call =
        refuse_scope w {A = List (BudgetWarning w.similarity)} r.entry.scope r.entry.project_id
          capacity_exceeded now in
      let checked = (check_scopes w r.entry now olds db).1 in
      let (warnings, fits, last) =
        and_then_ok (check_budget w r (is_active_in olds) refused_call now checked)
          (λ _. pure (ok (r.entry, olds))) prepared rest in
      same_value last

  check_old-IsQuiet :
      (r : ResolvedRemember) (now : String) (olds : List EntryRow)
      → IsQuiet (check_old w r now olds)
  check_old-IsQuiet r now olds =
      let refused_call =
        refuse_scope w {A = List (BudgetWarning w.similarity)} r.entry.scope r.entry.project_id
          capacity_exceeded now in
      and_then-IsQuiet (check_scopes w r.entry now olds) (λ _. check_replacement w r now olds)
        (check_scopes-IsQuiet w r.entry now olds)
        (λ _.
          and_then-IsQuiet (check_budget w r (is_active_in olds) refused_call now)
            (λ _. pure (ok (r.entry, olds)))
            (check_budget-IsQuiet w r (is_active_in olds) refused_call now (
              refuse_scope-IsQuiet w (List (BudgetWarning w.similarity)) r.entry.scope
                r.entry.project_id capacity_exceeded now))
            (λ warnings db. same))

  module _ (kind : Replacing) (input : RememberInput) (ids : List String) (id : String)
      (stamp : Stamp) (db : MemoryDb) where
    pub prepare_replace-IsQuiet : SameMemories db (prepare_replace w kind input ids id stamp db).1
    unfolding prepare_replace
    prepare_replace-IsQuiet = elim (Bool-cases (accepts_ids w.host.trim kind ids)) [
      | inr e ↦ rw e (
          refuse_scope-IsQuiet w (EntryRow × List EntryRow) input.scope input.project_id
            invalid_schema stamp.now_iso db)
      | inl e ↦ rw e (
          and_then-IsQuiet
            (resolve_remember_input w (record input { supersedes = some ids }) id stamp)
            (λ r. and_then (load_old w r.entry stamp.now_iso ids) (check_old w r stamp.now_iso))
            (resolve_remember_input-IsQuiet w (record input { supersedes = some ids }) id stamp)
            (λ r.
              and_then-IsQuiet (load_old w r.entry stamp.now_iso ids) (check_old w r stamp.now_iso)
                (load_old-IsQuiet w r.entry stamp.now_iso ids) (check_old-IsQuiet r stamp.now_iso))
            db)
    ]

    -- the replacement is new, and the old memories may be superseded
    pub prepare_replace-IsFit :
        (prepared : EntryRow × List EntryRow)
        → (prepare_replace w kind input ids id stamp db).0 ≡ returned (ok prepared)
        → IsFit prepared db
    unfolding prepare_replace append_audit
    prepare_replace-IsFit prepared h = elim (Bool-cases (accepts_ids w.host.trim kind ids)) [
      | inr e ↦ absurd (cc (rw e at h))
      | inl e ↦
          let (r, resolved_to, rest) =
            and_then_ok
              (resolve_remember_input w (record input { supersedes = some ids }) id stamp db) _
              prepared (rw e at h) in
          let quiet =
            resolve_remember_input-IsQuiet w (record input { supersedes = some ids }) id stamp db in
          let (olds, loaded, last) = and_then_ok _ (check_old w r stamp.now_iso) prepared rest in
          let pair = check_old_keeps r stamp.now_iso olds _ prepared last in
          subst (λ (p : EntryRow × List EntryRow). IsFit p db) pair
            (
              resolve-IsNew (record input { supersedes = some ids }) id stamp db r resolved_to,
              rw quiet.entries at (load_old-AllReplaceable r.entry stamp.now_iso ids _ olds loaded),
            )
    ]
