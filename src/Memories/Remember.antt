-- ===== src/Memories/Remember.antt =====
-- `remember` of src/services/memory-write-service.ts, with `prepareRemember`.
use agent_recall.Common.{String, Bool, true, false, ◌&&◌, not, Option, List, if◌then◌else◌}
use agent_recall.Common.Table.{exists_where}
use agent_recall.Common.Effect.{Effect, ◌>>=◌, ◌>>◌, pure, gets}
use agent_recall.Budget.Evaluate.{
  BudgetWarning, duplicate_candidate as same_text_as, near_duplicate, Evaluation, accepted,
  capacity_exceeded as over_budget,
}
use agent_recall.Idempotency.Rows.{Args}
use agent_recall.Idempotency.Service.{Json, on_tables}
use agent_recall.Scopes.Inputs.{Stamp}
use agent_recall.Memories.Rows.{EntryRow, MemoryEffect}
use agent_recall.Memories.Inputs.{
  RememberInput, RequestContext, unauthorized, capacity_exceeded, duplicate_candidate, Result, ok,
  err,
}
use agent_recall.Memories.Context.{WriteEffect, WriteContext, is_authorized, refuse, probe, keyed}
use agent_recall.Memories.Room.{evaluate_entry_budget}
use agent_recall.Memories.Prepare.{
  ResolvedRemember, scope_budget, resolve_remember_input, commit_prepared_remember,
}

abbrev pub on_ok :
    {S E A B : Type 0} → (A → Effect S E (Result B)) → Result A → Effect S E (Result B)
on_ok f (ok a) = f a
on_ok f (err e) = pure (err e)

-- a call goes on unless it was refused
abbrev pub and_then :
    {S E A B : Type 0} → Effect S E (Result A) → (A → Effect S E (Result B)) → Effect S E (Result B)
and_then m f = m >>= on_ok f

module _ (w : WriteContext) where
  abbrev pub is_duplicate : BudgetWarning w.similarity → Bool
  is_duplicate (same_text_as id) = true
  is_duplicate (near_duplicate id score) = false

  -- the warnings of an accepted budget, or the refusal
  abbrev pub within_budget :
      MemoryEffect (Result (List (BudgetWarning w.similarity)))
      → Evaluation (BudgetWarning w.similarity)
      → MemoryEffect (Result (List (BudgetWarning w.similarity)))
  within_budget refusal (accepted warnings after) = pure (ok warnings)
  within_budget refusal (over_budget usage after warnings candidates) = refusal

  -- the rest of `prepareRemember`, for a resolved entry
  unfoldable pub check_budget :
      ResolvedRemember
      → (String → Bool)
      → MemoryEffect (Result (List (BudgetWarning w.similarity)))
      → String
      → MemoryEffect (Result (List (BudgetWarning w.similarity)))
  unfolding evaluate_entry_budget
  check_budget r excluded refusal now = do
    budget ← scope_budget w r.entry.scope r.entry.project_id r now
    evaluation ← gets (evaluate_entry_budget w r.entry budget excluded)
    within_budget refusal evaluation

  -- the entry, unless it has the title or the body of another one and the caller did not confirm
  abbrev pub unless_duplicate :
      RememberInput
      → EntryRow
      → String
      → List (BudgetWarning w.similarity)
      → MemoryEffect (Result EntryRow)
  unless_duplicate input entry now warnings =
      if not input.confirm_write && exists_where is_duplicate warnings
      then refuse w input duplicate_candidate now
      else pure (ok entry)

  abbrev pub check_new : RememberInput → String → ResolvedRemember → MemoryEffect (Result EntryRow)
  check_new input now r =
      and_then (check_budget r (λ _. false) (refuse w input capacity_exceeded now) now)
        (unless_duplicate input r.entry now)

  -- the checks of `remember`: the gate, `prepareRemember`, and the duplicates
  unfoldable pub prepare : RememberInput → String → Stamp → MemoryEffect (Result EntryRow)
  unfolding is_authorized resolve_remember_input check_budget
  prepare input id stamp =
      if not (is_authorized w input.trust_level input.sensitivity input.capability)
      then refuse w input unauthorized stamp.now_iso
      else and_then (resolve_remember_input w input id stamp) (check_new input stamp.now_iso)

  abbrev pub commit_entry : Option RequestContext → String → EntryRow → MemoryEffect (Result String)
  commit_entry ctx now entry = commit_prepared_remember w entry ctx now >> pure (ok entry.id)

  -- `remember`; `id` is the fresh id, and the key comes with the hash of the input
  unfoldable pub remember :
      Json (Result String)
      → RememberInput
      → String
      → Option Args
      → Option RequestContext
      → Stamp
      → WriteEffect (Result String)
  unfolding prepare commit_prepared_remember
  remember json input id args ctx stamp = probe json args (
      and_then (on_tables (prepare input id stamp))
        λ entry. keyed json args stamp.now_ms (commit_entry ctx stamp.now_iso entry))
