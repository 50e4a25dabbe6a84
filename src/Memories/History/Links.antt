-- ===== src/Memories/History/Links.antt =====
-- What an accepted `supersedeMemory` or `mergeMemories` leaves behind.
use agent_recall.Memories.History.Loop.{IsReplaced, run_replace_links}
use agent_recall.Common.{
  String, true, Option, none, some, List, [], ◌∷◌, All, ◌≡◌, refl, sym, ap, ◌∙◌, subst, Bool-cases,
  inl, inr,
}
use agent_recall.Common.Table.{first_where}
use agent_recall.Common.Effect.{Effect, Outcome, returned, thrown, continue_with}
use agent_recall.Idempotency.Rows.{Db}
use agent_recall.Idempotency.Service.{Json, on_tables}
use agent_recall.Scopes.Inputs.{Stamp}
use agent_recall.Memories.Rows.{EntryRow, MemoryDb, MemoryError, has_id, get_entry}
use agent_recall.Memories.Store.{is_open, append_audit}
use agent_recall.Memories.Inputs.{RememberInput, RequestContext, Result, ok, err}
use agent_recall.Memories.Context.{WriteContext, keyed}
use agent_recall.Memories.Prepare.{resolve_remember_input}
use agent_recall.Memories.Replace.{
  Replacing, unique, accepts_ids, open_or_refuse, load_old, check_old, run_replace, prepare_replace,
  replace_memories,
}
use agent_recall.Memories.Remember.{on_ok}
use agent_recall.Memories.Moves.Steps.{found_id}
use agent_recall.Memories.Moves.Commit.{stamped}
use agent_recall.Memories.Moves.Quiet.{and_then_ok}
use agent_recall.Memories.Moves.Passed.{
  same_value, open_or_refuse_keeps, check_old_keeps, prepare_replace-IsQuiet, prepare_replace-IsFit,
}
use agent_recall.Memories.Moves.Landing.{transaction_lem}
use agent_recall.Memories.History.Lost.{close_returned}

-- checks that go on, and what follows them
pub checked_ok :
    {S A B : Type 0} (p : Outcome MemoryError (Result A) × S)
    (f : A → Effect S MemoryError (Result B)) (b : B)
    → (continue_with p.0 p.1 (on_ok f)).0 ≡ returned (ok b)
    → (a : A) × (p.0 ≡ returned (ok a)) × (continue_with p.0 p.1 (on_ok f) ≡ f a p.1)
checked_ok (returned (ok a), s) f b h = (a, refl, refl)
checked_ok (returned (err e), s) f b h = absurd (cc h)
checked_ok (thrown e, s) f b h = absurd (cc h)

module _ (w : WriteContext) (P : String → Type 0) where
  -- the old memories are those of the ids
  loaded_ids :
      (replacement : EntryRow) (now : String) (ids : List String) (db : MemoryDb)
      (olds : List EntryRow)
      → (load_old w replacement now ids db).0 ≡ returned (ok olds)
      → All (λ old. P old.id) olds
      → All P ids
  unfolding load_old
  loaded_ids replacement now [] db olds h all = tt
  loaded_ids replacement now (id ∷ ids) db olds h all =
      let looked = open_or_refuse w replacement now (get_entry id db) db in
      let (old, found, rest) = and_then_ok looked _ olds h in
      let (there, opens) = open_or_refuse_keeps w replacement old now (get_entry id db) db found in
      let (others, loaded, last) =
        and_then_ok (load_old w replacement now ids looked.1) _ olds rest in
      let all' = subst (All (λ (o : EntryRow). P o.id)) (sym (same_value last)) all in
      (
        subst P (found_id id old db there) all'.0,
        loaded_ids replacement now ids looked.1 others loaded all'.1,
      )

  prepared_ids :
      (kind : Replacing) (input : RememberInput) (ids : List String) (id : String) (stamp : Stamp)
      (db : MemoryDb) (prepared : EntryRow × List EntryRow)
      → (prepare_replace w kind input ids id stamp db).0 ≡ returned (ok prepared)
      → All (λ old. P old.id) prepared.1
      → All P ids
  unfolding prepare_replace append_audit
  prepared_ids kind input ids id stamp db prepared h all =
      elim (Bool-cases (accepts_ids w.host.trim kind ids)) [
        | inr e ↦ absurd (cc (rw e at h))
        | inl e ↦
            let (r, resolved_to, rest) =
              and_then_ok
                (resolve_remember_input w (record input { supersedes = some ids }) id stamp db) _
                prepared (rw e at h) in
            let (olds, loaded, last) = and_then_ok _ (check_old w r stamp.now_iso) prepared rest in
            let pair = check_old_keeps w r stamp.now_iso olds _ prepared last in
            loaded_ids r.entry stamp.now_iso ids _ olds loaded (
              subst (λ (p : EntryRow × List EntryRow). All (λ (o : EntryRow). P o.id) p.1)
                (sym pair) all)
      ]

-- Under an id that no memory had, an active or archived memory is now stored, and each of the old ids is
-- there, superseded by it.
pub record IsReplacement (new_id : String) (old_ids : List String) (db db' : MemoryDb)
    : Type 0 where
  pub fresh_id : get_entry new_id db ≡ none
  pub entry : EntryRow
  pub stored : get_entry new_id db' ≡ some entry
  pub opens : is_open entry.status ≡ true
  pub links : All (λ old_id. IsReplaced new_id old_id db') old_ids

-- A supersede or a merge that is accepted, outside a transaction and without an idempotency key, answers
-- with an id that no memory had; under it an active or archived memory is now stored, and each of the old
-- ids is there, superseded by it.
pub replace_links :
    (w : WriteContext) (json : Json (Result String)) (kind : Replacing) (old_ids : List String)
    (input : RememberInput) (reason id : String) (ctx : Option RequestContext) (stamp : Stamp)
    (db : Db MemoryDb) (new_id : String)
    → db.transaction_depth ≡ 0
    → (replace_memories w kind json old_ids input reason id none ctx stamp db).0
      ≡ returned (ok new_id)
    → IsReplacement new_id
        (unique old_ids)
        db.tables
        (replace_memories w kind json old_ids input reason id none ctx stamp db).1.tables
unfolding replace_memories
replace_links w json kind old_ids input reason id ctx stamp db new_id depth h =
    let ids = unique old_ids in
    let p = prepare_replace w kind input ids id stamp db.tables in
    let checked : Db MemoryDb = record db { tables = p.1 } in
    let quiet = prepare_replace-IsQuiet w kind input ids id stamp db.tables in
    let (fit, passed, rest) =
      checked_ok (p.0, checked)
        (λ prepared.
          keyed json none stamp.now_ms (run_replace w kind reason ctx stamp.now_iso prepared))
        new_id h in
    let work = run_replace w kind reason ctx stamp.now_iso fit in
    let (new, there) = prepare_replace-IsFit w kind input ids id stamp db.tables fit passed in
    let closed = transaction_lem json (on_tables work) checked depth in
    let (done, kept) =
      close_returned checked (on_tables work (record checked { transaction_depth = 1 })) (ok new_id)
        (rw closed at (sym (ap (λ q. q.0) rest) ∙ h)) in
    let r =
      run_replace_links w kind reason ctx stamp.now_iso fit.0 fit.1 p.1 new_id new
        (rw (sym quiet.entries) at there) done in
    let db' = (work p.1).1 in
    let links =
      subst (λ (n : String). All (λ old. IsReplaced n old.id db') fit.1) r.answer r.links in
    rw (rest, closed, kept)
      (record {
        fresh_id =
            ap (first_where (has_id new_id)) (sym quiet.entries)
            ∙ subst (λ (n : String). get_entry n p.1 ≡ none) r.answer r.fresh_id;
        entry = stamped w ctx fit.0;
        stored =
            subst (λ (n : String). get_entry n db' ≡ some (stamped w ctx fit.0)) r.answer r.stored;
        opens = new.opens;
        links =
            prepared_ids w (λ old_id. IsReplaced new_id old_id db') kind input ids id stamp
              db.tables fit passed links;
      })
