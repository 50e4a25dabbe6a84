-- ===== src/Memories/History.antt =====
-- Calls of the write service one after another.
pub mod Lost
pub mod Loop
pub mod Links
pub mod Returns
pub mod Fits
pub mod Remembered
use agent_recall.Common.{ℕ, String, Option, some, List, [], ◌∷◌, ◌≡◌}
use agent_recall.Idempotency.Rows.{Db, Args}
use agent_recall.Idempotency.Service.{Json}
use agent_recall.Scopes.Inputs.{Stamp}
use agent_recall.Memories.Rows.{EntryRow, MemoryDb, get_entry}
use agent_recall.Memories.Inputs.{UpdateInput, RememberInput, RequestContext, Result}
use agent_recall.Memories.Context.{WriteContext}
use agent_recall.Memories.Update.{update_memory}
use agent_recall.Memories.Forget.{forget_memory}
use agent_recall.Memories.Replace.{Replacing, replace_memories}
use agent_recall.Memories.Remember.{remember}
use agent_recall.Memories.Moves.Steps.{Steps, Steps-trans, here}
use agent_recall.Memories.Moves.Sound.{IsSound, Steps-IsSound}
use agent_recall.Memories.Moves.Survival.{Survives, Steps-Follows}
use agent_recall.Memories.Moves.Services.{
  update_memory-Lands, forget_memory-Lands, remember-Lands, replace_memories-Lands,
}
use agent_recall.Memories.Moves.Landing.{Lands}

-- who calls, with what key, and when
pub record Request : Type 0 where
  pub args : Option Args
  pub ctx : Option RequestContext
  pub stamp : Stamp

-- one call; what is created gets the id that stands last
pub data Call : Type 0 where
  remember_call : RememberInput → String → Call
  update_call : String → UpdateInput → Call
  forget_call : String → String → Option ℕ → Call
  replace_call : Replacing → List String → RememberInput → String → String → Call

module _ (w : WriteContext) (json : Json (Result String))
    (forget_json : Json (Result (String × ℕ))) where
  -- the store after the call, whether it returned or threw
  abbrev pub after_call : Call × Request → Db MemoryDb → Db MemoryDb
  after_call (remember_call input id, r) db = (remember w json input id r.args r.ctx r.stamp db).1
  after_call (update_call id input, r) db =
      (update_memory w json id input r.args r.ctx r.stamp db).1
  after_call (forget_call id reason expected, r) db =
      (forget_memory w forget_json id reason expected r.args r.ctx r.stamp db).1
  after_call (replace_call kind old_ids input reason id, r) db =
      (replace_memories w kind json old_ids input reason id r.args r.ctx r.stamp db).1

  unfoldable pub after_calls : List (Call × Request) → Db MemoryDb → Db MemoryDb
  after_calls [] db = db
  after_calls (call ∷ calls) db = after_calls calls (after_call call db)

  call-Lands :
      (call : Call × Request) (db : Db MemoryDb)
      → db.transaction_depth ≡ 0
      → Lands db (after_call call db)
  call-Lands (remember_call input id, r) db depth =
      remember-Lands w r.args r.ctx r.stamp db depth json input id
  call-Lands (update_call id input, r) db depth =
      update_memory-Lands w r.args r.ctx r.stamp db depth json id input
  call-Lands (forget_call id reason expected, r) db depth =
      forget_memory-Lands w r.args r.ctx r.stamp db depth forget_json id reason expected
  call-Lands (replace_call kind old_ids input reason id, r) db depth =
      replace_memories-Lands w r.args r.ctx r.stamp db depth json kind old_ids input reason id

  pub calls-Lands :
      (calls : List (Call × Request)) (db : Db MemoryDb)
      → db.transaction_depth ≡ 0
      → Lands db (after_calls calls db)
  unfolding after_calls
  calls-Lands [] db depth = record { closed = depth; steps = here }
  calls-Lands (call ∷ calls) db depth =
      let one = call-Lands call db depth in
      let rest = calls-Lands calls (after_call call db) one.closed in
      record { closed = rest.closed; steps = Steps-trans one.steps rest.steps }

  -- Calls of `remember`, `updateMemory`, `supersedeMemory`, `mergeMemories` and `forgetMemory` outside a
  -- transaction, in any order and whether they return or throw, keep this: the revisions of a memory are exactly 1 to its own revision number, no revision is without its memory, the search index
  -- has exactly one row for each memory, with its current texts, and no other row, and a forgotten memory has an empty body, no
  -- tags and the size 0.
  pub after_calls-IsSound :
      (calls : List (Call × Request)) (db : Db MemoryDb)
      → db.transaction_depth ≡ 0
      → IsSound db.tables
      → IsSound (after_calls calls db).tables
  after_calls-IsSound calls db depth s = Steps-IsSound (calls-Lands calls db depth).steps s

  -- After calls of `remember`, `updateMemory`, `supersedeMemory`, `mergeMemories` and `forgetMemory` outside
  -- a transaction, in any order and whether they return or throw,
  -- a memory is still there, with its scope and its project and with at least its revision number; a superseded one is
  -- superseded or forgotten, and a forgotten one is forgotten.
  pub after_calls-Survives :
      (calls : List (Call × Request)) (db : Db MemoryDb) (row : EntryRow)
      → db.transaction_depth ≡ 0
      → get_entry row.id db.tables ≡ some row
      → Survives row (after_calls calls db).tables
  after_calls-Survives calls db row depth found =
      Steps-Follows (calls-Lands calls db depth).steps row found
