-- ===== src/Memories/History/Remembered.antt =====
-- What an accepted `remember` of src/services/memory-write-service.ts has passed.
use agent_recall.Memories.History.Fits.{HasRoom}
use agent_recall.Common.{Bool, ◌≢◌, String, true, Option, none, some, ◌≡◌}
use agent_recall.Memories.Rows.{user_confirmed, restricted, EntryRow, MemoryDb, get_entry}
use agent_recall.Memories.Store.{is_open}
use agent_recall.Memories.Inputs.{
  CapabilityType, trust_promotion, sensitivity_restricted, RememberInput,
}
use agent_recall.Memories.Context.{WriteContext}

-- the call carries a token, and the capability store that is configured grants it this capability
pub record Grants (w : WriteContext) (type : CapabilityType) (capability : Option String)
    : Type 0 where
  pub store : CapabilityType → String → Bool
  pub token : String
  pub configured : w.authorize ≡ some store
  pub carried : capability ≡ some token
  pub grants : store type token ≡ true

-- What `remember` promises where it accepts: the capability that it needs is granted; under an id that no
-- memory had, an active or archived memory is now stored; and there was room for it.
pub record IsRemembered (w : WriteContext) (input : RememberInput) (id : String) (db db' : MemoryDb)
    : Type 0 where
  pub confirmed :
      input.trust_level ≡ some user_confirmed → Grants w trust_promotion input.capability
  pub restricted :
      input.trust_level ≢ some user_confirmed
      → input.sensitivity ≡ some restricted
      → Grants w sensitivity_restricted input.capability
  pub fresh_id : get_entry id db ≡ none
  pub entry : EntryRow
  pub stored : get_entry id db' ≡ some entry
  pub opens : is_open entry.status ≡ true
  pub room : HasRoom w input entry db db'
