-- ===== src/Memories/Context.antt =====
-- What the methods of src/services/memory-write-service.ts share: the capability gate, rejected writes,
-- idempotency keys.
use agent_recall.Common.{
  ℕ, String, Bool, true, false, Option, none, some, List, str_eq, if◌then◌else◌,
}
use agent_recall.Common.Effect.{Effect, ◌>>◌, pure}
use agent_recall.Budget.Cleanup.{Clock}
use agent_recall.Budget.Evaluate.{Similarity}
use agent_recall.Idempotency.Rows.{Db, Args, transaction}
use agent_recall.Idempotency.Service.{
  Hit, fresh, rejected, in_flight, replay, Json, try_replay_only, on_tables,
  run_with_idempotent_mutation,
}
use agent_recall.Scopes.Inputs.{MemoryScope, Host}
use agent_recall.Memories.Rows.{
  MemorySensitivity, restricted, MemoryTrustLevel, user_confirmed, EntryRow, AuditEventName,
  write_rejected, MemoryDb, MemoryError, MemoryEffect,
}
use agent_recall.Memories.Store.{append_audit, RevisionContext}
use agent_recall.Memories.Inputs.{
  ValidatedRememberInput, RememberInput, UpdateInput, RequestContext, CapabilityType,
  trust_promotion, sensitivity_restricted, WriteError, idempotency_mismatch, idempotency_in_flight,
  error_name, Result, err,
}

-- the store with the idempotency requests and the transaction depth
abbrev pub WriteEffect : Type 0 → Type 0
WriteEffect A = Effect (Db MemoryDb) MemoryError A

-- the service's `WriteContext`, and what it calls elsewhere
pub record WriteContext : Type 1 where
  pub host : Host
  pub similarity : Similarity
  pub clock : Clock
  pub default_actor : String
  -- of the project identity resolver
  pub allow_unbound : Bool
  -- `CapabilityStore.authorize` for the active profile; `none` where no store is configured
  pub authorize : Option (CapabilityType → String → Bool)
  pub validate_remember : RememberInput → Result ValidatedRememberInput
  pub validate_update : UpdateInput → Result UpdateInput
  -- `ORDER BY updated_at DESC LIMIT n`
  pub newest_first : ℕ → List EntryRow → List EntryRow

abbrev pub is_user_confirmed : Option MemoryTrustLevel → Bool
is_user_confirmed (some user_confirmed) = true
is_user_confirmed _ = false

abbrev pub is_restricted : Option MemorySensitivity → Bool
is_restricted (some restricted) = true
is_restricted _ = false

module _ (w : WriteContext) where
  abbrev pub granted_by :
      Option (CapabilityType → String → Bool) → CapabilityType → Option String → Bool
  granted_by none type capability = false
  granted_by (some authorize) type none = false
  granted_by (some authorize) type (some token) = authorize type token

  abbrev pub authorize_capability : CapabilityType → Option String → Bool
  authorize_capability = granted_by w.authorize

  -- `checkPrivilegedWriteAuthorization`
  unfoldable pub is_authorized :
      Option MemoryTrustLevel → Option MemorySensitivity → Option String → Bool
  is_authorized trust_level sensitivity capability =
      if is_user_confirmed trust_level
      then authorize_capability trust_promotion capability
      else if is_restricted sensitivity
      then authorize_capability sensitivity_restricted capability
      else true

  abbrev pub caller : Option RequestContext → String
  caller none = w.default_actor
  caller (some ctx) = ctx.actor_id

  abbrev pub request_of : Option RequestContext → Option String
  request_of none = none
  request_of (some ctx) = some ctx.request_id

  abbrev pub revision_context : Option RequestContext → String → RevisionContext
  revision_context ctx reason = record {
    changed_by = caller ctx;
    request_id = request_of ctx;
    change_reason = reason;
  }

  -- `resolveActor` of src/actor.ts, for an actor that is given
  abbrev pub resolve_actor : String → String
  resolve_actor source =
      let candidate = w.host.trim source in
      if str_eq candidate "" then "agent:unknown" else candidate

  -- `auditRejectedForEntry`, and the error
  abbrev pub refuse_entry : {A : Type 0} → EntryRow → WriteError → String → MemoryEffect (Result A)
  refuse_entry entry error now =
      append_audit (record {
        memory_id = some entry.id;
        scope = entry.scope;
        project_id = entry.project_id;
        event = write_rejected;
        reason = some (error_name error);
        actor = resolve_actor "system";
        created_at = now;
      })
      >> pure (err error)

  -- `auditRejectedForScope`, and the error
  abbrev pub refuse_scope :
      {A : Type 0} → MemoryScope → Option String → WriteError → String → MemoryEffect (Result A)
  refuse_scope scope project_id error now =
      append_audit (record {
        memory_id = none;
        scope = scope;
        project_id = project_id;
        event = write_rejected;
        reason = some (error_name error);
        actor = resolve_actor "system";
        created_at = now;
      })
      >> pure (err error)

  -- `auditRejected`, and the error
  abbrev pub refuse : {A : Type 0} → RememberInput → WriteError → String → MemoryEffect (Result A)
  refuse input = refuse_scope input.scope input.project_id

  abbrev pub audit_entry :
      EntryRow → AuditEventName → Option String → String → String → MemoryEffect (Unit {0})
  audit_entry entry event reason actor now = append_audit (record {
    memory_id = some entry.id;
    scope = entry.scope;
    project_id = entry.project_id;
    event = event;
    reason = reason;
    actor = resolve_actor actor;
    created_at = now;
  })

-- the answer of a method where the key was used before
abbrev pub by_hit :
    {S E A : Type 0} → Hit (Result A) → Effect S E (Result A) → Effect S E (Result A)
by_hit fresh work = work
by_hit rejected work = pure (err idempotency_mismatch)
by_hit in_flight work = pure (err idempotency_in_flight)
by_hit (replay result) work = pure result

module _ {A : Type 0} (json : Json (Result A)) where
  -- the early probe: what follows runs only where the key is new
  abbrev pub probe : Option Args → WriteEffect (Result A) → WriteEffect (Result A)
  probe none rest db = rest db
  probe (some args) rest db = by_hit (try_replay_only json args db) rest db

  -- the writes of a method, in one transaction with the reservation of its key
  abbrev pub keyed : Option Args → ℕ → MemoryEffect (Result A) → WriteEffect (Result A)
  keyed none now work = transaction (on_tables work)
  keyed (some args) now work = run_with_idempotent_mutation json args (λ hit. by_hit hit work) now
