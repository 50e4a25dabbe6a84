-- ===== src/Scopes/Resolver/Reads.antt =====
-- The modes that only read.
use agent_recall.Common.{Bool, false, ◌≡◌, refl}
use agent_recall.Scopes.Rows.{ScopeDb}
use agent_recall.Scopes.Resolver.{Host, Stamp, Mode, ScopeInput, resolve}
use agent_recall.Scopes.Resolver.Cases.{is_register, resolve_cases}

-- Looking a scope up, or asking for an existing one, leaves the database as it is, on every input.
pub resolve_reads :
    (host : Host) (mode : Mode) (allow_unbound : Bool) (input : ScopeInput) (stamp : Stamp)
    (db : ScopeDb)
    → is_register mode ≡ false
    → (resolve host mode allow_unbound input stamp db).1 ≡ db
resolve_reads host mode allow_unbound input stamp db reads =
    resolve_cases host mode stamp db (λ p. p.1 ≡ db) (λ r _. refl) allow_unbound input
      (λ id canonical registers. absurd (cc (reads, registers)))
