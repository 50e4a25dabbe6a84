-- ===== src/Sessions/Ingest/Twice.antt =====
-- A second `ingest` of the same bundle, after the first has ended in whatever way.
use agent_recall.Common.{
  String, Bool, true, false, ◌||◌, arith, Option, none, some, List, [], ◌∷◌, ◌≡◌, refl, ap, ◌∙◌,
  str_eq, eq_refl, if_lem,
}
use agent_recall.Common.Table.{first_where, insert_row, exists_where, first_where-insert_row}
use agent_recall.Common.Effect.{Outcome, returned, thrown, continue_with, pure}
use agent_recall.Sessions.Rows.{
  NormalisedEvent, NormalisedBundle, SessionRow, SessionEventRow, SessionDb, IngestError,
  insert_session_event, breaks_event_rules, has_digest, insert_session, breaks_session_key,
  has_session_id, of_bundle, get_session_by_source_identity,
}
use agent_recall.Sessions.Events.{Runtime, event_row, keep_content, persist_event, persist_events}
use agent_recall.Sessions.Ingest.{
  IdentityResolver, IngestOptions, Minted, ingest, ingest_source, check_bundle, is_registered,
  session_row, fresh_result, replay_result, canonical_bundle_hash,
}

-- the tables that storing an event does not touch
pub record SameSessions (old new : SessionDb) : Type 0 where
  pub sessions : new.sessions ≡ old.sessions
  pub scopes : new.scopes ≡ old.scopes

SameSessions-refl : (db : SessionDb) → SameSessions db db
SameSessions-refl db = record { sessions = refl; scopes = refl }

SameSessions-trans : (a b c : SessionDb) → SameSessions a b → SameSessions b c → SameSessions a c
SameSessions-trans a b c h k = record {
  sessions = k.sessions ∙ h.sessions;
  scopes = k.scopes ∙ h.scopes;
}

insert_session_event-SameSessions :
    (row : SessionEventRow) (db : SessionDb) → SameSessions db (insert_session_event row db).1
unfolding insert_session_event
insert_session_event-SameSessions row db =
    if_lem (λ (x : Outcome IngestError (Unit {0}) × SessionDb). SameSessions db x.1)
      (breaks_event_rules row db) _ _ (SameSessions-refl db)
      (record { sessions = refl; scopes = refl })

module _ (rt : Runtime) (id now : String) where
  keep_content-SameSessions :
      (ev : NormalisedEvent) (content : Option String) (db : SessionDb)
      → SameSessions db (keep_content rt ev now content db)
  unfolding keep_content
  keep_content-SameSessions ev none db = SameSessions-refl db
  keep_content-SameSessions ev (some body) db =
      if_lem (SameSessions db) (exists_where (has_digest ev.content_digest) db.blobs) _ _
        (record { sessions = refl; scopes = refl }) (record { sessions = refl; scopes = refl })

  persist_event-SameSessions :
      (ev : NormalisedEvent) (db : SessionDb) → SameSessions db (persist_event rt id now ev db).1
  unfolding persist_event
  persist_event-SameSessions ev db =
      SameSessions-trans db (keep_content rt ev now ev.content db) _
        (keep_content-SameSessions ev ev.content db)
        (insert_session_event-SameSessions (event_row rt id ev)
          (keep_content rt ev now ev.content db))

  continue-SameSessions :
      {B : Type 0} (db : SessionDb) (p : Outcome IngestError (Unit {0}) × SessionDb)
      (f : Unit {0} → SessionDb → Outcome IngestError B × SessionDb)
      → SameSessions db p.1
      → ((after : SessionDb) → SameSessions after (f tt after).1)
      → SameSessions db (continue_with p.0 p.1 f).1
  continue-SameSessions db (returned a, after) f h k = SameSessions-trans db after _ h (k after)
  continue-SameSessions db (thrown e, after) f h k = h

  persist_events-SameSessions :
      (events : List NormalisedEvent) (db : SessionDb)
      → SameSessions db (persist_events rt id now events db).1
  unfolding persist_events
  persist_events-SameSessions [] db = SameSessions-refl db
  persist_events-SameSessions (ev ∷ events) db =
      continue-SameSessions db (persist_event rt id now ev db)
        (λ _. persist_events rt id now events) (persist_event-SameSessions ev db)
        (persist_events-SameSessions events)

check_bundle_same :
    (resolver : Option IdentityResolver) (b : NormalisedBundle) (old new : SessionDb)
    → new.scopes ≡ old.scopes
    → check_bundle resolver b new ≡ check_bundle resolver b old
unfolding check_bundle is_registered
check_bundle_same none b old new h = refl
check_bundle_same (some r) b old new h = rw h refl

replay_lem :
    (rt : Runtime) (resolver : Option IdentityResolver) (b : NormalisedBundle)
    (opts : IngestOptions) (m : Minted) (db : SessionDb) (row : SessionRow)
    → check_bundle resolver b db ≡ none
    → get_session_by_source_identity b db ≡ some row
    → str_eq row.bundle_hash (canonical_bundle_hash rt b) ≡ true
    → ingest rt resolver b opts m db ≡ (returned (replay_result rt row), db)
unfolding ingest ingest_source
replay_lem rt resolver b opts m db row checked found same = rw (checked, found) (rw same refl)

neither :
    {A : Type 0} (p q : A → Bool) (xs : List A)
    → exists_where p xs ≡ false
    → first_where q xs ≡ none
    → exists_where (λ x. p x || q x) xs ≡ false
unfolding exists_where first_where
neither p q [] h k = refl
neither p q (x ∷ xs) h k = ground (arith, neither p q xs)

module _ (rt : Runtime) (resolver : Option IdentityResolver) (b : NormalisedBundle)
    (opts : IngestOptions) (m : Minted) (db : SessionDb)
    (checked : check_bundle resolver b db ≡ none) (new : get_session_by_source_identity b db ≡ none)
    (unused : exists_where (has_session_id m.session_id) db.sessions ≡ false) where
  abbrev with_session : SessionDb
  with_session = record db { sessions = insert_row (session_row rt b opts m) db.sessions }

  after_first : SameSessions with_session (ingest rt resolver b opts m db).1
  unfolding ingest ingest_source insert_session
  after_first =
      let free : exists_where (breaks_session_key (session_row rt b opts m)) db.sessions ≡ false =
        neither (has_session_id m.session_id) (of_bundle b) db.sessions unused new in
      rw (checked, new)
        (rw free (
          continue-SameSessions rt m.session_id m.now with_session
            (persist_events rt m.session_id m.now b.events with_session)
            (λ _. pure (fresh_result rt b opts m))
            (persist_events-SameSessions rt m.session_id m.now b.events with_session)
            SameSessions-refl))

  found_after :
      get_session_by_source_identity b (ingest rt resolver b opts m db).1
      ≡ some (session_row rt b opts m)
  unfolding get_session_by_source_identity session_row
  found_after =
      let row = session_row rt b opts m in
      let missing : first_where (of_bundle b) db.sessions ≡ none = new in
      let own : of_bundle b row ≡ true =
        rw
          (
            eq_refl b.source_kind,
            eq_refl b.source_version,
            eq_refl b.source_instance_id,
            eq_refl b.source_session_id,
          )
          refl in
      ap (first_where (of_bundle b)) after_first.sessions
      ∙ first_where-insert_row (of_bundle b) row db.sessions
      ∙ rw missing (rw own refl)

  -- After the first ingest of a bundle, whether it returned or threw on the way, a second ingest of it
  -- reports a replay with the id and the plan of the first, and changes nothing. The bundle passes the
  -- checks, its source is new and the minted id unused.
  pub ingest_twice :
      (opts' : IngestOptions) (m' : Minted)
      → ingest rt resolver b opts' m' (ingest rt resolver b opts m db).1 ≡ (
        returned (replay_result rt (session_row rt b opts m)),
        (ingest rt resolver b opts m db).1,
      )
  unfolding session_row
  ingest_twice opts' m' =
      replay_lem rt resolver b opts' m' (ingest rt resolver b opts m db).1 (session_row rt b opts m)
        (check_bundle_same resolver b db (ingest rt resolver b opts m db).1 after_first.scopes
          ∙ checked)
        found_after (eq_refl (canonical_bundle_hash rt b))
