-- ===== src/Sessions/Ingest/Complete.antt =====
-- The events that `ingest` stores.
use agent_recall.Common.{
  String, Bool, true, false, Option, none, some, List, [], ◌∷◌, ◌++◌, map, ◌≡◌, refl, sym, ap, ◌∙◌,
  str_eq, eq_refl, if_lem, Bool-cases, Option-cases, inl, inr,
}
use agent_recall.Common.Table.{select_where, insert_row, exists_where}
use agent_recall.Common.Effect.{Outcome, returned, bind_returned, pure, ◌>>◌}
use agent_recall.Sessions.Rows.{
  NormalisedEvent, NormalisedBundle, SessionRow, SessionEventRow, SessionDb, IngestError,
  insert_session_event, breaks_event_rules, has_digest, insert_session, breaks_session_key,
  get_session_by_source_identity,
}
use agent_recall.Sessions.Events.{Runtime, event_row, keep_content, persist_event, persist_events}
use agent_recall.Sessions.Ingest.{
  IdentityResolver, IngestOptions, Minted, IngestResult, ingest, ingest_source, check_bundle,
  of_session, session_row, fresh_result, replay_result, canonical_bundle_hash,
}

append_nil : {A : Type 0} (xs : List A) → xs ++ [] ≡ xs
append_nil [] = refl
append_nil (x ∷ xs) = ap (λ ys. x ∷ ys) (append_nil xs)

append_assoc : {A : Type 0} (xs ys zs : List A) → (xs ++ ys) ++ zs ≡ xs ++ (ys ++ zs)
append_assoc [] ys zs = refl
append_assoc (x ∷ xs) ys zs = ap (λ l. x ∷ l) (append_assoc xs ys zs)

select_where-insert_row :
    {A : Type 0} (p : A → Bool) (x : A) (xs : List A)
    → p x ≡ true
    → select_where p (insert_row x xs) ≡ select_where p xs ++ x ∷ []
unfolding select_where insert_row
select_where-insert_row p x [] h = rw h refl
select_where-insert_row p x (y ∷ ys) h =
    let rest = select_where-insert_row p x ys h in
    elim (Bool-cases (p y)) [ inl e ↦ rw (e, rest) refl | inr e ↦ rw (e, rest) refl ]

inserted :
    (row : SessionEventRow) (db : SessionDb)
    → (insert_session_event row db).0 ≡ returned tt
    → (insert_session_event row db).1.session_events ≡ insert_row row db.session_events
unfolding insert_session_event
inserted row db h = elim (Bool-cases (breaks_event_rules row db)) [
  | inl e ↦ absurd (cc (rw e at h))
  | inr e ↦ rw e refl
]

module _ (rt : Runtime) (id now : String) where
  same_events :
      (ev : NormalisedEvent) (content : Option String) (db : SessionDb)
      → (keep_content rt ev now content db).session_events ≡ db.session_events
  unfolding keep_content
  same_events ev none db = refl
  same_events ev (some body) db =
      if_lem (λ (d : SessionDb). d.session_events ≡ db.session_events)
        (exists_where (has_digest ev.content_digest) db.blobs) _ _ refl refl

  -- the events of the session
  abbrev stored : SessionDb → List SessionEventRow
  stored db = select_where (of_session id) db.session_events

  persist_event_lem :
      (ev : NormalisedEvent) (db : SessionDb)
      → (persist_event rt id now ev db).0 ≡ returned tt
      → stored (persist_event rt id now ev db).1 ≡ stored db ++ event_row rt id ev ∷ []
  unfolding persist_event event_row
  persist_event_lem ev db h =
      let kept = keep_content rt ev now ev.content db in
      ap (select_where (of_session id)) (inserted (event_row rt id ev) kept h)
      ∙ select_where-insert_row (of_session id) (event_row rt id ev) kept.session_events
          (eq_refl id)
      ∙ ap (λ rows. select_where (of_session id) rows ++ event_row rt id ev ∷ [])
          (same_events ev ev.content db)

  persist_events_lem :
      (events : List NormalisedEvent) (db : SessionDb)
      → (persist_events rt id now events db).0 ≡ returned tt
      → stored (persist_events rt id now events db).1 ≡ stored db ++ map (event_row rt id) events
  unfolding persist_events
  persist_events_lem [] db h = sym (append_nil (stored db))
  persist_events_lem (ev ∷ events) db h =
      let p = persist_event rt id now ev db in
      let (a, first, same) = bind_returned p (λ _. persist_events rt id now events) tt h in
      ap (λ q. stored q.1) same
      ∙ persist_events_lem events p.1 (sym (ap (λ q. q.0) same) ∙ h)
      ∙ ap (λ rows. rows ++ map (event_row rt id) events) (persist_event_lem ev db first)
      ∙ append_assoc (stored db) (event_row rt id ev ∷ []) (map (event_row rt id) events)

same_result :
    {a b : IngestResult}
    → ◌≡◌ {A = Outcome IngestError IngestResult} (returned a) (returned b)
    → a ≡ b
same_result h = cc

insert_session_events :
    (row : SessionRow) (db : SessionDb)
    → (insert_session row db).1.session_events ≡ db.session_events
unfolding insert_session
insert_session_events row db =
    if_lem
      (λ (x : Outcome IngestError (Unit {0}) × SessionDb). x.1.session_events ≡ db.session_events)
      (exists_where (breaks_session_key row) db.sessions) _ _ refl refl

fresh_events :
    (rt : Runtime) (b : NormalisedBundle) (opts : IngestOptions) (m : Minted) (db : SessionDb)
    (old : Option SessionRow) (result : IngestResult)
    → (ingest_source rt b opts m old db).0 ≡ returned result
    → result.replayed ≡ false
    → select_where (of_session m.session_id) (ingest_source rt b opts m old db).1.session_events
      ≡ select_where (of_session m.session_id) db.session_events
        ++ map (event_row rt m.session_id) b.events
unfolding ingest_source
fresh_events rt b opts m db (some row) result h fresh =
    elim (Bool-cases (str_eq row.bundle_hash (canonical_bundle_hash rt b))) [
      | inl e ↦
          let same : replay_result rt row ≡ result = same_result (rw e at h) in
          let replay : true ≡ result.replayed = ap (λ (r : IngestResult). r.replayed) same in
          absurd (cc (replay ∙ fresh))
      | inr e ↦ absurd (cc (rw e at h))
    ]
fresh_events rt b opts m db none result h fresh =
    let p = insert_session (session_row rt b opts m) db in
    let rest = λ (_ : Unit {0}).
      persist_events rt m.session_id m.now b.events >> pure (fresh_result rt b opts m) in
    let (a, first, same) = bind_returned p rest result h in
    let q = persist_events rt m.session_id m.now b.events p.1 in
    let last =
      λ (_ : Unit {0}). pure {S = SessionDb} {E = IngestError} (fresh_result rt b opts m) in
    let (c, second, same') = bind_returned q last result (sym (ap (λ x. x.0) same) ∙ h) in
    ap (λ x. select_where (of_session m.session_id) x.1.session_events) (same ∙ same')
    ∙ persist_events_lem rt m.session_id m.now b.events p.1 second
    ∙ ap
        (λ rows.
          select_where (of_session m.session_id) rows ++ map (event_row rt m.session_id) b.events)
        (insert_session_events (session_row rt b opts m) db)

-- A bundle that is ingested for the first time has all its events stored, each with its own row, in the
-- order of the bundle: those that the plan counts as skipped, too.
pub ingest_complete :
    (rt : Runtime) (resolver : Option IdentityResolver) (b : NormalisedBundle)
    (opts : IngestOptions) (m : Minted) (db : SessionDb) (result : IngestResult)
    → (ingest rt resolver b opts m db).0 ≡ returned result
    → result.replayed ≡ false
    → select_where (of_session m.session_id) (ingest rt resolver b opts m db).1.session_events
      ≡ select_where (of_session m.session_id) db.session_events
        ++ map (event_row rt m.session_id) b.events
unfolding ingest
ingest_complete rt resolver b opts m db result h fresh =
    elim (Option-cases (check_bundle resolver b db)) [
      | inl e ↦ rw e (
          fresh_events rt b opts m db (get_session_by_source_identity b db) result (rw e at h)
            fresh)
      | inr (error, e) ↦ absurd (cc (rw e at h))
    ]
