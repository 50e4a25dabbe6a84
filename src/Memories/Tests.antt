-- ===== src/Memories/Tests.antt =====
-- The write service on a small store.
use agent_recall.Common.{
  ℕ, String, Bool, true, false, Option, none, some, List, [], ◌∷◌, ◌≡◌, ◌≢◌, refl, str_eq,
}
use mathlib.Core.Option
use agent_recall.Common.Effect.{returned}
use agent_recall.Common.Table.{
  first_where, exists_where, insert_row, update_where, select_where, count_where,
}
use agent_recall.Common.Assoc.{set_value, value_at}
use agent_recall.Budget.Rows.{active, user, join_tags, estimate_index_chars}
use agent_recall.Budget.Evaluate.{evaluate_budget}
use agent_recall.Idempotency.Rows.{Db, transaction}
use agent_recall.Idempotency.Service.{Json}
use agent_recall.Scopes.Inputs.{Host, Stamp}
use agent_recall.Scopes.Inputs
use agent_recall.Scopes.Resolver.{resolve}
use agent_recall.Memories.Rows.{
  fact, core, working, normal, agent_observed, EntryRow, MemoryDb, RevisionRow, is_revision,
  get_entry,
}
use agent_recall.Memories.Store.{
  EntryPatch, RevisionContext, update_entry_with_revision, append_audit,
}
use agent_recall.Memories.Inputs.{
  WritableStatus, ValidatedRememberInput, RememberInput, UpdateInput, Result, ok, err,
  stale_revision,
}
use agent_recall.Memories.Context.{WriteContext}
use agent_recall.Memories.Update.{char_count_of, update_memory}
use agent_recall.Memories.Forget.{forget_patch, forget_memory}
use agent_recall.Memories.Replace.{superseding, merging, unique, replace_memories}
use agent_recall.Memories.Remember.{remember}
use agent_recall.Memories.Moves.Sound.{IsSound}
use agent_recall.Memories.Moves.Survival.{Survives}
use agent_recall.Memories.History.{
  Call, remember_call, update_call, forget_call, replace_call, Request, after_calls,
  after_calls-IsSound, after_calls-Survives,
}
use agent_recall.Memories.History.Lost.{no_lost_update}
use agent_recall.Memories.History.Links.{IsReplacement, replace_links}
use agent_recall.Memories.History.Returns.{Returns, updates_return, cas_keeps_tier}

abbrev posix : Host
posix = record {
  trim = λ text. text;
  canonicalize_path = λ text. text;
  basename = λ text. "repo";
  hash = λ text. "0123456789ab";
  is_windows = false;
  to_lower_case = λ text. text;
  git_head_for = λ text. none;
}

abbrev noted : RememberInput → ValidatedRememberInput
noted input = record {
  scope_input = record { scope = "global"; project_id = none; project_path = none };
  type = fact;
  topic = "tests";
  title = input.rest;
  body = input.rest;
  tags = [];
  source_kind = user;
  source_ref = none;
  importance = 3;
  confidence = 3;
  status = WritableStatus.active;
  expires_at = none;
  review_after = none;
  supersedes = [];
  token_estimate = 1;
  char_count = 2;
  pinned = false;
  trust_level = agent_observed;
  sensitivity = normal;
  tier = working;
  valid_from = none;
  valid_until = none;
}

abbrev service : WriteContext
service = record {
  host = posix;
  similarity = record {
    Score = Bool;
    text_similarity = str_eq;
    max = λ a b. a;
    at_threshold = λ a. a;
    folded = λ text. text;
  };
  clock = record { parse_date = λ text. some 1; locale_le = λ a b. true };
  default_actor = "agent:a";
  allow_unbound = false;
  authorize = none;
  validate_remember = λ input. ok (noted input);
  validate_update = ok;
  newest_first = λ n rows. rows;
}

abbrev no_json : Json (Result String)
no_json = record { parse = λ text. none; stringify = λ r. "" }

abbrev no_forget_json : Json (Result (String × ℕ))
no_forget_json = record { parse = λ text. none; stringify = λ r. "" }

abbrev stamp : Stamp
stamp = record { recorded_by = "agent:a"; now_iso = "2026-01-01"; now_ms = 7 }

abbrev request : Request
request = record { args = none; ctx = none; stamp = stamp }

abbrev note : String → RememberInput
note text = record {
  scope = Inputs.MemoryScope.global;
  project_id = none;
  supersedes = none;
  confirm_write = false;
  trust_level = none;
  sensitivity = none;
  capability = none;
  rest = text;
}

abbrev edit : String → Option ℕ → UpdateInput
edit text expected = record {
  topic = none;
  title = none;
  body = some text;
  tags = none;
  importance = none;
  confidence = none;
  status = none;
  expires_at = none;
  review_after = none;
  tier = none;
  pinned = none;
  valid_from = none;
  valid_until = none;
  sensitivity = none;
  trust_level = none;
  capability = none;
  expected_revision = expected;
}

abbrev empty_store : Db MemoryDb
empty_store = record {
  requests = [];
  tables = record {
    entries = [];
    revisions = [];
    fts = [];
    audit = [];
    projects = [];
    scopes = record { identities = []; aliases = [] };
  };
  transaction_depth = 0;
}

empty-IsSound : IsSound empty_store.tables
unfolding first_where exists_where select_where
empty-IsSound = record {
  owned = λ id n missing. refl;
  counted = λ id row n found. absurd (cc found);
  searchable = λ id. refl;
  erased = λ id row found gone. absurd (cc found);
}

abbrev two_notes : List (Call × Request)
two_notes =
    (remember_call (note "a") "mem_1", request) ∷ (remember_call (note "b") "mem_2", request) ∷ []

abbrev note_row : EntryRow
note_row = record {
  id = "mem_1";
  scope = Inputs.MemoryScope.global;
  project_id = none;
  project_path = none;
  type = fact;
  topic = "tests";
  title = "a";
  body = "a";
  tags = [];
  source_kind = user;
  source_ref = none;
  importance = 3;
  confidence = 3;
  status = active;
  created_at = "2026-01-01";
  updated_at = "2026-01-01";
  last_accessed_at = none;
  access_count = 0;
  expires_at = none;
  review_after = none;
  supersedes = [];
  superseded_by = none;
  token_estimate = 1;
  char_count = 2;
  revision = 1;
  writer_actor_id = "agent:a";
  content_hash = none;
  pinned = false;
  trust_level = agent_observed;
  sensitivity = normal;
  tier = working;
  valid_from = none;
  valid_until = none;
  deleted_at = none;
  metadata_json = "{}";
}

abbrev noted_store : Db MemoryDb
noted_store = after_calls service no_json no_forget_json two_notes empty_store

-- the first note is stored as it was given
first_note : get_entry "mem_1" noted_store.tables ≡ some note_row
unfolding remember update_memory forget_memory replace_memories transaction evaluate_budget
    first_where exists_where insert_row select_where update_where count_where set_value value_at
    resolve join_tags estimate_index_chars append_audit unique after_calls char_count_of
first_note = refl

noted-IsSound : IsSound noted_store.tables
noted-IsSound =
    after_calls-IsSound service no_json no_forget_json two_notes empty_store refl empty-IsSound

noted_depth : noted_store.transaction_depth ≡ 0
unfolding remember update_memory forget_memory replace_memories transaction evaluate_budget
    first_where exists_where insert_row select_where update_where count_where set_value value_at
    resolve join_tags estimate_index_chars append_audit unique after_calls char_count_of
noted_depth = refl

abbrev busy_day : List (Call × Request)
busy_day =
    (remember_call (note "a") "mem_1", request)
    ∷ (update_call "mem_1" (edit "c" (some 1)), request)
    ∷ (replace_call superseding ("mem_1" ∷ []) (note "d") "newer" "mem_2", request)
    ∷ (forget_call "mem_1" "done" none, request)
    ∷ []

after_calls-IsSound_example :
    IsSound (after_calls service no_json no_forget_json busy_day empty_store).tables
after_calls-IsSound_example =
    after_calls-IsSound service no_json no_forget_json busy_day empty_store refl empty-IsSound

abbrev after_notes : List (Call × Request)
after_notes =
    (update_call "mem_1" (edit "c" none), request)
    ∷ (forget_call "mem_1" "done" (some 2), request)
    ∷ (update_call "mem_1" (edit "again" none), request)
    ∷ []

after_calls-Survives_example :
    Survives note_row (after_calls service no_json no_forget_json after_notes noted_store).tables
after_calls-Survives_example =
    after_calls-Survives service no_json no_forget_json after_notes noted_store note_row noted_depth
      first_note

first_edit :
    (update_memory service no_json "mem_1" (edit "c" (some 1)) none none stamp noted_store).0
    ≡ returned (ok "mem_1")
unfolding remember update_memory forget_memory replace_memories transaction evaluate_budget
    first_where exists_where insert_row select_where update_where count_where set_value value_at
    resolve join_tags estimate_index_chars append_audit unique after_calls char_count_of
first_edit = refl

-- the second of two edits of revision 1
late_edit :
    let db' =
      (update_memory service no_json "mem_1" (edit "c" (some 1)) none none stamp noted_store).1 in
    (update_memory service no_json "mem_1" (edit "d" (some 1)) none none stamp db').0
    ≡ returned (err stale_revision)
unfolding remember update_memory forget_memory replace_memories transaction evaluate_budget
    first_where exists_where insert_row select_where update_where count_where set_value value_at
    resolve join_tags estimate_index_chars append_audit unique after_calls char_count_of
late_edit = refl

no_lost_update_example :
    let db' =
      after_calls service no_json no_forget_json []
        (update_memory service no_json "mem_1" (edit "c" (some 1)) none none stamp noted_store).1 in
    (update_memory service no_json "mem_1" (edit "d" (some 1)) none none stamp db').0
    ≢ returned (ok "mem_1")
no_lost_update_example =
    no_lost_update service no_json no_forget_json "mem_1" (edit "c" (some 1)) (edit "d" (some 1))
      (edit "c" (some 1)) (edit "d" (some 1)) 1 none none stamp stamp "mem_1" "mem_1" [] noted_store
      noted_depth refl refl refl refl first_edit

merged :
    (replace_memories service merging no_json
      ("mem_1" ∷ "mem_2" ∷ "mem_1" ∷ [])
      (note "ab")
      "same"
      "mem_3"
      none
      none
      stamp
      noted_store).0
    ≡ returned (ok "mem_3")
unfolding remember update_memory forget_memory replace_memories transaction evaluate_budget
    first_where exists_where insert_row select_where update_where count_where set_value value_at
    resolve join_tags estimate_index_chars append_audit unique after_calls char_count_of
merged = refl

replace_links_example :
    IsReplacement "mem_3"
      (unique ("mem_1" ∷ "mem_2" ∷ "mem_1" ∷ []))
      noted_store.tables
      (replace_memories service merging no_json
        ("mem_1" ∷ "mem_2" ∷ "mem_1" ∷ [])
        (note "ab")
        "same"
        "mem_3"
        none
        none
        stamp
        noted_store).1.tables
replace_links_example =
    replace_links service no_json merging ("mem_1" ∷ "mem_2" ∷ "mem_1" ∷ []) (note "ab") "same"
      "mem_3" none stamp noted_store "mem_3" noted_depth merged

updates_return_example :
    Returns (update_memory service no_json "mem_1" (edit "c" (some 1)) none none stamp noted_store)
    × Returns (forget_memory service no_forget_json "mem_1" "done" none none none stamp noted_store)
updates_return_example =
    updates_return service "mem_1" none stamp noted_store noted_depth noted-IsSound no_json
      no_forget_json (edit "c" (some 1)) "done" none

abbrev to_core : EntryPatch
to_core = record (forget_patch "2026-01-02") { status = none; tier = some core }

abbrev by_agent : RevisionContext
by_agent = record { changed_by = "agent:a"; request_id = none; change_reason = "updated" }

cas_keeps_tier_example :
    let db' =
      (update_entry_with_revision "mem_1" to_core 1 by_agent "2026-01-02" noted_store.tables).1 in
    ((update_entry_with_revision "mem_1" to_core 1 by_agent "2026-01-02" noted_store.tables).0
      ≡ returned true)
    × ((stored : EntryRow) × (get_entry "mem_1" db' ≡ some stored) × (stored.tier ≡ working))
    × (Option.map
          (λ (r : RevisionRow). r.snapshot.tier)
          (first_where (is_revision "mem_1" 2) db'.revisions)
        ≡ some core)
cas_keeps_tier_example =
    cas_keeps_tier "mem_1" note_row to_core core by_agent "2026-01-02" noted_store.tables
      noted-IsSound first_note refl
