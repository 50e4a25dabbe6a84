-- ===== src/Assets/Invariant/Calls.antt =====
-- Sequences of calls of `AssetService`.
use agent_recall.Common.{
  ◌+◌, ◌==◌, String, Bool, true, false, ◌&&◌, ◌||◌, not, Option, none, some, List, [], ◌∷◌, ◌≡◌,
  refl, sym, ap, ◌∙◌, arith, str_eq, Bool-cases, Option-cases, inl, inr, ltb, if_lem,
}
use agent_recall.Common.Table.{exists_where}
use agent_recall.Common.Effect.{Outcome, returned, thrown, continue_with, pure, ◌>>=◌}
use agent_recall.Assets.Rows.{
  AssetRow, AssetDb, AssetError, AssetEffect, AssetLifecycleState, asset_id_collision,
  append_failed, binding_invalid, cas_mismatch, asset_not_found, asset_already_terminal, get_asset,
  insert_asset, append_asset_version, set_asset_lifecycle, insert_memory_ref_binding,
  MemoryRefBindingRow, is_binding_of, is_archived,
}
use agent_recall.Assets.Service.{
  AssetInput, MemoryRefInput, AppendInput, CreateResult, envelope, first_version, require, or_error,
  create_asset, create_memory_ref, create_skill_version, append_skill_version, set_lifecycle,
  is_skill, next_version, lacks_project, binding_row, as_memory_ref, as_skill,
}
use agent_recall.Assets.Invariant.Append.{append-HasAllVersions}
use agent_recall.Assets.Invariant.{
  HasAllVersions, insert_asset-HasAllVersions, set_asset_lifecycle-HasAllVersions,
}

abbrev KeepsVersions : {A : Type 0} → AssetEffect A → Type 0
KeepsVersions m = (db : AssetDb) → HasAllVersions db → HasAllVersions (m db).1

continue-HasAllVersions :
    {A B : Type 0} (p : Outcome AssetError A × AssetDb) (f : A → AssetEffect B)
    → HasAllVersions p.1
    → ((a : A) → KeepsVersions (f a))
    → HasAllVersions (continue_with p.0 p.1 f).1
continue-HasAllVersions (returned a, db) f h k = k a db h
continue-HasAllVersions (thrown e, db) f h k = h

bind-KeepsVersions :
    {A B : Type 0} (m : AssetEffect A) (f : A → AssetEffect B)
    → KeepsVersions m
    → ((a : A) → KeepsVersions (f a))
    → KeepsVersions (m >>= f)
bind-KeepsVersions m f h k db s = continue-HasAllVersions (m db) f (h db s) k

require-KeepsVersions : (b : Bool) (e : AssetError) → KeepsVersions (require b e)
require-KeepsVersions true e db h = h
require-KeepsVersions false e db h = h

or_error-KeepsVersions :
    {B : Type 0} (found : Option AssetRow) (e : AssetError) (f : AssetRow → AssetEffect B)
    → ((a : AssetRow) → KeepsVersions (f a))
    → KeepsVersions (or_error found e >>= f)
or_error-KeepsVersions none e f k db h = h
or_error-KeepsVersions (some row) e f k db h = k row db h

or_error-plain : (found : Option AssetRow) → KeepsVersions (or_error found cas_mismatch)
or_error-plain none db h = h
or_error-plain (some row) db h = h

same_row : {a b : AssetRow} → ◌≡◌ {A = Option AssetRow} (some a) (some b) → a ≡ b
same_row h = cc

create_asset-KeepsVersions :
    (input : AssetInput) (id now : String) → KeepsVersions (create_asset input id now)
unfolding create_asset
create_asset-KeepsVersions input id now =
    bind-KeepsVersions (insert_asset (envelope input id now)) _
      (λ db h. insert_asset-HasAllVersions (envelope input id now) db refl h)
      (λ inserted.
        bind-KeepsVersions (require inserted asset_id_collision) _
          (require-KeepsVersions inserted asset_id_collision)
          (λ _.
            bind-KeepsVersions (append_asset_version (first_version input id now) 0) _
              (λ db h.
                append-HasAllVersions (first_version input id now) 0 db refl (λ old _. omega arith)
                  h)
              (λ updated. or_error-KeepsVersions updated append_failed _ (λ a db h. h))))

insert_memory_ref_binding-KeepsVersions :
    (memory_exists : String → Bool) (row : MemoryRefBindingRow)
    → KeepsVersions (insert_memory_ref_binding memory_exists row)
unfolding insert_memory_ref_binding
insert_memory_ref_binding-KeepsVersions memory_exists row db h =
    let P : Outcome AssetError Bool × AssetDb → Type 0 = λ p. HasAllVersions p.1 in
    if_lem P (exists_where (is_binding_of row) db.bindings) _ _ h (
      if_lem P (not (memory_exists row.memory_id) || not (ltb 0 row.memory_revision)) _ _ h
        (record { owned = h.owned; counted = h.counted }))

create_memory_ref-KeepsVersions :
    (memory_exists : String → Bool) (input : MemoryRefInput) (id now : String)
    → KeepsVersions (create_memory_ref memory_exists input id now)
unfolding create_memory_ref
create_memory_ref-KeepsVersions memory_exists input id now =
    bind-KeepsVersions (require (not (lacks_project input.asset)) binding_invalid) _
      (require-KeepsVersions _ binding_invalid)
      (λ _.
        bind-KeepsVersions
          (require (not (str_eq input.memory_id "" || input.memory_revision == 0)) binding_invalid)
          _ (require-KeepsVersions _ binding_invalid)
          (λ _.
            bind-KeepsVersions (create_asset (as_memory_ref input.asset) id now) _
              (create_asset-KeepsVersions (as_memory_ref input.asset) id now)
              (λ result.
                bind-KeepsVersions (insert_memory_ref_binding memory_exists (binding_row input id))
                  _ (insert_memory_ref_binding-KeepsVersions memory_exists (binding_row input id))
                  (λ _ db h. h))))

module _ (is_body_hash : String → Bool) where
  create_skill_version-KeepsVersions :
      (input : AssetInput) (id now : String)
      → KeepsVersions (create_skill_version is_body_hash input id now)
  unfolding create_skill_version
  create_skill_version-KeepsVersions input id now =
      bind-KeepsVersions (require (not (lacks_project input)) binding_invalid) _
        (require-KeepsVersions _ binding_invalid)
        (λ _.
          bind-KeepsVersions (require (is_body_hash input.content_hash) binding_invalid) _
            (require-KeepsVersions _ binding_invalid)
            (λ _. create_asset-KeepsVersions (as_skill is_body_hash input) id now))

  -- the append, once the version that is there is the expected one
  appends :
      (input : AppendInput) (asset : AssetRow) (now : String) (result : CreateResult) (db : AssetDb)
      → get_asset input.asset_id db ≡ some asset
      → asset.current_version ≡ input.expected_previous_version
      → HasAllVersions db
      → HasAllVersions
          ((append_asset_version
                (next_version is_body_hash input (asset.current_version + 1) now)
                input.expected_previous_version
              >>= λ updated. or_error updated cas_mismatch >>= λ _. pure result)
            db).1
  appends input asset now result db found at h =
      continue-HasAllVersions
        (append_asset_version (next_version is_body_hash input (asset.current_version + 1) now)
          input.expected_previous_version db)
        _
        (append-HasAllVersions (next_version is_body_hash input (asset.current_version + 1) now)
          input.expected_previous_version db (omega (arith, at))
          (λ old e.
            let same : asset ≡ old = same_row (sym found ∙ e) in
            omega (arith, at, ap (λ (r : AssetRow). r.current_version) same))
          h)
        (λ updated. or_error-KeepsVersions updated cas_mismatch _ (λ a after k. k))

  append_skill_version-KeepsVersions :
      (input : AppendInput) (now : String)
      → KeepsVersions (append_skill_version is_body_hash input now)
  unfolding append_skill_version
  append_skill_version-KeepsVersions input now db h =
      elim (Bool-cases (is_body_hash input.body_hash)) [
        | inr e ↦ rw e h
        | inl e ↦ elim (Option-cases (get_asset input.asset_id db)) [
          | inl k ↦ rw (e, k) h
          | inr (asset, k) ↦ elim (Bool-cases (is_skill is_body_hash asset.asset_type)) [
            | inr t ↦ rw (e, k) (rw t h)
            | inl t ↦ elim (Bool-cases (asset.current_version == input.expected_previous_version)) [
              | inr v ↦ rw (e, k) (rw (t, v) h)
              | inl v ↦ rw (e, k) (rw (t, v) (appends input asset now _ db k (ground (arith, v)) h))
            ]
          ]
        ]
      ]

set_lifecycle-KeepsVersions :
    (id : String) (state : AssetLifecycleState) (now : String)
    → KeepsVersions (set_lifecycle id state now)
unfolding set_lifecycle
set_lifecycle-KeepsVersions id state now db h =
    or_error-KeepsVersions (get_asset id db) asset_not_found _
      (λ asset.
        bind-KeepsVersions
          (require (not (is_archived asset.lifecycle_state && not (is_archived state)))
            asset_already_terminal)
          _ (require-KeepsVersions _ asset_already_terminal)
          (λ _ after k.
            continue-HasAllVersions
              (
                returned (set_asset_lifecycle id asset.lifecycle_state state now after).0,
                (set_asset_lifecycle id asset.lifecycle_state state now after).1,
              )
              (λ updated. or_error updated cas_mismatch)
              (set_asset_lifecycle-HasAllVersions id asset.lifecycle_state state now after k)
              (λ updated. or_error-plain updated)))
      db h

-- one call
pub data Call : Type 0 where
  create_ref_call : MemoryRefInput → String → String → Call
  create_skill_call : AssetInput → String → String → Call
  append_call : AppendInput → String → Call
  lifecycle_call : String → AssetLifecycleState → String → Call

module _ (is_body_hash memory_exists : String → Bool) where
  -- the registry after the call, whether it returned or threw
  abbrev pub after_call : Call → AssetDb → AssetDb
  after_call (create_ref_call input id now) db = (create_memory_ref memory_exists input id now db).1
  after_call (create_skill_call input id now) db =
      (create_skill_version is_body_hash input id now db).1
  after_call (append_call input now) db = (append_skill_version is_body_hash input now db).1
  after_call (lifecycle_call id state now) db = (set_lifecycle id state now db).1

  unfoldable pub after_calls : List Call → AssetDb → AssetDb
  after_calls [] db = db
  after_calls (call ∷ calls) db = after_calls calls (after_call call db)

  call-HasAllVersions :
      (call : Call) (db : AssetDb) → HasAllVersions db → HasAllVersions (after_call call db)
  call-HasAllVersions (create_ref_call input id now) =
      create_memory_ref-KeepsVersions memory_exists input id now
  call-HasAllVersions (create_skill_call input id now) =
      create_skill_version-KeepsVersions is_body_hash input id now
  call-HasAllVersions (append_call input now) =
      append_skill_version-KeepsVersions is_body_hash input now
  call-HasAllVersions (lifecycle_call id state now) = set_lifecycle-KeepsVersions id state now

  -- Calls of the asset service, in any order and whether they return or throw, keep this: an asset has a
  -- version row for each number from 1 to its current version and no other, and no version row is without
  -- its asset.
  pub after_calls-HasAllVersions :
      (calls : List Call) (db : AssetDb) → HasAllVersions db → HasAllVersions (after_calls calls db)
  unfolding after_calls
  after_calls-HasAllVersions [] db h = h
  after_calls-HasAllVersions (call ∷ calls) db h =
      after_calls-HasAllVersions calls (after_call call db) (call-HasAllVersions call db h)
