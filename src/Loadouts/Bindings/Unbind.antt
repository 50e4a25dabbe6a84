-- ===== src/Loadouts/Bindings/Unbind.antt =====
-- A binding that is attached and removed.
use agent_recall.Common.{
  ℕ, String, Bool, true, false, not, List, [], ◌∷◌, ◌≡◌, refl, ap, subst, arith, ltb, lt→ltb,
  eq_refl, inl, inr, Bool-cases, Option-cases,
}
use agent_recall.Common.Effect.{Outcome, returned}
use agent_recall.Common.Table.{select_where, count_where, exists_where, insert_row}
use agent_recall.Loadouts.Rows.{LoadoutRow, LoadoutDb, LoadoutError}
use agent_recall.Loadouts.Store.{get_loadout}
use agent_recall.Loadouts.Service.{has_binding_id, insert_binding, remove_binding}
use agent_recall.Loadouts.Bindings.{BindInput, bound_row, bind}

module _ {A : Type 0} (p : A → Bool) (x : A) where
  select_others :
      (xs : List A)
      → p x ≡ true
      → exists_where p xs ≡ false
      → select_where (λ y. not (p y)) (insert_row x xs) ≡ xs
  unfolding select_where exists_where insert_row
  select_others [] h e = rw h refl
  select_others (y ∷ ys) h e = elim (Bool-cases (p y)) [
    | inl k ↦ absurd (cc (rw k at e))
    | inr k ↦ rw k (ap (λ l. y ∷ l) (select_others ys h (rw k at e)))
  ]

  counts_new : (xs : List A) → p x ≡ true → ltb 0 (count_where p (insert_row x xs)) ≡ true
  unfolding count_where insert_row
  counts_new [] h = rw h refl
  counts_new (y ∷ ys) h = elim (Bool-cases (p y)) [
    | inl k ↦ rw k (lt→ltb 0 _ (omega arith))
    | inr k ↦ rw k (counts_new ys h)
  ]

module _ (input : BindInput) (id : String) (now : ℕ) (db : LoadoutDb) where
  remove_inserted :
      (loadout : LoadoutRow)
      → exists_where (has_binding_id id) db.bindings ≡ false
      → remove_binding id
          (record db { bindings = insert_row (bound_row input id loadout now) db.bindings })
        ≡ (true, db)
  unfolding remove_binding
  remove_inserted loadout e =
      rw
        (
          select_others (has_binding_id id) (bound_row input id loadout now) db.bindings
              (eq_refl id) e,
          counts_new (has_binding_id id) (bound_row input id loadout now) db.bindings (eq_refl id),
        )
        refl

  -- Where `bind` returns, it returns the new id, and `unbind` of that id returns true and restores
  -- the tables.
  pub unbind_after_bind :
      (answer : String) (db' : LoadoutDb)
      → bind input id now db ≡ (returned answer, db')
      → (answer ≡ id) × (remove_binding id db' ≡ (true, db))
  unfolding bind insert_binding
  unbind_after_bind answer db' h = elim (Option-cases (get_loadout input.loadout_id db)) [
    | inl e ↦ absurd (cc (rw e at h))
    | inr (loadout, e) ↦ elim (Bool-cases (exists_where (has_binding_id id) db.bindings)) [
      | inl k ↦ absurd (cc (rw (e, k) at h))
      | inr k ↦
          let stored = rw (e, k, e) at h in
          (
            cc,
            subst (λ (after : LoadoutDb). remove_binding id after ≡ (true, db))
                (ap (λ (r : Outcome LoadoutError String × LoadoutDb). r.1) stored)
                (remove_inserted loadout k),
          )
    ]
  ]
