-- ===== src/Loadouts/Precedence.antt =====
-- Which binding `resolveLoadout` (src/sqlite-store.ts) picks.
pub mod Levels
use agent_recall.Common.{
  ℕ, String, Bool, true, false, ◌&&◌, Option, none, some, List, [], ◌∷◌, ◌≡◌, refl, sym, ◌∙◌, ◌⊎◌,
  inl, inr, arith, if◌then◌else◌, Bool-cases, Option-cases, All, All-mono, All-take, leb, is_some,
  not, subst,
}
use agent_recall.Common.Table.{first_where, select_where}
use agent_recall.Common.Order.{
  order_with, head, head-take, order_with_nil, select_where_nil, All-select_where, All-order_with,
  head_least,
}
use agent_recall.Loadouts.Rows.{Priority, priority_le, LoadoutRow, BindingRow, LoadoutDb}
use agent_recall.Loadouts.Store.{
  get_loadout, rules_for_version, MatchedRule, actor_project_task, actor_project, project_default,
  global_default, ResolveInput, level_where, live_loadout, comes_first, level_rows, Resolution,
  is_skipped, level_result, resolve_levels, resolve_loadout,
}

-- The binding meets the WHERE of the level, no binding that does has a greater priority, and the
-- loadout and rules are those of the binding's loadout at its current version.
pub record IsBest (input : ResolveInput) (db : LoadoutDb) (r : Resolution) : Type 0 where
  pub matches : level_where r.matched_rule input db r.binding ≡ true
  pub greatest :
      All
        (λ b.
          level_where r.matched_rule input db b ≡ true
          → priority_le b.priority r.binding.priority ≡ true)
        db.bindings
  pub loadout : get_loadout r.binding.loadout_id db ≡ some r.loadout
  pub rules : r.rules ≡ rules_for_version r.loadout.loadout_id r.loadout.version db

priority_le-total : (a b : Priority) → (priority_le a b ≡ true) ⊎ (priority_le b a ≡ true)
priority_le-total a b = ground arith

comes_first_total : (a b : BindingRow) → (comes_first a b ≡ true) ⊎ (comes_first b a ≡ true)
comes_first_total a b = ground arith

comes_first_trans :
    (a b c : BindingRow) → comes_first a b ≡ true → comes_first b c ≡ true → comes_first a c ≡ true
comes_first_trans a b c h k = ground arith

comes_first-priority :
    (a b : BindingRow) → comes_first a b ≡ true → priority_le b.priority a.priority ≡ true
comes_first-priority a b h = ground arith

head-All : {A : Type 0} (P : A → Type 0) (xs : List A) (x : A) → All P xs → head xs ≡ some x → P x
head-All P [] x h e = cc
head-All P (y ∷ ys) x h e = subst P (cc) h.0

-- what holds of all selected rows holds of every row that would be selected
All-selected :
    {A : Type 0} (P : A → Type 0) (p : A → Bool) (xs : List A)
    → All P (select_where p xs)
    → All (λ x. p x ≡ true → P x) xs
unfolding select_where
All-selected P p [] h = tt
All-selected P p (x ∷ xs) h = elim (Bool-cases (p x)) [
  | inl e ↦
      let h' : All P (x ∷ select_where p xs) = rw e at h in (λ _. h'.0, All-selected P p xs h'.1)
  | inr e ↦
      let h' : All P (select_where p xs) = rw e at h in
      (λ k. absurd (cc (e, k)), All-selected P p xs h')
]

module _ (rule : MatchedRule) (input : ResolveInput) (db : LoadoutDb) where
  head-level_rows :
      head (level_rows rule input db)
      ≡ head (order_with comes_first (select_where (level_where rule input db) db.bindings))
  unfolding level_rows
  head-level_rows = head-take 9 _

  level_rows-none :
      head (level_rows rule input db) ≡ none
      → select_where (level_where rule input db) db.bindings ≡ []
  level_rows-none h = order_with_nil comes_first _ (sym head-level_rows ∙ h)

  level_rows_empty :
      select_where (level_where rule input db) db.bindings ≡ []
      → head (level_rows rule input db) ≡ none
  unfolding level_rows order_with
  level_rows_empty h = rw h

  level_rows_matches :
      (b : BindingRow)
      → head (level_rows rule input db) ≡ some b
      → level_where rule input db b ≡ true
  level_rows_matches b h =
      head-All (λ x. level_where rule input db x ≡ true)
        (order_with comes_first (select_where (level_where rule input db) db.bindings)) b
        (All-order_with (λ x. level_where rule input db x ≡ true) comes_first _
          (All-select_where (level_where rule input db) db.bindings))
        (sym head-level_rows ∙ h)

  level_rows_greatest :
      (b : BindingRow)
      → head (level_rows rule input db) ≡ some b
      → All
          (λ x. level_where rule input db x ≡ true → priority_le x.priority b.priority ≡ true)
          db.bindings
  level_rows_greatest b h =
      All-selected (λ x. priority_le x.priority b.priority ≡ true) (level_where rule input db)
        db.bindings
        (All-mono (select_where (level_where rule input db) db.bindings)
          (λ x k. comes_first-priority b x k)
          (head_least comes_first comes_first_total comes_first_trans _ b
            (sym head-level_rows ∙ h)))

matching_is_live :
    (rule : MatchedRule) (input : ResolveInput) (db : LoadoutDb) (b : BindingRow)
    → level_where rule input db b ≡ true
    → live_loadout (get_loadout b.loadout_id db) ≡ true
matching_is_live actor_project_task input db b h = ground arith
matching_is_live actor_project input db b h = ground arith
matching_is_live project_default input db b h = ground arith
matching_is_live global_default input db b h = ground arith
matching_is_live _ input db b h = cc

live_is_there :
    (found : Option LoadoutRow) → live_loadout found ≡ true → (l : LoadoutRow) × (found ≡ some l)
live_is_there none h = cc
live_is_there (some l) h = (l, refl)
