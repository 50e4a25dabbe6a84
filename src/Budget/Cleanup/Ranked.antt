-- ===== src/Budget/Cleanup/Ranked.antt =====
-- The number, the kind and the order of the entries that `rankCleanupCandidates` proposes.
use agent_recall.Common.{
  ◌≤◌, String, true, List, [], ◌∷◌, ◌≡◌, length, length-take, All, All-take, inl, inr, Bool-cases,
}
use agent_recall.Common.Table.{select_where}
use agent_recall.Common.Order.{All-order_with}
use agent_recall.Budget.Rows.{MemoryEntry}
use agent_recall.Budget.Cleanup.{Clock, is_cleanup_candidate, cleanup_entries}

All-kept :
    (P : MemoryEntry → Type 0) (entries : List MemoryEntry)
    → All P entries
    → All (λ e. P e × (is_cleanup_candidate e ≡ true)) (select_where is_cleanup_candidate entries)
unfolding select_where
All-kept P [] h = tt
All-kept P (e ∷ es) h = elim (Bool-cases (is_cleanup_candidate e)) [
  | inl k ↦ rw k ((h.0, k), All-kept P es h.1)
  | inr k ↦ rw k (All-kept P es h.1)
]

module _ (clock : Clock) (entries : List MemoryEntry) (now : String) where
  -- At most five entries are proposed. Each is active, does not come from the user, and has an
  -- importance below 5; and what holds of all given entries holds of each, so each is one of them.
  pub cleanup_entries-All :
      (P : MemoryEntry → Type 0)
      → All P entries
      → (length (cleanup_entries clock entries now) ≤ 5)
        × All (λ e. P e × (is_cleanup_candidate e ≡ true)) (cleanup_entries clock entries now)
  unfolding cleanup_entries
  cleanup_entries-All P h =
      (length-take 5 _, All-take _ 5 _ (All-order_with _ _ _ (All-kept P entries h)))
