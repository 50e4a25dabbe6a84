-- ===== src/Budget/Cleanup.antt =====
-- `rankCleanupCandidates` of src/budget-governor.ts: which memories it proposes to remove.
pub mod Ranked
use agent_recall.Common.{
  ℕ, ◌+◌, ◌-◌, ◌≤◌, String, Bool, true, false, ◌&&◌, ◌||◌, not, Option, none, some, List, [], ◌∷◌,
  ◌≡◌, ◌⊎◌, refl, sym, ◌∙◌, map, arith, leb, ltb, ◌==◌, if◌then◌else◌, take, length, length-take,
  All, All-mono, All-take, inl, inr,
}
use agent_recall.Common.Table.{select_where}
use agent_recall.Common.Order.{
  order_with, head, head-take, All-order_with, All-select_where, head_least,
}
use agent_recall.Budget.Rows.{MemoryEntry, SourceKind, MemoryStatus, is_active}

pub data CleanupAction : Type 0 where
  forget_memory archive : CleanupAction

pub record CleanupCandidate : Type 0 where
  pub action : CleanupAction
  pub memory_id : String

-- `Date.parse`, which is `none` where it gives no finite number, and `localeCompare(…) <= 0`
pub record Clock : Type 0 where
  pub parse_date : String → Option ℕ
  pub locale_le : String → String → Bool

abbrev pub is_user : SourceKind → Bool
is_user SourceKind.user = true
is_user _ = false

abbrev pub is_protected : MemoryEntry → Bool
is_protected entry = is_user entry.source_kind || leb 5 entry.importance

abbrev pub is_cleanup_candidate : MemoryEntry → Bool
is_cleanup_candidate entry = is_active entry.status && not (is_protected entry)

abbrev pub earlier : Option ℕ → Option ℕ → Option ℕ
earlier none b = b
earlier (some a) none = some a
earlier (some a) (some b) = if leb a b then some a else some b

abbrev pub before_or_at : Option ℕ → Option ℕ → Bool
before_or_at (some a) (some b) = leb a b
before_or_at _ _ = false

-- `compareOptionalNumber(a, b) < 0`
abbrev pub optional_lt : Option ℕ → Option ℕ → Bool
optional_lt none b = false
optional_lt (some a) none = true
optional_lt (some a) (some b) = ltb a b

module _ (clock : Clock) where
  abbrev pub parse_timestamp : Option String → Option ℕ
  parse_timestamp none = none
  parse_timestamp (some text) = clock.parse_date text

  abbrev pub is_expired : Option String → String → Bool
  is_expired expires_at now = before_or_at (parse_timestamp expires_at) (clock.parse_date now)

  abbrev pub cleanup_action : MemoryEntry → String → CleanupAction
  cleanup_action entry now = if is_expired entry.expires_at now then forget_memory else archive

  abbrev pub cleanup_date : MemoryEntry → Option ℕ
  cleanup_date entry =
      earlier (parse_timestamp entry.review_after) (parse_timestamp entry.expires_at)

  abbrev pub points : Bool → ℕ → ℕ
  points true n = n
  points false n = 0

  -- importance and confidence are 1 to 5
  unfoldable pub cleanup_score : String → MemoryEntry → ℕ
  cleanup_score now entry =
      (6 - entry.importance)
      + (6 - entry.confidence)
      + points (is_expired entry.expires_at now) 5
      + points (is_expired entry.review_after now) 2
      + points (entry.access_count == 0) 2

  -- the comparator does not put `b` before `a`
  unfoldable pub ranks_before : String → MemoryEntry → MemoryEntry → Bool
  unfolding cleanup_score
  ranks_before now a b =
      if not (cleanup_score now a == cleanup_score now b)
      then ltb (cleanup_score now b) (cleanup_score now a)
      else if optional_lt (cleanup_date a) (cleanup_date b)
      then true
      else if optional_lt (cleanup_date b) (cleanup_date a)
      then false
      else if not
          (clock.locale_le a.updated_at b.updated_at && clock.locale_le b.updated_at a.updated_at)
      then clock.locale_le a.updated_at b.updated_at
      else clock.locale_le a.id b.id

  abbrev pub to_action : String → MemoryEntry → CleanupCandidate
  to_action now entry = record { action = cleanup_action entry now; memory_id = entry.id }

  -- the entries that are proposed, in their order
  unfoldable pub cleanup_entries : List MemoryEntry → String → List MemoryEntry
  cleanup_entries entries now =
      take 5 (order_with (ranks_before now) (select_where is_cleanup_candidate entries))

  unfoldable pub rank_cleanup_candidates : List MemoryEntry → String → List CleanupCandidate
  unfolding cleanup_entries
  rank_cleanup_candidates entries now = map (to_action now) (cleanup_entries entries now)
