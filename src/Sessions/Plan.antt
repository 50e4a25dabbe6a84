-- ===== src/Sessions/Plan.antt =====
-- `planBundle` of src/sessions/service.ts.
pub mod Bounds
use agent_recall.Common.{
  ℕ, suc, ◌+◌, ◌*◌, String, Bool, true, false, Option, none, some, List, [], ◌∷◌, ltb,
  if◌then◌else◌,
}
use Prim.Native.String
use agent_recall.Sessions.Rows.{NormalisedEvent, PlanCounts}

abbrev pub head_tail_window_bytes : ℕ
head_tail_window_bytes = 1024

-- `Buffer.byteLength(content, "utf8")`, 0 for `null`
abbrev pub content_size : Option String → ℕ
content_size none = 0
content_size (some text) = String.len text

abbrev pub no_counts : PlanCounts
no_counts = record { accepted = 0; redacted = 0; skipped = 0; rejected = 0 }

-- `detect_secrets` says whether `detectSecrets` finds any
module _ (detect_secrets : String → Bool) where
  abbrev pub holds_secret : Option String → Bool
  holds_secret none = false
  holds_secret (some text) = detect_secrets text

  abbrev pub accept_truncated : PlanCounts → PlanCounts
  accept_truncated c = record c { accepted = c.accepted + 1; redacted = c.redacted + 1 }

  abbrev pub skip : PlanCounts → PlanCounts
  skip c = record c { skipped = c.skipped + 1 }

  abbrev pub accept : Option String → PlanCounts → PlanCounts
  accept content c = record c {
    accepted = c.accepted + 1;
    redacted = if holds_secret content then c.redacted + 1 else c.redacted;
  }

  -- the loop, with the bytes so far
  unfoldable pub plan_events : ℕ → ℕ → List NormalisedEvent → ℕ → PlanCounts → PlanCounts
  plan_events event_cap session_cap [] bytes c = c
  plan_events event_cap session_cap (ev ∷ events) bytes c =
      let size = content_size ev.content in
      if ltb event_cap size
      then plan_events event_cap session_cap events (bytes + head_tail_window_bytes * 2)
          (accept_truncated c)
      else if ltb session_cap (bytes + size)
      then plan_events event_cap session_cap events bytes (skip c)
      else plan_events event_cap session_cap events (bytes + size) (accept ev.content c)

  unfoldable pub plan_bundle : List NormalisedEvent → ℕ → ℕ → PlanCounts
  unfolding plan_events
  plan_bundle events event_cap session_cap = plan_events event_cap session_cap events 0 no_counts
