-- ===== src/Sessions/Plan/Bounds.antt =====
-- The counts of `planBundle`.
use agent_recall.Common.{
  ℕ, suc, ◌+◌, ◌≤◌, ◌*◌, String, Bool, Option, List, [], ◌∷◌, ◌≡◌, refl, ltb, length, arith, if_lem,
  Bool-cases, inl, inr,
}
use agent_recall.Sessions.Rows.{NormalisedEvent, PlanCounts}
use agent_recall.Sessions.Plan.{
  head_tail_window_bytes, content_size, no_counts, holds_secret, accept_truncated, skip, accept,
  plan_events, plan_bundle,
}

-- the counts after `n` events
pub record IsPlanOf (n : ℕ) (c : PlanCounts) : Type 0 where
  pub complete : c.accepted + c.skipped ≡ n
  pub redacted_le : c.redacted ≤ c.accepted
  pub none_rejected : c.rejected ≡ 0

module _ (detect_secrets : String → Bool) where
  accept-IsPlanOf :
      (n : ℕ) (content : Option String) (c : PlanCounts)
      → IsPlanOf n c
      → IsPlanOf (suc n) (accept detect_secrets content c)
  accept-IsPlanOf n content c h = elim (Bool-cases (holds_secret detect_secrets content)) [
    | inl e ↦ record {
      complete = omega (arith, h.complete);
      redacted_le = rw e (omega (arith, h.redacted_le));
      none_rejected = h.none_rejected;
    }
    | inr e ↦ record {
      complete = omega (arith, h.complete);
      redacted_le = rw e (omega (arith, h.redacted_le));
      none_rejected = h.none_rejected;
    }
  ]

  plan_events-IsPlanOf :
      (event_cap session_cap : ℕ) (events : List NormalisedEvent) (bytes n total : ℕ)
      (c : PlanCounts)
      → IsPlanOf n c
      → n + length events ≡ total
      → IsPlanOf total (plan_events detect_secrets event_cap session_cap events bytes c)
  unfolding plan_events
  plan_events-IsPlanOf event_cap session_cap [] bytes n total c h e = record {
    complete = omega (arith, h.complete, e);
    redacted_le = h.redacted_le;
    none_rejected = h.none_rejected;
  }
  plan_events-IsPlanOf event_cap session_cap (ev ∷ events) bytes n total c h e =
      let e' : suc n + length events ≡ total = omega (arith, e) in
      if_lem (IsPlanOf total) (ltb event_cap (content_size ev.content)) _ _
        (plan_events-IsPlanOf event_cap session_cap events (bytes + head_tail_window_bytes * 2)
          (suc n) total (accept_truncated detect_secrets c)
          (record {
            complete = omega (arith, h.complete);
            redacted_le = omega (arith, h.redacted_le);
            none_rejected = h.none_rejected;
          })
          e')
        (if_lem (IsPlanOf total) (ltb session_cap (bytes + content_size ev.content)) _ _
          (plan_events-IsPlanOf event_cap session_cap events bytes (suc n) total
            (skip detect_secrets c)
            (record {
              complete = omega (arith, h.complete);
              redacted_le = omega (arith, h.redacted_le);
              none_rejected = h.none_rejected;
            })
            e')
          (plan_events-IsPlanOf event_cap session_cap events (bytes + content_size ev.content)
            (suc n) total (accept detect_secrets ev.content c) (accept-IsPlanOf n ev.content c h)
            e'))

  -- A plan accepts or skips each event of the bundle, never both; it marks as redacted at most the
  -- accepted ones, and rejects none.
  pub plan_bundle-IsPlanOf :
      (events : List NormalisedEvent) (event_cap session_cap : ℕ)
      → IsPlanOf (length events) (plan_bundle detect_secrets events event_cap session_cap)
  unfolding plan_bundle
  plan_bundle-IsPlanOf events event_cap session_cap =
      plan_events-IsPlanOf event_cap session_cap events 0 0 (length events) no_counts
        (record { complete = refl; redacted_le = omega arith; none_rejected = refl }) (omega arith)
