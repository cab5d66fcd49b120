-- ===== src/Campaign/Verdict.antt =====
-- What a report of evaluateCampaignPreflight (src/modules/campaigns/campaign-preflight.ts) means.
use wa_runtime.Base.{
  ◌+◌, ◌≤◌, true, false, not, ◌&&◌, List, [], ◌∷◌, ◌≡◌, ◌≢◌, inl, inr, arith, Bool-cases, All,
  length,
}
use wa_runtime.Base.Sql.{row_count}
use wa_runtime.Message.Policy.{allowed}
use wa_runtime.Campaign.Tables.{live, dry_run, warn, block}
use wa_runtime.Campaign.Preflight.{
  Target, PreflightInput, effective_capability, target_issues, content_ok, session_ready, evaluate,
  no_items, issue_denied, issue_unknown,
}

-- A target that may be sent to: ALLOWED, and not invalidated since.
abbrev pub Sendable : Target → Type 0
Sendable t = (t.capability ≡ allowed) × (t.invalidated ≡ false)

no_issues-Sendable : (ts : List Target) → no_items (target_issues ts) ≡ true → All Sendable ts
unfolding target_issues effective_capability
no_issues-Sendable [] h = tt
no_issues-Sendable (t ∷ ts) h = (ground arith, no_issues-Sendable ts (ground arith))

count_issues :
    (ts : List Target)
    → (row_count issue_denied (target_issues ts) + row_count issue_unknown (target_issues ts)
        ≡ length (target_issues ts))
      × (length (target_issues ts) ≤ length ts)
unfolding target_issues effective_capability
count_issues [] = omega arith
count_issues (t ∷ ts) = ground (arith, count_issues ts)

-- In every report the allowed, denied and unknown targets add up to all of them.
pub targets-add_up :
    (input : PreflightInput)
    → let r = evaluate input in
      r.allowed_targets + r.denied_targets + r.unknown_targets ≡ r.total_targets
unfolding evaluate
targets-add_up input = omega (arith, count_issues input.targets)

-- A LIVE report is never WARN, and where it is not BLOCK the text is valid, there is a target, each
-- target is ALLOWED and not invalidated, the session is ready, and live sends are enabled.
pub live_report-Sendable :
    (input : PreflightInput)
    → input.mode ≡ live
    → ((evaluate input).status ≢ warn)
      × ((evaluate input).status ≢ block
          → (content_ok input.text ≡ true)
            × (input.targets ≢ [])
            × (All Sendable input.targets)
            × (session_ready input.session ≡ true)
            × (input.live_sends_enabled ≡ true))
unfolding evaluate
live_report-Sendable input m = elim (Bool-cases (no_items (target_issues input.targets))) [
  | inl none_bad ↦ (
    ground arith,
    λ ok. (
      ground arith,
      ground arith,
      no_issues-Sendable input.targets none_bad,
      ground arith,
      ground arith,
    ),
  )
  | inr bad ↦ (ground arith, λ ok. absurd (ground arith))
]

-- A DRY_RUN report is BLOCK exactly when the text is invalid, there is no target or the session is not
-- ready: neither the groups' capabilities nor the switch for live sends blocks it.
pub dry_run_report :
    (input : PreflightInput)
    → input.mode ≡ dry_run
    → (((evaluate input).status ≡ block)
        → (content_ok input.text && not (no_items input.targets) && session_ready input.session)
          ≡ false)
      × ((content_ok input.text && not (no_items input.targets) && session_ready input.session)
            ≡ false
          → (evaluate input).status ≡ block)
unfolding evaluate
dry_run_report input m = (λ h. ground arith, λ h. ground arith)
