-- ===== src/Campaign/Preflight.antt =====
-- evaluateCampaignPreflight: src/modules/campaigns/campaign-preflight.ts. A text is the list of its
-- UTF-16 code units; the messages of the checks are left out.
use wa_runtime.Base.{
  ℕ, ◌-◌, Bool, true, false, not, ◌&&◌, ◌||◌, List, [], ◌∷◌, map, ◌==◌, leb, if◌then◌else◌, filter,
  any, length,
}
use wa_runtime.Base.Sql.{row_count}
use wa_runtime.Message.Policy.{Capability, denied, unknown, is_allowed_capability}
use wa_runtime.Campaign.Tables.{Mode, is_live, PreflightStatus, pass, warn, block}

pub record Target : Type 0 where
  pub group_id : ℕ
  pub capability : Capability
  pub invalidated : Bool  -- invalidatedAt is not null

pub data IssueReason : Type 0 where
  target_capability_stale target_capability_denied target_capability_unknown : IssueReason

pub record Issue : Type 0 where
  pub group_id : ℕ
  pub capability : Capability
  pub reason : IssueReason

pub data CheckCode : Type 0 where
  content_valid targets_valid session_sendable group_capability live_send_allowed : CheckCode

pub record Check : Type 0 where
  pub code : CheckCode
  pub status : PreflightStatus

pub record Session : Type 0 where
  pub ready : Bool  -- status === 'ready'
  pub engine_loaded : Bool
  pub restricted : Bool

pub record PreflightInput : Type 0 where
  pub mode : Mode
  pub text : List ℕ
  pub targets : List Target
  pub session : Session
  pub live_sends_enabled : Bool
  pub campaign_revision : ℕ
  pub targets_revision : ℕ

pub record Report : Type 0 where
  pub status : PreflightStatus
  pub policy_version : ℕ
  pub campaign_revision : ℕ
  pub targets_revision : ℕ
  pub mode : Mode
  pub total_targets : ℕ
  pub allowed_targets : ℕ
  pub denied_targets : ℕ
  pub unknown_targets : ℕ
  pub checks : List Check
  pub target_issues : List Issue

abbrev pub is_denied : Capability → Bool
is_denied denied = true
is_denied _ = false

abbrev pub is_unknown : Capability → Bool
is_unknown unknown = true
is_unknown _ = false

unfoldable pub effective_capability : Target → Capability
effective_capability t = if t.invalidated then unknown else t.capability

abbrev pub issue_of : Target → Issue
issue_of t = record {
  group_id = t.group_id;
  capability = effective_capability t;
  reason =
      if t.invalidated
      then target_capability_stale
      else if is_denied (effective_capability t)
      then target_capability_denied
      else target_capability_unknown;
}

unfoldable pub target_issues : List Target → List Issue
target_issues ts =
    map issue_of (filter (λ t. not (is_allowed_capability (effective_capability t))) ts)

-- The code units that String.prototype.trim removes.
unfoldable pub is_white_space : ℕ → Bool
is_white_space c =
    (leb 9 c && leb c 13)
    || c == 32
    || c == 160
    || c == 0x1680
    || (leb 0x2000 c && leb c 0x200a)
    || c == 0x2028
    || c == 0x2029
    || c == 0x202f
    || c == 0x205f
    || c == 0x3000
    || c == 0xfeff

-- text.trim() is not empty and text.length is at most 4096.
unfoldable pub content_ok : List ℕ → Bool
unfolding is_white_space
content_ok text = any (λ c. not (is_white_space c)) text && leb (length text) 4096

abbrev pub pass_if : Bool → PreflightStatus
pass_if b = if b then pass else block

abbrev pub no_items {ℓ} : {A : Type ℓ} → List A → Bool
no_items [] = true
no_items (x ∷ xs) = false

unfoldable pub session_ready : Session → Bool
session_ready s = s.ready && s.engine_loaded && not s.restricted

unfoldable pub checks_of : PreflightInput → List Check
unfolding target_issues
checks_of input =
    record { code = content_valid; status = pass_if (content_ok input.text) }
    ∷ record { code = targets_valid; status = pass_if (not (no_items input.targets)) }
    ∷ record { code = session_sendable; status = pass_if (session_ready input.session) }
    ∷ record {
      code = group_capability;
      status =
          if no_items (target_issues input.targets)
          then pass
          else if is_live input.mode
          then block
          else warn;
    }
    ∷ record {
      code = live_send_allowed;
      status = pass_if (not (is_live input.mode && not input.live_sends_enabled));
    }
    ∷ []

abbrev pub blocks : Check → Bool
blocks c = elim c.status [ block ↦ true | _ ↦ false ]

abbrev pub warns : Check → Bool
warns c = elim c.status [ warn ↦ true | _ ↦ false ]

unfoldable pub overall : List Check → PreflightStatus
overall cs = if any blocks cs then block else if any warns cs then warn else pass

abbrev pub issue_denied : Issue → Bool
issue_denied i = is_denied i.capability

abbrev pub issue_unknown : Issue → Bool
issue_unknown i = is_unknown i.capability

unfoldable pub evaluate : PreflightInput → Report
unfolding overall checks_of
evaluate input = record {
  status = overall (checks_of input);
  policy_version = 2;
  campaign_revision = input.campaign_revision;
  targets_revision = input.targets_revision;
  mode = input.mode;
  total_targets = length input.targets;
  allowed_targets = length input.targets - length (target_issues input.targets);
  denied_targets = row_count issue_denied (target_issues input.targets);
  unknown_targets = row_count issue_unknown (target_issues input.targets);
  checks = checks_of input;
  target_issues = target_issues input.targets;
}
