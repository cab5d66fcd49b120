-- ===== src/Message/Policy.antt =====
-- src/modules/messages/message-send-policy.service.ts. What it asks of the gateway's read model and of
-- the session allowlist is the record Gateway; the reason of a group's capability is passed through.
use wa_runtime.Base.{ℕ, Bool, true, false, not, Option, none, some, if◌then◌else◌}

pub data Capability : Type 0 where
  allowed denied unknown : Capability

pub record Group : Type 0 where
  pub capability : Capability
  pub reason : ℕ

pub record Gateway : Type 0 where
  pub is_allowed : ℕ → Bool
  pub is_session_sendable : ℕ → Bool
  pub is_group_jid : ℕ → Bool  -- recipientId.endsWith('@g.us')
  pub find_group : ℕ → ℕ → Option Group

pub data BlockReason : Type 0 where
  outside_allowlist session_not_sendable not_a_group group_not_active : BlockReason
  group_not_sendable : ℕ → BlockReason

abbrev pub is_allowed_capability : Capability → Bool
is_allowed_capability allowed = true
is_allowed_capability _ = false

group_block_reason : Option Group → Option BlockReason
group_block_reason none = some group_not_active
group_block_reason (some g) =
    if is_allowed_capability g.capability then none else some (group_not_sendable g.reason)

unfoldable pub live_block_reason : Gateway → ℕ → ℕ → Option BlockReason
unfolding group_block_reason
live_block_reason gw session recipient =
    if not (gw.is_allowed session)
    then some outside_allowlist
    else if not (gw.is_session_sendable session)
    then some session_not_sendable
    else if not (gw.is_group_jid recipient)
    then some not_a_group
    else group_block_reason (gw.find_group session recipient)

-- assertCreatable: none means that it returns.
unfoldable pub assert_creatable : Gateway → ℕ → ℕ → Bool → Option BlockReason
unfolding group_block_reason
assert_creatable gw session recipient dry_run =
    if not (gw.is_allowed session)
    then some outside_allowlist
    else if dry_run
    then none
    else if not (gw.is_group_jid recipient)
    then some not_a_group
    else group_block_reason (gw.find_group session recipient)
