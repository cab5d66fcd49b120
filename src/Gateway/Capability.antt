-- ===== src/Gateway/Capability.antt =====
-- evaluateGroupCapability of src/modules/gateway/group-capability.ts.
use wa_runtime.Base.{
  Bool, true, false, not, Option, none, some, ◌≡◌, ◌↔◌, arith, if◌then◌else◌, ◌&&◌, ◌||◌,
}
use wa_runtime.Message.Policy.{Capability, allowed, denied, unknown}

pub data CapabilityReason : Type 0 where
  send_allowed group_inactive group_read_only admin_only admin_status_unknown metadata_incomplete
        group_changed gateway_permission_denied manual_refresh refresh_failed :
      CapabilityReason

pub record CapabilityInput : Type 0 where
  pub is_active : Bool
  pub is_read_only : Option Bool
  pub is_announce : Option Bool
  pub is_admin : Option Bool
  pub has_details : Bool

pub record CapabilityDecision : Type 0 where
  pub status : Capability
  pub reason : CapabilityReason

-- The comparisons `=== true`, `=== false` and `=== null`.
abbrev pub is_true : Option Bool → Bool
is_true (some true) = true
is_true _ = false

abbrev pub is_false : Option Bool → Bool
is_false (some false) = true
is_false _ = false

abbrev pub is_unknown : Option Bool → Bool
is_unknown none = true
is_unknown _ = false

abbrev pub decide : Capability → CapabilityReason → CapabilityDecision
decide s r = record { status = s; reason = r }

unfoldable pub evaluate_group_capability : CapabilityInput → CapabilityDecision
evaluate_group_capability input =
    if not input.is_active
    then decide denied group_inactive
    else if not input.has_details
    then decide unknown metadata_incomplete
    else if is_true input.is_read_only
    then decide denied group_read_only
    else if is_true input.is_announce && is_false input.is_admin
    then decide denied admin_only
    else if is_true input.is_announce && is_unknown input.is_admin
    then decide unknown admin_status_unknown
    else if is_false input.is_announce && is_false input.is_read_only
    then decide allowed send_allowed
    else decide unknown metadata_incomplete

-- A group is ALLOWED exactly when it is active, its details are known, and it is known to be neither
-- read-only nor announce-only; the caller's being its admin plays no part. It is DENIED exactly when
-- it is inactive, or its details are known and it is read-only or is announce-only with the caller
-- known not to be an admin.
pub evaluate_group_capability_lem :
    (input : CapabilityInput)
    → (((evaluate_group_capability input).status ≡ allowed) ↔ (
        (input.is_active
          && input.has_details
          && is_false input.is_read_only
          && is_false input.is_announce)
        ≡ true))
      × (((evaluate_group_capability input).status ≡ denied) ↔ (
          (not input.is_active
            || (input.has_details
                && (is_true input.is_read_only
                    || (is_true input.is_announce && is_false input.is_admin))))
          ≡ true))
unfolding evaluate_group_capability
evaluate_group_capability_lem input =
    (((λ h. ground arith), (λ h. ground arith)), ((λ h. ground arith), (λ h. ground arith)))
