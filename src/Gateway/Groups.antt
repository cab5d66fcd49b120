-- ===== src/Gateway/Groups.antt =====
-- The table gateway_groups, the operations of src/modules/gateway/gateway-capability.repository.ts on it, and
-- replaceSummaries of gateway-sync-item.repository.ts.
use wa_runtime.Base.{
  ℕ, ◌+◌, String, Bool, true, false, not, ◌&&◌, ◌||◌, Option, none, some, List, [], ◌∷◌, ◌++◌, map,
  leb, ltb, ◌==◌, after, before, holds, is_null, coalesce, filter, any, member, take, if◌then◌else◌,
}
use wa_runtime.Base.Sql.{update_where, row_count, first_row, order_by}
use wa_runtime.Base.Backoff.{backoff_ms}
use wa_runtime.Message.Policy.{Capability, denied, unknown}
use wa_runtime.Gateway.Capability.{
  CapabilityReason, group_inactive, group_changed, refresh_failed, metadata_incomplete,
}
use wa_runtime.Gateway.SyncRun.{SyncRun, SyncPhase, discovering, is_pending, is_running}

-- The columns of a group that these operations read or write.
pub record GatewayGroup : Type 0 where
  pub session_id : ℕ
  pub id : ℕ
  pub name : ℕ
  pub participants_count : Option ℕ
  pub is_admin : Option Bool
  pub linked_parent_id : Option ℕ
  pub is_active : Bool
  pub details_synced_at : Option ℕ
  pub summary_fingerprint : Option ℕ
  pub reconciled_summary_fingerprint : Option ℕ
  pub send_capability : Capability
  pub send_capability_reason : CapabilityReason
  pub capability_checked_at : Option ℕ
  pub capability_invalidated_at : Option ℕ
  pub capability_revision : ℕ
  pub refresh_attempt_count : ℕ
  pub refresh_next_attempt_at : ℕ
  pub refresh_lease_token : Option ℕ
  pub refresh_lease_expires_at : Option ℕ
  pub refresh_error : Option String

abbrev pub group_of : ℕ → ℕ → GatewayGroup → Bool
group_of session id g = g.session_id == session && g.id == id

abbrev pub active_group : ℕ → ℕ → GatewayGroup → Bool
active_group session id g = group_of session id g && g.is_active

abbrev pub invalidate_row : CapabilityReason → ℕ → GatewayGroup → GatewayGroup
invalidate_row reason now g = record g {
  send_capability = unknown;
  send_capability_reason = reason;
  capability_invalidated_at = some now;
  capability_revision = g.capability_revision + 1;
  refresh_attempt_count = 0;
  refresh_next_attempt_at = now;
  refresh_lease_token = none;
  refresh_lease_expires_at = none;
  refresh_error = none;
}

unfoldable pub invalidate :
    ℕ → ℕ → CapabilityReason → ℕ → List GatewayGroup → Bool × List GatewayGroup
invalidate session id reason now gs = (
  row_count (active_group session id) gs == 1,
  update_where (active_group session id) (invalidate_row reason now) gs,
)

abbrev pub is_discovering : SyncPhase → Bool
is_discovering discovering = true
is_discovering _ = false

-- A synchronisation of the session that has still to read its groups.
abbrev pub before_groups : ℕ → SyncRun → Bool
before_groups session r =
    r.session_id == session
    && (is_pending r.status || (is_running r.status && is_discovering r.phase))

abbrev pub refreshable : ℕ → List SyncRun → GatewayGroup → Bool
refreshable now runs g =
    g.is_active
    && not (is_null g.capability_invalidated_at)
    && ltb g.refresh_attempt_count 3
    && leb g.refresh_next_attempt_at now
    && (is_null g.refresh_lease_token || before g.refresh_lease_expires_at now)
    && not (any (before_groups g.session_id) runs)

or_zero : Option ℕ → ℕ
or_zero none = 0
or_zero (some n) = n

-- The groups to refresh, the earliest first; busy says which have an outstanding reconciliation intent.
unfoldable pub list_needing_refresh :
    (ℕ → ℕ → Bool) → ℕ → ℕ → List SyncRun → List GatewayGroup → List GatewayGroup
unfolding or_zero
list_needing_refresh busy limit now runs gs = take limit (
    order_by (λ (g : GatewayGroup). g.refresh_next_attempt_at)
      (order_by (λ (g : GatewayGroup). or_zero g.capability_invalidated_at)
        (filter (λ g. refreshable now runs g && not (busy g.session_id g.id)) gs)))

abbrev pub claimable : ℕ → ℕ → ℕ → ℕ → List SyncRun → GatewayGroup → Bool
claimable session id revision now runs g =
    group_of session id g && g.capability_revision == revision && refreshable now runs g

abbrev pub claim_row : ℕ → ℕ → GatewayGroup → GatewayGroup
claim_row token now g = record g {
  refresh_attempt_count = g.refresh_attempt_count + 1;
  refresh_lease_token = some token;
  refresh_lease_expires_at = some (now + 120000);
  refresh_error = none;
}

claimed_attempt : Option GatewayGroup → Option ℕ
claimed_attempt none = none
claimed_attempt (some g) = some (g.refresh_attempt_count + 1)

-- The number of the attempt, where the claim is granted.
unfoldable pub claim :
    ℕ → ℕ → ℕ → ℕ → ℕ → List SyncRun → List GatewayGroup → Option ℕ × List GatewayGroup
unfolding claimed_attempt
claim session id revision token now runs gs = (
  claimed_attempt (first_row (claimable session id revision now runs) gs),
  update_where (claimable session id revision now runs) (claim_row token now) gs,
)

abbrev pub owned : ℕ → ℕ → ℕ → ℕ → ℕ → GatewayGroup → Bool
owned session id revision token now g =
    group_of session id g
    && g.capability_revision == revision
    && holds g.refresh_lease_token token
    && after g.refresh_lease_expires_at now

-- NOT $6 OR capability_refresh_attempt_count >= 3.
abbrev pub exhausted : Bool → GatewayGroup → Bool
exhausted retryable g = not retryable || leb 3 g.refresh_attempt_count

-- The columns that failAttempt and recoverExpired write alike.
abbrev pub give_up_row : Bool → ℕ → String → ℕ → GatewayGroup → GatewayGroup
give_up_row over again error now g = record g {
  send_capability = unknown;
  send_capability_reason = if over then refresh_failed else g.send_capability_reason;
  capability_checked_at = if over then some now else g.capability_checked_at;
  capability_invalidated_at = if over then none else g.capability_invalidated_at;
  refresh_next_attempt_at = again;
  refresh_lease_token = none;
  refresh_lease_expires_at = none;
  refresh_error = some error;
}

abbrev pub fail_row : Bool → String → ℕ → GatewayGroup → GatewayGroup
fail_row retryable error now g =
    give_up_row (exhausted retryable g)
      (if exhausted retryable g
        then g.refresh_next_attempt_at
        else now + backoff_ms g.refresh_attempt_count)
      error now g

pub data AttemptResult : Type 0 where
  will_retry gave_up lost_ownership : AttemptResult

attempt_result : Bool → Option GatewayGroup → AttemptResult
attempt_result retryable none = lost_ownership
attempt_result retryable (some g) = if exhausted retryable g then gave_up else will_retry

unfoldable pub fail_attempt :
    ℕ → ℕ → ℕ → ℕ → String → Bool → ℕ → List GatewayGroup → AttemptResult × List GatewayGroup
unfolding attempt_result
fail_attempt session id revision token error retryable now gs = (
  attempt_result retryable (first_row (owned session id revision token now) gs),
  update_where (owned session id revision token now) (fail_row retryable error now) gs,
)

abbrev pub stranded : ℕ → GatewayGroup → Bool
stranded now g =
    (not (is_null g.refresh_lease_token) && before g.refresh_lease_expires_at now)
    || (not (is_null g.capability_invalidated_at)
        && is_null g.refresh_lease_token
        && leb 3 g.refresh_attempt_count)

abbrev pub recover_row : ℕ → GatewayGroup → GatewayGroup
recover_row now g =
    give_up_row (leb 3 g.refresh_attempt_count) now "Recovered expired capability refresh lease" now
      g

unfoldable pub recover_expired : ℕ → List GatewayGroup → ℕ × List GatewayGroup
recover_expired now gs =
    (row_count (stranded now) gs, update_where (stranded now) (recover_row now) gs)

-- A group in a snapshot of the gateway; fingerprint is summaryFingerprint of it.
pub record Summary : Type 0 where
  pub id : ℕ
  pub name : ℕ
  pub participants_count : Option ℕ
  pub is_admin : Option Bool
  pub linked_parent_id : Option ℕ
  pub fingerprint : ℕ

-- pending_name is pendingGroupName.
abbrev pub summary_row : ℕ → Summary → ℕ → GatewayGroup → GatewayGroup
summary_row pending_name m now g = record g {
  name = if m.name == pending_name && not (is_null g.details_synced_at) then g.name else m.name;
  participants_count = coalesce m.participants_count g.participants_count;
  is_admin = coalesce m.is_admin g.is_admin;
  linked_parent_id = m.linked_parent_id;
  send_capability = if g.is_active then g.send_capability else unknown;
  send_capability_reason = if g.is_active then g.send_capability_reason else group_changed;
  capability_invalidated_at = if g.is_active then g.capability_invalidated_at else some now;
  capability_revision = if g.is_active then g.capability_revision else g.capability_revision + 1;
  is_active = true;
}

-- The defaults of the schema.
abbrev pub new_group : ℕ → Summary → ℕ → GatewayGroup
new_group session m now = record {
  session_id = session;
  id = m.id;
  name = m.name;
  participants_count = m.participants_count;
  is_admin = m.is_admin;
  linked_parent_id = m.linked_parent_id;
  is_active = true;
  details_synced_at = none;
  summary_fingerprint = none;
  reconciled_summary_fingerprint = none;
  send_capability = unknown;
  send_capability_reason = metadata_incomplete;
  capability_checked_at = none;
  capability_invalidated_at = none;
  capability_revision = 1;
  refresh_attempt_count = 0;
  refresh_next_attempt_at = now;
  refresh_lease_token = none;
  refresh_lease_expires_at = none;
  refresh_error = none;
}

unfoldable pub upsert : ℕ → ℕ → Summary → ℕ → List GatewayGroup → List GatewayGroup
upsert pending_name session m now gs =
    if any (group_of session m.id) gs
    then update_where (group_of session m.id) (summary_row pending_name m now) gs
    else gs ++ new_group session m now ∷ []

unfoldable pub upsert_all : ℕ → ℕ → List Summary → ℕ → List GatewayGroup → List GatewayGroup
unfolding upsert
upsert_all pending_name session [] now gs = gs
upsert_all pending_name session (m ∷ ms) now gs =
    upsert_all pending_name session ms now (upsert pending_name session m now gs)

abbrev pub absent : ℕ → List ℕ → GatewayGroup → Bool
absent session ids g = g.session_id == session && not (member g.id ids)

abbrev pub retire_row : GatewayGroup → GatewayGroup
retire_row g = record g { is_active = false }

abbrev pub is_denied_inactive : Capability → CapabilityReason → Bool
is_denied_inactive denied group_inactive = true
is_denied_inactive _ _ = false

abbrev pub to_deny : ℕ → GatewayGroup → Bool
to_deny session g =
    g.session_id == session
    && not g.is_active
    && not (is_denied_inactive g.send_capability g.send_capability_reason)

abbrev pub deny_row : ℕ → GatewayGroup → GatewayGroup
deny_row now g = record g {
  send_capability = denied;
  send_capability_reason = group_inactive;
  capability_checked_at = some now;
  capability_invalidated_at = none;
  capability_revision = g.capability_revision + 1;
}

abbrev pub summary_ids : List Summary → List ℕ
summary_ids ms = map (λ (m : Summary). m.id) ms

unfoldable pub replace_summaries : ℕ → ℕ → List Summary → ℕ → List GatewayGroup → List GatewayGroup
unfolding upsert_all
replace_summaries pending_name session ms now gs = update_where (to_deny session) (deny_row now) (
    update_where (absent session (summary_ids ms)) retire_row
      (upsert_all pending_name session ms now gs))
