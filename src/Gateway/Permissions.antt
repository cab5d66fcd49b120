-- ===== src/Gateway/Permissions.antt =====
-- What src/modules/gateway/gateway-capability.repository.ts and replaceSummaries of
-- gateway-sync-item.repository.ts may do to a group's permission to be sent to: withdraw it.
use wa_runtime.Base.{
  ℕ, ◌≤◌, String, Bool, true, false, Option, none, some, List, [], ◌∷◌, ◌++◌, ◌≡◌, refl, inl, inr,
  arith, any, Bool-cases, if_split,
}
use wa_runtime.Base.Sql.{update_where, first_row}
use wa_runtime.Message.Policy.{Capability, allowed}
use wa_runtime.Gateway.Capability.{CapabilityReason}
use wa_runtime.Gateway.SyncRun.{SyncRun}
use wa_runtime.Gateway.Groups.{
  GatewayGroup, Summary, group_of, active_group, invalidate, invalidate_row, claim, claimable,
  claim_row, fail_attempt, owned, fail_row, recover_expired, stranded, recover_row, new_group,
  summary_row, upsert, upsert_all, absent, retire_row, to_deny, deny_row, summary_ids,
  replace_summaries,
}

pub data GroupOp : Type 0 where
  do_invalidate : (session id : ℕ) (reason : CapabilityReason) (now : ℕ) → GroupOp
  do_claim : (session id revision token now : ℕ) (runs : List SyncRun) → GroupOp
  do_fail : (session id revision token : ℕ) (error : String) (retryable : Bool) (now : ℕ) → GroupOp
  do_recover : (now : ℕ) → GroupOp
  do_replace : (pending_name session : ℕ) (snapshot : List Summary) (now : ℕ) → GroupOp

unfoldable pub apply : GroupOp → List GatewayGroup → List GatewayGroup
apply (do_invalidate session id reason now) gs = (invalidate session id reason now gs).1
apply (do_claim session id revision token now runs) gs =
    (claim session id revision token now runs gs).1
apply (do_fail session id revision token error retryable now) gs =
    (fail_attempt session id revision token error retryable now gs).1
apply (do_recover now) gs = (recover_expired now gs).1
apply (do_replace pending_name session snapshot now) gs =
    replace_summaries pending_name session snapshot now gs

abbrev pub may_send : Capability → Bool
may_send allowed = true
may_send _ = false

-- The second row may be sent to only where the first was, at the same revision.
abbrev pub Withdrawn : GatewayGroup → GatewayGroup → Type 0
Withdrawn x y =
    (x.capability_revision ≤ y.capability_revision)
    × (may_send y.send_capability ≡ true
        → (may_send x.send_capability ≡ true) × (x.capability_revision ≡ y.capability_revision))

-- No row goes, and a new one is not to be sent to.
abbrev pub Later : Option GatewayGroup → Option GatewayGroup → Type 0
Later none none = Unit
Later none (some y) = may_send y.send_capability ≡ false
Later (some x) none = ⊥
Later (some x) (some y) = Withdrawn x y

Later-refl : (o : Option GatewayGroup) → Later o o
Later-refl none = tt
Later-refl (some x) = (omega arith, λ h. (h, refl))

Later-trans : (o p q : Option GatewayGroup) → Later o p → Later p q → Later o q
Later-trans none none none h k = tt
Later-trans none none (some z) h k = k
Later-trans none (some y) none h k = tt
Later-trans none (some y) (some z) h k = ground (arith, h, k)
Later-trans (some x) none q h k = absurd h
Later-trans (some x) (some y) none h k = absurd k
Later-trans (some x) (some y) (some z) h k = (
  omega (arith, h.0, k.0),
  λ m. let (a, b) = k.1 m in let (c, d) = h.1 a in (c, omega (arith, b, d)),
)

abbrev Keyed : (GatewayGroup → GatewayGroup) → Type 0
Keyed f = (g : GatewayGroup) → ((f g).session_id ≡ g.session_id) × ((f g).id ≡ g.id)

update-Later :
    (p : GatewayGroup → Bool) (f : GatewayGroup → GatewayGroup)
    → Keyed f
    → ((g : GatewayGroup) → p g ≡ true → Withdrawn g (f g))
    → (s i : ℕ) (gs : List GatewayGroup)
    → Later (first_row (group_of s i) gs) (first_row (group_of s i) (update_where p f gs))
update-Later p f keyed keep s i [] = tt
update-Later p f keyed keep s i (g ∷ gs) = elim (Bool-cases (group_of s i g)) [
  | inl own ↦ elim (Bool-cases (p g)) [
    | inl sel ↦ rw (own, sel, (keyed g).0, (keyed g).1, own) (keep g sel)
    | inr out ↦ rw (own, out, own) (Later-refl (some g))
  ]
  | inr other ↦ elim (Bool-cases (p g)) [
    | inl sel ↦
        rw (other, sel, (keyed g).0, (keyed g).1, other) (update-Later p f keyed keep s i gs)
    | inr out ↦ rw (other, out, other) (update-Later p f keyed keep s i gs)
  ]
]

append-Later :
    (s i : ℕ) (gs : List GatewayGroup) (y : GatewayGroup)
    → may_send y.send_capability ≡ false
    → Later (first_row (group_of s i) gs) (first_row (group_of s i) (gs ++ y ∷ []))
append-Later s i [] y h = elim (Bool-cases (group_of s i y)) [
  | inl own ↦ rw own h
  | inr other ↦ rw other tt
]
append-Later s i (g ∷ gs) y h = elim (Bool-cases (group_of s i g)) [
  | inl own ↦ rw own (Later-refl (some g))
  | inr other ↦ rw other (append-Later s i gs y h)
]

upsert-Later :
    (pending_name session : ℕ) (m : Summary) (now s i : ℕ) (gs : List GatewayGroup)
    → Later
        (first_row (group_of s i) gs)
        (first_row (group_of s i) (upsert pending_name session m now gs))
unfolding upsert
upsert-Later pending_name session m now s i gs =
    if_split
      (λ (hs : List GatewayGroup).
        Later (first_row (group_of s i) gs) (first_row (group_of s i) hs))
      (any (group_of session m.id) gs)
      (λ t.
        update-Later (group_of session m.id) (summary_row pending_name m now) (λ g. (refl, refl))
          (λ g sel. ground arith) s i gs)
      (λ f. append-Later s i gs (new_group session m now) refl)

upsert_all-Later :
    (pending_name session : ℕ) (ms : List Summary) (now s i : ℕ) (gs : List GatewayGroup)
    → Later
        (first_row (group_of s i) gs)
        (first_row (group_of s i) (upsert_all pending_name session ms now gs))
unfolding upsert_all
upsert_all-Later pending_name session [] now s i gs = Later-refl (first_row (group_of s i) gs)
upsert_all-Later pending_name session (m ∷ ms) now s i gs =
    Later-trans (first_row (group_of s i) gs)
      (first_row (group_of s i) (upsert pending_name session m now gs)) _
      (upsert-Later pending_name session m now s i gs)
      (upsert_all-Later pending_name session ms now s i (upsert pending_name session m now gs))

-- Invalidations, claims, failures and recoveries of capability refreshes, and accepted snapshots of a
-- session's groups: none of them removes a group, lowers a capability revision, or makes a group
-- ALLOWED. A group that is ALLOWED afterwards was so before, at the same revision, and a group that
-- is new is not.
pub apply-Later :
    (op : GroupOp) (gs : List GatewayGroup) (session group : ℕ)
    → Later
        (first_row (group_of session group) gs)
        (first_row (group_of session group) (apply op gs))
unfolding apply invalidate claim fail_attempt recover_expired replace_summaries
apply-Later (do_invalidate session id reason now) gs s i =
    update-Later (active_group session id) (invalidate_row reason now) (λ g. (refl, refl))
      (λ g sel. ground arith) s i gs
apply-Later (do_claim session id revision token now runs) gs s i =
    update-Later (claimable session id revision now runs) (claim_row token now) (λ g. (refl, refl))
      (λ g sel. ground arith) s i gs
apply-Later (do_fail session id revision token error retryable now) gs s i =
    update-Later (owned session id revision token now) (fail_row retryable error now)
      (λ g. (refl, refl)) (λ g sel. ground arith) s i gs
apply-Later (do_recover now) gs s i =
    update-Later (stranded now) (recover_row now) (λ g. (refl, refl)) (λ g sel. ground arith) s i gs
apply-Later (do_replace pending_name session snapshot now) gs s i =
    let merged = upsert_all pending_name session snapshot now gs in
    let retired = update_where (absent session (summary_ids snapshot)) retire_row merged in
    Later-trans (first_row (group_of s i) gs) (first_row (group_of s i) retired) _
      (Later-trans (first_row (group_of s i) gs) (first_row (group_of s i) merged) _
        (upsert_all-Later pending_name session snapshot now s i gs)
        (update-Later (absent session (summary_ids snapshot)) retire_row (λ g. (refl, refl))
          (λ g sel. ground arith) s i merged))
      (update-Later (to_deny session) (deny_row now) (λ g. (refl, refl)) (λ g sel. ground arith) s i
        retired)
