-- ===== src/Gateway/Mirror.antt =====
-- replaceSummaries of src/modules/gateway/gateway-sync-item.repository.ts: the groups that it leaves active.
use wa_runtime.Base.{
  ℕ, true, false, ◌||◌, List, [], ◌∷◌, ◌≡◌, refl, inl, inr, arith, ◌==◌, ==-refl, ==-eq, any,
  member, All, All-map, All-append, All-of, Bool-cases, if_split,
}
use wa_runtime.Base.Sql.{update_where, All-updated, update_row}
use wa_runtime.Gateway.Groups.{
  GatewayGroup, Summary, group_of, summary_row, upsert, upsert_all, absent, retire_row, to_deny,
  deny_row, is_denied_inactive, summary_ids, replace_summaries,
}

-- A group of the session that the snapshot has, or one that the accumulated ids have, is active.
abbrev Merged : ℕ → List ℕ → GatewayGroup → Type 0
Merged session ids g =
    (g.session_id == session) ≡ true → member g.id ids ≡ true → g.is_active ≡ true

unmatched :
    (session : ℕ) (m : Summary) (ids : List ℕ) (gs : List GatewayGroup)
    → any (group_of session m.id) gs ≡ false
    → All (Merged session ids) gs
    → All (Merged session (m.id ∷ ids)) gs
unmatched session m ids [] none_of h = tt
unmatched session m ids (g ∷ gs) none_of h = (
  (λ own is_in. elim (Bool-cases (m.id == g.id)) [
    | inl same ↦ absurd (ground (arith, ==-eq m.id g.id same, ==-refl g.id))
    | inr other ↦ h.0 own (ground arith)
  ]),
  unmatched session m ids gs (ground arith) h.1,
)

upsert-Merged :
    (pending_name session : ℕ) (m : Summary) (now : ℕ) (ids : List ℕ) (gs : List GatewayGroup)
    → All (Merged session ids) gs
    → All (Merged session (m.id ∷ ids)) (upsert pending_name session m now gs)
unfolding upsert
upsert-Merged pending_name session m now ids gs h =
    if_split (All (Merged session (m.id ∷ ids))) (any (group_of session m.id) gs) (λ t. rows gs h)
      (λ f. All-append _ gs _ (unmatched session m ids gs f h) ((λ own is_in. refl), tt))
  where
    rows :
        (xs : List GatewayGroup)
        → All (Merged session ids) xs
        → All
            (Merged session (m.id ∷ ids))
            (update_where (group_of session m.id) (summary_row pending_name m now) xs)
    rows [] k = tt
    rows (g ∷ xs) k = (
      if_split (Merged session (m.id ∷ ids)) (group_of session m.id g) (λ sel own is_in. refl)
          (λ out own is_in. elim (Bool-cases (m.id == g.id)) [
            | inl same ↦ absurd (ground (arith, ==-eq m.id g.id same, ==-refl g.id))
            | inr other ↦ k.0 own (ground arith)
          ]),
      rows xs k.1,
    )

module _ (session : ℕ) where
  -- Active exactly where the snapshot has it; and what is not active is DENIED as GROUP_INACTIVE.
  abbrev pub Mirrors : List ℕ → GatewayGroup → Type 0
  Mirrors ids g =
      (g.session_id == session) ≡ true
      → (g.is_active ≡ member g.id ids)
        × (g.is_active || is_denied_inactive g.send_capability g.send_capability_reason) ≡ true

  upsert_all-Merged :
      (pending_name : ℕ) (ms : List Summary) (now : ℕ) (ids target : List ℕ)
      (gs : List GatewayGroup)
      → ((x : ℕ) → member x target ≡ true → (member x ids || member x (summary_ids ms)) ≡ true)
      → All (Merged session ids) gs
      → All (Merged session target) (upsert_all pending_name session ms now gs)
  unfolding upsert_all
  upsert_all-Merged pending_name [] now ids target gs covers h =
      All-map _ _ gs (λ (g : GatewayGroup) k own is_in. k own (ground (arith, covers g.id is_in))) h
  upsert_all-Merged pending_name (m ∷ ms) now ids target gs covers h =
      upsert_all-Merged pending_name ms now (m.id ∷ ids) target
        (upsert pending_name session m now gs) (λ x is_in. ground (arith, covers x is_in))
        (upsert-Merged pending_name session m now ids gs h)

  Retired : List ℕ → GatewayGroup → Type 0
  Retired ids g = (g.session_id == session) ≡ true → g.is_active ≡ member g.id ids

  retire-row :
      (ids : List ℕ) (g : GatewayGroup)
      → Merged session ids g
      → Retired ids (update_row (absent session ids) retire_row g)
  unfolding Retired
  retire-row ids g h =
      if_split (Retired ids) (absent session ids g) (λ gone own. ground arith)
        (λ kept own. ground (arith, h own))

  deny-row :
      (ids : List ℕ) (now : ℕ) (g : GatewayGroup)
      → Retired ids g
      → Mirrors ids (update_row (to_deny session) (deny_row now) g)
  unfolding Retired
  deny-row ids now g h =
      if_split (Mirrors ids) (to_deny session g) (λ sel own. (h own, ground arith))
        (λ kept own. (h own, ground arith))

  -- After a snapshot is accepted, each group of its session is active exactly when the snapshot has it,
  -- and each that is not active is DENIED with the reason GROUP_INACTIVE.
  pub replace_summaries-Mirrors :
      (pending_name : ℕ) (ms : List Summary) (now : ℕ) (gs : List GatewayGroup)
      → All (Mirrors (summary_ids ms)) (replace_summaries pending_name session ms now gs)
  unfolding replace_summaries
  replace_summaries-Mirrors pending_name ms now gs =
      All-updated (Retired (summary_ids ms)) _ (to_deny session) (deny_row now) _
        (deny-row (summary_ids ms) now)
        (All-updated (Merged session (summary_ids ms)) _ (absent session (summary_ids ms))
          retire_row _ (retire-row (summary_ids ms))
          (upsert_all-Merged pending_name ms now [] (summary_ids ms) gs (λ x is_in. is_in)
            (All-of _ gs (λ g own is_in. absurd (ground arith)))))
