-- ===== src/Campaign/Snapshots.antt =====
-- What CampaignRunRepository.create (src/modules/campaigns/campaign-run.repository.ts) writes beside the run: the
-- targets of the run and the status of the campaign.
use wa_runtime.Base.{
  ℕ, Bool, true, ◌&&◌, ◌||◌, any, some, List, [], ◌∷◌, ◌++◌, ◌≡◌, ◌≢◌, refl, ◌==◌, ==-eq, ==-refl,
  arith, All, All-append, if_split,
}
use wa_runtime.Base.Sql.{first_row}
use wa_runtime.Campaign.Tables.{
  Campaign, CampaignTarget, RunTarget, GroupRow, group_of, set_campaigns, is_draft, active,
}
use wa_runtime.Campaign.Launch.{run_target, run_targets_of, snapshot_targets, launchable_row}

abbrev pub of_group : ℕ → ℕ → RunTarget → Bool
of_group session group t = t.session_id == session && t.group_id == group

-- An enabled target of the campaign for the group.
abbrev pub targets_group : ℕ → ℕ → ℕ → CampaignTarget → Bool
targets_group campaign session group t =
    t.campaign_id == campaign && t.enabled && t.session_id == session && t.group_id == group

any-append {ℓ} :
    {A : Type ℓ} (p : A → Bool) (xs ys : List A) → any p (xs ++ ys) ≡ (any p xs || any p ys)
any-append p [] ys = refl
any-append p (x ∷ xs) ys = ground (arith, any-append p xs ys)

target-of_group :
    (run session group : ℕ) (t : CampaignTarget) (gs : List GroupRow)
    → any (of_group session group) (run_targets_of run t gs) ≡ (
        t.session_id == session && t.group_id == group && any (group_of t.session_id t.group_id) gs)
unfolding run_targets_of run_target
target-of_group run session group t [] = ground arith
target-of_group run session group t (g ∷ gs) =
    ground (arith, target-of_group run session group t gs)

pub snapshot_targets-of_group :
    (run campaign session group : ℕ) (gs : List GroupRow) (ts : List CampaignTarget)
    → any (of_group session group) (snapshot_targets run campaign gs ts)
      ≡ (any (targets_group campaign session group) ts && any (group_of session group) gs)
unfolding snapshot_targets
snapshot_targets-of_group run campaign session group gs [] = refl
snapshot_targets-of_group run campaign session group gs (t ∷ ts) = ground (
  arith,
  snapshot_targets-of_group run campaign session group gs ts,
  any-append (of_group session group) (run_targets_of run t gs)
      (snapshot_targets run campaign gs ts),
  target-of_group run session group t gs,
  ==-eq t.session_id session,
  ==-eq t.group_id group,
)

target-run :
    (run : ℕ) (t : CampaignTarget) (gs : List GroupRow)
    → All (λ (x : RunTarget). x.run_id ≡ run) (run_targets_of run t gs)
unfolding run_targets_of run_target
target-run run t [] = tt
target-run run t (g ∷ gs) = ground (arith, target-run run t gs)

pub snapshot_targets-run :
    (run campaign : ℕ) (gs : List GroupRow) (ts : List CampaignTarget)
    → All (λ (x : RunTarget). x.run_id ≡ run) (snapshot_targets run campaign gs ts)
unfolding snapshot_targets
snapshot_targets-run run campaign gs [] = tt
snapshot_targets-run run campaign gs (t ∷ ts) =
    if_split (All Own) (t.campaign_id == campaign && t.enabled)
      (λ taken.
        All-append Own (run_targets_of run t gs) (snapshot_targets run campaign gs ts)
          (target-run run t gs) (snapshot_targets-run run campaign gs ts))
      (λ left. snapshot_targets-run run campaign gs ts)
  where
    Own : RunTarget → Type 0
    Own x = x.run_id ≡ run

pub activated-campaign :
    (id now : ℕ) (cs : List Campaign) {c : Campaign}
    → first_row (launchable_row id) cs ≡ some c
    → is_draft c.status ≡ true
    → first_row (launchable_row id) (set_campaigns (c.id ∷ []) is_draft active now cs)
      ≡ some (record c { status = active; updated_at = now })
activated-campaign id now [] found d = absurd (ground arith)
activated-campaign id now (x ∷ cs) {c} found d =
    ground (arith, activated-campaign id now cs {c = c}, ==-refl c.id)

pub other-campaign :
    (id now other : ℕ) (cs : List Campaign)
    → other ≢ id
    → first_row (λ c. c.id == other) (set_campaigns (id ∷ []) is_draft active now cs)
      ≡ first_row (λ c. c.id == other) cs
other-campaign id now other [] away = refl
other-campaign id now other (x ∷ cs) away =
    ground (arith, other-campaign id now other cs away, ==-eq x.id id, ==-eq x.id other, away)
