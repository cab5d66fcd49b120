-- ===== src/Campaign/Replays.antt =====
-- What a launch may do to the tables: CampaignRunRepository.create of
-- src/modules/campaigns/campaign-run.repository.ts.
use wa_runtime.Base.{
  ℕ, ◌<◌, ◌≢◌, ◌++◌, ◌==◌, List, [], ◌∷◌, All, true, false, not, ◌&&◌, ◌||◌, none, some, ◌≡◌, refl,
  ◌⊎◌, inl, inr, arith, any, Option-cases, if_split,
}
use wa_runtime.Base.Sql.{first_row}
use wa_runtime.Campaign.Tables.{
  Db, Campaign, CampaignRun, RunTarget, active, preparing, group_of, is_draft, is_live,
}
use wa_runtime.Campaign.Launch.{
  LaunchInput, LaunchResult, create, created, launch_new, launchable_row, run_with_key, live_run_of,
  differs, due_by, insert_conflicts, new_run, insert_run, snapshot_targets, replay_on,
}
use wa_runtime.Campaign.Snapshots.{
  of_group, targets_group, snapshot_targets-of_group, snapshot_targets-run, activated-campaign,
  other-campaign,
}

-- Why a run may be created: the campaign is a draft without a LIVE run, and its revisions are those
-- that the caller expects.
pub record MayLaunch (input : LaunchInput) (db : Db) (c : Campaign) : Type 0 where
  pub found : first_row (launchable_row input.campaign) db.campaigns ≡ some c
  pub new_key : first_row (run_with_key c.id input.key) db.runs ≡ none
  pub no_live_run : any (live_run_of c.id) db.runs ≡ false
  pub expected_campaign : differs input.expected_campaign_revision c.revision ≡ false
  pub expected_targets : differs input.expected_targets_revision c.targets_revision ≡ false
  pub draft_campaign : is_draft c.status ≡ true

-- The run that a launch inserts.
pub record Fresh (input : LaunchInput) (c : Campaign) (new_id : ℕ) (run : CampaignRun)
    : Type 0 where
  pub id : run.id ≡ new_id
  pub campaign : run.campaign_id ≡ c.id
  pub session : run.session_id ≡ c.session_id
  pub key : run.idempotency_key ≡ input.key
  pub mode : run.mode ≡ input.mode
  pub text : run.text ≡ c.text
  pub preparing : run.status ≡ preparing
  pub revision : run.campaign_revision ≡ c.revision
  pub targets_revision : run.targets_revision ≡ c.targets_revision
  pub source : run.target_source ≡ c.target_source
  pub unclaimed : (run.lease_token ≡ none) × (run.attempt_count ≡ 0)

-- The tables after a launch that inserts a run.
pub record Launched (input : LaunchInput) (c : Campaign) (new_id js_now now : ℕ) (db after : Db)
    (run : CampaignRun) : Type 0 where
  pub fresh : Fresh input c new_id run
  pub runs : after.runs ≡ db.runs ++ run ∷ []
  pub in_time :
      is_live input.mode ≡ true
      → c.once ≡ true
      → (at : ℕ) → c.scheduled_at ≡ some at
      → (js_now < at) × (run.scheduled_at ≡ at)
  pub added :
      (ts : List RunTarget) × (after.run_targets ≡ db.run_targets ++ ts)
      × All (λ t. t.run_id ≡ new_id) ts
      × ((session group : ℕ)
          → any (of_group session group) ts ≡ (
              any (targets_group c.id session group) db.targets
              && any (group_of session group) db.groups))
  pub activated :
      is_live input.mode ≡ true
      → (first_row (launchable_row input.campaign) after.campaigns
          ≡ some (record c { status = active; updated_at = now }))
        × ((other : ℕ)
            → other ≢ c.id
            → first_row (λ d. d.id == other) after.campaigns
              ≡ first_row (λ d. d.id == other) db.campaigns)
  pub kept_campaigns : is_live input.mode ≡ false → after.campaigns ≡ db.campaigns
  pub kept :
      (after.targets ≡ db.targets) × (after.groups ≡ db.groups) × (after.deliveries ≡ db.deliveries)

inserted-Launched :
    (input : LaunchInput) (c : Campaign) (new_id js_now now : ℕ) (db : Db)
    → first_row (launchable_row input.campaign) db.campaigns ≡ some c
    → is_draft c.status ≡ true
    → (is_live input.mode && c.once && due_by c.scheduled_at js_now) ≡ false
    → Launched input c new_id js_now now db
        (insert_run input c new_id js_now now db)
        (new_run input c new_id js_now now)
inserted-Launched input c new_id js_now now db found is_a_draft in_time = record {
  fresh = record {
    id = refl;
    campaign = refl;
    session = refl;
    key = refl;
    mode = refl;
    text = refl;
    preparing = refl;
    revision = refl;
    targets_revision = refl;
    source = refl;
    unclaimed = (refl, refl);
  };
  runs = refl;
  in_time =
      λ live once at due. (ground (arith, in_time, live, once, due), ground (arith, once, due));
  added = (
    snapshot_targets new_id c.id db.groups db.targets,
    refl,
    snapshot_targets-run new_id c.id db.groups db.targets,
    λ session group. snapshot_targets-of_group new_id c.id session group db.groups db.targets,
  );
  activated = λ live. rw live (
    activated-campaign input.campaign now db.campaigns found is_a_draft,
    λ other away. other-campaign c.id now other db.campaigns away,
  );
  kept_campaigns = λ dry. rw dry refl;
  kept = (refl, refl, refl);
}

Outcome : LaunchInput → ℕ → ℕ → ℕ → Db → LaunchResult × Db → Type 0
Outcome input new_id js_now now db result =
    (((run : CampaignRun) → result.0 ≢ created run) × (result.1 ≡ db))
    ⊎ ((c : Campaign) × (run : CampaignRun) × (result.0 ≡ created run)
        × MayLaunch input db c
        × Launched input c new_id js_now now db result.1 run)

new_outcome :
    (input : LaunchInput) (c : Campaign) (new_id js_now now : ℕ) (db : Db)
    → first_row (launchable_row input.campaign) db.campaigns ≡ some c
    → first_row (run_with_key c.id input.key) db.runs ≡ none
    → Outcome input new_id js_now now db (launch_new input c new_id js_now now db)
unfolding launch_new Outcome replay_on
new_outcome input c new_id js_now now db e k =
    let P = Outcome input new_id js_now now db in
    if_split P (any (live_run_of c.id) db.runs) (λ b. inl ((λ r h. cc h), refl))
      (λ idle.
        if_split P
          (differs input.expected_campaign_revision c.revision
            || differs input.expected_targets_revision c.targets_revision)
          (λ b. inl ((λ r h. cc h), refl))
          (λ same.
            if_split P (not (is_draft c.status)) (λ b. inl ((λ r h. cc h), refl))
              (λ is_a_draft.
                if_split P (is_live input.mode && c.once && due_by c.scheduled_at js_now)
                  (λ b. inl ((λ r h. cc h), refl))
                  (λ in_time.
                    if_split P (insert_conflicts input c db) (λ x. inl (rw k ((λ r h. cc h), refl)))
                      (λ x. inr (
                        c,
                        new_run input c new_id js_now now,
                        refl,
                        record {
                          found = e;
                          new_key = k;
                          no_live_run = idle;
                          expected_campaign = ground arith;
                          expected_targets = ground arith;
                          draft_campaign = ground arith;
                        },
                        inserted-Launched input c new_id js_now now db e (ground arith) in_time,
                      ))))))

-- A launch either creates no run and leaves all tables as they are, or it creates the run that its result
-- names: that is then the one new row of campaign_runs, PREPARING, unclaimed, and with the session, text,
-- revisions and target source of the campaign; the run's targets are the campaign's enabled targets whose
-- groups are known; a LIVE launch makes the campaign ACTIVE and touches no other, a DRY_RUN leaves the
-- campaigns; targets, groups and deliveries stay. The campaign then was a draft that is not deleted, had no
-- LIVE run and no run with the idempotency key, was at the revisions that the caller expects, and, for a
-- LIVE launch with a date, the date, which becomes the run's, was still to come.
pub create-Outcome :
    (input : LaunchInput) (new_id js_now now : ℕ) (db : Db)
    → let (result, after) = create input new_id js_now now db in
      (((run : CampaignRun) → result ≢ created run) × (after ≡ db))
      ⊎ ((c : Campaign) × (run : CampaignRun) × (result ≡ created run)
          × MayLaunch input db c
          × Launched input c new_id js_now now db after run)
unfolding create Outcome
create-Outcome input new_id js_now now db =
    elim (Option-cases (first_row (launchable_row input.campaign) db.campaigns)) [
      | inl e ↦ rw (e, create) (inl ((λ r h. cc h), refl))
      | inr (c, e) ↦ elim (Option-cases (first_row (run_with_key c.id input.key) db.runs)) [
        | inl k ↦ rw (e, k, create) (new_outcome input c new_id js_now now db e k)
        | inr (r, k) ↦ rw (e, k, create) (inl ((λ x h. cc h), refl))
      ]
    ]
