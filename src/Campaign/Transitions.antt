-- ===== src/Campaign/Transitions.antt =====
-- Each operation of src/modules/campaigns keeps the coupling of campaigns and LIVE runs.
use wa_runtime.Base.{
  ℕ, String, Bool, true, some, List, [], ◌∷◌, ◌≡◌, refl, inl, inr, arith, ltb, ==-eq, Bool-cases,
  Option-cases, subst, ◌∙◌, sym, ap, map,
}
use wa_runtime.Base.Sql.{update_where, first_row}
use wa_runtime.Base.Keys.{Distinct, Distinct-update_where}
use wa_runtime.Campaign.Tables.{
  Db, Campaign, CampaignRun, CampaignStatus, active, paused, archived, is_live_run, set_campaigns,
  campaign_ids, returning, in_status, with_status, run_id, by_run_id, is_open, is_held, is_active,
  is_paused, active_or_paused, PreflightStatus, Observed, capability_snapshot_changed,
}
use wa_runtime.Campaign.Preparation.{
  claimable, claim_row, claim_preparation, recoverable, recover_row, failed_live,
  recover_expired_preparations, owned, fail_row, fail_preparation_attempt,
}
use wa_runtime.Campaign.Lifecycle.{
  due_run, activate_row, activate_due, pausable, pause_row, pause, resumable, block_again,
  record_blocked_resume, resume, resume_row, cancel, cancel_row,
}
use wa_runtime.Campaign.Step.{campaign_id}
use wa_runtime.Campaign.Coupling.{
  AllCoupled, KeepsOwner, KeepsFit, batch-AllCoupled, runs_only-AllCoupled, first_only-returning,
  update-locked, filter-locked, first_row-id, locked,
}

-- The coupling, and the primary keys of the two tables.
pub record IsCoupled (db : Db) : Type 0 where
  pub unique : Distinct run_id db.runs
  pub unique_campaigns : Distinct campaign_id db.campaigns
  pub coupled : AllCoupled db.campaigns db.runs

pub unique-set :
    (ids : List ℕ) (from : CampaignStatus → Bool) (to : CampaignStatus) (now : ℕ)
    (cs : List Campaign)
    → Distinct campaign_id cs
    → Distinct campaign_id (set_campaigns ids from to now cs)
unique-set ids from to now cs d =
    Distinct-update_where campaign_id (in_status ids from) (with_status to now) cs (λ c. refl) d

pub unique-update :
    (p : CampaignRun → Bool) (f : CampaignRun → CampaignRun) (db : Db)
    → KeepsOwner f
    → Distinct run_id db.runs
    → Distinct run_id (update_where p f db.runs)
unique-update p f db owner d = Distinct-update_where run_id p f db.runs (λ r. (owner r).0) d

pub claim-IsCoupled :
    (id token now : ℕ) (db : Db) → IsCoupled db → IsCoupled (claim_preparation id token now db).1
unfolding claim_preparation
claim-IsCoupled id token now db h = record {
  unique =
      unique-update (claimable id now) (claim_row token now) db (λ r. (refl, refl, refl)) h.unique;
  unique_campaigns = h.unique_campaigns;
  coupled =
      runs_only-AllCoupled (claimable id now) (claim_row token now) db.runs db.campaigns
        (λ r. (refl, refl, refl)) (λ s r sel e. e) h.coupled;
}

pub recover-IsCoupled :
    (now : ℕ) (db : Db) → IsCoupled db → IsCoupled (recover_expired_preparations now db).1
unfolding recover_expired_preparations
recover-IsCoupled now db h = record {
  unique = unique-update (recoverable now) (recover_row now) db (λ r. (refl, refl, refl)) h.unique;
  unique_campaigns = unique-set _ active_or_paused archived now db.campaigns h.unique_campaigns;
  coupled =
      batch-AllCoupled (recoverable now) failed_live (recover_row now) active_or_paused archived now
        db.runs db.campaigns (λ r. (refl, refl, refl)) (λ r e. ground arith)
        (λ s r sel live e. fit s r sel live e) h.coupled;
}
  where
    fit : KeepsFit (recoverable now) failed_live (recover_row now) active_or_paused archived
    fit s r sel live e = ground arith

pub fail-IsCoupled :
    (id token : ℕ) (message : String) (now : ℕ) (db : Db)
    → IsCoupled db
    → IsCoupled (fail_preparation_attempt id token message now db).1
unfolding fail_preparation_attempt
fail-IsCoupled id token message now db h = record {
  unique =
      unique-update (owned id token now) (fail_row message now) db (λ r. (refl, refl, refl))
        h.unique;
  unique_campaigns = unique-set _ active_or_paused archived now db.campaigns h.unique_campaigns;
  coupled =
      rw
        (first_only-returning id (owned id token now) (fail_row message now) db.runs
          (λ r e. ground (arith, ==-eq r.id id)) h.unique)
        (batch-AllCoupled (owned id token now) failed_live (fail_row message now) active_or_paused
          archived now db.runs db.campaigns (λ r. (refl, refl, refl)) (λ r e. ground arith)
          (λ s r sel live e. fit s r sel live e) h.coupled);
}
  where
    fit : KeepsFit (owned id token now) failed_live (fail_row message now) active_or_paused archived
    fit s r sel live e = ground arith

pub activate-IsCoupled : (now : ℕ) (db : Db) → IsCoupled db → IsCoupled (activate_due now db).1
unfolding activate_due
activate-IsCoupled now db h = record {
  unique = unique-update (due_run now) (activate_row now) db (λ r. (refl, refl, refl)) h.unique;
  unique_campaigns = h.unique_campaigns;
  coupled =
      runs_only-AllCoupled (due_run now) (activate_row now) db.runs db.campaigns
        (λ r. (refl, refl, refl)) (λ s r sel e. ground arith) h.coupled;
}

pub pause-IsCoupled : (id now : ℕ) (db : Db) → IsCoupled db → IsCoupled (pause id now db).1
unfolding pause
pause-IsCoupled id now db h = record {
  unique =
      unique-update (pausable id) (pause_row "MANUAL_PAUSE") db (λ r. (refl, refl, refl)) h.unique;
  unique_campaigns = unique-set _ is_active paused now db.campaigns h.unique_campaigns;
  coupled =
      rw
        (first_only-returning id (pausable id) (pause_row "MANUAL_PAUSE") db.runs
          (λ r e. ground (arith, ==-eq r.id id)) h.unique)
        (batch-AllCoupled (pausable id) is_live_run (pause_row "MANUAL_PAUSE") is_active paused now
          db.runs db.campaigns (λ r. (refl, refl, refl)) (λ r e. e)
          (λ s r sel live e. fit s r sel live e) h.coupled);
}
  where
    fit : KeepsFit (pausable id) is_live_run (pause_row "MANUAL_PAUSE") is_active paused
    fit s r sel live e = ground arith

pub block_again-IsCoupled :
    (id : ℕ) (report : PreflightStatus) (db : Db)
    → IsCoupled db
    → IsCoupled (record_blocked_resume id report db)
unfolding record_blocked_resume
block_again-IsCoupled id report db h = record {
  unique = unique-update (resumable id) (block_again report) db (λ r. (refl, refl, refl)) h.unique;
  unique_campaigns = h.unique_campaigns;
  coupled =
      runs_only-AllCoupled (resumable id) (block_again report) db.runs db.campaigns
        (λ r. (refl, refl, refl)) (λ s r sel e. ground arith) h.coupled;
}

ids-moved :
    (f : CampaignRun → CampaignRun) (run : CampaignRun)
    → KeepsOwner f
    → campaign_ids is_live_run (f run ∷ []) ≡ campaign_ids is_live_run (run ∷ [])
ids-moved f run owner = ground (arith, owner run)

-- Where an UPDATE by identifier follows a SELECT … FOR UPDATE whose row passes the guard.
pub locked-AllCoupled :
    (id : ℕ) (g : CampaignRun → Bool) (f : CampaignRun → CampaignRun) (from : CampaignStatus → Bool)
    (to : CampaignStatus) (now : ℕ) (db : Db) {run : CampaignRun}
    → KeepsOwner f
    → KeepsFit (locked id g) is_live_run f from to
    → first_row (by_run_id id) db.runs ≡ some run
    → g run ≡ true
    → IsCoupled db
    → AllCoupled
        (set_campaigns (campaign_ids is_live_run (run ∷ [])) from to now db.campaigns)
        (update_where (by_run_id run.id) f db.runs)
locked-AllCoupled id g f from to now db {run} owner fit e sel h =
    subst
      (λ z.
        AllCoupled (set_campaigns z from to now db.campaigns)
          (update_where (by_run_id run.id) f db.runs))
      same_ids
      (subst
        (λ z.
          AllCoupled
            (set_campaigns (campaign_ids is_live_run (returning (locked id g) f db.runs)) from to
              now db.campaigns)
            z)
        (sym same_rows)
        (batch-AllCoupled (locked id g) is_live_run f from to now db.runs db.campaigns owner
          (λ r k. k) fit h.coupled))
  where
    same_ids :
        campaign_ids is_live_run (returning (locked id g) f db.runs)
        ≡ campaign_ids is_live_run (run ∷ [])
    same_ids =
        ap (λ z. campaign_ids is_live_run (map f z)) (filter-locked id g db.runs h.unique e sel)
        ∙ ids-moved f run owner

    same_rows : update_where (by_run_id run.id) f db.runs ≡ update_where (locked id g) f db.runs
    same_rows =
        ap (λ k. update_where (by_run_id k) f db.runs) (first_row-id id db.runs e)
        ∙ update-locked id g f db.runs h.unique e sel

held_run : CampaignRun → Bool
held_run r = is_held r.status

open_run : CampaignRun → Bool
open_run r = is_open r.status

pub cancel-IsCoupled :
    (id : ℕ) (gone : ℕ → Bool) (now : ℕ) (db : Db)
    → IsCoupled db
    → IsCoupled (cancel id gone now db).1
unfolding cancel open_run
cancel-IsCoupled id gone now db h = elim (Option-cases (first_row (by_run_id id) db.runs)) [
  | inl e ↦ rw (e, cancel) h
  | inr (run, e) ↦ elim (Bool-cases (is_open run.status)) [
    | inl ok ↦
        rw (e, cancel, ok)
          (record {
            unique =
                unique-update (by_run_id run.id) (cancel_row now) db (λ r. (refl, refl, refl))
                  h.unique;
            unique_campaigns =
                unique-set _ active_or_paused archived now db.campaigns h.unique_campaigns;
            coupled =
                locked-AllCoupled id open_run (cancel_row now) active_or_paused archived now db
                  (λ r. (refl, refl, refl)) (λ s r sel live k. fit s r sel live k) e ok h;
          })
    | inr closed ↦ rw (e, cancel, closed) h
  ]
]
  where
    fit : KeepsFit (locked id open_run) is_live_run (cancel_row now) active_or_paused archived
    fit s r sel live e = ground arith

pub resume-IsCoupled :
    (id : ℕ) (report : PreflightStatus) (observed : List Observed) (js_now now : ℕ) (db : Db)
    → IsCoupled db
    → IsCoupled (resume id report observed js_now now db).1
unfolding resume held_run
resume-IsCoupled id report observed js_now now db h =
    elim (Option-cases (first_row (by_run_id id) db.runs)) [
      | inl e ↦ rw (e, resume) h
      | inr (run, e) ↦ elim (Bool-cases (is_held run.status)) [
        | inr away ↦ rw (e, resume, away) h
        | inl ok ↦ elim (Bool-cases (capability_snapshot_changed db run.id observed)) [
          | inl stale ↦ rw (e, resume, ok, stale) h
          | inr fresh ↦
              rw (e, resume, ok, fresh)
                (record {
                  unique =
                      unique-update (by_run_id run.id)
                        (resume_row report (ltb js_now run.scheduled_at) now) db
                        (λ r. (refl, refl, refl)) h.unique;
                  unique_campaigns =
                      unique-set _ is_paused active now db.campaigns h.unique_campaigns;
                  coupled =
                      locked-AllCoupled id held_run
                        (resume_row report (ltb js_now run.scheduled_at) now) is_paused active now
                        db (λ r. (refl, refl, refl)) (λ s r sel live k. fit run s r sel live k) e ok
                        h;
                })
        ]
      ]
    ]
  where
    fit :
        (run : CampaignRun)
        → KeepsFit
            (locked id held_run)
            is_live_run
            (resume_row report (ltb js_now run.scheduled_at) now)
            is_paused
            active
    fit run s r sel live e = ground arith
