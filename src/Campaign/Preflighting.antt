-- ===== src/Campaign/Preflighting.antt =====
-- CampaignRunRepository.applyPreflight (src/modules/campaigns/campaign-run.repository.ts) keeps campaigns
-- and LIVE runs coupled.
use wa_runtime.Base.{
  ℕ, Bool, true, some, List, ◌≡◌, refl, inl, inr, arith, ==-eq, Option-cases, if_split, subst, ap,
  ◌∙◌, sym,
}
use wa_runtime.Base.Sql.{update_where, first_row, first_row-selected}
use wa_runtime.Campaign.Tables.{
  Db, CampaignRun, CampaignStatus, is_preparing, by_run_id, PreflightStatus, Observed,
  capability_snapshot_changed,
}
use wa_runtime.Campaign.Preparation.{
  apply_preflight, owned, stale_owner, requeue_row, block_row, start_row, is_block, ApplyResult,
}
use wa_runtime.Campaign.Coupling.{
  fits, AllCoupled, KeepsOwner, runs_only-AllCoupled, update-locked, first_row-id, first_row-narrow,
  locked,
}
use wa_runtime.Campaign.Transitions.{IsCoupled, unique-update}

preparing_run : CampaignRun → Bool
preparing_run r = is_preparing r.status

-- An UPDATE by identifier of the run that was locked as PREPARING.
update_prepared :
    (id : ℕ) (f : CampaignRun → CampaignRun) (db : Db) (run : CampaignRun)
    → KeepsOwner f
    → ((s : CampaignStatus) (r : CampaignRun)
        → locked id preparing_run r ≡ true
        → fits s r.status ≡ true
        → fits s (f r).status ≡ true)
    → first_row (by_run_id id) db.runs ≡ some run
    → preparing_run run ≡ true
    → IsCoupled db
    → IsCoupled (record db { runs = update_where (by_run_id run.id) f db.runs })
update_prepared id f db run owner fit e prep h = record {
  unique = unique-update (by_run_id run.id) f db owner h.unique;
  unique_campaigns = h.unique_campaigns;
  coupled =
      subst (AllCoupled db.campaigns) (sym same_rows)
        (runs_only-AllCoupled (locked id preparing_run) f db.runs db.campaigns owner fit h.coupled);
}
  where
    same_rows :
        update_where (by_run_id run.id) f db.runs ≡ update_where (locked id preparing_run) f db.runs
    same_rows =
        ap (λ k. update_where (by_run_id k) f db.runs) (first_row-id id db.runs e)
        ∙ update-locked id preparing_run f db.runs h.unique e prep

pub apply-IsCoupled :
    (id token : ℕ) (report : PreflightStatus) (observed : List Observed) (js_now now : ℕ) (db : Db)
    → IsCoupled db
    → IsCoupled (apply_preflight id token report observed js_now now db).1
unfolding apply_preflight preparing_run
apply-IsCoupled id token report observed js_now now db h =
    elim (Option-cases (first_row (owned id token now) db.runs)) [
      | inl e ↦ rw (e, apply_preflight) h
      | inr (run, e) ↦
          rw (e, apply_preflight)
            (if_split Kept (capability_snapshot_changed db run.id observed)
              (λ stale. given_back run)
              (λ fresh.
                if_split IsCoupled (is_block report)
                  (λ b. by_id run e (block_row report) (λ r. (refl, refl, refl)) blocked_fit)
                  (λ b. record {
                    unique =
                        (by_id run e (start_row report _ now) (λ r. (refl, refl, refl))
                          (started_fit _)).unique;
                    unique_campaigns = h.unique_campaigns;
                    coupled =
                        (by_id run e (start_row report _ now) (λ r. (refl, refl, refl))
                          (started_fit _)).coupled;
                  })))
    ]
  where
    Kept : ApplyResult × Db → Type 0
    Kept r = IsCoupled r.1

    given_back :
        (run : CampaignRun)
        → IsCoupled
            (record db { runs = update_where (stale_owner run.id token) (requeue_row now) db.runs })
    given_back run = record {
      unique =
          unique-update (stale_owner run.id token) (requeue_row now) db (λ r. (refl, refl, refl))
            h.unique;
      unique_campaigns = h.unique_campaigns;
      coupled =
          runs_only-AllCoupled (stale_owner run.id token) (requeue_row now) db.runs db.campaigns
            (λ r. (refl, refl, refl)) (λ s r sel k. k) h.coupled;
    }

    owned-id : (r : CampaignRun) → owned id token now r ≡ true → r.id ≡ id
    owned-id r k = ==-eq r.id id (ground arith)

    owned-preparing : (r : CampaignRun) → owned id token now r ≡ true → is_preparing r.status ≡ true
    owned-preparing r k = ground arith

    by_id :
        (run : CampaignRun)
        → first_row (owned id token now) db.runs ≡ some run
        → (f : CampaignRun → CampaignRun) → KeepsOwner f
        → ((s : CampaignStatus) (r : CampaignRun)
            → locked id preparing_run r ≡ true
            → fits s r.status ≡ true
            → fits s (f r).status ≡ true)
        → IsCoupled (record db { runs = update_where (by_run_id run.id) f db.runs })
    by_id run e f owner fit =
        update_prepared id f db run owner fit
          (first_row-narrow id (owned id token now) db.runs owned-id h.unique e)
          (owned-preparing run (first_row-selected (owned id token now) db.runs e)) h

    blocked_fit :
        (s : CampaignStatus) (r : CampaignRun)
        → locked id preparing_run r ≡ true
        → fits s r.status ≡ true
        → fits s (block_row report r).status ≡ true
    blocked_fit s r sel k = ground arith

    started_fit :
        (b : Bool) (s : CampaignStatus) (r : CampaignRun)
        → locked id preparing_run r ≡ true
        → fits s r.status ≡ true
        → fits s (start_row report b now r).status ≡ true
    started_fit b s r sel k = ground arith
