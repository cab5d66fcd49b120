-- ===== src/Campaign/Materializing.antt =====
-- CampaignDeliveryRepository.materializePending (src/modules/campaigns/campaign-delivery.repository.ts)
-- keeps campaigns and LIVE runs coupled.
use wa_runtime.Base.{
  ℕ, Bool, true, not, ◌&&◌, some, [], ◌∷◌, ◌≡◌, refl, inl, inr, arith, Option-cases, if_split,
  subst, sym, String,
}
use wa_runtime.Base.Sql.{update_where, first_row}
use wa_runtime.Message.Repository.{Store}
use wa_runtime.Campaign.Tables.{
  Db, CampaignRun, paused, is_live_run, is_active, is_running, set_campaigns, campaign_ids,
  by_run_id,
}
use wa_runtime.Campaign.Lifecycle.{pause_row}
use wa_runtime.Campaign.Delivery.{Supply, materialize_pending, can_send, running_row}
use wa_runtime.Campaign.Coupling.{AllCoupled, KeepsFit, update-locked, first_row-id, locked}
use wa_runtime.Campaign.Transitions.{IsCoupled, unique-set, unique-update, locked-AllCoupled}

running_run : CampaignRun → Bool
running_run r = is_running r.status

pause_unsendable-IsCoupled :
    (id now : ℕ) (reason : String) (db : Db) (run : CampaignRun)
    → first_row (by_run_id id) db.runs ≡ some run
    → is_running run.status ≡ true
    → IsCoupled db
    → IsCoupled (record db {
      runs = update_where (running_row run.id) (pause_row reason) db.runs;
      campaigns =
          set_campaigns (campaign_ids is_live_run (run ∷ [])) is_active paused now db.campaigns;
    })
unfolding running_run
pause_unsendable-IsCoupled id now reason db run e run_up h = record {
  unique =
      unique-update (running_row run.id) (pause_row reason) db (λ r. (refl, refl, refl)) h.unique;
  unique_campaigns = unique-set _ is_active paused now db.campaigns h.unique_campaigns;
  coupled =
      subst
        (AllCoupled
          (set_campaigns (campaign_ids is_live_run (run ∷ [])) is_active paused now db.campaigns))
        same_rows
        (locked-AllCoupled id running_run (pause_row reason) is_active paused now db
          (λ r. (refl, refl, refl)) (λ s r sel live k. fit s r sel live k) e run_up h);
}
  where
    same_rows :
        update_where (by_run_id run.id) (pause_row reason) db.runs
        ≡ update_where (running_row run.id) (pause_row reason) db.runs
    same_rows =
        update-locked run.id running_run (pause_row reason) db.runs h.unique
          (subst (λ k. first_row (by_run_id k) db.runs ≡ some run) (sym (first_row-id id db.runs e))
            e)
          run_up

    fit : KeepsFit (locked id running_run) is_live_run (pause_row reason) is_active paused
    fit s r sel live k = ground arith

pub materialize-IsCoupled :
    (sup : Supply) (id max_buffered : ℕ) (db : Db) (s : Store)
    → IsCoupled db
    → IsCoupled (materialize_pending sup id max_buffered db s).1
unfolding materialize_pending
materialize-IsCoupled sup id max_buffered db s h =
    elim (Option-cases (first_row (by_run_id id) db.runs)) [
      | inl e ↦ rw (e, materialize_pending) h
      | inr (run, e) ↦
          rw (e, materialize_pending)
            (if_split Kept (is_running run.status)
              (λ up.
                if_split Kept (is_live_run run && not (can_send (sup.session run.session_id)))
                  (λ t. pause_unsendable-IsCoupled id sup.now "SESSION_NOT_SENDABLE" db run e up h)
                  (λ t. record {
                    unique = h.unique;
                    unique_campaigns = h.unique_campaigns;
                    coupled = h.coupled;
                  }))
              (λ t. h))
    ]
  where
    Kept : ℕ × Db × Store → Type 0
    Kept r = IsCoupled r.1
