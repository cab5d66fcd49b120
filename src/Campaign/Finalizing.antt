-- ===== src/Campaign/Finalizing.antt =====
-- CampaignRunLifecycleRepository.finalize (src/modules/campaigns/campaign-run-lifecycle.repository.ts)
-- keeps campaigns and LIVE runs coupled.
use wa_runtime.Base.{
  ℕ, Bool, true, false, ◌&&◌, ◌≡◌, refl, inl, inr, arith, filter, All, All-map, Bool-cases,
  if◌then◌else◌, subst, sym, map, or_else, &&-left,
}
use wa_runtime.Base.Sql.{update_where, order_by}
use wa_runtime.Base.Keys.{
  Distinct, has_key, selected_by_key, member-keys, has_key-take, has_key-order_by,
}
use wa_runtime.Campaign.Tables.{
  Db, CampaignRun, CampaignStatus, archived, completed, partial_failed, is_live_run, is_running,
  set_campaigns, campaign_ids, returning, run_id, active_or_paused,
}
use wa_runtime.Campaign.Lifecycle.{
  finalize, finalizable, finalizable_runs, chosen, finish_row, has_failure,
}
use wa_runtime.Campaign.Coupling.{fits, AllCoupled, KeepsFit, batch-AllCoupled, update_where-agree}
use wa_runtime.Campaign.Transitions.{IsCoupled, unique-set, unique-update}

and_false : (b : Bool) → false ≡ (b && false)
and_false true = refl
and_false false = refl

-- The UPDATE of finalize reaches only runs that the common table expression yields.
finalize-selected :
    (limit : ℕ) (db : Db)
    → Distinct run_id db.runs
    → All
        (λ r.
          chosen (finalizable_runs limit db) r
          ≡ (finalizable db.deliveries r && chosen (finalizable_runs limit db) r))
        db.runs
finalize-selected limit db d =
    All-map _ _ db.runs (λ r sel. both r sel)
      (selected_by_key run_id (finalizable db.deliveries) db.runs d)
  where
    in_table :
        (r : CampaignRun)
        → chosen (finalizable_runs limit db) r ≡ true
        → has_key run_id r.id (filter (finalizable db.deliveries) db.runs) ≡ true
    in_table r h = ground (
      arith,
      member-keys run_id r.id (finalizable_runs limit db),
      has_key-take run_id r.id limit
          (order_by (λ q. or_else q.started_at 0) (filter (finalizable db.deliveries) db.runs)),
      has_key-order_by run_id r.id (λ q. or_else q.started_at 0)
          (filter (finalizable db.deliveries) db.runs),
    )

    both :
        (r : CampaignRun)
        → (has_key run_id r.id (filter (finalizable db.deliveries) db.runs) ≡ true
            → finalizable db.deliveries r ≡ true)
        → chosen (finalizable_runs limit db) r
          ≡ (finalizable db.deliveries r && chosen (finalizable_runs limit db) r)
    both r sel = elim (Bool-cases (chosen (finalizable_runs limit db) r)) [
      | inl e ↦ rw (e, sel (in_table r e))
      | inr e ↦ rw e (and_false (finalizable db.deliveries r))
    ]

abbrev narrowed : ℕ → Db → CampaignRun → Bool
narrowed limit db r = finalizable db.deliveries r && chosen (finalizable_runs limit db) r

pub finalize-IsCoupled :
    (limit now : ℕ) (db : Db) → IsCoupled db → IsCoupled (finalize limit now db).1
unfolding finalize
finalize-IsCoupled limit now db h = record {
  unique =
      unique-update (chosen (finalizable_runs limit db)) (finish_row db.deliveries now) db
        (λ r. (refl, refl, refl)) h.unique;
  unique_campaigns = unique-set _ active_or_paused archived now db.campaigns h.unique_campaigns;
  coupled =
      subst
        (λ z.
          AllCoupled
            (set_campaigns (campaign_ids is_live_run (map (finish_row db.deliveries now) z))
              active_or_paused archived now db.campaigns)
            (update_where (chosen (finalizable_runs limit db)) (finish_row db.deliveries now)
              db.runs))
        (sym agree.1)
        (subst
          (AllCoupled (
            set_campaigns
              (campaign_ids is_live_run
                (returning (narrowed limit db) (finish_row db.deliveries now) db.runs))
              active_or_paused archived now db.campaigns))
          (sym agree.0)
          (batch-AllCoupled (narrowed limit db) is_live_run (finish_row db.deliveries now)
            active_or_paused archived now db.runs db.campaigns (λ r. (refl, refl, refl)) (λ r e. e)
            (λ s r sel live e. fit s r sel live e) h.coupled));
}
  where
    agree :
        (update_where (chosen (finalizable_runs limit db)) (finish_row db.deliveries now) db.runs
          ≡ update_where (narrowed limit db) (finish_row db.deliveries now) db.runs)
        × (filter (chosen (finalizable_runs limit db)) db.runs ≡ filter (narrowed limit db) db.runs)
    agree =
        update_where-agree (chosen (finalizable_runs limit db)) (narrowed limit db)
          (finish_row db.deliveries now) db.runs (finalize-selected limit db h.unique)

    ends :
        (s : CampaignStatus) (r : CampaignRun) (failing : Bool)
        → is_running r.status ≡ true
        → fits s r.status ≡ true
        → fits
            (if true && active_or_paused s then archived else s)
            (if failing then partial_failed else completed)
          ≡ true
    ends s r failing run e = ground arith

    fit :
        KeepsFit
          (narrowed limit db)
          is_live_run
          (finish_row db.deliveries now)
          active_or_paused
          archived
    fit s r sel live e =
        rw live (ends s r (has_failure r.id db.deliveries) (&&-left _ _ (&&-left _ _ sel)) e)
