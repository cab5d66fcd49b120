-- ===== src/Campaign/Audit.antt =====
-- auditLifecycle of src/modules/campaigns/campaign-run.repository.ts finds no drift: the coupling of
-- campaigns and LIVE runs is an invariant of every operation.
use wa_runtime.Base.{ℕ, Bool, false, not, ◌&&◌, List, [], ◌∷◌, ◌≡◌, refl, arith, All-map, if_split}
use wa_runtime.Base.Sql.{delete_where, row_count}
use wa_runtime.Base.Keys.{Distinct, has_key}
use wa_runtime.Campaign.Tables.{
  Db, Campaign, CampaignRun, CampaignStatus, is_draft, is_active, is_paused, is_archived, run_id,
}
use wa_runtime.Campaign.Preparation.{
  live_runs, audit_lifecycle, Drift, has_live, has_open, has_held, has_several,
}
use wa_runtime.Campaign.Delivery.{reconcile}
use wa_runtime.Campaign.Step.{
  Step, Reach, here, next, delete_campaign_runs, expirable, drafted, edited, targets_replaced,
  list_applied, campaign_deleted, launched, claimed, recovered, attempt_failed, preflighted,
  activated, finalized, paused_by_operator, blocked_again, resumed_by_operator,
  cancelled_by_operator, reconciled, materialized_some, expired,
}
use wa_runtime.Campaign.Coupling.{Coupled, AllCoupled}
use wa_runtime.Campaign.Transitions.{
  IsCoupled, claim-IsCoupled, recover-IsCoupled, fail-IsCoupled, activate-IsCoupled,
  pause-IsCoupled, block_again-IsCoupled, cancel-IsCoupled, resume-IsCoupled,
}
use wa_runtime.Campaign.Drafting.{
  create_draft-IsCoupled, update_draft-IsCoupled, replace_targets-IsCoupled, apply_list-IsCoupled,
  delete_draft-IsCoupled,
}
use wa_runtime.Campaign.Launching.{create-IsCoupled}
use wa_runtime.Campaign.Preflighting.{apply-IsCoupled}
use wa_runtime.Campaign.Finalizing.{finalize-IsCoupled}
use wa_runtime.Campaign.Materializing.{materialize-IsCoupled}

expired_row :
    (p : CampaignRun → Bool) (s : CampaignStatus) (k : ℕ) (rs : List CampaignRun)
    → live_runs k (delete_where p rs) ≡ delete_where p (live_runs k rs)
expired_row p s k [] = refl
expired_row p s k (r ∷ rs) = ground (arith, expired_row p s k rs)

-- A terminal LIVE run belongs to an ARCHIVED campaign, which may lose it.
expired-Coupled :
    (keep : CampaignRun → Bool) (s : CampaignStatus) (ls : List CampaignRun)
    → Coupled s ls
    → Coupled s (delete_where (expirable keep) ls)
expired-Coupled keep s [] c = c
expired-Coupled keep s (r ∷ []) c = ground arith
expired-Coupled keep s (r ∷ t ∷ ls) c = absurd c

has_key-delete_where :
    (k : ℕ) (p : CampaignRun → Bool) (rs : List CampaignRun)
    → has_key run_id k rs ≡ false
    → has_key run_id k (delete_where p rs) ≡ false
has_key-delete_where k p [] h = refl
has_key-delete_where k p (r ∷ rs) h = ground (arith, has_key-delete_where k p rs)

Distinct-delete_where :
    (p : CampaignRun → Bool) (rs : List CampaignRun)
    → Distinct run_id rs
    → Distinct run_id (delete_where p rs)
Distinct-delete_where p [] d = tt
Distinct-delete_where p (r ∷ rs) d =
    if_split (Distinct run_id) (p r) (λ out. Distinct-delete_where p rs d.1)
      (λ kept. (has_key-delete_where r.id p rs d.0, Distinct-delete_where p rs d.1))

pub expire-IsCoupled :
    (keep : CampaignRun → Bool) (db : Db) → IsCoupled db → IsCoupled (delete_campaign_runs keep db)
unfolding delete_campaign_runs
expire-IsCoupled keep db h = record {
  unique = Distinct-delete_where (expirable keep) db.runs h.unique;
  unique_campaigns = h.unique_campaigns;
  coupled =
      All-map _ _ db.campaigns
        (λ (c : Campaign) k.
          rw (expired_row (expirable keep) c.status c.id db.runs)
            (expired-Coupled keep c.status (live_runs c.id db.runs) k))
        h.coupled;
}

Step-IsCoupled : {d e : Db} → Step d e → IsCoupled d → IsCoupled e
unfolding reconcile
Step-IsCoupled {d} (drafted input new_id now fresh none_live) h =
    create_draft-IsCoupled input new_id now d fresh none_live h
Step-IsCoupled {d} (edited id x expected now) h = update_draft-IsCoupled id x expected now d h
Step-IsCoupled {d} (targets_replaced ranks id ids expected now) h =
    replace_targets-IsCoupled ranks id ids expected now d h
Step-IsCoupled {d} (list_applied ranks input lists now) h =
    apply_list-IsCoupled ranks input lists now d h
Step-IsCoupled {d} (campaign_deleted input now) h = delete_draft-IsCoupled input now d h
Step-IsCoupled {d} (launched input new_id js_now now fresh) h =
    create-IsCoupled input new_id js_now now d fresh h
Step-IsCoupled {d} (claimed id token now) h = claim-IsCoupled id token now d h
Step-IsCoupled {d} (recovered now) h = recover-IsCoupled now d h
Step-IsCoupled {d} (attempt_failed id token message now) h = fail-IsCoupled id token message now d h
Step-IsCoupled {d} (preflighted id token report observed js_now now) h =
    apply-IsCoupled id token report observed js_now now d h
Step-IsCoupled {d} (activated now) h = activate-IsCoupled now d h
Step-IsCoupled {d} (finalized limit now) h = finalize-IsCoupled limit now d h
Step-IsCoupled {d} (paused_by_operator id now) h = pause-IsCoupled id now d h
Step-IsCoupled {d} (blocked_again id report) h = block_again-IsCoupled id report d h
Step-IsCoupled {d} (resumed_by_operator id report observed js_now now) h =
    resume-IsCoupled id report observed js_now now d h
Step-IsCoupled {d} (cancelled_by_operator id gone now) h = cancel-IsCoupled id gone now d h
Step-IsCoupled (reconciled s) h = record {
  unique = h.unique;
  unique_campaigns = h.unique_campaigns;
  coupled = h.coupled;
}
Step-IsCoupled {d} (materialized_some sup id max_buffered s) h =
    materialize-IsCoupled sup id max_buffered d s h
Step-IsCoupled {d} (expired keep) h = expire-IsCoupled keep d h

Reach-IsCoupled : {d e : Db} → Reach d e → IsCoupled d → IsCoupled e
Reach-IsCoupled here h = h
Reach-IsCoupled (next r st) h = Step-IsCoupled st (Reach-IsCoupled r h)

no_rows :
    (p : Campaign → Bool) (rs : List CampaignRun) (cs : List Campaign)
    → ((c : Campaign) → Coupled c.status (live_runs c.id rs) → p c ≡ false)
    → AllCoupled cs rs
    → row_count p cs ≡ 0
no_rows p rs [] none_of h = refl
no_rows p rs (c ∷ cs) none_of h = ground (arith, none_of c h.0, no_rows p rs cs none_of h.1)

abbrev pub empty : Db
empty = record {
  campaigns = [];
  runs = [];
  targets = [];
  run_targets = [];
  groups = [];
  deliveries = [];
}

abbrev pub no_drift : Drift
no_drift = record {
  draft_with_live = 0;
  active_without_non_terminal_live = 0;
  paused_without_paused_or_blocked_live = 0;
  archived_with_non_terminal_live = 0;
  multiple_live = 0;
}

-- A coupled campaign is counted under none of the five headings.
no_breach :
    (s : CampaignStatus) (ls : List CampaignRun)
    → Coupled s ls
    → ((is_draft s && has_live ls) ≡ false)
      × ((is_active s && not (has_open ls)) ≡ false)
      × ((is_paused s && not (has_held ls)) ≡ false)
      × ((is_archived s && has_open ls) ≡ false)
      × (has_several ls ≡ false)
no_breach s [] c = ground arith
no_breach s (r ∷ []) c = ground arith
no_breach s (r ∷ t ∷ ls) c = absurd c

-- From empty tables, over any sequence of the operations on campaigns and runs (drafts written, edited,
-- given targets and deleted, launches, claims and failures of preparations, preflights, activations,
-- finalizations, pauses, resumptions, cancellations, materializations and retention), the lifecycle audit finds no drift: it
-- counts no campaign under any of its five headings.
pub audit-no_drift : {db : Db} → Reach empty db → audit_lifecycle db ≡ no_drift
unfolding audit_lifecycle
audit-no_drift {db} r =
    let h = Reach-IsCoupled r (record { unique = tt; unique_campaigns = tt; coupled = tt }) in
    rw (
      no_rows _ db.runs db.campaigns (λ c k. (no_breach c.status _ k).0) h.coupled,
      no_rows _ db.runs db.campaigns (λ c k. (no_breach c.status _ k).1) h.coupled,
      no_rows _ db.runs db.campaigns (λ c k. (no_breach c.status _ k).2) h.coupled,
      no_rows _ db.runs db.campaigns (λ c k. (no_breach c.status _ k).3) h.coupled,
      no_rows _ db.runs db.campaigns (λ c k. (no_breach c.status _ k).4) h.coupled,
    )
