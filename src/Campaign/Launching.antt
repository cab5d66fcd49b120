-- ===== src/Campaign/Launching.antt =====
-- CampaignRunRepository.create (src/modules/campaigns/campaign-run.repository.ts) keeps the coupling:
-- it makes the one LIVE run of a DRAFT campaign, and makes the campaign ACTIVE.
use wa_runtime.Base.{
  ℕ, Bool, true, false, not, ◌&&◌, ◌||◌, some, List, [], ◌∷◌, ◌++◌, ◌≡◌, refl, inl, inr, arith,
  ◌==◌, ==-eq, ==-refl, filter, any, All, All-map, Bool-cases, if_split, Option-cases, sym,
}
use wa_runtime.Base.Sql.{update_row, first_row}
use mathlib.Core.List.{append-nil}
use wa_runtime.Base.Keys.{Distinct, has_key, selected_by_key, Distinct-append_one}
use wa_runtime.Campaign.Tables.{
  Db, Campaign, CampaignRun, active, preparing, is_live_run, is_live, is_draft, set_campaigns,
  in_status, with_status, run_id,
}
use wa_runtime.Campaign.Launch.{
  LaunchInput, create, new_run, launchable_row, run_with_key, live_run_of, differs, due_by,
  insert_conflicts, insert_run, launch_new, LaunchResult,
}
use wa_runtime.Campaign.Preparation.{live_runs}
use wa_runtime.Campaign.Step.{campaign_id}
use wa_runtime.Campaign.Coupling.{Coupled, AllCoupled, live_runs-append, dry_run-AllCoupled}
use wa_runtime.Campaign.Transitions.{IsCoupled, unique-set}

has_key-selected :
    (p q : Campaign → Bool) (cs : List Campaign) {c : Campaign}
    → first_row q cs ≡ some c
    → p c ≡ true
    → has_key campaign_id c.id (filter p cs) ≡ true
has_key-selected p q [] e h = absurd (ground arith)
has_key-selected p q (d ∷ cs) {c} e h = elim (Bool-cases (q d)) [
  | inl sel ↦ ground (arith, ==-refl c.id)
  | inr out ↦ ground (arith, has_key-selected p q cs {c = c})
]

abbrev draft_of : ℕ → Campaign → Bool
draft_of k d = d.id == k && is_draft d.status

-- The campaign that was locked is the only one with its identifier.
only_draft :
    (q : Campaign → Bool) (cs : List Campaign) {c : Campaign}
    → Distinct campaign_id cs
    → first_row q cs ≡ some c
    → is_draft c.status ≡ true
    → All (λ (d : Campaign). d.id ≡ c.id → is_draft d.status ≡ true) cs
only_draft q cs {c} d e dr =
    All-map _ _ cs (λ x sel same. drafted x (sel (found x same)))
      (selected_by_key campaign_id (draft_of c.id) cs d)
  where
    found :
        (x : Campaign) → x.id ≡ c.id → has_key campaign_id x.id (filter (draft_of c.id) cs) ≡ true
    found x same = rw same (has_key-selected (draft_of c.id) q cs e (ground (arith, ==-refl c.id)))

    drafted : (x : Campaign) → draft_of c.id x ≡ true → is_draft x.status ≡ true
    drafted x h = ground arith

no_live : (k : ℕ) (rs : List CampaignRun) → any (live_run_of k) rs ≡ false → live_runs k rs ≡ []
no_live k [] h = refl
no_live k (r ∷ rs) h = ground (arith, no_live k rs)

-- One campaign, with the new LIVE run of the campaign k.
launch_row :
    (k now : ℕ) (r : CampaignRun) (rs : List CampaignRun) (d : Campaign)
    → is_live_run r ≡ true
    → r.status ≡ preparing
    → r.campaign_id ≡ k
    → live_runs k rs ≡ []
    → (d.id ≡ k → is_draft d.status ≡ true)
    → Coupled d.status (live_runs d.id rs)
    → let d' = update_row (in_status (k ∷ []) is_draft) (with_status active now) d in
      Coupled d'.status (live_runs d'.id (rs ++ r ∷ []))
launch_row k now r rs d live prep owner none_live only h = elim (Bool-cases (k == d.id)) [
  | inl here ↦
      let same : k ≡ d.id = ==-eq k d.id here in
      rw (here, only (sym same), live_runs-append d.id rs r, ← same, none_live)
        (rw (live, owner, ==-refl k, prep) refl)
  | inr there ↦
      rw (there, live_runs-append d.id rs r, none_here there, append-nil (live_runs d.id rs)) h
]
  where
    none_here : (k == d.id) ≡ false → live_runs d.id (r ∷ []) ≡ []
    none_here there = ground (arith, owner, ==-refl k)

launch-All :
    (k now : ℕ) (r : CampaignRun) (rs : List CampaignRun) (cs : List Campaign)
    → is_live_run r ≡ true
    → r.status ≡ preparing
    → r.campaign_id ≡ k
    → live_runs k rs ≡ []
    → All (λ (d : Campaign). d.id ≡ k → is_draft d.status ≡ true) cs
    → AllCoupled cs rs
    → AllCoupled (set_campaigns (k ∷ []) is_draft active now cs) (rs ++ r ∷ [])
launch-All k now r rs [] live prep owner none_live only h = tt
launch-All k now r rs (d ∷ cs) live prep owner none_live only h = (
  launch_row k now r rs d live prep owner none_live only.0 h.0,
  launch-All k now r rs cs live prep owner none_live only.1 h.1,
)

-- The INSERT, where the campaign is a DRAFT with no LIVE run.
insert_run-IsCoupled :
    (input : LaunchInput) (q : Campaign → Bool) (new_id js_now now : ℕ) (db : Db) {c : Campaign}
    → first_row q db.campaigns ≡ some c
    → is_draft c.status ≡ true
    → any (live_run_of c.id) db.runs ≡ false
    → has_key run_id new_id db.runs ≡ false
    → IsCoupled db
    → IsCoupled (insert_run input c new_id js_now now db)
insert_run-IsCoupled input q new_id js_now now db {c} found dr none_live fresh h =
    elim (Bool-cases (is_live input.mode)) [
      | inl live ↦ record {
        unique = runs_unique;
        unique_campaigns =
            rw live (unique-set (c.id ∷ []) is_draft active now db.campaigns h.unique_campaigns);
        coupled = rw live (
            launch-All c.id now (new_run input c new_id js_now now) db.runs db.campaigns live refl
              refl (no_live c.id db.runs none_live)
              (only_draft q db.campaigns h.unique_campaigns found dr) h.coupled);
      }
      | inr dry ↦ record {
        unique = runs_unique;
        unique_campaigns = rw dry h.unique_campaigns;
        coupled = rw dry (
            dry_run-AllCoupled (new_run input c new_id js_now now) db.runs db.campaigns dry
              h.coupled);
      }
    ]
  where
    runs_unique : Distinct run_id (db.runs ++ new_run input c new_id js_now now ∷ [])
    runs_unique =
        Distinct-append_one run_id db.runs (new_run input c new_id js_now now) fresh h.unique

pub create-IsCoupled :
    (input : LaunchInput) (new_id js_now now : ℕ) (db : Db)
    → has_key run_id new_id db.runs ≡ false
    → IsCoupled db
    → IsCoupled (create input new_id js_now now db).1
unfolding create
create-IsCoupled input new_id js_now now db fresh h =
    elim (Option-cases (first_row (launchable_row input.campaign) db.campaigns)) [
      | inl e ↦ rw (e, create) h
      | inr (c, e) ↦ elim (Option-cases (first_row (run_with_key c.id input.key) db.runs)) [
        | inr (r, again) ↦ rw (e, again, create) h
        | inl fresh_key ↦ rw (e, fresh_key, create) (guarded c e)
      ]
    ]
  where
    Kept : LaunchResult × Db → Type 0
    Kept r = IsCoupled r.1

    guarded :
        (c : Campaign)
        → first_row (launchable_row input.campaign) db.campaigns ≡ some c
        → IsCoupled (launch_new input c new_id js_now now db).1
    guarded c e =
        if_split Kept (any (live_run_of c.id) db.runs) (λ t. h)
          λ none_live.
            if_split Kept
              (differs input.expected_campaign_revision c.revision
                || differs input.expected_targets_revision c.targets_revision)
              (λ t. h)
              λ same_revisions.
                if_split Kept (not (is_draft c.status)) (λ t. h)
                  λ dr.
                    if_split Kept (is_live input.mode && c.once && due_by c.scheduled_at js_now)
                      (λ t. h)
                      λ timely.
                        if_split Kept (insert_conflicts input c db) (λ t. h)
                          λ inserted.
                            insert_run-IsCoupled input (launchable_row input.campaign) new_id js_now
                              now db e (ground arith) none_live fresh h
