-- ===== src/Campaign/RunRefusals.antt =====
-- Errors of src/modules/campaigns/campaign-run.service.ts.
use wa_runtime.Base.{
  ℕ, Bool, not, ◌&&◌, ◌||◌, any, Option, some, List, [], ◌∷◌, ◌≡◌, refl, inl, inr, arith, if_split,
  Option-cases, filter, ap,
}
use wa_runtime.Base.Sql.{first_row, update_where}
use wa_runtime.Base.Answer.{Answer, error_of, then_call-refused}
use wa_runtime.Campaign.Tables.{
  Db, Campaign, CampaignRun, by_run_id, is_open, is_underway, is_active, paused, is_draft, is_live,
  set_campaigns, CampaignStatus,
}
use wa_runtime.Campaign.Launch.{
  LaunchInput, LaunchResult, create, launch_on, launch_found, launch_new, replay_on, launchable_row,
  run_with_key, live_run_of, differs, due_by, insert_conflicts,
}
use wa_runtime.Campaign.Lifecycle.{pause, cancel, cancel_locked, pausable, pause_row}
use wa_runtime.Campaign.RunService.{
  RunError, CreateRun, check_run, launch_answer, create_run, check_status, pause_answer, pause_run,
  cancel_answer, cancel_run_of,
}
use wa_runtime.Campaign.Service.{Env}

pub data RunRequest : Type 0 where
  create_request : (dto : CreateRun) (new_id js_now now : ℕ) (seen : Db) → RunRequest
  pause_request : (id now : ℕ) (seen : Db) → RunRequest
  cancel_request : (id : ℕ) (gone : ℕ → Bool) (now : ℕ) (seen : Db) → RunRequest

abbrev with_error {ℓ} : {A : Type ℓ} → Answer RunError A × Db → Option RunError × Db
with_error r = (error_of r.0, r.1)

unfoldable pub perform : Env → (ℕ → ℕ) → RunRequest → Db → Option RunError × Db
perform env text_length (create_request dto new_id js_now now seen) db =
    with_error (create_run env text_length dto new_id js_now now seen db)
perform env text_length (pause_request id now seen) db = with_error (pause_run env id now seen db)
perform env text_length (cancel_request id gone now seen) db =
    with_error (cancel_run_of env id gone now seen db)

set_campaigns-none :
    (from : CampaignStatus → Bool) (to : CampaignStatus) (now : ℕ) (cs : List Campaign)
    → set_campaigns [] from to now cs ≡ cs
set_campaigns-none from to now [] = refl
set_campaigns-none from to now (c ∷ cs) = ap (λ rest. c ∷ rest) (set_campaigns-none from to now cs)

update_where-filtered :
    (p : CampaignRun → Bool) (f : CampaignRun → CampaignRun) (rs : List CampaignRun)
    → filter p rs ≡ []
    → update_where p f rs ≡ rs
update_where-filtered p f [] h = refl
update_where-filtered p f (r ∷ rs) h = ground (arith, update_where-filtered p f rs)

module _ {e : RunError} where
  launch-refused :
      (input : LaunchInput) (new_id js_now now : ℕ) (db : Db)
      → error_of (launch_answer (create input new_id js_now now db).0) ≡ some e
      → (create input new_id js_now now db).1 ≡ db
  unfolding create launch_on launch_found launch_new replay_on launch_answer
  launch-refused input new_id js_now now db =
      elim (Option-cases (first_row (launchable_row input.campaign) db.campaigns)) [
        | inl gone ↦ rw gone (λ h. refl)
        | inr (c, found) ↦
            rw found (elim (Option-cases (first_row (run_with_key c.id input.key) db.runs)) [
              | inr (r, held) ↦ rw held (λ h. refl)
              | inl fresh ↦ rw fresh (
                  if_split Kept (any (live_run_of c.id) db.runs) (λ t h. refl)
                    (λ a.
                      if_split Kept
                        (differs input.expected_campaign_revision c.revision
                          || differs input.expected_targets_revision c.targets_revision)
                        (λ t h. refl)
                        (λ b.
                          if_split Kept (not (is_draft c.status)) (λ t h. refl)
                            (λ d.
                              if_split Kept
                                (is_live input.mode && c.once && due_by c.scheduled_at js_now)
                                (λ t h. refl)
                                (λ g.
                                  if_split Kept (insert_conflicts input c db) (λ t h. refl)
                                    (λ i h. absurd (ground (arith, h))))))))
            ])
      ]
    where
      Kept : LaunchResult × Db → Type 0
      Kept r = error_of (launch_answer r.0) ≡ some e → r.1 ≡ db

  cancel-refused :
      (id : ℕ) (gone : ℕ → Bool) (now : ℕ) (db : Db)
      → error_of (cancel_answer (cancel id gone now db).0) ≡ some e
      → (cancel id gone now db).1 ≡ db
  unfolding cancel cancel_locked cancel_answer
  cancel-refused id gone now db = elim (Option-cases (first_row (by_run_id id) db.runs)) [
    | inl missing ↦ rw missing (λ h. refl)
    | inr (r, found) ↦
        rw found
          (if_split Kept (is_open r.status) (λ t h. absurd (ground (arith, h))) (λ f h. refl))
  ]
    where
      Kept : Bool × Db → Type 0
      Kept r = error_of (cancel_answer r.0) ≡ some e → r.1 ≡ db

  pause-refused :
      (id now : ℕ) (db : Db)
      → error_of (pause_answer (pause id now db).0) ≡ some e
      → (pause id now db).1 ≡ db
  unfolding pause pause_answer
  pause-refused id now db = by_rows (filter (pausable id) db.runs) refl
    where
      by_rows :
          (rows : List CampaignRun)
          → filter (pausable id) db.runs ≡ rows
          → error_of (pause_answer (pause id now db).0) ≡ some e
          → (pause id now db).1 ≡ db
      by_rows [] held h = rw held (
          rw (update_where-filtered (pausable id) (pause_row "MANUAL_PAUSE") db.runs held) (
            ap (λ cs. record db { campaigns = cs })
              (set_campaigns-none is_active paused now db.campaigns)))
      by_rows (r ∷ rs) held h = absurd (ground (arith, h, held))

-- A request to launch, pause or cancel a run that fails, with whatever error and at whatever point, leaves every
-- campaign table as it was.
pub perform-kept :
    (env : Env) (text_length : ℕ → ℕ) (q : RunRequest) (db : Db) {e : RunError}
    → (perform env text_length q db).0 ≡ some e
    → (perform env text_length q db).1 ≡ db
unfolding perform create_run pause_run cancel_run_of
perform-kept env text_length (create_request dto new_id js_now now seen) db h =
    then_call-refused (check_run env text_length dto seen) _ db
      (λ input k. launch-refused input new_id js_now now db k) h
perform-kept env text_length (pause_request id now seen) db h =
    then_call-refused (check_status env is_underway id seen) _ db (λ u k. pause-refused id now db k)
      h
perform-kept env text_length (cancel_request id gone now seen) db h =
    then_call-refused (check_status env is_open id seen) _ db
      (λ u k. cancel-refused id gone now db k) h
