-- ===== src/Campaign/RunKeeping.antt =====
-- What the operations on runs in src/modules/campaigns leave of a campaign.
use wa_runtime.Base.{ℕ, Bool, not, ◌&&◌, ◌||◌, any, List, [], ◌∷◌, inl, inr, Option-cases, if_split}
use wa_runtime.Base.Sql.{first_row, Grows}
use wa_runtime.Campaign.Tables.{
  Db, Campaign, active, by_run_id, is_draft, is_open, is_held, is_running, is_live_run, is_live,
  capability_snapshot_changed, PreflightStatus, Observed,
}
use wa_runtime.Campaign.Launch.{
  LaunchInput, LaunchResult, create, launch_on, launch_found, launch_new, launchable_row,
  run_with_key, live_run_of, due_by, insert_conflicts,
}
use wa_runtime.Campaign.Launch as Launch
use wa_runtime.Campaign.Preparation.{apply_preflight, owned, is_block, ApplyResult}
use wa_runtime.Campaign.Lifecycle.{resume, ResumeResult, cancel}
use wa_runtime.Campaign.Delivery.{Supply, materialize_pending, can_send}
use wa_runtime.Message.Repository.{Store}
use wa_runtime.Campaign.Keeping.{SameKey, Keeps, unchanged, set-Keeps}

pub preflight-Keeps :
    (id token : ℕ) (report : PreflightStatus) (observed : List Observed) (js_now now : ℕ) (db : Db)
    → Keeps db (apply_preflight id token report observed js_now now db).1
unfolding apply_preflight
preflight-Keeps id token report observed js_now now db =
    elim (Option-cases (first_row (owned id token now) db.runs)) [
      | inl e ↦ rw (e, apply_preflight) (unchanged db)
      | inr (run, e) ↦
          rw (e, apply_preflight)
            (if_split (λ (r : ApplyResult × Db). Keeps db r.1)
              (capability_snapshot_changed db run.id observed) (λ stale. unchanged db)
              (λ fresh.
                if_split (Keeps db) (is_block report) (λ b. unchanged db) (λ b. unchanged db)))
    ]

pub resume-Keeps :
    (id : ℕ) (report : PreflightStatus) (observed : List Observed) (js_now now : ℕ) (db : Db)
    → Keeps db (resume id report observed js_now now db).1
unfolding resume
resume-Keeps id report observed js_now now db =
    elim (Option-cases (first_row (by_run_id id) db.runs)) [
      | inl e ↦ rw (e, resume) (unchanged db)
      | inr (run, e) ↦
          rw (e, resume)
            (if_split Kept (not (is_held run.status)) (λ t. unchanged db)
              (λ t.
                if_split Kept (capability_snapshot_changed db run.id observed) (λ u. unchanged db)
                  (λ u. set-Keeps _ _ _ now db.campaigns)))
    ]
  where
    Kept : ResumeResult × Db → Type 0
    Kept r = Keeps db r.1

pub cancel-Keeps :
    (id : ℕ) (gone : ℕ → Bool) (now : ℕ) (db : Db) → Keeps db (cancel id gone now db).1
unfolding cancel
cancel-Keeps id gone now db = elim (Option-cases (first_row (by_run_id id) db.runs)) [
  | inl e ↦ rw (e, cancel) (unchanged db)
  | inr (run, e) ↦
      rw (e, cancel)
        (if_split (λ (r : Bool × Db). Keeps db r.1) (is_open run.status)
          (λ t. set-Keeps _ _ _ now db.campaigns) (λ t. unchanged db))
]

pub materialize-Keeps :
    (sup : Supply) (id max_buffered : ℕ) (s : Store) (db : Db)
    → Keeps db (materialize_pending sup id max_buffered db s).1
unfolding materialize_pending
materialize-Keeps sup id max_buffered s db =
    elim (Option-cases (first_row (by_run_id id) db.runs)) [
      | inl e ↦ rw (e, materialize_pending) (unchanged db)
      | inr (run, e) ↦
          rw (e, materialize_pending)
            (if_split Kept (is_running run.status)
              (λ up.
                if_split Kept (is_live_run run && not (can_send (sup.session run.session_id)))
                  (λ t. set-Keeps _ _ _ sup.now db.campaigns) (λ t. unchanged db))
              (λ t. unchanged db))
    ]
  where
    Kept : ℕ × Db × Store → Type 0
    Kept r = Keeps db r.1

pub launch-Keeps :
    (input : LaunchInput) (new_id js_now now : ℕ) (db : Db)
    → Keeps db (create input new_id js_now now db).1
unfolding create launch_on launch_found launch_new
launch-Keeps input new_id js_now now db =
    elim (Option-cases (first_row (launchable_row input.campaign) db.campaigns)) [
      | inl gone ↦ rw gone (unchanged db)
      | inr (c, found) ↦
          rw found (elim (Option-cases (first_row (run_with_key c.id input.key) db.runs)) [
            | inr (r, held) ↦ rw held (unchanged db)
            | inl fresh ↦ rw fresh (
                if_split Kept (any (live_run_of c.id) db.runs) (λ t. unchanged db)
                  (λ a.
                    if_split Kept
                      (Launch.differs input.expected_campaign_revision c.revision
                        || Launch.differs input.expected_targets_revision c.targets_revision)
                      (λ t. unchanged db)
                      (λ b.
                        if_split Kept (not (is_draft c.status)) (λ t. unchanged db)
                          (λ d.
                            if_split Kept
                              (is_live input.mode && c.once && due_by c.scheduled_at js_now)
                              (λ t. unchanged db)
                              (λ g.
                                if_split Kept (insert_conflicts input c db) (λ t. unchanged db)
                                  (λ i.
                                    if_split (λ (cs : List Campaign). Grows SameKey db.campaigns cs)
                                      (is_live input.mode)
                                      (λ t. set-Keeps (c.id ∷ []) is_draft active now db.campaigns)
                                      (λ t. unchanged db)))))))
          ])
    ]
  where
    Kept : LaunchResult × Db → Type 0
    Kept r = Keeps db r.1
