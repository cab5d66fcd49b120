-- ===== src/Campaign/Drafting.antt =====
-- The draft operations of src/modules/campaigns/campaign.repository.ts keep the coupling of campaigns and
-- LIVE runs: they change neither the id nor the status of a campaign, and a new one is a draft.
use wa_runtime.Base.{
  ℕ, any, Bool, false, not, is_null, ◌==◌, Option, none, List, [], ◌∷◌, ◌≡◌, refl, inl, inr,
  All-append, if_split, Option-cases,
}
use wa_runtime.Base.Sql.{update_where, first_row}
use wa_runtime.Base.Keys.{has_key, Distinct-update_where, Distinct-append_one}
use wa_runtime.Campaign.Tables.{Db, Campaign, CampaignRun, CampaignTarget, TargetSource, is_draft}
use wa_runtime.Campaign.Preparation.{live_runs}
use wa_runtime.Campaign.Coupling.{Coupled, AllCoupled}
use wa_runtime.Campaign.Transitions.{IsCoupled}
use wa_runtime.Campaign.Drafts.{
  DraftInput, create_draft_on, replace_on, replace_found, apply_on, apply_source, apply_snapshot,
  delete_on, allowed_row, stale, open_run_of, Content, ApplyInput, DeleteInput, create_draft,
  update_draft, replace_targets, apply_group_list_targets, delete_draft, new_campaign, edit_row,
  set_source, tombstone, TargetsResult, DeleteResult, deletable, put_targets, visible, editable,
}
use wa_runtime.Campaign.Step.{campaign_id}
use wa_runtime.GroupList.Table.{
  Lists, Ranks, lock_membership_snapshot, is_valid, validate_groups, differs,
}

edited_rows :
    (p : Campaign → Bool) (f : Campaign → Campaign)
    → ((c : Campaign) → (f c).id ≡ c.id)
    → ((c : Campaign) → (f c).status ≡ c.status)
    → (rs : List CampaignRun) (cs : List Campaign) → AllCoupled cs rs
    → AllCoupled (update_where p f cs) rs
edited_rows p f same_id same_status rs [] h = tt
edited_rows p f same_id same_status rs (c ∷ cs) h = (
  if_split (λ (d : Campaign). Coupled d.status (live_runs d.id rs)) (p c)
      (λ t. rw (same_id c, same_status c) h.0) (λ t. h.0),
  edited_rows p f same_id same_status rs cs h.1,
)

edit-IsCoupled :
    (p : Campaign → Bool) (f : Campaign → Campaign)
    → ((c : Campaign) → (f c).id ≡ c.id)
    → ((c : Campaign) → (f c).status ≡ c.status)
    → (ts : List CampaignTarget) (db : Db) → IsCoupled db
    → IsCoupled (record db { campaigns = update_where p f db.campaigns; targets = ts })
edit-IsCoupled p f same_id same_status ts db h = record {
  unique = h.unique;
  unique_campaigns = Distinct-update_where campaign_id p f db.campaigns same_id h.unique_campaigns;
  coupled = edited_rows p f same_id same_status db.runs db.campaigns h.coupled;
}

pub create_draft-IsCoupled :
    (input : DraftInput) (new_id now : ℕ) (db : Db)
    → has_key campaign_id new_id db.campaigns ≡ false
    → live_runs new_id db.runs ≡ []
    → IsCoupled db
    → IsCoupled (create_draft input new_id now db).1
unfolding create_draft create_draft_on
create_draft-IsCoupled input new_id now db fresh none_live h =
    elim (Option-cases
      (first_row (λ (c : Campaign). c.create_idempotency_key == input.key) db.campaigns)) [
        | inl e ↦ rw e record {
          unique = h.unique;
          unique_campaigns =
              Distinct-append_one campaign_id db.campaigns (new_campaign input new_id now) fresh
                h.unique_campaigns;
          coupled =
              All-append _ db.campaigns (new_campaign input new_id now ∷ []) h.coupled
                (rw none_live (inl refl), tt);
        }
        | inr (c, e) ↦ rw e h
      ]

pub update_draft-IsCoupled :
    (id : ℕ) (x : Content) (expected now : ℕ) (db : Db)
    → IsCoupled db
    → IsCoupled (update_draft id x expected now db).1
unfolding update_draft
update_draft-IsCoupled id x expected now db h =
    edit-IsCoupled (editable id expected) (edit_row x now) (λ c. refl) (λ c. refl) db.targets db h

put_targets-IsCoupled :
    (c : Campaign) (ids : List ℕ) (differ changed : Bool) (source : Option TargetSource) (now : ℕ)
    (db : Db)
    → IsCoupled db
    → IsCoupled (put_targets c ids differ changed source now db)
unfolding put_targets
put_targets-IsCoupled c ids differ changed source now db h =
    if_split IsCoupled changed
      (λ t.
        edit-IsCoupled (λ x. x.id == c.id) (set_source source now) (λ d. refl) (λ d. refl) _ db h)
      (λ f. h)

pub replace_targets-IsCoupled :
    (ranks : Ranks) (id : ℕ) (ids : List ℕ) (expected now : ℕ) (db : Db)
    → IsCoupled db
    → IsCoupled (replace_targets ranks id ids expected now db).1
unfolding replace_targets replace_on replace_found
replace_targets-IsCoupled ranks id ids expected now db h =
    elim (Option-cases (first_row (visible id) db.campaigns)) [
      | inl e ↦ rw e h
      | inr (c, e) ↦ rw e (
          if_split Kept (not (is_draft c.status)) (λ t. h)
            (λ a.
              if_split Kept (not (c.targets_revision == expected)) (λ t. h)
                (λ b.
                  if_split Kept (not (is_valid (validate_groups c.session_id ids db.groups)))
                    (λ t. h) (λ t. put_targets-IsCoupled c _ _ _ none now db h))))
    ]
  where
    Kept : TargetsResult × Db → Type 0
    Kept r = IsCoupled r.1

pub apply_list-IsCoupled :
    (ranks : Ranks) (input : ApplyInput) (lists : Lists) (now : ℕ) (db : Db)
    → IsCoupled db
    → IsCoupled (apply_group_list_targets ranks input lists now db).1
unfolding apply_group_list_targets apply_on apply_source apply_snapshot
apply_list-IsCoupled ranks input lists now db h =
    elim (Option-cases (first_row (visible input.campaign) db.campaigns)) [
      | inl e ↦ rw e h
      | inr (c, e) ↦ rw e (
          if_split Kept (not (is_draft c.status)) (λ t. h)
            (λ a.
              if_split Kept (not (c.targets_revision == input.expected_targets_revision)) (λ t. h)
                (λ b. elim (Option-cases (lock_membership_snapshot ranks input.group_list lists)) [
                  | inl e ↦ rw e h
                  | inr (s, e) ↦ rw e (
                      if_split Kept (not (s.session_id == c.session_id)) (λ t. h)
                        (λ d.
                          if_split Kept
                            (differs input.expected_membership_revision s.membership_revision)
                            (λ t. h) (λ t. put_targets-IsCoupled c _ _ _ _ now db h)))
                ])))
    ]
  where
    Kept : TargetsResult × Db → Type 0
    Kept r = IsCoupled r.1

pub delete_draft-IsCoupled :
    (input : DeleteInput) (now : ℕ) (db : Db)
    → IsCoupled db
    → IsCoupled (delete_draft input now db).1
unfolding delete_draft delete_on
delete_draft-IsCoupled input now db h =
    elim (Option-cases (first_row (allowed_row input) db.campaigns)) [
      | inl e ↦ rw e h
      | inr (c, e) ↦ rw e (
          if_split Kept (not (is_null c.deleted_at)) (λ t. h)
            (λ a.
              if_split Kept (stale input c) (λ t. h)
                (λ b.
                  if_split Kept (not (deletable c.status)) (λ t. h)
                    (λ d.
                      if_split Kept (any (open_run_of input.campaign) db.runs) (λ t. h)
                        (λ g.
                          edit-IsCoupled (visible input.campaign) (tombstone now) (λ c. refl)
                            (λ c. refl) db.targets db h)))))
    ]
  where
    Kept : DeleteResult × Db → Type 0
    Kept r = IsCoupled r.1
