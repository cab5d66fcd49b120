-- ===== src/Campaign/Refusals.antt =====
-- Errors of src/modules/campaigns/campaign.service.ts: a request that fails has written nothing.
use wa_runtime.Base.{
  ℕ, not, is_null, any, Option, some, List, ◌==◌, ◌≡◌, refl, inl, inr, arith, if_split,
  Option-cases,
}
use wa_runtime.Base.Sql.{first_row, update_where-unselected}
use wa_runtime.Base.Answer.{Answer, error_of, then_call-refused}
use wa_runtime.Campaign.Tables.{Db, Campaign, is_draft}
use wa_runtime.GroupList.Table.{
  Lists, Ranks, lock_membership_snapshot, is_valid, validate_groups, differs,
}
use wa_runtime.Campaign.Drafts.{
  DraftInput, ApplyInput, DeleteInput, TargetsResult, DeleteResult, create_draft, create_draft_on,
  update_draft, edited_row, edit_row, editable, Content, replace_targets, replace_on, replace_found,
  apply_group_list_targets, apply_on, apply_source, apply_snapshot, delete_draft, delete_on,
  allowed_row, stale, deletable, open_run_of, visible,
}
use wa_runtime.Campaign.Service.{
  CampaignError, Env, CreateDto, UpdateDto, create_campaign, created_answer, check_create,
  update_campaign, updated_answer, check_update, replace_campaign_targets, targets_answer,
  check_replace, apply_group_list, apply_input, check_targets, delete_campaign, delete_answer,
  delete_input,
}

pub data Request : Type 0 where
  create_request : (sessions : List ℕ) (dto : CreateDto) (new_id js_now now : ℕ) → Request
  update_request : (id : ℕ) (dto : UpdateDto) (js_now now : ℕ) (seen later : Db) → Request
  replace_request :
      (ranks : Ranks) (id : ℕ) (ids : List ℕ) (expected : Option ℕ) (now : ℕ) (seen : Db) → Request
  apply_request :
      (ranks : Ranks) (id list : ℕ) (membership expected : Option ℕ) (now : ℕ) (seen : Db)
      (lists : Lists)
      → Request
  delete_request : (id revision targets_revision now : ℕ) → Request

abbrev with_error {ℓ} : {A : Type ℓ} → Answer CampaignError A × Db → Option CampaignError × Db
with_error r = (error_of r.0, r.1)

unfoldable pub perform : Env → Request → Db → Option CampaignError × Db
perform env (create_request sessions dto new_id js_now now) db =
    with_error (create_campaign env sessions dto new_id js_now now db)
perform env (update_request id dto js_now now seen later) db =
    with_error (update_campaign env id dto js_now now seen later db)
perform env (replace_request ranks id ids expected now seen) db =
    with_error (replace_campaign_targets env ranks id ids expected now seen db)
perform env (apply_request ranks id list membership expected now seen lists) db =
    with_error (apply_group_list env ranks id list membership expected now seen lists db)
perform env (delete_request id revision targets_revision now) db =
    with_error (delete_campaign env id revision targets_revision now db)

module _ {e : CampaignError} where
  create-refused :
      (input : DraftInput) (new_id now : ℕ) (db : Db)
      → error_of (created_answer input.hash (create_draft input new_id now db).0) ≡ some e
      → (create_draft input new_id now db).1 ≡ db
  unfolding create_draft create_draft_on created_answer
  create-refused input new_id now db h =
      elim (Option-cases
        (first_row (λ (c : Campaign). c.create_idempotency_key == input.key) db.campaigns)) [
          | inl none_yet ↦ absurd (ground (arith, h, none_yet))
          | inr (c, found) ↦ rw found refl
        ]

  update-refused :
      (id : ℕ) (x : Content) (expected now : ℕ) (later db : Db)
      → error_of (updated_answer id (update_draft id x expected now db).0 later) ≡ some e
      → (update_draft id x expected now db).1 ≡ db
  unfolding update_draft edited_row updated_answer
  update-refused id x expected now later db h =
      elim (Option-cases (first_row (editable id expected) db.campaigns)) [
        | inl gone ↦
            rw (update_where-unselected (editable id expected) (edit_row x now) db.campaigns gone)
              refl
        | inr (c, found) ↦ absurd (ground (arith, h, found))
      ]

  replace-refused :
      (env : Env) (ranks : Ranks) (id : ℕ) (ids : List ℕ) (expected now : ℕ) (db : Db)
      → error_of (targets_answer env (replace_targets ranks id ids expected now db).0) ≡ some e
      → (replace_targets ranks id ids expected now db).1 ≡ db
  unfolding replace_targets replace_on replace_found targets_answer
  replace-refused env ranks id ids expected now db =
      elim (Option-cases (first_row (visible id) db.campaigns)) [
        | inl gone ↦ rw gone (λ h. refl)
        | inr (c, found) ↦ rw found (
            if_split Kept (not (is_draft c.status)) (λ t h. refl)
              (λ a.
                if_split Kept (not (c.targets_revision == expected)) (λ t h. refl)
                  (λ b.
                    if_split Kept (not (is_valid (validate_groups c.session_id ids db.groups)))
                      (λ t h. refl) (λ t h. absurd (ground (arith, h))))))
      ]
    where
      Kept : TargetsResult × Db → Type 0
      Kept r = error_of (targets_answer env r.0) ≡ some e → r.1 ≡ db

  apply-refused :
      (env : Env) (ranks : Ranks) (input : ApplyInput) (lists : Lists) (now : ℕ) (db : Db)
      → error_of (targets_answer env (apply_group_list_targets ranks input lists now db).0) ≡ some e
      → (apply_group_list_targets ranks input lists now db).1 ≡ db
  unfolding apply_group_list_targets apply_on apply_source apply_snapshot targets_answer
  apply-refused env ranks input lists now db =
      elim (Option-cases (first_row (visible input.campaign) db.campaigns)) [
        | inl gone ↦ rw gone (λ h. refl)
        | inr (c, found) ↦ rw found (
            if_split Kept (not (is_draft c.status)) (λ t h. refl)
              (λ a.
                if_split Kept (not (c.targets_revision == input.expected_targets_revision))
                  (λ t h. refl)
                  (λ b.
                    elim (Option-cases (lock_membership_snapshot ranks input.group_list lists)) [
                      | inl gone ↦ rw gone (λ h. refl)
                      | inr (s, held) ↦ rw held (
                          if_split Kept (not (s.session_id == c.session_id)) (λ t h. refl)
                            (λ d.
                              if_split Kept
                                (differs input.expected_membership_revision s.membership_revision)
                                (λ t h. refl) (λ t h. absurd (ground (arith, h)))))
                    ])))
      ]
    where
      Kept : TargetsResult × Db → Type 0
      Kept r = error_of (targets_answer env r.0) ≡ some e → r.1 ≡ db

  delete-refused :
      (input : DeleteInput) (now : ℕ) (db : Db)
      → error_of (delete_answer (delete_draft input now db).0) ≡ some e
      → (delete_draft input now db).1 ≡ db
  unfolding delete_draft delete_on delete_answer
  delete-refused input now db = elim (Option-cases (first_row (allowed_row input) db.campaigns)) [
    | inl gone ↦ rw gone (λ h. refl)
    | inr (c, found) ↦ rw found (
        if_split Kept (not (is_null c.deleted_at)) (λ t h. refl)
          (λ a.
            if_split Kept (stale input c) (λ t h. refl)
              (λ b.
                if_split Kept (not (deletable c.status)) (λ t h. refl)
                  (λ d.
                    if_split Kept (any (open_run_of input.campaign) db.runs) (λ t h. refl)
                      (λ g h. absurd (ground (arith, h)))))))
  ]
    where
      Kept : DeleteResult × Db → Type 0
      Kept r = error_of (delete_answer r.0) ≡ some e → r.1 ≡ db

-- A request to create, edit, retarget (from ids or from a group list) or delete a draft that fails, with
-- whatever error and at whatever point, leaves every campaign table as it was.
pub perform-refused :
    (env : Env) (q : Request) (db : Db) {e : CampaignError}
    → (perform env q db).0 ≡ some e
    → (perform env q db).1 ≡ db
unfolding perform create_campaign update_campaign replace_campaign_targets apply_group_list
    delete_campaign
perform-refused env (create_request sessions dto new_id js_now now) db h =
    then_call-refused (check_create env sessions dto js_now) _ db
      (λ input k. create-refused input new_id now db k) h
perform-refused env (update_request id dto js_now now seen later) db h =
    then_call-refused (check_update env id dto js_now seen) _ db
      (λ x k. update-refused id x.new_content x.based_on now later db k) h
perform-refused env (replace_request ranks id ids expected now seen) db h =
    then_call-refused (check_replace env id ids expected seen) _ db
      (λ c k. replace-refused env ranks id ids c.targets_revision now db k) h
perform-refused env (apply_request ranks id list membership expected now seen lists) db h =
    then_call-refused (check_targets env id expected seen) _ db
      (λ c k.
        apply-refused env ranks (apply_input id list membership c.targets_revision) lists now db k)
      h
perform-refused env (delete_request id revision targets_revision now) db h =
    delete-refused (delete_input env id revision targets_revision) now db h
