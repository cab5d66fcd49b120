-- ===== src/Campaign/Keeping.antt =====
-- What each operation of src/modules/campaigns leaves of a campaign: its place, its id and its idempotency key. A
-- tombstone keeps the row.
use wa_runtime.Base.{
  ℕ, Bool, not, any, none, List, ◌≡◌, refl, inl, inr, ◌==◌, Option, Option-cases, if_split, is_null,
  All-of,
}
use wa_runtime.Base.Sql.{
  first_row, update_where, Grows, Grows-refl, Grows-append, Grows-update_where,
}
use wa_runtime.Campaign.Tables.{
  Db, Campaign, CampaignStatus, TargetSource, set_campaigns, in_status, with_status, is_draft,
}
use wa_runtime.GroupList.Table.{
  Lists, Ranks, lock_membership_snapshot, is_valid, validate_groups, differs,
}
use wa_runtime.Campaign.Drafts.{
  DraftInput, create_draft, create_draft_on, put_targets, set_source, replace_targets, replace_on,
  replace_found, visible, TargetsResult, ApplyInput, apply_group_list_targets, apply_on,
  apply_source, apply_snapshot, DeleteInput, DeleteResult, delete_draft, delete_on, allowed_row,
  stale, deletable, open_run_of, tombstone,
}

-- What no operation changes of a campaign.
pub record SameKey (c d : Campaign) : Type 0 where
  pub id : d.id ≡ c.id
  pub key : d.create_idempotency_key ≡ c.create_idempotency_key
  pub hash : d.create_request_hash ≡ c.create_request_hash

pub SameKey-refl : (c : Campaign) → SameKey c c
SameKey-refl c = record { id = refl; key = refl; hash = refl }

pub SameKey-trans : (b c d : Campaign) → SameKey b c → SameKey c d → SameKey b d
SameKey-trans b c d h k = record { id = cc; key = cc; hash = cc }

-- Each campaign keeps its place and its key.
abbrev pub Keeps : Db → Db → Type 0
Keeps db e = Grows SameKey db.campaigns e.campaigns

pub unchanged : (db : Db) → Keeps db db
unchanged db = Grows-refl SameKey db.campaigns SameKey-refl

pub updated :
    (p : Campaign → Bool) (f : Campaign → Campaign) (cs : List Campaign)
    → ((c : Campaign) → SameKey c (f c))
    → Grows SameKey cs (update_where p f cs)
updated p f cs same = Grows-update_where SameKey p f cs SameKey-refl (All-of _ cs (λ c e. same c))

pub set-Keeps :
    (ids : List ℕ) (from : CampaignStatus → Bool) (to : CampaignStatus) (now : ℕ)
    (cs : List Campaign)
    → Grows SameKey cs (set_campaigns ids from to now cs)
set-Keeps ids from to now cs =
    updated (in_status ids from) (with_status to now) cs
      (λ c. record { id = refl; key = refl; hash = refl })

pub draft-Keeps :
    (input : DraftInput) (new_id now : ℕ) (db : Db) → Keeps db (create_draft input new_id now db).1
unfolding create_draft create_draft_on
draft-Keeps input new_id now db =
    elim (Option-cases
      (first_row (λ (c : Campaign). c.create_idempotency_key == input.key) db.campaigns)) [
        | inl e ↦ rw e (Grows-append SameKey db.campaigns _ SameKey-refl)
        | inr (c, e) ↦ rw e (unchanged db)
      ]

put_targets-Keeps :
    (c : Campaign) (ids : List ℕ) (differ changed : Bool) (source : Option TargetSource) (now : ℕ)
    (db : Db)
    → Keeps db (put_targets c ids differ changed source now db)
unfolding put_targets
put_targets-Keeps c ids differ changed source now db =
    if_split (Keeps db) changed
      (λ t.
        updated (λ x. x.id == c.id) (set_source source now) db.campaigns
          (λ d. record { id = refl; key = refl; hash = refl }))
      (λ f. unchanged db)

pub replace-Keeps :
    (ranks : Ranks) (id : ℕ) (ids : List ℕ) (expected now : ℕ) (db : Db)
    → Keeps db (replace_targets ranks id ids expected now db).1
unfolding replace_targets replace_on replace_found
replace-Keeps ranks id ids expected now db =
    elim (Option-cases (first_row (visible id) db.campaigns)) [
      | inl e ↦ rw e (unchanged db)
      | inr (c, e) ↦ rw e (
          if_split Kept (not (is_draft c.status)) (λ t. unchanged db)
            (λ a.
              if_split Kept (not (c.targets_revision == expected)) (λ t. unchanged db)
                (λ b.
                  if_split Kept (not (is_valid (validate_groups c.session_id ids db.groups)))
                    (λ t. unchanged db) (λ t. put_targets-Keeps c _ _ _ none now db))))
    ]
  where
    Kept : TargetsResult × Db → Type 0
    Kept r = Keeps db r.1

pub apply-Keeps :
    (ranks : Ranks) (input : ApplyInput) (lists : Lists) (now : ℕ) (db : Db)
    → Keeps db (apply_group_list_targets ranks input lists now db).1
unfolding apply_group_list_targets apply_on apply_source apply_snapshot
apply-Keeps ranks input lists now db =
    elim (Option-cases (first_row (visible input.campaign) db.campaigns)) [
      | inl e ↦ rw e (unchanged db)
      | inr (c, e) ↦ rw e (
          if_split Kept (not (is_draft c.status)) (λ t. unchanged db)
            (λ a.
              if_split Kept (not (c.targets_revision == input.expected_targets_revision))
                (λ t. unchanged db)
                (λ b. elim (Option-cases (lock_membership_snapshot ranks input.group_list lists)) [
                  | inl e ↦ rw e (unchanged db)
                  | inr (s, e) ↦ rw e (
                      if_split Kept (not (s.session_id == c.session_id)) (λ t. unchanged db)
                        (λ d.
                          if_split Kept
                            (differs input.expected_membership_revision s.membership_revision)
                            (λ t. unchanged db) (λ t. put_targets-Keeps c _ _ _ _ now db)))
                ])))
    ]
  where
    Kept : TargetsResult × Db → Type 0
    Kept r = Keeps db r.1

pub delete-Keeps :
    (input : DeleteInput) (now : ℕ) (db : Db) → Keeps db (delete_draft input now db).1
unfolding delete_draft delete_on
delete-Keeps input now db = elim (Option-cases (first_row (allowed_row input) db.campaigns)) [
  | inl e ↦ rw e (unchanged db)
  | inr (c, e) ↦ rw e (
      if_split Kept (not (is_null c.deleted_at)) (λ t. unchanged db)
        (λ a.
          if_split Kept (stale input c) (λ t. unchanged db)
            (λ b.
              if_split Kept (not (deletable c.status)) (λ t. unchanged db)
                (λ d.
                  if_split Kept (any (open_run_of input.campaign) db.runs) (λ t. unchanged db)
                    (λ g.
                      updated (visible input.campaign) (tombstone now) db.campaigns
                        (λ c. record { id = refl; key = refl; hash = refl }))))))
]
  where
    Kept : DeleteResult × Db → Type 0
    Kept r = Keeps db r.1
