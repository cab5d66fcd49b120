-- ===== src/Campaign/DraftExamples.antt =====
-- Runs of the campaign drafts at concrete inputs.
use wa_runtime.Base.{not, is_null, ◌==◌, ℕ, List, false, true, none, some, [], ◌∷◌, ◌≡◌, refl}
use wa_runtime.Base.Sql.{first_row, order_by, insert_by}
use wa_runtime.Message.Policy.{allowed}
use wa_runtime.Campaign.Tables.{Db, GroupRow, TargetSource}
use wa_runtime.GroupList.Table.{
  Lists, CreateInput, create, insert_items, item_ids, replace_groups, write_members,
  validate_groups, Snapshot, replaced, lock_membership_snapshot,
}
use wa_runtime.GroupList.Membership.{one_order}
use wa_runtime.Base.Answer.{then_call}
use wa_runtime.Campaign.Audit.{empty}
use wa_runtime.Campaign.Drafts.{
  DraftInput, DeleteInput, ApplyInput, applied, deleted, create_draft, create_draft_on,
  replace_targets, replace_on, replace_found, target_ids, apply_group_list_targets, apply_on,
  apply_source, apply_snapshot, source_differs, source_of, source_time, delete_draft, delete_on,
}
use wa_runtime.Campaign.Targets.{Retargeted, replace_targets-Retargeted, replace_groups-apply_list}
use wa_runtime.Campaign.Deleting.{Deleted, delete_draft-Deleted}
use wa_runtime.Campaign.Keyed.{create_draft-once}
use wa_runtime.Campaign.Step.{Reach, here, next, campaign_deleted}
use wa_runtime.Campaign.Service.{
  Env, campaign_not_found, get, check_targets, check_replace, replace_campaign_targets,
}
use wa_runtime.Campaign.Refusals.{Request, replace_request, perform, perform-refused}
use wa_runtime.Campaign.Tables.{Campaign}

abbrev same_rank : ℕ → ℕ
same_rank n = n

abbrev group : ℕ → GroupRow
group id = record {
  session_id = 4;
  id = id;
  capability = allowed;
  revision = 1;
  invalidated = false;
}

abbrev groups_known : List GroupRow
groups_known = group 7 ∷ group 5 ∷ group 9 ∷ []

abbrev first_draft : DraftInput
first_draft = record {
  session = 4;
  title = 8;
  body = 6;
  one_time = false;
  due = none;
  key = 3;
  hash = 4;
}

abbrev other_draft : DraftInput
other_draft = record {
  session = 4;
  title = 9;
  body = 6;
  one_time = false;
  due = none;
  key = 3;
  hash = 5;
}

abbrev drafted_db : Db
drafted_db = (create_draft first_draft 1 0 (record empty { groups = groups_known })).1

replaces : (replace_targets (one_order same_rank) 1 (9 ∷ 5 ∷ []) 1 20 drafted_db).0 ≡ applied 2 none
unfolding replace_targets create_draft create_draft_on replace_on replace_found validate_groups
    target_ids order_by insert_by
replaces = refl

replace_targets-Retargeted_example :
    Retargeted same_rank 1
      (order_by same_rank (9 ∷ 5 ∷ []))
      drafted_db
      (replace_targets (one_order same_rank) 1 (9 ∷ 5 ∷ []) 1 20 drafted_db).1
replace_targets-Retargeted_example =
    replace_targets-Retargeted same_rank 1 (9 ∷ 5 ∷ []) 1 20 drafted_db replaces

abbrev first_list : CreateInput
first_list = record {
  session = 4;
  title = 2;
  about = none;
  group_ids = 7 ∷ 5 ∷ [];
  key = 1;
  hash = 3;
}

abbrev with_list : Lists
with_list =
    (create same_rank first_list 20 100 (4 ∷ []) groups_known (record { lists = []; items = [] })).1

abbrev first_snapshot : Snapshot
first_snapshot = record {
  id = 20;
  name = 2;
  session_id = 4;
  revision = 1;
  membership_revision = 1;
  group_ids = 5 ∷ 7 ∷ [];
}

taken : lock_membership_snapshot (one_order same_rank) 20 with_list ≡ some first_snapshot
unfolding lock_membership_snapshot create insert_items item_ids order_by insert_by validate_groups
taken = refl

list_replaced :
    (replace_groups (one_order same_rank) 20 (9 ∷ 5 ∷ []) 1 (some 1) 200 groups_known with_list).0
    ≡ replaced
unfolding replace_groups create validate_groups insert_items
list_replaced = refl

abbrev new_list : Lists
new_list =
    (replace_groups (one_order same_rank) 20 (9 ∷ 5 ∷ []) 1 (some 1) 200 groups_known with_list).1

abbrev apply_it : ApplyInput
apply_it = record {
  campaign = 1;
  group_list = 20;
  expected_targets_revision = 1;
  expected_membership_revision = some 2;
}

abbrev from_list : TargetSource
from_list = record {
  group_list_id = 20;
  group_list_name = 2;
  membership_revision = 2;
  applied_at = 300;
}

list_applied :
    (apply_group_list_targets (one_order same_rank) apply_it new_list 300 drafted_db).0
    ≡ applied 2 (some from_list)
unfolding apply_group_list_targets apply_on apply_source apply_snapshot lock_membership_snapshot
    replace_groups write_members create create_draft create_draft_on validate_groups insert_items
    item_ids target_ids order_by insert_by source_differs source_of source_time
list_applied = refl

replace_groups-apply_list_example :
    Retargeted same_rank 1
      (order_by same_rank (9 ∷ 5 ∷ []))
      drafted_db
      (apply_group_list_targets (one_order same_rank) apply_it new_list 300 drafted_db).1
replace_groups-apply_list_example =
    replace_groups-apply_list same_rank 20 (9 ∷ 5 ∷ []) 1 (some 1) 200 groups_known with_list
      first_snapshot apply_it 300 drafted_db taken refl list_replaced list_applied

abbrev drop_it : DeleteInput
drop_it = record {
  campaign = 1;
  allowed_sessions = 4 ∷ [];
  expected_revision = 1;
  expected_targets_revision = 1;
}

drops : (delete_draft drop_it 400 drafted_db).0 ≡ deleted
unfolding delete_draft delete_on create_draft create_draft_on
drops = refl

delete_draft-Deleted_example :
    (c : Campaign) × Deleted drop_it drafted_db (delete_draft drop_it 400 drafted_db).1 c
delete_draft-Deleted_example = delete_draft-Deleted drop_it 400 drafted_db drops

abbrev dropped : Db
dropped = (delete_draft drop_it 400 (create_draft first_draft 1 0 empty).1).1

drop : Reach (create_draft first_draft 1 0 empty).1 dropped
drop = next here (campaign_deleted drop_it 400)

create_draft-once_example :
    let r = (create_draft first_draft 1 0 empty).0 in
    let (again, last) = create_draft other_draft 2 500 dropped in
    (last ≡ dropped)
    × (again.created ≡ false)
    × (again.campaign.id ≡ r.campaign.id)
    × (again.request_hash ≡ r.campaign.create_request_hash)
    × (again.deleted ≡ not (is_null again.campaign.deleted_at))
    × (first_row (λ c. c.create_idempotency_key == 3) dropped.campaigns ≡ some again.campaign)
create_draft-once_example = create_draft-once first_draft other_draft 1 0 2 500 empty drop refl

abbrev elsewhere : Env
elsewhere = record {
  allowed = 5 ∷ [];
  trim = same_rank;
  is_uuid = λ k. true;
  parse_date = λ d. some d;
  print_date = same_rank;
  digest = λ session x. x.title;
}

abbrev foreign : Request
foreign = replace_request (one_order same_rank) 1 (9 ∷ []) none 500 drafted_db

foreign_refused : (perform elsewhere foreign drafted_db).0 ≡ some campaign_not_found
unfolding perform replace_campaign_targets then_call check_replace check_targets get create_draft
    create_draft_on
foreign_refused = refl

perform-refused_example : (perform elsewhere foreign drafted_db).1 ≡ drafted_db
perform-refused_example = perform-refused elsewhere foreign drafted_db foreign_refused
