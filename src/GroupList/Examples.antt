-- ===== src/GroupList/Examples.antt =====
-- Runs of the group lists at concrete inputs.
use wa_runtime.Base.{true, ℕ, List, false, none, some, [], ◌∷◌, ◌≡◌, refl}
use wa_runtime.Base.Sql.{first_row, order_by, insert_by}
use wa_runtime.Message.Policy.{allowed}
use wa_runtime.Campaign.Tables.{GroupRow}
use wa_runtime.GroupList.Table.{
  find, GroupList, Lists, CreateInput, create, insert_items, item_ids, replace_groups,
  validate_groups, Snapshot, replaced, lock_membership_snapshot,
}
use wa_runtime.GroupList.Membership.{replace_groups-snapshot, one_order, after_replace}
use wa_runtime.Base.Answer.{then_call}
use wa_runtime.GroupList.Service.{ListEnv, list_not_found, archive_list, check_archive}
use wa_runtime.GroupList.Failing.{ListRequest, archive_request, perform, perform_list-refused}
use wa_runtime.GroupList.Revision.{here, next, members_replaced, Moved, Reach-Moved, with_id}

abbrev same_rank : ℕ → ℕ
same_rank n = n

abbrev pub group : ℕ → GroupRow
group id = record {
  session_id = 4;
  id = id;
  capability = allowed;
  revision = 1;
  invalidated = false;
}

abbrev known : List GroupRow
known = group 7 ∷ group 5 ∷ group 9 ∷ []

abbrev no_lists : Lists
no_lists = record { lists = []; items = [] }

abbrev first_list : CreateInput
first_list = record {
  session = 4;
  title = 2;
  about = none;
  group_ids = 7 ∷ 5 ∷ [];
  key = 1;
  hash = 3;
}

abbrev with_list : Lists
with_list = (create same_rank first_list 20 100 (4 ∷ []) known no_lists).1

abbrev first_row_of_list : GroupList
first_row_of_list = record {
  id = 20;
  session_id = 4;
  name = 2;
  description = none;
  create_idempotency_key = 1;
  create_request_hash = 3;
  revision = 1;
  membership_revision = 1;
  archived_at = none;
  updated_at = 100;
}

abbrev first_snapshot : Snapshot
first_snapshot = record {
  id = 20;
  name = 2;
  session_id = 4;
  revision = 1;
  membership_revision = 1;
  group_ids = 5 ∷ 7 ∷ [];
}

taken : lock_membership_snapshot (one_order same_rank) 20 with_list ≡ some first_snapshot
unfolding lock_membership_snapshot create insert_items item_ids order_by insert_by validate_groups
taken = refl

succeeds :
    (replace_groups (one_order same_rank) 20 (9 ∷ 5 ∷ []) 1 (some 1) 200 known with_list).0
    ≡ replaced
unfolding replace_groups create validate_groups insert_items
succeeds = refl

replace_groups-snapshot_example :
    lock_membership_snapshot
      (one_order same_rank)
      20
      (replace_groups (one_order same_rank) 20 (9 ∷ 5 ∷ []) 1 (some 1) 200 known with_list).1
    ≡ some (after_replace same_rank (9 ∷ 5 ∷ []) first_snapshot)
replace_groups-snapshot_example =
    replace_groups-snapshot same_rank 20 (9 ∷ 5 ∷ []) 1 (some 1) 200 known with_list first_snapshot
      taken succeeds

abbrev with_members : Lists
with_members =
    (replace_groups (one_order same_rank) 20 (9 ∷ 5 ∷ []) 1 (some 1) 200 known with_list).1

listed : first_row (with_id 20) with_list.lists ≡ some first_row_of_list
unfolding create validate_groups insert_items
listed = refl

Reach-Moved_example : (m : GroupList) × Moved with_list with_members 20 first_row_of_list m
Reach-Moved_example =
    Reach-Moved
      (next here (members_replaced (one_order same_rank) 20 (9 ∷ 5 ∷ []) 1 (some 1) 200 known)) 20
      first_row_of_list listed

abbrev elsewhere : ListEnv
elsewhere = record {
  allowed = 5 ∷ [];
  trim = same_rank;
  is_uuid = λ k. true;
  digest = λ session title about ids. title;
  fold = same_rank;
}

abbrev foreign : ListRequest
foreign = archive_request 20 none 300 with_list with_list

foreign_refused : (perform elsewhere foreign with_list).0 ≡ some list_not_found
unfolding perform archive_list then_call check_archive create validate_groups insert_items find
foreign_refused = refl

perform_list-refused_example : (perform elsewhere foreign with_list).1 ≡ with_list
perform_list-refused_example = perform_list-refused elsewhere foreign with_list foreign_refused
