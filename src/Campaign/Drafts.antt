-- ===== src/Campaign/Drafts.antt =====
-- src/modules/campaigns/campaign.repository.ts: drafts, their targets, and the tombstone. The target rows
-- that the results repeat are left out.
use wa_runtime.Base.{
  ℕ, ◌+◌, Bool, true, false, not, ◌&&◌, ◌||◌, Option, none, some, List, [], ◌∷◌, ◌++◌, map, ◌==◌,
  is_null, filter, any, member, if◌then◌else◌,
}
use wa_runtime.Base.Sql.{update_where, first_row, order_by, delete_where}
use wa_runtime.Campaign.Tables.{
  Db, Campaign, CampaignRun, CampaignTarget, CampaignStatus, TargetSource, draft, is_draft,
  is_archived, is_open,
}
use wa_runtime.GroupList.Table.{
  Lists, Ranks, Snapshot, GroupValidation, validate_groups, is_valid, same_ids, differs,
  distinct_from, lock_membership_snapshot,
}

pub record DraftInput : Type 0 where
  pub session : ℕ
  pub title : ℕ
  pub body : ℕ
  pub one_time : Bool
  pub due : Option ℕ
  pub key : ℕ
  pub hash : ℕ

pub record DraftResult : Type 0 where
  pub campaign : Campaign
  pub created : Bool
  pub request_hash : ℕ
  pub deleted : Bool

abbrev pub new_campaign : DraftInput → ℕ → ℕ → Campaign
new_campaign input new_id now = record {
  id = new_id;
  session_id = input.session;
  name = input.title;
  text = input.body;
  once = input.one_time;
  scheduled_at = input.due;
  status = draft;
  revision = 1;
  targets_revision = 1;
  target_source = none;
  create_idempotency_key = input.key;
  create_request_hash = input.hash;
  deleted_at = none;
  updated_at = now;
}

unfoldable pub create_draft_on : Option Campaign → DraftInput → ℕ → ℕ → Db → DraftResult × Db
create_draft_on (some c) input new_id now db = (
  record {
    campaign = c;
    created = false;
    request_hash = c.create_request_hash;
    deleted = not (is_null c.deleted_at);
  },
  db,
)
create_draft_on none input new_id now db =
    let c = new_campaign input new_id now in
    (
      record { campaign = c; created = true; request_hash = input.hash; deleted = false },
      record db { campaigns = db.campaigns ++ c ∷ [] },
    )

unfoldable pub create_draft : DraftInput → ℕ → ℕ → Db → DraftResult × Db
unfolding create_draft_on
create_draft input new_id now db =
    create_draft_on (first_row (λ c. c.create_idempotency_key == input.key) db.campaigns) input
      new_id now db

pub record Content : Type 0 where
  pub title : ℕ
  pub body : ℕ
  pub one_time : Bool
  pub due : Option ℕ

abbrev pub same_flag : Bool → Bool → Bool
same_flag true b = b
same_flag false b = not b

-- (name, payload, schedule_type, scheduled_at) IS DISTINCT FROM the input.
abbrev pub content_changed : Content → Campaign → Bool
content_changed x c =
    not (c.name == x.title)
    || not (c.text == x.body)
    || not (same_flag c.once x.one_time)
    || distinct_from c.scheduled_at x.due

abbrev pub edit_row : Content → ℕ → Campaign → Campaign
edit_row x now c = record c {
  name = x.title;
  text = x.body;
  once = x.one_time;
  scheduled_at = x.due;
  revision = if content_changed x c then c.revision + 1 else c.revision;
  updated_at = if content_changed x c then now else c.updated_at;
}

abbrev pub editable : ℕ → ℕ → Campaign → Bool
editable id expected c =
    c.id == id && is_null c.deleted_at && is_draft c.status && c.revision == expected

unfoldable pub edited_row : (Campaign → Campaign) → Option Campaign → Option Campaign
edited_row f none = none
edited_row f (some c) = some (f c)

unfoldable pub update_draft : ℕ → Content → ℕ → ℕ → Db → Option Campaign × Db
unfolding edited_row
update_draft id x expected now db = (
  edited_row (edit_row x now) (first_row (editable id expected) db.campaigns),
  record db { campaigns = update_where (editable id expected) (edit_row x now) db.campaigns },
)

abbrev pub visible : ℕ → Campaign → Bool
visible id c = c.id == id && is_null c.deleted_at

abbrev pub target_of : ℕ → CampaignTarget → Bool
target_of campaign t = t.campaign_id == campaign

unfoldable pub target_ids : ℕ → List CampaignTarget → List ℕ
target_ids campaign ts = map (λ (t : CampaignTarget). t.group_id) (filter (target_of campaign) ts)

abbrev pub new_target : ℕ → ℕ → ℕ → CampaignTarget
new_target campaign session group = record {
  campaign_id = campaign;
  session_id = session;
  group_id = group;
  enabled = true;
}

-- DELETE FROM campaign_targets, then the INSERT.
unfoldable pub write_targets : ℕ → ℕ → List ℕ → List CampaignTarget → List CampaignTarget
write_targets campaign session ids ts =
    delete_where (target_of campaign) ts ++ map (new_target campaign session) ids

abbrev pub set_source : Option TargetSource → ℕ → Campaign → Campaign
set_source source now c = record c {
  targets_revision = c.targets_revision + 1;
  target_source = source;
  updated_at = now;
}

pub data TargetsResult : Type 0 where
  campaign_missing source_missing : TargetsResult
  not_editable revision_conflict : (targets_revision : ℕ) → TargetsResult
  groups_invalid : GroupValidation → TargetsResult
  source_mismatch : (session : ℕ) → TargetsResult
  source_conflict : (current : ℕ) → TargetsResult
  applied : (targets_revision : ℕ) → Option TargetSource → TargetsResult

-- What both operations write: the targets where they differ, the campaign where anything does.
unfoldable pub put_targets : Campaign → List ℕ → Bool → Bool → Option TargetSource → ℕ → Db → Db
unfolding write_targets
put_targets c ids members_differ changed source now db =
    if changed
    then record db {
      targets =
          if members_differ then write_targets c.id c.session_id ids db.targets else db.targets;
      campaigns = update_where (λ x. x.id == c.id) (set_source source now) db.campaigns;
    }
    else db

unfoldable pub replace_found : Ranks → Campaign → List ℕ → ℕ → ℕ → Db → TargetsResult × Db
unfolding put_targets target_ids
replace_found ranks c ids expected now db =
    let v = validate_groups c.session_id ids db.groups in
    let next = order_by ranks.script ids in
    let members_differ =
      not (same_ids (order_by ranks.database (target_ids c.id db.targets)) next) in
    let changed = members_differ || not (is_null c.target_source) in
    if not (is_draft c.status)
    then (not_editable c.targets_revision, db)
    else if not (c.targets_revision == expected)
    then (revision_conflict c.targets_revision, db)
    else if not (is_valid v)
    then (groups_invalid v, db)
    else (
      applied (if changed then c.targets_revision + 1 else c.targets_revision) none,
      put_targets c next members_differ changed none now db,
    )

unfoldable pub replace_on : Ranks → Option Campaign → List ℕ → ℕ → ℕ → Db → TargetsResult × Db
unfolding replace_found
replace_on ranks none ids expected now db = (campaign_missing, db)
replace_on ranks (some c) ids expected now db = replace_found ranks c ids expected now db

unfoldable pub replace_targets : Ranks → ℕ → List ℕ → ℕ → ℕ → Db → TargetsResult × Db
unfolding replace_on
replace_targets ranks id ids expected now db =
    replace_on ranks (first_row (visible id) db.campaigns) ids expected now db

pub record ApplyInput : Type 0 where
  pub campaign : ℕ
  pub group_list : ℕ
  pub expected_targets_revision : ℕ
  pub expected_membership_revision : Option ℕ

-- The campaign does not yet have its targets from this list at this membership revision.
unfoldable pub source_differs : Option TargetSource → Snapshot → Bool
source_differs none s = true
source_differs (some t) s =
    not (t.group_list_id == s.id) || not (t.membership_revision == s.membership_revision)

unfoldable pub source_time : Option TargetSource → Bool → ℕ → ℕ
source_time none changed now = now
source_time (some t) changed now = if changed then now else t.applied_at

unfoldable pub source_of : Snapshot → ℕ → TargetSource
source_of s at = record {
  group_list_id = s.id;
  group_list_name = s.name;
  membership_revision = s.membership_revision;
  applied_at = at;
}

unfoldable pub apply_snapshot :
    Ranks → Campaign → ApplyInput → Snapshot → ℕ → Db → TargetsResult × Db
unfolding put_targets target_ids source_differs source_time source_of
apply_snapshot ranks c input s now db =
    let members_differ =
      not (same_ids (order_by ranks.database (target_ids c.id db.targets)) s.group_ids) in
    let changed = members_differ || source_differs c.target_source s in
    if not (s.session_id == c.session_id)
    then (source_mismatch s.session_id, db)
    else if differs input.expected_membership_revision s.membership_revision
    then (source_conflict s.membership_revision, db)
    else (
      applied (if changed then c.targets_revision + 1 else c.targets_revision)
          (some (source_of s (source_time c.target_source changed now))),
      put_targets c s.group_ids members_differ changed (some (source_of s now)) now db,
    )

unfoldable pub apply_source :
    Ranks → Campaign → ApplyInput → Option Snapshot → ℕ → Db → TargetsResult × Db
unfolding apply_snapshot
apply_source ranks c input none now db = (source_missing, db)
apply_source ranks c input (some s) now db = apply_snapshot ranks c input s now db

unfoldable pub apply_on : Ranks → Option Campaign → ApplyInput → Lists → ℕ → Db → TargetsResult × Db
unfolding apply_source
apply_on ranks none input lists now db = (campaign_missing, db)
apply_on ranks (some c) input lists now db =
    if not (is_draft c.status)
    then (not_editable c.targets_revision, db)
    else if not (c.targets_revision == input.expected_targets_revision)
    then (revision_conflict c.targets_revision, db)
    else apply_source ranks c input (lock_membership_snapshot ranks input.group_list lists) now db

unfoldable pub apply_group_list_targets : Ranks → ApplyInput → Lists → ℕ → Db → TargetsResult × Db
unfolding apply_on
apply_group_list_targets ranks input lists now db =
    apply_on ranks (first_row (visible input.campaign) db.campaigns) input lists now db

pub record DeleteInput : Type 0 where
  pub campaign : ℕ
  pub allowed_sessions : List ℕ
  pub expected_revision : ℕ
  pub expected_targets_revision : ℕ

pub data DeleteResult : Type 0 where
  not_found already_deleted delete_revision_conflict state_conflict run_conflict deleted :
      DeleteResult

abbrev pub deletable : CampaignStatus → Bool
deletable s = is_draft s || is_archived s

abbrev pub open_run_of : ℕ → CampaignRun → Bool
open_run_of campaign r = r.campaign_id == campaign && is_open r.status

abbrev pub tombstone : ℕ → Campaign → Campaign
tombstone now c = record c { deleted_at = some now; revision = c.revision + 1; updated_at = now }

abbrev pub stale : DeleteInput → Campaign → Bool
stale input c =
    not (c.revision == input.expected_revision)
    || not (c.targets_revision == input.expected_targets_revision)

unfoldable pub delete_on : Option Campaign → DeleteInput → ℕ → Db → DeleteResult × Db
delete_on none input now db = (not_found, db)
delete_on (some c) input now db =
    if not (is_null c.deleted_at)
    then (already_deleted, db)
    else if stale input c
    then (delete_revision_conflict, db)
    else if not (deletable c.status)
    then (state_conflict, db)
    else if any (open_run_of input.campaign) db.runs
    then (run_conflict, db)
    else (
      deleted,
      record db { campaigns = update_where (visible input.campaign) (tombstone now) db.campaigns },
    )

abbrev pub allowed_row : DeleteInput → Campaign → Bool
allowed_row input c = c.id == input.campaign && member c.session_id input.allowed_sessions

unfoldable pub delete_draft : DeleteInput → ℕ → Db → DeleteResult × Db
unfolding delete_on
delete_draft input now db = delete_on (first_row (allowed_row input) db.campaigns) input now db
