-- ===== src/Campaign/Service.antt =====
-- src/modules/campaigns/campaign.service.ts: create, update, replaceTargets, applyGroupListTargets and delete.
-- What an operation reads before it calls the repository is a table of its own, `seen`: other writers may come
-- between. Texts are tokens, and 0 is the empty string.
use wa_runtime.Base.{
  ℕ, Bool, true, false, not, ◌||◌, Option, none, some, List, [], ◌∷◌, ◌==◌, member, length, ltb,
  leb, if◌then◌else◌,
}
use wa_runtime.Base.Sql.{first_row}
use wa_runtime.Base.Answer.{Answer, ok, refused, ◌>>=◌, ◌>>◌, Done, refuse_if, then_call}
use wa_runtime.Campaign.Tables.{Db, Campaign, is_draft}
use wa_runtime.GroupList.Table.{Lists, Ranks, GroupValidation, is_empty}
use wa_runtime.Campaign.Drafts.{
  DraftInput, DraftResult, Content, ApplyInput, DeleteInput, TargetsResult, DeleteResult,
  create_draft, update_draft, replace_targets, apply_group_list_targets, delete_draft, visible,
  campaign_missing, source_missing, not_editable, revision_conflict, groups_invalid,
  source_mismatch, source_conflict, applied, not_found, already_deleted, delete_revision_conflict,
  state_conflict, run_conflict, deleted,
}

pub data CampaignError : Type 0 where
  session_forbidden idempotency_key_required idempotency_key_invalid session_not_synchronized :
      CampaignError
  schedule_required schedule_invalid schedule_in_past must_not_be_blank : CampaignError
  idempotency_conflict idempotency_key_retired : CampaignError
  campaign_not_found campaign_not_editable campaign_revision_conflict targets_revision_conflict :
      CampaignError
  target_limit_exceeded target_duplicate target_session_mismatch target_not_found : CampaignError
  target_source_not_found target_source_session_mismatch target_source_revision_conflict :
      CampaignError
  campaign_delete_state_conflict campaign_delete_run_conflict : CampaignError

-- The session allow-list, String.trim, isUUID, the ISO 8601 tests with new Date, toISOString, and the digest.
pub record Env : Type 0 where
  pub allowed : List ℕ
  pub trim : ℕ → ℕ
  pub is_uuid : ℕ → Bool
  pub parse_date : ℕ → Option ℕ
  pub print_date : ℕ → ℕ
  pub digest : ℕ → Content → ℕ

assert_allowed_session : Env → ℕ → Answer CampaignError Done
assert_allowed_session env session = refuse_if (not (member session env.allowed)) session_forbidden

non_blank : Env → ℕ → Answer CampaignError ℕ
non_blank env value = if env.trim value == 0 then refused must_not_be_blank else ok (env.trim value)

in_future : Option ℕ → ℕ → Answer CampaignError (Bool × Option ℕ)
in_future none now = refused schedule_invalid
in_future (some at) now = if leb at now then refused schedule_in_past else ok (true, some at)

resolve_schedule : Env → Bool → Option ℕ → ℕ → Answer CampaignError (Bool × Option ℕ)
unfolding in_future
resolve_schedule env false value now = ok (false, none)
resolve_schedule env true none now = refused schedule_required
resolve_schedule env true (some v) now =
    if v == 0 then refused schedule_required else in_future (env.parse_date v) now

pub record CreateDto : Type 0 where
  pub session : ℕ
  pub title : ℕ
  pub body : ℕ
  pub one_time : Bool
  pub due : Option ℕ
  pub key : Option ℕ

trimmed_key : Env → Option ℕ → ℕ
trimmed_key env none = 0
trimmed_key env (some k) = env.trim k

content : ℕ → ℕ → Bool × Option ℕ → Content
content title body schedule = record {
  title = title;
  body = body;
  one_time = schedule.0;
  due = schedule.1;
}

-- sessions are the ids of gateway_sessions, which sessionExists reads.
unfoldable pub check_create : Env → List ℕ → CreateDto → ℕ → Answer CampaignError DraftInput
unfolding assert_allowed_session trimmed_key resolve_schedule non_blank content
check_create env sessions dto now = do
  assert_allowed_session env dto.session
  refuse_if (trimmed_key env dto.key == 0) idempotency_key_required
  refuse_if (not (env.is_uuid (trimmed_key env dto.key))) idempotency_key_invalid
  refuse_if (not (member dto.session sessions)) session_not_synchronized
  schedule ← resolve_schedule env dto.one_time dto.due now
  title ← non_blank env dto.title
  body ← non_blank env dto.body
  ok record {
    session = dto.session;
    title = title;
    body = body;
    one_time = schedule.0;
    due = schedule.1;
    key = trimmed_key env dto.key;
    hash = env.digest dto.session (content title body schedule);
  }

unfoldable pub created_answer : ℕ → DraftResult → Answer CampaignError DraftResult
created_answer hash r =
    if not (r.request_hash == hash)
    then refused idempotency_conflict
    else if r.deleted
    then refused idempotency_key_retired
    else ok r

unfoldable pub create_campaign :
    Env → List ℕ → CreateDto → ℕ → ℕ → ℕ → Db → Answer CampaignError DraftResult × Db
unfolding check_create then_call created_answer
create_campaign env sessions dto new_id js_now now db =
    then_call (check_create env sessions dto js_now)
      (λ input.
        let (r, after) = create_draft input new_id now db in (created_answer input.hash r, after))
      db

visible_to : Env → Option Campaign → Answer CampaignError Campaign
visible_to env none = refused campaign_not_found
visible_to env (some c) =
    if member c.session_id env.allowed then ok c else refused campaign_not_found

unfoldable pub get : Env → ℕ → Db → Answer CampaignError Campaign
unfolding visible_to
get env id db = visible_to env (first_row (visible id) db.campaigns)

abbrev expects : Option ℕ → ℕ → Bool
expects none current = true
expects (some expected) current = expected == current

-- A field that is undefined is none; a scheduledAt that is null is some none.
pub record UpdateDto : Type 0 where
  pub title : Option ℕ
  pub body : Option ℕ
  pub one_time : Option Bool
  pub due : Option (Option ℕ)
  pub expected_revision : Option ℕ

type_or : Option Bool → Bool → Bool
type_or none current = current
type_or (some b) current = b

printed : Env → Option ℕ → Option ℕ
printed env none = none
printed env (some t) = some (env.print_date t)

date_or : Env → Option (Option ℕ) → Option ℕ → Option ℕ
unfolding printed
date_or env none current = printed env current
date_or env (some raw) current = raw

schedule_of : Env → UpdateDto → Campaign → ℕ → Answer CampaignError (Bool × Option ℕ)
unfolding resolve_schedule type_or date_or
schedule_of env dto c now =
    resolve_schedule env (type_or dto.one_time c.once) (date_or env dto.due c.scheduled_at) now

untouched : UpdateDto → Bool
untouched dto = untouched_fields dto.one_time dto.due
  where
    untouched_fields : Option Bool → Option (Option ℕ) → Bool
    untouched_fields none none = true
    untouched_fields _ _ = false

text_or : Env → Option ℕ → ℕ → Answer CampaignError ℕ
unfolding non_blank
text_or env none current = ok current
text_or env (some v) current = non_blank env v

pub record Edit : Type 0 where
  pub new_content : Content
  pub based_on : ℕ

unfoldable pub check_update : Env → ℕ → UpdateDto → ℕ → Db → Answer CampaignError Edit
unfolding get schedule_of untouched text_or content
check_update env id dto now seen = do
  c ← get env id seen
  refuse_if (not (is_draft c.status)) campaign_not_editable
  refuse_if (not (expects dto.expected_revision c.revision)) campaign_revision_conflict
  schedule ← (if untouched dto then ok (c.once, c.scheduled_at) else schedule_of env dto c now)
  title ← text_or env dto.title c.name
  body ← text_or env dto.body c.text
  ok record { new_content = content title body schedule; based_on = c.revision }

not_updated : Option Campaign → Answer CampaignError Campaign
not_updated none = refused campaign_not_editable
not_updated (some c) =
    if is_draft c.status then refused campaign_revision_conflict else refused campaign_not_editable

unfoldable pub updated_answer : ℕ → Option Campaign → Db → Answer CampaignError Campaign
unfolding not_updated
updated_answer id none later = not_updated (first_row (visible id) later.campaigns)
updated_answer id (some c) later = ok c

-- later is what the second find reads.
unfoldable pub update_campaign :
    Env → ℕ → UpdateDto → ℕ → ℕ → Db → Db → Db → Answer CampaignError Campaign × Db
unfolding check_update then_call updated_answer
update_campaign env id dto js_now now seen later db =
    then_call (check_update env id dto js_now seen)
      (λ e.
        let (c, after) = update_draft id e.new_content e.based_on now db in
        (updated_answer id c later, after))
      db

-- new Set(groupIds).size !== groupIds.length.
abbrev pub has_duplicate : List ℕ → Bool
has_duplicate [] = false
has_duplicate (x ∷ xs) = member x xs || has_duplicate xs

abbrev pub maximum : ℕ
maximum = 1000

-- The campaign whose targets may be edited, as get saw it.
unfoldable pub check_targets : Env → ℕ → Option ℕ → Db → Answer CampaignError Campaign
unfolding get
check_targets env id expected seen = do
  c ← get env id seen
  refuse_if (not (is_draft c.status)) campaign_not_editable
  refuse_if (not (expects expected c.targets_revision)) targets_revision_conflict
  ok c

unfoldable pub check_replace : Env → ℕ → List ℕ → Option ℕ → Db → Answer CampaignError Campaign
unfolding check_targets
check_replace env id ids expected seen = do
  c ← check_targets env id expected seen
  refuse_if (ltb maximum (length ids)) target_limit_exceeded
  refuse_if (has_duplicate ids) target_duplicate
  ok c

invalid_groups : GroupValidation → CampaignError
invalid_groups v = if not (is_empty v.mismatched) then target_session_mismatch else target_not_found

unfoldable pub targets_answer : Env → TargetsResult → Answer CampaignError TargetsResult
unfolding invalid_groups
targets_answer env campaign_missing = refused campaign_not_found
targets_answer env source_missing = refused target_source_not_found
targets_answer env (not_editable r) = refused campaign_not_editable
targets_answer env (revision_conflict r) = refused targets_revision_conflict
targets_answer env (groups_invalid v) = refused (invalid_groups v)
targets_answer env (source_mismatch s) =
    if member s env.allowed
    then refused target_source_session_mismatch
    else refused target_source_not_found
targets_answer env (source_conflict r) = refused target_source_revision_conflict
targets_answer env (applied r s) = ok (applied r s)

unfoldable pub replace_campaign_targets :
    Env → Ranks → ℕ → List ℕ → Option ℕ → ℕ → Db → Db → Answer CampaignError TargetsResult × Db
unfolding check_replace then_call targets_answer
replace_campaign_targets env ranks id ids expected now seen db =
    then_call (check_replace env id ids expected seen)
      (λ c.
        let (r, after) = replace_targets ranks id ids c.targets_revision now db in
        (targets_answer env r, after))
      db

unfoldable pub apply_input : ℕ → ℕ → Option ℕ → ℕ → ApplyInput
apply_input id list membership targets_revision = record {
  campaign = id;
  group_list = list;
  expected_targets_revision = targets_revision;
  expected_membership_revision = membership;
}

unfoldable pub apply_group_list :
    Env
    → Ranks
    → ℕ
    → ℕ
    → Option ℕ
    → Option ℕ
    → ℕ
    → Db
    → Lists
    → Db
    → Answer CampaignError TargetsResult × Db
unfolding check_targets then_call targets_answer apply_input
apply_group_list env ranks id list membership expected now seen lists db =
    then_call (check_targets env id expected seen)
      (λ c.
        let (r, after) =
          apply_group_list_targets ranks (apply_input id list membership c.targets_revision) lists
            now db in
        (targets_answer env r, after))
      db

unfoldable pub delete_answer : DeleteResult → Answer CampaignError Done
delete_answer not_found = refused campaign_not_found
delete_answer already_deleted = ok tt
delete_answer deleted = ok tt
delete_answer delete_revision_conflict = refused campaign_revision_conflict
delete_answer state_conflict = refused campaign_delete_state_conflict
delete_answer run_conflict = refused campaign_delete_run_conflict

unfoldable pub delete_input : Env → ℕ → ℕ → ℕ → DeleteInput
delete_input env id revision targets_revision = record {
  campaign = id;
  allowed_sessions = env.allowed;
  expected_revision = revision;
  expected_targets_revision = targets_revision;
}

unfoldable pub delete_campaign : Env → ℕ → ℕ → ℕ → ℕ → Db → Answer CampaignError Done × Db
unfolding delete_answer delete_input
delete_campaign env id revision targets_revision now db =
    let (r, after) = delete_draft (delete_input env id revision targets_revision) now db in
    (delete_answer r, after)
