-- ===== src/GroupList/Service.antt =====
-- src/modules/group-lists/group-list.service.ts: create, update, archive and replaceGroups, with
-- src/modules/gateway/session-scope.service.ts. What an operation reads before and after its call of the
-- repository are tables of their own, seen and later. Texts are tokens, and 0 is the empty string.
use wa_runtime.Base.{
  ℕ, Bool, true, false, not, Option, none, some, List, [], ◌∷◌, ◌==◌, is_null, member, length, ltb,
  ◌||◌, if◌then◌else◌,
}
use wa_runtime.Base.Sql.{order_by}
use wa_runtime.Base.Answer.{Answer, ok, refused, ◌>>=◌, ◌>>◌, Done, refuse_if, then_call}
use wa_runtime.Campaign.Tables.{GroupRow}
use wa_runtime.GroupList.Table.{
  GroupList, Lists, Ranks, CreateInput, CreateResult, create, replayed, session_missing,
  create_name_taken, created, UpdateResult, update, not_updated, update_name_taken, updated,
  archive, ReplaceResult, replace_groups, not_found, revision_conflict, invalid, replaced,
  GroupValidation, is_empty, find,
}
use wa_runtime.GroupList.Table

pub data GroupListError : Type 0 where
  session_forbidden idempotency_key_required idempotency_key_invalid list_session_not_found :
      GroupListError
  group_limit_exceeded group_duplicate group_session_mismatch group_not_found name_invalid
        name_conflict :
      GroupListError
  list_idempotency_conflict list_idempotency_key_retired list_not_found list_archived
        list_revision_conflict :
      GroupListError

-- The session allow-list, String.trim, isUUID, the digest of a request, and toLowerCase of the unique index.
pub record ListEnv : Type 0 where
  pub allowed : List ℕ
  pub trim : ℕ → ℕ
  pub is_uuid : ℕ → Bool
  pub digest : ℕ → ℕ → Option ℕ → List ℕ → ℕ
  pub fold : ℕ → ℕ

abbrev pub is_allowed : ListEnv → ℕ → Bool
is_allowed env session = member session env.allowed

has_duplicate : List ℕ → Bool
has_duplicate [] = false
has_duplicate (x ∷ xs) = member x xs || has_duplicate xs

validate_group_ids : List ℕ → Answer GroupListError Done
unfolding has_duplicate
validate_group_ids ids = do
  refuse_if (ltb 1000 (length ids)) group_limit_exceeded
  refuse_if (has_duplicate ids) group_duplicate

normalize_name : ListEnv → ℕ → Answer GroupListError ℕ
normalize_name env value = if env.trim value == 0 then refused name_invalid else ok (env.trim value)

normalize_description : ListEnv → Option ℕ → Option ℕ
normalize_description env none = none
normalize_description env (some v) = if env.trim v == 0 then none else some (env.trim v)

pub record CreateDto : Type 0 where
  pub session : ℕ
  pub title : ℕ
  pub about : Option ℕ
  pub groups : List ℕ
  pub key : Option ℕ

trimmed_key : ListEnv → Option ℕ → ℕ
trimmed_key env none = 0
trimmed_key env (some k) = env.trim k

unfoldable pub check_create : ListEnv → Ranks → CreateDto → Answer GroupListError CreateInput
unfolding trimmed_key validate_group_ids normalize_name normalize_description
check_create env ranks dto = do
  refuse_if (not (is_allowed env dto.session)) session_forbidden
  refuse_if (trimmed_key env dto.key == 0) idempotency_key_required
  refuse_if (not (env.is_uuid (trimmed_key env dto.key))) idempotency_key_invalid
  validate_group_ids dto.groups
  title ← normalize_name env dto.title
  ok record {
    session = dto.session;
    title = title;
    about = normalize_description env dto.about;
    group_ids = order_by ranks.script dto.groups;
    key = trimmed_key env dto.key;
    hash =
        env.digest dto.session title (normalize_description env dto.about)
          (order_by ranks.script dto.groups);
  }

validation_error : GroupValidation → GroupListError
validation_error v = if not (is_empty v.mismatched) then group_session_mismatch else group_not_found

unfoldable pub created_answer : ℕ → CreateResult → Answer GroupListError GroupList
unfolding validation_error
created_answer hash session_missing = refused list_session_not_found
created_answer hash (Table.groups_invalid v) = refused (validation_error v)
created_answer hash create_name_taken = refused name_conflict
created_answer hash (created l) = ok l
created_answer hash (replayed l) =
    if not (l.create_request_hash == hash)
    then refused list_idempotency_conflict
    else if not (is_null l.archived_at)
    then refused list_idempotency_key_retired
    else ok l

unfoldable pub create_list :
    ListEnv
    → Ranks
    → CreateDto
    → ℕ
    → ℕ
    → List ℕ
    → List GroupRow
    → Lists
    → Answer GroupListError GroupList × Lists
unfolding check_create created_answer
create_list env ranks dto new_id now sessions groups db =
    then_call (check_create env ranks dto)
      (λ input.
        let (r, after) = create env.fold input new_id now sessions groups db in
        (created_answer input.hash r, after))
      db

visible_to : ListEnv → Option GroupList → Answer GroupListError GroupList
visible_to env none = refused list_not_found
visible_to env (some l) = if is_allowed env l.session_id then ok l else refused list_not_found

unfoldable pub get_for_mutation : ListEnv → ℕ → Lists → Answer GroupListError GroupList
unfolding visible_to
get_for_mutation env id seen = do
  l ← visible_to env (find id true seen)
  refuse_if (not (is_null l.archived_at)) list_archived
  ok l

expects : Option ℕ → ℕ → Bool
expects none current = true
expects (some expected) current = expected == current

-- throwMutationRace, on what it reads.
mutation_race : ListEnv → ℕ → Lists → GroupListError
unfolding get_for_mutation
mutation_race env id later = race (get_for_mutation env id later)
  where
    race : Answer GroupListError GroupList → GroupListError
    race (refused e) = e
    race (ok l) = list_revision_conflict

-- A field that is undefined is none; a description that is null is some none.
pub record UpdateDto : Type 0 where
  pub title : Option ℕ
  pub about : Option (Option ℕ)
  pub expected_revision : Option ℕ

name_or : ListEnv → Option ℕ → ℕ → Answer GroupListError ℕ
unfolding normalize_name
name_or env none current = ok current
name_or env (some v) current = normalize_name env v

description_or : ListEnv → Option (Option ℕ) → Option ℕ → Option ℕ
unfolding normalize_description
description_or env none current = current
description_or env (some raw) current = normalize_description env raw

pub record Edit : Type 0 where
  pub new_title : ℕ
  pub new_about : Option ℕ
  pub based_on : ℕ

unfoldable pub check_update : ListEnv → ℕ → UpdateDto → Lists → Answer GroupListError Edit
unfolding get_for_mutation expects name_or description_or
check_update env id dto seen = do
  l ← get_for_mutation env id seen
  refuse_if (not (expects dto.expected_revision l.revision)) list_revision_conflict
  title ← name_or env dto.title l.name
  ok record {
    new_title = title;
    new_about = description_or env dto.about l.description;
    based_on = l.revision;
  }

unfoldable pub updated_answer : ListEnv → ℕ → Lists → UpdateResult → Answer GroupListError GroupList
unfolding mutation_race
updated_answer env id later not_updated = refused (mutation_race env id later)
updated_answer env id later update_name_taken = refused name_conflict
updated_answer env id later (updated l) = ok l

unfoldable pub update_list :
    ListEnv → ℕ → UpdateDto → ℕ → Lists → Lists → Lists → Answer GroupListError GroupList × Lists
unfolding check_update updated_answer
update_list env id dto now seen later db =
    then_call (check_update env id dto seen)
      (λ e.
        let (r, after) = update env.fold id e.new_title e.new_about e.based_on now db in
        (updated_answer env id later r, after))
      db

-- The revision to archive at, or none for a list that is archived already.
unfoldable pub check_archive : ListEnv → ℕ → Option ℕ → Lists → Answer GroupListError (Option ℕ)
unfolding visible_to expects
check_archive env id expected seen = do
  l ← visible_to env (find id true seen)
  if not (is_null l.archived_at)
      then ok none
      else if expects expected l.revision
      then ok (some l.revision)
      else refused list_revision_conflict

archive_race : ListEnv → ℕ → Lists → Answer GroupListError Done
unfolding visible_to
archive_race env id later = do
  l ← visible_to env (find id true later)
  refuse_if (is_null l.archived_at) list_revision_conflict

unfoldable pub archived_answer : ListEnv → ℕ → Lists → Option GroupList → Answer GroupListError Done
unfolding archive_race
archived_answer env id later none = archive_race env id later
archived_answer env id later (some l) = ok tt

unfoldable pub archive_at :
    ListEnv → ℕ → ℕ → Lists → Lists → Option ℕ → Answer GroupListError Done × Lists
unfolding archived_answer
archive_at env id now later db none = (ok tt, db)
archive_at env id now later db (some revision) =
    let (r, after) = archive id revision now db in (archived_answer env id later r, after)

unfoldable pub archive_list :
    ListEnv → ℕ → Option ℕ → ℕ → Lists → Lists → Lists → Answer GroupListError Done × Lists
unfolding check_archive archive_at
archive_list env id expected now seen later db =
    then_call (check_archive env id expected seen) (archive_at env id now later db) db

unfoldable pub check_replace :
    ListEnv → ℕ → List ℕ → Option ℕ → Option ℕ → Lists → Answer GroupListError GroupList
unfolding get_for_mutation expects validate_group_ids
check_replace env id ids expected membership seen = do
  l ← get_for_mutation env id seen
  refuse_if (not (expects expected l.revision)) list_revision_conflict
  refuse_if (not (expects membership l.membership_revision)) list_revision_conflict
  validate_group_ids ids
  ok l

unfoldable pub replaced_answer : ReplaceResult → Answer GroupListError Done
unfolding validation_error
replaced_answer revision_conflict = refused list_revision_conflict
replaced_answer (invalid v) = refused (validation_error v)
replaced_answer not_found = refused list_not_found
replaced_answer replaced = ok tt

unfoldable pub replace_list_groups :
    ListEnv
    → Ranks
    → ℕ
    → List ℕ
    → Option ℕ
    → Option ℕ
    → ℕ
    → List GroupRow
    → Lists
    → Lists
    → Answer GroupListError Done × Lists
unfolding check_replace replaced_answer
replace_list_groups env ranks id ids expected membership now groups seen db =
    then_call (check_replace env id ids expected membership seen)
      (λ l.
        let (r, after) =
          replace_groups ranks id (order_by ranks.script ids) l.revision membership now groups db in
        (replaced_answer r, after))
      db
