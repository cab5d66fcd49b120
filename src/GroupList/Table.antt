-- ===== src/GroupList/Table.antt =====
-- src/modules/group-lists/group-list.repository.ts: the tables group_lists and group_list_items. The
-- order of group ids is that of the database for ORDER BY and that of the script for sort().
use wa_runtime.Base.{
  ℕ, ◌+◌, Bool, true, false, not, ◌&&◌, ◌||◌, Option, none, some, List, [], ◌∷◌, ◌++◌, map, ◌==◌,
  is_null, filter, any, if◌then◌else◌,
}
use wa_runtime.Base.Sql.{update_where, first_row, order_by, delete_where}
use wa_runtime.Campaign.Tables.{GroupRow}

pub record GroupList : Type 0 where
  pub id : ℕ
  pub session_id : ℕ
  pub name : ℕ
  pub description : Option ℕ
  pub create_idempotency_key : ℕ
  pub create_request_hash : ℕ
  pub revision : ℕ
  pub membership_revision : ℕ
  pub archived_at : Option ℕ
  pub updated_at : ℕ

pub record GroupListItem : Type 0 where
  pub group_list_id : ℕ
  pub session_id : ℕ
  pub group_id : ℕ

pub record Lists : Type 0 where
  pub lists : List GroupList
  pub items : List GroupListItem

pub record Ranks : Type 0 where
  pub database : ℕ → ℕ
  pub script : ℕ → ℕ

abbrev pub list_id : GroupList → ℕ
list_id l = l.id

-- WHERE id = $1 AND archived_at IS NULL.
abbrev pub open_list : ℕ → GroupList → Bool
open_list id l = l.id == id && is_null l.archived_at

abbrev pub item_of : ℕ → GroupListItem → Bool
item_of id i = i.group_list_id == id

unfoldable pub find : ℕ → Bool → Lists → Option GroupList
find id include_archived db =
    first_row (λ l. l.id == id && (include_archived || is_null l.archived_at)) db.lists

-- validateGroups: the ids that no group has, and those that only groups of other sessions have.
pub record GroupValidation : Type 0 where
  pub missing : List ℕ
  pub mismatched : List ℕ

abbrev pub known_group : List GroupRow → ℕ → Bool
known_group groups id = any (λ g. g.id == id) groups

abbrev pub group_in : ℕ → List GroupRow → ℕ → Bool
group_in session groups id = any (λ g. g.id == id && g.session_id == session) groups

unfoldable pub validate_groups : ℕ → List ℕ → List GroupRow → GroupValidation
validate_groups session ids groups = record {
  missing = filter (λ id. not (known_group groups id)) ids;
  mismatched = filter (λ id. known_group groups id && not (group_in session groups id)) ids;
}

abbrev pub is_empty : List ℕ → Bool
is_empty [] = true
is_empty (x ∷ xs) = false

abbrev pub is_valid : GroupValidation → Bool
is_valid v = is_empty v.missing && is_empty v.mismatched

abbrev pub new_item : ℕ → ℕ → ℕ → GroupListItem
new_item list session group = record {
  group_list_id = list;
  session_id = session;
  group_id = group;
}

unfoldable pub insert_items : ℕ → ℕ → List ℕ → List GroupListItem → List GroupListItem
insert_items list session ids items = items ++ map (new_item list session) ids

pub record CreateInput : Type 0 where
  pub session : ℕ
  pub title : ℕ
  pub about : Option ℕ
  pub group_ids : List ℕ
  pub key : ℕ
  pub hash : ℕ

pub data CreateResult : Type 0 where
  replayed : GroupList → CreateResult
  session_missing : CreateResult
  groups_invalid : GroupValidation → CreateResult
  create_name_taken : CreateResult
  created : GroupList → CreateResult

abbrev pub new_list : CreateInput → ℕ → ℕ → GroupList
new_list input new_id now = record {
  id = new_id;
  session_id = input.session;
  name = input.title;
  description = input.about;
  create_idempotency_key = input.key;
  create_request_hash = input.hash;
  revision = 1;
  membership_revision = 1;
  archived_at = none;
  updated_at = now;
}

-- The unique index on (session_id, lower(name)) of the lists that are not archived; fold is lower.
abbrev pub name_taken : (ℕ → ℕ) → ℕ → ℕ → ℕ → List GroupList → Bool
name_taken fold session title except ls =
    any
      (λ l.
        l.session_id == session
        && is_null l.archived_at
        && fold l.name == fold title
        && not (l.id == except))
      ls

unfoldable pub create_on :
    (ℕ → ℕ)
    → Option GroupList
    → CreateInput
    → ℕ
    → ℕ
    → List ℕ
    → List GroupRow
    → Lists
    → CreateResult × Lists
unfolding insert_items
create_on fold (some l) input new_id now sessions groups db = (replayed l, db)
create_on fold none input new_id now sessions groups db =
    let v = validate_groups input.session input.group_ids groups in
    if not (any (λ s. s == input.session) sessions)
    then (session_missing, db)
    else if not (is_valid v)
    then (groups_invalid v, db)
    else if name_taken fold input.session input.title new_id db.lists
    then (create_name_taken, db)
    else (
      created (new_list input new_id now),
      record {
        lists = db.lists ++ new_list input new_id now ∷ [];
        items = insert_items new_id input.session input.group_ids db.items;
      },
    )

unfoldable pub create :
    (ℕ → ℕ) → CreateInput → ℕ → ℕ → List ℕ → List GroupRow → Lists → CreateResult × Lists
unfolding create_on
create fold input new_id now sessions groups db =
    create_on fold (first_row (λ l. l.create_idempotency_key == input.key) db.lists) input new_id
      now sessions groups db

-- IS DISTINCT FROM.
abbrev pub distinct_from : Option ℕ → Option ℕ → Bool
distinct_from none none = false
distinct_from (some a) (some b) = not (a == b)
distinct_from _ _ = true

abbrev pub at_revision : ℕ → ℕ → GroupList → Bool
at_revision id expected l = open_list id l && l.revision == expected

abbrev pub edits : ℕ → Option ℕ → GroupList → Bool
edits title about l = not (l.name == title) || distinct_from l.description about

abbrev pub edit_row : ℕ → Option ℕ → ℕ → GroupList → GroupList
edit_row title about now l = record l {
  name = title;
  description = about;
  revision = if edits title about l then l.revision + 1 else l.revision;
  updated_at = if edits title about l then now else l.updated_at;
}

pub data UpdateResult : Type 0 where
  not_updated update_name_taken : UpdateResult
  updated : GroupList → UpdateResult

unfoldable pub update_on :
    (ℕ → ℕ) → Option GroupList → ℕ → ℕ → Option ℕ → ℕ → ℕ → Lists → UpdateResult × Lists
update_on fold none id title about expected now db = (not_updated, db)
update_on fold (some l) id title about expected now db =
    if name_taken fold l.session_id title l.id db.lists then (update_name_taken, db) else (
      updated (edit_row title about now l),
      record db {
        lists = update_where (at_revision id expected) (edit_row title about now) db.lists;
      },
    )

unfoldable pub update : (ℕ → ℕ) → ℕ → ℕ → Option ℕ → ℕ → ℕ → Lists → UpdateResult × Lists
unfolding update_on
update fold id title about expected now db =
    update_on fold (first_row (at_revision id expected) db.lists) id title about expected now db

unfoldable pub return_row : (GroupList → GroupList) → Option GroupList → Option GroupList
return_row f none = none
return_row f (some l) = some (f l)

abbrev pub archive_row : ℕ → GroupList → GroupList
archive_row now l = record l { archived_at = some now; revision = l.revision + 1; updated_at = now }

unfoldable pub archive : ℕ → ℕ → ℕ → Lists → Option GroupList × Lists
unfolding return_row
archive id expected now db = (
  return_row (archive_row now) (first_row (at_revision id expected) db.lists),
  record db { lists = update_where (at_revision id expected) (archive_row now) db.lists },
)

-- The comparison by length and index.
abbrev pub same_ids : List ℕ → List ℕ → Bool
same_ids [] [] = true
same_ids (x ∷ xs) (y ∷ ys) = x == y && same_ids xs ys
same_ids _ _ = false

unfoldable pub item_ids : ℕ → List GroupListItem → List ℕ
item_ids id items = map (λ (i : GroupListItem). i.group_id) (filter (item_of id) items)

pub data ReplaceResult : Type 0 where
  not_found revision_conflict : ReplaceResult
  invalid : GroupValidation → ReplaceResult
  replaced : ReplaceResult

abbrev pub bump_membership : ℕ → GroupList → GroupList
bump_membership now l = record l {
  revision = l.revision + 1;
  membership_revision = l.membership_revision + 1;
  updated_at = now;
}

unfoldable pub write_members : Ranks → GroupList → List ℕ → ℕ → Lists → Lists
unfolding item_ids insert_items
write_members ranks l ids now db =
    let next = order_by ranks.script ids in
    if same_ids (order_by ranks.database (item_ids l.id db.items)) next then db else record {
      lists = update_where (λ x. x.id == l.id) (bump_membership now) db.lists;
      items = insert_items l.id l.session_id next (delete_where (item_of l.id) db.items);
    }

abbrev pub differs : Option ℕ → ℕ → Bool
differs none current = false
differs (some expected) current = not (current == expected)

unfoldable pub replace_on :
    Option GroupList
    → Ranks
    → List ℕ
    → ℕ
    → Option ℕ
    → ℕ
    → List GroupRow
    → Lists
    → ReplaceResult × Lists
unfolding write_members
replace_on none ranks ids expected membership now groups db = (not_found, db)
replace_on (some l) ranks ids expected membership now groups db =
    let v = validate_groups l.session_id ids groups in
    if not (l.revision == expected) || differs membership l.membership_revision
    then (revision_conflict, db)
    else if not (is_valid v)
    then (invalid v, db)
    else (replaced, write_members ranks l ids now db)

unfoldable pub replace_groups :
    Ranks → ℕ → List ℕ → ℕ → Option ℕ → ℕ → List GroupRow → Lists → ReplaceResult × Lists
unfolding replace_on
replace_groups ranks id ids expected membership now groups db =
    replace_on (first_row (open_list id) db.lists) ranks ids expected membership now groups db

pub record Snapshot : Type 0 where
  pub id : ℕ
  pub name : ℕ
  pub session_id : ℕ
  pub revision : ℕ
  pub membership_revision : ℕ
  pub group_ids : List ℕ

abbrev pub snapshot : Ranks → GroupList → List GroupListItem → Snapshot
snapshot ranks l items = record {
  id = l.id;
  name = l.name;
  session_id = l.session_id;
  revision = l.revision;
  membership_revision = l.membership_revision;
  group_ids = order_by ranks.database (item_ids l.id items);
}

snapshot_of : Option GroupList → Ranks → Lists → Option Snapshot
snapshot_of none ranks db = none
snapshot_of (some l) ranks db = some (snapshot ranks l db.items)

unfoldable pub lock_membership_snapshot : Ranks → ℕ → Lists → Option Snapshot
unfolding snapshot_of
lock_membership_snapshot ranks id db = snapshot_of (first_row (open_list id) db.lists) ranks db
