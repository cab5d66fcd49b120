-- ===== src/GroupList/Membership.antt =====
-- GroupListRepository.replaceGroups and lockMembershipSnapshot of
-- src/modules/group-lists/group-list.repository.ts: what is replaced is what is read.
use wa_runtime.Base.{
  ℕ, ◌+◌, true, false, Option, some, List, [], ◌∷◌, map, ◌≡◌, refl, inl, inr, arith, ◌==◌, ==-eq,
  ==-refl, Bool-cases, Option-cases, if◌then◌else◌, subst,
}
use wa_runtime.Base.Sql.{update_where, first_row, order_by, delete_where}
use wa_runtime.Base.Order.{order_by_idem}
use wa_runtime.Campaign.Tables.{GroupRow}
use wa_runtime.GroupList.Table.{
  GroupList, GroupListItem, Lists, Ranks, open_list, item_of, new_item, item_ids, insert_items,
  same_ids, bump_membership, replaced, write_members, replace_groups, Snapshot, snapshot,
  lock_membership_snapshot,
}

pub same_ids-eq : (xs ys : List ℕ) → same_ids xs ys ≡ true → xs ≡ ys
same_ids-eq [] [] h = refl
same_ids-eq [] (y ∷ ys) h = absurd (ground arith)
same_ids-eq (x ∷ xs) [] h = absurd (ground arith)
same_ids-eq (x ∷ xs) (y ∷ ys) h = cc (==-eq x y (ground arith), same_ids-eq xs ys (ground arith))

item_ids-new : (l session : ℕ) (ids : List ℕ) → item_ids l (map (new_item l session) ids) ≡ ids
unfolding item_ids
item_ids-new l session [] = refl
item_ids-new l session (x ∷ xs) = ground (arith, ==-refl l, item_ids-new l session xs)

-- The items that replace_groups leaves for the list.
item_ids-replaced :
    (l session : ℕ) (ids : List ℕ) (items : List GroupListItem)
    → item_ids l (insert_items l session ids (delete_where (item_of l) items)) ≡ ids
unfolding item_ids insert_items
item_ids-replaced l session ids [] = item_ids-new l session ids
item_ids-replaced l session ids (i ∷ items) = ground (arith, item_ids-replaced l session ids items)

-- Items of another list.
item_ids-other_new :
    (k l session : ℕ) (ids : List ℕ)
    → (k == l) ≡ false
    → item_ids k (map (new_item l session) ids) ≡ []
unfolding item_ids
item_ids-other_new k l session [] h = refl
item_ids-other_new k l session (x ∷ xs) h = ground (arith, item_ids-other_new k l session xs h)

pub item_ids-other :
    (k l session : ℕ) (ids : List ℕ) (items : List GroupListItem)
    → (k == l) ≡ false
    → item_ids k (insert_items l session ids (delete_where (item_of l) items)) ≡ item_ids k items
unfolding item_ids insert_items
item_ids-other k l session ids [] h = item_ids-other_new k l session ids h
item_ids-other k l session ids (i ∷ items) h =
    ground (arith, item_ids-other k l session ids items h)

first_row-bumped :
    (id now : ℕ) (ls : List GroupList) {l : GroupList}
    → first_row (open_list id) ls ≡ some l
    → first_row (open_list id) (update_where (λ x. x.id == l.id) (bump_membership now) ls)
      ≡ some (bump_membership now l)
first_row-bumped id now [] e = absurd (ground arith)
first_row-bumped id now (x ∷ ls) {l} e = elim (Bool-cases (open_list id x)) [
  | inl b ↦ ground (arith, ==-refl x.id)
  | inr b ↦ ground (arith, first_row-bumped id now ls {l = l} (ground arith))
]

module _ (rank : ℕ → ℕ) where
  -- Both orders are the same.
  abbrev pub one_order : Ranks
  one_order = record { database = rank; script = rank }

  -- The snapshot that follows a replacement by ids.
  abbrev pub after_replace : List ℕ → Snapshot → Snapshot
  after_replace ids before =
      let rise = if same_ids before.group_ids (order_by rank ids) then 0 else 1 in
      record {
        id = before.id;
        name = before.name;
        session_id = before.session_id;
        revision = before.revision + rise;
        membership_revision = before.membership_revision + rise;
        group_ids = order_by rank ids;
      }

  write_members-snapshot :
      (id : ℕ) (ids : List ℕ) (now : ℕ) (db : Lists) (l : GroupList)
      → first_row (open_list id) db.lists ≡ some l
      → lock_membership_snapshot one_order id (write_members one_order l ids now db)
        ≡ some (after_replace ids (snapshot one_order l db.items))
  unfolding lock_membership_snapshot write_members
  write_members-snapshot id ids now db l e =
      elim (Bool-cases (same_ids (order_by rank (item_ids l.id db.items)) (order_by rank ids))) [
        | inl same ↦
            ground
              (arith, same_ids-eq (order_by rank (item_ids l.id db.items)) (order_by rank ids) same)
        | inr other ↦ ground (
          arith,
          first_row-bumped id now db.lists {l = l} e,
          item_ids-replaced l.id l.session_id (order_by rank ids) db.items,
          order_by_idem rank ids,
        )
      ]

  replace_groups-writes :
      (id : ℕ) (ids : List ℕ) (expected : ℕ) (membership : Option ℕ) (now : ℕ)
      (groups : List GroupRow) (db : Lists) (l : GroupList)
      → first_row (open_list id) db.lists ≡ some l
      → (replace_groups one_order id ids expected membership now groups db).0 ≡ replaced
      → (replace_groups one_order id ids expected membership now groups db).1
        ≡ write_members one_order l ids now db
  unfolding replace_groups
  replace_groups-writes id ids expected membership now groups db l e done = ground arith

  -- Where the database orders group ids as the script does: after a replacement that succeeds, the
  -- snapshot of the list has exactly the groups that were asked for, in that order, the list's name
  -- and session, and revisions that are one higher, or the same where the groups were these before.
  pub replace_groups-snapshot :
      (id : ℕ) (ids : List ℕ) (expected : ℕ) (membership : Option ℕ) (now : ℕ)
      (groups : List GroupRow) (db : Lists) (before : Snapshot)
      → lock_membership_snapshot one_order id db ≡ some before
      → (replace_groups one_order id ids expected membership now groups db).0 ≡ replaced
      → lock_membership_snapshot one_order id
          (replace_groups one_order id ids expected membership now groups db).1
        ≡ some (after_replace ids before)
  unfolding lock_membership_snapshot
  replace_groups-snapshot id ids expected membership now groups db before taken done =
      elim (Option-cases (first_row (open_list id) db.lists)) [
        | inl e ↦ absurd (ground arith)
        | inr (l, e) ↦
            subst
              (λ b.
                lock_membership_snapshot one_order id
                  (replace_groups one_order id ids expected membership now groups db).1
                ≡ some (after_replace ids b))
              (taken_is l e)
              (rw (replace_groups-writes id ids expected membership now groups db l e done)
                (write_members-snapshot id ids now db l e))
      ]
    where
      taken_is :
          (l : GroupList)
          → first_row (open_list id) db.lists ≡ some l
          → snapshot one_order l db.items ≡ before
      taken_is l e = ground arith
