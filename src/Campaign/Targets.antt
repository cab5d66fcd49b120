-- ===== src/Campaign/Targets.antt =====
-- replaceTargets and applyGroupListTargets of src/modules/campaigns/campaign.repository.ts: the targets that
-- they leave, alone and behind a replacement of the list's groups. One order stands for ORDER BY and sort().
use wa_runtime.Base.{
  ℕ, Bool, false, not, ◌||◌, Option, none, some, List, [], ◌∷◌, map, ◌≡◌, refl, inl, inr, arith,
  ◌==◌, ==-refl, ==-eq, Bool-cases, Option-cases, if_split, is_null, &&-left, subst,
}
use wa_runtime.Base.Sql.{first_row, first_row-selected, order_by}
use wa_runtime.Base.Order.{order_by_idem}
use wa_runtime.Campaign.Tables.{Db, Campaign, CampaignTarget, TargetSource, GroupRow, is_draft}
use wa_runtime.GroupList.Table.{
  Lists, Snapshot, snapshot, open_list, item_ids, same_ids, replace_groups, replaced,
  lock_membership_snapshot, is_valid, validate_groups, differs,
}
use wa_runtime.GroupList.Membership.{same_ids-eq, one_order, after_replace, replace_groups-snapshot}
use wa_runtime.Campaign.Drafts.{
  ApplyInput, TargetsResult, applied, target_ids, new_target, write_targets, put_targets,
  replace_targets, replace_on, replace_found, apply_group_list_targets, apply_on, apply_source,
  apply_snapshot, visible, source_differs, source_of,
}

target_ids-new :
    (c session : ℕ) (ids : List ℕ) → target_ids c (map (new_target c session) ids) ≡ ids
unfolding target_ids
target_ids-new c session [] = refl
target_ids-new c session (x ∷ xs) = ground (arith, ==-refl c, target_ids-new c session xs)

target_ids-written :
    (c session : ℕ) (ids : List ℕ) (ts : List CampaignTarget)
    → target_ids c (write_targets c session ids ts) ≡ ids
unfolding target_ids write_targets
target_ids-written c session ids [] = target_ids-new c session ids
target_ids-written c session ids (t ∷ ts) = ground (arith, target_ids-written c session ids ts)

target_ids-other_new :
    (k c session : ℕ) (ids : List ℕ)
    → (k == c) ≡ false
    → target_ids k (map (new_target c session) ids) ≡ []
unfolding target_ids
target_ids-other_new k c session [] h = refl
target_ids-other_new k c session (x ∷ xs) h = ground (arith, target_ids-other_new k c session xs h)

target_ids-other :
    (k c session : ℕ) (ids : List ℕ) (ts : List CampaignTarget)
    → (k == c) ≡ false
    → target_ids k (write_targets c session ids ts) ≡ target_ids k ts
unfolding target_ids write_targets
target_ids-other k c session ids [] h = target_ids-other_new k c session ids h
target_ids-other k c session ids (t ∷ ts) h = ground (arith, target_ids-other k c session ids ts h)

visible-id :
    (id : ℕ) (db : Db) {c : Campaign} → first_row (visible id) db.campaigns ≡ some c → c.id ≡ id
visible-id id db {c} found = ==-eq c.id id (
    &&-left (c.id == id) (is_null c.deleted_at)
      (first_row-selected (visible id) db.campaigns found))

module _ (rank : ℕ → ℕ) where
  -- The targets of the campaign are these, in order, and those of every other campaign are what they were.
  pub record Retargeted (id : ℕ) (ids : List ℕ) (db after : Db) : Type 0 where
    pub own : order_by rank (target_ids id after.targets) ≡ ids
    pub others : (k : ℕ) → (k == id) ≡ false → target_ids k after.targets ≡ target_ids k db.targets

  put_targets-Retargeted :
      (c : Campaign) (ids : List ℕ) (resourced : Bool) (source : Option TargetSource) (now : ℕ)
      (db : Db)
      → order_by rank ids ≡ ids
      → let differ = not (same_ids (order_by rank (target_ids c.id db.targets)) ids) in
        Retargeted c.id ids db (put_targets c ids differ (differ || resourced) source now db)
  unfolding put_targets
  put_targets-Retargeted c ids resourced source now db sorted =
      elim (Bool-cases (same_ids (order_by rank (target_ids c.id db.targets)) ids)) [
        | inl same ↦ rw same (
            if_split (Retargeted c.id ids db) resourced (λ t. unmoved (same_ids-eq _ ids same) _)
              (λ f. unmoved (same_ids-eq _ ids same) _))
        | inr other ↦ rw other record {
          own = rw (target_ids-written c.id c.session_id ids db.targets) sorted;
          others = λ k h. target_ids-other k c.id c.session_id ids db.targets h;
        }
      ]
    where
      unmoved :
          order_by rank (target_ids c.id db.targets) ≡ ids
          → (cs : List Campaign) → Retargeted c.id ids db (record db { campaigns = cs })
      unmoved e cs = record { own = e; others = λ k h. refl }

  -- Where the database orders group ids as the script does: a replacement of targets that succeeds
  -- leaves the campaign with exactly the groups that were asked for, in that order, and every other
  -- campaign with the targets it had.
  pub replace_targets-Retargeted :
      (id : ℕ) (ids : List ℕ) (expected now : ℕ) (db : Db) {revision : ℕ}
      {source : Option TargetSource}
      → (replace_targets (one_order rank) id ids expected now db).0 ≡ applied revision source
      → Retargeted id
          (order_by rank ids)
          db
          (replace_targets (one_order rank) id ids expected now db).1
  unfolding replace_targets replace_on replace_found
  replace_targets-Retargeted id ids expected now db {revision} {source} =
      elim (Option-cases (first_row (visible id) db.campaigns)) [
        | inl gone ↦ rw gone (λ h. absurd (ground (arith, h)))
        | inr (c, found) ↦ rw found (
            if_split Kept (not (is_draft c.status)) (λ t h. absurd (ground (arith, h)))
              (λ a.
                if_split Kept (not (c.targets_revision == expected))
                  (λ t h. absurd (ground (arith, h)))
                  (λ b.
                    if_split Kept (not (is_valid (validate_groups c.session_id ids db.groups)))
                      (λ t h. absurd (ground (arith, h)))
                      (λ t h.
                        subst
                          (λ k. Retargeted k (order_by rank ids) db (
                            put_targets c (order_by rank ids)
                              (not (
                                same_ids (order_by rank (target_ids c.id db.targets))
                                  (order_by rank ids)))
                              (not (
                                  same_ids (order_by rank (target_ids c.id db.targets))
                                    (order_by rank ids))
                                || not (is_null c.target_source))
                              none now db))
                          (visible-id id db found)
                          (put_targets-Retargeted c (order_by rank ids)
                            (not (is_null c.target_source)) none now db
                            (order_by_idem rank ids))))))
      ]
    where
      Kept : TargetsResult × Db → Type 0
      Kept r = r.0 ≡ applied revision source → Retargeted id (order_by rank ids) db r.1

  snapshot-sorted :
      (list : ℕ) (lists : Lists) {s : Snapshot}
      → lock_membership_snapshot (one_order rank) list lists ≡ some s
      → order_by rank s.group_ids ≡ s.group_ids
  unfolding lock_membership_snapshot
  snapshot-sorted list lists {s} = elim (Option-cases (first_row (open_list list) lists.lists)) [
    | inl gone ↦ rw gone (λ h. absurd (ground (arith, h)))
    | inr (l, found) ↦ rw found (λ h.
        let same : snapshot (one_order rank) l lists.items ≡ s = ground (arith, h) in
        subst (λ (z : Snapshot). order_by rank z.group_ids ≡ z.group_ids) same
          (order_by_idem rank (item_ids l.id lists.items)))
  ]

  -- Where the database orders group ids as the script does: an application of a group list that succeeds
  -- leaves the campaign with exactly the groups of the list's snapshot, and every other campaign with
  -- the targets it had.
  pub apply_list-Retargeted :
      (input : ApplyInput) (lists : Lists) (now : ℕ) (db : Db) (s : Snapshot) {revision : ℕ}
      {source : Option TargetSource}
      → lock_membership_snapshot (one_order rank) input.group_list lists ≡ some s
      → (apply_group_list_targets (one_order rank) input lists now db).0 ≡ applied revision source
      → Retargeted input.campaign s.group_ids db
          (apply_group_list_targets (one_order rank) input lists now db).1
  unfolding apply_group_list_targets apply_on apply_source apply_snapshot
  apply_list-Retargeted input lists now db s {revision} {source} taken =
      elim (Option-cases (first_row (visible input.campaign) db.campaigns)) [
        | inl gone ↦ rw gone (λ h. absurd (ground (arith, h)))
        | inr (c, found) ↦
            rw (found, taken)
              (if_split Kept (not (is_draft c.status)) (λ t h. absurd (ground (arith, h)))
                (λ a.
                  if_split Kept (not (c.targets_revision == input.expected_targets_revision))
                    (λ t h. absurd (ground (arith, h)))
                    (λ b.
                      if_split Kept (not (s.session_id == c.session_id))
                        (λ t h. absurd (ground (arith, h)))
                        (λ d.
                          if_split Kept
                            (differs input.expected_membership_revision s.membership_revision)
                            (λ t h. absurd (ground (arith, h)))
                            (λ t h.
                              subst
                                (λ k. Retargeted k s.group_ids db (
                                  put_targets c s.group_ids
                                    (not (
                                      same_ids (order_by rank (target_ids c.id db.targets))
                                        s.group_ids))
                                    (not (
                                        same_ids (order_by rank (target_ids c.id db.targets))
                                          s.group_ids)
                                      || source_differs c.target_source s)
                                    (some (source_of s now)) now db))
                                (visible-id input.campaign db found)
                                (put_targets-Retargeted c s.group_ids
                                  (source_differs c.target_source s) (some (source_of s now)) now db
                                  (snapshot-sorted input.group_list lists taken)))))))
      ]
    where
      Kept : TargetsResult × Db → Type 0
      Kept r = r.0 ≡ applied revision source → Retargeted input.campaign s.group_ids db r.1

  -- A group list and a campaign together: after a replacement of the list's groups that succeeds, an
  -- application of the list that succeeds leaves the campaign with exactly the groups that the
  -- replacement was asked for, where the database orders group ids as the script does.
  pub replace_groups-apply_list :
      (list : ℕ) (ids : List ℕ) (expected : ℕ) (membership : Option ℕ) (now : ℕ)
      (groups : List GroupRow) (lists : Lists) (before : Snapshot) (input : ApplyInput) (later : ℕ)
      (db : Db) {revision : ℕ} {source : Option TargetSource}
      → lock_membership_snapshot (one_order rank) list lists ≡ some before
      → input.group_list ≡ list
      → let (r, replaced_lists) =
          replace_groups (one_order rank) list ids expected membership now groups lists in
        let (a, after) = apply_group_list_targets (one_order rank) input replaced_lists later db in
        r ≡ replaced
        → a ≡ applied revision source
        → Retargeted input.campaign (order_by rank ids) db after
  replace_groups-apply_list list ids expected membership now groups lists before input later db
        taken same done h =
      apply_list-Retargeted input
        (replace_groups (one_order rank) list ids expected membership now groups lists).1 later db
        (after_replace rank ids before)
        (rw same (
          replace_groups-snapshot rank list ids expected membership now groups lists before taken
            done))
        h
