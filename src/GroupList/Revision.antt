-- ===== src/GroupList/Revision.antt =====
-- The revisions of src/modules/group-lists/group-list.repository.ts: while a list's revision is the
-- same, so is everything about the list.
use wa_runtime.Base.{
  ℕ, ◌<◌, Bool, true, false, not, ◌||◌, Option, none, some, List, [], ◌∷◌, ◌++◌, ◌≡◌, refl, ◌⊎◌,
  inl, inr, arith, ◌==◌, ==-eq, any, Bool-cases, Option-cases, if_split, sym, ap, ◌∙◌,
}
use wa_runtime.Base.Sql.{
  update_where, update_row, first_row, first_row-selected, order_by, delete_where,
}
use wa_runtime.Base.Keys.{has_key}
use wa_runtime.Campaign.Tables.{GroupRow}
use wa_runtime.GroupList.Table.{
  GroupList, GroupListItem, Lists, Ranks, list_id, open_list, item_of, item_ids, insert_items,
  same_ids, bump_membership, differs, validate_groups, is_valid, CreateInput, new_list, create,
  name_taken, update, at_revision, edit_row, edits, distinct_from, archive, archive_row,
  replace_groups, write_members, UpdateResult, CreateResult, ReplaceResult,
}
use wa_runtime.GroupList.Membership.{item_ids-other}

pub data Step (d : Lists) : Lists → Type 0 where
  created :
      (fold : ℕ → ℕ) (input : CreateInput) (new_id now : ℕ) (sessions : List ℕ)
      (groups : List GroupRow)
      → has_key list_id new_id d.lists ≡ false
      → Step d (create fold input new_id now sessions groups d).1
  edited :
      (fold : ℕ → ℕ) (id title : ℕ) (about : Option ℕ) (expected now : ℕ)
      → Step d (update fold id title about expected now d).1
  archived : (id expected now : ℕ) → Step d (archive id expected now d).1
  members_replaced :
      (ranks : Ranks) (id : ℕ) (ids : List ℕ) (expected : ℕ) (membership : Option ℕ) (now : ℕ)
      (groups : List GroupRow)
      → Step d (replace_groups ranks id ids expected membership now groups d).1

pub data Reach (d : Lists) : Lists → Type 0 where
  here : Reach d d
  next : {e f : Lists} → Reach d e → Step e f → Reach d f

abbrev pub with_id : ℕ → GroupList → Bool
with_id id l = l.id == id

-- The list and its groups are the same, or its revision has risen.
pub record Moved (s t : Lists) (id : ℕ) (l m : GroupList) : Type 0 where
  pub found : first_row (with_id id) t.lists ≡ some m
  pub moved : ((l ≡ m) × (item_ids id s.items ≡ item_ids id t.items)) ⊎ (l.revision < m.revision)

-- Every list of the first state is found in the second, where it has moved.
abbrev Follows : Lists → Lists → Type 0
Follows s t =
    (id : ℕ) (l : GroupList)
    → first_row (with_id id) s.lists ≡ some l
    → (m : GroupList) × Moved s t id l m

first_row-updated :
    (id : ℕ) (p : GroupList → Bool) (f : GroupList → GroupList) (ls : List GroupList)
    {l : GroupList}
    → ((x : GroupList) → (f x).id ≡ x.id)
    → first_row (with_id id) ls ≡ some l
    → first_row (with_id id) (update_where p f ls) ≡ some (update_row p f l)
first_row-updated id p f [] same e = absurd (ground arith)
first_row-updated id p f (x ∷ ls) {l} same e = elim (Bool-cases (with_id id x)) [
  | inl b ↦ ground (arith, same x)
  | inr b ↦ ground (arith, same x, first_row-updated id p f ls {l = l} same)
]

-- An UPDATE of lists that leaves the items, and raises the revision of each row that it changes.
update-Follows :
    (p : GroupList → Bool) (f : GroupList → GroupList) (s : Lists)
    → ((x : GroupList) → (f x).id ≡ x.id)
    → ((x : GroupList) → p x ≡ true → (x ≡ f x) ⊎ (x.revision < (f x).revision))
    → Follows s (record s { lists = update_where p f s.lists })
update-Follows p f s same raises id l e = (
  update_row p f l,
  record {
    found = first_row-updated id p f s.lists {l = l} same e;
    moved =
        if_split
          (λ m. ((l ≡ m) × (item_ids id s.items ≡ item_ids id s.items)) ⊎ (l.revision < m.revision))
          (p l) (λ b. elim (raises l b) [ inl k ↦ inl (k, refl) | inr k ↦ inr k ])
          (λ b. inl (refl, refl));
  },
)

same-Follows : (s : Lists) → Follows s s
same-Follows s id l e = (l, record { found = e; moved = inl (refl, refl) })

distinct_from-eq : (a b : Option ℕ) → distinct_from a b ≡ false → a ≡ b
distinct_from-eq none none h = refl
distinct_from-eq none (some b) h = absurd (ground arith)
distinct_from-eq (some a) none h = absurd (ground arith)
distinct_from-eq (some a) (some b) h = ap some (==-eq a b (ground arith))

edit-raises :
    (title : ℕ) (about : Option ℕ) (now : ℕ) (l : GroupList)
    → (l ≡ edit_row title about now l) ⊎ (l.revision < (edit_row title about now l).revision)
edit-raises title about now l = elim (Bool-cases (edits title about l)) [
  | inl b ↦ inr (ground arith)
  | inr b ↦ inl (
      ground (
        arith,
        ==-eq l.name title (ground arith),
        distinct_from-eq l.description about (ground arith),
      ))
]

edit-Follows :
    (fold : ℕ → ℕ) (id title : ℕ) (about : Option ℕ) (expected now : ℕ) (s : Lists)
    → Follows s (update fold id title about expected now s).1
unfolding update
edit-Follows fold id title about expected now s =
    elim (Option-cases (first_row (at_revision id expected) s.lists)) [
      | inl e ↦ rw (e, update) (same-Follows s)
      | inr (l, e) ↦
          rw (e, update)
            (if_split Kept (name_taken fold l.session_id title l.id s.lists) (λ b. same-Follows s)
              (λ b.
                update-Follows (at_revision id expected) (edit_row title about now) s (λ x. refl)
                  (λ x sel. edit-raises title about now x)))
    ]
  where
    Kept : UpdateResult × Lists → Type 0
    Kept r = Follows s r.1

item_ids-append :
    (k l session : ℕ) (ids : List ℕ) (items : List GroupListItem)
    → (l == k) ≡ false
    → item_ids k (insert_items l session ids items) ≡ item_ids k items
unfolding item_ids insert_items
item_ids-append k l session [] [] h = refl
item_ids-append k l session (x ∷ xs) [] h = ground (arith, item_ids-append k l session xs [] h)
item_ids-append k l session ids (i ∷ items) h =
    ground (arith, item_ids-append k l session ids items h)

first_row-append :
    (id : ℕ) (ls ms : List GroupList) {l : GroupList}
    → first_row (with_id id) ls ≡ some l
    → first_row (with_id id) (ls ++ ms) ≡ some l
first_row-append id [] ms e = absurd (ground arith)
first_row-append id (x ∷ ls) ms {l} e = elim (Bool-cases (with_id id x)) [
  | inl b ↦ ground arith
  | inr b ↦ ground (arith, first_row-append id ls ms {l = l} (ground arith))
]

first_row-has_key :
    (id : ℕ) (ls : List GroupList) {l : GroupList}
    → first_row (with_id id) ls ≡ some l
    → has_key list_id id ls ≡ true
first_row-has_key id [] e = absurd (ground arith)
first_row-has_key id (x ∷ ls) {l} e = elim (Bool-cases (with_id id x)) [
  | inl b ↦ ground arith
  | inr b ↦ ground (arith, first_row-has_key id ls {l = l} (ground arith))
]

insert-Follows :
    (row : GroupList) (ids : List ℕ) (s : Lists)
    → has_key list_id row.id s.lists ≡ false
    → Follows s (record {
      lists = s.lists ++ row ∷ [];
      items = insert_items row.id row.session_id ids s.items;
    })
insert-Follows row ids s fresh id l e = (
  l,
  record {
    found = first_row-append id s.lists (row ∷ []) {l = l} e;
    moved = inl (refl, sym (item_ids-append id row.id row.session_id ids s.items other));
  },
)
  where
    other : (row.id == id) ≡ false
    other = elim (Bool-cases (row.id == id)) [
      | inl b ↦
          let there : has_key list_id row.id s.lists ≡ true =
            rw (==-eq row.id id b) (first_row-has_key id s.lists {l = l} e) in
          absurd (ground arith)
      | inr b ↦ b
    ]

create-Follows :
    (fold : ℕ → ℕ) (input : CreateInput) (new_id now : ℕ) (sessions : List ℕ)
    (groups : List GroupRow) (s : Lists)
    → has_key list_id new_id s.lists ≡ false
    → Follows s (create fold input new_id now sessions groups s).1
unfolding create
create-Follows fold input new_id now sessions groups s fresh =
    elim (Option-cases (first_row (λ l. l.create_idempotency_key == input.key) s.lists)) [
      | inr (l, e) ↦ rw (e, create) (same-Follows s)
      | inl e ↦
          rw (e, create)
            (if_split Kept (not (any (λ x. x == input.session) sessions)) (λ b. same-Follows s)
              (λ b.
                if_split Kept
                  (not (is_valid (validate_groups input.session input.group_ids groups)))
                  (λ c. same-Follows s)
                  (λ c.
                    if_split Kept (name_taken fold input.session input.title new_id s.lists)
                      (λ d. same-Follows s)
                      (λ d. insert-Follows (new_list input new_id now) input.group_ids s fresh))))
    ]
  where
    Kept : CreateResult × Lists → Type 0
    Kept r = Follows s r.1

write-Follows :
    (ranks : Ranks) (row : GroupList) (ids : List ℕ) (now : ℕ) (s : Lists)
    → Follows s (write_members ranks row ids now s)
unfolding write_members
write-Follows ranks row ids now s =
    if_split (Follows s) (same_ids (order_by ranks.database (item_ids row.id s.items)) next)
      (λ b. same-Follows s)
      (λ b id l e. (
        update_row (with_id row.id) (bump_membership now) l,
        record {
          found =
              first_row-updated id (with_id row.id) (bump_membership now) s.lists {l = l}
                (λ x. refl) e;
          moved =
              if_split (Goal id l) (with_id row.id l) (λ c. inr (ground arith))
                (λ c. inl (refl, elsewhere id l e c));
        },
      ))
  where
    next : List ℕ
    next = order_by ranks.script ids

    Goal : ℕ → GroupList → GroupList → Type 0
    Goal id l m =
        ((l ≡ m)
          × (item_ids id s.items
              ≡ item_ids id (
                  insert_items row.id row.session_id next (delete_where (item_of row.id) s.items))))
        ⊎ (l.revision < m.revision)

    elsewhere :
        (id : ℕ) (l : GroupList)
        → first_row (with_id id) s.lists ≡ some l
        → with_id row.id l ≡ false
        → item_ids id s.items
          ≡ item_ids id
              (insert_items row.id row.session_id next (delete_where (item_of row.id) s.items))
    elsewhere id l e c = sym (
        item_ids-other id row.id row.session_id next s.items
          (ground (arith, ==-eq l.id id (first_row-selected (with_id id) s.lists {x = l} e))))

replace-Follows :
    (ranks : Ranks) (id : ℕ) (ids : List ℕ) (expected : ℕ) (membership : Option ℕ) (now : ℕ)
    (groups : List GroupRow) (s : Lists)
    → Follows s (replace_groups ranks id ids expected membership now groups s).1
unfolding replace_groups
replace-Follows ranks id ids expected membership now groups s =
    elim (Option-cases (first_row (open_list id) s.lists)) [
      | inl e ↦ rw (e, replace_groups) (same-Follows s)
      | inr (l, e) ↦
          rw (e, replace_groups)
            (if_split Kept
              (not (l.revision == expected) || differs membership l.membership_revision)
              (λ b. same-Follows s)
              (λ b.
                if_split Kept (not (is_valid (validate_groups l.session_id ids groups)))
                  (λ c. same-Follows s) (λ c. write-Follows ranks l ids now s)))
    ]
  where
    Kept : ReplaceResult × Lists → Type 0
    Kept r = Follows s r.1

Step-Follows : {s t : Lists} → Step s t → Follows s t
unfolding archive
Step-Follows {s} (created fold input new_id now sessions groups fresh) =
    create-Follows fold input new_id now sessions groups s fresh
Step-Follows {s} (edited fold id title about expected now) =
    edit-Follows fold id title about expected now s
Step-Follows {s} (archived id expected now) =
    update-Follows (at_revision id expected) (archive_row now) s (λ x. refl)
      (λ x sel. inr (omega arith))
Step-Follows {s} (members_replaced ranks id ids expected membership now groups) =
    replace-Follows ranks id ids expected membership now groups s

Moved-trans :
    (s t u : Lists) (id : ℕ) (l m n : GroupList)
    → Moved s t id l m
    → Moved t u id m n
    → Moved s u id l n
Moved-trans s t u id l m n h k = record { found = k.found; moved = both h.moved k.moved }
  where
    both :
        ((l ≡ m) × (item_ids id s.items ≡ item_ids id t.items)) ⊎ (l.revision < m.revision)
        → ((m ≡ n) × (item_ids id t.items ≡ item_ids id u.items)) ⊎ (m.revision < n.revision)
        → ((l ≡ n) × (item_ids id s.items ≡ item_ids id u.items)) ⊎ (l.revision < n.revision)
    both (inl (a, b)) (inl (c, d)) = inl (a ∙ c, b ∙ d)
    both (inl (a, b)) (inr c) = inr (rw a c)
    both (inr a) (inl (c, d)) = inr (rw⁻¹ c a)
    both (inr a) (inr c) = inr (omega (arith, a, c))

-- Over any sequence of creations, edits, archivals and replacements of groups, a list that is there
-- stays, and either its row and its groups are the same, or its revision has risen.
pub Reach-Moved :
    {s t : Lists}
    → Reach s t
    → (id : ℕ) (l : GroupList) → first_row (with_id id) s.lists ≡ some l
    → (m : GroupList) × Moved s t id l m
Reach-Moved {s} here id l e = same-Follows s id l e
Reach-Moved {s} {t} (next {e = u} r st) id l e =
    let (m, h) = Reach-Moved r id l e in
    let (n, k) = Step-Follows st id m h.found in (n, Moved-trans s u t id l m n h k)
