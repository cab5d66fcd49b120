-- ===== src/GroupList/Failing.antt =====
-- Errors of src/modules/group-lists/group-list.service.ts: a request that fails has written nothing.
use wa_runtime.Base.{
  ℕ, not, any, Option, none, some, List, ◌||◌, ◌==◌, ◌≡◌, refl, inl, inr, arith, if_split,
  Option-cases,
}
use wa_runtime.Base.Sql.{order_by, first_row, update_where-unselected}
use wa_runtime.Base.Answer.{Answer, error_of, then_call-refused}
use wa_runtime.Campaign.Tables.{GroupRow}
use wa_runtime.GroupList.Table.{
  GroupList, Lists, Ranks, CreateInput, CreateResult, UpdateResult, ReplaceResult, create,
  create_on, validate_groups, is_valid, name_taken, update, update_on, at_revision, archive,
  return_row, archive_row, replace_groups, replace_on, open_list, differs,
}
use wa_runtime.GroupList.Service.{
  GroupListError, ListEnv, CreateDto, UpdateDto, check_create, created_answer, create_list,
  check_update, updated_answer, update_list, check_archive, archived_answer, archive_at,
  archive_list, check_replace, replaced_answer, replace_list_groups,
}

pub data ListRequest : Type 0 where
  create_request :
      (ranks : Ranks) (dto : CreateDto) (new_id now : ℕ) (sessions : List ℕ)
      (groups : List GroupRow)
      → ListRequest
  update_request : (id : ℕ) (dto : UpdateDto) (now : ℕ) (seen later : Lists) → ListRequest
  archive_request : (id : ℕ) (expected : Option ℕ) (now : ℕ) (seen later : Lists) → ListRequest
  replace_request :
      (ranks : Ranks) (id : ℕ) (ids : List ℕ) (expected membership : Option ℕ) (now : ℕ)
      (groups : List GroupRow) (seen : Lists)
      → ListRequest

abbrev with_error {ℓ} :
    {A : Type ℓ} → Answer GroupListError A × Lists → Option GroupListError × Lists
with_error r = (error_of r.0, r.1)

unfoldable pub perform : ListEnv → ListRequest → Lists → Option GroupListError × Lists
perform env (create_request ranks dto new_id now sessions groups) db =
    with_error (create_list env ranks dto new_id now sessions groups db)
perform env (update_request id dto now seen later) db =
    with_error (update_list env id dto now seen later db)
perform env (archive_request id expected now seen later) db =
    with_error (archive_list env id expected now seen later db)
perform env (replace_request ranks id ids expected membership now groups seen) db =
    with_error (replace_list_groups env ranks id ids expected membership now groups seen db)

module _ {e : GroupListError} where
  create-refused :
      (fold : ℕ → ℕ) (input : CreateInput) (new_id now : ℕ) (sessions : List ℕ)
      (groups : List GroupRow) (db : Lists)
      → error_of (created_answer input.hash (create fold input new_id now sessions groups db).0)
        ≡ some e
      → (create fold input new_id now sessions groups db).1 ≡ db
  unfolding create create_on created_answer
  create-refused fold input new_id now sessions groups db =
      elim (Option-cases
        (first_row (λ (l : GroupList). l.create_idempotency_key == input.key) db.lists)) [
          | inr (l, found) ↦ rw found (λ h. refl)
          | inl fresh ↦ rw fresh (
              if_split Kept (not (any (λ s. s == input.session) sessions)) (λ t h. refl)
                (λ a.
                  if_split Kept
                    (not (is_valid (validate_groups input.session input.group_ids groups)))
                    (λ t h. refl)
                    (λ b.
                      if_split Kept (name_taken fold input.session input.title new_id db.lists)
                        (λ t h. refl) (λ t h. absurd (ground (arith, h))))))
        ]
    where
      Kept : CreateResult × Lists → Type 0
      Kept r = error_of (created_answer input.hash r.0) ≡ some e → r.1 ≡ db

  update-refused :
      (env : ListEnv) (fold : ℕ → ℕ) (id title : ℕ) (about : Option ℕ) (expected now : ℕ)
      (later db : Lists)
      → error_of (updated_answer env id later (update fold id title about expected now db).0)
        ≡ some e
      → (update fold id title about expected now db).1 ≡ db
  unfolding update update_on updated_answer
  update-refused env fold id title about expected now later db =
      elim (Option-cases (first_row (at_revision id expected) db.lists)) [
        | inl gone ↦ rw gone (λ h. refl)
        | inr (l, found) ↦ rw found (
            if_split Kept (name_taken fold l.session_id title l.id db.lists) (λ t h. refl)
              (λ t h. absurd (ground (arith, h))))
      ]
    where
      Kept : UpdateResult × Lists → Type 0
      Kept r = error_of (updated_answer env id later r.0) ≡ some e → r.1 ≡ db

  archive-refused :
      (env : ListEnv) (id now : ℕ) (later db : Lists) (revision : Option ℕ)
      → error_of (archive_at env id now later db revision).0 ≡ some e
      → (archive_at env id now later db revision).1 ≡ db
  unfolding archive_at archive return_row archived_answer
  archive-refused env id now later db none = λ h. refl
  archive-refused env id now later db (some revision) =
      elim (Option-cases (first_row (at_revision id revision) db.lists)) [
        | inl gone ↦
            rw
              (
                gone,
                update_where-unselected (at_revision id revision) (archive_row now) db.lists gone,
              )
              (λ h. refl)
        | inr (l, found) ↦ rw found (λ h. absurd (ground (arith, h)))
      ]

  replace-refused :
      (ranks : Ranks) (id : ℕ) (ids : List ℕ) (expected : ℕ) (membership : Option ℕ) (now : ℕ)
      (groups : List GroupRow) (db : Lists)
      → error_of (replaced_answer (replace_groups ranks id ids expected membership now groups db).0)
        ≡ some e
      → (replace_groups ranks id ids expected membership now groups db).1 ≡ db
  unfolding replace_groups replace_on replaced_answer
  replace-refused ranks id ids expected membership now groups db =
      elim (Option-cases (first_row (open_list id) db.lists)) [
        | inl gone ↦ rw gone (λ h. refl)
        | inr (l, found) ↦ rw found (
            if_split Kept (not (l.revision == expected) || differs membership l.membership_revision)
              (λ t h. refl)
              (λ a.
                if_split Kept (not (is_valid (validate_groups l.session_id ids groups)))
                  (λ t h. refl) (λ t h. absurd (ground (arith, h)))))
      ]
    where
      Kept : ReplaceResult × Lists → Type 0
      Kept r = error_of (replaced_answer r.0) ≡ some e → r.1 ≡ db

-- A request to create, rename, archive or refill a group list that fails, with whatever error and at
-- whatever point, leaves the lists and their members as they were.
pub perform_list-refused :
    (env : ListEnv) (q : ListRequest) (db : Lists) {e : GroupListError}
    → (perform env q db).0 ≡ some e
    → (perform env q db).1 ≡ db
unfolding perform create_list update_list archive_list replace_list_groups
perform_list-refused env (create_request ranks dto new_id now sessions groups) db h =
    then_call-refused (check_create env ranks dto) _ db
      (λ input k. create-refused env.fold input new_id now sessions groups db k) h
perform_list-refused env (update_request id dto now seen later) db h =
    then_call-refused (check_update env id dto seen) _ db
      (λ x k. update-refused env env.fold id x.new_title x.new_about x.based_on now later db k) h
perform_list-refused env (archive_request id expected now seen later) db h =
    then_call-refused (check_archive env id expected seen) _ db
      (archive-refused env id now later db) h
perform_list-refused env (replace_request ranks id ids expected membership now groups seen) db h =
    then_call-refused (check_replace env id ids expected membership seen) _ db
      (λ l k.
        replace-refused ranks id (order_by ranks.script ids) l.revision membership now groups db k)
      h
