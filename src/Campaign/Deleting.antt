-- ===== src/Campaign/Deleting.antt =====
-- delete of src/modules/campaigns/campaign.repository.ts: which campaigns a deletion
-- takes.
use wa_runtime.Base.{
  ℕ, true, false, not, none, some, List, [], ◌∷◌, ◌≡◌, refl, inl, inr, arith, Option-cases,
  if_split, is_null, any,
}
use wa_runtime.Base.Sql.{first_row, update_where}
use wa_runtime.Campaign.Tables.{Db, Campaign}
use wa_runtime.Campaign.Drafts.{
  DeleteInput, DeleteResult, deleted, delete_draft, delete_on, allowed_row, stale, deletable,
  open_run_of, tombstone, visible,
}

-- What a deletion found and left.
pub record Deleted (input : DeleteInput) (db after : Db) (c : Campaign) : Type 0 where
  pub found : first_row (allowed_row input) db.campaigns ≡ some c
  pub ended : deletable c.status ≡ true
  pub current : stale input c ≡ false
  pub idle : any (open_run_of input.campaign) db.runs ≡ false
  pub hidden : first_row (visible input.campaign) after.campaigns ≡ none
  pub runs : after.runs ≡ db.runs
  pub targets : after.targets ≡ db.targets

hidden_after :
    (id now : ℕ) (cs : List Campaign)
    → first_row (visible id) (update_where (visible id) (tombstone now) cs) ≡ none
hidden_after id now [] = refl
hidden_after id now (c ∷ cs) = ground (arith, hidden_after id now cs)

-- A deletion that succeeds found, in an allowed session, a campaign that is DRAFT or ARCHIVED at the
-- revisions the caller expected, with no open run. Afterwards no visible campaign has the id, and the
-- runs and the targets are what they were.
pub delete_draft-Deleted :
    (input : DeleteInput) (now : ℕ) (db : Db)
    → (delete_draft input now db).0 ≡ deleted
    → (c : Campaign) × Deleted input db (delete_draft input now db).1 c
unfolding delete_draft delete_on
delete_draft-Deleted input now db =
    elim (Option-cases (first_row (allowed_row input) db.campaigns)) [
      | inl gone ↦ rw gone (λ h. absurd (ground (arith, h)))
      | inr (c, found) ↦ rw found (
          if_split Ok (not (is_null c.deleted_at)) (λ t h. absurd (ground (arith, h)))
            (λ a.
              if_split Ok (stale input c) (λ t h. absurd (ground (arith, h)))
                (λ current.
                  if_split Ok (not (deletable c.status)) (λ t h. absurd (ground (arith, h)))
                    (λ ended.
                      if_split Ok (any (open_run_of input.campaign) db.runs)
                        (λ t h. absurd (ground (arith, h)))
                        (λ idle h. (
                          c,
                          record {
                            found = found;
                            ended = ground (arith, ended);
                            current = current;
                            idle = idle;
                            hidden = hidden_after input.campaign now db.campaigns;
                            runs = refl;
                            targets = refl;
                          },
                        ))))))
    ]
  where
    Ok : DeleteResult × Db → Type 0
    Ok r = r.0 ≡ deleted → (c : Campaign) × Deleted input db r.1 c
