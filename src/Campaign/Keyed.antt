-- ===== src/Campaign/Keyed.antt =====
-- The idempotency key of create of src/modules/campaigns/campaign.repository.ts, whatever happens to the campaign
-- tables later.
use wa_runtime.Base.{
  ℕ, Bool, false, not, none, some, List, [], ◌∷◌, ◌++◌, ◌≡◌, refl, inl, inr, arith, ◌==◌, ==-refl,
  Option-cases, is_null,
}
use wa_runtime.Base.Sql.{first_row, Grows-trans, first_row-Grows}
use wa_runtime.Campaign.Tables.{Db, Campaign}
use wa_runtime.Campaign.Drafts.{
  DraftInput, create_draft, create_draft_on, new_campaign, update_draft, editable, edit_row,
}
use wa_runtime.Campaign.Preparation.{
  claim_preparation, recover_expired_preparations, fail_preparation_attempt,
}
use wa_runtime.Campaign.Lifecycle.{activate_due, finalize, pause, record_blocked_resume}
use wa_runtime.Campaign.Delivery.{reconcile}
use wa_runtime.Campaign.Step.{
  Step, Reach, here, next, drafted, edited, targets_replaced, list_applied, campaign_deleted,
  launched, claimed, recovered, attempt_failed, preflighted, activated, finalized,
  paused_by_operator, blocked_again, resumed_by_operator, cancelled_by_operator, reconciled,
  materialized_some, expired, delete_campaign_runs,
}
use wa_runtime.Campaign.Keeping.{
  SameKey, SameKey-trans, unchanged, updated, set-Keeps, draft-Keeps, replace-Keeps, apply-Keeps,
  delete-Keeps, Keeps,
}
use wa_runtime.Campaign.RunKeeping.{
  preflight-Keeps, resume-Keeps, cancel-Keeps, materialize-Keeps, launch-Keeps,
}

Step-Keeps : {db e : Db} → Step db e → Keeps db e
unfolding update_draft claim_preparation recover_expired_preparations fail_preparation_attempt
    activate_due finalize pause record_blocked_resume reconcile delete_campaign_runs
Step-Keeps {db} (drafted input new_id now fresh none_live) = draft-Keeps input new_id now db
Step-Keeps {db} (edited id x expected now) =
    updated (editable id expected) (edit_row x now) db.campaigns
      (λ c. record { id = refl; key = refl; hash = refl })
Step-Keeps {db} (targets_replaced ranks id ids expected now) =
    replace-Keeps ranks id ids expected now db
Step-Keeps {db} (list_applied ranks input lists now) = apply-Keeps ranks input lists now db
Step-Keeps {db} (campaign_deleted input now) = delete-Keeps input now db
Step-Keeps {db} (launched input new_id js_now now fresh) = launch-Keeps input new_id js_now now db
Step-Keeps {db} (claimed id token now) = unchanged db
Step-Keeps {db} (recovered now) = set-Keeps _ _ _ now db.campaigns
Step-Keeps {db} (attempt_failed id token message now) = set-Keeps _ _ _ now db.campaigns
Step-Keeps {db} (preflighted id token report observed js_now now) =
    preflight-Keeps id token report observed js_now now db
Step-Keeps {db} (activated now) = unchanged db
Step-Keeps {db} (finalized limit now) = set-Keeps _ _ _ now db.campaigns
Step-Keeps {db} (paused_by_operator id now) = set-Keeps _ _ _ now db.campaigns
Step-Keeps {db} (blocked_again id report) = unchanged db
Step-Keeps {db} (resumed_by_operator id report observed js_now now) =
    resume-Keeps id report observed js_now now db
Step-Keeps {db} (cancelled_by_operator id gone now) = cancel-Keeps id gone now db
Step-Keeps {db} (reconciled s) = unchanged db
Step-Keeps {db} (materialized_some sup id max_buffered s) =
    materialize-Keeps sup id max_buffered s db
Step-Keeps {db} (expired chosen) = unchanged db

Reach-Keeps : {db e : Db} → Reach db e → Keeps db e
Reach-Keeps {db} here = unchanged db
Reach-Keeps {db} {e} (next {d = d} r st) =
    Grows-trans SameKey db.campaigns d.campaigns e.campaigns SameKey-trans (Reach-Keeps r)
      (Step-Keeps st)

abbrev with_key : ℕ → Campaign → Bool
with_key key c = c.create_idempotency_key == key

same_key-found :
    (key : ℕ) (cs : List Campaign) (c : Campaign)
    → first_row (with_key key) cs ≡ none
    → c.create_idempotency_key ≡ key
    → first_row (with_key key) (cs ++ c ∷ []) ≡ some c
same_key-found key [] c h e = ground (arith, e, ==-refl key)
same_key-found key (d ∷ cs) c h e = ground (arith, same_key-found key cs c)

-- After a request, the selection by its key finds the campaign that it answered.
create_draft-finds :
    (input : DraftInput) (new_id now : ℕ) (db : Db)
    → let (r, after) = create_draft input new_id now db in
      first_row (with_key input.key) after.campaigns ≡ some r.campaign
unfolding create_draft create_draft_on
create_draft-finds input new_id now db =
    elim (Option-cases (first_row (with_key input.key) db.campaigns)) [
      | inl fresh ↦
          rw fresh
            (same_key-found input.key db.campaigns (new_campaign input new_id now) fresh refl)
      | inr (c, found) ↦ rw found found
    ]

create_draft-replays :
    (input : DraftInput) (new_id now : ℕ) (db : Db) {c : Campaign}
    → first_row (with_key input.key) db.campaigns ≡ some c
    → create_draft input new_id now db ≡ (
      record {
        campaign = c;
        created = false;
        request_hash = c.create_request_hash;
        deleted = not (is_null c.deleted_at);
      },
      db,
    )
unfolding create_draft create_draft_on
create_draft-replays input new_id now db found = rw found refl

-- A second request with the key of a first, whatever else it says and whatever happened to the campaign
-- tables between them, a deletion of the first one's campaign included, makes no campaign: it changes
-- nothing, and it returns that campaign with the request hash that the key was first used with, and says
-- whether the campaign is deleted.
pub create_draft-once :
    (first second : DraftInput) (new_id now id2 later : ℕ) (db : Db) {t : Db}
    → Reach (create_draft first new_id now db).1 t
    → second.key ≡ first.key
    → let r = (create_draft first new_id now db).0 in
      let (again, last) = create_draft second id2 later t in
      (last ≡ t)
      × (again.created ≡ false)
      × (again.campaign.id ≡ r.campaign.id)
      × (again.request_hash ≡ r.campaign.create_request_hash)
      × (again.deleted ≡ not (is_null again.campaign.deleted_at))
      × (first_row (λ c. c.create_idempotency_key == first.key) t.campaigns ≡ some again.campaign)
create_draft-once first second new_id now id2 later db {t} reach same =
    let after = (create_draft first new_id now db).1 in
    let (c, found, kept) =
      first_row-Grows SameKey (with_key first.key) after.campaigns t.campaigns
        (λ a b e. rw e.key refl) (Reach-Keeps reach) (create_draft-finds first new_id now db) in
    rw (create_draft-replays second id2 later t {c = c} (rw same found))
      (refl, refl, kept.id, kept.hash, refl, found)
