-- ===== src/Campaign/RunService.antt =====
-- src/modules/campaigns/campaign-run.service.ts: create, get, pause and cancel. What an operation reads before it
-- calls the repository is a table of its own, `seen`: other writers may come between. Texts are tokens, and 0 is the
-- empty string. CampaignRunRepository.cancel gives the run or null, here a Bool.
use wa_runtime.Base.{
  ℕ, Bool, true, false, not, Option, none, some, ◌==◌, member, ltb, if◌then◌else◌,
}
use wa_runtime.Base.Sql.{first_row}
use wa_runtime.Base.Answer.{Answer, ok, refused, ◌>>=◌, ◌>>◌, Done, refuse_if, then_call}
use wa_runtime.Campaign.Tables.{Db, CampaignRun, RunStatus, Mode, by_run_id, is_open, is_underway}
use wa_runtime.Campaign.Service.{CampaignError, Env, get}
use wa_runtime.Campaign.Launch.{
  LaunchInput, LaunchResult, create, campaign_not_found, campaign_not_launchable, schedule_expired,
  replayed, revision_conflict, created,
}
use wa_runtime.Campaign.Lifecycle.{pause, cancel}

pub data RunError : Type 0 where
  key_required key_invalid run_campaign_not_found run_key_conflict : RunError
  run_launch_conflict run_schedule_expired run_not_found run_state_changed : RunError
  run_revision_conflict : (current_campaign_revision current_targets_revision : ℕ) → RunError
  run_state_conflict : RunStatus → RunError
  from_campaigns : CampaignError → RunError

pub record CreateRun : Type 0 where
  pub campaign : ℕ
  pub key : Option ℕ
  pub mode : Mode
  pub expected_campaign_revision : Option ℕ
  pub expected_targets_revision : Option ℕ

run_key : Env → Option ℕ → ℕ
run_key env none = 0
run_key env (some k) = env.trim k

abbrev from_service : {A : Type 0} → Answer CampaignError A → Answer RunError A
from_service (ok a) = ok a
from_service (refused e) = refused (from_campaigns e)

launch_input : ℕ → CreateRun → LaunchInput
launch_input key dto = record {
  campaign = dto.campaign;
  key = key;
  mode = dto.mode;
  expected_campaign_revision = dto.expected_campaign_revision;
  expected_targets_revision = dto.expected_targets_revision;
}

-- text_length is the length of a text in UTF-16 code units.
unfoldable pub check_run : Env → (ℕ → ℕ) → CreateRun → Db → Answer RunError LaunchInput
unfolding run_key launch_input
check_run env text_length dto seen = do
  refuse_if (run_key env dto.key == 0) key_required
  refuse_if (ltb 200 (text_length (run_key env dto.key))) key_invalid
  from_service (get env dto.campaign seen)
  ok (launch_input (run_key env dto.key) dto)

unfoldable pub launch_answer : LaunchResult → Answer RunError CampaignRun
launch_answer campaign_not_found = refused run_campaign_not_found
launch_answer (replayed r conflict) = if conflict then refused run_key_conflict else ok r
launch_answer campaign_not_launchable = refused run_launch_conflict
launch_answer (revision_conflict current targets) = refused (run_revision_conflict current targets)
launch_answer schedule_expired = refused run_schedule_expired
launch_answer (created r) = ok r

unfoldable pub create_run :
    Env → (ℕ → ℕ) → CreateRun → ℕ → ℕ → ℕ → Db → Db → Answer RunError CampaignRun × Db
unfolding check_run then_call launch_answer
create_run env text_length dto new_id js_now now seen db =
    then_call (check_run env text_length dto seen)
      (λ input.
        let (result, after) = create input new_id js_now now db in (launch_answer result, after))
      db

run_visible_to : Env → Option CampaignRun → Answer RunError CampaignRun
run_visible_to env none = refused run_not_found
run_visible_to env (some r) =
    if member r.session_id env.allowed then ok r else refused run_not_found

unfoldable pub get_run : Env → ℕ → Db → Answer RunError CampaignRun
unfolding run_visible_to
get_run env id db = run_visible_to env (first_row (by_run_id id) db.runs)

unfoldable pub check_status : Env → (RunStatus → Bool) → ℕ → Db → Answer RunError Done
unfolding get_run
check_status env allowed id seen = do
  current ← get_run env id seen
  refuse_if (not (allowed current.status)) (run_state_conflict current.status)

unfoldable pub pause_answer : Option CampaignRun → Answer RunError CampaignRun
pause_answer none = refused run_state_changed
pause_answer (some r) = ok r

unfoldable pub pause_run : Env → ℕ → ℕ → Db → Db → Answer RunError CampaignRun × Db
unfolding check_status then_call pause_answer
pause_run env id now seen db =
    then_call (check_status env is_underway id seen)
      (λ u. let (run, after) = pause id now db in (pause_answer run, after)) db

unfoldable pub cancel_answer : Bool → Answer RunError Done
cancel_answer true = ok tt
cancel_answer false = refused run_state_changed

unfoldable pub cancel_run_of : Env → ℕ → (ℕ → Bool) → ℕ → Db → Db → Answer RunError Done × Db
unfolding check_status then_call cancel_answer
cancel_run_of env id gone now seen db =
    then_call (check_status env is_open id seen)
      (λ u. let (found, after) = cancel id gone now db in (cancel_answer found, after)) db
