-- ===== src/Gateway/RateLimit.antt =====
-- src/modules/gateway/gateway-sync-rate-limit.repository.ts: the pacing of group reads in a session.
-- 60_000 / rate is rounded down to a millisecond; cool_ms is the random cooldown that failure draws
-- when the gateway named none.
use wa_runtime.Base.{
  ℕ, ◌+◌, ◌/◌, ◌≤◌, min, max, Bool, ◌&&◌, ◌||◌, Option, none, some, List, [], ◌∷◌, ◌++◌, inl, inr,
  arith, leb, ◌==◌, after, before, holds, is_null, or_else, any, if◌then◌else◌, All, All-of,
  All-append, Bool-cases, if_split,
}
use wa_runtime.Base.Sql.{update_where, row_count, first_row, All-update_where}

pub record RateLimit : Type 0 where
  pub session_id : ℕ
  pub effective_rate : Option ℕ
  pub next_request_at : ℕ
  pub cooldown_until : Option ℕ
  pub active_lease_token : Option ℕ
  pub active_lease_expires_at : Option ℕ
  pub consecutive_failures : ℕ
  pub success_streak : ℕ
  pub last_rate_pressure_at : Option ℕ

pub record Config : Type 0 where
  pub groups_per_minute : ℕ
  pub min_groups_per_minute : ℕ
  pub adaptive_pacing : Bool
  pub recovery_successes : ℕ
  pub item_max_attempts : ℕ
  pub debounce_ms : ℕ
  pub max_wait_ms : ℕ

pub record FailurePolicy : Type 0 where
  pub rate_pressure : Bool
  pub reduce_rate : Bool
  pub retry_after_ms : Option ℕ
  pub retryable : Bool
  pub code : ℕ

abbrev pub limit_of : ℕ → RateLimit → Bool
limit_of session l = l.session_id == session

abbrev pub new_limit : Config → ℕ → ℕ → RateLimit
new_limit cfg session now = record {
  session_id = session;
  effective_rate = some cfg.groups_per_minute;
  next_request_at = now;
  cooldown_until = none;
  active_lease_token = none;
  active_lease_expires_at = none;
  consecutive_failures = 0;
  success_streak = 0;
  last_rate_pressure_at = none;
}

abbrev pub cap_row : Config → RateLimit → RateLimit
cap_row cfg l = record l {
  effective_rate =
      some (min (or_else l.effective_rate cfg.groups_per_minute) cfg.groups_per_minute);
}

unfoldable pub ensure : Config → ℕ → ℕ → List RateLimit → List RateLimit
ensure cfg session now ls =
    if any (limit_of session) ls
    then update_where (limit_of session) (cap_row cfg) ls
    else ls ++ new_limit cfg session now ∷ []

abbrev pub lease_free : ℕ → RateLimit → Bool
lease_free now l = is_null l.active_lease_token || before l.active_lease_expires_at now

abbrev pub ready : ℕ → RateLimit → Bool
ready now l = leb (max l.next_request_at (or_else l.cooldown_until 0)) now && lease_free now l

rate_on : Config → ℕ → Option RateLimit → Option ℕ
rate_on cfg now none = none
rate_on cfg now (some l) =
    if ready now l
    then some (
        if cfg.adaptive_pacing
        then or_else l.effective_rate cfg.groups_per_minute
        else cfg.groups_per_minute)
    else none

unfoldable pub ready_and_rate : Config → ℕ → ℕ → List RateLimit → Option ℕ
unfolding rate_on
ready_and_rate cfg session now ls = rate_on cfg now (first_row (limit_of session) ls)

abbrev pub acquire_row : ℕ → ℕ → ℕ → RateLimit → RateLimit
acquire_row token rate now l = record l {
  next_request_at = now + 60000 / rate;
  active_lease_token = some token;
  active_lease_expires_at = some (now + 120000);
}

unfoldable pub acquire : ℕ → ℕ → ℕ → ℕ → List RateLimit → List RateLimit
acquire session token rate now ls = update_where (limit_of session) (acquire_row token rate now) ls

abbrev pub held_by : ℕ → ℕ → RateLimit → Bool
held_by session token l = l.session_id == session && holds l.active_lease_token token

abbrev pub live_holder : ℕ → ℕ → ℕ → RateLimit → Bool
live_holder session token now l = held_by session token l && after l.active_lease_expires_at now

abbrev pub extend_row : ℕ → RateLimit → RateLimit
extend_row now l = record l { active_lease_expires_at = some (now + 120000) }

unfoldable pub renew : ℕ → ℕ → ℕ → List RateLimit → Bool × List RateLimit
renew session token now ls = (
  row_count (live_holder session token now) ls == 1,
  update_where (live_holder session token now) (extend_row now) ls,
)

abbrev pub raised : Config → RateLimit → ℕ
raised cfg l =
    let current = or_else l.effective_rate cfg.groups_per_minute in
    if cfg.adaptive_pacing && leb cfg.recovery_successes (l.success_streak + 1)
    then min cfg.groups_per_minute (current + 1)
    else current

abbrev pub success_row : Config → RateLimit → RateLimit
success_row cfg l = record l {
  consecutive_failures = 0;
  cooldown_until = none;
  success_streak = if cfg.adaptive_pacing then l.success_streak + 1 else 0;
  effective_rate = some (raised cfg l);
  active_lease_token = none;
  active_lease_expires_at = none;
}

abbrev pub streak_full : Config → ℕ → RateLimit → Bool
streak_full cfg session l =
    l.session_id == session
    && is_null l.active_lease_token
    && leb cfg.recovery_successes l.success_streak

abbrev pub reset_streak : RateLimit → RateLimit
reset_streak l = record l { success_streak = 0 }

unfoldable pub success : Config → ℕ → ℕ → List RateLimit → List RateLimit
success cfg session token ls =
    let updated = update_where (held_by session token) (success_row cfg) ls in
    if cfg.adaptive_pacing
    then update_where (streak_full cfg session) reset_streak updated
    else updated

abbrev pub lowered : Config → FailurePolicy → RateLimit → ℕ
lowered cfg policy l =
    let current = or_else l.effective_rate cfg.groups_per_minute in
    if policy.reduce_rate && cfg.adaptive_pacing
    then max cfg.min_groups_per_minute (current / 2)
    else current

abbrev pub failure_row : Config → FailurePolicy → ℕ → ℕ → RateLimit → RateLimit
failure_row cfg policy cool_ms now l = record l {
  consecutive_failures =
      if policy.rate_pressure then l.consecutive_failures + 1 else l.consecutive_failures;
  cooldown_until =
      if policy.rate_pressure
      then some (now + or_else policy.retry_after_ms cool_ms)
      else l.cooldown_until;
  effective_rate = some (lowered cfg policy l);
  success_streak = if policy.rate_pressure then 0 else l.success_streak;
  last_rate_pressure_at = if policy.rate_pressure then some now else l.last_rate_pressure_at;
  active_lease_token = none;
  active_lease_expires_at = none;
}

unfoldable pub failure : Config → FailurePolicy → ℕ → ℕ → ℕ → ℕ → List RateLimit → List RateLimit
failure cfg policy session token cool_ms now ls =
    update_where (held_by session token) (failure_row cfg policy cool_ms now) ls

abbrev pub release_row : RateLimit → RateLimit
release_row l = record l { active_lease_token = none; active_lease_expires_at = none }

unfoldable pub release : ℕ → ℕ → List RateLimit → List RateLimit
release session token ls = update_where (held_by session token) release_row ls

reserve_on : Option ℕ → ℕ → ℕ → ℕ → List RateLimit → Option ℕ × List RateLimit
reserve_on none session token now ls = (none, ls)
reserve_on (some rate) session token now ls = (some token, acquire session token rate now ls)

unfoldable pub reserve : Config → ℕ → ℕ → ℕ → List RateLimit → Option ℕ × List RateLimit
unfolding reserve_on
reserve cfg session token now ls =
    let ensured = ensure cfg session now ls in
    reserve_on (ready_and_rate cfg session now ensured) session token now ensured

-- The pace stays between the configured bounds.
abbrev pub InBounds : Config → RateLimit → Type 0
InBounds cfg l =
    (cfg.min_groups_per_minute ≤ or_else l.effective_rate cfg.groups_per_minute)
    × (or_else l.effective_rate cfg.groups_per_minute ≤ cfg.groups_per_minute)

pub data Op : Type 0 where
  do_ensure : ℕ → ℕ → Op
  do_acquire : ℕ → ℕ → ℕ → ℕ → Op
  do_renew : ℕ → ℕ → ℕ → Op
  do_success : ℕ → ℕ → Op
  do_failure : FailurePolicy → ℕ → ℕ → ℕ → ℕ → Op
  do_release : ℕ → ℕ → Op

abbrev pub apply : Config → Op → List RateLimit → List RateLimit
apply cfg (do_ensure session now) ls = ensure cfg session now ls
apply cfg (do_acquire session token rate now) ls = acquire session token rate now ls
apply cfg (do_renew session token now) ls = (renew session token now ls).1
apply cfg (do_success session token) ls = success cfg session token ls
apply cfg (do_failure policy session token cool_ms now) ls =
    failure cfg policy session token cool_ms now ls
apply cfg (do_release session token) ls = release session token ls

update-InBounds :
    (cfg : Config) (p : RateLimit → Bool) (f : RateLimit → RateLimit) (ls : List RateLimit)
    → ((l : RateLimit) → InBounds cfg l → InBounds cfg (f l))
    → All (InBounds cfg) ls
    → All (InBounds cfg) (update_where p f ls)
update-InBounds cfg p f ls keep h =
    All-update_where (InBounds cfg) p f ls (All-of _ ls (λ l sel k. keep l k)) h

-- When the configured minimum is at most the configured pace, every statement on the rate limits keeps
-- every session's effective pace between the two.
pub apply-InBounds :
    (cfg : Config) (op : Op) (ls : List RateLimit)
    → cfg.min_groups_per_minute ≤ cfg.groups_per_minute
    → All (InBounds cfg) ls
    → All (InBounds cfg) (apply cfg op ls)
unfolding ensure acquire renew success failure release
apply-InBounds cfg (do_ensure session now) ls m h = elim (Bool-cases (any (limit_of session) ls)) [
  | inl e ↦
      rw (e, ensure)
        (update-InBounds cfg (limit_of session) (cap_row cfg) ls (λ l k. ground arith) h)
  | inr e ↦ rw (e, ensure) (All-append (InBounds cfg) ls _ h (ground arith, tt))
]
apply-InBounds cfg (do_acquire session token rate now) ls m h =
    update-InBounds cfg _ (acquire_row token rate now) ls (λ l k. k) h
apply-InBounds cfg (do_renew session token now) ls m h =
    update-InBounds cfg _ (extend_row now) ls (λ l k. k) h
apply-InBounds cfg (do_success session token) ls m h =
    let updated =
      update-InBounds cfg (held_by session token) (success_row cfg) ls (λ l k. ground arith) h in
    if_split (All (InBounds cfg)) cfg.adaptive_pacing
      (λ b. update-InBounds cfg (streak_full cfg session) reset_streak _ (λ l k. k) updated)
      (λ b. updated)
apply-InBounds cfg (do_failure policy session token cool_ms now) ls m h =
    update-InBounds cfg _ (failure_row cfg policy cool_ms now) ls (λ l k. ground arith) h
apply-InBounds cfg (do_release session token) ls m h =
    update-InBounds cfg _ release_row ls (λ l k. k) h
