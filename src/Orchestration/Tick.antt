-- ===== src/Orchestration/Tick.antt =====
-- execute and nextDelayMs of src/modules/orchestration/isolated-scheduler-tick.ts. Between its awaits other
-- calls may run: begin is execute up to its first report, launch what follows that report up to the
-- operation, finish what follows the operation up to the second report; report does not throw. The timers
-- of start, stop and schedule are left out; any call of execute may come at any time.
use wa_runtime.Base.{
  ℕ, zero, suc, ◌+◌, ◌-◌, ◌*◌, ◌^◌, ◌≤◌, min, Bool, true, false, ◌||◌, Option, none, some, ◌≡◌, ◌⊎◌,
  ◌↔◌, refl, inr, arith, ◌==◌, if◌then◌else◌,
}
use native.Mathlib.Nat.{mul-suc}
use wa_runtime.Base.Backoff.{pow_pos}

pub record Options : Type 0 where
  pub interval_ms : ℕ
  pub max_backoff_ms : ℕ

pub data Outcome : Type 0 where
  succeeded failed timed_out skipped_overlap : Outcome

-- reports counts the calls of execute that await their first report, operations the calls of
-- options.operation that have not settled; the times are instants.
pub record Tick : Type 0 where
  pub running : Bool
  pub has_timed_out : Bool
  pub consecutive_failures : ℕ
  pub last_started_at : Option ℕ
  pub last_success_at : Option ℕ
  pub last_failure_at : Option ℕ
  pub last_duration_ms : Option ℕ
  pub next_run_at : Option ℕ
  pub reports : ℕ
  pub operations : ℕ

abbrev pub fresh : Tick
fresh = record {
  running = false;
  has_timed_out = false;
  consecutive_failures = 0;
  last_started_at = none;
  last_success_at = none;
  last_failure_at = none;
  last_duration_ms = none;
  next_run_at = none;
  reports = 0;
  operations = 0;
}

unfoldable pub next_delay_ms : Options → ℕ → ℕ
next_delay_ms o failures =
    if failures == 0
    then o.interval_ms
    else min o.max_backoff_ms (o.interval_ms * 2 ^ min failures 10)

-- none where the call goes on to its first report.
unfoldable pub begin : ℕ → Tick → Option Outcome × Tick
begin now t = if t.running then (some skipped_overlap, t) else (
  none,
  record t {
    running = true;
    has_timed_out = false;
    last_started_at = some now;
    next_run_at = none;
    reports = t.reports + 1;
  },
)

-- After the report the timer is set and the operation is called.
unfoldable pub launch : Tick → Tick
launch t = record t { reports = t.reports - 1; operations = t.operations + 1 }

-- The timer's callback.
unfoldable pub time_out : Tick → Tick
time_out t = record t { has_timed_out = true }

fail_or : Bool → Outcome
fail_or true = timed_out
fail_or false = failed

unfoldable pub finish : Options → Bool → ℕ → ℕ → Tick → Outcome × Tick
unfolding fail_or next_delay_ms
finish o error started now t =
    let bad = error || t.has_timed_out in
    let failures = if bad then t.consecutive_failures + 1 else 0 in
    (
      if bad then fail_or t.has_timed_out else succeeded,
      record t {
        running = false;
        consecutive_failures = failures;
        last_duration_ms = some (now - started);
        last_failure_at = if bad then some now else t.last_failure_at;
        last_success_at = if bad then t.last_success_at else some now;
        next_run_at = some (now + next_delay_ms o failures);
        operations = t.operations - 1;
      },
    )

pub data Step (o : Options) (t : Tick) : Tick → Type 0 where
  began : (now : ℕ) → Step o t (begin now t).1
  launched : 1 ≤ t.reports → Step o t (launch t)
  timeout_fired : 1 ≤ t.operations → Step o t (time_out t)
  finished :
      (error : Bool) (started now : ℕ)
      → 1 ≤ t.operations
      → Step o t (finish o error started now t).1

pub data Reach (o : Options) (t : Tick) : Tick → Type 0 where
  here : Reach o t t
  next : {u v : Tick} → Reach o t u → Step o u v → Reach o t v

abbrev Guarded : Tick → Type 0
Guarded t =
    ((t.running ≡ true) × (t.reports + t.operations ≡ 1))
    ⊎ ((t.running ≡ false) × (t.reports + t.operations ≡ 0))

Step-Guarded : {o : Options} {t u : Tick} → Step o t u → Guarded t → Guarded u
unfolding begin launch time_out finish
Step-Guarded (began now) h = ground (arith, h)
Step-Guarded (launched waiting) h = ground (arith, h, waiting)
Step-Guarded (timeout_fired busy) h = h
Step-Guarded (finished error started now busy) h = ground (arith, h, busy)

Reach-Guarded : {o : Options} {t u : Tick} → Reach o t u → Guarded t → Guarded u
Reach-Guarded here h = h
Reach-Guarded (next r st) h = Step-Guarded st (Reach-Guarded r h)

-- However calls of execute, reports, timeouts and settlements interleave: at most one operation of a tick
-- is in progress, none while a call still awaits its first report, and the tick says that it is running
-- exactly when there is such a call or such an operation, also after a timeout.
pub Reach-exclusive :
    {o : Options} {t : Tick}
    → Reach o fresh t
    → (t.operations ≤ 1)
      × (1 ≤ t.reports → t.operations ≡ 0)
      × ((t.running ≡ true) ↔ (1 ≤ t.reports + t.operations))
Reach-exclusive r =
    let h = Reach-Guarded r (inr (refl, refl)) in
    (
      ground (arith, h),
      (λ w. ground (arith, h, w)),
      ((λ e. ground (arith, h, e)), (λ w. ground (arith, h, w))),
    )

mul_grows : (a p : ℕ) → 1 ≤ p → a ≤ a * p
mul_grows a zero h = absurd (omega (arith, h))
mul_grows a (suc q) h = omega (arith, mul-suc a q)

-- Where the interval is at most the longest backoff: the delay before the next run is at least the
-- interval and at most the longest backoff, and it is the interval itself after a success.
pub next_delay_ms-bounds :
    (o : Options) (failures : ℕ)
    → o.interval_ms ≤ o.max_backoff_ms
    → (o.interval_ms ≤ next_delay_ms o failures)
      × (next_delay_ms o failures ≤ o.max_backoff_ms)
      × (next_delay_ms o 0 ≡ o.interval_ms)
unfolding next_delay_ms
next_delay_ms-bounds o failures h =
    let grows = mul_grows o.interval_ms (2 ^ min failures 10) (pow_pos (min failures 10)) in
    (ground (arith, h, grows), ground (arith, h), refl)
