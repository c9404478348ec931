-- ===== src/ProviderSync/Scheduler.antt =====
-- packages/opencode-provider-sync/src/scheduler.ts: the polling of one server. The timer and the end of
-- a run are events.
use native.Mathlib.Nat.{one-le-pow}
use lightbridge_opencode_too.Common.{
  min, ◌∙◌, ℕ, suc, ◌-◌, ◌*◌, ◌^◌, ◌≤◌, ◌≡◌, refl, Bool, true, false, Option, none, some,
  if◌then◌else◌, arith, Bool-cases, inl, inr,
}

pub record Scheduler : Type 0 where
  pub failures : ℕ
  pub stopped : Bool
  -- The delay of the timer that is set.
  pub timeout : Option ℕ
  pub is_running : Bool
  -- How often `options.run` was called.
  pub runs : ℕ

unfoldable pub backoff_delay : ℕ → ℕ → ℕ
unfolding min
backoff_delay interval_ms failures = min interval_ms (15000 * 2 ^ (failures - 1))

schedule : ℕ → Scheduler → Scheduler
schedule delay_ms s = record s { timeout = some delay_ms }

unfoldable pub start_scheduler : ℕ → Scheduler
start_scheduler interval_ms = record {
  failures = 0;
  stopped = false;
  timeout = some interval_ms;
  is_running = false;
  runs = 0;
}

-- `tick`, when the timer fires, up to the await.
unfoldable pub tick : Scheduler → Scheduler
tick s =
    let fired = record s { timeout = none } in
    if s.stopped then fired else record fired { is_running = true; runs = suc s.runs }

unfoldable pub run_succeeded : ℕ → Scheduler → Scheduler
unfolding schedule
run_succeeded interval_ms s = schedule interval_ms (record s { failures = 0; is_running = false })

unfoldable pub run_failed : ℕ → Scheduler → Scheduler
unfolding schedule
run_failed interval_ms s =
    schedule (backoff_delay interval_ms (suc s.failures))
      (record s { failures = suc s.failures; is_running = false })

unfoldable pub stop : Scheduler → Scheduler
stop s = record s { stopped = true; timeout = none }

-- What can happen: the timer that is set fires, a run that is under way ends, or the scheduler is
-- stopped.
pub data Step (interval_ms : ℕ) : Scheduler → Scheduler → Type 0 where
  fires : (delay_ms : ℕ) {s : Scheduler} → s.timeout ≡ some delay_ms → Step interval_ms s (tick s)
  succeeds :
      {s : Scheduler} → s.is_running ≡ true → Step interval_ms s (run_succeeded interval_ms s)
  fails : {s : Scheduler} → s.is_running ≡ true → Step interval_ms s (run_failed interval_ms s)
  stops : {s : Scheduler} → Step interval_ms s (stop s)

pub data Steps (interval_ms : ℕ) (s : Scheduler) : Scheduler → Type 0 where
  here : Steps interval_ms s s
  next : {t u : Scheduler} → Steps interval_ms s t → Step interval_ms t u → Steps interval_ms s u

-- The delay of a timer is at most the interval, and at least 15 seconds where the interval is.
abbrev pub IsPaced : ℕ → Option ℕ → Type 0
IsPaced interval_ms none = Unit
IsPaced interval_ms (some delay_ms) = (min interval_ms 15000 ≤ delay_ms) × (delay_ms ≤ interval_ms)

-- No timer is set while a run is under way.
abbrev pub IsAlone : Option ℕ → Bool → Type 0
IsAlone none is_running = Unit
IsAlone (some delay_ms) is_running = is_running ≡ false

pub record IsSound (interval_ms : ℕ) (s : Scheduler) : Type 0 where
  pub paced : IsPaced interval_ms s.timeout
  pub alone : IsAlone s.timeout s.is_running

backoff_delay_bounds :
    (interval_ms n : ℕ)
    → (min interval_ms 15000 ≤ backoff_delay interval_ms (suc n))
      × (backoff_delay interval_ms (suc n) ≤ interval_ms)
unfolding backoff_delay min
backoff_delay_bounds interval_ms n = ground (arith, one-le-pow n 2 (omega arith))

Step-IsSound :
    (interval_ms : ℕ) {s t : Scheduler}
    → Step interval_ms s t
    → IsSound interval_ms s
    → IsSound interval_ms t
unfolding tick run_succeeded run_failed stop min
Step-IsSound interval_ms (fires d {s} e) h = elim (Bool-cases s.stopped) [
  | inl off ↦ rw off (record { paced = tt; alone = tt })
  | inr on ↦ rw on (record { paced = tt; alone = tt })
]
Step-IsSound interval_ms (succeeds {s} e) h = record {
  paced = (ground arith, omega arith);
  alone = refl;
}
Step-IsSound interval_ms (fails {s} e) h = record {
  paced = backoff_delay_bounds interval_ms s.failures;
  alone = refl;
}
Step-IsSound interval_ms stops h = record { paced = tt; alone = tt }

-- The scheduler never runs its task twice at a time, and never waits too long or too short. In every
-- state that it can reach, a timer is set only while no run is under way, and its delay is at most
-- the interval and at least the smaller of the interval and 15 seconds.
pub start_scheduler-IsSound :
    (interval_ms : ℕ) (s : Scheduler)
    → Steps interval_ms (start_scheduler interval_ms) s
    → IsSound interval_ms s
unfolding start_scheduler min
start_scheduler-IsSound interval_ms s here = record {
  paced = (ground arith, omega arith);
  alone = refl;
}
start_scheduler-IsSound interval_ms s (next {t} r st) =
    Step-IsSound interval_ms st (start_scheduler-IsSound interval_ms t r)

Step-stopped :
    (interval_ms : ℕ) {s t : Scheduler}
    → Step interval_ms s t
    → s.stopped ≡ true
    → (t.stopped ≡ true) × (t.runs ≡ s.runs)
unfolding tick run_succeeded run_failed stop
Step-stopped interval_ms (fires d {s} e) off = rw off (refl, refl)
Step-stopped interval_ms (succeeds e) off = (off, refl)
Step-stopped interval_ms (fails e) off = (off, refl)
Step-stopped interval_ms stops off = (refl, refl)

-- A scheduler that is stopped runs its task no more: whatever timers and runs end after that, the
-- scheduler stays stopped and the number of runs stays.
pub stopped_runs_nothing :
    (interval_ms : ℕ) (s t : Scheduler)
    → s.stopped ≡ true
    → Steps interval_ms s t
    → (t.stopped ≡ true) × (t.runs ≡ s.runs)
stopped_runs_nothing interval_ms s t off here = (off, refl)
stopped_runs_nothing interval_ms s t off (next {t = v} r st) =
    let (still, same) = stopped_runs_nothing interval_ms s v off r in
    let (off', step) = Step-stopped interval_ms st still in (off', step ∙ same)
