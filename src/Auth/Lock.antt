-- ===== src/Auth/Lock.antt =====
-- packages/opencode-auth-core/src/lock.ts: the advisory file lock.
--
-- The file system and the clock are a parameter, by the number of the attempt. The loop has fuel, which
-- the theorem of `Waiting` bounds.
pub mod Waiting
use lightbridge_opencode_too.Common.{
  ℕ, zero, suc, ◌+◌, Bool, true, false, not, Option, none, some, List, [], ◌∷◌, ◌++◌, leb,
  if◌then◌else◌,
}
use lightbridge_opencode_too.Common.Int.{ℤ, pos, ◌-ℤ◌, ltb_ℤ}

abbrev pub default_lock_stale_ms : ℕ
default_lock_stale_ms = 30000

abbrev pub lock_wait_margin_ms : ℕ
lock_wait_margin_ms = 5000

-- Options are whole milliseconds; one that is not a positive number is `some 0`.
unfoldable pub positive_or : Option ℕ → ℕ → ℕ
positive_or none fallback = fallback
positive_or (some zero) fallback = fallback
positive_or (some (suc n)) fallback = suc n

-- The creation of the lock file, with its payload: `exists` is EEXIST, `failed` any other error.
pub data Creation : Type 0 where
  created exists failed : Creation

-- What reading the lock file gives: its `acquiredAt` where that is a finite number, ENOENT, or neither.
pub data Payload : Type 0 where
  acquired_at : ℤ → Payload
  absent unreadable : Payload

-- What `stat` gives.
pub data Stats : Type 0 where
  modified_at : ℤ → Stats
  missing unavailable : Stats

pub record Disk : Type 0 where
  pub can_make_directory : Bool
  pub create : ℕ → Creation
  pub read : ℕ → Payload
  pub stat : ℕ → Stats
  pub can_unlink : ℕ → Bool
  -- `Date.now()` in lockAgeMs, and at the test of the deadline.
  pub age_clock : ℕ → ℤ
  pub clock : ℕ → ℕ

pub data Age : Type 0 where
  finite : ℤ → Age
  infinite : Age

age_of_stats : Stats → ℤ → Option Age
age_of_stats (modified_at t) now = some (finite (now -ℤ t))
age_of_stats missing now = none
age_of_stats unavailable now = some infinite

age_of_payload : Payload → Stats → ℤ → Option Age
unfolding age_of_stats
age_of_payload (acquired_at t) stats now = some (finite (now -ℤ t))
age_of_payload absent stats now = none
age_of_payload unreadable stats now = age_of_stats stats now

-- `lockAgeMs` at attempt `n`, none where the file has vanished.
unfoldable pub lock_age_ms : Disk → ℕ → Option Age
unfolding age_of_payload
lock_age_ms disk n = age_of_payload (disk.read n) (disk.stat n) (disk.age_clock n)

-- `age > staleMs`.
unfoldable pub is_stale : ℕ → Age → Bool
is_stale stale_ms (finite age) = ltb_ℤ (pos stale_ms) age
is_stale stale_ms infinite = true

pub data Reason : Type 0 where
  unwritable timeout : Reason

pub data FileLock : Type 0 where
  acquired : FileLock
  not_acquired : Reason → FileLock

-- The sleeps of the wait, and the attempts at which it tried to remove a lock as abandoned, oldest first.
pub record Wait : Type 0 where
  pub sleeps : ℕ
  pub broken : List ℕ

abbrev pub no_wait : Wait
no_wait = record { sleeps = 0; broken = [] }

-- What an attempt comes to.
pub data Turn : Type 0 where
  ends : FileLock → Wait → Turn
  goes_on : Wait → Turn

module _ (disk : Disk) (stale_ms deadline : ℕ) where
  -- The deadline is tested before the sleep.
  pub or_timeout : ℕ → Wait → Bool → Turn
  or_timeout n wait sleeps =
      if leb deadline (disk.clock n)
      then ends (not_acquired timeout) wait
      else goes_on (if sleeps then record wait { sleeps = suc wait.sleeps } else wait)

  pub break_stale : ℕ → Wait → Turn
  unfolding or_timeout
  break_stale n wait =
      or_timeout n (record wait { broken = wait.broken ++ n ∷ [] }) (not (disk.can_unlink n))

  pub on_age : Option Age → ℕ → Wait → Turn
  unfolding or_timeout break_stale
  on_age none n wait = or_timeout n wait false
  on_age (some age) n wait =
      if is_stale stale_ms age then break_stale n wait else or_timeout n wait true

  pub on_creation : Creation → ℕ → Wait → Turn
  unfolding on_age
  on_creation created n wait = ends acquired wait
  on_creation failed n wait = ends (not_acquired unwritable) wait
  on_creation exists n wait = on_age (lock_age_ms disk n) n wait

  -- One round of the loop.
  unfoldable pub attempt_lock : ℕ → Wait → Turn
  unfolding on_creation
  attempt_lock n wait = on_creation (disk.create n) n wait

  pub attempts : ℕ → ℕ → Turn → Option (FileLock × Wait)
  unfolding attempt_lock
  attempts fuel n (ends lock wait) = some (lock, wait)
  attempts zero n (goes_on wait) = none
  attempts (suc fuel) n (goes_on wait) = attempts fuel (suc n) (attempt_lock n wait)

-- `staleMs`, and the deadline of a wait that begins at `now`.
unfoldable pub lock_bounds : Option ℕ → Option ℕ → ℕ → ℕ × ℕ
unfolding positive_or
lock_bounds stale_ms max_wait_ms now =
    let stale = positive_or stale_ms default_lock_stale_ms in
    (stale, now + positive_or max_wait_ms (stale + lock_wait_margin_ms))

-- `acquireFileLock`, none where the fuel is too little.
unfoldable pub acquire_file_lock : Disk → Option ℕ → Option ℕ → ℕ → ℕ → Option (FileLock × Wait)
unfolding attempts lock_bounds
acquire_file_lock disk stale_ms max_wait_ms now fuel =
    let (stale, deadline) = lock_bounds stale_ms max_wait_ms now in
    if disk.can_make_directory
    then attempts disk stale deadline fuel 0 (goes_on no_wait)
    else some (not_acquired unwritable, no_wait)
