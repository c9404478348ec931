-- ===== src/Auth/Lock/Waiting.antt =====
-- packages/opencode-auth-core/src/lock.ts: the wait for the lock ends, and why.
use lightbridge_opencode_too.Common.{
  not, ℕ, zero, suc, ◌+◌, ◌≤◌, ◌≡◌, ◌≢◌, ◌⊎◌, refl, ap, inl, inr, Bool, true, false, Option, none,
  some, [], ◌∷◌, leb, All, All-append, Bool-cases, arith,
}
use lightbridge_opencode_too.Auth.Lock.{
  Disk, Creation, created, exists, failed, Age, lock_age_ms, is_stale, unwritable, timeout,
  FileLock, acquired, not_acquired, Wait, no_wait, Turn, ends, goes_on, or_timeout, break_stale,
  on_age, on_creation, attempt_lock, attempts, lock_bounds, acquire_file_lock,
}

module _ (disk : Disk) (stale_ms deadline : ℕ) where
  -- At attempt `n` the lock file had an age, and that was stale.
  abbrev pub WasStale : ℕ → Type 0
  WasStale n = (age : Age) × (lock_age_ms disk n ≡ some age) × (is_stale stale_ms age ≡ true)

  -- Why the wait has ended.
  abbrev pub IsJustified : FileLock → Type 0
  IsJustified acquired = (n : ℕ) × (disk.create n ≡ created)
  IsJustified (not_acquired unwritable) =
      (disk.can_make_directory ≡ false) ⊎ ((n : ℕ) × (disk.create n ≡ failed))
  IsJustified (not_acquired timeout) = (n : ℕ) × (deadline ≤ disk.clock n)

  module _ (i : ℕ) (late : deadline ≤ disk.clock i) where
    abbrev InTime : ℕ → Turn → Type 0
    InTime n (ends lock wait) = IsJustified lock × All WasStale wait.broken
    InTime n (goes_on wait) = (n ≤ i) × All WasStale wait.broken

    or_timeout-InTime :
        (n : ℕ) (wait : Wait) (sleeps : Bool)
        → n ≤ i
        → All WasStale wait.broken
        → InTime (suc n) (or_timeout disk stale_ms deadline n wait sleeps)
    unfolding or_timeout
    or_timeout-InTime n wait sleeps early h = elim (Bool-cases (leb deadline (disk.clock n))) [
      | inl e ↦ rw e ((n, ground arith), h)
      | inr e ↦
          let apart : n ≢ i = λ same. ground (arith, ap disk.clock same) in
          rw e (elim (Bool-cases sleeps) [
            | inl f ↦ rw f (ground arith, h)
            | inr f ↦ rw f (ground arith, h)
          ])
    ]

    on_age-InTime :
        (o : Option Age) (n : ℕ) (wait : Wait)
        → lock_age_ms disk n ≡ o
        → n ≤ i
        → All WasStale wait.broken
        → InTime (suc n) (on_age disk stale_ms deadline o n wait)
    unfolding on_age break_stale
    on_age-InTime none n wait at early h = or_timeout-InTime n wait false early h
    on_age-InTime (some age) n wait at early h = elim (Bool-cases (is_stale stale_ms age)) [
      | inl e ↦ rw e (
          or_timeout-InTime n _ (not (disk.can_unlink n)) early
            (All-append WasStale wait.broken (n ∷ []) h ((age, at, e), tt)))
      | inr e ↦ rw e (or_timeout-InTime n _ true early h)
    ]

    on_creation-InTime :
        (c : Creation) (n : ℕ) (wait : Wait)
        → disk.create n ≡ c
        → n ≤ i
        → All WasStale wait.broken
        → InTime (suc n) (on_creation disk stale_ms deadline c n wait)
    unfolding on_creation
    on_creation-InTime created n wait at early h = ((n, at), h)
    on_creation-InTime failed n wait at early h = (inr (n, at), h)
    on_creation-InTime exists n wait at early h =
        on_age-InTime (lock_age_ms disk n) n wait refl early h

    attempts_end :
        (fuel n : ℕ) (t : Turn)
        → n + fuel ≡ suc i
        → InTime n t
        → (lock : FileLock) × (wait : Wait) × (attempts disk stale_ms deadline fuel n t
            ≡ some (lock, wait))
          × IsJustified lock
          × All WasStale wait.broken
    unfolding attempts attempt_lock
    attempts_end fuel n (ends lock wait) total h = (lock, wait, refl, h.0, h.1)
    attempts_end zero n (goes_on wait) total h = absurd (omega (arith, total, h.0))
    attempts_end (suc fuel) n (goes_on wait) total h =
        attempts_end fuel (suc n) (attempt_lock disk stale_ms deadline n wait)
          (omega (arith, total)) (on_creation-InTime (disk.create n) n wait refl h.0 h.1)

-- The wait for the lock ends, and for a reason. Once the clock has reached the deadline at some attempt,
-- the loop ends by that attempt: with the lock, where its exclusive create succeeded; with
-- `unwritable`, where the directory or the file could not be made; or with `timeout`, at or after the
-- deadline. It tries to remove a lock as abandoned only at attempts at which the lock file was stale.
pub acquire_file_lock-ends :
    (disk : Disk) (stale_ms max_wait_ms : Option ℕ) (now i : ℕ)
    → (lock_bounds stale_ms max_wait_ms now).1 ≤ disk.clock i
    → (lock : FileLock) × (wait : Wait) × (acquire_file_lock disk stale_ms max_wait_ms now (suc i)
        ≡ some (lock, wait))
      × IsJustified disk
          (lock_bounds stale_ms max_wait_ms now).0
          (lock_bounds stale_ms max_wait_ms now).1
          lock
      × All
          (WasStale disk
            (lock_bounds stale_ms max_wait_ms now).0
            (lock_bounds stale_ms max_wait_ms now).1)
          wait.broken
unfolding acquire_file_lock
acquire_file_lock-ends disk stale_ms max_wait_ms now i late =
    elim (Bool-cases disk.can_make_directory) [
      | inl e ↦
          let (stale, deadline) = lock_bounds stale_ms max_wait_ms now in
          let (lock, wait, same, why, broken) =
            attempts_end disk stale deadline i late (suc i) 0 (goes_on no_wait) (omega arith)
              (omega arith, tt) in
          (lock, wait, simp e same, why, broken)
      | inr e ↦ (not_acquired unwritable, no_wait, rw e refl, inl e, tt)
    ]
