-- ===== src/Auth/DeviceCode/Deadline.antt =====
-- packages/opencode-auth-core/src/oauth/device-code.ts: how long the login polls.
use native.Mathlib.Nat.{suc-mul, zero-mul}
use lightbridge_opencode_too.Common.{
  min, ℕ, zero, suc, ◌+◌, ◌-◌, ◌*◌, ◌≤◌, ◌≡◌, refl, Bool, true, false, ◌&&◌, Option, none, some,
  List, [], ◌∷◌, arith, leb, ltb, length, if◌then◌else◌, or_else, Bool-cases, inl, inr,
}
use lightbridge_opencode_too.Common.Text.{codes, text_eq}
use lightbridge_opencode_too.Common.Js.{
  Value, undefined, null, boolean, number, string, array, object, get,
}
use lightbridge_opencode_too.Auth.DeviceCode.{
  max_poll_interval_seconds, default_poll_interval_seconds, DeviceAuthorization, expired, failed,
  Outcome, Poll, thrown, responded, Verdict, finished, pending, on_error_code, on_client_error,
  on_poll, after_sleep, go_on, poll_loop, poll_token,
}

-- From the time `now` on, with poll number `n` next: each sleep ends by the deadline, at the time that
-- the sleeps and the polls before it have taken.
abbrev pub IsInTime : (ℕ → ℕ) → ℕ → ℕ → ℕ → List ℕ → Type 0
IsInTime delay n now deadline_ms [] = Unit
IsInTime delay n now deadline_ms (slept ∷ sleeps) =
    (now + slept ≤ deadline_ms) × IsInTime delay (suc n) (now + slept + delay n) deadline_ms sleeps

-- The interval that the login goes on with, if it does, is not below a bound of at most 60 seconds.
abbrev IsSlow : ℕ → Verdict → Type 0
IsSlow bound (finished outcome) = Unit
IsSlow bound (pending interval) = bound ≤ interval

on_error_code-IsSlow :
    (bound : ℕ) (v : Value) (status interval : ℕ)
    → bound ≤ interval
    → IsSlow bound (on_error_code v status interval)
unfolding on_error_code
on_error_code-IsSlow bound (string code) status interval h =
    elim (Bool-cases (text_eq code (codes "authorization_pending"))) [
      | inl a ↦ rw a h
      | inr a ↦ elim (Bool-cases (text_eq code (codes "slow_down"))) [
        | inl b ↦ rw (a, b) (omega (arith, h))
        | inr b ↦ elim (Bool-cases (text_eq code (codes "expired_token"))) [
          | inl c ↦ rw (a, b, c) tt
          | inr c ↦ elim (Bool-cases (text_eq code (codes "access_denied"))) [
            | inl d ↦ rw (a, b, c, d) tt
            | inr d ↦ rw (a, b, c, d) tt
          ]
        ]
      ]
    ]
on_error_code-IsSlow bound undefined status interval h = tt
on_error_code-IsSlow bound null status interval h = tt
on_error_code-IsSlow bound (boolean b) status interval h = tt
on_error_code-IsSlow bound (number n) status interval h = tt
on_error_code-IsSlow bound (array vs) status interval h = tt
on_error_code-IsSlow bound (object fs) status interval h = tt

on_client_error-IsSlow :
    (bound : ℕ) (o : Option Value) (status interval : ℕ)
    → bound ≤ interval
    → IsSlow bound (on_client_error o status interval)
unfolding on_client_error
on_client_error-IsSlow bound none status interval h = tt
on_client_error-IsSlow bound (some (object fs)) status interval h =
    on_error_code-IsSlow bound (get "error" fs) status interval h
on_client_error-IsSlow bound (some undefined) status interval h = tt
on_client_error-IsSlow bound (some null) status interval h = tt
on_client_error-IsSlow bound (some (boolean b)) status interval h = tt
on_client_error-IsSlow bound (some (number n)) status interval h = tt
on_client_error-IsSlow bound (some (string s)) status interval h = tt
on_client_error-IsSlow bound (some (array vs)) status interval h = tt

on_poll-IsSlow :
    (bound : ℕ) (p : Poll) (now interval : ℕ)
    → bound ≤ interval
    → bound ≤ max_poll_interval_seconds
    → IsSlow bound (on_poll p now interval)
unfolding on_poll min
on_poll-IsSlow bound (thrown true) now interval h k = tt
on_poll-IsSlow bound (thrown false) now interval h k = ground (arith, h, k)
on_poll-IsSlow bound (responded status json preview) now interval h k =
    elim (Bool-cases (leb 200 status && ltb status 300)) [
      | inl a ↦ rw a tt
      | inr a ↦ elim (Bool-cases (leb 400 status && ltb status 500)) [
        | inl b ↦ rw (a, b) (on_client_error-IsSlow bound preview status interval h)
        | inr b ↦ rw (a, b) tt
      ]
    ]

-- A run ends, after at most so many polls, and never sleeps past the deadline.
pub record IsBounded (delay : ℕ → ℕ) (polls n now deadline_ms : ℕ) (run : Option (List ℕ × Outcome))
    : Type 0 where
  pub sleeps : List ℕ
  pub outcome : Outcome
  pub ends : run ≡ some (sleeps, outcome)
  pub few : length sleeps ≤ polls
  pub in_time : IsInTime delay n now deadline_ms sleeps

after_sleep-IsBounded :
    (delay : ℕ → ℕ) (slept polls n now deadline_ms : ℕ) (run : Option (List ℕ × Outcome))
    → now + slept ≤ deadline_ms
    → IsBounded delay polls (suc n) (now + slept + delay n) deadline_ms run
    → IsBounded delay (suc polls) n now deadline_ms (after_sleep slept run)
unfolding after_sleep
after_sleep-IsBounded delay slept polls n now deadline_ms run h k = record {
  sleeps = slept ∷ k.sleeps;
  outcome = k.outcome;
  ends = rw (k.ends) refl;
  few = omega (arith, k.few);
  in_time = (h, k.in_time);
}

ended : (deadline_ms now w : ℕ) → deadline_ms ≤ now + 0 * w → leb deadline_ms now ≡ true
ended deadline_ms now w h = ground (arith, zero-mul w)

if-IsBounded :
    (delay : ℕ → ℕ) (b : Bool) (polls n now deadline_ms : ℕ) (run other : Option (List ℕ × Outcome))
    → IsBounded delay polls n now deadline_ms run
    → (b ≡ false → IsBounded delay polls n now deadline_ms other)
    → IsBounded delay polls n now deadline_ms (if b then run else other)
if-IsBounded delay true polls n now deadline_ms run other h k = h
if-IsBounded delay false polls n now deadline_ms run other h k = k refl

finished-IsBounded :
    (delay : ℕ → ℕ) (polls n now deadline_ms : ℕ) (outcome : Outcome)
    → IsBounded delay polls n now deadline_ms (some ([], outcome))
finished-IsBounded delay polls n now deadline_ms outcome = record {
  sleeps = [];
  outcome = outcome;
  ends = refl;
  few = omega arith;
  in_time = tt;
}

module _ (answer : ℕ → Poll) (delay : ℕ → ℕ) (bound : ℕ)
    (capped : bound ≤ max_poll_interval_seconds) where
  go_on-IsBounded :
      (polls n now deadline_ms : ℕ) (rest : ℕ → Option (List ℕ × Outcome)) (v : Verdict)
      → IsSlow bound v
      → ((i : ℕ) → bound ≤ i → IsBounded delay polls n now deadline_ms (rest i))
      → IsBounded delay polls n now deadline_ms (go_on answer delay rest v)
  unfolding go_on
  go_on-IsBounded polls n now deadline_ms rest (finished outcome) h k =
      finished-IsBounded delay polls n now deadline_ms outcome
  go_on-IsBounded polls n now deadline_ms rest (pending i) h k = k i h

  -- A sleep that does not reach the deadline takes at least as long as the bound says.
  after_sleep_late :
      (j deadline_ms now interval spent : ℕ)
      → bound ≤ interval
      → deadline_ms ≤ now + suc j * (bound * 1000)
      → deadline_ms ≤ now + min (interval * 1000) (deadline_ms - now) + spent + j * (bound * 1000)
  unfolding min
  after_sleep_late j deadline_ms now interval spent h late =
      let more = suc-mul j (bound * 1000) in
      elim (Bool-cases (leb (interval * 1000) (deadline_ms - now))) [
        | inl e ↦ rw e (omega (arith, h, late, more))
        | inr e ↦ rw e (omega arith)
      ]

  slept_in_time :
      (interval deadline_ms now : ℕ)
      → leb deadline_ms now ≡ false
      → now + min (interval * 1000) (deadline_ms - now) ≤ deadline_ms
  unfolding min
  slept_in_time interval deadline_ms now early = ground arith

  poll_loop-IsBounded :
      (k n deadline_ms now interval : ℕ)
      → bound ≤ interval
      → deadline_ms ≤ now + k * (bound * 1000)
      → IsBounded delay k n now deadline_ms
          (poll_loop answer delay (suc k) n deadline_ms now interval)
  unfolding poll_loop
  poll_loop-IsBounded zero n deadline_ms now interval h late =
      rw (ended deadline_ms now (bound * 1000) late)
        (finished-IsBounded delay 0 n now deadline_ms (failed expired))
  poll_loop-IsBounded (suc j) n deadline_ms now interval h late =
      let slept = min (interval * 1000) (deadline_ms - now) in
      let later = now + slept + delay n in
      let rest = λ (i : ℕ). poll_loop answer delay (suc j) (suc n) deadline_ms later i in
      let verdict = on_poll (answer n) later interval in
      if-IsBounded delay (leb deadline_ms now) (suc j) n now deadline_ms (some ([], failed expired))
        (after_sleep slept (go_on answer delay rest verdict))
        (finished-IsBounded delay (suc j) n now deadline_ms (failed expired))
        (λ early.
          after_sleep-IsBounded delay slept j n now deadline_ms _
            (slept_in_time interval deadline_ms now early)
            (go_on-IsBounded j (suc n) later deadline_ms rest verdict
              (on_poll-IsSlow bound (answer n) later interval h capped)
              (λ i slow.
                poll_loop-IsBounded j (suc n) deadline_ms later i slow
                  (after_sleep_late j deadline_ms now interval (delay n) h late))))

  -- The device-code login ends: where the code expires after at most `k` intervals (of the length that
  -- the endpoint asks for, but of 60 seconds where that is longer), the login makes at most `k` polls,
  -- whatever they answer and however long they take; and no sleep ends after the expiry, on the clock
  -- that the sleeps and the polls move on.
  pub poll_token-IsBounded :
      (k now : ℕ) (device_auth : DeviceAuthorization)
      → bound ≤ or_else device_auth.interval default_poll_interval_seconds
      → device_auth.expires_in_ms ≤ k * (bound * 1000)
      → IsBounded delay k 0 now
          (now + device_auth.expires_in_ms)
          (poll_token answer delay (suc k) now device_auth)
  unfolding poll_token
  poll_token-IsBounded k now device_auth h late =
      poll_loop-IsBounded k 0 (now + device_auth.expires_in_ms) now
        (or_else device_auth.interval default_poll_interval_seconds) h (omega (arith, late))
