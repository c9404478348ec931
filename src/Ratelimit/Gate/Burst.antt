-- ===== src/Ratelimit/Gate/Burst.antt =====
-- A burst of calls during a cooldown shares one timer.
use lightbridge_opencode_too.Common.{
  ℕ, zero, suc, ◌⊎◌, ◌≡◌, refl, inl, inr, false, Option, none, some, List, [], ◌∷◌, arith, All,
}
use lightbridge_opencode_too.Common.Int.{ℤ, pos, ◌-ℤ◌, ◌≤ℤ◌, leb_ℤ, ltb_ℤ, -ℤ_parts}
use lightbridge_opencode_too.Ratelimit.Fetch.{ProviderRateState}
use lightbridge_opencode_too.Ratelimit.Gate.{
  Shared, target, reuse, publish, create_timer, await_timer, turn,
}
use lightbridge_opencode_too.Ratelimit.Gate.Invariant.{now_plus_remaining, IsPublished}
use lightbridge_opencode_too.Ratelimit.Gate.Waiting.{Reachable, Reachable-IsValid}

-- The rounds of `n` calls that reach the gate together, and what each awaits.
pub burst : ℕ → Shared → ℤ → Option ℤ → Shared × List (Option ℕ)
burst zero w now deadline = (w, [])
burst (suc n) w now deadline =
    let (v, awaited) = turn w now deadline in
    let (u, rest) = burst n v now deadline in (u, awaited ∷ rest)

-- No shared timer is in flight, or it ends early enough for the calls.
abbrev pub IsEarly : Option ℤ → ℤ → Type 0
IsEarly none goal = Unit
IsEarly (some until) goal = until ≤ℤ goal

remaining_positive : (goal now : ℤ) → ¬ (goal ≤ℤ now) → leb_ℤ (goal -ℤ now) (pos 0) ≡ false
remaining_positive goal now h = ground (arith, -ℤ_parts goal now, h)

not_late : (goal now u : ℤ) → u ≤ℤ goal → ltb_ℤ (goal -ℤ now) (u -ℤ now) ≡ false
not_late goal now u h = ground (arith, -ℤ_parts goal now, -ℤ_parts u now)

reuse_early :
    (p : Option ℕ) (q : Option ℤ) (id : ℕ) (u goal now : ℤ)
    → p ≡ some id
    → q ≡ some u
    → u ≤ℤ goal
    → reuse p q now (goal -ℤ now) ≡ some id
unfolding reuse
reuse_early p q id u goal now e f early = rw (f, not_late goal now u early) e

module _ (now : ℤ) (deadline : Option ℤ) where
  -- A call joins a shared timer that ends early enough.
  turn_joins :
      (w : Shared) (id : ℕ) (u : ℤ)
      → ¬ (target w.bucket deadline ≤ℤ now)
      → w.bucket.cooldown_promise ≡ some id
      → w.bucket.cooldown_promise_until_ms ≡ some u
      → u ≤ℤ target w.bucket deadline
      → turn w now deadline ≡ (w, some id)
  unfolding turn
  turn_joins w id u ahead p q early = rw (
    remaining_positive (target w.bucket deadline) now ahead,
    reuse_early _ _ id u (target w.bucket deadline) now p q early,
  )

  burst_joins :
      (n : ℕ) (w : Shared) (id : ℕ) (u : ℤ)
      → ¬ (target w.bucket deadline ≤ℤ now)
      → w.bucket.cooldown_promise ≡ some id
      → w.bucket.cooldown_promise_until_ms ≡ some u
      → u ≤ℤ target w.bucket deadline
      → ((burst n w now deadline).0 ≡ w) × All (λ a. a ≡ some id) (burst n w now deadline).1
  unfolding burst
  burst_joins zero w id u ahead p q early = (refl, tt)
  burst_joins (suc n) w id u ahead p q early =
      let (same, all) = burst_joins n w id u ahead p q early in
      rw (turn_joins w id u ahead p q early) (same, (refl, all))

  -- The bucket after a call has created the shared timer.
  abbrev pub started : Shared → Shared
  started w = record {
    bucket = record w.bucket {
      cooldown_promise = some w.fresh;
      cooldown_promise_until_ms = some (target w.bucket deadline);
    };
    timers = (w.fresh, target w.bucket deadline) ∷ w.timers;
    fresh = suc w.fresh;
  }

  publish_first :
      (b : ProviderRateState) (id : ℕ) (due : ℤ)
      → b.cooldown_promise ≡ none
      → publish b id due
        ≡ record b { cooldown_promise = some id; cooldown_promise_until_ms = some due }
  unfolding publish
  publish_first b id due e = ground arith

  turn_starts :
      (w : Shared)
      → ¬ (target w.bucket deadline ≤ℤ now)
      → reuse w.bucket.cooldown_promise w.bucket.cooldown_promise_until_ms now
          (target w.bucket deadline -ℤ now)
        ≡ none
      → w.bucket.cooldown_promise ≡ none
      → turn w now deadline ≡ (started w, some w.fresh)
  unfolding turn await_timer create_timer
  turn_starts w ahead p e = rw (
    remaining_positive (target w.bucket deadline) now ahead,
    p,
    now_plus_remaining now (target w.bucket deadline),
    publish_first w.bucket w.fresh (target w.bucket deadline) e,
  )

  -- All of the calls of a burst await timer `id`, which is new if none was shared.
  abbrev pub IsOneWait : Shared → Shared × List (Option ℕ) → Type 0
  IsOneWait w (v, awaited) =
      (id : ℕ) × All (λ a. a ≡ some id) awaited × ((v ≡ w) ⊎ ((id ≡ w.fresh) × (v ≡ started w)))

  burst_starts :
      (n : ℕ) (w : Shared)
      → ¬ (target w.bucket deadline ≤ℤ now)
      → turn w now deadline ≡ (started w, some w.fresh)
      → IsOneWait w (burst (suc n) w now deadline)
  unfolding burst
  burst_starts n w ahead e =
      let (same, all) =
        burst_joins n (started w) w.fresh (target w.bucket deadline) ahead refl refl
          (omega arith) in
      rw e (w.fresh, (refl, all), inr (refl, same))

  burst_follows :
      (n : ℕ) (w : Shared) (id : ℕ)
      → ((burst (suc n) w now deadline).0 ≡ w)
        × All (λ a. a ≡ some id) (burst (suc n) w now deadline).1
      → IsOneWait w (burst (suc n) w now deadline)
  unfolding burst
  burst_follows n w id (same, all) = (id, all, inl same)

  burst_cases :
      (n : ℕ) (w : Shared) (p : Option ℕ) (q : Option ℤ)
      → ¬ (target w.bucket deadline ≤ℤ now)
      → w.bucket.cooldown_promise ≡ p
      → w.bucket.cooldown_promise_until_ms ≡ q
      → IsPublished p q w.timers
      → IsEarly q (target w.bucket deadline)
      → IsOneWait w (burst (suc n) w now deadline)
  unfolding reuse
  burst_cases n w none none ahead e f h early =
      burst_starts n w ahead (turn_starts w ahead (rw (e, f)) e)
  burst_cases n w none (some u) ahead e f h early = absurd h
  burst_cases n w (some id) none ahead e f h early = absurd h
  burst_cases n w (some id) (some u) ahead e f h early =
      burst_follows n w id (burst_joins (suc n) w id u ahead e f early)

-- Any number of calls that reach the gate of a reachable bucket before their common target, where no
-- shared timer is in flight that ends after it, all await one timer: the shared one, with nothing
-- changed, or a single new one, due at the target.
pub burst_one_timer :
    (n : ℕ) (w : Shared) (now : ℤ) (deadline : Option ℤ)
    → Reachable w
    → ¬ (target w.bucket deadline ≤ℤ now)
    → IsEarly w.bucket.cooldown_promise_until_ms (target w.bucket deadline)
    → IsOneWait now deadline w (burst (suc n) w now deadline)
burst_one_timer n w now deadline r ahead early =
    burst_cases now deadline n w _ _ ahead refl refl (Reachable-IsValid r).published early
