-- ===== src/Ratelimit/Fetch.antt =====
-- packages/opencode-ratelimit/src/plugin.ts: the fetch wrapper of one provider.
-- The bucket's state, what a response does to it, and the gate at which calls wait. The code
-- between two `await`s runs at one reading of the clock, an argument here. A promise of the shared
-- timer is the number of that timer.
pub mod Keys
pub mod Retries
pub mod Cooldown
use lightbridge_opencode_too.Common.{
  ℕ, suc, ◌+◌, ◌/◌, Bool, true, false, ◌&&◌, Option, none, some, List, [], ◌∷◌, ◌++◌, ltb, leb,
  ◌==◌, if◌then◌else◌,
}
use lightbridge_opencode_too.Common.Int.{
  ℤ, pos, negsuc, sub_ℕ, ◌+ℤ◌, ◌-ℤ◌, leb_ℤ, ltb_ℤ, min_ℤ, max_ℤ,
}
use lightbridge_opencode_too.Common.Text.{Text}
use lightbridge_opencode_too.Ratelimit.{
  Scope, provider, model, Action, wait, error, Tier, Options, Snapshot,
}
use lightbridge_opencode_too.Ratelimit.Config.{select_tier}
use lightbridge_opencode_too.Ratelimit.Headers.{parse_rate_limit}

abbrev pub default_backoff_ms : ℤ
default_backoff_ms = pos 1000

pub record ProviderRateState : Type 0 where
  pub cooldown_until_ms : ℤ
  pub cooldown_max_wait_ms : ℕ
  pub cooldown_promise : Option ℕ
  pub cooldown_promise_until_ms : Option ℤ

unfoldable pub create_provider_state : ProviderRateState
create_provider_state = record {
  cooldown_until_ms = pos 0;
  cooldown_max_wait_ms = 0;
  cooldown_promise = none;
  cooldown_promise_until_ms = none;
}

pub record Response : Type 0 where
  pub status : ℕ
  pub headers : Text → Option Text

-- The key of a bucket in the provider's store; `model` is undefined under `scope: "provider"`.
unfoldable pub bucket_key : Text → Option Text → Text
bucket_key provider_id none = provider_id
bucket_key provider_id (some []) = provider_id
bucket_key provider_id (some (c ∷ s)) = provider_id ++ 0 ∷ c ∷ s

-- `Math.ceil(ms / 1000)`.
unfoldable pub ceil_seconds : ℤ → ℤ
ceil_seconds (pos n) = pos ((n + 999) / 1000)
ceil_seconds (negsuc n) = sub_ℕ 0 (suc n / 1000)

unfoldable pub effective_reset_seconds : Snapshot → Option ℤ
unfolding ceil_seconds
effective_reset_seconds snapshot = elim snapshot.reset_seconds [
  | some seconds ↦ some seconds
  | none ↦ elim snapshot.retry_after_ms [ some ms ↦ some (ceil_seconds ms) | none ↦ none ]
]

unfoldable pub compute_backoff : Snapshot → ℤ → ℤ
compute_backoff snapshot now_ms = elim snapshot.reset_at_ms [
  | some at ↦ max_ℤ (pos 0) (at -ℤ now_ms)
  | none ↦ elim snapshot.retry_after_ms [ some ms ↦ ms | none ↦ default_backoff_ms ]
]

unfoldable pub clamp_wait : ℤ → ℕ → ℤ
clamp_wait ms max_wait_ms =
    let non_negative = max_ℤ (pos 0) ms in
    if ltb 0 max_wait_ms then min_ℤ non_negative (pos max_wait_ms) else non_negative

-- `snapshot.remaining <= 0` with both headers present.
unfoldable pub exhausted_until : Snapshot → Option ℤ
exhausted_until snapshot = elim snapshot.remaining [
  | none ↦ none
  | some remaining ↦ if leb_ℤ remaining (pos 0) then snapshot.reset_at_ms else none
]

unfoldable pub clear_cooldown : ProviderRateState → ProviderRateState
clear_cooldown state = record state { cooldown_until_ms = pos 0; cooldown_max_wait_ms = 0 }

unfoldable pub arm_cooldown : ℤ → ℕ → ProviderRateState → ProviderRateState
arm_cooldown until max_wait_ms state = record state {
  cooldown_until_ms = until;
  cooldown_max_wait_ms = max_wait_ms;
}

-- What the loop does with a response: hand it to the caller, or wait at the gate for at most
-- `max_wait_ms` and try again. `fault` is the TypeError of an empty tier list.
pub data Verdict : Type 0 where
  surface : ProviderRateState → Verdict
  retry : ProviderRateState → (max_wait_ms : ℕ) → Verdict
  fault : Verdict

on_exhausted : Option Tier → ℤ → ProviderRateState → Verdict
unfolding clear_cooldown arm_cooldown
on_exhausted none until state = fault
on_exhausted (some tier) until state = elim tier.action [
  | wait ↦ surface (arm_cooldown until tier.max_wait_ms state)
  | error ↦ surface (clear_cooldown state)
]

on_success : List Tier → Snapshot → ProviderRateState → Verdict
unfolding on_exhausted
on_success tiers snapshot state = elim (exhausted_until snapshot) [
  | none ↦ surface state
  | some until ↦ on_exhausted (select_tier tiers (effective_reset_seconds snapshot)) until state
]

-- The wait that a retry makes, and the bucket that it leaves.
unfoldable pub backoff : Tier → Snapshot → ℤ → ProviderRateState → ProviderRateState
unfolding arm_cooldown
backoff tier snapshot now_ms state =
    arm_cooldown (now_ms +ℤ clamp_wait (compute_backoff snapshot now_ms) tier.max_wait_ms)
      tier.max_wait_ms state

on_429 : Option Tier → Snapshot → ℤ → ℕ → ProviderRateState → Verdict
unfolding clear_cooldown
on_429 none snapshot now_ms attempt state = fault
on_429 (some tier) snapshot now_ms attempt state = elim tier.action [
  | error ↦ surface (clear_cooldown state)
  | wait ↦
      if leb tier.max_retries attempt
      then surface state
      else retry (backoff tier snapshot now_ms state) tier.max_wait_ms
]

module _ (date_parse : Text → Option ℤ) where
  -- Steps 4 and 5 of the wrapper, after the response to attempt number `attempt`.
  unfoldable pub on_response : Options → Response → ℤ → ℕ → ProviderRateState → Verdict
  unfolding on_success on_429
  on_response opts response now_ms attempt state =
      let snapshot = parse_rate_limit date_parse response.headers opts.header_prefix now_ms in
      if response.status == 429
      then on_429 (select_tier opts.tiers (effective_reset_seconds snapshot)) snapshot now_ms
          attempt state
      else on_success opts.tiers snapshot state
