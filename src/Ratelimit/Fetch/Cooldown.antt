-- ===== src/Ratelimit/Fetch/Cooldown.antt =====
-- What a response does to the cooldown of its bucket.
use lightbridge_opencode_too.Common.{
  ℕ, ◌≤◌, ◌<◌, ◌≡◌, ◌≢◌, ◌⊎◌, refl, inl, inr, Option, none, some, arith, Bool-cases, Option-cases,
  ◌==◌,
}
use lightbridge_opencode_too.Common.Int.{ℤ, pos, ◌+ℤ◌, ◌≤ℤ◌, int_laws}
use lightbridge_opencode_too.Common.Text.{Text}
use lightbridge_opencode_too.Ratelimit.{wait, error, Tier, Options, Snapshot}
use lightbridge_opencode_too.Ratelimit.Config.{select_tier}
use lightbridge_opencode_too.Ratelimit.Headers.{parse_rate_limit}
use lightbridge_opencode_too.Ratelimit.Fetch.{
  ProviderRateState, Response, Verdict, surface, retry, fault, on_response, on_success, on_429,
  on_exhausted, exhausted_until, effective_reset_seconds, clamp_wait, compute_backoff, arm_cooldown,
  clear_cooldown, backoff,
}

clamp_wait_bounds :
    (ms : ℤ) (m : ℕ) → (pos 0 ≤ℤ clamp_wait ms m) × (0 < m → clamp_wait ms m ≤ℤ pos m)
unfolding clamp_wait
clamp_wait_bounds ms m = ground arith

-- The bucket after a backoff of a call: the window ends no earlier than now, and no later than the
-- tier's `maxWaitMs` from now, where that is not 0.
abbrev pub IsBackoff : ℤ → Tier → ProviderRateState → Type 0
IsBackoff now_ms t s =
    (s.cooldown_max_wait_ms ≡ t.max_wait_ms)
    × (now_ms ≤ℤ s.cooldown_until_ms)
    × (0 < t.max_wait_ms → s.cooldown_until_ms ≤ℤ now_ms +ℤ pos t.max_wait_ms)

-- Each way in which the response to attempt `n` can leave the bucket.
abbrev pub Effect : Option Tier → Snapshot → Response → ℤ → ℕ → ProviderRateState → Verdict → Type 0
Effect tier snapshot response now_ms n b (retry s m) =
    (response.status ≡ 429)
    × ((t : Tier) × (tier ≡ some t)
        × (t.action ≡ wait)
        × (n < t.max_retries)
        × (m ≡ t.max_wait_ms)
        × IsBackoff now_ms t s)
Effect tier snapshot response now_ms n b (surface s) =
    ((s ≡ b) × (response.status ≢ 429) × (exhausted_until snapshot ≡ none))
    ⊎ ((t : Tier) × (tier ≡ some t)
        × (((t.action ≡ error)
              × (s ≡ clear_cooldown b)
              × ((response.status ≡ 429) ⊎ (exhausted_until snapshot ≢ none)))
            ⊎ ((t.action ≡ wait) × (response.status ≡ 429) × (t.max_retries ≤ n) × (s ≡ b))
            ⊎ ((t.action ≡ wait)
                × (response.status ≢ 429)
                × ((until : ℤ) × (exhausted_until snapshot ≡ some until)
                    × (s ≡ arm_cooldown until t.max_wait_ms b)))))
Effect tier snapshot response now_ms n b fault = tier ≡ none

backoff-IsBackoff :
    (now_ms : ℤ) (snapshot : Snapshot) (t : Tier) (b : ProviderRateState)
    → IsBackoff now_ms t (backoff t snapshot now_ms b)
unfolding backoff
backoff-IsBackoff now_ms snapshot t b =
    let (low, high) = clamp_wait_bounds (compute_backoff snapshot now_ms) t.max_wait_ms in
    (refl, omega int_laws, λ p. let h = high p in omega int_laws)

on_429-cases :
    (t : Tier) (snapshot : Snapshot) (now_ms : ℤ) (n : ℕ) (b : ProviderRateState)
    → ((t.action ≡ error) × (on_429 (some t) snapshot now_ms n b ≡ surface (clear_cooldown b)))
      ⊎ ((t.action ≡ wait)
          × (t.max_retries ≤ n)
          × (on_429 (some t) snapshot now_ms n b ≡ surface b))
      ⊎ ((t.action ≡ wait)
          × (n < t.max_retries)
          × (on_429 (some t) snapshot now_ms n b
              ≡ retry (backoff t snapshot now_ms b) t.max_wait_ms))
unfolding on_429
on_429-cases t snapshot now_ms n b = unfold clear_cooldown in ground arith

on_429-Effect :
    (tier : Option Tier) (snapshot : Snapshot) (response : Response) (now_ms : ℤ) (n : ℕ)
    (b : ProviderRateState)
    → response.status ≡ 429
    → Effect tier snapshot response now_ms n b (on_429 tier snapshot now_ms n b)
on_429-Effect none snapshot response now_ms n b e = unfold on_429 in refl
on_429-Effect (some t) snapshot response now_ms n b e = elim (on_429-cases t snapshot now_ms n b) [
  | inl (failing, same) ↦ rw same (inr (t, refl, inl (failing, refl, inl e)))
  | inr (inl (waits, spent, same)) ↦ rw same (inr (t, refl, inr (inl (waits, e, spent, refl))))
  | inr (inr (waits, more, same)) ↦
      rw same (e, (t, refl, waits, more, refl, backoff-IsBackoff now_ms snapshot t b))
]

on_exhausted-cases :
    (t : Tier) (until : ℤ) (b : ProviderRateState)
    → ((t.action ≡ error) × (on_exhausted (some t) until b ≡ surface (clear_cooldown b)))
      ⊎ ((t.action ≡ wait)
          × (on_exhausted (some t) until b ≡ surface (arm_cooldown until t.max_wait_ms b)))
unfolding on_exhausted
on_exhausted-cases t until b = ground arith

on_exhausted-Effect :
    (tier : Option Tier) (snapshot : Snapshot) (response : Response) (now_ms until : ℤ) (n : ℕ)
    (b : ProviderRateState)
    → response.status ≢ 429
    → exhausted_until snapshot ≡ some until
    → Effect tier snapshot response now_ms n b (on_exhausted tier until b)
on_exhausted-Effect none snapshot response now_ms until n b e x = unfold on_exhausted in refl
on_exhausted-Effect (some t) snapshot response now_ms until n b e x =
    elim (on_exhausted-cases t until b) [
      | inl (failing, same) ↦
          rw same (inr (t, refl, inl (failing, refl, inr (λ gone. cc (x, gone)))))
      | inr (waits, same) ↦ rw same (inr (t, refl, inr (inr (waits, e, (until, x, refl)))))
    ]

on_success-Effect :
    (opts : Options) (snapshot : Snapshot) (response : Response) (now_ms : ℤ) (n : ℕ)
    (b : ProviderRateState)
    → response.status ≢ 429
    → Effect
        (select_tier opts.tiers (effective_reset_seconds snapshot))
        snapshot
        response
        now_ms
        n
        b
        (on_success opts.tiers snapshot b)
unfolding on_success
on_success-Effect opts snapshot response now_ms n b e =
    elim (Option-cases (exhausted_until snapshot)) [
      | inl x ↦ rw (x, on_success) (inl (refl, e, x))
      | inr (until, x) ↦
          rw (x, on_success) (on_exhausted-Effect _ snapshot response now_ms until n b e x)
    ]

-- What the response to attempt `n` does to its bucket. A 429 under a `wait` tier with retries left
-- arms a backoff before a retry, which ends no earlier than now, and by `maxWaitMs` if that is not 0;
-- with none left the bucket stays as it was. An `error` tier clears the cooldown, on a 429 or an
-- exhausted window. An exhausted window under a `wait` tier arms the cooldown until the window's
-- reset. A response that is neither leaves the bucket as it was.
pub on_response-Effect :
    (date_parse : Text → Option ℤ) (opts : Options) (response : Response) (now_ms : ℤ) (n : ℕ)
    (b : ProviderRateState)
    → let snapshot = parse_rate_limit date_parse response.headers opts.header_prefix now_ms in
      Effect
        (select_tier opts.tiers (effective_reset_seconds snapshot))
        snapshot
        response
        now_ms
        n
        b
        (on_response date_parse opts response now_ms n b)
unfolding on_response
on_response-Effect date_parse opts response now_ms n b =
    elim (Bool-cases (response.status == 429)) [
      | inl e ↦ rw (e, on_response) (on_429-Effect _ _ response now_ms n b (ground arith))
      | inr e ↦ rw (e, on_response) (on_success-Effect opts _ response now_ms n b (ground arith))
    ]
