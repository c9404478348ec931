-- ===== src/Ratelimit/Fetch/Retries.antt =====
-- The attempt loop of the wrapper: how often it sends a request, and which response it surfaces.
use lightbridge_opencode_too.Common.{
  ℕ, suc, ◌+◌, ◌≤◌, ◌<◌, ◌≡◌, ◌≢◌, ◌⊎◌, refl, inl, inr, Option, none, some, List, [], ◌∷◌, arith,
  All, All-In, get_elem?, length, Bool-cases, Option-cases, ◌==◌,
}
use lightbridge_opencode_too.Common.Int.{ℤ}
use lightbridge_opencode_too.Common.Text.{Text}
use lightbridge_opencode_too.Ratelimit.{error, Tier, Options, Snapshot}
use lightbridge_opencode_too.Ratelimit.Config.{select_tier}
use lightbridge_opencode_too.Ratelimit.Config.Policy.{IsPolicy}
use lightbridge_opencode_too.Ratelimit.Config.Parsing.{select_tier-IsBest}
use lightbridge_opencode_too.Ratelimit.Headers.{parse_rate_limit}
use lightbridge_opencode_too.Ratelimit.Fetch.{
  ProviderRateState, Response, Verdict, surface, retry, fault, on_response, on_success, on_429,
  on_exhausted, exhausted_until, effective_reset_seconds,
}

-- A call's history: each attempt has the response to it, the time at which it came and the bucket
-- as the other calls left it.
pub record Attempt : Type 0 where
  pub response : Response
  pub now_ms : ℤ
  pub bucket : ProviderRateState

-- How a call ends: with a response after so many requests, with a TypeError, or not yet.
pub data Outcome : Type 0 where
  surfaced : Response → (requests : ℕ) → Outcome
  faulted : Outcome
  unfinished : Outcome

module _ (date_parse : Text → Option ℤ) (opts : Options) where
  -- The attempt loop from attempt number `attempt` on; the waits between are the gate's.
  pub attempt_loop : ℕ → List Attempt → Outcome
  attempt_loop attempt [] = unfinished
  attempt_loop attempt (a ∷ rest) =
      elim (on_response date_parse opts a.response a.now_ms attempt a.bucket) [
        | surface state ↦ surfaced a.response (suc attempt)
        | retry state max_wait_ms ↦ attempt_loop (suc attempt) rest
        | fault ↦ faulted
      ]

  -- The tier that a response selects.
  abbrev pub tier_of : Attempt → Option Tier
  tier_of a = select_tier opts.tiers (
      effective_reset_seconds
        (parse_rate_limit date_parse a.response.headers opts.header_prefix a.now_ms))

  -- A response that the loop may surface at attempt number `n`.
  abbrev pub IsFinal : Attempt → ℕ → Type 0
  IsFinal a n =
      (a.response.status ≢ 429)
      ⊎ ((t : Tier) × (tier_of a ≡ some t) × ((t.action ≡ error) ⊎ (t.max_retries ≤ n)))

  on_429-surface :
      (tier : Option Tier) (snapshot : Snapshot) (now_ms : ℤ) (n : ℕ) (b s : ProviderRateState)
      → on_429 tier snapshot now_ms n b ≡ surface s
      → (t : Tier) × (tier ≡ some t) × ((t.action ≡ error) ⊎ (t.max_retries ≤ n))
  unfolding on_429
  on_429-surface none snapshot now_ms n b s h = cc
  on_429-surface (some t) snapshot now_ms n b s h = (t, refl, ground arith)

  on_response-surface :
      (a : Attempt) (n : ℕ) (s : ProviderRateState)
      → on_response date_parse opts a.response a.now_ms n a.bucket ≡ surface s
      → IsFinal a n
  unfolding on_response
  on_response-surface a n s h = elim (Bool-cases (a.response.status == 429)) [
    | inl e ↦ inr (on_429-surface (tier_of a) _ a.now_ms n a.bucket s (rw e at h))
    | inr e ↦ inl (ground arith)
  ]

  on_429-retry :
      (tier : Option Tier) (snapshot : Snapshot) (now_ms : ℤ) (n : ℕ) (b s : ProviderRateState)
      (m : ℕ)
      → on_429 tier snapshot now_ms n b ≡ retry s m
      → (t : Tier) × (tier ≡ some t) × (n < t.max_retries)
  unfolding on_429
  on_429-retry none snapshot now_ms n b s m h = cc
  on_429-retry (some t) snapshot now_ms n b s m h = (t, refl, ground arith)

  on_success-retry :
      (snapshot : Snapshot) (b s : ProviderRateState) (m : ℕ)
      → on_success opts.tiers snapshot b ≢ retry s m
  unfolding on_success
  on_success-retry snapshot b s m = ground arith

  on_response-retry :
      (a : Attempt) (n : ℕ) (s : ProviderRateState) (m : ℕ)
      → on_response date_parse opts a.response a.now_ms n a.bucket ≡ retry s m
      → (t : Tier) × (tier_of a ≡ some t) × (n < t.max_retries)
  unfolding on_response
  on_response-retry a n s m h = elim (Bool-cases (a.response.status == 429)) [
    | inl e ↦ on_429-retry (tier_of a) _ a.now_ms n a.bucket s m (rw e at h)
    | inr e ↦ absurd (on_success-retry _ a.bucket s m (rw e at h))
  ]

  on_429-fault :
      (tier : Option Tier) (snapshot : Snapshot) (now_ms : ℤ) (n : ℕ) (b : ProviderRateState)
      → tier ≢ none
      → on_429 tier snapshot now_ms n b ≢ fault
  unfolding on_429
  on_429-fault none snapshot now_ms n b h = absurd (h refl)
  on_429-fault (some t) snapshot now_ms n b h = ground arith

  on_exhausted-fault :
      (tier : Option Tier) (until : ℤ) (b : ProviderRateState)
      → tier ≢ none
      → on_exhausted tier until b ≢ fault
  unfolding on_exhausted
  on_exhausted-fault none until b h = absurd (h refl)
  on_exhausted-fault (some t) until b h = ground arith

  selects : IsPolicy opts.tiers → (reset : Option ℤ) → select_tier opts.tiers reset ≢ none
  selects p reset e = let (t, found, best) = select_tier-IsBest opts.tiers reset p in cc

  on_success-fault :
      IsPolicy opts.tiers
      → (snapshot : Snapshot) (b : ProviderRateState) → on_success opts.tiers snapshot b ≢ fault
  unfolding on_success
  on_success-fault p snapshot b h = elim (Option-cases (exhausted_until snapshot)) [
    | inl e ↦ let gone : surface b ≡ fault = rw (e, on_success) at h in cc gone
    | inr (until, e) ↦ on_exhausted-fault _ until b (selects p _) (rw (e, on_success) at h)
  ]

  on_response-fault :
      IsPolicy opts.tiers
      → (a : Attempt) (n : ℕ) → on_response date_parse opts a.response a.now_ms n a.bucket ≢ fault
  unfolding on_response
  on_response-fault p a n h = elim (Bool-cases (a.response.status == 429)) [
    | inl e ↦ on_429-fault (tier_of a) _ a.now_ms n a.bucket (selects p _) (rw e at h)
    | inr e ↦ on_success-fault p _ a.bucket (rw e at h)
  ]

  -- One attempt: it surfaces a final response, or there is a tier with retries left.
  attempt_cases :
      IsPolicy opts.tiers
      → (a : Attempt) (n : ℕ) (v : Verdict)
      → on_response date_parse opts a.response a.now_ms n a.bucket ≡ v
      → (IsFinal a n × ((s : ProviderRateState) × (v ≡ surface s)))
        ⊎ ((t : Tier) × (s : ProviderRateState) × (m : ℕ) × (tier_of a ≡ some t)
            × (n < t.max_retries)
            × (v ≡ retry s m))
  attempt_cases p a n (surface s) e = inl (on_response-surface a n s e, (s, refl))
  attempt_cases p a n (retry s m) e =
      let (t, found, more) = on_response-retry a n s m e in inr (t, s, m, found, more, refl)
  attempt_cases p a n fault e = absurd (on_response-fault p a n e)

  -- The response to attempt `n`, the last one, is surfaced.
  abbrev pub Surfaces : List Attempt → (k n : ℕ) → Outcome → Attempt → Type 0
  Surfaces h k n o a =
      (o ≡ surfaced a.response (suc n))
      × ((j : ℕ) × (n ≡ k + j) × (get_elem? h j ≡ some a))
      × IsFinal a n

  retries_within :
      (m : ℕ) (t : Tier) (reset : Option ℤ)
      → IsPolicy opts.tiers
      → All (λ t. t.max_retries ≤ m) opts.tiers
      → select_tier opts.tiers reset ≡ some t
      → t.max_retries ≤ m
  retries_within m t reset p h e =
      let (u, found, best) = select_tier-IsBest opts.tiers reset p in
      let same : u ≡ t = ground (arith, found, e) in
      rw (← same) (All-In (λ v. v.max_retries ≤ m) opts.tiers h best.member)

  attempt_loop_from :
      (m k : ℕ) (h : List Attempt)
      → IsPolicy opts.tiers
      → All (λ t. t.max_retries ≤ m) opts.tiers
      → k ≤ m
      → m < length h + k
      → (n : ℕ) × (a : Attempt) × (n ≤ m) × Surfaces h k n (attempt_loop k h) a
  unfolding attempt_loop
  attempt_loop_from m k [] p q le lt = absurd (omega arith)
  attempt_loop_from m k (a ∷ h) p q le lt = elim (attempt_cases p a k _ refl) [
    | inl (final, (s, e)) ↦ (k, a, le, (rw (e, attempt_loop), (0, omega arith, refl), final))
    | inr (t, s, r, found, more, e) ↦
        let bound = retries_within m t _ p q found in
        let (n, b, low, (same, (j, at, elem), final)) =
          attempt_loop_from m (suc k) h p q (omega arith) (omega arith) in
        (n, b, low, (rw (e, attempt_loop) same, (suc j, omega arith, elem), final))
  ]

-- Under a policy whose tiers allow at most `m` retries, the loop ends after at most `m + 1` requests,
-- never with a TypeError, and surfaces the response to its last attempt; that response is no 429,
-- or its tier says `error`, or as many retries as its tier allows have been made.
pub attempt_loop_bounded :
    (date_parse : Text → Option ℤ) (opts : Options) (m : ℕ) (h : List Attempt)
    → IsPolicy opts.tiers
    → All (λ t. t.max_retries ≤ m) opts.tiers
    → m < length h
    → (n : ℕ) × (a : Attempt) × (n ≤ m)
      × Surfaces date_parse opts h 0 n (attempt_loop date_parse opts 0 h) a
attempt_loop_bounded date_parse opts m h p q lt =
    attempt_loop_from date_parse opts m 0 h p q (omega arith) (omega arith)
