-- ===== src/Ratelimit/Tests.antt =====
-- Runs of the rate-limit models, and the theorems at concrete inputs.
use lightbridge_opencode_too.Common.{
  ◌≢◌, ◌↔◌, ℕ, ◌≤◌, ◌≡◌, refl, inl, true, Option, none, some, List, [], ◌∷◌, arith, if◌then◌else◌,
}
use lightbridge_opencode_too.Common.Int.{ℤ, pos, negsuc, ◌+ℤ◌, times}
use lightbridge_opencode_too.Common.Text.{Text, codes, text_eq, trim}
use lightbridge_opencode_too.Common.Js.{
  get, number, array, object, Items, Fields, end, field, finite,
}
use lightbridge_opencode_too.Ratelimit.{Tier, Options, wait, error, model}
use lightbridge_opencode_too.Ratelimit.Config.{
  as_boolean, normalize_tiers, select_tier, parse_rate_limit_options,
}
use lightbridge_opencode_too.Ratelimit.Config.Policy.{IsPolicy, normalize_tiers-IsPolicy}
use lightbridge_opencode_too.Ratelimit.Config.Parsing.{
  IsBest, block, select_tier-IsBest, parse_rate_limit_options_opt_in,
}
use lightbridge_opencode_too.Ratelimit.Headers.{
  is_finite, parse_integer, parse_rate_limit, reset_at, round, double_of, round_from,
}
use lightbridge_opencode_too.Ratelimit.Headers.Integers.{print, parse_integer-print}
use lightbridge_opencode_too.Ratelimit.Headers.Snapshots.{parse_rate_limit-print}
use lightbridge_opencode_too.Ratelimit.Fetch.{
  create_provider_state, on_response, arm_cooldown, effective_reset_seconds,
}
use lightbridge_opencode_too.Ratelimit.Fetch.Keys.{bucket_key-injective}
use lightbridge_opencode_too.Ratelimit.Fetch.Retries.{
  Attempt, Surfaces, attempt_loop, attempt_loop_bounded,
}
use lightbridge_opencode_too.Ratelimit.Fetch.Cooldown.{Effect, on_response-Effect}
use lightbridge_opencode_too.Ratelimit.Gate.{Shared, turn}
use lightbridge_opencode_too.Ratelimit.Gate.Invariant.{Promises}
use lightbridge_opencode_too.Ratelimit.Gate.Waiting.{
  Reachable, start, next, arm, new_bucket, gate_bounded,
}
use lightbridge_opencode_too.Ratelimit.Gate.Burst.{burst, IsOneWait, burst_one_timer}

abbrev burst_tier : Tier
burst_tier = record {
  max_reset_seconds = some 60;
  action = wait;
  max_wait_ms = 5000;
  max_retries = 2;
}

abbrev budget_tier : Tier
budget_tier = record { max_reset_seconds = none; action = error; max_wait_ms = 0; max_retries = 5 }

abbrev policy : List Tier
policy = burst_tier ∷ budget_tier ∷ []

abbrev options : Options
options = record {
  enabled = true;
  scope = model;
  header_prefix = codes "x-ratelimit";
  tiers = policy;
}

policy-IsPolicy : IsPolicy policy
policy-IsPolicy = record { sorted = ((tt, tt), (tt, tt)); ends = refl }

normalize_run : normalize_tiers (budget_tier ∷ burst_tier ∷ []) ≡ policy
unfolding normalize_tiers
normalize_run = refl

select_tier-IsBest_example :
    (t : Tier) × (select_tier policy (some (pos 61)) ≡ some t) × IsBest policy (pos 61) t
select_tier-IsBest_example = select_tier-IsBest policy (some (pos 61)) policy-IsPolicy

abbrev no_date : Text → Option ℤ
no_date s = none

abbrev limited : Text → Option Text
limited name =
    if text_eq name (codes "x-ratelimit-reset")
    then some (codes " 48 ")
    else if text_eq name (codes "x-ratelimit-remaining")
    then some (codes "0")
    else none

abbrev too_many : Attempt
too_many = record {
  response = record { status = 429; headers = limited };
  now_ms = pos 1000;
  bucket = create_provider_state;
}

parse_integer-print_example : parse_integer (some (codes " -17  ")) ≡ some (negsuc 16)
unfolding print
parse_integer-print_example =
    parse_integer-print (negsuc 16) (codes " ") (codes "  ") (unfold trim in (refl, tt))
      (unfold trim in (refl, (refl, tt))) (omega arith)

-- Ties go to the even multiple of the unit: 2^53 + 1 to 2^53 and 2^53 + 3 to 2^53 + 4.
rounded_integers :
    (parse_integer (some (codes "9007199254740993")) ≡ some (pos 9007199254740992))
    × (parse_integer (some (codes "-9007199254740995")) ≡ some (negsuc 9007199254740995))
unfolding parse_integer is_finite double_of round_from
rounded_integers = (refl, refl)

normalize_tiers-IsPolicy_example : IsPolicy (normalize_tiers (budget_tier ∷ burst_tier ∷ []))
normalize_tiers-IsPolicy_example = (normalize_tiers-IsPolicy (budget_tier ∷ burst_tier ∷ [])).0

-- `{ meta: { rateLimit: { tiers: [{ maxResetSeconds: 60 }] } } }`
abbrev opted_in : Fields
opted_in =
    field "meta"
      (object (
        field "rateLimit"
          (object (
            field "tiers"
              (array (
                Items.cons (object (field "maxResetSeconds" (number (finite (pos 60) 0)) end))
                  Items.nil))
              end))
          end))
      end

parse_rate_limit_options_opt_in_example :
    ((o : Options) → parse_rate_limit_options (λ s. s) (some opted_in) ≡ some o → IsPolicy o.tiers)
    × ((parse_rate_limit_options (λ s. s) (some opted_in) ≢ none) ↔ (
        (fs : Fields) × (block (some opted_in) ≡ some fs)
        × (as_boolean (get "enabled" fs) true ≡ true)))
parse_rate_limit_options_opt_in_example = parse_rate_limit_options_opt_in (λ s. s) (some opted_in)

parse_rate_limit-reset_run :
    (parse_rate_limit no_date limited (codes "x-ratelimit") (pos 7)).reset_at_ms ≡ some (pos 48007)
unfolding parse_rate_limit text_eq is_finite ◌+ℤ◌ times reset_at round double_of
parse_rate_limit-reset_run = refl

on_response-Effect_example :
    Effect
      (select_tier policy (some (pos 48)))
      (parse_rate_limit no_date limited (codes "x-ratelimit") (pos 1000))
      too_many.response
      (pos 1000)
      0
      create_provider_state
      (on_response no_date options too_many.response (pos 1000) 0 create_provider_state)
unfolding parse_rate_limit text_eq is_finite select_tier effective_reset_seconds double_of
on_response-Effect_example =
    on_response-Effect no_date options too_many.response (pos 1000) 0 create_provider_state

attempt_loop_bounded_example :
    (n : ℕ) × (a : Attempt) × (n ≤ 5)
    × Surfaces no_date options
        (too_many ∷ too_many ∷ too_many ∷ too_many ∷ too_many ∷ too_many ∷ [])
        0
        n
        (attempt_loop no_date options 0
          (too_many ∷ too_many ∷ too_many ∷ too_many ∷ too_many ∷ too_many ∷ []))
        a
attempt_loop_bounded_example =
    attempt_loop_bounded no_date options 5
      (too_many ∷ too_many ∷ too_many ∷ too_many ∷ too_many ∷ too_many ∷ []) policy-IsPolicy
      (omega arith) (omega arith)

bucket_key-injective_example : some (codes "gpt") ≡ some (codes "gpt")
bucket_key-injective_example =
    bucket_key-injective (codes "openai") (some (codes "gpt")) (some (codes "gpt")) (λ e. cc e)
      (λ e. cc e) refl

-- A bucket whose window ends at 900.
abbrev cooling : Shared
cooling = record new_bucket { bucket = arm_cooldown (pos 900) 0 new_bucket.bucket }

cooling-Reachable : Reachable cooling
cooling-Reachable = next start (arm new_bucket (pos 900) 0)

gate_bounded_example :
    Promises
      (pos 100)
      (pos 400)
      (turn cooling (pos 100) (some (pos 400))).0
      (turn cooling (pos 100) (some (pos 400))).1
unfolding arm_cooldown
gate_bounded_example = gate_bounded cooling (pos 100) (some (pos 400)) cooling-Reachable

burst_one_timer_example : IsOneWait (pos 100) none cooling (burst 3 cooling (pos 100) none)
unfolding arm_cooldown create_provider_state
burst_one_timer_example =
    burst_one_timer 2 cooling (pos 100) none cooling-Reachable (omega arith) tt

-- A response with every header of the limiter.
abbrev full : Text → Option Text
full name =
    if text_eq name (codes "x-ratelimit-limit")
    then some (codes "3, 3;w=60")
    else if text_eq name (codes "x-ratelimit-remaining")
    then some (codes "0")
    else if text_eq name (codes "x-ratelimit-reset")
    then some (codes "48")
    else if text_eq name (codes "retry-after")
    then some (codes "50")
    else none

parse_rate_limit-print_example :
    parse_rate_limit no_date full (codes "x-ratelimit") (pos 7) ≡ record {
      limit = some (pos 3);
      remaining = some (pos 0);
      reset_seconds = some (pos 48);
      reset_at_ms = some (pos 48007);
      retry_after_ms = some (pos 50000);
    }
unfolding print text_eq ◌+ℤ◌ times
parse_rate_limit-print_example =
    parse_rate_limit-print no_date full (codes "x-ratelimit") (codes ", 3;w=60") (pos 3) (pos 0)
      (pos 48) (pos 7) 50 refl refl refl refl (inl refl) (omega arith) (omega arith) (omega arith)
      (omega arith)
