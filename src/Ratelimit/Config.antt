-- ===== src/Ratelimit/Config.antt =====
-- packages/opencode-ratelimit/src/config.ts: the `meta.rateLimit` block of a provider, and the
-- choice of a tier. `toLowerCase` is a parameter.
pub mod Policy
pub mod Parsing
use lightbridge_opencode_too.Common.{
  ℕ, Bool, true, false, ◌||◌, Option, none, some, List, [], ◌∷◌, ◌++◌, ltb, if◌then◌else◌, or_else,
  last?,
}
use lightbridge_opencode_too.Common.Int.{ℤ, pos, negsuc, ◌-ℤ◌, leb_ℤ, pos_part}
use lightbridge_opencode_too.Common.Text.{some_nonempty, Text, codes, trim, text_eq}
use lightbridge_opencode_too.Common.Js.{
  Value, boolean, number, string, array, object, Items, Fields, end, finite, items, get,
}
use lightbridge_opencode_too.Ratelimit.{Scope, provider, model, Action, wait, error, Tier, Options}

abbrev pub default_max_wait_ms : ℕ
default_max_wait_ms = 0

abbrev pub default_max_retries : ℕ
default_max_retries = 5

abbrev pub default_header_prefix : Text
default_header_prefix = codes "x-ratelimit"

abbrev pub default_scope : Scope
default_scope = model

unfoldable pub as_record : Value → Option Fields
as_record (object fs) = some fs
as_record _ = none

unfoldable pub as_string : Value → Option Text
unfolding some_nonempty
as_string (string s) = some_nonempty (trim s)
as_string _ = none

unfoldable pub as_boolean : Value → Bool → Bool
as_boolean (boolean b) fallback = b
as_boolean _ fallback = fallback

-- `value > 0` and `value >= 0` of a finite number.
abbrev pub is_positive : ℤ → ℕ → Bool
is_positive (pos n) rest = ltb 0 n || ltb 0 rest
is_positive (negsuc n) rest = false

abbrev pub is_non_negative : ℤ → Bool
is_non_negative (pos n) = true
is_non_negative (negsuc n) = false

unfoldable pub as_positive_int : Value → ℕ → ℕ
as_positive_int (number (finite floor rest)) fallback =
    if is_positive floor rest then pos_part floor else fallback
as_positive_int _ fallback = fallback

unfoldable pub as_non_negative_int : Value → ℕ → ℕ
as_non_negative_int (number (finite floor rest)) fallback =
    if is_non_negative floor then pos_part floor else fallback
as_non_negative_int _ fallback = fallback

unfoldable pub as_scope : Value → Scope
as_scope (string s) =
    if text_eq s (codes "provider")
    then provider
    else if text_eq s (codes "model")
    then model
    else default_scope
as_scope _ = default_scope

unfoldable pub as_action : Value → Action
as_action (string s) = if text_eq s (codes "error") then error else wait
as_action _ = wait

unfoldable pub as_max_reset_seconds : Value → Option ℕ
as_max_reset_seconds (number (finite floor rest)) =
    if is_positive floor rest then some (pos_part floor) else none
as_max_reset_seconds _ = none

unfoldable pub parse_tier : Fields → Tier
unfolding get as_max_reset_seconds as_action as_non_negative_int as_positive_int
parse_tier raw = record {
  max_reset_seconds = as_max_reset_seconds (get "maxResetSeconds" raw);
  action = as_action (get "action" raw);
  max_wait_ms = as_non_negative_int (get "maxWaitMs" raw) default_max_wait_ms;
  max_retries = as_positive_int (get "maxRetries" raw) default_max_retries;
}

-- The comparator that `normalizeTiers` hands to `sort`, on the two bounds.
unfoldable pub compare_bounds : Option ℕ → Option ℕ → ℤ
unfolding ◌-ℤ◌
compare_bounds none none = pos 0
compare_bounds none (some b) = pos 1
compare_bounds (some a) none = negsuc 0
compare_bounds (some a) (some b) = pos a -ℤ pos b

-- `sort` is stable: an element goes before the first that it does not exceed.
unfoldable pub insert_tier : Tier → List Tier → List Tier
unfolding compare_bounds
insert_tier t [] = t ∷ []
insert_tier t (u ∷ us) =
    let later = u ∷ insert_tier t us in
    if leb_ℤ (compare_bounds t.max_reset_seconds u.max_reset_seconds) (pos 0)
    then t ∷ u ∷ us
    else later

unfoldable pub sort_tiers : List Tier → List Tier
unfolding insert_tier
sort_tiers [] = []
sort_tiers (t ∷ ts) = insert_tier t (sort_tiers ts)

abbrev is_catch_all : Option ℕ → Bool
is_catch_all none = true
is_catch_all (some b) = false

unfoldable pub has_catch_all : List Tier → Bool
has_catch_all [] = false
has_catch_all (t ∷ ts) = is_catch_all t.max_reset_seconds || has_catch_all ts

abbrev pub catch_all_tier : Tier
catch_all_tier = record {
  max_reset_seconds = none;
  action = wait;
  max_wait_ms = default_max_wait_ms;
  max_retries = default_max_retries;
}

unfoldable pub normalize_tiers : List Tier → List Tier
unfolding sort_tiers has_catch_all
normalize_tiers tiers =
    let sorted = sort_tiers tiers in
    if has_catch_all sorted then sorted else sorted ++ catch_all_tier ∷ []

parse_tiers : List Value → List Tier
unfolding as_record parse_tier
parse_tiers [] = []
parse_tiers (v ∷ vs) = parse_tier (or_else (as_record v) end) ∷ parse_tiers vs

flat_tier : Fields → Tier
unfolding as_non_negative_int as_positive_int get
flat_tier rate_limit = record {
  max_reset_seconds = none;
  action = wait;
  max_wait_ms = as_non_negative_int (get "maxWaitMs" rate_limit) default_max_wait_ms;
  max_retries = as_positive_int (get "maxRetries" rate_limit) default_max_retries;
}

-- `tiers` where it is a non-empty array, the flat settings otherwise.
resolve_tiers : Value → Fields → List Tier
unfolding normalize_tiers parse_tiers flat_tier
resolve_tiers (array (Items.cons v vs)) rate_limit = normalize_tiers (parse_tiers (v ∷ items vs))
resolve_tiers _ rate_limit = flat_tier rate_limit ∷ []

infixl 5 ◌>>=◌
abbrev ◌>>=◌ : {A B : Type 0} → Option A → (A → Option B) → Option B
none >>= k = none
some a >>= k = k a

module _ (to_lower_case : Text → Text) where
  -- The part of `parseRateLimitOptions` from the `enabled` flag on.
  resolve_options : Fields → Option Options
  unfolding as_boolean as_scope as_string resolve_tiers get
  resolve_options rate_limit =
      if as_boolean (get "enabled" rate_limit) true
      then some (record {
        enabled = true;
        scope = as_scope (get "scope" rate_limit);
        header_prefix =
            to_lower_case
              (or_else (as_string (get "headerPrefix" rate_limit)) default_header_prefix);
        tiers = resolve_tiers (get "tiers" rate_limit) rate_limit;
      })
      else none

  unfoldable pub parse_rate_limit_options : Option Fields → Option Options
  unfolding as_record resolve_options
  parse_rate_limit_options provider_options = do
    options ← provider_options
    meta ← as_record (get "meta" options)
    rate_limit ← as_record (get "rateLimit" meta)
    resolve_options rate_limit

-- `reset <= tier.maxResetSeconds`, and true of the catch-all.
unfoldable pub covers : Option ℕ → ℤ → Bool
covers none reset = true
covers (some b) reset = leb_ℤ reset (pos b)

-- The last tier is what the code returns where none covers the reset; of no tiers it is undefined.
find_tier : List Tier → ℤ → Option Tier → Option Tier
unfolding covers
find_tier [] reset fallback = fallback
find_tier (t ∷ ts) reset fallback =
    let rest = find_tier ts reset fallback in
    if covers t.max_reset_seconds reset then some t else rest

unfoldable pub select_tier : List Tier → Option ℤ → Option Tier
unfolding find_tier
select_tier tiers reset_seconds = find_tier tiers (or_else reset_seconds (pos 0)) (last? tiers)
