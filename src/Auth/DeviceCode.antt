-- ===== src/Auth/DeviceCode.antt =====
-- packages/opencode-auth-core/src/oauth/device-code.ts: the device-code login, with toTokenSet of
-- client.ts. The answers of the token endpoint are a parameter, by the number of the poll, and so is
-- the time that a poll takes; a sleep moves the clock on. Times are whole milliseconds.
pub mod Deadline
pub mod Grants
use lightbridge_opencode_too.Common.{
  min, ℕ, zero, suc, ◌+◌, ◌-◌, ◌*◌, ◌/◌, ◌^◌, Bool, true, false, not, ◌&&◌, ◌||◌, Option, none,
  some, List, [], ◌∷◌, leb, ltb, if◌then◌else◌, or_else,
}
use lightbridge_opencode_too.Common.Int.{ℤ, pos, ◌+ℤ◌, times}
use lightbridge_opencode_too.Common.Text.{Text, codes, text_eq}
use lightbridge_opencode_too.Common.Js.{
  Number, finite, Value, undefined, null, number, string, object, Fields, get,
}
use lightbridge_opencode_too.Auth.{TokenSet}

abbrev pub default_poll_interval_seconds : ℕ
default_poll_interval_seconds = 5

abbrev pub slow_down_increment_seconds : ℕ
slow_down_increment_seconds = 5

abbrev pub max_poll_interval_seconds : ℕ
max_poll_interval_seconds = 60

pub record DeviceAuthorization : Type 0 where
  pub device_code : Text
  pub user_code : Text
  pub verification_uri : Text
  pub verification_uri_complete : Option Text
  -- `expires_in * 1000`, rounded up.
  pub expires_in_ms : ℕ
  pub interval : Option ℕ

pub data Fault : Type 0 where
  bad_response expired denied type_error : Fault
  poll_failed : (status : ℕ) → Fault

pub data Outcome : Type 0 where
  granted : TokenSet → Outcome
  failed : Fault → Outcome

-- A poll: an error that fetch throws, or a response by its status, its body as JSON and its preview as
-- JSON, none where that is not valid.
pub data Poll : Type 0 where
  thrown : (is_type_error : Bool) → Poll
  responded : (status : ℕ) → (json : Option Value) → (preview : Option Value) → Poll

pub data Verdict : Type 0 where
  finished : Outcome → Verdict
  pending : (interval : ℕ) → Verdict

-- A text that is not empty.
nonempty_text : Value → Option Text
nonempty_text (string (c ∷ s)) = some (c ∷ s)
nonempty_text v = none

-- Whole thousands of a double, and its fraction in thousandths, rounded up.
thousands : ℕ → ℕ → ℕ
thousands floor rest = floor * 1000 + (rest * 1000 + (2 ^ 1074 - 1)) / 2 ^ 1074

-- `expires_in`, which must be positive.
expiry_ms : Value → Option ℕ
unfolding thousands
expiry_ms (number (finite (pos zero) zero)) = none
expiry_ms (number (finite (pos n) rest)) = some (thousands n rest)
expiry_ms v = none

-- `Math.ceil(interval)`, of a positive interval.
interval_of : Value → Option ℕ
interval_of (number (finite (pos zero) zero)) = none
interval_of (number (finite (pos n) zero)) = some n
interval_of (number (finite (pos n) (suc rest))) = some (suc n)
interval_of v = none

authorization :
    Fields → Option Text → Option Text → Option Text → Option ℕ → Option DeviceAuthorization
unfolding nonempty_text interval_of get
authorization fs (some device_code) (some user_code) (some uri) (some expires_in_ms) =
    some (record {
      device_code = device_code;
      user_code = user_code;
      verification_uri = uri;
      verification_uri_complete = nonempty_text (get "verification_uri_complete" fs);
      expires_in_ms = expires_in_ms;
      interval = interval_of (get "interval" fs);
    })
authorization fs device_code user_code uri expires_in_ms = none

-- None is an error that it throws.
unfoldable pub parse_device_authorization_response : Value → Option DeviceAuthorization
unfolding authorization expiry_ms nonempty_text get
parse_device_authorization_response (object fs) =
    authorization fs (nonempty_text (get "device_code" fs)) (nonempty_text (get "user_code" fs))
      (nonempty_text (get "verification_uri" fs)) (expiry_ms (get "expires_in" fs))
parse_device_authorization_response v = none

-- `expires_in` of a token response: none where it is no number or 0.
expires_at : ℕ → Value → Option ℤ
unfolding ◌+ℤ◌ times
expires_at now (number (finite (pos zero) zero)) = none
expires_at now (number (finite floor rest)) =
    some (pos now +ℤ times floor 1000 +ℤ pos ((rest * 1000) / 2 ^ 1074))
expires_at now v = none

text_of : Value → Option Text
text_of (string s) = some s
text_of v = none

or_fallback : Option Text → Option Text → Option Text
or_fallback (some t) fallback = some t
or_fallback none fallback = fallback

-- `requireRefreshToken` and no refresh token.
pub lacks_refresh_token : Bool → Option Text → Bool
lacks_refresh_token require none = require
lacks_refresh_token require (some []) = require
lacks_refresh_token require (some (c ∷ s)) = false

token_set : ℕ → Fields → Bool → Option Text → Option Text → Option TokenSet
unfolding expires_at text_of or_fallback nonempty_text lacks_refresh_token get
token_set now fs require refresh_token none = none
token_set now fs require refresh_token (some access_token) =
    if lacks_refresh_token require refresh_token
    then none
    else some (record {
      access_token = access_token;
      token_type = or_else (nonempty_text (get "token_type" fs)) (codes "Bearer");
      refresh_token = refresh_token;
      scope = text_of (get "scope" fs);
      expires_at = expires_at now (get "expires_in" fs);
    })

-- `toTokenSet`: none is an error that it throws.
unfoldable pub to_token_set : ℕ → Bool → Option Text → Fields → Option TokenSet
unfolding token_set or_fallback nonempty_text get
to_token_set now require fallback fs =
    token_set now fs require (or_fallback (nonempty_text (get "refresh_token" fs)) fallback)
      (nonempty_text (get "access_token" fs))

granted_or : Option TokenSet → Outcome
granted_or none = failed bad_response
granted_or (some token) = granted token

-- A successful response.
unfoldable pub on_success : ℕ → Option Value → Outcome
unfolding granted_or to_token_set
on_success now (some (object fs)) = granted_or (to_token_set now true none fs)
on_success now json = failed bad_response

-- The code of a refusal.
on_error_code : Value → ℕ → ℕ → Verdict
on_error_code (string code) status interval =
    if text_eq code (codes "authorization_pending")
    then pending interval
    else if text_eq code (codes "slow_down")
    then pending (interval + slow_down_increment_seconds)
    else if text_eq code (codes "expired_token")
    then finished (failed expired)
    else if text_eq code (codes "access_denied")
    then finished (failed denied)
    else finished (failed (poll_failed status))
on_error_code v status interval = finished (failed (poll_failed status))

on_client_error : Option Value → ℕ → ℕ → Verdict
unfolding on_error_code get
on_client_error (some (object fs)) status interval = on_error_code (get "error" fs) status interval
on_client_error (some null) status interval = finished (failed type_error)
on_client_error preview status interval = finished (failed (poll_failed status))

unfoldable pub on_poll : Poll → ℕ → ℕ → Verdict
unfolding on_success on_client_error min
on_poll (thrown true) now interval = finished (failed type_error)
on_poll (thrown false) now interval =
    pending (min (interval + slow_down_increment_seconds) max_poll_interval_seconds)
on_poll (responded status json preview) now interval =
    if leb 200 status && ltb status 300
    then finished (on_success now json)
    else if leb 400 status && ltb status 500
    then on_client_error preview status interval
    else finished (failed (poll_failed status))

after_sleep : ℕ → Option (List ℕ × Outcome) → Option (List ℕ × Outcome)
after_sleep slept none = none
after_sleep slept (some (sleeps, outcome)) = some (slept ∷ sleeps, outcome)

module _ (answer : ℕ → Poll) (delay : ℕ → ℕ) where
  go_on : (ℕ → Option (List ℕ × Outcome)) → Verdict → Option (List ℕ × Outcome)
  go_on rest (finished outcome) = some ([], outcome)
  go_on rest (pending interval) = rest interval

  -- The loop, with fuel for its rounds.
  unfoldable pub poll_loop : ℕ → ℕ → ℕ → ℕ → ℕ → Option (List ℕ × Outcome)
  unfolding after_sleep go_on on_poll min
  poll_loop zero n deadline_ms now interval = none
  poll_loop (suc fuel) n deadline_ms now interval =
      let slept = min (interval * 1000) (deadline_ms - now) in
      let later = now + slept + delay n in
      let run = after_sleep slept (
        go_on (λ i. poll_loop fuel (suc n) deadline_ms later i)
          (on_poll (answer n) later interval)) in
      if leb deadline_ms now then some ([], failed expired) else run

  -- The login from the answer of the device authorization endpoint on.
  unfoldable pub poll_token : ℕ → ℕ → DeviceAuthorization → Option (List ℕ × Outcome)
  unfolding poll_loop
  poll_token fuel now device_auth =
      poll_loop fuel 0 (now + device_auth.expires_in_ms) now
        (or_else device_auth.interval default_poll_interval_seconds)
