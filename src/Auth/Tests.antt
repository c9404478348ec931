-- ===== src/Auth/Tests.antt =====
-- Runs of the token models, and the theorems at concrete inputs.
use lightbridge_opencode_too.Common.{
  ℕ, zero, suc, ◌≡◌, refl, true, false, none, some, List, [], ◌∷◌, ◌++◌, ◌==◌, ◌*◌, ◌+◌, All, arith,
  if◌then◌else◌,
}
use lightbridge_opencode_too.Common.Int.{pos, ◌-ℤ◌}
use lightbridge_opencode_too.Common.Text.{Text, codes, text_eq, trim}
use lightbridge_opencode_too.Auth.{
  TokenSet, authorization_code, token_exchange, is_token_valid, refresh_token_of,
  uses_refresh_token,
}
use lightbridge_opencode_too.Auth.Lock.{
  Disk, exists, acquired_at, missing, FileLock, not_acquired, timeout, Wait, lock_bounds,
  positive_or, acquire_file_lock, attempt_lock, lock_age_ms, is_stale,
}
use lightbridge_opencode_too.Auth.Lock.Waiting.{IsJustified, WasStale, acquire_file_lock-ends}
use lightbridge_opencode_too.Auth.Runtime.{
  done, refused, interactive_required, World, Trace, acquire_coordinated,
}
use lightbridge_opencode_too.Auth.Runtime.Replay.{PresentsOnce, acquire_coordinated-PresentsOnce}
use lightbridge_opencode_too.Auth.Flight.{Slot, Reachable, begin, called, Gets, ensure, ensure-Gets}
use lightbridge_opencode_too.Auth.DeviceCode.{
  DeviceAuthorization, Poll, responded, poll_token, on_poll, on_success, failed, expired, granted,
}
use lightbridge_opencode_too.Auth.DeviceCode.Grants.{IsGrant, poll_token-IsGrant}
use lightbridge_opencode_too.Auth.DeviceCode.Deadline.{IsBounded, poll_token-IsBounded}
use lightbridge_opencode_too.Common.Js.{
  Value, undefined, string, array, object, field, end, cons, nil,
}
use lightbridge_opencode_too.Auth.Config.{
  required, valid, invalid, ◌>>=◌, env, AuthServerConfig, validate_auth_config,
}
use lightbridge_opencode_too.Auth.Config.Texts.{value_of}
use lightbridge_opencode_too.Auth.Config.Accepted.{IsUsable, validate_auth_config-IsUsable}

-- A holder that acquired the lock at 1000 and never releases it; each attempt takes 75 ms.
abbrev held : Disk
held = record {
  can_make_directory = true;
  create = λ n. exists;
  read = λ n. acquired_at (pos 1000);
  stat = λ n. missing;
  can_unlink = λ n. true;
  age_clock = λ n. pos (1000 + 75 * n);
  clock = λ n. 1000 + 75 * n;
}

lock_run :
    acquire_file_lock held (some 200) (some 150) 1000 3
    ≡ some (not_acquired timeout, record { sleeps = 2; broken = [] })
unfolding acquire_file_lock lock_bounds positive_or attempt_lock lock_age_ms is_stale ◌-ℤ◌
lock_run = refl

stale_token : TokenSet
stale_token = record {
  access_token = codes "a1";
  token_type = codes "Bearer";
  refresh_token = some (codes "r1");
  scope = none;
  expires_at = some (pos 500);
}

-- Another process has rotated the chain to `r2` when the endpoint refuses `r1`.
abbrev rotated : World
rotated = record {
  cached = λ n.
      if n == 0
      then some stale_token
      else some (record stale_token { refresh_token = some (codes "r2") });
  clock = λ n. 1000;
  answer = λ n t.
      if text_eq t (codes "r1")
      then refused 400
      else done (record stale_token { access_token = codes "a3"; expires_at = some (pos 90000) });
  login = λ n flow. interactive_required;
  can_write = λ n. true;
  is_locked = true;
  flow = authorization_code;
  skew = 60;
}

abbrev fresh : Trace
fresh = record { reads = 0; checks = 0; presented = []; written = []; logins = []; releases = 0 }

rotated_run :
    (acquire_coordinated rotated none (some false) fresh).0.presented ≡ codes "r1" ∷ codes "r2" ∷ []
unfolding acquire_coordinated text_eq is_token_valid refresh_token_of uses_refresh_token stale_token
rotated_run = refl

acquire_coordinated-PresentsOnce_example :
    (ts : List Text) × PresentsOnce ts
    × ((acquire_coordinated rotated none (some false) fresh).0.presented ≡ fresh.presented ++ ts)
acquire_coordinated-PresentsOnce_example =
    acquire_coordinated-PresentsOnce rotated none (some false) fresh

acquire_file_lock-ends_example :
    (lock : FileLock) × (wait : Wait) × (acquire_file_lock held (some 200) (some 150) 1000 3
      ≡ some (lock, wait))
    × IsJustified held
        (lock_bounds (some 200) (some 150) 1000).0
        (lock_bounds (some 200) (some 150) 1000).1
        lock
    × All
        (WasStale held
          (lock_bounds (some 200) (some 150) 1000).0
          (lock_bounds (some 200) (some 150) 1000).1)
        wait.broken
unfolding lock_bounds positive_or
acquire_file_lock-ends_example =
    acquire_file_lock-ends held (some 200) (some 150) 1000 2 (omega arith)

-- One caller has begun refresh 0.
abbrev refreshing : Slot
refreshing = record { in_flight = some 0; running = 0 ∷ []; next = 1 }

refreshing-Reachable : Reachable authorization_code 60 refreshing
unfolding ensure is_token_valid
refreshing-Reachable = called 1000 none begin

ensure-Gets_example :
    Gets none
      (is_token_valid authorization_code 60 1000 none)
      (ensure authorization_code 60 1000 none refreshing).0
      (ensure authorization_code 60 1000 none refreshing).1
ensure-Gets_example = ensure-Gets authorization_code 60 1000 none refreshing refreshing-Reachable

-- A code that expires after 12 seconds, polled every 5 seconds.
abbrev issued : DeviceAuthorization
issued = record {
  device_code = codes "d";
  user_code = codes "U-1";
  verification_uri = codes "https://id";
  verification_uri_complete = none;
  expires_in_ms = 12000;
  interval = none;
}

abbrev waiting : Poll
waiting =
    responded 400 none (some (object (field "error" (string (codes "authorization_pending")) end)))

waiting_run :
    poll_token (λ n. waiting) (λ n. 100) 4 1000 issued
    ≡ some (5000 ∷ 5000 ∷ 1800 ∷ [], failed expired)
unfolding poll_token on_poll text_eq
waiting_run = refl

poll_token-IsBounded_example :
    IsBounded (λ n. 100) 3 0 1000 13000 (poll_token (λ n. waiting) (λ n. 100) 4 1000 issued)
poll_token-IsBounded_example =
    poll_token-IsBounded (λ n. waiting) (λ n. 100) 5 (omega arith) 3 1000 issued (omega arith)
      (omega arith)

-- The user confirms the code after the first poll.
abbrev confirmed : Poll
confirmed =
    responded 200
      (some (
        object (
          field "access_token" (string (codes "a"))
            (field "refresh_token" (string (codes "r")) end))))
      none

abbrev answers : ℕ → Poll
answers zero = waiting
answers (suc n) = confirmed

abbrev granted_token : TokenSet
granted_token = record {
  access_token = codes "a";
  token_type = codes "Bearer";
  refresh_token = some (codes "r");
  scope = none;
  expires_at = none;
}

granting_run :
    poll_token answers (λ n. 100) 3 1000 issued ≡ some (5000 ∷ 5000 ∷ [], granted granted_token)
unfolding poll_token on_poll on_success text_eq
granting_run = refl

poll_token-IsGrant_example : (m : ℕ) × IsGrant (answers m) granted_token
poll_token-IsGrant_example =
    poll_token-IsGrant answers (λ n. 100) 3 1000 issued (5000 ∷ 5000 ∷ []) granted_token
      granting_run

-- A machine flow with a source of its subject token.
abbrev exchange_config : Value
exchange_config = object (
    field "id" (string (codes " s ")) (
      field "issuer" (string (codes "i")) (
        field "clientId" (string (codes "c")) (
          field "scopes" (array (cons (string (codes " openid")) nil)) (
            field "authFlow" (string (codes "token_exchange")) (
              field "subjectTokenSource"
                (object
                  (field "type" (string (codes "env")) (field "var" (string (codes "T")) end)))
                end))))))

abbrev exchange_settings : AuthServerConfig
exchange_settings = record {
  id = codes "s";
  issuer = codes "i";
  client_id = codes "c";
  client_secret = none;
  scopes = codes "openid" ∷ [];
  authorization_endpoint = undefined;
  token_endpoint = undefined;
  device_authorization_endpoint = undefined;
  jwks_uri = undefined;
  redirect_port = none;
  auth_flow = token_exchange;
  pkce = true;
  subject_token_source = some (env (codes "T"));
  token_exchange_audience = none;
}

exchange_accepted : validate_auth_config exchange_config ≡ valid exchange_settings
unfolding validate_auth_config ◌>>=◌ trim text_eq
exchange_accepted = refl

no_source :
    validate_auth_config (
      object (
        field "id" (string (codes "s")) (
          field "issuer" (string (codes "i")) (
            field "clientId" (string (codes "c")) (
              field "scopes"
                (array (cons (string (codes "openid")) nil))
                (field "authFlow" (string (codes "jwt_bearer")) end))))))
    ≡ invalid (required (codes ".subjectTokenSource"))
unfolding validate_auth_config ◌>>=◌ trim text_eq
no_source = refl

validate_auth_config-IsUsable_example :
    IsUsable exchange_settings
    × (validate_auth_config (value_of exchange_settings) ≡ valid exchange_settings)
validate_auth_config-IsUsable_example =
    validate_auth_config-IsUsable exchange_config exchange_settings exchange_accepted
