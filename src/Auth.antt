-- ===== src/Auth.antt =====
-- packages/opencode-auth-core/src: the tokens of an identity. Here are the token set (types.ts), the
-- flows (config.ts) and the tests that the client of oauth/client.ts makes on them.
pub mod Config
pub mod DeviceCode
pub mod Lock
pub mod Runtime
pub mod Flight
mod Tests
use lightbridge_opencode_too.Common.{
  ℕ, zero, suc, ◌+◌, Bool, true, false, Option, none, some, [], ◌∷◌, ltb,
}
use lightbridge_opencode_too.Common.Int.{ℤ, pos, ltb_ℤ}
use lightbridge_opencode_too.Common.Text.{Text}

pub record TokenSet : Type 0 where
  pub access_token : Text
  pub token_type : Text
  pub refresh_token : Option Text
  pub scope : Option Text
  pub expires_at : Option ℤ

pub data AuthFlow : Type 0 where
  authorization_code device_code client_credentials jwt_bearer token_exchange : AuthFlow

-- `!MACHINE_FLOWS.includes(authFlow)`.
unfoldable pub uses_refresh_token : AuthFlow → Bool
uses_refresh_token authorization_code = true
uses_refresh_token device_code = true
uses_refresh_token client_credentials = false
uses_refresh_token jwt_bearer = false
uses_refresh_token token_exchange = false

is_unexpired : AuthFlow → ℕ → ℕ → Option ℤ → Bool
unfolding uses_refresh_token
is_unexpired flow skew now none = uses_refresh_token flow
is_unexpired flow skew now (some (pos zero)) = uses_refresh_token flow
is_unexpired flow skew now (some expires_at) = ltb_ℤ (pos (now + skew)) expires_at

is_presentable : AuthFlow → ℕ → ℕ → Text → Option ℤ → Bool
unfolding is_unexpired
is_presentable flow skew now [] expires_at = false
is_presentable flow skew now (c ∷ s) expires_at = is_unexpired flow skew now expires_at

-- `isTokenValid`, at the time `now`.
unfoldable pub is_token_valid : AuthFlow → ℕ → ℕ → Option TokenSet → Bool
unfolding is_presentable
is_token_valid flow skew now none = false
is_token_valid flow skew now (some token) =
    is_presentable flow skew now token.access_token token.expires_at

-- The refresh token where it is truthy.
unfoldable pub refresh_token_of : Option TokenSet → Option Text
refresh_token_of none = none
refresh_token_of (some token) = elim token.refresh_token [
  | none ↦ none
  | some [] ↦ none
  | some (c ∷ s) ↦ some (c ∷ s)
]
