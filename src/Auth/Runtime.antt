-- ===== src/Auth/Runtime.antt =====
-- packages/opencode-auth-core/src/token-runtime.ts: one refresh of the token of an identity, and
-- `ensureToken` of oauth/client.ts, which it falls back on.
--
-- What the runtime reads from outside is a parameter, by the number of the reading: the cache, which
-- other processes write too, the clock, the answers of the token endpoint and of the logins,
-- whether a write of the cache succeeds, and whether the lock was taken. What it does is recorded in
-- the state, oldest first. Reads of the cache that throw are left out.
pub mod Replay
use lightbridge_opencode_too.Common.{
  ℕ, suc, Bool, true, false, not, ◌&&◌, Option, none, some, List, [], ◌∷◌, ◌++◌, length, leb, ltb,
  if◌then◌else◌,
}
use lightbridge_opencode_too.Common.Text.{Text, text_eq}
use lightbridge_opencode_too.Auth.{
  TokenSet, AuthFlow, authorization_code, device_code, client_credentials, jwt_bearer,
  token_exchange, uses_refresh_token, is_token_valid, refresh_token_of,
}

-- A promise of a token: a RefreshTokenError has the status of the response, `broken` is any other
-- error, and `interactive_required` the refusal to open a browser.
pub data Answer : Type 0 where
  done : TokenSet → Answer
  refused : (status : ℕ) → Answer
  broken interactive_required : Answer

pub record World : Type 0 where
  pub cached : ℕ → Option TokenSet
  pub clock : ℕ → ℕ
  pub answer : ℕ → Text → Answer
  pub login : ℕ → AuthFlow → Answer
  pub can_write : ℕ → Bool
  pub is_locked : Bool
  -- `authFlow` and `tokenExpirySkewMs`.
  pub flow : AuthFlow
  pub skew : ℕ

pub record Trace : Type 0 where
  pub reads : ℕ
  pub checks : ℕ
  pub presented : List Text
  pub written : List TokenSet
  pub logins : List AuthFlow
  pub releases : ℕ

module _ (w : World) where
  unfoldable pub get_cached : Trace → Trace × Option TokenSet
  get_cached s = (record s { reads = suc s.reads }, w.cached s.reads)

  unfoldable pub check : Option TokenSet → Trace → Trace × Bool
  check token s =
      (record s { checks = suc s.checks }, is_token_valid w.flow w.skew (w.clock s.checks) token)

  unfoldable pub refresh_token : Text → Trace → Trace × Answer
  refresh_token token s =
      (record s { presented = s.presented ++ token ∷ [] }, w.answer (length s.presented) token)

  unfoldable pub persist : TokenSet → Trace → Trace × Bool
  persist token s = (record s { written = s.written ++ token ∷ [] }, w.can_write (length s.written))

  unfoldable pub log_in : Trace → Trace × Answer
  log_in s = (record s { logins = s.logins ++ w.flow ∷ [] }, w.login (length s.logins) w.flow)

  pub written_or_broken : TokenSet → Trace × Bool → Trace × Answer
  written_or_broken token (s, true) = (s, done token)
  written_or_broken token (s, false) = (s, broken)

  pub persisted : Trace × Answer → Trace × Answer
  unfolding persist written_or_broken
  persisted (s, done token) = written_or_broken token (persist token s)
  persisted (s, a) = (s, a)

  is_refused_interaction : Option Bool → Bool
  is_refused_interaction none = false
  is_refused_interaction (some interactive) = not interactive

  pub log_in_by_user : Option Bool → Trace → Trace × Answer
  unfolding log_in is_refused_interaction
  log_in_by_user interactive s =
      if is_refused_interaction interactive then (s, interactive_required) else log_in s

  pub after_refresh : Option Bool → Trace × Answer → Trace × Answer
  unfolding log_in_by_user
  after_refresh interactive (s, done token) = (s, done token)
  after_refresh interactive (s, a) = log_in_by_user interactive s

  pub refresh_or_ask : Option Text → Option Bool → Trace → Trace × Answer
  unfolding after_refresh refresh_token log_in_by_user
  refresh_or_ask (some token) interactive s = after_refresh interactive (refresh_token token s)
  refresh_or_ask none interactive s = log_in_by_user interactive s

  pub acquire : Option TokenSet → Option Bool → Trace → Trace × Answer
  unfolding refresh_or_ask log_in uses_refresh_token
  acquire current interactive s =
      if uses_refresh_token w.flow
      then refresh_or_ask (refresh_token_of current) interactive s
      else log_in s

  pub unless_valid : Option TokenSet → Option Bool → Trace × Bool → Trace × Answer
  unfolding acquire
  unless_valid (some token) interactive (s, true) = (s, done token)
  unless_valid current interactive (s, valid) = acquire current interactive s

  -- `OAuthClient.ensureToken`.
  unfoldable pub ensure_token : Option TokenSet → Option Bool → Trace → Trace × Answer
  unfolding check unless_valid
  ensure_token current interactive s = unless_valid current interactive (check current s)

  is_new : TokenSet → Option TokenSet → Bool
  is_new token none = true
  is_new token (some base) = not (text_eq token.access_token base.access_token)

  pub keep : Option TokenSet → Trace × Answer → Trace × Answer
  unfolding persisted is_new
  keep base (s, done token) =
      if is_new token base then persisted (s, done token) else (s, done token)
  keep base (s, a) = (s, a)

  pub fall_back : Option TokenSet → Option TokenSet → Option Bool → Trace → Trace × Answer
  unfolding keep ensure_token
  fall_back fallback base interactive s = keep base (ensure_token fallback interactive s)

  pub adopt_retried : Trace × Answer → Trace × Option TokenSet
  adopt_retried (s, done token) = (s, some token)
  adopt_retried (s, a) = (s, none)

  pub retry_newer : Option Text → Text → Trace → Trace × Option TokenSet
  unfolding adopt_retried persisted refresh_token
  retry_newer none old s = (s, none)
  retry_newer (some token) old s =
      if text_eq token old then (s, none) else adopt_retried (persisted (refresh_token token s))

  pub adopt_or_retry : Option TokenSet → Text → Trace × Bool → Trace × Option TokenSet
  unfolding retry_newer
  adopt_or_retry (some newer) old (s, true) = (s, some newer)
  adopt_or_retry newer old (s, valid) = retry_newer (refresh_token_of newer) old s

  pub recover_read : Text → Trace × Option TokenSet → Trace × Option TokenSet
  unfolding adopt_or_retry check
  recover_read old (s, newer) = adopt_or_retry newer old (check newer s)

  -- `recoverFromRejectedRefresh`, after the refresh token `old` was refused.
  unfoldable pub recover_from_rejected_refresh : Text → Trace → Trace × Option TokenSet
  unfolding get_cached recover_read
  recover_from_rejected_refresh old s = recover_read old (get_cached s)

  -- `{ ...base, refreshToken: undefined }`.
  pub without_refresh_token : Option TokenSet → Option TokenSet
  without_refresh_token none = none
  without_refresh_token (some base) = some (record base { refresh_token = none })

  pub recovered_or_fall_back :
      Option TokenSet → Option Bool → Trace × Option TokenSet → Trace × Answer
  unfolding fall_back without_refresh_token
  recovered_or_fall_back base interactive (s, some token) = (s, done token)
  recovered_or_fall_back base interactive (s, none) =
      fall_back (without_refresh_token base) base interactive s

  is_rejection : ℕ → Bool
  is_rejection status = leb 400 status && ltb status 500

  pub after_attempt : Text → Option TokenSet → Option Bool → Trace × Answer → Trace × Answer
  unfolding recovered_or_fall_back recover_from_rejected_refresh is_rejection
  after_attempt old base interactive (s, done token) = (s, done token)
  after_attempt old base interactive (s, refused status) =
      if is_rejection status
      then recovered_or_fall_back base interactive (recover_from_rejected_refresh old s)
      else fall_back (without_refresh_token base) base interactive s
  after_attempt old base interactive (s, a) =
      fall_back (without_refresh_token base) base interactive s

  pub attempt : Option Text → Option TokenSet → Option Bool → Trace → Trace × Answer
  unfolding after_attempt persisted refresh_token fall_back
  attempt none base interactive s = fall_back base base interactive s
  attempt (some token) base interactive s =
      after_attempt token base interactive (persisted (refresh_token token s))

  unfoldable pub refresh_or_login : Option TokenSet → Option Bool → Trace → Trace × Answer
  unfolding attempt uses_refresh_token
  refresh_or_login base interactive s =
      attempt (if uses_refresh_token w.flow then refresh_token_of base else none) base interactive s

  pub reread_or : Option TokenSet → Option TokenSet → Option TokenSet
  reread_or none snapshot = snapshot
  reread_or (some token) snapshot = some token

  pub adopt_or_refresh :
      Option TokenSet → Option TokenSet → Option Bool → Trace × Bool → Trace × Answer
  unfolding refresh_or_login reread_or
  adopt_or_refresh (some token) snapshot interactive (s, true) = (s, done token)
  adopt_or_refresh reread snapshot interactive (s, valid) =
      refresh_or_login (reread_or reread snapshot) interactive s

  pub coordinate : Option TokenSet → Option Bool → Trace × Option TokenSet → Trace × Answer
  unfolding adopt_or_refresh check
  coordinate snapshot interactive (s, reread) =
      adopt_or_refresh reread snapshot interactive (check reread s)

  -- The lock is released where it was taken, whatever the outcome.
  pub release_lock : Trace × Answer → Trace × Answer
  release_lock (s, a) = (if w.is_locked then record s { releases = suc s.releases } else s, a)

  unfoldable pub acquire_coordinated : Option TokenSet → Option Bool → Trace → Trace × Answer
  unfolding release_lock coordinate get_cached
  acquire_coordinated snapshot interactive s =
      release_lock (coordinate snapshot interactive (get_cached s))
