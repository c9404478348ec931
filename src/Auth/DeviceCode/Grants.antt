-- ===== src/Auth/DeviceCode/Grants.antt =====
-- packages/opencode-auth-core/src/oauth/device-code.ts: the answers that a token comes from.
use lightbridge_opencode_too.Common.{
  min, ℕ, zero, suc, ◌+◌, ◌*◌, ◌-◌, ◌≡◌, refl, sym, ap, ◌∙◌, Bool, true, false, ◌&&◌, Option, none,
  some, List, leb, ltb, or_else, Bool-cases, inl, inr,
}
use lightbridge_opencode_too.Common.Text.{Text, codes, text_eq}
use lightbridge_opencode_too.Common.Js.{
  Value, undefined, null, boolean, number, string, array, object, Fields, get,
}
use lightbridge_opencode_too.Auth.{TokenSet}
use lightbridge_opencode_too.Auth.DeviceCode.{
  default_poll_interval_seconds, DeviceAuthorization, Outcome, granted, failed, expired, Poll,
  thrown, responded, Verdict, finished, pending, poll_failed, lacks_refresh_token, token_set,
  to_token_set, granted_or, on_success, on_error_code, on_client_error, on_poll, after_sleep, go_on,
  poll_loop, poll_token,
}

-- The poll was answered with success, and the token has a refresh token.
abbrev pub IsGrant : Poll → TokenSet → Type 0
IsGrant (thrown is_type_error) t = ⊥
IsGrant (responded status json preview) t =
    ((leb 200 status && ltb status 300) ≡ true) × (lacks_refresh_token true t.refresh_token ≡ false)

option_lacks : Option TokenSet → Bool
option_lacks none = false
option_lacks (some t) = lacks_refresh_token true t.refresh_token

token_set-refresh :
    (now : ℕ) (fs : Fields) (refresh_token access_token : Option Text) (t : TokenSet)
    → token_set now fs true refresh_token access_token ≡ some t
    → lacks_refresh_token true t.refresh_token ≡ false
unfolding token_set option_lacks
token_set-refresh now fs refresh_token none t h = cc h
token_set-refresh now fs refresh_token (some access_token) t h =
    elim (Bool-cases (lacks_refresh_token true refresh_token)) [
      | inl e ↦ let none_some : none ≡ some t = rw e at h in cc none_some
      | inr e ↦ sym (ap option_lacks (rw e at h)) ∙ e
    ]

granted_or-some : (o : Option TokenSet) (t : TokenSet) → granted_or o ≡ granted t → o ≡ some t
unfolding granted_or
granted_or-some none t h = cc h
granted_or-some (some u) t h = cc h

on_success-refresh :
    (now : ℕ) (json : Option Value) (t : TokenSet)
    → on_success now json ≡ granted t
    → lacks_refresh_token true t.refresh_token ≡ false
unfolding on_success to_token_set
on_success-refresh now (some (object fs)) t h =
    token_set-refresh now fs _ _ t (granted_or-some (to_token_set now true none fs) t h)
on_success-refresh now none t h = cc h
on_success-refresh now (some undefined) t h = cc h
on_success-refresh now (some null) t h = cc h
on_success-refresh now (some (boolean b)) t h = cc h
on_success-refresh now (some (number n)) t h = cc h
on_success-refresh now (some (string s)) t h = cc h
on_success-refresh now (some (array vs)) t h = cc h

-- The token of a verdict, if it grants one.
unfoldable grant_of : Verdict → Option TokenSet
grant_of (finished (granted t)) = some t
grant_of (finished (failed fault)) = none
grant_of (pending interval) = none

on_error_code-grant_of :
    (v : Value) (status interval : ℕ) → grant_of (on_error_code v status interval) ≡ none
unfolding on_error_code grant_of
on_error_code-grant_of (string code) status interval =
    elim (Bool-cases (text_eq code (codes "authorization_pending"))) [
      | inl a ↦ rw a refl
      | inr a ↦ elim (Bool-cases (text_eq code (codes "slow_down"))) [
        | inl b ↦ rw (a, b) refl
        | inr b ↦ elim (Bool-cases (text_eq code (codes "expired_token"))) [
          | inl c ↦ rw (a, b, c) refl
          | inr c ↦ elim (Bool-cases (text_eq code (codes "access_denied"))) [
            | inl d ↦ rw (a, b, c, d) refl
            | inr d ↦ rw (a, b, c, d) refl
          ]
        ]
      ]
    ]
on_error_code-grant_of undefined status interval = refl
on_error_code-grant_of null status interval = refl
on_error_code-grant_of (boolean b) status interval = refl
on_error_code-grant_of (number n) status interval = refl
on_error_code-grant_of (array vs) status interval = refl
on_error_code-grant_of (object fs) status interval = refl

on_client_error-grant_of :
    (o : Option Value) (status interval : ℕ) → grant_of (on_client_error o status interval) ≡ none
unfolding on_client_error grant_of
on_client_error-grant_of none status interval = refl
on_client_error-grant_of (some (object fs)) status interval =
    on_error_code-grant_of (get "error" fs) status interval
on_client_error-grant_of (some undefined) status interval = refl
on_client_error-grant_of (some null) status interval = refl
on_client_error-grant_of (some (boolean b)) status interval = refl
on_client_error-grant_of (some (number n)) status interval = refl
on_client_error-grant_of (some (string s)) status interval = refl
on_client_error-grant_of (some (array vs)) status interval = refl

on_poll-IsGrant :
    (p : Poll) (now interval : ℕ) (t : TokenSet)
    → on_poll p now interval ≡ finished (granted t)
    → IsGrant p t
unfolding on_poll grant_of
on_poll-IsGrant (thrown true) now interval t h = cc (ap grant_of h)
on_poll-IsGrant (thrown false) now interval t h = cc (ap grant_of h)
on_poll-IsGrant (responded status json preview) now interval t h =
    elim (Bool-cases (leb 200 status && ltb status 300)) [
      | inl a ↦
          let e : finished (on_success now json) ≡ finished (granted t) = rw a at h in
          (a, on_success-refresh now json t (cc e))
      | inr a ↦ elim (Bool-cases (leb 400 status && ltb status 500)) [
        | inl b ↦
            let e : on_client_error preview status interval ≡ finished (granted t) =
              rw (a, b) at h in
            let n : none ≡ some t =
              sym (on_client_error-grant_of preview status interval) ∙ ap grant_of e in
            cc n
        | inr b ↦
            let e : finished (failed (poll_failed status)) ≡ finished (granted t) =
              rw (a, b) at h in
            cc (ap grant_of e)
      ]
    ]

-- The outcome of a run.
outcome_of : Option (List ℕ × Outcome) → Option Outcome
outcome_of none = none
outcome_of (some (sleeps, outcome)) = some outcome

after_sleep-outcome :
    (slept : ℕ) (run : Option (List ℕ × Outcome))
    → outcome_of (after_sleep slept run) ≡ outcome_of run
unfolding after_sleep outcome_of
after_sleep-outcome slept none = refl
after_sleep-outcome slept (some (sleeps, outcome)) = refl

module _ (answer : ℕ → Poll) (delay : ℕ → ℕ) where
  go_on-IsGrant :
      (rest : ℕ → Option (List ℕ × Outcome)) (n now interval : ℕ) (t : TokenSet)
      → ((i : ℕ) → outcome_of (rest i) ≡ some (granted t) → (m : ℕ) × IsGrant (answer m) t)
      → (v : Verdict) → v ≡ on_poll (answer n) now interval
      → outcome_of (go_on answer delay rest v) ≡ some (granted t)
      → (m : ℕ) × IsGrant (answer m) t
  unfolding go_on outcome_of
  go_on-IsGrant rest n now interval t later (finished (granted u)) e h =
      let same : u ≡ t = cc h in
      (n, on_poll-IsGrant (answer n) now interval t (sym e ∙ ap (λ x. finished (granted x)) same))
  go_on-IsGrant rest n now interval t later (finished (failed fault)) e h =
      let no_grant : some (failed fault) ≡ some (granted t) = h in cc no_grant
  go_on-IsGrant rest n now interval t later (pending i) e h = later i h

  poll_loop-IsGrant :
      (fuel n deadline_ms now interval : ℕ) (t : TokenSet)
      → outcome_of (poll_loop answer delay fuel n deadline_ms now interval) ≡ some (granted t)
      → (m : ℕ) × IsGrant (answer m) t
  unfolding poll_loop outcome_of
  poll_loop-IsGrant zero n deadline_ms now interval t h = cc h
  poll_loop-IsGrant (suc fuel) n deadline_ms now interval t h =
      elim (Bool-cases (leb deadline_ms now)) [
        | inl e ↦ let late : some (failed expired) ≡ some (granted t) = rw e at h in cc late
        | inr e ↦
            let slept = min (interval * 1000) (deadline_ms - now) in
            let later = now + slept + delay n in
            let rest : ℕ → Option (List ℕ × Outcome) =
              λ i. poll_loop answer delay fuel (suc n) deadline_ms later i in
            let run = go_on answer delay rest (on_poll (answer n) later interval) in
            let on : outcome_of (after_sleep slept run) ≡ some (granted t) = rw e at h in
            go_on-IsGrant rest n later interval t
              (λ i k. poll_loop-IsGrant fuel (suc n) deadline_ms later i t k)
              (on_poll (answer n) later interval) refl (sym (after_sleep-outcome slept run) ∙ on)
      ]

  -- Where the device-code login ends with a token, some answer of the token endpoint was a response
  -- of a status from 200 to 299, and the token has a refresh token that is not empty.
  pub poll_token-IsGrant :
      (fuel now : ℕ) (device_auth : DeviceAuthorization) (sleeps : List ℕ) (t : TokenSet)
      → poll_token answer delay fuel now device_auth ≡ some (sleeps, granted t)
      → (m : ℕ) × IsGrant (answer m) t
  unfolding poll_token outcome_of
  poll_token-IsGrant fuel now device_auth sleeps t h =
      poll_loop-IsGrant fuel 0 (now + device_auth.expires_in_ms) now
        (or_else device_auth.interval default_poll_interval_seconds) t (ap outcome_of h)
