-- ===== src/Auth/Runtime/Replay.antt =====
-- packages/opencode-auth-core/src/token-runtime.ts: which refresh tokens a refresh presents.
use mathlib.Core.List.{append-nil, append_assoc}
use lightbridge_opencode_too.Common.{
  ◌≡◌, ◌≢◌, ◌⊎◌, refl, ◌∙◌, inl, inr, Bool, true, false, ◌&&◌, Option, none, some, List, [], ◌∷◌,
  ◌++◌, leb, ltb, Bool-cases, Option-cases, if◌then◌else◌, suc,
}
use lightbridge_opencode_too.Common.Text.{Text, text_eq, text_eq_iff}
use lightbridge_opencode_too.Auth.{TokenSet, uses_refresh_token, refresh_token_of}
use lightbridge_opencode_too.Auth.Runtime.{
  Answer, done, refused, broken, interactive_required, World, Trace, get_cached, check,
  refresh_token, persist, written_or_broken, persisted, log_in, log_in_by_user, refresh_or_ask,
  acquire, unless_valid, ensure_token, keep, fall_back, adopt_retried, retry_newer, adopt_or_retry,
  recover_read, recover_from_rejected_refresh, without_refresh_token, recovered_or_fall_back,
  after_attempt, attempt, refresh_or_login, adopt_or_refresh, coordinate, release_lock,
  acquire_coordinated,
}

-- At most two refresh tokens, and no token twice.
pub data PresentsOnce : List Text → Type 0 where
  nothing : PresentsOnce []
  one : {t : Text} → PresentsOnce (t ∷ [])
  two : {t u : Text} → u ≢ t → PresentsOnce (t ∷ u ∷ [])

of_used : (b : Bool) (o : Option Text) → (if b then o else none) ≡ none → b ≡ true → o ≡ none
of_used true o h e = h
of_used false o h e = cc e

module _ (w : World) where
  -- The refresh token that the flow would present.
  abbrev usable : Option TokenSet → Option Text
  usable token = if uses_refresh_token w.flow then refresh_token_of token else none

  written-presented :
      (t : TokenSet) (x : Trace × Bool) → (written_or_broken w t x).0.presented ≡ x.0.presented
  unfolding written_or_broken
  written-presented t (s, true) = refl
  written-presented t (s, false) = refl

  persisted-presented : (x : Trace × Answer) → (persisted w x).0.presented ≡ x.0.presented
  unfolding persisted persist
  persisted-presented (s, done t) = written-presented t (persist w t s)
  persisted-presented (s, refused n) = refl
  persisted-presented (s, broken) = refl
  persisted-presented (s, interactive_required) = refl

  log_in_by_user-presented :
      (i : Option Bool) (s : Trace) → (log_in_by_user w i s).0.presented ≡ s.presented
  unfolding log_in_by_user log_in
  log_in_by_user-presented none s = refl
  log_in_by_user-presented (some true) s = refl
  log_in_by_user-presented (some false) s = refl

  acquire-presented :
      (token : Option TokenSet) (i : Option Bool) (s : Trace)
      → usable token ≡ none
      → (acquire w token i s).0.presented ≡ s.presented
  unfolding acquire refresh_or_ask log_in
  acquire-presented token i s h = elim (Bool-cases (uses_refresh_token w.flow)) [
    | inl e ↦
        let gone : refresh_token_of token ≡ none =
          of_used (uses_refresh_token w.flow) (refresh_token_of token) h e in
        rw e (rw gone (log_in_by_user-presented i s))
    | inr e ↦ rw e refl
  ]

  unless_valid-presented :
      (token : Option TokenSet) (i : Option Bool) (x : Trace × Bool)
      → usable token ≡ none
      → (unless_valid w token i x).0.presented ≡ x.0.presented
  unfolding unless_valid
  unless_valid-presented none i (s, valid) h = acquire-presented none i s h
  unless_valid-presented (some t) i (s, true) h = refl
  unless_valid-presented (some t) i (s, false) h = acquire-presented (some t) i s h

  ensure_token-presented :
      (token : Option TokenSet) (i : Option Bool) (s : Trace)
      → usable token ≡ none
      → (ensure_token w token i s).0.presented ≡ s.presented
  unfolding ensure_token check
  ensure_token-presented token i s h = unless_valid-presented token i (check w token s) h

  keep-presented :
      (base : Option TokenSet) (x : Trace × Answer) → (keep w base x).0.presented ≡ x.0.presented
  unfolding keep
  keep-presented none (s, done t) = persisted-presented (s, done t)
  keep-presented (some base) (s, done t) =
      elim (Bool-cases (text_eq t.access_token base.access_token)) [
        | inl e ↦ rw e refl
        | inr e ↦ rw e (persisted-presented (s, done t))
      ]
  keep-presented base (s, refused n) = refl
  keep-presented base (s, broken) = refl
  keep-presented base (s, interactive_required) = refl

  fall_back-presented :
      (token base : Option TokenSet) (i : Option Bool) (s : Trace)
      → usable token ≡ none
      → (fall_back w token base i s).0.presented ≡ s.presented
  unfolding fall_back
  fall_back-presented token base i s h =
      keep-presented base (ensure_token w token i s) ∙ ensure_token-presented token i s h

  stripped_unusable : (base : Option TokenSet) → usable (without_refresh_token w base) ≡ none
  unfolding without_refresh_token refresh_token_of
  stripped_unusable none = elim (Bool-cases (uses_refresh_token w.flow)) [
    | inl e ↦ rw e refl
    | inr e ↦ rw e refl
  ]
  stripped_unusable (some base) = elim (Bool-cases (uses_refresh_token w.flow)) [
    | inl e ↦ rw e refl
    | inr e ↦ rw e refl
  ]

  -- After the refusal of `old`, nothing more is presented, or one newer token.
  abbrev pub AtMostNewer : Text → Trace → Trace → Type 0
  AtMostNewer old s s' =
      (s'.presented ≡ s.presented)
      ⊎ ((u : Text) × (u ≢ old) × (s'.presented ≡ s.presented ++ u ∷ []))

  adopt_retried-presented : (x : Trace × Answer) → (adopt_retried w x).0.presented ≡ x.0.presented
  unfolding adopt_retried
  adopt_retried-presented (s, done t) = refl
  adopt_retried-presented (s, refused n) = refl
  adopt_retried-presented (s, broken) = refl
  adopt_retried-presented (s, interactive_required) = refl

  retry_newer-AtMostNewer :
      (o : Option Text) (old : Text) (s : Trace) → AtMostNewer old s (retry_newer w o old s).0
  unfolding retry_newer refresh_token
  retry_newer-AtMostNewer none old s = inl refl
  retry_newer-AtMostNewer (some u) old s = elim (Bool-cases (text_eq u old)) [
    | inl e ↦ rw e (inl refl)
    | inr e ↦ rw e (
        inr (
          u,
          λ same. let yes' : text_eq u old ≡ true = (text_eq_iff u old).1 same in cc (e, yes'),
          adopt_retried-presented (persisted w (refresh_token w u s))
              ∙ persisted-presented (refresh_token w u s),
        ))
  ]

  adopt_or_retry-AtMostNewer :
      (newer : Option TokenSet) (old : Text) (x : Trace × Bool)
      → AtMostNewer old x.0 (adopt_or_retry w newer old x).0
  unfolding adopt_or_retry
  adopt_or_retry-AtMostNewer none old (s, valid) = retry_newer-AtMostNewer _ old s
  adopt_or_retry-AtMostNewer (some t) old (s, true) = inl refl
  adopt_or_retry-AtMostNewer (some t) old (s, false) = retry_newer-AtMostNewer _ old s

  recover-AtMostNewer :
      (old : Text) (s : Trace) → AtMostNewer old s (recover_from_rejected_refresh w old s).0
  unfolding recover_from_rejected_refresh recover_read get_cached check
  recover-AtMostNewer old s =
      adopt_or_retry-AtMostNewer (w.cached s.reads) old
        (check w (w.cached s.reads) (record s { reads = suc s.reads }))

  recovered-presented :
      (base : Option TokenSet) (i : Option Bool) (x : Trace × Option TokenSet)
      → (recovered_or_fall_back w base i x).0.presented ≡ x.0.presented
  unfolding recovered_or_fall_back
  recovered-presented base i (s, some t) = refl
  recovered-presented base i (s, none) = fall_back-presented _ base i s (stripped_unusable base)

  after_attempt-AtMostNewer :
      (old : Text) (base : Option TokenSet) (i : Option Bool) (x : Trace × Answer)
      → AtMostNewer old x.0 (after_attempt w old base i x).0
  unfolding after_attempt
  after_attempt-AtMostNewer old base i (s, done t) = inl refl
  after_attempt-AtMostNewer old base i (s, refused status) =
      elim (Bool-cases (leb 400 status && ltb status 500)) [
        | inl e ↦ rw e (
            rw (recovered-presented base i (recover_from_rejected_refresh w old s))
              (recover-AtMostNewer old s))
        | inr e ↦ rw e (inl (fall_back-presented _ base i s (stripped_unusable base)))
      ]
  after_attempt-AtMostNewer old base i (s, broken) =
      inl (fall_back-presented _ base i s (stripped_unusable base))
  after_attempt-AtMostNewer old base i (s, interactive_required) =
      inl (fall_back-presented _ base i s (stripped_unusable base))

  -- What is presented beyond what the state `s` has.
  abbrev pub Presents : Trace → Trace → Type 0
  Presents s s' = (ts : List Text) × PresentsOnce ts × (s'.presented ≡ s.presented ++ ts)

  presented_twice :
      (t : Text) (s s' s'' : Trace)
      → s'.presented ≡ s.presented ++ t ∷ []
      → AtMostNewer t s' s''
      → Presents s s''
  presented_twice t s s' s'' first (inl same) = (t ∷ [], one, same ∙ first)
  presented_twice t s s' s'' first (inr (u, newer, second)) =
      (t ∷ u ∷ [], two newer, second ∙ rw (first, append_assoc) refl)

  attempt-Presents :
      (t : Text) (base : Option TokenSet) (i : Option Bool) (s : Trace)
      → Presents s (attempt w (some t) base i s).0
  unfolding attempt refresh_token
  attempt-Presents t base i s =
      let x = persisted w (refresh_token w t s) in
      presented_twice t s x.0 (after_attempt w t base i x).0
        (persisted-presented (refresh_token w t s)) (after_attempt-AtMostNewer t base i x)

  refresh_or_login-Presents :
      (base : Option TokenSet) (i : Option Bool) (s : Trace)
      → Presents s (refresh_or_login w base i s).0
  unfolding refresh_or_login attempt
  refresh_or_login-Presents base i s = elim (Option-cases (usable base)) [
    | inl e ↦ (
      [],
      nothing,
      rw (e, refresh_or_login) (fall_back-presented base base i s e ∙ rw append-nil refl),
    )
    | inr (t, e) ↦ rw (e, refresh_or_login) (attempt-Presents t base i s)
  ]

  adopt_or_refresh-Presents :
      (reread snapshot : Option TokenSet) (i : Option Bool) (x : Trace × Bool)
      → Presents x.0 (adopt_or_refresh w reread snapshot i x).0
  unfolding adopt_or_refresh
  adopt_or_refresh-Presents none snapshot i (s, valid) = refresh_or_login-Presents _ i s
  adopt_or_refresh-Presents (some t) snapshot i (s, true) = ([], nothing, rw append-nil refl)
  adopt_or_refresh-Presents (some t) snapshot i (s, false) = refresh_or_login-Presents _ i s

  release_lock-presented : (x : Trace × Answer) → (release_lock w x).0.presented ≡ x.0.presented
  unfolding release_lock
  release_lock-presented (s, a) = elim (Bool-cases w.is_locked) [
    | inl e ↦ rw e refl
    | inr e ↦ rw e refl
  ]

-- A refresh never presents a refresh token twice, whatever other processes write to the cache, the
-- token endpoint answers and the writes of the cache do: one run of `acquireCoordinated` presents
-- nothing, one token, or two different ones.
pub acquire_coordinated-PresentsOnce :
    (w : World) (snapshot : Option TokenSet) (interactive : Option Bool) (s : Trace)
    → (ts : List Text) × PresentsOnce ts
      × ((acquire_coordinated w snapshot interactive s).0.presented ≡ s.presented ++ ts)
unfolding acquire_coordinated coordinate get_cached check
acquire_coordinated-PresentsOnce w snapshot interactive s =
    let t : Trace = record s { reads = suc s.reads } in
    rw (release_lock-presented w (coordinate w snapshot interactive (t, w.cached s.reads))) (
      adopt_or_refresh-Presents w (w.cached s.reads) snapshot interactive
        (check w (w.cached s.reads) t))
