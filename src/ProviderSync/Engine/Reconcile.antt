-- ===== src/ProviderSync/Engine/Reconcile.antt =====
-- packages/opencode-provider-sync/src/engine.ts: what the state of a server keeps, whatever other
-- processes write to the file in the meantime.
use lightbridge_opencode_too.Common.{
  true, false, Option, none, some, List, [], ◌∷◌, ◌≡◌, refl, ◌≤◌, arith, Bool-cases, inl, inr, ltb,
}
use lightbridge_opencode_too.Common.Text.{Text}
use lightbridge_opencode_too.Common.Maps.{Map}
use lightbridge_opencode_too.Auth.{TokenSet}
use lightbridge_opencode_too.ProviderSync.{RawModel, CachedServerState}
use lightbridge_opencode_too.ProviderSync.Models.{normalize_model_list}
use lightbridge_opencode_too.ProviderSync.Engine.{
  failed, found, reconcile, adopt_persisted, read_cached_token, set_cached, Call, read, write,
  run_call, run_calls, Sync, next_state, conclude, sync_server,
}

-- A token that is there.
abbrev pub IsLoggedIn : Option TokenSet → Type 0
IsLoggedIn none = ⊥
IsLoggedIn (some token) = Unit

IsLoggedIn-some : (token : TokenSet) (held : Option TokenSet) → some token ≡ held → IsLoggedIn held
IsLoggedIn-some token none e = cc e
IsLoggedIn-some token (some t) e = tt

module _ (to_lower to_upper : Text → Text) (name_overrides : Map Text Text) where
  -- The models are the names of the raw models.
  abbrev pub IsNormal : CachedServerState → Type 0
  IsNormal s = s.models ≡ normalize_model_list to_lower to_upper s.raw_models name_overrides

  -- The file holds a state that an engine with these overrides has written, and the clock has not
  -- gone back behind the state.
  abbrev pub IsSane : Call → CachedServerState → Type 0
  IsSane (read failed) state = Unit
  IsSane (read (found none)) state = Unit
  IsSane (read (found (some persisted))) state = IsNormal persisted
  IsSane (write now token is_saved) state = state.updated_at ≤ now

  abbrev pub AreSane : List Call → CachedServerState → Type 0
  AreSane [] state = Unit
  AreSane (c ∷ cs) state = IsSane c state × AreSane cs (run_call c state)

  -- The later state is as new as the earlier one, has a token where that has, and is consistent where
  -- that is.
  pub record Keeps (s t : CachedServerState) : Type 0 where
    pub newer : s.updated_at ≤ t.updated_at
    pub logged_in : IsLoggedIn s.token → IsLoggedIn t.token
    pub normal : IsNormal s → IsNormal t

  Keeps-refl : (s : CachedServerState) → Keeps s s
  Keeps-refl s = record { newer = omega arith; logged_in = λ h. h; normal = λ h. h }

  Keeps-trans : {s t u : CachedServerState} → Keeps s t → Keeps t u → Keeps s u
  Keeps-trans a b = record {
    newer = omega (arith, a.newer, b.newer);
    logged_in = λ h. b.logged_in (a.logged_in h);
    normal = λ h. b.normal (a.normal h);
  }

  adopt_persisted-Keeps :
      (token : Option TokenSet) (persisted state : CachedServerState)
      → token ≡ persisted.token
      → IsNormal persisted
      → Keeps state (adopt_persisted token persisted state)
  unfolding adopt_persisted
  adopt_persisted-Keeps none persisted state e n = Keeps-refl state
  adopt_persisted-Keeps (some token) persisted state e n =
      elim (Bool-cases (ltb persisted.updated_at state.updated_at)) [
        | inl older ↦ rw older (Keeps-refl state)
        | inr newer ↦ rw newer (record {
          newer = ground arith;
          logged_in = λ h. IsLoggedIn-some token persisted.token e;
          normal = λ h. n;
        })
      ]

  run_call-Keeps : (c : Call) (s : CachedServerState) → IsSane c s → Keeps s (run_call c s)
  unfolding run_call read_cached_token reconcile set_cached
  run_call-Keeps (read failed) s h = Keeps-refl s
  run_call-Keeps (read (found none)) s h = Keeps-refl s
  run_call-Keeps (read (found (some persisted))) s h =
      adopt_persisted-Keeps persisted.token persisted s refl h
  run_call-Keeps (write now token true) s h = record {
    newer = h;
    logged_in = λ k. tt;
    normal = λ k. k;
  }
  run_call-Keeps (write now token false) s h = Keeps-refl s

  run_calls-Keeps :
      (cs : List Call) (s : CachedServerState) → AreSane cs s → Keeps s (run_calls cs s)
  unfolding run_calls
  run_calls-Keeps [] s h = Keeps-refl s
  run_calls-Keeps (c ∷ cs) s h =
      Keeps-trans (run_call-Keeps c s h.0) (run_calls-Keeps cs (run_call c s) h.1)

  conclude-Keeps :
      (server_id : Text) (token : Option TokenSet) (raw_models : Option (List RawModel))
      (sync : Sync) (previous s : CachedServerState)
      → s.updated_at ≤ sync.now
      → Keeps s
          (conclude to_lower to_upper name_overrides server_id token raw_models sync previous s).0
  unfolding conclude next_state
  conclude-Keeps server_id none raw_models sync previous s h = Keeps-refl s
  conclude-Keeps server_id (some token) none sync previous s h = Keeps-refl s
  conclude-Keeps server_id (some token) (some raw_models) sync previous s h =
      elim (Bool-cases sync.is_saved) [
        | inl saved ↦ rw saved (record { newer = h; logged_in = λ k. tt; normal = λ k. refl })
        | inr lost ↦ rw lost (Keeps-refl s)
      ]

  -- A sync, whether it succeeds or fails, and whatever other processes have written to the file while
  -- it ran: the state of the server is as new after it as before, has a token if it had one, and its
  -- models are still the names of its raw models. The clock must not have gone back behind a state
  -- that is written, and the file must hold models that are the names of their raw models.
  pub sync_server-Keeps :
      (server_id : Text) (sync : Sync) (state : CachedServerState)
      → AreSane sync.calls state
      → (run_calls sync.calls state).updated_at ≤ sync.now
      → Keeps state (sync_server to_lower to_upper name_overrides server_id sync state).0
  unfolding sync_server
  sync_server-Keeps server_id sync state h late = Keeps-trans (run_calls-Keeps sync.calls state h) (
      conclude-Keeps server_id sync.ensured sync.fetched sync state (run_calls sync.calls state)
        late)
