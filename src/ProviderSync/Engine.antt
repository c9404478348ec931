-- ===== src/ProviderSync/Engine.antt =====
-- packages/opencode-provider-sync/src/engine.ts: the state of one server in memory, between the file
-- that several processes write and the calls of the token runtime.
--
-- The file, the clock, the token runtime's answer and the fetched models are parameters. The token
-- runtime reads and writes the token while it works, in any order: the list `calls`.
pub mod Ownership
pub mod Reconcile
use lightbridge_opencode_too.Common.{
  ℕ, suc, Bool, true, false, Option, none, some, List, [], ◌∷◌, ltb, if◌then◌else◌,
}
use lightbridge_opencode_too.Common.Text.{Text, codes}
use lightbridge_opencode_too.Common.Maps.{Map}
use lightbridge_opencode_too.Auth.{TokenSet}
use lightbridge_opencode_too.ProviderSync.{
  RawModel, NormalizedModel, CachedServerState, ServerSnapshot,
}
use lightbridge_opencode_too.ProviderSync.Models.{normalize_model_list}

-- What `loadServerState` gives: an error, or the state of the file, none where it has no valid one.
pub data Loaded : Type 0 where
  failed : Loaded
  found : Option CachedServerState → Loaded

unfoldable pub adopt_persisted :
    Option TokenSet → CachedServerState → CachedServerState → CachedServerState
adopt_persisted none persisted state = state
adopt_persisted (some token) persisted state =
    if ltb persisted.updated_at state.updated_at then state else persisted

unfoldable pub reconcile : Loaded → CachedServerState → CachedServerState
unfolding adopt_persisted
reconcile failed state = state
reconcile (found none) state = state
reconcile (found (some persisted)) state = adopt_persisted persisted.token persisted state

-- `readCachedToken`: the state in memory after it, and the token.
unfoldable pub read_cached_token : Loaded → CachedServerState → CachedServerState × Option TokenSet
unfolding reconcile
read_cached_token loaded state = let s = reconcile loaded state in (s, s.token)

-- `setCached`: the state is written to the file, and kept where that succeeds.
unfoldable pub set_cached : ℕ → TokenSet → Bool → CachedServerState → CachedServerState
set_cached now token is_saved state =
    if is_saved then record state { updated_at = now; token = some token } else state

pub data Call : Type 0 where
  read : Loaded → Call
  write : (now : ℕ) → TokenSet → (is_saved : Bool) → Call

unfoldable pub run_call : Call → CachedServerState → CachedServerState
unfolding read_cached_token set_cached
run_call (read loaded) state = (read_cached_token loaded state).0
run_call (write now token is_saved) state = set_cached now token is_saved state

unfoldable pub run_calls : List Call → CachedServerState → CachedServerState
unfolding run_call
run_calls [] state = state
run_calls (c ∷ cs) state = run_calls cs (run_call c state)

-- What a sync meets: the calls of the token runtime and its answer, the answer of the models
-- endpoint, the clock, and whether the state could be written. None is an error that was thrown.
pub record Sync : Type 0 where
  pub calls : List Call
  pub ensured : Option TokenSet
  pub fetched : Option (List RawModel)
  pub now : ℕ
  pub synced_at : ℕ
  pub is_saved : Bool

-- The snapshot of the last good state.
unfoldable pub snapshot_of : Text → CachedServerState → ServerSnapshot
snapshot_of server_id state = record {
  server_id = server_id;
  models = state.models;
  last_sync_at = state.last_sync_at;
}

module _ (to_lower to_upper : Text → Text) (name_overrides : Map Text Text) where
  unfoldable pub next_state :
      Sync → TokenSet → List RawModel → CachedServerState → CachedServerState
  next_state sync token raw_models state = record state {
    updated_at = sync.now;
    last_sync_at = some sync.synced_at;
    token = some token;
    raw_models = raw_models;
    models = normalize_model_list to_lower to_upper raw_models name_overrides;
  }

  -- After the token and the models: the previous state, and the one that the token runtime has left.
  unfoldable pub conclude :
      Text
      → Option TokenSet
      → Option (List RawModel)
      → Sync
      → CachedServerState
      → CachedServerState
      → CachedServerState × ServerSnapshot
  unfolding next_state snapshot_of
  conclude server_id (some token) (some raw_models) sync previous state =
      let next = next_state sync token raw_models state in
      if sync.is_saved
      then (next, snapshot_of server_id next)
      else (state, snapshot_of server_id previous)
  conclude server_id _ _ sync previous state = (state, snapshot_of server_id previous)

  -- `syncServer`: the state in memory after it, and the snapshot that it returns.
  unfoldable pub sync_server : Text → Sync → CachedServerState → CachedServerState × ServerSnapshot
  unfolding conclude run_calls
  sync_server server_id sync state =
      conclude server_id sync.ensured sync.fetched sync state (run_calls sync.calls state)

-- `!lastSyncAt || models.length === 0`.
unfoldable pub is_unsynced : Option ℕ → List NormalizedModel → Bool
is_unsynced (some (suc n)) (m ∷ ms) = false
is_unsynced _ models = true

module _ (to_lower to_upper : Text → Text) (name_overrides : Map Text Text) where
  -- `ensureServerReady`.
  unfoldable pub ensure_server_ready :
      Text → Sync → CachedServerState → CachedServerState × ServerSnapshot
  ensure_server_ready server_id sync state =
      if is_unsynced state.last_sync_at state.models
      then sync_server to_lower to_upper name_overrides server_id sync state
      else (state, snapshot_of server_id state)

-- `initialize` for one server: the state of the file, or an empty one.
unfoldable pub initial_state : Text → ℕ → Option CachedServerState → CachedServerState
initial_state server_id now (some state) = state
initial_state server_id now none = record {
  server_id = server_id;
  updated_at = now;
  last_sync_at = none;
  models = [];
  raw_models = [];
  token = none;
}
