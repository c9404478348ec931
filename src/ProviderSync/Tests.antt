-- ===== src/ProviderSync/Tests.antt =====
-- Runs of the provider sync models, and the theorems at concrete inputs.
use Prim.Native.String.{String}
use lightbridge_opencode_too.Common.{
  ◌+◌, ◌-◌, ◌≤◌, ◌≡◌, refl, true, ◌&&◌, not, none, some, [], ◌∷◌, map, leb, arith, here,
  if◌then◌else◌,
}
use lightbridge_opencode_too.Common.Text.{Text, codes, text_eq}
use lightbridge_opencode_too.Auth.{TokenSet}
use lightbridge_opencode_too.ProviderSync.{NormalizedModel, CachedServerState}
use lightbridge_opencode_too.ProviderSync.Models.{
  diff_models, normalize_model_list, normalize_model_id, normalize_token,
}
use lightbridge_opencode_too.ProviderSync.Models.Diff.{
  diff_models_lem, contains, find_renamed, is_known, last_name, change_of,
}
use lightbridge_opencode_too.ProviderSync.Scheduler.{
  Scheduler, start_scheduler, Steps, here as at_start, next, fires, fails, tick, run_failed, stop,
  IsSound, start_scheduler-IsSound, stopped_runs_nothing,
}
use lightbridge_opencode_too.ProviderSync.Engine.{
  read, write, found, Sync, run_calls, run_call, read_cached_token, reconcile, adopt_persisted,
  set_cached, sync_server, initial_state,
}
use lightbridge_opencode_too.ProviderSync.Engine.Reconcile.{Keeps, AreSane, sync_server-Keeps}
use lightbridge_opencode_too.ProviderSync.Engine.Ownership.{
  Process, start_server, scheduler_ownership_key,
}

-- The letters of ASCII.
unfoldable lower : Text → Text
lower s = map (λ c. if leb b'A' c && leb c b'Z' then c + 32 else c) s

unfoldable upper : Text → Text
upper s = map (λ c. if leb b'a' c && leb c b'z' then c - 32 else c) s

abbrev named : String → String → NormalizedModel
named id name = record { id = codes id; display_name = codes name }

diff_models_lem_example :
    let previous = named "a" "A" ∷ named "b" "B" ∷ [] in
    let next = named "b" "Big" ∷ [] in
    (contains (codes "b") (diff_models previous next).added ≡ (
      is_known (last_name (codes "b") next none)
      && not (is_known (last_name (codes "b") previous none))))
    × (contains (codes "b") (diff_models previous next).removed ≡ (
        is_known (last_name (codes "b") previous none)
        && not (is_known (last_name (codes "b") next none))))
    × (find_renamed (codes "b") (diff_models previous next).renamed
        ≡ change_of (last_name (codes "b") previous none) (last_name (codes "b") next none))
diff_models_lem_example =
    diff_models_lem (named "a" "A" ∷ named "b" "B" ∷ []) (named "b" "Big" ∷ []) (codes "b")

glm_name :
    normalize_model_id lower upper (codes "glm-4_70B/instruct") [] ≡ codes "GLM 4 70B Instruct"
unfolding normalize_model_id normalize_token lower upper text_eq
glm_name = refl

-- The timer fires and the run fails.
abbrev failing : Scheduler
failing = run_failed 60000 (tick (start_scheduler 60000))

failing_once : Steps 60000 (start_scheduler 60000) failing
unfolding start_scheduler tick
failing_once = next (next at_start (fires 60000 refl)) (fails refl)

start_scheduler-IsSound_example : IsSound 60000 failing
start_scheduler-IsSound_example = start_scheduler-IsSound 60000 failing failing_once

-- It is stopped while the run goes on, which fails later.
abbrev stopping : Scheduler
stopping = stop (tick (start_scheduler 60000))

stopping_fails : Steps 60000 stopping (run_failed 60000 stopping)
unfolding start_scheduler tick stop
stopping_fails = next at_start (fails refl)

stopping_stopped : stopping.stopped ≡ true
unfolding stop
stopping_stopped = refl

stopped_runs_nothing_example :
    ((run_failed 60000 stopping).stopped ≡ true)
    × ((run_failed 60000 stopping).runs ≡ stopping.runs)
stopped_runs_nothing_example =
    stopped_runs_nothing 60000 stopping (run_failed 60000 stopping) stopping_stopped stopping_fails

abbrev token_of : String → TokenSet
token_of access = record {
  access_token = codes access;
  token_type = codes "Bearer";
  refresh_token = none;
  scope = none;
  expires_at = none;
}

abbrev signed_in : CachedServerState
signed_in = record (initial_state (codes "s") 100 none) { token = some (token_of "old") }

-- Another process has written a newer token, which the sync adopts before it fails.
abbrev adopting : Sync
adopting = record {
  calls =
      read (
        found
          (some (record (initial_state (codes "s") 200 none) { token = some (token_of "new") })))
      ∷ write 300 (token_of "newer") true
      ∷ [];
  ensured = some (token_of "newer");
  fetched = none;
  now = 400;
  synced_at = 400;
  is_saved = true;
}

adopting-AreSane : AreSane lower upper [] adopting.calls signed_in
unfolding normalize_model_list run_call read_cached_token reconcile adopt_persisted initial_state
adopting-AreSane = (refl, (omega arith, tt))

adopting_late : (run_calls adopting.calls signed_in).updated_at ≤ 400
unfolding run_calls run_call read_cached_token reconcile adopt_persisted set_cached initial_state
adopting_late = omega arith

sync_server-Keeps_example :
    Keeps lower upper [] signed_in (sync_server lower upper [] (codes "s") adopting signed_in).0
sync_server-Keeps_example =
    sync_server-Keeps lower upper [] (codes "s") adopting signed_in adopting-AreSane adopting_late

-- Engine `a` starts before engine `b` in the same cache directory.
abbrev shared : Process
shared =
    start_server (codes "b") (codes "/c") (codes "s")
      (start_server (codes "a") (codes "/c") (codes "s") (record { owners = []; owns = [] }))

abbrev shared_key : Text
shared_key = scheduler_ownership_key (codes "/c") (codes "s")
