-- ===== src/Telemetry/Permissions.antt =====
-- packages/opencode-core-otel/src/recorder.ts: the decisions on permissions.
use lightbridge_opencode_too.Common.{
  ℕ, Bool, true, false, ◌||◌, Option, none, some, List, [], ◌∷◌, ◌++◌, if◌then◌else◌,
}
use lightbridge_opencode_too.Common.Text.{Text, codes, text_eq}
use lightbridge_opencode_too.Common.Maps.{lookup, set, delete, Text_eq}
use lightbridge_opencode_too.Telemetry.{decision_made, TelemetryRecorder}
use lightbridge_opencode_too.Telemetry.Recorder.{signal, ensure_session}

unfoldable pub includes : Text → List Text → Bool
includes id [] = false
includes id (j ∷ ids) = text_eq j id || includes id ids

unfoldable pub without_id : Text → List Text → List Text
without_id id [] = []
without_id id (j ∷ ids) = let rest = without_id id ids in if text_eq j id then rest else j ∷ rest

-- `autoDecided.add(id)`.
pub add_decided : Text → List Text → List Text
unfolding includes
add_decided id ids = if includes id ids then ids else ids ++ id ∷ []

unfoldable pub record_decision :
    Text → Text → Text → Text → Option Text → ℕ → TelemetryRecorder → TelemetryRecorder
unfolding ensure_session signal
record_decision session_id permission_id decision source tool now r =
    signal (decision_made session_id permission_id decision source tool)
      (ensure_session session_id now r)

-- `permission.updated`.
unfoldable pub on_permission_updated : Text → Text → Text → TelemetryRecorder → TelemetryRecorder
on_permission_updated permission_id type session_id r = record r {
  permissions = set permission_id (type, session_id) r.permissions;
}

pub type_of : Option (Text × Text) → Option Text
type_of none = none
type_of (some (type, session_id)) = some type

unfoldable pub on_permission_replied :
    Text → Text → Text → ℕ → TelemetryRecorder → TelemetryRecorder
unfolding includes without_id type_of record_decision
on_permission_replied session_id permission_id response now r =
    if includes permission_id r.auto_decided
    then record r { auto_decided = without_id permission_id r.auto_decided }
    else record_decision session_id permission_id response (codes "user")
        (type_of (lookup permission_id r.permissions)) now
        (record r { permissions = delete permission_id r.permissions })

pub is_decided : Option Text → Bool
is_decided none = false
is_decided (some []) = false
is_decided (some (c ∷ s)) = if text_eq (c ∷ s) (codes "ask") then false else true

pub decision_of : Option Text → Text
decision_of none = []
decision_of (some s) = s

unfoldable pub on_permission_ask :
    Text → Text → Text → Option Text → ℕ → TelemetryRecorder → TelemetryRecorder
unfolding is_decided decision_of add_decided record_decision
on_permission_ask session_id permission_id type status now r =
    if is_decided status
    then record_decision session_id permission_id (decision_of status) (codes "auto") (some type)
        now (record r { auto_decided = add_decided permission_id r.auto_decided })
    else r
