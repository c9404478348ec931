-- ===== src/Broker/Handlers.antt =====
-- packages/opencode-browser/src/broker.ts: the handlers of frames and of closed connections.
pub mod Registration
use lightbridge_opencode_too.Common.{
  ℕ, suc, ◌+◌, Bool, true, false, not, ◌&&◌, Option, none, some, List, [], ◌∷◌, ◌++◌, ◌==◌,
  if◌then◌else◌, or_else,
}
use lightbridge_opencode_too.Common.Text.{Text, codes, text_eq}
use lightbridge_opencode_too.Common.Decimal.{print_ℕ}
use lightbridge_opencode_too.Common.Js.{
  Value, undefined, null, boolean, number, string, array, object, Items, Fields, end, get,
}
use lightbridge_opencode_too.Common.Maps.{Map, lookup, set, delete, keys, values, Text_eq, ℕ_eq}
use lightbridge_opencode_too.Broker.{
  Broker, ExecutorInfo, AgentInfo, GroupOwner, Waiter, local, remote, rebuild, Pending, Reply,
  received, Result, ok, err, Command, EventFrame, Role, agent, extension, executor_gone, agent_gone,
  ready, result, event, rejected, pong, close, answer, emit, safe_send,
}
use lightbridge_opencode_too.Broker.InFlight.{
  settle_reject, abandon, handle_result, reject_all_pending,
}
use lightbridge_opencode_too.Broker.Routing.{truthy, is_owned_by}
use lightbridge_opencode_too.Broker.Dispatch.{send_to_executor, release_for_agent, route}

-- A `hello` frame; an absent role is "extension".
pub record Hello : Type 0 where
  pub token : Text
  pub role : Role
  pub id : Option Text
  pub label : Option Text
  pub browser : Option Text

-- `adoptRotatedToken`: `reloaded` is what `reloadToken` returns, none without that dependency.
unfoldable pub adopt_rotated_token : Option Text → Text → Text
adopt_rotated_token reloaded token = or_else (truthy reloaded) token

-- The token after the check of a hello frame, and whether the frame passes it.
unfoldable pub check_token : Option Text → Text → Text → Text × Bool
unfolding adopt_rotated_token
check_token reloaded token offered =
    let latest = adopt_rotated_token reloaded token in
    if text_eq offered token then (token, true) else (latest, text_eq offered latest)

-- The names of `data.groups` that the loop of `rebuildFromExecutor` reaches before anything throws;
-- names that are not texts are passed over.
group_name : Value → List Text
group_name (string []) = []
group_name (string (c ∷ s)) = (c ∷ s) ∷ []
group_name _ = []

names_of : Items → List Text
unfolding group_name
names_of Items.nil = []
names_of (Items.cons undefined vs) = []
names_of (Items.cons null vs) = []
names_of (Items.cons (object fs) vs) = group_name (get "name" fs) ++ names_of vs
names_of (Items.cons v vs) = names_of vs

names_in : Value → List Text
unfolding names_of
names_in (array vs) = names_of vs
names_in _ = []

unfoldable pub group_names : Value → List Text
unfolding names_in
group_names (object fs) = names_in (get "groups" fs)
group_names _ = []

-- A group that is not known becomes an orphan of the executor.
unfoldable pub add_orphans : Text → List Text → Map Text GroupOwner → Map Text GroupOwner
add_orphans executor_id [] owners = owners
add_orphans executor_id (g ∷ gs) owners = add_orphans executor_id gs (elim (lookup g owners) [
  | some owner ↦ owners
  | none ↦ set g (record { executor_id = executor_id; agent_id = none }) owners
])

abbrev pub tabs_command : Command
tabs_command = record {
  action = codes "tabs";
  group = [];
  params = object end;
  target = none;
  timeout_ms = none;
}

-- The stale connection of the same id is forgotten and closed.
pub replace_stale : Option ExecutorInfo → ℕ → Broker → Broker
unfolding emit
replace_stale none conn b = b
replace_stale (some prior) conn b =
    if prior.conn == conn
    then b
    else emit (close prior.conn) (record b { executors = delete prior.conn b.executors })

is_some : Option ExecutorInfo → Bool
is_some none = false
is_some (some e) = true

pub is_connected : Option Text → Map Text ExecutorInfo → Bool
unfolding is_some
is_connected none executors = false
is_connected (some id) executors = is_some (lookup id executors)

unfoldable pub elect_primary : Text → Broker → Broker
unfolding is_connected
elect_primary id b =
    if is_connected b.primary_executor_id b.executor_by_id
    then b
    else record b { primary_executor_id = some id }

unfoldable pub register_executor : ExecutorInfo → Broker → Broker
unfolding replace_stale elect_primary
register_executor info b =
    let c = replace_stale (lookup info.id b.executor_by_id) info.conn b in
    elect_primary info.id (record c {
      executors = set info.conn info c.executors;
      executor_by_id = set info.id info c.executor_by_id;
    })
