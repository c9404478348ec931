-- ===== src/Broker/Closing.antt =====
-- packages/opencode-browser/src/broker.ts: `onClose`, for the connection of an extension.
pub mod Departure
use lightbridge_opencode_too.Common.{
  ℕ, suc, ◌+◌, Bool, true, false, ◌&&◌, ◌||◌, Option, none, some, List, [], ◌∷◌, ◌++◌, ◌==◌,
  if◌then◌else◌, or_else,
}
use lightbridge_opencode_too.Common.Text.{Text, codes, text_eq}
use lightbridge_opencode_too.Common.Decimal.{print_ℕ}
use lightbridge_opencode_too.Common.Js.{Value}
use lightbridge_opencode_too.Common.Maps.{Map, lookup, set, delete, values, Text_eq, ℕ_eq}
use lightbridge_opencode_too.Broker.{
  Broker, ExecutorInfo, AgentInfo, GroupOwner, Waiter, local, remote, rebuild, Pending, Reply,
  received, targets, released, Result, ok, err, Command, EventFrame, Role, agent, extension,
  executor_gone, agent_gone, ready, result, event, rejected, pong, close, answer, stop_transport,
  emit, safe_send,
}
use lightbridge_opencode_too.Broker.InFlight.{
  settle_reject, abandon, on_timeout, on_abort, handle_result, reject_all_pending,
}
use lightbridge_opencode_too.Broker.Routing.{truthy, is_owned_by}
use lightbridge_opencode_too.Broker.Dispatch.{send_to_executor, release_for_agent, route}

unfoldable pub drop_groups : Text → Map Text GroupOwner → Map Text GroupOwner
drop_groups executor_id [] = []
drop_groups executor_id ((group, owner) ∷ rest) =
    let more = drop_groups executor_id rest in
    if text_eq owner.executor_id executor_id then more else (group, owner) ∷ more

pub reject_if : Bool → Text → Broker → Broker
unfolding settle_reject
reject_if true req_id b = settle_reject req_id executor_gone b
reject_if false req_id b = b

pub reject_for_executor : Text → Map Text Pending → Broker → Broker
unfolding reject_if
reject_for_executor executor_id [] b = b
reject_for_executor executor_id ((req_id, p) ∷ ps) b =
    reject_for_executor executor_id ps (reject_if (text_eq p.executor_id executor_id) req_id b)

-- `executorById.get(executor.id)?.conn === conn`.
pub points_at : Option ExecutorInfo → ℕ → Bool
points_at none conn = false
points_at (some exec) conn = exec.conn == conn

pub first_key : Map Text ExecutorInfo → Option Text
first_key [] = none
first_key ((id, exec) ∷ rest) = some id

pub forget_executor : ExecutorInfo → ℕ → Broker → Broker
unfolding reject_for_executor drop_groups points_at
forget_executor executor conn b =
    if points_at (lookup executor.id b.executor_by_id) conn
    then reject_for_executor executor.id b.pending (record b {
      executor_by_id = delete executor.id b.executor_by_id;
      group_owner = drop_groups executor.id b.group_owner;
    })
    else b

pub elect_next : Text → Broker → Broker
unfolding first_key
elect_next id b =
    if is_owned_by id b.primary_executor_id
    then record b { primary_executor_id = first_key b.executor_by_id }
    else b

unfoldable pub close_executor : ExecutorInfo → ℕ → Broker → Broker
unfolding forget_executor elect_next
close_executor executor conn b =
    elect_next executor.id
      (forget_executor executor conn (record b { executors = delete conn b.executors }))
