-- ===== src/Broker/Events.antt =====
-- packages/opencode-browser/src/broker.ts: the broker as a machine that takes events.
pub mod Handshake
use lightbridge_opencode_too.Common.{
  ℕ, suc, ◌+◌, Bool, true, false, ◌&&◌, ◌||◌, Option, none, some, List, [], ◌∷◌, ◌++◌, ◌==◌,
  if◌then◌else◌, or_else,
}
use lightbridge_opencode_too.Common.Text.{Text, codes, text_eq}
use lightbridge_opencode_too.Common.Decimal.{print_ℕ}
use lightbridge_opencode_too.Common.Js.{Value}
use lightbridge_opencode_too.Common.Maps.{Map, lookup, set, delete, values, Text_eq, ℕ_eq}
use lightbridge_opencode_too.Broker.{
  Broker, ExecutorInfo, AgentInfo, GroupOwner, Waiter, local, remote, rebuild, Pending, Reply,
  received, targets, released, Result, ok, err, Command, EventFrame, Role, agent, extension,
  executor_gone, agent_gone, ready, result, event, rejected, pong, close, answer, stop_transport,
  emit, safe_send,
}
use lightbridge_opencode_too.Broker.InFlight.{
  settle_reject, abandon, on_timeout, on_abort, handle_result, reject_all_pending,
}
use lightbridge_opencode_too.Broker.Routing.{truthy, is_owned_by}
use lightbridge_opencode_too.Broker.Dispatch.{send_to_executor, release_for_agent, route}
use lightbridge_opencode_too.Broker.Closing.{close_executor}
use lightbridge_opencode_too.Broker.Handlers.{
  Hello, check_token, group_names, add_orphans, tabs_command, register_executor,
}

-- The frames that the broker reads.
pub data InFrame : Type 0 where
  hello : Hello → InFrame
  command : (id : Text) → Command → InFrame
  result_of : (id : Text) → Result Value → InFrame
  pushed : EventFrame → InFrame
  ping : InFrame
  ignored : InFrame

pub data Event : Type 0 where
  message : (conn : ℕ) → InFrame → Event
  closed : (conn : ℕ) → Event
  local_command : (agent_id : Text) (call : ℕ) → Command → (signal : Option Bool) → Event
  local_release : (agent_id : Text) → Event
  timed_out : (req_id : Text) → Event
  abort_fired : (req_id : Text) → Event
  stopped : Event

module _ (can_send : ℕ → Bool) where
  abandon_for_agent : Text → Map Text Pending → Broker → Broker
  abandon_for_agent agent_id [] b = b
  abandon_for_agent agent_id ((req_id, p) ∷ ps) b =
      abandon_for_agent agent_id ps
        (if text_eq p.agent_id agent_id then abandon can_send req_id agent_gone b else b)

  unfoldable pub close_agent : AgentInfo → ℕ → Broker → Broker
  unfolding abandon_for_agent
  close_agent info conn b =
      let c = release_for_agent can_send info.id (record b { agents = delete conn b.agents }) in
      abandon_for_agent info.id c.pending c

  unfoldable pub on_close : ℕ → Broker → Broker
  unfolding close_executor close_agent
  on_close conn b = elim (lookup conn b.executors) [
    | some executor ↦ close_executor executor conn b
    | none ↦ elim (lookup conn b.agents) [ some info ↦ close_agent info conn b | none ↦ b ]
  ]

  -- `rebuildFromExecutor` up to its await.
  start_rebuild : ExecutorInfo → Broker → Broker
  start_rebuild info b =
      send_to_executor can_send info (codes "broker") tabs_command none (rebuild info) b

  accept_agent : ℕ → Broker → Broker
  unfolding safe_send
  accept_agent conn b =
      let seq = suc b.agent_seq in
      let id = codes "agent:" ++ print_ℕ seq in
      safe_send can_send conn (ready agent id)
        (record b { agent_seq = seq; agents = set conn (record { conn = conn; id = id }) b.agents })

  -- `frame.id || exec:${++this.execSeq}`: the counter after it, and the id.
  executor_id : Option Text → ℕ → ℕ × Text
  executor_id none seq = (suc seq, codes "exec:" ++ print_ℕ (suc seq))
  executor_id (some id) seq = (seq, id)

  accept_executor : ℕ → Hello → Broker → Broker
  unfolding safe_send register_executor start_rebuild executor_id
  accept_executor conn frame b =
      let (seq, id) = executor_id (truthy frame.id) b.exec_seq in
      let info : ExecutorInfo = record {
        conn = conn;
        id = id;
        label = or_else (truthy frame.label) id;
        browser = or_else (truthy frame.browser) (codes "unknown");
      } in
      start_rebuild info (
        safe_send can_send conn (ready extension id)
          (register_executor info (record b { exec_seq = seq })))

  accept : ℕ → Hello → Role → Broker → Broker
  unfolding accept_agent accept_executor
  accept conn frame agent b = accept_agent conn b
  accept conn frame extension b = accept_executor conn frame b

  -- The token after the check of the frame, and whether the frame has passed it.
  pub answer_hello : Text × Bool → ℕ → Hello → Broker → Broker
  unfolding accept safe_send emit
  answer_hello (token, true) conn frame b =
      accept conn frame frame.role (record b { token = token })
  answer_hello (token, false) conn frame b =
      emit (close conn)
        (safe_send can_send conn (rejected (codes "bad_token")) (record b { token = token }))

  -- `reloaded` is what `reloadToken` returns when it is asked.
  unfoldable pub handle_hello : Option Text → ℕ → Hello → Broker → Broker
  unfolding answer_hello
  handle_hello reloaded conn frame b =
      answer_hello (check_token reloaded b.token frame.token) conn frame b

  owner_of : Option Text → Map Text GroupOwner → Option GroupOwner
  owner_of none owners = none
  owner_of (some group) owners = lookup group owners

  -- The agents that get an event: all, or the owner of its group where that is known.
  is_recipient : Option GroupOwner → Text → Bool
  is_recipient none agent_id = true
  is_recipient (some owner) agent_id = elim owner.agent_id [
    | none ↦ true
    | some owner_id ↦ text_eq owner_id agent_id
  ]

  forward_each : EventFrame → Option GroupOwner → List AgentInfo → Broker → Broker
  unfolding safe_send is_recipient
  forward_each frame owner [] b = b
  forward_each frame owner (a ∷ rest) b =
      forward_each frame owner rest
        (if is_recipient owner a.id then safe_send can_send a.conn (event frame) b else b)

  unfoldable pub route_event : EventFrame → Broker → Broker
  unfolding forward_each owner_of
  route_event frame b =
      forward_each frame (owner_of (truthy frame.group) b.group_owner) (values b.agents) b

  from_executor : ℕ → InFrame → Broker → Broker
  unfolding handle_result route_event safe_send
  from_executor conn (result_of id r) b = handle_result id r b
  from_executor conn (pushed frame) b = route_event frame b
  from_executor conn ping b = safe_send can_send conn pong b
  from_executor conn _ b = b

  from_agent : AgentInfo → ℕ → InFrame → Broker → Broker
  unfolding route safe_send
  from_agent info conn (command id cmd) b = route can_send info.id cmd none (remote conn id) b
  from_agent info conn ping b = safe_send can_send conn pong b
  from_agent info conn _ b = b

  pub from_client : ℕ → InFrame → Broker → Broker
  unfolding from_executor from_agent
  from_client conn frame b = elim (lookup conn b.executors) [
    | some executor ↦ from_executor conn frame b
    | none ↦ elim (lookup conn b.agents) [ some info ↦ from_agent info conn frame b | none ↦ b ]
  ]

  unfoldable pub on_message : Option Text → ℕ → InFrame → Broker → Broker
  unfolding handle_hello from_client
  on_message reloaded conn (hello frame) b = handle_hello reloaded conn frame b
  on_message reloaded conn frame b = from_client conn frame b

  unfoldable pub stop : Broker → Broker
  unfolding emit reject_all_pending
  stop b = emit stop_transport (record (reject_all_pending b) {
    executors = [];
    executor_by_id = [];
    agents = [];
    group_owner = [];
    primary_executor_id = none;
  })

  unfoldable pub handle : Option Text → Event → Broker → Broker
  unfolding on_message on_close route release_for_agent on_timeout on_abort stop
  handle reloaded (message conn frame) b = on_message reloaded conn frame b
  handle reloaded (closed conn) b = on_close conn b
  handle reloaded (local_command agent_id call cmd signal) b =
      route can_send agent_id cmd signal (local call) b
  handle reloaded (local_release agent_id) b = release_for_agent can_send agent_id b
  handle reloaded (timed_out req_id) b = on_timeout can_send req_id b
  handle reloaded (abort_fired req_id) b = on_abort can_send req_id b
  handle reloaded stopped b = stop b

  -- What awaits a settled command: the caller, the agent's connection, or the rebuild.
  run_task : Waiter → Result Reply → Broker → Broker
  unfolding safe_send emit add_orphans
  run_task (local call) r b = emit (answer call r) b
  run_task (remote conn frame_id) r b = safe_send can_send conn (result frame_id r) b
  run_task (rebuild executor) (ok (received v)) b = record b {
    group_owner = add_orphans executor.id (group_names v) b.group_owner;
  }
  run_task (rebuild executor) r b = b

  run_tasks : List (Waiter × Result Reply) → Broker → Broker
  unfolding run_task
  run_tasks [] b = b
  run_tasks ((waiter, r) ∷ ts) b = run_tasks ts (run_task waiter r b)

  -- An event is handled, and then the tasks that it has left.
  unfoldable pub step : Option Text → Event → Broker → Broker
  unfolding handle run_tasks
  step reloaded e b = let c = handle reloaded e b in run_tasks c.tasks (record c { tasks = [] })
