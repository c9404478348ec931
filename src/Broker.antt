-- ===== src/Broker.antt =====
-- packages/opencode-browser/src/broker.ts: the broker between agents and browser extensions, with
-- the frames of protocol.ts that it sends and reads.
--
-- The state holds the class's fields. A promise is the `Waiter` that awaits it; settling one puts a
-- task in `tasks`, and the tasks run when the handler is through, as the event loop does it. What
-- the broker sends, closes and answers is in `out`, oldest first.
pub mod InFlight
pub mod Routing
pub mod Dispatch
pub mod Handlers
pub mod Closing
pub mod Events
mod Tests
use lightbridge_opencode_too.Common.{
  ℕ, Bool, Option, none, some, List, [], ◌∷◌, ◌++◌, if◌then◌else◌,
}
use lightbridge_opencode_too.Common.Text.{Text, codes}
use lightbridge_opencode_too.Common.Js.{Value}
use lightbridge_opencode_too.Common.Maps.{Map}

-- What a rejected command carries: the codes of BrokerError, in place of its messages.
pub data Fault : Type 0 where
  broker_stopped executor_gone agent_gone group_owned no_group : Fault
  not_connected ambiguous_target unknown_target timeout aborted send_failed : Fault
  executor_error : (code : Option Text) → Fault

abbrev pub fault_code : Fault → Option Text
fault_code broker_stopped = none
fault_code executor_gone = some (codes "executor_gone")
fault_code agent_gone = some (codes "agent_gone")
fault_code group_owned = some (codes "group_owned")
fault_code no_group = some (codes "no_group")
fault_code not_connected = some (codes "not_connected")
fault_code ambiguous_target = some (codes "ambiguous_target")
fault_code unknown_target = some (codes "unknown_target")
fault_code timeout = some (codes "timeout")
fault_code aborted = some (codes "aborted")
fault_code send_failed = some (codes "send_failed")
fault_code (executor_error code) = code

pub record ExecutorInfo : Type 0 where
  pub conn : ℕ
  pub id : Text
  pub label : Text
  pub browser : Text

pub record AgentInfo : Type 0 where
  pub conn : ℕ
  pub id : Text

-- `agent_id` is none for an orphaned group.
pub record GroupOwner : Type 0 where
  pub executor_id : Text
  pub agent_id : Option Text

-- Who awaits a command: a caller in this process, a remote agent's command, or the rebuild of the
-- groups of an extension that has connected.
pub data Waiter : Type 0 where
  local : (call : ℕ) → Waiter
  remote : (conn : ℕ) (frame_id : Text) → Waiter
  rebuild : ExecutorInfo → Waiter

pub record Pending : Type 0 where
  pub waiter : Waiter
  -- The delay of the timer, 0 where there is none.
  pub timer_ms : ℕ
  -- Whether the command has a signal to listen to.
  pub has_signal : Bool
  pub agent_id : Text
  pub executor_id : Text

pub record Target : Type 0 where
  pub id : Text
  pub label : Text
  pub browser : Text
  pub groups : List Text

-- What a command resolves to.
pub data Reply : Type 0 where
  received : Value → Reply
  targets : List Target → Reply
  released : Reply

pub data Result {ℓ} (A : Type ℓ) : Type ℓ where
  ok : A → Result A
  err : Fault → Result A

pub record Command : Type 0 where
  pub action : Text
  pub group : Text
  pub params : Value
  pub target : Option Text
  pub timeout_ms : Option ℕ

-- The event frames that extensions push.
pub record EventFrame : Type 0 where
  pub name : Text
  pub group : Option Text
  pub payload : Value

pub data Role : Type 0 where
  agent extension : Role

-- The frames that the broker sends.
pub data Frame : Type 0 where
  ready : Role → (client_id : Text) → Frame
  command : (id action group : Text) → (params : Value) → Frame
  result : (id : Text) → Result Reply → Frame
  event : EventFrame → Frame
  release : Frame
  cancel : (id : Text) → Frame
  rejected : (reason : Text) → Frame
  pong : Frame

pub data Effect : Type 0 where
  send : (conn : ℕ) → Frame → Effect
  close : (conn : ℕ) → Effect
  answer : (call : ℕ) → Result Reply → Effect
  stop_transport : Effect
  -- A `tabs` command without a group, which is handed to `aggregateTabs`.
  aggregate : Waiter → Effect

pub record Broker : Type 0 where
  pub executors : Map ℕ ExecutorInfo
  pub executor_by_id : Map Text ExecutorInfo
  pub agents : Map ℕ AgentInfo
  pub group_owner : Map Text GroupOwner
  pub pending : Map Text Pending
  pub primary_executor_id : Option Text
  pub agent_seq : ℕ
  pub exec_seq : ℕ
  -- The module variable `idCounter` of protocol.ts.
  pub id_counter : ℕ
  -- `opts.token`, `opts.timeoutMs` and `opts.maxCommandMs`.
  pub token : Text
  pub timeout_ms : ℕ
  pub max_command_ms : ℕ
  pub tasks : List (Waiter × Result Reply)
  pub out : List Effect

unfoldable pub emit : Effect → Broker → Broker
emit e b = record b { out = b.out ++ e ∷ [] }

-- `safeSend`: a send that throws is dropped. `can_send` says which connections take a frame.
unfoldable pub safe_send : (ℕ → Bool) → ℕ → Frame → Broker → Broker
unfolding emit
safe_send can_send conn frame b = if can_send conn then emit (send conn frame) b else b

-- The promise that `waiter` awaits is settled; its callback is a task.
unfoldable pub enqueue : Waiter → Result Reply → Broker → Broker
enqueue waiter r b = record b { tasks = b.tasks ++ (waiter, r) ∷ [] }
