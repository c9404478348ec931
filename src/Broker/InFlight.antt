-- ===== src/Broker/InFlight.antt =====
-- packages/opencode-browser/src/broker.ts: the commands in flight. The timer of a command and its
-- abort listener end with its entry in `pending`; their callbacks are the events `on_timeout` and
-- `on_abort`, which do nothing once the entry is gone.
pub mod Once
pub mod Endings
pub mod Sweep
use lightbridge_opencode_too.Common.{ℕ, Bool, Option, none, some, List, [], ◌∷◌, if◌then◌else◌, ltb}
use lightbridge_opencode_too.Common.Text.{Text}
use lightbridge_opencode_too.Common.Js.{Value}
use lightbridge_opencode_too.Common.Maps.{Map, lookup, delete, Text_eq}
use lightbridge_opencode_too.Broker.{
  Broker, ExecutorInfo, Pending, Fault, timeout, aborted, broker_stopped, executor_error, Result,
  ok, err, Reply, received, cancel, safe_send, enqueue,
}

unfoldable pub clear_pending : Text → Broker → Broker
clear_pending req_id b = record b { pending = delete req_id b.pending }

settle : Option Pending → Text → Result Reply → Broker → Broker
unfolding clear_pending enqueue
settle none req_id r b = b
settle (some p) req_id r b = enqueue p.waiter r (clear_pending req_id b)

-- `settleReject`.
unfoldable pub settle_reject : Text → Fault → Broker → Broker
unfolding settle
settle_reject req_id fault b = settle (lookup req_id b.pending) req_id (err fault) b

module _ (can_send : ℕ → Bool) where
  pub cancel_to : Option ExecutorInfo → Text → Broker → Broker
  unfolding safe_send
  cancel_to none req_id b = b
  cancel_to (some exec) req_id b = safe_send can_send exec.conn (cancel req_id) b

  cancel_on_executor : Option Pending → Text → Broker → Broker
  unfolding cancel_to
  cancel_on_executor none req_id b = b
  cancel_on_executor (some p) req_id b = cancel_to (lookup p.executor_id b.executor_by_id) req_id b

  unfoldable pub abandon : Text → Fault → Broker → Broker
  unfolding cancel_on_executor settle_reject
  abandon req_id fault b =
      settle_reject req_id fault (cancel_on_executor (lookup req_id b.pending) req_id b)

  pub expire : Option Pending → Text → Broker → Broker
  unfolding abandon
  expire none req_id b = b
  expire (some p) req_id b = if ltb 0 p.timer_ms then abandon req_id timeout b else b

  -- The timer of a command, where it has one.
  unfoldable pub on_timeout : Text → Broker → Broker
  unfolding expire
  on_timeout req_id b = expire (lookup req_id b.pending) req_id b

  pub abort : Option Pending → Text → Broker → Broker
  unfolding abandon
  abort none req_id b = b
  abort (some p) req_id b = if p.has_signal then abandon req_id aborted b else b

  -- The abort listener of a command, where it has a signal.
  unfoldable pub on_abort : Text → Broker → Broker
  unfolding abort
  on_abort req_id b = abort (lookup req_id b.pending) req_id b

-- The result of a command: its data, or its error.
unfoldable pub handle_result : Text → Result Value → Broker → Broker
unfolding settle
handle_result id (ok v) b = settle (lookup id b.pending) id (ok (received v)) b
handle_result id (err e) b = settle (lookup id b.pending) id (err e) b

reject_each : Map Text Pending → Broker → Broker
unfolding settle_reject
reject_each [] b = b
reject_each ((req_id, p) ∷ ps) b = reject_each ps (settle_reject req_id broker_stopped b)

-- `rejectAllPending`.
unfoldable pub reject_all_pending : Broker → Broker
unfolding reject_each
reject_all_pending b = reject_each b.pending b
