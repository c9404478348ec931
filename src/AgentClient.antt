-- ===== src/AgentClient.antt =====
-- packages/opencode-browser/src/agent-client.ts: the connection of a guest to the broker, and the
-- commands that it has in flight.
--
-- A call of `send` is a number. The state holds the class's fields; `resumed` are the calls whose
-- wait for `ready` is over and whose continuation is a microtask. The timer of a command and its
-- abort listener end with its entry in `pending`. What the client sends, answers and notifies is in
-- `out`, oldest first; `sends` says whether the socket takes a frame or throws.
pub mod Ids
pub mod Table
pub mod Ledger
pub mod Balance
mod Tests
use lightbridge_opencode_too.Common.{
  ℕ, ◌+◌, Bool, true, false, ◌||◌, not, Option, none, some, List, [], ◌∷◌, ◌++◌, ltb, ◌==◌,
  if◌then◌else◌, or_else,
}
use lightbridge_opencode_too.Common.Text.{Text, codes}
use lightbridge_opencode_too.Common.Js.{Value, object, end}
use lightbridge_opencode_too.Common.Maps.{Map, lookup, set, delete, Text_eq}
use lightbridge_opencode_too.Broker.{Command}
use lightbridge_opencode_too.Broker.Routing.{next_id}

-- The codes of AgentClientError, in place of its messages.
pub data ClientFault : Type 0 where
  disconnected stopped client_aborted client_timeout client_send_failed : ClientFault
  bridge_error : (code : Option Text) → ClientFault

-- What a call of `send` gives.
pub data Settlement : Type 0 where
  resolved : Value → Settlement
  failed : ClientFault → Settlement

pub record InFlight : Type 0 where
  pub call : ℕ
  -- The delay of the timer, 0 where there is none.
  pub timer_ms : ℕ
  pub has_signal : Bool

-- A call of `send` that waits for `ready`. Where its signal has fired its promise is rejected.
pub record Waiting : Type 0 where
  pub call : ℕ
  pub cmd : Command
  pub has_signal : Bool
  pub rejected : Bool

pub data ClientEffect : Type 0 where
  hello : ClientEffect
  command : (id : Text) → Command → ClientEffect
  close_socket : ClientEffect
  answer : (call : ℕ) → Settlement → ClientEffect
  -- The promise of `connect`.
  connected connect_failed : ClientEffect
  -- `deps.onClose`.
  notify_close : ClientEffect

pub record AgentClient : Type 0 where
  pub has_socket : Bool
  pub ready : Bool
  pub closed : Bool
  -- `settled` of `connect`.
  pub settled : Bool
  pub pending : Map Text InFlight
  pub ready_waiters : List Waiting
  pub resumed : List Waiting
  -- The module variable `idCounter` of protocol.ts.
  pub id_counter : ℕ
  -- `opts.timeoutMs`.
  pub timeout_ms : ℕ
  pub out : List ClientEffect

abbrev pub agent_timeout_grace_ms : ℕ
agent_timeout_grace_ms = 5000

unfoldable pub emit : ClientEffect → AgentClient → AgentClient
emit e c = record c { out = c.out ++ e ∷ [] }

-- A new client after `connect`, up to the first event of its socket.
unfoldable pub connect : ℕ → ℕ → AgentClient
connect timeout_ms id_counter = record {
  has_socket = true;
  ready = false;
  closed = false;
  settled = false;
  pending = [];
  ready_waiters = [];
  resumed = [];
  id_counter = id_counter;
  timeout_ms = timeout_ms;
  out = [];
}

pub settle : Option InFlight → Text → Settlement → AgentClient → AgentClient
unfolding emit
settle none id r c = c
settle (some p) id r c = emit (answer p.call r) (record c { pending = delete id c.pending })

-- `settleReject`, and `handleResult` with the frame's content.
unfoldable pub settle_with : Text → Settlement → AgentClient → AgentClient
unfolding settle
settle_with id r c = settle (lookup id c.pending) id r c

reject_each : ClientFault → Map Text InFlight → List ClientEffect
reject_each fault [] = []
reject_each fault ((id, p) ∷ ps) = answer p.call (failed fault) ∷ reject_each fault ps

-- `rejectAllPending`: each entry is deleted and rejected, in their order.
unfoldable pub reject_all_pending : ClientFault → AgentClient → AgentClient
unfolding reject_each
reject_all_pending fault c = record c { pending = []; out = c.out ++ reject_each fault c.pending }

-- The listener of a waiter is gone once `ready` has come; a rejected promise stays rejected.
woken : List Waiting → List Waiting
woken [] = []
woken (w ∷ ws) = if w.rejected then woken ws else w ∷ woken ws

unfoldable pub on_open : AgentClient → AgentClient
unfolding emit
on_open c = if c.has_socket then emit hello c else c

-- A `ready` frame.
unfoldable pub on_ready : AgentClient → AgentClient
unfolding woken
on_ready c = record c {
  ready = true;
  settled = true;
  ready_waiters = [];
  resumed = c.resumed ++ woken c.ready_waiters;
  out = c.out ++ (if c.settled then [] else connected ∷ []);
}

unfoldable pub on_close : AgentClient → AgentClient
unfolding reject_all_pending
on_close c =
    let r = reject_all_pending disconnected (record c { ready = false }) in
    record r {
      has_socket = false;
      settled = true;
      out =
          (r.out ++ (if c.settled then [] else connect_failed ∷ []))
          ++ (if c.closed then [] else notify_close ∷ []);
    }

unfoldable pub stop : AgentClient → AgentClient
unfolding reject_all_pending
stop c = reject_all_pending stopped (record c {
  closed = true;
  has_socket = false;
  out = c.out ++ (if c.has_socket then close_socket ∷ [] else []);
})

-- `waitReady`, for a call of `send`.
wait_ready : Waiting → AgentClient → AgentClient
unfolding emit
wait_ready w c =
    if c.ready
    then record c { resumed = c.resumed ++ w ∷ [] }
    else if c.closed || not c.has_socket
    then emit (answer w.call (failed disconnected)) c
    else record c { ready_waiters = c.ready_waiters ++ w ∷ [] }

has_signal_of : Option Bool → Bool
has_signal_of none = false
has_signal_of (some aborted) = true

-- `signal` is the call's signal, where it has one, and whether it is aborted already.
unfoldable pub send : ℕ → Command → Option Bool → AgentClient → AgentClient
unfolding wait_ready has_signal_of emit
send call cmd signal c =
    if or_else signal false
    then emit (answer call (failed client_aborted)) c
    else wait_ready
        (record { call = call; cmd = cmd; has_signal = has_signal_of signal; rejected = false }) c

abbrev release_command : Command
release_command = record {
  action = codes "release";
  group = [];
  params = object end;
  target = none;
  timeout_ms = none;
}

-- `release`, whose call drops its answer.
release : ℕ → AgentClient → AgentClient
unfolding send
release call c = send call release_command none c

-- The delay of the timer of a command, 0 where it has none.
unfoldable pub local_timeout : ℕ → Option ℕ → ℕ
local_timeout global override =
    let requested = or_else override global in
    if ltb 0 requested then requested + agent_timeout_grace_ms else 0

-- `send` after the wait for `ready`, with a socket.
issue : Bool → Waiting → AgentClient → AgentClient
unfolding next_id local_timeout emit settle_with
issue sends w c =
    let (n, id) = next_id c.id_counter in
    let timer = local_timeout c.timeout_ms w.cmd.timeout_ms in
    let entry : InFlight = record { call = w.call; timer_ms = timer; has_signal = w.has_signal } in
    let c' = record c { id_counter = n; pending = set id entry c.pending } in
    if sends then emit (command id w.cmd) c' else settle_with id (failed client_send_failed) c'

resume_one : Bool → Waiting → AgentClient → AgentClient
unfolding issue emit
resume_one sends w c =
    if c.has_socket then issue sends w c else emit (answer w.call (failed disconnected)) c

resume_from : Bool → List Waiting → AgentClient → AgentClient
unfolding resume_one
resume_from sends [] c = c
resume_from sends (w ∷ ws) c = resume_one sends w (record c { resumed = ws })

-- The first continuation that waits runs.
unfoldable pub resume : Bool → AgentClient → AgentClient
unfolding resume_from
resume sends c = resume_from sends c.resumed c

pub expire : Option InFlight → Text → AgentClient → AgentClient
unfolding settle
expire none id c = c
expire (some p) id c = if ltb 0 p.timer_ms then settle (some p) id (failed client_timeout) c else c

-- The timer of a command, where it has one.
unfoldable pub on_timeout : Text → AgentClient → AgentClient
unfolding expire
on_timeout id c = expire (lookup id c.pending) id c

pub abort_sent : Option InFlight → Text → AgentClient → AgentClient
unfolding settle
abort_sent none id c = c
abort_sent (some p) id c = if p.has_signal then settle (some p) id (failed client_aborted) c else c

-- The abort listener of a command, where it has a signal.
unfoldable pub on_abort : Text → AgentClient → AgentClient
unfolding abort_sent
on_abort id c = abort_sent (lookup id c.pending) id c

-- The abort listeners of the waiters of a call: each fires once, and leaves its waiter in the list.
reject_waiters : ℕ → List Waiting → List Waiting
reject_waiters call [] = []
reject_waiters call (w ∷ ws) =
    (if (w.call == call) then record w { rejected = w.rejected || w.has_signal } else w)
    ∷ reject_waiters call ws

rejections : ℕ → List Waiting → List ClientEffect
rejections call [] = []
rejections call (w ∷ ws) =
    (if (w.call == call)
      then if w.rejected || not w.has_signal then [] else answer call (failed client_aborted) ∷ []
      else [])
    ++ rejections call ws

unfoldable pub on_abort_waiting : ℕ → AgentClient → AgentClient
unfolding reject_waiters rejections
on_abort_waiting call c = record c {
  ready_waiters = reject_waiters call c.ready_waiters;
  out = c.out ++ rejections call c.ready_waiters;
}

-- What can happen to a client. A frame that is neither `ready` nor
-- a result does nothing, and has no event.
pub data ClientEvent : Type 0 where
  opens readies closes stops : ClientEvent
  sends_call : (call : ℕ) → Command → Option Bool → ClientEvent
  resumes : (sends : Bool) → ClientEvent
  results : (id : Text) → Settlement → ClientEvent
  times_out aborts : (id : Text) → ClientEvent
  aborts_waiting : (call : ℕ) → ClientEvent

unfoldable pub on_event : ClientEvent → AgentClient → AgentClient
unfolding on_open on_ready on_close stop send resume settle_with on_timeout on_abort
    on_abort_waiting
on_event opens c = on_open c
on_event readies c = on_ready c
on_event closes c = on_close c
on_event stops c = stop c
on_event (sends_call call cmd signal) c = send call cmd signal c
on_event (resumes sends) c = resume sends c
on_event (results id r) c = settle_with id r c
on_event (times_out id) c = on_timeout id c
on_event (aborts id) c = on_abort id c
on_event (aborts_waiting call) c = on_abort_waiting call c

unfoldable pub run : List ClientEvent → AgentClient → AgentClient
unfolding on_event
run [] c = c
run (e ∷ es) c = run es (on_event e c)
