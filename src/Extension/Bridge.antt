-- ===== src/Extension/Bridge.antt =====
-- apps/browser-extension/src/background/bridge-client.ts: `BridgeClient`, as a machine whose events are
-- the calls, the ends of awaits, the timers and the events of sockets. A socket is a number. Of the rows
-- of the user interface (setStatus) only that their writing can fail is kept, where a run of openSocket
-- awaits it; the callbacks are left out, and onDisconnected must not throw.
pub mod Awake
use lightbridge_opencode_too.Common.{
  min, ℕ, zero, suc, ◌+◌, ◌-◌, ◌*◌, Bool, true, false, Option, none, some, List, [], ◌∷◌, leb, ◌==◌,
  ◌≤◌, ◌≡◌, if◌then◌else◌,
}
use lightbridge_opencode_too.Common.Text.{Text}

abbrev pub initial_backoff_ms : ℕ
initial_backoff_ms = 1000

abbrev pub max_backoff_ms : ℕ
max_backoff_ms = 30000

abbrev pub rejected_retry_ms : ℕ
rejected_retry_ms = 60000

-- The frames that the client sends.
pub data Reply : Type 0 where
  hello : (token : Text) → Reply
  ping pong : Reply
  result error : (id : Text) → Reply

pub record Client : Type 0 where
  -- The current socket, and whether its close event is still to come.
  pub ws : Option ℕ
  pub is_live : Bool
  pub backoff : ℕ
  -- The delay of the reconnect timer that is set.
  pub reconnect_timer : Option ℕ
  pub has_heartbeat : Bool
  pub stopped : Bool
  pub handshake_rejected : Bool
  -- The runs of `openSocket` that are under way, and whether, since the last of them began, one has ended
  -- for want of a token, or because its status could not be written.
  pub opening : ℕ
  pub wants_token : Bool
  pub lost_status : Bool
  -- The number of the next socket, and what was sent on which socket, the last first.
  pub next_ws : ℕ
  pub sent : List (ℕ × Reply)

unfoldable pub new_client : Client
new_client = record {
  ws = none;
  is_live = false;
  backoff = initial_backoff_ms;
  reconnect_timer = none;
  has_heartbeat = false;
  stopped = true;
  handshake_rejected = false;
  opening = 0;
  wants_token = false;
  lost_status = false;
  next_ws = 0;
  sent = [];
}

is_current : Option ℕ → ℕ → Bool
is_current none ws = false
is_current (some current) ws = current == ws

clear_reconnect : Client → Client
clear_reconnect c = record c { reconnect_timer = none }

schedule_reconnect : Client → Client
unfolding min clear_reconnect
schedule_reconnect c =
    if c.handshake_rejected
    then record (clear_reconnect c) { reconnect_timer = some rejected_retry_ms }
    else record (clear_reconnect c) {
      backoff = min (c.backoff * 2) max_backoff_ms;
      reconnect_timer = some c.backoff;
    }

start_heartbeat : Client → Client
start_heartbeat c = record c { has_heartbeat = true }

stop_heartbeat : Client → Client
stop_heartbeat c = record c { has_heartbeat = false }

send : ℕ → Reply → Client → Client
send ws reply c = record c { sent = (ws, reply) ∷ c.sent }

-- `openSocket`, up to the configuration.
open_socket : Client → Client
open_socket c = record c { opening = suc c.opening; wants_token = false; lost_status = false }

unfoldable pub connect : Client → Client
unfolding clear_reconnect open_socket
connect c = open_socket (
    clear_reconnect
      (record c { stopped = false; handshake_rejected = false; backoff = initial_backoff_ms }))

unfoldable pub disconnect : Client → Client
unfolding clear_reconnect stop_heartbeat
disconnect c = record (stop_heartbeat (clear_reconnect (record c { stopped = true }))) {
  ws = none;
  is_live = false;
}

unfoldable pub reconnect : Client → Client
unfolding connect
reconnect c = connect (record c { ws = none; is_live = false })

end_opening : Client → Client
end_opening c = record c { opening = c.opening - 1 }

-- The promise of `setStatus`, which a run awaits, is rejected: the run ends.
unfoldable pub status_lost : Client → Client
status_lost c = record c { opening = c.opening - 1; lost_status = true }

-- `fail`, after a configuration or an address that is bad: it goes on where the status is written.
unfoldable pub fail : Bool → Client → Client
unfolding schedule_reconnect end_opening status_lost
fail is_written c =
    if is_written
    then if c.stopped then end_opening c else schedule_reconnect (end_opening c)
    else status_lost c

-- The run ends, whether the status is written or not.
unfoldable pub no_token : Client → Client
no_token c = record c { opening = c.opening - 1; wants_token = true }

-- The socket of an opening run, where its status is written.
unfoldable pub new_socket : Bool → Client → Client
unfolding status_lost
new_socket is_written c =
    if is_written
    then record c {
      opening = c.opening - 1;
      ws = some c.next_ws;
      is_live = true;
      next_ws = suc c.next_ws;
    }
    else status_lost c

unfoldable pub on_open : ℕ → Text → Client → Client
unfolding is_current send
on_open ws token c = if is_current c.ws ws then send ws (hello token) c else c

unfoldable pub on_timer : Client → Client
unfolding open_socket
on_timer c = open_socket (record c { reconnect_timer = none })

-- The tick of the heartbeat, which sends where the current socket is open.
on_beat : Option ℕ → Bool → Client → Client
unfolding send
on_beat (some ws) true c = send ws ping c
on_beat _ is_open c = c

unfoldable pub heartbeat : Bool → Client → Client
unfolding on_beat
heartbeat is_open c = on_beat c.ws is_open c

-- The frames of the broker to which the client's state answers; `done` is how the command ends.
pub data Message : Type 0 where
  ready rejected pinged other : Message
  command : (id : Text) → (is_done : Bool) → Message

unfoldable pub handle : ℕ → Message → Client → Client
unfolding start_heartbeat stop_heartbeat send
handle ws ready c =
    start_heartbeat (record c { backoff = initial_backoff_ms; handshake_rejected = false })
handle ws rejected c = stop_heartbeat (record c { handshake_rejected = true })
handle ws pinged c = send ws pong c
handle ws other c = c
handle ws (command id true) c = send ws (result id) c
handle ws (command id false) c = send ws (error id) c

unfoldable pub on_message : ℕ → Message → Client → Client
unfolding is_current handle
on_message ws message c = if is_current c.ws ws then handle ws message c else c

-- The close event of the current socket.
after_close : Client → Client
unfolding stop_heartbeat schedule_reconnect
after_close c =
    let closed = stop_heartbeat (record c { is_live = false }) in
    if c.stopped then closed else schedule_reconnect closed

unfoldable pub on_close : ℕ → Client → Client
unfolding is_current after_close
on_close ws c = if is_current c.ws ws then after_close c else c

-- What can happen.
pub data Step : Client → Client → Type 0 where
  connects : {c : Client} → Step c (connect c)
  disconnects : {c : Client} → Step c (disconnect c)
  reconnects : {c : Client} → Step c (reconnect c)
  fails : (is_written : Bool) {c : Client} → 1 ≤ c.opening → Step c (fail is_written c)
  lacks_token : {c : Client} → 1 ≤ c.opening → Step c (no_token c)
  dials : (is_written : Bool) {c : Client} → 1 ≤ c.opening → Step c (new_socket is_written c)
  opens : (ws : ℕ) (token : Text) {c : Client} → Step c (on_open ws token c)
  expires : (delay_ms : ℕ) {c : Client} → c.reconnect_timer ≡ some delay_ms → Step c (on_timer c)
  beats : (is_open : Bool) {c : Client} → Step c (heartbeat is_open c)
  receives : (ws : ℕ) (message : Message) {c : Client} → Step c (on_message ws message c)
  closes : (ws : ℕ) {c : Client} → Step c (on_close ws c)

pub data Reachable : Client → Type 0 where
  begin : Reachable new_client
  next : {c d : Client} → Reachable c → Step c d → Reachable d
