-- ===== src/Extension/Bridge/Awake.antt =====
-- apps/browser-extension/src/background/bridge-client.ts: a client that is not stopped stays awake.
use lightbridge_opencode_too.Common.{
  min, ℕ, ◌≤◌, ◌≡◌, refl, Bool, true, false, ◌&&◌, ◌||◌, Option, none, some, arith, leb,
  if◌then◌else◌, Bool-cases, inl, inr,
}
use lightbridge_opencode_too.Extension.Bridge.{
  initial_backoff_ms, max_backoff_ms, rejected_retry_ms, Client, new_client, is_current,
  clear_reconnect, schedule_reconnect, start_heartbeat, stop_heartbeat, send, open_socket, connect,
  disconnect, reconnect, end_opening, after_close, hello, status_lost, fail, no_token, new_socket,
  on_open, on_timer, on_beat, heartbeat, handle, Message, ready, rejected, pinged, other, command,
  on_message, on_close, Step, connects, disconnects, reconnects, fails, lacks_token, dials, opens,
  expires, beats, receives, closes, Reachable, begin, next,
}

abbrev pub is_some {ℓ} : {A : Type ℓ} → Option A → Bool
is_some none = false
is_some (some a) = true

-- A reconnect timer waits between 1 and 60 seconds.
abbrev pub IsPaced : Option ℕ → Type 0
IsPaced none = Unit
IsPaced (some delay_ms) = (initial_backoff_ms ≤ delay_ms) × (delay_ms ≤ rejected_retry_ms)

pub record IsSound (c : Client) : Type 0 where
  pub slow : initial_backoff_ms ≤ c.backoff
  pub quick : c.backoff ≤ max_backoff_ms
  pub paced : IsPaced c.reconnect_timer
  -- A client that is stopped has no timer.
  pub quiet : (c.stopped && is_some c.reconnect_timer) ≡ false
  -- One that is not has a live socket, a timer, a socket to come, no token, or a status that was lost.
  pub awake :
      (c.stopped
        || c.is_live
        || is_some c.reconnect_timer
        || leb 1 c.opening
        || c.wants_token
        || c.lost_status)
      ≡ true

schedule_reconnect-IsSound :
    (c : Client)
    → c.stopped ≡ false
    → initial_backoff_ms ≤ c.backoff
    → c.backoff ≤ max_backoff_ms
    → IsSound (schedule_reconnect c)
unfolding schedule_reconnect clear_reconnect min
schedule_reconnect-IsSound c on slow quick = elim (Bool-cases c.handshake_rejected) [
  | inl e ↦ simp e (record {
    slow = slow;
    quick = quick;
    paced = (omega arith, omega arith);
    quiet = ground arith;
    awake = ground arith;
  })
  | inr e ↦ simp e (record {
    slow = ground arith;
    quick = ground arith;
    paced = (slow, omega (arith, quick));
    quiet = ground arith;
    awake = ground arith;
  })
]

-- What the messages and the events of a socket that has not closed leave.
abbrev IsCalm : Client → Client → Type 0
IsCalm c d =
    (initial_backoff_ms ≤ d.backoff)
    × (d.backoff ≤ max_backoff_ms)
    × (d.reconnect_timer ≡ c.reconnect_timer)
    × (d.stopped ≡ c.stopped)
    × (d.is_live ≡ c.is_live)
    × (d.opening ≡ c.opening)
    × (d.wants_token ≡ c.wants_token)
    × (d.lost_status ≡ c.lost_status)

IsCalm-IsSound : (c d : Client) → IsCalm c d → IsSound c → IsSound d
IsCalm-IsSound c d (slow, quick, t, s, l, o, w, x) h = record {
  slow = slow;
  quick = quick;
  paced = rw t (h.paced);
  quiet = rw (s, t) (h.quiet);
  awake = rw (s, l, t, o, w, x) (h.awake);
}

on_beat-IsCalm :
    (ws : Option ℕ) (is_open : Bool) (c : Client) → IsSound c → IsCalm c (on_beat ws is_open c)
unfolding on_beat send
on_beat-IsCalm none is_open c h = (h.slow, h.quick, refl, refl, refl, refl, refl, refl)
on_beat-IsCalm (some ws) true c h = (h.slow, h.quick, refl, refl, refl, refl, refl, refl)
on_beat-IsCalm (some ws) false c h = (h.slow, h.quick, refl, refl, refl, refl, refl, refl)

handle-IsCalm : (ws : ℕ) (m : Message) (c : Client) → IsSound c → IsCalm c (handle ws m c)
unfolding handle start_heartbeat stop_heartbeat send
handle-IsCalm ws ready c h = (omega arith, omega arith, refl, refl, refl, refl, refl, refl)
handle-IsCalm ws rejected c h = (h.slow, h.quick, refl, refl, refl, refl, refl, refl)
handle-IsCalm ws pinged c h = (h.slow, h.quick, refl, refl, refl, refl, refl, refl)
handle-IsCalm ws other c h = (h.slow, h.quick, refl, refl, refl, refl, refl, refl)
handle-IsCalm ws (command id true) c h = (h.slow, h.quick, refl, refl, refl, refl, refl, refl)
handle-IsCalm ws (command id false) c h = (h.slow, h.quick, refl, refl, refl, refl, refl, refl)

connect-IsSound : (c : Client) → IsSound (connect c)
unfolding connect clear_reconnect open_socket
connect-IsSound c = record {
  slow = omega arith;
  quick = omega arith;
  paced = tt;
  quiet = refl;
  awake = ground arith;
}

disconnect-IsSound : (c : Client) → IsSound c → IsSound (disconnect c)
unfolding disconnect clear_reconnect stop_heartbeat
disconnect-IsSound c h = record {
  slow = h.slow;
  quick = h.quick;
  paced = tt;
  quiet = refl;
  awake = refl;
}

stopped-IsSound :
    (c d : Client)
    → IsSound c
    → c.stopped ≡ true
    → d.stopped ≡ true
    → d.backoff ≡ c.backoff
    → d.reconnect_timer ≡ c.reconnect_timer
    → IsSound d
stopped-IsSound c d h off off' b t = record {
  slow = omega (arith, h.slow, b);
  quick = omega (arith, h.quick, b);
  paced = rw t (h.paced);
  quiet = rw t (ground (arith, h.quiet));
  awake = rw off' refl;
}

if-IsSound :
    (b : Bool) (c d : Client)
    → (b ≡ true → IsSound c)
    → (b ≡ false → IsSound d)
    → IsSound (if b then c else d)
if-IsSound true c d h k = h refl
if-IsSound false c d h k = k refl

status_lost-IsSound : (c : Client) → IsSound c → IsSound (status_lost c)
unfolding status_lost
status_lost-IsSound c h = record {
  slow = h.slow;
  quick = h.quick;
  paced = h.paced;
  quiet = h.quiet;
  awake = ground arith;
}

fail-IsSound : (is_written : Bool) (c : Client) → IsSound c → IsSound (fail is_written c)
unfolding fail end_opening
fail-IsSound true c h =
    if-IsSound c.stopped (end_opening c) (schedule_reconnect (end_opening c))
      (λ off. stopped-IsSound c (end_opening c) h off off refl refl)
      (λ on. schedule_reconnect-IsSound (end_opening c) on (h.slow) (h.quick))
fail-IsSound false c h = status_lost-IsSound c h

new_socket-IsSound :
    (is_written : Bool) (c : Client) → IsSound c → IsSound (new_socket is_written c)
unfolding new_socket
new_socket-IsSound true c h = record {
  slow = h.slow;
  quick = h.quick;
  paced = h.paced;
  quiet = h.quiet;
  awake = ground arith;
}
new_socket-IsSound false c h = status_lost-IsSound c h

after_close-IsSound : (c : Client) → IsSound c → IsSound (after_close c)
unfolding after_close stop_heartbeat
after_close-IsSound c h =
    let closed = stop_heartbeat (record c { is_live = false }) in
    if-IsSound c.stopped closed (schedule_reconnect closed)
      (λ off. stopped-IsSound c closed h off off refl refl)
      (λ on. schedule_reconnect-IsSound closed on (h.slow) (h.quick))

Step-IsSound : {c d : Client} → Step c d → IsSound c → IsSound d
unfolding reconnect no_token new_socket on_open send on_timer open_socket heartbeat on_message
    on_close
Step-IsSound (connects {c}) h = connect-IsSound c
Step-IsSound (disconnects {c}) h = disconnect-IsSound c h
Step-IsSound (reconnects {c}) h = connect-IsSound (record c { ws = none; is_live = false })
Step-IsSound (fails is_written {c} one) h = fail-IsSound is_written c h
Step-IsSound (lacks_token {c} one) h = record {
  slow = h.slow;
  quick = h.quick;
  paced = h.paced;
  quiet = h.quiet;
  awake = ground arith;
}
Step-IsSound (dials is_written {c} one) h = new_socket-IsSound is_written c h
Step-IsSound (opens ws token {c}) h =
    if-IsSound (is_current c.ws ws) (send ws (hello token) c) c
      (λ e.
        IsCalm-IsSound c (send ws (hello token) c)
          (h.slow, h.quick, refl, refl, refl, refl, refl, refl) h)
      (λ e. h)
Step-IsSound (expires delay_ms {c} e) h = record {
  slow = h.slow;
  quick = h.quick;
  paced = tt;
  quiet = ground arith;
  awake = ground arith;
}
Step-IsSound (beats is_open {c}) h =
    IsCalm-IsSound c (on_beat c.ws is_open c) (on_beat-IsCalm c.ws is_open c h) h
Step-IsSound (receives ws m {c}) h =
    if-IsSound (is_current c.ws ws) (handle ws m c) c
      (λ e. IsCalm-IsSound c (handle ws m c) (handle-IsCalm ws m c h) h) (λ e. h)
Step-IsSound (closes ws {c}) h =
    if-IsSound (is_current c.ws ws) (after_close c) c (λ e. after_close-IsSound c h) (λ e. h)

-- In every state that the bridge client can reach, whatever sockets, timers and frames do: the backoff
-- stays between 1 and 30 seconds and a reconnect timer waits between 1 and 60 seconds; a client that was
-- disconnected has no such timer; and one that was not has a live socket, a reconnect timer or a
-- connection under way, unless a run of openSocket has ended, since the last one began, because it found
-- no token or because its status could not be written.
pub Reachable-IsSound : (c : Client) → Reachable c → IsSound c
unfolding new_client
Reachable-IsSound c begin = record {
  slow = omega arith;
  quick = omega arith;
  paced = tt;
  quiet = refl;
  awake = refl;
}
Reachable-IsSound c (next {c = b} r st) = Step-IsSound st (Reachable-IsSound b r)
