-- ===== src/Election.antt =====
-- packages/opencode-browser/src/endpoint.ts: `createEndpoint`, which hosts the broker or joins it as a
-- guest. Events are the ends of awaits, the timer, the drop of a guest's connection and the shutdown.
-- The broker and the agent client are parameters: whether the port could be bound, and whether the
-- connection was made.
pub mod Roles
mod Tests
use lightbridge_opencode_too.Common.{
  ℕ, suc, ◌+◌, ◌-◌, ◌≤◌, ◌≡◌, Bool, true, false, ◌||◌, Option, none, some, if◌then◌else◌,
}

pub data Mode : Type 0 where
  host guest electing : Mode

-- What `current` is.
pub data Agent : Type 0 where
  local_agent agent_client : Agent

pub record Endpoint : Type 0 where
  pub mode : Mode
  pub current : Option Agent
  pub is_hosting : Bool
  pub closed : Bool
  pub has_reelect_timer : Bool
  -- The runs of `elect` that await the bind, and those that await the connection.
  pub binding : ℕ
  pub connecting : ℕ
  -- The agent clients that are connected.
  pub guests : ℕ

unfoldable pub schedule_reelect : Endpoint → Endpoint
schedule_reelect e = record e {
  is_hosting = false;
  current = none;
  mode = electing;
  has_reelect_timer = if e.closed then e.has_reelect_timer else true;
}

-- `elect`, up to the await of the bind.
unfoldable pub elect : Endpoint → Endpoint
elect e = if e.closed then e else record e { mode = electing; binding = suc e.binding }

unfoldable pub new_endpoint : Endpoint
unfolding elect
new_endpoint = elect (record {
  mode = electing;
  current = none;
  is_hosting = false;
  closed = false;
  has_reelect_timer = false;
  binding = 0;
  connecting = 0;
  guests = 0;
})

-- The broker has started.
unfoldable pub bind_won : Endpoint → Endpoint
bind_won e = record e {
  binding = e.binding - 1;
  is_hosting = true;
  current = some local_agent;
  mode = host;
}

-- The port is taken, or the broker could not start: a guest connects.
unfoldable pub bind_lost : Endpoint → Endpoint
bind_lost e = record e { binding = e.binding - 1; connecting = suc e.connecting }

unfoldable pub connected : Endpoint → Endpoint
connected e = record e {
  connecting = e.connecting - 1;
  guests = suc e.guests;
  current = some agent_client;
  mode = guest;
}

-- `onClose` of an agent client.
on_client_close : Endpoint → Endpoint
unfolding schedule_reelect
on_client_close e = if e.closed then e else schedule_reelect e

-- The connection closes before the broker is ready: `onClose`, and then the rejection.
unfoldable pub closed_early : Endpoint → Endpoint
unfolding on_client_close schedule_reelect
closed_early e = schedule_reelect (on_client_close (record e { connecting = e.connecting - 1 }))

-- No socket could be made.
unfoldable pub not_connected : Endpoint → Endpoint
unfolding schedule_reelect
not_connected e = schedule_reelect (record e { connecting = e.connecting - 1 })

-- The connection of a guest closes.
unfoldable pub dropped : Endpoint → Endpoint
unfolding on_client_close
dropped e = on_client_close (record e { guests = e.guests - 1 })

unfoldable pub on_timer : Endpoint → Endpoint
unfolding elect
on_timer e = elect (record e { has_reelect_timer = false })

unfoldable pub shutdown : Endpoint → Endpoint
shutdown e = record e { closed = true; has_reelect_timer = false }

pub data Step : Endpoint → Endpoint → Type 0 where
  wins : {e : Endpoint} → 1 ≤ e.binding → Step e (bind_won e)
  loses : {e : Endpoint} → 1 ≤ e.binding → Step e (bind_lost e)
  connects : {e : Endpoint} → 1 ≤ e.connecting → Step e (connected e)
  closes_early : {e : Endpoint} → 1 ≤ e.connecting → Step e (closed_early e)
  fails : {e : Endpoint} → 1 ≤ e.connecting → Step e (not_connected e)
  drops : {e : Endpoint} → 1 ≤ e.guests → Step e (dropped e)
  expires : {e : Endpoint} → e.has_reelect_timer ≡ true → Step e (on_timer e)
  shuts_down : {e : Endpoint} → Step e (shutdown e)

pub data Reachable : Endpoint → Type 0 where
  begin : Reachable new_endpoint
  next : {e f : Endpoint} → Reachable e → Step e f → Reachable f
