-- ===== src/Election/Roles.antt =====
-- packages/opencode-browser/src/endpoint.ts: an endpoint has one role at a time.
use lightbridge_opencode_too.Common.{
  ℕ, ◌+◌, ◌-◌, ◌≡◌, refl, ◌⊎◌, inl, inr, Bool, true, false, Option, none, some, arith,
  if◌then◌else◌,
}
use lightbridge_opencode_too.Election.{
  Mode, host, guest, electing, Agent, local_agent, agent_client, Endpoint, schedule_reelect, elect,
  new_endpoint, bind_won, bind_lost, connected, on_client_close, closed_early, not_connected,
  dropped, on_timer, shutdown, Step, wins, loses, connects, closes_early, fails, drops, expires,
  shuts_down, Reachable, begin, next,
}

abbrev pub count : Bool → ℕ
count true = 1
count false = 0

-- Whom an endpoint sends its commands to, and whether it hosts and is a guest.
abbrev pub agent_of : Mode → Option Agent
agent_of host = some local_agent
agent_of guest = some agent_client
agent_of electing = none

abbrev pub hosts : Mode → Bool
hosts host = true
hosts _ = false

abbrev pub guests_of : Mode → ℕ
guests_of guest = 1
guests_of _ = 0

-- An endpoint hosts, is a guest, awaits the bind, awaits the connection, or waits to elect again: one
-- of these, once. Its mode says which agent takes its commands.
pub record HasOneRole (e : Endpoint) : Type 0 where
  pub once :
      count e.is_hosting + e.guests + e.binding + e.connecting + count e.has_reelect_timer ≡ 1
  pub sends : e.current ≡ agent_of e.mode
  pub hosting : e.is_hosting ≡ hosts e.mode
  pub joined : e.guests ≡ guests_of e.mode

abbrev IsClosedOr : Endpoint → Type 0
IsClosedOr e = (e.closed ≡ true) ⊎ ((e.closed ≡ false) × HasOneRole e)

Step-IsClosed : {e f : Endpoint} → Step e f → e.closed ≡ true → f.closed ≡ true
unfolding bind_won bind_lost connected closed_early not_connected dropped on_client_close
    schedule_reelect on_timer elect shutdown
Step-IsClosed (wins k) h = h
Step-IsClosed (loses k) h = h
Step-IsClosed (connects k) h = h
Step-IsClosed (closes_early k) h = rw h refl
Step-IsClosed (fails k) h = h
Step-IsClosed (drops k) h = rw h refl
Step-IsClosed (expires k) h = rw h refl
Step-IsClosed shuts_down h = refl

schedule_reelect-HasOneRole :
    (e : Endpoint)
    → e.closed ≡ false
    → e.guests ≡ 0
    → e.binding ≡ 0
    → e.connecting ≡ 0
    → IsClosedOr (schedule_reelect e)
unfolding schedule_reelect
schedule_reelect-HasOneRole e live g b c = inr (
  live,
  record { once = rw live (omega (arith, g, b, c)); sends = refl; hosting = refl; joined = g },
)

if-IsClosedOr :
    (b : Bool) (e f : Endpoint) → b ≡ false → IsClosedOr f → IsClosedOr (if b then e else f)
if-IsClosedOr true e f h k = cc h
if-IsClosedOr false e f h k = k

Step-HasOneRole : {e f : Endpoint} → Step e f → e.closed ≡ false → HasOneRole e → IsClosedOr f
unfolding bind_won bind_lost connected closed_early not_connected dropped on_client_close on_timer
    elect shutdown
Step-HasOneRole (wins {e} k) live h =
    inr (live, record { once = ground arith; sends = refl; hosting = refl; joined = ground arith })
Step-HasOneRole (loses {e} k) live h =
    inr (
      live,
      record { once = ground arith; sends = h.sends; hosting = h.hosting; joined = h.joined },
    )
Step-HasOneRole (connects {e} k) live h = inr (
  live,
  record { once = ground arith; sends = refl; hosting = ground arith; joined = ground arith },
)
Step-HasOneRole (closes_early {e} k) live h = ground arith
Step-HasOneRole (fails {e} k) live h =
    schedule_reelect-HasOneRole (record e { connecting = e.connecting - 1 }) live ground arith
      ground arith ground arith
Step-HasOneRole (drops {e} k) live h =
    let gone = record e { guests = e.guests - 1 } in
    if-IsClosedOr e.closed gone (schedule_reelect gone) live
      (schedule_reelect-HasOneRole gone live (ground arith) (ground arith) (ground arith))
Step-HasOneRole (expires {e} k) live h = ground arith
Step-HasOneRole shuts_down live h = inl refl

Reachable-IsClosedOr : (e : Endpoint) → Reachable e → IsClosedOr e
unfolding new_endpoint elect
Reachable-IsClosedOr e begin =
    inr (refl, record { once = omega arith; sends = refl; hosting = refl; joined = refl })
Reachable-IsClosedOr e (next {e = d} r st) = elim (Reachable-IsClosedOr d r) [
  | inl shut ↦ inl (Step-IsClosed st shut)
  | inr (live, h) ↦ Step-HasOneRole st live h
]

-- In every state that an endpoint can reach before its shutdown it has exactly one role: it hosts the
-- broker, is a connected guest, awaits the bind, awaits a connection, or has one timer to elect again.
-- Commands go to its own broker exactly where it hosts, to the agent client where it is a guest, and to
-- nobody otherwise.
pub Reachable-HasOneRole : (e : Endpoint) → Reachable e → e.closed ≡ false → HasOneRole e
Reachable-HasOneRole e r live = elim (Reachable-IsClosedOr e r) [
  | inl shut ↦ cc (shut, live)
  | inr (same, h) ↦ h
]
