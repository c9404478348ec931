-- ===== src/Extension/Tests.antt =====
-- Runs of the extension's models, and the theorems at concrete inputs.
use lightbridge_opencode_too.Common.{ℕ, ◌≡◌, refl, true, false, none, some, arith}
use lightbridge_opencode_too.Extension.Bridge.{
  Client, new_client, connect, fail, new_socket, on_message, handle, rejected, on_close, Reachable,
  begin, next, connects, dials, receives, closes,
}
use lightbridge_opencode_too.Extension.Bridge.Awake.{IsSound, Reachable-IsSound}

-- The broker refuses the first socket and closes it.
abbrev refused : Client
refused = on_close 0 (on_message 0 rejected (new_socket true (connect new_client)))

refused_retries : refused.reconnect_timer ≡ some 60000
unfolding on_close on_message handle new_socket connect new_client
refused_retries = refl

refused-Reachable : Reachable refused
unfolding connect
refused-Reachable =
    next (next (next (next begin connects) (dials true (omega arith))) (receives 0 rejected))
      (closes 0)

Reachable-IsSound_example : IsSound refused
Reachable-IsSound_example = Reachable-IsSound refused refused-Reachable

-- A status that cannot be written leaves a client that was not disconnected without a socket, a timer or
-- a connection under way.
abbrev dormant : Client
dormant = fail false (connect new_client)

dormant_state :
    (dormant.stopped ≡ false)
    × (dormant.ws ≡ none)
    × (dormant.reconnect_timer ≡ none)
    × ◌≡◌ {A = ℕ} dormant.opening 0
unfolding fail connect new_client
dormant_state = (refl, refl, refl, refl)
