-- ===== src/AgentClient/Tests.antt =====
-- Runs of the agent client, and its theorem at a concrete one.
use lightbridge_opencode_too.Common.{◌≡◌, refl, true, false, none, some, List, [], ◌∷◌, arith}
use lightbridge_opencode_too.Common.Text.{codes, text_eq}
use lightbridge_opencode_too.Common.Js.{null}
use lightbridge_opencode_too.Common.Maps.{lookup, delete, set}
use lightbridge_opencode_too.Broker.{Command}
use lightbridge_opencode_too.Broker.Routing.{next_id}
use lightbridge_opencode_too.AgentClient.{
  release, stop, close_socket, resolved, failed, disconnected, client_aborted, hello, command,
  answer, connected, notify_close, ClientEvent, opens, readies, closes, sends_call, resumes,
  results, times_out, aborts_waiting, connect, local_timeout, run,
}
use lightbridge_opencode_too.AgentClient.Ledger.{waiting, asked, balance}
use lightbridge_opencode_too.AgentClient.Balance.{run-balance}

abbrev click : Command
click = record {
  action = codes "click";
  group = codes "g";
  params = null;
  target = none;
  timeout_ms = none;
}

-- Two calls before `ready`; the first has a result, the second is in flight when the socket closes.
abbrev two_calls : List ClientEvent
two_calls =
    opens
    ∷ sends_call 7 click none
    ∷ sends_call 8 click (some false)
    ∷ readies
    ∷ resumes true
    ∷ resumes true
    ∷ results (codes "c1") (resolved null)
    ∷ times_out (codes "c1")
    ∷ closes
    ∷ []

two_calls_out :
    (run two_calls (connect 30000 0)).out
    ≡ hello
      ∷ connected
      ∷ command (codes "c1") click
      ∷ command (codes "c2") click
      ∷ answer 7 (resolved null)
      ∷ answer 8 (failed disconnected)
      ∷ notify_close
      ∷ []
unfolding run connect next_id lookup set delete text_eq
two_calls_out = refl

-- A call that waits for `ready` when the socket closes waits for ever.
abandoned :
    waiting 7 (run (sends_call 7 click none ∷ closes ∷ []) (connect 30000 0)).ready_waiters ≡ 1
unfolding run connect waiting
abandoned = refl

aborted_early :
    (run (sends_call 7 click (some false) ∷ aborts_waiting 7 ∷ readies ∷ []) (connect 30000 0)).out
    ≡ answer 7 (failed client_aborted) ∷ connected ∷ []
unfolding run connect
aborted_early = refl

-- A client that was stopped has nothing to release.
released_late :
    (release 9 (stop (connect 30000 0))).out ≡ close_socket ∷ answer 9 (failed disconnected) ∷ []
unfolding release stop connect
released_late = refl

backstop : local_timeout 30000 (some 1000) ≡ 6000
unfolding local_timeout
backstop = refl

run-balance_example :
    (balance 8 (run two_calls (connect 30000 0)) ≡ asked 8 two_calls)
    × ((run two_calls (connect 30000 0)).has_socket ≡ false
        → (run two_calls (connect 30000 0)).pending ≡ [])
run-balance_example = run-balance 8 30000 0 two_calls (omega arith)
