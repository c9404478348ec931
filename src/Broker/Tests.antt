-- ===== src/Broker/Tests.antt =====
-- Runs of the broker, and the theorems at concrete brokers.
use lightbridge_opencode_too.Common.{
  ℕ, ◌≡◌, refl, Bool, true, false, ◌==◌, not, none, some, List, [], ◌∷◌, ◌++◌, if◌then◌else◌,
}
use lightbridge_opencode_too.Common.Text.{Text, codes, text_eq}
use lightbridge_opencode_too.Common.Js.{null, string, array, object, Items, end, field, get}
use lightbridge_opencode_too.Common.Maps.{lookup, set, delete, Text_eq, ℕ_eq}
use lightbridge_opencode_too.Broker.{
  Broker, ExecutorInfo, Pending, Command, local, rebuild, ok, err, received, timeout, group_owned,
  no_group, extension, ready, command, release, rejected, send, close, answer,
}
use lightbridge_opencode_too.Broker.InFlight.Endings.{returned, expired, finish, first_ending_wins}
use lightbridge_opencode_too.Broker.Routing.{
  is_global, resolve_executor, pick_executor, is_owned_by, add_id,
}
use lightbridge_opencode_too.Broker.Dispatch.{send_to_executor, release_for_agent}
use lightbridge_opencode_too.Broker.Routing.Ownership.{Outcome, resolve_executor-Outcome}
use lightbridge_opencode_too.Broker.Dispatch.Release.{IsReleased, release_for_agent-IsReleased}
use lightbridge_opencode_too.Broker.Handlers.{
  Hello, adopt_rotated_token, check_token, group_names, add_orphans, register_executor,
}
use lightbridge_opencode_too.Broker.Handlers.Registration.{
  IsRegistered, register_executor-IsRegistered,
}
use lightbridge_opencode_too.Broker.Events.{
  Event, message, closed, local_command, timed_out, hello, result_of, on_message, step,
}
use lightbridge_opencode_too.Broker.Events.Handshake.{on_message_unauthenticated}

abbrev empty : Broker
empty = record {
  executors = [];
  executor_by_id = [];
  agents = [];
  group_owner = [];
  pending = [];
  primary_executor_id = none;
  agent_seq = 0;
  exec_seq = 0;
  id_counter = 0;
  token = codes "secret";
  timeout_ms = 30000;
  max_command_ms = 600000;
  tasks = [];
  out = [];
}

abbrev chrome : Hello
chrome = record {
  token = codes "secret";
  role = extension;
  id = some (codes "chrome");
  label = none;
  browser = none;
}

abbrev open_command : Command
open_command = record {
  action = codes "open";
  group = codes "work";
  params = object end;
  target = none;
  timeout_ms = none;
}

abbrev click_command : Command
click_command = record {
  action = codes "click";
  group = codes "work";
  params = object end;
  target = none;
  timeout_ms = none;
}

-- Connection 0 hangs up silently: it takes no frame.
abbrev takes_frames : ℕ → Bool
takes_frames conn = not (conn == 0)

abbrev run : List Event → Broker → Broker
run [] b = b
run (e ∷ es) b = run es (step takes_frames none e b)

abbrev chrome_info : ExecutorInfo
chrome_info = record {
  conn = 7;
  id = codes "chrome";
  label = codes "chrome";
  browser = codes "unknown";
}

abbrev pending_open : Pending
pending_open = record {
  waiter = local 40;
  timer_ms = 30000;
  has_signal = true;
  agent_id = codes "local:1";
  executor_id = codes "chrome";
}

abbrev pending_rebuild : Pending
pending_rebuild = record {
  waiter = rebuild chrome_info;
  timer_ms = 30000;
  has_signal = false;
  agent_id = codes "broker";
  executor_id = codes "chrome";
}

abbrev opened : Broker
opened = record empty {
  executors = (7, chrome_info) ∷ [];
  executor_by_id = (codes "chrome", chrome_info) ∷ [];
  group_owner =
      (codes "work", record { executor_id = codes "chrome"; agent_id = some (codes "local:1") })
      ∷ [];
  pending = (codes "c1", pending_rebuild) ∷ (codes "c2", pending_open) ∷ [];
  primary_executor_id = some (codes "chrome");
  id_counter = 2;
  out =
      send 7 (ready extension (codes "chrome"))
      ∷ send 7 (command (codes "c1") (codes "tabs") [] (object end))
      ∷ send 7 (command (codes "c2") (codes "open") (codes "work") (object end))
      ∷ [];
}

-- An extension connects, and the agent `local:1` opens a group; the rebuild of the extension's groups
-- is `c1` and the command is `c2`.
first_events :
    run
      (message 7 (hello chrome) ∷ local_command (codes "local:1") 40 open_command (some false) ∷ [])
      empty
    ≡ opened
unfolding step text_eq is_global resolve_executor lookup set delete check_token send_to_executor
    pick_executor is_owned_by group_names
first_events = refl

-- A second agent may not use the group; the first result answers the caller; then the browser leaves.
run_out :
    (run
      (local_command (codes "local:2") 41 click_command none
        ∷ message 7 (result_of (codes "c2") (ok null))
        ∷ timed_out (codes "c2")
        ∷ closed 7
        ∷ local_command (codes "local:1") 42 click_command none
        ∷ [])
      (record opened { out = [] })).out
    ≡ answer 41 (err group_owned) ∷ answer 40 (ok (received null)) ∷ answer 42 (err no_group) ∷ []
unfolding step text_eq is_global resolve_executor lookup set delete check_token send_to_executor
    pick_executor is_owned_by group_names
run_out = refl

-- The groups that the extension reports become orphans, which the next command adopts.
rebuilt : Broker
rebuilt =
    run
      (message 7 (hello chrome)
        ∷ message 7 (
            result_of (codes "c1") (
              ok (
                object (
                  field "groups"
                    (array
                      (Items.cons (object (field "name" (string (codes "work")) end)) Items.nil))
                    end))))
        ∷ [])
      empty

rebuilt_owner :
    lookup (codes "work") rebuilt.group_owner
    ≡ some (record { executor_id = codes "chrome"; agent_id = none })
unfolding rebuilt step text_eq is_global resolve_executor lookup set delete check_token
    send_to_executor pick_executor is_owned_by group_names add_orphans get
rebuilt_owner = refl

first_ending_wins_example :
    ((finish takes_frames expired (codes "c2") opened).tasks
      ≡ opened.tasks ++ (local 40, err timeout) ∷ [])
    × ((j : Text)
        → lookup j (finish takes_frames expired (codes "c2") opened).pending
          ≡ (if text_eq (codes "c2") j then none else lookup j opened.pending))
    × (finish takes_frames
          (returned (ok null))
          (codes "c2")
          (finish takes_frames expired (codes "c2") opened)
        ≡ finish takes_frames expired (codes "c2") opened)
unfolding lookup text_eq
first_ending_wins_example =
    first_ending_wins takes_frames expired (returned (ok null)) (codes "c2") pending_open opened
      refl refl

resolve_executor-Outcome_example :
    Outcome opened
      (codes "local:2")
      click_command
      (resolve_executor opened (codes "local:2") click_command).0
      (resolve_executor opened (codes "local:2") click_command).1
      (lookup (codes "work") opened.group_owner)
resolve_executor-Outcome_example = resolve_executor-Outcome opened (codes "local:2") click_command

release_for_agent-IsReleased_example :
    IsReleased (codes "local:1") opened (release_for_agent takes_frames (codes "local:1") opened)
release_for_agent-IsReleased_example =
    release_for_agent-IsReleased takes_frames (codes "local:1") opened

release_run :
    (release_for_agent takes_frames (codes "local:1") (record opened { out = [] })).out
    ≡ send 7 release ∷ []
unfolding release_for_agent text_eq lookup is_owned_by add_id
release_run = refl

abbrev chrome_again : ExecutorInfo
chrome_again = record {
  conn = 8;
  id = codes "chrome";
  label = codes "work laptop";
  browser = codes "chrome";
}

register_executor-IsRegistered_example :
    IsRegistered chrome_again opened (register_executor chrome_again opened)
register_executor-IsRegistered_example = register_executor-IsRegistered chrome_again opened

register_run : lookup 7 (register_executor chrome_again opened).executors ≡ none
unfolding register_executor lookup set delete text_eq
register_run = refl

abbrev stale_hello : Hello
stale_hello = record chrome { token = codes "stale" }

on_message_unauthenticated_example :
    on_message takes_frames (some (codes "rotated")) 9 (hello stale_hello) opened ≡ record opened {
      token = codes "rotated";
      out = opened.out ++ send 9 (rejected (codes "bad_token")) ∷ close 9 ∷ [];
    }
unfolding lookup text_eq adopt_rotated_token
on_message_unauthenticated_example =
    on_message_unauthenticated takes_frames (some (codes "rotated")) 9 (hello stale_hello) opened
      refl refl refl
