-- ===== src/Broker/Dispatch.antt =====
-- packages/opencode-browser/src/broker.ts: what a command and a release send to the executors.
pub mod Release
use lightbridge_opencode_too.Common.{
  ℕ, zero, suc, ◌+◌, ◌-◌, ◌/◌, ◌%◌, ◌^◌, Bool, true, false, not, ◌&&◌, ◌||◌, Option, none, some,
  List, [], ◌∷◌, ◌++◌, ltb, leb, if◌then◌else◌, or_else,
}
use lightbridge_opencode_too.Common.Text.{Text, codes, text_eq}
use lightbridge_opencode_too.Common.Decimal.{print_ℕ}
use lightbridge_opencode_too.Common.Maps.{Map, lookup, set, values, Text_eq}
use lightbridge_opencode_too.Broker.{
  Broker, ExecutorInfo, GroupOwner, Waiter, Pending, Target, Reply, targets, released, Result, ok,
  err, Command, Fault, executor_gone, group_owned, no_group, not_connected, ambiguous_target,
  unknown_target, aborted, send_failed, command, release, send, aggregate, emit, safe_send, enqueue,
}
use lightbridge_opencode_too.Broker.InFlight.{settle_reject}
use lightbridge_opencode_too.Broker.Routing.{
  is_global, pick_executor, resolve_executor, timeout_for, next_id, orphan_groups, executors_of,
  list_targets,
}

-- The executor of a command that is not answered by the broker itself.
executor_for : Text → Command → Broker → Broker × Result ExecutorInfo
executor_for agent_id cmd b =
    if is_global cmd.action
    then (b, pick_executor b cmd.target)
    else resolve_executor b agent_id cmd

is_empty : Text → Bool
is_empty [] = true
is_empty (c ∷ s) = false

has_value : Option Bool → Bool
has_value none = false
has_value (some v) = true

module _ (can_send : ℕ → Bool) where
  deliver : ExecutorInfo → Text → Command → Broker → Broker
  unfolding emit settle_reject
  deliver executor req_id cmd b =
      if can_send executor.conn
      then emit (send executor.conn (command req_id cmd.action cmd.group cmd.params)) b
      else settle_reject req_id send_failed b

  -- `signal` is the command's signal, where it has one, and whether it is aborted already.
  unfoldable pub send_to_executor :
      ExecutorInfo → Text → Command → Option Bool → Waiter → Broker → Broker
  unfolding deliver next_id enqueue timeout_for has_value
  send_to_executor executor agent_id cmd signal waiter b =
      let (n, req_id) = next_id b.id_counter in
      let sent = deliver executor req_id cmd (record b {
        id_counter = n;
        pending =
            set req_id
              (record {
                waiter = waiter;
                timer_ms = timeout_for b.timeout_ms b.max_command_ms cmd.timeout_ms;
                has_signal = has_value signal;
                agent_id = agent_id;
                executor_id = executor.id;
              })
              b.pending;
      }) in
      if or_else signal false then enqueue waiter (err aborted) b else sent

  release_one : Option ExecutorInfo → Broker → Broker
  unfolding safe_send
  release_one none b = b
  release_one (some exec) b = safe_send can_send exec.conn release b

  release_each : List Text → Broker → Broker
  unfolding release_one
  release_each [] b = b
  release_each (id ∷ ids) b = release_each ids (release_one (lookup id b.executor_by_id) b)

  unfoldable pub release_for_agent : Text → Broker → Broker
  unfolding release_each executors_of orphan_groups
  release_for_agent agent_id b =
      release_each (executors_of agent_id b.group_owner [])
        (record b { group_owner = orphan_groups agent_id b.group_owner })

  dispatch : Text → Command → Option Bool → Waiter → Broker × Result ExecutorInfo → Broker
  dispatch agent_id cmd signal waiter (b, err fault) = enqueue waiter (err fault) b
  dispatch agent_id cmd signal waiter (b, ok exec) =
      send_to_executor exec agent_id cmd signal waiter b

  unfoldable pub route : Text → Command → Option Bool → Waiter → Broker → Broker
  unfolding executor_for dispatch is_empty
  route agent_id cmd signal waiter b =
      if text_eq cmd.action (codes "targets")
      then enqueue waiter (ok (targets (list_targets b))) b
      else if text_eq cmd.action (codes "release")
      then enqueue waiter (ok released) (release_for_agent agent_id b)
      else if text_eq cmd.action (codes "tabs") && is_empty cmd.group
      then emit (aggregate waiter) b
      else dispatch agent_id cmd signal waiter (executor_for agent_id cmd b)
