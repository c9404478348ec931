-- ===== src/Broker/Routing.antt =====
-- packages/opencode-browser/src/broker.ts: from an agent's command to the executor that runs it.
pub mod Ownership
use lightbridge_opencode_too.Common.{
  ℕ, zero, suc, ◌+◌, ◌-◌, ◌/◌, ◌%◌, ◌^◌, Bool, true, false, not, ◌&&◌, ◌||◌, Option, none, some,
  List, [], ◌∷◌, ◌++◌, ltb, leb, if◌then◌else◌, or_else,
}
use lightbridge_opencode_too.Common.Text.{Text, codes, text_eq}
use lightbridge_opencode_too.Common.Decimal.{print_ℕ}
use lightbridge_opencode_too.Common.Maps.{Map, lookup, set, values, Text_eq}
use lightbridge_opencode_too.Broker.{
  Broker, ExecutorInfo, GroupOwner, Waiter, Pending, Target, Reply, targets, released, Result, ok,
  err, Command, Fault, executor_gone, group_owned, no_group, not_connected, ambiguous_target,
  unknown_target, aborted, send_failed, command, release, send, aggregate, emit, safe_send, enqueue,
}
use lightbridge_opencode_too.Broker.InFlight.{settle_reject}

-- `GLOBAL_ACTIONS`.
unfoldable pub is_global : Text → Bool
is_global action = text_eq action (codes "cookies")

-- The value of an optional text where it is truthy: present, and not empty.
abbrev pub truthy : Option Text → Option Text
truthy none = none
truthy (some []) = none
truthy (some (c ∷ s)) = some (c ∷ s)

unfoldable pub with_label : Text → List ExecutorInfo → List ExecutorInfo
with_label label [] = []
with_label label (e ∷ es) =
    let rest = with_label label es in if text_eq e.label label then e ∷ rest else rest

pick_labelled : List ExecutorInfo → Result ExecutorInfo
pick_labelled [] = err unknown_target
pick_labelled (e ∷ []) = ok e
pick_labelled (e ∷ f ∷ es) = err ambiguous_target

pick_target : Text → Map Text ExecutorInfo → Result ExecutorInfo
unfolding pick_labelled with_label
pick_target target executors = elim (lookup target executors) [
  | some exec ↦ ok exec
  | none ↦ pick_labelled (with_label target (values executors))
]

primary_of : Option Text → Map Text ExecutorInfo → Option ExecutorInfo
primary_of none executors = none
primary_of (some id) executors = lookup id executors

first_of_values : Map Text ExecutorInfo → Result ExecutorInfo
first_of_values [] = err not_connected
first_of_values ((id, exec) ∷ rest) = ok exec

pick_default : Option ExecutorInfo → Map Text ExecutorInfo → Result ExecutorInfo
unfolding first_of_values
pick_default (some exec) executors = ok exec
pick_default none executors = first_of_values executors

pick_among : Option Text → Option Text → Map Text ExecutorInfo → Result ExecutorInfo
unfolding pick_target pick_default primary_of
pick_among target primary [] = err not_connected
pick_among (some target) primary (e ∷ es) = pick_target target (e ∷ es)
pick_among none primary (e ∷ es) = pick_default (primary_of primary (e ∷ es)) (e ∷ es)

unfoldable pub pick_executor : Broker → Option Text → Result ExecutorInfo
unfolding pick_among
pick_executor b target = pick_among (truthy target) b.primary_executor_id b.executor_by_id

-- The command is denied where another agent owns the group.
unfoldable pub is_other : Option Text → Text → Bool
is_other none agent_id = false
is_other (some []) agent_id = false
is_other (some (c ∷ s)) agent_id = not (text_eq (c ∷ s) agent_id)

pub connected_executor : Option ExecutorInfo → Result ExecutorInfo
connected_executor none = err executor_gone
connected_executor (some exec) = ok exec

claim_group : Text → Text → GroupOwner → Broker → Broker
claim_group group agent_id owner b = record b {
  group_owner = set group (record owner { agent_id = some agent_id }) b.group_owner;
}

resolve_owned : Text → Command → GroupOwner → Broker → Broker × Result ExecutorInfo
unfolding is_other connected_executor claim_group
resolve_owned agent_id cmd owner b =
    if is_other owner.agent_id agent_id then (b, err group_owned) else (
      claim_group cmd.group agent_id owner b,
      connected_executor (lookup owner.executor_id b.executor_by_id),
    )

assign_group : Text → Text → Result ExecutorInfo → Broker → Broker × Result ExecutorInfo
assign_group agent_id group (err fault) b = (b, err fault)
assign_group agent_id group (ok exec) b = (
  record b {
    group_owner =
        set group (record { executor_id = exec.id; agent_id = some agent_id }) b.group_owner;
  },
  ok exec,
)

resolve_unowned : Text → Command → Broker → Broker × Result ExecutorInfo
unfolding assign_group
resolve_unowned agent_id cmd b =
    if text_eq cmd.action (codes "open")
    then assign_group agent_id cmd.group (pick_executor b cmd.target) b
    else (b, err no_group)

unfoldable pub resolve_executor : Broker → Text → Command → Broker × Result ExecutorInfo
unfolding resolve_owned resolve_unowned
resolve_executor b agent_id cmd = elim (lookup cmd.group b.group_owner) [
  | some owner ↦ resolve_owned agent_id cmd owner b
  | none ↦ resolve_unowned agent_id cmd b
]

-- 0 disables the timeout; an override below 0 cannot be told from 0.
unfoldable pub timeout_for : ℕ → ℕ → Option ℕ → ℕ
timeout_for global ceiling override =
    let requested = or_else override global in if leb requested ceiling then requested else ceiling

-- `n.toString(36)` with fuel for the digits.
unfoldable pub print_36 : ℕ → ℕ → Text
print_36 zero n = []
print_36 (suc f) n =
    let digit = if ltb (n % 36) 10 then b'0' + n % 36 else b'a' + (n % 36 - 10) in
    let more = print_36 f (n / 36) ++ digit ∷ [] in if ltb n 36 then digit ∷ [] else more

abbrev pub max_safe_integer : ℕ
max_safe_integer = 9007199254740991

-- `createLocalAgent`: the id of the new agent.
unfoldable pub create_local_agent : Broker → Broker × Text
create_local_agent b =
    (record b { agent_seq = suc b.agent_seq }, codes "local:" ++ print_ℕ (suc b.agent_seq))

-- `nextId`: the counter after the call, and the id.
unfoldable pub next_id : ℕ → ℕ × Text
unfolding print_36
next_id id_counter = let n = (id_counter + 1) % max_safe_integer in (n, b'c' ∷ print_36 (suc n) n)

-- `owner.agentId === agentId`.
unfoldable pub is_owned_by : Text → Option Text → Bool
is_owned_by agent_id none = false
is_owned_by agent_id (some owner) = text_eq owner agent_id

unfoldable pub orphan_groups : Text → Map Text GroupOwner → Map Text GroupOwner
orphan_groups agent_id [] = []
orphan_groups agent_id ((group, owner) ∷ rest) =
    (group, if is_owned_by agent_id owner.agent_id then record owner { agent_id = none } else owner)
    ∷ orphan_groups agent_id rest

unfoldable pub add_id : Text → List Text → List Text
add_id id [] = id ∷ []
add_id id (i ∷ ids) = let rest = i ∷ add_id id ids in if text_eq i id then i ∷ ids else rest

-- The set `execIds` in the order of the groups, after those already met.
unfoldable pub executors_of : Text → Map Text GroupOwner → List Text → List Text
executors_of agent_id [] ids = ids
executors_of agent_id ((group, owner) ∷ rest) ids =
    executors_of agent_id rest
      (if is_owned_by agent_id owner.agent_id then add_id owner.executor_id ids else ids)

groups_of : Text → Map Text GroupOwner → List Text
groups_of executor_id [] = []
groups_of executor_id ((group, owner) ∷ rest) =
    let more = groups_of executor_id rest in
    if text_eq owner.executor_id executor_id then group ∷ more else more

targets_of : Map Text GroupOwner → List ExecutorInfo → List Target
unfolding groups_of
targets_of owners [] = []
targets_of owners (e ∷ es) =
    record { id = e.id; label = e.label; browser = e.browser; groups = groups_of e.id owners }
    ∷ targets_of owners es

unfoldable pub list_targets : Broker → List Target
unfolding targets_of
list_targets b = targets_of b.group_owner (values b.executor_by_id)
