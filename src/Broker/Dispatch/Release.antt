-- ===== src/Broker/Dispatch/Release.antt =====
-- What `releaseForAgent` leaves and sends.
use mathlib.Core.List.{append-nil, append_assoc}
use lightbridge_opencode_too.Common.{
  ℕ, ◌≡◌, refl, ap, inl, inr, Bool, true, Option, none, some, List, [], ◌∷◌, ◌++◌, All, All-In,
  All-append, In, here, there, Bool-cases, if◌then◌else◌,
}
use lightbridge_opencode_too.Common.Text.{Text, text_eq, text_eq_iff}
use lightbridge_opencode_too.Common.Maps.{Map, lookup, Text_eq}
use lightbridge_opencode_too.Broker.{Broker, ExecutorInfo, GroupOwner, Effect, send, release}
use lightbridge_opencode_too.Broker.Routing.{is_owned_by, orphan_groups, add_id, executors_of}
use lightbridge_opencode_too.Broker.Dispatch.{release_one, release_each, release_for_agent}

-- The owner of a group after the release of an agent's groups.
abbrev pub orphaned : Text → GroupOwner → GroupOwner
orphaned agent_id owner =
    if is_owned_by agent_id owner.agent_id then record owner { agent_id = none } else owner

abbrev pub map_owner : (GroupOwner → GroupOwner) → Option GroupOwner → Option GroupOwner
map_owner f none = none
map_owner f (some owner) = some (f owner)

lookup-orphan_groups :
    (agent_id group : Text) (m : Map Text GroupOwner)
    → lookup group (orphan_groups agent_id m) ≡ map_owner (orphaned agent_id) (lookup group m)
unfolding orphan_groups lookup
lookup-orphan_groups agent_id group [] = refl
lookup-orphan_groups agent_id group ((g, owner) ∷ m) = elim (Bool-cases (text_eq g group)) [
  | inl e ↦ rw e
  | inr e ↦ rw e (lookup-orphan_groups agent_id group m)
]

-- An executor on which the agent owns a group.
abbrev pub Serves : Text → Map Text GroupOwner → Text → Type 0
Serves agent_id m id =
    (group : Text) × (owner : GroupOwner) × In (group, owner) m
    × (owner.agent_id ≡ some agent_id)
    × (owner.executor_id ≡ id)

is_owned_by→eq :
    (agent_id : Text) (o : Option Text) → is_owned_by agent_id o ≡ true → o ≡ some agent_id
unfolding is_owned_by
is_owned_by→eq agent_id none h = cc
is_owned_by→eq agent_id (some a) h = ap some ((text_eq_iff a agent_id).0 h)

Serves-cons :
    (agent_id id : Text) (e : Text × GroupOwner) (m : Map Text GroupOwner)
    → Serves agent_id m id
    → Serves agent_id (e ∷ m) id
Serves-cons agent_id id e m (group, owner, at, mine, on) = (group, owner, there at, mine, on)

add_id-All :
    (P : Text → Type 0) (id : Text) (ids : List Text) → P id → All P ids → All P (add_id id ids)
unfolding add_id
add_id-All P id [] p h = (p, tt)
add_id-All P id (i ∷ ids) p h = elim (Bool-cases (text_eq i id)) [
  | inl e ↦ rw e h
  | inr e ↦ rw e (h.0, add_id-All P id ids p h.1)
]

executors_of-All :
    (P : Text → Type 0) (agent_id : Text) (m : Map Text GroupOwner) (ids : List Text)
    → ((id : Text) → Serves agent_id m id → P id)
    → All P ids
    → All P (executors_of agent_id m ids)
unfolding executors_of
executors_of-All P agent_id [] ids f h = h
executors_of-All P agent_id ((group, owner) ∷ m) ids f h =
    elim (Bool-cases (is_owned_by agent_id owner.agent_id)) [
      | inl e ↦ rw e (
          executors_of-All P agent_id m (add_id owner.executor_id ids)
            (λ id s. f id (Serves-cons agent_id id (group, owner) m s))
            (add_id-All P owner.executor_id ids
              (f owner.executor_id
                (group, owner, here, is_owned_by→eq agent_id owner.agent_id e, refl))
              h))
      | inr e ↦ rw e (
          executors_of-All P agent_id m ids
            (λ id s. f id (Serves-cons agent_id id (group, owner) m s)) h)
    ]

-- A release frame to the connection of an executor that serves the agent.
abbrev pub IsDue : Text → Broker → Effect → Type 0
IsDue agent_id b e =
    (id : Text) × (exec : ExecutorInfo) × Serves agent_id b.group_owner id
    × (lookup id b.executor_by_id ≡ some exec)
    × (e ≡ send exec.conn release)

-- All that changes is the owners of the agent's groups, and release frames that are due.
pub record IsReleased (agent_id : Text) (b b' : Broker) : Type 0 where
  pub owners :
      (group : Text)
      → lookup group b'.group_owner ≡ map_owner (orphaned agent_id) (lookup group b.group_owner)
  pub sent : (es : List Effect) × (b'.out ≡ b.out ++ es) × All (IsDue agent_id b) es
  pub rest : b' ≡ record b { group_owner = b'.group_owner; out = b'.out }

module _ (can_send : ℕ → Bool) (P : Effect → Type 0) where
  release_one_lem :
      (o : Option ExecutorInfo) (b : Broker)
      → ((exec : ExecutorInfo) → o ≡ some exec → P (send exec.conn release))
      → (es : List Effect) × (release_one can_send o b ≡ record b { out = b.out ++ es }) × All P es
  unfolding release_one
  release_one_lem none b f = ([], rw append-nil, tt)
  release_one_lem (some exec) b f = elim (Bool-cases (can_send exec.conn)) [
    | inl e ↦ (send exec.conn release ∷ [], rw e, (f exec refl, tt))
    | inr e ↦ ([], rw (e, append-nil), tt)
  ]

  release_each_lem :
      (ids : List Text) (b : Broker)
      → ((exec : ExecutorInfo) (id : Text)
          → In id ids
          → lookup id b.executor_by_id ≡ some exec
          → P (send exec.conn release))
      → (es : List Effect) × (release_each can_send ids b ≡ record b { out = b.out ++ es })
        × All P es
  unfolding release_each
  release_each_lem [] b f = ([], rw append-nil, tt)
  release_each_lem (id ∷ ids) b f =
      let (es, same, first) =
        release_one_lem (lookup id b.executor_by_id) b (λ exec e. f exec id here e) in
      let (fs, later, rest) =
        release_each_lem ids (record b { out = b.out ++ es })
          (λ exec i m e. f exec i (there m) e) in
      (es ++ fs, rw (same, ← append_assoc) later, All-append P es fs first rest)

-- When an agent is released, exactly its groups are orphaned and all other owners stay; nothing else
-- of the broker changes but the frames sent, and these are release frames to connected executors on
-- which the agent owned a group.
pub release_for_agent-IsReleased :
    (can_send : ℕ → Bool) (agent_id : Text) (b : Broker)
    → IsReleased agent_id b (release_for_agent can_send agent_id b)
unfolding release_for_agent
release_for_agent-IsReleased can_send agent_id b =
    let serving =
      executors_of-All (Serves agent_id b.group_owner) agent_id b.group_owner [] (λ id s. s) tt in
    let (es, same, due) =
      release_each_lem can_send (IsDue agent_id b) (executors_of agent_id b.group_owner [])
        (record b { group_owner = orphan_groups agent_id b.group_owner })
        (λ exec id m e. (
          id,
          exec,
          All-In (Serves agent_id b.group_owner) (executors_of agent_id b.group_owner []) serving m,
          e,
          refl,
        )) in
    rw same (record {
      owners = λ group. lookup-orphan_groups agent_id group b.group_owner;
      sent = (es, refl, due);
      rest = refl;
    })
