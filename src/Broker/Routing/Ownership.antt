-- ===== src/Broker/Routing/Ownership.antt =====
-- Who may use a group: the outcome of `resolveExecutor` on every branch.
use lightbridge_opencode_too.Common.{
  ◌≡◌, ◌≢◌, ◌⊎◌, refl, ap, inl, inr, true, false, Option, none, some, [], ◌∷◌, Bool-cases,
  Option-cases, if◌then◌else◌,
}
use lightbridge_opencode_too.Common.Text.{Text, codes, text_eq, text_eq_iff}
use lightbridge_opencode_too.Common.Maps.{Map, lookup, set, lookup-set, Text_eq}
use lightbridge_opencode_too.Broker.{
  Broker, ExecutorInfo, GroupOwner, Result, ok, err, Command, group_owned, no_group,
}
use lightbridge_opencode_too.Broker.Routing.{
  is_other, connected_executor, resolve_owned, assign_group, resolve_unowned, resolve_executor,
  pick_executor,
}

-- The owner of the command's group is now the agent, on this executor, and every other group has
-- the owner that it had.
abbrev pub Claims : Text → Text → Text → Map Text GroupOwner → Map Text GroupOwner → Type 0
Claims agent_id group executor_id old new =
    (g : Text)
    → lookup g new ≡ (
        if text_eq group g
        then some (record { executor_id = executor_id; agent_id = some agent_id })
        else lookup g old)

-- `open` of a group that nobody owns takes it, if an executor is found.
abbrev pub Opens :
    Broker → Text → Command → Broker → Result ExecutorInfo → Result ExecutorInfo → Type 0
Opens b agent_id cmd b' r (ok exec) =
    (r ≡ ok exec) × Claims agent_id cmd.group exec.id b.group_owner b'.group_owner
Opens b agent_id cmd b' r (err fault) = (r ≡ err fault) × (b' ≡ b)

abbrev pub Outcome :
    Broker → Text → Command → Broker → Result ExecutorInfo → Option GroupOwner → Type 0
Outcome b agent_id cmd b' r none =
    ((cmd.action ≡ codes "open") × Opens b agent_id cmd b' r (pick_executor b cmd.target))
    ⊎ ((cmd.action ≢ codes "open") × (r ≡ err no_group) × (b' ≡ b))
Outcome b agent_id cmd b' r (some owner) =
    ((a : Text) × (owner.agent_id ≡ some a)
      × (a ≢ [])
      × (a ≢ agent_id)
      × (r ≡ err group_owned)
      × (b' ≡ b))
    ⊎ (((owner.agent_id ≡ none) ⊎ (owner.agent_id ≡ some []) ⊎ (owner.agent_id ≡ some agent_id))
        × (r ≡ connected_executor (lookup owner.executor_id b.executor_by_id))
        × Claims agent_id cmd.group owner.executor_id b.group_owner b'.group_owner)

set-Claims :
    (agent_id group executor_id : Text) (m : Map Text GroupOwner)
    → Claims agent_id group executor_id m
        (set group (record { executor_id = executor_id; agent_id = some agent_id }) m)
set-Claims agent_id group executor_id m g = lookup-set group g _ m

assign_group-Opens :
    (b : Broker) (agent_id : Text) (cmd : Command) (r : Result ExecutorInfo)
    → Opens b agent_id cmd
        (assign_group agent_id cmd.group r b).0
        (assign_group agent_id cmd.group r b).1
        r
unfolding assign_group
assign_group-Opens b agent_id cmd (err fault) = (refl, refl)
assign_group-Opens b agent_id cmd (ok exec) =
    (refl, set-Claims agent_id cmd.group exec.id b.group_owner)

resolve_unowned-Outcome :
    (b : Broker) (agent_id : Text) (cmd : Command)
    → Outcome b agent_id cmd
        (resolve_unowned agent_id cmd b).0
        (resolve_unowned agent_id cmd b).1
        none
unfolding resolve_unowned
resolve_unowned-Outcome b agent_id cmd = elim (Bool-cases (text_eq cmd.action (codes "open"))) [
  | inl e ↦ rw e (
      inl (
        (text_eq_iff cmd.action (codes "open")).0 e,
        assign_group-Opens b agent_id cmd (pick_executor b cmd.target),
      ))
  | inr e ↦ rw e (
      inr (
        λ same.
            let yes' : text_eq cmd.action (codes "open") ≡ true =
              (text_eq_iff cmd.action (codes "open")).1 same in
            cc (e, yes'),
        refl,
        refl,
      ))
]

is_other-cases :
    (owner : Option Text) (agent_id : Text)
    → ((is_other owner agent_id ≡ true)
        × ((a : Text) × (owner ≡ some a) × (a ≢ []) × (a ≢ agent_id)))
      ⊎ ((is_other owner agent_id ≡ false)
          × ((owner ≡ none) ⊎ (owner ≡ some []) ⊎ (owner ≡ some agent_id)))
unfolding is_other
is_other-cases none agent_id = inr (refl, inl refl)
is_other-cases (some []) agent_id = inr (refl, inr (inl refl))
is_other-cases (some (c ∷ s)) agent_id = elim (Bool-cases (text_eq (c ∷ s) agent_id)) [
  | inl e ↦ rw e (inr (refl, inr (inr (ap some ((text_eq_iff (c ∷ s) agent_id).0 e)))))
  | inr e ↦ rw e (
      inl (
        refl,
        (
          c ∷ s,
          refl,
          λ empty. cc empty,
          λ same.
              let yes' : text_eq (c ∷ s) agent_id ≡ true = (text_eq_iff (c ∷ s) agent_id).1 same in
              cc (e, yes'),
        ),
      ))
]

resolve_owned-Outcome :
    (b : Broker) (agent_id : Text) (cmd : Command) (owner : GroupOwner)
    → Outcome b agent_id cmd
        (resolve_owned agent_id cmd owner b).0
        (resolve_owned agent_id cmd owner b).1
        (some owner)
unfolding resolve_owned
resolve_owned-Outcome b agent_id cmd owner = elim (is_other-cases owner.agent_id agent_id) [
  | inl (e, (a, owned, present, other)) ↦ rw e (inl (a, owned, present, other, refl, refl))
  | inr (e, free) ↦
      rw e (inr (free, refl, set-Claims agent_id cmd.group owner.executor_id b.group_owner))
]

-- Which group a command may use. A group with another owner (whose id is not empty) is denied with `group_owned`, and
-- nothing changes; the agent's own group and an orphaned one become the agent's, on the executor that
-- they have; a group without an owner is opened on the picked executor by `open` only, and any other
-- command, or a pick that fails, changes nothing. No other group changes its owner in any case.
pub resolve_executor-Outcome :
    (b : Broker) (agent_id : Text) (cmd : Command)
    → Outcome b agent_id cmd
        (resolve_executor b agent_id cmd).0
        (resolve_executor b agent_id cmd).1
        (lookup cmd.group b.group_owner)
resolve_executor-Outcome b agent_id cmd = elim (Option-cases (lookup cmd.group b.group_owner)) [
  | inl e ↦
      unfold resolve_executor in rw (e, resolve_executor) (resolve_unowned-Outcome b agent_id cmd)
  | inr (owner, e) ↦
      unfold resolve_executor in
      rw (e, resolve_executor) (resolve_owned-Outcome b agent_id cmd owner)
]
