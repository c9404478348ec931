-- ===== src/Broker/Handlers/Registration.antt =====
-- packages/opencode-browser/src/broker.ts: how `handleHello` enters an extension into the tables.
use lightbridge_opencode_too.Common.{
  ℕ, ◌≡◌, refl, ap, ◌∙◌, inl, inr, Bool, true, false, Option, none, some, ◌==◌, Bool-cases,
  if◌then◌else◌, arith, ==_iff,
}
use lightbridge_opencode_too.Common.Text.{Text, text_eq}
use lightbridge_opencode_too.Common.Maps.{
  lookup, set, lookup-set, lookup-delete, beq_refl, Text_eq, ℕ_eq,
}
use lightbridge_opencode_too.Broker.{Broker, ExecutorInfo, emit}
use lightbridge_opencode_too.Broker.Handlers.{
  replace_stale, is_connected, elect_primary, register_executor,
}

-- Whether `c` is the connection of the executor that had the id.
abbrev pub is_conn_of : Option ExecutorInfo → ℕ → Bool
is_conn_of none c = false
is_conn_of (some prior) c = prior.conn == c

record IsReplaced (o : Option ExecutorInfo) (conn : ℕ) (b b' : Broker) : Type 0 where
  connections :
      (c : ℕ)
      → (if conn == c then none else lookup c b'.executors)
        ≡ (if conn == c then none else if is_conn_of o c then none else lookup c b.executors)
  rest : b' ≡ record b { executors = b'.executors; out = b'.out }

replace_stale-IsReplaced :
    (o : Option ExecutorInfo) (conn : ℕ) (b : Broker) → IsReplaced o conn b (replace_stale o conn b)
unfolding replace_stale emit
replace_stale-IsReplaced none conn b = record { connections = λ c. refl; rest = refl }
replace_stale-IsReplaced (some prior) conn b = elim (Bool-cases (prior.conn == conn)) [
  | inl e ↦
      rw e (record { connections = λ c. ground (arith, (==_iff prior.conn conn).0 e); rest = refl })
  | inr e ↦ rw e (record {
    connections = λ c. ground (arith, lookup-delete prior.conn c b.executors);
    rest = refl;
  })
]

pub record IsRegistered (info : ExecutorInfo) (b b' : Broker) : Type 0 where
  pub by_id :
      (id : Text)
      → lookup id b'.executor_by_id
        ≡ (if text_eq info.id id then some info else lookup id b.executor_by_id)
  pub connections :
      (c : ℕ)
      → lookup c b'.executors ≡ (
          if info.conn == c
          then some info
          else if is_conn_of (lookup info.id b.executor_by_id) c
          then none
          else lookup c b.executors)
  pub primary : is_connected b'.primary_executor_id b'.executor_by_id ≡ true
  pub rest : b' ≡ record b {
    executors = b'.executors;
    executor_by_id = b'.executor_by_id;
    primary_executor_id = b'.primary_executor_id;
    out = b'.out;
  }

-- The entry of an extension before the primary is elected.
abbrev pub entered : ExecutorInfo → Broker → Broker
entered info b = record b {
  executors = set info.conn info b.executors;
  executor_by_id = set info.id info b.executor_by_id;
}

elect_primary-connected :
    (info : ExecutorInfo) (b : Broker)
    → lookup info.id b.executor_by_id ≡ some info
    → (is_connected (elect_primary info.id b).primary_executor_id b.executor_by_id ≡ true)
      × (elect_primary info.id b
          ≡ record b { primary_executor_id = (elect_primary info.id b).primary_executor_id })
unfolding elect_primary is_connected
elect_primary-connected info b at =
    elim (Bool-cases (is_connected b.primary_executor_id b.executor_by_id)) [
      | inl e ↦ rw e (e, refl)
      | inr e ↦ rw e (rw (at, is_connected) refl, refl)
    ]

-- The entry of an extension beside the frames and the connections of another state.
abbrev retabled : Option Text → Broker → ExecutorInfo → Broker → Broker
retabled primary c info b = record b {
  executors = set info.conn info c.executors;
  executor_by_id = set info.id info c.executor_by_id;
  primary_executor_id = primary;
  out = c.out;
}

-- An extension that connects is found under its id and its connection; the connection that had its id
-- before is forgotten, and every other id and connection stays as it was. The primary executor is a
-- connected one afterwards. Nothing else changes but what is sent and closed.
pub register_executor-IsRegistered :
    (info : ExecutorInfo) (b : Broker) → IsRegistered info b (register_executor info b)
unfolding register_executor
register_executor-IsRegistered info b =
    let c = replace_stale (lookup info.id b.executor_by_id) info.conn b in
    let r : IsReplaced (lookup info.id b.executor_by_id) info.conn b c =
      replace_stale-IsReplaced (lookup info.id b.executor_by_id) info.conn b in
    let ids : c.executor_by_id ≡ b.executor_by_id = ap (λ x. x.executor_by_id) r.rest in
    let at : lookup info.id (set info.id info c.executor_by_id) ≡ some info =
      lookup-set info.id info.id info c.executor_by_id ∙ rw (beq_refl info.id) refl in
    let e = elect_primary-connected info (entered info c) at in
    rw e.1 (record {
      by_id = λ id. rw ids (lookup-set info.id id info b.executor_by_id);
      connections =
          λ k. rw (lookup-set info.conn k info c.executors) (ground (arith, r.connections k));
      primary = e.0;
      rest =
          ap (retabled (elect_primary info.id (entered info c)).primary_executor_id c info) r.rest;
    })
