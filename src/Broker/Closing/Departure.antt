-- ===== src/Broker/Closing/Departure.antt =====
-- packages/opencode-browser/src/broker.ts: what the closed connection of an extension leaves.
use lightbridge_opencode_too.Common.{ℕ, ◌≡◌, ◌≢◌, ◌⊎◌, false, none, List, [], ◌∷◌, All}
use lightbridge_opencode_too.Common.Text.{Text}
use lightbridge_opencode_too.Common.Maps.{Map, lookup, delete, Text_eq, ℕ_eq}
use lightbridge_opencode_too.Broker.{Broker, GroupOwner, Pending, Waiter, Result, Reply}
use lightbridge_opencode_too.Broker.Routing.{is_owned_by}
use lightbridge_opencode_too.Broker.Closing.{drop_groups}

abbrev pub NotOn : Text → Text × Pending → Type 0
NotOn id x = x.1.executor_id ≢ id

abbrev pub NotOwnedOn : Text → Text × GroupOwner → Type 0
NotOwnedOn id x = x.1.executor_id ≢ id

-- A command that is not on the executor, or is still to be rejected.
abbrev Awaits : Text → List (Text × Pending) → Text × Pending → Type 0
Awaits id [] x = NotOn id x
Awaits id (y ∷ ps) x = (x ≡ y) ⊎ Awaits id ps x

abbrev in_flight : Map Text Pending → List (Waiter × Result Reply) → Broker → Broker
in_flight ps ts b = record b { pending = ps; tasks = ts }

-- The executor is not known any more, is not the primary, and has no groups and no commands in flight.
pub record IsForgotten (id : Text) (b : Broker) : Type 0 where
  pub unknown : lookup id b.executor_by_id ≡ none
  pub no_primary : is_owned_by id b.primary_executor_id ≡ false
  pub no_groups : All (NotOwnedOn id) b.group_owner
  pub no_commands : All (NotOn id) b.pending

-- The tables without the executor, before its commands are rejected.
abbrev untabled : Text → ℕ → Broker → Broker
untabled id conn b = record b {
  executors = delete conn b.executors;
  executor_by_id = delete id b.executor_by_id;
  group_owner = drop_groups id b.group_owner;
}
