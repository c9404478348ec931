-- ===== src/Broker/InFlight/Once.antt =====
-- Every command is settled once, by the first of its result, its timeout, its abort, and the loss of
-- its agent or executor.
use mathlib.Core.List.{append-nil}
use lightbridge_opencode_too.Common.{
  ℕ, ◌≡◌, refl, inl, inr, Bool, Option, none, some, List, [], ◌∷◌, ◌++◌, Bool-cases, if◌then◌else◌,
}
use lightbridge_opencode_too.Common.Text.{Text, text_eq, text_eq_iff}
use lightbridge_opencode_too.Common.Js.{Value}
use lightbridge_opencode_too.Common.Maps.{Map, lookup, lookup-delete, Text_eq}
use lightbridge_opencode_too.Broker.{
  Broker, ExecutorInfo, Pending, Waiter, Fault, Result, ok, err, Reply, received, Effect, send,
  cancel, safe_send, emit,
}
use lightbridge_opencode_too.Broker.InFlight.{
  settle, settle_reject, cancel_to, cancel_on_executor, abandon, handle_result,
}

-- The task that a settled command leaves.
abbrev pub task_of : Option Pending → Result Reply → List (Waiter × Result Reply)
task_of none r = []
task_of (some p) r = (p.waiter, r) ∷ []

-- Entry `id` is gone and its waiter has the outcome, if there was one; every other entry stays.
pub record IsSettled (id : Text) (r : Result Reply) (b b' : Broker) : Type 0 where
  pub entries :
      (j : Text) → lookup j b'.pending ≡ (if text_eq id j then none else lookup j b.pending)
  pub tasks : b'.tasks ≡ b.tasks ++ task_of (lookup id b.pending) r

lookup-none :
    (id j : Text) (m : Map Text Pending)
    → lookup id m ≡ none
    → lookup j m ≡ (if text_eq id j then none else lookup j m)
lookup-none id j m e = elim (Bool-cases (text_eq id j)) [
  | inl same ↦ rw same (rw (← (text_eq_iff id j).0 same) e)
  | inr apart ↦ rw apart refl
]

settle-IsSettled :
    (o : Option Pending) (id : Text) (r : Result Reply) (b : Broker)
    → lookup id b.pending ≡ o
    → IsSettled id r b (settle o id r b)
unfolding settle
settle-IsSettled none id r b e = record {
  entries = λ j. lookup-none id j b.pending e;
  tasks = rw (e, append-nil);
}
settle-IsSettled (some p) id r b e = record {
  entries = λ j. lookup-delete id j b.pending;
  tasks = rw e;
}

-- The outcome that a result frame carries.
abbrev pub reply_of : Result Value → Result Reply
reply_of (ok v) = ok (received v)
reply_of (err e) = err e

pub handle_result-IsSettled :
    (id : Text) (r : Result Value) (b : Broker) → IsSettled id (reply_of r) b (handle_result id r b)
unfolding handle_result
handle_result-IsSettled id (ok v) b = settle-IsSettled _ id (ok (received v)) b refl
handle_result-IsSettled id (err e) b = settle-IsSettled _ id (err e) b refl

settle-out :
    (o : Option Pending) (id : Text) (r : Result Reply) (b : Broker) → (settle o id r b).out ≡ b.out
unfolding settle
settle-out none id r b = refl
settle-out (some p) id r b = refl

module _ (can_send : ℕ → Bool) where
  -- The cancel frame of an abandoned command, where its executor is connected and takes frames.
  abbrev pub cancels_to : Option ExecutorInfo → Text → List Effect
  cancels_to none id = []
  cancels_to (some exec) id = if can_send exec.conn then send exec.conn (cancel id) ∷ [] else []

  abbrev pub cancel_of : Option Pending → Text → Broker → List Effect
  cancel_of none id b = []
  cancel_of (some p) id b = cancels_to (lookup p.executor_id b.executor_by_id) id

  cancel_to_lem :
      (o : Option ExecutorInfo) (id : Text) (b : Broker)
      → cancel_to can_send o id b ≡ record b { out = b.out ++ cancels_to o id }
  unfolding cancel_to safe_send emit
  cancel_to_lem none id b = rw append-nil
  cancel_to_lem (some exec) id b = elim (Bool-cases (can_send exec.conn)) [
    | inl e ↦ rw e
    | inr e ↦ rw (e, append-nil)
  ]

  cancel_on_executor_lem :
      (o : Option Pending) (id : Text) (b : Broker)
      → cancel_on_executor can_send o id b ≡ record b { out = b.out ++ cancel_of o id b }
  unfolding cancel_on_executor
  cancel_on_executor_lem none id b = rw append-nil
  cancel_on_executor_lem (some p) id b = cancel_to_lem _ id b

  -- What giving up on command `id` does: the command is settled with the fault, and a cancel frame is
  -- sent where `cancel_of` says so.
  abbrev pub IsAbandoned : Text → Fault → Broker → Broker → Type 0
  IsAbandoned id fault b b' =
      IsSettled id (err fault) b b' × (b'.out ≡ b.out ++ cancel_of (lookup id b.pending) id b)

  pub abandon-IsAbandoned :
      (id : Text) (fault : Fault) (b : Broker)
      → IsAbandoned id fault b (abandon can_send id fault b)
  unfolding abandon settle_reject
  abandon-IsAbandoned id fault b = rw (cancel_on_executor_lem (lookup id b.pending) id b) (
      let c = record b { out = b.out ++ cancel_of (lookup id b.pending) id b } in
      let s : IsSettled id (err fault) c (settle (lookup id b.pending) id (err fault) c) =
        settle-IsSettled _ id (err fault) c refl in
      (
        record { entries = s.entries; tasks = s.tasks },
        settle-out (lookup id b.pending) id (err fault) c,
      ))
