-- ===== src/Broker/InFlight/Endings.antt =====
-- packages/opencode-browser/src/broker.ts: the ways in which a command in flight ends, against each
-- other.
use lightbridge_opencode_too.Common.{
  ◌∙◌, ap, ℕ, ◌≡◌, refl, Bool, true, none, some, [], ◌∷◌, ◌++◌, if◌then◌else◌, ltb,
}
use lightbridge_opencode_too.Common.Text.{Text, text_eq}
use lightbridge_opencode_too.Common.Js.{Value}
use lightbridge_opencode_too.Common.Maps.{lookup, beq_refl, Text_eq}
use lightbridge_opencode_too.Broker.{Broker, Pending, timeout, aborted, Result, ok, err, Reply}
use lightbridge_opencode_too.Broker.InFlight.{
  settle, expire, abort, on_timeout, on_abort, handle_result,
}
use lightbridge_opencode_too.Broker.InFlight.Once.{
  IsSettled, reply_of, task_of, abandon-IsAbandoned, handle_result-IsSettled,
}

pub data Ending : Type 0 where
  returned : Result Value → Ending
  expired : Ending
  abort_fired : Ending

-- Whether the ending can befall a command: a timer and a signal are optional.
abbrev pub can_end : Ending → Pending → Bool
can_end (returned r) p = true
can_end expired p = ltb 0 p.timer_ms
can_end abort_fired p = p.has_signal

abbrev pub outcome : Ending → Result Reply
outcome (returned r) = reply_of r
outcome expired = err timeout
outcome abort_fired = err aborted

module _ (can_send : ℕ → Bool) where
  abbrev pub finish : Ending → Text → Broker → Broker
  finish (returned r) id b = handle_result id r b
  finish expired id b = on_timeout can_send id b
  finish abort_fired id b = on_abort can_send id b

  finish-IsSettled :
      (e : Ending) (id : Text) (p : Pending) (b : Broker)
      → lookup id b.pending ≡ some p
      → can_end e p ≡ true
      → IsSettled id (outcome e) b (finish e id b)
  unfolding on_timeout on_abort expire abort
  finish-IsSettled (returned r) id p b at can = handle_result-IsSettled id r b
  finish-IsSettled expired id p b at can =
      rw at (rw can ((abandon-IsAbandoned can_send id timeout b).0))
  finish-IsSettled abort_fired id p b at can =
      rw at (rw can ((abandon-IsAbandoned can_send id aborted b).0))

  finish_unknown :
      (e : Ending) (id : Text) (b : Broker) → lookup id b.pending ≡ none → finish e id b ≡ b
  unfolding on_timeout on_abort expire abort handle_result settle
  finish_unknown (returned (ok v)) id b gone = rw gone refl
  finish_unknown (returned (err f)) id b gone = rw gone refl
  finish_unknown expired id b gone = rw gone refl
  finish_unknown abort_fired id b gone = rw gone refl

  -- The first ending of a command wins. A command in flight that ends by its result, its timer or
  -- its abort settles its waiter once, with the outcome of that ending; its entry is gone, every other
  -- command stays in flight, and no ending of it that fires later changes anything.
  pub first_ending_wins :
      (e e' : Ending) (id : Text) (p : Pending) (b : Broker)
      → lookup id b.pending ≡ some p
      → can_end e p ≡ true
      → ((finish e id b).tasks ≡ b.tasks ++ (p.waiter, outcome e) ∷ [])
        × ((j : Text)
            → lookup j (finish e id b).pending
              ≡ (if text_eq id j then none else lookup j b.pending))
        × (finish e' id (finish e id b) ≡ finish e id b)
  first_ending_wins e e' id p b at can =
      let s : IsSettled id (outcome e) b (finish e id b) = finish-IsSettled e id p b at can in
      let tasks : (finish e id b).tasks ≡ b.tasks ++ task_of (some p) (outcome e) =
        s.tasks ∙ ap (λ o. b.tasks ++ task_of o (outcome e)) at in
      let gone : lookup id (finish e id b).pending ≡ none = s.entries id ∙ rw (beq_refl id) refl in
      (tasks, s.entries, finish_unknown e' id (finish e id b) gone)
