-- ===== src/Broker/Events/Handshake.antt =====
-- packages/opencode-browser/src/broker.ts: what a connection can do before and by its handshake.
use mathlib.Core.List.{append-nil, append_assoc}
use lightbridge_opencode_too.Common.{
  ℕ, ◌≡◌, refl, ap, inl, inr, Bool, true, false, ◌||◌, Option, none, List, [], ◌∷◌, ◌++◌,
  Bool-cases, if◌then◌else◌,
}
use lightbridge_opencode_too.Common.Text.{Text, codes, text_eq}
use lightbridge_opencode_too.Common.Maps.{lookup, Text_eq, ℕ_eq}
use lightbridge_opencode_too.Broker.{Broker, Effect, send, close, rejected}
use lightbridge_opencode_too.Broker.Handlers.{Hello, adopt_rotated_token, check_token}
use lightbridge_opencode_too.Broker.Events.{
  InFrame, hello, command, result_of, pushed, ping, ignored, handle_hello, answer_hello,
  from_client, on_message,
}

-- A frame that offers the broker's token, or the one that it has been rotated to.
abbrev pub offers_token : Option Text → Text → InFrame → Bool
offers_token reloaded token (hello frame) =
    text_eq frame.token token || text_eq frame.token (adopt_rotated_token reloaded token)
offers_token reloaded token _ = false

-- The token after a frame that does not offer it.
abbrev pub token_after : Option Text → Text → InFrame → Text
token_after reloaded token (hello frame) = adopt_rotated_token reloaded token
token_after reloaded token _ = token

or_true : (p q : Bool) → p ≡ true → (p || q) ≡ true
or_true true q h = refl
or_true false q h = cc h

module _ (can_send : ℕ → Bool) where
  -- What is sent and closed after such a frame.
  abbrev pub refusal : ℕ → InFrame → List Effect
  refusal conn (hello frame) =
      (if can_send conn then send conn (rejected (codes "bad_token")) ∷ [] else [])
      ++ close conn ∷ []
  refusal conn _ = []

  from_client_unknown :
      (conn : ℕ) (frame : InFrame) (b : Broker)
      → lookup conn b.executors ≡ none
      → lookup conn b.agents ≡ none
      → from_client can_send conn frame b ≡ record b { out = b.out ++ [] }
  unfolding from_client
  from_client_unknown conn frame b no_executor no_agent =
      rw (no_executor, from_client) (rw (no_agent, from_client) (rw append-nil))

  check_token_wrong :
      (reloaded : Option Text) (token : Text) (frame : Hello)
      → offers_token reloaded token (hello frame) ≡ false
      → check_token reloaded token frame.token ≡ (adopt_rotated_token reloaded token, false)
  unfolding check_token
  check_token_wrong reloaded token frame wrong = elim (Bool-cases (text_eq frame.token token)) [
    | inl e ↦ cc (or_true _ (text_eq frame.token (adopt_rotated_token reloaded token)) e, wrong)
    | inr e ↦ rw e (ap (λ p. (adopt_rotated_token reloaded token, p)) (rw (← wrong, e) refl))
  ]

  answer_hello_wrong :
      (token : Text) (conn : ℕ) (frame : Hello) (b : Broker)
      → answer_hello can_send (token, false) conn frame b
        ≡ record b { token = token; out = b.out ++ refusal conn (hello frame) }
  unfolding answer_hello
  answer_hello_wrong token conn frame b = elim (Bool-cases (can_send conn)) [
    | inl e ↦ rw e (rw append_assoc)
    | inr e ↦ rw e refl
  ]

  -- A connection that has not been accepted can change nothing without the token. Where a connection is
  -- neither an executor's nor an agent's and its frame is not a hello frame with the broker's token or
  -- the rotated one, all that the frame does is this: a hello frame has the broker adopt the rotated token,
  -- answer with a `bad_token` rejection where the connection takes frames, and close the
  -- connection; any other frame does nothing.
  pub on_message_unauthenticated :
      (reloaded : Option Text) (conn : ℕ) (frame : InFrame) (b : Broker)
      → lookup conn b.executors ≡ none
      → lookup conn b.agents ≡ none
      → offers_token reloaded b.token frame ≡ false
      → on_message can_send reloaded conn frame b
        ≡ record b { token = token_after reloaded b.token frame; out = b.out ++ refusal conn frame }
  unfolding on_message handle_hello
  on_message_unauthenticated reloaded conn (hello frame) b no_executor no_agent wrong =
      rw (check_token_wrong reloaded b.token frame wrong)
        (answer_hello_wrong (adopt_rotated_token reloaded b.token) conn frame b)
  on_message_unauthenticated reloaded conn (command id cmd) b no_executor no_agent wrong =
      from_client_unknown conn (command id cmd) b no_executor no_agent
  on_message_unauthenticated reloaded conn (result_of id r) b no_executor no_agent wrong =
      from_client_unknown conn (result_of id r) b no_executor no_agent
  on_message_unauthenticated reloaded conn (pushed e) b no_executor no_agent wrong =
      from_client_unknown conn (pushed e) b no_executor no_agent
  on_message_unauthenticated reloaded conn ping b no_executor no_agent wrong =
      from_client_unknown conn ping b no_executor no_agent
  on_message_unauthenticated reloaded conn ignored b no_executor no_agent wrong =
      from_client_unknown conn ignored b no_executor no_agent
