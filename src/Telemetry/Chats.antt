-- ===== src/Telemetry/Chats.antt =====
-- packages/opencode-core-otel/src/recorder.ts: the requests to a provider, from `chat.params` to the
-- assistant's finished message.
pub mod Spans
use lightbridge_opencode_too.Common.{
  ℕ, zero, suc, ◌+◌, ◌-◌, Bool, true, false, not, ◌||◌, Option, none, some, [], ◌∷◌, if◌then◌else◌,
  or_else,
}
use lightbridge_opencode_too.Common.Text.{Text, codes}
use lightbridge_opencode_too.Common.Maps.{Map, lookup, set, delete, Text_eq}
use lightbridge_opencode_too.Telemetry.{
  SessionState, ChatState, Signal, tokens_used, cost_spent, request_made, TelemetryRecorder,
}
use lightbridge_opencode_too.Telemetry.Recorder.{
  signal, end_span, is_present, ensure_session, started, after_start,
}

pub record Tokens : Type 0 where
  pub input : ℕ
  pub output : ℕ
  pub reasoning : ℕ
  pub cache_read : ℕ
  pub cache_write : ℕ

-- A message; `cost` is 0 where the host gives none.
pub record Message : Type 0 where
  pub id : Text
  pub session_id : Text
  pub is_assistant : Bool
  pub cost : ℕ
  pub tokens : Option Tokens
  pub created : Option ℕ
  pub completed : Option ℕ

unfoldable pub span_of_chat : Option ChatState → Option ℕ
span_of_chat none = none
span_of_chat (some chat) = chat.span

count_if : ℕ → Signal → TelemetryRecorder → TelemetryRecorder
unfolding signal
count_if zero s r = r
count_if (suc n) s r = signal s r

count_tokens : Text → Option Tokens → TelemetryRecorder → TelemetryRecorder
unfolding count_if
count_tokens session_id none r = r
count_tokens session_id (some t) r =
    count_if t.cache_write (tokens_used session_id (codes "cache_write") t.cache_write) (
      count_if t.cache_read (tokens_used session_id (codes "cache_read") t.cache_read) (
        count_if t.reasoning (tokens_used session_id (codes "reasoning") t.reasoning) (
          count_if t.output (tokens_used session_id (codes "output") t.output)
            (count_if t.input (tokens_used session_id (codes "input") t.input) r))))

input_of : Option Tokens → ℕ
input_of none = 0
input_of (some t) = t.input

output_of : Option Tokens → ℕ
output_of none = 0
output_of (some t) = t.output

add_usage : Option SessionState → Message → TelemetryRecorder → TelemetryRecorder
unfolding input_of output_of
add_usage none message r = r
add_usage (some session) message r = record r {
  sessions =
      set message.session_id
        (record session {
          requests = suc session.requests;
          cost = session.cost + message.cost;
          input_tokens = session.input_tokens + input_of message.tokens;
          output_tokens = session.output_tokens + output_of message.tokens;
        })
        r.sessions;
}

unfoldable pub finalize_message : Message → ChatState → ℕ → TelemetryRecorder → TelemetryRecorder
unfolding count_tokens count_if signal add_usage end_span
finalize_message message chat now r =
    let created = or_else message.created now in
    let completed = or_else message.completed now in
    let forgotten = record r {
      finalized_messages = set message.id message.session_id r.finalized_messages;
      chats = delete message.id r.chats;
      response_lengths = delete message.id r.response_lengths;
    } in
    let priced = count_if message.cost (cost_spent message.session_id message.cost) forgotten in
    let counted =
      signal (request_made message.session_id message.id (completed - created))
        (count_tokens message.session_id message.tokens priced) in
    end_span chat.span (add_usage (lookup message.session_id counted.sessions) message counted)

finish_if : Option ℕ → Message → ChatState → ℕ → TelemetryRecorder → TelemetryRecorder
unfolding finalize_message
finish_if none message chat now r = r
finish_if (some completed) message chat now r = finalize_message message chat now r

-- The message has a chat, which is stored under its id.
with_chat : Message → ChatState → ℕ → TelemetryRecorder → TelemetryRecorder
unfolding finish_if
with_chat message chat now r =
    finish_if message.completed message chat now (record r { chats = set message.id chat r.chats })

module _ (has_tracer : Bool) where
  open_chat : Message → ℕ → TelemetryRecorder → TelemetryRecorder
  unfolding with_chat started after_start
  open_chat message now r =
      with_chat message
        (record {
          span = started has_tracer (λ tool. false) true r.next_span;
          session_id = message.session_id;
        })
        now (after_start has_tracer (λ tool. false) true r)

  -- The chat that `chat.params` opened for the session, or a new one.
  adopt_chat : Option ChatState → Message → ℕ → TelemetryRecorder → TelemetryRecorder
  unfolding with_chat open_chat
  adopt_chat (some chat) message now r =
      with_chat message chat now
        (record r { pending_chats = delete message.session_id r.pending_chats })
  adopt_chat none message now r = open_chat message now r

  find_chat : Option ChatState → Message → ℕ → TelemetryRecorder → TelemetryRecorder
  unfolding adopt_chat finish_if
  find_chat (some chat) message now r = finish_if message.completed message chat now r
  find_chat none message now r =
      adopt_chat (lookup message.session_id r.pending_chats) message now r

  unfoldable pub on_message_updated : Message → ℕ → TelemetryRecorder → TelemetryRecorder
  unfolding find_chat ensure_session is_present
  on_message_updated message now r =
      let s = ensure_session message.session_id now r in
      if not message.is_assistant || is_present (lookup message.id r.finalized_messages)
      then r
      else find_chat (lookup message.id s.chats) message now s

  unfoldable pub on_chat_params : Text → ℕ → TelemetryRecorder → TelemetryRecorder
  unfolding ensure_session end_span span_of_chat started after_start
  on_chat_params session_id now r =
      let s = ensure_session session_id now r in
      let e = end_span (span_of_chat (lookup session_id s.pending_chats)) s in
      after_start has_tracer (λ tool. false) true
        (record e {
          pending_chats =
              set session_id
                (record {
                  span = started has_tracer (λ tool. false) true e.next_span;
                  session_id = session_id;
                })
                e.pending_chats;
        })

-- The length of a text that is complete, where there is one.
unfoldable pub on_text_complete : Text → Option ℕ → TelemetryRecorder → TelemetryRecorder
on_text_complete message_id none r = r
on_text_complete message_id (some length) r = record r {
  response_lengths =
      set message_id (or_else (lookup message_id r.response_lengths) 0 + length) r.response_lengths;
}
