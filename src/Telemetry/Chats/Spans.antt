-- ===== src/Telemetry/Chats/Spans.antt =====
-- packages/opencode-core-otel/src/recorder.ts: the spans of chats.
use lightbridge_opencode_too.Common.{
  ℕ, zero, suc, ◌+◌, ◌-◌, ◌≡◌, refl, ap, ◌∙◌, Bool, true, false, not, ◌||◌, ◌&&◌, Option, none,
  some, arith, or_else, Bool-cases, inl, inr,
}
use lightbridge_opencode_too.Common.Text.{Text, codes}
use lightbridge_opencode_too.Common.Maps.{Map, lookup, set, delete, lookup-set, beq_refl, Text_eq}
use lightbridge_opencode_too.Telemetry.{
  SessionState, ChatState, Signal, tokens_used, cost_spent, request_made, TelemetryRecorder,
}
use lightbridge_opencode_too.Telemetry.Recorder.{
  signal, end_span, is_present, ensure_session, started, after_start,
}
use lightbridge_opencode_too.Telemetry.Chats.{
  Message, Tokens, span_of_chat, count_if, count_tokens, add_usage, finalize_message, finish_if,
  with_chat, open_chat, adopt_chat, find_chat, on_message_updated, on_chat_params,
}
use lightbridge_opencode_too.Telemetry.Held.{
  is_span, span_in, held-set, held-delete, chat_span, balance, IsFair, IsFair-trans,
  balance-end_span, next_span-end_span, credit-start, balance-after_start,
}
use lightbridge_opencode_too.Telemetry.Spared.{
  IsSpared, IsSpared-IsFair, IsSpared-refl, IsSpared-trans, branch-IsFair, IsFair-refl,
  ensure_session-IsSpared, signal-IsSpared, respan-IsSpared,
}
use lightbridge_opencode_too.Telemetry.Spans.{credit_eq}

count_if-IsSpared : (k : ℕ) (s : Signal) (r : TelemetryRecorder) → IsSpared r (count_if k s r)
unfolding count_if
count_if-IsSpared zero s r = IsSpared-refl r
count_if-IsSpared (suc k) s r = signal-IsSpared s r

count_tokens-IsSpared :
    (id : Text) (o : Option Tokens) (r : TelemetryRecorder) → IsSpared r (count_tokens id o r)
unfolding count_tokens
count_tokens-IsSpared id none r = IsSpared-refl r
count_tokens-IsSpared id (some t) r =
    let a = count_if t.input (tokens_used id (codes "input") t.input) r in
    let b = count_if t.output (tokens_used id (codes "output") t.output) a in
    let c = count_if t.reasoning (tokens_used id (codes "reasoning") t.reasoning) b in
    let d = count_if t.cache_read (tokens_used id (codes "cache_read") t.cache_read) c in
    let e = count_if t.cache_write (tokens_used id (codes "cache_write") t.cache_write) d in
    IsSpared-trans r a e (count_if-IsSpared t.input _ r) (
      IsSpared-trans a b e (count_if-IsSpared t.output _ a) (
        IsSpared-trans b c e (count_if-IsSpared t.reasoning _ b) (
          IsSpared-trans c d e (count_if-IsSpared t.cache_read _ c)
            (count_if-IsSpared t.cache_write _ d))))

add_usage-IsSpared :
    (o : Option SessionState) (message : Message) (r : TelemetryRecorder)
    → lookup message.session_id r.sessions ≡ o
    → IsSpared r (add_usage o message r)
unfolding add_usage
add_usage-IsSpared none message r found = IsSpared-refl r
add_usage-IsSpared (some session) message r found =
    respan-IsSpared message.session_id session _ r found refl

-- A chat that the table holds ends with its message.
finalize_message-IsFair :
    (n : ℕ) (message : Message) (chat : ChatState) (now : ℕ) (r : TelemetryRecorder)
    → lookup message.id r.chats ≡ some chat
    → IsFair n r (finalize_message message chat now r)
unfolding finalize_message
finalize_message-IsFair n message chat now r found =
    let created = or_else message.created now in
    let completed = or_else message.completed now in
    let f = record r {
      finalized_messages = set message.id message.session_id r.finalized_messages;
      chats = delete message.id r.chats;
      response_lengths = delete message.id r.response_lengths;
    } in
    let p = count_if message.cost (cost_spent message.session_id message.cost) f in
    let t = count_tokens message.session_id message.tokens p in
    let c = signal (request_made message.session_id message.id (completed - created)) t in
    let u = add_usage (lookup message.session_id c.sessions) message c in
    let spared : IsSpared f u = IsSpared-trans f p u (count_if-IsSpared message.cost _ f) (
      IsSpared-trans p t u (count_tokens-IsSpared message.session_id message.tokens p) (
        IsSpared-trans t c u (signal-IsSpared _ t)
          (add_usage-IsSpared (lookup message.session_id c.sessions) message c refl))) in
    omega (
      arith,
      balance-end_span n chat.span u,
      credit_eq n (end_span chat.span u) r (next_span-end_span chat.span u ∙ spared.next),
      spared.balances n,
      held-delete chat_span n message.id r.chats,
      ap (span_in chat_span n) found,
    )

finish_if-IsFair :
    (n : ℕ) (o : Option ℕ) (message : Message) (chat : ChatState) (now : ℕ) (r : TelemetryRecorder)
    → lookup message.id r.chats ≡ some chat
    → IsFair n r (finish_if o message chat now r)
unfolding finish_if
finish_if-IsFair n none message chat now r found = IsFair-refl n r
finish_if-IsFair n (some t) message chat now r found =
    finalize_message-IsFair n message chat now r found

found-set :
    (id : Text) (chat : ChatState) (m : Map Text ChatState) → lookup id (set id chat m) ≡ some chat
found-set id chat m = lookup-set id id chat m ∙ rw (beq_refl id) refl

-- The pending chat of a session ends.
pub unpended-balance :
    (n : ℕ) (id : Text) (r : TelemetryRecorder)
    → balance n (end_span (span_of_chat (lookup id r.pending_chats)) r)
      ≡ balance n r + span_in chat_span n (lookup id r.pending_chats)
unpended-balance n id r =
    balance-end_span n (span_of_chat (lookup id r.pending_chats)) r
    ∙ ap (λ k. balance n r + k) (same (lookup id r.pending_chats))
  where
    same : (o : Option ChatState) → is_span n (span_of_chat o) ≡ span_in chat_span n o
    same none = unfold span_of_chat in refl
    same (some chat) = unfold span_of_chat in refl

module _ (has_tracer : Bool) where
  open_chat-IsFair :
      (n : ℕ) (message : Message) (now : ℕ) (r : TelemetryRecorder)
      → lookup message.id r.chats ≡ none
      → IsFair n r (open_chat has_tracer message now r)
  unfolding open_chat with_chat
  open_chat-IsFair n message now r gone =
      let chat : ChatState = record {
        span = started has_tracer (λ tool. false) true r.next_span;
        session_id = message.session_id;
      } in
      let s = after_start has_tracer (λ tool. false) true r in
      let x = record s { chats = set message.id chat s.chats } in
      let same : s.chats ≡ r.chats = chats-after_start (λ tool. false) r in
      let fair : IsFair n r x = omega (
        arith,
        held-set chat_span n message.id chat s.chats,
        ap (span_in chat_span n) (ap (lookup message.id) same ∙ gone),
        balance-after_start has_tracer (λ tool. false) true n r,
        credit-start has_tracer (λ tool. false) true n r,
      ) in
      IsFair-trans n r x (finish_if message.completed message chat now x) fair (
        finish_if-IsFair n message.completed message chat now x (found-set message.id chat s.chats))
    where
      chats-after_start :
          (f : Text → Bool) (r : TelemetryRecorder)
          → (after_start has_tracer f true r).chats ≡ r.chats
      chats-after_start f r = elim (Bool-cases (has_tracer && true)) [
        | inl e ↦ unfold after_start in rw e refl
        | inr e ↦ unfold after_start in rw e refl
      ]

  adopt_chat-IsFair :
      (n : ℕ) (o : Option ChatState) (message : Message) (now : ℕ) (r : TelemetryRecorder)
      → lookup message.session_id r.pending_chats ≡ o
      → lookup message.id r.chats ≡ none
      → IsFair n r (adopt_chat has_tracer o message now r)
  unfolding adopt_chat with_chat
  adopt_chat-IsFair n none message now r found gone = open_chat-IsFair n message now r gone
  adopt_chat-IsFair n (some chat) message now r found gone =
      let x = record r {
        pending_chats = delete message.session_id r.pending_chats;
        chats = set message.id chat r.chats;
      } in
      let fair : IsFair n r x = omega (
        arith,
        held-set chat_span n message.id chat r.chats,
        ap (span_in chat_span n) gone,
        held-delete chat_span n message.session_id r.pending_chats,
        ap (span_in chat_span n) found,
      ) in
      IsFair-trans n r x (finish_if message.completed message chat now x) fair (
        finish_if-IsFair n message.completed message chat now x (found-set message.id chat r.chats))

  find_chat-IsFair :
      (n : ℕ) (o : Option ChatState) (message : Message) (now : ℕ) (r : TelemetryRecorder)
      → lookup message.id r.chats ≡ o
      → IsFair n r (find_chat has_tracer o message now r)
  unfolding find_chat
  find_chat-IsFair n (some chat) message now r found =
      finish_if-IsFair n message.completed message chat now r found
  find_chat-IsFair n none message now r found =
      adopt_chat-IsFair n (lookup message.session_id r.pending_chats) message now r refl found

  pub on_message_updated-IsFair :
      (n : ℕ) (message : Message) (now : ℕ) (r : TelemetryRecorder)
      → IsFair n r (on_message_updated has_tracer message now r)
  unfolding on_message_updated
  on_message_updated-IsFair n message now r =
      let s = ensure_session message.session_id now r in
      let t = find_chat has_tracer (lookup message.id s.chats) message now s in
      branch-IsFair n r
        (not message.is_assistant || is_present (lookup message.id r.finalized_messages)) r t
        (IsFair-refl n r)
        (IsFair-trans n r s t
          (IsSpared-IsFair n r s (ensure_session-IsSpared message.session_id now r))
          (find_chat-IsFair n (lookup message.id s.chats) message now s refl))

  pub on_chat_params-IsFair :
      (n : ℕ) (id : Text) (now : ℕ) (r : TelemetryRecorder)
      → IsFair n r (on_chat_params has_tracer id now r)
  unfolding on_chat_params
  on_chat_params-IsFair n id now r =
      let s = ensure_session id now r in
      let o = span_of_chat (lookup id s.pending_chats) in
      let e = end_span o s in
      let chat : ChatState = record {
        span = started has_tracer (λ tool. false) true e.next_span;
        session_id = id;
      } in
      let x = record e { pending_chats = set id chat e.pending_chats } in
      let y = after_start has_tracer (λ tool. false) true x in
      let fair : IsFair n s y = omega (
        arith,
        unpended-balance n id s,
        held-set chat_span n id chat e.pending_chats,
        ap (λ m. span_in chat_span n (lookup id m)) (pending-end_span o s),
        credit_eq n e s (next_span-end_span o s),
        balance-after_start has_tracer (λ tool. false) true n x,
        credit-start has_tracer (λ tool. false) true n x,
      ) in
      IsFair-trans n r s y (IsSpared-IsFair n r s (ensure_session-IsSpared id now r)) fair
    where
      pending-end_span :
          (o : Option ℕ) (r : TelemetryRecorder) → (end_span o r).pending_chats ≡ r.pending_chats
      pending-end_span none r = unfold end_span in refl
      pending-end_span (some m) r = unfold end_span in refl
