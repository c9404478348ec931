-- ===== src/Telemetry/Lifecycle/Shutdown.antt =====
-- packages/opencode-core-otel/src/recorder.ts: the shutdown ends every span that is held.
use lightbridge_opencode_too.Common.{
  ℕ, ◌≡◌, refl, ap, ◌∙◌, Option, none, some, List, [], ◌∷◌, ◌++◌, arith,
}
use lightbridge_opencode_too.Common.Text.{Text}
use lightbridge_opencode_too.Common.Maps.{Map, values, Text_eq}
use lightbridge_opencode_too.Telemetry.{SessionState, ToolSpanState, ChatState, TelemetryRecorder}
use lightbridge_opencode_too.Telemetry.Recorder.{signal, end_span, settle, settle_active_time}
use lightbridge_opencode_too.Telemetry.Held.{
  is_span, times_ended, held, held_in, held-values, held_in-append, session_span, chat_span,
  tool_held, balance, IsFair,
}
use lightbridge_opencode_too.Telemetry.Spans.{credit_eq}
use lightbridge_opencode_too.Telemetry.Lifecycle.{
  end_each_session, end_each_chat, end_each_tool, shutdown,
}
use lightbridge_opencode_too.Telemetry.Lifecycle.Spans.{
  IsEnding, end_span-IsEnding, IsEnding-zero, IsEnding-trans, sessions-end_span,
}

settle-IsEnding :
    (n : ℕ) (o : Option ℕ) (id : Text) (state : SessionState) (now : ℕ) (r : TelemetryRecorder)
    → IsEnding n 0 r (settle o id state now r)
unfolding settle signal
settle-IsEnding n none id state now r = IsEnding-zero n r
settle-IsEnding n (some since) id state now r = record {
  more = omega arith;
  chats = refl;
  pending = refl;
  tools = refl;
  next = refl;
}

settled-IsEnding :
    (n k : ℕ) (r s t : TelemetryRecorder) → IsEnding n 0 r s → IsEnding n k s t → IsEnding n k r t
settled-IsEnding n k r s t a b = record {
  more = omega (arith, a.more, b.more);
  chats = b.chats ∙ a.chats;
  pending = b.pending ∙ a.pending;
  tools = b.tools ∙ a.tools;
  next = b.next ∙ a.next;
}

end_each_session-IsEnding :
    (n : ℕ) (m : Map Text SessionState) (now : ℕ) (r : TelemetryRecorder)
    → IsEnding n (held session_span n m) r (end_each_session m now r)
unfolding end_each_session held settle_active_time
end_each_session-IsEnding n [] now r = IsEnding-zero n r
end_each_session-IsEnding n ((id, state) ∷ m) now r =
    let s = settle_active_time (some state) id now r in
    let e = end_span state.span s in
    IsEnding-trans n (is_span n state.span) (held session_span n m) r e (end_each_session m now e)
      (settled-IsEnding n (is_span n state.span) r s e
        (settle-IsEnding n state.busy_since id state now r) (end_span-IsEnding n state.span s))
      (end_each_session-IsEnding n m now e)

end_each_chat-IsEnding :
    (n : ℕ) (chats : List ChatState) (r : TelemetryRecorder)
    → IsEnding n (held_in chat_span n chats) r (end_each_chat chats r)
unfolding end_each_chat held_in
end_each_chat-IsEnding n [] r = IsEnding-zero n r
end_each_chat-IsEnding n (chat ∷ chats) r =
    let e = end_span chat.span r in
    IsEnding-trans n (is_span n chat.span) (held_in chat_span n chats) r e (end_each_chat chats e)
      (end_span-IsEnding n chat.span r) (end_each_chat-IsEnding n chats e)

end_each_tool-IsEnding :
    (n : ℕ) (tools : List ToolSpanState) (r : TelemetryRecorder)
    → IsEnding n (held_in tool_held n tools) r (end_each_tool tools r)
unfolding end_each_tool held_in
end_each_tool-IsEnding n [] r = IsEnding-zero n r
end_each_tool-IsEnding n (tool ∷ tools) r =
    let e = end_span tool.span r in
    IsEnding-trans n (is_span n tool.span) (held_in tool_held n tools) r e (end_each_tool tools e)
      (end_span-IsEnding n tool.span r) (end_each_tool-IsEnding n tools e)

sessions-end_each_chat :
    (chats : List ChatState) (r : TelemetryRecorder) → (end_each_chat chats r).sessions ≡ r.sessions
unfolding end_each_chat
sessions-end_each_chat [] r = refl
sessions-end_each_chat (chat ∷ chats) r =
    sessions-end_each_chat chats (end_span chat.span r) ∙ sessions-end_span chat.span r

sessions-end_each_tool :
    (tools : List ToolSpanState) (r : TelemetryRecorder)
    → (end_each_tool tools r).sessions ≡ r.sessions
unfolding end_each_tool
sessions-end_each_tool [] r = refl
sessions-end_each_tool (tool ∷ tools) r =
    sessions-end_each_tool tools (end_span tool.span r) ∙ sessions-end_span tool.span r

-- Each span is then ended as often as it was ended or held before, and none is held.
pub shutdown-ended :
    (n now : ℕ) (r : TelemetryRecorder)
    → (times_ended n (shutdown now r).ended ≡ balance n r) × IsFair n r (shutdown now r)
unfolding shutdown held
shutdown-ended n now r =
    let s = end_each_session r.sessions now r in
    let s' = record s { sessions = [] } in
    let chats = values s.chats ++ values s.pending_chats in
    let c = end_each_chat chats s' in
    let c' = record c { chats = []; pending_chats = [] } in
    let t = end_each_tool (values c.tools) c' in
    let es = end_each_session-IsEnding n r.sessions now r in
    let ec = end_each_chat-IsEnding n chats s' in
    let et = end_each_tool-IsEnding n (values c.tools) c' in
    let all : times_ended n t.ended ≡ balance n r = omega (
      arith,
      es.more,
      ec.more,
      et.more,
      held_in-append chat_span n (values s.chats) (values s.pending_chats),
      held-values chat_span n s.chats,
      held-values chat_span n s.pending_chats,
      held-values tool_held n c.tools,
      ap (held chat_span n) es.chats,
      ap (held chat_span n) es.pending,
      ap (held tool_held n) (ec.tools ∙ es.tools),
    ) in
    (
      all,
      omega (
        arith,
        all,
        ap (held chat_span n) et.chats,
        ap (held chat_span n) et.pending,
        ap (held session_span n)
            (sessions-end_each_tool (values c.tools) c' ∙ sessions-end_each_chat chats s'),
        credit_eq n t r (et.next ∙ ec.next ∙ es.next),
      ),
    )
