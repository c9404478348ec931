-- ===== src/Telemetry/Lifecycle.antt =====
-- packages/opencode-core-otel/src/recorder.ts: the end of a session, the shutdown, and all events and
-- hooks together. `onSessionError`, the prompts, the todo lists and the continuation of a compaction only
-- make sure that the session has a state, and log.
pub mod Spans
pub mod Shutdown
pub mod Events
pub mod Forgotten
use lightbridge_opencode_too.Common.{
  ℕ, suc, ◌+◌, Bool, true, false, Option, none, some, List, [], ◌∷◌, ◌++◌, ◌==◌, if◌then◌else◌,
  length,
}
use lightbridge_opencode_too.Common.Text.{starts_with, Text, text_eq}
use lightbridge_opencode_too.Common.Maps.{Map, lookup, delete, values, Text_eq}
use lightbridge_opencode_too.Telemetry.{
  SessionState, ToolSpanState, ChatState, Diff, command_run, TelemetryRecorder,
}
use lightbridge_opencode_too.Telemetry.Recorder.{
  diff_key, signal, end_span, ensure_session, settle_active_time, span_of, prune_completed,
  on_session_idle, Status, on_session_status, on_compacted, FileDiff, on_session_diff,
  on_tool_after, ToolPart, on_part_updated, started, after_start, on_session_created,
  on_tool_before,
}
use lightbridge_opencode_too.Telemetry.Chats.{
  Message, span_of_chat, on_message_updated, on_chat_params, on_text_complete,
}
use lightbridge_opencode_too.Telemetry.Permissions.{
  without_id, on_permission_updated, on_permission_replied, on_permission_ask,
}

-- The chats of a session end, and are dropped.
pub end_chats : Text → Map Text ChatState → TelemetryRecorder → TelemetryRecorder
unfolding end_span
end_chats session_id [] r = r
end_chats session_id ((id, chat) ∷ m) r =
    end_chats session_id m (if text_eq chat.session_id session_id then end_span chat.span r else r)

other_chats : Text → Map Text ChatState → Map Text ChatState
other_chats session_id [] = []
other_chats session_id ((id, chat) ∷ m) =
    let rest = other_chats session_id m in
    if text_eq chat.session_id session_id then rest else (id, chat) ∷ rest

pub end_tools : Text → Map Text ToolSpanState → TelemetryRecorder → TelemetryRecorder
unfolding end_span
end_tools session_id [] r = r
end_tools session_id ((id, tool) ∷ m) r =
    end_tools session_id m (if text_eq tool.session_id session_id then end_span tool.span r else r)

other_tools : Text → Map Text ToolSpanState → Map Text ToolSpanState
other_tools session_id [] = []
other_tools session_id ((id, tool) ∷ m) =
    let rest = other_tools session_id m in
    if text_eq tool.session_id session_id then rest else (id, tool) ∷ rest

-- The keys with the prefix of the session, which is its key for the empty file name.
other_diffs : Text → Map Text Diff → Map Text Diff
unfolding starts_with diff_key
other_diffs session_id [] = []
other_diffs session_id ((key, d) ∷ m) =
    let rest = other_diffs session_id m in
    if starts_with (diff_key session_id []) key then rest else (key, d) ∷ rest

other_permissions : Text → Map Text (Text × Text) → Map Text (Text × Text)
other_permissions session_id [] = []
other_permissions session_id ((id, (type, owner)) ∷ m) =
    let rest = other_permissions session_id m in
    if text_eq owner session_id then rest else (id, (type, owner)) ∷ rest

undecided : Text → Map Text (Text × Text) → List Text → List Text
unfolding without_id
undecided session_id [] ids = ids
undecided session_id ((id, (type, owner)) ∷ m) ids =
    undecided session_id m (if text_eq owner session_id then without_id id ids else ids)

end_session : Option SessionState → Text → ℕ → TelemetryRecorder → TelemetryRecorder
unfolding settle_active_time end_span
end_session none id now r = r
end_session (some state) id now r =
    let ended = end_span state.span (settle_active_time (some state) id now r) in
    record ended { sessions = delete id ended.sessions }

unfoldable pub forget_session : Text → ℕ → TelemetryRecorder → TelemetryRecorder
unfolding end_session end_span span_of_chat end_chats other_chats end_tools other_tools other_diffs
    other_permissions undecided prune_completed
forget_session id now r =
    let s = end_session (lookup id r.sessions) id now r in
    let p = end_span (span_of_chat (lookup id s.pending_chats)) s in
    let c = end_chats id p.chats (record p { pending_chats = delete id p.pending_chats }) in
    let t = end_tools id c.tools (record c { chats = other_chats id c.chats }) in
    prune_completed id (record t {
      tools = other_tools id t.tools;
      diffs = other_diffs id t.diffs;
      permissions = other_permissions id t.permissions;
      auto_decided = undecided id t.permissions t.auto_decided;
    })

end_each_session : Map Text SessionState → ℕ → TelemetryRecorder → TelemetryRecorder
unfolding settle_active_time end_span
end_each_session [] now r = r
end_each_session ((id, state) ∷ m) now r =
    end_each_session m now (end_span state.span (settle_active_time (some state) id now r))

end_each_chat : List ChatState → TelemetryRecorder → TelemetryRecorder
unfolding end_span
end_each_chat [] r = r
end_each_chat (chat ∷ chats) r = end_each_chat chats (end_span chat.span r)

end_each_tool : List ToolSpanState → TelemetryRecorder → TelemetryRecorder
unfolding end_span
end_each_tool [] r = r
end_each_tool (tool ∷ tools) r = end_each_tool tools (end_span tool.span r)

unfoldable pub shutdown : ℕ → TelemetryRecorder → TelemetryRecorder
unfolding end_each_session end_each_chat end_each_tool values
shutdown now r =
    let s = end_each_session r.sessions now r in
    let c = end_each_chat (values s.chats ++ values s.pending_chats) (record s { sessions = [] }) in
    let t = end_each_tool (values c.tools) (record c { chats = []; pending_chats = [] }) in
    record t { tools = [] }

-- The span of the only chat under way.
only_span : List ChatState → Option ℕ
only_span (chat ∷ []) = chat.span
only_span _ = none

unfoldable pub current_chat_context : TelemetryRecorder → Option ℕ
unfolding only_span values
current_chat_context r = only_span (values r.pending_chats ++ values r.chats)

-- `pendingStateSize`, in the order of its fields.
unfoldable pub pending_state_size : TelemetryRecorder → List ℕ
pending_state_size r =
    length r.sessions
    ∷ length r.chats
    ∷ length r.pending_chats
    ∷ length r.tools
    ∷ length r.finalized_messages
    ∷ length r.finished_tools
    ∷ length r.permissions
    ∷ length r.diffs
    ∷ []

-- The events and hooks that change the state.
pub data RecorderEvent : Type 0 where
  session_created session_idle session_compacted session_logged session_deleted :
      (session_id : Text) → RecorderEvent
  session_status : (session_id : Text) → Status → RecorderEvent
  session_diff : (session_id : Text) → List FileDiff → RecorderEvent
  message_updated : Message → RecorderEvent
  part_updated : ToolPart → RecorderEvent
  permission_updated : (permission_id type session_id : Text) → RecorderEvent
  permission_replied : (session_id permission_id response : Text) → RecorderEvent
  permission_asked : (session_id permission_id type : Text) → (status : Option Text) → RecorderEvent
  command_executed : (session_id name : Text) → RecorderEvent
  chat_params : (session_id : Text) → RecorderEvent
  text_complete : (message_id : Text) → Option ℕ → RecorderEvent
  tool_before tool_after : (session_id call_id tool : Text) → RecorderEvent
  disposed : RecorderEvent

module _ (has_tracer : Bool) (is_filtered : Text → Bool) where
  -- A compaction has a span of its own, which ends at once.
  compaction_span : TelemetryRecorder → TelemetryRecorder
  unfolding started after_start end_span
  compaction_span r =
      end_span (started has_tracer is_filtered true r.next_span)
        (after_start has_tracer is_filtered true r)

  unfoldable pub on_event : RecorderEvent → ℕ → TelemetryRecorder → TelemetryRecorder
  unfolding on_session_created on_session_idle on_compacted compaction_span ensure_session
      forget_session on_session_status on_session_diff on_message_updated on_part_updated
      on_permission_updated on_permission_replied on_permission_ask signal on_chat_params
      on_text_complete on_tool_before on_tool_after shutdown
  on_event (session_created id) now r = on_session_created has_tracer is_filtered id now r
  on_event (session_idle id) now r = on_session_idle id now r
  on_event (session_compacted id) now r = compaction_span (on_compacted id now r)
  on_event (session_logged id) now r = ensure_session id now r
  on_event (session_deleted id) now r = forget_session id now r
  on_event (session_status id status) now r = on_session_status id status now r
  on_event (session_diff id entries) now r = on_session_diff id entries now r
  on_event (message_updated message) now r = on_message_updated has_tracer message now r
  on_event (part_updated part) now r = on_part_updated part now r
  on_event (permission_updated id type session_id) now r =
      on_permission_updated id type session_id r
  on_event (permission_replied session_id id response) now r =
      on_permission_replied session_id id response now r
  on_event (permission_asked session_id id type status) now r =
      on_permission_ask session_id id type status now r
  on_event (command_executed session_id name) now r =
      signal (command_run session_id name) (ensure_session session_id now r)
  on_event (chat_params session_id) now r = on_chat_params has_tracer session_id now r
  on_event (text_complete message_id length) now r = on_text_complete message_id length r
  on_event (tool_before session_id call_id tool) now r =
      on_tool_before has_tracer is_filtered session_id call_id tool now r
  on_event (tool_after session_id call_id tool) now r = on_tool_after call_id tool session_id now r
  on_event disposed now r = shutdown now r

  unfoldable pub run_events : List (RecorderEvent × ℕ) → TelemetryRecorder → TelemetryRecorder
  unfolding on_event
  run_events [] r = r
  run_events ((e, now) ∷ es) r = run_events es (on_event e now r)
