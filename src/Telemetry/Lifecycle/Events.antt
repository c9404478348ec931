-- ===== src/Telemetry/Lifecycle/Events.antt =====
-- packages/opencode-core-otel/src/recorder.ts: all events and hooks are fair to the spans.
use lightbridge_opencode_too.Common.{
  ℕ, ◌≤◌, ◌≡◌, refl, Bool, true, Option, none, some, List, [], ◌∷◌, arith,
}
use lightbridge_opencode_too.Common.Text.{Text, codes}
use lightbridge_opencode_too.Common.Maps.{lookup, delete, Text_eq}
use lightbridge_opencode_too.Telemetry.{
  ok, decision_made, command_run, compacted, TelemetryRecorder, new_recorder,
}
use lightbridge_opencode_too.Telemetry.Recorder.{
  signal, end_span, ensure_session, on_compacted, on_tool_after, ToolOutcome, started, after_start,
}
use lightbridge_opencode_too.Telemetry.Chats.{on_text_complete}
use lightbridge_opencode_too.Telemetry.Chats.Spans.{
  on_message_updated-IsFair, on_chat_params-IsFair,
}
use lightbridge_opencode_too.Telemetry.Permissions.{
  includes, without_id, record_decision, on_permission_updated, on_permission_replied,
  on_permission_ask, type_of, is_decided, decision_of, add_decided,
}
use lightbridge_opencode_too.Telemetry.Held.{
  times_ended, held, balance, credit, IsFair, IsFair-trans, balance-end_span, next_span-end_span,
  credit-start, balance-after_start,
}
use lightbridge_opencode_too.Telemetry.Spared.{
  IsSpared, IsSpared-IsFair, IsSpared-trans, branch-IsFair, IsFair-refl, ensure_session-IsSpared,
  signal-IsSpared,
}
use lightbridge_opencode_too.Telemetry.Spans.{
  on_session_idle-IsFair, on_session_status-IsSpared, on_session_diff-IsSpared, finish_tool-IsFair,
  on_part_updated-IsFair, on_session_created-IsFair, on_tool_before-IsFair, credit_eq,
}
use lightbridge_opencode_too.Telemetry.Lifecycle.{
  shutdown, RecorderEvent, session_created, session_idle, session_compacted, session_logged,
  session_deleted, session_status, session_diff, message_updated, part_updated, permission_updated,
  permission_replied, permission_asked, command_executed, chat_params, text_complete, tool_before,
  tool_after, disposed, compaction_span, on_event, run_events,
}
use lightbridge_opencode_too.Telemetry.Lifecycle.Spans.{forget_session-IsFair}
use lightbridge_opencode_too.Telemetry.Lifecycle.Shutdown.{shutdown-ended}

record_decision-IsSpared :
    (session_id permission_id decision source : Text) (tool : Option Text) (now : ℕ)
    (r : TelemetryRecorder)
    → IsSpared r (record_decision session_id permission_id decision source tool now r)
unfolding record_decision
record_decision-IsSpared session_id permission_id decision source tool now r =
    let s = ensure_session session_id now r in
    let d = decision_made session_id permission_id decision source tool in
    IsSpared-trans r s (signal d s) (ensure_session-IsSpared session_id now r) (signal-IsSpared d s)

-- The decision is recorded after a change that leaves the spans alone.
decided-IsFair :
    (n : ℕ) (session_id permission_id decision source : Text) (tool : Option Text) (now : ℕ)
    (r s : TelemetryRecorder)
    → IsSpared r s
    → IsFair n r (record_decision session_id permission_id decision source tool now s)
decided-IsFair n session_id permission_id decision source tool now r s h =
    let d = record_decision session_id permission_id decision source tool now s in
    IsSpared-IsFair n r d (
      IsSpared-trans r s d h
        (record_decision-IsSpared session_id permission_id decision source tool now s))

on_permission_replied-IsFair :
    (n : ℕ) (session_id permission_id response : Text) (now : ℕ) (r : TelemetryRecorder)
    → IsFair n r (on_permission_replied session_id permission_id response now r)
unfolding on_permission_replied
on_permission_replied-IsFair n session_id permission_id response now r =
    let tool = type_of (lookup permission_id r.permissions) in
    let x = record r { auto_decided = without_id permission_id r.auto_decided } in
    let y = record r { permissions = delete permission_id r.permissions } in
    branch-IsFair n r (includes permission_id r.auto_decided) x
      (record_decision session_id permission_id response (codes "user") tool now y)
      (IsFair-refl n r)
      (decided-IsFair n session_id permission_id response (codes "user") tool now r y
        (record { balances = λ n. refl; next = refl }))

on_permission_ask-IsFair :
    (n : ℕ) (session_id permission_id type : Text) (status : Option Text) (now : ℕ)
    (r : TelemetryRecorder)
    → IsFair n r (on_permission_ask session_id permission_id type status now r)
unfolding on_permission_ask
on_permission_ask-IsFair n session_id permission_id type status now r =
    let y = record r { auto_decided = add_decided permission_id r.auto_decided } in
    let decision = decision_of status in
    branch-IsFair n r (is_decided status)
      (record_decision session_id permission_id decision (codes "auto") (some type) now y) r
      (decided-IsFair n session_id permission_id decision (codes "auto") (some type) now r y
        (record { balances = λ n. refl; next = refl }))
      (IsFair-refl n r)

on_tool_after-IsFair :
    (n : ℕ) (call_id tool session_id : Text) (now : ℕ) (r : TelemetryRecorder)
    → IsFair n r (on_tool_after call_id tool session_id now r)
unfolding on_tool_after
on_tool_after-IsFair n call_id tool session_id now r =
    let outcome : ToolOutcome = record {
      tool = tool;
      session_id = session_id;
      status = ok;
      duration_ms = none;
    } in
    finish_tool-IsFair n call_id outcome now r

on_text_complete-IsFair :
    (n : ℕ) (id : Text) (length : Option ℕ) (r : TelemetryRecorder)
    → IsFair n r (on_text_complete id length r)
unfolding on_text_complete
on_text_complete-IsFair n id none r = IsFair-refl n r
on_text_complete-IsFair n id (some length) r = IsFair-refl n r

logged-IsFair :
    (n : ℕ) (s : TelemetryRecorder → TelemetryRecorder) (id : Text) (now : ℕ)
    (r : TelemetryRecorder)
    → ((r : TelemetryRecorder) → IsSpared r (s r))
    → IsFair n r (s (ensure_session id now r))
logged-IsFair n s id now r h =
    let e = ensure_session id now r in
    IsSpared-IsFair n r (s e) (IsSpared-trans r e (s e) (ensure_session-IsSpared id now r) (h e))

module _ (has_tracer : Bool) (is_filtered : Text → Bool) where
  compaction_span-IsFair :
      (n : ℕ) (r : TelemetryRecorder) → IsFair n r (compaction_span has_tracer is_filtered r)
  unfolding compaction_span
  compaction_span-IsFair n r =
      let o = started has_tracer is_filtered true r.next_span in
      let s = after_start has_tracer is_filtered true r in
      omega (
        arith,
        balance-end_span n o s,
        balance-after_start has_tracer is_filtered true n r,
        credit-start has_tracer is_filtered true n r,
        credit_eq n (end_span o s) s (next_span-end_span o s),
      )

  on_compacted-IsFair :
      (n : ℕ) (id : Text) (now : ℕ) (r : TelemetryRecorder)
      → IsFair n r (compaction_span has_tracer is_filtered (on_compacted id now r))
  unfolding on_compacted
  on_compacted-IsFair n id now r =
      let s = signal (compacted id) (ensure_session id now r) in
      IsFair-trans n r s (compaction_span has_tracer is_filtered s)
        (logged-IsFair n (signal (compacted id)) id now r (signal-IsSpared (compacted id)))
        (compaction_span-IsFair n s)

  on_event-IsFair :
      (n : ℕ) (e : RecorderEvent) (now : ℕ) (r : TelemetryRecorder)
      → IsFair n r (on_event has_tracer is_filtered e now r)
  unfolding on_event
  on_event-IsFair n (session_created id) now r =
      on_session_created-IsFair has_tracer is_filtered n id now r
  on_event-IsFair n (session_idle id) now r = on_session_idle-IsFair n id now r
  on_event-IsFair n (session_compacted id) now r = on_compacted-IsFair n id now r
  on_event-IsFair n (session_logged id) now r =
      IsSpared-IsFair n r _ (ensure_session-IsSpared id now r)
  on_event-IsFair n (session_deleted id) now r = forget_session-IsFair n id now r
  on_event-IsFair n (session_status id status) now r =
      IsSpared-IsFair n r _ (on_session_status-IsSpared id status now r)
  on_event-IsFair n (session_diff id entries) now r =
      IsSpared-IsFair n r _ (on_session_diff-IsSpared id entries now r)
  on_event-IsFair n (message_updated message) now r =
      on_message_updated-IsFair has_tracer n message now r
  on_event-IsFair n (part_updated part) now r = on_part_updated-IsFair n part now r
  on_event-IsFair n (permission_updated id type session_id) now r =
      unfold on_permission_updated in IsFair-refl n r
  on_event-IsFair n (permission_replied session_id id response) now r =
      on_permission_replied-IsFair n session_id id response now r
  on_event-IsFair n (permission_asked session_id id type status) now r =
      on_permission_ask-IsFair n session_id id type status now r
  on_event-IsFair n (command_executed session_id name) now r =
      let c = command_run session_id name in
      logged-IsFair n (signal c) session_id now r (signal-IsSpared c)
  on_event-IsFair n (chat_params session_id) now r =
      on_chat_params-IsFair has_tracer n session_id now r
  on_event-IsFair n (text_complete id length) now r = on_text_complete-IsFair n id length r
  on_event-IsFair n (tool_before session_id call_id tool) now r =
      on_tool_before-IsFair has_tracer is_filtered n session_id call_id tool now r
  on_event-IsFair n (tool_after session_id call_id tool) now r =
      on_tool_after-IsFair n call_id tool session_id now r
  on_event-IsFair n disposed now r = (shutdown-ended n now r).1

  run_events-IsFair :
      (n : ℕ) (es : List (RecorderEvent × ℕ)) (r : TelemetryRecorder)
      → IsFair n r (run_events has_tracer is_filtered es r)
  unfolding run_events
  run_events-IsFair n [] r = IsFair-refl n r
  run_events-IsFair n ((e, now) ∷ es) r =
      let s = on_event has_tracer is_filtered e now r in
      IsFair-trans n r s (run_events has_tracer is_filtered es s) (on_event-IsFair n e now r)
        (run_events-IsFair n es s)

-- Whatever events and hooks a new recorder has seen: a span that it has not started is neither ended nor
-- held, any other at most once, be it ended or held in one of the four tables; and a shutdown then leaves
-- each span ended as often as it was ended or held, so that it ends every span that is held, and ends none
-- twice.
pub run_events-spans :
    (has_tracer : Bool) (is_filtered : Text → Bool) (es : List (RecorderEvent × ℕ)) (n now : ℕ)
    → let r = run_events has_tracer is_filtered es new_recorder in
      (balance n r ≤ credit n r) × (times_ended n (shutdown now r).ended ≡ balance n r)
unfolding held times_ended
run_events-spans has_tracer is_filtered es n now =
    let r = run_events has_tracer is_filtered es new_recorder in
    (
      omega (arith, run_events-IsFair has_tracer is_filtered n es new_recorder),
      (shutdown-ended n now r).0,
    )
