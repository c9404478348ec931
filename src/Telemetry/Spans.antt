-- ===== src/Telemetry/Spans.antt =====
-- packages/opencode-core-otel/src/recorder.ts: every handler is fair to the spans.
use lightbridge_opencode_too.Common.{
  ℕ, zero, suc, ◌+◌, ◌-◌, ◌≡◌, refl, sym, ap, ◌∙◌, Bool, true, not, Option, none, some, List, [],
  ◌∷◌, arith, ltb, if◌then◌else◌, or_else,
}
use lightbridge_opencode_too.Common.Text.{Text, text_eq}
use lightbridge_opencode_too.Common.Maps.{lookup, set, delete, Text_eq}
use lightbridge_opencode_too.Telemetry.{
  SessionState, ToolSpanState, Signal, session_started, lines_added, lines_removed, tool_invoked,
  TelemetryRecorder,
}
use lightbridge_opencode_too.Telemetry.Recorder.{
  diff_key, no_diff, signal, end_span, is_present, new_session, ensure_session, settle_active_time,
  span_of, prune_completed, on_session_idle, Status, busy, retry, other, mark_busy,
  on_session_status, FileDiff, signal_if, on_file_diff, on_file_diffs, on_session_diff, tool_span,
  session_if, record_tool, ToolOutcome, owner_of, duration_of, tool_of, finish_tool, PartStatus,
  completed, failed, running, ToolPart, on_part_status, on_part_updated, started, after_start,
  on_session_created, on_tool_before,
}
use lightbridge_opencode_too.Telemetry.Held.{
  is_span, times_ended, span_in, held, held-set, held-delete, session_span, tool_held, balance,
  credit, IsFair, IsFair-trans, balance-end_span, next_span-end_span, credit-start,
  balance-after_start,
}
use lightbridge_opencode_too.Telemetry.Spared.{
  IsSpared, IsSpared-IsFair, IsSpared-refl, IsSpared-trans, branch-IsFair, IsFair-refl,
  ensure_session-IsSpared, signal-IsSpared, respan-IsSpared, settle_active_time-IsSpared,
  settle_active_time-span, prune_completed-IsSpared,
}

-- The span of a session ends, and the session goes.
pub closed-IsFair :
    (n : ℕ) (id : Text) (o : Option ℕ) (r : TelemetryRecorder)
    → is_span n o ≡ span_in session_span n (lookup id r.sessions)
    → IsFair n r (record (end_span o r) { sessions = delete id (end_span o r).sessions })
unfolding end_span times_ended
closed-IsFair n id none r e = omega (arith, held-delete session_span n id r.sessions, e)
closed-IsFair n id (some m) r e = omega (arith, held-delete session_span n id r.sessions, e)

idle-IsFair :
    (n : ℕ) (id : Text) (now : ℕ) (r : TelemetryRecorder) (o : Option SessionState)
    → lookup id r.sessions ≡ o
    → IsFair n r (on_session_idle id now r)
unfolding on_session_idle
idle-IsFair n id now r none found = rw (found, is_present) (IsFair-refl n r)
idle-IsFair n id now r (some state) found =
    let s = settle_active_time (some state) id now r in
    let c = record (end_span state.span s) {
      sessions = delete id (end_span state.span s).sessions;
    } in
    let spared : IsSpared r s = settle_active_time-IsSpared (some state) id now r found in
    let span = settle_active_time-span (some state) id now n r found in
    rw (found, is_present, span_of)
      (IsFair-trans n r c (prune_completed id c)
        (IsFair-trans n r s c (IsSpared-IsFair n r s spared)
          (closed-IsFair n id state.span s (sym span)))
        (IsSpared-IsFair n c (prune_completed id c) (prune_completed-IsSpared id c)))

pub on_session_idle-IsFair :
    (n : ℕ) (id : Text) (now : ℕ) (r : TelemetryRecorder) → IsFair n r (on_session_idle id now r)
on_session_idle-IsFair n id now r = idle-IsFair n id now r (lookup id r.sessions) refl

mark_busy-IsSpared :
    (o : Option SessionState) (id : Text) (now : ℕ) (r : TelemetryRecorder)
    → lookup id r.sessions ≡ o
    → IsSpared r (mark_busy o id now r)
unfolding mark_busy
mark_busy-IsSpared none id now r found = IsSpared-refl r
mark_busy-IsSpared (some state) id now r found =
    respan-IsSpared id state (record state { busy_since = some (or_else state.busy_since now) }) r
      found refl

pub on_session_status-IsSpared :
    (id : Text) (status : Status) (now : ℕ) (r : TelemetryRecorder)
    → IsSpared r (on_session_status id status now r)
unfolding on_session_status
on_session_status-IsSpared id busy now r =
    let s = ensure_session id now r in
    IsSpared-trans r s _ (ensure_session-IsSpared id now r)
      (mark_busy-IsSpared (lookup id s.sessions) id now s refl)
on_session_status-IsSpared id retry now r = ensure_session-IsSpared id now r
on_session_status-IsSpared id other now r =
    let s = ensure_session id now r in
    IsSpared-trans r s _ (ensure_session-IsSpared id now r)
      (settle_active_time-IsSpared (lookup id s.sessions) id now s refl)

signal_if-IsSpared : (k : ℕ) (s : Signal) (r : TelemetryRecorder) → IsSpared r (signal_if k s r)
unfolding signal_if
signal_if-IsSpared zero s r = IsSpared-refl r
signal_if-IsSpared (suc k) s r = signal-IsSpared s r

on_file_diff-IsSpared :
    (id : Text) (entry : FileDiff) (r : TelemetryRecorder) → IsSpared r (on_file_diff id entry r)
unfolding on_file_diff
on_file_diff-IsSpared id entry r =
    let key = diff_key id entry.file in
    let previous = or_else (lookup key r.diffs) no_diff in
    let added = entry.additions - previous.additions in
    let removed = entry.deletions - previous.deletions in
    let x = record r {
      diffs = set key (record { additions = entry.additions; deletions = entry.deletions }) r.diffs;
    } in
    let y = signal_if added (lines_added id entry.file added) x in
    IsSpared-trans r y (signal_if removed (lines_removed id entry.file removed) y)
      (IsSpared-trans r x y (record { balances = λ n. refl; next = refl })
        (signal_if-IsSpared added (lines_added id entry.file added) x))
      (signal_if-IsSpared removed (lines_removed id entry.file removed) y)

on_file_diffs-IsSpared :
    (id : Text) (entries : List FileDiff) (r : TelemetryRecorder)
    → IsSpared r (on_file_diffs id entries r)
unfolding on_file_diffs
on_file_diffs-IsSpared id [] r = IsSpared-refl r
on_file_diffs-IsSpared id (entry ∷ entries) r =
    IsSpared-trans r (on_file_diff id entry r) _ (on_file_diff-IsSpared id entry r)
      (on_file_diffs-IsSpared id entries (on_file_diff id entry r))

pub on_session_diff-IsSpared :
    (id : Text) (entries : List FileDiff) (now : ℕ) (r : TelemetryRecorder)
    → IsSpared r (on_session_diff id entries now r)
unfolding on_session_diff
on_session_diff-IsSpared id entries now r =
    IsSpared-trans r (ensure_session id now r) _ (ensure_session-IsSpared id now r)
      (on_file_diffs-IsSpared id entries (ensure_session id now r))

session_if-IsSpared :
    (id : Text) (now : ℕ) (r : TelemetryRecorder) → IsSpared r (session_if id now r)
unfolding session_if
session_if-IsSpared [] now r = IsSpared-refl r
session_if-IsSpared (c ∷ s) now r = ensure_session-IsSpared (c ∷ s) now r

pub credit_eq :
    (n : ℕ) (r s : TelemetryRecorder) → r.next_span ≡ s.next_span → credit n r ≡ credit n s
credit_eq n r s e = ap (λ (k : ℕ). if ltb n k then 1 else 0) e

-- The span of a tool call ends, and its entry goes.
tool_closed-IsFair :
    (n : ℕ) (call_id : Text) (o : Option ToolSpanState) (r r' : TelemetryRecorder)
    → lookup call_id r.tools ≡ o
    → balance n r' + held tool_held n r.tools
      ≡ balance n r + held tool_held n (delete call_id r.tools)
    → r'.next_span ≡ r.next_span
    → IsFair n r (end_span (tool_span o) r')
unfolding tool_span
tool_closed-IsFair n call_id none r r' found b e = omega (
  arith,
  b,
  credit_eq n (end_span none r') r (next_span-end_span none r' ∙ e),
  balance-end_span n none r',
  held-delete tool_held n call_id r.tools,
)
tool_closed-IsFair n call_id (some t) r r' found b e = omega (
  arith,
  b,
  credit_eq n (end_span t.span r') r (next_span-end_span t.span r' ∙ e),
  balance-end_span n t.span r',
  held-delete tool_held n call_id r.tools,
  ap (span_in tool_held n) found,
)

record_tool-IsFair :
    (n : ℕ) (o : Option ToolSpanState) (call_id : Text) (outcome : ToolOutcome) (now : ℕ)
    (r : TelemetryRecorder)
    → lookup call_id r.tools ≡ o
    → IsFair n r (record_tool o call_id outcome now r)
unfolding record_tool
record_tool-IsFair n o call_id outcome now r found =
    let session_id = owner_of o outcome.session_id in
    let x = record r {
      tools = delete call_id r.tools;
      finished_tools = set call_id session_id r.finished_tools;
    } in
    let report =
      tool_invoked call_id (tool_of o outcome.tool) session_id outcome.status
        (duration_of outcome.duration_ms o now) in
    let y = signal report x in
    let z = end_span (tool_span o) y in
    IsFair-trans n r z (session_if session_id now z)
      (tool_closed-IsFair n call_id o r y found (unfold signal in omega arith)
        (unfold signal in refl))
      (IsSpared-IsFair n z (session_if session_id now z) (session_if-IsSpared session_id now z))

pub finish_tool-IsFair :
    (n : ℕ) (call_id : Text) (outcome : ToolOutcome) (now : ℕ) (r : TelemetryRecorder)
    → IsFair n r (finish_tool call_id outcome now r)
unfolding finish_tool
finish_tool-IsFair n call_id outcome now r =
    branch-IsFair n r (is_present (lookup call_id r.finished_tools)) r _ (IsFair-refl n r)
      (record_tool-IsFair n (lookup call_id r.tools) call_id outcome now r refl)

on_part_status-IsFair :
    (n : ℕ) (status : PartStatus) (part : ToolPart) (now : ℕ) (r : TelemetryRecorder)
    → IsFair n r (on_part_status status part now r)
unfolding on_part_status
on_part_status-IsFair n completed part now r = finish_tool-IsFair n part.call_id _ now r
on_part_status-IsFair n failed part now r = finish_tool-IsFair n part.call_id _ now r
on_part_status-IsFair n running part now r = IsFair-refl n r

pub on_part_updated-IsFair :
    (n : ℕ) (part : ToolPart) (now : ℕ) (r : TelemetryRecorder)
    → IsFair n r (on_part_updated part now r)
unfolding on_part_updated
on_part_updated-IsFair n part now r =
    branch-IsFair n r (text_eq part.call_id []) r _ (IsFair-refl n r)
      (on_part_status-IsFair n part.status part now r)

module _ (has_tracer : Bool) (is_filtered : Text → Bool) where
  pub on_session_created-IsFair :
      (n : ℕ) (id : Text) (now : ℕ) (r : TelemetryRecorder)
      → IsFair n r (on_session_created has_tracer is_filtered id now r)
  unfolding on_session_created
  on_session_created-IsFair n id now r =
      let span = started has_tracer is_filtered true r.next_span in
      let x = record r { sessions = set id (new_session span now) r.sessions } in
      let y = after_start has_tracer is_filtered true x in
      IsFair-trans n r y (signal (session_started id) y)
        (omega (
          arith,
          held-set session_span n id (new_session span now) r.sessions,
          new_span span now,
          balance-after_start has_tracer is_filtered true n x,
          credit-start has_tracer is_filtered true n x,
        ))
        (IsSpared-IsFair n y (signal (session_started id) y)
          (signal-IsSpared (session_started id) y))
    where
      new_span :
          (span : Option ℕ) (now : ℕ) → is_span n (new_session span now).span ≡ is_span n span
      new_span span now = unfold new_session in refl

  pub on_tool_before-IsFair :
      (n : ℕ) (session_id call_id tool : Text) (now : ℕ) (r : TelemetryRecorder)
      → IsFair n r (on_tool_before has_tracer is_filtered session_id call_id tool now r)
  unfolding on_tool_before
  on_tool_before-IsFair n session_id call_id tool now r =
      let s = ensure_session session_id now r in
      let wanted = not (is_filtered tool) in
      let span = started has_tracer is_filtered wanted s.next_span in
      let entry : ToolSpanState = record {
        span = span;
        tool = tool;
        session_id = session_id;
        started_at = now;
      } in
      let x = record s { tools = set call_id entry s.tools } in
      IsFair-trans n r s (after_start has_tracer is_filtered wanted x)
        (IsSpared-IsFair n r s (ensure_session-IsSpared session_id now r))
        (omega (
          arith,
          held-set tool_held n call_id entry s.tools,
          balance-after_start has_tracer is_filtered wanted n x,
          credit-start has_tracer is_filtered wanted n x,
        ))
