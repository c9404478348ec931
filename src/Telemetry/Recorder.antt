-- ===== src/Telemetry/Recorder.antt =====
-- packages/opencode-core-otel/src/recorder.ts: the handlers of `TelemetryRecorder`, at one reading of
-- the clock. Whether there is a tracer, and which tools have no spans, are parameters.
pub mod Diffs
pub mod Tools
use lightbridge_opencode_too.Common.{
  ℕ, zero, suc, ◌+◌, ◌-◌, Bool, true, false, not, ◌&&◌, ◌||◌, Option, none, some, List, [], ◌∷◌,
  ◌++◌, ltb, leb, ◌==◌, if◌then◌else◌, or_else, length,
}
use lightbridge_opencode_too.Common.Text.{Text, codes, text_eq}
use lightbridge_opencode_too.Common.Maps.{Map, lookup, set, delete, values, Text_eq}
use lightbridge_opencode_too.Telemetry.{
  SessionState, ToolSpanState, ToolStatus, ok, error, Diff, Signal, session_started, compacted,
  active_time, lines_added, lines_removed, tool_invoked, TelemetryRecorder,
}

-- The separator of the keys of `diffs`, which occurs in no session id.
abbrev pub diff_key_separator : ℕ
diff_key_separator = 0

unfoldable pub diff_key : Text → Text → Text
diff_key session_id file = session_id ++ diff_key_separator ∷ file

unfoldable pub signal : Signal → TelemetryRecorder → TelemetryRecorder
signal s r = record r { signals = s ∷ r.signals }

unfoldable pub end_span : Option ℕ → TelemetryRecorder → TelemetryRecorder
end_span none r = r
end_span (some span) r = record r { ended = span ∷ r.ended }

unfoldable pub is_present {ℓ} : {A : Type ℓ} → Option A → Bool
is_present none = false
is_present (some a) = true

unfoldable pub new_session : Option ℕ → ℕ → SessionState
new_session span now = record {
  span = span;
  started_at = now;
  busy_since = none;
  requests = 0;
  cost = 0;
  input_tokens = 0;
  output_tokens = 0;
}

-- `this.session(id)`, whose state is made where it is missing.
unfoldable pub ensure_session : Text → ℕ → TelemetryRecorder → TelemetryRecorder
unfolding is_present new_session
ensure_session id now r =
    if is_present (lookup id r.sessions)
    then r
    else record r { sessions = set id (new_session none now) r.sessions }

-- `settleActiveTime`, on the session's state.
unfoldable pub settle : Option ℕ → Text → SessionState → ℕ → TelemetryRecorder → TelemetryRecorder
unfolding signal
settle none id state now r = r
settle (some busy_since) id state now r =
    signal (active_time id (now - busy_since))
      (record r { sessions = set id (record state { busy_since = none }) r.sessions })

unfoldable pub settle_active_time :
    Option SessionState → Text → ℕ → TelemetryRecorder → TelemetryRecorder
unfolding settle
settle_active_time none id now r = r
settle_active_time (some state) id now r = settle state.busy_since id state now r

unfoldable pub span_of : Option SessionState → Option ℕ
span_of none = none
span_of (some state) = state.span

-- The entries that another session owns.
unfoldable pub unowned : Text → Map Text Text → Map Text Text
unowned session_id [] = []
unowned session_id ((id, owner) ∷ m) =
    let rest = unowned session_id m in if text_eq owner session_id then rest else (id, owner) ∷ rest

-- The lengths of the messages that the session does not own.
unmeasured : Text → Map Text Text → Map Text ℕ → Map Text ℕ
unmeasured session_id [] lengths = lengths
unmeasured session_id ((id, owner) ∷ m) lengths =
    unmeasured session_id m (if text_eq owner session_id then delete id lengths else lengths)

unfoldable pub prune_completed : Text → TelemetryRecorder → TelemetryRecorder
unfolding unowned unmeasured
prune_completed session_id r = record r {
  response_lengths = unmeasured session_id r.finalized_messages r.response_lengths;
  finalized_messages = unowned session_id r.finalized_messages;
  finished_tools = unowned session_id r.finished_tools;
}

unfoldable pub on_session_idle : Text → ℕ → TelemetryRecorder → TelemetryRecorder
unfolding settle_active_time end_span span_of prune_completed is_present
on_session_idle id now r =
    let settled = settle_active_time (lookup id r.sessions) id now r in
    let ended = end_span (span_of (lookup id r.sessions)) settled in
    if is_present (lookup id r.sessions)
    then prune_completed id (record ended { sessions = delete id ended.sessions })
    else r

-- What a status says, but for its retries, which are only logged.
pub data Status : Type 0 where
  busy retry other : Status

unfoldable pub mark_busy : Option SessionState → Text → ℕ → TelemetryRecorder → TelemetryRecorder
mark_busy none id now r = r
mark_busy (some state) id now r = record r {
  sessions = set id (record state { busy_since = some (or_else state.busy_since now) }) r.sessions;
}

unfoldable pub on_session_status : Text → Status → ℕ → TelemetryRecorder → TelemetryRecorder
unfolding ensure_session mark_busy settle_active_time
on_session_status id busy now r =
    let s = ensure_session id now r in mark_busy (lookup id s.sessions) id now s
on_session_status id retry now r = ensure_session id now r
on_session_status id other now r =
    let s = ensure_session id now r in settle_active_time (lookup id s.sessions) id now s

unfoldable pub on_compacted : Text → ℕ → TelemetryRecorder → TelemetryRecorder
unfolding ensure_session signal
on_compacted id now r = signal (compacted id) (ensure_session id now r)

pub record FileDiff : Type 0 where
  pub file : Text
  pub additions : ℕ
  pub deletions : ℕ

abbrev pub no_diff : Diff
no_diff = record { additions = 0; deletions = 0 }

-- A signal where there is something to count.
unfoldable pub signal_if : ℕ → Signal → TelemetryRecorder → TelemetryRecorder
unfolding signal
signal_if zero s r = r
signal_if (suc n) s r = signal s r

-- The totals of one file: what is new since the last report is counted.
unfoldable pub on_file_diff : Text → FileDiff → TelemetryRecorder → TelemetryRecorder
unfolding diff_key signal_if
on_file_diff session_id entry r =
    let key = diff_key session_id entry.file in
    let previous = or_else (lookup key r.diffs) no_diff in
    let added = entry.additions - previous.additions in
    let removed = entry.deletions - previous.deletions in
    signal_if removed (lines_removed session_id entry.file removed) (
      signal_if added (lines_added session_id entry.file added) (record r {
        diffs =
            set key (record { additions = entry.additions; deletions = entry.deletions }) r.diffs;
      }))

unfoldable pub on_file_diffs : Text → List FileDiff → TelemetryRecorder → TelemetryRecorder
on_file_diffs session_id [] r = r
on_file_diffs session_id (entry ∷ entries) r =
    on_file_diffs session_id entries (on_file_diff session_id entry r)

unfoldable pub on_session_diff : Text → List FileDiff → ℕ → TelemetryRecorder → TelemetryRecorder
unfolding on_file_diffs ensure_session
on_session_diff session_id entries now r =
    on_file_diffs session_id entries (ensure_session session_id now r)

pub record ToolOutcome : Type 0 where
  pub tool : Text
  pub session_id : Text
  pub status : ToolStatus
  pub duration_ms : Option ℕ

unfoldable pub tool_of : Option ToolSpanState → Text → Text
tool_of none tool = tool
tool_of (some started) tool = started.tool

-- `started?.sessionID || outcome.sessionID`.
unfoldable pub owner_of : Option ToolSpanState → Text → Text
owner_of none session_id = session_id
owner_of (some started) session_id =
    if text_eq started.session_id [] then session_id else started.session_id

unfoldable pub duration_of : Option ℕ → Option ToolSpanState → ℕ → Option ℕ
duration_of (some ms) started now = some ms
duration_of none none now = none
duration_of none (some started) now = some (now - started.started_at)

unfoldable pub tool_span : Option ToolSpanState → Option ℕ
tool_span none = none
tool_span (some started) = started.span

unfoldable pub session_if : Text → ℕ → TelemetryRecorder → TelemetryRecorder
unfolding ensure_session
session_if [] now r = r
session_if (c ∷ s) now r = ensure_session (c ∷ s) now r

unfoldable pub record_tool :
    Option ToolSpanState → Text → ToolOutcome → ℕ → TelemetryRecorder → TelemetryRecorder
unfolding tool_of owner_of duration_of tool_span session_if signal end_span
record_tool started call_id outcome now r =
    let session_id = owner_of started outcome.session_id in
    let duration_ms = duration_of outcome.duration_ms started now in
    let counted =
      signal
        (tool_invoked call_id (tool_of started outcome.tool) session_id outcome.status duration_ms)
        (record r {
          tools = delete call_id r.tools;
          finished_tools = set call_id session_id r.finished_tools;
        }) in
    session_if session_id now (end_span (tool_span started) counted)

unfoldable pub finish_tool : Text → ToolOutcome → ℕ → TelemetryRecorder → TelemetryRecorder
unfolding is_present record_tool
finish_tool call_id outcome now r =
    if is_present (lookup call_id r.finished_tools)
    then r
    else record_tool (lookup call_id r.tools) call_id outcome now r

unfoldable pub on_tool_after : Text → Text → Text → ℕ → TelemetryRecorder → TelemetryRecorder
unfolding finish_tool
on_tool_after call_id tool session_id now r =
    finish_tool call_id
      (record { tool = tool; session_id = session_id; status = ok; duration_ms = none }) now r

-- A tool part, by its call, tool and session, its status and its times.
pub data PartStatus : Type 0 where
  completed failed running : PartStatus

pub record ToolPart : Type 0 where
  pub call_id : Text
  pub tool : Option Text
  pub session_id : Option Text
  pub status : PartStatus
  pub start : Option ℕ
  pub finish : Option ℕ

part_duration : Option ℕ → Option ℕ → Option ℕ
part_duration (some start) (some finish) = some (finish - start)
part_duration _ _ = none

unfoldable pub part_outcome : ToolStatus → ToolPart → ToolOutcome
unfolding part_duration
part_outcome status part = record {
  tool = or_else part.tool (codes "unknown");
  session_id = or_else part.session_id [];
  status = status;
  duration_ms = part_duration part.start part.finish;
}

unfoldable pub on_part_status : PartStatus → ToolPart → ℕ → TelemetryRecorder → TelemetryRecorder
unfolding finish_tool part_outcome
on_part_status completed part now r = finish_tool part.call_id (part_outcome ok part) now r
on_part_status failed part now r = finish_tool part.call_id (part_outcome error part) now r
on_part_status running part now r = r

unfoldable pub on_part_updated : ToolPart → ℕ → TelemetryRecorder → TelemetryRecorder
unfolding on_part_status
on_part_updated part now r =
    if text_eq part.call_id [] then r else on_part_status part.status part now r

module _ (has_tracer : Bool) (is_filtered : Text → Bool) where
  -- The span that starts, if any.
  unfoldable pub started : Bool → ℕ → Option ℕ
  started wanted span = if has_tracer && wanted then some span else none

  unfoldable pub after_start : Bool → TelemetryRecorder → TelemetryRecorder
  after_start wanted r =
      if has_tracer && wanted then record r { next_span = suc r.next_span } else r

  unfoldable pub on_session_created : Text → ℕ → TelemetryRecorder → TelemetryRecorder
  unfolding started after_start signal new_session
  on_session_created id now r = signal (session_started id) (
      after_start true
        (record r { sessions = set id (new_session (started true r.next_span) now) r.sessions }))

  unfoldable pub on_tool_before : Text → Text → Text → ℕ → TelemetryRecorder → TelemetryRecorder
  unfolding ensure_session started after_start
  on_tool_before session_id call_id tool now r =
      let s = ensure_session session_id now r in
      after_start (not (is_filtered tool)) (record s {
        tools =
            set call_id
              (record {
                span = started (not (is_filtered tool)) s.next_span;
                tool = tool;
                session_id = session_id;
                started_at = now;
              })
              s.tools;
      })
