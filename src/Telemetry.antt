-- ===== src/Telemetry.antt =====
-- packages/opencode-core-otel/src/recorder.ts: the state of `TelemetryRecorder` and the signals that it
-- gives. A span is a number; times are whole milliseconds, costs natural numbers of some unit. Of the
-- signals the metrics are kept, with what tells them apart; the log records, which repeat them with more
-- attributes, and the attributes of spans are left out.
pub mod Recorder
pub mod Chats
pub mod Permissions
pub mod Lifecycle
pub mod Held
pub mod Spared
pub mod Spans
mod Tests
use lightbridge_opencode_too.Common.{ℕ, Bool, Option, List, []}
use lightbridge_opencode_too.Common.Text.{Text}
use lightbridge_opencode_too.Common.Maps.{Map}

pub record SessionState : Type 0 where
  pub span : Option ℕ
  pub started_at : ℕ
  pub busy_since : Option ℕ
  pub requests : ℕ
  pub cost : ℕ
  pub input_tokens : ℕ
  pub output_tokens : ℕ

-- A chat, without the attributes that its span gets.
pub record ChatState : Type 0 where
  pub span : Option ℕ
  pub session_id : Text

pub record ToolSpanState : Type 0 where
  pub span : Option ℕ
  pub tool : Text
  pub session_id : Text
  pub started_at : ℕ

pub data ToolStatus : Type 0 where
  ok error : ToolStatus

pub record Diff : Type 0 where
  pub additions : ℕ
  pub deletions : ℕ

pub data Signal : Type 0 where
  session_started compacted : (session_id : Text) → Signal
  active_time : (session_id : Text) → (ms : ℕ) → Signal
  lines_added lines_removed : (session_id file : Text) → (lines : ℕ) → Signal
  tokens_used : (session_id kind : Text) → (tokens : ℕ) → Signal
  cost_spent : (session_id : Text) → (cost : ℕ) → Signal
  request_made : (session_id message_id : Text) → (duration_ms : ℕ) → Signal
  decision_made : (session_id permission_id decision source : Text) → (tool : Option Text) → Signal
  command_run : (session_id name : Text) → Signal
  tool_invoked : (call_id tool session_id : Text) → ToolStatus → (duration_ms : Option ℕ) → Signal

pub record TelemetryRecorder : Type 0 where
  pub sessions : Map Text SessionState
  pub tools : Map Text ToolSpanState
  pub response_lengths : Map Text ℕ
  pub finished_tools : Map Text Text
  pub finalized_messages : Map Text Text
  pub diffs : Map Text Diff
  pub chats : Map Text ChatState
  pub pending_chats : Map Text ChatState
  -- The type and the session of each permission that was asked for.
  pub permissions : Map Text (Text × Text)
  -- A set.
  pub auto_decided : List Text
  -- The number of the next span, and the spans that were ended and the signals, the last first.
  pub next_span : ℕ
  pub ended : List ℕ
  pub signals : List Signal

abbrev pub new_recorder : TelemetryRecorder
new_recorder = record {
  sessions = [];
  tools = [];
  response_lengths = [];
  finished_tools = [];
  finalized_messages = [];
  diffs = [];
  chats = [];
  pending_chats = [];
  permissions = [];
  auto_decided = [];
  next_span = 0;
  ended = [];
  signals = [];
}
