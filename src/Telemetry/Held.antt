-- ===== src/Telemetry/Held.antt =====
-- packages/opencode-core-otel/src/recorder.ts: the spans that the tables hold, and those that were ended.
use lightbridge_opencode_too.Common.{
  ℕ, suc, ◌+◌, ◌≤◌, ◌≡◌, refl, Bool, ◌&&◌, Option, none, some, List, [], ◌∷◌, ◌++◌, arith, ltb,
  ◌==◌, if◌then◌else◌, Bool-cases, inl, inr,
}
use lightbridge_opencode_too.Common.Text.{Text, text_eq}
use lightbridge_opencode_too.Common.Maps.{Map, lookup, set, delete, values, Text_eq}
use lightbridge_opencode_too.Telemetry.{SessionState, ToolSpanState, ChatState, TelemetryRecorder}
use lightbridge_opencode_too.Telemetry.Recorder.{end_span, started, after_start}

-- 1 where the span is the one that is counted.
abbrev pub is_span : ℕ → Option ℕ → ℕ
is_span n none = 0
is_span n (some m) = if m == n then 1 else 0

unfoldable pub times_ended : ℕ → List ℕ → ℕ
times_ended n [] = 0
times_ended n (m ∷ ms) = is_span n (some m) + times_ended n ms

module _ {V : Type 0} (span : V → Option ℕ) (n : ℕ) where
  abbrev pub span_in : Option V → ℕ
  span_in none = 0
  span_in (some v) = is_span n (span v)

  unfoldable pub held_in : List V → ℕ
  held_in [] = 0
  held_in (v ∷ vs) = is_span n (span v) + held_in vs

  unfoldable pub held : Map Text V → ℕ
  held [] = 0
  held ((k, v) ∷ m) = is_span n (span v) + held m

  pub held-set :
      (k : Text) (v : V) (m : Map Text V)
      → held (set k v m) + span_in (lookup k m) ≡ held m + is_span n (span v)
  unfolding held set lookup
  held-set k v [] = omega arith
  held-set k v ((j, w) ∷ m) = elim (Bool-cases (text_eq j k)) [
    | inl e ↦ rw e (omega arith)
    | inr e ↦ rw e (omega (arith, held-set k v m))
  ]

  pub held-delete : (k : Text) (m : Map Text V) → held (delete k m) + span_in (lookup k m) ≤ held m
  unfolding held delete lookup
  held-delete k [] = omega arith
  held-delete k ((j, w) ∷ m) = elim (Bool-cases (text_eq j k)) [
    | inl e ↦ rw e (omega (arith, held-delete k m))
    | inr e ↦ rw e (omega (arith, held-delete k m))
  ]

  pub held-values : (m : Map Text V) → held_in (values m) ≡ held m
  unfolding held held_in values
  held-values [] = refl
  held-values ((k, v) ∷ m) = omega (arith, held-values m)

  pub held_in-append : (vs ws : List V) → held_in (vs ++ ws) ≡ held_in vs + held_in ws
  unfolding held_in
  held_in-append [] ws = omega arith
  held_in-append (v ∷ vs) ws = omega (arith, held_in-append vs ws)

abbrev pub session_span : SessionState → Option ℕ
session_span s = s.span

abbrev pub chat_span : ChatState → Option ℕ
chat_span c = c.span

abbrev pub tool_held : ToolSpanState → Option ℕ
tool_held t = t.span

-- How often a span was ended or stands in a table.
abbrev pub balance : ℕ → TelemetryRecorder → ℕ
balance n r =
    times_ended n r.ended
    + held session_span n r.sessions
    + held chat_span n r.chats
    + held chat_span n r.pending_chats
    + held tool_held n r.tools

-- 1 for a span that has been started.
abbrev pub credit : ℕ → TelemetryRecorder → ℕ
credit n r = if ltb n r.next_span then 1 else 0

-- Whatever is ended or held more than before has been started meanwhile.
abbrev pub IsFair : ℕ → TelemetryRecorder → TelemetryRecorder → Type 0
IsFair n r r' = balance n r' + credit n r ≤ balance n r + credit n r'

pub IsFair-trans : (n : ℕ) (r s t : TelemetryRecorder) → IsFair n r s → IsFair n s t → IsFair n r t
IsFair-trans n r s t h k = omega arith

pub balance-end_span :
    (n : ℕ) (o : Option ℕ) (r : TelemetryRecorder)
    → balance n (end_span o r) ≡ balance n r + is_span n o
unfolding end_span times_ended
balance-end_span n none r = omega arith
balance-end_span n (some m) r = omega arith

pub next_span-end_span :
    (o : Option ℕ) (r : TelemetryRecorder) → (end_span o r).next_span ≡ r.next_span
unfolding end_span
next_span-end_span none r = refl
next_span-end_span (some m) r = refl

credit-suc :
    (n m : ℕ) → is_span n (some m) + (if ltb n m then 1 else 0) ≤ (if ltb n (suc m) then 1 else 0)
credit-suc n m = ground arith

-- The credit for the span that starts, if one does.
pub credit-start :
    (has_tracer : Bool) (is_filtered : Text → Bool) (wanted : Bool) (n : ℕ) (r : TelemetryRecorder)
    → is_span n (started has_tracer is_filtered wanted r.next_span) + credit n r
      ≤ credit n (after_start has_tracer is_filtered wanted r)
unfolding started after_start
credit-start has_tracer is_filtered wanted n r = elim (Bool-cases (has_tracer && wanted)) [
  | inl e ↦ rw e (credit-suc n r.next_span)
  | inr e ↦ rw e (omega arith)
]

pub balance-after_start :
    (has_tracer : Bool) (is_filtered : Text → Bool) (wanted : Bool) (n : ℕ) (r : TelemetryRecorder)
    → balance n (after_start has_tracer is_filtered wanted r) ≡ balance n r
unfolding after_start
balance-after_start has_tracer is_filtered wanted n r = elim (Bool-cases (has_tracer && wanted)) [
  | inl e ↦ rw e refl
  | inr e ↦ rw e refl
]
