-- ===== src/Telemetry/Recorder/Tools.antt =====
-- packages/opencode-core-otel/src/recorder.ts: how often the outcome of a tool call is counted.
use mathlib.Core.List.{append-nil}
use lightbridge_opencode_too.Common.{
  ℕ, ◌≡◌, refl, sym, ap, ◌∙◌, Bool, true, false, Option, none, some, List, [], ◌∷◌, ◌++◌,
  if◌then◌else◌, Bool-cases, inl, inr,
}
use lightbridge_opencode_too.Common.Text.{Text, text_eq, text_eq_iff}
use lightbridge_opencode_too.Common.Maps.{lookup, set, delete, lookup-set, Text_eq}
use lightbridge_opencode_too.Telemetry.{
  ToolSpanState, ToolStatus, ok, error, Signal, tool_invoked, TelemetryRecorder, new_recorder,
}
use lightbridge_opencode_too.Telemetry.Recorder.{
  is_present, ensure_session, signal, end_span, session_if, ToolOutcome, tool_of, owner_of,
  duration_of, tool_span, record_tool, finish_tool, on_tool_after, PartStatus, completed, failed,
  running, ToolPart, part_outcome, on_part_status, on_part_updated,
}

-- The outcomes that were counted for a call, the last first.
unfoldable pub outcome_in : Text → Signal → List ToolStatus
outcome_in call_id (tool_invoked c tool session_id status ms) =
    if text_eq c call_id then status ∷ [] else []
outcome_in call_id s = []

abbrev pub outcomes : Text → List Signal → List ToolStatus
outcomes call_id [] = []
outcomes call_id (s ∷ ss) = outcome_in call_id s ++ outcomes call_id ss

abbrev pub is_finished : Text → TelemetryRecorder → Bool
is_finished call_id r = is_present (lookup call_id r.finished_tools)

-- A report of a tool call: the hook after it, or an update of its part.
pub data Report : Type 0 where
  after : (call_id tool session_id : Text) → Report
  part : ToolPart → Report

unfoldable pub on_report : Report → ℕ → TelemetryRecorder → TelemetryRecorder
on_report (after call_id tool session_id) now r = on_tool_after call_id tool session_id now r
on_report (part p) now r = on_part_updated p now r

unfoldable pub run_tool_reports : List (Report × ℕ) → TelemetryRecorder → TelemetryRecorder
run_tool_reports [] r = r
run_tool_reports ((x, now) ∷ xs) r = run_tool_reports xs (on_report x now r)

-- What a report says of a call, if it is final.
abbrev pub status_of : PartStatus → Option ToolStatus
status_of completed = some ok
status_of failed = some error
status_of running = none

unfoldable pub final_status : Text → Report → Option ToolStatus
final_status call_id (after c tool session_id) = if text_eq c call_id then some ok else none
final_status call_id (part p) =
    if text_eq p.call_id []
    then none
    else (if text_eq p.call_id call_id then status_of p.status else none)

-- The first final report of a call.
abbrev pub first_status : Text → List (Report × ℕ) → List ToolStatus
first_status call_id [] = []
first_status call_id ((x, now) ∷ xs) = elim (final_status call_id x) [
  | none ↦ first_status call_id xs
  | some status ↦ status ∷ []
]

-- What one report changes for a call: nothing, or that its outcome is counted.
record Counts (call_id : Text) (said : Option ToolStatus) (r t : TelemetryRecorder) : Type 0 where
  counted : outcomes call_id t.signals ≡ (
      if is_finished call_id r then outcomes call_id r.signals else (elim said [
        | none ↦ outcomes call_id r.signals
        | some status ↦ status ∷ outcomes call_id r.signals
      ]))
  finished : is_finished call_id t ≡ (if is_finished call_id r then true else is_present said)

session_if-Same :
    (session_id : Text) (now : ℕ) (r : TelemetryRecorder)
    → ((session_if session_id now r).signals ≡ r.signals)
      × ((session_if session_id now r).finished_tools ≡ r.finished_tools)
unfolding session_if ensure_session
session_if-Same [] now r = (refl, refl)
session_if-Same (c ∷ s) now r = elim (Bool-cases (is_present (lookup (c ∷ s) r.sessions))) [
  | inl e ↦ rw e (refl, refl)
  | inr e ↦ rw e (refl, refl)
]

end_span-same :
    (o : Option ℕ) (r : TelemetryRecorder)
    → ((end_span o r).signals ≡ r.signals) × ((end_span o r).finished_tools ≡ r.finished_tools)
unfolding end_span
end_span-same none r = (refl, refl)
end_span-same (some span) r = (refl, refl)

record_tool-effect :
    (started : Option ToolSpanState) (c : Text) (outcome : ToolOutcome) (now : ℕ)
    (r : TelemetryRecorder) (call_id : Text)
    → (outcomes call_id (record_tool started c outcome now r).signals
        ≡ (if text_eq c call_id then outcome.status ∷ [] else []) ++ outcomes call_id r.signals)
      × (is_finished call_id (record_tool started c outcome now r)
          ≡ (if text_eq c call_id then true else is_finished call_id r))
unfolding record_tool signal outcome_in is_present
record_tool-effect started c outcome now r call_id =
    let session_id = owner_of started outcome.session_id in
    let counted =
      signal
        (tool_invoked c (tool_of started outcome.tool) session_id outcome.status
          (duration_of outcome.duration_ms started now))
        (record r {
          tools = delete c r.tools;
          finished_tools = set c session_id r.finished_tools;
        }) in
    let ended = end_span (tool_span started) counted in
    let same = session_if-Same session_id now ended in
    let kept = end_span-same (tool_span started) counted in
    (
      ap (outcomes call_id) (same.0 ∙ kept.0),
      ap (λ m. is_present (lookup call_id m)) (same.1 ∙ kept.1)
          ∙ ap is_present (lookup-set c call_id session_id r.finished_tools)
          ∙ if_present (text_eq c call_id) session_id (lookup call_id r.finished_tools),
    )
  where
    if_present :
        (b : Bool) (s : Text) (o : Option Text)
        → is_present (if b then some s else o) ≡ (if b then true else is_present o)
    if_present true s o = refl
    if_present false s o = refl

if_same {ℓ} : {A : Type ℓ} (b : Bool) (x : A) → x ≡ (if b then x else x)
if_same true x = refl
if_same false x = refl

if_itself : (b : Bool) → b ≡ (if b then true else false)
if_itself true = refl
if_itself false = refl

-- A call that is reported: the same one or another.
report-Counts :
    (is_it was_finished : Bool) (call_id : Text) (status : ToolStatus) (r t : TelemetryRecorder)
    → (is_it ≡ true → was_finished ≡ is_finished call_id r)
    → outcomes call_id t.signals ≡ (
        if was_finished
        then outcomes call_id r.signals
        else (if is_it then status ∷ [] else []) ++ outcomes call_id r.signals)
    → is_finished call_id t ≡ (
        if was_finished
        then is_finished call_id r
        else (if is_it then true else is_finished call_id r))
    → Counts call_id (if is_it then some status else none) r t
unfolding is_present
report-Counts true true call_id status r t same c f = record {
  counted = rw (← same refl) c;
  finished = rw (← same refl) (f ∙ sym (same refl));
}
report-Counts true false call_id status r t same c f = record {
  counted = rw (← same refl) c;
  finished = rw (← same refl) f;
}
report-Counts false true call_id status r t same c f = record {
  counted = c ∙ if_same (is_finished call_id r) (outcomes call_id r.signals);
  finished = f ∙ if_itself (is_finished call_id r);
}
report-Counts false false call_id status r t same c f = record {
  counted = c ∙ if_same (is_finished call_id r) (outcomes call_id r.signals);
  finished = f ∙ if_itself (is_finished call_id r);
}

unchanged-Counts : (call_id : Text) (r : TelemetryRecorder) → Counts call_id none r r
unfolding is_present
unchanged-Counts call_id r = record {
  counted = if_same (is_finished call_id r) (outcomes call_id r.signals);
  finished = if_itself (is_finished call_id r);
}

if_ap {ℓ} :
    {A : Type ℓ} (f : TelemetryRecorder → A) (b : Bool) (r t : TelemetryRecorder) (x : A)
    → f t ≡ x
    → f (if b then r else t) ≡ (if b then f r else x)
if_ap f true r t x e = refl
if_ap f false r t x e = e

finish_tool-Counts :
    (c : Text) (outcome : ToolOutcome) (now : ℕ) (r : TelemetryRecorder) (call_id : Text)
    → Counts call_id
        (if text_eq c call_id then some outcome.status else none)
        r
        (finish_tool c outcome now r)
unfolding finish_tool
finish_tool-Counts c outcome now r call_id =
    let same : text_eq c call_id ≡ true → is_finished c r ≡ is_finished call_id r =
      λ e. ap (λ i. is_finished i r) ((text_eq_iff c call_id).0 e) in
    let (signals, finished) = record_tool-effect (lookup c r.tools) c outcome now r call_id in
    report-Counts (text_eq c call_id) (is_finished c r) call_id outcome.status r
      (finish_tool c outcome now r) same
      (if_ap (λ t. outcomes call_id t.signals) (is_finished c r) r _ _ signals)
      (if_ap (λ t. is_finished call_id t) (is_finished c r) r _ _ finished)

on_part_status-Counts :
    (status : PartStatus) (p : ToolPart) (now : ℕ) (r : TelemetryRecorder) (call_id : Text)
    → Counts call_id
        (if text_eq p.call_id call_id then status_of status else none)
        r
        (on_part_status status p now r)
unfolding on_part_status part_outcome
on_part_status-Counts completed p now r call_id =
    finish_tool-Counts p.call_id (part_outcome ok p) now r call_id
on_part_status-Counts failed p now r call_id =
    finish_tool-Counts p.call_id (part_outcome error p) now r call_id
on_part_status-Counts running p now r call_id =
    rw (← if_same {A = Option ToolStatus} (text_eq p.call_id call_id) none)
      (unchanged-Counts call_id r)

on_report-Counts :
    (x : Report) (now : ℕ) (r : TelemetryRecorder) (call_id : Text)
    → Counts call_id (final_status call_id x) r (on_report x now r)
unfolding on_report on_tool_after on_part_updated final_status
on_report-Counts (after c tool session_id) now r call_id =
    finish_tool-Counts c
      (record { tool = tool; session_id = session_id; status = ok; duration_ms = none }) now r
      call_id
on_report-Counts (part p) now r call_id = elim (Bool-cases (text_eq p.call_id [])) [
  | inl e ↦ rw e (unchanged-Counts call_id r)
  | inr e ↦ rw e (on_part_status-Counts p.status p now r call_id)
]

later :
    (b : Bool) (said : Option ToolStatus) (rest before now_counted : List ToolStatus) (c : Bool)
    → now_counted
      ≡ (if b then before else (elim said [ none ↦ before | some status ↦ status ∷ before ]))
    → c ≡ (if b then true else is_present said)
    → (if c then [] else rest) ++ now_counted
      ≡ (if b then [] else (elim said [ none ↦ rest | some status ↦ status ∷ [] ])) ++ before
unfolding is_present
later true said rest before now_counted c h k = rw k h
later false none rest before now_counted c h k = rw (k, h) refl
later false (some status) rest before now_counted c h k = rw k h

run_tool_reports-outcomes :
    (call_id : Text) (xs : List (Report × ℕ)) (r : TelemetryRecorder)
    → outcomes call_id (run_tool_reports xs r).signals
      ≡ (if is_finished call_id r then [] else first_status call_id xs)
        ++ outcomes call_id r.signals
unfolding run_tool_reports
run_tool_reports-outcomes call_id [] r =
    ap (λ l. l ++ outcomes call_id r.signals) (if_same (is_finished call_id r) [])
run_tool_reports-outcomes call_id ((x, now) ∷ xs) r =
    let first = on_report-Counts x now r call_id in
    run_tool_reports-outcomes call_id xs (on_report x now r)
    ∙ later (is_finished call_id r) (final_status call_id x) (first_status call_id xs)
        (outcomes call_id r.signals) _ _ (first.counted) (first.finished)

-- Every tool call is counted once, with the outcome that is reported first: over any sequence of reports
-- of any calls, by the hook after a tool and by the updates of its part, in any order and repeated, a
-- new recorder counts for a call the first final status that is reported, and nothing else.
pub run_tool_reports-once :
    (call_id : Text) (xs : List (Report × ℕ))
    → outcomes call_id (run_tool_reports xs new_recorder).signals ≡ first_status call_id xs
unfolding lookup is_present
run_tool_reports-once call_id xs =
    run_tool_reports-outcomes call_id xs new_recorder ∙ append-nil (first_status call_id xs)
