-- ===== src/Telemetry/Tests.antt =====
-- Runs of the recorder, and the theorems at concrete inputs.
use lightbridge_opencode_too.Common.{ℕ, ◌≡◌, ◌≤◌, refl, true, false, some, List, [], ◌∷◌, arith}
use lightbridge_opencode_too.Common.Text.{codes, text_eq}
use lightbridge_opencode_too.Common.Maps.{lookup, set, delete}
use lightbridge_opencode_too.Telemetry.{new_recorder}
use lightbridge_opencode_too.Telemetry.Recorder.{FileDiff, failed}
use lightbridge_opencode_too.Telemetry.Recorder.Diffs.{
  run_reports, added_by, removed_by, total, last_reported, nothing_known, AreCumulative,
  run_reports-counts,
}
use lightbridge_opencode_too.Telemetry.Recorder.Tools.{
  Report, after, part, outcomes, first_status, run_tool_reports, run_tool_reports-once,
}
use lightbridge_opencode_too.Telemetry.Held.{times_ended, balance, credit}
use lightbridge_opencode_too.Telemetry.Lifecycle.{
  forget_session, session_deleted, permission_asked, RecorderEvent, session_created,
  session_compacted, chat_params, tool_before, tool_after, shutdown, run_events,
}
use lightbridge_opencode_too.Telemetry.Lifecycle.Events.{run_events-spans}
use lightbridge_opencode_too.Telemetry.Lifecycle.Forgotten.{IsForgotten, forget_session-IsForgotten}

-- The same file is reported with 3 and then with 5 lines.
abbrev grown : List (List FileDiff × ℕ)
grown =
    (record { file = codes "a"; additions = 3; deletions = 1 } ∷ [], 10)
    ∷ (record { file = codes "a"; additions = 5; deletions = 1 } ∷ [], 20)
    ∷ []

grown-AreCumulative : AreCumulative grown nothing_known
unfolding text_eq
grown-AreCumulative = ((omega arith, omega arith, tt), ((omega arith, omega arith, tt), tt))

run_reports-counts_example :
    (total (added_by (codes "s") (codes "a")) (run_reports (codes "s") grown new_recorder).signals
      ≡ (last_reported grown nothing_known (codes "a")).additions)
    × (total
          (removed_by (codes "s") (codes "a"))
          (run_reports (codes "s") grown new_recorder).signals
        ≡ (last_reported grown nothing_known (codes "a")).deletions)
run_reports-counts_example = run_reports-counts (codes "s") (codes "a") grown grown-AreCumulative

-- What was last reported of the file: 5 lines.
grown_last : (last_reported grown nothing_known (codes "a")).additions ≡ 5
unfolding text_eq
grown_last = refl

-- A part that failed, and then the hook.
abbrev twice : List (Report × ℕ)
twice =
    (
      part (record {
        call_id = codes "c";
        tool = some (codes "bash");
        session_id = some (codes "s");
        status = failed;
        start = some 5;
        finish = some 9;
      }),
      10,
    )
    ∷ (after (codes "c") (codes "bash") (codes "s"), 11)
    ∷ []

run_tool_reports-once_example :
    outcomes (codes "c") (run_tool_reports twice new_recorder).signals
    ≡ first_status (codes "c") twice
run_tool_reports-once_example = run_tool_reports-once (codes "c") twice

-- A session with a tool call and a chat, of which one is finished when the session goes.
abbrev worked : List (RecorderEvent × ℕ)
worked =
    (session_created (codes "s"), 1)
    ∷ (chat_params (codes "s"), 2)
    ∷ (tool_before (codes "s") (codes "c") (codes "bash"), 3)
    ∷ (tool_after (codes "s") (codes "c") (codes "bash"), 4)
    ∷ (session_compacted (codes "s"), 5)
    ∷ (tool_before (codes "s") (codes "d") (codes "bash"), 6)
    ∷ []

run_events-spans_example :
    (balance 0 (run_events true (λ tool. false) worked new_recorder)
      ≤ credit 0 (run_events true (λ tool. false) worked new_recorder))
    × (times_ended 0 (shutdown 9 (run_events true (λ tool. false) worked new_recorder)).ended
        ≡ balance 0 (run_events true (λ tool. false) worked new_recorder))
run_events-spans_example = run_events-spans true (λ tool. false) worked 0 9

-- The spans that are ended, the last first: the tool call and the compaction; then the session, the chat
-- that is pending and the call under way.
ended_by_then : (run_events true (λ tool. false) worked new_recorder).ended ≡ 3 ∷ 2 ∷ []
unfolding run_events lookup set text_eq
ended_by_then = refl

ended_in_all :
    (shutdown 9 (run_events true (λ tool. false) worked new_recorder)).ended
    ≡ 4 ∷ 1 ∷ 0 ∷ 3 ∷ 2 ∷ []
unfolding run_events shutdown lookup set text_eq delete
ended_in_all = refl

-- A session that is created again loses its first span, which nothing ends.
recreated :
    (shutdown 9 (
      run_events true
        (λ tool. false)
        ((session_created (codes "s"), 1) ∷ (session_created (codes "s"), 2) ∷ [])
        new_recorder)).ended
    ≡ 1 ∷ []
unfolding run_events shutdown set text_eq
recreated = refl

forget_session-IsForgotten_example :
    IsForgotten
      (codes "s")
      (run_events true (λ tool. false) worked new_recorder)
      (forget_session (codes "s") 9 (run_events true (λ tool. false) worked new_recorder))
forget_session-IsForgotten_example =
    forget_session-IsForgotten (codes "s") 9 (run_events true (λ tool. false) worked new_recorder)

-- A permission that was decided without a prompt is not dropped with its session.
undropped :
    (run_events true
      (λ tool. false)
      ((permission_asked (codes "s") (codes "p") (codes "bash") (some (codes "allow")), 1)
        ∷ (session_deleted (codes "s"), 2)
        ∷ [])
      new_recorder).auto_decided
    ≡ codes "p" ∷ []
unfolding run_events lookup set text_eq delete
undropped = refl
