-- ===== src/Telemetry/Recorder/Diffs.antt =====
-- packages/opencode-core-otel/src/recorder.ts: the lines of code that are counted from cumulative diffs.
use lightbridge_opencode_too.Common.{
  ℕ, zero, suc, ◌+◌, ◌-◌, ◌≤◌, ◌≡◌, refl, ap, ◌∙◌, Bool, true, false, ◌&&◌, Option, some, List, [],
  ◌∷◌, arith, or_else, if◌then◌else◌, Bool-cases, inl, inr,
}
use lightbridge_opencode_too.Common.Text.{Text, text_eq, text_eq_iff}
use lightbridge_opencode_too.Common.Maps.{lookup, set, lookup-set, beq_refl, Text_eq}
use lightbridge_opencode_too.Telemetry.{
  Diff, Signal, lines_added, lines_removed, TelemetryRecorder, new_recorder,
}
use lightbridge_opencode_too.Telemetry.Recorder.{
  diff_key, signal, is_present, ensure_session, FileDiff, no_diff, signal_if, on_file_diff,
  on_file_diffs, on_session_diff,
}

-- The lines of a signal for one session and file, and for one direction.
unfoldable pub added_by : Text → Text → Signal → ℕ
added_by session_id file (lines_added s f n) =
    if text_eq s session_id && text_eq f file then n else 0
added_by session_id file s = 0

unfoldable pub removed_by : Text → Text → Signal → ℕ
removed_by session_id file (lines_removed s f n) =
    if text_eq s session_id && text_eq f file then n else 0
removed_by session_id file s = 0

abbrev pub total : (Signal → ℕ) → List Signal → ℕ
total f [] = 0
total f (s ∷ ss) = f s + total f ss

-- What the recorder holds of a file.
abbrev last_diff : Text → Text → TelemetryRecorder → Diff
last_diff session_id file r = or_else (lookup (diff_key session_id file) r.diffs) no_diff

abbrev diff_of : FileDiff → Diff
diff_of entry = record { additions = entry.additions; deletions = entry.deletions }

-- The totals of a file after those that are known and a report: those of its last entry in the report.
abbrev pub reported : List FileDiff → (Text → Diff) → Text → Diff
reported [] known file = known file
reported (entry ∷ entries) known file =
    reported entries (λ f. if text_eq entry.file f then diff_of entry else known f) file

-- The totals of a file that were last reported, over all reports.
abbrev pub last_reported : List (List FileDiff × ℕ) → (Text → Diff) → Text → Diff
last_reported [] known file = known file
last_reported ((entries, now) ∷ reports) known file =
    last_reported reports (reported entries known) file

-- No entry takes back lines that are known of its file.
abbrev pub IsCumulative : List FileDiff → (Text → Diff) → Type 0
IsCumulative [] known = Unit
IsCumulative (entry ∷ entries) known =
    ((known entry.file).additions ≤ entry.additions)
    × ((known entry.file).deletions ≤ entry.deletions)
    × IsCumulative entries (λ f. if text_eq entry.file f then diff_of entry else known f)

abbrev pub AreCumulative : List (List FileDiff × ℕ) → (Text → Diff) → Type 0
AreCumulative [] known = Unit
AreCumulative ((entries, now) ∷ reports) known =
    IsCumulative entries known × AreCumulative reports (reported entries known)

abbrev pub nothing_known : Text → Diff
nothing_known file = no_diff

-- The table of the recorder holds what is known of the session.
abbrev Agrees : Text → (Text → Diff) → TelemetryRecorder → Type 0
Agrees session_id known r = (file : Text) → last_diff session_id file r ≡ known file

diff_key_eq :
    (session_id f g : Text) → text_eq (diff_key session_id f) (diff_key session_id g) ≡ text_eq f g
unfolding diff_key text_eq
diff_key_eq [] f g = refl
diff_key_eq (c ∷ s) f g = ground (arith, diff_key_eq s f g)

-- What was counted, and what was last reported, move together.
record IsCounted (session_id file : Text) (r t : TelemetryRecorder) : Type 0 where
  added :
      total (added_by session_id file) t.signals + (last_diff session_id file r).additions
      ≡ total (added_by session_id file) r.signals + (last_diff session_id file t).additions
  removed :
      total (removed_by session_id file) t.signals + (last_diff session_id file r).deletions
      ≡ total (removed_by session_id file) r.signals + (last_diff session_id file t).deletions

total-signal_if :
    (f : Signal → ℕ) (n : ℕ) (s : Signal) (r : TelemetryRecorder)
    → (n ≡ 0 → f s ≡ 0)
    → total f (signal_if n s r).signals ≡ f s + total f r.signals
unfolding signal_if signal
total-signal_if f zero s r h = omega (arith, h refl)
total-signal_if f (suc n) s r h = refl

signal_if-diffs : (n : ℕ) (s : Signal) (r : TelemetryRecorder) → (signal_if n s r).diffs ≡ r.diffs
unfolding signal_if signal
signal_if-diffs zero s r = refl
signal_if-diffs (suc n) s r = refl

if_zero : (b : Bool) (n : ℕ) → n ≡ 0 → (if b then n else 0) ≡ 0
if_zero true n h = h
if_zero false n h = refl

-- The recorder with the totals of one report.
noted : Text → FileDiff → TelemetryRecorder → TelemetryRecorder
noted session_id entry r = record r {
  diffs =
      set (diff_key session_id entry.file)
        (record { additions = entry.additions; deletions = entry.deletions }) r.diffs;
}

last_diff-noted :
    (session_id file : Text) (entry : FileDiff) (r : TelemetryRecorder)
    → last_diff session_id file (noted session_id entry r) ≡ (
        if text_eq entry.file file
        then record { additions = entry.additions; deletions = entry.deletions }
        else last_diff session_id file r)
unfolding noted
last_diff-noted session_id file entry r =
    rw
      (
        lookup-set (diff_key session_id entry.file) (diff_key session_id file)
            (record { additions = entry.additions; deletions = entry.deletions }) r.diffs,
        diff_key_eq session_id entry.file file,
      )
      (if_or_else (text_eq entry.file file) _ (lookup (diff_key session_id file) r.diffs))
  where
    if_or_else :
        (b : Bool) (d : Diff) (o : Option Diff)
        → or_else (if b then some d else o) no_diff ≡ (if b then d else or_else o no_diff)
    if_or_else true d o = refl
    if_or_else false d o = refl

on_file_diff-signals :
    (session_id file : Text) (entry : FileDiff) (r : TelemetryRecorder)
    → (total (added_by session_id file) (on_file_diff session_id entry r).signals
        ≡ (if text_eq entry.file file
            then entry.additions - (last_diff session_id entry.file r).additions
            else 0)
          + total (added_by session_id file) r.signals)
      × (total (removed_by session_id file) (on_file_diff session_id entry r).signals
          ≡ (if text_eq entry.file file
              then entry.deletions - (last_diff session_id entry.file r).deletions
              else 0)
            + total (removed_by session_id file) r.signals)
      × ((on_file_diff session_id entry r).diffs ≡ (noted session_id entry r).diffs)
unfolding on_file_diff added_by removed_by noted
on_file_diff-signals session_id file entry r =
    let added = entry.additions - (last_diff session_id entry.file r).additions in
    let removed = entry.deletions - (last_diff session_id entry.file r).deletions in
    let base = noted session_id entry r in
    let plus = lines_added session_id entry.file added in
    let minus = lines_removed session_id entry.file removed in
    let once = signal_if added plus base in
    let self : text_eq session_id session_id ≡ true = beq_refl session_id in
    let counts = text_eq session_id session_id && text_eq entry.file file in
    let added_own : (if counts then added else 0) ≡ (if text_eq entry.file file then added else 0) =
      rw self refl in
    let removed_own : (if counts then removed else 0)
        ≡ (if text_eq entry.file file then removed else 0) =
      rw self refl in
    let added_later = total-signal_if (added_by session_id file) removed minus once (λ e. refl) in
    let added_now =
      total-signal_if (added_by session_id file) added plus base (if_zero counts added) in
    let removed_now =
      total-signal_if (removed_by session_id file) removed minus once (if_zero counts removed) in
    let removed_before = total-signal_if (removed_by session_id file) added plus base (λ e. refl) in
    (
      omega (arith, added_own, added_later, added_now),
      omega (arith, removed_own, removed_now, removed_before),
      signal_if-diffs removed minus once ∙ signal_if-diffs added plus base,
    )

-- What is new of a total, where the report is about the file in question.
counted :
    (is_it : Bool) (new old last later now seen : ℕ)
    → (is_it ≡ true → old ≡ last)
    → old ≤ new
    → later ≡ (if is_it then new - old else 0) + now
    → seen ≡ (if is_it then new else last)
    → later + last ≡ now + seen
counted true new old last later now seen same h e f = omega (arith, same refl, h, e, f)
counted false new old last later now seen same h e f = omega (arith, e, f)

if_field :
    (field : Diff → ℕ) (b : Bool) (d e : Diff)
    → field (if b then d else e) ≡ (if b then field d else field e)
if_field field true d e = refl
if_field field false d e = refl

last_diff-on_file_diff :
    (session_id file : Text) (entry : FileDiff) (r : TelemetryRecorder)
    → last_diff session_id file (on_file_diff session_id entry r)
      ≡ (if text_eq entry.file file then diff_of entry else last_diff session_id file r)
last_diff-on_file_diff session_id file entry r =
    let (added, removed, diffs) = on_file_diff-signals session_id file entry r in
    ap (λ m. or_else (lookup (diff_key session_id file) m) no_diff) diffs
    ∙ last_diff-noted session_id file entry r

on_file_diff-Agrees :
    (session_id : Text) (entry : FileDiff) (known : Text → Diff) (r : TelemetryRecorder)
    → Agrees session_id known r
    → Agrees session_id
        (λ f. if text_eq entry.file f then diff_of entry else known f)
        (on_file_diff session_id entry r)
on_file_diff-Agrees session_id entry known r h file =
    last_diff-on_file_diff session_id file entry r
    ∙ ap (λ d. if text_eq entry.file file then diff_of entry else d) (h file)

on_file_diff-IsCounted :
    (session_id file : Text) (entry : FileDiff) (r : TelemetryRecorder)
    → (last_diff session_id entry.file r).additions ≤ entry.additions
    → (last_diff session_id entry.file r).deletions ≤ entry.deletions
    → IsCounted session_id file r (on_file_diff session_id entry r)
on_file_diff-IsCounted session_id file entry r ha hd =
    let (added, removed, diffs) = on_file_diff-signals session_id file entry r in
    let seen = last_diff-on_file_diff session_id file entry r in
    let is_it = text_eq entry.file file in
    let t = on_file_diff session_id entry r in
    let before = last_diff session_id entry.file r in
    let last = last_diff session_id file r in
    let newest = diff_of entry in
    let same : is_it ≡ true → before ≡ last =
      λ e. ap (λ f. last_diff session_id f r) ((text_eq_iff entry.file file).0 e) in
    record {
      added =
          counted is_it entry.additions before.additions last.additions
            (total (added_by session_id file) t.signals)
            (total (added_by session_id file) r.signals) (last_diff session_id file t).additions
            (λ e. ap (λ (d : Diff). d.additions) (same e)) ha added
            (ap (λ (d : Diff). d.additions) seen
              ∙ if_field (λ (d : Diff). d.additions) is_it newest last);
      removed =
          counted is_it entry.deletions before.deletions last.deletions
            (total (removed_by session_id file) t.signals)
            (total (removed_by session_id file) r.signals) (last_diff session_id file t).deletions
            (λ e. ap (λ (d : Diff). d.deletions) (same e)) hd removed
            (ap (λ (d : Diff). d.deletions) seen
              ∙ if_field (λ (d : Diff). d.deletions) is_it newest last);
    }

-- A report is counted, and the table then holds what was reported.
on_file_diffs-IsCounted :
    (session_id file : Text) (entries : List FileDiff) (known : Text → Diff) (r : TelemetryRecorder)
    → Agrees session_id known r
    → IsCumulative entries known
    → IsCounted session_id file r (on_file_diffs session_id entries r)
      × Agrees session_id (reported entries known) (on_file_diffs session_id entries r)
unfolding on_file_diffs
on_file_diffs-IsCounted session_id file [] known r same h =
    (record { added = refl; removed = refl }, same)
on_file_diffs-IsCounted session_id file (entry ∷ entries) known r same (ha, hd, h) =
    let before = same entry.file in
    let first =
      on_file_diff-IsCounted session_id file entry r
        (omega (arith, ha, ap (λ (d : Diff). d.additions) before))
        (omega (arith, hd, ap (λ (d : Diff). d.deletions) before)) in
    let (rest, later) =
      on_file_diffs-IsCounted session_id file entries
        (λ f. if text_eq entry.file f then diff_of entry else known f)
        (on_file_diff session_id entry r) (on_file_diff-Agrees session_id entry known r same) h in
    (
      record {
        added = omega (arith, first.added, rest.added);
        removed = omega (arith, first.removed, rest.removed);
      },
      later,
    )

ensure_session-IsCounted :
    (session_id file : Text) (now : ℕ) (r : TelemetryRecorder)
    → IsCounted session_id file r (ensure_session session_id now r)
unfolding ensure_session
ensure_session-IsCounted session_id file now r =
    elim (Bool-cases (is_present (lookup session_id r.sessions))) [
      | inl e ↦ rw e (record { added = refl; removed = refl })
      | inr e ↦ rw e (record { added = refl; removed = refl })
    ]

ensure_session-diffs :
    (session_id : Text) (now : ℕ) (r : TelemetryRecorder)
    → (ensure_session session_id now r).diffs ≡ r.diffs
unfolding ensure_session
ensure_session-diffs session_id now r =
    elim (Bool-cases (is_present (lookup session_id r.sessions))) [
      | inl e ↦ rw e refl
      | inr e ↦ rw e refl
    ]

-- The reports of a session, each at its time.
unfoldable pub run_reports : Text → List (List FileDiff × ℕ) → TelemetryRecorder → TelemetryRecorder
run_reports session_id [] r = r
run_reports session_id ((entries, now) ∷ reports) r =
    run_reports session_id reports (on_session_diff session_id entries now r)

run_reports-IsCounted :
    (session_id file : Text) (reports : List (List FileDiff × ℕ)) (known : Text → Diff)
    (r : TelemetryRecorder)
    → Agrees session_id known r
    → AreCumulative reports known
    → IsCounted session_id file r (run_reports session_id reports r)
      × (last_diff session_id file (run_reports session_id reports r)
          ≡ last_reported reports known file)
unfolding run_reports on_session_diff
run_reports-IsCounted session_id file [] known r same h =
    (record { added = refl; removed = refl }, same file)
run_reports-IsCounted session_id file ((entries, now) ∷ reports) known r same (h, hs) =
    let s = ensure_session session_id now r in
    let zeroth = ensure_session-IsCounted session_id file now r in
    let kept : Agrees session_id known s = λ f.
      ap (λ m. or_else (lookup (diff_key session_id f) m) no_diff)
        (ensure_session-diffs session_id now r)
      ∙ same f in
    let (first, after) = on_file_diffs-IsCounted session_id file entries known s kept h in
    let (rest, last) =
      run_reports-IsCounted session_id file reports (reported entries known)
        (on_file_diffs session_id entries s) after hs in
    (
      record {
        added = omega (arith, zeroth.added, first.added, rest.added);
        removed = omega (arith, zeroth.removed, first.removed, rest.removed);
      },
      last,
    )

-- The lines of code that a new recorder counts for a file of a session, over any number of reports of
-- which each repeats the whole diff, are those of the last entry for the file in the reports, and none
-- where there is no such entry, provided that no entry takes back lines that an earlier one for its file
-- reported.
pub run_reports-counts :
    (session_id file : Text) (reports : List (List FileDiff × ℕ))
    → AreCumulative reports nothing_known
    → (total (added_by session_id file) (run_reports session_id reports new_recorder).signals
        ≡ (last_reported reports nothing_known file).additions)
      × (total (removed_by session_id file) (run_reports session_id reports new_recorder).signals
          ≡ (last_reported reports nothing_known file).deletions)
unfolding lookup
run_reports-counts session_id file reports h =
    let (all, last) =
      run_reports-IsCounted session_id file reports nothing_known new_recorder (λ f. refl) h in
    (
      omega (arith, all.added, ap (λ (d : Diff). d.additions) last),
      omega (arith, all.removed, ap (λ (d : Diff). d.deletions) last),
    )
