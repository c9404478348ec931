-- ===== src/Telemetry/Spared.antt =====
-- packages/opencode-core-otel/src/recorder.ts: the steps that leave the spans alone.
use lightbridge_opencode_too.Common.{
  ℕ, ◌≡◌, refl, ap, ◌∙◌, Bool, true, false, Option, none, some, arith, if◌then◌else◌, Option-cases,
  inl, inr,
}
use lightbridge_opencode_too.Common.Text.{Text}
use lightbridge_opencode_too.Common.Maps.{Map, lookup, set, lookup-set, beq_refl, Text_eq}
use lightbridge_opencode_too.Telemetry.{SessionState, Signal, TelemetryRecorder}
use lightbridge_opencode_too.Telemetry.Recorder.{
  signal, is_present, new_session, ensure_session, settle, settle_active_time, prune_completed,
}
use lightbridge_opencode_too.Telemetry.Held.{
  is_span, span_in, held-set, session_span, balance, IsFair,
}

-- The tables that hold spans, and those that were ended, stay.
pub record IsSpared (r r' : TelemetryRecorder) : Type 0 where
  pub balances : (n : ℕ) → balance n r' ≡ balance n r
  pub next : r'.next_span ≡ r.next_span

pub IsSpared-IsFair : (n : ℕ) (r r' : TelemetryRecorder) → IsSpared r r' → IsFair n r r'
IsSpared-IsFair n r r' s = rw s.next (omega (arith, s.balances n))

pub IsSpared-refl : (r : TelemetryRecorder) → IsSpared r r
IsSpared-refl r = record { balances = λ n. refl; next = refl }

pub IsSpared-trans : (r s t : TelemetryRecorder) → IsSpared r s → IsSpared s t → IsSpared r t
IsSpared-trans r s t h k = record {
  balances = λ n. k.balances n ∙ h.balances n;
  next = k.next ∙ h.next;
}

branch-IsSpared :
    (r : TelemetryRecorder) (b : Bool) (x y : TelemetryRecorder)
    → (b ≡ true → IsSpared r x)
    → (b ≡ false → IsSpared r y)
    → IsSpared r (if b then x else y)
branch-IsSpared r true x y h k = h refl
branch-IsSpared r false x y h k = k refl

pub branch-IsFair :
    (n : ℕ) (r : TelemetryRecorder) (b : Bool) (x y : TelemetryRecorder)
    → IsFair n r x
    → IsFair n r y
    → IsFair n r (if b then x else y)
branch-IsFair n r true x y h k = h
branch-IsFair n r false x y h k = k

pub IsFair-refl : (n : ℕ) (r : TelemetryRecorder) → IsFair n r r
IsFair-refl n r = omega arith

absent :
    (id : Text) (m : Map Text SessionState) → is_present (lookup id m) ≡ false → lookup id m ≡ none
absent id m h = elim (Option-cases (lookup id m)) [
  | inl e ↦ e
  | inr found ↦ absurd (unfold is_present in false_true (rw (found.1) at h))
]
  where
    false_true : true ≡ false → ⊥
    false_true e = cc e

pub ensure_session-IsSpared :
    (id : Text) (now : ℕ) (r : TelemetryRecorder) → IsSpared r (ensure_session id now r)
unfolding ensure_session new_session
ensure_session-IsSpared id now r =
    branch-IsSpared r (is_present (lookup id r.sessions)) r
      (record r { sessions = set id (new_session none now) r.sessions }) (λ e. IsSpared-refl r)
      (λ e.
        let gone : lookup id r.sessions ≡ none = absent id r.sessions e in
        record {
          balances = λ n. omega (
            arith,
            held-set session_span n id (new_session none now) r.sessions,
            ap (span_in session_span n) gone,
          );
          next = refl;
        })

pub signal-IsSpared : (s : Signal) (r : TelemetryRecorder) → IsSpared r (signal s r)
unfolding signal
signal-IsSpared s r = record { balances = λ n. refl; next = refl }

-- A session keeps its span.
pub respan-IsSpared :
    (id : Text) (state state' : SessionState) (r : TelemetryRecorder)
    → lookup id r.sessions ≡ some state
    → state'.span ≡ state.span
    → IsSpared r (record r { sessions = set id state' r.sessions })
respan-IsSpared id state state' r found same = record {
  balances = λ n. omega (
    arith,
    held-set session_span n id state' r.sessions,
    ap (span_in session_span n) found,
    ap (is_span n) same,
  );
  next = refl;
}

settle-IsSpared :
    (o : Option ℕ) (id : Text) (state : SessionState) (now : ℕ) (r : TelemetryRecorder)
    → lookup id r.sessions ≡ some state
    → IsSpared r (settle o id state now r)
unfolding settle
settle-IsSpared none id state now r found = IsSpared-refl r
settle-IsSpared (some since) id state now r found =
    let r' = record r { sessions = set id (record state { busy_since = none }) r.sessions } in
    IsSpared-trans r r' _
      (respan-IsSpared id state (record state { busy_since = none }) r found refl)
      (signal-IsSpared _ r')

pub settle_active_time-IsSpared :
    (o : Option SessionState) (id : Text) (now : ℕ) (r : TelemetryRecorder)
    → lookup id r.sessions ≡ o
    → IsSpared r (settle_active_time o id now r)
unfolding settle_active_time
settle_active_time-IsSpared none id now r found = IsSpared-refl r
settle_active_time-IsSpared (some state) id now r found =
    settle-IsSpared state.busy_since id state now r found

settle-span :
    (o : Option ℕ) (id : Text) (state : SessionState) (now n : ℕ) (r : TelemetryRecorder)
    → lookup id r.sessions ≡ some state
    → span_in session_span n (lookup id (settle o id state now r).sessions) ≡ is_span n state.span
unfolding settle signal
settle-span none id state now n r found = ap (span_in session_span n) found
settle-span (some since) id state now n r found =
    ap (span_in session_span n) (lookup-set id id (record state { busy_since = none }) r.sessions)
    ∙ rw (beq_refl id) refl

pub settle_active_time-span :
    (o : Option SessionState) (id : Text) (now n : ℕ) (r : TelemetryRecorder)
    → lookup id r.sessions ≡ o
    → span_in session_span n (lookup id (settle_active_time o id now r).sessions)
      ≡ span_in session_span n o
unfolding settle_active_time
settle_active_time-span none id now n r found = ap (span_in session_span n) found
settle_active_time-span (some state) id now n r found =
    settle-span state.busy_since id state now n r found

pub prune_completed-IsSpared :
    (id : Text) (r : TelemetryRecorder) → IsSpared r (prune_completed id r)
unfolding prune_completed
prune_completed-IsSpared id r = record { balances = λ n. refl; next = refl }
