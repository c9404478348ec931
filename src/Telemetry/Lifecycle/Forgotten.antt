-- ===== src/Telemetry/Lifecycle/Forgotten.antt =====
-- packages/opencode-core-otel/src/recorder.ts: forgetSession drops what a session owns, and nothing else.
use lightbridge_opencode_too.Common.{
  ℕ, ◌≡◌, refl, sym, ap, ◌∙◌, Bool, true, false, Option, none, some, [], ◌∷◌, if◌then◌else◌,
  Bool-cases, inl, inr,
}
use lightbridge_opencode_too.Common.Text.{Text, text_eq, text_eq_iff, starts_with}
use lightbridge_opencode_too.Common.Maps.{Map, lookup, delete, lookup-set, lookup-delete, Text_eq}
use lightbridge_opencode_too.Telemetry.{
  SessionState, ToolSpanState, ChatState, Diff, TelemetryRecorder,
}
use lightbridge_opencode_too.Telemetry.Recorder.{
  diff_key, signal, end_span, settle, settle_active_time, unowned, prune_completed,
}
use lightbridge_opencode_too.Telemetry.Chats.{span_of_chat}
use lightbridge_opencode_too.Telemetry.Lifecycle.{
  end_chats, other_chats, end_tools, other_tools, other_diffs, other_permissions, end_session,
  forget_session,
}
use lightbridge_opencode_too.Telemetry.Lifecycle.Spans.{
  sessions-end_span, sessions-end_chats, sessions-end_tools,
}

-- The entries of a table that fail a test, in their order.
unfoldable pub dropping {ℓ} : {V : Type ℓ} → (Text → V → Bool) → Map Text V → Map Text V
dropping test [] = []
dropping test ((k, v) ∷ m) = let rest = dropping test m in if test k v then rest else (k, v) ∷ rest

-- The tables but that of the sessions stay.
record IsUntouched (r r' : TelemetryRecorder) : Type 0 where
  chats : r'.chats ≡ r.chats
  pending : r'.pending_chats ≡ r.pending_chats
  tools : r'.tools ≡ r.tools
  diffs : r'.diffs ≡ r.diffs
  permissions : r'.permissions ≡ r.permissions
  finalized : r'.finalized_messages ≡ r.finalized_messages
  finished : r'.finished_tools ≡ r.finished_tools

IsUntouched-refl : (r : TelemetryRecorder) → IsUntouched r r
IsUntouched-refl r = record {
  chats = refl;
  pending = refl;
  tools = refl;
  diffs = refl;
  permissions = refl;
  finalized = refl;
  finished = refl;
}

IsUntouched-trans :
    (r s t : TelemetryRecorder) → IsUntouched r s → IsUntouched s t → IsUntouched r t
IsUntouched-trans r s t h k = record {
  chats = k.chats ∙ h.chats;
  pending = k.pending ∙ h.pending;
  tools = k.tools ∙ h.tools;
  diffs = k.diffs ∙ h.diffs;
  permissions = k.permissions ∙ h.permissions;
  finalized = k.finalized ∙ h.finalized;
  finished = k.finished ∙ h.finished;
}

end_span-IsUntouched : (o : Option ℕ) (r : TelemetryRecorder) → IsUntouched r (end_span o r)
unfolding end_span
end_span-IsUntouched none r = IsUntouched-refl r
end_span-IsUntouched (some m) r = record {
  chats = refl;
  pending = refl;
  tools = refl;
  diffs = refl;
  permissions = refl;
  finalized = refl;
  finished = refl;
}

branch-IsUntouched :
    (b : Bool) (r s : TelemetryRecorder) → IsUntouched r s → IsUntouched r (if b then s else r)
branch-IsUntouched true r s h = h
branch-IsUntouched false r s h = IsUntouched-refl r

end_chats-IsUntouched :
    (id : Text) (m : Map Text ChatState) (r : TelemetryRecorder) → IsUntouched r (end_chats id m r)
unfolding end_chats
end_chats-IsUntouched id [] r = IsUntouched-refl r
end_chats-IsUntouched id ((k, chat) ∷ m) r =
    let b = text_eq chat.session_id id in
    let s = if b then end_span chat.span r else r in
    IsUntouched-trans r s (end_chats id m s)
      (branch-IsUntouched b r (end_span chat.span r) (end_span-IsUntouched chat.span r))
      (end_chats-IsUntouched id m s)

end_tools-IsUntouched :
    (id : Text) (m : Map Text ToolSpanState) (r : TelemetryRecorder)
    → IsUntouched r (end_tools id m r)
unfolding end_tools
end_tools-IsUntouched id [] r = IsUntouched-refl r
end_tools-IsUntouched id ((k, tool) ∷ m) r =
    let b = text_eq tool.session_id id in
    let s = if b then end_span tool.span r else r in
    IsUntouched-trans r s (end_tools id m s)
      (branch-IsUntouched b r (end_span tool.span r) (end_span-IsUntouched tool.span r))
      (end_tools-IsUntouched id m s)

settle-IsUntouched :
    (o : Option ℕ) (id : Text) (state : SessionState) (now : ℕ) (r : TelemetryRecorder)
    → IsUntouched r (settle o id state now r)
unfolding settle signal
settle-IsUntouched none id state now r = IsUntouched-refl r
settle-IsUntouched (some since) id state now r = record {
  chats = refl;
  pending = refl;
  tools = refl;
  diffs = refl;
  permissions = refl;
  finalized = refl;
  finished = refl;
}

end_session-IsUntouched :
    (o : Option SessionState) (id : Text) (now : ℕ) (r : TelemetryRecorder)
    → IsUntouched r (end_session o id now r)
unfolding end_session settle_active_time
end_session-IsUntouched none id now r = IsUntouched-refl r
end_session-IsUntouched (some state) id now r =
    let s = settle state.busy_since id state now r in
    let e =
      IsUntouched-trans r s (end_span state.span s)
        (settle-IsUntouched state.busy_since id state now r) (end_span-IsUntouched state.span s) in
    record {
      chats = e.chats;
      pending = e.pending;
      tools = e.tools;
      diffs = e.diffs;
      permissions = e.permissions;
      finalized = e.finalized;
      finished = e.finished;
    }

-- Only the session's own state changes.
lookup-settle :
    (o : Option ℕ) (id j : Text) (state : SessionState) (now : ℕ) (r : TelemetryRecorder)
    → text_eq id j ≡ false
    → lookup j (settle o id state now r).sessions ≡ lookup j r.sessions
unfolding settle signal
lookup-settle none id j state now r e = refl
lookup-settle (some since) id j state now r e =
    lookup-set id j (record state { busy_since = none }) r.sessions ∙ rw e refl

lookup-end_session :
    (o : Option SessionState) (id j : Text) (now : ℕ) (r : TelemetryRecorder)
    → lookup id r.sessions ≡ o
    → lookup j (end_session o id now r).sessions
      ≡ (if text_eq id j then none else lookup j r.sessions)
unfolding end_session settle_active_time
lookup-end_session none id j now r found = elim (Bool-cases (text_eq id j)) [
  | inl e ↦ ap (λ k. lookup k r.sessions) (sym ((text_eq_iff id j).0 e)) ∙ found ∙ rw e refl
  | inr e ↦ rw e refl
]
lookup-end_session (some state) id j now r found =
    let s = settle state.busy_since id state now r in
    ap (λ m. lookup j (delete id m)) (sessions-end_span state.span s)
    ∙ lookup-delete id j s.sessions
    ∙ elim (Bool-cases (text_eq id j)) [
      | inl e ↦ rw e refl
      | inr e ↦ rw e (lookup-settle state.busy_since id j state now r e)
    ]

other_chats_lem :
    (id : Text) (m : Map Text ChatState)
    → other_chats id m ≡ dropping (λ k chat. text_eq chat.session_id id) m
unfolding other_chats dropping
other_chats_lem id [] = refl
other_chats_lem id ((k, chat) ∷ m) = rw (other_chats_lem id m) refl

other_tools_lem :
    (id : Text) (m : Map Text ToolSpanState)
    → other_tools id m ≡ dropping (λ k tool. text_eq tool.session_id id) m
unfolding other_tools dropping
other_tools_lem id [] = refl
other_tools_lem id ((k, tool) ∷ m) = rw (other_tools_lem id m) refl

other_diffs_lem :
    (id : Text) (m : Map Text Diff)
    → other_diffs id m ≡ dropping (λ k d. starts_with (diff_key id []) k) m
unfolding other_diffs dropping
other_diffs_lem id [] = refl
other_diffs_lem id ((k, d) ∷ m) = rw (other_diffs_lem id m) refl

other_permissions_lem :
    (id : Text) (m : Map Text (Text × Text))
    → other_permissions id m ≡ dropping (λ k p. text_eq p.1 id) m
unfolding other_permissions dropping
other_permissions_lem id [] = refl
other_permissions_lem id ((k, (type, owner)) ∷ m) = rw (other_permissions_lem id m) refl

unowned_lem :
    (id : Text) (m : Map Text Text) → unowned id m ≡ dropping (λ k owner. text_eq owner id) m
unfolding unowned dropping
unowned_lem id [] = refl
unowned_lem id ((k, owner) ∷ m) = rw (unowned_lem id m) refl

-- Every table without what the session owns in it.
pub record IsForgotten (id : Text) (r r' : TelemetryRecorder) : Type 0 where
  pub sessions :
      (j : Text) → lookup j r'.sessions ≡ (if text_eq id j then none else lookup j r.sessions)
  pub pending :
      (j : Text)
      → lookup j r'.pending_chats ≡ (if text_eq id j then none else lookup j r.pending_chats)
  pub chats : r'.chats ≡ dropping (λ k chat. text_eq chat.session_id id) r.chats
  pub tools : r'.tools ≡ dropping (λ k tool. text_eq tool.session_id id) r.tools
  pub diffs : r'.diffs ≡ dropping (λ k d. starts_with (diff_key id []) k) r.diffs
  pub permissions : r'.permissions ≡ dropping (λ k p. text_eq p.1 id) r.permissions
  pub finalized :
      r'.finalized_messages ≡ dropping (λ k owner. text_eq owner id) r.finalized_messages
  pub finished : r'.finished_tools ≡ dropping (λ k owner. text_eq owner id) r.finished_tools

-- After forgetSession the recorder has no state and no pending chat of the session, and its chats, tool
-- calls, diffs, permissions, finished messages and finished tool calls are the ones from before that
-- the session does not own, in their order; the states and the pending chats of other sessions stay.
pub forget_session-IsForgotten :
    (id : Text) (now : ℕ) (r : TelemetryRecorder) → IsForgotten id r (forget_session id now r)
unfolding forget_session prune_completed
forget_session-IsForgotten id now r =
    let s = end_session (lookup id r.sessions) id now r in
    let o = span_of_chat (lookup id s.pending_chats) in
    let p = end_span o s in
    let p' = record p { pending_chats = delete id p.pending_chats } in
    let c = end_chats id p.chats p' in
    let c' = record c { chats = other_chats id c.chats } in
    let t = end_tools id c.tools c' in
    let e =
      IsUntouched-trans r s p (end_session-IsUntouched (lookup id r.sessions) id now r)
        (end_span-IsUntouched o s) in
    let ec = end_chats-IsUntouched id p.chats p' in
    let et = end_tools-IsUntouched id c.tools c' in
    record {
      sessions = λ j.
          ap (lookup j) (
            sessions-end_tools id c.tools c'
            ∙ sessions-end_chats id p.chats p'
            ∙ sessions-end_span o s)
          ∙ lookup-end_session (lookup id r.sessions) id j now r refl;
      pending = λ j.
          ap (lookup j) (et.pending ∙ ec.pending)
          ∙ lookup-delete id j p.pending_chats
          ∙ ap (λ m. if text_eq id j then none else lookup j m) e.pending;
      chats = et.chats ∙ ap (other_chats id) (ec.chats ∙ e.chats) ∙ other_chats_lem id r.chats;
      tools = ap (other_tools id) (et.tools ∙ ec.tools ∙ e.tools) ∙ other_tools_lem id r.tools;
      diffs = ap (other_diffs id) (et.diffs ∙ ec.diffs ∙ e.diffs) ∙ other_diffs_lem id r.diffs;
      permissions =
          ap (other_permissions id) (et.permissions ∙ ec.permissions ∙ e.permissions)
          ∙ other_permissions_lem id r.permissions;
      finalized =
          ap (unowned id) (et.finalized ∙ ec.finalized ∙ e.finalized)
          ∙ unowned_lem id r.finalized_messages;
      finished =
          ap (unowned id) (et.finished ∙ ec.finished ∙ e.finished)
          ∙ unowned_lem id r.finished_tools;
    }
