-- ===== src/Telemetry/Lifecycle/Spans.antt =====
-- packages/opencode-core-otel/src/recorder.ts: no span is ended twice, and the shutdown ends all that
-- are held.
use lightbridge_opencode_too.Common.{
  ℕ, ◌+◌, ◌≡◌, refl, sym, ap, ◌∙◌, Bool, true, false, Option, none, some, [], ◌∷◌, arith,
  if◌then◌else◌, Bool-cases, inl, inr,
}
use lightbridge_opencode_too.Common.Text.{Text, text_eq}
use lightbridge_opencode_too.Common.Maps.{Map, lookup, delete, Text_eq}
use lightbridge_opencode_too.Telemetry.{SessionState, ToolSpanState, ChatState, TelemetryRecorder}
use lightbridge_opencode_too.Telemetry.Recorder.{end_span, settle_active_time, prune_completed}
use lightbridge_opencode_too.Telemetry.Chats.{span_of_chat}
use lightbridge_opencode_too.Telemetry.Chats.Spans.{unpended-balance}
use lightbridge_opencode_too.Telemetry.Held.{
  is_span, times_ended, held, held-delete, session_span, chat_span, tool_held, IsFair, IsFair-trans,
}
use lightbridge_opencode_too.Telemetry.Spared.{
  IsSpared, IsSpared-IsFair, IsFair-refl, settle_active_time-IsSpared, settle_active_time-span,
}
use lightbridge_opencode_too.Telemetry.Spans.{closed-IsFair, credit_eq}
use lightbridge_opencode_too.Telemetry.Lifecycle.{
  end_chats, other_chats, end_tools, other_tools, other_diffs, other_permissions, undecided,
  end_session, forget_session,
}

-- A span is ended `k` times more, and the tables but that of the sessions stay.
pub record IsEnding (n k : ℕ) (r r' : TelemetryRecorder) : Type 0 where
  pub more : times_ended n r'.ended ≡ times_ended n r.ended + k
  pub chats : r'.chats ≡ r.chats
  pub pending : r'.pending_chats ≡ r.pending_chats
  pub tools : r'.tools ≡ r.tools
  pub next : r'.next_span ≡ r.next_span

pub end_span-IsEnding :
    (n : ℕ) (o : Option ℕ) (r : TelemetryRecorder) → IsEnding n (is_span n o) r (end_span o r)
unfolding end_span times_ended
end_span-IsEnding n none r = record {
  more = omega arith;
  chats = refl;
  pending = refl;
  tools = refl;
  next = refl;
}
end_span-IsEnding n (some m) r = record {
  more = omega arith;
  chats = refl;
  pending = refl;
  tools = refl;
  next = refl;
}

pub IsEnding-zero : (n : ℕ) (r : TelemetryRecorder) → IsEnding n 0 r r
IsEnding-zero n r = record {
  more = omega arith;
  chats = refl;
  pending = refl;
  tools = refl;
  next = refl;
}

pub IsEnding-trans :
    (n j k : ℕ) (r s t : TelemetryRecorder)
    → IsEnding n j r s
    → IsEnding n k s t
    → IsEnding n (j + k) r t
IsEnding-trans n j k r s t a b = record {
  more = omega (arith, a.more, b.more);
  chats = b.chats ∙ a.chats;
  pending = b.pending ∙ a.pending;
  tools = b.tools ∙ a.tools;
  next = b.next ∙ a.next;
}

branch-IsEnding :
    (n k : ℕ) (b : Bool) (r s : TelemetryRecorder)
    → IsEnding n k r s
    → IsEnding n (if b then k else 0) r (if b then s else r)
branch-IsEnding n k true r s h = h
branch-IsEnding n k false r s h = IsEnding-zero n r

-- The spans of the chats of a session.
owned_chats : ℕ → Text → Map Text ChatState → ℕ
owned_chats n id [] = 0
owned_chats n id ((k, chat) ∷ m) =
    (if text_eq chat.session_id id then is_span n chat.span else 0) + owned_chats n id m

end_chats-IsEnding :
    (n : ℕ) (id : Text) (m : Map Text ChatState) (r : TelemetryRecorder)
    → IsEnding n (owned_chats n id m) r (end_chats id m r)
unfolding owned_chats end_chats
end_chats-IsEnding n id [] r = IsEnding-zero n r
end_chats-IsEnding n id ((k, chat) ∷ m) r =
    let b = text_eq chat.session_id id in
    let s = if b then end_span chat.span r else r in
    IsEnding-trans n (if b then is_span n chat.span else 0) (owned_chats n id m) r s
      (end_chats id m s)
      (branch-IsEnding n (is_span n chat.span) b r (end_span chat.span r)
        (end_span-IsEnding n chat.span r))
      (end_chats-IsEnding n id m s)

held-other_chats :
    (n : ℕ) (id : Text) (m : Map Text ChatState)
    → held chat_span n (other_chats id m) + owned_chats n id m ≡ held chat_span n m
unfolding held other_chats owned_chats
held-other_chats n id [] = refl
held-other_chats n id ((k, chat) ∷ m) = elim (Bool-cases (text_eq chat.session_id id)) [
  | inl e ↦ rw e (omega (arith, held-other_chats n id m))
  | inr e ↦ rw e (omega (arith, held-other_chats n id m))
]

owned_tools : ℕ → Text → Map Text ToolSpanState → ℕ
owned_tools n id [] = 0
owned_tools n id ((k, tool) ∷ m) =
    (if text_eq tool.session_id id then is_span n tool.span else 0) + owned_tools n id m

end_tools-IsEnding :
    (n : ℕ) (id : Text) (m : Map Text ToolSpanState) (r : TelemetryRecorder)
    → IsEnding n (owned_tools n id m) r (end_tools id m r)
unfolding owned_tools end_tools
end_tools-IsEnding n id [] r = IsEnding-zero n r
end_tools-IsEnding n id ((k, tool) ∷ m) r =
    let b = text_eq tool.session_id id in
    let s = if b then end_span tool.span r else r in
    IsEnding-trans n (if b then is_span n tool.span else 0) (owned_tools n id m) r s
      (end_tools id m s)
      (branch-IsEnding n (is_span n tool.span) b r (end_span tool.span r)
        (end_span-IsEnding n tool.span r))
      (end_tools-IsEnding n id m s)

held-other_tools :
    (n : ℕ) (id : Text) (m : Map Text ToolSpanState)
    → held tool_held n (other_tools id m) + owned_tools n id m ≡ held tool_held n m
unfolding held other_tools owned_tools
held-other_tools n id [] = refl
held-other_tools n id ((k, tool) ∷ m) = elim (Bool-cases (text_eq tool.session_id id)) [
  | inl e ↦ rw e (omega (arith, held-other_tools n id m))
  | inr e ↦ rw e (omega (arith, held-other_tools n id m))
]

pub sessions-end_span :
    (o : Option ℕ) (r : TelemetryRecorder) → (end_span o r).sessions ≡ r.sessions
unfolding end_span
sessions-end_span none r = refl
sessions-end_span (some m) r = refl

sessions-branch :
    (b : Bool) (s r : TelemetryRecorder)
    → s.sessions ≡ r.sessions
    → (if b then s else r).sessions ≡ r.sessions
sessions-branch true s r h = h
sessions-branch false s r h = refl

pub sessions-end_chats :
    (id : Text) (m : Map Text ChatState) (r : TelemetryRecorder)
    → (end_chats id m r).sessions ≡ r.sessions
unfolding end_chats
sessions-end_chats id [] r = refl
sessions-end_chats id ((k, chat) ∷ m) r =
    let b = text_eq chat.session_id id in
    let s = if b then end_span chat.span r else r in
    sessions-end_chats id m s
    ∙ sessions-branch b (end_span chat.span r) r (sessions-end_span chat.span r)

pub sessions-end_tools :
    (id : Text) (m : Map Text ToolSpanState) (r : TelemetryRecorder)
    → (end_tools id m r).sessions ≡ r.sessions
unfolding end_tools
sessions-end_tools id [] r = refl
sessions-end_tools id ((k, tool) ∷ m) r =
    let b = text_eq tool.session_id id in
    let s = if b then end_span tool.span r else r in
    sessions-end_tools id m s
    ∙ sessions-branch b (end_span tool.span r) r (sessions-end_span tool.span r)

-- What is held does not grow where the spans that were dropped were ended.
chats_closed-IsFair :
    (n : ℕ) (id : Text) (r : TelemetryRecorder)
    → IsFair n r
        (record (end_chats id r.chats r) { chats = other_chats id (end_chats id r.chats r).chats })
chats_closed-IsFair n id r =
    let e = end_chats-IsEnding n id r.chats r in
    omega (
      arith,
      e.more,
      ap (λ m. held chat_span n (other_chats id m)) e.chats,
      ap (held chat_span n) e.pending,
      ap (held tool_held n) e.tools,
      ap (held session_span n) (sessions-end_chats id r.chats r),
      credit_eq n (end_chats id r.chats r) r e.next,
      held-other_chats n id r.chats,
    )

tools_closed-IsFair :
    (n : ℕ) (id : Text) (r : TelemetryRecorder)
    → IsFair n r
        (record (end_tools id r.tools r) { tools = other_tools id (end_tools id r.tools r).tools })
tools_closed-IsFair n id r =
    let e = end_tools-IsEnding n id r.tools r in
    omega (
      arith,
      e.more,
      ap (held chat_span n) e.chats,
      ap (held chat_span n) e.pending,
      ap (λ m. held tool_held n (other_tools id m)) e.tools,
      ap (held session_span n) (sessions-end_tools id r.tools r),
      credit_eq n (end_tools id r.tools r) r e.next,
      held-other_tools n id r.tools,
    )

end_session-IsFair :
    (n : ℕ) (o : Option SessionState) (id : Text) (now : ℕ) (r : TelemetryRecorder)
    → lookup id r.sessions ≡ o
    → IsFair n r (end_session o id now r)
unfolding end_session
end_session-IsFair n none id now r found = IsFair-refl n r
end_session-IsFair n (some state) id now r found =
    let s = settle_active_time (some state) id now r in
    let c = record (end_span state.span s) {
      sessions = delete id (end_span state.span s).sessions;
    } in
    IsFair-trans n r s c
      (IsSpared-IsFair n r s (settle_active_time-IsSpared (some state) id now r found))
      (closed-IsFair n id state.span s
        (sym (settle_active_time-span (some state) id now n r found)))

pending_closed-IsFair :
    (n : ℕ) (id : Text) (r : TelemetryRecorder)
    → let p = end_span (span_of_chat (lookup id r.pending_chats)) r in
      IsFair n r (record p { pending_chats = delete id p.pending_chats })
pending_closed-IsFair n id r =
    let o = span_of_chat (lookup id r.pending_chats) in
    let e = end_span-IsEnding n o r in
    omega (
      arith,
      unpended-balance n id r,
      credit_eq n (end_span o r) r e.next,
      ap (λ m. held chat_span n (delete id m)) e.pending,
      ap (held chat_span n) e.pending,
      held-delete chat_span n id r.pending_chats,
    )

pub forget_session-IsFair :
    (n : ℕ) (id : Text) (now : ℕ) (r : TelemetryRecorder) → IsFair n r (forget_session id now r)
unfolding forget_session
forget_session-IsFair n id now r =
    let s = end_session (lookup id r.sessions) id now r in
    let p = end_span (span_of_chat (lookup id s.pending_chats)) s in
    let p' = record p { pending_chats = delete id p.pending_chats } in
    let c = end_chats id p.chats p' in
    let c' = record c { chats = other_chats id c.chats } in
    let t = end_tools id c.tools c' in
    let t' = record t { tools = other_tools id t.tools } in
    let fair : IsFair n r t' =
      IsFair-trans n r s t' (end_session-IsFair n (lookup id r.sessions) id now r refl) (
        IsFair-trans n s p' t' (pending_closed-IsFair n id s)
          (IsFair-trans n p' c' t' (chats_closed-IsFair n id p') (tools_closed-IsFair n id c'))) in
    let q = prune_completed id (record t {
      tools = other_tools id t.tools;
      diffs = other_diffs id t.diffs;
      permissions = other_permissions id t.permissions;
      auto_decided = undecided id t.permissions t.auto_decided;
    }) in
    IsFair-trans n r t' q fair (IsSpared-IsFair n t' q (pruned id t t'.tools))
  where
    pruned :
        (id : Text) (t : TelemetryRecorder) (m : Map Text ToolSpanState)
        → IsSpared
            (record t { tools = m })
            (prune_completed id (record t {
              tools = m;
              diffs = other_diffs id t.diffs;
              permissions = other_permissions id t.permissions;
              auto_decided = undecided id t.permissions t.auto_decided;
            }))
    pruned id t m = unfold prune_completed in record { balances = λ n. refl; next = refl }
