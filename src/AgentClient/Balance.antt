-- ===== src/AgentClient/Balance.antt =====
-- packages/opencode-browser/src/agent-client.ts: every event keeps the books of a client.
use lightbridge_opencode_too.Common.{
  ℕ, ◌+◌, ◌≤◌, ◌<◌, ◌≡◌, refl, sym, ◌∙◌, ap, Bool, true, false, not, ◌||◌, Option, none, some, List,
  [], ◌∷◌, ◌++◌, arith, if◌then◌else◌, or_else, length, Bool-cases, inl, inr,
}
use lightbridge_opencode_too.Common.Text.{Text}
use lightbridge_opencode_too.Common.Maps.{lookup, set, Text_eq}
use lightbridge_opencode_too.Broker.{Command}
use lightbridge_opencode_too.Broker.Routing.{next_id, max_safe_integer}
use lightbridge_opencode_too.AgentClient.{
  AgentClient, InFlight, Waiting, Settlement, failed, disconnected, client_aborted,
  client_send_failed, command, answer, ClientEvent, opens, readies, closes, stops, sends_call,
  resumes, results, times_out, aborts, aborts_waiting, emit, connect, settle, settle_with,
  reject_all_pending, on_open, on_ready, on_close, stop, wait_ready, has_signal_of, send,
  local_timeout, issue, resume_one, resume_from, resume, expire, on_timeout, abort_sent, on_abort,
  on_abort_waiting, on_event, run,
}
use lightbridge_opencode_too.AgentClient.Ids.{id_of, next_id_lem, next_id-id_of}
use lightbridge_opencode_too.AgentClient.Table.{
  one, in_flight, IsMinted-lookup, IsMinted-mono, set-IsMinted, set-HasDistinctIds, set-in_flight,
}
use lightbridge_opencode_too.AgentClient.Ledger.{
  answered, waiting, queued, asked_by, asked, balance, IsKept, queued-append, waiting-append,
  settle-IsKept, expire-IsKept, abort_sent-IsKept, branch-IsKept, emit-IsKept, answer-IsKept,
  stop-IsKept, on_close-IsKept, on_ready-IsKept, on_open-IsKept, on_abort_waiting-IsKept,
}

wait_ready-IsKept :
    (call asks : ℕ) (w : Waiting) (c : AgentClient)
    → w.rejected ≡ false
    → IsKept call asks c
    → IsKept call (one call w.call + asks) (wait_ready w c)
unfolding wait_ready queued waiting
wait_ready-IsKept call asks w c fresh k =
    branch-IsKept call (one call w.call + asks) c.ready (record c { resumed = c.resumed ++ w ∷ [] })
      _
      (λ e. record {
        minted = k.minted;
        distinct = k.distinct;
        offline = k.offline;
        books = omega (arith, queued-append call c.resumed (w ∷ []), k.books);
      })
      (λ e.
        branch-IsKept call (one call w.call + asks) (c.closed || not c.has_socket)
          (emit (answer w.call (failed disconnected)) c)
          (record c { ready_waiters = c.ready_waiters ++ w ∷ [] })
          (λ f. answer-IsKept call asks w.call (failed disconnected) c k)
          (λ f. record {
            minted = k.minted;
            distinct = k.distinct;
            offline = k.offline;
            books =
                omega
                  (arith, waiting-append call c.ready_waiters (w ∷ []), one_waiting fresh, k.books);
          }))
  where
    one_waiting : w.rejected ≡ false → (if w.rejected then 0 else one call w.call) ≡ one call w.call
    one_waiting e = rw e

send-IsKept :
    (call asks other : ℕ) (cmd : Command) (signal : Option Bool) (c : AgentClient)
    → IsKept call asks c
    → IsKept call (one call other + asks) (send other cmd signal c)
unfolding send
send-IsKept call asks other cmd signal c k =
    branch-IsKept call (one call other + asks) (or_else signal false)
      (emit (answer other (failed client_aborted)) c) _
      (λ e. answer-IsKept call asks other (failed client_aborted) c k)
      (λ e.
        wait_ready-IsKept call asks
          (record { call = other; cmd = cmd; has_signal = has_signal_of signal; rejected = false })
          c refl k)

-- The table with one command more, whose call the books of `c` do not hold.
entered-IsKept :
    (call asks : ℕ) (p : InFlight) (c : AgentClient)
    → c.id_counter + 1 < max_safe_integer
    → c.has_socket ≡ true
    → IsKept call asks c
    → IsKept call (one call p.call + asks) (record c {
      id_counter = (next_id c.id_counter).0;
      pending = set (next_id c.id_counter).1 p c.pending;
    })
entered-IsKept call asks p c room online k =
    rw (next_id_lem c.id_counter room, next_id-id_of c.id_counter room)
      (let absent : lookup (id_of (c.id_counter + 1)) c.pending ≡ none =
          IsMinted-lookup c.id_counter (c.id_counter + 1) c.pending (omega arith) k.minted in
        record {
          minted =
              set-IsMinted (c.id_counter + 1) (c.id_counter + 1) p c.pending (omega arith)
                (IsMinted-mono c.id_counter (c.id_counter + 1) c.pending (omega arith) k.minted);
          distinct = set-HasDistinctIds (id_of (c.id_counter + 1)) p c.pending absent k.distinct;
          offline = λ off. cc (sym online ∙ off);
          books =
              omega
                (arith, set-in_flight call (id_of (c.id_counter + 1)) p c.pending absent, k.books);
        })

issue-IsKept :
    (call asks : ℕ) (sends : Bool) (w : Waiting) (c : AgentClient)
    → c.id_counter + 1 < max_safe_integer
    → c.has_socket ≡ true
    → IsKept call asks c
    → IsKept call (one call w.call + asks) (issue sends w c)
unfolding issue settle_with
issue-IsKept call asks sends w c room online k =
    let p : InFlight = record {
      call = w.call;
      timer_ms = local_timeout c.timeout_ms w.cmd.timeout_ms;
      has_signal = w.has_signal;
    } in
    let id = (next_id c.id_counter).1 in
    let c' = record c { id_counter = (next_id c.id_counter).0; pending = set id p c.pending } in
    let k' : IsKept call (one call w.call + asks) c' = entered-IsKept call asks p c room online k in
    branch-IsKept call (one call w.call + asks) sends (emit (command id w.cmd) c') _
      (λ e. emit-IsKept call (one call w.call + asks) (command id w.cmd) c' refl k')
      (λ e.
        settle-IsKept call (one call w.call + asks) (lookup id c'.pending) id
          (failed client_send_failed) c' refl k')

resume_from-IsKept :
    (call asks : ℕ) (sends : Bool) (ws : List Waiting) (c : AgentClient)
    → c.resumed ≡ ws
    → c.id_counter + 1 < max_safe_integer
    → IsKept call asks c
    → IsKept call asks (resume_from sends ws c)
unfolding resume_from resume_one queued
resume_from-IsKept call asks sends [] c e room k = k
resume_from-IsKept call asks sends (w ∷ ws) c e room k =
    let d = record c { resumed = ws } in
    let first : queued call c.resumed ≡ one call w.call + queued call ws = ap (queued call) e in
    let rest = balance call d in
    let k' : IsKept call rest d = record {
      minted = k.minted;
      distinct = k.distinct;
      offline = k.offline;
      books = refl;
    } in
    let all : one call w.call + rest ≡ asks = omega (arith, first, k.books) in
    rw (← all) (
      branch-IsKept call (one call w.call + rest) c.has_socket (issue sends w d)
        (emit (answer w.call (failed disconnected)) d)
        (λ online. issue-IsKept call rest sends w d room online k')
        (λ off. answer-IsKept call rest w.call (failed disconnected) d k'))

zero_plus : (n : ℕ) → 0 + n ≡ n
zero_plus n = omega arith

on_event-IsKept :
    (call asks : ℕ) (e : ClientEvent) (c : AgentClient)
    → c.id_counter + 1 < max_safe_integer
    → IsKept call asks c
    → IsKept call (asked_by call e + asks) (on_event e c)
unfolding on_event settle_with on_timeout on_abort resume
on_event-IsKept call asks opens c room k = rw zero_plus (on_open-IsKept call asks c k)
on_event-IsKept call asks readies c room k = rw zero_plus (on_ready-IsKept call asks c k)
on_event-IsKept call asks closes c room k = rw zero_plus (on_close-IsKept call asks c k)
on_event-IsKept call asks stops c room k = rw zero_plus (stop-IsKept call asks c k)
on_event-IsKept call asks (sends_call other cmd signal) c room k =
    send-IsKept call asks other cmd signal c k
on_event-IsKept call asks (resumes sends) c room k =
    rw zero_plus (resume_from-IsKept call asks sends c.resumed c refl room k)
on_event-IsKept call asks (results id r) c room k =
    rw zero_plus (settle-IsKept call asks _ id r c refl k)
on_event-IsKept call asks (times_out id) c room k =
    rw zero_plus (expire-IsKept call asks _ id c refl k)
on_event-IsKept call asks (aborts id) c room k =
    rw zero_plus (abort_sent-IsKept call asks _ id c refl k)
on_event-IsKept call asks (aborts_waiting other) c room k =
    rw zero_plus (on_abort_waiting-IsKept call asks other c k)

settle-id_counter :
    (o : Option InFlight) (id : Text) (r : Settlement) (c : AgentClient)
    → (settle o id r c).id_counter ≡ c.id_counter
unfolding settle emit
settle-id_counter none id r c = refl
settle-id_counter (some p) id r c = refl

resume_from-id_counter :
    (sends : Bool) (ws : List Waiting) (c : AgentClient)
    → c.id_counter + 1 < max_safe_integer
    → (resume_from sends ws c).id_counter ≤ c.id_counter + 1
unfolding resume_from resume_one issue emit settle_with
resume_from-id_counter sends [] c room = omega arith
resume_from-id_counter sends (w ∷ ws) c room = elim (Bool-cases c.has_socket) [
  | inr e ↦ rw e (omega arith)
  | inl e ↦ rw e (elim (Bool-cases sends) [
    | inl f ↦ rw f (omega (arith, next_id_lem c.id_counter room))
    | inr f ↦ rw (f, settle-id_counter) (omega (arith, next_id_lem c.id_counter room))
  ])
]

on_event-id_counter :
    (e : ClientEvent) (c : AgentClient)
    → c.id_counter + 1 < max_safe_integer
    → (on_event e c).id_counter ≤ c.id_counter + 1
unfolding on_event resume settle_with
on_event-id_counter opens c room = unfold on_open emit in ground arith
on_event-id_counter readies c room = unfold on_ready in omega arith
on_event-id_counter closes c room = unfold on_close reject_all_pending in omega arith
on_event-id_counter stops c room = unfold stop reject_all_pending in omega arith
on_event-id_counter (sends_call other cmd signal) c room =
    unfold send wait_ready emit in ground arith
on_event-id_counter (resumes sends) c room = resume_from-id_counter sends c.resumed c room
on_event-id_counter (results id r) c room = rw settle-id_counter (omega arith)
on_event-id_counter (times_out id) c room = unfold on_timeout expire settle emit in ground arith
on_event-id_counter (aborts id) c room = unfold on_abort abort_sent settle emit in ground arith
on_event-id_counter (aborts_waiting other) c room = unfold on_abort_waiting in omega arith

run-IsKept :
    (call asks : ℕ) (es : List ClientEvent) (c : AgentClient)
    → c.id_counter + length es < max_safe_integer
    → IsKept call asks c
    → IsKept call (asked call es + asks) (run es c)
unfolding run asked
run-IsKept call asks [] c room k = rw zero_plus k
run-IsKept call asks (e ∷ es) c room k =
    let rest : IsKept call (asked call es + (asked_by call e + asks)) (run es (on_event e c)) =
      run-IsKept call (asked_by call e + asks) es (on_event e c)
        (omega (arith, on_event-id_counter e c (omega arith), room))
        (on_event-IsKept call asks e c (omega arith) k) in
    let sums : asked call es + (asked_by call e + asks) ≡ (asked_by call e + asked call es) + asks =
      omega arith in
    rw sums at rest

new_client : (call timeout_ms id_counter : ℕ) → IsKept call 0 (connect timeout_ms id_counter)
unfolding connect answered in_flight waiting queued
new_client call timeout_ms id_counter = record {
  minted = tt;
  distinct = tt;
  offline = λ off. refl;
  books = refl;
}

-- Whatever happens to a client after `connect`, in any order, a call of `send` is answered, in flight,
-- about to go on, or waits for `ready`, and that once for each time it was made: so no call is
-- answered twice, nor lost; and a client without a socket has no command in flight. The commands of
-- the process must be fewer than its ids.
pub run-balance :
    (call timeout_ms id_counter : ℕ) (es : List ClientEvent)
    → id_counter + length es < max_safe_integer
    → (balance call (run es (connect timeout_ms id_counter)) ≡ asked call es)
      × ((run es (connect timeout_ms id_counter)).has_socket ≡ false
          → (run es (connect timeout_ms id_counter)).pending ≡ [])
run-balance call timeout_ms id_counter es room =
    let k : IsKept call (asked call es + 0) (run es (connect timeout_ms id_counter)) =
      run-IsKept call 0 es (connect timeout_ms id_counter) (unfold connect in room)
        (new_client call timeout_ms id_counter) in
    (omega (arith, k.books), k.offline)
