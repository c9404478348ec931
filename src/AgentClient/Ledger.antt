-- ===== src/AgentClient/Ledger.antt =====
-- packages/opencode-browser/src/agent-client.ts: every call of `send` is answered at most once, and
-- none is lost from the client's books.
use mathlib.Core.List.{append-nil}
use lightbridge_opencode_too.Common.{
  ℕ, ◌+◌, ◌≡◌, refl, Bool, true, false, Option, none, some, List, [], ◌∷◌, ◌++◌, arith, ltb,
  if◌then◌else◌, Bool-cases, inl, inr,
}
use lightbridge_opencode_too.Common.Text.{Text}
use lightbridge_opencode_too.Common.Maps.{Map, lookup, delete, Text_eq}
use lightbridge_opencode_too.AgentClient.{
  AgentClient, InFlight, Waiting, Settlement, failed, ClientFault, disconnected, stopped,
  client_aborted, client_timeout, ClientEffect, hello, close_socket, answer, connected,
  connect_failed, notify_close, ClientEvent, sends_call, emit, settle, reject_each,
  reject_all_pending, woken, on_open, on_ready, on_close, stop, expire, abort_sent, reject_waiters,
  rejections, on_abort_waiting,
}
use lightbridge_opencode_too.AgentClient.Table.{
  one, in_flight, IsMinted, HasDistinctIds, delete-IsMinted, delete-HasDistinctIds,
  delete-in_flight,
}

-- How often the effects answer a call.
abbrev answered_by : ℕ → ClientEffect → ℕ
answered_by call (answer other r) = one call other
answered_by call _ = 0

unfoldable pub answered : ℕ → List ClientEffect → ℕ
answered call [] = 0
answered call (e ∷ es) = answered_by call e + answered call es

-- How often a call waits for `ready`, with its promise not rejected yet.
unfoldable pub waiting : ℕ → List Waiting → ℕ
waiting call [] = 0
waiting call (w ∷ ws) = (if w.rejected then 0 else one call w.call) + waiting call ws

-- How often a call is about to go on after the wait.
unfoldable pub queued : ℕ → List Waiting → ℕ
queued call [] = 0
queued call (w ∷ ws) = one call w.call + queued call ws

-- How often the events ask for a call.
abbrev pub asked_by : ℕ → ClientEvent → ℕ
asked_by call (sends_call other cmd signal) = one call other
asked_by call _ = 0

unfoldable pub asked : ℕ → List ClientEvent → ℕ
asked call [] = 0
asked call (e ∷ es) = asked_by call e + asked call es

pub answered-append :
    (call : ℕ) (xs ys : List ClientEffect)
    → answered call (xs ++ ys) ≡ answered call xs + answered call ys
unfolding answered
answered-append call [] ys = omega arith
answered-append call (x ∷ xs) ys = omega (arith, answered-append call xs ys)

pub queued-append :
    (call : ℕ) (xs ys : List Waiting) → queued call (xs ++ ys) ≡ queued call xs + queued call ys
unfolding queued
queued-append call [] ys = omega arith
queued-append call (x ∷ xs) ys = omega (arith, queued-append call xs ys)

pub waiting-append :
    (call : ℕ) (xs ys : List Waiting) → waiting call (xs ++ ys) ≡ waiting call xs + waiting call ys
unfolding waiting
waiting-append call [] ys = omega arith
waiting-append call (x ∷ xs) ys = omega (arith, waiting-append call xs ys)

answered-reject_each :
    (call : ℕ) (fault : ClientFault) (m : Map Text InFlight)
    → answered call (reject_each fault m) ≡ in_flight call m
unfolding answered reject_each in_flight
answered-reject_each call fault [] = refl
answered-reject_each call fault ((id, p) ∷ m) = omega (arith, answered-reject_each call fault m)

queued-woken : (call : ℕ) (ws : List Waiting) → queued call (woken ws) ≡ waiting call ws
unfolding queued woken waiting
queued-woken call [] = refl
queued-woken call (w ∷ ws) = elim (Bool-cases w.rejected) [
  | inl e ↦ rw e (omega (arith, queued-woken call ws))
  | inr e ↦ rw e (omega (arith, queued-woken call ws))
]

rejections_lem :
    (call other : ℕ) (ws : List Waiting)
    → waiting call (reject_waiters other ws) + answered call (rejections other ws) ≡ waiting call ws
unfolding waiting answered reject_waiters rejections
rejections_lem call other [] = refl
rejections_lem call other (w ∷ ws) =
    ground (arith, answered-append call, rejections_lem call other ws)

-- A call is counted once, wherever it is.
abbrev pub balance : ℕ → AgentClient → ℕ
balance call c =
    ((answered call c.out + in_flight call c.pending) + waiting call c.ready_waiters)
    + queued call c.resumed

pub record IsKept (call asks : ℕ) (c : AgentClient) : Type 0 where
  pub minted : IsMinted c.id_counter c.pending
  pub distinct : HasDistinctIds c.pending
  pub offline : c.has_socket ≡ false → c.pending ≡ []
  pub books : balance call c ≡ asks

pub settle-IsKept :
    (call asks : ℕ) (o : Option InFlight) (id : Text) (r : Settlement) (c : AgentClient)
    → lookup id c.pending ≡ o
    → IsKept call asks c
    → IsKept call asks (settle o id r c)
unfolding settle emit answered
settle-IsKept call asks none id r c e k = k
settle-IsKept call asks (some p) id r c e k = record {
  minted = delete-IsMinted c.id_counter id c.pending k.minted;
  distinct = delete-HasDistinctIds id c.pending k.distinct;
  offline = λ off. rw (k.offline off) delete_nil;
  books = omega (
    arith,
    answered-append call c.out (answer p.call r ∷ []),
    delete-in_flight call id p c.pending e k.distinct,
    k.books,
  );
}
  where
    delete_nil : delete {V = InFlight} id [] ≡ []
    delete_nil = unfold delete in refl

pub expire-IsKept :
    (call asks : ℕ) (o : Option InFlight) (id : Text) (c : AgentClient)
    → lookup id c.pending ≡ o
    → IsKept call asks c
    → IsKept call asks (expire o id c)
unfolding expire
expire-IsKept call asks none id c e k = k
expire-IsKept call asks (some p) id c e k = elim (Bool-cases (ltb 0 p.timer_ms)) [
  | inl t ↦ rw t (settle-IsKept call asks (some p) id (failed client_timeout) c e k)
  | inr t ↦ rw t k
]

pub abort_sent-IsKept :
    (call asks : ℕ) (o : Option InFlight) (id : Text) (c : AgentClient)
    → lookup id c.pending ≡ o
    → IsKept call asks c
    → IsKept call asks (abort_sent o id c)
unfolding abort_sent
abort_sent-IsKept call asks none id c e k = k
abort_sent-IsKept call asks (some p) id c e k = elim (Bool-cases p.has_signal) [
  | inl t ↦ rw t (settle-IsKept call asks (some p) id (failed client_aborted) c e k)
  | inr t ↦ rw t k
]

pub branch-IsKept :
    (call asks : ℕ) (b : Bool) (c d : AgentClient)
    → (b ≡ true → IsKept call asks c)
    → (b ≡ false → IsKept call asks d)
    → IsKept call asks (if b then c else d)
branch-IsKept call asks true c d h k = h refl
branch-IsKept call asks false c d h k = k refl

pub emit-IsKept :
    (call asks : ℕ) (e : ClientEffect) (c : AgentClient)
    → answered_by call e ≡ 0
    → IsKept call asks c
    → IsKept call asks (emit e c)
unfolding emit answered
emit-IsKept call asks e c silent k = record {
  minted = k.minted;
  distinct = k.distinct;
  offline = k.offline;
  books = omega (arith, answered-append call c.out (e ∷ []), silent, k.books);
}

-- A call is answered that the books of `c` do not hold yet.
pub answer-IsKept :
    (call asks other : ℕ) (r : Settlement) (c : AgentClient)
    → IsKept call asks c
    → IsKept call (one call other + asks) (emit (answer other r) c)
unfolding emit answered
answer-IsKept call asks other r c k = record {
  minted = k.minted;
  distinct = k.distinct;
  offline = k.offline;
  books = omega (arith, answered-append call c.out (answer other r ∷ []), k.books);
}

pub reject_all_pending-IsKept :
    (call asks : ℕ) (fault : ClientFault) (c : AgentClient)
    → balance call c ≡ asks
    → IsKept call asks (reject_all_pending fault c)
unfolding reject_all_pending in_flight
reject_all_pending-IsKept call asks fault c k = record {
  minted = tt;
  distinct = tt;
  offline = λ off. refl;
  books = omega (
    arith,
    answered-append call c.out (reject_each fault c.pending),
    answered-reject_each call fault c.pending,
    k,
  );
}

pub stop-IsKept : (call asks : ℕ) (c : AgentClient) → IsKept call asks c → IsKept call asks (stop c)
unfolding stop answered
stop-IsKept call asks c k =
    reject_all_pending-IsKept call asks stopped
      (record c {
        closed = true;
        has_socket = false;
        out = c.out ++ (if c.has_socket then close_socket ∷ [] else []);
      })
      (elim (Bool-cases c.has_socket) [
        | inl e ↦ rw e (omega (arith, answered-append call c.out (close_socket ∷ []), k.books))
        | inr e ↦ rw (e, append-nil) k.books
      ])

answered_silent :
    (call : ℕ) (xs : List ClientEffect) (b : Bool) (e : ClientEffect)
    → answered_by call e ≡ 0
    → answered call (xs ++ (if b then [] else e ∷ [])) ≡ answered call xs
unfolding answered
answered_silent call xs true e silent = omega (arith, answered-append call xs [])
answered_silent call xs false e silent = omega (arith, answered-append call xs (e ∷ []), silent)

pub on_close-IsKept :
    (call asks : ℕ) (c : AgentClient) → IsKept call asks c → IsKept call asks (on_close c)
unfolding on_close reject_all_pending
on_close-IsKept call asks c k =
    let r : IsKept call asks (reject_all_pending disconnected (record c { ready = false })) =
      reject_all_pending-IsKept call asks disconnected (record c { ready = false }) k.books in
    record {
      minted = tt;
      distinct = tt;
      offline = λ off. refl;
      books = omega (
        arith,
        answered_silent call (c.out ++ reject_each disconnected c.pending) c.settled connect_failed
            refl,
        answered_silent call
            ((c.out ++ reject_each disconnected c.pending)
              ++ (if c.settled then [] else connect_failed ∷ []))
            c.closed notify_close refl,
        r.books,
      );
    }

pub on_ready-IsKept :
    (call asks : ℕ) (c : AgentClient) → IsKept call asks c → IsKept call asks (on_ready c)
unfolding on_ready waiting
on_ready-IsKept call asks c k = record {
  minted = k.minted;
  distinct = k.distinct;
  offline = k.offline;
  books = omega (
    arith,
    answered_silent call c.out c.settled connected refl,
    queued-append call c.resumed (woken c.ready_waiters),
    queued-woken call c.ready_waiters,
    k.books,
  );
}

pub on_open-IsKept :
    (call asks : ℕ) (c : AgentClient) → IsKept call asks c → IsKept call asks (on_open c)
unfolding on_open
on_open-IsKept call asks c k =
    branch-IsKept call asks c.has_socket (emit hello c) c
      (λ e. emit-IsKept call asks hello c refl k) (λ e. k)

pub on_abort_waiting-IsKept :
    (call asks other : ℕ) (c : AgentClient)
    → IsKept call asks c
    → IsKept call asks (on_abort_waiting other c)
unfolding on_abort_waiting
on_abort_waiting-IsKept call asks other c k = record {
  minted = k.minted;
  distinct = k.distinct;
  offline = k.offline;
  books = omega (
    arith,
    answered-append call c.out (rejections other c.ready_waiters),
    rejections_lem call other c.ready_waiters,
    k.books,
  );
}
