-- ===== src/Ratelimit/Gate.antt =====
-- packages/opencode-ratelimit/src/plugin.ts, `waitGate`: the loop of a waiting call, one turn for
-- each round. A turn runs without an `await`, at one reading of the clock. `sleep` is a timer with
-- the time at which it is due; `fire` is its end, with the `finally` that retires the shared timer.
pub mod Invariant
pub mod Waiting
pub mod Burst
use lightbridge_opencode_too.Common.{
  ℕ, suc, ◌+◌, ◌≡◌, Bool, true, false, Option, none, some, List, [], ◌∷◌, ltb, ◌==◌, if◌then◌else◌,
}
use lightbridge_opencode_too.Common.Int.{ℤ, pos, ◌+ℤ◌, ◌-ℤ◌, leb_ℤ, ltb_ℤ, min_ℤ, max_ℤ}
use lightbridge_opencode_too.Ratelimit.Fetch.{ProviderRateState}

-- The bucket with the timers that run for it; `fresh` numbers the next one.
pub record Shared : Type 0 where
  pub bucket : ProviderRateState
  pub timers : List (ℕ × ℤ)
  pub fresh : ℕ

-- `none` is `Number.POSITIVE_INFINITY`.
unfoldable pub deadline_after : ℤ → ℕ → Option ℤ
deadline_after now max_wait_ms = if ltb 0 max_wait_ms then some (now +ℤ pos max_wait_ms) else none

abbrev pub target : ProviderRateState → Option ℤ → ℤ
target bucket none = bucket.cooldown_until_ms
target bucket (some deadline) = min_ℤ bucket.cooldown_until_ms deadline

-- The shared timer, unless it would end later than this call needs.
unfoldable pub reuse : Option ℕ → Option ℤ → ℤ → ℤ → Option ℕ
reuse shared none now remaining_ms = shared
reuse shared (some until) now remaining_ms =
    if ltb_ℤ remaining_ms (until -ℤ now) then none else shared

-- A timer becomes the shared one only where none is in flight.
unfoldable pub publish : ProviderRateState → ℕ → ℤ → ProviderRateState
publish bucket id due = elim bucket.cooldown_promise [
  | some shared ↦ bucket
  | none ↦ record bucket { cooldown_promise = some id; cooldown_promise_until_ms = some due }
]

create_timer : Shared → ℤ → Shared × Option ℕ
unfolding publish
create_timer w due = (
  record {
    bucket = publish w.bucket w.fresh due;
    timers = (w.fresh, due) ∷ w.timers;
    fresh = suc w.fresh;
  },
  some w.fresh,
)

await_timer : Shared → ℤ → Option ℕ → Shared × Option ℕ
unfolding create_timer
await_timer w due (some pending) = (w, some pending)
await_timer w due none = create_timer w due

-- One round of the loop: the timer that it awaits, or none where the gate lets the call through.
unfoldable pub turn : Shared → ℤ → Option ℤ → Shared × Option ℕ
unfolding reuse await_timer
turn w now deadline =
    let remaining_ms = target w.bucket deadline -ℤ now in
    if leb_ℤ remaining_ms (pos 0)
    then (w, none)
    else await_timer w (now +ℤ remaining_ms)
        (reuse w.bucket.cooldown_promise w.bucket.cooldown_promise_until_ms now remaining_ms)

is_shared : Option ℕ → ℕ → Bool
is_shared none id = false
is_shared (some shared) id = shared == id

unfoldable pub retire : ProviderRateState → ℕ → ProviderRateState
unfolding is_shared
retire bucket id =
    if is_shared bucket.cooldown_promise id
    then record bucket { cooldown_promise = none; cooldown_promise_until_ms = none }
    else bucket

unfoldable pub without : ℕ → List (ℕ × ℤ) → List (ℕ × ℤ)
without id [] = []
without id ((i, due) ∷ ts) = let rest = without id ts in if i == id then rest else (i, due) ∷ rest

unfoldable pub fire : ℕ → Shared → Shared
unfolding retire without
fire id w = record { bucket = retire w.bucket id; timers = without id w.timers; fresh = w.fresh }
