-- ===== src/Ratelimit/Gate/Waiting.antt =====
-- Any number of calls at one gate: what every reachable state satisfies, and that a call that waits
-- alone gets through.
use lightbridge_opencode_too.Common.{ℕ, Option, []}
use lightbridge_opencode_too.Common.Int.{ℤ}
use lightbridge_opencode_too.Ratelimit.Fetch.{create_provider_state, arm_cooldown, clear_cooldown}
use lightbridge_opencode_too.Ratelimit.Gate.{Shared, target, turn, fire}
use lightbridge_opencode_too.Ratelimit.Gate.Invariant.{
  IsValid, Promises, turn-IsValid, turn_bounded, fire-IsValid,
}

-- What can happen to a bucket: a round of some call, a timer's end, and a response that arms or
-- clears the cooldown.
pub data Step : Shared → Shared → Type 0 where
  round : (w : Shared) (now : ℤ) (deadline : Option ℤ) → Step w (turn w now deadline).0
  timer : (w : Shared) (id : ℕ) → Step w (fire id w)
  arm :
      (w : Shared) (until : ℤ) (max_wait_ms : ℕ)
      → Step w (record w { bucket = arm_cooldown until max_wait_ms w.bucket })
  clear : (w : Shared) → Step w (record w { bucket = clear_cooldown w.bucket })

abbrev pub new_bucket : Shared
new_bucket = record { bucket = create_provider_state; timers = []; fresh = 0 }

pub data Reachable : Shared → Type 0 where
  start : Reachable new_bucket
  next : {v w : Shared} → Reachable v → Step v w → Reachable w

Step-IsValid : {v w : Shared} → Step v w → IsValid v → IsValid w
Step-IsValid (round w now deadline) v = turn-IsValid w now deadline v
Step-IsValid (timer w id) v = fire-IsValid w id v
Step-IsValid (arm w until max_wait_ms) v =
    unfold arm_cooldown in record { published = v.published; numbered = v.numbered }
Step-IsValid (clear w) v =
    unfold clear_cooldown in record { published = v.published; numbered = v.numbered }

pub Reachable-IsValid : {w : Shared} → Reachable w → IsValid w
Reachable-IsValid start = unfold create_provider_state in record { published = tt; numbered = tt }
Reachable-IsValid (next r s) = Step-IsValid s (Reachable-IsValid r)

-- However calls, timers and responses interleave, a round at a bucket lets a call through only when
-- its target (the end of the cooldown, or its own deadline if that is earlier) has come, and
-- otherwise has it await a running timer that is due by that target.
pub gate_bounded :
    (w : Shared) (now : ℤ) (deadline : Option ℤ)
    → Reachable w
    → Promises now (target w.bucket deadline) (turn w now deadline).0 (turn w now deadline).1
gate_bounded w now deadline r = turn_bounded w now deadline (Reachable-IsValid r)
